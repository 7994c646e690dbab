-- ===== src/Qsrv/Nat46/Mint.antt =====
-- internal/qsrv/nat46.go: the search for a free stand-in.
use native.Mathlib.Nat.{add-zero, add-mod_right, mod-add-mod, mod-eq_of_lt, mod-lt}
use qd.Prelude.{
  ℕ, zero, suc, ◌+◌, ◌-◌, ◌%◌, ◌^◌, ◌≤◌, ◌<◌, ◌≡◌, refl, sym, ap, ◌∙◌, ◌⊎◌, inl, inr, none, some,
  List, arith, length, Option-cases, dec_lt,
}
use qd.Prelude.Dict.{find, remove, find-remove_ne, length-remove-lt}
use qd.Netip.{Addr, v4, Addr-discrete}
use qd.Qsrv.Nat46.{Pair, mint_loop}

abbrev pub Table : Type 0
Table = List (Addr × Pair)

abbrev IsTaken : Table → Addr → Type 0
IsTaken m a = (p : Pair) × (find Addr-discrete a m ≡ some p)

-- The address of the slot `r`.
abbrev pub slot_addr : ℕ → ℕ → Addr
slot_addr base r = v4 ((base + r + 1) % 2 ^ 32)

v4_injective : (a b : ℕ) → v4 a ≡ v4 b → a ≡ b
v4_injective a b e = cc

pub slot_addr-injective :
    (base r k : ℕ)
    → base + r + 1 < 2 ^ 32
    → base + k + 1 < 2 ^ 32
    → slot_addr base r ≡ slot_addr base k
    → r ≡ k
slot_addr-injective base r k fr fk e =
    let same : (base + r + 1) % 2 ^ 32 ≡ (base + k + 1) % 2 ^ 32 = v4_injective _ _ e in omega arith

-- The pigeonhole: `n` slots that are taken need `n` pairs.
pigeonhole :
    (n base : ℕ) (m : Table)
    → base + n < 2 ^ 32
    → ((r : ℕ) → r < n → IsTaken m (slot_addr base r))
    → n ≤ length m
pigeonhole zero base m fits all = omega arith
pigeonhole (suc n) base m fits all =
    let (p, e) = all n (omega arith) in
    let last = slot_addr base n in
    let fewer = length-remove-lt Addr-discrete last p m e in
    let rest = pigeonhole n base (remove Addr-discrete last m) (omega arith) (λ r h.
      let (q, f) = all r (omega arith) in
      (
        q,
        find-remove_ne Addr-discrete last (slot_addr base r) m (λ e.
              let same = slot_addr-injective base n r (omega arith) (omega arith) e in
              absurd (omega arith))
            ∙ f,
      )) in
    omega arith

-- The cursor of the next round.
abbrev forward : ℕ → ℕ → ℕ
forward rm c = (c + 1) % 2 ^ 32 % rm

-- The result of the loop, with the slot that it stopped at.
pub record Minted (base rm : ℕ) (m : Table) (r : ℕ × Addr) : Type 0 where
  pub bounded : r.0 < rm
  pub at_slot : r.1 ≡ slot_addr base r.0
  pub free : find Addr-discrete r.1 m ≡ none

forward_ahead : (rm d j : ℕ) → d < rm → rm < 2 ^ 32 → (forward rm d + j) % rm ≡ (d + suc j) % rm
forward_ahead rm d j low fits =
    let small : (d + 1) % 2 ^ 32 ≡ d + 1 = mod-eq_of_lt (omega arith) in
    rw small (mod-add-mod (d + 1) rm j ∙ ap (λ (t : ℕ). t % rm) (omega arith))

module _ (base rm : ℕ) (m : Table) (pos : 1 ≤ rm) (fits : rm < 2 ^ 32) where
  row_suc :
      (k d : ℕ)
      → d < rm
      → (p : Pair) → find Addr-discrete (slot_addr base d) m ≡ some p
      → ((j : ℕ) → j < k → IsTaken m (slot_addr base ((forward rm d + j) % rm)))
      → (j : ℕ) → j < suc k
      → IsTaken m (slot_addr base ((d + j) % rm))
  row_suc k d low p taken row zero h =
      let here : (d + 0) % rm ≡ d = ap (λ (t : ℕ). t % rm) (add-zero d) ∙ mod-eq_of_lt low in
      (p, ap (λ (t : ℕ). find Addr-discrete (slot_addr base t) m) here ∙ taken)
  row_suc k d low p taken row (suc j) h =
      let (q, e) = row j (omega arith) in
      let ahead = forward_ahead rm d j low fits in
      (q, ap (λ (t : ℕ). find Addr-discrete (slot_addr base t) m) (sym ahead) ∙ e)

  -- In `k` rounds the loop finds a free slot, or `k` slots in a row are taken.
  mint_all :
      (k c : ℕ) (last : Addr)
      → Minted base rm m (mint_loop k base rm m c last)
        ⊎ ((j : ℕ) → j < k → IsTaken m (slot_addr base ((forward rm c + j) % rm)))
  unfolding mint_loop
  mint_all zero c last = inr (λ j h. absurd (omega arith))
  mint_all (suc k) c last =
      let d = forward rm c in
      let low : d < rm = mod-lt ((c + 1) % 2 ^ 32) pos in
      elim (Option-cases (find Addr-discrete (slot_addr base d) m)) [
        | inl free ↦ inl (rw free (record { bounded = low; at_slot = refl; free = free }))
        | inr (p, taken) ↦ rw taken (elim (mint_all k d (slot_addr base d)) [
          | inl hit ↦ inl hit
          | inr row ↦ inr (row_suc k d low p taken row)
        ])
      ]

-- Every slot is so many steps ahead of a given one.
ahead_of : (rm d r : ℕ) → d < rm → r < rm → (j : ℕ) × (j < rm) × ((d + j) % rm ≡ r)
ahead_of rm d r hd hr = elim (dec_lt r d) [
  | no up ↦ (
    r - d,
    omega arith,
    ap (λ (t : ℕ). t % rm) (let e : d + (r - d) ≡ r = omega arith in e) ∙ mod-eq_of_lt hr,
  )
  | yes down ↦ (
    r + rm - d,
    omega arith,
    ap (λ (t : ℕ). t % rm) (let e : d + (r + rm - d) ≡ r + rm = omega arith in e)
        ∙ add-mod_right r rm
        ∙ mod-eq_of_lt hr,
  )
]

-- With fewer pairs than slots, and the slots below 2^32, the loop of `stand` stops at a slot
-- that is free.
pub mint_free :
    (base rm : ℕ) (m : Table) (c : ℕ) (last : Addr)
    → base + rm < 2 ^ 32
    → length m < rm
    → Minted base rm m (mint_loop rm base rm m c last)
mint_free base rm m c last fits space = elim (mint_all base rm m pos fits' rm c last) [
  | inl hit ↦ hit
  | inr row ↦
      let d = forward rm c in
      let low : d < rm = mod-lt ((c + 1) % 2 ^ 32) pos in
      let full = pigeonhole rm base m fits (λ r h.
        let (j, hj, e) = ahead_of rm d r low h in
        let (p, f) = row j hj in
        (p, ap (λ (t : ℕ). find Addr-discrete (slot_addr base t) m) (sym e) ∙ f)) in
      absurd (omega arith)
]
  where
    pos : 1 ≤ rm
    pos = omega arith

    fits' : rm < 2 ^ 32
    fits' = omega arith
