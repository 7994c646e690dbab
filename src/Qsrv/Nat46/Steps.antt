-- ===== src/Qsrv/Nat46/Steps.antt =====
-- internal/qsrv/nat46.go: what each operation leaves of the two maps of the table.
use qd.Prelude.{
  ℕ, ◌+◌, ◌*◌, ◌^◌, ◌≤◌, ◌<◌, ◌≡◌, refl, ap, ◌⊎◌, inl, inr, none, some, List, [], ◌∷◌, ◌||◌, Bool,
  true, false, not, arith, length, Option-cases, Bool-cases, ltb, leb, ◌==◌, known_twice,
}
use qd.Prelude.Int.{ℤ, pos, negsuc}
use qd.Prelude.Dict.{find, remove, find-remove, length-remove-lt, Holds, Unique, Unique-Holds}
use qd.Netip.{Addr, invalid, Addr-discrete, Prefix, contains, bits, is6, is4_in6, is_known}
use qd.Qsrv.Nat46.{
  Nat46, Pair, nat_slot, clamp_slot, room, own_base, touch, drop_pair, forget_oldest, oldest_from,
  older, mint, mint_loop, stand_anew, stand, real, sweep_one, sweep_loop, sweep, nat_idle,
  nat_reuse, synthetic_base, synthetic,
}
use qd.Qsrv.Nat46.Mint.{Minted, mint_free}
use qd.Qsrv.Nat46.Pairs.{IsPaired, base_of, rm, refreshed, dropped, added}

pub clamp_bound : (slot : ℤ) → clamp_slot slot < 32
unfolding clamp_slot
clamp_bound (pos s) = ground arith
clamp_bound (negsuc s) = omega arith

pub base_lem : (slot : ℤ) → base_of slot ≡ synthetic_base + clamp_slot slot * 4096
unfolding nat_slot own_base
base_lem slot = let low = clamp_bound slot in omega arith

pub base_fits : (slot : ℤ) → base_of slot + rm < 2 ^ 32
base_fits slot = let low = clamp_bound slot in omega (arith, base_lem slot)

pub room_lem : (slot : ℤ) (n : Nat46) → n.own ≡ nat_slot slot → room n ≡ rm
unfolding room nat_slot bits
room_lem slot n e = rw e refl

module _ (slot : ℤ) where
  pub touch-IsPaired :
      (n : Nat46) (a : Addr) (now : ℕ) → IsPaired slot n → IsPaired slot (touch n a now)
  unfolding touch
  touch-IsPaired n a now v = elim (Option-cases (find Addr-discrete a n.by_v4)) [
    | inl e ↦ rw (e, touch) v
    | inr (p, e) ↦ rw (e, touch) (refreshed slot n v a p now e)
  ]

  pub drop_pair-IsPaired :
      (n : Nat46) (a : Addr) (p : Pair)
      → find Addr-discrete a n.by_v4 ≡ some p
      → IsPaired slot n
      → IsPaired slot (drop_pair n a)
  unfolding drop_pair
  drop_pair-IsPaired n a p e v = rw (e, drop_pair) (dropped slot n v a p e)

  sweep_one-IsPaired :
      (now : ℕ) (r : Nat46 × ℕ) (a : Addr) → IsPaired slot r.0 → IsPaired slot (sweep_one now r a).0
  unfolding sweep_one
  sweep_one-IsPaired now (n, gone) a v = elim (Option-cases (find Addr-discrete a n.by_v4)) [
    | inl e ↦ rw (e, sweep_one) v
    | inr (p, e) ↦ elim (Bool-cases (ltb now (p.used_at + nat_idle))) [
      | inl keep ↦ rw (e, sweep_one) (rw keep v)
      | inr go ↦ rw (e, sweep_one) (rw go (drop_pair-IsPaired n a p e v))
    ]
  ]

  pub sweep_loop-IsPaired :
      (now : ℕ) (r : Nat46 × ℕ) (es : List (Addr × Pair))
      → IsPaired slot r.0
      → IsPaired slot (sweep_loop now r es).0
  unfolding sweep_loop
  sweep_loop-IsPaired now r [] v = v
  sweep_loop-IsPaired now r ((a, p) ∷ rest) v =
      sweep_loop-IsPaired now (sweep_one now r a) rest (sweep_one-IsPaired now r a v)

  pub sweep-IsPaired : (n : Nat46) (now : ℕ) → IsPaired slot n → IsPaired slot (sweep n now).0
  unfolding sweep
  sweep-IsPaired n now v =
      let w = sweep_loop-IsPaired now (n, 0) n.by_v4 v in
      elim (Bool-cases (ltb 0 (sweep_loop now (n, 0) n.by_v4).1)) [
        | inl some_gone ↦ rw some_gone (record {
          mine = w.mine;
          there = w.there;
          back = w.back;
          placed = w.placed;
          unique = w.unique;
          sized = w.sized;
        })
        | inr none_gone ↦ rw none_gone w
      ]

  pub real-IsPaired :
      (n : Nat46) (a : Addr) (now : ℕ) → IsPaired slot n → IsPaired slot (real n a now).0
  unfolding real
  real-IsPaired n a now v = elim (Bool-cases (contains synthetic a)) [
    | inr out ↦ rw out v
    | inl inn ↦ elim (Option-cases (find Addr-discrete a n.by_v4)) [
      | inl e ↦ rw inn (rw (e, real) v)
      | inr (p, e) ↦ rw inn (rw (e, real) (touch-IsPaired n a now v))
    ]
  ]

  pub mint-Minted :
      (n : Nat46)
      → IsPaired slot n
      → length n.by_v4 < rm
      → Minted
          (base_of slot)
          rm
          n.by_v4
          (mint_loop (room n) (own_base n.own.addr) (room n) n.by_v4 n.next invalid)
  mint-Minted n v space = rw (room_lem slot n v.mine) (
      rw (ap (λ (p : Prefix). own_base p.addr) v.mine)
        (mint_free (base_of slot) rm n.by_v4 n.next invalid (base_fits slot) space))

  mint-IsPaired :
      (n : Nat46) (a6 : Addr) (now : ℕ)
      → IsPaired slot n
      → length n.by_v4 < rm
      → find Addr-discrete a6 n.by_v6 ≡ none
      → IsPaired slot (mint n a6 now).0
  unfolding mint
  mint-IsPaired n a6 now v space new =
      let g = mint-Minted n v space in
      added slot n v a6 _ now _ _ _ new g.free space g.bounded g.at_slot

-- A pair of the table and the time of its last use, or the start of the search.
abbrev pub Candidate : List (Addr × Pair) → Addr × ℕ → Type 0
Candidate m (a, u) =
    (a ≡ invalid) ⊎ ((p : Pair) × (find Addr-discrete a m ≡ some p) × (p.used_at ≡ u))

older-Candidate :
    (m : List (Addr × Pair)) (best : Addr × ℕ) (a : Addr) (p : Pair)
    → find Addr-discrete a m ≡ some p
    → Candidate m best
    → Candidate m (older best (a, p))
unfolding older
older-Candidate m (b, u) a p h c = elim (Bool-cases (u == 0 || ltb p.used_at u)) [
  | inl next ↦ rw next (inr (p, h, refl))
  | inr keep ↦ rw keep c
]

pub oldest_from-Candidate :
    (m es : List (Addr × Pair)) (best : Addr × ℕ)
    → Holds Addr-discrete m es
    → Candidate m best
    → Candidate m (oldest_from best es)
unfolding oldest_from
oldest_from-Candidate m [] best h c = c
oldest_from-Candidate m ((a, p) ∷ es) best h c =
    oldest_from-Candidate m es (older best (a, p)) h.1 (older-Candidate m best a p h.0 c)

-- What `forget_oldest` does: nothing, or one pair leaves that was not used for five minutes.
abbrev pub Forgot : Nat46 → ℕ → Nat46 × Bool → Type 0
Forgot n now (m, freed) =
    ((freed ≡ false) × (m ≡ n))
    ⊎ ((a : Addr) × (p : Pair) × (freed ≡ true)
        × (find Addr-discrete a n.by_v4 ≡ some p)
        × (p.used_at + nat_reuse ≤ now)
        × (m ≡ drop_pair n a))

pub unknown : (a : Addr) → a ≡ invalid → is_known a ≡ false
unfolding is_known
unknown a e = rw e refl

pub not_full : (a b : ℕ) → leb a b ≡ false → b < a
not_full a b h = ground arith

pub overdue :
    (a : Addr) (u now : ℕ)
    → not (is_known a) || ltb now (u + nat_reuse) ≡ false
    → (is_known a ≡ true) × (u + nat_reuse ≤ now)
overdue a u now h = ground arith

-- On a table whose stand-ins are unique, forgetOldestLocked either changes nothing and refuses,
-- or drops one pair that was not used for five minutes.
pub forget_oldest-Forgot :
    (n : Nat46) (now : ℕ) → Unique Addr-discrete n.by_v4 → Forgot n now (forget_oldest n now)
unfolding forget_oldest
forget_oldest-Forgot n now u =
    let best = oldest_from (invalid, 0) n.by_v4 in
    let c : Candidate n.by_v4 best =
      oldest_from-Candidate n.by_v4 n.by_v4 (invalid, 0) (Unique-Holds Addr-discrete n.by_v4 u)
        (inl refl) in
    elim (Bool-cases (not (is_known best.0) || ltb now (best.1 + nat_reuse))) [
      | inl refused ↦ rw refused (inl (refl, refl))
      | inr go ↦ rw go (elim c [
        | inl no_pair ↦ known_twice (unknown best.0 no_pair) (overdue best.0 best.1 now go).0
        | inr (p, e, same) ↦
            inr (
              best.0,
              p,
              refl,
              e,
              (let late = (overdue best.0 best.1 now go).1 in omega arith),
              refl,
            )
      ])
    ]

pub remove-none :
    (k j : Addr) (m : List (Addr × Addr))
    → find Addr-discrete j m ≡ none
    → find Addr-discrete j (remove Addr-discrete k m) ≡ none
remove-none k j m h = ground (arith, find-remove Addr-discrete k j m)

-- A dropped pair leaves room for one more.
pub drop_pair-length :
    (slot : ℤ) (n : Nat46) (a : Addr) (p : Pair)
    → IsPaired slot n
    → find Addr-discrete a n.by_v4 ≡ some p
    → length (drop_pair n a).by_v4 < rm
unfolding drop_pair
drop_pair-length slot n a p v e =
    let fewer = length-remove-lt Addr-discrete a p n.by_v4 e in let full = v.sized in omega arith

module _ (slot : ℤ) (n : Nat46) (a6 : Addr) (now : ℕ) (v : IsPaired slot n) where
  -- After that, `a6` still has no stand-in.
  mint_after_drop :
      (a : Addr) (p : Pair)
      → find Addr-discrete a n.by_v4 ≡ some p
      → find Addr-discrete a6 n.by_v6 ≡ none
      → IsPaired slot (mint (drop_pair n a) a6 now).0
  unfolding drop_pair
  mint_after_drop a p e new =
      mint-IsPaired slot (drop_pair n a) a6 now (drop_pair-IsPaired slot n a p e v)
        (drop_pair-length slot n a p v e) (rw (e, drop_pair) (remove-none p.v6 a6 n.by_v6 new))

  stand_anew-IsPaired : find Addr-discrete a6 n.by_v6 ≡ none → IsPaired slot (stand_anew n a6 now).0
  unfolding stand_anew
  stand_anew-IsPaired new = elim (Bool-cases (leb (room n) (length n.by_v4))) [
    | inr space ↦ rw space (
        mint-IsPaired slot n a6 now v (omega (arith, room_lem slot n v.mine, not_full _ _ space))
          new)
    | inl full ↦ rw full (elim (forget_oldest-Forgot n now v.unique) [
      | inl (refused, same) ↦ rw refused (rw same v)
      | inr (a, p, freed, e, late, same) ↦ rw freed (rw same (mint_after_drop a p e new))
    ])
  ]

  pub stand-IsPaired : IsPaired slot (stand n a6 now).0
  unfolding stand
  stand-IsPaired = elim (Bool-cases (not (is6 a6) || is4_in6 a6)) [
    | inl other ↦ rw other v
    | inr six ↦ elim (Option-cases (find Addr-discrete a6 n.by_v6)) [
      | inl new ↦ rw six (rw (new, stand) (stand_anew-IsPaired new))
      | inr (held, e) ↦ rw six (rw (e, stand) (touch-IsPaired slot n held now v))
    ]
  ]
