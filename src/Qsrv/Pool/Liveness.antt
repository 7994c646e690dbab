-- ===== src/Qsrv/Pool/Liveness.antt =====
-- internal/qsrv/pool.go: which addresses the bounded search of `take` reaches.
use native.Mathlib.Nat.{div-eq_of_lt-le, lt-div-mul-add, div-mul-le_self}
use qd.Prelude.{
  ℕ, zero, suc, ◌+◌, ◌-◌, ◌*◌, ◌/◌, ◌^◌, ◌≤◌, ◌<◌, ◌≡◌, refl, sym, ap, ◌∙◌, ◌⊎◌, inl, inr, true,
  false, Option, none, arith, ◌==◌, ==_iff, ◌&&◌, is_some, Bool-cases, Option-cases, ℕ_discrete,
  dec_lt,
}
use qd.Prelude.Bits.{pow_le, pow_pos}
use qd.Prelude.Dict.{find}
use qd.Netip.{Addr, v4, v6, invalid, Prefix, Addr-discrete, contains, prefix_from, is_valid}
use qd.Netip
use qd.Qsrv.Pool.{Pool, round, take_loop, take, own, own_at, rounds}
use qd.Qsrv.Pool.Grants.{lease_of}

abbrev Found : Pool × Option Prefix → Type 0
Found r = is_some r.1 ≡ true

at_cursor : Pool → Addr → Pool
at_cursor p a = record p { next = a }

-- The loop goes on from the pool that a round without a result leaves.
loop_some : (n : ℕ) (p : Pool) (s : ℕ) → Found (round p s) → Found (take_loop (suc n) p s)
unfolding take_loop
loop_some n p s h = elim (Option-cases (round p s).1) [
  | inl e ↦ absurd (cc (ap (λ (o : Option Prefix). is_some o) e))
  | inr (pre, e) ↦ rw (e, take_loop) refl
]

loop_none :
    (n : ℕ) (p q : Pool) (s : ℕ)
    → round p s ≡ (q, none)
    → Found (take_loop n q s)
    → Found (take_loop (suc n) p s)
unfolding take_loop
loop_none n p q s e h =
    rw (ap (λ (r : Pool × Option Prefix). r.1) e, take_loop)
      (rw (ap (λ (r : Pool × Option Prefix). r.0) e) h)

module _ (p : Pool) (s : ℕ) where
  -- Outside the base the cursor goes back to the start.
  round_outside :
      (a : Addr)
      → contains p.base a ≡ false
      → round (at_cursor p a) s ≡ (at_cursor p (Netip.next p.base.addr), none)
  unfolding round at_cursor
  round_outside a out = rw out refl

  -- Inside it, a round has a result or moves the cursor on.
  round_inside :
      (a : Addr)
      → contains p.base a ≡ true
      → Found (round (at_cursor p a) s)
        ⊎ (round (at_cursor p a) s ≡ (at_cursor p (Netip.next a), none))
  unfolding round at_cursor
  round_inside a inn = elim (Bool-cases (is_valid p.streams && contains p.streams a)) [
    | inl reserved ↦ inr (rw inn (rw reserved refl))
    | inr usable ↦ elim (Option-cases (find Addr-discrete a p.taken)) [
      | inr (l, busy) ↦ inr (rw inn (rw usable (rw busy refl)))
      | inl free ↦ inl (rw inn (rw usable (rw free refl)))
    ]
  ]

  round_free :
      (a : Addr)
      → contains p.base a ≡ true
      → contains p.streams a ≡ false
      → lease_of p a ≡ none
      → Found (round (at_cursor p a) s)
  unfolding round at_cursor
  round_free a inn usable free = elim (Bool-cases (is_valid p.streams)) [
    | inl v ↦ rw inn (rw v (rw usable (rw free refl)))
    | inr v ↦ rw inn (rw v (rw free refl))
  ]

next_v4 : (x : ℕ) → x + 1 < 2 ^ 32 → Netip.next (v4 x) ≡ v4 (x + 1)
unfolding Netip.next
next_v4 x h = ground arith

next_v4_last : (x : ℕ) → 2 ^ 32 ≤ x + 1 → Netip.next (v4 x) ≡ invalid
unfolding Netip.next
next_v4_last x h = ground arith

-- What lies between two numbers of a block lies in the block.
between : (w a y c : ℕ) → 1 ≤ w → a / w ≡ c / w → a ≤ y → y ≤ c → a / w ≡ y / w
between w a y c pos e le le' =
    let low : a / w * w ≤ a = div-mul-le_self a w in
    let high : c < c / w * w + w = lt-div-mul-add pos in
    let high' : c < a / w * w + w = rw e high in sym (div-eq_of_lt-le w (omega arith) (omega arith))

-- A base of `w` addresses around `m`, and a free address `t` behind its first one.
module _ (p : Pool) (s m w t : ℕ) (inside : (x : ℕ) → contains p.base (v4 x) ≡ (m / w == x / w))
    (only_v4 : (a : Addr) → contains p.base a ≡ true → (x : ℕ) × (a ≡ v4 x))
    (no_end : contains p.base invalid ≡ false) (start : Netip.next p.base.addr ≡ v4 (m + 1))
    (wide : 1 ≤ w) (later : m < t) (fits : t < 2 ^ 32) (t_inside : m / w ≡ t / w)
    (t_usable : contains p.streams (v4 t) ≡ false) (t_free : lease_of p (v4 t) ≡ none) where
  in_base : (x : ℕ) → m / w ≡ x / w → contains p.base (v4 x) ≡ true
  in_base x e = inside x ∙ (==_iff _ _).1 e

  t_near : t < m + w
  t_near =
      let top : t < t / w * w + w = lt-div-mul-add wide in
      let bottom : m / w * w ≤ m = div-mul-le_self m w in
      let top' : t < m / w * w + w = rw t_inside top in omega arith

  -- From below, the cursor walks up to `t`.
  walk_up :
      (n x : ℕ) → m / w ≡ x / w → x ≤ t → t < x + n → Found (take_loop n (at_cursor p (v4 x)) s)
  walk_up zero x e le enough = absurd (omega arith)
  walk_up (suc n) x e le enough = elim (ℕ_discrete x t) [
    | yes same ↦ loop_some n _ s (
        round_free p s (v4 x) (in_base x e)
          (ap (λ (y : ℕ). contains p.streams (v4 y)) same ∙ t_usable)
          (ap (λ (y : ℕ). lease_of p (v4 y)) same ∙ t_free))
    | no below ↦ elim (round_inside p s (v4 x) (in_base x e)) [
      | inl hit ↦ loop_some n _ s hit
      | inr on ↦ loop_none n _ _ s on (
          rw (next_v4 x (omega arith)) (
            walk_up n (x + 1)
              (e ∙ between w x (x + 1) t wide (sym e ∙ t_inside) (omega arith) (omega arith))
              (omega arith) (omega arith)))
    ]
  ]

  -- Outside the base it goes back to the start, and up from there.
  walk_back :
      (n : ℕ) (a : Addr)
      → contains p.base a ≡ false
      → t + 1 ≤ m + n
      → Found (take_loop n (at_cursor p a) s)
  walk_back zero a out enough = absurd (omega arith)
  walk_back (suc n) a out enough = loop_none n _ _ s (round_outside p s a out) (
      rw start (
        walk_up n (m + 1) (between w m (m + 1) t wide t_inside (omega arith) (omega arith))
          (omega arith) (omega arith)))

  -- From above it walks to the end of the base first; `left` bounds what is left of the base.
  walk_down :
      (n left x : ℕ)
      → m / w * w + w ≤ x + left
      → left + (t - m) < n
      → Found (take_loop n (at_cursor p (v4 x)) s)
  walk_down zero left x ends enough = absurd (omega arith)
  walk_down (suc n) left x ends enough = elim (Bool-cases (contains p.base (v4 x))) [
    | inr out ↦ walk_back (suc n) (v4 x) out (omega arith)
    | inl inn ↦ elim (round_inside p s (v4 x) inn) [
      | inl hit ↦ loop_some n _ s hit
      | inr on ↦
          let block : m / w ≡ x / w = (==_iff _ _).0 (sym (inside x) ∙ inn) in
          let below : x < x / w * w + w = lt-div-mul-add wide in
          let below' : x < m / w * w + w = rw block below in
          loop_none n _ _ s on (elim (dec_lt (x + 1) (2 ^ 32)) [
            | yes more ↦
                rw (next_v4 x more) (walk_down n (left - 1) (x + 1) (omega arith) (omega arith))
            | no last ↦ rw (next_v4_last x (omega arith)) (walk_back n invalid no_end (omega arith))
          ])
    ]
  ]

  -- Two turns round the base are enough from any cursor.
  reaches : (n : ℕ) (a : Addr) → w + w ≤ n → Found (take_loop n (at_cursor p a) s)
  reaches n a enough = elim (Bool-cases (contains p.base a)) [
    | inr out ↦ walk_back n a out (omega (arith, t_near))
    | inl inn ↦
        let (x, e) = only_v4 a inn in
        let here : contains p.base (v4 x) ≡ true = rw e at inn in
        let block : m / w ≡ x / w = (==_iff _ _).0 (sym (inside x) ∙ here) in
        let bottom : x / w * w ≤ x = div-mul-le_self x w in
        let bottom' : m / w * w ≤ x = rw block bottom in
        let top : x < x / w * w + w = lt-div-mul-add wide in
        let top' : x < m / w * w + w = rw block top in
        rw e (walk_down n (m / w * w + w - x) x (omega arith) (omega (arith, t_near)))
  ]

contains_v4 :
    (m b x : ℕ) → contains (prefix_from (v4 m) b) (v4 x) ≡ (m / 2 ^ (32 - b) == x / 2 ^ (32 - b))
unfolding contains prefix_from
contains_v4 m b x = refl

start_lem : (m b : ℕ) → m + 1 < 2 ^ 32 → Netip.next (prefix_from (v4 m) b).addr ≡ v4 (m + 1)
unfolding prefix_from
start_lem m b h = next_v4 m h

contains_only_v4 :
    (m b : ℕ) (a : Addr) → contains (prefix_from (v4 m) b) a ≡ true → (x : ℕ) × (a ≡ v4 x)
unfolding contains prefix_from
contains_only_v4 m b (v4 x) h = (x, refl)
contains_only_v4 m b (v6 x) h = cc
contains_only_v4 m b invalid h = cc

contains_invalid : (m b : ℕ) → contains (prefix_from (v4 m) b) invalid ≡ false
unfolding contains prefix_from
contains_invalid m b = refl

-- `own` leaves the pool as it was where it has no result.
own_refused : (p : Pool) (s : ℕ) → (own p s).1 ≡ none → (own p s).0 ≡ p
unfolding own own_at
own_refused p s h = ground arith

take_if_Found : (p : Pool) (s : ℕ) → Found (take_loop rounds p s) → Found (take p s)
unfolding take
take_if_Found p s h = elim (Option-cases (own p s).1) [
  | inl e ↦ rw (e, take) (rw (own_refused p s e) h)
  | inr (pre, e) ↦ rw (e, take) refl
]

-- For a pool over an IPv4 base of at most 2^19 addresses, if some address behind the base's
-- first one lies in the base, outside the streams' tail, and is leased to nobody, then `take`
-- succeeds: its 2^20 rounds reach such an address wherever the cursor stands.
pub take_succeeds :
    (p : Pool) (session m b t : ℕ)
    → p.base ≡ prefix_from (v4 m) b
    → 13 ≤ b
    → m < t
    → t < 2 ^ 32
    → contains p.base (v4 t) ≡ true
    → contains p.streams (v4 t) ≡ false
    → lease_of p (v4 t) ≡ none
    → is_some (take p session).1 ≡ true
unfolding at_cursor
take_succeeds p session m b t e narrow later fits inn usable free = take_if_Found p session (
    reaches p session m (2 ^ (32 - b)) t
      (λ x. ap (λ (q : Prefix). contains q (v4 x)) e ∙ contains_v4 m b x)
      (λ a h. contains_only_v4 m b a (rw e at h))
      (ap (λ (q : Prefix). contains q invalid) e ∙ contains_invalid m b)
      (ap (λ (q : Prefix). Netip.next q.addr) e ∙ start_lem m b (omega arith)) (pow_pos (32 - b))
      later fits ((==_iff _ _).0 (sym (contains_v4 m b t) ∙ rw e at inn)) usable free rounds p.next
      (let half : 2 ^ (32 - b) ≤ 2 ^ 19 = pow_le (32 - b) 19 (omega arith) in omega arith))
