-- ===== src/Domains/Nets/Merging.antt =====
-- internal/domainroute/domainroute.go, sortNets: merging sorted networks.
use qd.Prelude.{
  ◌≡◌, refl, sym, ap, ◌∙◌, inl, inr, ◌&&◌, ◌||◌, Bool, true, false, not, List, [], ◌∷◌,
  if◌then◌else◌, arith, Bool-cases, known_twice, All,
}
use mathlib.Core.Path.{subst}
use qd.Netip.{Addr, is4, is_known, is_valid, masked_addr}
use qd.Domains.{Net, after}
use qd.Domains.Nets.{range_of, joins, merge, ranges_of, last}
use qd.Domains.Nets.Order.{
  le_trans, lt-le, range-last, between-is4, masked-known, after-up, after-down,
}
use qd.Domains.Nets.Ranges.{in_range, covers, Ok, Ahead, Separated, same_family}

-- The networks, in order from an address on.
abbrev pub Starts : Addr → List Net → Type 0
Starts lo [] = Unit
Starts lo (n ∷ ns) = (after lo (masked_addr n.prefix) ≡ false) × Starts (masked_addr n.prefix) ns

abbrev pub IsProper : Net → Type 0
IsProper n = (is_valid n.prefix ≡ true) × (is_known n.prefix.addr ≡ true)

earlier-Starts :
    (lo mid : Addr) (ns : List Net) → after lo mid ≡ false → Starts mid ns → Starts lo ns
earlier-Starts lo mid [] h s = tt
earlier-Starts lo mid (n ∷ ns) h s = (le_trans lo mid (masked_addr n.prefix) h s.0, s.1)

Ok-range_of : (n : Net) → IsProper n → Ok (range_of n)
Ok-range_of n p = let r = range-last n.prefix p.1 in (r.0, r.1, masked-known n.prefix p.1)

-- A range joined with one that starts in it covers what both cover.
joined-in_range :
    (c : Addr × Addr) (lo hi a : Addr)
    → after c.0 lo ≡ false
    → after lo c.1 ≡ false
    → in_range (c.0, if after hi c.1 then hi else c.1) a ≡ (in_range c a || in_range (lo, hi) a)
unfolding in_range
joined-in_range c lo hi a h k = elim (Bool-cases (after c.0 a)) [
  | inl e ↦ rw (e, after-up c.0 lo a e h) refl
  | inr e ↦ elim (Bool-cases (after a c.1)) [
    | inl x ↦
        let y : after lo a ≡ false = lt-le a lo (after-down lo c.1 a x k) in
        elim (Bool-cases (after hi c.1)) [
          | inl m ↦ rw (e, x, m, y) refl
          | inr m ↦ rw (e, x, m, x, y, after-down hi c.1 a x m) refl
        ]
    | inr x ↦ elim (Bool-cases (after hi c.1)) [
      | inl m ↦ rw (e, x, m, le_trans a c.1 hi x (lt-le hi c.1 m)) refl
      | inr m ↦ rw (e, x, m, x) refl
    ]
  ]
]

-- Merging keeps what is covered, and separates.
pub data Merged (a lo : Addr) (covered : Bool) : List (Addr × Addr) → Type 0 where
  merged :
      (hi : Addr) (rs : List (Addr × Addr))
      → Separated ((lo, hi) ∷ rs)
      → covers ((lo, hi) ∷ rs) a ≡ covered
      → Merged a lo covered ((lo, hi) ∷ rs)

Merged-Ahead :
    (a lo c1 : Addr) (covered : Bool) (rs : List (Addr × Addr))
    → Merged a lo covered rs
    → after lo c1 ≡ true
    → Ahead c1 rs × Separated rs × (covers rs a ≡ covered)
Merged-Ahead a lo c1 covered rs (merged hi rest s e) h = (h, s, e)

unfoldable pub net_covers : List Net → Addr → Bool
net_covers [] a = false
net_covers (n ∷ ns) a = in_range (range_of n) a || net_covers ns a

Merged-as :
    (a lo : Addr) (b c : Bool) (rs : List (Addr × Addr))
    → b ≡ c
    → Merged a lo b rs
    → Merged a lo c rs
Merged-as a lo b c rs e m = subst (λ (x : Bool). Merged a lo x rs) e m

or_assoc : (b c d : Bool) → (b || c) || d ≡ b || (c || d)
or_assoc true c d = refl
or_assoc false c d = refl

both_true : (b c : Bool) → b && c ≡ true → (b ≡ true) × (c ≡ true)
both_true true c h = (refl, h)
both_true false c h = absurd (ground arith)

not-true : (b : Bool) → not b ≡ true → b ≡ false
not-true true h = absurd (ground arith)
not-true false h = refl

family_same : (b c : Bool) → (if b then c else not c) ≡ true → b ≡ c
family_same true c h = sym h
family_same false c h = sym (not-true c h)

-- A range that starts in another, and one that starts behind it.
joins-true : (hi lo : Addr) → joins hi lo ≡ true → (is4 hi ≡ is4 lo) × (after lo hi ≡ false)
unfolding joins
joins-true hi lo h =
    let b = both_true (if is4 hi then is4 lo else not (is4 lo)) (not (after lo hi)) h in
    (family_same (is4 hi) (is4 lo) b.0, not-true (after lo hi) b.1)

joins-false :
    (c : Addr × Addr) (lo : Addr)
    → Ok c
    → after c.0 lo ≡ false
    → joins c.1 lo ≡ false
    → after lo c.1 ≡ true
unfolding joins
joins-false c lo o h j = elim (Bool-cases (after lo c.1)) [
  | inl e ↦ e
  | inr e ↦ known_twice j (
      rw (joins, e, same_family (is4 c.1) (is4 lo) (o.1 ∙ between-is4 c.0 lo c.1 o.1 o.2 h e)) refl)
]

abbrev widened : Addr × Addr → Addr → Addr × Addr
widened c hi = (c.0, if after hi c.1 then hi else c.1)

Ok-widened :
    (c : Addr × Addr) (lo hi : Addr)
    → Ok c
    → Ok (lo, hi)
    → after c.0 lo ≡ false
    → is4 c.1 ≡ is4 lo
    → Ok (widened c hi)
Ok-widened c lo hi o r h e = elim (Bool-cases (after hi c.1)) [
  | inl m ↦ rw m (le_trans c.0 lo hi h r.0, r.1 ∙ sym e ∙ o.1, o.2)
  | inr m ↦ rw m o
]

apart-Merged :
    (a : Addr) (c : Addr × Addr) (lo : Addr) (b : Bool) (rs : List (Addr × Addr))
    → Ok c
    → after lo c.1 ≡ true
    → Merged a lo b rs
    → Merged a c.0 (in_range c a || b) (c ∷ rs)
unfolding covers
apart-Merged a c lo b rs o h m =
    let k = Merged-Ahead a lo c.1 b rs m h in
    merged c.1 rs (o, k.0, k.1) (ap (λ (x : Bool). in_range c a || x) k.2)

merge-Merged :
    (a : Addr) (c : Addr × Addr) (ns : List Net)
    → Ok c
    → Starts c.0 ns
    → All IsProper ns
    → Merged a c.0 (in_range c a || net_covers ns a) (merge c ns)
unfolding merge net_covers
merge-Merged a c [] o s p = merged c.1 [] (o, tt, tt) (unfold covers in refl)
merge-Merged a c (n ∷ ns) o s p =
    let lo = masked_addr n.prefix in
    let hi = last n.prefix in
    let r = Ok-range_of n p.0 in
    elim (Bool-cases (joins c.1 lo)) [
      | inl j ↦
          let t = joins-true c.1 lo j in
          rw (merge, j)
            (Merged-as a c.0 (in_range (widened c hi) a || net_covers ns a)
              (in_range c a || (in_range (range_of n) a || net_covers ns a))
              (merge (widened c hi) ns)
              (ap (λ (x : Bool). x || net_covers ns a) (joined-in_range c lo hi a s.0 t.1)
                ∙ or_assoc (in_range c a) (in_range (range_of n) a) (net_covers ns a))
              (merge-Merged a (widened c hi) ns (Ok-widened c lo hi o r s.0 t.0)
                (earlier-Starts c.0 lo ns s.0 s.1) p.1))
      | inr j ↦
          rw (merge, j)
            (apart-Merged a c lo (in_range (range_of n) a || net_covers ns a)
              (merge (range_of n) ns) o (joins-false c lo o s.0 j)
              (merge-Merged a (range_of n) ns r s.1 p.1))
    ]

-- Networks in order.
abbrev pub InOrder : List Net → Type 0
InOrder [] = Unit
InOrder (n ∷ ns) = Starts (masked_addr n.prefix) ns

Merged-covers :
    (a lo : Addr) (b : Bool) (rs : List (Addr × Addr))
    → Merged a lo b rs
    → Separated rs × (covers rs a ≡ b)
Merged-covers a lo b rs (merged hi rest s e) = (s, e)

pub ranges_of-covers :
    (ns : List Net) (a : Addr)
    → InOrder ns
    → All IsProper ns
    → Separated (ranges_of ns) × (covers (ranges_of ns) a ≡ net_covers ns a)
unfolding ranges_of net_covers
ranges_of-covers [] a s p = (tt, unfold covers in refl)
ranges_of-covers (n ∷ ns) a s p =
    let m = merge-Merged a (range_of n) ns (Ok-range_of n p.0) s p.1 in
    Merged-covers a (masked_addr n.prefix) (in_range (range_of n) a || net_covers ns a)
      (merge (range_of n) ns) m
