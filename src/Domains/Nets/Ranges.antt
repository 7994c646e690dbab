-- ===== src/Domains/Nets/Ranges.antt =====
-- internal/domainroute/domainroute.go, sortNets and spans.has: the merged ranges of sorted networks.
use qd.Prelude.{
  ◌≡◌, refl, sym, ap, ◌∙◌, inl, inr, ◌&&◌, ◌||◌, Bool, true, false, not, Option, none, some, List,
  [], ◌∷◌, if◌then◌else◌, arith, Bool-cases, known_twice, Option-cases,
}
use qd.Netip.{Addr, is4, is_known}
use qd.Domains.{Spans, after, range_before, has}
use qd.Domains.Nets.Order.{le_trans, lt-le, between-is4, after-up}

unfoldable pub in_range : Addr × Addr → Addr → Bool
in_range r a = not (after r.0 a) && not (after a r.1)

unfoldable pub covers : List (Addr × Addr) → Addr → Bool
covers [] a = false
covers (r ∷ rs) a = in_range r a || covers rs a

abbrev pub Ok : Addr × Addr → Type 0
Ok r = (after r.0 r.1 ≡ false) × (is4 r.1 ≡ is4 r.0) × (is_known r.0 ≡ true)

abbrev pub Ahead : Addr → List (Addr × Addr) → Type 0
Ahead hi [] = Unit
Ahead hi (r ∷ rs) = after r.0 hi ≡ true

-- Ranges in order, each behind the end of the one before.
abbrev pub Separated : List (Addr × Addr) → Type 0
Separated [] = Unit
Separated (r ∷ rs) = Ok r × Ahead r.1 rs × Separated rs

later_off :
    (r : Addr × Addr) (rs : List (Addr × Addr)) (a : Addr)
    → Separated (r ∷ rs)
    → after r.0 a ≡ true
    → covers (r ∷ rs) a ≡ false
unfolding covers in_range
later_off r [] a s h = rw h refl
later_off r (t ∷ rs) a s h =
    rw h
      (later_off t rs a s.2 (after-up r.0 t.0 a h (le_trans r.0 r.1 t.0 s.0.0 (lt-le t.0 r.1 s.1))))

-- What `has` makes of the range that it picks.
unfoldable picked : Addr → Option (Addr × Addr) → Bool
picked a none = false
picked a (some r) = (if is4 r.0 then is4 a else not (is4 a)) && not (after a r.1)

pub same_family : (b c : Bool) → b ≡ c → (if b then c else not c) ≡ true
same_family true true h = refl
same_family false false h = refl
same_family true false h = absurd (ground arith)
same_family false true h = absurd (ground arith)

off : (b : Bool) → b && false ≡ false
off true = refl
off false = refl

picked-range :
    (r : Addr × Addr) (a : Addr)
    → Ok r
    → after r.0 a ≡ false
    → picked a (some r) ≡ not (after a r.1)
unfolding picked
picked-range r a o h = elim (Bool-cases (after a r.1)) [
  | inl e ↦ rw e (off (if is4 r.0 then is4 a else not (is4 a)))
  | inr e ↦ rw (e, same_family (is4 r.0) (is4 a) (between-is4 r.0 a r.1 o.1 o.2 h e)) refl
]

or_false : (b : Bool) → b || false ≡ b
or_false true = refl
or_false false = refl

covers_first :
    (b : Addr × Addr) (rs : List (Addr × Addr)) (a : Addr)
    → after b.0 a ≡ false
    → covers rs a ≡ false
    → covers (b ∷ rs) a ≡ not (after a b.1)
unfolding covers in_range
covers_first b rs a h none_later = rw (h, none_later) (or_false (not (after a b.1)))

covers_rest :
    (b : Addr × Addr) (rs : List (Addr × Addr)) (a : Addr)
    → after a b.1 ≡ true
    → covers (b ∷ rs) a ≡ covers rs a
unfolding covers in_range
covers_rest b rs a h = rw h (ap (λ (x : Bool). x || covers rs a) (off (not (after b.0 a))))

range_before-covers :
    (b : Addr × Addr) (rs : List (Addr × Addr)) (a : Addr)
    → Separated (b ∷ rs)
    → after b.0 a ≡ false
    → picked a (range_before a (some b) rs) ≡ covers (b ∷ rs) a
unfolding range_before
range_before-covers b [] a s h =
    picked-range b a s.0 h ∙ sym (covers_first b [] a h (unfold covers in refl))
range_before-covers b (r ∷ rs) a s h = elim (Bool-cases (after r.0 a)) [
  | inl e ↦
      rw (range_before, e)
        (picked-range b a s.0 h ∙ sym (covers_first b (r ∷ rs) a h (later_off r rs a s.2 e)))
  | inr e ↦
      rw (range_before, e)
        (range_before-covers r rs a s.2 e
          ∙ sym (
              covers_rest b (r ∷ rs) a (elim (Bool-cases (after a b.1)) [
                | inl k ↦ k
                | inr k ↦ known_twice (le_trans r.0 a b.1 e k) s.1
              ])))
]

has-picked : (s : Spans) (a : Addr) → has s a ≡ picked a (range_before a none s.ranges)
unfolding has picked
has-picked s a = elim (Option-cases (range_before a none s.ranges)) [
  | inl e ↦ rw (has, picked, e) refl
  | inr (r, e) ↦ rw (has, picked, e) refl
]

picked-covers :
    (rs : List (Addr × Addr)) (a : Addr)
    → Separated rs
    → picked a (range_before a none rs) ≡ covers rs a
unfolding range_before
picked-covers [] a h = unfold picked covers in refl
picked-covers (r ∷ rs) a h = elim (Bool-cases (after r.0 a)) [
  | inl e ↦
      rw (range_before, e)
        (let z : picked a none ≡ false = unfold picked in refl in z ∙ sym (later_off r rs a h e))
  | inr e ↦ rw (range_before, e) (range_before-covers r rs a h e)
]

pub has-covers : (s : Spans) (a : Addr) → Separated s.ranges → has s a ≡ covers s.ranges a
has-covers s a h = has-picked s a ∙ picked-covers s.ranges a h
