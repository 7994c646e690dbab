-- ===== src/Domains/Nets/Sorting.antt =====
-- internal/domainroute/domainroute.go, sortNets: a sort that keeps the promise of sort.Slice.
use qd.Prelude.{
  ◌≡◌, refl, ap, ◌∙◌, inl, inr, ◌||◌, Bool, false, List, [], ◌∷◌, if◌then◌else◌, Bool-cases, All,
}
use qd.Netip.{Addr, contains, masked_addr}
use qd.Domains.{Net, after}
use qd.Domains.Nets.Order.{lt-le}
use qd.Domains.Nets.Merging.{IsProper, InOrder, Starts}
use qd.Domains.Nets.Grouping.{touches, Sorts, or_swap}

unfoldable insert : Net → List Net → List Net
insert n [] = n ∷ []
insert n (m ∷ ms) =
    let later = m ∷ insert n ms in
    if after (masked_addr n.prefix) (masked_addr m.prefix) then later else n ∷ m ∷ ms

unfoldable pub insertion_sort : List Net → List Net
unfolding insert
insertion_sort [] = []
insertion_sort (n ∷ ns) = insert n (insertion_sort ns)

insert-Starts :
    (lo : Addr) (n : Net) (ms : List Net)
    → after lo (masked_addr n.prefix) ≡ false
    → Starts lo ms
    → Starts lo (insert n ms)
unfolding insert
insert-Starts lo n [] h s = (h, tt)
insert-Starts lo n (m ∷ ms) h s =
    elim (Bool-cases (after (masked_addr n.prefix) (masked_addr m.prefix))) [
      | inl e ↦
          rw (insert, e)
            (
              s.0,
              insert-Starts (masked_addr m.prefix) n ms
                  (lt-le (masked_addr n.prefix) (masked_addr m.prefix) e) s.1,
            )
      | inr e ↦ rw (insert, e) (h, (e, s.1))
    ]

insert-InOrder : (n : Net) (ms : List Net) → InOrder ms → InOrder (insert n ms)
unfolding insert
insert-InOrder n [] s = tt
insert-InOrder n (m ∷ ms) s =
    elim (Bool-cases (after (masked_addr n.prefix) (masked_addr m.prefix))) [
      | inl e ↦
          rw (insert, e)
            (insert-Starts (masked_addr m.prefix) n ms
              (lt-le (masked_addr n.prefix) (masked_addr m.prefix) e) s)
      | inr e ↦ rw (insert, e) (e, s)
    ]

sort-InOrder : (ns : List Net) → InOrder (insertion_sort ns)
unfolding insertion_sort
sort-InOrder [] = tt
sort-InOrder (n ∷ ns) = insert-InOrder n (insertion_sort ns) (sort-InOrder ns)

insert-IsProper :
    (n : Net) (ms : List Net) → IsProper n → All IsProper ms → All IsProper (insert n ms)
unfolding insert
insert-IsProper n [] p h = (p, tt)
insert-IsProper n (m ∷ ms) p h =
    elim (Bool-cases (after (masked_addr n.prefix) (masked_addr m.prefix))) [
      | inl e ↦ rw (insert, e) (h.0, insert-IsProper n ms p h.1)
      | inr e ↦ rw (insert, e) (p, h)
    ]

sort-IsProper : (ns : List Net) → All IsProper ns → All IsProper (insertion_sort ns)
unfolding insertion_sort
sort-IsProper [] h = tt
sort-IsProper (n ∷ ns) h = insert-IsProper n (insertion_sort ns) h.0 (sort-IsProper ns h.1)

insert-touches :
    (a : Addr) (n : Net) (ms : List Net)
    → touches a (insert n ms) ≡ contains n.prefix a || touches a ms
unfolding insert touches
insert-touches a n [] = refl
insert-touches a n (m ∷ ms) =
    elim (Bool-cases (after (masked_addr n.prefix) (masked_addr m.prefix))) [
      | inl e ↦
          rw (insert, e)
            (ap (λ (b : Bool). contains m.prefix a || b) (insert-touches a n ms)
              ∙ or_swap (contains m.prefix a) (contains n.prefix a) (touches a ms))
      | inr e ↦ rw (insert, e) refl
    ]

sort-touches : (a : Addr) (ns : List Net) → touches a (insertion_sort ns) ≡ touches a ns
unfolding insertion_sort touches
sort-touches a [] = refl
sort-touches a (n ∷ ns) =
    insert-touches a n (insertion_sort ns)
    ∙ ap (λ (b : Bool). contains n.prefix a || b) (sort-touches a ns)

pub insertion_sort-Sorts : Sorts insertion_sort
insertion_sort-Sorts = record {
  in_order = sort-InOrder;
  proper = sort-IsProper;
  same = sort-touches;
}
