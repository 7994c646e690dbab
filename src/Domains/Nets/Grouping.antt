-- ===== src/Domains/Nets/Grouping.antt =====
-- internal/domainroute/domainroute.go, sortNets: the networks, few or many, against their list.
use qd.Prelude.{
  ◌≡◌, ◌≢◌, refl, sym, ap, ◌∙◌, inl, inr, ◌||◌, Bool, true, false, Option, is_some, List, [], ◌∷◌,
  ◌++◌, Bool-cases, Option-cases, All, All-append, length, leb,
}
use qd.Prelude.Dict.{find, put}
use mathlib.Core.Logic.{if_pos, if_neg}
use qd.Netip.{Addr, contains}
use qd.Domains.{Name, Name-discrete, Net, Spans, has, in_few, in_many, in_nets}
use qd.Domains.Nets.{
  ranges_of, spans_of, key_of, in_group, by_rule, few_nets, sort_groups, sort_nets,
}
use qd.Domains.Nets.Order.{contains-range}
use qd.Domains.Nets.Ranges.{in_range, has-covers}
use qd.Domains.Nets.Merging.{IsProper, InOrder, net_covers, ranges_of-covers}

-- Some network of the list has the address.
unfoldable pub touches : Addr → List Net → Bool
touches a [] = false
touches a (n ∷ ns) = contains n.prefix a || touches a ns

-- What sort.Slice promises: the order asked for, of the same elements.
pub record Sorts (order : List Net → List Net) : Type 0 where
  pub in_order : (ns : List Net) → InOrder (order ns)
  pub proper : (ns : List Net) → All IsProper ns → All IsProper (order ns)
  pub same : (a : Addr) (ns : List Net) → touches a (order ns) ≡ touches a ns

touches-net_covers : (a : Addr) (ns : List Net) → All IsProper ns → touches a ns ≡ net_covers ns a
unfolding touches net_covers in_range
touches-net_covers a [] p = refl
touches-net_covers a (n ∷ ns) p =
    rw (contains-range n.prefix a p.0.0 p.0.1, touches-net_covers a ns p.1) refl

or_assoc : (b c d : Bool) → (b || c) || d ≡ b || (c || d)
or_assoc true c d = refl
or_assoc false c d = refl

or_comm : (b c : Bool) → b || c ≡ c || b
or_comm true true = refl
or_comm true false = refl
or_comm false true = refl
or_comm false false = refl

pub or_swap : (b c d : Bool) → b || (c || d) ≡ c || (b || d)
or_swap true true d = refl
or_swap true false d = refl
or_swap false true d = refl
or_swap false false d = refl

touches-append : (a : Addr) (xs ys : List Net) → touches a (xs ++ ys) ≡ touches a xs || touches a ys
unfolding touches
touches-append a [] ys = refl
touches-append a (x ∷ xs) ys =
    ap (λ (b : Bool). contains x.prefix a || b) (touches-append a xs ys)
    ∙ sym (or_assoc (contains x.prefix a) (touches a xs) (touches a ys))

unfoldable spans_touch : Addr → List Spans → Bool
spans_touch a [] = false
spans_touch a (s ∷ ss) = has s a || spans_touch a ss

spans_touch-append :
    (a : Addr) (xs ys : List Spans)
    → spans_touch a (xs ++ ys) ≡ spans_touch a xs || spans_touch a ys
unfolding spans_touch
spans_touch-append a [] ys = refl
spans_touch-append a (x ∷ xs) ys =
    ap (λ (b : Bool). has x a || b) (spans_touch-append a xs ys)
    ∙ sym (or_assoc (has x a) (spans_touch a xs) (spans_touch a ys))

in_few-touches : (a : Addr) (ns : List Net) → is_some (in_few ns a) ≡ touches a ns
unfolding in_few touches
in_few-touches a [] = refl
in_few-touches a (n ∷ ns) = elim (Bool-cases (contains n.prefix a)) [
  | inl e ↦ rw (in_few, e) refl
  | inr e ↦ rw (in_few, e) (in_few-touches a ns)
]

in_many-touch : (a : Addr) (ss : List Spans) → is_some (in_many ss a) ≡ spans_touch a ss
unfolding in_many spans_touch
in_many-touch a [] = refl
in_many-touch a (s ∷ ss) = elim (Bool-cases (has s a)) [
  | inl e ↦ rw (in_many, e) refl
  | inr e ↦ rw (in_many, e) (in_many-touch a ss)
]

in_nets-touches :
    (a : Addr) (few : List Net) (many : List Spans)
    → is_some (in_nets few many a) ≡ touches a few || spans_touch a many
unfolding in_nets
in_nets-touches a few many = elim (Option-cases (in_few few a)) [
  | inl e ↦ rw (in_nets, e, sym (in_few-touches a few), e) (in_many-touch a many)
  | inr (x, e) ↦ rw (in_nets, e, sym (in_few-touches a few), e) refl
]

unfoldable groups_touch : Addr → List (Name × List Net) → Bool
groups_touch a [] = false
groups_touch a ((key, group) ∷ rest) = touches a group || groups_touch a rest

abbrev AllProper : List (Name × List Net) → Type 0
AllProper [] = Unit
AllProper ((key, group) ∷ rest) = All IsProper group × AllProper rest

spans_of-touch :
    (a : Addr) (ns : List Net)
    → InOrder ns
    → All IsProper ns
    → spans_touch a (spans_of ns) ≡ touches a ns
unfolding spans_touch spans_of
spans_of-touch a [] o p = unfold touches in refl
spans_of-touch a (n ∷ ns) o p =
    let r = ranges_of-covers (n ∷ ns) a o p in
    or_comm (has (record { entry = n.entry; ranges = ranges_of (n ∷ ns) }) a) false
    ∙ has-covers (record { entry = n.entry; ranges = ranges_of (n ∷ ns) }) a r.0
    ∙ r.1
    ∙ sym (touches-net_covers a (n ∷ ns) p)

abbrev Groups : Type 0
Groups = List (Name × List Net)

-- One turn of the loop that groups.
abbrev grouped : Net → Groups → Groups
grouped n m = put Name-discrete (key_of n) (in_group n (find Name-discrete (key_of n) m)) m

grouped_hit :
    (n : Net) (j : Name) (group : List Net) (m : Groups)
    → j ≡ key_of n
    → grouped n ((j, group) ∷ m) ≡ ((key_of n, group ++ (n ∷ [])) ∷ m)
unfolding put find in_group
grouped_hit n j group m e =
    if_pos (Name-discrete j (key_of n)) e _ _
    ∙ ap (λ (o : Option (List Net)). (key_of n, in_group n o) ∷ m)
        (if_pos (Name-discrete j (key_of n)) e _ _)

grouped_miss :
    (n : Net) (j : Name) (group : List Net) (m : Groups)
    → j ≢ key_of n
    → grouped n ((j, group) ∷ m) ≡ ((j, group) ∷ grouped n m)
unfolding put find
grouped_miss n j group m ne =
    if_neg (Name-discrete j (key_of n)) ne _ _
    ∙ ap (λ (o : Option (List Net)). (j, group) ∷ put Name-discrete (key_of n) (in_group n o) m)
        (if_neg (Name-discrete j (key_of n)) ne _ _)

one-touches : (a : Addr) (n : Net) → touches a (n ∷ []) ≡ contains n.prefix a
unfolding touches
one-touches a n = or_comm (contains n.prefix a) false

grouped-touches :
    (a : Addr) (n : Net) (m : Groups)
    → groups_touch a (grouped n m) ≡ groups_touch a m || contains n.prefix a
unfolding groups_touch
grouped-touches a n [] =
    unfold put find in_group in (or_comm (touches a (n ∷ [])) false ∙ one-touches a n)
grouped-touches a n ((j, group) ∷ m) = elim (Name-discrete j (key_of n)) [
  | yes e ↦
      ap (groups_touch a) (grouped_hit n j group m e)
      ∙ ap (λ (b : Bool). b || groups_touch a m)
          (touches-append a group (n ∷ [])
            ∙ ap (λ (b : Bool). touches a group || b) (one-touches a n))
      ∙ or_assoc (touches a group) (contains n.prefix a) (groups_touch a m)
      ∙ ap (λ (b : Bool). touches a group || b) (or_comm (contains n.prefix a) (groups_touch a m))
      ∙ sym (or_assoc (touches a group) (groups_touch a m) (contains n.prefix a))
  | no ne ↦
      ap (groups_touch a) (grouped_miss n j group m ne)
      ∙ ap (λ (b : Bool). touches a group || b) (grouped-touches a n m)
      ∙ sym (or_assoc (touches a group) (groups_touch a m) (contains n.prefix a))
]

by_rule-touches :
    (a : Addr) (nets : List Net) (m : List (Name × List Net))
    → groups_touch a (by_rule nets m) ≡ groups_touch a m || touches a nets
unfolding by_rule touches
by_rule-touches a [] m = or_comm false (groups_touch a m)
by_rule-touches a (n ∷ nets) m =
    by_rule-touches a nets
      (put Name-discrete (key_of n) (in_group n (find Name-discrete (key_of n) m)) m)
    ∙ ap (λ (b : Bool). b || touches a nets) (grouped-touches a n m)
    ∙ or_assoc (groups_touch a m) (contains n.prefix a) (touches a nets)

grouped-proper : (n : Net) (m : Groups) → IsProper n → AllProper m → AllProper (grouped n m)
grouped-proper n [] p h = unfold put find in_group in ((p, tt), tt)
grouped-proper n ((j, group) ∷ m) p h = elim (Name-discrete j (key_of n)) [
  | yes e ↦ rw (grouped_hit n j group m e) (All-append IsProper group (n ∷ []) h.0 (p, tt), h.1)
  | no ne ↦ rw (grouped_miss n j group m ne) (h.0, grouped-proper n m p h.1)
]

by_rule-proper :
    (nets : List Net) (m : List (Name × List Net))
    → All IsProper nets
    → AllProper m
    → AllProper (by_rule nets m)
unfolding by_rule
by_rule-proper [] m p h = h
by_rule-proper (n ∷ nets) m p h =
    by_rule-proper nets
      (put Name-discrete (key_of n) (in_group n (find Name-discrete (key_of n) m)) m) p.1
      (grouped-proper n m p.0 h)

module _ (order : List Net → List Net) where
  sort_groups-touches :
      (a : Addr) (groups : List (Name × List Net))
      → Sorts order
      → AllProper groups
      → touches a (sort_groups order groups).0 || spans_touch a (sort_groups order groups).1
        ≡ groups_touch a groups
  unfolding sort_groups groups_touch
  sort_groups-touches a [] s p = unfold touches spans_touch in refl
  sort_groups-touches a ((key, group) ∷ rest) s p =
      elim (Bool-cases (leb (length group) few_nets)) [
        | inl e ↦
            let later = sort_groups order rest in
            let z : sort_groups order ((key, group) ∷ rest) ≡ (group ++ later.0, later.1) =
              rw (sort_groups, e) refl in
            ap (λ (t : List Net × List Spans). touches a t.0 || spans_touch a t.1) z
            ∙ ap (λ (b : Bool). b || spans_touch a later.1) (touches-append a group later.0)
            ∙ or_assoc (touches a group) (touches a later.0) (spans_touch a later.1)
            ∙ ap (λ (b : Bool). touches a group || b) (sort_groups-touches a rest s p.1)
        | inr e ↦
            let later = sort_groups order rest in
            let z : sort_groups order ((key, group) ∷ rest)
                ≡ (later.0, spans_of (order group) ++ later.1) =
              rw (sort_groups, e) refl in
            let own =
              spans_of-touch a (order group) (s.in_order group) (s.proper group p.0)
              ∙ s.same a group in
            ap (λ (t : List Net × List Spans). touches a t.0 || spans_touch a t.1) z
            ∙ ap (λ (b : Bool). touches a later.0 || b)
                (spans_touch-append a (spans_of (order group)) later.1
                  ∙ ap (λ (b : Bool). b || spans_touch a later.1) own)
            ∙ or_swap (touches a later.0) (touches a group) (spans_touch a later.1)
            ∙ ap (λ (b : Bool). touches a group || b) (sort_groups-touches a rest s p.1)
      ]

  pub sort_nets-touches :
      (a : Addr) (nets : List Net)
      → Sorts order
      → All IsProper nets
      → is_some (in_nets (sort_nets order nets).0 (sort_nets order nets).1 a) ≡ touches a nets
  unfolding sort_nets
  sort_nets-touches a nets s p =
      let groups = by_rule nets [] in
      in_nets-touches a (sort_groups order groups).0 (sort_groups order groups).1
      ∙ sort_groups-touches a groups s (by_rule-proper nets [] p tt)
      ∙ by_rule-touches a nets []
      ∙ (let z : groups_touch a [] ≡ false = unfold groups_touch in refl in rw z refl)
