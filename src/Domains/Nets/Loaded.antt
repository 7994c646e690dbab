-- ===== src/Domains/Nets/Loaded.antt =====
-- internal/domainroute/domainroute.go, Load: the networks of a loaded table.
use qd.Prelude.{
  ℕ, ◌≡◌, refl, ap, ◌∙◌, inl, inr, Bool, not, is_some, List, [], ◌∷◌, Bool-cases, Option-cases, All,
  ltb,
}
use qd.Netip.{Addr}
use qd.Prelude.Dict.{remove}
use qd.Domains.{
  Name, Name-discrete, Entry, Net, Spans, Table, Answer, in_nets, place, rule_of, quiet_of,
  inherits,
}
use qd.Domains.Nets.{filtered, set_up, load, load_names}
use qd.Domains.Nets.Merging.{IsProper}
use qd.Domains.Nets.Grouping.{touches, Sorts, sort_nets-touches}

-- Two tables with the same networks.
abbrev SameNets : Table → Table → Type 0
SameNets t u =
    (t.few ≡ u.few)
    × (t.many ≡ u.many)
    × (t.quiet_few ≡ u.quiet_few)
    × (t.quiet_many ≡ u.quiet_many)

trans-SameNets : (t u v : Table) → SameNets t u → SameNets u v → SameNets t v
trans-SameNets t u v h k = (h.0 ∙ k.0, h.1 ∙ k.1, h.2 ∙ k.2, h.3 ∙ k.3)

place-SameNets :
    (now : ℕ) (t : Table) (name : Name) (got : Answer) → SameNets (place now t name got) t
unfolding place
place-SameNets now t name got = elim (Option-cases (rule_of t name)) [
  | inl e ↦ elim (Option-cases (quiet_of t name)) [
    | inl f ↦ rw (place, e, f) (refl, refl, refl, refl)
    | inr (rule, f) ↦ rw (place, e, f) (refl, refl, refl, refl)
  ]
  | inr (found, e) ↦ rw (place, e) (refl, refl, refl, refl)
]

load_names-SameNets :
    (now : ℕ) (names : List (Name × Answer)) (t : Table) → SameNets (load_names now names t) t
unfolding load_names
load_names-SameNets now [] t = (refl, refl, refl, refl)
load_names-SameNets now ((name, held) ∷ rest) t = elim (Bool-cases (ltb held.until now)) [
  | inl e ↦
      rw (load_names, e)
        (load_names-SameNets now rest (record t { names = remove Name-discrete name t.names }))
  | inr e ↦
      rw (load_names, e)
        (trans-SameNets (load_names now rest (place now t name held)) (place now t name held) t
          (load_names-SameNets now rest (place now t name held)) (place-SameNets now t name held))
]

filtered-IsProper :
    (f : Net → Bool) (ns : List Net) → All IsProper ns → All IsProper (filtered f ns)
unfolding filtered
filtered-IsProper f [] p = tt
filtered-IsProper f (n ∷ ns) p = elim (Bool-cases (f n)) [
  | inl e ↦ rw (filtered, e) (p.0, filtered-IsProper f ns p.1)
  | inr e ↦ rw (filtered, e) (filtered-IsProper f ns p.1)
]

-- For a sort that keeps what a list has and puts its networks in order of their first addresses,
-- a list of valid networks, and any address: a loaded table has an entry for the address among
-- its networks, few of a rule one by one and many as merged ranges, exactly if a network of the
-- list that does not inherit contains the address; and among its quiet networks exactly if one
-- that inherits does.
pub load-touches :
    (order : List Net → List Net) (now : ℕ) (rules : List (Name × Name))
    (lower : List (Name × Entry)) (nets : List Net) (t : Table) (a : Addr)
    → Sorts order
    → All IsProper nets
    → (is_some (
          in_nets
            (load order now rules lower nets t).few
            (load order now rules lower nets t).many
            a)
        ≡ touches a (filtered (λ n. not (inherits n.entry.role)) nets))
      × (is_some (
            in_nets
              (load order now rules lower nets t).quiet_few
              (load order now rules lower nets t).quiet_many
              a)
          ≡ touches a (filtered (λ n. inherits n.entry.role) nets))
unfolding load set_up
load-touches order now rules lower nets t a s p =
    let k = load_names-SameNets now t.names (set_up order rules lower nets t) in
    let own = λ (n : Net). not (inherits n.entry.role) in
    let quiet = λ (n : Net). inherits n.entry.role in
    (
      ap
            (λ (few : List Net).
              is_some
                (in_nets few (load_names now t.names (set_up order rules lower nets t)).many a))
            k.0
          ∙ ap
              (λ (many : List Spans).
                is_some (in_nets (set_up order rules lower nets t).few many a))
              k.1
          ∙ sort_nets-touches order a (filtered own nets) s (filtered-IsProper own nets p),
      ap
            (λ (few : List Net).
              is_some (
                in_nets few (load_names now t.names (set_up order rules lower nets t)).quiet_many
                  a))
            k.2
          ∙ ap
              (λ (many : List Spans).
                is_some (in_nets (set_up order rules lower nets t).quiet_few many a))
              k.3
          ∙ sort_nets-touches order a (filtered quiet nets) s (filtered-IsProper quiet nets p),
    )
