-- ===== src/Domains/Places.antt =====
-- internal/domainroute/domainroute.go: what learning the addresses of a name leaves for each of them.
use qd.Prelude.{
  ℕ, ◌≤◌, ◌<◌, ◌≡◌, ◌&&◌, true, false, not, leb, Bool-cases, ◌⊎◌, inl, inr, refl, sym, ap, ◌∙◌,
  Option, none, some, List, [], ◌∷◌, arith,
}
use qd.Prelude.Dict.{find, put, find-put_self, find-put_ne}
use qd.Netip.{Addr, Addr-discrete, unmap}
use qd.Domains.{Name, Table, Answer, Learned, rule_of, settle, place_addrs, place}

-- The address, unmapped, is one of the list's.
abbrev pub Named : Addr → List Addr → Type 0
Named b [] = ⊥
Named b (a ∷ rest) = (unmap a ≡ b) ⊎ Named b rest

settle_twice :
    (now : ℕ) (found : Learned) (was : Option Learned)
    → settle now found (some (settle now found was)) ≡ settle now found was
unfolding settle
settle_twice now found none = ground arith
settle_twice now found (some was) = ground arith

-- Every address of the list has its entry settled, and any other address keeps its own.
find-place_addrs :
    (now : ℕ) (found : Learned) (list : List Addr) (m : List (Addr × Learned)) (b : Addr)
    → ((find Addr-discrete b (place_addrs now found list m)
          ≡ some (settle now found (find Addr-discrete b m)))
        × Named b list)
      ⊎ ((find Addr-discrete b (place_addrs now found list m) ≡ find Addr-discrete b m)
          × (Named b list → ⊥))
unfolding place_addrs
find-place_addrs now found [] m b = inr (refl, λ h. h)
find-place_addrs now found (a ∷ rest) m b =
    let v = settle now found (find Addr-discrete (unmap a) m) in
    let m' = put Addr-discrete (unmap a) v m in
    let later = find-place_addrs now found rest m' b in
    elim (Addr-discrete (unmap a) b) [
      | yes same ↦
          let at : find Addr-discrete b m' ≡ some (settle now found (find Addr-discrete b m)) =
            ap (λ (x : Addr). find Addr-discrete x m') (sym same)
            ∙ find-put_self Addr-discrete (unmap a) v m
            ∙ ap (λ (x : Addr). some (settle now found (find Addr-discrete x m))) same in
          elim later [
            | inl (e, n) ↦ inl (
              e
                  ∙ ap (λ (o : Option Learned). some (settle now found o)) at
                  ∙ ap (λ (l : Learned). some l) (settle_twice now found (find Addr-discrete b m)),
              inl same,
            )
            | inr (e, n) ↦ inl (e ∙ at, inl same)
          ]
      | no other ↦
          let at = find-put_ne Addr-discrete (unmap a) b v m other in
          elim later [
            | inl (e, n) ↦
                inl (e ∙ ap (λ (o : Option Learned). some (settle now found o)) at, inr n)
            | inr (e, n) ↦ inr (e ∙ at, λ h. elim h [ inl same ↦ other same | inr more ↦ n more ])
          ]
    ]

-- The entry that `found` leaves behind in place of `was`: an own rule's entry that still holds
-- stays where `found` is of the lower rules, and anything else gives way to `found`.
abbrev pub Settled : ℕ → Learned → Option Learned → Option Learned → Type 0
Settled now found was after =
    ((kept : Learned) × (was ≡ some kept)
      × (found.low ≡ true)
      × (kept.low ≡ false)
      × (now ≤ kept.until)
      × (after ≡ some kept))
    ⊎ ((after ≡ some found)
        × ((was ≡ none)
            ⊎ ((old : Learned) × (was ≡ some old)
                × ((found.low ≡ false) ⊎ (old.low ≡ true) ⊎ (old.until < now)))))

gives_way :
    (now : ℕ) (found was : Learned)
    → found.low && not was.low && leb now was.until ≡ false
    → (found.low ≡ false) ⊎ (was.low ≡ true) ⊎ (was.until < now)
gives_way now found was h = ground arith

settle-Settled :
    (now : ℕ) (found : Learned) (was : Option Learned)
    → Settled now found was (some (settle now found was))
unfolding settle
settle-Settled now found none = inr (refl, inl refl)
settle-Settled now found (some was) =
    elim (Bool-cases (found.low && not was.low && leb now was.until)) [
      | inl stays ↦ inl (was, refl, ground arith, ground arith, ground arith, rw stays refl)
      | inr goes ↦ inr (rw goes refl, inr (was, refl, gives_way now found was goes))
    ]

-- Where a name falls under a rule, placing its answer gives each address of the answer the entry
-- of that rule with the time of the answer, except that an entry of an own rule that still holds
-- stays where the rule is a lower one; every other address keeps what it had.
pub find-place :
    (now : ℕ) (t : Table) (name : Name) (got : Answer) (found : Learned) (b : Addr)
    → rule_of t name ≡ some found
    → (Settled now
          (record found { until = got.until })
          (find Addr-discrete b t.addrs)
          (find Addr-discrete b (place now t name got).addrs)
        × Named b got.addrs)
      ⊎ ((find Addr-discrete b (place now t name got).addrs ≡ find Addr-discrete b t.addrs)
          × (Named b got.addrs → ⊥))
unfolding place
find-place now t name got found b e =
    let from = record found { until = got.until } in
    let was = find Addr-discrete b t.addrs in
    let placed : (place now t name got).addrs ≡ place_addrs now from got.addrs t.addrs =
      rw (e, place) refl in
    elim (find-place_addrs now from got.addrs t.addrs b) [
      | inl (at, n) ↦ inl (rw (placed, at) (settle-Settled now from was), n)
      | inr (at, n) ↦ inr (ap (find Addr-discrete b) placed ∙ at, n)
    ]
