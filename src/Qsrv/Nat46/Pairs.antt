-- ===== src/Qsrv/Nat46/Pairs.antt =====
-- internal/qsrv/nat46.go: the two maps of the table, and how they fit each other.
use qd.Prelude.{
  ℕ, ◌≤◌, ◌<◌, ◌≡◌, refl, sym, ap, ◌∙◌, Option, none, some, List, arith, length, some_same,
  none_some,
}
use qd.Prelude.Int.{ℤ}
use qd.Prelude.Dict.{
  find, put, remove, find-put_self, find-put_ne, find-remove_self, find-remove_ne, Unique,
  length-put-le, length-put_found, length-remove-le, put-Unique, remove-Unique,
}
use qd.Netip.{Addr, Addr-discrete}
use qd.Qsrv.Nat46.{Nat46, Pair, nat_slot, new_nat46, own_base}
use qd.Qsrv.Nat46.Mint.{slot_addr}

abbrev pub base_of : ℤ → ℕ
base_of slot = own_base (nat_slot slot).addr

abbrev pub rm : ℕ
rm = 4094

-- The table of a node's slot: each pair stands in both maps, at a slot of the node's own prefix.
pub record IsPaired (slot : ℤ) (n : Nat46) : Type 0 where
  pub mine : n.own ≡ nat_slot slot
  pub there :
      (a6 a4 : Addr)
      → find Addr-discrete a6 n.by_v6 ≡ some a4
      → (u : ℕ) × (find Addr-discrete a4 n.by_v4 ≡ some (record { v6 = a6; used_at = u }))
  pub back :
      (a4 : Addr) (p : Pair)
      → find Addr-discrete a4 n.by_v4 ≡ some p
      → find Addr-discrete p.v6 n.by_v6 ≡ some a4
  pub placed :
      (a4 : Addr) (p : Pair)
      → find Addr-discrete a4 n.by_v4 ≡ some p
      → (r : ℕ) × (r < rm) × (a4 ≡ slot_addr (base_of slot) r)
  pub unique : Unique Addr-discrete n.by_v4
  pub sized : length n.by_v4 ≤ rm

pub new_nat46-IsPaired : (slot : ℤ) → IsPaired slot (new_nat46 slot)
unfolding new_nat46 find
new_nat46-IsPaired slot = record {
  mine = refl;
  there = λ a6 a4 e. cc;
  back = λ a4 p e. cc;
  placed = λ a4 p e. cc;
  unique = tt;
  sized = omega arith;
}

-- A lookup at an equal address.
pub moved :
    {V : Type 0} {a b : Addr} {o : Option V} (m : List (Addr × V))
    → a ≡ b
    → find Addr-discrete b m ≡ o
    → find Addr-discrete a m ≡ o
moved m e h = ap (λ (i : Addr). find Addr-discrete i m) e ∙ h

v6_same : (p q : Pair) {o : Option Pair} → o ≡ some p → o ≡ some q → p.v6 ≡ q.v6
v6_same p q e f = ap (λ (r : Pair). r.v6) (some_same p q (sym e ∙ f))

module _ (slot : ℤ) (n : Nat46) (v : IsPaired slot n) where
  -- A new time on the pair of `a`.
  pub refreshed :
      (a : Addr) (p : Pair) (now : ℕ)
      → find Addr-discrete a n.by_v4 ≡ some p
      → IsPaired slot
          (record n { by_v4 = put Addr-discrete a (record p { used_at = now }) n.by_v4 })
  refreshed a p now e = record {
    mine = v.mine;
    there = λ a6 a4 h. elim (Addr-discrete a a4) [
      | yes same ↦
          let (u, f) = v.there a6 a4 h in
          let is : p.v6 ≡ a6 = v6_same p _ e (moved n.by_v4 same f) in
          (
            now,
            moved _ (sym same) (
                find-put_self Addr-discrete a _ n.by_v4
                ∙ ap (λ (x : Addr). some (let r : Pair = record { v6 = x; used_at = now } in r))
                    is),
          )
      | no other ↦
          let (u, f) = v.there a6 a4 h in (u, find-put_ne Addr-discrete a a4 _ n.by_v4 other ∙ f)
    ];
    back = λ a4 q h. elim (Addr-discrete a a4) [
      | yes same ↦
          let fresh = find-put_self Addr-discrete a (record p { used_at = now }) n.by_v4 in
          let is : p.v6 ≡ q.v6 = v6_same _ q fresh (moved _ same h) in
          moved n.by_v6 (sym is) (v.back a p e ∙ ap some same)
      | no other ↦ v.back a4 q (sym (find-put_ne Addr-discrete a a4 _ n.by_v4 other) ∙ h)
    ];
    placed = λ a4 q h. elim (Addr-discrete a a4) [
      | yes same ↦ v.placed a4 p (moved n.by_v4 (sym same) e)
      | no other ↦ v.placed a4 q (sym (find-put_ne Addr-discrete a a4 _ n.by_v4 other) ∙ h)
    ];
    unique = put-Unique Addr-discrete a _ n.by_v4 v.unique;
    sized = rw (length-put_found Addr-discrete a (record p { used_at = now }) p n.by_v4 e) v.sized;
  }

  -- The pair of `a` leaves both maps.
  pub dropped :
      (a : Addr) (p : Pair)
      → find Addr-discrete a n.by_v4 ≡ some p
      → IsPaired slot (record n {
        by_v6 = remove Addr-discrete p.v6 n.by_v6;
        by_v4 = remove Addr-discrete a n.by_v4;
      })
  dropped a p e = record {
    mine = v.mine;
    there = λ a6 a4 h. elim (Addr-discrete p.v6 a6) [
      | yes same ↦ none_some (moved _ (sym same) (find-remove_self Addr-discrete p.v6 n.by_v6)) h
      | no other ↦
          let (u, f) =
            v.there a6 a4 (sym (find-remove_ne Addr-discrete p.v6 a6 n.by_v6 other) ∙ h) in
          (
            u,
            find-remove_ne Addr-discrete a a4 n.by_v4
                  (λ same. other (v6_same p _ e (moved n.by_v4 same f)))
                ∙ f,
          )
    ];
    back = λ a4 q h. elim (Addr-discrete a a4) [
      | yes same ↦ none_some (moved _ (sym same) (find-remove_self Addr-discrete a n.by_v4)) h
      | no other ↦
          let f = v.back a4 q (sym (find-remove_ne Addr-discrete a a4 n.by_v4 other) ∙ h) in
          find-remove_ne Addr-discrete p.v6 q.v6 n.by_v6
            (λ same. other (some_same a a4 (sym (v.back a p e) ∙ moved n.by_v6 same f)))
          ∙ f
    ];
    placed = λ a4 q h. elim (Addr-discrete a a4) [
      | yes same ↦ none_some (moved _ (sym same) (find-remove_self Addr-discrete a n.by_v4)) h
      | no other ↦ v.placed a4 q (sym (find-remove_ne Addr-discrete a a4 n.by_v4 other) ∙ h)
    ];
    unique = remove-Unique Addr-discrete a n.by_v4 v.unique;
    sized = let less = length-remove-le Addr-discrete a n.by_v4 in let was = v.sized in omega arith;
  }

  -- A new pair of an address without a stand-in at a free slot.
  pub added :
      (a6 a4 : Addr) (now cursor marks r : ℕ)
      → find Addr-discrete a6 n.by_v6 ≡ none
      → find Addr-discrete a4 n.by_v4 ≡ none
      → length n.by_v4 < rm
      → r < rm
      → a4 ≡ slot_addr (base_of slot) r
      → IsPaired slot (record n {
        next = cursor;
        by_v6 = put Addr-discrete a6 a4 n.by_v6;
        by_v4 = put Addr-discrete a4 (record { v6 = a6; used_at = now }) n.by_v4;
        marks = marks;
      })
  added a6 a4 now cursor marks r new free space low at = record {
    mine = v.mine;
    there = λ b6 b4 h. elim (Addr-discrete a6 b6) [
      | yes same ↦
          let is =
            some_same a4 b4 (sym (find-put_self Addr-discrete a6 a4 n.by_v6) ∙ moved _ same h) in
          (
            now,
            moved _ (sym is) (
                find-put_self Addr-discrete a4 _ n.by_v4
                ∙ ap (λ (x : Addr). some (let q : Pair = record { v6 = x; used_at = now } in q))
                    same),
          )
      | no other ↦
          let (u, f) = v.there b6 b4 (sym (find-put_ne Addr-discrete a6 b6 a4 n.by_v6 other) ∙ h) in
          (
            u,
            find-put_ne Addr-discrete a4 b4 _ n.by_v4
                  (λ same. none_some free (moved n.by_v4 same f))
                ∙ f,
          )
    ];
    back = λ b4 q h. elim (Addr-discrete a4 b4) [
      | yes same ↦
          let fresh = find-put_self Addr-discrete a4 (record { v6 = a6; used_at = now }) n.by_v4 in
          let is : a6 ≡ q.v6 =
            v6_same (record { v6 = a6; used_at = now }) q fresh (moved _ same h) in
          moved _ (sym is) (find-put_self Addr-discrete a6 a4 n.by_v6 ∙ ap some same)
      | no other ↦
          let f = v.back b4 q (sym (find-put_ne Addr-discrete a4 b4 _ n.by_v4 other) ∙ h) in
          find-put_ne Addr-discrete a6 q.v6 a4 n.by_v6
            (λ same. none_some new (moved n.by_v6 same f))
          ∙ f
    ];
    placed = λ b4 q h. elim (Addr-discrete a4 b4) [
      | yes same ↦ (r, low, sym same ∙ at)
      | no other ↦ v.placed b4 q (sym (find-put_ne Addr-discrete a4 b4 _ n.by_v4 other) ∙ h)
    ];
    unique = put-Unique Addr-discrete a4 _ n.by_v4 v.unique;
    sized =
        let one = length-put-le Addr-discrete a4 (record { v6 = a6; used_at = now }) n.by_v4 in
        omega arith;
  }
