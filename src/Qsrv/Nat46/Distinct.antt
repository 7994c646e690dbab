-- ===== src/Qsrv/Nat46/Distinct.antt =====
-- internal/qsrv/nat46.go: the stand-in that another address gets, and the one in use.
use qd.Prelude.{
  ℕ, ◌+◌, ◌<◌, ◌≡◌, sym, ap, ◌≢◌, ◌∙◌, inl, inr, some, arith, some_same, none_some, known_twice,
}
use qd.Prelude.Int.{ℤ}
use qd.Prelude.Dict.{find, find-remove_ne}
use qd.Netip.{Addr, Addr-discrete}
use qd.Qsrv.Nat46.{Nat46, Pair, nat_reuse, drop_pair, stand_anew, stand}
use qd.Qsrv.Nat46.Pairs.{IsPaired, moved}
use qd.Qsrv.Nat46.Steps.{
  stand-IsPaired, forget_oldest-Forgot, room_lem, drop_pair-IsPaired, drop_pair-length,
}
use qd.Qsrv.Nat46.Lookups.{mint_free_of, stand_anew_cases, stand_cases, stand-Stood}

drop_pair-find :
    (n : Nat46) (a b : Addr)
    → a ≢ b
    → find Addr-discrete b (drop_pair n a).by_v4 ≡ find Addr-discrete b n.by_v4
unfolding drop_pair
drop_pair-find n a b ne = find-remove_ne Addr-discrete a b n.by_v4 ne

module _ (slot : ℤ) (n : Nat46) (b6 a4 : Addr) (p : Pair) (later : ℕ) (v : IsPaired slot n)
    (held : find Addr-discrete a4 n.by_v4 ≡ some p) (recent : later < p.used_at + nat_reuse) where
  anew_spares : (stand_anew n b6 later).1 ≢ some a4
  anew_spares e = elim (stand_anew_cases n b6 later) [
    | inl (plain, space) ↦
        mint_free_of slot n b6 a4 p later v (omega (arith, room_lem slot n v.mine)) held
          (rw plain at e)
    | inr (inr refused) ↦ none_some refused e
    | inr (inl (late, freed)) ↦ elim (forget_oldest-Forgot n later v.unique) [
      | inl (refused, same) ↦ known_twice refused freed
      | inr (a, q, ok, f, old, same) ↦
          let apart : a ≢ a4 = λ is.
            let times =
              ap (λ (r : Pair). r.used_at) (some_same q p (sym f ∙ moved n.by_v4 is held)) in
            absurd (omega arith) in
          mint_free_of slot (drop_pair n a) b6 a4 p later (drop_pair-IsPaired slot n a q f v)
            (drop_pair-length slot n a q v f) (drop_pair-find n a a4 apart ∙ held)
            (rw same at (rw late at e))
    ]
  ]

  stand_spares : p.v6 ≢ b6 → (stand n b6 later).1 ≢ some a4
  stand_spares other e = elim (stand_cases n b6 later) [
    | inl refused ↦ none_some refused e
    | inr (inl (a, h, same)) ↦
        let is : a ≡ a4 = some_same a a4 (rw same at e) in
        let (u, f) = v.there b6 a h in
        other (ap (λ (r : Pair). r.v6) (some_same p _ (sym (moved n.by_v4 is held) ∙ f)))
    | inr (inr (new, same)) ↦ anew_spares (rw same at e)
  ]

-- On a table that is paired, the stand-in that `stand` gave out is given to no other address by
-- a `stand` that follows within five minutes.
pub stand_distinct :
    (slot : ℤ) (n : Nat46) (a6 b6 a4 : Addr) (now later : ℕ)
    → IsPaired slot n
    → (stand n a6 now).1 ≡ some a4
    → later < now + nat_reuse
    → a6 ≢ b6
    → (stand (stand n a6 now).0 b6 later).1 ≢ some a4
stand_distinct slot n a6 b6 a4 now later v e soon other =
    let s = stand-Stood slot n a6 a4 now v e in
    stand_spares slot (stand n a6 now).0 b6 a4 _ later (stand-IsPaired slot n a6 now v) s.1 soon
      other
