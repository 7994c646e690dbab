-- ===== src/Qsrv/Pool/Refill.antt =====
-- internal/qsrv/pool.go: the invariant of the pool under `take`, `takeOwn` and `give`, and what a
-- seat gets that comes back.
use mathlib.Core.Path.{subst}
use qd.Prelude.{
  ℕ, ◌-◌, ◌≤◌, ◌<◌, ◌≡◌, refl, sym, ap, ◌≢◌, ◌∙◌, ◌⊎◌, inl, inr, true, false, Option, none, some,
  arith, leb, Bool-cases, Option-cases, ℕ_discrete, List, [], ◌∷◌,
}
use qd.Prelude.Dict.{
  find, put, find-put, find-put_self, find-put_ne, find-remove_self, find-remove_ne,
}
use qd.Netip.{Addr, Prefix, Addr-discrete, contains}
use qd.Qsrv.Pool.{Pool, Lease, new_pool, single, own, own_at, take_own, take, give}
use qd.Qsrv.Pool.Grants.{
  lease_of, IsSound, Counted, Grants, Outcome, take-Outcome, own-Outcome, SameLeases,
}

pub new_pool-IsSound : (base : Prefix) → IsSound (new_pool base)
unfolding new_pool find
new_pool-IsSound base = record { leased = λ a l e. cc; remembered = λ s a e. cc }

Counted-held :
    (session : ℕ) (before after : Option Lease) (l : Lease)
    → Counted session before after
    → after ≡ some l
    → 1 ≤ l.held
Counted-held session before after l c e = ground arith

abbrev Inside : Pool → Addr → Type 0
Inside p a = (contains p.base a ≡ true) × (contains p.streams a ≡ false)

Grants-Inside :
    (p q : Pool) (session : ℕ) (a b : Addr) → Grants p session q a → Inside p b → Inside q b
Grants-Inside p q session a b g (hb, hs) = (rw g.same_base hb, rw g.same_streams hs)

Grants-leased :
    (p q : Pool) (session : ℕ) (a b : Addr) (l : Lease)
    → IsSound p
    → Grants p session q a
    → lease_of q b ≡ some l
    → Inside p b × (1 ≤ l.held)
Grants-leased p q session a b l v g e = elim (Addr-discrete a b) [
  | yes same ↦ (
    (rw (← same) g.inside, rw (← same) g.outside_tail),
    Counted-held session (lease_of p a) (lease_of q a) l g.counted (rw same e),
  )
  | no other ↦ let old = v.leased b l (sym (g.others b other) ∙ e) in ((old.0, old.1), old.2)
]

put_memory :
    (session s : ℕ) (a b : Addr) (m : List (ℕ × Addr))
    → find ℕ_discrete s (put ℕ_discrete session a m) ≡ some b
    → (a ≡ b) ⊎ (find ℕ_discrete s m ≡ some b)
put_memory session s a b m e = ground (arith, find-put ℕ_discrete session s a m)

Grants-remembered :
    (p q : Pool) (session s : ℕ) (a b : Addr)
    → IsSound p
    → Grants p session q a
    → find ℕ_discrete s q.mine ≡ some b
    → Inside p b
Grants-remembered p q session s a b v g e = elim g.memory [
  | inl kept ↦ v.remembered s b (rw kept at e)
  | inr moved ↦ elim (put_memory session s a b p.mine (rw moved at e)) [
    | inl same ↦ (rw (← same) g.inside, rw (← same) g.outside_tail)
    | inr old ↦ v.remembered s b old
  ]
]

Grants-IsSound :
    (p q : Pool) (session : ℕ) (a : Addr) → IsSound p → Grants p session q a → IsSound q
Grants-IsSound p q session a v g = record {
  leased = λ b l e.
      let (inn, pos) = Grants-leased p q session a b l v g e in
      let moved = Grants-Inside p q session a b g inn in (moved.0, moved.1, pos);
  remembered = λ s b e. Grants-Inside p q session a b g (Grants-remembered p q session s a b v g e);
}

SameLeases-IsSound : (p q : Pool) → IsSound p → SameLeases p q → IsSound q
SameLeases-IsSound p q v (et, em, eb, es) = record {
  leased = λ a l e. let old = v.leased a l (rw et at e) in (rw eb old.0, rw es old.1, old.2);
  remembered = λ s a e. let old = v.remembered s a (rw em at e) in (rw eb old.0, rw es old.1);
}

Outcome-IsSound :
    (p : Pool) (session : ℕ) (r : Pool × Option Prefix)
    → IsSound p
    → Outcome p session r
    → IsSound r.0
Outcome-IsSound p session r v (inl (e, et, em, eb, es)) =
    SameLeases-IsSound p r.0 v (et, em, eb, es)
Outcome-IsSound p session r v (inr (a, e, g)) = Grants-IsSound p r.0 session a v g

-- Giving back takes one count off a lease, and the last count takes the lease away.
abbrev pub Uncounted : Option Lease → Option Lease → Type 0
Uncounted before after =
    ((before ≡ none) × (after ≡ none))
    ⊎ ((l : Lease) × (before ≡ some l) × (l.held ≤ 1) × (after ≡ none))
    ⊎ ((l : Lease) × (before ≡ some l)
        × (1 < l.held)
        × (after ≡ some (record l { held = l.held - 1 })))

give_cases :
    (p : Pool) (pre : Prefix) → Uncounted (lease_of p pre.addr) (lease_of (give p pre) pre.addr)
unfolding give
give_cases p pre = elim (Option-cases (lease_of p pre.addr)) [
  | inl free ↦ inl (free, rw (free, give) free)
  | inr (l, held) ↦ elim (Bool-cases (leb (l.held - 1) 0)) [
    | inl gone ↦ inr (
        inl (
          l,
          held,
          ground arith,
          rw (held, give) (rw gone (find-remove_self Addr-discrete pre.addr p.taken)),
        ))
    | inr stays ↦ inr (
        inr (
          l,
          held,
          ground arith,
          rw (held, give) (rw stays (find-put_self Addr-discrete pre.addr _ p.taken)),
        ))
  ]
]

give_at :
    (p : Pool) (pre : Prefix) (a : Addr)
    → pre.addr ≡ a
    → Uncounted (lease_of p a) (lease_of (give p pre) a)
give_at p pre a e =
    subst (λ (b : Addr). Uncounted (lease_of p b) (lease_of (give p pre) b)) e (give_cases p pre)

give_others :
    (p : Pool) (pre : Prefix) (b : Addr) → pre.addr ≢ b → lease_of (give p pre) b ≡ lease_of p b
unfolding give
give_others p pre b ne = elim (Option-cases (lease_of p pre.addr)) [
  | inl free ↦ rw (free, give) refl
  | inr (l, held) ↦ elim (Bool-cases (leb (l.held - 1) 0)) [
    | inl gone ↦ rw (held, give) (rw gone (find-remove_ne Addr-discrete pre.addr b p.taken ne))
    | inr stays ↦ rw (held, give) (rw stays (find-put_ne Addr-discrete pre.addr b _ p.taken ne))
  ]
]

abbrev GiveRest : Pool → Pool → Type 0
GiveRest p q = (q.mine ≡ p.mine) × (q.base ≡ p.base) × (q.streams ≡ p.streams)

give_rest : (p : Pool) (pre : Prefix) → GiveRest p (give p pre)
unfolding give
give_rest p pre = elim (Option-cases (lease_of p pre.addr)) [
  | inl free ↦ rw (free, give) (refl, refl, refl)
  | inr (l, held) ↦ elim (Bool-cases (leb (l.held - 1) 0)) [
    | inl gone ↦ rw (held, give) (rw gone (refl, refl, refl))
    | inr stays ↦ rw (held, give) (rw stays (refl, refl, refl))
  ]
]

Uncounted-old :
    (before after : Option Lease) (l : Lease)
    → Uncounted before after
    → after ≡ some l
    → (k : Lease) × (before ≡ some k) × (1 ≤ l.held)
Uncounted-old before after l (inl (e, f)) h = cc
Uncounted-old before after l (inr (inl (k, e, small, f))) h = cc
Uncounted-old before after l (inr (inr (k, e, big, f))) h = (k, e, ground arith)

give_leased :
    (p : Pool) (pre : Prefix) (a : Addr) (l : Lease)
    → IsSound p
    → lease_of (give p pre) a ≡ some l
    → Inside p a × (1 ≤ l.held)
give_leased p pre a l v e = elim (Addr-discrete pre.addr a) [
  | yes same ↦
      let (k, held, pos) =
        Uncounted-old _ _ l (give_cases p pre) (ap (lease_of (give p pre)) same ∙ e) in
      let old = v.leased pre.addr k held in ((rw (← same) old.0, rw (← same) old.1), pos)
  | no other ↦
      let old = v.leased a l (sym (give_others p pre a other) ∙ e) in ((old.0, old.1), old.2)
]

give-IsSound : (p : Pool) (pre : Prefix) → IsSound p → IsSound (give p pre)
give-IsSound p pre v =
    let (em, eb, es) = give_rest p pre in
    record {
      leased =
          λ a l e. let (inn, pos) = give_leased p pre a l v e in (rw eb inn.0, rw es inn.1, pos);
      remembered = λ s a e. let old = v.remembered s a (rw em at e) in (rw eb old.0, rw es old.1);
    }

-- The calls that the node makes of its pool, in any order.
pub data Call : Type 0 where
  takes takes_own : ℕ → Call
  gives : Prefix → Call

pub step : Pool → Call → Pool
step p (takes session) = (take p session).0
step p (takes_own session) = (take_own p session).0
step p (gives pre) = give p pre

pub run : Pool → List Call → Pool
run p [] = p
run p (c ∷ cs) = run (step p c) cs

step-IsSound : (p : Pool) (c : Call) → IsSound p → IsSound (step p c)
unfolding step take_own
step-IsSound p (takes session) v = Outcome-IsSound p session _ v (take-Outcome p session v)
step-IsSound p (takes_own session) v = Outcome-IsSound p session _ v (own-Outcome p session v)
step-IsSound p (gives pre) v = give-IsSound p pre v

run-IsSound : (p : Pool) (cs : List Call) → IsSound p → IsSound (run p cs)
unfolding run
run-IsSound p [] v = v
run-IsSound p (c ∷ cs) v = run-IsSound (step p c) cs (step-IsSound p c v)

-- After any sequence of `take`, `takeOwn` and `give` on a new pool, every lease counts at least
-- one holder and its address lies in the base and outside the tail of the streams, and every
-- address that the pool remembers lies there too.
pub run-new_pool-IsSound : (base : Prefix) (cs : List Call) → IsSound (run (new_pool base) cs)
run-new_pool-IsSound base cs = run-IsSound _ cs (new_pool-IsSound base)

-- The address that a seat had last is its own again unless another seat holds it.
own_again :
    (p : Pool) (session : ℕ) (a : Addr)
    → IsSound p
    → find ℕ_discrete session p.mine ≡ some a
    → (lease_of p a ≡ none) ⊎ ((l : Lease) × (lease_of p a ≡ some l) × (l.seat ≡ session))
    → (own p session).1 ≡ some (single a)
unfolding own own_at
own_again p session a v m (inl free) =
    rw (m, own) (rw (v.remembered session a m).1 (rw (free, own_at) refl))
own_again p session a v m (inr (l, held, same)) =
    rw (m, own) (rw (v.remembered session a m).1 (rw (held, own_at) (ground arith)))

take_again :
    (p : Pool) (session : ℕ) (a : Addr)
    → IsSound p
    → find ℕ_discrete session p.mine ≡ some a
    → (lease_of p a ≡ none) ⊎ ((l : Lease) × (lease_of p a ≡ some l) × (l.seat ≡ session))
    → (take p session).1 ≡ some (single a)
unfolding take
take_again p session a v m free = rw (own_again p session a v m free, take) refl

Counted-seat :
    (session : ℕ) (x y z : Option Lease)
    → Counted session x y
    → Uncounted y z
    → (z ≡ none) ⊎ ((l : Lease) × (z ≡ some l) × (l.seat ≡ session))
Counted-seat session x y z c (inl (e, f)) = inl f
Counted-seat session x y z c (inr (inl (k, e, small, f))) = inl f
Counted-seat session x y z c (inr (inr (k, e, big, f))) =
    inr (record k { held = k.held - 1 }, f, ground arith)

same_single : (a b : Addr) → single a ≡ single b → a ≡ b
unfolding single
same_single a b e = ap (λ (p : Prefix). p.addr) e

single_addr : (a : Addr) → (single a).addr ≡ a
unfolding single
single_addr a = refl

Outcome-grant :
    (p : Pool) (session : ℕ) (a : Addr) (r : Pool × Option Prefix)
    → Outcome p session r
    → r.1 ≡ some (single a)
    → Grants p session r.0 a
Outcome-grant p session a r (inl (f, et, em, eb, es)) e = cc
Outcome-grant p session a r (inr (b, f, g)) e = rw (same_single b a (some_same (sym f ∙ e))) at g
  where
    some_same : some (single b) ≡ some (single a) → single b ≡ single a
    some_same h = cc

-- In a sound pool, a seat other than 0 that took an address, gave it back and takes again gets
-- the same address.
pub take-give-take :
    (p : Pool) (session : ℕ) (a : Addr)
    → session ≢ 0
    → IsSound p
    → (take p session).1 ≡ some (single a)
    → (take (give (take p session).0 (single a)) session).1 ≡ some (single a)
take-give-take p session a ne v e =
    let g = Outcome-grant p session a (take p session) (take-Outcome p session v) e in
    let q = (take p session).0 in
    let back = give q (single a) in
    let sound = give-IsSound q (single a) (Grants-IsSound p q session a v g) in
    take_again back session a sound
      ((ap (find ℕ_discrete session) (give_rest q (single a)).0) ∙ g.kept ne)
      (Counted-seat session _ _ _ g.counted (give_at q (single a) a (single_addr a)))
