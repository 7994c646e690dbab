-- ===== src/Qsrv/Pool/Grants.antt =====
-- internal/qsrv/pool.go: what `take`, `takeOwn` and `give` do to the leases.
use qd.Prelude.{
  ℕ, zero, suc, ◌+◌, ◌≤◌, ◌≡◌, refl, ap, ◌≢◌, ◌∙◌, ◌&&◌, ◌⊎◌, inl, inr, true, false, Option, none,
  some, ◌==◌, List, if◌then◌else◌, arith, Bool-cases, Option-cases, ℕ_discrete,
}
use qd.Prelude.Dict.{find, put, find-put_self, find-put_ne}
use qd.Netip.{Addr, Prefix, Addr-discrete, contains, is_valid}
use qd.Qsrv.Pool.{Pool, Lease, single, own_at, own, lease_fresh, round, take_loop, take, rounds}

abbrev pub lease_of : Pool → Addr → Option Lease
lease_of p a = find Addr-discrete a p.taken

-- What holds of every address that is leased or remembered.
pub record IsSound (p : Pool) : Type 0 where
  pub leased :
      (a : Addr) (l : Lease)
      → lease_of p a ≡ some l
      → (contains p.base a ≡ true) × (contains p.streams a ≡ false) × (1 ≤ l.held)
  pub remembered :
      (s : ℕ) (a : Addr)
      → find ℕ_discrete s p.mine ≡ some a
      → (contains p.base a ≡ true) × (contains p.streams a ≡ false)

-- A lease that is new, or held by the session once more.
abbrev pub Counted : ℕ → Option Lease → Option Lease → Type 0
Counted session before after =
    ((before ≡ none) × (after ≡ some (record { seat = session; held = 1 })))
    ⊎ ((n : ℕ) × (before ≡ some (record { seat = session; held = n }))
        × (after ≡ some (record { seat = session; held = n + 1 })))

-- `q` is `p` with the address `a` leased to `session`, which nobody else held before.
pub record Grants (p : Pool) (session : ℕ) (q : Pool) (a : Addr) : Type 0 where
  pub inside : contains p.base a ≡ true
  pub outside_tail : contains p.streams a ≡ false
  pub counted : Counted session (lease_of p a) (lease_of q a)
  pub others : (b : Addr) → a ≢ b → lease_of q b ≡ lease_of p b
  pub same_base : q.base ≡ p.base
  pub same_streams : q.streams ≡ p.streams
  pub memory : (q.mine ≡ p.mine) ⊎ (q.mine ≡ put ℕ_discrete session a p.mine)
  pub kept : session ≢ 0 → find ℕ_discrete session q.mine ≡ some a

-- A refusal changes no lease; a grant is as above.
abbrev pub Outcome : Pool → ℕ → Pool × Option Prefix → Type 0
Outcome p session (q, got) =
    ((got ≡ none)
      × (q.taken ≡ p.taken)
      × (q.mine ≡ p.mine)
      × (q.base ≡ p.base)
      × (q.streams ≡ p.streams))
    ⊎ ((a : Addr) × (got ≡ some (single a)) × Grants p session q a)

unreserved : (p : Prefix) (a : Addr) → is_valid p && contains p a ≡ false → contains p a ≡ false
unfolding contains
unreserved p a h = ground arith

Grants-put :
    (p q : Pool) (session : ℕ) (a : Addr) (l : Lease)
    → contains p.base a ≡ true
    → contains p.streams a ≡ false
    → Counted session (lease_of p a) (some l)
    → q.taken ≡ put Addr-discrete a l p.taken
    → q.base ≡ p.base
    → q.streams ≡ p.streams
    → (q.mine ≡ p.mine) ⊎ (q.mine ≡ put ℕ_discrete session a p.mine)
    → (session ≢ 0 → find ℕ_discrete session q.mine ≡ some a)
    → Grants p session q a
Grants-put p q session a l hb hs c et eb es em k = record {
  inside = hb;
  outside_tail = hs;
  counted = rw et (rw (find-put_self Addr-discrete a l p.taken) c);
  others = λ b ne. rw et (find-put_ne Addr-discrete a b l p.taken ne);
  same_base = eb;
  same_streams = es;
  memory = em;
  kept = k;
}

own_at-Outcome :
    (p : Pool) (session : ℕ) (was : Addr)
    → contains p.base was ≡ true
    → contains p.streams was ≡ false
    → find ℕ_discrete session p.mine ≡ some was
    → Outcome p session (own_at p session was)
unfolding own_at single
own_at-Outcome p session was hb hs hm = elim (Option-cases (lease_of p was)) [
  | inl free ↦
      rw (free, own_at)
        (inr (
          was,
          refl,
          Grants-put p _ session was _ hb hs (inl (free, refl)) refl refl refl (inl refl) (λ _. hm),
        ))
  | inr (l, held) ↦ elim (Bool-cases (l.seat == session)) [
    | inl same ↦
        rw (held, own_at)
          (rw same (
            inr (
              was,
              refl,
              Grants-put p _ session was _ hb hs (inr (l.held, ground arith, refl)) refl refl refl
                  (inl refl) (λ _. hm),
            )))
    | inr other ↦ rw (held, own_at) (rw other (inl (refl, refl, refl, refl, refl)))
  ]
]

pub own-Outcome : (p : Pool) (session : ℕ) → IsSound p → Outcome p session (own p session)
unfolding own
own-Outcome p session v = elim (Option-cases (find ℕ_discrete session p.mine)) [
  | inl never ↦ rw (never, own) (inl (refl, refl, refl, refl, refl))
  | inr (was, held) ↦
      rw (held, own)
        (rw (v.remembered session was held).1 (
          own_at-Outcome p session was (v.remembered session was held).0
            (v.remembered session was held).1 held))
]

-- The two differ in the cursor alone.
abbrev pub SameLeases : Pool → Pool → Type 0
SameLeases p q =
    (q.taken ≡ p.taken) × (q.mine ≡ p.mine) × (q.base ≡ p.base) × (q.streams ≡ p.streams)

Grants-same :
    (p q r : Pool) (session : ℕ) (a : Addr)
    → SameLeases p q
    → Grants q session r a
    → Grants p session r a
Grants-same p q r session a (et, em, eb, es) g = record {
  inside = rw (← eb) g.inside;
  outside_tail = rw (← es) g.outside_tail;
  counted = rw et at g.counted;
  others = λ b ne. g.others b ne ∙ ap (find Addr-discrete b) et;
  same_base = g.same_base ∙ eb;
  same_streams = g.same_streams ∙ es;
  memory = rw em at g.memory;
  kept = g.kept;
}

Outcome-same :
    (p q : Pool) (session : ℕ) (r : Pool × Option Prefix)
    → SameLeases p q
    → Outcome q session r
    → Outcome p session r
Outcome-same p q session r s (inl (e, et, em, eb, es)) =
    inl (e, et ∙ s.0, em ∙ s.1, eb ∙ s.2, es ∙ s.3)
Outcome-same p q session r s (inr (a, e, g)) = inr (a, e, Grants-same p q r.0 session a s g)

memory_moves :
    (s : ℕ) (a : Addr) (m : List (ℕ × Addr))
    → ((if s == 0 then m else put ℕ_discrete s a m) ≡ m)
      ⊎ ((if s == 0 then m else put ℕ_discrete s a m) ≡ put ℕ_discrete s a m)
memory_moves s a m = ground arith

memory_kept :
    (s : ℕ) (a : Addr) (m : List (ℕ × Addr))
    → s ≢ 0
    → find ℕ_discrete s (if s == 0 then m else put ℕ_discrete s a m) ≡ some a
memory_kept s a m h = ground (arith, find-put_self ℕ_discrete s a m)

pub round-Outcome : (p : Pool) (session : ℕ) → Outcome p session (round p session)
unfolding round lease_fresh single
round-Outcome p session = elim (Bool-cases (contains p.base p.next)) [
  | inr out ↦ rw out (inl (refl, refl, refl, refl, refl))
  | inl inn ↦ elim (Bool-cases (is_valid p.streams && contains p.streams p.next)) [
    | inl reserved ↦ rw (inn) (rw reserved (inl (refl, refl, refl, refl, refl)))
    | inr usable ↦ elim (Option-cases (lease_of p p.next)) [
      | inr (l, busy) ↦ rw (inn) (rw usable (rw busy (inl (refl, refl, refl, refl, refl))))
      | inl free ↦ rw (inn) (
          rw usable (
            rw free (
              inr (
                p.next,
                refl,
                Grants-put p _ session p.next _ inn (unreserved p.streams p.next usable)
                    (inl (free, refl)) refl refl refl (memory_moves session p.next p.mine)
                    (memory_kept session p.next p.mine),
              ))))
    ]
  ]
]

take_loop-Outcome : (n : ℕ) (p : Pool) (session : ℕ) → Outcome p session (take_loop n p session)
unfolding take_loop
take_loop-Outcome zero p session = inl (refl, refl, refl, refl, refl)
take_loop-Outcome (suc n) p session = elim (round-Outcome p session) [
  | inr (a, e, g) ↦ rw (e, take_loop) (inr (a, refl, g))
  | inl (e, st, sm, sb, ss) ↦
      rw (e, take_loop)
        (Outcome-same p (round p session).0 session _ (st, sm, sb, ss)
          (take_loop-Outcome n _ session))
]

-- For every pool whose leases and memories lie in the base and outside the tail, `take` either
-- leases to the session one address, in the base, outside the tail and held by no other session
-- before, with every other lease as it was, or refuses and changes no lease and no memory.
pub take-Outcome : (p : Pool) (session : ℕ) → IsSound p → Outcome p session (take p session)
unfolding take
take-Outcome p session v = elim (own-Outcome p session v) [
  | inr (a, e, g) ↦ rw (e, take) (inr (a, refl, g))
  | inl (e, st, sm, sb, ss) ↦
      rw (e, take)
        (Outcome-same p (own p session).0 session _ (st, sm, sb, ss)
          (take_loop-Outcome rounds _ session))
]
