-- ===== src/Qsrv/Seats/Counting.antt =====
-- internal/qsrv/session.go: what `counting` and the loops that drop seats leave in the table.
use qd.Prelude.{
  ℕ, ◌+◌, ◌≤◌, ◌<◌, ◌≡◌, ◌≢◌, ◌⊎◌, inl, inr, refl, ap, ◌∙◌, ◌&&◌, ◌||◌, true, false, Option, none,
  some, [], ◌==◌, ==_iff, ltb, arith, Bool-cases, Option-cases, ℕ_discrete,
}
use qd.Prelude.Dict.{find, put, kept_at, find-keep, Unique, find-put_self, find-put_ne}
use qd.Netip.{no_prefix}
use qd.Qsrv.Pool.{Pool, stream}
use qd.Qsrv.Seats.{
  Name, Grant, Live, Seats, is_empty, new_live, peer_session, stream_session, counting, lively,
  sweep_streams,
}

-- The seat is refused and nothing changes, or it stands in the table, all others as they were; a
-- seat that stood there before is the one that it gets.
abbrev pub Seated : Seats → Grant → Seats × Option Live → Type 0
Seated seats g (after, got) =
    ((got ≡ none)
      × (after ≡ seats)
      × (find ℕ_discrete g.seat seats ≡ none)
      × ((g.seat ≡ 0) ⊎ (is_empty g.client ≡ true)))
    ⊎ ((s : Live) × (got ≡ some s)
        × (find ℕ_discrete g.seat after ≡ some s)
        × ((find ℕ_discrete g.seat seats ≡ some s)
            ⊎ ((find ℕ_discrete g.seat seats ≡ none) × (s.grant.seat ≡ g.seat)))
        × ((other : ℕ)
            → g.seat ≢ other
            → find ℕ_discrete other after ≡ find ℕ_discrete other seats))

put-Seated :
    (seats : Seats) (g : Grant) (s : Live)
    → find ℕ_discrete g.seat seats ≡ none
    → s.grant.seat ≡ g.seat
    → Seated seats g (put ℕ_discrete g.seat s seats, some s)
put-Seated seats g s free same = inr (
  s,
  refl,
  find-put_self ℕ_discrete g.seat s seats,
  inr (free, same),
  λ other ne. find-put_ne ℕ_discrete g.seat other s seats ne,
)

peer-Seated :
    (now : ℕ) (seats : Seats) (g : Grant) (qc : ℕ)
    → find ℕ_discrete g.seat seats ≡ none
    → Seated seats g (peer_session now seats g qc)
unfolding peer_session new_live
peer-Seated now seats g qc free = elim (Bool-cases (is_empty g.client || g.seat == 0)) [
  | inl refused ↦
      let why : (g.seat ≡ 0) ⊎ (is_empty g.client ≡ true) = ground arith in
      rw (refused, peer_session) (inl (refl, refl, free, why))
  | inr go ↦
      let s = record (new_live now (record g { peer = false }) no_prefix g.client [] true) {
        conn = some qc;
      } in
      let e : peer_session now seats g qc ≡ (put ℕ_discrete g.seat s seats, some s) =
        rw (go, peer_session) (rw free refl) in
      rw e (put-Seated seats g s free refl)
]

stream-Seated :
    (now : ℕ) (p : Pool) (seats : Seats) (g : Grant) (remote route : Name)
    → find ℕ_discrete g.seat seats ≡ none
    → Seated seats g (stream_session now p seats g remote route)
unfolding stream_session new_live
stream-Seated now p seats g remote route free = elim (Bool-cases (g.seat == 0)) [
  | inl refused ↦
      rw (refused, stream_session) (inl (refl, refl, free, inl ((==_iff g.seat 0).0 refused)))
  | inr go ↦
      let s = record (new_live now g (stream p g.seat) remote route false) { is_stream = true } in
      let e : stream_session now p seats g remote route ≡ (put ℕ_discrete g.seat s seats, some s) =
        rw (go, stream_session) (rw free refl) in
      rw e (put-Seated seats g s free refl)
]

-- `counting` either refuses and changes nothing, which it does only for a free seat of number 0
-- or a grant without a client; or it gives the session that stands at the seat afterwards, the
-- one that stood there before if there was one, and leaves every other seat as it was.
pub counting-Seated :
    (now : ℕ) (p : Pool) (seats : Seats) (g : Grant) (qc : Option ℕ) (remote route : Name)
    → Seated seats g (counting now p seats g qc remote route)
unfolding counting
counting-Seated now p seats g qc remote route = elim (Option-cases (find ℕ_discrete g.seat seats)) [
  | inr (s, held) ↦
      let e : counting now p seats g qc remote route ≡ (seats, some s) = rw (held, counting) refl in
      rw e (inr (s, refl, held, inl held, λ other ne. refl))
  | inl free ↦ elim (Option-cases qc) [
    | inr (c, over) ↦
        let e : counting now p seats g qc remote route ≡ peer_session now seats g c =
          rw (free, counting) (rw over refl) in
        rw e (peer-Seated now seats g c free)
    | inl plain ↦
        let e : counting now p seats g qc remote route ≡ stream_session now p seats g remote route =
          rw (free, counting) (rw plain refl) in
        rw e (stream-Seated now p seats g remote route free)
  ]
]

-- In a table whose seats are unique, sweepStreams removes a session exactly if it is a stream
-- that was last seen longer ago than the given time, and leaves any other as it was.
pub find-sweep_streams :
    (now quiet : ℕ) (seats : Seats) (seat : ℕ) (s : Live)
    → Unique ℕ_discrete seats
    → find ℕ_discrete seat seats ≡ some s
    → ((find ℕ_discrete seat (sweep_streams now quiet seats) ≡ none)
        × (s.is_stream ≡ true)
        × (s.last_seen + quiet < now))
      ⊎ ((find ℕ_discrete seat (sweep_streams now quiet seats) ≡ some s)
          × ((s.is_stream ≡ false) ⊎ (now ≤ s.last_seen + quiet)))
unfolding sweep_streams kept_at lively
find-sweep_streams now quiet seats seat s u there =
    let e =
      find-keep ℕ_discrete (lively now quiet) seat seats u
      ∙ ap (kept_at (lively now quiet) seat) there in
    elim (Bool-cases (s.is_stream && ltb (s.last_seen + quiet) now)) [
      | inl gone ↦ inl (e ∙ rw gone refl, ground arith, ground arith)
      | inr stays ↦ inr (e ∙ rw stays refl, ground arith)
    ]
