-- ===== src/Qsrv/Seats.antt =====
-- internal/qsrv/session.go, with newLive and seatsOf of internal/qsrv/node.go: what a token grants, and
-- the table of the seats that a node holds. A string is the list of its bytes, a connection a number.
-- The check of a token (Config.Verify) and the hash of a device's name are parameters, as is `^`.
pub mod Counting
mod Tests
use qd.Prelude.{
  ℕ, ◌+◌, ◌&&◌, ◌||◌, Bool, true, false, not, Option, none, some, List, [], ◌∷◌, ◌==◌, ltb,
  if◌then◌else◌, ℕ_discrete,
}
use qd.Prelude.Dict.{find, put, remove, keep}
use qd.Netip.{Prefix, no_prefix}
use qd.Qsrv.Pool.{Pool, stream}

abbrev pub Name : Type 0
Name = List ℕ

pub record Grant : Type 0 where
  pub client : Name
  pub allow_exit : Bool
  pub session : ℕ
  pub seat : ℕ
  pub via : ℕ
  pub peer : Bool

pub record Identity : Type 0 where
  pub token : Name
  pub device : Name
  pub node : Name
  pub seat : ℕ
  pub session : ℕ

-- What a connection remembers: who it is and what that was granted, once it is known.
pub record Held : Type 0 where
  pub who : Identity
  pub grant : Grant
  pub known : Bool
  pub route : Name

unfoldable pub remember : Held → Identity → Grant → Held
remember h who g = record h { who = who; grant = g; known = true }

unfoldable pub recall : Held → Option Identity
recall h = if h.known then some h.who else none

unfoldable pub last_grant : Held → Option Grant
last_grant h = if h.known then some h.grant else none

unfoldable pub is_empty : Name → Bool
is_empty [] = true
is_empty (x ∷ xs) = false

module _ (hash : ℕ → Name → ℕ) (flip : ℕ → ℕ) where
  -- `flip` is `session ^ 0x5bf03635`.
  unfoldable pub seat_for : ℕ → Name → ℕ
  seat_for session device =
      let seat = hash session device in if seat == 0 || seat == session then flip session else seat

  -- The switch of grantOf on a token's own grant.
  unfoldable pub seated : Identity → Grant → Grant
  unfolding seat_for is_empty
  seated who g =
      let own = record g { via = g.session; seat = g.session } in
      if g.peer && not (who.seat == 0)
      then record own {
        session = if who.session == 0 then who.seat else who.session;
        seat = who.seat;
        client = who.node;
      }
      else if not g.peer && not (is_empty who.device)
      then record own { seat = seat_for g.session who.device }
      else own

  unfoldable pub grant_of : (Name → Option Grant) → Identity → Option Grant
  grant_of verify who = elim (verify who.token) [ none ↦ none | some g ↦ some (seated who g) ]

  -- A request with a token says who it is; one without is who the connection remembers.
  unfoldable pub verified : (Name → Option Grant) → Held → Identity → Held × Option Grant
  unfolding remember recall is_empty
  verified verify h who =
      let fresh : Held × Option Grant = elim (grant_of verify who) [
        | none ↦ (h, none)
        | some g ↦ (remember h who g, some g)
      ] in
      let again : Held × Option Grant = elim (recall h) [
        | none ↦ (h, none)
        | some was ↦ (h, grant_of verify was)
      ] in
      if is_empty who.token then again else fresh

-- The fields of `live` that the table's operations read and write.
pub record Live : Type 0 where
  pub grant : Grant
  pub address : Prefix
  pub peer : Name
  pub conn : Option ℕ
  pub since : ℕ
  pub transit : Bool
  pub is_stream : Bool
  pub last_seen : ℕ
  pub route : Name

abbrev pub Seats : Type 0
Seats = List (ℕ × Live)

unfoldable pub new_live : ℕ → Grant → Prefix → Name → Name → Bool → Live
new_live now grant address peer route transit = record {
  grant = grant;
  address = address;
  peer = peer;
  conn = none;
  since = now;
  transit = transit;
  is_stream = false;
  last_seen = now;
  route = route;
}

unfoldable pub peer_session : ℕ → Seats → Grant → ℕ → Seats × Option Live
unfolding new_live is_empty
peer_session now seats grant qc =
    let g = record grant { peer = false } in
    let s = record (new_live now g no_prefix grant.client [] true) { conn = some qc } in
    let fresh : Seats × Option Live = elim (find ℕ_discrete grant.seat seats) [
      | some held ↦ (seats, some held)
      | none ↦ (put ℕ_discrete grant.seat s seats, some s)
    ] in
    if is_empty grant.client || grant.seat == 0 then (seats, none) else fresh

unfoldable pub stream_session : ℕ → Pool → Seats → Grant → Name → Name → Seats × Option Live
unfolding new_live
stream_session now p seats grant remote route =
    let s = record (new_live now grant (stream p grant.seat) remote route false) {
      is_stream = true;
    } in
    let fresh : Seats × Option Live = elim (find ℕ_discrete grant.seat seats) [
      | some held ↦ (seats, some held)
      | none ↦ (put ℕ_discrete grant.seat s seats, some s)
    ] in
    if grant.seat == 0 then (seats, none) else fresh

-- `qc` is the QUIC connection of the request, if it came over one.
unfoldable pub counting : ℕ → Pool → Seats → Grant → Option ℕ → Name → Name → Seats × Option Live
counting now p seats grant qc remote route = elim (find ℕ_discrete grant.seat seats) [
  | some s ↦ (seats, some s)
  | none ↦ elim qc [
    | some c ↦ peer_session now seats grant c
    | none ↦ stream_session now p seats grant remote route
  ]
]

-- untilGone, once the connection is gone: only a transit seat is dropped.
unfoldable pub drop_transit : Seats → ℕ → Seats
drop_transit seats seat = elim (find ℕ_discrete seat seats) [
  | none ↦ seats
  | some s ↦ if s.transit then remove ℕ_discrete seat seats else seats
]

unfoldable pub until_gone : Seats → Held → Seats
unfolding drop_transit last_grant
until_gone seats h = elim (last_grant h) [
  | none ↦ seats
  | some g ↦ if g.seat == 0 then seats else drop_transit seats g.seat
]

unfoldable pub lively : ℕ → ℕ → ℕ → Live → Option Live
lively now quiet seat s = if s.is_stream && ltb (s.last_seen + quiet) now then none else some s

unfoldable pub sweep_streams : ℕ → ℕ → Seats → Seats
sweep_streams now quiet seats = keep (lively now quiet) seats

-- seatsOf with `drop`: what stays behind.
unfoldable pub elsewhere : ℕ → ℕ → Live → Option Live
elsewhere i seat s =
    if not (seat == i) && not (s.grant.session == i) && not (s.grant.via == i) then some s else none

unfoldable pub drop_seats : ℕ → Seats → Seats
drop_seats i seats = keep (elsewhere i) seats
