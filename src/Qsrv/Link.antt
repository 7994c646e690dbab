-- ===== src/Qsrv/Link.antt =====
-- internal/qsrv/link.go: the links of a node to its peers, one for each endpoint and seat. A name is
-- the list of its bytes, a connection a number, and `gone` tells whether its QUIC context is done.
-- The table's methods take its lock, so each is one step (`standing` too, which takes it for each
-- lookup); `connect` is the two sections that hold the
-- link's lock, before and after the dialing.
pub mod Table
pub mod History
pub mod Sweeps
mod Tests
use qd.Prelude.{
  ℕ, ◌+◌, ◌-◌, ◌&&◌, ◌||◌, Bool, true, false, not, Option, none, some, List, [], ◌∷◌, ◌==◌, ltb,
  leb, if◌then◌else◌, ℕ_discrete, is_yes, is_some,
}
use qd.Prelude.Int.{ℤ, pos, negsuc}
use qd.Prelude.Dict.{find, put, keep}

abbrev pub Name : Type 0
Name = List ℕ

unfoldable pub Name-discrete : Discrete Name
Name-discrete = hlevel ℕ_discrete

-- where: the endpoint and the seat.
abbrev pub Where : Type 0
Where = Name × ℕ

unfoldable pub Where-discrete : Discrete Where
Where-discrete = hlevel ℕ_discrete

pub record Link : Type 0 where
  pub flows : ℤ
  pub quiet : ℕ
  pub won : Bool
  pub endpoint : Name
  pub seat : ℕ
  pub session : ℕ
  pub conn : Option ℕ
  pub dialing : Bool
  pub failed : ℕ
  pub why : Option ℕ

pub record Links : Type 0 where
  pub token : Name
  pub self : Name
  pub held : List (Where × Link)

unfoldable pub new_links : Name → Name → Links
new_links token self = record { token = token; self = self; held = [] }

-- `time.Since(l.failed) < peerRetry`, in milliseconds.
abbrev pub peer_retry : ℕ
peer_retry = 2000

-- What the first section of `connect` comes to: a connection, the last failure once more, waiting
-- for a dialing under way, or dialing.
pub data Looked : Type 0 where
  has refuses : ℕ → Looked
  waits dials : Looked

unfoldable pub drop_conn : Link → Link
drop_conn l = record l { conn = none }

unfoldable pub look_idle : ℕ → Link → Link × Looked
look_idle now l =
    let ask : Link × Looked =
      if l.dialing then (l, waits) else (record l { dialing = true }, dials) in
    elim l.why [
      | none ↦ ask
      | some err ↦ if ltb now (l.failed + peer_retry) then (l, refuses err) else ask
    ]

unfoldable pub look : (ℕ → Bool) → ℕ → Link → Link × Looked
unfolding drop_conn look_idle
look gone now l = elim l.conn [
  | none ↦ look_idle now l
  | some cc ↦ if gone cc then look_idle now (drop_conn l) else (l, has cc)
]

-- How a dialing ended.
pub data Dialed : Type 0 where
  reached failure : ℕ → Dialed

-- The second section of `connect`; `canceled` tells whether the caller's context was cancelled.
unfoldable pub landed : ℕ → Bool → Dialed → Link → Link
landed now canceled (reached cc) l = record l { dialing = false; why = none; conn = some cc }
landed now canceled (failure err) l =
    if canceled
    then record l { dialing = false }
    else record l { dialing = false; failed = now; why = some err }

unfoldable pub alive : (ℕ → Bool) → Link → Option ℕ
alive gone l = elim l.conn [ none ↦ none | some cc ↦ if gone cc then none else some cc ]

unfoldable pub to : Links → Where → ℕ → Links × Link
to ls at session = elim (find Where-discrete at ls.held) [
  | some l ↦ (ls, l)
  | none ↦
      let l : Link = record {
        flows = pos 0;
        quiet = 0;
        won = false;
        endpoint = at.0;
        seat = at.1;
        session = session;
        conn = none;
        dialing = false;
        failed = 0;
        why = none;
      } in
      (record ls { held = put Where-discrete at l ls.held }, l)
]

-- `l.won.Store(at.endpoint == endpoint)` on the links of the seat.
unfoldable pub chosen : ℕ → Name → Where → Link → Option Link
chosen seat endpoint at l =
    if at.1 == seat then some (record l { won = is_yes (Name-discrete at.0 endpoint) }) else some l

unfoldable pub chose : Links → ℕ → Name → Links
chose ls seat endpoint = record ls { held = keep (chosen seat endpoint) ls.held }

-- The links of the seat leave the table; they are closed behind the lock.
unfoldable pub kept : ℕ → Where → Link → Option Link
kept seat at l = if l.seat == seat then none else some l

unfoldable pub forget : Links → ℕ → Links
forget ls seat = record ls { held = keep (kept seat) ls.held }

unfoldable pub close_all : Links → Links
close_all ls = record ls { held = [] }

-- flows.Add(1) and flows.Add(-1).
unfoldable pub up : ℤ → ℤ
up (pos n) = pos (n + 1)
up (negsuc n) = if n == 0 then pos 0 else negsuc (n - 1)

unfoldable pub down : ℤ → ℤ
down (pos n) = if n == 0 then negsuc 0 else pos (n - 1)
down (negsuc n) = negsuc (n + 1)

unfoldable pub above_zero : ℤ → Bool
above_zero (pos n) = ltb 0 n
above_zero (negsuc n) = false

-- A link that stands changes in place.
unfoldable pub at_link : Links → Where → (Link → Link) → Links
at_link ls at f = elim (find Where-discrete at ls.held) [
  | none ↦ ls
  | some l ↦ record ls { held = put Where-discrete at (f l) ls.held }
]

unfoldable pub hold : Links → Where → Links
unfolding up
hold ls at = at_link ls at (λ l. record l { flows = up l.flows })

-- The link that lost its last flow is quiet from now on, in seconds since 1970.
unfoldable pub released : ℕ → Link → Link
released now l =
    if above_zero (down l.flows)
    then record l { flows = down l.flows }
    else record l { flows = down l.flows; quiet = now }

unfoldable pub release : Links → Where → ℕ → Links
release ls at now = at_link ls at (released now)

-- One turn of the loop of `sweep`: a link in use stays, an idle one is marked, and leaves once it
-- was idle for long enough.
unfoldable pub swept : ℕ → ℕ → Where → Link → Option Link
swept now quiet at l =
    if above_zero l.flows
    then some l
    else if l.quiet == 0
    then some (record l { quiet = now })
    else if ltb now (l.quiet + quiet)
    then some l
    else none

unfoldable pub sweep : Links → ℕ → ℕ → Links
sweep ls now quiet = record ls { held = keep (swept now quiet) ls.held }

-- `drop`: the connection goes only if it is still the one that did not take a flow.
unfoldable pub dropped : Option ℕ → Link → Link
unfolding drop_conn
dropped cc l = elim cc [
  | none ↦ l
  | some c ↦ elim l.conn [ none ↦ l | some held ↦ if held == c then drop_conn l else l ]
]

unfoldable pub drop : Links → Where → Option ℕ → Links
unfolding dropped
drop ls at cc = at_link ls at (dropped cc)

-- The first loop of `standing`: a link that won before and is alive.
unfoldable pub first_won : (ℕ → Bool) → Links → List Name → ℕ → Option (ℕ × Name)
unfolding alive
first_won gone ls [] seat = none
first_won gone ls (e ∷ rest) seat =
    let more = first_won gone ls rest seat in
    elim (find Where-discrete (e, seat) ls.held) [
      | none ↦ more
      | some l ↦
          if not l.won then more else elim (alive gone l) [ none ↦ more | some cc ↦ some (cc, e) ]
    ]

-- The second loop: any link that is alive.
unfoldable pub first_alive : (ℕ → Bool) → Links → List Name → ℕ → Option (ℕ × Name)
unfolding alive
first_alive gone ls [] seat = none
first_alive gone ls (e ∷ rest) seat =
    let more = first_alive gone ls rest seat in
    elim (find Where-discrete (e, seat) ls.held) [
      | none ↦ more
      | some l ↦ elim (alive gone l) [ none ↦ more | some cc ↦ some (cc, e) ]
    ]

unfoldable pub standing : (ℕ → Bool) → Links → List Name → ℕ → Links × Option (ℕ × Name)
standing gone ls runners seat = elim (first_won gone ls runners seat) [
  | some r ↦ (ls, some r)
  | none ↦ elim (first_alive gone ls runners seat) [
    | none ↦ (ls, none)
    | some (cc, e) ↦ (chose ls seat e, some (cc, e))
  ]
]
