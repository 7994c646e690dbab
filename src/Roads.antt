-- ===== src/Roads.antt =====
-- internal/roads/roads.go: which ways to a node are tried, when, and what becomes of each. A rung is
-- the code's number: 0 for QUIC, 1 for TCP, 2 for the relay. Times are in milliseconds. Climb is a
-- state machine, and the only one to write the memory here: the turns of its loop, what its select hears, and what the routines that it leaves
-- behind hear later are its steps. What a try does is network and outside.
pub mod Accounts
pub mod Progress
mod Tests
use qd.Prelude.{
  ℕ, zero, suc, ◌+◌, ◌-◌, ◌≡◌, ◌&&◌, ◌||◌, Bool, true, false, not, Option, none, some, List, [],
  ◌∷◌, ◌++◌, ◌==◌, ltb, leb, if◌then◌else◌, min, length,
}
use qd.Prelude.Dict.{find, put}
use qd.Domains.{Name, Name-discrete}

abbrev pub quic : ℕ
quic = 0

abbrev pub tcp : ℕ
tcp = 1

abbrev pub relay : ℕ
relay = 2

-- pace.QUICHeadStart, pace.RelayHeadStart and pace.LateFor.
abbrev pub quic_head_start : ℕ
quic_head_start = 1000

abbrev pub relay_head_start : ℕ
relay_head_start = 2000

abbrev pub Memory : Type 0
Memory = List (Name × ℕ)

unfoldable pub remember : Name → ℕ → Memory → Memory
remember endpoint rung held = put Name-discrete endpoint rung held

unfoldable pub recall : Name → Memory → Option ℕ
recall endpoint held = find Name-discrete endpoint held

-- `known >= rung` of a rung that is remembered.
unfoldable pub reaches : Option ℕ → ℕ → Bool
reaches none rung = false
reaches (some known) rung = leb rung known

unfoldable pub due : ℕ → Option ℕ → ℕ
unfolding reaches
due rung known =
    if rung == quic || reaches known rung
    then 0
    else if rung == relay
    then relay_head_start
    else quic_head_start

pub record Try : Type 0 where
  pub rung : ℕ
  pub begun : Bool
  pub over : Bool
  pub stopped : Bool

unfoldable pub is_running : Try → Bool
is_running t = t.begun && not t.over

unfoldable pub running : List Try → ℕ
unfolding is_running
running [] = 0
running (t ∷ ts) = if is_running t then suc (running ts) else running ts

unfoldable pub above_ended : ℕ → List Try → Bool
above_ended rung [] = true
above_ended rung (t ∷ ts) = (not (ltb t.rung rung) || t.over) && above_ended rung ts

-- A try that waits on: it is not begun, its time has not come, and one above it has not ended.
unfoldable pub waits : List Try → Option ℕ → ℕ → Try → Bool
unfolding above_ended due
waits ts known elapsed t =
    not t.begun && (ltb elapsed (due t.rung known) && not (above_ended t.rung ts))

unfoldable pub launch_one : List Try → Option ℕ → ℕ → Try → Try
unfolding waits
launch_one ts known elapsed t =
    if t.begun then t else if waits ts known elapsed t then t else record t { begun = true }

unfoldable pub launch : List Try → Option ℕ → ℕ → List Try → List Try
unfolding launch_one
launch ts known elapsed [] = []
launch ts known elapsed (t ∷ rest) = launch_one ts known elapsed t ∷ launch ts known elapsed rest

-- How long until the next is due; the code's -1 is `none`.
unfoldable pub sooner : ℕ → Option ℕ → Option ℕ
sooner n none = some n
sooner n (some m) = some (min n m)

unfoldable pub next_due : List Try → Option ℕ → ℕ → List Try → Option ℕ
unfolding waits sooner due
next_due ts known elapsed [] = none
next_due ts known elapsed (t ∷ rest) =
    let later = next_due ts known elapsed rest in
    if waits ts known elapsed t then sooner (due t.rung known - elapsed) later else later

abbrev hour : ℕ
hour = 3600000

-- A climb that goes on, has won by a try, was cancelled, or has failed.
pub data Phase : Type 0 where
  climbing cancelled failed : Phase
  won : ℕ → Phase

-- `pending` and `climbed` belong to the routine that a climb leaves behind. `better` counts its calls.
pub record Climb : Type 0 where
  pub endpoint : Name
  pub known : Option ℕ
  pub tries : List Try
  pub left : ℕ
  pub refused : List ℕ
  pub phase : Phase
  pub pending : ℕ
  pub climbed : Bool
  pub dropped : List ℕ
  pub better : ℕ
  pub memory : Memory
  pub timer : ℕ

unfoldable pub fresh_tries : List ℕ → List Try
fresh_tries [] = []
fresh_tries (r ∷ rs) =
    record { rung = r; begun = false; over = false; stopped = false } ∷ fresh_tries rs

unfoldable pub new_climb : Name → List ℕ → Memory → Climb
unfolding fresh_tries recall
new_climb endpoint rungs held = record {
  endpoint = endpoint;
  known = recall endpoint held;
  tries = fresh_tries rungs;
  left = length rungs;
  refused = [];
  phase = if length rungs == 0 then failed else climbing;
  pending = 0;
  climbed = false;
  dropped = [];
  better = 0;
  memory = held;
  timer = hour;
}

-- tick.Reset(next), if there is a next.
unfoldable pub reset : Option ℕ → ℕ → ℕ
reset none was = was
reset (some next) was = next

-- The head of the loop, `elapsed` after the climb began.
unfoldable pub turn : ℕ → Climb → Climb
unfolding launch next_due reset
turn elapsed c = if c.left == 0 then record c { phase = failed } else record c {
  tries = launch c.tries c.known elapsed c.tries;
  timer = reset (next_due c.tries c.known elapsed c.tries) c.timer;
}

-- ctx.Done(): what is running is awaited and dropped.
unfoldable pub cancel : Climb → Climb
unfolding running
cancel c = record c { phase = cancelled; pending = running c.tries }

-- over[n] = true. In the routines left behind this only tells which tries have been heard of.
unfoldable pub mark_over : ℕ → List Try → List Try
mark_over n [] = []
mark_over zero (t ∷ ts) = record t { over = true } ∷ ts
mark_over (suc n) (t ∷ ts) = t ∷ mark_over n ts

unfoldable pub rung_of : ℕ → List Try → ℕ
rung_of n [] = quic
rung_of zero (t ∷ ts) = t.rung
rung_of (suc n) (t ∷ ts) = rung_of n ts

unfoldable pub running_at : ℕ → List Try → Bool
unfolding is_running
running_at n [] = false
running_at zero (t ∷ ts) = is_running t
running_at (suc n) (t ∷ ts) = running_at n ts

-- The tries that a win stops: those running at its rung or below.
unfoldable pub stop_below : ℕ → List Try → List Try
unfolding is_running
stop_below rung [] = []
stop_below rung (t ∷ ts) =
    (if is_running t && leb rung t.rung then record t { stopped = true } else t)
    ∷ stop_below rung ts

unfoldable pub refuse : ℕ → Climb → Climb
refuse n c = record c {
  tries = mark_over n c.tries;
  left = c.left - 1;
  refused = c.refused ++ (n ∷ []);
}

unfoldable pub win : ℕ → Climb → Climb
win n c =
    let ts = mark_over n c.tries in
    let rung = rung_of n c.tries in
    record c {
      tries = stop_below rung ts;
      left = c.left - 1;
      phase = won n;
      pending = running ts;
      memory = remember c.endpoint rung c.memory;
    }

-- A road that comes late is dropped, and the first one of a better rung is remembered.
unfoldable pub late_road : ℕ → ℕ → Climb → Climb
late_road won_by n c =
    let heard = record c {
      tries = mark_over n c.tries;
      pending = c.pending - 1;
      dropped = c.dropped ++ (n ∷ []);
    } in
    if ltb (rung_of n c.tries) (rung_of won_by c.tries) && not c.climbed
    then record heard {
      climbed = true;
      memory = remember c.endpoint (rung_of n c.tries) c.memory;
      better = c.better + 1;
    }
    else heard

-- A try ends, with a road or an error, in each phase.
unfoldable pub finished : ℕ → Bool → Climb → Climb
unfolding refuse win late_road
finished n true c = elim c.phase [
  | climbing ↦ win n c
  | won m ↦ late_road m n c
  | cancelled ↦ record c {
    tries = mark_over n c.tries;
    pending = c.pending - 1;
    dropped = c.dropped ++ (n ∷ []);
  }
  | failed ↦ c
]
finished n false c = elim c.phase [
  | climbing ↦ refuse n c
  | won m ↦ record c { tries = mark_over n c.tries; pending = c.pending - 1 }
  | cancelled ↦ record c { tries = mark_over n c.tries; pending = c.pending - 1 }
  | failed ↦ c
]

-- The road that the climb returns.
unfoldable pub returned : Phase → List ℕ
returned climbing = []
returned cancelled = []
returned failed = []
returned (won n) = n ∷ []

-- A climb with the tries that came back with a road so far. The loop is left for good by a win, by
-- the context, or when no try is left.
pub data Reach (endpoint : Name) (rungs : List ℕ) (held : Memory) : Climb → List ℕ → Type 0 where
  start : Reach endpoint rungs held (new_climb endpoint rungs held) []
  turned :
      {c : Climb} {roads : List ℕ} (elapsed : ℕ)
      → Reach endpoint rungs held c roads
      → c.phase ≡ climbing
      → Reach endpoint rungs held (turn elapsed c) roads
  gone :
      {c : Climb} {roads : List ℕ}
      → Reach endpoint rungs held c roads
      → c.phase ≡ climbing
      → Reach endpoint rungs held (cancel c) roads
  brought :
      {c : Climb} {roads : List ℕ} (n : ℕ)
      → Reach endpoint rungs held c roads
      → running_at n c.tries ≡ true
      → Reach endpoint rungs held (finished n true c) (roads ++ (n ∷ []))
  erred :
      {c : Climb} {roads : List ℕ} (n : ℕ)
      → Reach endpoint rungs held c roads
      → running_at n c.tries ≡ true
      → Reach endpoint rungs held (finished n false c) roads
