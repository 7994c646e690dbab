-- ===== src/Roads/Tests.antt =====
-- internal/roads/roads.go: a climb with two tries, the lower of which wins.
use qd.Prelude.{ℕ, ◌+◌, ◌≡◌, ◌<◌, ◌⊎◌, refl, List, [], ◌∷◌, ◌++◌, none, true, false}
use qd.Roads.{
  Climb, Reach, climbing, new_climb, turn, finished, quic, tcp, start, turned, brought, returned,
  running, failed, running_at, mark_over, stop_below, rung_of,
}
use qd.Roads.Accounts.{awaited, unfinished, Reach-accounts}
use qd.Roads.Progress.{Reach-turn}

abbrev both : Climb
both = turn 1000 (new_climb (110 ∷ []) (quic ∷ tcp ∷ []) [])

abbrev lower_won : Climb
lower_won = finished 1 true both

abbrev upper_late : Climb
upper_late = finished 0 true lower_won

second_runs : running_at 1 both.tries ≡ true
unfolding running_at turn new_climb qd.Prelude.Dict.find
second_runs = refl

first_runs : running_at 0 lower_won.tries ≡ true
unfolding running_at turn finished new_climb stop_below mark_over rung_of qd.Prelude.Dict.find
first_runs = refl

begun_both : Reach (110 ∷ []) (quic ∷ tcp ∷ []) [] (new_climb (110 ∷ []) (quic ∷ tcp ∷ []) []) []
begun_both = start

both_climb : (new_climb (110 ∷ []) (quic ∷ tcp ∷ []) []).phase ≡ climbing
unfolding new_climb
both_climb = refl

begun_one : Reach (110 ∷ []) (tcp ∷ []) [] (new_climb (110 ∷ []) (tcp ∷ []) []) []
begun_one = start

one_climbs : (new_climb (110 ∷ []) (tcp ∷ []) []).phase ≡ climbing
unfolding new_climb
one_climbs = refl

Reach-accounts_example :
    ((1 ∷ 0 ∷ []) ≡ returned upper_late.phase ++ upper_late.dropped)
    × (awaited upper_late.phase upper_late ≡ running upper_late.tries)
Reach-accounts_example =
    Reach-accounts
      (brought 0 (brought 1 (turned 1000 begun_both both_climb) second_runs) first_runs)

Reach-turn_example :
    (((turn 0 (new_climb (110 ∷ []) (tcp ∷ []) [])).phase ≡ failed)
      × (unfinished (new_climb (110 ∷ []) (tcp ∷ []) []).tries ≡ 0))
    ⊎ (0 < running (turn 0 (new_climb (110 ∷ []) (tcp ∷ []) [])).tries)
Reach-turn_example = Reach-turn 0 begun_one one_climbs
