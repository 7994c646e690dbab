-- ===== src/Qsrv/Seats/Tests.antt =====
-- internal/qsrv/session.go: the theorems on the table of seats at concrete grants.
use qd.Prelude.{◌+◌, ◌≤◌, ◌<◌, ◌≡◌, ◌⊎◌, refl, [], ◌∷◌, some, none, true, false, ℕ_discrete}
use qd.Prelude.Dict.{find}
use qd.Netip.{v4, prefix_from, no_prefix}
use qd.Qsrv.Pool.{new_pool}
use qd.Qsrv.Seats.{Grant, Live, counting, sweep_streams}
use qd.Qsrv.Seats.Counting.{Seated, counting-Seated, find-sweep_streams}

abbrev granted : Grant
granted = record {
  client = 97 ∷ [];
  allow_exit = true;
  session = 5;
  seat = 7;
  via = 5;
  peer = false;
}

counting-Seated_example :
    Seated [] granted
      (counting 100 (new_pool (prefix_from (v4 0x0a070000) 16)) [] granted none (49 ∷ []) [])
counting-Seated_example =
    counting-Seated 100 (new_pool (prefix_from (v4 0x0a070000) 16)) [] granted none (49 ∷ []) []

abbrev streamed : Live
streamed = record {
  grant = granted;
  address = no_prefix;
  peer = [];
  conn = none;
  since = 100;
  transit = false;
  is_stream = true;
  last_seen = 100;
  route = [];
}

find-sweep_streams_example :
    ((find ℕ_discrete 7 (sweep_streams 400 120 ((7, streamed) ∷ [])) ≡ none)
      × (streamed.is_stream ≡ true)
      × (streamed.last_seen + 120 < 400))
    ⊎ ((find ℕ_discrete 7 (sweep_streams 400 120 ((7, streamed) ∷ [])) ≡ some streamed)
        × ((streamed.is_stream ≡ false) ⊎ (400 ≤ streamed.last_seen + 120)))
unfolding find ℕ_discrete
find-sweep_streams_example =
    find-sweep_streams 400 120 ((7, streamed) ∷ []) 7 streamed (refl, tt) refl
