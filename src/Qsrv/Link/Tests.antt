-- ===== src/Qsrv/Link/Tests.antt =====
-- internal/qsrv/link.go: the theorems on the table of links at concrete histories.
use qd.Prelude.{◌+◌, ◌≤◌, ◌≡◌, ◌≢◌, ◌↔◌, refl, List, [], ◌∷◌, none, some, false, ℕ_discrete}
use qd.Prelude.Int.{negsuc}
use qd.Prelude.Dict.{find, put}
use qd.Qsrv.Link.{
  Where, Where-discrete, Link, new_links, to, at_link, down, released, release, sweep, above_zero,
}
use qd.Qsrv.Link.Table.{link_at, IsTable}
use qd.Qsrv.Link.History.{Call, tos, choses, releases, step, run, run-new_links-IsTable}
use qd.Qsrv.Link.Sweeps.{sweep_spares}

abbrev exit_one : Where
exit_one = (49 ∷ [], 7)

abbrev exit_two : Where
exit_two = (50 ∷ [], 7)

abbrev dials : List Call
dials = tos exit_one 7 ∷ tos exit_two 7 ∷ choses 7 (50 ∷ []) ∷ []

run-new_links-IsTable_example : IsTable (run (new_links [] []) dials)
run-new_links-IsTable_example = run-new_links-IsTable [] [] dials

-- A link that was idle since the second 100.
abbrev idle : Link
idle = record {
  flows = negsuc 0;
  quiet = 100;
  won = false;
  endpoint = 49 ∷ [];
  seat = 7;
  session = 7;
  conn = none;
  dialing = false;
  failed = 0;
  why = none;
}

abbrev visits : List Call
visits = tos exit_one 7 ∷ releases exit_one 100 ∷ []

stands_idle : link_at (run (new_links [] []) visits) exit_one ≡ some idle
unfolding run step to release at_link released down above_zero new_links find put Where-discrete
    ℕ_discrete
stands_idle = refl

sweep_spares_example :
    (link_at (sweep (run (new_links [] []) visits) 120 15) exit_one ≡ none)
    ↔ ((above_zero idle.flows ≡ false) × (idle.quiet ≢ 0) × (idle.quiet + 15 ≤ 120))
sweep_spares_example =
    sweep_spares (run (new_links [] []) visits) 120 15 exit_one idle
      (run-new_links-IsTable [] [] visits) stands_idle
