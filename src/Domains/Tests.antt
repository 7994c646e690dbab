-- ===== src/Domains/Tests.antt =====
-- internal/domainroute/domainroute.go: the theorem on learned addresses at one rule.
use qd.Prelude.{
  ℕ, zero, suc, ◌*◌, ◌≡◌, ◌⊎◌, refl, List, [], ◌∷◌, some, is_some, false, not, All, ℕ_discrete,
}
use qd.Prelude.Dict.{find}
use qd.Netip.{v4, Addr-discrete, prefix_from, is_valid, is_known}
use qd.Domains.{
  Name-discrete, Table, Answer, Learned, new_table, rule_of, first_in, tails, behind_dots, place,
  Net, in_nets, inherits,
}
use qd.Domains.Nets.{load, filtered}
use qd.Domains.Nets.Merging.{IsProper}
use qd.Domains.Nets.Grouping.{touches}
use qd.Domains.Nets.Sorting.{insertion_sort, insertion_sort-Sorts}
use qd.Domains.Nets.Loaded.{load-touches}
use qd.Domains.Places.{Named, Settled, find-place}

-- The rule "b" with the role "t", and the name "a.b".
abbrev routes : Table
routes = record new_table { rules = (98 ∷ [], 116 ∷ []) ∷ [] }

abbrev ruled : Learned
ruled = record { rule = 98 ∷ []; role = 116 ∷ []; low = false; until = 0 }

abbrev told : Answer
told = record { addrs = v4 1 ∷ []; until = 3700 }

name_ruled : rule_of routes (97 ∷ 46 ∷ 98 ∷ []) ≡ some ruled
unfolding rule_of first_in tails behind_dots find Name-discrete ℕ_discrete new_table
name_ruled = refl

find-place_example :
    (Settled 100
        (record ruled { until = told.until })
        (find Addr-discrete (v4 1) routes.addrs)
        (find Addr-discrete (v4 1) (place 100 routes (97 ∷ 46 ∷ 98 ∷ []) told).addrs)
      × Named (v4 1) told.addrs)
    ⊎ ((find Addr-discrete (v4 1) (place 100 routes (97 ∷ 46 ∷ 98 ∷ []) told).addrs
          ≡ find Addr-discrete (v4 1) routes.addrs)
        × (Named (v4 1) told.addrs → ⊥))
find-place_example = find-place 100 routes (97 ∷ 46 ∷ 98 ∷ []) told ruled (v4 1) name_ruled

-- The networks 0.0.k.0/24 for k below a bound, under one rule.
unfoldable blocks : ℕ → List Net
blocks zero = []
blocks (suc k) =
    record {
      prefix = prefix_from (v4 (k * 256)) 24;
      entry = record { rule = 98 ∷ []; role = 116 ∷ [] };
    }
    ∷ blocks k

blocks-IsProper : (k : ℕ) → All IsProper (blocks k)
unfolding blocks prefix_from is_valid is_known
blocks-IsProper zero = tt
blocks-IsProper (suc k) = ((refl, refl), blocks-IsProper k)

abbrev loaded : Table
loaded = load insertion_sort 100 [] [] (blocks 70) new_table

load-touches_example :
    (is_some (in_nets loaded.few loaded.many (v4 300))
      ≡ touches (v4 300) (filtered (λ n. not (inherits n.entry.role)) (blocks 70)))
    × (is_some (in_nets loaded.quiet_few loaded.quiet_many (v4 300))
        ≡ touches (v4 300) (filtered (λ n. inherits n.entry.role) (blocks 70)))
load-touches_example =
    load-touches insertion_sort 100 [] [] (blocks 70) new_table (v4 300) insertion_sort-Sorts
      (blocks-IsProper 70)
