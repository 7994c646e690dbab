-- ===== src/Blocklist/Tests.antt =====
-- internal/blocklist/blocklist.go: a list with the name "a.b", and a name below it.
use qd.Prelude.{[], ◌∷◌, Option, some}
use qd.Domains.{Name}
use qd.Blocklist.{Source, Set, View, Lists, hash_of, new_lists, apply, arrived, hashes_of, publish}

abbrev source : Source
source = record { id = 116 ∷ []; title = []; url = [] }

abbrev fetched_set : Set
fetched_set = record {
  version = [];
  modified = [];
  expires = 0;
  entries = 1;
  etag = [];
  fetched = 5;
  hashes = hash_of (97 ∷ 46 ∷ 98 ∷ []) ∷ [];
}

abbrev no_trim : Name → Name
no_trim name = name

abbrev on_disk : Name → Option Set
on_disk id = some fetched_set

abbrev in_force : Lists
in_force = apply on_disk (source ∷ []) [] new_lists

abbrev shown : View
shown = record { sets = fetched_set.hashes ∷ []; allow = [] }

abbrev showing : Lists
showing = record new_lists { view = some shown }
