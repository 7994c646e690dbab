-- ===== src/Blocklist/Force.antt =====
-- internal/blocklist/blocklist.go, publish: which lists are in force, at every step.
use qd.Prelude.{ℕ, ◌≡◌, ◌&&◌, ◌||◌, Bool, true, not, Option, none, some, List, [], ◌∷◌}
use qd.Domains.{Name}
use qd.Blocklist.{
  Source, Set, View, Lists, new_lists, has_id, arrived, hashes_of, apply, refresh, fetch_begun,
  fetch_failed, fetch_done, blocked,
}

pub data Step (trim : Name → Name) : Lists → Lists → Type 0 where
  applied :
      (disk : Name → Option Set) (want : List Source) (spared : List ℕ) (l : Lists)
      → Step trim l (apply disk want spared l)
  refreshed : (l : Lists) → Step trim l (refresh l)
  fetching : (id : Name) (l : Lists) → Step trim l (fetch_begun id l)
  failing : (now : ℕ) (id error : Name) (l : Lists) → Step trim l (fetch_failed now id error l)
  fetched : (id : Name) (got : Set) (l : Lists) → Step trim l (fetch_done id got l)
  asked : (name : Name) (l : Lists) → Step trim l (blocked trim name l).1

pub data Reach (trim : Name → Name) : Lists → Type 0 where
  start : Reach trim new_lists
  next : {l m : Lists} → Reach trim l → Step trim l m → Reach trim m

-- Every list held is wanted.
unfoldable pub all_wanted : List Source → List (Name × Set) → Bool
all_wanted want [] = true
all_wanted want ((id, got) ∷ rest) = has_id id want && all_wanted want rest

-- Nothing is in force before the first Apply.
abbrev pub Fits : Option View → List Source → List ℕ → List (Name × Set) → Type 0
Fits none want allow held = (want ≡ []) × (held ≡ [])
Fits (some v) want allow held =
    (v.sets ≡ hashes_of held)
    × (v.allow ≡ allow)
    × ((not (arrived want held) || all_wanted want held) ≡ true)

abbrev FitsAll : Lists → Type 0
FitsAll l = Fits l.view l.want l.allow l.held
