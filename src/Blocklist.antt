-- ===== src/Blocklist.antt =====
-- internal/blocklist/blocklist.go: the lists of blocked names, and which of them are in force. A name
-- is the list of its bytes; `trim` stands for strings.ToLower and strings.Trim, `disk` for the copies
-- that files hold, and downloads are outside: a fetch is its two locked sections. A map is walked in
-- the order of its list. Times are in seconds, and the zero time is 0.
pub mod Force
mod Search
pub mod Tails
mod Tests
use qd.Prelude.{
  ℕ, zero, suc, ◌+◌, ◌-◌, ◌*◌, ◌/◌, ◌%◌, ◌^◌, ◌&&◌, ◌||◌, Bool, true, false, not, Option, none,
  some, is_some, List, [], ◌∷◌, ◌++◌, ◌==◌, ltb, leb, if◌then◌else◌, length, is_yes, min, max,
  get_or,
}
use qd.Prelude.Dict.{find, put, remove, keep}
use qd.Domains.{Name, Name-discrete}

pub record Source : Type 0 where
  pub id : Name
  pub title : Name
  pub url : Name

unfoldable pub has_id : Name → List Source → Bool
has_id id [] = false
has_id id (s ∷ rest) = is_yes (Name-discrete s.id id) || has_id id rest

module _ (tiers : List Source) (threats : Source) where
  unfoldable pub known_tier : Name → Bool
  unfolding has_id
  known_tier id = has_id id tiers

  unfoldable pub of_tier : Name → List Source → List Source
  of_tier tier [] = []
  of_tier tier (s ∷ rest) =
      let more = of_tier tier rest in if is_yes (Name-discrete s.id tier) then s ∷ more else more

  unfoldable pub wanted_sources : Name → Bool → List Source
  unfolding of_tier
  wanted_sources tier tif = of_tier tier tiers ++ (if tif then threats ∷ [] else [])

pub record Set : Type 0 where
  pub version : Name
  pub modified : Name
  pub expires : ℕ
  pub entries : ℕ
  pub etag : Name
  pub fetched : ℕ
  pub hashes : List ℕ

abbrev pub shortest : ℕ
shortest = 3600

abbrev pub longest : ℕ
longest = 7 * 86400

abbrev pub daily : ℕ
daily = 86400

abbrev pub retry_in : ℕ
retry_in = 1800

unfoldable pub period : Set → ℕ
period s = if s.expires == 0 then daily else min (max s.expires shortest) longest

pub record View : Type 0 where
  pub sets : List (List ℕ)
  pub allow : List ℕ

pub record Lists : Type 0 where
  pub view : Option View
  pub hits : ℕ
  pub want : List Source
  pub allow : List ℕ
  pub held : List (Name × Set)
  pub fault : List (Name × Name)
  pub retry : List (Name × ℕ)
  pub busy : List (Name × Bool)
  pub forced : Bool

unfoldable pub new_lists : Lists
new_lists = record {
  view = none;
  hits = 0;
  want = [];
  allow = [];
  held = [];
  fault = [];
  retry = [];
  busy = [];
  forced = false;
}

unfoldable pub wanted : Name → Lists → Bool
unfolding has_id
wanted id l = has_id id l.want

-- Every list that is wanted is held.
unfoldable pub arrived : List Source → List (Name × Set) → Bool
arrived [] held = true
arrived (s ∷ rest) held = is_some (find Name-discrete s.id held) && arrived rest held

unfoldable pub stays : Bool → List Source → Name → Set → Option Set
stays all_here want id got = if has_id id want || not all_here then some got else none

unfoldable pub hashes_of : List (Name × Set) → List (List ℕ)
hashes_of [] = []
hashes_of ((id, got) ∷ rest) = got.hashes ∷ hashes_of rest

unfoldable pub publish : Lists → Lists
unfolding stays hashes_of arrived
publish l =
    let left = keep (stays (arrived l.want l.held) l.want) l.held in
    record l { held = left; view = some (record { sets = hashes_of left; allow = l.allow }) }

-- Apply: the lists that files hold are taken for those not held.
unfoldable pub load_wanted :
    (Name → Option Set) → List Source → List (Name × Set) → List (Name × Set)
load_wanted disk [] held = held
load_wanted disk (s ∷ rest) held =
    let with_it = λ (got : Set). load_wanted disk rest (put Name-discrete s.id got held) in
    let without = load_wanted disk rest held in
    elim (find Name-discrete s.id held) [
      | some had ↦ without
      | none ↦ elim (disk s.id) [ none ↦ without | some got ↦ with_it got ]
    ]

unfoldable pub apply : (Name → Option Set) → List Source → List ℕ → Lists → Lists
unfolding publish load_wanted
apply disk want spared l =
    publish (record l { want = want; allow = spared; held = load_wanted disk want l.held })

unfoldable pub refresh : Lists → Lists
refresh l = record l { forced = true }

unfoldable pub due : Name → Lists → ℕ
unfolding period
due id l = elim (find Name-discrete id l.retry) [
  | some at ↦ at
  | none ↦ elim (find Name-discrete id l.held) [ none ↦ 0 | some got ↦ got.fetched + period got ]
]

unfoldable pub fetch_begun : Name → Lists → Lists
fetch_begun id l = record l { busy = put Name-discrete id true l.busy }

unfoldable pub fetch_failed : ℕ → Name → Name → Lists → Lists
fetch_failed now id error l = record l {
  busy = remove Name-discrete id l.busy;
  fault = put Name-discrete id error l.fault;
  retry = put Name-discrete id (now + retry_in) l.retry;
}

unfoldable pub fetch_done : Name → Set → Lists → Lists
unfolding wanted publish
fetch_done id got l =
    let cleared = record l {
      busy = remove Name-discrete id l.busy;
      fault = remove Name-discrete id l.fault;
      retry = remove Name-discrete id l.retry;
    } in
    let held = publish (record cleared { held = put Name-discrete id got l.held }) in
    if wanted id l then held else cleared

-- The exclusive or of two numbers, bit by bit.
unfoldable pub xor : ℕ → ℕ → ℕ → ℕ
xor zero a b = 0
xor (suc f) a b = (a + b) % 2 + 2 * xor f (a / 2) (b / 2)

unfoldable pub hash_loop : ℕ → Name → ℕ
unfolding xor
hash_loop h [] = h
hash_loop h (c ∷ rest) = hash_loop (xor 64 h c * 1099511628211 % 2 ^ 64) rest

unfoldable pub hash_of : Name → ℕ
unfolding hash_loop
hash_of name = hash_loop 14695981039346656037 name

-- What follows the first dot, or nothing.
unfoldable pub after_dot : Name → Name
after_dot [] = []
after_dot (c ∷ rest) = if c == 46 then rest else after_dot rest

-- The hashes of a name and of what follows its dots, `n` at most.
unfoldable pub tail_hashes : ℕ → Name → List ℕ
tail_hashes zero rest = []
tail_hashes (suc n) [] = []
tail_hashes (suc n) (c ∷ rest) = hash_of (c ∷ rest) ∷ tail_hashes n (after_dot (c ∷ rest))

abbrev pub tails_kept : ℕ
tails_kept = 16

-- slices.BinarySearch finds a number of a sorted list.
-- slices.BinarySearch: the first place from `i` up to `j` whose number is not below `h`. Each turn
-- takes at least one place away, so as many turns as there are places are enough.
unfoldable pub search_loop : ℕ → ℕ → List ℕ → ℕ → ℕ → ℕ
search_loop zero h hashes i j = i
search_loop (suc f) h hashes i j =
    let mid = (i + j) / 2 in
    let right = search_loop f h hashes (mid + 1) j in
    let left = search_loop f h hashes i mid in
    if leb j i then i else if ltb (get_or hashes mid 0) h then right else left

unfoldable pub listed : ℕ → List ℕ → Bool
unfolding search_loop
listed h hashes =
    let at = search_loop (length hashes) h hashes 0 (length hashes) in
    ltb at (length hashes) && get_or hashes at 0 == h

unfoldable pub listed_in : ℕ → List (List ℕ) → Bool
unfolding listed
listed_in h [] = false
listed_in h (hashes ∷ rest) = listed h hashes || listed_in h rest

unfoldable pub any_listed : List ℕ → List ℕ → Bool
any_listed [] allow = false
any_listed (h ∷ rest) allow = listed h allow || any_listed rest allow

unfoldable pub any_listed_in : List ℕ → List (List ℕ) → Bool
any_listed_in [] sets = false
any_listed_in (h ∷ rest) sets = listed_in h sets || any_listed_in rest sets

unfoldable pub blocks : View → List ℕ → Bool
unfolding any_listed any_listed_in
blocks v tails =
    if length v.sets == 0
    then false
    else if any_listed tails v.allow
    then false
    else any_listed_in tails v.sets

unfoldable pub blocked : (Name → Name) → Name → Lists → Bool × Lists
unfolding blocks tail_hashes
blocked trim name l = elim l.view [
  | none ↦ (false, l)
  | some v ↦
      if blocks v (tail_hashes tails_kept (trim name))
      then (true, record l { hits = (l.hits + 1) % 2 ^ 64 })
      else (false, l)
]

pub record Status : Type 0 where
  pub id : Name
  pub title : Name
  pub entries : ℕ
  pub version : Name
  pub modified : Name
  pub fetched : ℕ
  pub next : ℕ
  pub loading : Bool
  pub error : Name

unfoldable pub error_of : Option Name → Name
error_of none = []
error_of (some e) = e

unfoldable pub said : Source → Option Set → Lists → Status
unfolding due error_of
said s got l =
    let none_yet : Status = record {
      id = s.id;
      title = s.title;
      entries = 0;
      version = [];
      modified = [];
      fetched = 0;
      next = due s.id l;
      loading = is_some (find Name-discrete s.id l.busy);
      error = error_of (find Name-discrete s.id l.fault);
    } in
    elim got [
      | none ↦ none_yet
      | some g ↦ record none_yet {
        entries = g.entries;
        version = g.version;
        modified = g.modified;
        fetched = g.fetched;
      }
    ]

unfoldable pub status_loop : List Source → Lists → List Status
unfolding said
status_loop [] l = []
status_loop (s ∷ rest) l = said s (find Name-discrete s.id l.held) l ∷ status_loop rest l

unfoldable pub status : Lists → List Status
unfolding status_loop
status l = status_loop l.want l
