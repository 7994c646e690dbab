-- ===== src/Domains/Nets.antt =====
-- internal/domainroute/domainroute.go, last, sortNets and Load: many networks of one rule as ranges of
-- addresses. `order` stands for sort.Slice by the networks' first addresses. An invalid prefix, on
-- which `last` panics, is one that no list of networks has.
pub mod Order
pub mod Ranges
pub mod Merging
pub mod Grouping
pub mod Loaded
pub mod Sorting
use qd.Prelude.{
  ℕ, zero, suc, ◌+◌, ◌-◌, ◌*◌, ◌/◌, ◌%◌, ◌^◌, ◌&&◌, ◌||◌, Bool, true, false, not, Option, none,
  some, List, [], ◌∷◌, ◌++◌, ◌==◌, ltb, leb, if◌then◌else◌, length,
}
use qd.Prelude.Dict.{find, put, remove, keep}
use qd.Netip.{Addr, invalid, v4, v6, Prefix, is4, bits, masked_addr}
use qd.Domains.{Name, Name-discrete, Entry, Net, Spans, Table, Answer, after, inherits, place}

-- raw[bit/8] |= 1 << (7 - bit%8), for the bit `k` places above the last.
abbrev pub or_bit : ℕ → ℕ → ℕ
or_bit k n = if n / 2 ^ k % 2 == 1 then n else n + 2 ^ k

-- The loop with `k` bits to go.
unfoldable pub last_loop : ℕ → ℕ → ℕ
last_loop zero n = n
last_loop (suc k) n = last_loop k (or_bit k n)

unfoldable pub last_of : ℕ → Addr → Addr
unfolding last_loop
last_of b (v4 n) = v4 (last_loop (32 - b) n)
last_of b (v6 n) = v6 (last_loop (128 - b) n)
last_of b invalid = invalid

unfoldable pub last : Prefix → Addr
unfolding last_of
last p = last_of (bits p) (masked_addr p)

abbrev pub range_of : Net → Addr × Addr
range_of n = (masked_addr n.prefix, last n.prefix)

-- The test on the last range so far, and the ranges from it on.
unfoldable pub joins : Addr → Addr → Bool
joins hi lo = (if is4 hi then is4 lo else not (is4 lo)) && not (after lo hi)

unfoldable pub merge : Addr × Addr → List Net → List (Addr × Addr)
unfolding joins
merge cur [] = cur ∷ []
merge cur (n ∷ rest) =
    let lo = masked_addr n.prefix in
    let hi = last n.prefix in
    let joined = merge (cur.0, if after hi cur.1 then hi else cur.1) rest in
    let apart = merge (lo, hi) rest in if joins cur.1 lo then joined else cur ∷ apart

unfoldable pub ranges_of : List Net → List (Addr × Addr)
unfolding merge
ranges_of [] = []
ranges_of (n ∷ rest) = merge (range_of n) rest

-- n.Rule+n.Role. A group is found by it, and `order` keeps the groups as they first come.
abbrev pub key_of : Net → Name
key_of n = n.entry.rule ++ n.entry.role

unfoldable pub in_group : Net → Option (List Net) → List Net
in_group n none = n ∷ []
in_group n (some group) = group ++ (n ∷ [])

unfoldable pub by_rule : List Net → List (Name × List Net) → List (Name × List Net)
unfolding in_group
by_rule [] m = m
by_rule (n ∷ rest) m =
    by_rule rest (put Name-discrete (key_of n) (in_group n (find Name-discrete (key_of n) m)) m)

abbrev pub few_nets : ℕ
few_nets = 64

unfoldable pub spans_of : List Net → List Spans
unfolding ranges_of
spans_of [] = []
spans_of (n ∷ rest) = record { entry = n.entry; ranges = ranges_of (n ∷ rest) } ∷ []

unfoldable pub filtered : (Net → Bool) → List Net → List Net
filtered f [] = []
filtered f (n ∷ rest) = if f n then n ∷ filtered f rest else filtered f rest

unfoldable pub rules_quiet : List (Name × Name) → List (Name × Name) → List (Name × Name)
rules_quiet [] m = m
rules_quiet ((name, role) ∷ rest) m =
    let set = rules_quiet rest (put Name-discrete name name m) in
    let passed = rules_quiet rest m in if inherits role then set else passed

unfoldable pub lower_quiet : List (Name × Entry) → List (Name × Name) → List (Name × Name)
lower_quiet [] m = m
lower_quiet ((name, e) ∷ rest) m =
    let set = lower_quiet rest (put Name-discrete name e.rule m) in
    let passed = lower_quiet rest m in if inherits e.role then set else passed

unfoldable pub own_role : Name → Name → Option Name
own_role name role = if inherits role then none else some role

unfoldable pub own_entry : Name → Entry → Option Entry
own_entry name e = if inherits e.role then none else some e

unfoldable pub held_until : ℕ → Name → Answer → Option Answer
held_until now name held = if ltb held.until now then none else some held

-- The loop over the names known: those past are deleted, the others placed.
unfoldable pub load_names : ℕ → List (Name × Answer) → Table → Table
load_names now [] t = t
load_names now ((name, held) ∷ rest) t =
    let gone = load_names now rest (record t { names = remove Name-discrete name t.names }) in
    let placed = load_names now rest (place now t name held) in
    if ltb held.until now then gone else placed

module _ (order : List Net → List Net) where
  -- The networks of a small group, and the ranges of a large one.
  unfoldable pub sort_groups : List (Name × List Net) → List Net × List Spans
  unfolding spans_of
  sort_groups [] = ([], [])
  sort_groups ((key, group) ∷ rest) =
      let later = sort_groups rest in
      if leb (length group) few_nets
      then (group ++ later.0, later.1)
      else (later.0, spans_of (order group) ++ later.1)

  unfoldable pub sort_nets : List Net → List Net × List Spans
  unfolding by_rule sort_groups
  sort_nets nets = sort_groups (by_rule nets [])

  -- The table with what Load sets, its answers yet to be placed.
  unfoldable pub set_up : List (Name × Name) → List (Name × Entry) → List Net → Table → Table
  unfolding rules_quiet lower_quiet own_role own_entry filtered sort_nets
  set_up rules lower nets t =
      let quiet = sort_nets (filtered (λ n. inherits n.entry.role) nets) in
      let sorted = sort_nets (filtered (λ n. not (inherits n.entry.role)) nets) in
      record t {
        rules = keep own_role rules;
        lower = keep own_entry lower;
        few = sorted.0;
        many = sorted.1;
        quiet_low = rules_quiet rules (lower_quiet lower []);
        quiet_few = quiet.0;
        quiet_many = quiet.1;
        addrs = [];
        heard = [];
      }

  unfoldable pub load : ℕ → List (Name × Name) → List (Name × Entry) → List Net → Table → Table
  unfolding set_up own_role own_entry filtered load_names
  load now rules lower nets t = record (load_names now t.names (set_up rules lower nets t)) {
    active = ltb 0 (
        length (keep own_role rules)
        + length (keep own_entry lower)
        + length (filtered (λ n. not (inherits n.entry.role)) nets));
  }
