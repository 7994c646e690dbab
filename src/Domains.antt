-- ===== src/Domains.antt =====
-- internal/domainroute/domainroute.go: which rule a name or an address falls under. A name is the list
-- of its bytes; `clean` stands for strings.ToLower and strings.Trim. The callback Placed only reports
-- and is left out. A time is in seconds since 1970.
pub mod Places
pub mod Nets
mod Tests
use qd.Prelude.{
  ℕ, ◌+◌, ◌-◌, ◌*◌, ◌/◌, ◌^◌, ◌&&◌, ◌||◌, Bool, true, false, not, Option, none, some, is_some, List,
  [], ◌∷◌, ◌==◌, ltb, leb, if◌then◌else◌, length, is_yes, ℕ_discrete,
}
use qd.Prelude.Dict.{find, put, keep}
use qd.Netip.{Addr, invalid, v4, v6, Addr-discrete, Prefix, contains, unmap, is4, bits, masked_addr}

abbrev pub Name : Type 0
Name = List ℕ

unfoldable pub Name-discrete : Discrete Name
Name-discrete = hlevel ℕ_discrete

-- clientstate.RoleInherit, which is "default".
abbrev pub role_inherit : Name
role_inherit = 100 ∷ 101 ∷ 102 ∷ 97 ∷ 117 ∷ 108 ∷ 116 ∷ []

unfoldable pub inherits : Name → Bool
inherits role = is_yes (Name-discrete role role_inherit)

pub record Entry : Type 0 where
  pub rule : Name
  pub role : Name

pub record Net : Type 0 where
  pub prefix : Prefix
  pub entry : Entry

-- The starts and ends of the ranges, pair by pair, in order.
pub record Spans : Type 0 where
  pub entry : Entry
  pub ranges : List (Addr × Addr)

pub record Learned : Type 0 where
  pub rule : Name
  pub role : Name
  pub low : Bool
  pub until : ℕ

pub record Answer : Type 0 where
  pub addrs : List Addr
  pub until : ℕ

pub record Table : Type 0 where
  pub active : Bool
  pub rules : List (Name × Name)
  pub lower : List (Name × Entry)
  pub few : List Net
  pub many : List Spans
  pub names : List (Name × Answer)
  pub addrs : List (Addr × Learned)
  pub quiet_low : List (Name × Name)
  pub quiet_few : List Net
  pub quiet_many : List Spans
  pub heard : List (Addr × Learned)

unfoldable pub new_table : Table
new_table = record {
  active = false;
  rules = [];
  lower = [];
  few = [];
  many = [];
  names = [];
  addrs = [];
  quiet_low = [];
  quiet_few = [];
  quiet_many = [];
  heard = [];
}

-- Addr.Compare(...) > 0: IPv4 sorts before IPv6.
unfoldable pub after : Addr → Addr → Bool
after (v4 n) (v4 m) = ltb m n
after (v6 n) (v6 m) = ltb m n
after (v6 n) _ = true
after (v4 n) invalid = true
after _ _ = false

-- The last range that starts at the address or before it; the starts are in order.
unfoldable pub range_before :
    Addr → Option (Addr × Addr) → List (Addr × Addr) → Option (Addr × Addr)
range_before a best [] = best
range_before a best (r ∷ rest) =
    let onward = range_before a (some r) rest in if after r.0 a then best else onward

unfoldable pub has : Spans → Addr → Bool
has s a = elim (range_before a none s.ranges) [
  | none ↦ false
  | some (lo, hi) ↦ (if is4 lo then is4 a else not (is4 a)) && not (after a hi)
]

-- What follows each dot of the name.
unfoldable pub behind_dots : Name → List Name
behind_dots [] = []
behind_dots (x ∷ []) = []
behind_dots (x ∷ y ∷ rest) =
    let more = behind_dots (y ∷ rest) in if x == 46 then (y ∷ rest) ∷ more else more

unfoldable pub tails : Name → List Name
tails [] = []
tails (x ∷ xs) = (x ∷ xs) ∷ behind_dots (x ∷ xs)

-- The entry of the first tail that the map has, with that tail.
unfoldable pub first_in : {V : Type 0} → List (Name × V) → List Name → Option (Name × V)
first_in m [] = none
first_in m (t ∷ rest) = elim (find Name-discrete t m) [
  | none ↦ first_in m rest
  | some v ↦ some (t, v)
]

-- The table's own rules go before the lower ones; `until` is set by the caller.
unfoldable pub rule_of : Table → Name → Option Learned
rule_of t name = elim (first_in t.rules (tails name)) [
  | some (tail, role) ↦ some (record { rule = tail; role = role; low = false; until = 0 })
  | none ↦ elim (first_in t.lower (tails name)) [
    | none ↦ none
    | some (tail, e) ↦ some (record { rule = e.rule; role = e.role; low = true; until = 0 })
  ]
]

unfoldable pub opinion : Option Learned → Option Name
unfolding inherits
opinion none = none
opinion (some l) = if inherits l.role then none else some l.role

unfoldable pub role_of_name : (Name → Name) → Table → Name → Option Name
unfolding opinion
role_of_name clean t name = if not t.active then none else opinion (rule_of t (clean name))

unfoldable pub in_few : List Net → Addr → Option Entry
in_few [] a = none
in_few (n ∷ rest) a = let more = in_few rest a in if contains n.prefix a then some n.entry else more

unfoldable pub in_many : List Spans → Addr → Option Entry
unfolding has
in_many [] a = none
in_many (s ∷ rest) a = let more = in_many rest a in if has s a then some s.entry else more

unfoldable pub in_nets : List Net → List Spans → Addr → Option Entry
in_nets few many a = elim (in_few few a) [ some e ↦ some e | none ↦ in_many many a ]

unfoldable pub by_net : Option Entry → Option Learned
by_net none = none
by_net (some e) = some (record { rule = e.rule; role = e.role; low = true; until = 0 })

-- What was learned of an address, while it holds, and else what its networks say.
unfoldable pub held : Table → Addr → ℕ → Option Learned
unfolding in_nets by_net
held t addr now =
    let a = unmap addr in
    let nets = by_net (in_nets t.few t.many a) in
    elim (find Addr-discrete a t.addrs) [
      | none ↦ nets
      | some l ↦ if leb now l.until then some l else nets
    ]

unfoldable pub role_of : Table → Addr → ℕ → Option Name
unfolding opinion held
role_of t addr now = if not t.active then none else opinion (held t addr now)

unfoldable pub rule_name : Option Entry → Option Name
rule_name none = none
rule_name (some e) = some e.rule

unfoldable pub rule_of_addr : Table → Addr → ℕ → Option Name
unfolding held rule_name in_nets
rule_of_addr t addr now =
    let a = unmap addr in
    let nets = rule_name (in_nets t.quiet_few t.quiet_many a) in
    let quiet : Option Name = elim (find Addr-discrete a t.heard) [
      | none ↦ nets
      | some l ↦ if leb now l.until then some l.rule else nets
    ] in
    elim (held t addr now) [ some l ↦ some l.rule | none ↦ quiet ]

unfoldable pub quiet_of : Table → Name → Option Name
quiet_of t name = elim (first_in t.quiet_low (tails name)) [
  | none ↦ none
  | some (tail, rule) ↦ some rule
]

-- What becomes of the entry of an address: one by the table's own rule, while it holds, does not
-- give way to a lower one.
unfoldable pub settle : ℕ → Learned → Option Learned → Learned
settle now found none = found
settle now found (some was) = if found.low && not was.low && leb now was.until then was else found

unfoldable pub place_addrs : ℕ → Learned → List Addr → List (Addr × Learned) → List (Addr × Learned)
unfolding settle
place_addrs now found [] m = m
place_addrs now found (a ∷ rest) m =
    let b = unmap a in
    place_addrs now found rest (put Addr-discrete b (settle now found (find Addr-discrete b m)) m)

unfoldable pub hear_addrs : Learned → List Addr → List (Addr × Learned) → List (Addr × Learned)
hear_addrs l [] m = m
hear_addrs l (a ∷ rest) m = hear_addrs l rest (put Addr-discrete (unmap a) l m)

unfoldable pub place : ℕ → Table → Name → Answer → Table
place now t name got = elim (rule_of t name) [
  | some found ↦ record t {
    addrs = place_addrs now (record found { until = got.until }) got.addrs t.addrs;
  }
  | none ↦ elim (quiet_of t name) [
    | none ↦ t
    | some rule ↦ record t {
      heard =
          hear_addrs (record { rule = rule; role = []; low = false; until = got.until }) got.addrs
            t.heard;
    }
  ]
]

-- The loops that delete what holds no more once a map has more than `room` entries.
abbrev pub room : ℕ
room = 2 ^ 16

unfoldable pub still : ℕ → Addr → Learned → Option Learned
still now a l = if ltb l.until now then none else some l

unfoldable pub still_named : ℕ → Name → Answer → Option Answer
still_named now n l = if ltb l.until now then none else some l

unfoldable pub prune : ℕ → Table → Table
prune now t = record t {
  names = if ltb room (length t.names) then keep (still_named now) t.names else t.names;
  addrs = if ltb room (length t.addrs) then keep (still now) t.addrs else t.addrs;
  heard = if ltb room (length t.heard) then keep (still now) t.heard else t.heard;
}

-- An answer holds for an hour.
abbrev pub keep_for : ℕ
keep_for = 3600

unfoldable pub learn : (Name → Name) → ℕ → Table → Name → List Addr → Table
learn clean now t name [] = t
learn clean now t name (a ∷ rest) =
    let got : Answer = record { addrs = a ∷ rest; until = now + keep_for } in
    let pruned = prune now t in
    place now (record pruned { names = put Name-discrete (clean name) got pruned.names })
      (clean name) got

unfoldable pub replay_loop : ℕ → Table → List (Name × Answer) → Table
replay_loop now t [] = t
replay_loop now t ((name, got) ∷ rest) =
    let placed = replay_loop now (place now t name got) rest in
    let skipped = replay_loop now t rest in if leb now got.until then placed else skipped

unfoldable pub replay : ℕ → Table → Table
replay now t = replay_loop now t t.names
