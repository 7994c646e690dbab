-- ===== src/Dns/Cache.antt =====
-- internal/dnsproxy/dnsproxy.go, Resolver: the answers that the resolver keeps, and its settings; what
-- it does with a query is in `Asking`. Times and durations are in nanoseconds, a time 0 or later. The
-- list of the code, whose elements the entries point to, is here the list of their keys, the back
-- first. `parse_ip`, `trim` and `lower` stand for net.ParseIP, strings.TrimSpace and
-- strings.ToLower, and `trim_suffix` for strings.TrimSpace and then strings.TrimPrefix of "*.".
pub mod Recency
pub mod Asking
mod Sound
pub mod Shelf
mod Refines
pub mod Runs
pub mod History
use qd.Prelude.{
  ℕ, zero, suc, ◌+◌, ◌-◌, ◌*◌, ◌/◌, ◌%◌, ◌^◌, ◌&&◌, ◌||◌, Bool, true, false, not, Option, none,
  some, is_some, List, [], ◌∷◌, ◌++◌, ◌==◌, ltb, leb, if◌then◌else◌, ite, length, set, is_yes, take,
  drop, map,
}
use qd.Prelude.Dict.{find, put, remove}
use qd.Ippkt.{Bytes, byte}
use qd.Domains.{Name, Name-discrete}
use qd.Dns.{question, answer, age, second, stale_ttl, to4}
use qd.Dns.Cache.Recency.{without}

pub record Kept : Type 0 where
  pub answer : Bytes
  pub stored : ℕ
  pub expires : ℕ
  pub refreshing : Bool

pub record Rule : Type 0 where
  pub suffix : Name
  pub ip4 : Option Bytes
  pub ip6 : Option Bytes

pub record Record : Type 0 where
  pub suffix : Name
  pub ip4 : Name
  pub ip6 : Name

pub record Config : Type 0 where
  pub upstreams : List Name
  pub records : List Record
  pub cache : ℕ
  pub min_ttl : ℕ
  pub max_ttl : ℕ
  pub stale : ℕ
  pub negative : ℕ
  pub timeout : ℕ

pub record Counters : Type 0 where
  pub queries : ℕ
  pub hits : ℕ
  pub upstream : ℕ
  pub failed : ℕ
  pub records : ℕ
  pub refreshed : ℕ
  pub evicted : ℕ

pub record Resolver : Type 0 where
  pub upstreams : List Name
  pub rules : List Rule
  pub min_ttl : ℕ
  pub max_ttl : ℕ
  pub max_size : ℕ
  pub stale : ℕ
  pub negative : ℕ
  pub timeout : ℕ
  pub cache : List (Name × Kept)
  pub lru : List Name
  pub stats : Counters

-- atomic.Uint64.Add(1)
abbrev pub count : ℕ → ℕ
count n = (n + 1) % 2 ^ 64

-- What evictAbove leaves of the cache and the list, with the count of what it took out.
unfoldable pub evict_above :
    ℕ → List (Name × Kept) → List Name → ℕ → List (Name × Kept) × List Name × ℕ
evict_above limit m [] n = (m, [], n)
evict_above limit m (k ∷ ks) n =
    let rest = evict_above limit (remove Name-discrete k m) ks (count n) in
    if ltb limit (length m) then rest else (m, k ∷ ks, n)

unfoldable pub evicted : ℕ → Resolver → Resolver
evicted limit r =
    let left = evict_above limit r.cache r.lru r.stats.evicted in
    record r { cache = left.0; lru = left.1; stats = record r.stats { evicted = left.2 } }

unfoldable pub store : ℕ → Name → Bytes → ℕ → Resolver → Resolver
unfolding evicted
store now key answer ttl r =
    let e : Kept = record {
      answer = answer;
      stored = now;
      expires = now + ttl;
      refreshing = false;
    } in
    let room = evicted (r.max_size - 1) r in
    if ttl == 0 then r else elim (find Name-discrete key r.cache) [
      | some was ↦ record r {
        cache = put Name-discrete key e r.cache;
        lru = without Name-discrete key r.lru ++ (key ∷ []);
      }
      | none ↦ record room {
        cache = put Name-discrete key e room.cache;
        lru = room.lru ++ (key ∷ []);
      }
    ]

unfoldable pub is_usable : ℕ → ℕ → Kept → Bool
is_usable now stale e = ltb now e.expires || (ltb 0 stale && ltb now (e.expires + stale))

-- copy(answer[0:2], query[0:2])
abbrev pub with_id : Bytes → Bytes → Bytes
with_id query answer = set (set answer 0 (byte query 0)) 1 (byte query 1)

-- The answer that a kept one gives, its records aged.
unfoldable pub reply_of : ℕ → Bytes → Kept → Bytes
reply_of now query e =
    with_id query
      (age e.answer (if ltb now e.expires then (now - e.stored) / second % 2 ^ 32 else stale_ttl))

-- Whether to renew it, and the entry that says so.
unfoldable pub renews : ℕ → Kept → Bool
renews now e = not (ltb now e.expires) && not e.refreshing

unfoldable pub looked_at : ℕ → Kept → Kept
unfolding renews
looked_at now e = if renews now e then record e { refreshing = true } else e

-- The answer found, with whether to renew it.
unfoldable pub lookup : ℕ → Name → Bytes → Resolver → Option (Bytes × Bool) × Resolver
unfolding is_usable reply_of looked_at renews
lookup now key query r = elim (find Name-discrete key r.cache) [
  | none ↦ (none, r)
  | some e ↦
      if is_usable now r.stale e
      then (
        some (reply_of now query e, renews now e),
        record r {
          cache = put Name-discrete key (looked_at now e) r.cache;
          lru = without Name-discrete key r.lru ++ (key ∷ []);
        },
      )
      else (
        none,
        record r {
          cache = remove Name-discrete key r.cache;
          lru = without Name-discrete key r.lru;
        },
      )
]

-- What renew does with the outcome of its exchange.
unfoldable pub renew : ℕ → Name → Option (Bytes × ℕ) → Resolver → Resolver
unfolding store
renew now key (some (fresh, ttl)) r = store now key fresh ttl r
renew now key none r = elim (find Name-discrete key r.cache) [
  | none ↦ r
  | some e ↦ record r { cache = put Name-discrete key (record e { refreshing = false }) r.cache }
]

unfoldable pub flush : Resolver → Resolver
flush r = record r { cache = []; lru = [] }

-- New, before its Reconfigure.
abbrev pub empty_resolver : Resolver
empty_resolver = record {
  upstreams = [];
  rules = [];
  min_ttl = 0;
  max_ttl = 0;
  max_size = 0;
  stale = 0;
  negative = 0;
  timeout = 0;
  cache = [];
  lru = [];
  stats = record {
    queries = 0;
    hits = 0;
    upstream = 0;
    failed = 0;
    records = 0;
    refreshed = 0;
    evicted = 0;
  };
}

unfoldable Names-discrete : Discrete (List Name)
Names-discrete = hlevel Name-discrete

module _ (parse_ip : Name → Option Bytes) (trim_suffix trim lower : Name → Name) where
  -- The addresses of a record: an IPv4 one, and one that is not.
  unfoldable pub ip4_of : Option Bytes → Option Bytes
  ip4_of none = none
  ip4_of (some ip) = if is_some (to4 ip) then some ip else none

  unfoldable pub ip6_of : Option Bytes → Option Bytes
  ip6_of none = none
  ip6_of (some ip) = if is_some (to4 ip) then none else some ip

  unfoldable pub rules_of : List Record → List Rule
  unfolding ip4_of ip6_of
  rules_of [] = []
  rules_of (rec ∷ rest) =
      let later = rules_of rest in
      let next : Rule = record {
        suffix = lower (trim_suffix rec.suffix);
        ip4 = ip4_of (parse_ip (trim rec.ip4));
        ip6 = ip6_of (parse_ip (trim rec.ip6));
      } in
      if length next.suffix == 0
      then later
      else if not (is_some next.ip4) && not (is_some next.ip6)
      then later
      else next ∷ later

  -- The upstreams that the change retires, and the resolver after it.
  unfoldable pub reconfigure : Config → Resolver → List Name × Resolver
  unfolding rules_of Names-discrete
  reconfigure cfg r =
      let same = is_yes (Names-discrete cfg.upstreams r.upstreams) in
      let max_size = if cfg.cache == 0 then 1 else cfg.cache in
      let set_up = record r {
        min_ttl = cfg.min_ttl;
        max_ttl = if cfg.max_ttl == 0 then 3600 * second else cfg.max_ttl;
        stale = cfg.stale;
        negative = cfg.negative;
        max_size = max_size;
        timeout = if cfg.timeout == 0 then 2 * second else cfg.timeout;
        rules = rules_of cfg.records;
        upstreams = cfg.upstreams;
      } in
      (if same then [] else r.upstreams, evicted max_size set_up)

  unfoldable pub new_resolver : Config → Resolver
  unfolding reconfigure
  new_resolver cfg = (reconfigure cfg empty_resolver).1
