-- ===== src/Dns/Cache/Asking.antt =====
-- internal/dnsproxy/dnsproxy.go, Resolver.Answer: what becomes of a query. The calls of `once` come
-- one at a time, so that none waits for another. `forward` stands for the exchange with the
-- upstreams, which gives an answer with its time or fails.
use qd.Prelude.{
  ℕ, zero, suc, ◌+◌, ◌-◌, ◌/◌, ◌%◌, ◌&&◌, ◌||◌, Bool, true, false, not, Option, none, some, List,
  [], ◌∷◌, ◌++◌, ◌==◌, leb, if◌then◌else◌, length, is_yes, drop,
}
use qd.Ippkt.{Bytes}
use qd.Domains.{Name, Name-discrete}
use qd.Dns.{question, answer}
use qd.Dns.Cache.{Rule, Resolver, lookup, store, count}

-- strings.HasSuffix(name, "."+suffix) || name == suffix
unfoldable pub under : Name → Name → Bool
under suffix name =
    is_yes (Name-discrete name suffix)
    || (leb (length suffix + 1) (length name)
        && is_yes (Name-discrete (drop (length name - (length suffix + 1)) name) (46 ∷ suffix)))

unfoldable pub rule_ip : ℕ → Rule → Option Bytes
rule_ip qtype rec = if qtype == 28 then rec.ip6 else rec.ip4

-- The nil of Answer, which ends the loop, is `none`.
unfoldable pub first_rule : Bytes → Name → ℕ → List Rule → Option Bytes
unfolding under rule_ip
first_rule query name qtype [] = none
first_rule query name qtype (rec ∷ rest) =
    let later = first_rule query name qtype rest in
    if not (under rec.suffix name)
    then later
    else elim (rule_ip qtype rec) [ none ↦ later | some ip ↦ answer query ip qtype ]

unfoldable pub from_records : Bytes → Name → ℕ → Resolver → Option Bytes
unfolding first_rule
from_records query name qtype r =
    if not (qtype == 1) && not (qtype == 28) then none else first_rule query name qtype r.rules

-- fmt.Sprint of a uint16: five digits at most.
unfoldable pub digits : ℕ → ℕ → Name → Name
digits zero n acc = acc
digits (suc f) n acc =
    let more = digits f (n / 10) ((48 + n % 10) ∷ acc) in
    if n / 10 == 0 then (48 + n % 10) ∷ acc else more

unfoldable pub key_of : Name → ℕ → Name
unfolding digits
key_of name qtype = name ++ (47 ∷ digits 5 qtype [])

-- `once` where nothing is in flight.
unfoldable pub once :
    (Bytes → Option (Bytes × ℕ)) → ℕ → Name → Bytes → Resolver → Option Bytes × Resolver
once forward now key query r = elim (forward query) [
  | none ↦ (none, r)
  | some (got, ttl) ↦ (
    some got,
    store now key got ttl
        (record r { stats = record r.stats { upstream = count r.stats.upstream } }),
  )
]

-- What a query comes to: the answer with whether it was at hand, or an error; and whether a renewal
-- of the key was begun.
pub record Outcome : Type 0 where
  pub reply : Option (Bytes × Bool)
  pub renewing : Bool
  pub after : Resolver

unfoldable pub failing : Resolver → Outcome
failing r = record {
  reply = none;
  renewing = false;
  after = record r { stats = record r.stats { failed = count r.stats.failed } };
}

unfoldable pub from_once : Option Bytes × Resolver → Outcome
unfolding failing
from_once (none, r) = failing r
from_once (some got, r) = record { reply = some (got, false); renewing = false; after = r }

unfoldable pub hit : Bytes → Bool → Resolver → Outcome
hit got again r = record {
  reply = some (got, true);
  renewing = again;
  after = record r {
    stats = record r.stats {
      hits = count r.stats.hits;
      refreshed = if again then count r.stats.refreshed else r.stats.refreshed;
    };
  };
}

unfoldable pub from_cache :
    (Bytes → Option (Bytes × ℕ)) → ℕ → Name → Bytes → Option (Bytes × Bool) × Resolver → Outcome
unfolding hit from_once once
from_cache forward now key query (some (got, again), r) = hit got again r
from_cache forward now key query (none, r) = from_once (once forward now key query r)

unfoldable pub answer_named :
    (Bytes → Option (Bytes × ℕ)) → ℕ → Bytes → Name × ℕ → Resolver → Outcome
unfolding from_records from_cache lookup key_of
answer_named forward now query (name, qtype) r = elim (from_records query name qtype r) [
  | some got ↦ record {
    reply = some (got, true);
    renewing = false;
    after = record r { stats = record r.stats { records = count r.stats.records } };
  }
  | none ↦ from_cache forward now (key_of name qtype) query (lookup now (key_of name qtype) query r)
]

unfoldable pub answer_query :
    (Bytes → Option (Bytes × ℕ)) → (Bytes → Bytes) → ℕ → Bytes → Resolver → Outcome
unfolding answer_named failing
answer_query forward lower now query r0 =
    let r = record r0 { stats = record r0.stats { queries = count r0.stats.queries } } in
    elim (question lower query) [
      | none ↦ failing r
      | some asked ↦ answer_named forward now query asked r
    ]
