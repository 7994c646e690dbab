-- ===== src/Dns/Cache/History.antt =====
-- internal/dnsproxy/dnsproxy.go, Resolver: any sequence of calls, against the shelf.
use qd.Prelude.{
  ℕ, ◌≤◌, ◌≡◌, refl, sym, ap, ◌∙◌, Bool, Option, none, List, [], ◌∷◌, arith, ◌==◌, if◌then◌else◌,
}
use qd.Ippkt.{Bytes}
use qd.Domains.{Name, Name-discrete}
use qd.Prelude.Dict.{find}
use qd.Dns.Cache.{
  Resolver, Config, store, lookup, renew, flush, evicted, reconfigure, new_resolver, empty_resolver,
}
use qd.Dns.Cache.Recency.{Lists, among, entries}
use qd.Dns.Cache.Shelf.{
  Shelf, shelf_of, latest, shelf_store, shelf_lookup, IsSound, evicted-shelf, evicted_limit,
  evicted_stale,
}
use qd.Dns.Cache.Refines.{Becomes, store-Becomes}
use qd.Dns.Cache.Runs.{
  Call, stored, looked_up, renewed, flushed, configured, Shop, shelf_renew, lookup-Becomes,
  renew-Becomes, flush-Becomes,
}

-- A shelf after a change of the settings.
unfoldable pub shop_of : Config → Shelf → Shop
shop_of cfg l =
    let limit = if cfg.cache == 0 then 1 else cfg.cache in
    record { limit = limit; stale = cfg.stale; items = latest limit l }

unfoldable pub shop_step : Call → Shop → Option (Bytes × Bool) × Shop
unfolding shop_of
shop_step (stored now key answer ttl) s =
    (none, record s { items = shelf_store s.limit now key answer ttl s.items })
shop_step (looked_up now key query) s =
    let got = shelf_lookup s.stale now key query s.items in (got.0, record s { items = got.1 })
shop_step (renewed now key got) s =
    (none, record s { items = shelf_renew s.limit now key got s.items })
shop_step flushed s = (none, record s { items = [] })
shop_step (configured cfg) s = (none, shop_of cfg s.items)

unfoldable pub shop_run : List Call → Shop → List (Option (Bytes × Bool)) × Shop
unfolding shop_step
shop_run [] s = ([], s)
shop_run (c ∷ cs) s =
    let one = shop_step c s in let rest = shop_run cs one.1 in (one.0 ∷ rest.0, rest.1)

module _ (parse_ip : Name → Option Bytes) (trim_suffix trim lower : Name → Name) where
  unfoldable pub step : Call → Resolver → Option (Bytes × Bool) × Resolver
  step (stored now key answer ttl) r = (none, store now key answer ttl r)
  step (looked_up now key query) r = lookup now key query r
  step (renewed now key got) r = (none, renew now key got r)
  step flushed r = (none, flush r)
  step (configured cfg) r = (none, (reconfigure parse_ip trim_suffix trim lower cfg r).1)

  unfoldable pub run : List Call → Resolver → List (Option (Bytes × Bool)) × Resolver
  unfolding step
  run [] r = ([], r)
  run (c ∷ cs) r = let one = step c r in let rest = run cs one.1 in (one.0 ∷ rest.0, rest.1)

  -- A resolver that is what a shelf says.
  pub record Shows (r : Resolver) (s : Shop) : Type 0 where
    pub sound : IsSound r
    pub items : shelf_of r ≡ s.items
    pub limit : r.max_size ≡ s.limit
    pub stale : r.stale ≡ s.stale

  evicted-Shows :
      (limit : ℕ) (r : Resolver)
      → Lists Name-discrete r.cache r.lru
      → r.max_size ≡ limit
      → 1 ≤ limit
      → Shows
          (evicted limit r)
          (record { limit = limit; stale = r.stale; items = latest limit (shelf_of r) })
  evicted-Shows limit r l e room =
      let m = evicted-shelf limit r l in
      record {
        sound = record {
          in_step = m.0;
          bounded = omega (arith, m.1, evicted_limit limit r);
          room = omega (arith, evicted_limit limit r);
        };
        items = m.2;
        limit = evicted_limit limit r ∙ e;
        stale = evicted_stale limit r;
      }

  reconfigure-Shows :
      (cfg : Config) (r : Resolver)
      → Lists Name-discrete r.cache r.lru
      → Shows (reconfigure parse_ip trim_suffix trim lower cfg r).1 (shop_of cfg (shelf_of r))
  unfolding reconfigure shop_of
  reconfigure-Shows cfg r l = evicted-Shows _ _ l refl (ground arith)

  shows :
      (r r2 : Resolver) (s : Shop) (l k : Shelf)
      → Shows r s
      → Becomes r r2 l
      → l ≡ k
      → Shows r2 (record s { items = k })
  shows r r2 s l k h b e = record {
    sound = b.sound;
    items = b.shelf ∙ e;
    limit = b.limit ∙ h.limit;
    stale = b.stale ∙ h.stale;
  }

  step-Shows :
      (c : Call) (r : Resolver) (s : Shop)
      → Shows r s
      → ((step c r).0 ≡ (shop_step c s).0) × Shows (step c r).1 (shop_step c s).1
  unfolding step shop_step
  step-Shows (stored now key answer ttl) r s h = (
    refl,
    shows r (store now key answer ttl r) s (shelf_store r.max_size now key answer ttl (shelf_of r))
        (shelf_store s.limit now key answer ttl s.items) h
        (store-Becomes now key answer ttl r h.sound) (rw (h.limit, h.items) refl),
  )
  step-Shows (looked_up now key query) r s h =
      let b = lookup-Becomes now key query r h.sound in
      (
        b.0 ∙ rw (h.stale, h.items) refl,
        shows r (lookup now key query r).1 s (shelf_lookup r.stale now key query (shelf_of r)).1
            (shelf_lookup s.stale now key query s.items).1 h b.1 (rw (h.stale, h.items) refl),
      )
  step-Shows (renewed now key got) r s h = (
    refl,
    shows r (renew now key got r) s (shelf_renew r.max_size now key got (shelf_of r))
        (shelf_renew s.limit now key got s.items) h (renew-Becomes now key got r h.sound)
        (rw (h.limit, h.items) refl),
  )
  step-Shows flushed r s h = (refl, shows r (flush r) s [] [] h (flush-Becomes r h.sound) refl)
  step-Shows (configured cfg) r s h =
      (refl, rw (sym h.items) (reconfigure-Shows cfg r h.sound.in_step))

  run-Shows :
      (cs : List Call) (r : Resolver) (s : Shop)
      → Shows r s
      → ((run cs r).0 ≡ (shop_run cs s).0) × Shows (run cs r).1 (shop_run cs s).1
  unfolding run shop_run
  run-Shows [] r s h = (refl, h)
  run-Shows (c ∷ cs) r s h =
      let one = step-Shows c r s h in
      let rest = run-Shows cs (step c r).1 (shop_step c s).1 one.1 in
      (rw one.0 (ap (λ (t : List (Option (Bytes × Bool))). (shop_step c s).0 ∷ t) rest.0), rest.1)

  new-Shows :
      (cfg : Config) → Shows (new_resolver parse_ip trim_suffix trim lower cfg) (shop_of cfg [])
  unfolding new_resolver entries
  new-Shows cfg =
      reconfigure-Shows cfg empty_resolver
        (record { unique = tt; apart = tt; same = λ k. unfold among find in refl })

-- From a new resolver, any sequence of stores, lookups, renewals, flushes and changes of the
-- settings gives the answers that a shelf gives which knows only its entries in the order of
-- use: a store puts its entry last and keeps as many of the last entries as the cache may have,
-- a lookup puts the entry that it finds last or takes out one past its use; and after it the map
-- and the list hold the same keys, at most as many as the cache may have, and in the order of
-- the shelf.
pub run-shop :
    (parse_ip : Name → Option Bytes) (trim_suffix trim lower : Name → Name) (cfg : Config)
    (cs : List Call)
    → ((run parse_ip trim_suffix trim lower cs (new_resolver parse_ip trim_suffix trim lower cfg)).0
        ≡ (shop_run cs (shop_of cfg [])).0)
      × Shows parse_ip trim_suffix trim lower
          (run parse_ip trim_suffix trim lower cs
            (new_resolver parse_ip trim_suffix trim lower cfg)).1
          (shop_run cs (shop_of cfg [])).1
run-shop parse_ip trim_suffix trim lower cfg cs =
    run-Shows parse_ip trim_suffix trim lower cs (new_resolver parse_ip trim_suffix trim lower cfg)
      (shop_of cfg []) (new-Shows parse_ip trim_suffix trim lower cfg)
