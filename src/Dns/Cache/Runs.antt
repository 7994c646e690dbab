-- ===== src/Dns/Cache/Runs.antt =====
-- internal/dnsproxy/dnsproxy.go, Resolver: any sequence of calls against the shelf.
use qd.Prelude.{
  ℕ, ◌≡◌, refl, sym, ap, ◌∙◌, inl, inr, true, false, Option, none, some, is_some, List, [], ◌∷◌,
  arith, known_twice, Option-cases, Bool-cases,
}
use qd.Prelude.Dict.{find, put, find-put_self, find-put_ne, length-put_found, length-remove-le}
use qd.Ippkt.{Bytes}
use qd.Domains.{Name, Name-discrete}
use qd.Dns.Cache.{Kept, Resolver, Config, lookup, renew, flush, is_usable, looked_at}
use qd.Dns.Cache.Recency.{
  among, without, among-without, entries, entries_cons, entries_skip, entries-put, entries-remove,
  entries-without,
}
use qd.Dns.Cache.Sound.{dropped-Lists, written-Lists, entries-find}
use mathlib.Core.Logic.{if_pos, if_neg}
use qd.Dns.Cache.Recency.{Apart}
use qd.Dns.Cache.Shelf.{Shelf, shelf_of, shelf_store, shelf_lookup, IsSound}
use qd.Dns.Cache.Refines.{Becomes, unchanged, use-Becomes, store-Becomes}

pub data Call : Type 0 where
  stored : ℕ → Name → Bytes → ℕ → Call
  looked_up : ℕ → Name → Bytes → Call
  renewed : ℕ → Name → Option (Bytes × ℕ) → Call
  flushed : Call
  configured : Config → Call

-- The shelf's settings beside it.
pub record Shop : Type 0 where
  pub limit : ℕ
  pub stale : ℕ
  pub items : Shelf

unfoldable pub shelf_renew : ℕ → ℕ → Name → Option (Bytes × ℕ) → Shelf → Shelf
unfolding shelf_store
shelf_renew limit now key (some (fresh, ttl)) l = shelf_store limit now key fresh ttl l
shelf_renew limit now key none l = elim (find Name-discrete key l) [
  | none ↦ l
  | some e ↦ put Name-discrete key (record e { refreshing = false }) l
]

-- A write of an entry at its place.
entries-written :
    (k : Name) (v w : Kept) (ks : List Name) (m : Shelf)
    → Apart Name-discrete ks
    → among Name-discrete k ks ≡ true
    → find Name-discrete k m ≡ some w
    → entries Name-discrete ks (put Name-discrete k v m)
      ≡ put Name-discrete k v (entries Name-discrete ks m)
unfolding put among
entries-written k v w [] m a h f = known_twice refl h
entries-written k v w (j ∷ ks) m a h f = elim (Name-discrete j k) [
  | yes e ↦
      let free : among Name-discrete k ks ≡ false =
        ap (λ (i : Name). among Name-discrete i ks) (sym e) ∙ a.0 in
      let here : find Name-discrete j m ≡ some w =
        ap (λ (i : Name). find Name-discrete i m) e ∙ f in
      ap (λ (i : Name). entries Name-discrete (i ∷ ks) (put Name-discrete k v m)) e
      ∙ entries_cons Name-discrete k v ks (put Name-discrete k v m)
          (find-put_self Name-discrete k v m)
      ∙ ap (λ (r : Shelf). (k, v) ∷ r) (entries-put Name-discrete k v ks m free)
      ∙ sym (
          ap (put Name-discrete k v) (entries_cons Name-discrete j w ks m here)
          ∙ if_pos (Name-discrete j k) e _ _)
  | no ne ↦
      let later = entries-written k v w ks m a.1 (sym (if_neg (Name-discrete j k) ne _ _) ∙ h) f in
      let same = find-put_ne Name-discrete k j v m (λ e. ne (sym e)) in
      elim (Option-cases (find Name-discrete j m)) [
        | inl g ↦
            entries_skip Name-discrete j ks (put Name-discrete k v m) (same ∙ g)
            ∙ later
            ∙ ap (put Name-discrete k v) (sym (entries_skip Name-discrete j ks m g))
        | inr (x, g) ↦
            entries_cons Name-discrete j x ks (put Name-discrete k v m) (same ∙ g)
            ∙ ap (λ (r : Shelf). (j, x) ∷ r) later
            ∙ sym (
                ap (put Name-discrete k v) (entries_cons Name-discrete j x ks m g)
                ∙ if_neg (Name-discrete j k) ne _ _)
      ]
]

pub lookup-Becomes :
    (now : ℕ) (key : Name) (query : Bytes) (r : Resolver)
    → IsSound r
    → ((lookup now key query r).0 ≡ (shelf_lookup r.stale now key query (shelf_of r)).0)
      × Becomes r (lookup now key query r).1 (shelf_lookup r.stale now key query (shelf_of r)).1
unfolding lookup shelf_lookup
lookup-Becomes now key query r s =
    let on = entries-find Name-discrete key r.cache r.lru s.in_step in
    elim (Option-cases (find Name-discrete key r.cache)) [
      | inl f ↦ rw (lookup, shelf_lookup, on, f) (refl, unchanged r s)
      | inr (e, f) ↦ elim (Bool-cases (is_usable now r.stale e)) [
        | inl b ↦
            rw (lookup, shelf_lookup, on, f, b) (refl, use-Becomes r key (looked_at now e) e s f)
        | inr b ↦
            rw (lookup, shelf_lookup, on, f, b)
              (
                refl,
                record {
                  sound = record {
                    in_step = dropped-Lists Name-discrete key r.cache r.lru s.in_step;
                    bounded = omega (arith, length-remove-le Name-discrete key r.cache, s.bounded);
                    room = s.room;
                  };
                  shelf =
                      entries-remove Name-discrete key (without Name-discrete key r.lru) r.cache (
                        among-without Name-discrete key key r.lru
                        ∙ if_pos (Name-discrete key key) refl _ _)
                      ∙ entries-without Name-discrete key r.lru r.cache;
                  limit = refl;
                  stale = refl;
                },
              )
      ]
    ]

pub renew-Becomes :
    (now : ℕ) (key : Name) (got : Option (Bytes × ℕ)) (r : Resolver)
    → IsSound r
    → Becomes r (renew now key got r) (shelf_renew r.max_size now key got (shelf_of r))
unfolding renew shelf_renew
renew-Becomes now key (some (fresh, ttl)) r s = store-Becomes now key fresh ttl r s
renew-Becomes now key none r s =
    let on = entries-find Name-discrete key r.cache r.lru s.in_step in
    elim (Option-cases (find Name-discrete key r.cache)) [
      | inl f ↦ rw (renew, shelf_renew, on, f) (unchanged r s)
      | inr (e, f) ↦
          rw (renew, shelf_renew, on, f)
            (record {
              sound = record {
                in_step =
                    written-Lists Name-discrete key (record e { refreshing = false }) e r.cache
                      r.lru s.in_step f;
                bounded = omega (
                  arith,
                  length-put_found Name-discrete key (record e { refreshing = false }) e r.cache f,
                  s.bounded,
                );
                room = s.room;
              };
              shelf =
                  entries-written key (record e { refreshing = false }) e r.lru r.cache
                    s.in_step.apart (s.in_step.same key ∙ ap is_some f) f;
              limit = refl;
              stale = refl;
            })
    ]

pub flush-Becomes : (r : Resolver) → IsSound r → Becomes r (flush r) []
unfolding flush
flush-Becomes r s = record {
  sound = record {
    in_step = record { unique = tt; apart = tt; same = λ k. unfold among find in refl };
    bounded = omega arith;
    room = s.room;
  };
  shelf = unfold entries in refl;
  limit = refl;
  stale = refl;
}
