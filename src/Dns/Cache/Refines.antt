-- ===== src/Dns/Cache/Refines.antt =====
-- internal/dnsproxy/dnsproxy.go, Resolver: storing an answer, on the shelf.
use qd.Prelude.{
  ℕ, ◌+◌, ◌-◌, ◌≡◌, refl, sym, ap, ◌∙◌, inl, inr, false, none, some, is_some, List, [], ◌∷◌, ◌++◌,
  length, arith, Option-cases, Bool-cases, ◌==◌,
}
use qd.Prelude.Dict.{find, put, remove, find-put_self, length-put_found, length-put-le}
use qd.Ippkt.{Bytes}
use qd.Domains.{Name, Name-discrete}
use qd.Dns.Cache.{Kept, Resolver, evicted, store}
use qd.Dns.Cache.Recency.{
  without, among-without, entries, entries-put, entries-without, entries-append, Lists,
}
use qd.Dns.Cache.Sound.{
  remove-absent, length-Lists, length-entries, used-Lists, added-Lists, entries-find,
}
use mathlib.Core.Logic.{if_pos}
use qd.Dns.Cache.Shelf.{
  Shelf, shelf_of, latest, used, shelf_store, IsSound, latest_all, evicted-shelf, evicted_limit,
  evicted_stale, latest-append, find-evicted,
}

-- A resolver after a call: sound, with this shelf, and the settings as they were.
pub record Becomes (r r2 : Resolver) (l : Shelf) : Type 0 where
  pub sound : IsSound r2
  pub shelf : shelf_of r2 ≡ l
  pub limit : r2.max_size ≡ r.max_size
  pub stale : r2.stale ≡ r.stale

pub unchanged : (r : Resolver) → IsSound r → Becomes r r (shelf_of r)
unchanged r s = record { sound = s; shelf = refl; limit = refl; stale = refl }

length-used :
    (k : Name) (e w : Kept) (m : Shelf) (ks : List Name)
    → Lists Name-discrete m ks
    → find Name-discrete k m ≡ some w
    → length
        (entries Name-discrete (without Name-discrete k ks ++ (k ∷ [])) (put Name-discrete k e m))
      ≡ length m
length-used k e w m ks l f =
    let u = used-Lists Name-discrete k e w m ks l f in
    length-entries Name-discrete (put Name-discrete k e m) (without Name-discrete k ks ++ (k ∷ []))
      u
    ∙ sym (
        length-Lists Name-discrete (put Name-discrete k e m)
          (without Name-discrete k ks ++ (k ∷ [])) u)
    ∙ length-put_found Name-discrete k e w m f

entries-used :
    (k : Name) (e : Kept) (m : Shelf) (ks : List Name)
    → entries Name-discrete (without Name-discrete k ks ++ (k ∷ [])) (put Name-discrete k e m)
      ≡ used k e (entries Name-discrete ks m)
entries-used k e m ks =
    entries-append Name-discrete k e (without Name-discrete k ks) (put Name-discrete k e m)
      (find-put_self Name-discrete k e m)
    ∙ ap (λ (r : Shelf). r ++ ((k, e) ∷ []))
        (entries-put Name-discrete k e (without Name-discrete k ks) m
            (among-without Name-discrete k k ks ∙ if_pos (Name-discrete k k) refl _ _)
          ∙ entries-without Name-discrete k ks m)

-- An entry put to use in place.
pub use-Becomes :
    (r : Resolver) (k : Name) (e w : Kept)
    → IsSound r
    → find Name-discrete k r.cache ≡ some w
    → Becomes r
        (record r {
          cache = put Name-discrete k e r.cache;
          lru = without Name-discrete k r.lru ++ (k ∷ []);
        })
        (used k e (shelf_of r))
use-Becomes r k e w s f = record {
  sound = record {
    in_step = used-Lists Name-discrete k e w r.cache r.lru s.in_step f;
    bounded = omega (arith, length-put_found Name-discrete k e w r.cache f, s.bounded);
    room = s.room;
  };
  shelf = entries-used k e r.cache r.lru;
  limit = refl;
  stale = refl;
}

added-Becomes :
    (r : Resolver) (k : Name) (e : Kept)
    → IsSound r
    → find Name-discrete k r.cache ≡ none
    → Becomes r
        (record (evicted (r.max_size - 1) r) {
          cache = put Name-discrete k e (evicted (r.max_size - 1) r).cache;
          lru = (evicted (r.max_size - 1) r).lru ++ (k ∷ []);
        })
        (latest r.max_size (used k e (shelf_of r)))
added-Becomes r k e s f =
    let r1 = evicted (r.max_size - 1) r in
    let m = evicted-shelf (r.max_size - 1) r s.in_step in
    let free = find-evicted (r.max_size - 1) r k s.in_step f in
    let off : remove Name-discrete k (shelf_of r) ≡ shelf_of r =
      remove-absent Name-discrete k (shelf_of r)
        (entries-find Name-discrete k r.cache r.lru s.in_step ∙ f) in
    record {
      sound = record {
        in_step = added-Lists Name-discrete k e r1.cache r1.lru m.0 free;
        bounded = omega (
          arith,
          length-put-le Name-discrete k e r1.cache,
          m.1,
          s.room,
          evicted_limit (r.max_size - 1) r,
        );
        room = omega (arith, s.room, evicted_limit (r.max_size - 1) r);
      };
      shelf =
          entries-append Name-discrete k e r1.lru (put Name-discrete k e r1.cache)
            (find-put_self Name-discrete k e r1.cache)
          ∙ ap (λ (l : Shelf). l ++ ((k, e) ∷ []))
              (entries-put Name-discrete k e r1.lru r1.cache (m.0.same k ∙ ap is_some free) ∙ m.2)
          ∙ sym (
              ap (λ (l : Shelf). latest r.max_size (l ++ ((k, e) ∷ []))) off
              ∙ latest-append r.max_size (shelf_of r) (k, e) s.room);
      limit = evicted_limit (r.max_size - 1) r;
      stale = evicted_stale (r.max_size - 1) r;
    }

pub store-Becomes :
    (now : ℕ) (key : Name) (answer : Bytes) (ttl : ℕ) (r : Resolver)
    → IsSound r
    → Becomes r
        (store now key answer ttl r)
        (shelf_store r.max_size now key answer ttl (shelf_of r))
unfolding store shelf_store
store-Becomes now key answer ttl r s =
    let e : Kept = record {
      answer = answer;
      stored = now;
      expires = now + ttl;
      refreshing = false;
    } in
    elim (Bool-cases (ttl == 0)) [
      | inl z ↦ rw z (unchanged r s)
      | inr z ↦ elim (Option-cases (find Name-discrete key r.cache)) [
        | inl f ↦ rw (z, f) (added-Becomes r key e s f)
        | inr (w, f) ↦
            rw (z, f)
              (let u = use-Becomes r key e w s f in
                record {
                  sound = u.sound;
                  shelf =
                      u.shelf
                      ∙ sym (
                          latest_all r.max_size (used key e (shelf_of r)) (
                            omega (
                              arith,
                              s.bounded,
                              ap length (sym u.shelf),
                              length-used key e w r.cache r.lru s.in_step f,
                            )));
                  limit = refl;
                  stale = refl;
                })
      ]
    ]
