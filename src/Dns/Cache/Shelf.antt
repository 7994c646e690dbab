-- ===== src/Dns/Cache/Shelf.antt =====
-- internal/dnsproxy/dnsproxy.go, Resolver: the kept answers as a shelf of the most recently used
-- ones, which knows no map and no list elements, and what evictAbove does to it.
use qd.Prelude.{
  ℕ, zero, suc, ◌+◌, ◌-◌, ◌≤◌, ◌≡◌, refl, sym, ap, ◌∙◌, inl, inr, Bool, false, Option, none, some,
  List, [], ◌∷◌, ◌++◌, length, arith, none_some, Bool-cases, length-append, drop, ltb, ltb→lt, ◌==◌,
  if◌then◌else◌,
}
use qd.Prelude.Dict.{find, remove}
use qd.Ippkt.{Bytes}
use qd.Domains.{Name, Name-discrete}
use qd.Dns.Cache.{
  Kept, Resolver, evict_above, evicted, is_usable, reply_of, renews, looked_at, count,
}
use qd.Dns.Cache.Recency.{entries, entries_cons, entries-remove, Lists}
use qd.Dns.Cache.Sound.{head_found, tail-Lists, length-Lists, length-entries, entries-find}
use mathlib.Core.Logic.{if_pos, if_neg}

-- The answers, the least recently used first.
abbrev pub Shelf : Type 0
Shelf = List (Name × Kept)

abbrev pub shelf_of : Resolver → Shelf
shelf_of r = entries Name-discrete r.lru r.cache

-- The `n` most recently used.
abbrev pub latest : ℕ → Shelf → Shelf
latest n l = drop (length l - n) l

-- An answer put to use goes to the end.
abbrev pub used : Name → Kept → Shelf → Shelf
used k e l = remove Name-discrete k l ++ ((k, e) ∷ [])

unfoldable pub shelf_store : ℕ → ℕ → Name → Bytes → ℕ → Shelf → Shelf
shelf_store limit now key answer ttl l =
    if ttl == 0
    then l
    else latest limit (
        used key (record { answer = answer; stored = now; expires = now + ttl; refreshing = false })
          l)

unfoldable pub shelf_lookup : ℕ → ℕ → Name → Bytes → Shelf → Option (Bytes × Bool) × Shelf
shelf_lookup stale now key query l = elim (find Name-discrete key l) [
  | none ↦ (none, l)
  | some e ↦
      if is_usable now stale e
      then (some (reply_of now query e, renews now e), used key (looked_at now e) l)
      else (none, remove Name-discrete key l)
]

-- The map and the list are in step, within the bound.
pub record IsSound (r : Resolver) : Type 0 where
  pub in_step : Lists Name-discrete r.cache r.lru
  pub bounded : length r.cache ≤ r.max_size
  pub room : 1 ≤ r.max_size

pub latest_all : (n : ℕ) (l : Shelf) → length l ≤ n → latest n l ≡ l
latest_all n l h = ap (λ (k : ℕ). drop k l) (let z : length l - n ≡ 0 = omega arith in z)

latest_cons : (n : ℕ) (x : Name × Kept) (l : Shelf) → n ≤ length l → latest n (x ∷ l) ≡ latest n l
latest_cons n x l h =
    ap (λ (k : ℕ). drop k (x ∷ l))
      (let z : suc (length l) - n ≡ suc (length l - n) = omega arith in z)

-- What evictAbove leaves.
evict_above-latest :
    (limit : ℕ) (m : List (Name × Kept)) (ks : List Name) (n : ℕ)
    → Lists Name-discrete m ks
    → Lists Name-discrete (evict_above limit m ks n).0 (evict_above limit m ks n).1
      × (length (evict_above limit m ks n).0 ≤ limit)
      × (entries Name-discrete (evict_above limit m ks n).1 (evict_above limit m ks n).0
          ≡ latest limit (entries Name-discrete ks m))
unfolding evict_above
evict_above-latest limit m [] n l = (
  l,
  omega (arith, length-Lists Name-discrete m [] l),
  sym (
      latest_all limit (entries Name-discrete [] m)
        (omega (arith, length-entries Name-discrete m [] l))),
)
evict_above-latest limit m (k ∷ ks) n l =
    let long = length-Lists Name-discrete m (k ∷ ks) l in
    let shelf_long = length-entries Name-discrete m (k ∷ ks) l in
    elim (Bool-cases (ltb limit (length m))) [
      | inl e ↦ rw e (
          let rest =
            evict_above-latest limit (remove Name-discrete k m) ks (count n)
              (tail-Lists Name-discrete k m ks l) in
          let (v, f) = head_found Name-discrete k m ks l in
          let off = entries-remove Name-discrete k ks m l.apart.0 in
          let tail_long =
            length-entries Name-discrete (remove Name-discrete k m) ks
              (tail-Lists Name-discrete k m ks l) in
          (
            rest.0,
            rest.1,
            rest.2
                ∙ ap (latest limit) off
                ∙ sym (
                    ap (latest limit) (entries_cons Name-discrete k v ks m f)
                    ∙ latest_cons limit (k, v) (entries Name-discrete ks m)
                        (omega (arith, ap length off, ltb→lt limit (length m) e))),
          ))
      | inr e ↦ rw e (
        l,
        ground arith,
        sym (latest_all limit (entries Name-discrete (k ∷ ks) m) (ground arith)),
      )
    ]

pub evicted-shelf :
    (limit : ℕ) (r : Resolver)
    → Lists Name-discrete r.cache r.lru
    → Lists Name-discrete (evicted limit r).cache (evicted limit r).lru
      × (length (evicted limit r).cache ≤ limit)
      × (shelf_of (evicted limit r) ≡ latest limit (shelf_of r))
unfolding evicted
evicted-shelf limit r l = evict_above-latest limit r.cache r.lru r.stats.evicted l

pub evicted_limit : (limit : ℕ) (r : Resolver) → (evicted limit r).max_size ≡ r.max_size
unfolding evicted
evicted_limit limit r = refl

pub evicted_stale : (limit : ℕ) (r : Resolver) → (evicted limit r).stale ≡ r.stale
unfolding evicted
evicted_stale limit r = refl

find-drop :
    (k : Name) (n : ℕ) (l : Shelf)
    → find Name-discrete k l ≡ none
    → find Name-discrete k (drop n l) ≡ none
unfolding find
find-drop k zero l h = h
find-drop k (suc n) [] h = h
find-drop k (suc n) ((j, e) ∷ l) h = elim (Name-discrete j k) [
  | yes same ↦ none_some h (if_pos (Name-discrete j k) same _ _)
  | no ne ↦ find-drop k n l (sym (if_neg (Name-discrete j k) ne _ _) ∙ h)
]

drop-append_le : (n : ℕ) (xs ys : Shelf) → n ≤ length xs → drop n (xs ++ ys) ≡ drop n xs ++ ys
drop-append_le zero xs ys h = refl
drop-append_le (suc n) [] ys h = absurd (omega arith)
drop-append_le (suc n) (x ∷ xs) ys h = drop-append_le n xs ys (omega arith)

pub latest-append :
    (n : ℕ) (l : Shelf) (x : Name × Kept)
    → 1 ≤ n
    → latest n (l ++ (x ∷ [])) ≡ latest (n - 1) l ++ (x ∷ [])
latest-append n l x h =
    ap (λ (k : ℕ). drop k (l ++ (x ∷ [])))
      (let z : length (l ++ (x ∷ [])) - n ≡ length l - (n - 1) =
          omega (arith, length-append l (x ∷ [])) in
        z)
    ∙ drop-append_le (length l - (n - 1)) l (x ∷ []) (omega arith)

pub find-evicted :
    (limit : ℕ) (r : Resolver) (k : Name)
    → Lists Name-discrete r.cache r.lru
    → find Name-discrete k r.cache ≡ none
    → find Name-discrete k (evicted limit r).cache ≡ none
find-evicted limit r k l h =
    let m = evicted-shelf limit r l in
    sym (entries-find Name-discrete k (evicted limit r).cache (evicted limit r).lru m.0)
    ∙ ap (find Name-discrete k) m.2
    ∙ find-drop k (length (shelf_of r) - limit) (shelf_of r)
        (entries-find Name-discrete k r.cache r.lru l ∙ h)
