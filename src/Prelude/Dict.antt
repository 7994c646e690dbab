-- ===== src/Prelude/Dict.antt =====
-- Go's maps as association lists over a key type with decidable equality: a key stands at most
-- once in a map built by `put` and `delete`, and `range` walks the list.
use Prim.Native.Nat.{◌+◌, ◌≤◌, ◌<◌}
use mathlib.Core.Path.{◌≡◌, refl, sym, ap, ◌∙◌}
use mathlib.Core.Logic.{◌≢◌, ite, if_pos, if_neg}
use mathlib.Core.List.{List, [], ◌∷◌}
use mathlib.Core.Option.{Option, none, some}
use native.Mathlib.Omega.{arith}
use qd.Prelude.Lists.{length}
use mathlib.Core.Logic.{inl, inr}
use qd.Prelude.Tests.{none_some, Option-cases}

module _ {ℓ} {K V : Type ℓ} (dec : Discrete K) where
  unfoldable pub find : K → List (K × V) → Option V
  find k [] = none
  find k ((j, v) ∷ m) = ite (dec j k) (some v) (find k m)

  unfoldable pub put : K → V → List (K × V) → List (K × V)
  put k v [] = (k, v) ∷ []
  put k v ((j, w) ∷ m) = ite (dec j k) ((k, v) ∷ m) ((j, w) ∷ put k v m)

  -- Go's `delete`.
  unfoldable pub remove : K → List (K × V) → List (K × V)
  remove k [] = []
  remove k ((j, w) ∷ m) = ite (dec j k) (remove k m) ((j, w) ∷ remove k m)

  pub find-put :
      (k j : K) (v : V) (m : List (K × V)) → find j (put k v m) ≡ ite (dec k j) (some v) (find j m)
  unfolding find put
  find-put k j v [] = refl
  find-put k j v ((i, w) ∷ m) = ground (arith, find-put k j v m)

  pub find-put_self : (k : K) (v : V) (m : List (K × V)) → find k (put k v m) ≡ some v
  find-put_self k v m = ground (arith, find-put k k v m)

  pub find-put_ne : (k j : K) (v : V) (m : List (K × V)) → k ≢ j → find j (put k v m) ≡ find j m
  find-put_ne k j v m h = ground (arith, find-put k j v m)

  pub find-remove :
      (k j : K) (m : List (K × V)) → find j (remove k m) ≡ ite (dec k j) none (find j m)
  unfolding find remove
  find-remove k j [] = ground arith
  find-remove k j ((i, w) ∷ m) = ground (arith, find-remove k j m)

  pub find-remove_self : (k : K) (m : List (K × V)) → find k (remove k m) ≡ none
  find-remove_self k m = ground (arith, find-remove k k m)

  pub find-remove_ne : (k j : K) (m : List (K × V)) → k ≢ j → find j (remove k m) ≡ find j m
  find-remove_ne k j m h = ground (arith, find-remove k j m)

  pub length-remove-le : (k : K) (m : List (K × V)) → length (remove k m) ≤ length m
  unfolding remove
  length-remove-le k [] = omega arith
  length-remove-le k ((j, w) ∷ m) = ground (arith, length-remove-le k m)

  pub length-remove-lt :
      (k : K) (v : V) (m : List (K × V)) → find k m ≡ some v → length (remove k m) < length m
  unfolding find remove
  length-remove-lt k v [] h = absurd (ground arith)
  length-remove-lt k v ((j, w) ∷ m) h = ground (arith, length-remove-le k m, length-remove-lt k v m)

  pub length-put-le : (k : K) (v : V) (m : List (K × V)) → length (put k v m) ≤ length m + 1
  unfolding put
  length-put-le k v [] = omega arith
  length-put-le k v ((j, w) ∷ m) = ground (arith, length-put-le k v m)

  pub length-put_found :
      (k : K) (v w : V) (m : List (K × V)) → find k m ≡ some w → length (put k v m) ≡ length m
  unfolding find put
  length-put_found k v w [] h = absurd (ground arith)
  length-put_found k v w ((j, x) ∷ m) h = ground (arith, length-put_found k v w m)

  -- Every key stands once.
  abbrev pub Unique : List (K × V) → Type ℓ
  Unique [] = Unit {ℓ}
  Unique ((k, v) ∷ m) = (find k m ≡ none) × Unique m

  pub put-Unique : (k : K) (v : V) (m : List (K × V)) → Unique m → Unique (put k v m)
  unfolding put
  put-Unique k v [] u = (unfold find in refl, tt)
  put-Unique k v ((j, w) ∷ m) u = elim (dec j k) [
    | yes e ↦ rw (if_pos _ e) (ap (λ (i : K). find i m) (sym e) ∙ u.0, u.1)
    | no ne ↦ rw (if_neg _ ne) (find-put_ne k j v m (λ e. ne (sym e)) ∙ u.0, put-Unique k v m u.1)
  ]

  pub remove-Unique : (k : K) (m : List (K × V)) → Unique m → Unique (remove k m)
  unfolding remove
  remove-Unique k [] u = tt
  remove-Unique k ((j, w) ∷ m) u = elim (dec j k) [
    | yes e ↦ rw (if_pos _ e) (remove-Unique k m u.1)
    | no ne ↦ rw (if_neg _ ne) (find-remove_ne k j m (λ e. ne (sym e)) ∙ u.0, remove-Unique k m u.1)
  ]

  -- What `range` meets is what a lookup gives.
  abbrev pub Holds : List (K × V) → List (K × V) → Type ℓ
  Holds m [] = Unit {ℓ}
  Holds m ((k, v) ∷ es) = (find k m ≡ some v) × Holds m es

  Holds-cons :
      (j : K) (w : V) (m es : List (K × V)) → find j m ≡ none → Holds m es → Holds ((j, w) ∷ m) es
  unfolding find
  Holds-cons j w m [] free h = tt
  Holds-cons j w m ((k, v) ∷ es) free h = elim (dec j k) [
    | yes e ↦ none_some (sym (ap (λ (i : K). find i m) e) ∙ free) h.0
    | no ne ↦ (rw (if_neg _ ne) h.0, Holds-cons j w m es free h.1)
  ]

  pub Unique-Holds : (m : List (K × V)) → Unique m → Holds m m
  unfolding find
  Unique-Holds [] u = tt
  Unique-Holds ((k, v) ∷ m) u = elim (dec k k) [
    | yes e ↦ (rw (if_pos _ e) refl, Holds-cons k v m m u.0 (Unique-Holds m u.1))
    | no ne ↦ absurd (ne refl)
  ]

module _ {ℓ} {K V : Type ℓ} where
  -- A loop that changes or deletes the entry at hand.
  unfoldable pub keep : (K → V → Option V) → List (K × V) → List (K × V)
  keep f [] = []
  keep f ((j, w) ∷ m) = elim (f j w) [ none ↦ keep f m | some v ↦ (j, v) ∷ keep f m ]

  -- What the loop makes of the entry of a key.
  unfoldable pub kept_at : (K → V → Option V) → K → Option V → Option V
  kept_at f k none = none
  kept_at f k (some v) = f k v

module _ {ℓ} {K V : Type ℓ} (dec : Discrete K) (f : K → V → Option V) where
  find_same : (j k : K) (w : V) (m : List (K × V)) → j ≡ k → find dec k ((j, w) ∷ m) ≡ some w
  unfolding find
  find_same j k w m e = if_pos (dec j k) e _ _

  find_other : (j k : K) (w : V) (m : List (K × V)) → j ≢ k → find dec k ((j, w) ∷ m) ≡ find dec k m
  unfolding find
  find_other j k w m ne = if_neg (dec j k) ne _ _

  keep_gone : (j : K) (w : V) (m : List (K × V)) → f j w ≡ none → keep f ((j, w) ∷ m) ≡ keep f m
  unfolding keep
  keep_gone j w m g = rw (g, keep) refl

  keep_stays :
      (j : K) (w v : V) (m : List (K × V))
      → f j w ≡ some v
      → keep f ((j, w) ∷ m) ≡ ((j, v) ∷ keep f m)
  unfolding keep
  keep_stays j w v m g = rw (g, keep) refl

  keep_absent : (k : K) (m : List (K × V)) → find dec k m ≡ none → find dec k (keep f m) ≡ none
  unfolding find keep
  keep_absent k [] e = refl
  keep_absent k ((j, w) ∷ m) e = elim (dec j k) [
    | yes same ↦ none_some e (find_same j k w m same)
    | no other ↦
        let rest = keep_absent k m (sym (find_other j k w m other) ∙ e) in
        elim (Option-cases (f j w)) [
          | inl g ↦ ap (find dec k) (keep_gone j w m g) ∙ rest
          | inr (v, g) ↦
              ap (find dec k) (keep_stays j w v m g) ∙ find_other j k v (keep f m) other ∙ rest
        ]
  ]

  pub find-keep :
      (k : K) (m : List (K × V)) → Unique dec m → find dec k (keep f m) ≡ kept_at f k (find dec k m)
  unfolding find keep kept_at
  find-keep k [] u = refl
  find-keep k ((j, w) ∷ m) u = elim (dec j k) [
    | yes same ↦
        let at = ap (kept_at f k) (find_same j k w m same) ∙ ap (λ (i : K). f i w) (sym same) in
        elim (Option-cases (f j w)) [
          | inl g ↦
              ap (find dec k) (keep_gone j w m g)
              ∙ keep_absent k m (ap (λ (i : K). find dec i m) (sym same) ∙ u.0)
              ∙ sym (at ∙ g)
          | inr (v, g) ↦
              ap (find dec k) (keep_stays j w v m g)
              ∙ find_same j k v (keep f m) same
              ∙ sym (at ∙ g)
        ]
    | no other ↦
        let rest = find-keep k m u.1 ∙ ap (kept_at f k) (sym (find_other j k w m other)) in
        elim (Option-cases (f j w)) [
          | inl g ↦ ap (find dec k) (keep_gone j w m g) ∙ rest
          | inr (v, g) ↦
              ap (find dec k) (keep_stays j w v m g) ∙ find_other j k v (keep f m) other ∙ rest
        ]
  ]

  pub keep-Unique : (m : List (K × V)) → Unique dec m → Unique dec (keep f m)
  unfolding keep
  keep-Unique [] u = tt
  keep-Unique ((j, w) ∷ m) u = elim (Option-cases (f j w)) [
    | inl g ↦ rw (keep_gone j w m g) (keep-Unique m u.1)
    | inr (v, g) ↦ rw (keep_stays j w v m g) (keep_absent j m u.0, keep-Unique m u.1)
  ]
