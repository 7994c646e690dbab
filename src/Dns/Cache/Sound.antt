-- ===== src/Dns/Cache/Sound.antt =====
-- internal/dnsproxy/dnsproxy.go, Resolver: the map and the list of its keys.
use qd.Prelude.{
  suc, ◌≡◌, refl, sym, ap, ◌∙◌, inl, inr, none, some, is_some, List, [], ◌∷◌, ◌++◌, length,
  none_some, known_twice, Option-cases,
}
use qd.Prelude.Dict.{
  find, put, remove, find-put, find-remove, find-put_ne, find-remove_ne, Unique, put-Unique,
  remove-Unique,
}
use mathlib.Core.Logic.{if_pos, if_neg}
use qd.Dns.Cache.Recency.{
  among, without, among-without, among-append, without-Apart, append-Apart, entries, entries_cons,
  entries-remove, Lists, only, find-entries,
}

module _ {K V : Type 0} (dec : Discrete K) where
  pub remove-absent : (k : K) (m : List (K × V)) → find dec k m ≡ none → remove dec k m ≡ m
  unfolding find remove
  remove-absent k [] h = refl
  remove-absent k ((j, v) ∷ m) h = elim (dec j k) [
    | yes e ↦ none_some h (if_pos (dec j k) e _ _)
    | no ne ↦
        if_neg (dec j k) ne _ _
        ∙ ap (λ (r : List (K × V)). (j, v) ∷ r)
            (remove-absent k m (sym (if_neg (dec j k) ne _ _) ∙ h))
  ]

  length-remove :
      (k : K) (v : V) (m : List (K × V))
      → Unique dec m
      → find dec k m ≡ some v
      → suc (length (remove dec k m)) ≡ length m
  unfolding find remove
  length-remove k v [] u h = none_some refl h
  length-remove k v ((j, w) ∷ m) u h = elim (dec j k) [
    | yes e ↦
        ap (λ (r : List (K × V)). suc (length r))
          (if_pos (dec j k) e _ _ ∙ remove-absent k m (ap (λ (i : K). find dec i m) (sym e) ∙ u.0))
    | no ne ↦
        ap (λ (r : List (K × V)). suc (length r)) (if_neg (dec j k) ne _ _)
        ∙ ap suc (length-remove k v m u.1 (sym (if_neg (dec j k) ne _ _) ∙ h))
  ]

  pub tail-Lists :
      (k : K) (m : List (K × V)) (ks : List K)
      → Lists dec m (k ∷ ks)
      → Lists dec (remove dec k m) ks
  unfolding among
  tail-Lists k m ks l = record {
    unique = remove-Unique dec k m l.unique;
    apart = l.apart.1;
    same = λ j. elim (dec k j) [
      | yes e ↦
          ap (λ (i : K). among dec i ks) (sym e)
          ∙ l.apart.0
          ∙ ap is_some (sym (find-remove dec k j m ∙ if_pos (dec k j) e _ _))
      | no ne ↦
          sym (if_neg (dec k j) ne _ _) ∙ l.same j ∙ ap is_some (sym (find-remove_ne dec k j m ne))
    ];
  }

  pub head_found :
      (k : K) (m : List (K × V)) (ks : List K)
      → Lists dec m (k ∷ ks)
      → (v : V) × (find dec k m ≡ some v)
  unfolding among
  head_found k m ks l = elim (Option-cases (find dec k m)) [
    | inl f ↦ known_twice (l.same k ∙ ap is_some f) (if_pos (dec k k) refl _ _)
    | inr g ↦ g
  ]

  pub length-Lists : (m : List (K × V)) (ks : List K) → Lists dec m ks → length m ≡ length ks
  unfolding among find
  length-Lists [] [] l = refl
  length-Lists ((k, v) ∷ m) [] l =
      known_twice refl (l.same k ∙ ap is_some (if_pos (dec k k) refl _ _))
  length-Lists m (k ∷ ks) l =
      let (v, f) = head_found k m ks l in
      sym (length-remove k v m l.unique f)
      ∙ ap suc (length-Lists (remove dec k m) ks (tail-Lists k m ks l))

  pub length-entries :
      (m : List (K × V)) (ks : List K) → Lists dec m ks → length (entries dec ks m) ≡ length ks
  length-entries m [] l = unfold entries in refl
  length-entries m (k ∷ ks) l =
      let (v, f) = head_found k m ks l in
      ap length (entries_cons dec k v ks m f)
      ∙ ap suc (
          ap length (sym (entries-remove dec k ks m l.apart.0))
          ∙ length-entries (remove dec k m) ks (tail-Lists k m ks l))

  -- Using a key: its entry is written, and it goes to the end.
  pub used-Lists :
      (k : K) (v w : V) (m : List (K × V)) (ks : List K)
      → Lists dec m ks
      → find dec k m ≡ some w
      → Lists dec (put dec k v m) (without dec k ks ++ (k ∷ []))
  used-Lists k v w m ks l h = record {
    unique = put-Unique dec k v m l.unique;
    apart =
        append-Apart dec k (without dec k ks) (without-Apart dec k ks l.apart)
          (among-without dec k k ks ∙ if_pos (dec k k) refl _ _);
    same = λ j. among-append dec j k (without dec k ks) ∙ elim (dec k j) [
      | yes e ↦
          if_pos (dec k j) e _ _ ∙ ap is_some (sym (find-put dec k j v m ∙ if_pos (dec k j) e _ _))
      | no ne ↦
          if_neg (dec k j) ne _ _
          ∙ among-without dec k j ks
          ∙ if_neg (dec k j) ne _ _
          ∙ l.same j
          ∙ ap is_some (sym (find-put_ne dec k j v m ne))
    ];
  }

  pub added-Lists :
      (k : K) (v : V) (m : List (K × V)) (ks : List K)
      → Lists dec m ks
      → find dec k m ≡ none
      → Lists dec (put dec k v m) (ks ++ (k ∷ []))
  added-Lists k v m ks l h = record {
    unique = put-Unique dec k v m l.unique;
    apart = append-Apart dec k ks l.apart (l.same k ∙ ap is_some h);
    same = λ j. among-append dec j k ks ∙ elim (dec k j) [
      | yes e ↦
          if_pos (dec k j) e _ _ ∙ ap is_some (sym (find-put dec k j v m ∙ if_pos (dec k j) e _ _))
      | no ne ↦ if_neg (dec k j) ne _ _ ∙ l.same j ∙ ap is_some (sym (find-put_ne dec k j v m ne))
    ];
  }

  pub dropped-Lists :
      (k : K) (m : List (K × V)) (ks : List K)
      → Lists dec m ks
      → Lists dec (remove dec k m) (without dec k ks)
  dropped-Lists k m ks l = record {
    unique = remove-Unique dec k m l.unique;
    apart = without-Apart dec k ks l.apart;
    same = λ j. among-without dec k j ks ∙ elim (dec k j) [
      | yes e ↦
          if_pos (dec k j) e _ _ ∙ ap is_some (sym (find-remove dec k j m ∙ if_pos (dec k j) e _ _))
      | no ne ↦ if_neg (dec k j) ne _ _ ∙ l.same j ∙ ap is_some (sym (find-remove_ne dec k j m ne))
    ];
  }

  -- A lookup among the entries is one in the map.
  pub entries-find :
      (k : K) (m : List (K × V)) (ks : List K)
      → Lists dec m ks
      → find dec k (entries dec ks m) ≡ find dec k m
  unfolding only
  entries-find k m ks l = find-entries dec k ks m ∙ elim (Option-cases (find dec k m)) [
    | inl f ↦ rw (l.same k, f) refl
    | inr (v, f) ↦ rw (l.same k, f) refl
  ]

  -- A write of the entry of a key at its place.
  pub written-Lists :
      (k : K) (v w : V) (m : List (K × V)) (ks : List K)
      → Lists dec m ks
      → find dec k m ≡ some w
      → Lists dec (put dec k v m) ks
  written-Lists k v w m ks l h = record {
    unique = put-Unique dec k v m l.unique;
    apart = l.apart;
    same = λ j. l.same j ∙ elim (dec k j) [
      | yes e ↦
          ap is_some (ap (λ (i : K). find dec i m) (sym e) ∙ h)
          ∙ ap is_some (sym (find-put dec k j v m ∙ if_pos (dec k j) e _ _))
      | no ne ↦ ap is_some (sym (find-put_ne dec k j v m ne))
    ];
  }
