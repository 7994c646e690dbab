-- ===== src/Dns/Cache/Recency.antt =====
-- internal/dnsproxy/dnsproxy.go, Resolver: a map and the list of its keys in the order of use.
use qd.Prelude.{
  ◌≡◌, ◌≢◌, refl, sym, ap, ◌∙◌, inl, inr, Bool, true, false, Option, none, some, is_some, List, [],
  ◌∷◌, ◌++◌, ite, arith, known_twice, Option-cases,
}
use qd.Prelude.Dict.{find, put, remove, find-put_ne, find-remove_ne, Unique}
use mathlib.Core.Logic.{if_pos, if_neg}

module _ {K : Type 0} (dec : Discrete K) where
  unfoldable pub among : K → List K → Bool
  among k [] = false
  among k (j ∷ ks) = ite (dec j k) true (among k ks)

  unfoldable pub without : K → List K → List K
  without k [] = []
  without k (j ∷ ks) = ite (dec j k) (without k ks) (j ∷ without k ks)

  abbrev pub Apart : List K → Type 0
  Apart [] = Unit {0}
  Apart (k ∷ ks) = (among k ks ≡ false) × Apart ks

  pub among-without :
      (k j : K) (ks : List K) → among j (without k ks) ≡ ite (dec k j) false (among j ks)
  unfolding among without
  among-without k j [] = ground arith
  among-without k j (i ∷ ks) = ground (arith, among-without k j ks)

  pub among-append :
      (j k : K) (ks : List K) → among j (ks ++ (k ∷ [])) ≡ ite (dec k j) true (among j ks)
  unfolding among
  among-append j k [] = refl
  among-append j k (i ∷ ks) = ground (arith, among-append j k ks)

  pub among_tail :
      (k j : K) (ks : List K) → among k (j ∷ ks) ≡ false → (j ≢ k) × (among k ks ≡ false)
  unfolding among
  among_tail k j ks h = elim (dec j k) [
    | yes e ↦ known_twice h (if_pos (dec j k) e _ _)
    | no ne ↦ (ne, sym (if_neg (dec j k) ne _ _) ∙ h)
  ]

  pub without-Apart : (k : K) (ks : List K) → Apart ks → Apart (without k ks)
  unfolding without
  without-Apart k [] h = tt
  without-Apart k (j ∷ ks) h = elim (dec j k) [
    | yes e ↦ rw (if_pos _ e) (without-Apart k ks h.1)
    | no ne ↦
        rw (if_neg _ ne) (
          among-without k j ks ∙ rw (if_neg (dec k j) (λ e. ne (sym e))) h.0,
          without-Apart k ks h.1,
        )
  ]

  pub append-Apart : (k : K) (ks : List K) → Apart ks → among k ks ≡ false → Apart (ks ++ (k ∷ []))
  append-Apart k [] h free = (unfold among in refl, tt)
  append-Apart k (j ∷ ks) h free =
      let t = among_tail k j ks free in
      (
        among-append j k ks ∙ rw (if_neg (dec k j) (λ e. t.0 (sym e))) h.0,
        append-Apart k ks h.1 t.1,
      )

module _ {K V : Type 0} (dec : Discrete K) where
  unfoldable pub only : Bool → Option V → Option V
  only true o = o
  only false o = none

  -- The entries in the order of the list.
  unfoldable pub entries : List K → List (K × V) → List (K × V)
  entries [] m = []
  entries (k ∷ ks) m =
      let rest = entries ks m in elim (find dec k m) [ none ↦ rest | some v ↦ (k, v) ∷ rest ]

  -- The list has each key of the map once.
  pub record Lists (m : List (K × V)) (ks : List K) : Type 0 where
    pub unique : Unique dec m
    pub apart : Apart dec ks
    pub same : (k : K) → among dec k ks ≡ is_some (find dec k m)

  pub entries_cons :
      (j : K) (v : V) (ks : List K) (m : List (K × V))
      → find dec j m ≡ some v
      → entries (j ∷ ks) m ≡ ((j, v) ∷ entries ks m)
  unfolding entries
  entries_cons j v ks m h = rw (h, entries) refl

  pub entries_skip :
      (j : K) (ks : List K) (m : List (K × V))
      → find dec j m ≡ none
      → entries (j ∷ ks) m ≡ entries ks m
  unfolding entries
  entries_skip j ks m h = rw (h, entries) refl

  entries_tail :
      (j : K) (ks is : List K) (m n : List (K × V))
      → find dec j m ≡ find dec j n
      → entries ks m ≡ entries is n
      → entries (j ∷ ks) m ≡ entries (j ∷ is) n
  entries_tail j ks is m n h e = elim (Option-cases (find dec j m)) [
    | inl f ↦ entries_skip j ks m f ∙ e ∙ sym (entries_skip j is n (sym h ∙ f))
    | inr (v, f) ↦
        entries_cons j v ks m f
        ∙ ap (λ (r : List (K × V)). (j, v) ∷ r) e
        ∙ sym (entries_cons j v is n (sym h ∙ f))
  ]

  -- Entries for keys off the list do not count.
  pub entries-put :
      (k : K) (v : V) (ks : List K) (m : List (K × V))
      → among dec k ks ≡ false
      → entries ks (put dec k v m) ≡ entries ks m
  entries-put k v [] m free = unfold entries in refl
  entries-put k v (j ∷ ks) m free =
      let t = among_tail dec k j ks free in
      entries_tail j ks ks (put dec k v m) m (find-put_ne dec k j v m (λ e. t.0 (sym e)))
        (entries-put k v ks m t.1)

  pub entries-remove :
      (k : K) (ks : List K) (m : List (K × V))
      → among dec k ks ≡ false
      → entries ks (remove dec k m) ≡ entries ks m
  entries-remove k [] m free = unfold entries in refl
  entries-remove k (j ∷ ks) m free =
      let t = among_tail dec k j ks free in
      entries_tail j ks ks (remove dec k m) m (find-remove_ne dec k j m (λ e. t.0 (sym e)))
        (entries-remove k ks m t.1)

  -- Taking the key off the list takes its entry off the entries.
  pub entries-without :
      (k : K) (ks : List K) (m : List (K × V))
      → entries (without dec k ks) m ≡ remove dec k (entries ks m)
  unfolding without remove
  entries-without k [] m = unfold entries in refl
  entries-without k (j ∷ ks) m = elim (Option-cases (find dec j m)) [
    | inl f ↦ rw (entries_skip j ks m f) (elim (dec j k) [
      | yes e ↦ rw (if_pos (dec j k) e) (entries-without k ks m)
      | no ne ↦
          rw (if_neg (dec j k) ne) (entries_skip j (without dec k ks) m f ∙ entries-without k ks m)
    ])
    | inr (v, f) ↦ rw (entries_cons j v ks m f) (elim (dec j k) [
      | yes e ↦ rw (if_pos (dec j k) e, if_pos (dec j k) e) (entries-without k ks m)
      | no ne ↦
          rw (if_neg (dec j k) ne, if_neg (dec j k) ne)
            (entries_cons j v (without dec k ks) m f
              ∙ ap (λ (r : List (K × V)). (j, v) ∷ r) (entries-without k ks m))
    ])
  ]

  pub entries-append :
      (k : K) (v : V) (ks : List K) (m : List (K × V))
      → find dec k m ≡ some v
      → entries (ks ++ (k ∷ [])) m ≡ entries ks m ++ ((k, v) ∷ [])
  entries-append k v [] m h = entries_cons k v [] m h ∙ (unfold entries in refl)
  entries-append k v (j ∷ ks) m h = elim (Option-cases (find dec j m)) [
    | inl f ↦
        entries_skip j (ks ++ (k ∷ [])) m f
        ∙ entries-append k v ks m h
        ∙ ap (λ (r : List (K × V)). r ++ ((k, v) ∷ [])) (sym (entries_skip j ks m f))
    | inr (w, f) ↦
        entries_cons j w (ks ++ (k ∷ [])) m f
        ∙ ap (λ (r : List (K × V)). (j, w) ∷ r) (entries-append k v ks m h)
        ∙ ap (λ (r : List (K × V)). r ++ ((k, v) ∷ [])) (sym (entries_cons j w ks m f))
  ]

  only-none : (b : Bool) → only b none ≡ none
  unfolding only
  only-none true = refl
  only-none false = refl

  pub find-entries :
      (k : K) (ks : List K) (m : List (K × V))
      → find dec k (entries ks m) ≡ only (among dec k ks) (find dec k m)
  unfolding among find only
  find-entries k [] m = unfold entries in refl
  find-entries k (j ∷ ks) m = elim (Option-cases (find dec j m)) [
    | inl f ↦ rw (entries_skip j ks m f) (elim (dec j k) [
      | yes e ↦ rw (if_pos (dec j k) e) (
          find-entries k ks m
          ∙ (let gone : find dec k m ≡ none = ap (λ (i : K). find dec i m) (sym e) ∙ f in
              rw gone (only-none (among dec k ks))))
      | no ne ↦ rw (if_neg (dec j k) ne) (find-entries k ks m)
    ])
    | inr (v, f) ↦ rw (entries_cons j v ks m f) (elim (dec j k) [
      | yes e ↦ rw (if_pos (dec j k) e, if_pos (dec j k) e) (sym f ∙ ap (λ (i : K). find dec i m) e)
      | no ne ↦ rw (if_neg (dec j k) ne, if_neg (dec j k) ne) (find-entries k ks m)
    ])
  ]
