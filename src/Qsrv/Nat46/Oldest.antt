-- ===== src/Qsrv/Nat46/Oldest.antt =====
-- internal/qsrv/nat46.go: which pair forgetOldestLocked drops, and what it leaves in both maps.
use mathlib.Core.Logic.{ite}
use qd.Prelude.{
  ℕ, ◌+◌, ◌≤◌, ◌<◌, ◌≡◌, refl, ◌⊎◌, inl, inr, none, some, List, [], ◌∷◌, ◌||◌, Bool, true, false,
  not, ltb, arith, All, Bool-cases, known_twice,
}
use qd.Prelude.Dict.{find, find-remove, Unique, Unique-Holds}
use qd.Netip.{Addr, invalid, Addr-discrete, is_known}
use qd.Qsrv.Nat46.{Nat46, Pair, forget_oldest, oldest_from, older, drop_pair, nat_reuse}
use qd.Qsrv.Nat46.Steps.{Candidate, oldest_from-Candidate, overdue, unknown}

-- A pair of the table has an address and was used at some time.
abbrev pub Timed : Addr × Pair → Type 0
Timed (a, p) = (is_known a ≡ true) × (0 < p.used_at)

older_lem :
    (best : Addr × ℕ) (a : Addr) (p : Pair)
    → Timed (a, p)
    → ((older best (a, p)).1 ≤ p.used_at)
      × (0 < (older best (a, p)).1)
      × ((0 < best.1) → (older best (a, p)).1 ≤ best.1)
unfolding older
older_lem best a p h = ground arith

older_known :
    (best : Addr × ℕ) (a : Addr) (p : Pair)
    → Timed (a, p)
    → (is_known best.0 ≡ true) ⊎ (best.1 ≡ 0)
    → is_known (older best (a, p)).0 ≡ true
unfolding older
older_known best a p h k = ground arith

oldest_from-le :
    (es : List (Addr × Pair)) (best : Addr × ℕ)
    → All Timed es
    → 0 < best.1
    → (oldest_from best es).1 ≤ best.1
unfolding oldest_from
oldest_from-le [] best h k = omega arith
oldest_from-le ((a, p) ∷ es) best h k =
    let o = older_lem best a p h.0 in
    let rest = oldest_from-le es (older best (a, p)) h.1 o.1 in let le = o.2 k in omega arith

-- The search ends at a time that no pair's is before.
oldest_from-least :
    (es : List (Addr × Pair)) (best : Addr × ℕ)
    → All Timed es
    → All (λ (e : Addr × Pair). (oldest_from best es).1 ≤ e.1.used_at) es
unfolding oldest_from
oldest_from-least [] best h = tt
oldest_from-least ((a, p) ∷ es) best h =
    let o = older_lem best a p h.0 in
    let le = oldest_from-le es (older best (a, p)) h.1 o.1 in
    (omega arith, oldest_from-least es (older best (a, p)) h.1)

oldest_from-known :
    (es : List (Addr × Pair)) (best : Addr × ℕ)
    → All Timed es
    → is_known best.0 ≡ true
    → is_known (oldest_from best es).0 ≡ true
unfolding oldest_from
oldest_from-known [] best h k = k
oldest_from-known ((a, p) ∷ es) best h k =
    oldest_from-known es (older best (a, p)) h.1 (older_known best a p h.0 (inl k))

young :
    (es : List (Addr × Pair)) (s now : ℕ)
    → now < s + 300
    → All (λ (e : Addr × Pair). s ≤ e.1.used_at) es
    → All (λ (e : Addr × Pair). now < e.1.used_at + 300) es
young [] s now h le = tt
young (e ∷ es) s now h le = (let first = le.0 in omega arith, young es s now h le.1)

-- A search that finds no address, or one used within the five minutes, meets only such pairs.
refused_young :
    (es : List (Addr × Pair)) (now : ℕ)
    → All Timed es
    → not (is_known (oldest_from (invalid, 0) es).0)
        || ltb now ((oldest_from (invalid, 0) es).1 + nat_reuse)
      ≡ true
    → All (λ (e : Addr × Pair). now < e.1.used_at + 300) es
unfolding oldest_from
refused_young [] now h r = tt
refused_young ((a, p) ∷ es) now h r =
    let best = older (invalid, 0) (a, p) in
    let known : is_known (oldest_from best es).0 ≡ true =
      oldest_from-known es best h.1 (older_known (invalid, 0) a p h.0 (inr refl)) in
    let late : now < (oldest_from best es).1 + 300 = ground arith in
    young ((a, p) ∷ es) (oldest_from best es).1 now late
      (oldest_from-least ((a, p) ∷ es) (invalid, 0) h)

-- What becomes of the table, seen at the addresses `b` and `w` of its two maps.
abbrev pub Forgets : Nat46 → ℕ → Addr → Addr → Nat46 × Bool → Type 0
Forgets n now b w (m, freed) =
    ((freed ≡ false) × (m ≡ n) × All (λ (e : Addr × Pair). now < e.1.used_at + 300) n.by_v4)
    ⊎ ((a : Addr) × (p : Pair) × (freed ≡ true)
        × (find Addr-discrete a n.by_v4 ≡ some p)
        × (p.used_at + 300 ≤ now)
        × All (λ (e : Addr × Pair). p.used_at ≤ e.1.used_at) n.by_v4
        × (find Addr-discrete b m.by_v4
            ≡ ite (Addr-discrete a b) none (find Addr-discrete b n.by_v4))
        × (find Addr-discrete w m.by_v6
            ≡ ite (Addr-discrete p.v6 w) none (find Addr-discrete w n.by_v6)))

drop_pair-finds :
    (n : Nat46) (a : Addr) (p : Pair) (b w : Addr)
    → find Addr-discrete a n.by_v4 ≡ some p
    → (find Addr-discrete b (drop_pair n a).by_v4
        ≡ ite (Addr-discrete a b) none (find Addr-discrete b n.by_v4))
      × (find Addr-discrete w (drop_pair n a).by_v6
          ≡ ite (Addr-discrete p.v6 w) none (find Addr-discrete w n.by_v6))
unfolding drop_pair
drop_pair-finds n a p b w e = (
  find-remove Addr-discrete a b n.by_v4,
  rw (e, drop_pair) (find-remove Addr-discrete p.v6 w n.by_v6),
)

-- On a table whose stand-ins are unique and whose pairs have an address and a time of use that
-- is not zero, forgetOldestLocked refuses and changes nothing where every pair was used in the
-- last five minutes; otherwise it drops from both maps one pair that was not, that no other pair
-- was used before, and keeps every other entry of both.
pub forget_oldest-Forgets :
    (n : Nat46) (now : ℕ) (b w : Addr)
    → Unique Addr-discrete n.by_v4
    → All Timed n.by_v4
    → Forgets n now b w (forget_oldest n now)
unfolding forget_oldest
forget_oldest-Forgets n now b w u timed =
    let best = oldest_from (invalid, 0) n.by_v4 in
    let c : Candidate n.by_v4 best =
      oldest_from-Candidate n.by_v4 n.by_v4 (invalid, 0) (Unique-Holds Addr-discrete n.by_v4 u)
        (inl refl) in
    elim (Bool-cases (not (is_known best.0) || ltb now (best.1 + nat_reuse))) [
      | inl refused ↦ rw refused (inl (refl, refl, refused_young n.by_v4 now timed refused))
      | inr go ↦ rw go (elim c [
        | inl no_pair ↦ known_twice (unknown best.0 no_pair) (overdue best.0 best.1 now go).0
        | inr (p, e, same) ↦
            let late = (overdue best.0 best.1 now go).1 in
            let (gone4, gone6) = drop_pair-finds n best.0 p b w e in
            inr (
              best.0,
              p,
              refl,
              e,
              omega arith,
              rw same (oldest_from-least n.by_v4 (invalid, 0) timed),
              gone4,
              gone6,
            )
      ])
    ]
