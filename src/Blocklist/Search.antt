-- ===== src/Blocklist/Search.antt =====
-- internal/blocklist/blocklist.go, Blocked: its binary search over the hashes of a list.
use qd.Prelude.{
  ℕ, zero, suc, ◌+◌, ◌/◌, ◌≤◌, ◌<◌, ◌≡◌, refl, ◌⊎◌, inl, inr, true, List, ltb, leb, length, get_or,
  arith, Bool-cases,
}
use qd.Blocklist.{search_loop, listed}

-- The place behind the last, or one whose number is not below `h`.
abbrev Bound : ℕ → List ℕ → ℕ → Type 0
Bound h hashes j = (h ≤ get_or hashes j 0) ⊎ (j ≡ length hashes)

module _ (h k : ℕ) (hashes : List ℕ)
    (sorted : (a b : ℕ) → a ≤ b → b < length hashes → get_or hashes a 0 ≤ get_or hashes b 0)
    (inside : k < length hashes) (there : get_or hashes k 0 ≡ h) where
  -- A search that starts at or before a place of `h` ends at or before it, on a number not below `h`.
  search_loop-first :
      (f i j : ℕ)
      → i ≤ k
      → i ≤ j
      → j ≤ length hashes
      → j ≤ i + f
      → Bound h hashes j
      → (search_loop f h hashes i j ≤ k) × (h ≤ get_or hashes (search_loop f h hashes i j) 0)
  unfolding search_loop
  search_loop-first zero i j low order high fuel bound =
      let same : i ≡ j = omega arith in
      (low, elim bound [ inl b ↦ rw same b | inr e ↦ absurd (omega arith) ])
  search_loop-first (suc f) i j low order high fuel bound =
      let mid = (i + j) / 2 in
      elim (Bool-cases (leb j i)) [
        | inl done ↦
            let same : i ≡ j = ground arith in
            rw done (low, elim bound [ inl b ↦ rw same b | inr e ↦ absurd (omega arith) ])
        | inr more ↦
            let apart : i < j = ground arith in
            elim (Bool-cases (ltb (get_or hashes mid 0) h)) [
              | inl below ↦
                  let less : get_or hashes mid 0 < h = ground arith in
                  let before : mid < k = elim (Bool-cases (leb k mid)) [
                    | inl over ↦
                        let le = sorted k mid (ground arith) (omega arith) in absurd (omega arith)
                    | inr fine ↦ ground arith
                  ] in
                  rw (more, below)
                    (search_loop-first f (mid + 1) j (omega arith) (omega arith) high (omega arith)
                      bound)
              | inr above ↦
                  let least : h ≤ get_or hashes mid 0 = ground arith in
                  rw (more, above)
                    (search_loop-first f i mid low (omega arith) (omega arith) (omega arith)
                      (inl least))
            ]
      ]

  -- In a sorted list the search finds every number that the list holds.
  listed_sorted : listed h hashes ≡ true
  unfolding listed
  listed_sorted =
      let (le, least) =
        search_loop-first (length hashes) 0 (length hashes) (omega arith) (omega arith)
          (omega arith) (omega arith) (inr refl) in
      let most = sorted (search_loop (length hashes) h hashes 0 (length hashes)) k le inside in
      ground arith
