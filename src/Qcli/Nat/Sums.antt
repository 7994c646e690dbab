-- ===== src/Qcli/Nat/Sums.antt =====
-- internal/qcli/nat/nat.go, csumUpdate: the incremental update of a checksum, and the sum of the changed
-- packet.
use qd.Prelude.{
  ℕ, suc, ◌+◌, ◌-◌, ◌*◌, ◌/◌, ◌%◌, ◌^◌, ◌≤◌, ◌<◌, ◌≡◌, ap, sym, ◌∙◌, List, [], ◌∷◌, length, arith,
  dec_lt,
}
use qd.Ippkt.Checksum.{
  fold-canon, word_sum, canon, canon_le, canon_cong, canon_quotient, canon-eq-zero, IsBytes,
}
use qd.Qcli.Nat.{update_loop, csum_update, flip16}

-- Two addresses of one family: as many bytes, in whole words.
abbrev pub Aligned : List ℕ → List ℕ → Type 0
Aligned [] [] = Unit {0}
Aligned (a ∷ b ∷ old) (c ∷ d ∷ new) = Aligned old new
Aligned _ _ = ⊥

abbrev words : List ℕ → ℕ
words [] = 0
words (a ∷ []) = 0
words (a ∷ b ∷ rest) = suc (words rest)

-- Each round adds the complement of an old word and a new word.
update_loop_lem :
    (old new : List ℕ) (s : ℕ)
    → Aligned old new
    → IsBytes old
    → IsBytes new
    → s + 131070 * words old < 2 ^ 32
    → update_loop s old new + word_sum old ≡ s + 65535 * words old + word_sum new
unfolding update_loop word_sum
update_loop_lem [] [] s al ho hn fits = omega arith
update_loop_lem [] (c ∷ new) s al ho hn fits = elim al [ ]
update_loop_lem (a ∷ []) [] s al ho hn fits = elim al [ ]
update_loop_lem (a ∷ []) (c ∷ new) s al ho hn fits = elim al [ ]
update_loop_lem (a ∷ b ∷ old) [] s al ho hn fits = elim al [ ]
update_loop_lem (a ∷ b ∷ old) (c ∷ []) s al ho hn fits = elim al [ ]
update_loop_lem (a ∷ b ∷ old) (c ∷ d ∷ new) s al ho hn fits =
    let t = s + flip16 (a * 256 + b) + (c * 256 + d) in
    let a_byte : a < 256 = ho.0 in
    let b_byte : b < 256 = ho.1.0 in
    let c_byte : c < 256 = hn.0 in
    let d_byte : d < 256 = hn.1.0 in
    let same : t % 2 ^ 32 ≡ t = omega arith in
    rw same (omega (arith, update_loop_lem old new t al ho.1.1 hn.1.1 (omega arith)))

-- Whole words, each below 65536.
words_bound :
    (old new : List ℕ)
    → Aligned old new
    → IsBytes old
    → (word_sum old ≤ 65535 * words old) × (words old + words old ≤ length old)
unfolding word_sum
words_bound [] new al h = omega arith
words_bound (a ∷ []) [] al h = elim al [ ]
words_bound (a ∷ []) (c ∷ new) al h = elim al [ ]
words_bound (a ∷ b ∷ old) [] al h = elim al [ ]
words_bound (a ∷ b ∷ old) (c ∷ []) al h = elim al [ ]
words_bound (a ∷ b ∷ old) (c ∷ d ∷ new) al h = omega (arith, words_bound old new al h.1.1)

new_bound : (old new : List ℕ) → Aligned old new → IsBytes new → word_sum new ≤ 65535 * words old
unfolding word_sum
new_bound [] [] al h = omega arith
new_bound [] (c ∷ new) al h = elim al [ ]
new_bound (a ∷ []) [] al h = elim al [ ]
new_bound (a ∷ []) (c ∷ new) al h = elim al [ ]
new_bound (a ∷ b ∷ old) [] al h = elim al [ ]
new_bound (a ∷ b ∷ old) (c ∷ []) al h = elim al [ ]
new_bound (a ∷ b ∷ old) (c ∷ d ∷ new) al h = omega (arith, new_bound old new al h.1.1)

-- With the old words taken out of the sum and the new ones put in, the representative is that of
-- the updated sum.
update_canon :
    (total k old new s : ℕ)
    → old ≤ total
    → old ≤ 65535 * k
    → 1 ≤ total - old + new
    → s + old ≡ canon total + 65535 * k + new
    → canon s ≡ canon (total - old + new)
update_canon total k old new s held complement pos e =
    let q = (total - 1) / 65535 in
    let whole = canon_quotient total in
    let positive : 1 ≤ s = elim (dec_lt 0 s) [
      | yes h ↦ h
      | no h ↦ let none = canon-eq-zero total (omega arith) in absurd (omega arith)
    ] in
    elim (dec_lt q k) [
      | yes less ↦ sym (canon_cong (total - old + new) s (k - q) pos (omega arith))
      | no more ↦ canon_cong s (total - old + new) (q - k) positive (omega arith)
    ]

-- Where a checksum is the complement of the sum `total`, which contains the words of the address
-- `old`, csumUpdate gives the complement of the sum with `new` in its place: for addresses of
-- whole words, equally long, of at most 16 bytes, and a new sum that is not 0.
pub csum_update-canon :
    (total : ℕ) (old new : List ℕ)
    → Aligned old new
    → IsBytes old
    → IsBytes new
    → length old ≤ 16
    → word_sum old ≤ total
    → 1 ≤ total - word_sum old + word_sum new
    → csum_update (65535 - canon total) old new
      ≡ 65535 - canon (total - word_sum old + word_sum new)
unfolding csum_update
csum_update-canon total old new al ho hn short held pos =
    let start : flip16 (65535 - canon total) ≡ canon total = omega (arith, canon_le total) in
    let (complement, whole) = words_bound old new al ho in
    let other = new_bound old new al hn in
    let few : words old ≤ 8 = omega arith in
    let e = update_loop_lem old new (canon total) al ho hn (omega (arith, canon_le total)) in
    let s = update_loop (canon total) old new in
    rw start (
      ap flip16 (
        fold-canon s (omega (arith, canon_le total))
        ∙ update_canon total (words old) (word_sum old) (word_sum new) s held complement pos e))
