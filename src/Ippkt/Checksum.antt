-- ===== src/Ippkt/Checksum.antt =====
-- internal/ippkt/ippkt.go, Checksum: the Internet checksum over 16-bit words, in a uint32 whose
-- carries are folded back. A sum of words is congruent to its fold modulo 65535.
use qd.Prelude.{
  ℕ, zero, suc, ◌+◌, ◌-◌, ◌*◌, ◌/◌, ◌%◌, ◌^◌, ◌≤◌, ◌<◌, ◌≡◌, ap, ◌∙◌, List, [], ◌∷◌, ◌==◌, ltb,
  if◌then◌else◌, length, arith, All, get_or, set, take, drop, ◌++◌,
}

-- The loop over the words, then the odd byte. The sum is a uint32.
unfoldable pub sum_loop : ℕ → List ℕ → ℕ
sum_loop sum [] = sum
sum_loop sum (a ∷ []) = (sum + a * 256) % 2 ^ 32
sum_loop sum (a ∷ b ∷ rest) = sum_loop ((sum + (a * 256 + b)) % 2 ^ 32) rest

-- `for sum > 0xFFFF { sum = (sum & 0xFFFF) + (sum >> 16) }`, over the rounds left.
unfoldable pub fold : ℕ → ℕ → ℕ
fold zero sum = sum
fold (suc n) sum =
    let again = fold n (sum % 65536 + sum / 65536) in if ltb 65535 sum then again else sum

-- A uint32 takes two rounds at most.
abbrev pub fold_rounds : ℕ
fold_rounds = 2

-- `^uint16(sum)`
unfoldable pub checksum : List ℕ → ℕ
checksum b = 65535 - fold fold_rounds (sum_loop 0 b) % 65536

-- Checksum6: the pseudo-header of addresses, length and protocol in front of the message.
unfoldable pub checksum6 : List ℕ → ℕ
checksum6 pkt =
    let msg = drop 40 pkt in
    let n = length msg in
    checksum (
      take 32 (drop 8 pkt)
      ++ (n / 2 ^ 24 % 256
          ∷ n / 2 ^ 16 % 256
          ∷ n / 256 % 256
          ∷ n % 256
          ∷ 0
          ∷ 0
          ∷ 0
          ∷ get_or pkt 6 0
          ∷ [])
      ++ msg)

-- The words of a list, added up.
unfoldable pub word_sum : List ℕ → ℕ
word_sum [] = 0
word_sum (a ∷ []) = a * 256
word_sum (a ∷ b ∷ rest) = a * 256 + b + word_sum rest

-- The representative of a sum modulo 65535 that folding picks: 65535 in place of 0, but for 0.
unfoldable pub canon : ℕ → ℕ
canon s = if s == 0 then 0 else (s - 1) % 65535 + 1

-- The loop ends: two rounds bring every uint32 to the representative of its value modulo 65535,
-- which fits 16 bits.
pub fold-canon : (s : ℕ) → s < 2 ^ 32 → fold fold_rounds s ≡ canon s
unfolding fold canon
fold-canon s h = ground arith

pub canon_le : (s : ℕ) → canon s ≤ 65535
unfolding canon
canon_le s = ground arith

-- Positive sums that agree modulo 65535 have one representative.
pub canon_cong : (s t k : ℕ) → 1 ≤ s → s + 65535 * k ≡ t → canon s ≡ canon t
unfolding canon
canon_cong s t k pos e = ground arith

pub canon_quotient : (s : ℕ) → s ≡ canon s + 65535 * ((s - 1) / 65535)
unfolding canon
canon_quotient s = ground arith

pub canon-eq-zero : (s : ℕ) → canon s ≡ 0 → s ≡ 0
unfolding canon
canon-eq-zero s h = ground arith

-- What is missing to 65535 fills a positive sum up to 65535.
pub canon_fill : (s : ℕ) → canon (s + (65535 - canon s)) ≡ 65535
unfolding canon
canon_fill s = ground arith

abbrev pub IsBytes : List ℕ → Type 0
IsBytes = All (λ (x : ℕ). x < 256)

word_sum-le : (b : List ℕ) → IsBytes b → word_sum b ≤ length b * 65535
unfolding word_sum
word_sum-le [] h = omega arith
word_sum-le (a ∷ []) h = omega arith
word_sum-le (a ∷ c ∷ rest) h = omega (arith, word_sum-le rest h.1.1)

sum_loop-word_sum : (s : ℕ) (b : List ℕ) → s + word_sum b < 2 ^ 32 → sum_loop s b ≡ s + word_sum b
unfolding sum_loop word_sum
sum_loop-word_sum s [] h = omega arith
sum_loop-word_sum s (a ∷ []) h = omega arith
sum_loop-word_sum s (a ∷ c ∷ rest) h =
    let small : (s + (a * 256 + c)) % 2 ^ 32 ≡ s + (a * 256 + c) = omega arith in
    rw small (omega (arith, sum_loop-word_sum (s + (a * 256 + c)) rest (omega arith)))

pub fold-word_sum :
    (b : List ℕ)
    → IsBytes b
    → length b ≤ 65535
    → fold fold_rounds (sum_loop 0 b) ≡ canon (word_sum b)
fold-word_sum b h short =
    let small : word_sum b < 2 ^ 32 = omega (arith, word_sum-le b h) in
    let start : 0 + word_sum b ≡ word_sum b = omega arith in
    ap (fold fold_rounds) (sum_loop-word_sum 0 b (omega arith) ∙ start)
    ∙ fold-canon (word_sum b) small

-- On at most 65535 bytes the uint32 does not wrap: the checksum is the complement of the
-- representative of the sum of the words.
pub checksum-canon :
    (b : List ℕ) → IsBytes b → length b ≤ 65535 → checksum b ≡ 65535 - canon (word_sum b)
unfolding checksum
checksum-canon b h short = rw (fold-word_sum b h short) (omega (arith, canon_le (word_sum b)))

abbrev pub double : ℕ → ℕ
double zero = zero
double (suc k) = suc (suc (double k))

-- Writing a word at an even place changes the sum by the two words.
pub word_sum-put :
    (b : List ℕ) (k v : ℕ)
    → v < 65536
    → suc (double k) < length b
    → word_sum (set (set b (double k) (v / 256 % 256)) (suc (double k)) (v % 256))
        + (get_or b (double k) 0 * 256 + get_or b (suc (double k)) 0)
      ≡ word_sum b + v
unfolding word_sum
word_sum-put [] k v hv h = absurd (omega arith)
word_sum-put (a ∷ []) zero v hv h = absurd (omega arith)
word_sum-put (a ∷ []) (suc k) v hv h = absurd (omega arith)
word_sum-put (a ∷ c ∷ rest) zero v hv h = omega arith
word_sum-put (a ∷ c ∷ rest) (suc k) v hv h = omega (arith, word_sum-put rest k v hv (omega arith))
