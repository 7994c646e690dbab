-- ===== src/Qsrv/Pool/Streams.antt =====
-- internal/qsrv/pool.go: where the stream addresses and the addresses of `take` lie.
use qd.Prelude.{
  ℕ, ◌+◌, ◌-◌, ◌*◌, ◌/◌, ◌%◌, ◌^◌, ◌≤◌, ◌<◌, ◌≡◌, refl, sym, ap, ◌∙◌, arith, true, false, ltb,
  ==_iff,
}
use native.Mathlib.Nat.{div-eq_of_lt-le}
use qd.Prelude.Bits.{bit_or_low, pow_eight, pow_le, pow_pos}
use qd.Netip.{v4, Prefix, contains, prefix_from}
use qd.Qsrv.Pool.{new_pool, stream, stream_tail, tail_top}

-- 1 << h less 1, in uint32.
span_lem : (h : ℕ) → h ≤ 32 → (2 ^ h % 2 ^ 32 + 2 ^ 32 - 1) % 2 ^ 32 ≡ 2 ^ h - 1
span_lem h hi =
    let top : 2 ^ h ≤ 2 ^ 32 = pow_le h 32 hi in
    let low : 1 ≤ 2 ^ h = pow_pos h in omega (arith, top, low)

-- The number of the tail: the last 256 addresses of the base.
tail_top_lem :
    (q j : ℕ) → j ≤ 24 → tail_top (q * 2 ^ (j + 8)) (24 - j) ≡ q * 2 ^ (j + 8) + 2 ^ (j + 8) - 256
unfolding tail_top
tail_top_lem q j hi =
    let width : 32 - (24 - j) ≡ j + 8 = omega arith in
    let low : 1 ≤ 2 ^ (j + 8) = pow_pos (j + 8) in
    rw width (
      rw (span_lem (j + 8) (omega arith)) (
        rw (bit_or_low (j + 8) q (2 ^ (j + 8) - 1) (omega arith)) (rw (pow_eight j) (grind arith))))

-- The base of `j + 8` host bits at the address `m`.
abbrev pub base_at : ℕ → ℕ → Prefix
base_at m j = prefix_from (v4 m) (24 - j)

stream_tail_lem :
    (m j : ℕ)
    → j ≤ 24
    → stream_tail (base_at m j)
      ≡ prefix_from (v4 (m / 2 ^ (j + 8) * 2 ^ (j + 8) + 2 ^ (j + 8) - 256)) 24
unfolding stream_tail prefix_from
stream_tail_lem m j hi =
    let narrow : ltb 24 (24 - j) ≡ false = ground arith in
    let host : 32 - (24 - j) ≡ j + 8 = omega arith in
    rw narrow (rw host (rw (tail_top_lem (m / 2 ^ (j + 8)) j hi) refl))

div_block : (q t x : ℕ) → 1 ≤ t → x < 256 → (256 * (q * t + t - 1) + x) / (256 * t) ≡ q
div_block q t x low h = div-eq_of_lt-le (256 * t) (omega arith) (omega arith)

-- The tail of such a base as 256 times a number.
block : (q j : ℕ) → q * 2 ^ (j + 8) + 2 ^ (j + 8) - 256 ≡ 256 * (q * 2 ^ j + 2 ^ j - 1)
block q j = let low : 1 ≤ 2 ^ j = pow_pos j in rw (pow_eight j) (omega arith)

tail_at :
    (m j : ℕ)
    → j ≤ 24
    → stream_tail (base_at m j) ≡ prefix_from (v4 (256 * (m / 2 ^ (j + 8) * 2 ^ j + 2 ^ j - 1))) 24
tail_at m j hi =
    stream_tail_lem m j hi ∙ ap (λ (t : ℕ). prefix_from (v4 t) 24) (block (m / 2 ^ (j + 8)) j)

abbrev slot : ℕ → ℕ → ℕ → ℕ
slot m j seat = 256 * (m / 2 ^ (j + 8) * 2 ^ j + 2 ^ j - 1) + (seat % 254 + 1)

stream-slot :
    (m j seat : ℕ)
    → j ≤ 24
    → stream (new_pool (base_at m j)) seat ≡ prefix_from (v4 (slot m j seat)) 32
unfolding stream new_pool prefix_from
stream-slot m j seat hi =
    let z = m / 2 ^ (j + 8) * 2 ^ j + 2 ^ j - 1 in
    let whole : 256 * z / 256 * 256 ≡ 256 * z = omega arith in rw (tail_at m j hi) (rw whole)

slot_in_base : (m j seat : ℕ) → j ≤ 24 → contains (base_at m j) (v4 (slot m j seat)) ≡ true
unfolding contains prefix_from
slot_in_base m j seat hi =
    let host : 32 - (24 - j) ≡ j + 8 = omega arith in
    let q = m / 2 ^ (j + 8) in
    let at : slot m j seat / (256 * 2 ^ j) ≡ q =
      div_block q (2 ^ j) (seat % 254 + 1) (pow_pos j) (omega arith) in
    rw host ((==_iff _ _).1 (sym (rw (← pow_eight j) at at)))

slot_in_tail :
    (m j seat : ℕ) → j ≤ 24 → contains (stream_tail (base_at m j)) (v4 (slot m j seat)) ≡ true
unfolding contains prefix_from
slot_in_tail m j seat hi =
    rw (tail_at m j hi)
      ((==_iff _ _).1 (let z = m / 2 ^ (j + 8) * 2 ^ j + 2 ^ j - 1 in omega arith))

-- For a base of 2^8 to 2^32 addresses, every stream address lies in the base, in the reserved
-- tail, and ends in an octet from 1 to 254.
pub stream_placed :
    (m j seat : ℕ)
    → j ≤ 24
    → (n : ℕ) × (stream (new_pool (base_at m j)) seat ≡ prefix_from (v4 n) 32)
      × (contains (base_at m j) (v4 n) ≡ true)
      × (contains (stream_tail (base_at m j)) (v4 n) ≡ true)
      × (1 ≤ n % 256)
      × (n % 256 ≤ 254)
stream_placed m j seat hi = (
  slot m j seat,
  stream-slot m j seat hi,
  slot_in_base m j seat hi,
  slot_in_tail m j seat hi,
  omega arith,
  omega arith,
)
