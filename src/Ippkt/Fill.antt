-- ===== src/Ippkt/Fill.antt =====
-- internal/ippkt/ippkt.go, Checksum: writing the checksum of bytes into their cleared checksum word.
use qd.Prelude.{
  ℕ, suc, ◌+◌, ◌-◌, ◌/◌, ◌%◌, ◌≤◌, ◌<◌, ◌≡◌, refl, ap, ◌∙◌, length, arith, set, get_or, length-set,
  All-set,
}
use qd.Ippkt.{Bytes, put_u16}
use qd.Ippkt.Checksum.{
  checksum, checksum-canon, word_sum, word_sum-put, canon, canon_fill, IsBytes, double,
}

pub put_u16-IsBytes : (b : Bytes) (i v : ℕ) → IsBytes b → v < 65536 → IsBytes (put_u16 b i v)
put_u16-IsBytes b i v h low =
    All-set (λ (x : ℕ). x < 256) (set b i (v / 256 % 256)) (suc i) (v % 256)
      (All-set (λ (x : ℕ). x < 256) b i (v / 256 % 256) h (omega arith)) (omega arith)

pub put_u16-length : (b : Bytes) (i v : ℕ) → length (put_u16 b i v) ≡ length b
put_u16-length b i v =
    length-set (set b i (v / 256 % 256)) (suc i) (v % 256) ∙ length-set b i (v / 256 % 256)

-- Bytes with the complement of their sum in a word that was 0, at an even place, have the sum
-- 65535.
pub fill_checksum :
    (b : Bytes) (k v : ℕ)
    → IsBytes b
    → v ≡ 65535 - canon (word_sum b)
    → suc (double k) < length b
    → length b ≤ 65535
    → get_or b (double k) 0 ≡ 0
    → get_or b (suc (double k)) 0 ≡ 0
    → checksum (put_u16 b (double k) v) ≡ 0
fill_checksum b k v bytes e inside short z0 z1 =
    let low : v < 65536 = omega arith in
    let full : word_sum (put_u16 b (double k) v) ≡ word_sum b + (65535 - canon (word_sum b)) =
      (let put = word_sum-put b k v low inside in omega arith) in
    checksum-canon (put_u16 b (double k) v) (put_u16-IsBytes b (double k) v bytes low)
      (omega (arith, put_u16-length b (double k) v))
    ∙ ap (λ (t : ℕ). 65535 - canon t) full
    ∙ ap (λ (t : ℕ). 65535 - t) (canon_fill (word_sum b))
    ∙ (let r : 65535 - 65535 ≡ 0 = refl in r)

-- The checksum of the bytes is what fills them.
pub fill_own :
    (b : Bytes) (k : ℕ)
    → IsBytes b
    → suc (double k) < length b
    → length b ≤ 65535
    → get_or b (double k) 0 ≡ 0
    → get_or b (suc (double k)) 0 ≡ 0
    → checksum (put_u16 b (double k) (checksum b)) ≡ 0
fill_own b k bytes inside short z0 z1 =
    fill_checksum b k (checksum b) bytes (checksum-canon b bytes short) inside short z0 z1
