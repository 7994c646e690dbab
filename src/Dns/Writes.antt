-- ===== src/Dns/Writes.antt =====
-- internal/dnsproxy/dnsproxy.go: the reads of a message after its writes.
use qd.Prelude.{
  ℕ, zero, suc, ◌+◌, ◌/◌, ◌%◌, ◌≤◌, ◌<◌, ◌≡◌, refl, ap, ◌∙◌, ◌⊎◌, inl, inr, [], ◌∷◌, length, set,
  take, arith, get_or-set_self, get_or-set_ne, length-set, All-set,
}
use qd.Ippkt.{Bytes, byte, u16_at, put_u16, slice}
use qd.Ippkt.Checksum.{IsBytes}
use qd.Ippkt.Fill.{put_u16-length}
use qd.Dns.{u32_at, put_u32}

pub put_u16-byte :
    (b : Bytes) (p v j : ℕ) → (j < p) ⊎ (p + 2 ≤ j) → byte (put_u16 b p v) j ≡ byte b j
put_u16-byte b p v j (inl h) =
    get_or-set_ne (set b p (v / 256 % 256)) (suc p) j (v % 256) 0 (λ e. omega arith)
    ∙ get_or-set_ne b p j (v / 256 % 256) 0 (λ e. omega arith)
put_u16-byte b p v j (inr h) =
    get_or-set_ne (set b p (v / 256 % 256)) (suc p) j (v % 256) 0 (λ e. omega arith)
    ∙ get_or-set_ne b p j (v / 256 % 256) 0 (λ e. omega arith)

pub put_u16-high : (b : Bytes) (p v : ℕ) → p < length b → byte (put_u16 b p v) p ≡ v / 256 % 256
put_u16-high b p v inside =
    get_or-set_ne (set b p (v / 256 % 256)) (suc p) p (v % 256) 0 (λ e. omega arith)
    ∙ get_or-set_self b p (v / 256 % 256) 0 inside

pub put_u16-low : (b : Bytes) (p v : ℕ) → suc p < length b → byte (put_u16 b p v) (suc p) ≡ v % 256
put_u16-low b p v inside =
    get_or-set_self (set b p (v / 256 % 256)) (suc p) (v % 256) 0
      (omega (arith, length-set b p (v / 256 % 256)))

pub put_u32-byte :
    (b : Bytes) (p v j : ℕ) → (j < p) ⊎ (p + 4 ≤ j) → byte (put_u32 b p v) j ≡ byte b j
put_u32-byte b p v j (inl h) =
    put_u16-byte (put_u16 b p (v / 0x10000)) (p + 2) v j (inl (omega arith))
    ∙ put_u16-byte b p (v / 0x10000) j (inl h)
put_u32-byte b p v j (inr h) =
    put_u16-byte (put_u16 b p (v / 0x10000)) (p + 2) v j (inr (omega arith))
    ∙ put_u16-byte b p (v / 0x10000) j (inr (omega arith))

pub put_u32-length : (b : Bytes) (p v : ℕ) → length (put_u32 b p v) ≡ length b
put_u32-length b p v =
    put_u16-length (put_u16 b p (v / 0x10000)) (p + 2) v ∙ put_u16-length b p (v / 0x10000)

pub u16_at-put : (b : Bytes) (p v : ℕ) → p + 2 ≤ length b → u16_at (put_u16 b p v) p ≡ v % 0x10000
u16_at-put b p v inside =
    let h = put_u16-high b p v (omega arith) in
    let l = put_u16-low b p v (omega arith) in omega arith

pub u32_at-put :
    (b : Bytes) (p v : ℕ) → p + 4 ≤ length b → v < 0x100000000 → u32_at (put_u32 b p v) p ≡ v
u32_at-put b p v inside low =
    let first = put_u16 b p (v / 0x10000) in
    let e0 = put_u16-byte first (p + 2) v p (inl (omega arith)) in
    let e1 = put_u16-byte first (p + 2) v (suc p) (inl (omega arith)) in
    let h = u16_at-put b p (v / 0x10000) (omega arith) in
    let l = u16_at-put first (p + 2) v (omega (arith, put_u16-length b p (v / 0x10000))) in
    omega arith

pub byte-low : (b : Bytes) (i : ℕ) → IsBytes b → byte b i < 256
byte-low [] i h = omega arith
byte-low (x ∷ xs) zero h = h.0
byte-low (x ∷ xs) (suc i) h = byte-low xs i h.1

pub wrapped-IsBytes : (b : Bytes) (i v : ℕ) → IsBytes b → IsBytes (put_u16 b i v)
wrapped-IsBytes b i v h =
    All-set (λ (x : ℕ). x < 256) (set b i (v / 256 % 256)) (suc i) (v % 256)
      (All-set (λ (x : ℕ). x < 256) b i (v / 256 % 256) h (omega arith)) (omega arith)

pub u32-low : (msg : Bytes) (p : ℕ) → IsBytes msg → u32_at msg p < 0x100000000
u32-low msg p h =
    let b0 = byte-low msg p h in
    let b1 = byte-low msg (suc p) h in
    let b2 = byte-low msg (p + 2) h in let b3 = byte-low msg (suc (p + 2)) h in omega arith

pub take-byte : (n : ℕ) (b : Bytes) (j : ℕ) → j < n → byte (take n b) j ≡ byte b j
take-byte zero b j h = absurd (omega arith)
take-byte (suc n) [] j h = refl
take-byte (suc n) (x ∷ b) zero h = refl
take-byte (suc n) (x ∷ b) (suc j) h = take-byte n b j (omega arith)

take-same :
    (n : ℕ) (a b : Bytes)
    → n ≤ length a
    → n ≤ length b
    → ((j : ℕ) → j < n → byte a j ≡ byte b j)
    → take n a ≡ take n b
take-same zero a b ha hb same = refl
take-same (suc n) [] b ha hb same = absurd (omega arith)
take-same (suc n) (x ∷ a) [] ha hb same = absurd (omega arith)
take-same (suc n) (x ∷ a) (y ∷ b) ha hb same = rw (same 0 (omega arith)) (
    ap (λ (r : Bytes). y ∷ r)
      (take-same n a b (omega arith) (omega arith) (λ j h. same (suc j) (omega arith))))

pub slice-same :
    (a b : Bytes) (i n : ℕ)
    → i + n ≤ length a
    → i + n ≤ length b
    → ((j : ℕ) → i ≤ j → j < i + n → byte a j ≡ byte b j)
    → slice a i n ≡ slice b i n
slice-same a b zero n ha hb same =
    take-same n a b (omega arith) (omega arith) (λ j h. same j (omega arith) (omega arith))
slice-same [] b (suc i) n ha hb same = absurd (omega arith)
slice-same (x ∷ a) [] (suc i) n ha hb same = absurd (omega arith)
slice-same (x ∷ a) (y ∷ b) (suc i) n ha hb same =
    slice-same a b i n (omega arith) (omega arith)
      (λ j h k. same (suc j) (omega arith) (omega arith))
