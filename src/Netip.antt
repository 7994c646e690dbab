-- ===== src/Netip.antt =====
-- The addresses and prefixes of Go's net/netip, as far as the program uses them.
-- An address is its family with the number that its bytes spell, big-endian; `invalid` is the zero
-- value. Zones do not occur in the program. A prefix keeps Go's own field `bitsPlusOne`, which is 0
-- for the zero value, an invalid prefix.
use qd.Prelude.{
  ℕ, zero, suc, ◌+◌, ◌-◌, ◌*◌, ◌/◌, ◌%◌, ◌^◌, Bool, true, false, ◌&&◌, ◌==◌, ltb, if◌then◌else◌,
  ℕ_discrete,
}

pub data Addr : Type 0 where
  invalid : Addr
  v4 v6 : ℕ → Addr

unfoldable pub Addr-discrete : Discrete Addr
Addr-discrete = hlevel ℕ_discrete

unfoldable pub is4 : Addr → Bool
is4 (v4 n) = true
is4 _ = false

-- Also of an address ::ffff:a.b.c.d.
unfoldable pub is6 : Addr → Bool
is6 (v6 n) = true
is6 _ = false

unfoldable pub is4_in6 : Addr → Bool
is4_in6 (v6 n) = n / 2 ^ 32 == 0xffff
is4_in6 _ = false

unfoldable pub unmap : Addr → Addr
unmap (v6 n) = if n / 2 ^ 32 == 0xffff then v4 (n % 2 ^ 32) else v6 n
unmap (v4 n) = v4 n
unmap invalid = invalid

-- Addr.IsValid.
unfoldable pub is_known : Addr → Bool
is_known invalid = false
is_known (v4 n) = true
is_known (v6 n) = true

unfoldable pub bit_len : Addr → ℕ
bit_len invalid = 0
bit_len (v4 n) = 32
bit_len (v6 n) = 128

-- Addr.Next: the address after the last one of a family is the zero value.
unfoldable pub next : Addr → Addr
next invalid = invalid
next (v4 n) = if ltb (n + 1) (2 ^ 32) then v4 (n + 1) else invalid
next (v6 n) = if ltb (n + 1) (2 ^ 128) then v6 (n + 1) else invalid

pub record Prefix : Type 0 where
  pub addr : Addr
  pub bits_plus_one : ℕ

abbrev pub no_prefix : Prefix
no_prefix = record { addr = invalid; bits_plus_one = 0 }

unfoldable pub prefix_from : Addr → ℕ → Prefix
prefix_from a bits = record { addr = a; bits_plus_one = suc bits }

unfoldable pub bits : Prefix → ℕ
bits p = elim p.bits_plus_one [ zero ↦ 0 | suc b ↦ b ]

unfoldable pub is_valid : Prefix → Bool
is_valid p = elim p.bits_plus_one [ zero ↦ false | suc b ↦ true ]

-- Two addresses agree in the leading bits.
unfoldable pub contains_addr : ℕ → Addr → Addr → Bool
contains_addr b (v4 p) (v4 n) = p / 2 ^ (32 - b) == n / 2 ^ (32 - b)
contains_addr b (v6 p) (v6 n) = p / 2 ^ (128 - b) == n / 2 ^ (128 - b)
contains_addr b _ _ = false

unfoldable pub contains : Prefix → Addr → Bool
unfolding is_valid bits contains_addr
contains p a = is_valid p && contains_addr (bits p) p.addr a

unfoldable pub mask : Addr → ℕ → Addr
mask invalid b = invalid
mask (v4 n) b = v4 (n / 2 ^ (32 - b) * 2 ^ (32 - b))
mask (v6 n) b = v6 (n / 2 ^ (128 - b) * 2 ^ (128 - b))

-- Masked().Addr(): the host bits cleared.
unfoldable pub masked_addr : Prefix → Addr
unfolding mask bits
masked_addr p = mask p.addr (bits p)
