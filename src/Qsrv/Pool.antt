-- ===== src/Qsrv/Pool.antt =====
-- internal/qsrv/pool.go: the pool of tunnel addresses that a node hands to its seats. A lease counts
-- how often its seat holds the address, and `mine` remembers the address that a seat had last.
-- A method returns the new pool; the lock makes each one atomic. `none` is errPoolFull.
pub mod Grants
pub mod Refill
pub mod Streams
pub mod Liveness
mod Tests
use Prim.Native.Nat.{bit_or}
use qd.Prelude.{
  ℕ, zero, suc, ◌+◌, ◌-◌, ◌*◌, ◌/◌, ◌%◌, ◌^◌, ◌&&◌, Option, none, some, List, [], ◌∷◌, ◌==◌, ltb,
  leb, if◌then◌else◌, ℕ_discrete, Bool, not,
}
use qd.Prelude.Dict.{find, put, remove}
use qd.Netip
use qd.Netip.{
  Addr, v4, v6, invalid, Prefix, Addr-discrete, no_prefix, prefix_from, contains, is_valid, bits,
  bit_len, is4, mask, masked_addr, unmap,
}

pub record Lease : Type 0 where
  pub seat : ℕ
  pub held : ℕ

pub record Pool : Type 0 where
  pub base : Prefix
  pub next : Addr
  pub taken : List (Addr × Lease)
  pub mine : List (ℕ × Addr)
  pub streams : Prefix

-- The number that As4 spells.
unfoldable pub as_u32 : Addr → ℕ
as_u32 (v4 n) = n
as_u32 _ = 0

-- `(first | span) &^ 0xFF`, in uint32.
unfoldable pub tail_top : ℕ → ℕ → ℕ
tail_top first b =
    let span = (2 ^ (32 - b) % 2 ^ 32 + 2 ^ 32 - 1) % 2 ^ 32 in bit_or first span / 256 * 256

unfoldable pub stream_tail : Prefix → Prefix
unfolding is4 bits masked_addr as_u32 prefix_from
stream_tail base =
    if not (is4 base.addr)
    then no_prefix
    else if ltb 24 (bits base)
    then no_prefix
    else prefix_from (v4 (tail_top (as_u32 (masked_addr base)) (bits base))) 24

unfoldable pub new_pool : Prefix → Pool
new_pool prefix = record {
  base = prefix;
  next = Netip.next prefix.addr;
  taken = [];
  mine = [];
  streams = stream_tail prefix;
}

-- The address itself as a prefix, PrefixFrom(addr, addr.BitLen()).
unfoldable pub single : Addr → Prefix
unfolding prefix_from bit_len
single a = prefix_from a (bit_len a)

-- `raw[3] = byte(seat%254) + 1`, and 10.7.255.254 where the pool has no tail.
unfoldable pub stream : Pool → ℕ → Prefix
unfolding is_valid single as_u32
stream p seat =
    if is_valid p.streams
    then single (v4 (as_u32 p.streams.addr / 256 * 256 + (seat % 254 + 1)))
    else single (v4 0x0a07fffe)

-- The switch of `own` on the lease of the address that the seat had.
unfoldable pub own_at : Pool → ℕ → Addr → Pool × Option Prefix
unfolding single
own_at p session was = elim (find Addr-discrete was p.taken) [
  | none ↦ (
    record p { taken = put Addr-discrete was (record { seat = session; held = 1 }) p.taken },
    some (single was),
  )
  | some l ↦
      if l.seat == session
      then (
        record p {
          taken = put Addr-discrete was (record { seat = session; held = l.held + 1 }) p.taken;
        },
        some (single was),
      )
      else (p, none)
]

unfoldable pub own : Pool → ℕ → Pool × Option Prefix
unfolding own_at
own p session = elim (find ℕ_discrete session p.mine) [
  | none ↦ (p, none)
  | some was ↦ if contains p.streams was then (p, none) else own_at p session was
]

unfoldable pub take_own : Pool → ℕ → Pool × Option Prefix
take_own p session = own p session

-- A free address is leased, and remembered for a seat that is not 0.
unfoldable pub lease_fresh : Pool → ℕ → Addr → Pool
lease_fresh p session addr = record p {
  taken = put Addr-discrete addr (record { seat = session; held = 1 }) p.taken;
  mine = if session == 0 then p.mine else put ℕ_discrete session addr p.mine;
}

-- One round of the loop of `take`: `none` is `continue`.
unfoldable pub round : Pool → ℕ → Pool × Option Prefix
unfolding lease_fresh single
round p session =
    let addr = p.next in
    let onward = record p { next = Netip.next addr } in
    if not (contains p.base addr)
    then (record p { next = Netip.next p.base.addr }, none)
    else if is_valid p.streams && contains p.streams addr
    then (onward, none)
    else elim (find Addr-discrete addr p.taken) [
      | some busy ↦ (onward, none)
      | none ↦ (lease_fresh onward session addr, some (single addr))
    ]

-- The loop, over the rounds left.
unfoldable pub take_loop : ℕ → Pool → ℕ → Pool × Option Prefix
take_loop zero p session = (p, none)
take_loop (suc n) p session =
    let (q, got) = round p session in
    elim got [ some pre ↦ (q, some pre) | none ↦ take_loop n q session ]

abbrev pub rounds : ℕ
rounds = 2 ^ 20

-- `own` leaves the pool alone where it fails.
unfoldable pub take : Pool → ℕ → Pool × Option Prefix
unfolding own
take p session =
    let (p', got) = own p session in
    elim got [ some pre ↦ (p', some pre) | none ↦ take_loop rounds p' session ]

unfoldable pub give : Pool → Prefix → Pool
give p prefix = elim (find Addr-discrete prefix.addr p.taken) [
  | none ↦ p
  | some l ↦
      if leb (l.held - 1) 0
      then record p { taken = remove Addr-discrete prefix.addr p.taken }
      else record p {
        taken = put Addr-discrete prefix.addr (record l { held = l.held - 1 }) p.taken;
      }
]

-- fd00:7::a.b.c.d as a single address. As4 reads the last 32 bits of an IPv4-mapped address too and
-- panics on another IPv6 one; `carried`, the one caller, asks for IPv4 first.
unfoldable pub six_of : Prefix → Prefix
unfolding single as_u32
six_of p = single (v6 (0xfd00_0007 * 2 ^ 96 + as_u32 (unmap p.addr)))

-- What a seat carries; `holds_v6` is what the node found out about its uplink.
unfoldable pub carried : Bool → Prefix → List Prefix
unfolding is4 six_of
carried holds_v6 address =
    if not holds_v6
    then address ∷ []
    else if not (is4 address.addr)
    then address ∷ []
    else address ∷ six_of address ∷ []
