-- ===== src/Ippkt.antt =====
-- internal/ippkt/ippkt.go: reading and building IP packets. A packet is the list of its bytes, each
-- below 256; every read stands behind the code's own length tests. The builders are in `Build`, and
-- the checksum with its laws in `Checksum`.
pub mod Checksum
pub mod Fill
pub mod Build
pub mod Split
mod Tests
use qd.Prelude.{
  ℕ, zero, suc, ◌+◌, ◌-◌, ◌*◌, ◌/◌, ◌%◌, ◌^◌, ◌&&◌, ◌||◌, Bool, true, false, not, Option, none,
  some, List, [], ◌∷◌, ◌==◌, ltb, leb, if◌then◌else◌, length, get_or, set, take, drop, map,
}
use qd.Netip.{Addr, v4, v6}

abbrev pub Bytes : Type 0
Bytes = List ℕ

abbrev pub byte : Bytes → ℕ → ℕ
byte b i = get_or b i 0

-- binary.BigEndian.Uint16(b[i:])
abbrev pub u16_at : Bytes → ℕ → ℕ
u16_at b i = byte b i * 256 + byte b (suc i)

-- binary.BigEndian.PutUint16(b[i:], v)
abbrev pub put_u16 : Bytes → ℕ → ℕ → Bytes
put_u16 b i v = set (set b i (v / 256 % 256)) (suc i) (v % 256)

-- b[i : i+n]
abbrev pub slice : Bytes → ℕ → ℕ → Bytes
slice b i n = take n (drop i b)

-- The number that bytes spell, big-endian.
unfoldable pub spell : ℕ → Bytes → ℕ
spell acc [] = acc
spell acc (x ∷ xs) = spell (acc * 256 + x) xs

abbrev pub proto_tcp : ℕ
proto_tcp = 6

abbrev pub proto_udp : ℕ
proto_udp = 17

-- `pkt[0]>>4`, and the header length `int(pkt[0]&0x0F) * 4`.
abbrev pub version : Bytes → ℕ
version pkt = byte pkt 0 / 16

abbrev pub header_len : Bytes → ℕ
header_len pkt = byte pkt 0 % 16 * 4

-- `binary.BigEndian.Uint16(pkt[6:8])&0x1FFF`
abbrev pub fragment_offset : Bytes → ℕ
fragment_offset pkt = u16_at pkt 6 % 0x2000

-- The protocol and what follows the IP header, if `need` bytes of it are there.
unfoldable pub after : Bytes → ℕ → Option (ℕ × Bytes)
after pkt need =
    if leb 20 (length pkt) && version pkt == 4
    then if ltb (header_len pkt) 20 || ltb (length pkt) (header_len pkt + need)
      then none
      else if ltb 0 need && not (fragment_offset pkt == 0)
      then none
      else some (byte pkt 9, drop (header_len pkt) pkt)
    else if leb (40 + need) (length pkt) && version pkt == 6
    then some (byte pkt 6, drop 40 pkt)
    else none

unfoldable pub is_proto : ℕ → Option (ℕ × Bytes) → Bool
is_proto p none = false
is_proto p (some (proto, rest)) = proto == p

unfoldable pub is_tcp : Bytes → Bool
unfolding is_proto
is_tcp pkt = is_proto proto_tcp (after pkt 0)

unfoldable pub is_udp : Bytes → Bool
unfolding is_proto
is_udp pkt = is_proto proto_udp (after pkt 0)

unfoldable pub dst : Bytes → Option Addr
dst pkt =
    if ltb (length pkt) 1
    then none
    else if version pkt == 4
    then (if ltb (length pkt) 20 then none else some (v4 (spell 0 (slice pkt 16 4))))
    else if version pkt == 6
    then (if ltb (length pkt) 40 then none else some (v6 (spell 0 (slice pkt 24 16))))
    else none

-- The ends of a TCP or UDP flow.
pub record Ends : Type 0 where
  pub src : Addr
  pub src_port : ℕ
  pub dst : Addr
  pub dst_port : ℕ
  pub udp : Bool

unfoldable pub ends_of : Bytes → ℕ × Bytes → Option Ends
ends_of pkt (proto, rest) =
    if not (proto == proto_tcp) && not (proto == proto_udp)
    then none
    else if version pkt == 4
    then some (record {
      src = v4 (spell 0 (slice pkt 12 4));
      src_port = u16_at rest 0;
      dst = v4 (spell 0 (slice pkt 16 4));
      dst_port = u16_at rest 2;
      udp = proto == proto_udp;
    })
    else some (record {
      src = v6 (spell 0 (slice pkt 8 16));
      src_port = u16_at rest 0;
      dst = v6 (spell 0 (slice pkt 24 16));
      dst_port = u16_at rest 2;
      udp = proto == proto_udp;
    })

unfoldable pub flow : Bytes → Option Ends
unfolding ends_of
flow pkt = elim (after pkt 4) [ none ↦ none | some r ↦ ends_of pkt r ]

unfoldable pub src_port_of : ℕ × Bytes → Option ℕ
src_port_of (proto, rest) =
    if not (proto == proto_tcp) && not (proto == proto_udp) then none else some (u16_at rest 0)

unfoldable pub src_port : Bytes → Option ℕ
unfolding src_port_of
src_port pkt = elim (after pkt 4) [ none ↦ none | some r ↦ src_port_of r ]

unfoldable pub is_dns_segment : ℕ × Bytes → Bool
is_dns_segment (proto, rest) = (proto == proto_udp || proto == proto_tcp) && u16_at rest 2 == 53

unfoldable pub is_dns : Bytes → Bool
unfolding is_dns_segment
is_dns pkt = elim (after pkt 8) [ none ↦ false | some r ↦ is_dns_segment r ]
