-- ===== src/Ippkt/Build.antt =====
-- internal/ippkt/ippkt.go: Reset4, Refuse, Refuse6 and ICMPv6, which answer a packet with a TCP
-- reset or an ICMP error, and SetMSS. In the first three `none` is a nil packet.
pub mod Answers
pub mod Options
pub mod Sizes
use qd.Prelude.{
  ℕ, zero, suc, ◌+◌, ◌-◌, ◌*◌, ◌/◌, ◌%◌, ◌^◌, ◌&&◌, ◌||◌, Bool, true, false, not, Option, none,
  some, min, List, [], ◌∷◌, ◌++◌, ◌==◌, ltb, leb, if◌then◌else◌, length, get_or, set, take, drop,
}
use qd.Ippkt.{Bytes, byte, u16_at, put_u16, slice, spell, proto_tcp, version, header_len, after}
use qd.Ippkt.Checksum.{checksum, checksum6}

-- binary.BigEndian.PutUint32.
abbrev pub put_u32 : Bytes → ℕ → ℕ → Bytes
put_u32 b i v =
    set (set (set (set b i (v / 2 ^ 24 % 256)) (i + 1) (v / 2 ^ 16 % 256)) (i + 2) (v / 256 % 256))
      (i + 3) (v % 256)

-- The flags RST; FIN or SYN; ACK; and `flags&0x12 == 0x02`, a SYN without ACK.
abbrev pub is_reset : ℕ → Bool
is_reset flags = flags / 4 % 2 == 1

abbrev pub counts_one : ℕ → Bool
counts_one flags = not (flags % 4 == 0)

abbrev pub is_ack : ℕ → Bool
is_ack flags = flags / 16 % 2 == 1

abbrev pub tcp_head : Bytes → ℕ
tcp_head seg = byte seg 12 / 16 * 4

-- `head < 20 || head > len(seg) || flags&0x04 != 0`
unfoldable pub unfit : Bytes → Bool
unfit seg = ltb (tcp_head seg) 20 || ltb (length seg) (tcp_head seg) || is_reset (byte seg 13)

-- How far the segment moves the sequence number.
unfoldable pub taken : Bytes → ℕ
taken seg = length seg - tcp_head seg + (if counts_one (byte seg 13) then 1 else 0)

-- The reset segment that answers a segment, its checksum still 0.
unfoldable pub reset_segment : Bytes → Bytes
reset_segment seg =
    slice seg 2 2
    ++ (slice seg 0 2
        ++ ((if is_ack (byte seg 13) then slice seg 8 4 else 0 ∷ 0 ∷ 0 ∷ 0 ∷ [])
            ++ (put_u32 (0 ∷ 0 ∷ 0 ∷ 0 ∷ []) 0 ((spell 0 (slice seg 4 4) + taken seg) % 2 ^ 32)
                ++ (0x50 ∷ 0x14 ∷ 0 ∷ 0 ∷ 0 ∷ 0 ∷ 0 ∷ 0 ∷ []))))

-- An IPv4 header of 20 bytes, with the ends of `pkt` exchanged.
unfoldable pub back_header : Bytes → ℕ → ℕ → Bytes
back_header pkt total proto =
    let head =
      0x45
      ∷ 0
      ∷ total / 256 % 256
      ∷ total % 256
      ∷ 0
      ∷ 0
      ∷ 0
      ∷ 0
      ∷ 64
      ∷ proto
      ∷ 0
      ∷ 0
      ∷ (slice pkt 16 4 ++ slice pkt 12 4) in
    put_u16 head 10 (checksum head)

unfoldable pub reset4 : Bytes → Option Bytes
unfolding reset_segment back_header
reset4 pkt =
    let seg = drop (header_len pkt) pkt in
    let tcp = reset_segment seg in
    let out = back_header pkt 40 proto_tcp in
    let pseudo = slice out 12 8 ++ (0 ∷ proto_tcp ∷ 0 ∷ 20 ∷ []) in
    if ltb (length pkt) 20 || not (version pkt == 4) || not (byte pkt 9 == proto_tcp)
    then none
    else if ltb (header_len pkt) 20 || ltb (length pkt) (header_len pkt + 20)
    then none
    else if unfit seg
    then none
    else some (out ++ put_u16 tcp 16 (checksum (pseudo ++ tcp)))

-- The IPv6 packet around an ICMPv6 message; `from` and `to` are the bytes of the addresses.
-- `none` is the panic at a message without the two bytes of the checksum.
unfoldable pub icmpv6 : Bytes → Bytes → ℕ → Bytes → Option Bytes
icmpv6 from to hop msg =
    let n = length msg in
    let out =
      0x60
      ∷ 0
      ∷ 0
      ∷ 0
      ∷ n / 256 % 256
      ∷ n % 256
      ∷ 58
      ∷ (if hop == 0 then 64 else hop)
      ∷ (from ++ to ++ msg) in
    let clear = set (set out 42 0) 43 0 in
    if ltb n 4 then none else some (put_u16 clear 42 (checksum6 clear))

unfoldable pub reset6 : Bytes → Option Bytes
unfolding reset_segment
reset6 pkt =
    let seg = drop 40 pkt in
    let out =
      0x60
      ∷ 0
      ∷ 0
      ∷ 0
      ∷ 0
      ∷ 20
      ∷ proto_tcp
      ∷ 64
      ∷ (slice pkt 24 16 ++ slice pkt 8 16 ++ reset_segment seg) in
    if ltb (length seg) 20
    then none
    else if unfit seg
    then none
    else some (put_u16 out 56 (checksum6 out))

unfoldable pub refuse6 : Bytes → Option Bytes
unfolding reset6 icmpv6
refuse6 pkt =
    let msg = 1 ∷ 4 ∷ 0 ∷ 0 ∷ 0 ∷ 0 ∷ 0 ∷ 0 ∷ take (1280 - 48) pkt in
    if ltb (length pkt) 40 || not (version pkt == 6) || byte pkt 6 == 58
    then none
    else if not (byte pkt 6 == proto_tcp)
    then icmpv6 (slice pkt 24 16) (slice pkt 8 16) 64 msg
    else reset6 pkt

unfoldable pub refuse : Bytes → Option Bytes
unfolding reset4 refuse6 back_header
refuse pkt =
    let quoted = 3 ∷ 3 ∷ 0 ∷ 0 ∷ 0 ∷ 0 ∷ 0 ∷ 0 ∷ take 548 pkt in
    let msg = put_u16 quoted 2 (checksum quoted) in
    if ltb (length pkt) 28 || not (version pkt == 4)
    then refuse6 pkt
    else if byte pkt 9 == proto_tcp
    then reset4 pkt
    else if ltb (header_len pkt) 20 || ltb (length pkt) (header_len pkt + 8) || byte pkt 9 == 1
    then none
    else some (back_header pkt (20 + length msg) 1 ++ msg)

-- The walk over the options of a TCP header, which ends at `end`; `none` means that it has not ended
-- when the fuel is gone.
unfoldable pub set_mss_loop : ℕ → Bytes → ℕ → ℕ → ℕ → Option Bytes
set_mss_loop zero rest at end mss = none
set_mss_loop (suc n) rest at end mss =
    let kind = byte rest at in
    let size = byte rest (at + 1) in
    let past_pad = set_mss_loop n rest (at + 1) end mss in
    let past_option = set_mss_loop n rest (at + size) end mss in
    if leb end (at + 1)
    then some rest
    else if kind == 0
    then some rest
    else if kind == 1
    then past_pad
    else if ltb size 2 || ltb end (at + size)
    then some rest
    else if kind == 2 && size == 4
    then some (put_u16 rest (at + 2) mss)
    else past_option

unfoldable pub set_mss_segment : Bytes → ℕ → ℕ × Bytes → Option Bytes
set_mss_segment pkt mss (proto, rest) =
    let front = take (length pkt - length rest) pkt in
    let flags = byte rest 13 in
    if not (proto == proto_tcp) || is_ack flags || not (flags / 2 % 2 == 1)
    then some pkt
    else if ltb (length rest) (tcp_head rest)
    then some pkt
    else elim (set_mss_loop (suc (tcp_head rest)) rest 20 (tcp_head rest) mss) [
      | none ↦ none
      | some walked ↦ some (front ++ walked)
    ]

unfoldable pub set_mss : Bytes → ℕ → Option Bytes
unfolding set_mss_segment
set_mss pkt mss = elim (after pkt 20) [ none ↦ some pkt | some r ↦ set_mss_segment pkt mss r ]
