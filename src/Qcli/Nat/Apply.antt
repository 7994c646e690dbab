-- ===== src/Qcli/Nat/Apply.antt =====
-- internal/qcli/nat/nat.go: how a translation starts, the IPv6 half of it, and `apply`, which
-- Outbound and Inbound call.
use qd.Prelude.{
  ℕ, ◌/◌, ◌^◌, ◌&&◌, ◌||◌, Bool, not, Option, none, some, is_some, List, [], ◌∷◌, ◌++◌, ◌==◌, ltb,
  if◌then◌else◌, length, set, take, drop,
}
use qd.Ippkt.{Bytes, byte, put_u16, slice, version}
use qd.Ippkt.Checksum.{checksum6}
use qd.Netip.{Addr, v4, v6, is4, is6}
use qd.Qcli.Nat.{
  Nat, same_bytes, copy_at, at_port, fix_l4, udp_port, outbound_v4, inbound_v4, bytes_of_u32,
}

-- The first IPv4 and the first IPv6 address of the list.
unfoldable pub pick_from : Option Addr → Option Addr → List Addr → Option Addr × Option Addr
pick_from four six [] = (four, six)
pick_from four six (a ∷ rest) =
    let rest4 = pick_from (some a) six rest in
    let rest6 = pick_from four (some a) rest in
    let skip = pick_from four six rest in
    if is4 a && not (is_some four)
    then rest4
    else if is6 a && not (is_some six)
    then rest6
    else skip

unfoldable pub pick : List Addr → Option Addr × Option Addr
pick addrs = pick_from none none addrs

-- As4 and As16 of an address of the right family.
unfoldable pub bytes_of_addr : Addr → Bytes
bytes_of_addr (v4 n) = bytes_of_u32 n
bytes_of_addr (v6 n) =
    bytes_of_u32 (n / 2 ^ 96)
    ++ bytes_of_u32 (n / 2 ^ 64)
    ++ bytes_of_u32 (n / 2 ^ 32)
    ++ bytes_of_u32 n
bytes_of_addr _ = []

abbrev pub four_zeros : Bytes
four_zeros = 0 ∷ 0 ∷ 0 ∷ 0 ∷ []

abbrev pub sixteen_zeros : Bytes
sixteen_zeros = four_zeros ++ four_zeros ++ four_zeros ++ four_zeros

unfoldable pub assigned : Bytes → Option Addr → Bytes
unfolding bytes_of_addr
assigned zeros none = zeros
assigned zeros (some a) = bytes_of_addr a

unfoldable pub new_nat : List Addr → Nat
unfolding assigned
new_nat addrs =
    let (four, six) = pick addrs in
    record {
      assigned_v4 = assigned four_zeros four;
      have_v4 = is_some four;
      assigned_v6 = assigned sixteen_zeros six;
      have_v6 = is_some six;
      real_v4 = none;
      real_v6 = none;
      port_v4 = λ p. 0;
      port_v6 = λ p. none;
    }

unfoldable pub apply_v4 : Nat → Bytes → Bool → Option (Nat × Bytes)
unfolding outbound_v4 inbound_v4
apply_v4 n pkt outbound =
    let come : Option (Nat × Bytes) = elim (inbound_v4 n pkt) [
      | none ↦ none
      | some out ↦ some (n, out)
    ] in
    if not n.have_v4 || ltb (length pkt) 20
    then some (n, pkt)
    else if outbound
    then some (outbound_v4 n pkt)
    else come

unfoldable pub note_v6 : Nat → Bytes → Bytes → Nat
note_v6 n pkt src = elim (udp_port pkt 6 0) [
  | none ↦ n
  | some port ↦ record n { port_v6 = at_port n.port_v6 port (some src) }
]

unfoldable pub outbound_v6 : Nat → Bytes → Nat × Bytes
unfolding note_v6
outbound_v6 n pkt =
    let src = slice pkt 8 16 in
    let noted = note_v6 n pkt src in
    if same_bytes src n.assigned_v6 then (noted, pkt) else (
      record noted { real_v6 = some src },
      fix_l4 (copy_at 8 n.assigned_v6 pkt) 6 src n.assigned_v6,
    )

unfoldable pub fix_quote_v6 : Nat → Bytes → Bytes → Bytes
fix_quote_v6 n pkt real =
    let msg = drop 40 pkt in
    let inner = drop 8 msg in
    let quoted = take 48 pkt ++ copy_at 8 real inner in
    let clear = set (set quoted 42 0) 43 0 in
    if ltb (length msg) 48 || not (byte msg 0 == 1 || byte msg 0 == 3)
    then pkt
    else if not (same_bytes (slice inner 8 16) n.assigned_v6)
    then pkt
    else put_u16 clear 42 (checksum6 clear)

unfoldable pub real_for_v6 : Nat → Option ℕ → Option Bytes
real_for_v6 n none = n.real_v6
real_for_v6 n (some port) = elim (n.port_v6 port) [ none ↦ n.real_v6 | some from ↦ some from ]

unfoldable pub inbound_to_v6 : Nat → Bytes → Bytes → Bytes
unfolding fix_quote_v6
inbound_to_v6 n pkt real =
    let moved = fix_l4 (copy_at 24 real pkt) 6 n.assigned_v6 real in
    if same_bytes real n.assigned_v6
    then pkt
    else if byte moved 6 == 58
    then fix_quote_v6 n moved real
    else moved

unfoldable pub inbound_v6 : Nat → Bytes → Bytes
unfolding inbound_to_v6 real_for_v6
inbound_v6 n pkt =
    let rewritten : Bytes = elim (real_for_v6 n (udp_port pkt 6 2)) [
      | none ↦ pkt
      | some real ↦ inbound_to_v6 n pkt real
    ] in
    if not (same_bytes (slice pkt 24 16) n.assigned_v6) then pkt else rewritten

unfoldable pub apply_v6 : Nat → Bytes → Bool → Nat × Bytes
unfolding outbound_v6 inbound_v6
apply_v6 n pkt outbound =
    if not n.have_v6 || ltb (length pkt) 40
    then (n, pkt)
    else if outbound
    then outbound_v6 n pkt
    else (n, inbound_v6 n pkt)

-- `apply`; a packet of another version passes unchanged.
unfoldable pub apply : Nat → Bytes → Bool → Option (Nat × Bytes)
unfolding apply_v4 apply_v6
apply n pkt outbound =
    if ltb (length pkt) 1
    then some (n, pkt)
    else if version pkt == 4
    then apply_v4 n pkt outbound
    else if version pkt == 6
    then some (apply_v6 n pkt outbound)
    else some (n, pkt)
