-- ===== src/Qcli/Nat.antt =====
-- internal/qcli/nat/nat.go: the address translation of the client. Outbound packets get the assigned
-- address as their source, inbound ones the real address as their destination; UDP ports remember
-- which real address they belong to. An address is the list of its bytes, a port table a function.
-- A packet is changed in place, so a method returns the packet with the new state.
pub mod Apply
pub mod Sums
pub mod Header
pub mod Ports
mod Tests
use qd.Prelude.{
  ℕ, zero, suc, ◌+◌, ◌-◌, ◌*◌, ◌/◌, ◌%◌, ◌^◌, ◌&&◌, ◌||◌, Bool, true, false, not, Option, none,
  some, List, [], ◌∷◌, ◌++◌, ◌==◌, ltb, leb, if◌then◌else◌, length, get_or, set, take, drop, is_yes,
}
use qd.Ippkt.{Bytes, byte, u16_at, put_u16, slice, spell, version, header_len, fragment_offset}
use qd.Ippkt.Checksum.{fold, fold_rounds, sum_loop, checksum, checksum6}

pub record Nat : Type 0 where
  pub assigned_v4 : Bytes
  pub have_v4 : Bool
  pub assigned_v6 : Bytes
  pub have_v6 : Bool
  pub real_v4 : Option Bytes
  pub real_v6 : Option Bytes
  pub port_v4 : ℕ → ℕ
  pub port_v6 : ℕ → Option Bytes

unfoldable pub same_bytes : Bytes → Bytes → Bool
same_bytes [] [] = true
same_bytes (x ∷ xs) (y ∷ ys) = x == y && same_bytes xs ys
same_bytes _ _ = false

-- copy(b, xs), and copy(b[i:], xs).
unfoldable pub overwrite : Bytes → Bytes → Bytes
overwrite [] b = b
overwrite (x ∷ xs) [] = []
overwrite (x ∷ xs) (y ∷ b) = x ∷ overwrite xs b

unfoldable pub copy_at : ℕ → Bytes → Bytes → Bytes
unfolding overwrite
copy_at zero xs b = overwrite xs b
copy_at (suc i) xs [] = []
copy_at (suc i) xs (y ∷ b) = y ∷ copy_at i xs b

unfoldable pub at_port {ℓ} : {A : Type ℓ} → (ℕ → A) → ℕ → A → ℕ → A
at_port t port v q = if port == q then v else t q

-- `x ^ 0xFFFF` on a uint16.
abbrev pub flip16 : ℕ → ℕ
flip16 x = 65535 - x

-- The loop of csumUpdate over the words of the old and the new address.
unfoldable pub update_loop : ℕ → Bytes → Bytes → ℕ
update_loop sum (a ∷ b ∷ old) (c ∷ d ∷ new) =
    update_loop ((sum + flip16 (a * 256 + b) + (c * 256 + d)) % 2 ^ 32) old new
update_loop sum _ _ = sum

unfoldable pub csum_update : ℕ → Bytes → Bytes → ℕ
csum_update hc old new = flip16 (fold fold_rounds (update_loop (flip16 hc) old new))

unfoldable pub fix_ipv4_header : Bytes → Bytes
fix_ipv4_header pkt =
    let ihl = header_len pkt in
    let clear = set (set pkt 10 0) 11 0 in
    if ltb ihl 20 || ltb (length pkt) ihl
    then pkt
    else put_u16 clear 10 (flip16 (fold fold_rounds (sum_loop 0 (take ihl clear))))

-- The transport header's offset and protocol; a later fragment has none.
unfoldable pub l4_of : Bytes → ℕ → Option (ℕ × ℕ)
l4_of pkt ver =
    if ver == 4
    then (if not (fragment_offset pkt == 0) then none else some (header_len pkt, byte pkt 9))
    else some (40, byte pkt 6)

unfoldable pub csum_offset : ℕ → ℕ → Option ℕ
csum_offset l4off proto =
    if proto == 6
    then some (l4off + 16)
    else if proto == 17
    then some (l4off + 6)
    else if proto == 58
    then some (l4off + 2)
    else none

unfoldable pub fix_l4_at : Bytes → ℕ → Bytes → Bytes → ℕ → ℕ → Bytes
fix_l4_at pkt ver old new proto csum_off =
    let c = u16_at pkt csum_off in
    let nc = csum_update c old new in
    if ltb (length pkt) (csum_off + 2)
    then pkt
    else if (proto == 17 && ver == 4) && c == 0
    then pkt
    else put_u16 pkt csum_off (if proto == 17 && nc == 0 then 65535 else nc)

unfoldable pub fix_l4_from : Bytes → ℕ → Bytes → Bytes → ℕ × ℕ → Bytes
unfolding fix_l4_at csum_offset
fix_l4_from pkt ver old new (l4off, proto) = elim (csum_offset l4off proto) [
  | none ↦ pkt
  | some off ↦ fix_l4_at pkt ver old new proto off
]

unfoldable pub fix_l4 : Bytes → ℕ → Bytes → Bytes → Bytes
unfolding fix_l4_from l4_of
fix_l4 pkt ver old new = elim (l4_of pkt ver) [
  | none ↦ pkt
  | some l4 ↦ fix_l4_from pkt ver old new l4
]

-- The UDP port at `at` behind the IP header. For version 6 the protocol is read at 40 bytes.
unfoldable pub port_behind : Bytes → ℕ → ℕ → ℕ → Option ℕ
port_behind pkt head proto at =
    if not (proto == 17) || ltb head 20 || ltb (length pkt) (head + 4)
    then none
    else some (u16_at pkt (head + at))

unfoldable pub udp_port : Bytes → ℕ → ℕ → Option ℕ
unfolding port_behind
udp_port pkt ver at =
    if ver == 4
    then (if ltb (length pkt) 20 || not (fragment_offset pkt == 0)
        then none
        else port_behind pkt (header_len pkt) (byte pkt 9) at)
    else port_behind pkt 40 (if leb 40 (length pkt) then byte pkt 6 else 0) at

-- Destination unreachable, time exceeded, parameter problem.
unfoldable pub quotes_v4 : Bytes → Bool
quotes_v4 msg = byte msg 0 == 3 || byte msg 0 == 11 || byte msg 0 == 12

-- What reading the port of an inbound packet does; `fault` is Go's panic on a slice out of range.
pub data PortRead : Type 0 where
  fault : PortRead
  read : Option ℕ → PortRead

unfoldable pub port_of_v4 : Bytes → PortRead
unfolding quotes_v4
port_of_v4 pkt =
    let msg = drop (header_len pkt) pkt in
    if not (byte pkt 9 == 1)
    then read (udp_port pkt 4 2)
    else if ltb (length pkt) (header_len pkt)
    then fault
    else if ltb (length msg) 36 || not (quotes_v4 msg)
    then read none
    else read (udp_port (drop 8 msg) 4 0)

-- The packet that an ICMP error quotes gets the real source back, and the message its checksum.
unfoldable pub fix_quote_v4 : Nat → Bytes → Bytes → Bytes
unfolding quotes_v4
fix_quote_v4 n pkt real =
    let head = header_len pkt in
    let msg = drop head pkt in
    let inner = drop 8 msg in
    let inner' = fix_ipv4_header (copy_at 12 real inner) in
    let msg' = set (set (take 8 msg ++ inner') 2 0) 3 0 in
    if ltb (length msg) 28 || not (quotes_v4 msg)
    then pkt
    else if not (same_bytes (slice inner 12 4) n.assigned_v4)
    then pkt
    else take head pkt ++ put_u16 msg' 2 (checksum msg')

unfoldable pub note_real : Nat → Bytes → Nat
note_real n src = elim n.real_v4 [
  | none ↦ record n { real_v4 = some src }
  | some held ↦ if same_bytes held src then n else record n { real_v4 = some src }
]

-- The port of an outbound UDP packet remembers the packet's source.
unfoldable pub note_port_v4 : Nat → Bytes → Nat
note_port_v4 n pkt = elim (udp_port pkt 4 0) [
  | none ↦ n
  | some port ↦ record n { port_v4 = at_port n.port_v4 port (spell 0 (slice pkt 12 4)) }
]

-- applyV4 of an outbound packet, behind the test for its length.
unfoldable pub outbound_v4 : Nat → Bytes → Nat × Bytes
outbound_v4 n pkt =
    let src = slice pkt 12 4 in
    let noted = note_port_v4 n pkt in
    if same_bytes src n.assigned_v4 then (noted, pkt) else (
      note_real noted src,
      fix_l4 (fix_ipv4_header (copy_at 12 n.assigned_v4 pkt)) 4 src n.assigned_v4,
    )

-- The four bytes of a number.
unfoldable pub bytes_of_u32 : ℕ → Bytes
bytes_of_u32 v = v / 2 ^ 24 % 256 ∷ v / 2 ^ 16 % 256 ∷ v / 256 % 256 ∷ v % 256 ∷ []

-- The real address of an inbound packet: that of its port, or else the one seen last.
unfoldable pub real_for_v4 : Nat → Option ℕ → Option Bytes
real_for_v4 n none = n.real_v4
real_for_v4 n (some port) =
    if n.port_v4 port == 0 then n.real_v4 else some (bytes_of_u32 (n.port_v4 port))

unfoldable pub inbound_to : Nat → Bytes → Bytes → Bytes
inbound_to n pkt real =
    let moved = fix_l4 (fix_ipv4_header (copy_at 16 real pkt)) 4 n.assigned_v4 real in
    if same_bytes real n.assigned_v4
    then pkt
    else if byte moved 9 == 1
    then fix_quote_v4 n moved real
    else moved

-- applyV4 of an inbound packet, behind the test for its length; `none` is a panic.
unfoldable pub inbound_v4 : Nat → Bytes → Option Bytes
unfolding inbound_to
inbound_v4 n pkt =
    let rewritten : Option Bytes = elim (port_of_v4 pkt) [
      | fault ↦ none
      | read port ↦ elim (real_for_v4 n port) [
        | none ↦ some pkt
        | some real ↦ some (inbound_to n pkt real)
      ]
    ] in
    if not (same_bytes (slice pkt 16 4) n.assigned_v4) then some pkt else rewritten
