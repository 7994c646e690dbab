-- ===== src/Qcli/Nat/Tests.antt =====
-- internal/qcli/nat/nat.go: the theorems on the translation at concrete packets.
use qd.Prelude.{◌+◌, ◌-◌, ◌≡◌, ◌≢◌, refl, some, [], ◌∷◌, take, arith}
use qd.Ippkt.{Bytes, header_len}
use qd.Ippkt.Checksum.{checksum, canon, word_sum}
use qd.Netip.{v4}
use qd.Qcli.Nat.{Nat, csum_update, fix_ipv4_header, outbound_v4, udp_port, port_behind, real_for_v4}
use qd.Qcli.Nat.Apply.{new_nat}
use qd.Qcli.Nat.Ports.{outbounds, real_for_v4-outbounds}
use qd.Qcli.Nat.Sums.{csum_update-canon}
use qd.Qcli.Nat.Header.{fix_ipv4_header-verifies}

abbrev header : Bytes
header =
    0x45 ∷ 0 ∷ 0 ∷ 20 ∷ 0 ∷ 1 ∷ 0 ∷ 0 ∷ 64 ∷ 17 ∷ 0 ∷ 0 ∷ 192 ∷ 168 ∷ 0 ∷ 5 ∷ 8 ∷ 8 ∷ 8 ∷ 8 ∷ []

csum_update-canon_example :
    csum_update (65535 - canon 70000) (192 ∷ 168 ∷ 0 ∷ 5 ∷ []) (10 ∷ 7 ∷ 0 ∷ 9 ∷ [])
    ≡ 65535 - canon (70000 - word_sum (192 ∷ 168 ∷ 0 ∷ 5 ∷ []) + word_sum (10 ∷ 7 ∷ 0 ∷ 9 ∷ []))
unfolding word_sum
csum_update-canon_example =
    csum_update-canon 70000 (192 ∷ 168 ∷ 0 ∷ 5 ∷ []) (10 ∷ 7 ∷ 0 ∷ 9 ∷ []) tt (ground arith)
      (ground arith) (omega arith) (omega arith) (omega arith)

fix_ipv4_header-verifies_example : checksum (take (header_len header) (fix_ipv4_header header)) ≡ 0
fix_ipv4_header-verifies_example =
    fix_ipv4_header-verifies header (ground arith) (omega arith) (omega arith)

-- A client that was assigned 10.7.0.9.
abbrev client : Nat
client = new_nat (v4 0x0a070009 ∷ [])

-- UDP from port 5000 of 192.168.0.5, and of 192.168.0.6 from port 5001.
abbrev query : Bytes
query =
    0x45 ∷ 0 ∷ 0 ∷ 28 ∷ 0 ∷ 1 ∷ 0 ∷ 0 ∷ 64 ∷ 17 ∷ 0 ∷ 0 ∷ 192 ∷ 168 ∷ 0 ∷ 5 ∷ 8 ∷ 8 ∷ 8 ∷ 8 ∷ 19
    ∷ 136 ∷ 0 ∷ 53 ∷ 0 ∷ 8 ∷ 0 ∷ 0 ∷ []

abbrev other_query : Bytes
other_query =
    0x45 ∷ 0 ∷ 0 ∷ 28 ∷ 0 ∷ 1 ∷ 0 ∷ 0 ∷ 64 ∷ 17 ∷ 0 ∷ 0 ∷ 192 ∷ 168 ∷ 0 ∷ 6 ∷ 8 ∷ 8 ∷ 8 ∷ 8 ∷ 19
    ∷ 137 ∷ 0 ∷ 53 ∷ 0 ∷ 8 ∷ 0 ∷ 0 ∷ []

query_port : udp_port query 4 0 ≡ some 5000
unfolding udp_port port_behind
query_port = refl

other_port : udp_port other_query 4 0 ≢ some 5000
unfolding udp_port port_behind
other_port e = let h : some 5001 ≡ some 5000 = e in ground arith

real_for_v4-outbounds_example :
    real_for_v4 (outbounds (outbound_v4 client query).0 (other_query ∷ [])) (some 5000)
    ≡ some (192 ∷ 168 ∷ 0 ∷ 5 ∷ [])
real_for_v4-outbounds_example =
    real_for_v4-outbounds client query (other_query ∷ []) 5000 192 168 0 5 query_port refl
      (omega arith) (omega arith) (omega arith) (omega arith) (omega arith) (other_port, tt)
