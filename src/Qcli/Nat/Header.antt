-- ===== src/Qcli/Nat/Header.antt =====
-- internal/qcli/nat/nat.go, fixIPv4Header: the header that the translation leaves behind.
use qd.Prelude.{
  ℕ, ◌+◌, ◌-◌, ◌/◌, ◌%◌, ◌≤◌, ◌<◌, ◌≡◌, refl, ap, ◌∙◌, ◌||◌, length, arith, set, take, get_or, ltb,
  false, take-set, length-set, length-take, get_or-set_self, get_or-set_ne, All-set, All-take,
}
use qd.Ippkt.{Bytes, header_len, put_u16}
use qd.Ippkt.Checksum.{
  checksum, checksum-canon, word_sum, word_sum-put, fold-word_sum, canon, canon_fill, IsBytes,
}
use qd.Qcli.Nat.{fix_ipv4_header, flip16}

-- A header `h` of at most 60 bytes with the complement of its sum written at 10.
fill_checksum :
    (h : Bytes)
    → IsBytes h
    → 12 ≤ length h
    → length h ≤ 60
    → get_or h 10 0 ≡ 0
    → get_or h 11 0 ≡ 0
    → checksum (put_u16 h 10 (flip16 (canon (word_sum h)))) ≡ 0
fill_checksum h bytes long short z10 z11 =
    let v = flip16 (canon (word_sum h)) in
    let low : v < 65536 = omega arith in
    let b = put_u16 h 10 v in
    let b_bytes : IsBytes b =
      All-set (λ (x : ℕ). x < 256) (set h 10 (v / 256 % 256)) 11 (v % 256)
        (All-set (λ (x : ℕ). x < 256) h 10 (v / 256 % 256) bytes (omega arith)) (omega arith) in
    let b_length : length b ≡ length h =
      length-set (set h 10 (v / 256 % 256)) 11 (v % 256) ∙ length-set h 10 (v / 256 % 256) in
    let summed : word_sum b ≡ word_sum h + v =
      (let put = word_sum-put h 5 v low (omega arith) in omega arith) in
    checksum-canon b b_bytes (omega arith)
    ∙ ap (λ (t : ℕ). 65535 - canon t) summed
    ∙ ap (λ (t : ℕ). 65535 - t) (canon_fill (word_sum h))
    ∙ (let r : 65535 - 65535 ≡ 0 = refl in r)

-- The header of a packet with its checksum cleared.
cleared : Bytes → ℕ → Bytes
cleared pkt n = take n (set (set pkt 10 0) 11 0)

cleared_facts :
    (pkt : Bytes) (n : ℕ)
    → IsBytes pkt
    → 12 ≤ n
    → n ≤ length pkt
    → IsBytes (cleared pkt n)
      × (length (cleared pkt n) ≡ n)
      × (get_or (cleared pkt n) 10 0 ≡ 0)
      × (get_or (cleared pkt n) 11 0 ≡ 0)
unfolding cleared
cleared_facts pkt n bytes long fits =
    let h = take n pkt in
    let h_length : length h ≡ n = omega (arith, length-take n pkt) in
    let first : length (set h 10 0) ≡ n = length-set h 10 0 ∙ h_length in
    let split : take n (set (set pkt 10 0) 11 0) ≡ set (set h 10 0) 11 0 =
      take-set n 11 (set pkt 10 0) 0 ∙ ap (λ (b : Bytes). set b 11 0) (take-set n 10 pkt 0) in
    rw split (
      All-set (λ (x : ℕ). x < 256) (set h 10 0) 11 0
          (All-set (λ (x : ℕ). x < 256) h 10 0 (All-take (λ (x : ℕ). x < 256) n pkt bytes)
            (omega arith))
          (omega arith),
      length-set (set h 10 0) 11 0 ∙ first,
      get_or-set_ne (set h 10 0) 11 10 0 0 (omega arith) ∙ get_or-set_self h 10 0 0 (omega arith),
      get_or-set_self (set h 10 0) 11 0 0 (omega arith),
    )

-- On a packet whose header length fits, fixIPv4Header leaves a header whose checksum verifies:
-- the checksum over the header as it stands is 0.
pub fix_ipv4_header-verifies :
    (pkt : Bytes)
    → IsBytes pkt
    → 20 ≤ header_len pkt
    → header_len pkt ≤ length pkt
    → checksum (take (header_len pkt) (fix_ipv4_header pkt)) ≡ 0
unfolding fix_ipv4_header cleared
fix_ipv4_header-verifies pkt bytes long fits =
    let ihl = header_len pkt in
    let h = cleared pkt ihl in
    let (h_bytes, h_length, z10, z11) = cleared_facts pkt ihl bytes (omega arith) fits in
    let small : ihl ≤ 60 = omega arith in
    let guard : (ltb ihl 20 || ltb (length pkt) ihl) ≡ false = ground arith in
    rw guard (
      rw (take-set ihl 11) (
        rw (take-set ihl 10) (
          rw (fold-word_sum h h_bytes (omega arith))
            (fill_checksum h h_bytes (omega arith) (omega arith) z10 z11))))
