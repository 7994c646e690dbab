-- ===== src/Ippkt/Build/Answers.antt =====
-- internal/ippkt/ippkt.go: the checksums of the packets that Reset4 builds.
use qd.Prelude.{
  ℕ, ◌+◌, ◌/◌, ◌%◌, ◌^◌, ◌≤◌, ◌<◌, ◌≡◌, refl, ap, sym, ◌∙◌, ◌||◌, inl, inr, not, some, [], ◌∷◌,
  ◌++◌, ◌==◌, ltb, if◌then◌else◌, length, get_or, set, take, drop, arith, length-take, length-drop,
  length-append, take-append, drop-append, set-append, get_or-append, All-take, All-drop,
  All-append, Bool-cases, some_same, none_some,
}
use qd.Ippkt.{Bytes, byte, put_u16, slice, spell, header_len, version, proto_tcp}
use qd.Ippkt.Checksum.{checksum, IsBytes, checksum-canon}
use qd.Ippkt.Fill.{fill_own, put_u16-IsBytes, put_u16-length}
use qd.Ippkt.Build.{back_header, reset_segment, reset4, taken, unfit, put_u32, is_ack}

slice-length : (b : Bytes) (i n : ℕ) → i + n ≤ length b → length (slice b i n) ≡ n
slice-length b i n h = omega (arith, length-take n (drop i b), length-drop i b)

slice-IsBytes : (b : Bytes) (i n : ℕ) → IsBytes b → IsBytes (slice b i n)
slice-IsBytes b i n h =
    All-take (λ (x : ℕ). x < 256) n (drop i b) (All-drop (λ (x : ℕ). x < 256) i b h)

both : (xs ys : Bytes) → IsBytes xs → IsBytes ys → IsBytes (xs ++ ys)
both xs ys h k = All-append (λ (x : ℕ). x < 256) xs ys h k

checksum_low : (b : Bytes) → IsBytes b → length b ≤ 65535 → checksum b < 65536
checksum_low b h short = omega (arith, checksum-canon b h short)

-- The header of an answer is whole, of bytes, and verifies.
back_header_lem :
    (pkt : Bytes) (total proto : ℕ)
    → IsBytes pkt
    → 20 ≤ length pkt
    → proto < 256
    → (length (back_header pkt total proto) ≡ 20)
      × IsBytes (back_header pkt total proto)
      × (checksum (back_header pkt total proto) ≡ 0)
unfolding back_header
back_header_lem pkt total proto bytes long low =
    let ends = slice pkt 16 4 ++ slice pkt 12 4 in
    let ends_length : length ends ≡ 8 = omega (
      arith,
      length-append (slice pkt 16 4) (slice pkt 12 4),
      slice-length pkt 16 4 (omega arith),
      slice-length pkt 12 4 (omega arith),
    ) in
    let ends_bytes : IsBytes ends =
      both (slice pkt 16 4) (slice pkt 12 4) (slice-IsBytes pkt 16 4 bytes)
        (slice-IsBytes pkt 12 4 bytes) in
    let head : Bytes =
      0x45 ∷ 0 ∷ total / 256 % 256 ∷ total % 256 ∷ 0 ∷ 0 ∷ 0 ∷ 0 ∷ 64 ∷ proto ∷ 0 ∷ 0 ∷ ends in
    let head_bytes : IsBytes head = ground (arith, ends_bytes) in
    let small : length head ≤ 65535 = omega arith in
    (
      put_u16-length head 10 (checksum head) ∙ omega arith,
      put_u16-IsBytes head 10 (checksum head) head_bytes (checksum_low head head_bytes small),
      fill_own head 5 head_bytes (omega arith) small refl refl,
    )

-- The reset segment is 20 bytes, its checksum word 0.
reset_segment_lem :
    (seg : Bytes)
    → IsBytes seg
    → 20 ≤ length seg
    → (length (reset_segment seg) ≡ 20)
      × IsBytes (reset_segment seg)
      × (get_or (reset_segment seg) 16 0 ≡ 0)
      × (get_or (reset_segment seg) 17 0 ≡ 0)
unfolding reset_segment
reset_segment_lem seg bytes long =
    let a = slice seg 2 2 in
    let b = slice seg 0 2 in
    let zeros : Bytes = 0 ∷ 0 ∷ 0 ∷ 0 ∷ [] in
    let c = if is_ack (byte seg 13) then slice seg 8 4 else zeros in
    let d = put_u32 zeros 0 ((spell 0 (slice seg 4 4) + taken seg) % 2 ^ 32) in
    let e : Bytes = 0x50 ∷ 0x14 ∷ 0 ∷ 0 ∷ 0 ∷ 0 ∷ 0 ∷ 0 ∷ [] in
    let zero_bytes : IsBytes zeros = ground arith in
    let la = slice-length seg 2 2 (omega arith) in
    let lb = slice-length seg 0 2 (omega arith) in
    let c_facts : (length c ≡ 4) × IsBytes c = elim (Bool-cases (is_ack (byte seg 13))) [
      | inl t ↦ rw t (slice-length seg 8 4 (omega arith), slice-IsBytes seg 8 4 bytes)
      | inr t ↦ rw t (refl, zero_bytes)
    ] in
    let d_bytes : IsBytes d = ground arith in
    let e_bytes : IsBytes e = ground arith in
    let at = λ (i : ℕ).
      get_or-append 2 a (b ++ (c ++ (d ++ e))) (2 + (4 + (4 + i))) 0 la
      ∙ get_or-append 2 b (c ++ (d ++ e)) (4 + (4 + i)) 0 lb
      ∙ get_or-append 4 c (d ++ e) (4 + i) 0 c_facts.0
      ∙ get_or-append 4 d e i 0 refl in
    (
      omega (
        arith,
        length-append a (b ++ (c ++ (d ++ e))),
        length-append b (c ++ (d ++ e)),
        length-append c (d ++ e),
        length-append d e,
        c_facts.0,
        la,
        lb,
      ),
      both a (b ++ (c ++ (d ++ e))) (slice-IsBytes seg 2 2 bytes) (
          both b (c ++ (d ++ e)) (slice-IsBytes seg 0 2 bytes)
            (both c (d ++ e) c_facts.1 (both d e d_bytes e_bytes))),
      at 4,
      at 5,
    )

-- A segment under a pseudo-header of 12 bytes, with its checksum written at 16.
segment_verifies :
    (pseudo tcp : Bytes)
    → IsBytes pseudo
    → IsBytes tcp
    → length pseudo ≡ 12
    → length tcp ≡ 20
    → get_or tcp 16 0 ≡ 0
    → get_or tcp 17 0 ≡ 0
    → checksum (pseudo ++ put_u16 tcp 16 (checksum (pseudo ++ tcp))) ≡ 0
segment_verifies pseudo tcp hp ht lp lt z0 z1 =
    let b = pseudo ++ tcp in
    let v = checksum b in
    let lb : length b ≡ 32 = omega (arith, length-append pseudo tcp) in
    let split : put_u16 b 28 v ≡ pseudo ++ put_u16 tcp 16 v =
      ap (λ (r : Bytes). set r 29 (v % 256)) (set-append 12 pseudo tcp 16 (v / 256 % 256) lp)
      ∙ set-append 12 pseudo (set tcp 16 (v / 256 % 256)) 17 (v % 256) lp in
    ap checksum (sym split)
    ∙ fill_own b 14 (both pseudo tcp hp ht) (omega arith) (omega arith)
        (get_or-append 12 pseudo tcp 16 0 lp ∙ z0) (get_or-append 12 pseudo tcp 17 0 lp ∙ z1)

abbrev pub pseudo_of : Bytes → Bytes
pseudo_of out = slice out 12 8 ++ (0 ∷ proto_tcp ∷ 0 ∷ 20 ∷ [])

-- What the guards of Reset4 leave.
reset4_cases :
    (pkt out : Bytes)
    → reset4 pkt ≡ some out
    → (20 ≤ header_len pkt)
      × (header_len pkt + 20 ≤ length pkt)
      × (let tcp = reset_segment (drop (header_len pkt) pkt) in
          let head = back_header pkt 40 proto_tcp in
          head ++ put_u16 tcp 16 (checksum (pseudo_of head ++ tcp)) ≡ out)
unfolding reset4
reset4_cases pkt out e =
    elim (Bool-cases
      (ltb (length pkt) 20 || not (version pkt == 4) || not (byte pkt 9 == proto_tcp))) [
        | inl g ↦ none_some (rw g refl) e
        | inr g ↦
            elim (Bool-cases (ltb (header_len pkt) 20 || ltb (length pkt) (header_len pkt + 20))) [
              | inl h ↦ none_some (rw g (rw h refl)) e
              | inr h ↦ elim (Bool-cases (unfit (drop (header_len pkt) pkt))) [
                | inl k ↦ none_some (rw g (rw h (rw k refl))) e
                | inr k ↦ (
                  ground arith,
                  ground arith,
                  some_same _ out (sym (rw g (rw h (rw k refl))) ∙ e),
                )
              ]
            ]
      ]

-- Each packet that Reset4 builds has 40 bytes, its IPv4 header verifies, and so does its TCP
-- segment under the pseudo-header of its own addresses.
pub reset4-verifies :
    (pkt out : Bytes)
    → IsBytes pkt
    → reset4 pkt ≡ some out
    → (length out ≡ 40)
      × (checksum (take 20 out) ≡ 0)
      × (checksum (pseudo_of (take 20 out) ++ drop 20 out) ≡ 0)
reset4-verifies pkt out bytes e =
    let (ihl, fits, same) = reset4_cases pkt out e in
    let seg = drop (header_len pkt) pkt in
    let tcp = reset_segment seg in
    let head = back_header pkt 40 proto_tcp in
    let pseudo = pseudo_of head in
    let (head_length, head_bytes, head_sum) =
      back_header_lem pkt 40 proto_tcp bytes (omega arith) (omega arith) in
    let (tcp_length, tcp_bytes, z0, z1) =
      reset_segment_lem seg (All-drop (λ (x : ℕ). x < 256) (header_len pkt) pkt bytes)
        (omega (arith, length-drop (header_len pkt) pkt)) in
    let tcp' = put_u16 tcp 16 (checksum (pseudo ++ tcp)) in
    let pseudo_tail : IsBytes (0 ∷ proto_tcp ∷ 0 ∷ 20 ∷ []) = ground arith in
    let pseudo_length : length pseudo ≡ 12 = omega (
      arith,
      length-append (slice head 12 8) (0 ∷ proto_tcp ∷ 0 ∷ 20 ∷ []),
      slice-length head 12 8 (omega arith),
    ) in
    let front : take 20 out ≡ head =
      ap (take 20) (sym same) ∙ take-append 20 head tcp' head_length in
    let back : drop 20 out ≡ tcp' =
      ap (drop 20) (sym same) ∙ drop-append 20 head tcp' head_length in
    (
      ap (λ (b : Bytes). length b) (sym same)
          ∙ omega
              (arith, length-append head tcp', put_u16-length tcp 16 (checksum (pseudo ++ tcp))),
      ap checksum front ∙ head_sum,
      ap checksum (
            ap (λ (h : Bytes). pseudo_of h ++ drop 20 out) front
            ∙ ap (λ (t : Bytes). pseudo ++ t) back)
          ∙ segment_verifies pseudo tcp
              (both (slice head 12 8) (0 ∷ proto_tcp ∷ 0 ∷ 20 ∷ [])
                (slice-IsBytes head 12 8 head_bytes) pseudo_tail)
              tcp_bytes pseudo_length tcp_length z0 z1,
    )
