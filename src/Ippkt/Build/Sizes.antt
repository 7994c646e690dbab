-- ===== src/Ippkt/Build/Sizes.antt =====
-- internal/ippkt/ippkt.go, SetMSS: the option that it rewrites.
use qd.Prelude.{
  ℕ, zero, suc, ◌+◌, ◌-◌, ◌/◌, ◌%◌, ◌≤◌, ◌<◌, ◌≡◌, ◌≢◌, refl, ◌∙◌, ◌⊎◌, ◌||◌, ◌&&◌, false, not,
  some, ◌++◌, ◌==◌, ltb, leb, length, take, arith,
}
use qd.Ippkt.{Bytes, byte, put_u16, proto_tcp, after}
use qd.Ippkt.Build.{set_mss_loop, set_mss_segment, set_mss, tcp_head, is_ack}

-- From the option at `at`, a walk over padding and over options by their lengths comes to the one at
-- `i`, before the end of the header and with no clampable option on the way.
pub data Meets (rest : Bytes) (end : ℕ) : ℕ → ℕ → Type 0 where
  here : {i : ℕ} → Meets rest end i i
  padded :
      {at i : ℕ} → at + 1 < end → byte rest at ≡ 1 → Meets rest end (at + 1) i → Meets rest end at i
  skipped :
      {at i : ℕ}
      → 1 < byte rest at
      → 1 < byte rest (at + 1)
      → (byte rest at ≢ 2) ⊎ (byte rest (at + 1) ≢ 4)
      → at + byte rest (at + 1) ≤ end
      → Meets rest end (at + byte rest (at + 1)) i
      → Meets rest end at i

loop_here :
    (rest : Bytes) (end mss n i : ℕ)
    → byte rest i ≡ 2
    → byte rest (i + 1) ≡ 4
    → i + 4 ≤ end
    → set_mss_loop (suc n) rest i end mss ≡ some (put_u16 rest (i + 2) mss)
unfolding set_mss_loop
loop_here rest end mss n i kind size fits =
    let b0 : leb end (i + 1) ≡ false = ground arith in
    let b1 : ltb 4 2 || ltb end (i + 4) ≡ false = ground arith in rw (b0, kind, size) (rw b1 refl)

loop_padded :
    (rest : Bytes) (end mss n at : ℕ)
    → at + 1 < end
    → byte rest at ≡ 1
    → set_mss_loop (suc n) rest at end mss ≡ set_mss_loop n rest (at + 1) end mss
unfolding set_mss_loop
loop_padded rest end mss n at inside one =
    let b0 : leb end (at + 1) ≡ false = ground arith in rw (b0, one) refl

loop_skipped :
    (rest : Bytes) (end mss n at : ℕ)
    → 1 < byte rest at
    → 1 < byte rest (at + 1)
    → (byte rest at ≢ 2) ⊎ (byte rest (at + 1) ≢ 4)
    → at + byte rest (at + 1) ≤ end
    → set_mss_loop (suc n) rest at end mss ≡ set_mss_loop n rest (at + byte rest (at + 1)) end mss
unfolding set_mss_loop
loop_skipped rest end mss n at k s other fit =
    let kind = byte rest at in
    let size = byte rest (at + 1) in
    let b0 : leb end (at + 1) ≡ false = ground arith in
    let b1 : (kind == 0) ≡ false = ground arith in
    let b2 : (kind == 1) ≡ false = ground arith in
    let b3 : ltb size 2 || ltb end (at + size) ≡ false = ground arith in
    let b4 : kind == 2 && size == 4 ≡ false = ground arith in rw (b0, b1, b2, b3, b4) refl

set_mss_loop-Meets :
    (rest : Bytes) (end mss n at i : ℕ)
    → Meets rest end at i
    → byte rest i ≡ 2
    → byte rest (i + 1) ≡ 4
    → i + 4 ≤ end
    → end ≤ at + n
    → set_mss_loop (suc n) rest at end mss ≡ some (put_u16 rest (i + 2) mss)
set_mss_loop-Meets rest end mss n at i here kind size fits enough =
    loop_here rest end mss n i kind size fits
set_mss_loop-Meets rest end mss zero at i (padded inside one more) kind size fits enough =
    absurd (omega arith)
set_mss_loop-Meets rest end mss (suc n) at i (padded inside one more) kind size fits enough =
    loop_padded rest end mss (suc n) at inside one
    ∙ set_mss_loop-Meets rest end mss n (at + 1) i more kind size fits (omega arith)
set_mss_loop-Meets rest end mss zero at i (skipped k s other fit more) kind size fits enough =
    absurd (omega arith)
set_mss_loop-Meets rest end mss (suc n) at i (skipped k s other fit more) kind size fits enough =
    loop_skipped rest end mss (suc n) at k s other fit
    ∙ set_mss_loop-Meets rest end mss n (at + byte rest (at + 1)) i more kind size fits
        (omega arith)

-- In a TCP packet with SYN and no ACK whose header is inside it, where the options up to one of
-- kind 2 and length 4 that lies in the header are padding or other options of a length of at
-- least 2 that end in the header, SetMSS writes the size into that option and changes nothing
-- else.
pub set_mss-Meets :
    (pkt rest : Bytes) (mss i : ℕ)
    → after pkt 20 ≡ some (proto_tcp, rest)
    → byte rest 13 / 2 % 2 ≡ 1
    → byte rest 13 / 16 % 2 ≡ 0
    → tcp_head rest ≤ length rest
    → Meets rest (tcp_head rest) 20 i
    → byte rest i ≡ 2
    → byte rest (i + 1) ≡ 4
    → i + 4 ≤ tcp_head rest
    → set_mss pkt mss ≡ some (take (length pkt - length rest) pkt ++ put_u16 rest (i + 2) mss)
unfolding set_mss set_mss_segment
set_mss-Meets pkt rest mss i e syn no_ack whole met kind size fits =
    let walked =
      set_mss_loop-Meets rest (tcp_head rest) mss (tcp_head rest) 20 i met kind size fits
        (omega arith) in
    let go : not (proto_tcp == proto_tcp)
          || is_ack (byte rest 13)
          || not (byte rest 13 / 2 % 2 == 1)
        ≡ false =
      ground arith in
    let inside : ltb (length rest) (tcp_head rest) ≡ false = ground arith in
    rw (e, set_mss) (rw (go, inside, walked) refl)
