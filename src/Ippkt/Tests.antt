-- ===== src/Ippkt/Tests.antt =====
-- internal/ippkt/ippkt.go: the theorems on packets at concrete bytes.
use qd.Prelude.{inl, ◌-◌, ◌≡◌, refl, [], ◌∷◌, ◌++◌, some, map, length, take, drop, arith}
use qd.Ippkt.{Bytes, spell, after, version, header_len, fragment_offset, put_u16}
use qd.Ippkt.Checksum.{
  fold, sum_loop, fold_rounds, fold-canon, checksum, checksum-canon, canon, word_sum,
}
use qd.Ippkt.Build.{
  reset4, back_header, reset_segment, unfit, taken, set_mss, set_mss_segment, set_mss_loop, is_ack,
  tcp_head,
}
use qd.Ippkt.Build.Answers.{pseudo_of, reset4-verifies}
use qd.Ippkt.Build.Sizes.{here, padded, skipped, set_mss-Meets}
use qd.Ippkt.Build.Options.{IsClamped, set_mss-IsClamped}
use qd.Ippkt.Split.{fragments4, join-fragments4, join, body_of}

fold-canon_example : fold fold_rounds 0xfffffffe ≡ canon 0xfffffffe
fold-canon_example = fold-canon 0xfffffffe (omega arith)

checksum-canon_example : checksum (1 ∷ 2 ∷ 255 ∷ []) ≡ 65535 - canon (word_sum (1 ∷ 2 ∷ 255 ∷ []))
checksum-canon_example = checksum-canon (1 ∷ 2 ∷ 255 ∷ []) (ground arith) (omega arith)

-- A SYN of 20 bytes from 10.0.0.1:4096 to 8.8.8.8:443.
abbrev syn : Bytes
syn =
    0x45 ∷ 0 ∷ 0 ∷ 40 ∷ 0 ∷ 1 ∷ 0 ∷ 0 ∷ 64 ∷ 6 ∷ 0 ∷ 0 ∷ 10 ∷ 0 ∷ 0 ∷ 1 ∷ 8 ∷ 8 ∷ 8 ∷ 8 ∷ 16 ∷ 0 ∷ 1
    ∷ 187 ∷ 0 ∷ 0 ∷ 0 ∷ 9 ∷ 0 ∷ 0 ∷ 0 ∷ 0 ∷ 0x50 ∷ 2 ∷ 0 ∷ 0 ∷ 0 ∷ 0 ∷ 0 ∷ 0 ∷ []

abbrev syn_answer : Bytes
syn_answer =
    0x45 ∷ 0 ∷ 0 ∷ 40 ∷ 0 ∷ 0 ∷ 0 ∷ 0 ∷ 64 ∷ 6 ∷ 96 ∷ 192 ∷ 8 ∷ 8 ∷ 8 ∷ 8 ∷ 10 ∷ 0 ∷ 0 ∷ 1 ∷ 1 ∷ 187
    ∷ 16 ∷ 0 ∷ 0 ∷ 0 ∷ 0 ∷ 0 ∷ 0 ∷ 0 ∷ 0 ∷ 10 ∷ 0x50 ∷ 0x14 ∷ 0 ∷ 0 ∷ 131 ∷ 251 ∷ 0 ∷ 0 ∷ []

answered : reset4 syn ≡ some syn_answer
unfolding reset4 back_header reset_segment unfit taken spell checksum fold sum_loop
answered = refl

reset4-verifies_example :
    (length syn_answer ≡ 40)
    × (checksum (take 20 syn_answer) ≡ 0)
    × (checksum (pseudo_of (take 20 syn_answer) ++ drop 20 syn_answer) ≡ 0)
reset4-verifies_example = reset4-verifies syn syn_answer (ground arith) answered

-- A SYN with one option, a segment size of 1460.
abbrev sized : Bytes
sized =
    0x45 ∷ 0 ∷ 0 ∷ 44 ∷ 0 ∷ 1 ∷ 0 ∷ 0 ∷ 64 ∷ 6 ∷ 0 ∷ 0 ∷ 10 ∷ 0 ∷ 0 ∷ 1 ∷ 8 ∷ 8 ∷ 8 ∷ 8 ∷ 16 ∷ 0 ∷ 1
    ∷ 187 ∷ 0 ∷ 0 ∷ 0 ∷ 9 ∷ 0 ∷ 0 ∷ 0 ∷ 0 ∷ 0x60 ∷ 2 ∷ 0 ∷ 0 ∷ 0 ∷ 0 ∷ 0 ∷ 0 ∷ 2 ∷ 4 ∷ 5 ∷ 180 ∷ []

sized_down : set_mss sized 1400 ≡ some (take 42 sized ++ 5 ∷ 120 ∷ [])
unfolding set_mss set_mss_segment set_mss_loop after is_ack tcp_head put_u16 version header_len
    fragment_offset
sized_down = refl

set_mss-IsClamped_example :
    (out : Bytes) × (set_mss sized 1400 ≡ some out) × IsClamped sized 1400 out
set_mss-IsClamped_example = set_mss-IsClamped sized 1400

-- Padding, a window scale, padding and the size.
abbrev sized_late : Bytes
sized_late =
    0x45 ∷ 0 ∷ 0 ∷ 52 ∷ 0 ∷ 1 ∷ 0 ∷ 0 ∷ 64 ∷ 6 ∷ 0 ∷ 0 ∷ 10 ∷ 0 ∷ 0 ∷ 1 ∷ 8 ∷ 8 ∷ 8 ∷ 8 ∷ 16 ∷ 0 ∷ 1
    ∷ 187 ∷ 0 ∷ 0 ∷ 0 ∷ 9 ∷ 0 ∷ 0 ∷ 0 ∷ 0 ∷ 0x70 ∷ 2 ∷ 0 ∷ 0 ∷ 0 ∷ 0 ∷ 0 ∷ 0 ∷ 1 ∷ 3 ∷ 3 ∷ 7 ∷ 2 ∷ 4
    ∷ 5 ∷ 180 ∷ []

late_after : after sized_late 20 ≡ some (6, drop 20 sized_late)
unfolding after version header_len fragment_offset
late_after = refl

set_mss-Meets_example :
    set_mss sized_late 1400 ≡ some (take 20 sized_late ++ put_u16 (drop 20 sized_late) 26 1400)
set_mss-Meets_example =
    set_mss-Meets sized_late (drop 20 sized_late) 1400 24 late_after refl refl (omega arith)
      (padded (omega arith) refl
        (skipped (omega arith) (omega arith) (inl (λ e. omega arith)) (omega arith) here))
      refl refl (omega arith)

join-fragments4_example : join (map (drop 20) (fragments4 syn 30)) ≡ body_of syn
join-fragments4_example =
    join-fragments4 syn 30 (omega arith) refl refl (omega arith) (omega arith) (omega arith)
