-- ===== src/Ippkt/Build/Options.antt =====
-- internal/ippkt/ippkt.go, SetMSS: the walk over the options of a TCP header.
use qd.Prelude.{
  ℕ, zero, suc, ◌+◌, ◌-◌, ◌/◌, ◌%◌, ◌≤◌, ◌≡◌, refl, ap, ◌∙◌, ◌⊎◌, ◌||◌, ◌&&◌, inl, inr, true, not,
  Option, some, ◌++◌, ◌==◌, ltb, leb, length, take, arith, Bool-cases, Option-cases,
}
use qd.Ippkt.{Bytes, byte, put_u16, proto_tcp, after}
use qd.Ippkt.Build.{set_mss_loop, set_mss_segment, set_mss, tcp_head, is_ack}

-- The bytes as they were, or with `mss` in an option of kind 2 and size 4 between `at` and `end`.
abbrev pub Clamped : Bytes → ℕ → ℕ → ℕ → Bytes → Type 0
Clamped rest at end mss out =
    (out ≡ rest)
    ⊎ ((i : ℕ) × (at ≤ i)
        × (i + 4 ≤ end)
        × (byte rest i ≡ 2)
        × (byte rest (i + 1) ≡ 4)
        × (out ≡ put_u16 rest (i + 2) mss))

-- A walk that ends.
abbrev Ended : Option Bytes → Bytes → ℕ → ℕ → ℕ → Type 0
Ended walk rest at end mss = (out : Bytes) × (walk ≡ some out) × Clamped rest at end mss out

-- What holds from a later option holds from an earlier one.
later_Ended :
    (walk : Option Bytes) (rest : Bytes) (at to end mss : ℕ)
    → at ≤ to
    → Ended walk rest to end mss
    → Ended walk rest at end mss
later_Ended walk rest at to end mss le (out, e, inl same) = (out, e, inl same)
later_Ended walk rest at to end mss le (out, e, inr (i, from, fits, kind, size, put)) =
    (out, e, inr (i, omega arith, fits, kind, size, put))

set_mss_loop-Ended :
    (n : ℕ) (rest : Bytes) (at end mss : ℕ)
    → end ≤ at + n
    → Ended (set_mss_loop (suc n) rest at end mss) rest at end mss
unfolding set_mss_loop
set_mss_loop-Ended zero rest at end mss enough =
    let over : leb end (at + 1) ≡ true = ground arith in rw over (rest, refl, inl refl)
set_mss_loop-Ended (suc n) rest at end mss enough =
    let kind = byte rest at in
    let size = byte rest (at + 1) in
    elim (Bool-cases (leb end (at + 1))) [
      | inl over ↦ rw over (rest, refl, inl refl)
      | inr inside ↦ elim (Bool-cases (kind == 0)) [
        | inl last ↦ rw (inside, last) (rest, refl, inl refl)
        | inr more ↦ elim (Bool-cases (kind == 1)) [
          | inl pad ↦
              rw (inside, more, pad)
                (later_Ended (set_mss_loop (suc n) rest (at + 1) end mss) rest at (at + 1) end mss
                  (omega arith) (set_mss_loop-Ended n rest (at + 1) end mss (omega arith)))
          | inr long ↦ elim (Bool-cases (ltb size 2 || ltb end (at + size))) [
            | inl bad ↦ rw (inside, more, long, bad) (rest, refl, inl refl)
            | inr good ↦ elim (Bool-cases (kind == 2 && size == 4)) [
              | inl found ↦
                  rw (inside, more, long, good, found)
                    (
                      put_u16 rest (at + 2) mss,
                      refl,
                      inr (at, ground arith, ground arith, ground arith, ground arith, refl),
                    )
              | inr other ↦
                  rw (inside, more, long, good, other)
                    (later_Ended (set_mss_loop (suc n) rest (at + size) end mss) rest at (at + size)
                      end mss (omega arith)
                      (set_mss_loop-Ended n rest (at + size) end mss (ground arith)))
            ]
          ]
        ]
      ]
    ]

-- What SetMSS leaves of a packet: the packet, or its segment with the size clamped in an option
-- of its TCP header.
abbrev pub IsClamped : Bytes → ℕ → Bytes → Type 0
IsClamped pkt mss out =
    (out ≡ pkt)
    ⊎ ((rest walked : Bytes) × (after pkt 20 ≡ some (proto_tcp, rest))
        × (tcp_head rest ≤ length rest)
        × Clamped rest 20 (tcp_head rest) mss walked
        × (out ≡ take (length pkt - length rest) pkt ++ walked))

set_mss_segment-IsClamped :
    (pkt : Bytes) (mss proto : ℕ) (rest : Bytes)
    → after pkt 20 ≡ some (proto, rest)
    → (out : Bytes) × (set_mss_segment pkt mss (proto, rest) ≡ some out) × IsClamped pkt mss out
unfolding set_mss_segment
set_mss_segment-IsClamped pkt mss proto rest e =
    let flags = byte rest 13 in
    elim (Bool-cases (not (proto == proto_tcp) || is_ack flags || not (flags / 2 % 2 == 1))) [
      | inl other ↦ rw other (pkt, refl, inl refl)
      | inr syn ↦ elim (Bool-cases (ltb (length rest) (tcp_head rest))) [
        | inl cut ↦ rw (syn, cut) (pkt, refl, inl refl)
        | inr whole ↦
            let (walked, w, c) =
              set_mss_loop-Ended (tcp_head rest) rest 20 (tcp_head rest) mss (omega arith) in
            let tcp : proto ≡ proto_tcp = ground arith in
            rw (syn, whole, w)
              (
                take (length pkt - length rest) pkt ++ walked,
                refl,
                inr (rest, walked, e ∙ ap (λ (p : ℕ). some (p, rest)) tcp, ground arith, c, refl),
              )
      ]
    ]

-- SetMSS ends on every packet: its walk over the TCP options never runs out of fuel, and it
-- leaves the packet as it was, or, where the packet is TCP with its header inside, with the size
-- written into an option of kind 2 and length 4 that lies in the header, and every other byte as
-- it was.
pub set_mss-IsClamped :
    (pkt : Bytes) (mss : ℕ) → (out : Bytes) × (set_mss pkt mss ≡ some out) × IsClamped pkt mss out
unfolding set_mss
set_mss-IsClamped pkt mss = elim (Option-cases (after pkt 20)) [
  | inl e ↦ rw (e, set_mss) (pkt, refl, inl refl)
  | inr ((proto, rest), e) ↦
      let (out, done, c) = set_mss_segment-IsClamped pkt mss proto rest e in
      (out, rw (e, set_mss) done, c)
]
