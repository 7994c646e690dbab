-- ===== src/Qcli/Nat/Ports.antt =====
-- internal/qcli/nat/nat.go: which real address an inbound packet gets, by the port of its flow.
use qd.Prelude.{
  ℕ, ◌+◌, ◌*◌, ◌/◌, ◌%◌, ◌^◌, ◌<◌, ◌≡◌, refl, ap, ◌≢◌, ◌∙◌, inl, inr, true, false, some, List, [],
  ◌∷◌, ◌==◌, arith, All, Option-cases, Bool-cases, ==_iff,
}
use qd.Ippkt.{Bytes, slice, spell}
use qd.Qcli.Nat.{
  Nat, same_bytes, at_port, udp_port, note_port_v4, note_real, outbound_v4, real_for_v4,
  bytes_of_u32,
}

quad :
    (w x y z a b c d : ℕ)
    → w ≡ a
    → x ≡ b
    → y ≡ c
    → z ≡ d
    → (w ∷ x ∷ y ∷ z ∷ []) ≡ (a ∷ b ∷ c ∷ d ∷ [])
quad w x y z a b c d ea eb ec ed = cc

-- A number spells the four bytes that spell it.
bytes_of_u32-spell :
    (a b c d : ℕ)
    → a < 256
    → b < 256
    → c < 256
    → d < 256
    → bytes_of_u32 (spell 0 (a ∷ b ∷ c ∷ d ∷ [])) ≡ (a ∷ b ∷ c ∷ d ∷ [])
unfolding bytes_of_u32 spell
bytes_of_u32-spell a b c d ha hb hc hd =
    let n = (((0 * 256 + a) * 256 + b) * 256 + c) * 256 + d in
    quad (n / 2 ^ 24 % 256) (n / 2 ^ 16 % 256) (n / 256 % 256) (n % 256) a b c d (omega arith)
      (omega arith) (omega arith) (omega arith)

note_real-ports : (n : Nat) (src : Bytes) (p : ℕ) → (note_real n src).port_v4 p ≡ n.port_v4 p
unfolding note_real
note_real-ports n src p = elim (Option-cases n.real_v4) [
  | inl e ↦ rw e refl
  | inr (held, e) ↦
      rw e (elim (Bool-cases (same_bytes held src)) [ inl s ↦ rw s refl | inr s ↦ rw s refl ])
]

-- What an outbound packet leaves in the table of ports is what noting its port leaves.
outbound_ports :
    (n : Nat) (pkt : Bytes) (p : ℕ)
    → (outbound_v4 n pkt).0.port_v4 p ≡ (note_port_v4 n pkt).port_v4 p
unfolding outbound_v4
outbound_ports n pkt p = elim (Bool-cases (same_bytes (slice pkt 12 4) n.assigned_v4)) [
  | inl s ↦ rw s refl
  | inr s ↦ rw s (note_real-ports (note_port_v4 n pkt) (slice pkt 12 4) p)
]

outbound_own :
    (n : Nat) (pkt : Bytes) (p : ℕ)
    → udp_port pkt 4 0 ≡ some p
    → (outbound_v4 n pkt).0.port_v4 p ≡ spell 0 (slice pkt 12 4)
unfolding note_port_v4 at_port
outbound_own n pkt p e =
    let self : (p == p) ≡ true = (==_iff p p).1 refl in
    outbound_ports n pkt p ∙ rw (e, note_port_v4) (rw self refl)

outbound_other :
    (n : Nat) (pkt : Bytes) (p : ℕ)
    → udp_port pkt 4 0 ≢ some p
    → (outbound_v4 n pkt).0.port_v4 p ≡ n.port_v4 p
unfolding note_port_v4 at_port
outbound_other n pkt p other = outbound_ports n pkt p ∙ elim (Option-cases (udp_port pkt 4 0)) [
  | inl e ↦ rw (e, note_port_v4) refl
  | inr (q, e) ↦
      rw (e, note_port_v4)
        (elim (Bool-cases (q == p)) [
          | inl same ↦ absurd (other (e ∙ ap (λ (x : ℕ). some x) ((==_iff q p).0 same)))
          | inr differ ↦ rw differ refl
        ])
]

-- The outbound packets that follow one another.
unfoldable pub outbounds : Nat → List Bytes → Nat
outbounds n [] = n
outbounds n (pkt ∷ rest) = outbounds (outbound_v4 n pkt).0 rest

outbounds_keep :
    (n : Nat) (later : List Bytes) (p : ℕ)
    → All (λ (q : Bytes). udp_port q 4 0 ≢ some p) later
    → (outbounds n later).port_v4 p ≡ n.port_v4 p
unfolding outbounds
outbounds_keep n [] p h = refl
outbounds_keep n (pkt ∷ rest) p h =
    outbounds_keep (outbound_v4 n pkt).0 rest p h.1 ∙ outbound_other n pkt p h.0

known_port :
    (n : Nat) (p v : ℕ)
    → n.port_v4 p ≡ v
    → (v == 0) ≡ false
    → real_for_v4 n (some p) ≡ some (bytes_of_u32 v)
unfolding real_for_v4
known_port n p v e ne = rw e (rw ne refl)

-- After an outbound UDP packet of port `p` from the address a.b.c.d, which is not 0.0.0.0, and
-- any further outbound packets that are not UDP of port `p`, an inbound packet of port `p` has
-- a.b.c.d as its real address, whichever address sent last.
pub real_for_v4-outbounds :
    (n : Nat) (pkt : Bytes) (later : List Bytes) (p a b c d : ℕ)
    → udp_port pkt 4 0 ≡ some p
    → slice pkt 12 4 ≡ (a ∷ b ∷ c ∷ d ∷ [])
    → a < 256
    → b < 256
    → c < 256
    → d < 256
    → 0 < a + b + c + d
    → All (λ (q : Bytes). udp_port q 4 0 ≢ some p) later
    → real_for_v4 (outbounds (outbound_v4 n pkt).0 later) (some p) ≡ some (a ∷ b ∷ c ∷ d ∷ [])
unfolding spell
real_for_v4-outbounds n pkt later p a b c d e src ha hb hc hd pos others =
    let held =
      outbounds_keep (outbound_v4 n pkt).0 later p others
      ∙ outbound_own n pkt p e
      ∙ ap (spell 0) src in
    let v = spell 0 (a ∷ b ∷ c ∷ d ∷ []) in
    let ne : (v == 0) ≡ false = ground arith in
    known_port (outbounds (outbound_v4 n pkt).0 later) p v held ne
    ∙ ap (λ (x : Bytes). some x) (bytes_of_u32-spell a b c d ha hb hc hd)
