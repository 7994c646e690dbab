-- ===== src/Dns/Ages.antt =====
-- internal/dnsproxy/dnsproxy.go, age: what it does to the times of a kept answer's records.
use qd.Prelude.{
  ℕ, zero, suc, ◌+◌, ◌-◌, ◌/◌, ◌≤◌, ◌<◌, ◌≡◌, refl, ap, ◌∙◌, max, ◌⊎◌, inl, inr, List, [], ◌∷◌,
  ◌==◌, ltb, if◌then◌else◌, length, arith, Bool-cases,
}
use qd.Ippkt.{Bytes, byte, u16_at, put_u16}
use qd.Ippkt.Checksum.{IsBytes}
use qd.Dns.{skip_name, after_questions, u32_at, aged, aged_at}
use qd.Dns.Writes.{put_u32-byte, put_u32-length, u32_at-put, wrapped-IsBytes, u32-low}

-- The type and the time of each of the next `n` records.
unfoldable pub stamps : ℕ → Bytes → ℕ → List (ℕ × ℕ)
stamps zero msg i = []
stamps (suc n) msg i =
    let at = skip_name msg i in
    let rest = stamps n msg (at + 10 + u16_at msg (at + 8)) in
    if ltb (length msg) (i + 10)
    then []
    else if ltb (length msg) (at + 10)
    then []
    else (u16_at msg at, u32_at msg (at + 4)) ∷ rest

unfoldable pub all_stamps : Bytes → List (ℕ × ℕ)
all_stamps msg =
    if ltb (length msg) 12
    then []
    else stamps (u16_at msg 6 + u16_at msg 8 + u16_at msg 10) msg (after_questions msg)

-- An option record, of type 41, has flags in place of a time; any other has what is left of its
-- time, and never less than 1.
unfoldable pub aged_stamp : ℕ → ℕ × ℕ → ℕ × ℕ
aged_stamp by (kind, left) = (kind, if kind == 41 then left else max 1 (left - by))

-- A time has 32 bits, so the age of a stale answer is above it.
aged_lem : (by left : ℕ) → left < 0x100000000 → aged by left ≡ max 1 (left - by)
unfolding aged
aged_lem by left h = ground arith

-- A record that `aged_at` has in hand: what it leaves as it was, and what it writes.
pub aged_at-byte :
    (by : ℕ) (msg : Bytes) (at j : ℕ)
    → (j < at + 4) ⊎ (at + 8 ≤ j)
    → byte (aged_at by msg at) j ≡ byte msg j
unfolding aged_at
aged_at-byte by msg at j h = elim (Bool-cases (u16_at msg at == 41)) [
  | inl e ↦ rw e refl
  | inr e ↦ rw e (
      put_u32-byte msg (at + 4) (aged by (u32_at msg (at + 4))) j
        (elim h [ inl x ↦ inl x | inr x ↦ inr (omega arith) ]))
]

pub aged_at-length : (by : ℕ) (msg : Bytes) (at : ℕ) → length (aged_at by msg at) ≡ length msg
unfolding aged_at
aged_at-length by msg at = elim (Bool-cases (u16_at msg at == 41)) [
  | inl e ↦ rw e refl
  | inr e ↦ rw e (put_u32-length msg (at + 4) (aged by (u32_at msg (at + 4))))
]

pub aged_at-IsBytes : (by : ℕ) (msg : Bytes) (at : ℕ) → IsBytes msg → IsBytes (aged_at by msg at)
unfolding aged_at
aged_at-IsBytes by msg at h =
    let v = aged by (u32_at msg (at + 4)) in
    elim (Bool-cases (u16_at msg at == 41)) [
      | inl e ↦ rw e h
      | inr e ↦ rw e (
          wrapped-IsBytes (put_u16 msg (at + 4) (v / 0x10000)) (at + 4 + 2) v
            (wrapped-IsBytes msg (at + 4) (v / 0x10000) h))
    ]

aged-low : (by left : ℕ) → left < 0x100000000 → aged by left < 0x100000000
unfolding aged
aged-low by left h = ground arith

pub aged_at-time :
    (by : ℕ) (msg : Bytes) (at : ℕ)
    → IsBytes msg
    → at + 10 ≤ length msg
    → (u16_at msg at, u32_at (aged_at by msg at) (at + 4))
      ≡ aged_stamp by (u16_at msg at, u32_at msg (at + 4))
unfolding aged_at aged_stamp
aged_at-time by msg at h inside = elim (Bool-cases (u16_at msg at == 41)) [
  | inl e ↦ rw e refl
  | inr e ↦
      let low = u32-low msg (at + 4) h in
      rw e (
        ap (λ (t : ℕ). (u16_at msg at, t))
          (u32_at-put msg (at + 4) (aged by (u32_at msg (at + 4))) (omega arith)
              (aged-low by (u32_at msg (at + 4)) low)
            ∙ aged_lem by (u32_at msg (at + 4)) low))
]
