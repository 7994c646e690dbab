-- ===== src/Dns/Labels.antt =====
-- internal/dnsproxy/dnsproxy.go, Question and questionEnd: their loops over the labels of a name.
use qd.Prelude.{
  ℕ, zero, suc, ◌+◌, ◌/◌, ◌≤◌, ◌<◌, ◌≡◌, ◌≢◌, refl, sym, ap, ◌⊎◌, inl, inr, ◌||◌, true, false, not,
  Option, none, some, [], ◌∷◌, ◌++◌, ◌==◌, ltb, leb, if◌then◌else◌, length, arith, Bool-cases,
  none_some,
}
use qd.Ippkt.{Bytes, byte, slice}
use qd.Dns.{question_loop, end_loop}
use qd.Dns.Writes.{slice-same}

-- Where the end of the question lies.
pub end_loop-bounds :
    (f : ℕ) (msg : Bytes) (i e : ℕ) → end_loop f msg i ≡ some e → (i + 5 ≤ e) × (e ≤ length msg)
unfolding end_loop
end_loop-bounds zero msg i e h = absurd (ground arith)
end_loop-bounds (suc f) msg i e h =
    let rest = end_loop-bounds f msg (i + 1 + byte msg i) e in ground (arith, rest)

-- A message that agrees up to the type of the question has the same end.
pub end_loop-same :
    (f g : ℕ) (a b : Bytes) (i e : ℕ)
    → end_loop f a i ≡ some e
    → e ≤ length b
    → length b ≤ i + g
    → ((j : ℕ) → i ≤ j → j + 4 < e → byte a j ≡ byte b j)
    → end_loop g b i ≡ some e
unfolding end_loop
end_loop-same zero g a b i e h long fuel same = absurd (ground arith)
end_loop-same (suc f) zero a b i e h long fuel same =
    absurd (let r = end_loop-bounds (suc f) a i e (unfold end_loop in h) in omega arith)
end_loop-same (suc f) (suc g) a b i e h long fuel same =
    let r = end_loop-bounds (suc f) a i e (unfold end_loop in h) in
    let here : byte a i ≡ byte b i = same i (omega arith) (omega arith) in
    let later = λ (k : end_loop f a (i + 1 + byte b i) ≡ some e).
      end_loop-same f g a b (i + 1 + byte b i) e k long (omega arith)
        (λ j n m. same j (omega arith) m) in
    elim (Bool-cases (byte b i == 0)) [
      | inl e0 ↦ ground (arith, rw here at h)
      | inr e0 ↦ ground (arith, rw here at h, later)
    ]

abbrev pub dotted : Bytes → Bytes
dotted acc = acc ++ (if ltb 0 (length acc) then 46 ∷ [] else [])

abbrev pub named : Bytes → ℕ → Option (Bytes × ℕ)
named name k = some (name, k)

abbrev pub at_end : Option (Bytes × ℕ) → ℕ
at_end none = 0
at_end (some (a, b)) = b

-- A turn of Question's loop that leaves a name: the message ends, the name ends, or there is a label.
pub question_loop_cases :
    (f : ℕ) (msg : Bytes) (i k : ℕ) (acc name : Bytes)
    → question_loop (suc f) msg i acc ≡ named name k
    → ((length msg ≤ i) × (i ≡ k))
      ⊎ ((i < length msg) × (byte msg i ≡ 0) × (named acc (i + 1) ≡ named name k))
      ⊎ ((i < length msg)
          × (byte msg i ≢ 0)
          × (byte msg i / 64 ≡ 0)
          × (i + 1 + byte msg i ≤ length msg)
          × (question_loop f msg (i + 1 + byte msg i) (dotted acc ++ slice msg (suc i) (byte msg i))
              ≡ named name k))
unfolding question_loop
question_loop_cases f msg i k acc name h = elim (Bool-cases (leb (length msg) i)) [
  | inl e ↦ inl (ground arith, ap at_end (rw e at h))
  | inr e ↦ elim (Bool-cases (byte msg i == 0)) [
    | inl e0 ↦ inr (inl (ground arith, ground arith, rw (e, e0) at h))
    | inr e0 ↦
        elim (Bool-cases (not (byte msg i / 64 == 0) || ltb (length msg) (i + 1 + byte msg i))) [
          | inl e1 ↦ absurd (none_some refl (rw (e, e0, e1) at h))
          | inr e1 ↦
              inr
                (inr (ground arith, ground arith, ground arith, ground arith, rw (e, e0, e1) at h))
        ]
  ]
]

pub question-end :
    (f : ℕ) (msg : Bytes) (i k : ℕ) (acc name : Bytes)
    → question_loop f msg i acc ≡ named name k
    → k + 4 ≤ length msg
    → length msg ≤ i + f
    → end_loop f msg i ≡ some (k + 4)
unfolding question_loop end_loop
question-end zero msg i k acc name h inside fuel =
    absurd (let e : i ≡ k = ap at_end h in omega arith)
question-end (suc f) msg i k acc name h inside fuel =
    elim (question_loop_cases f msg i k acc name h) [
      | inl (over, e) ↦ absurd (omega arith)
      | inr (inl (in_it, z, e)) ↦ let at : i + 1 ≡ k = ap at_end e in ground arith
      | inr (inr (in_it, nz, plain, fits, more)) ↦
          let rest =
            question-end f msg (i + 1 + byte msg i) k (dotted acc ++ slice msg (suc i) (byte msg i))
              name more inside (omega arith) in
          ground (arith, rest)
    ]

-- A message that agrees up to the end of the name has the same name.
pub question_loop-same :
    (f g : ℕ) (a b : Bytes) (i k : ℕ) (acc name : Bytes)
    → question_loop f a i acc ≡ named name k
    → k + 4 ≤ length a
    → length a ≤ i + f
    → k ≤ length b
    → length b ≤ i + g
    → ((j : ℕ) → i ≤ j → j < k → byte a j ≡ byte b j)
    → question_loop g b i acc ≡ named name k
unfolding question_loop
question_loop-same zero g a b i k acc name h inside fuel long fuel_b same =
    absurd (let e : i ≡ k = ap at_end h in omega arith)
question_loop-same (suc f) zero a b i k acc name h inside fuel long fuel_b same = absurd (
    let r =
      end_loop-bounds (suc f) a i (k + 4)
        (question-end (suc f) a i k acc name (unfold question_loop in h) inside fuel) in
    omega arith)
question_loop-same (suc f) (suc g) a b i k acc name h inside fuel long fuel_b same =
    let r =
      end_loop-bounds (suc f) a i (k + 4) (question-end (suc f) a i k acc name h inside fuel) in
    let here : byte b i ≡ byte a i = sym (same i (omega arith) (omega arith)) in
    let inside_b : leb (length b) i ≡ false = ground arith in
    elim (question_loop_cases f a i k acc name h) [
      | inl (over, e) ↦ absurd (omega arith)
      | inr (inl (in_it, z, e)) ↦
          let b0 : (byte a i == 0) ≡ true = ground arith in rw (inside_b, here, b0) e
      | inr (inr (in_it, nz, plain, fits, more)) ↦
          let onward = i + 1 + byte a i in
          let acc_more = dotted acc ++ slice a (suc i) (byte a i) in
          let r2 =
            end_loop-bounds f a onward (k + 4)
              (question-end f a onward k acc_more name more inside (omega arith)) in
          let b0 : (byte a i == 0) ≡ false = ground arith in
          let b1 : (byte a i / 64 == 0) ≡ true = ground arith in
          let b2 : ltb (length b) onward ≡ false = ground arith in
          rw
            (
              inside_b,
              here,
              b0,
              b1,
              b2,
              slice-same b a (suc i) (byte a i) (omega arith) (omega arith)
                  (λ j n m. sym (same j (omega arith) (omega arith))),
            )
            (question_loop-same f g a b onward k acc_more name more inside (omega arith) long
              (omega arith) (λ j n m. same j (omega arith) m))
    ]
