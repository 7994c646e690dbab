-- ===== src/Dns/Agree.antt =====
-- internal/dnsproxy/dnsproxy.go: the three walks over the name of a question, in Question, questionEnd
-- and skipName.
use qd.Prelude.{
  ℕ, zero, suc, ◌+◌, ◌-◌, ◌/◌, ◌≤◌, ◌≡◌, ◌≢◌, refl, sym, ap, ◌∙◌, inl, inr, false, true, some,
  none_some, [], ◌==◌, ltb, leb, length, arith, Bool-cases,
}
use qd.Ippkt.{Bytes, byte, u16_at}
use qd.Dns.{question_loop, question, question_end, skip_name}
use qd.Dns.Walk.{skip_name-turn}
use qd.Dns.Labels.{question_loop_cases, at_end, named}
use qd.Dns.Replies.{Read, question-Read, Read-question, Read-question_end}

-- Where Question's loop leaves a name, skipName stops.
skip_name-question_loop :
    (f : ℕ) (msg : Bytes) (i k : ℕ) (acc name : Bytes)
    → question_loop f msg i acc ≡ named name k
    → length msg ≤ i + f
    → skip_name msg i ≡ k
unfolding question_loop
skip_name-question_loop zero msg i k acc name h fuel =
    let over : leb (length msg) i ≡ true = ground arith in
    skip_name-turn msg i ∙ (rw over (ap at_end h))
skip_name-question_loop (suc f) msg i k acc name h fuel =
    elim (question_loop_cases f msg i k acc name h) [
      | inl (over, e) ↦
          let b0 : leb (length msg) i ≡ true = ground arith in skip_name-turn msg i ∙ (rw b0 e)
      | inr (inl (in_it, z, e)) ↦
          let b0 : leb (length msg) i ≡ false = ground arith in
          let b1 : (byte msg i / 64 == 3) ≡ false = ground arith in
          let b2 : (byte msg i == 0) ≡ true = ground arith in
          skip_name-turn msg i ∙ (rw (b0, b1, b2) (ap at_end e))
      | inr (inr (in_it, nz, plain, fits, more)) ↦
          let b0 : leb (length msg) i ≡ false = ground arith in
          let b1 : (byte msg i / 64 == 3) ≡ false = ground arith in
          let b2 : (byte msg i == 0) ≡ false = ground arith in
          skip_name-turn msg i
          ∙ (rw (b0, b1, b2)
              (skip_name-question_loop f msg (i + 1 + byte msg i) k _ name more (omega arith)))
    ]

asked_some :
    (lower : Bytes → Bytes) (msg name : Bytes) (asked : ℕ)
    → question lower msg ≡ named name asked
    → u16_at msg 4 ≢ 0
unfolding question
asked_some lower msg name asked h zero_count =
    let b1 : (u16_at msg 4 == 0) ≡ true = ground arith in
    elim (Bool-cases (ltb (length msg) 12)) [
      | inl e ↦ none_some refl (rw e at h)
      | inr e ↦ none_some refl (rw (e, b1) at h)
    ]

-- Where Question reads a name and a type from a message, skipName from the header stops at the
-- place of that type, and questionEnd ends 4 bytes behind that place.
pub skip_name-question :
    (lower : Bytes → Bytes) (msg name : Bytes) (asked : ℕ)
    → question lower msg ≡ named name asked
    → (question_end msg ≡ some (skip_name msg 12 + 4)) × (u16_at msg (skip_name msg 12) ≡ asked)
skip_name-question lower msg name asked h =
    let (k, (nm, f, e, long, inside)) = question-Read lower msg name asked h in
    let r : Read lower msg name k = (nm, f, e, long, inside) in
    let stop : skip_name msg 12 ≡ k =
      skip_name-question_loop (length msg - 12) msg 12 k [] nm f (omega arith) in
    let typed = Read-question lower msg name k r (asked_some lower msg name asked h) in
    (
      Read-question_end lower msg name k r ∙ ap (λ (j : ℕ). some (j + 4)) (sym stop),
      ap (u16_at msg) stop ∙ ap at_end (sym typed ∙ h),
    )
