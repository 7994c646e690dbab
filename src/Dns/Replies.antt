-- ===== src/Dns/Replies.antt =====
-- internal/dnsproxy/dnsproxy.go, AskFor: asking again for another type.
use qd.Prelude.{
  ℕ, ◌+◌, ◌-◌, ◌%◌, ◌≤◌, ◌<◌, ◌≡◌, ◌≢◌, refl, sym, ap, ◌∙◌, inl, inr, false, Option, none, some, [],
  ◌==◌, ltb, length, take, arith, Bool-cases, Option-cases, length-take, none_some, some_same,
}
use qd.Ippkt.{Bytes, byte, u16_at, put_u16}
use qd.Ippkt.Fill.{put_u16-length}
use qd.Dns.{question_loop, question_type, question, question_end, asking, ask_for}
use qd.Dns.Writes.{put_u16-byte, u16_at-put, take-byte}
use qd.Dns.Labels.{question-end, question_loop-same, named}

cleared : Bytes → Bytes
cleared out = put_u16 (put_u16 (put_u16 (put_u16 out 4 1) 6 0) 8 0) 10 0

cleared-byte : (out : Bytes) (j : ℕ) → 12 ≤ j → byte (cleared out) j ≡ byte out j
unfolding cleared
cleared-byte out j h =
    put_u16-byte (put_u16 (put_u16 (put_u16 out 4 1) 6 0) 8 0) 10 0 j (inr h)
    ∙ put_u16-byte (put_u16 (put_u16 out 4 1) 6 0) 8 0 j (inr (omega arith))
    ∙ put_u16-byte (put_u16 out 4 1) 6 0 j (inr (omega arith))
    ∙ put_u16-byte out 4 1 j (inr (omega arith))

cleared-length : (out : Bytes) → length (cleared out) ≡ length out
unfolding cleared
cleared-length out =
    put_u16-length (put_u16 (put_u16 (put_u16 out 4 1) 6 0) 8 0) 10 0
    ∙ put_u16-length (put_u16 (put_u16 out 4 1) 6 0) 8 0
    ∙ put_u16-length (put_u16 out 4 1) 6 0
    ∙ put_u16-length out 4 1

cleared-count : (out : Bytes) → 6 ≤ length out → u16_at (cleared out) 4 ≡ 1
unfolding cleared
cleared-count out long =
    let o1 = put_u16 out 4 1 in
    let o2 = put_u16 o1 6 0 in
    let o3 = put_u16 o2 8 0 in
    let at = λ (j : ℕ) (h : j < 6).
      put_u16-byte o3 10 0 j (inl (omega arith))
      ∙ put_u16-byte o2 8 0 j (inl (omega arith))
      ∙ put_u16-byte o1 6 0 j (inl h) in
    let high = at 4 (omega arith) in
    let low = at 5 (omega arith) in let put = u16_at-put out 4 1 long in omega arith

-- What a question that is read says of the message.
abbrev pub Read : (Bytes → Bytes) → Bytes → Bytes → ℕ → Type 0
Read lower msg name k =
    (nm : Bytes) × (question_loop (length msg - 12) msg 12 [] ≡ named nm k)
    × (lower nm ≡ name)
    × (12 ≤ length msg)
    × (k + 4 ≤ length msg)

name_of : Option (Bytes × ℕ) → Bytes
name_of none = []
name_of (some (a, b)) = a

pub question-Read :
    (lower : Bytes → Bytes) (msg name : Bytes) (asked : ℕ)
    → question lower msg ≡ named name asked
    → (k : ℕ) × Read lower msg name k
unfolding question question_type name_of
question-Read lower msg name asked h = elim (Bool-cases (ltb (length msg) 12)) [
  | inl e ↦ absurd (none_some refl (rw e at h))
  | inr e ↦ elim (Bool-cases (u16_at msg 4 == 0)) [
    | inl e0 ↦ absurd (none_some refl (rw (e, e0) at h))
    | inr e0 ↦ elim (Option-cases (question_loop (length msg - 12) msg 12 [])) [
      | inl f ↦ absurd (none_some refl (rw (e, e0, f) at h))
      | inr ((nm, k), f) ↦ elim (Bool-cases (ltb (length msg) (k + 4))) [
        | inl e1 ↦ absurd (none_some refl (rw (e, e0, f, e1) at h))
        | inr e1 ↦ (k, (nm, f, ap name_of (rw (e, e0, f, e1) at h), ground arith, ground arith))
      ]
    ]
  ]
]

pub Read-question :
    (lower : Bytes → Bytes) (msg name : Bytes) (k : ℕ)
    → Read lower msg name k
    → u16_at msg 4 ≢ 0
    → question lower msg ≡ named name (u16_at msg k)
unfolding question question_type
Read-question lower msg name k (nm, f, e, long, inside) ne =
    let b0 : ltb (length msg) 12 ≡ false = ground arith in
    let b1 : (u16_at msg 4 == 0) ≡ false = ground arith in
    let b2 : ltb (length msg) (k + 4) ≡ false = ground arith in rw (b0, b1, f, b2, e) refl

pub Read-question_end :
    (lower : Bytes → Bytes) (msg name : Bytes) (k : ℕ)
    → Read lower msg name k
    → question_end msg ≡ some (k + 4)
unfolding question_end
Read-question_end lower msg name k (nm, f, e, long, inside) =
    let b0 : ltb (length msg) 12 ≡ false = ground arith in
    rw b0 (question-end (length msg - 12) msg 12 k [] nm f inside (omega arith))

asking-Read :
    (lower : Bytes → Bytes) (query name : Bytes) (k qtype : ℕ)
    → Read lower query name k
    → 13 ≤ k
    → qtype < 65536
    → (out : Bytes) × (out ≡ asking (k + 4) qtype (take (k + 4) query))
      × Read lower out name k
      × (u16_at out 4 ≢ 0)
      × (u16_at out k ≡ qtype)
unfolding asking cleared
asking-Read lower query name k qtype (nm, f, e, long, inside) far low =
    let cut = take (k + 4) query in
    let head = cleared cut in
    let out = put_u16 head k qtype in
    let cut_long : length cut ≡ k + 4 = omega (arith, length-take (k + 4) query) in
    let head_long : length head ≡ k + 4 = cleared-length cut ∙ cut_long in
    let out_long : length out ≡ k + 4 = put_u16-length head k qtype ∙ head_long in
    let same : (j : ℕ) → 12 ≤ j → j < k → byte query j ≡ byte out j = λ j n m. sym (
      put_u16-byte head k qtype j (inl m)
      ∙ cleared-byte cut j n
      ∙ take-byte (k + 4) query j (omega arith)) in
    let c4 = put_u16-byte head k qtype 4 (inl (omega arith)) in
    let c5 = put_u16-byte head k qtype 5 (inl (omega arith)) in
    let count = cleared-count cut (omega arith) in
    let type_at = u16_at-put head k qtype (omega arith) in
    (
      out,
      ap (λ (p : ℕ). put_u16 head p qtype) (let s : k ≡ k + 4 - 4 = omega arith in s),
      (
        nm,
        question_loop-same (length query - 12) (length out - 12) query out 12 k [] nm f inside
            (omega arith) (omega arith) (omega arith) same,
        e,
        omega arith,
        omega arith,
      ),
      (λ z. omega (arith, count, c4, c5)),
      type_at ∙ (let m : qtype % 0x10000 ≡ qtype = omega arith in m),
    )

question-asking :
    (lower : Bytes → Bytes) (query name : Bytes) (k qtype : ℕ)
    → Read lower query name k
    → 13 ≤ k
    → qtype < 65536
    → question lower (asking (k + 4) qtype (take (k + 4) query)) ≡ named name qtype
question-asking lower query name k qtype r far low =
    let m = asking-Read lower query name k qtype r far low in
    ap (question lower) (sym m.1) ∙ Read-question lower m.0 name k m.2 m.3 ∙ ap (named name) m.4

-- Where a query has a question for a name, and AskFor builds a message from it with a type below
-- 65536, that message has a question for the same name with that type.
pub question-ask_for :
    (lower : Bytes → Bytes) (query out name : Bytes) (asked qtype : ℕ)
    → question lower query ≡ named name asked
    → ask_for query qtype ≡ some out
    → qtype < 65536
    → question lower out ≡ named name qtype
unfolding ask_for
question-ask_for lower query out name asked qtype h got low =
    let r = question-Read lower query name asked h in
    let k = r.0 in
    let end = Read-question_end lower query name k r.1 in
    elim (Bool-cases (ltb (k + 4) 17)) [
      | inl e ↦ absurd (none_some refl (rw (ask_for, end, e) at got))
      | inr e ↦
          let same : asking (k + 4) qtype (take (k + 4) query) ≡ out =
            some_same (asking (k + 4) qtype (take (k + 4) query)) out
              (rw (ask_for, end, e) at got) in
          ap (question lower) (sym same)
          ∙ question-asking lower query name k qtype r.1 (ground arith) low
    ]
