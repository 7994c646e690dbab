-- ===== src/Dns/Stamps.antt =====
-- internal/dnsproxy/dnsproxy.go, age: the records of a message before and after its loop.
use qd.Prelude.{
  ℕ, zero, suc, ◌+◌, ◌≤◌, ◌<◌, ◌≡◌, refl, sym, ap, ◌∙◌, inl, inr, true, false, List, [], ◌∷◌, ltb,
  leb, length, map, arith, Bool-cases,
}
use qd.Ippkt.{Bytes, byte, u16_at}
use qd.Ippkt.Checksum.{IsBytes}
use qd.Dns.{skip_name, questions_loop, after_questions, u32_at, aged_at, age_loop, age}
use qd.Dns.Walk.{skip_name-le, skip_name-until}
use qd.Dns.Ages.{
  stamps, all_stamps, aged_stamp, aged_at-byte, aged_at-length, aged_at-IsBytes, aged_at-time,
}

-- The two tests of the loop come to one, since the walk over a name goes on.
age_loop-stop :
    (n : ℕ) (msg : Bytes) (i by : ℕ)
    → ltb (length msg) (skip_name msg i + 10) ≡ true
    → age_loop (suc n) msg i by ≡ msg
unfolding age_loop
age_loop-stop n msg i by h = elim (Bool-cases (ltb (length msg) (i + 10))) [
  | inl e ↦ rw e refl
  | inr e ↦ rw (e, h) refl
]

age_loop-go :
    (n : ℕ) (msg : Bytes) (i by : ℕ)
    → ltb (length msg) (skip_name msg i + 10) ≡ false
    → age_loop (suc n) msg i by
      ≡ age_loop n
          (aged_at by msg (skip_name msg i))
          (skip_name msg i + 10 + u16_at (aged_at by msg (skip_name msg i)) (skip_name msg i + 8))
          by
unfolding age_loop
age_loop-go n msg i by h =
    let on = skip_name-le msg i in
    let first : ltb (length msg) (i + 10) ≡ false = ground arith in rw (first, h) refl

stamps-stop :
    (n : ℕ) (msg : Bytes) (i : ℕ)
    → ltb (length msg) (skip_name msg i + 10) ≡ true
    → stamps (suc n) msg i ≡ []
unfolding stamps
stamps-stop n msg i h = elim (Bool-cases (ltb (length msg) (i + 10))) [
  | inl e ↦ rw e refl
  | inr e ↦ rw (e, h) refl
]

stamps-go :
    (n : ℕ) (msg : Bytes) (i : ℕ)
    → ltb (length msg) (skip_name msg i + 10) ≡ false
    → stamps (suc n) msg i ≡ (
        (u16_at msg (skip_name msg i), u32_at msg (skip_name msg i + 4))
        ∷ stamps n msg (skip_name msg i + 10 + u16_at msg (skip_name msg i + 8)))
unfolding stamps
stamps-go n msg i h =
    let on = skip_name-le msg i in
    let first : ltb (length msg) (i + 10) ≡ false = ground arith in rw (first, h) refl

age_loop-length : (n : ℕ) (msg : Bytes) (i by : ℕ) → length (age_loop n msg i by) ≡ length msg
age_loop-length zero msg i by = unfold age_loop in refl
age_loop-length (suc n) msg i by = elim (Bool-cases (ltb (length msg) (skip_name msg i + 10))) [
  | inl e ↦ ap length (age_loop-stop n msg i by e)
  | inr e ↦
      ap length (age_loop-go n msg i by e)
      ∙ age_loop-length n (aged_at by msg (skip_name msg i))
          (skip_name msg i + 10 + u16_at (aged_at by msg (skip_name msg i)) (skip_name msg i + 8))
          by
      ∙ aged_at-length by msg (skip_name msg i)
]

age_loop-before :
    (n : ℕ) (msg : Bytes) (i by j : ℕ) → j < i → byte (age_loop n msg i by) j ≡ byte msg j
age_loop-before zero msg i by j h = unfold age_loop in refl
age_loop-before (suc n) msg i by j h =
    let on = skip_name-le msg i in
    elim (Bool-cases (ltb (length msg) (skip_name msg i + 10))) [
      | inl e ↦ ap (λ (b : Bytes). byte b j) (age_loop-stop n msg i by e)
      | inr e ↦
          ap (λ (b : Bytes). byte b j) (age_loop-go n msg i by e)
          ∙ age_loop-before n (aged_at by msg (skip_name msg i))
              (skip_name msg i
                + 10
                + u16_at (aged_at by msg (skip_name msg i)) (skip_name msg i + 8))
              by j (omega arith)
          ∙ aged_at-byte by msg (skip_name msg i) j (inl (omega arith))
    ]

stamps-same :
    (n : ℕ) (a b : Bytes) (i : ℕ)
    → length a ≡ length b
    → ((j : ℕ) → i ≤ j → byte a j ≡ byte b j)
    → stamps n a i ≡ stamps n b i
stamps-same zero a b i long same = unfold stamps in refl
stamps-same (suc n) a b i long same =
    let on = skip_name-le b i in
    let at : skip_name a i ≡ skip_name b i = skip_name-until a b i long (λ j h k. same j h) in
    let k0 = same (skip_name b i) on in
    let k1 = same (suc (skip_name b i)) (omega arith) in
    let t0 = same (skip_name b i + 4) (omega arith) in
    let t1 = same (suc (skip_name b i + 4)) (omega arith) in
    let t2 = same (skip_name b i + 4 + 2) (omega arith) in
    let t3 = same (suc (skip_name b i + 4 + 2)) (omega arith) in
    let l0 = same (skip_name b i + 8) (omega arith) in
    let l1 = same (suc (skip_name b i + 8)) (omega arith) in
    let rest =
      stamps-same n a b (skip_name b i + 10 + u16_at b (skip_name b i + 8)) long
        (λ j h. same j (omega arith)) in
    elim (Bool-cases (ltb (length b) (skip_name b i + 10))) [
      | inl e ↦ stamps-stop n a i (rw (long, at) e) ∙ sym (stamps-stop n b i e)
      | inr e ↦
          stamps-go n a i (rw (long, at) e)
          ∙ (rw (at, k0, k1, t0, t1, t2, t3, l0, l1)
              (ap (λ r. (u16_at b (skip_name b i), u32_at b (skip_name b i + 4)) ∷ r) rest))
          ∙ sym (stamps-go n b i e)
    ]

-- The loop ages every record that it walks over, and the walk after it meets the same records.
age_loop-stamps :
    (n : ℕ) (msg : Bytes) (i by : ℕ)
    → IsBytes msg
    → stamps n (age_loop n msg i by) i ≡ map (aged_stamp by) (stamps n msg i)
age_loop-stamps zero msg i by h = unfold stamps in refl
age_loop-stamps (suc n) msg i by h =
    let at = skip_name msg i in
    let next = aged_at by msg at in
    let l0 : byte next (at + 8) ≡ byte msg (at + 8) =
      aged_at-byte by msg at (at + 8) (inr (omega arith)) in
    let l1 : byte next (suc (at + 8)) ≡ byte msg (suc (at + 8)) =
      aged_at-byte by msg at (suc (at + 8)) (inr (omega arith)) in
    let onward = at + 10 + u16_at msg (at + 8) in
    let final = age_loop n next onward by in
    let on = skip_name-le msg i in
    let long : length final ≡ length msg =
      age_loop-length n next onward by ∙ aged_at-length by msg at in
    let head : (j : ℕ) → j < at + 4 → byte final j ≡ byte msg j =
      λ j k. age_loop-before n next onward by j (omega arith) ∙ aged_at-byte by msg at j (inl k) in
    let walk : skip_name final i ≡ at =
      sym (skip_name-until msg final i (sym long) (λ j h k. sym (head j (omega arith)))) in
    let mid : (j : ℕ) → j < onward → byte final j ≡ byte next j =
      λ j k. age_loop-before n next onward by j k in
    let k0 = head at (omega arith) in
    let k1 = head (suc at) (omega arith) in
    let t0 = mid (at + 4) (omega arith) in
    let t1 = mid (suc (at + 4)) (omega arith) in
    let t2 = mid (at + 4 + 2) (omega arith) in
    let t3 = mid (suc (at + 4 + 2)) (omega arith) in
    let m0 = mid (at + 8) (omega arith) ∙ l0 in
    let m1 = mid (suc (at + 8)) (omega arith) ∙ l1 in
    let later : stamps n final onward ≡ map (aged_stamp by) (stamps n msg onward) =
      age_loop-stamps n next onward by (aged_at-IsBytes by msg at h)
      ∙ ap (map (aged_stamp by)) (
          stamps-same n next msg onward (aged_at-length by msg at)
            (λ j k. aged_at-byte by msg at j (inr (omega arith)))) in
    elim (Bool-cases (ltb (length msg) (at + 10))) [
      | inl e ↦ rw (age_loop-stop n msg i by e, stamps-stop n msg i e) refl
      | inr e ↦
          let go : age_loop (suc n) msg i by ≡ final =
            age_loop-go n msg i by e
            ∙ ap (λ (r : ℕ). age_loop n next (at + 10 + r) by) (rw (l0, l1) refl) in
          rw (go, stamps-go n msg i e)
            (stamps-go n final i (rw (long, walk) e)
              ∙ (rw (walk, k0, k1, t0, t1, t2, t3, m0, m1)
                  (ap (λ (s : ℕ × ℕ). s ∷ stamps n final onward)
                      (aged_at-time by msg at h (ground arith))
                    ∙ ap
                        (λ (r : List (ℕ × ℕ)).
                          aged_stamp by (u16_at msg at, u32_at msg (at + 4)) ∷ r)
                        later)))
    ]

questions_loop-le : (q : ℕ) (msg : Bytes) (i : ℕ) → i ≤ questions_loop q msg i
unfolding questions_loop
questions_loop-le zero msg i = omega arith
questions_loop-le (suc q) msg i =
    let rest = questions_loop-le q msg (skip_name msg i + 4) in
    let on = skip_name-le msg i in ground arith

questions_loop-until :
    (q : ℕ) (a b : Bytes) (i : ℕ)
    → length a ≡ length b
    → ((j : ℕ) → j < questions_loop q a i → byte a j ≡ byte b j)
    → questions_loop q a i ≡ questions_loop q b i
unfolding questions_loop
questions_loop-until zero a b i long same = refl
questions_loop-until (suc q) a b i long same = elim (Bool-cases (leb (length a) i)) [
  | inl e ↦ rw (e, sym long) (rw e refl)
  | inr e ↦
      let on = questions_loop-le q a (skip_name a i + 4) in
      let walk : skip_name a i ≡ skip_name b i =
        skip_name-until a b i long (λ j h k. same j (rw e (omega arith))) in
      rw (e, sym long)
        (rw e (
          questions_loop-until q a b (skip_name a i + 4) long (λ j k. same j (rw e k))
          ∙ ap (λ (w : ℕ). questions_loop q b (w + 4)) walk))
]

-- Aging a message of bytes leaves its length and every type of its records, and changes the time
-- of each record of another type than 41 to the time less the age, and never below 1; so the age
-- 2^32-1 of a stale answer leaves 1.
pub age-stamps :
    (msg : Bytes) (by : ℕ)
    → IsBytes msg
    → (all_stamps (age msg by) ≡ map (aged_stamp by) (all_stamps msg))
      × (length (age msg by) ≡ length msg)
unfolding all_stamps age after_questions
age-stamps msg by h = elim (Bool-cases (ltb (length msg) 12)) [
  | inl e ↦ rw e (rw e (refl, refl))
  | inr e ↦
      let first = questions_loop (u16_at msg 4) msg 12 in
      let records = u16_at msg 6 + u16_at msg 8 + u16_at msg 10 in
      let final = age_loop records msg first by in
      let on : 12 ≤ first = questions_loop-le (u16_at msg 4) msg 12 in
      let long : length final ≡ length msg = age_loop-length records msg first by in
      let head : (j : ℕ) → j < first → byte final j ≡ byte msg j =
        λ j k. age_loop-before records msg first by j k in
      let walk : questions_loop (u16_at msg 4) final 12 ≡ first =
        sym (questions_loop-until (u16_at msg 4) msg final 12 (sym long) (λ j k. sym (head j k))) in
      rw e (
        rw
          (
            long,
            e,
            head 4 (omega arith),
            head 5 (omega arith),
            head 6 (omega arith),
            head 7 (omega arith),
            head 8 (omega arith),
            head 9 (omega arith),
            head 10 (omega arith),
            head 11 (omega arith),
          )
          (rw walk (age_loop-stamps records msg first by h), refl))
]
