-- ===== src/Dns/Answers.antt =====
-- internal/dnsproxy/dnsproxy.go, Answer and FirstAddr: reading the address of an answer that the code built.
use qd.Prelude.{
  ℕ, zero, suc, ◌+◌, ◌-◌, ◌/◌, ◌%◌, ◌≤◌, ◌<◌, ◌≡◌, refl, sym, ap, ◌∙◌, ◌⊎◌, inl, inr, true, false,
  some, [], ◌∷◌, ◌++◌, ◌==◌, ltb, leb, length, set, take, drop, arith, Bool-cases, length-take,
  length-append, drop-append, get_or-append, get_or-set_ne, length-set, none_some,
}
use qd.Ippkt.{Bytes, byte, u16_at, put_u16, slice}
use qd.Ippkt.Fill.{put_u16-length}
use qd.Dns.{question_end}
use qd.Dns.Writes.{put_u16-byte, u16_at-put, take-byte}
use qd.Dns.{
  no_data, short_reply, reply_head, to4, to16, record_head, with_record, answer, first_loop,
  first_addr, want_of, skip_name,
}
use qd.Dns.Labels.{end_loop-bounds, end_loop-same}
use qd.Dns.Walk.{skip_name-turn}

reply_head-byte : (low : ℕ) (b : Bytes) (j : ℕ) → 12 ≤ j → byte (reply_head low b) j ≡ byte b j
unfolding reply_head
reply_head-byte low b j h =
    let b1 = set (set b 2 0x81) 3 low in
    put_u16-byte (put_u16 (put_u16 (put_u16 b1 4 1) 6 0) 8 0) 10 0 j (inr h)
    ∙ put_u16-byte (put_u16 (put_u16 b1 4 1) 6 0) 8 0 j (inr (omega arith))
    ∙ put_u16-byte (put_u16 b1 4 1) 6 0 j (inr (omega arith))
    ∙ put_u16-byte b1 4 1 j (inr (omega arith))
    ∙ get_or-set_ne (set b 2 0x81) 3 j low 0 (λ e. omega arith)
    ∙ get_or-set_ne b 2 j 0x81 0 (λ e. omega arith)

reply_head-length : (low : ℕ) (b : Bytes) → length (reply_head low b) ≡ length b
unfolding reply_head
reply_head-length low b =
    let b1 = set (set b 2 0x81) 3 low in
    put_u16-length (put_u16 (put_u16 (put_u16 b1 4 1) 6 0) 8 0) 10 0
    ∙ put_u16-length (put_u16 (put_u16 b1 4 1) 6 0) 8 0
    ∙ put_u16-length (put_u16 b1 4 1) 6 0
    ∙ put_u16-length b1 4 1
    ∙ length-set (set b 2 0x81) 3 low
    ∙ length-set b 2 0x81

append-byte : (xs ys : Bytes) (j : ℕ) → j < length xs → byte (xs ++ ys) j ≡ byte xs j
append-byte [] ys j h = absurd (omega arith)
append-byte (x ∷ xs) ys zero h = refl
append-byte (x ∷ xs) ys (suc j) h = append-byte xs ys j (omega arith)

question_end-bounds :
    (msg : Bytes) (e : ℕ) → question_end msg ≡ some e → (17 ≤ e) × (e ≤ length msg)
unfolding question_end
question_end-bounds msg e h = elim (Bool-cases (ltb (length msg) 12)) [
  | inl s ↦ absurd (none_some refl (rw s at h))
  | inr s ↦ end_loop-bounds (length msg - 12) msg 12 e (rw s at h)
]

question_end-same :
    (a b : Bytes) (e : ℕ)
    → question_end a ≡ some e
    → e ≤ length b
    → ((j : ℕ) → 12 ≤ j → j + 4 < e → byte a j ≡ byte b j)
    → question_end b ≡ some e
unfolding question_end
question_end-same a b e h long same =
    let r = question_end-bounds a e (unfold question_end in h) in
    let a0 : ltb (length a) 12 ≡ false = ground arith in
    let b0 : ltb (length b) 12 ≡ false = ground arith in
    rw b0
      (end_loop-same (length a - 12) (length b - 12) a b 12 e (rw a0 at h) long (omega arith) same)

first_loop-hit :
    (msg : Bytes) (end qtype len : ℕ)
    → length msg ≡ end + 12 + len
    → skip_name msg end ≡ end + 2
    → u16_at msg (end + 2) ≡ qtype
    → u16_at msg (end + 2 + 8) ≡ len
    → first_loop 1 msg end qtype len ≡ some (slice msg (end + 2 + 10) len)
unfolding first_loop
first_loop-hit msg end qtype len long walk kind size =
    let b0 : ltb (length msg) (end + 12) ≡ false = ground arith in
    let b1 : ltb (length msg) (end + 2 + 10) ≡ false = ground arith in
    let b2 : ltb (length msg) (end + 2 + 10 + len) ≡ false = ground arith in
    let b3 : (qtype == qtype) ≡ true = ground arith in
    let b4 : (len == len) ≡ true = ground arith in
    rw (walk, b0, b1, kind, size) (rw (b2, b3, b4) refl)

pointer-walk :
    (msg : Bytes) (end : ℕ) → end < length msg → byte msg end ≡ 192 → skip_name msg end ≡ end + 2
pointer-walk msg end inside e =
    let b0 : leb (length msg) end ≡ false = ground arith in skip_name-turn msg end ∙ rw (b0, e) refl

first_addr-hit :
    (msg ip : Bytes) (end qtype : ℕ)
    → 12 ≤ length msg
    → question_end msg ≡ some end
    → u16_at msg 6 ≡ 1
    → first_loop 1 msg end qtype (want_of qtype) ≡ some ip
    → first_addr msg qtype ≡ some ip
unfolding first_addr
first_addr-hit msg ip end qtype long ended one hit =
    let b0 : ltb (length msg) 12 ≡ false = ground arith in rw (b0, ended, one) hit

take_all : (n : ℕ) (b : Bytes) → length b ≡ n → take n b ≡ b
take_all zero [] h = refl
take_all zero (x ∷ b) h = absurd (omega arith)
take_all (suc n) [] h = absurd (omega arith)
take_all (suc n) (x ∷ b) h = ap (λ (r : Bytes). x ∷ r) (take_all n b (omega arith))

nothing : (m : ℕ) → drop m [] ≡ (let e : Bytes = [] in e)
nothing zero = refl
nothing (suc m) = refl

drop-drop : (n m : ℕ) (b : Bytes) → drop (n + m) b ≡ drop m (drop n b)
drop-drop zero m b = ap (λ (k : ℕ). drop k b) (let z : 0 + m ≡ m = omega arith in z)
drop-drop (suc n) m [] =
    ap (λ (k : ℕ). drop k []) (let z : suc n + m ≡ suc (n + m) = omega arith in z) ∙ sym (nothing m)
drop-drop (suc n) m (x ∷ b) =
    ap (λ (k : ℕ). drop k (x ∷ b)) (let z : suc n + m ≡ suc (n + m) = omega arith in z)
    ∙ drop-drop n m b

cut_out :
    (base ip : Bytes) (end qtype len : ℕ)
    → length base ≡ end
    → length ip ≡ len
    → slice (base ++ (record_head qtype len ++ ip)) (end + 2 + 10) len ≡ ip
cut_out base ip end qtype len long size =
    let rest = record_head qtype len ++ ip in
    ap (λ (k : ℕ). take len (drop k (base ++ rest)))
      (let z : end + 2 + 10 ≡ end + 12 = omega arith in z)
    ∙ ap (take len)
        (drop-drop end 12 (base ++ rest) ∙ ap (drop 12) (drop-append end base rest long))
    ∙ take_all len ip size

-- A message of a base that keeps the question and one record of the address.
first_addr-record :
    (query base ip : Bytes) (end qtype len : ℕ)
    → question_end query ≡ some end
    → length base ≡ end
    → ((j : ℕ) → 12 ≤ j → j < end → byte base j ≡ byte query j)
    → u16_at base 6 ≡ 1
    → length ip ≡ len
    → qtype < 65536
    → len < 256
    → want_of qtype ≡ len
    → first_addr (base ++ (record_head qtype len ++ ip)) qtype ≡ some ip
first_addr-record query base ip end qtype len h long same one size low small want =
    let rest = record_head qtype len ++ ip in
    let full = base ++ rest in
    let r = question_end-bounds query end h in
    let full_long : length full ≡ end + 12 + len = omega (arith, length-append base rest) in
    let ended : question_end full ≡ some end =
      question_end-same query full end h (omega arith)
        (λ j n m. sym (append-byte base rest j (omega arith) ∙ same j n (omega arith))) in
    let count : u16_at full 6 ≡ 1 =
      rw (append-byte base rest 6 (omega arith), append-byte base rest 7 (omega arith)) one in
    let at = λ (j : ℕ). get_or-append end base rest j 0 long in
    let at_0 : byte full end ≡ 192 =
      ap (byte full) (let z : end ≡ end + 0 = omega arith in z) ∙ at 0 in
    let at_2 : byte full (end + 2) ≡ qtype / 256 % 256 = at 2 in
    let at_3 : byte full (suc (end + 2)) ≡ qtype % 256 =
      ap (byte full) (let z : suc (end + 2) ≡ end + 3 = omega arith in z) ∙ at 3 in
    let at_10 : byte full (end + 2 + 8) ≡ 0 =
      ap (byte full) (let z : end + 2 + 8 ≡ end + 10 = omega arith in z) ∙ at 10 in
    let at_11 : byte full (suc (end + 2 + 8)) ≡ len =
      ap (byte full) (let z : suc (end + 2 + 8) ≡ end + 11 = omega arith in z) ∙ at 11 in
    let kind : u16_at full (end + 2) ≡ qtype = omega arith in
    let size_at : u16_at full (end + 2 + 8) ≡ len = omega arith in
    first_addr-hit full ip end qtype (omega arith) ended count (
      rw want (
        first_loop-hit full end qtype len full_long (pointer-walk full end (omega arith) at_0) kind
          size_at
        ∙ ap (λ (b : Bytes). some b) (cut_out base ip end qtype len long size)))

-- For a query whose question ends, and an address of four bytes with type 1 or of sixteen with
-- type 28, Answer builds a message, and FirstAddr reads the address back from it.
pub first_addr-answer :
    (query ip : Bytes) (end qtype : ℕ)
    → question_end query ≡ some end
    → ((qtype ≡ 1) × (length ip ≡ 4)) ⊎ ((qtype ≡ 28) × (length ip ≡ 16))
    → (out : Bytes) × (answer query ip qtype ≡ some out) × (first_addr out qtype ≡ some ip)
unfolding answer no_data short_reply to4 to16 with_record
first_addr-answer query ip end qtype h kind =
    let r = question_end-bounds query end h in
    let head = reply_head 0x80 (take end query) in
    let base = put_u16 head 6 1 in
    let head_long : length head ≡ end =
      omega (arith, reply_head-length 0x80 (take end query), length-take end query) in
    let long : length base ≡ end = put_u16-length head 6 1 ∙ head_long in
    let same : (j : ℕ) → 12 ≤ j → j < end → byte base j ≡ byte query j = λ j n m.
      put_u16-byte head 6 1 j (inr (omega arith))
      ∙ reply_head-byte 0x80 (take end query) j n
      ∙ take-byte end query j m in
    let one = u16_at-put head 6 1 (omega arith) in
    elim kind [
      | inl (q, size) ↦ (
        base ++ (record_head 1 4 ++ ip),
        rw (answer, no_data, short_reply, h, q, size) refl,
        rw q (
            first_addr-record query base ip end 1 4 h long same one size (omega arith) (omega arith)
              (unfold want_of in refl)),
      )
      | inr (q, size) ↦ (
        base ++ (record_head 28 16 ++ ip),
        rw (answer, no_data, short_reply, h, q, size) refl,
        rw q (
            first_addr-record query base ip end 28 16 h long same one size (omega arith)
              (omega arith) (unfold want_of in refl)),
      )
    ]
