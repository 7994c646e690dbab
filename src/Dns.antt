-- ===== src/Dns.antt =====
-- internal/dnsproxy/dnsproxy.go: reading and building DNS messages. A message is the list of its
-- bytes, each below 256; `lower` stands for strings.ToLower. The answers kept are in `Cache`, and the
-- queries under way to an upstream in `Waiters`.
pub mod Walk
pub mod Replies
pub mod Agree
mod Writes
mod Labels
pub mod Answers
pub mod Ages
pub mod Stamps
pub mod Cache
pub mod Waiters
mod Tests
use qd.Prelude.{
  ℕ, zero, suc, ◌+◌, ◌-◌, ◌*◌, ◌/◌, ◌%◌, ◌^◌, ◌&&◌, ◌||◌, Bool, true, false, not, Option, none,
  some, List, [], ◌∷◌, ◌++◌, ◌==◌, ltb, leb, if◌then◌else◌, length, set, take, drop, min, max,
}
use qd.Ippkt.{Bytes, byte, u16_at, put_u16, slice, spell}
use qd.Netip.{Addr, v4, v6, unmap}

-- binary.BigEndian.Uint32(b[i:]) and PutUint32.
abbrev pub u32_at : Bytes → ℕ → ℕ
u32_at b i = u16_at b i * 0x10000 + u16_at b (i + 2)

abbrev pub put_u32 : Bytes → ℕ → ℕ → Bytes
put_u32 b i v = put_u16 (put_u16 b i (v / 0x10000)) (i + 2) v

-- The loop of skipName: each turn moves on, so that as many turns as bytes are left are enough.
unfoldable pub skip_loop : ℕ → Bytes → ℕ → ℕ
skip_loop zero msg i = i
skip_loop (suc f) msg i =
    let rest = skip_loop f msg (i + 1 + byte msg i) in
    if leb (length msg) i
    then i
    else if byte msg i / 64 == 3
    then i + 2
    else if byte msg i == 0
    then i + 1
    else rest

unfoldable pub skip_name : Bytes → ℕ → ℕ
skip_name msg i = skip_loop (length msg - i) msg i

-- Go on past `q` questions.
unfoldable pub questions_loop : ℕ → Bytes → ℕ → ℕ
questions_loop zero msg i = i
questions_loop (suc q) msg i =
    let rest = questions_loop q msg (skip_name msg i + 4) in if leb (length msg) i then i else rest

unfoldable pub after_questions : Bytes → ℕ
after_questions msg = questions_loop (u16_at msg 4) msg 12

-- The name read so far, and where its labels end.
unfoldable pub question_loop : ℕ → Bytes → ℕ → Bytes → Option (Bytes × ℕ)
question_loop zero msg i name = some (name, i)
question_loop (suc f) msg i name =
    let dot : Bytes = if ltb 0 (length name) then 46 ∷ [] else [] in
    let rest =
      question_loop f msg (i + 1 + byte msg i) ((name ++ dot) ++ slice msg (suc i) (byte msg i)) in
    if leb (length msg) i
    then some (name, i)
    else if byte msg i == 0
    then some (name, i + 1)
    else if not (byte msg i / 64 == 0) || ltb (length msg) (i + 1 + byte msg i)
    then none
    else rest

unfoldable pub question_type : (Bytes → Bytes) → Bytes → Option (Bytes × ℕ) → Option (Bytes × ℕ)
question_type lower msg none = none
question_type lower msg (some (name, i)) =
    if ltb (length msg) (i + 4) then none else some (lower name, u16_at msg i)

unfoldable pub question : (Bytes → Bytes) → Bytes → Option (Bytes × ℕ)
question lower msg =
    if ltb (length msg) 12
    then none
    else if u16_at msg 4 == 0
    then none
    else question_type lower msg (question_loop (length msg - 12) msg 12 [])

-- The code's -1 is `none`.
unfoldable pub end_loop : ℕ → Bytes → ℕ → Option ℕ
end_loop zero msg i = none
end_loop (suc f) msg i =
    let rest = end_loop f msg (i + 1 + byte msg i) in
    if leb (length msg) i
    then none
    else if byte msg i == 0
    then (if ltb (length msg) (i + 5) then none else some (i + 5))
    else if not (byte msg i / 64 == 0)
    then none
    else rest

unfoldable pub question_end : Bytes → Option ℕ
question_end msg = if ltb (length msg) 12 then none else end_loop (length msg - 12) msg 12

-- The header of a reply without records.
unfoldable pub reply_head : ℕ → Bytes → Bytes
reply_head low out =
    put_u16 (put_u16 (put_u16 (put_u16 (set (set out 2 0x81) 3 low) 4 1) 6 0) 8 0) 10 0

unfoldable pub short_reply : ℕ → Bytes → Option Bytes
short_reply low query = elim (question_end query) [
  | none ↦ none
  | some end ↦ some (reply_head low (take end query))
]

unfoldable pub no_data : Bytes → Option Bytes
unfolding short_reply
no_data query = short_reply 0x80 query

unfoldable pub nxdomain : Bytes → Option Bytes
unfolding short_reply
nxdomain query = short_reply 0x83 query

unfoldable pub serv_fail : Bytes → Option Bytes
unfolding short_reply
serv_fail query = short_reply 0x82 query

-- net.IP.To4 and net.IP.To16 of the bytes of an address.
abbrev pub mapped : Bytes
mapped = 0 ∷ 0 ∷ 0 ∷ 0 ∷ 0 ∷ 0 ∷ 0 ∷ 0 ∷ 0 ∷ 0 ∷ 0xff ∷ 0xff ∷ []

unfoldable pub to4 : Bytes → Option Bytes
to4 ip =
    if length ip == 4
    then some ip
    else if length ip == 16 && spell 0 (take 12 ip) == 0xffff
    then some (drop 12 ip)
    else none

unfoldable pub to16 : Bytes → Option Bytes
to16 ip = if length ip == 4 then some (mapped ++ ip) else if length ip == 16 then some ip else none

-- The record that Answer appends, up to the length of its data: a pointer to the question's name, the type,
-- class IN, half a minute, and the length.
abbrev pub record_head : ℕ → ℕ → Bytes
record_head qtype len =
    0xC0
    ∷ 0x0C
    ∷ qtype / 256 % 256
    ∷ qtype % 256
    ∷ 0x00
    ∷ 0x01
    ∷ 0x00
    ∷ 0x00
    ∷ 0x00
    ∷ 0x1E
    ∷ 0x00
    ∷ len
    ∷ []

unfoldable pub with_record : ℕ → ℕ → Bytes → Option Bytes → Option Bytes
with_record qtype len out none = none
with_record qtype len out (some ip) = some (put_u16 out 6 1 ++ (record_head qtype len ++ ip))

unfoldable pub answer : Bytes → Bytes → ℕ → Option Bytes
unfolding to4 to16
answer query ip qtype = elim (no_data query) [
  | none ↦ none
  | some out ↦
      if qtype == 1 then with_record 1 4 out (to4 ip) else with_record qtype 16 out (to16 ip)
]

-- The first record of the type with data of `want` bytes among the next `n`.
unfoldable pub first_loop : ℕ → Bytes → ℕ → ℕ → ℕ → Option Bytes
first_loop zero msg i qtype want = none
first_loop (suc n) msg i qtype want =
    let at = skip_name msg i in
    let rdlen = u16_at msg (at + 8) in
    let rest = first_loop n msg (at + 10 + rdlen) qtype want in
    if ltb (length msg) (i + 12)
    then none
    else if ltb (length msg) (at + 10)
    then none
    else if ltb (length msg) (at + 10 + rdlen)
    then none
    else if u16_at msg at == qtype && rdlen == want
    then some (slice msg (at + 10) rdlen)
    else rest

unfoldable pub want_of : ℕ → ℕ
want_of qtype = if qtype == 28 then 16 else 4

unfoldable pub first_addr : Bytes → ℕ → Option Bytes
first_addr msg qtype = if ltb (length msg) 12 then none else elim (question_end msg) [
  | none ↦ none
  | some i ↦
      if u16_at msg 6 == 0 then none else first_loop (u16_at msg 6) msg i qtype (want_of qtype)
]

-- netip.AddrFromSlice of four or sixteen bytes.
unfoldable pub address_of : Bytes → Addr
address_of b = if length b == 4 then v4 (spell 0 b) else v6 (spell 0 b)

unfoldable pub addrs_loop : ℕ → Bytes → ℕ → List Addr
addrs_loop zero msg i = []
addrs_loop (suc n) msg i =
    let at = skip_name msg i in
    let kind = u16_at msg at in
    let rdlen = u16_at msg (at + 8) in
    let rest = addrs_loop n msg (at + 10 + rdlen) in
    if ltb (length msg) (i + 12)
    then []
    else if ltb (length msg) (at + 10)
    then []
    else if ltb (length msg) (at + 10 + rdlen)
    then []
    else if (kind == 1 && rdlen == 4) || (kind == 28 && rdlen == 16)
    then unmap (address_of (slice msg (at + 10) rdlen)) ∷ rest
    else rest

unfoldable pub addrs : Bytes → List Addr
addrs msg =
    if ltb (length msg) 12
    then []
    else elim (question_end msg) [ none ↦ [] | some i ↦ addrs_loop (u16_at msg 6) msg i ]

-- `clear(out[6:12])` and the question's new type.
unfoldable pub asking : ℕ → ℕ → Bytes → Bytes
asking end qtype out =
    put_u16 (put_u16 (put_u16 (put_u16 (put_u16 out 4 1) 6 0) 8 0) 10 0) (end - 4) qtype

unfoldable pub ask_for : Bytes → ℕ → Option Bytes
ask_for query qtype = elim (question_end query) [
  | none ↦ none
  | some end ↦ if ltb end 17 then none else some (asking end qtype (take end query))
]

-- Times are in nanoseconds.
abbrev pub second : ℕ
second = 1000000000

unfoldable pub ttl_loop : ℕ → Bytes → ℕ → ℕ → ℕ
ttl_loop zero msg i best = best
ttl_loop (suc a) msg i best =
    let at = skip_name msg i in
    let rest =
      ttl_loop a msg (at + 10 + u16_at msg (at + 8))
        (if ltb (u32_at msg (at + 4) * second) best then u32_at msg (at + 4) * second else best) in
    if ltb (length msg) (i + 12) then best else if ltb (length msg) (at + 10) then best else rest

unfoldable pub answer_ttl : Bytes → ℕ → ℕ → ℕ → ℕ
answer_ttl msg lo hi empty =
    let rcode = byte msg 3 % 16 in
    if ltb (length msg) 12
    then 0
    else if not (rcode == 0) && not (rcode == 3)
    then 0
    else if u16_at msg 6 == 0
    then max lo empty
    else min (max (ttl_loop (u16_at msg 6) msg (after_questions msg) hi) lo) hi

abbrev pub stale_ttl : ℕ
stale_ttl = 0xFFFFFFFF

-- What is left of a record's time.
unfoldable pub aged : ℕ → ℕ → ℕ
aged by left = if by == stale_ttl || leb left by then 1 else left - by

unfoldable pub aged_at : ℕ → Bytes → ℕ → Bytes
unfolding aged
aged_at by msg at =
    if u16_at msg at == 41 then msg else put_u32 msg (at + 4) (aged by (u32_at msg (at + 4)))

unfoldable pub age_loop : ℕ → Bytes → ℕ → ℕ → Bytes
age_loop zero msg i by = msg
age_loop (suc n) msg i by =
    let at = skip_name msg i in
    let next = aged_at by msg at in
    let rest = age_loop n next (at + 10 + u16_at next (at + 8)) by in
    if ltb (length msg) (i + 10) then msg else if ltb (length msg) (at + 10) then msg else rest

unfoldable pub age : Bytes → ℕ → Bytes
age msg by =
    if ltb (length msg) 12
    then msg
    else age_loop (u16_at msg 6 + u16_at msg 8 + u16_at msg 10) msg (after_questions msg) by
