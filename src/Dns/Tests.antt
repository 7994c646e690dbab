-- ===== src/Dns/Tests.antt =====
-- internal/dnsproxy/dnsproxy.go: the theorems at concrete messages.
use qd.Prelude.{
  ℕ, ◌+◌, ◌*◌, ◌≡◌, refl, [], ◌∷◌, ◌++◌, List, Option, some, none, true, false, map, length, inl,
  inr, arith,
}
use qd.Ippkt.{u16_at, Bytes}
use qd.Ippkt.Checksum.{IsBytes}
use qd.Dns.{
  skip_name, question, question_end, answer, first_addr, ask_for, age, addrs, answer_ttl, second,
}
use qd.Dns.Agree.{skip_name-question}
use qd.Dns.Stamps.{age-stamps}
use qd.Dns.Ages.{all_stamps, aged_stamp}
use qd.Dns.Replies.{question-ask_for}
use qd.Dns.Answers.{first_addr-answer}
use qd.Domains.{Name}
use qd.Dns.Cache.{Config, new_resolver}
use qd.Dns.Cache.Runs.{Call, stored, looked_up}
use qd.Dns.Cache.History.{run, run-shop, shop_run, shop_of, Shows}
use qd.Dns.Waiters.{
  Reach-take_id, start, next, begun, new_upstream, Upstream, begin, take_id, IsSound, Found,
}

-- A query for the IPv4 address of ab.c.
abbrev query : Bytes
query =
    7 ∷ 9 ∷ 1 ∷ 0 ∷ 0 ∷ 1 ∷ 0 ∷ 0 ∷ 0 ∷ 0 ∷ 0 ∷ 0 ∷ 2 ∷ 97 ∷ 98 ∷ 1 ∷ 99 ∷ 0 ∷ 0 ∷ 1 ∷ 0 ∷ 1 ∷ []

-- The same for the IPv6 address, as AskFor builds it.
abbrev query6 : Bytes
query6 =
    7 ∷ 9 ∷ 1 ∷ 0 ∷ 0 ∷ 1 ∷ 0 ∷ 0 ∷ 0 ∷ 0 ∷ 0 ∷ 0 ∷ 2 ∷ 97 ∷ 98 ∷ 1 ∷ 99 ∷ 0 ∷ 0 ∷ 28 ∷ 0 ∷ 1 ∷ []

-- Its answer, as Answer builds it.
abbrev reply : Bytes
reply =
    7 ∷ 9 ∷ 0x81 ∷ 0x80 ∷ 0 ∷ 1 ∷ 0 ∷ 1 ∷ 0 ∷ 0 ∷ 0 ∷ 0 ∷ 2 ∷ 97 ∷ 98 ∷ 1 ∷ 99 ∷ 0 ∷ 0 ∷ 1 ∷ 0 ∷ 1
    ∷ 0xC0 ∷ 0x0C ∷ 0 ∷ 1 ∷ 0 ∷ 1 ∷ 0 ∷ 0 ∷ 0 ∷ 30 ∷ 0 ∷ 4 ∷ 10 ∷ 0 ∷ 0 ∷ 1 ∷ []

asked : question (λ (b : Bytes). b) query ≡ some (97 ∷ 98 ∷ 46 ∷ 99 ∷ [], 1)
unfolding question qd.Dns.question_type qd.Dns.question_loop
asked = refl

ended : question_end query ≡ some 22
unfolding question_end qd.Dns.end_loop
ended = refl

asked_again : ask_for query 28 ≡ some query6
unfolding ask_for question_end qd.Dns.end_loop qd.Dns.asking
asked_again = refl

answered : answer query (10 ∷ 0 ∷ 0 ∷ 1 ∷ []) 1 ≡ some reply
unfolding answer qd.Dns.no_data question_end qd.Dns.end_loop qd.Dns.with_record qd.Dns.reply_head
answered = refl

skip_name-question_example :
    (question_end query ≡ some (skip_name query 12 + 4)) × (u16_at query (skip_name query 12) ≡ 1)
skip_name-question_example =
    skip_name-question (λ (b : Bytes). b) query (97 ∷ 98 ∷ 46 ∷ 99 ∷ []) 1 asked

reply-IsBytes : IsBytes reply
reply-IsBytes = ground arith

age-stamps_example :
    (all_stamps (age reply 12) ≡ map (aged_stamp 12) (all_stamps reply))
    × (length (age reply 12) ≡ 38)
age-stamps_example = age-stamps reply 12 reply-IsBytes

question-ask_for_example : question (λ (b : Bytes). b) query6 ≡ some (97 ∷ 98 ∷ 46 ∷ 99 ∷ [], 28)
question-ask_for_example =
    question-ask_for (λ (b : Bytes). b) query query6 (97 ∷ 98 ∷ 46 ∷ 99 ∷ []) 1 28 asked asked_again
      (omega arith)

first_addr-answer_example :
    (out : Bytes) × (answer query (10 ∷ 0 ∷ 0 ∷ 1 ∷ []) 1 ≡ some out)
    × (first_addr out 1 ≡ some (10 ∷ 0 ∷ 0 ∷ 1 ∷ []))
first_addr-answer_example =
    first_addr-answer query (10 ∷ 0 ∷ 0 ∷ 1 ∷ []) 22 1 ended (inl (refl, refl))

-- The upstream after its first query.
abbrev asking_one : Upstream
asking_one = (begin 5 new_upstream).1

Reach-take_id_example :
    IsSound asking_one × Found asking_one.waiters asking_one.next_id (take_id asking_one)
Reach-take_id_example = Reach-take_id (next start (begun 5 new_upstream))

-- The search comes round to 0 and stops, though no id is taken.
stuck_at_last : take_id (record new_upstream { next_id = 65535 }) ≡ (none, 0)
unfolding take_id qd.Dns.Waiters.search qd.Prelude.Dict.find new_upstream
stuck_at_last = refl

-- Room for one answer, and two answers stored one after the other.
abbrev narrow : Config
narrow = record {
  upstreams = (49 ∷ []) ∷ [];
  records = [];
  cache = 1;
  min_ttl = 0;
  max_ttl = 0;
  stale = 0;
  negative = 0;
  timeout = 0;
}

abbrev no_ip : Name → Option Bytes
no_ip name = none

abbrev as_is : Name → Name
as_is name = name

abbrev calls : List Call
calls =
    stored 1 (97 ∷ []) reply second
    ∷ stored 2 (98 ∷ []) reply second
    ∷ looked_up 3 (97 ∷ []) query
    ∷ looked_up 4 (98 ∷ []) query
    ∷ []

run-shop_example :
    ((run no_ip as_is as_is as_is calls (new_resolver no_ip as_is as_is as_is narrow)).0
      ≡ (shop_run calls (shop_of narrow [])).0)
    × Shows no_ip as_is as_is as_is
        (run no_ip as_is as_is as_is calls (new_resolver no_ip as_is as_is as_is narrow)).1
        (shop_run calls (shop_of narrow [])).1
run-shop_example = run-shop no_ip as_is as_is as_is narrow calls
