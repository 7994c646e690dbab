-- ===== src/Qsrv/Pool/Tests.antt =====
-- internal/qsrv/pool.go: the theorems on the pool at concrete prefixes and histories.
use qd.Prelude.{ℕ, ◌%◌, ◌≤◌, ◌≡◌, refl, List, [], ◌∷◌, some, true, is_some, arith}
use qd.Netip.{
  Prefix, v4, prefix_from, contains, is4, bits, bit_len, is_valid, contains_addr, masked_addr, mask,
  no_prefix, Addr-discrete,
}
use qd.Netip
use qd.Prelude.Dict.{find, put}
use qd.Qsrv.Pool.{
  new_pool, single, take, give, stream, stream_tail, own, take_loop, round, lease_fresh, as_u32,
  tail_top,
}
use qd.Qsrv.Pool.Grants.{Outcome, take-Outcome, IsSound}
use qd.Qsrv.Pool.Refill.{
  Call, takes, gives, run, run-new_pool-IsSound, new_pool-IsSound, take-give-take,
}
use qd.Qsrv.Pool.Streams.{base_at, stream_placed}
use qd.Qsrv.Pool.Liveness.{take_succeeds}

-- 10.7.0.0/16.
abbrev tunnel : Prefix
tunnel = prefix_from (v4 0x0a070000) 16

abbrev visits : List Call
visits = takes 7 ∷ takes 8 ∷ gives (single (v4 0x0a070001)) ∷ []

take-Outcome_example :
    Outcome (run (new_pool tunnel) visits) 9 (take (run (new_pool tunnel) visits) 9)
take-Outcome_example =
    take-Outcome (run (new_pool tunnel) visits) 9 (run-new_pool-IsSound tunnel visits)

run-new_pool-IsSound_example : IsSound (run (new_pool tunnel) visits)
run-new_pool-IsSound_example = run-new_pool-IsSound tunnel visits

first_take : (take (new_pool tunnel) 7).1 ≡ some (single (v4 0x0a070001))
unfolding take own take_loop round lease_fresh single new_pool stream_tail is4 bits masked_addr mask
    as_u32 tail_top prefix_from contains is_valid contains_addr find put bit_len Netip.next
first_take = refl

take-give-take_example :
    (take (give (take (new_pool tunnel) 7).0 (single (v4 0x0a070001))) 7).1
    ≡ some (single (v4 0x0a070001))
take-give-take_example =
    take-give-take (new_pool tunnel) 7 (v4 0x0a070001) (omega arith) (new_pool-IsSound tunnel)
      first_take

inside : contains tunnel (v4 0x0a070009) ≡ true
unfolding contains prefix_from is_valid bits contains_addr
inside = refl

take_succeeds_example : is_some (take (new_pool tunnel) 7).1 ≡ true
unfolding prefix_from new_pool contains stream_tail tail_top find
take_succeeds_example =
    take_succeeds (new_pool tunnel) 7 0x0a070000 16 0x0a070009 refl (omega arith) (omega arith)
      (omega arith) inside refl refl

stream_placed_example :
    (n : ℕ) × (stream (new_pool (base_at 0x0a070000 8)) 300 ≡ prefix_from (v4 n) 32)
    × (contains (base_at 0x0a070000 8) (v4 n) ≡ true)
    × (contains (stream_tail (base_at 0x0a070000 8)) (v4 n) ≡ true)
    × (1 ≤ n % 256)
    × (n % 256 ≤ 254)
stream_placed_example = stream_placed 0x0a070000 8 300 (omega arith)
