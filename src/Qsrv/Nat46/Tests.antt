-- ===== src/Qsrv/Nat46/Tests.antt =====
-- internal/qsrv/nat46.go: the theorems on the table at concrete slots, addresses and times.
use qd.Prelude.{ℕ, ◌+◌, ◌≡◌, refl, ◌≢◌, List, [], ◌∷◌, some, arith, ◌==◌, if◌then◌else◌}
use qd.Prelude.Int.{pos}
use qd.Prelude.Dict.{find, put, Unique}
use qd.Netip.{Addr, Addr-discrete, is_known, v4, v6, invalid, is6, is4_in6, bits, prefix_from}
use qd.Qsrv.Nat46.{
  Nat46, no_route, any_exit, new_nat46, stand, stand_anew, mint, mint_loop, real, minted, nat_slot,
  slot_of, clamp_slot, forget_oldest, room, own_base, synthetic_base,
}
use qd.Qsrv.Nat46.Mint.{Minted, mint_free, slot_addr}
use qd.Qsrv.Nat46.Pairs.{IsPaired, new_nat46-IsPaired, base_of}
use qd.Qsrv.Nat46.Oldest.{Forgets, forget_oldest-Forgets}
use qd.Qsrv.Nat46.Lookups.{Call, stands, sweeps, run, run-new_nat46-IsPaired, real-stand}
use qd.Qsrv.Nat46.Distinct.{stand_distinct}
use qd.Qsrv.Nat46.Slots.{read_back, slot_of-nat_slot, minted_elsewhere}

abbrev site : Addr
site = v6 0x20010db8000000000000000000000001

abbrev other_site : Addr
other_site = v6 0x20010db8000000000000000000000002

abbrev lookups : List (ℕ × Call)
lookups = (100, stands site) ∷ (200, stands other_site) ∷ (5000, sweeps) ∷ []

run-new_nat46-IsPaired_example : IsPaired (pos 3) (run (new_nat46 (pos 3)) lookups)
run-new_nat46-IsPaired_example = run-new_nat46-IsPaired (pos 3) lookups

-- 198.18.0.2, since the cursor moves on before the first pair.
first_stand : (stand (new_nat46 (pos 0)) site 100).1 ≡ some (v4 (synthetic_base + 2))
unfolding stand stand_anew mint mint_loop new_nat46 room own_base nat_slot clamp_slot is6 is4_in6
    bits find put prefix_from
first_stand = refl

real-stand_example :
    (real (stand (new_nat46 (pos 0)) site 100).0 (v4 (synthetic_base + 2)) 900).1 ≡ some site
real-stand_example =
    real-stand (pos 0) (new_nat46 (pos 0)) site (v4 (synthetic_base + 2)) 100 900
      (new_nat46-IsPaired (pos 0)) first_stand

v6_injective : (a b : ℕ) → v6 a ≡ v6 b → a ≡ b
v6_injective a b e = cc

stand_distinct_example :
    (stand (stand (new_nat46 (pos 0)) site 100).0 other_site 200).1 ≢ some (v4 (synthetic_base + 2))
stand_distinct_example =
    stand_distinct (pos 0) (new_nat46 (pos 0)) site other_site (v4 (synthetic_base + 2)) 100 200
      (new_nat46-IsPaired (pos 0)) first_stand (omega arith)
      (λ e. let same = v6_injective _ _ e in absurd (omega arith))

mint_free_example :
    Minted synthetic_base 4094 ((v4 (synthetic_base + 2), record { v6 = site; used_at = 5 }) ∷ []) (
      mint_loop 4094 synthetic_base 4094
        ((v4 (synthetic_base + 2), record { v6 = site; used_at = 5 }) ∷ [])
        0
        invalid)
mint_free_example =
    mint_free synthetic_base 4094
      ((v4 (synthetic_base + 2), record { v6 = site; used_at = 5 }) ∷ []) 0 invalid (omega arith)
      (omega arith)

-- A table of two pairs, the second the older.
abbrev two_pairs : Nat46
two_pairs = record (new_nat46 (pos 3)) {
  by_v4 =
      (v4 (synthetic_base + 1), record { v6 = site; used_at = 900 })
      ∷ (v4 (synthetic_base + 2), record { v6 = other_site; used_at = 400 })
      ∷ [];
  by_v6 = (site, v4 (synthetic_base + 1)) ∷ (other_site, v4 (synthetic_base + 2)) ∷ [];
}

two_pairs-Unique : Unique Addr-discrete two_pairs.by_v4
unfolding find
two_pairs-Unique = ground arith

forget_oldest-Forgets_example :
    Forgets two_pairs 1000 (v4 (synthetic_base + 2)) site (forget_oldest two_pairs 1000)
unfolding is_known
forget_oldest-Forgets_example =
    forget_oldest-Forgets two_pairs 1000 (v4 (synthetic_base + 2)) site two_pairs-Unique
      (ground arith)

slot_of-nat_slot_example : slot_of (nat_slot (pos 40)) ≡ read_back (pos 40)
slot_of-nat_slot_example = slot_of-nat_slot (pos 40)

minted_elsewhere_example :
    minted (new_nat46 (pos 3)) (slot_addr (base_of (pos 5)) 9) no_route
    ≡ (if 3 == 5 then no_route else any_exit)
unfolding nat_slot new_nat46
minted_elsewhere_example =
    minted_elsewhere (new_nat46 (pos 3)) 3 5 9 refl (omega arith) (omega arith) (omega arith)
