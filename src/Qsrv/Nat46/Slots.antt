-- ===== src/Qsrv/Nat46/Slots.antt =====
-- internal/qsrv/nat46.go: the prefixes of the nodes, and what a destination inside one asks for.
use qd.Prelude.{
  ℕ, ◌+◌, ◌-◌, ◌*◌, ◌/◌, ◌%◌, ◌^◌, ◌<◌, ◌≡◌, refl, ap, ◌∙◌, true, arith, ◌==◌, ==_iff,
  if◌then◌else◌, ltb,
}
use qd.Prelude.Int.{ℤ, pos, negsuc}
use qd.Netip.{v4, prefix_from, contains}
use qd.Qsrv.Nat46.{
  Nat46, no_route, any_exit, nat_slot, clamp_slot, slot_of, synthetic, synthetic_base, minted,
}
use qd.Qsrv.Nat46.Mint.{slot_addr}
use qd.Qsrv.Nat46.Pairs.{base_of, rm}
use qd.Qsrv.Nat46.Steps.{base_lem, clamp_bound}

clamp_small : (s : ℕ) → s < 32 → clamp_slot (pos s) ≡ s
unfolding clamp_slot
clamp_small s h = ground arith

nat_slot_lem :
    (slot : ℤ) → nat_slot slot ≡ prefix_from (v4 (synthetic_base + clamp_slot slot * 4096)) 20
unfolding nat_slot
nat_slot_lem slot = ap (λ (t : ℕ). prefix_from (v4 t) 20) (omega (arith, clamp_bound slot))

contains_v4 :
    (m b x : ℕ) → contains (prefix_from (v4 m) b) (v4 x) ≡ (m / 2 ^ (32 - b) == x / 2 ^ (32 - b))
unfolding contains prefix_from
contains_v4 m b x = refl

slot_of_prefix :
    (k : ℕ) → k < 32 → slot_of (prefix_from (v4 (synthetic_base + k * 4096)) 20) ≡ pos k
unfolding slot_of prefix_from contains synthetic
slot_of_prefix k h = ground arith

slot_of_clamp : (slot : ℤ) → slot_of (nat_slot slot) ≡ pos (clamp_slot slot)
slot_of_clamp slot = rw (nat_slot_lem slot) (slot_of_prefix (clamp_slot slot) (clamp_bound slot))

-- A slot of the 32 is itself; another, negative or too large, is slot 0.
unfoldable pub read_back : ℤ → ℤ
read_back (pos k) = if ltb k 32 then pos k else pos 0
read_back (negsuc k) = pos 0

-- `SlotOf` reads back the slot of a prefix that `NATSlot` made from one of the 32 slots, and
-- reads slot 0 from one that it made from a negative slot or from 32 and above.
pub slot_of-nat_slot : (slot : ℤ) → slot_of (nat_slot slot) ≡ read_back slot
unfolding read_back clamp_slot
slot_of-nat_slot (pos k) = slot_of_clamp (pos k) ∙ ground arith
slot_of-nat_slot (negsuc k) = slot_of_clamp (negsuc k) ∙ refl

same_block :
    (s t r : ℕ)
    → s < 32
    → t < 32
    → r < rm
    → ((synthetic_base + s * 4096) / 2 ^ 12
        == (synthetic_base + t * 4096 + r + 1) % 2 ^ 32 / 2 ^ 12)
      ≡ (s == t)
same_block s t r hs ht hr = ground arith

-- An address of a slot lies in the prefix of a slot exactly if the slots are the same.
slot_contains :
    (s t r : ℕ)
    → s < 32
    → t < 32
    → r < rm
    → contains (nat_slot (pos s)) (slot_addr (base_of (pos t)) r) ≡ (s == t)
slot_contains s t r hs ht hr = rw (nat_slot_lem (pos s)) (
    rw (base_lem (pos t)) (
      rw (clamp_small s hs) (
        rw (clamp_small t ht)
          (contains_v4 (synthetic_base + s * 4096) 20 _ ∙ same_block s t r hs ht hr))))

slot_in_synthetic :
    (t r : ℕ) → t < 32 → r < rm → contains synthetic (slot_addr (base_of (pos t)) r) ≡ true
unfolding contains synthetic prefix_from
slot_in_synthetic t r ht hr = (==_iff _ _).1 (omega (arith, base_lem (pos t), clamp_small t ht))

-- For slots below 32: a destination with no route of its own that stands for an address of
-- another node's slot is sent to any exit; one of the node's own slot stays without a route.
pub minted_elsewhere :
    (n : Nat46) (s t r : ℕ)
    → n.own ≡ nat_slot (pos s)
    → s < 32
    → t < 32
    → r < rm
    → minted n (slot_addr (base_of (pos t)) r) no_route ≡ (if s == t then no_route else any_exit)
unfolding minted
minted_elsewhere n s t r own hs ht hr =
    rw (slot_in_synthetic t r ht hr) (rw own (rw (slot_contains s t r hs ht hr) (ground arith)))
