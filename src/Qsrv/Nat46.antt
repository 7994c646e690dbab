-- ===== src/Qsrv/Nat46.antt =====
-- internal/qsrv/nat46.go: the stand-in IPv4 addresses that a node mints for IPv6 destinations.
-- A method takes the time in seconds since 1970 and returns the new table; a comparison with a time
-- that lies some seconds back is written as a sum, so that nothing is cut off at 0. `load` and
-- `save` are file input and output and JSON, and stand in no definition.
-- `stand` takes the read lock and then the write lock; it is one step here, so that its second lookup,
-- for an address that another call stood in between, finds nothing and is left out.
pub mod Slots
pub mod Mint
pub mod Pairs
pub mod Steps
pub mod Lookups
pub mod Distinct
pub mod Oldest
mod Tests
use qd.Prelude.{
  ℕ, zero, suc, ◌+◌, ◌-◌, ◌*◌, ◌/◌, ◌%◌, ◌^◌, ◌&&◌, ◌||◌, Bool, true, false, not, Option, none,
  some, List, [], ◌∷◌, ◌==◌, ltb, leb, if◌then◌else◌, ℕ_discrete, length, is_some,
}
use qd.Prelude.Int.{ℤ, pos, negsuc}
use qd.Prelude.Dict.{find, put, remove}
use qd.Netip.{
  Addr, v4, invalid, Prefix, Addr-discrete, prefix_from, contains, bits, is6, is4_in6, is_known,
}

pub record Pair : Type 0 where
  pub v6 : Addr
  pub used_at : ℕ

pub record Nat46 : Type 0 where
  pub marks : ℕ
  pub by_v4 : List (Addr × Pair)
  pub by_v6 : List (Addr × Addr)
  pub next : ℕ
  pub own : Prefix

-- 198.18.0.0, and ippkt.StandIn.
abbrev pub synthetic_base : ℕ
synthetic_base = 0xc6120000

unfoldable pub synthetic : Prefix
unfolding prefix_from
synthetic = prefix_from (v4 synthetic_base) 15

abbrev pub nat_slot_bits : ℕ
nat_slot_bits = 20

abbrev pub nat_slots : ℕ
nat_slots = 32

abbrev pub nat_idle : ℕ
nat_idle = 3600

abbrev pub nat_reuse : ℕ
nat_reuse = 300

unfoldable pub clamp_slot : ℤ → ℕ
clamp_slot (pos slot) = if leb nat_slots slot then 0 else slot
clamp_slot (negsuc n) = 0

unfoldable pub nat_slot : ℤ → Prefix
unfolding prefix_from
nat_slot slot =
    prefix_from (v4 ((synthetic_base + clamp_slot slot * 2 ^ (32 - nat_slot_bits)) % 2 ^ 32))
      nat_slot_bits

unfoldable pub new_nat46 : ℤ → Nat46
new_nat46 slot = record { marks = 0; by_v4 = []; by_v6 = []; next = 0; own = nat_slot slot }

-- `1 << (32 - bits) - 2`, in uint32.
unfoldable pub room : Nat46 → ℕ
room n = (2 ^ (32 - bits n.own) % 2 ^ 32 + 2 ^ 32 - 2) % 2 ^ 32

unfoldable pub own_base : Addr → ℕ
own_base (v4 n) = n
own_base _ = 0

-- `p.usedAt.Store(now)` on the pair of an address, if there is one.
unfoldable pub touch : Nat46 → Addr → ℕ → Nat46
touch n a now = elim (find Addr-discrete a n.by_v4) [
  | none ↦ n
  | some p ↦ record n { by_v4 = put Addr-discrete a (record p { used_at = now }) n.by_v4 }
]

-- One turn of the loop on `range n.byV4`.
unfoldable pub older : Addr × ℕ → Addr × Pair → Addr × ℕ
older (oldest, since) (a, p) =
    if since == 0 || ltb p.used_at since then (a, p.used_at) else (oldest, since)

unfoldable pub oldest_from : Addr × ℕ → List (Addr × Pair) → Addr × ℕ
oldest_from best [] = best
oldest_from best (e ∷ rest) = oldest_from (older best e) rest

-- The pair of an address leaves both maps.
unfoldable pub drop_pair : Nat46 → Addr → Nat46
drop_pair n a = record n {
  by_v6 = elim (find Addr-discrete a n.by_v4) [
    | none ↦ n.by_v6
    | some p ↦ remove Addr-discrete p.v6 n.by_v6
  ];
  by_v4 = remove Addr-discrete a n.by_v4;
}

-- forgetOldestLocked(now - natReuse).
unfoldable pub forget_oldest : Nat46 → ℕ → Nat46 × Bool
forget_oldest n now =
    let (oldest, since) = oldest_from (invalid, 0) n.by_v4 in
    if not (is_known oldest) || ltb now (since + nat_reuse)
    then (n, false)
    else (drop_pair n oldest, true)

-- The loop that looks for a free address: the cursor, and the address that it tried last.
unfoldable pub mint_loop : ℕ → ℕ → ℕ → List (Addr × Pair) → ℕ → Addr → ℕ × Addr
mint_loop zero base rm taken cursor last = (cursor, last)
mint_loop (suc k) base rm taken cursor last =
    let cursor' = (cursor + 1) % 2 ^ 32 % rm in
    let tried = v4 ((base + cursor' + 1) % 2 ^ 32) in
    let more = mint_loop k base rm taken cursor' tried in
    if is_some (find Addr-discrete tried taken) then more else (cursor', tried)

unfoldable pub mint : Nat46 → Addr → ℕ → Nat46 × Option Addr
mint n a6 now =
    let (cursor, a4) = mint_loop (room n) (own_base n.own.addr) (room n) n.by_v4 n.next invalid in
    (
      record n {
        next = cursor;
        by_v6 = put Addr-discrete a6 a4 n.by_v6;
        by_v4 = put Addr-discrete a4 (record { v6 = a6; used_at = now }) n.by_v4;
        marks = (n.marks + 1) % 2 ^ 32;
      },
      some a4,
    )

-- The part of `stand` under the write lock, for an address with no pair.
unfoldable pub stand_anew : Nat46 → Addr → ℕ → Nat46 × Option Addr
stand_anew n a6 now =
    if leb (room n) (length n.by_v4)
    then (let (m, freed) = forget_oldest n now in if freed then mint m a6 now else (m, none))
    else mint n a6 now

unfoldable pub stand : Nat46 → Addr → ℕ → Nat46 × Option Addr
stand n a6 now =
    if not (is6 a6) || is4_in6 a6 then (n, none) else elim (find Addr-discrete a6 n.by_v6) [
      | some held ↦ (touch n held now, some held)
      | none ↦ stand_anew n a6 now
    ]

unfoldable pub real : Nat46 → Addr → ℕ → Nat46 × Option Addr
real n a4 now =
    if not (contains synthetic a4) then (n, none) else elim (find Addr-discrete a4 n.by_v4) [
      | none ↦ (n, none)
      | some held ↦ (touch n a4 now, some held.v6)
    ]

-- One turn of the loop of `sweep`: the pair that the table holds at an address now.
unfoldable pub sweep_one : ℕ → Nat46 × ℕ → Addr → Nat46 × ℕ
unfolding drop_pair
sweep_one now (n, gone) a = elim (find Addr-discrete a n.by_v4) [
  | none ↦ (n, gone)
  | some p ↦ if ltb now (p.used_at + nat_idle) then (n, gone) else (drop_pair n a, gone + 1)
]

-- The loop ranges over the addresses that the table held at its start.
unfoldable pub sweep_loop : ℕ → Nat46 × ℕ → List (Addr × Pair) → Nat46 × ℕ
sweep_loop now r [] = r
sweep_loop now r ((a, p) ∷ rest) = sweep_loop now (sweep_one now r a) rest

unfoldable pub sweep : Nat46 → ℕ → Nat46 × ℕ
sweep n now =
    let (m, gone) = sweep_loop now (n, 0) n.by_v4 in
    if ltb 0 gone then (record m { marks = (m.marks + 1) % 2 ^ 32 }, gone) else (m, gone)

unfoldable pub dirty : Nat46 → Nat46 × Bool
dirty n = (record n { marks = 0 }, ltb 0 n.marks)

-- The destination that stands behind an address; the port is untouched.
unfoldable pub behind : Nat46 → Addr → ℕ → Nat46 × Addr
behind n dst now =
    let (m, found) = real n dst now in elim found [ some a ↦ (m, a) | none ↦ (m, dst) ]

unfoldable pub stale : Nat46 → Addr → ℕ → Nat46 × Bool
stale n dst now =
    if not (contains synthetic dst)
    then (n, false)
    else let (m, known) = real n dst now in (m, not (is_some known))

-- The route that a destination asks for: `none` is no route, `any_exit` the constant "egress".
pub data Route : Type 0 where
  no_route any_exit : Route
  route_to : ℕ → Route

unfoldable pub minted : Nat46 → Addr → Route → Route
minted n dst no_route =
    if contains synthetic dst && not (contains n.own dst) then any_exit else no_route
minted n dst any_exit = any_exit
minted n dst (route_to r) = route_to r

-- SlotOf: -1 for a prefix that is no slot.
unfoldable pub slot_of : Prefix → ℤ
unfolding bits own_base
slot_of p =
    if not (bits p == nat_slot_bits) || not (contains synthetic p.addr)
    then negsuc 0
    else pos ((own_base p.addr - synthetic_base) / 2 ^ (32 - nat_slot_bits))
