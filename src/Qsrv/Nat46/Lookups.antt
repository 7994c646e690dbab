-- ===== src/Qsrv/Nat46/Lookups.antt =====
-- internal/qsrv/nat46.go: what `real` makes of the stand-ins that `stand` gave out.
use qd.Prelude.{
  ℕ, ◌<◌, ◌≡◌, refl, sym, ap, ◌≢◌, ◌∙◌, ◌⊎◌, inl, inr, none, some, List, [], ◌∷◌, ◌||◌, true, not,
  arith, length, Option-cases, Bool-cases, leb, ==_iff, some_same, none_some,
}
use qd.Prelude.Int.{ℤ}
use qd.Prelude.Dict.{find, find-put_self}
use qd.Netip.{Addr, Addr-discrete, prefix_from, contains, is6, is4_in6}
use qd.Qsrv.Nat46.{
  Nat46, Pair, new_nat46, synthetic, touch, forget_oldest, mint, stand_anew, stand, real, sweep,
  room,
}
use qd.Qsrv.Nat46.Mint.{slot_addr}
use qd.Qsrv.Nat46.Pairs.{IsPaired, base_of, rm, new_nat46-IsPaired, moved}
use qd.Qsrv.Nat46.Steps.{
  stand-IsPaired, real-IsPaired, sweep-IsPaired, base_lem, clamp_bound, mint-Minted, not_full,
}

-- The calls that a node makes of its table, each with its time.
pub data Call : Type 0 where
  stands reals : Addr → Call
  sweeps : Call

pub step : Nat46 → ℕ × Call → Nat46
step n (now, stands a6) = (stand n a6 now).0
step n (now, reals a4) = (real n a4 now).0
step n (now, sweeps) = (sweep n now).0

pub run : Nat46 → List (ℕ × Call) → Nat46
run n [] = n
run n (c ∷ cs) = run (step n c) cs

step-IsPaired : (slot : ℤ) (n : Nat46) (c : ℕ × Call) → IsPaired slot n → IsPaired slot (step n c)
unfolding step
step-IsPaired slot n (now, stands a6) v = stand-IsPaired slot n a6 now v
step-IsPaired slot n (now, reals a4) v = real-IsPaired slot n a4 now v
step-IsPaired slot n (now, sweeps) v = sweep-IsPaired slot n now v

run-IsPaired :
    (slot : ℤ) (n : Nat46) (cs : List (ℕ × Call)) → IsPaired slot n → IsPaired slot (run n cs)
unfolding run
run-IsPaired slot n [] v = v
run-IsPaired slot n (c ∷ cs) v = run-IsPaired slot (step n c) cs (step-IsPaired slot n c v)

-- After any history of `stand`, `real` and `sweep` on a node's new table, each pair stands in
-- both maps, every stand-in is one of the 4094 addresses of the node's slot, no stand-in serves
-- two addresses, and there are at most 4094 pairs.
pub run-new_nat46-IsPaired :
    (slot : ℤ) (cs : List (ℕ × Call)) → IsPaired slot (run (new_nat46 slot) cs)
run-new_nat46-IsPaired slot cs = run-IsPaired slot _ cs (new_nat46-IsPaired slot)

-- `a6` has the stand-in `a4`, last used at `now`.
abbrev Stood : Nat46 → Addr → Addr → ℕ → Type 0
Stood n a6 a4 now =
    (find Addr-discrete a6 n.by_v6 ≡ some a4)
    × (find Addr-discrete a4 n.by_v4 ≡ some (record { v6 = a6; used_at = now }))

touch-Stood :
    (n : Nat46) (a6 a4 : Addr) (u now : ℕ) → Stood n a6 a4 u → Stood (touch n a4 now) a6 a4 now
unfolding touch
touch-Stood n a6 a4 u now (e, f) = rw (f, touch) (e, find-put_self Addr-discrete a4 _ n.by_v4)

mint-Stood :
    (n : Nat46) (a6 a4 : Addr) (now : ℕ)
    → (mint n a6 now).1 ≡ some a4
    → Stood (mint n a6 now).0 a6 a4 now
unfolding mint
mint-Stood n a6 a4 now e =
    rw (← some_same _ _ e)
      (find-put_self Addr-discrete a6 _ n.by_v6, find-put_self Addr-discrete _ _ n.by_v4)

pub stand_anew_cases :
    (n : Nat46) (a6 : Addr) (now : ℕ)
    → ((stand_anew n a6 now ≡ mint n a6 now) × (length n.by_v4 < room n))
      ⊎ ((stand_anew n a6 now ≡ mint (forget_oldest n now).0 a6 now)
          × ((forget_oldest n now).1 ≡ true))
      ⊎ ((stand_anew n a6 now).1 ≡ none)
unfolding stand_anew
stand_anew_cases n a6 now = elim (Bool-cases (leb (room n) (length n.by_v4))) [
  | inr space ↦ rw space (inl (refl, not_full _ _ space))
  | inl full ↦ elim (Bool-cases (forget_oldest n now).1) [
    | inl freed ↦ rw full (rw freed (inr (inl (refl, refl))))
    | inr stuck ↦ rw full (rw stuck (inr (inr refl)))
  ]
]

stand_anew-Stood :
    (n : Nat46) (a6 a4 : Addr) (now : ℕ)
    → (stand_anew n a6 now).1 ≡ some a4
    → Stood (stand_anew n a6 now).0 a6 a4 now
stand_anew-Stood n a6 a4 now e = elim (stand_anew_cases n a6 now) [
  | inl (plain, space) ↦ rw plain (mint-Stood n a6 a4 now (rw plain at e))
  | inr (inl (late, freed)) ↦ rw late (mint-Stood _ a6 a4 now (rw late at e))
  | inr (inr refused) ↦ none_some refused e
]

pub stand_cases :
    (n : Nat46) (a6 : Addr) (now : ℕ)
    → ((stand n a6 now).1 ≡ none)
      ⊎ ((held : Addr) × (find Addr-discrete a6 n.by_v6 ≡ some held)
          × (stand n a6 now ≡ (touch n held now, some held)))
      ⊎ ((find Addr-discrete a6 n.by_v6 ≡ none) × (stand n a6 now ≡ stand_anew n a6 now))
unfolding stand
stand_cases n a6 now = elim (Bool-cases (not (is6 a6) || is4_in6 a6)) [
  | inl other ↦ rw other (inl refl)
  | inr six ↦ elim (Option-cases (find Addr-discrete a6 n.by_v6)) [
    | inl new ↦ rw six (rw new (inr (inr (refl, refl))))
    | inr (held, h) ↦ rw six (rw h (inr (inl (held, refl, refl))))
  ]
]

-- A successful `stand` leaves the address with that stand-in, used just now.
pub stand-Stood :
    (slot : ℤ) (n : Nat46) (a6 a4 : Addr) (now : ℕ)
    → IsPaired slot n
    → (stand n a6 now).1 ≡ some a4
    → Stood (stand n a6 now).0 a6 a4 now
stand-Stood slot n a6 a4 now v e = elim (stand_cases n a6 now) [
  | inl refused ↦ none_some refused e
  | inr (inl (held, h, same)) ↦
      let is : held ≡ a4 = some_same held a4 (rw same at e) in
      rw same (
        rw is (
          let (u, f) = v.there a6 held h in
          touch-Stood n a6 a4 u now (h ∙ ap some is, moved n.by_v4 (sym is) f)))
  | inr (inr (new, same)) ↦ rw same (stand_anew-Stood n a6 a4 now (rw same at e))
]

-- The stand-ins of a slot lie in 198.18.0.0/15.
slot_synthetic :
    (slot : ℤ) (r : ℕ) → r < rm → contains synthetic (slot_addr (base_of slot) r) ≡ true
unfolding contains synthetic prefix_from
slot_synthetic slot r h = (==_iff _ _).1 (omega (arith, base_lem slot, clamp_bound slot))

real_at :
    (n : Nat46) (a4 : Addr) (p : Pair) (now : ℕ)
    → contains synthetic a4 ≡ true
    → find Addr-discrete a4 n.by_v4 ≡ some p
    → (real n a4 now).1 ≡ some p.v6
unfolding real
real_at n a4 p now inn e = rw inn (rw (e, real) refl)

-- On a table that is paired, `real` gives back, at any time, the address that the last `stand`
-- was asked about.
pub real-stand :
    (slot : ℤ) (n : Nat46) (a6 a4 : Addr) (now later : ℕ)
    → IsPaired slot n
    → (stand n a6 now).1 ≡ some a4
    → (real (stand n a6 now).0 a4 later).1 ≡ some a6
real-stand slot n a6 a4 now later v e =
    let s = stand-Stood slot n a6 a4 now v e in
    let (r, low, at) = (stand-IsPaired slot n a6 now v).placed a4 _ s.1 in
    real_at _ a4 _ later (ap (contains synthetic) at ∙ slot_synthetic slot r low) s.1

-- Minting does not touch a stand-in that is taken.
pub mint_free_of :
    (slot : ℤ) (n : Nat46) (a6 a4 : Addr) (p : Pair) (now : ℕ)
    → IsPaired slot n
    → length n.by_v4 < rm
    → find Addr-discrete a4 n.by_v4 ≡ some p
    → (mint n a6 now).1 ≢ some a4
unfolding mint
mint_free_of slot n a6 a4 p now v space e f =
    none_some (moved n.by_v4 (sym (some_same _ a4 f)) (mint-Minted slot n v space).free) e
