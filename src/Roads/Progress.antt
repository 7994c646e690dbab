-- ===== src/Roads/Progress.antt =====
-- internal/roads/roads.go, Climb: the turns of its loop, and what is under way when it waits.
use qd.Prelude.{
  ℕ, ◌≤◌, ◌<◌, ◌≡◌, refl, ◌⊎◌, inl, inr, ◌&&◌, ◌||◌, Bool, true, false, not, Option, List, [], ◌∷◌,
  ◌==◌, ltb, arith, Bool-cases,
}
use mathlib.Core.Path.{subst}
use qd.Domains.{Name}
use qd.Roads.Accounts.{unfinished, Sound, Reach-Sound}
use qd.Roads.{
  Memory, due, Try, is_running, running, above_ended, waits, launch_one, launch, Phase, Climb, turn,
  Reach, climbing, failed,
}

-- Some try of the rung has not ended.
unfoldable has_open : ℕ → List Try → Bool
has_open m [] = false
has_open m (t ∷ ts) = (not t.over && t.rung == m) || has_open m ts

unfoldable pub all_over : List Try → Bool
all_over [] = true
all_over (t ∷ ts) = t.over && all_over ts

above_ended_less :
    (m k : ℕ) (ts : List Try) → m ≤ k → above_ended k ts ≡ true → above_ended m ts ≡ true
unfolding above_ended
above_ended_less m k [] h e = refl
above_ended_less m k (t ∷ ts) h e = ground (arith, above_ended_less m k ts h)

all_over_above : (k : ℕ) (ts : List Try) → all_over ts ≡ true → above_ended k ts ≡ true
unfolding above_ended all_over
all_over_above k [] h = refl
all_over_above k (t ∷ ts) h = ground (arith, all_over_above k ts)

-- The best rung with a try that has not ended: all above it have.
best_open :
    (ts : List Try)
    → (all_over ts ≡ true) ⊎ ((m : ℕ) × (has_open m ts ≡ true) × (above_ended m ts ≡ true))
unfolding all_over has_open above_ended
best_open [] = inl refl
best_open (t ∷ ts) = elim (Bool-cases t.over) [
  | inl o ↦ elim (best_open ts) [
    | inl a ↦ inl (rw (o, a) refl)
    | inr (m, h, a) ↦ inr (m, rw (o, h) refl, ground arith)
  ]
  | inr o ↦ elim (best_open ts) [
    | inl a ↦ inr (t.rung, ground arith, ground (arith, all_over_above t.rung ts a))
    | inr (m, h, a) ↦ elim (Bool-cases (ltb t.rung m)) [
      | inl l ↦ inr (t.rung, ground arith, ground (arith, above_ended_less t.rung m ts))
      | inr l ↦ inr (m, ground arith, ground arith)
    ]
  ]
]

never : (a b : Bool) → a && (b && false) ≡ false
never true true = refl
never true false = refl
never false b = refl

goes :
    (all : List Try) (known : Option ℕ) (elapsed m : ℕ) (t : Try)
    → above_ended m all ≡ true
    → (not t.over && t.rung == m) ≡ true
    → is_running (launch_one all known elapsed t) ≡ true
unfolding is_running launch_one waits
goes all known elapsed m t a e =
    let r : t.rung ≡ m = ground arith in
    let w : waits all known elapsed t ≡ false =
      rw (waits, r, a) (never (not t.begun) (ltb elapsed (due m known))) in
    ground arith

running-launch :
    (all : List Try) (known : Option ℕ) (elapsed m : ℕ) (ts : List Try)
    → above_ended m all ≡ true
    → has_open m ts ≡ true
    → 0 < running (launch all known elapsed ts)
unfolding has_open running launch launch_one waits is_running
running-launch all known elapsed m [] a h = absurd (ground arith)
running-launch all known elapsed m (t ∷ ts) a h = elim (Bool-cases (not t.over && t.rung == m)) [
  | inl e ↦ rw (goes all known elapsed m t a e) (omega arith)
  | inr e ↦ ground (arith, running-launch all known elapsed m ts a, rw e at h)
]

unfinished-all_over : (ts : List Try) → all_over ts ≡ true → unfinished ts ≡ 0
unfolding all_over unfinished
unfinished-all_over [] h = refl
unfinished-all_over (t ∷ ts) h = ground (arith, unfinished-all_over ts)

turn_cases :
    (elapsed : ℕ) (c : Climb)
    → c.left ≡ unfinished c.tries
    → (((turn elapsed c).phase ≡ failed) × (unfinished c.tries ≡ 0))
      ⊎ (0 < running (turn elapsed c).tries)
unfolding turn
turn_cases elapsed c h = elim (Bool-cases (c.left == 0)) [
  | inl z ↦ inl (rw (turn, z) refl, ground arith)
  | inr z ↦ elim (best_open c.tries) [
    | inl a ↦ absurd (let n = unfinished-all_over c.tries a in ground arith)
    | inr (m, o, a) ↦ inr (rw (turn, z) (running-launch c.tries c.known elapsed m c.tries a o))
  ]
]

-- At every turn of its loop a climb either fails, and then every try is over, or has a try
-- running afterwards: it never waits with nothing under way, whatever the rungs and the time.
pub Reach-turn :
    {endpoint : Name} {rungs : List ℕ} {held : Memory} {c : Climb} {roads : List ℕ} (elapsed : ℕ)
    → Reach endpoint rungs held c roads
    → c.phase ≡ climbing
    → (((turn elapsed c).phase ≡ failed) × (unfinished c.tries ≡ 0))
      ⊎ (0 < running (turn elapsed c).tries)
Reach-turn {c} {roads} elapsed r e =
    let s : Sound climbing c roads = subst (λ (x : Phase). Sound x c roads) e (Reach-Sound r) in
    turn_cases elapsed c s.0
