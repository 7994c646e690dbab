-- ===== src/Roads/Accounts.antt =====
-- internal/roads/roads.go, Climb: what becomes of every road that a try brings.
use qd.Prelude.{
  ℕ, zero, suc, ◌-◌, ◌≤◌, ◌<◌, ◌≡◌, refl, sym, ap, ◌∙◌, inl, inr, ◌&&◌, true, false, not, Option,
  List, [], ◌∷◌, ◌++◌, ◌==◌, ltb, if◌then◌else◌, length, arith, Bool-cases,
}
use mathlib.Core.Path.{subst}
use qd.Domains.{Name}
use qd.Roads.{
  Memory, Try, is_running, running, launch_one, launch, next_due, reset, Phase, Climb, fresh_tries,
  new_climb, turn, cancel, mark_over, rung_of, running_at, stop_below, refuse, win, late_road,
  finished, returned, Reach, climbing, cancelled, failed, won, start, turned, gone, brought, erred,
}

unfoldable pub unfinished : List Try → ℕ
unfinished [] = 0
unfinished (t ∷ ts) = if t.over then unfinished ts else suc (unfinished ts)

running-mark_over :
    (n : ℕ) (ts : List Try) → running_at n ts ≡ true → suc (running (mark_over n ts)) ≡ running ts
unfolding running_at running mark_over is_running
running-mark_over n [] h = absurd (ground arith)
running-mark_over zero (t ∷ ts) h = ground arith
running-mark_over (suc n) (t ∷ ts) h = ground (arith, running-mark_over n ts h)

unfinished-mark_over :
    (n : ℕ) (ts : List Try)
    → running_at n ts ≡ true
    → suc (unfinished (mark_over n ts)) ≡ unfinished ts
unfolding running_at unfinished mark_over is_running
unfinished-mark_over n [] h = absurd (ground arith)
unfinished-mark_over zero (t ∷ ts) h = ground arith
unfinished-mark_over (suc n) (t ∷ ts) h = ground (arith, unfinished-mark_over n ts h)

running-stop_below : (r : ℕ) (ts : List Try) → running (stop_below r ts) ≡ running ts
unfolding running stop_below is_running
running-stop_below r [] = refl
running-stop_below r (t ∷ ts) = ground (arith, running-stop_below r ts)

running-le : (ts : List Try) → running ts ≤ unfinished ts
unfolding running unfinished is_running
running-le [] = omega arith
running-le (t ∷ ts) = ground (arith, running-le ts)

unfinished-launch :
    (all : List Try) (known : Option ℕ) (elapsed : ℕ) (ts : List Try)
    → unfinished (launch all known elapsed ts) ≡ unfinished ts
unfolding unfinished launch launch_one
unfinished-launch all known elapsed [] = refl
unfinished-launch all known elapsed (t ∷ ts) =
    ground (arith, unfinished-launch all known elapsed ts)

unfinished-fresh_tries : (rs : List ℕ) → unfinished (fresh_tries rs) ≡ length rs
unfolding unfinished fresh_tries
unfinished-fresh_tries [] = refl
unfinished-fresh_tries (r ∷ rs) = ap suc (unfinished-fresh_tries rs)

-- What holds in each phase.
abbrev pub Sound : Phase → Climb → List ℕ → Type 0
Sound climbing c roads = (c.left ≡ unfinished c.tries) × (c.dropped ≡ []) × (roads ≡ [])
Sound (won n) c roads = (c.pending ≡ running c.tries) × (roads ≡ n ∷ c.dropped)
Sound cancelled c roads = (c.pending ≡ running c.tries) × (roads ≡ c.dropped)
Sound failed c roads = (running c.tries ≡ 0) × (c.dropped ≡ []) × (roads ≡ [])

not_running : (n : ℕ) (ts : List Try) → running_at n ts ≡ true → 0 < running ts
not_running n ts h = omega (arith, running-mark_over n ts h)

of_phase :
    (p : Phase) (c : Climb) (roads : List ℕ) → c.phase ≡ p → Sound p c roads → Sound c.phase c roads
of_phase p c roads e s = subst (λ (x : Phase). Sound x c roads) (sym e) s

-- What a late road leaves, whether it is remembered or not.
late_road_keeps :
    (m n : ℕ) (c : Climb)
    → ((late_road m n c).phase ≡ c.phase)
      × ((late_road m n c).tries ≡ mark_over n c.tries)
      × ((late_road m n c).pending ≡ c.pending - 1)
      × ((late_road m n c).dropped ≡ c.dropped ++ (n ∷ []))
unfolding late_road
late_road_keeps m n c =
    elim (Bool-cases (ltb (rung_of n c.tries) (rung_of m c.tries) && not c.climbed)) [
      | inl e ↦ rw (late_road, e) (refl, refl, refl, refl)
      | inr e ↦ rw (late_road, e) (refl, refl, refl, refl)
    ]

brought-Sound :
    (p : Phase) (n : ℕ) (c : Climb) (roads : List ℕ)
    → c.phase ≡ p
    → Sound p c roads
    → running_at n c.tries ≡ true
    → Sound (finished n true c).phase (finished n true c) (roads ++ (n ∷ []))
unfolding finished
brought-Sound climbing n c roads e s h =
    rw (finished, e, win)
      (sym (running-stop_below (rung_of n c.tries) (mark_over n c.tries)), rw (s.2, s.1) refl)
brought-Sound (won m) n c roads e s h =
    let k = late_road_keeps m n c in
    rw (finished, e)
      (of_phase (won m) (late_road m n c) (roads ++ (n ∷ [])) (k.0 ∙ e) (
        k.2
            ∙ (let d : c.pending - 1 ≡ running (mark_over n c.tries) =
                  omega (arith, running-mark_over n c.tries h, s.0) in
                d)
            ∙ sym (ap running k.1),
        ap (λ (r : List ℕ). r ++ (n ∷ [])) s.1 ∙ ap (λ (r : List ℕ). m ∷ r) (sym k.3),
      ))
brought-Sound cancelled n c roads e s h =
    rw (finished, e)
      (of_phase cancelled
        (record c {
          tries = mark_over n c.tries;
          pending = c.pending - 1;
          dropped = c.dropped ++ (n ∷ []);
        })
        (roads ++ (n ∷ [])) e
        (omega (arith, running-mark_over n c.tries h, s.0), ap (λ (r : List ℕ). r ++ (n ∷ [])) s.1))
brought-Sound failed n c roads e s h = absurd (omega (arith, not_running n c.tries h, s.0))

erred-Sound :
    (p : Phase) (n : ℕ) (c : Climb) (roads : List ℕ)
    → c.phase ≡ p
    → Sound p c roads
    → running_at n c.tries ≡ true
    → Sound (finished n false c).phase (finished n false c) roads
unfolding finished
erred-Sound climbing n c roads e s h =
    rw (finished, e)
      (of_phase climbing (refuse n c) roads (unfold refuse in e)
        (unfold refuse in (omega (arith, unfinished-mark_over n c.tries h, s.0), s.1, s.2)))
erred-Sound (won m) n c roads e s h =
    rw (finished, e)
      (of_phase (won m) (record c { tries = mark_over n c.tries; pending = c.pending - 1 }) roads e
        (omega (arith, running-mark_over n c.tries h, s.0), s.1))
erred-Sound cancelled n c roads e s h =
    rw (finished, e)
      (of_phase cancelled (record c { tries = mark_over n c.tries; pending = c.pending - 1 }) roads
        e (omega (arith, running-mark_over n c.tries h, s.0), s.1))
erred-Sound failed n c roads e s h = absurd (omega (arith, not_running n c.tries h, s.0))

turn-Sound :
    (elapsed : ℕ) (c : Climb) (roads : List ℕ)
    → c.phase ≡ climbing
    → Sound climbing c roads
    → Sound (turn elapsed c).phase (turn elapsed c) roads
unfolding turn
turn-Sound elapsed c roads e s = elim (Bool-cases (c.left == 0)) [
  | inl z ↦ rw (turn, z) (ground (arith, running-le c.tries), s.1, s.2)
  | inr z ↦
      rw (turn, z)
        (of_phase climbing
          (record c {
            tries = launch c.tries c.known elapsed c.tries;
            timer = reset (next_due c.tries c.known elapsed c.tries) c.timer;
          })
          roads e (s.0 ∙ sym (unfinished-launch c.tries c.known elapsed c.tries), s.1, s.2))
]

start-Sound :
    (endpoint : Name) (rungs : List ℕ) (held : Memory)
    → Sound (new_climb endpoint rungs held).phase (new_climb endpoint rungs held) []
unfolding new_climb
start-Sound endpoint [] held = (unfold running in refl, refl, refl)
start-Sound endpoint (r ∷ rs) held =
    let z : (suc (length rs) == 0) ≡ false = ground arith in
    rw z (sym (unfinished-fresh_tries (r ∷ rs)), refl, refl)

cancel-Sound :
    (c : Climb) (roads : List ℕ) → Sound climbing c roads → Sound (cancel c).phase (cancel c) roads
unfolding cancel
cancel-Sound c roads s = (refl, s.2 ∙ sym s.1)

pub Reach-Sound :
    {endpoint : Name} {rungs : List ℕ} {held : Memory} {c : Climb} {roads : List ℕ}
    → Reach endpoint rungs held c roads
    → Sound c.phase c roads
Reach-Sound {endpoint} {rungs} {held} start = start-Sound endpoint rungs held
Reach-Sound (turned {c} {roads} elapsed r e) =
    turn-Sound elapsed c roads e (subst (λ (x : Phase). Sound x c roads) e (Reach-Sound r))
Reach-Sound (gone {c} {roads} r e) =
    cancel-Sound c roads (subst (λ (x : Phase). Sound x c roads) e (Reach-Sound r))
Reach-Sound (brought {c} {roads} n r h) = brought-Sound c.phase n c roads refl (Reach-Sound r) h
Reach-Sound (erred {c} {roads} n r h) = erred-Sound c.phase n c roads refl (Reach-Sound r) h

-- How many tries are still heard: the loop hears all that run, and a routine left behind counts.
unfoldable pub awaited : Phase → Climb → ℕ
awaited climbing c = running c.tries
awaited (won n) c = c.pending
awaited cancelled c = c.pending
awaited failed c = 0

Sound-accounts :
    (p : Phase) (c : Climb) (roads : List ℕ)
    → Sound p c roads
    → (roads ≡ returned p ++ c.dropped) × (awaited p c ≡ running c.tries)
unfolding awaited returned
Sound-accounts climbing c roads s = (s.2 ∙ sym s.1, refl)
Sound-accounts (won n) c roads s = (s.1, s.0)
Sound-accounts cancelled c roads s = (s.1, s.0)
Sound-accounts failed c roads s = (s.2 ∙ sym s.1, sym s.0)

-- In every state that a climb reaches, the roads that its tries brought so far are the one that
-- it returns, if it returned one, and those that it dropped, in that order; and as many tries
-- are still awaited as are running, so that no road is lost.
pub Reach-accounts :
    {endpoint : Name} {rungs : List ℕ} {held : Memory} {c : Climb} {roads : List ℕ}
    → Reach endpoint rungs held c roads
    → (roads ≡ returned c.phase ++ c.dropped) × (awaited c.phase c ≡ running c.tries)
Reach-accounts {c} {roads} r = Sound-accounts c.phase c roads (Reach-Sound r)
