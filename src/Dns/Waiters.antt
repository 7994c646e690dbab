-- ===== src/Dns/Waiters.antt =====
-- internal/dnsproxy/dnsproxy.go, upstream: the queries under way to one upstream, each with its id. A
-- connection and an exchange are known by numbers; a section of the code under the lock is a function.
use qd.Prelude.{
  ℕ, zero, suc, ◌+◌, ◌%◌, ◌≤◌, ◌<◌, ◌≡◌, ◌≢◌, refl, ap, ◌∙◌, inl, inr, false, Option, none, some,
  List, [], map, arith, Bool-cases, Option-cases, none_some, ◌==◌, ltb, if◌then◌else◌, ℕ_discrete,
}
use qd.Prelude.Dict.{find, put, remove, find-put_ne, find-remove}

pub record Upstream : Type 0 where
  pub conn : Option ℕ
  pub waiters : List (ℕ × ℕ)
  pub next_id : ℕ

unfoldable pub new_upstream : Upstream
new_upstream = record { conn = none; waiters = []; next_id = 0 }

-- The loop that looks for an id, and the code's test for 0 after it.
unfoldable pub search : ℕ → List (ℕ × ℕ) → ℕ → Option ℕ × ℕ
search zero w n = (none, n)
search (suc f) w n =
    let id = (n + 1) % 65536 in
    let rest = search f w id in
    elim (find ℕ_discrete id w) [
      | none ↦ (if id == 0 then none else some id, id)
      | some call ↦ rest
    ]

unfoldable pub take_id : Upstream → Option ℕ × ℕ
take_id u = search 65536 u.waiters u.next_id

-- dial, with the number of the connection that it would open.
unfoldable pub dial : ℕ → Upstream → Upstream
dial c u = elim u.conn [ some had ↦ u | none ↦ record u { conn = some c } ]

-- exchange up to its write: the id that the query goes out with, if there is one.
unfoldable pub registered : ℕ → Option ℕ × ℕ → Upstream → Option ℕ × Upstream
registered call (none, n) u = (none, record u { next_id = n })
registered call (some id, n) u =
    (some id, record u { next_id = n; waiters = put ℕ_discrete id call u.waiters })

unfoldable pub begin : ℕ → Upstream → Option ℕ × Upstream
unfolding registered
begin call u = registered call (take_id u) u

-- drop: the exchanges whose channels it closes.
unfoldable pub drop : ℕ → Upstream → List ℕ × Upstream
drop c u = (
  map (λ (w : ℕ × ℕ). w.1) u.waiters,
  record u {
    conn = elim u.conn [ none ↦ none | some had ↦ if had == c then none else some had ];
    waiters = [];
  },
)

-- exchange after a write that failed.
unfoldable pub unsent : ℕ → ℕ → Upstream → List ℕ × Upstream
unfolding drop
unsent c id u = drop c (record u { waiters = remove ℕ_discrete id u.waiters })

-- readLoop for a message of `n` bytes with an id: the exchange that it wakes.
unfoldable pub heard : ℕ → ℕ → Upstream → Option ℕ × Upstream
heard n id u = if ltb n 12 then (none, u) else elim (find ℕ_discrete id u.waiters) [
  | none ↦ (none, u)
  | some call ↦ (some call, record u { waiters = remove ℕ_discrete id u.waiters })
]

unfoldable pub timed_out : ℕ → Upstream → Upstream
timed_out id u = record u { waiters = remove ℕ_discrete id u.waiters }

pub data Step : Upstream → Upstream → Type 0 where
  dialled : (c : ℕ) (u : Upstream) → Step u (dial c u)
  begun : (call : ℕ) (u : Upstream) → Step u (begin call u).1
  failed : (c id : ℕ) (u : Upstream) → Step u (unsent c id u).1
  lost : (c : ℕ) (u : Upstream) → Step u (drop c u).1
  answered : (n id : ℕ) (u : Upstream) → Step u (heard n id u).1
  expired : (id : ℕ) (u : Upstream) → Step u (timed_out id u)

pub data Reach : Upstream → Type 0 where
  start : Reach new_upstream
  next : {u v : Upstream} → Reach u → Step u v → Reach v

-- No query goes out with the id 0, and the last id fits 16 bits.
pub record IsSound (u : Upstream) : Type 0 where
  pub no_zero : find ℕ_discrete 0 u.waiters ≡ none
  pub low : u.next_id < 65536

-- What the search finds from `n` on: the first id that is free, or none before it comes round to 0.
pub data Found (w : List (ℕ × ℕ)) (n : ℕ) : Option ℕ × ℕ → Type 0 where
  free :
      (id : ℕ)
      → n < id
      → id < 65536
      → find ℕ_discrete id w ≡ none
      → ((j : ℕ) → n < j → j < id → find ℕ_discrete j w ≢ none)
      → Found w n (some id, id)
  round : ((j : ℕ) → n < j → j < 65536 → find ℕ_discrete j w ≢ none) → Found w n (none, 0)

next_busy :
    (w : List (ℕ × ℕ)) (n j : ℕ)
    → find ℕ_discrete (suc n) w ≢ none
    → (suc n < j → find ℕ_discrete j w ≢ none)
    → n < j
    → find ℕ_discrete j w ≢ none
next_busy w n j taken busy h = elim (ℕ_discrete (suc n) j) [
  | yes e ↦ λ z. taken (ap (λ (i : ℕ). find ℕ_discrete i w) e ∙ z)
  | no ne ↦ busy (omega (arith, ne))
]

further :
    (w : List (ℕ × ℕ)) (n : ℕ) (got : Option ℕ × ℕ)
    → find ℕ_discrete (suc n) w ≢ none
    → Found w (suc n) got
    → Found w n got
further w n got taken (free id above below open_id busy) =
    free id (omega arith) below open_id (λ j h k. next_busy w n j taken (λ m. busy j m k) h)
further w n got taken (round busy) = round (λ j h k. next_busy w n j taken (λ m. busy j m k) h)

search-Found :
    (f : ℕ) (w : List (ℕ × ℕ)) (n : ℕ)
    → find ℕ_discrete 0 w ≡ none
    → n < 65536
    → 65536 ≤ n + f
    → Found w n (search f w n)
unfolding search
search-Found zero w n h low fuel = absurd (omega arith)
search-Found (suc f) w n h low fuel = elim (ℕ_discrete n 65535) [
  | yes e ↦
      let turn : (n + 1) % 65536 ≡ 0 = omega arith in
      rw (search, turn, h, turn) (round (λ j above below. absurd (omega arith)))
  | no ne ↦
      let turn : (n + 1) % 65536 ≡ suc n = omega (arith, ne) in
      let nz : (suc n == 0) ≡ false = ground arith in
      elim (Option-cases (find ℕ_discrete (suc n) w)) [
        | inl g ↦
            rw (search, turn, g, turn, nz)
              (free (suc n) (omega arith) (omega (arith, ne)) g
                (λ j above below. absurd (omega arith)))
        | inr (call, g) ↦
            rw (search, turn, g, turn)
              (further w n (search f w (suc n)) (λ z. none_some z g)
                (search-Found f w (suc n) h (omega (arith, ne)) (omega arith)))
      ]
]

take_id-Found : (u : Upstream) → IsSound u → Found u.waiters u.next_id (take_id u)
unfolding take_id
take_id-Found u s = search-Found 65536 u.waiters u.next_id s.no_zero s.low (omega arith)

registered-IsSound :
    (call : ℕ) (got : Option ℕ × ℕ) (u : Upstream)
    → IsSound u
    → Found u.waiters u.next_id got
    → IsSound (registered call got u).1
unfolding registered
registered-IsSound call got u s (free id above below open_id busy) = record {
  no_zero = find-put_ne ℕ_discrete id 0 call u.waiters (λ e. omega arith) ∙ s.no_zero;
  low = below;
}
registered-IsSound call got u s (round busy) = record { no_zero = s.no_zero; low = omega arith }

removed :
    (id : ℕ) (w : List (ℕ × ℕ))
    → find ℕ_discrete 0 w ≡ none
    → find ℕ_discrete 0 (remove ℕ_discrete id w) ≡ none
removed id w h = ground (arith, find-remove ℕ_discrete id 0 w)

dial_keeps :
    (c : ℕ) (u : Upstream) → ((dial c u).waiters ≡ u.waiters) × ((dial c u).next_id ≡ u.next_id)
unfolding dial
dial_keeps c u = elim (Option-cases u.conn) [
  | inl e ↦ rw (dial, e) (refl, refl)
  | inr (had, e) ↦ rw (dial, e) (refl, refl)
]

Step-IsSound : {u v : Upstream} → Step u v → IsSound u → IsSound v
unfolding begin drop unsent heard timed_out
Step-IsSound (dialled c u) s =
    let k = dial_keeps c u in
    record { no_zero = ap (find ℕ_discrete 0) k.0 ∙ s.no_zero; low = omega (arith, k.1, s.low) }
Step-IsSound (begun call u) s = registered-IsSound call (take_id u) u s (take_id-Found u s)
Step-IsSound (failed c id u) s = record { no_zero = unfold find in refl; low = s.low }
Step-IsSound (lost c u) s = record { no_zero = unfold find in refl; low = s.low }
Step-IsSound (answered n id u) s = elim (Bool-cases (ltb n 12)) [
  | inl e ↦ rw e s
  | inr e ↦ elim (Option-cases (find ℕ_discrete id u.waiters)) [
    | inl f ↦ rw (e, f) s
    | inr (call, f) ↦ rw (e, f) (record { no_zero = removed id u.waiters s.no_zero; low = s.low })
  ]
]
Step-IsSound (expired id u) s = record { no_zero = removed id u.waiters s.no_zero; low = s.low }

Reach-IsSound : {u : Upstream} → Reach u → IsSound u
unfolding new_upstream
Reach-IsSound start = record { no_zero = unfold find in refl; low = omega arith }
Reach-IsSound (next r step) = Step-IsSound step (Reach-IsSound r)

-- In every state that an upstream reaches from a new one by dialling, asking, failing to write,
-- losing the connection, hearing an answer and timing out, no query under way has the id 0, and
-- the search for an id gives the first free one above the last id given, or none if every id
-- from there to 65535 is taken.
pub Reach-take_id : {u : Upstream} → Reach u → IsSound u × Found u.waiters u.next_id (take_id u)
Reach-take_id {u} r = let s = Reach-IsSound r in (s, take_id-Found u s)
