-- ===== src/Dns/Walk.antt =====
-- internal/dnsproxy/dnsproxy.go, skipName and questionEnd: the walks over the labels of a name.
use qd.Prelude.{
  ℕ, zero, suc, ◌+◌, ◌-◌, ◌/◌, ◌≤◌, ◌<◌, ◌≡◌, refl, sym, ap, ◌∙◌, inl, inr, ◌==◌, leb,
  if◌then◌else◌, length, arith, Bool-cases,
}
use qd.Ippkt.{Bytes, byte}
use qd.Dns.{skip_loop, skip_name}

skip_loop-fuel :
    (f g : ℕ) (msg : Bytes) (i : ℕ)
    → length msg ≤ i + f
    → length msg ≤ i + g
    → skip_loop f msg i ≡ skip_loop g msg i
unfolding skip_loop
skip_loop-fuel zero zero msg i hf hg = refl
skip_loop-fuel zero (suc g) msg i hf hg = ground arith
skip_loop-fuel (suc f) zero msg i hf hg = ground arith
skip_loop-fuel (suc f) (suc g) msg i hf hg = elim (Bool-cases (leb (length msg) i)) [
  | inl e ↦ rw e refl
  | inr e ↦
      ap
        (λ (r : ℕ).
          if leb (length msg) i
          then i
          else if byte msg i / 64 == 3
          then i + 2
          else if byte msg i == 0
          then i + 1
          else r)
        (skip_loop-fuel f g msg (i + 1 + byte msg i) (ground arith) (ground arith))
]

-- The walk over a name has turns enough: at every place it does what one turn of the code does
-- and then walks on from the next label, with no bound on the turns.
pub skip_name-turn :
    (msg : Bytes) (i : ℕ)
    → skip_name msg i ≡ (
        if leb (length msg) i
        then i
        else if byte msg i / 64 == 3
        then i + 2
        else if byte msg i == 0
        then i + 1
        else skip_name msg (i + 1 + byte msg i))
unfolding skip_name
skip_name-turn msg i =
    skip_loop-fuel (length msg - i) (suc (length msg)) msg i (omega arith) (omega arith)
    ∙ unfold skip_loop in
      ap
        (λ (r : ℕ).
          if leb (length msg) i
          then i
          else if byte msg i / 64 == 3
          then i + 2
          else if byte msg i == 0
          then i + 1
          else r)
        (skip_loop-fuel (length msg) (length msg - (i + 1 + byte msg i)) msg (i + 1 + byte msg i)
          (omega arith) (omega arith))

skip_loop-le : (f : ℕ) (msg : Bytes) (i : ℕ) → i ≤ skip_loop f msg i
unfolding skip_loop
skip_loop-le zero msg i = omega arith
skip_loop-le (suc f) msg i =
    let rest = skip_loop-le f msg (i + 1 + byte msg i) in
    elim (Bool-cases (leb (length msg) i)) [
      | inl e ↦ rw e (omega arith)
      | inr e ↦ rw e (elim (Bool-cases (byte msg i / 64 == 3)) [
        | inl e3 ↦ rw e3 (omega arith)
        | inr e3 ↦ rw e3 (elim (Bool-cases (byte msg i == 0)) [
          | inl e0 ↦ rw e0 (omega arith)
          | inr e0 ↦ rw e0 (omega (arith, rest))
        ])
      ])
    ]

pub skip_name-le : (msg : Bytes) (i : ℕ) → i ≤ skip_name msg i
unfolding skip_name
skip_name-le msg i = skip_loop-le (length msg - i) msg i

skip_past : (f : ℕ) (msg : Bytes) (i : ℕ) → i < length msg → i < skip_loop (suc f) msg i
unfolding skip_loop
skip_past f msg i inside = let rest = skip_loop-le f msg (i + 1 + byte msg i) in ground arith

-- A walk reads only the bytes that it goes past.
skip_loop-until :
    (f : ℕ) (a b : Bytes) (i : ℕ)
    → length a ≡ length b
    → ((j : ℕ) → i ≤ j → j < skip_loop f a i → byte a j ≡ byte b j)
    → skip_loop f a i ≡ skip_loop f b i
unfolding skip_loop
skip_loop-until zero a b i long same = refl
skip_loop-until (suc f) a b i long same =
    let onward = skip_loop-le f a (i + 1 + byte a i) in
    elim (Bool-cases (leb (length a) i)) [
      | inl e ↦ rw (e, sym long) (rw e refl)
      | inr e ↦
          let past : i < skip_loop (suc f) a i =
            unfold skip_loop in (skip_past f a i (ground arith)) in
          let here : byte a i ≡ byte b i = same i (omega arith) past in
          elim (Bool-cases (byte a i / 64 == 3)) [
            | inl e3 ↦ rw (e, e3, sym here, sym long) (rw (e, e3) refl)
            | inr e3 ↦ elim (Bool-cases (byte a i == 0)) [
              | inl e0 ↦ rw (e, e3, e0, sym here, sym long) (rw (e, e3, e0) refl)
              | inr e0 ↦
                  rw (e, e3, e0, sym here, sym long)
                    (rw (e, e3, e0)
                      (skip_loop-until f a b (i + 1 + byte a i) long
                        (λ j h k. same j (omega arith) (rw (e, e3, e0) k))))
            ]
          ]
    ]

pub skip_name-until :
    (a b : Bytes) (i : ℕ)
    → length a ≡ length b
    → ((j : ℕ) → i ≤ j → j < skip_name a i → byte a j ≡ byte b j)
    → skip_name a i ≡ skip_name b i
unfolding skip_name
skip_name-until a b i long same =
    skip_loop-until (length a - i) a b i long same ∙ ap (λ (n : ℕ). skip_loop (n - i) b i) long
