-- ===== src/Domains/Nets/Order.antt =====
-- internal/domainroute/domainroute.go: the order of addresses, and the range of a network.
use qd.Prelude.{
  ℕ, zero, suc, ◌+◌, ◌-◌, ◌*◌, ◌/◌, ◌%◌, ◌^◌, ◌≤◌, ◌<◌, ◌≡◌, refl, sym, inl, inr, ◌&&◌, true, false,
  not, ◌==◌, ltb, arith, known_twice, Bool-cases, ℕ_discrete,
}
use native.Mathlib.Nat.{
  one-le-pow, two-pow-succ, mul-div_left, div-mul-le_self, lt-div-mul-add, div-eq_of_lt-le,
}
use qd.Netip.{
  Addr, invalid, v4, v6, Prefix, is4, bits, contains, masked_addr, is_valid, is_known,
  contains_addr, mask,
}
use qd.Domains.{after}
use qd.Domains.Nets.{last_loop, last_of, last}

pub le_trans : (a b c : Addr) → after a b ≡ false → after b c ≡ false → after a c ≡ false
unfolding after
le_trans invalid b c h k = refl
le_trans (v4 n) (v4 m) (v4 l) h k = ground arith
le_trans (v4 n) (v4 m) (v6 l) h k = refl
le_trans (v4 n) (v4 m) invalid h k = k
le_trans (v4 n) (v6 m) (v4 l) h k = absurd (ground arith)
le_trans (v4 n) (v6 m) (v6 l) h k = refl
le_trans (v4 n) (v6 m) invalid h k = k
le_trans (v4 n) invalid c h k = absurd (ground arith)
le_trans (v6 n) (v6 m) (v6 l) h k = ground arith
le_trans (v6 n) (v6 m) (v4 l) h k = k
le_trans (v6 n) (v6 m) invalid h k = k
le_trans (v6 n) (v4 m) c h k = absurd (ground arith)
le_trans (v6 n) invalid c h k = absurd (ground arith)

pub lt-le : (a b : Addr) → after a b ≡ true → after b a ≡ false
unfolding after
lt-le invalid b h = absurd (ground arith)
lt-le (v4 n) (v4 m) h = ground arith
lt-le (v4 n) (v6 m) h = absurd (ground arith)
lt-le (v4 n) invalid h = refl
lt-le (v6 n) (v4 m) h = refl
lt-le (v6 n) (v6 m) h = ground arith
lt-le (v6 n) invalid h = refl

pow_pos : (k : ℕ) → 0 < 2 ^ k
pow_pos k = one-le-pow k 2 (omega arith)

-- The bits set by the loop: from the start of a block to its last number.
last_loop-sum : (k q : ℕ) → last_loop k (q * 2 ^ k) + 1 ≡ q * 2 ^ k + 2 ^ k
unfolding last_loop
last_loop-sum zero q = refl
last_loop-sum (suc k) q =
    let two : 2 ^ suc k ≡ 2 ^ k + 2 ^ k = two-pow-succ k in
    let start : q * 2 ^ suc k ≡ 2 * q * 2 ^ k = grind (arith, two) in
    let high : 2 * q * 2 ^ k / 2 ^ k ≡ 2 * q = mul-div_left (2 * q) (pow_pos k) in
    let unset : ((2 * q) % 2 == 1) ≡ false = ground arith in
    let next : 2 * q * 2 ^ k + 2 ^ k ≡ (2 * q + 1) * 2 ^ k = grind arith in
    rw (start, high, unset, next, last_loop-sum k (2 * q + 1)) (grind (arith, two))

-- A number is in the block of another exactly if it lies from its start to its last number.
in_block :
    (k p n hi : ℕ)
    → hi + 1 ≡ p / 2 ^ k * 2 ^ k + 2 ^ k
    → (p / 2 ^ k == n / 2 ^ k) ≡ (not (ltb n (p / 2 ^ k * 2 ^ k)) && not (ltb hi n))
in_block k p n hi h = elim (ℕ_discrete (p / 2 ^ k) (n / 2 ^ k)) [
  | yes e ↦
      let a : p / 2 ^ k * 2 ^ k ≤ n = rw e (div-mul-le_self n (2 ^ k)) in
      let b : n < p / 2 ^ k * 2 ^ k + 2 ^ k = rw e (lt-div-mul-add (pow_pos k)) in
      let t : (p / 2 ^ k == n / 2 ^ k) ≡ true = ground arith in
      let u : ltb n (p / 2 ^ k * 2 ^ k) ≡ false = ground arith in
      let v : ltb hi n ≡ false = ground arith in rw (t, u, v) refl
  | no ne ↦
      let t : (p / 2 ^ k == n / 2 ^ k) ≡ false = ground arith in
      elim (Bool-cases (ltb n (p / 2 ^ k * 2 ^ k))) [
        | inl u ↦ rw (t, u) refl
        | inr u ↦ elim (Bool-cases (ltb hi n)) [
          | inl v ↦ rw (t, u, v) refl
          | inr v ↦
              let below : n < (p / 2 ^ k + 1) * 2 ^ k =
                (let ring : (p / 2 ^ k + 1) * 2 ^ k ≡ p / 2 ^ k * 2 ^ k + 2 ^ k = grind arith in
                  ground arith) in
              absurd (ne (sym (div-eq_of_lt-le (2 ^ k) (ground arith) below)))
        ]
      ]
]

contains_addr-range :
    (b : ℕ) (q a : Addr)
    → is_known q ≡ true
    → contains_addr b q a ≡ (not (after (mask q b) a) && not (after a (last_of b (mask q b))))
unfolding contains_addr mask last_of after
contains_addr-range b (v4 p) (v4 n) h =
    in_block (32 - b) p n (last_loop (32 - b) (p / 2 ^ (32 - b) * 2 ^ (32 - b)))
      (last_loop-sum (32 - b) (p / 2 ^ (32 - b)))
contains_addr-range b (v4 p) (v6 n) h = refl
contains_addr-range b (v4 p) invalid h = refl
contains_addr-range b (v6 p) (v6 n) h =
    in_block (128 - b) p n (last_loop (128 - b) (p / 2 ^ (128 - b) * 2 ^ (128 - b)))
      (last_loop-sum (128 - b) (p / 2 ^ (128 - b)))
contains_addr-range b (v6 p) (v4 n) h = refl
contains_addr-range b (v6 p) invalid h = refl
contains_addr-range b invalid a h = absurd (unfold is_known in (ground arith))

-- The addresses of a network are those of its range.
pub contains-range :
    (p : Prefix) (a : Addr)
    → is_valid p ≡ true
    → is_known p.addr ≡ true
    → contains p a ≡ (not (after (masked_addr p) a) && not (after a (last p)))
unfolding contains masked_addr last
contains-range p a valid known =
    rw (contains, valid, contains_addr-range (bits p) p.addr a known) refl

-- A range ends where it starts or later, in one family.
range_cases :
    (b : ℕ) (q : Addr)
    → is_known q ≡ true
    → (after (mask q b) (last_of b (mask q b)) ≡ false)
      × (is4 (last_of b (mask q b)) ≡ is4 (mask q b))
unfolding mask last_of after is4
range_cases b (v4 p) h = (
  let s = last_loop-sum (32 - b) (p / 2 ^ (32 - b)) in let z = pow_pos (32 - b) in ground arith,
  refl,
)
range_cases b (v6 p) h = (
  let s = last_loop-sum (128 - b) (p / 2 ^ (128 - b)) in let z = pow_pos (128 - b) in ground arith,
  refl,
)
range_cases b invalid h = absurd (unfold is_known in (ground arith))

pub range-last :
    (p : Prefix)
    → is_known p.addr ≡ true
    → (after (masked_addr p) (last p) ≡ false) × (is4 (last p) ≡ is4 (masked_addr p))
unfolding masked_addr last
range-last p h = range_cases (bits p) p.addr h

-- Between two addresses of one family there are only addresses of that family.
pub between-is4 :
    (lo a hi : Addr)
    → is4 hi ≡ is4 lo
    → is_known lo ≡ true
    → after lo a ≡ false
    → after a hi ≡ false
    → is4 lo ≡ is4 a
unfolding after is4
between-is4 (v4 n) (v4 m) hi e k h l = refl
between-is4 (v4 n) (v6 m) (v4 o) e k h l = absurd (ground arith)
between-is4 (v4 n) (v6 m) (v6 o) e k h l = absurd (ground arith)
between-is4 (v4 n) (v6 m) invalid e k h l = absurd (ground arith)
between-is4 (v4 n) invalid hi e k h l = absurd (ground arith)
between-is4 (v6 n) (v6 m) hi e k h l = refl
between-is4 (v6 n) (v4 m) hi e k h l = absurd (ground arith)
between-is4 (v6 n) invalid hi e k h l = refl
between-is4 invalid a hi e k h l = absurd (unfold is_known in (ground arith))

masked_cases : (q : Addr) (b : ℕ) → is_known q ≡ true → is_known (mask q b) ≡ true
unfolding mask is_known
masked_cases (v4 p) b h = refl
masked_cases (v6 p) b h = refl
masked_cases invalid b h = h

pub masked-known : (p : Prefix) → is_known p.addr ≡ true → is_known (masked_addr p) ≡ true
unfolding masked_addr
masked-known p h = masked_cases p.addr (bits p) h

-- x > a and x ≤ y give y > a; x ≤ y and y < a give x < a.
pub after-up : (x y a : Addr) → after x a ≡ true → after x y ≡ false → after y a ≡ true
after-up x y a h k = elim (Bool-cases (after y a)) [
  | inl e ↦ e
  | inr e ↦ known_twice (le_trans x y a k e) h
]

pub after-down : (x y a : Addr) → after a y ≡ true → after x y ≡ false → after a x ≡ true
after-down x y a h k = elim (Bool-cases (after a x)) [
  | inl e ↦ e
  | inr e ↦ known_twice (le_trans a x y e k) h
]
