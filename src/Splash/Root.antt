-- ===== src/Splash/Root.antt =====
-- `isqrt` of boot_splash.c: the square root of an integer, by the method of Newton.
use system_operative_edit.Base.{
  leb, true, false, ◌^◌, ℕ, zero, suc, ◌+◌, ◌-◌, ◌*◌, ◌/◌, ◌≤◌, ◌<◌, ◌≡◌, refl, sym, ap, ◌∙◌, inl,
  inr, Option, none, some, arith, ltb, ◌==◌, if◌then◌else◌, Bool-cases,
}
use native.Mathlib.Nat.{le-div_iff_mul-le, div-lt_iff_lt-mul, mul-le-mul}

-- The loop, on fuel. `none` means that the fuel ran out, or that `q * q` or the sum overflows an int.
unfoldable pub newton : (fuel n q : ℕ) → Option ℕ
newton zero n q = none
newton (suc f) n q =
    let rest = newton f n ((q + n / q) / 2) in
    if leb (2 ^ 31) (q * q)
    then none
    else if ltb n (q * q)
    then (if leb (2 ^ 31) (q + n / q) then none else rest)
    else some q

-- The fuel is the first `q` and one more. A number that is not positive has the root 0; here it is 0.
unfoldable pub isqrt : ℕ → Option ℕ
isqrt n = let q = n / 2 + 1 in let r = newton (q + 1) n q in if n == 0 then some 0 else r

-- The product of a number and the one 2 e above it is e * e less than the square between them.
square_above : (d e : ℕ) → (d + e) * (d + e) ≡ d * (d + e + e) + e * e
square_above d e = omega arith

square_mono : {a b : ℕ} → a ≤ b → a * a ≤ b * b
square_mono le = mul-le-mul le le

root_below : (n q s : ℕ) → n < q * q → s * s ≤ n → s < q
root_below n q s above below = elim (Bool-cases (ltb s q)) [
  | inl lt ↦ ground (arith, lt)
  | inr ge ↦
      let ge' : q ≤ s = ground (arith, ge) in absurd (omega (arith, above, below, square_mono ge'))
]

step_product : (q s : ℕ) → s < q → q < 2 * s → (2 * s - q) * q ≤ s * s
step_product q s lt more =
    let d : ℕ = 2 * s - q in
    let e : ℕ = q - s in
    let s_lem : d + e ≡ s = omega (arith, lt, more) in
    let q_lem : d + e + e ≡ q = omega (arith, lt, more) in
    let eq : s * s ≡ d * q + e * e =
      ap (λ z. z * z) (sym s_lem) ∙ square_above d e ∙ ap (λ z. d * z + e * e) q_lem in
    omega (arith, eq)

-- A step from above the root stays above it.
step_above : (n q s : ℕ) → n < q * q → s * s ≤ n → s ≤ (q + n / q) / 2
step_above n q s above below =
    let lt : s < q = root_below n q s above below in
    elim (Bool-cases (ltb q (2 * s))) [
      | inl less ↦
          let more : q < 2 * s = ground (arith, less) in
          let div : 2 * s - q ≤ n / q =
            (le-div_iff_mul-le {k = q} {x = 2 * s - q} {y = n} (omega (arith, lt))).1
              (omega (arith, step_product q s lt more, below)) in
          omega (arith, div)
      | inr few ↦ let least : 2 * s ≤ q = ground (arith, few) in omega (arith, least)
    ]

root_positive : (n q : ℕ) → n < q * q → 0 < q
root_positive n zero above = absurd (omega (arith, above))
root_positive n (suc q) above = omega arith

step_falls : (n q : ℕ) → n < q * q → (q + n / q) / 2 < q
step_falls n q above =
    let quotient : n / q < q = (div-lt_iff_lt-mul (root_positive n q above)).1 above in
    omega (arith, quotient)

-- The numbers whose squares fit into an int.
square_fits : (q : ℕ) → q ≤ 46340 → leb (2 ^ 31) (q * q) ≡ false
square_fits q small = ground (arith, square_mono small)

sum_fits : (n q : ℕ) → q ≤ 46340 → n < q * q → leb (2 ^ 31) (q + n / q) ≡ false
sum_fits n q small above =
    let quotient : n / q < q = (div-lt_iff_lt-mul (root_positive n q above)).1 above in
    ground (arith, quotient, small)

newton_lem :
    (f n q : ℕ)
    → q < f
    → q ≤ 46340
    → ((s : ℕ) → s * s ≤ n → s ≤ q)
    → (r : ℕ) × (newton f n q ≡ some r) × (r * r ≤ n) × ((s : ℕ) → s * s ≤ n → s ≤ r)
unfolding newton
newton_lem zero n q lt small root = absurd (omega (arith, lt))
newton_lem (suc f) n q lt small root = elim (Bool-cases (ltb n (q * q))) [
  | inl above ↦
      let more : n < q * q = ground (arith, above) in
      let falls = step_falls n q more in
      rw (square_fits q small, above, sum_fits n q small more)
        (newton_lem f n ((q + n / q) / 2) (omega (arith, lt, falls)) (omega (arith, small, falls))
          (λ s h. step_above n q s more h))
  | inr done ↦ (q, rw (square_fits q small, done) refl, ground (arith, done), root)
]

first_above : (s n : ℕ) → s * s ≤ n → s ≤ n / 2 + 1
first_above zero n below = omega arith
first_above (suc t) n below =
    let square : suc t * suc t ≡ t * t + 2 * t + 1 = omega arith in omega (arith, square, below)

next_above : (n r : ℕ) → ((s : ℕ) → s * s ≤ n → s ≤ r) → n < (r + 1) * (r + 1)
next_above n r root = elim (Bool-cases (ltb n ((r + 1) * (r + 1)))) [
  | inl more ↦ ground (arith, more)
  | inr done ↦
      let below : (r + 1) * (r + 1) ≤ n = ground (arith, done) in
      absurd (omega (arith, root (r + 1) below))
]

-- For a number below 92680 `isqrt` ends, after at most n / 2 + 2 tests and without an overflow of an int, with the
-- largest number whose square is at most `n`.
pub isqrt_lem :
    (n : ℕ) → n < 92680 → (r : ℕ) × (isqrt n ≡ some r) × (r * r ≤ n) × (n < (r + 1) * (r + 1))
unfolding isqrt
isqrt_lem n small = elim (Bool-cases (n == 0)) [
  | inl end ↦
      let none_left : n ≡ 0 = ground (arith, end) in
      (0, rw end refl, omega arith, omega (arith, none_left))
  | inr more ↦
      let r =
        newton_lem (n / 2 + 1 + 1) n (n / 2 + 1) (omega arith) (omega (arith, small))
          (λ s below. first_above s n below) in
      (r.0, rw more r.1, r.2, next_above n r.0 r.3)
]

first_overflows : (f n q : ℕ) → 46341 ≤ q → newton (suc f) n q ≡ none
unfolding newton
first_overflows f n q big =
    let over : leb (2 ^ 31) (q * q) ≡ true = ground (arith, square_mono big) in rw over refl

-- For every other number the first square overflows.
pub isqrt_overflows : (n : ℕ) → 92680 ≤ n → isqrt n ≡ none
unfolding isqrt
isqrt_overflows n big =
    let more : (n == 0) ≡ false = ground (arith, big) in
    let fuel : n / 2 + 1 + 1 ≡ suc (n / 2 + 1) = omega arith in
    rw more (
      ap (λ f. newton f n (n / 2 + 1)) fuel
      ∙ first_overflows (n / 2 + 1) n (n / 2 + 1) (omega (arith, big)))
