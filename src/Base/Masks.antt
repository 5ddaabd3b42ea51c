-- ===== src/Base/Masks.antt =====
-- `|` of a word and of flags in its three low bits, as arithmetic.
use Prim.Native.Nat.{
  ℕ, zero, suc, ◌+◌, ◌*◌, ◌/◌, ◌%◌, ◌≤◌, ◌<◌, max, digits, bit_or, bit_or-bitwise,
}
use mathlib.Core.Path.{◌≡◌, refl}
use native.Mathlib.Omega.{arith}

-- The digit recursion behind `bit_or`; more fuel than digits changes nothing.
abbrev or_digits : ℕ → ℕ → ℕ → ℕ
or_digits fuel a b = digits (λ y. y) max fuel a b

or_digits_more : (f g a b : ℕ) → a ≤ f → a ≤ g → or_digits f a b ≡ or_digits g a b
or_digits_more zero zero a b af ag = refl
or_digits_more zero (suc g) zero b af ag = refl
or_digits_more (suc f) zero zero b af ag = refl
or_digits_more (suc f) (suc g) zero b af ag = refl
or_digits_more zero (suc g) (suc a) b af ag = absurd (omega arith)
or_digits_more (suc f) zero (suc a) b af ag = absurd (omega arith)
or_digits_more (suc f) (suc g) (suc a) b af ag =
    let rest = or_digits_more f g (suc a / 2) (b / 2) (omega arith) (omega arith) in
    omega (arith, rest)

-- The lowest digit of `a | b`, and the others.
pub bit_or_halves : (a b : ℕ) → bit_or a b ≡ bit_or (a / 2) (b / 2) * 2 + max (a % 2) (b % 2)
bit_or_halves zero b = simp bit_or-bitwise (omega arith)
bit_or_halves (suc a) b =
    let low = or_digits_more a (suc a / 2) (suc a / 2) (b / 2) (omega arith) (omega arith) in
    simp bit_or-bitwise (omega (arith, low))

bit_or_none : (bound a : ℕ) → a ≤ bound → bit_or a 0 ≡ a
bit_or_none bound zero le = refl
bit_or_none zero (suc a) le = absurd (omega arith)
bit_or_none (suc bound) (suc a) le =
    omega (arith, bit_or_halves (suc a) 0, bit_or_none bound (suc a / 2) (omega arith))

-- The flags 1, 2 and 4 are set one by one; the rest of the word stays.
pub bit_or_flags :
    (x g : ℕ)
    → g < 8
    → bit_or x g
      ≡ x / 8 * 8
        + max (x / 4 % 2) (g / 4 % 2) * 4
        + max (x / 2 % 2) (g / 2 % 2) * 2
        + max (x % 2) (g % 2)
bit_or_flags x g lt =
    let no_more : g / 2 / 2 / 2 ≡ 0 = omega (arith, lt) in
    let rest : bit_or (x / 2 / 2 / 2) (g / 2 / 2 / 2) ≡ x / 2 / 2 / 2 =
      rw no_more (bit_or_none (x / 2 / 2 / 2) (x / 2 / 2 / 2) (omega arith)) in
    omega (
      arith,
      bit_or_halves x g,
      bit_or_halves (x / 2) (g / 2),
      bit_or_halves (x / 2 / 2) (g / 2 / 2),
      rest,
    )
