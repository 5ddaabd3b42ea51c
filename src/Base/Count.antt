-- ===== src/Base/Count.antt =====
-- How many indices below a bound pass a test.
use Prim.Native.Nat.{ℕ, zero, suc, ◌+◌, ◌≤◌, ◌<◌}
use mathlib.Core.Path.{◌≡◌, refl}
use mathlib.Core.Bool.{Bool, true, false}
use mathlib.Core.Logic.{inl, inr}
use native.Mathlib.Omega.{arith}
use system_operative_edit.Base.Tests.{◌==◌, if◌then◌else◌, Bool-cases}
use system_operative_edit.Base.Arrays.{update}

unfoldable pub count_below : ℕ → (ℕ → Bool) → ℕ
count_below zero p = 0
count_below (suc n) p = count_below n p + (if p n then 1 else 0)

pub count_below-le : (n : ℕ) (p : ℕ → Bool) → count_below n p ≤ n
unfolding count_below
count_below-le zero p = omega arith
count_below-le (suc n) p = ground (arith, count_below-le n p)

pub count_below-ext :
    (n : ℕ) (p q : ℕ → Bool) → ((i : ℕ) → i < n → p i ≡ q i) → count_below n p ≡ count_below n q
unfolding count_below
count_below-ext zero p q h = refl
count_below-ext (suc n) p q h =
    ground (arith, h n (omega arith), count_below-ext n p q (λ i l. h i (omega arith)))

-- Setting one index from false to true adds one.
pub count_below-set :
    (n k : ℕ) (p : ℕ → Bool)
    → k < n
    → p k ≡ false
    → count_below n (update p k true) ≡ count_below n p + 1
unfolding count_below
count_below-set zero k p h e = elim h [ ]
count_below-set (suc n) k p h e = elim (Bool-cases (n == k)) [
  | inl at ↦ ground (arith, count_below-ext n (update p k true) p (λ i l. ground arith))
  | inr off ↦ ground (arith, count_below-set n k p (ground arith) e)
]

-- Setting one index from true to false takes one away.
pub count_below-unset :
    (n k : ℕ) (p : ℕ → Bool)
    → k < n
    → p k ≡ true
    → count_below n (update p k false) + 1 ≡ count_below n p
unfolding count_below
count_below-unset zero k p h e = elim h [ ]
count_below-unset (suc n) k p h e = elim (Bool-cases (n == k)) [
  | inl at ↦ ground (arith, count_below-ext n (update p k false) p (λ i l. ground arith))
  | inr off ↦ ground (arith, count_below-unset n k p (ground arith) e)
]

pub count_below-none :
    (n : ℕ) (p : ℕ → Bool) → ((i : ℕ) → i < n → p i ≡ false) → count_below n p ≡ 0
unfolding count_below
count_below-none zero p h = refl
count_below-none (suc n) p h =
    ground (arith, h n (omega arith), count_below-none n p (λ i l. h i (omega arith)))
