-- ===== src/Base/Bits.antt =====
-- Bit operations: a bit of a byte, by a table, and `|` and `&` with page-aligned words.
use Prim.Native.Nat.{ℕ, zero, suc, ◌+◌, ◌≤◌, ◌-◌, ◌/◌, ◌%◌, ◌^◌, ◌<◌, bit_and, bit_or}
use mathlib.Core.Path.{◌≡◌, refl}
use mathlib.Core.Bool.{Bool, true, false, ◌&&◌}
use native.Mathlib.Omega.{arith}
use system_operative_edit.Base.Tests.{◌==◌, ltb, leb, if◌then◌else◌}

-- The test `p` passes for the `r` values from `i` on.
unfoldable pub check_from : (i r : ℕ) → (ℕ → Bool) → Bool
check_from i zero p = true
check_from i (suc r) p = if p i then check_from (i + 1) r p else false

check_from_lem :
    (i r : ℕ) (p : ℕ → Bool) (v : ℕ) → check_from i r p ≡ true → i ≤ v → v < i + r → p v ≡ true
unfolding check_from
check_from_lem i zero p v h low high = ground arith
check_from_lem i (suc r) p v h low high = ground (arith, check_from_lem (i + 1) r p v)

-- The same for all values below a bound.
pub table_lem : (n : ℕ) (p : ℕ → Bool) → (v : ℕ) → check_from 0 n p ≡ true → v < n → p v ≡ true
table_lem n p v h lt = check_from_lem 0 n p v h (omega arith) (omega arith)

-- Bit `k` of `b`, by shift and mask.
abbrev pub bit_at : ℕ → ℕ → ℕ
bit_at b k = bit_and (b / 2 ^ k) 1

abbrev set_test : ℕ → ℕ → ℕ → Bool
set_test b k j =
    (bit_at (bit_or b (2 ^ k)) j == (if j == k then 1 else bit_at b j))
    && ltb (bit_or b (2 ^ k)) 256

abbrev clear_test : ℕ → ℕ → ℕ → Bool
clear_test b k j =
    (bit_at (bit_and b (255 - 2 ^ k)) j == (if j == k then 0 else bit_at b j))
    && ltb (bit_and b (255 - 2 ^ k)) 256

set_table :
    check_from 0 256 (λ b. check_from 0 8 (λ k. check_from 0 8 (λ j. set_test b k j))) ≡ true
unfolding check_from
set_table = refl

clear_table :
    check_from 0 256 (λ b. check_from 0 8 (λ k. check_from 0 8 (λ j. clear_test b k j))) ≡ true
unfolding check_from
clear_table = refl

pub bit_at-set :
    (b k j : ℕ)
    → b < 256
    → k < 8
    → j < 8
    → (bit_at (bit_or b (2 ^ k)) j ≡ (if j == k then 1 else bit_at b j)) × (bit_or b (2 ^ k) < 256)
bit_at-set b k j hb hk hj = ground (
  arith,
  table_lem 8 (λ j. set_test b k j) j
      (table_lem 8 (λ k. check_from 0 8 (λ j. set_test b k j)) k (table_lem 256 _ b set_table hb)
        hk)
      hj,
)

pub bit_at-clear :
    (b k j : ℕ)
    → b < 256
    → k < 8
    → j < 8
    → (bit_at (bit_and b (255 - 2 ^ k)) j ≡ (if j == k then 0 else bit_at b j))
      × (bit_and b (255 - 2 ^ k) < 256)
bit_at-clear b k j hb hk hj = ground (
  arith,
  table_lem 8 (λ j. clear_test b k j) j
      (table_lem 8 (λ k. check_from 0 8 (λ j. clear_test b k j)) k
        (table_lem 256 _ b clear_table hb) hk)
      hj,
)

full_table : check_from 0 8 (λ j. bit_at 255 j == 1) ≡ true
unfolding check_from
full_table = refl

pub bit_at_full : (j : ℕ) → j < 8 → bit_at 255 j ≡ 1
bit_at_full j h = ground (arith, table_lem 8 _ j full_table h)

small_table : check_from 0 256 (λ b. check_from 0 8 (λ j. ltb (bit_at b j) 2)) ≡ true
unfolding check_from
small_table = refl

pub bit_at-lt : (b j : ℕ) → b < 256 → j < 8 → bit_at b j < 2
bit_at-lt b j hb hj =
    ground (arith, table_lem 8 (λ j. ltb (bit_at b j) 2) j (table_lem 256 _ b small_table hb) hj)

abbrev high_test : ℕ → Bool
high_test b = if bit_and b 0x80 == 0 then ltb b 128 else leb 128 b

high_table : check_from 0 256 high_test ≡ true
unfolding check_from
high_table = refl

-- The top bit of a byte is set from 128 on.
pub bit_and-high : (b : ℕ) → b < 256 → (bit_and b 0x80 == 0) ≡ ltb b 128
bit_and-high b h = ground (arith, table_lem 256 high_test b high_table h)

low_table : check_from 0 256 (λ b. bit_and b 7 == b % 8) ≡ true
unfolding check_from
low_table = refl

-- The three low bits of a byte.
pub bit_and-low : (b : ℕ) → b < 256 → bit_and b 7 ≡ b % 8
bit_and-low b h = ground (arith, table_lem 256 (λ b. bit_and b 7 == b % 8) b low_table h)

empty_table : check_from 0 8 (λ j. bit_at 0 j == 0) ≡ true
unfolding check_from
empty_table = refl

pub bit_at_empty : (j : ℕ) → j < 8 → bit_at 0 j ≡ 0
bit_at_empty j h = ground (arith, table_lem 8 _ j empty_table h)

power_table :
    check_from 0 8 (λ k. check_from 0 8 (λ j. bit_at (2 ^ k) j == (if j == k then 1 else 0))) ≡ true
unfolding check_from
power_table = refl

pub bit_at_power : (k j : ℕ) → k < 8 → j < 8 → bit_at (2 ^ k) j ≡ (if j == k then 1 else 0)
bit_at_power k j hk hj = ground (
  arith,
  table_lem 8 (λ j. bit_at (2 ^ k) j == (if j == k then 1 else 0)) j
      (table_lem 8 _ k power_table hk) hj,
)
