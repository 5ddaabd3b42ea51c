-- ===== src/Pmm/Bitmap.antt =====
-- The bitmap of kernel/mm/pmm.c as a set of frames.
use system_operative_edit.Base.{
  ℕ, ◌/◌, ◌%◌, ◌*◌, ◌+◌, ◌<◌, ◌≡◌, Bool, arith, ◌==◌, if◌then◌else◌, Bool-cases, inl, inr,
}
use system_operative_edit.Base.Bits.{bit_at-set, bit_at-clear, bit_at-lt, bit_at_full}
use system_operative_edit.Pmm.{bitmap_set, bitmap_clear, bitmap_test}

-- Each entry is a byte.
abbrev pub AreBytes : (ℕ → ℕ) → Type 0
AreBytes bm = (i : ℕ) → bm i < 256

-- The frame's bit is set.
abbrev pub is_used : (ℕ → ℕ) → ℕ → Bool
is_used bm frame = bitmap_test bm frame == 1

module _ {bm : ℕ → ℕ} (bytes : AreBytes bm) where
  pub bitmap_test-lt : (f : ℕ) → bitmap_test bm f < 2
  unfolding bitmap_test
  bitmap_test-lt f = bit_at-lt (bm (f / 8)) (f % 8) (bytes (f / 8)) (omega arith)

  pub bitmap_test_of_full : (i j : ℕ) → bm i ≡ 255 → j < 8 → bitmap_test bm (i * 8 + j) ≡ 1
  unfolding bitmap_test
  bitmap_test_of_full i j e h =
      let q : (i * 8 + j) / 8 ≡ i = omega arith in
      let r : (i * 8 + j) % 8 ≡ j = omega arith in rw (q, r, e) (bit_at_full j h)

  pub bitmap_set-AreBytes : (f : ℕ) → AreBytes (bitmap_set bm f)
  unfolding bitmap_set
  bitmap_set-AreBytes f i = ground (
    arith,
    bytes i,
    bit_at-set (bm (f / 8)) (f % 8) 0 (bytes (f / 8)) (omega arith) (omega arith),
  )

  pub bitmap_clear-AreBytes : (f : ℕ) → AreBytes (bitmap_clear bm f)
  unfolding bitmap_clear
  bitmap_clear-AreBytes f i = ground (
    arith,
    bytes i,
    bit_at-clear (bm (f / 8)) (f % 8) 0 (bytes (f / 8)) (omega arith) (omega arith),
  )

  -- Setting a bit changes that frame alone.
  pub bitmap_test-set :
      (f g : ℕ) → bitmap_test (bitmap_set bm f) g ≡ (if g == f then 1 else bitmap_test bm g)
  unfolding bitmap_test bitmap_set
  bitmap_test-set f g = elim (Bool-cases (g / 8 == f / 8)) [
    | inl same ↦
        let e : g / 8 ≡ f / 8 = ground arith in
        let at = bit_at-set (bm (f / 8)) (f % 8) (g % 8) (bytes _) (omega arith) (omega arith) in
        ground (arith, at.0, e)
    | inr off ↦ ground arith
  ]

  -- Clearing a bit changes that frame alone.
  pub bitmap_test-clear :
      (f g : ℕ) → bitmap_test (bitmap_clear bm f) g ≡ (if g == f then 0 else bitmap_test bm g)
  unfolding bitmap_test bitmap_clear
  bitmap_test-clear f g = elim (Bool-cases (g / 8 == f / 8)) [
    | inl same ↦
        let e : g / 8 ≡ f / 8 = ground arith in
        let at = bit_at-clear (bm (f / 8)) (f % 8) (g % 8) (bytes _) (omega arith) (omega arith) in
        ground (arith, at.0, e)
    | inr off ↦ ground arith
  ]
