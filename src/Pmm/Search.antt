-- ===== src/Pmm/Search.antt =====
-- The loops of `pmm_alloc_frame` find the lowest free frame.
use system_operative_edit.Base.{
  ℕ, zero, suc, ◌+◌, ◌-◌, ◌*◌, ◌≤◌, ◌<◌, ◌≡◌, refl, ap, true, false, Option, none, some, arith,
  ◌==◌, ltb, Bool-cases, inl, inr,
}
use system_operative_edit.Pmm.{bitmap_test, scan_bits, scan_bytes}
use system_operative_edit.Pmm.Bitmap.{AreBytes, is_used, bitmap_test-lt, bitmap_test_of_full}

-- All frames from `lo` below `hi` are in use.
abbrev pub AllUsed : (ℕ → ℕ) → ℕ → ℕ → Type 0
AllUsed bm lo hi = (g : ℕ) → lo ≤ g → g < hi → is_used bm g ≡ true

-- What a search of the frames from `lo` below `hi` for the lowest free one returns.
abbrev pub FirstFree : (ℕ → ℕ) → ℕ → ℕ → Option ℕ → Type 0
FirstFree bm lo hi none = AllUsed bm lo hi
FirstFree bm lo hi (some f) = (lo ≤ f) × (f < hi) × (is_used bm f ≡ false) × AllUsed bm lo f

module _ (bm : ℕ → ℕ) where
  FirstFree-join :
      (lo mid hi : ℕ) (o : Option ℕ)
      → lo ≤ mid
      → AllUsed bm lo mid
      → FirstFree bm mid hi o
      → FirstFree bm lo hi o
  FirstFree-join lo mid hi none le u h = λ g a b. elim (Bool-cases (ltb g mid)) [
    | inl below ↦ u g a (ground arith)
    | inr above ↦ h g (ground arith) b
  ]
  FirstFree-join lo mid hi (some f) le u h = (
    omega (arith, h.0),
    h.1,
    h.2,
    λ g a b. elim (Bool-cases (ltb g mid)) [
      | inl below ↦ u g a (ground arith)
      | inr above ↦ h.3 g (ground arith) b
    ],
  )

  FirstFree-widen :
      (lo mid hi f : ℕ) → mid ≤ hi → FirstFree bm lo mid (some f) → FirstFree bm lo hi (some f)
  FirstFree-widen lo mid hi f le h = (h.0, omega (arith, h.1), h.2, h.3)

module _ {bm : ℕ → ℕ} (bytes : AreBytes bm) where
  scan_bits-FirstFree :
      (r i j lo hi : ℕ) → lo ≡ i * 8 + j → hi ≡ lo + r → FirstFree bm lo hi (scan_bits r bm i j)
  unfolding scan_bits
  scan_bits-FirstFree zero i j lo hi el eh = λ g a b. absurd (omega arith)
  scan_bits-FirstFree (suc r) i j lo hi el eh =
      elim (Bool-cases (bitmap_test bm (i * 8 + j) == 0)) [
        | inl free ↦ rw free (omega arith, omega arith, ground arith, λ g a b. absurd (omega arith))
        | inr taken ↦
            let one : AllUsed bm lo (lo + 1) = λ g a b.
              let at : g ≡ i * 8 + j = omega arith in
              ground (arith, bitmap_test-lt bytes (i * 8 + j), at) in
            rw taken (
              FirstFree-join bm lo (lo + 1) hi _ (omega arith) one
                (scan_bits-FirstFree r i (j + 1) (lo + 1) hi (omega arith) (omega arith)))
      ]

  -- A byte that is skipped holds no free frame.
  AllUsed-of_full : (i : ℕ) → bm i ≡ 255 → AllUsed bm (i * 8) (i * 8 + 8)
  AllUsed-of_full i e g a b =
      let at : i * 8 + (g - i * 8) ≡ g = omega arith in
      ground
        (arith, ap (bitmap_test bm) at, bitmap_test_of_full bytes i (g - i * 8) e (omega arith))

  scan_bytes-FirstFree :
      (r i hi : ℕ) → hi ≡ i * 8 + r * 8 → FirstFree bm (i * 8) hi (scan_bytes r bm i)
  unfolding scan_bytes
  scan_bytes-FirstFree zero i hi eh = λ g a b. absurd (omega arith)
  scan_bytes-FirstFree (suc r) i hi eh =
      let rest : FirstFree bm (i * 8 + 8) hi (scan_bytes r bm (i + 1)) =
        rw (← next) at (scan_bytes-FirstFree r (i + 1) hi (omega arith)) in
      elim (Bool-cases (bm i == 0xFF)) [
        | inl full ↦ rw full (
            FirstFree-join bm (i * 8) (i * 8 + 8) hi _ (omega arith)
              (AllUsed-of_full i (ground arith)) rest)
        | inr room ↦ rw room (
            after (scan_bits 8 bm i 0)
              (scan_bits-FirstFree 8 i 0 (i * 8) (i * 8 + 8) (omega arith) refl) rest)
      ]
    where
      next : i * 8 + 8 ≡ (i + 1) * 8
      next = omega arith

      after :
          (o : Option ℕ)
          → FirstFree bm (i * 8) (i * 8 + 8) o
          → FirstFree bm (i * 8 + 8) hi (scan_bytes r bm (i + 1))
          → FirstFree bm
              (i * 8)
              hi
              (elim o [ some frame ↦ some frame | none ↦ scan_bytes r bm (i + 1) ])
      after none here rest = FirstFree-join bm (i * 8) (i * 8 + 8) hi _ (omega arith) here rest
      after (some f) here rest = FirstFree-widen bm (i * 8) (i * 8 + 8) hi f (omega arith) here

  -- The search of the whole bitmap.
  pub scan-FirstFree : (r : ℕ) → FirstFree bm 0 (r * 8) (scan_bytes r bm 0)
  scan-FirstFree r = scan_bytes-FirstFree r 0 (r * 8) (omega arith)
