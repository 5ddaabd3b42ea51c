-- ===== src/Io/Compare.antt =====
-- `RtlCompareUnicodeString`.
use system_operative_edit.Base.{
  ℕ, zero, suc, ◌+◌, ◌≤◌, ◌<◌, ◌≡◌, refl, ◌↔◌, inl, inr, true, arith, ltb, ◌==◌, if◌then◌else◌,
  Bool-cases,
}
use system_operative_edit.Io.{compare_chars, compare_lengths, compare_buffers, is_zero}

compare_chars_lem :
    (r i : ℕ) (b1 b2 : ℕ → ℕ)
    → (is_zero (compare_chars r i b1 b2) ≡ true) ↔ ((j : ℕ) → i ≤ j → j < i + r → b1 j ≡ b2 j)
unfolding compare_chars
compare_chars_lem zero i b1 b2 = (λ e j low high. ground arith, λ f. refl)
compare_chars_lem (suc r) i b1 b2 = elim (Bool-cases (b1 i == b2 i)) [
  | inl same ↦
      let rest = compare_chars_lem r (i + 1) b1 b2 in
      (
        λ e j low high. elim (Bool-cases (j == i)) [
          | inl here ↦ ground arith
          | inr there ↦ rest.0 (ground arith) j (ground arith) (ground arith)
        ],
        λ f. ground (arith, rest.1 (λ j low high. f j (omega (arith, low)) (omega (arith, high)))),
      )
  | inr other ↦ (λ e. ground arith, λ f. ground (arith, f i (omega arith) (omega arith)))
]

-- Two names with a buffer compare as 0 exactly if they have the same number of characters, and the
-- same characters.
pub compare_buffers_lem :
    (len1 len2 : ℕ) (b1 b2 : ℕ → ℕ)
    → (is_zero (compare_buffers len1 len2 b1 b2) ≡ true)
      ↔ ((len1 ≡ len2) × ((j : ℕ) → j < len1 → b1 j ≡ b2 j))
unfolding compare_buffers compare_lengths
compare_buffers_lem len1 len2 b1 b2 =
    let minlen = if ltb len1 len2 then len1 else len2 in
    let chars = compare_chars_lem minlen 0 b1 b2 in
    elim (Bool-cases (is_zero (compare_chars minlen 0 b1 b2))) [
      | inl same ↦ (
        λ e. (ground arith, λ j lt. chars.0 same j (omega arith) (ground arith)),
        λ h. ground (arith, h.0),
      )
      | inr other ↦
          (λ e. ground arith, λ h. ground (arith, chars.1 (λ j low high. h.1 j (ground arith))))
    ]
