-- ===== src/Splash/Font.antt =====
-- `load_font_from_bios` of boot_splash.c: the font of the text mode, copied to the plane 2
-- of the VGA. The table of the font is an argument, and the registers are left out.
use system_operative_edit.Base.{
  ℕ, zero, suc, ◌+◌, ◌*◌, ◌≤◌, ◌<◌, ◌≡◌, ◌∙◌, inl, inr, ◌&&◌, arith, ltb, leb, ◌==◌, if◌then◌else◌,
  Bool-cases, update,
}

-- The rows of a slot from `row` on, `r` of them.
unfoldable pub glyph_rows : (r row ch : ℕ) → (font : ℕ → ℕ → ℕ) → (ℕ → ℕ) → ℕ → ℕ
glyph_rows zero row ch font plane = plane
glyph_rows (suc r) row ch font plane =
    glyph_rows r (row + 1) ch font (update plane (ch * 32 + row) (font ch row))

unfoldable pub empty_rows : (r row ch : ℕ) → (ℕ → ℕ) → ℕ → ℕ
empty_rows zero row ch plane = plane
empty_rows (suc r) row ch plane = empty_rows r (row + 1) ch (update plane (ch * 32 + row) 0)

-- The slots of `k` characters, from `ch` on.
unfoldable pub font_slots : (k ch : ℕ) → (font : ℕ → ℕ → ℕ) → (ℕ → ℕ) → ℕ → ℕ
font_slots zero ch font plane = plane
font_slots (suc k) ch font plane =
    font_slots k (ch + 1) font (empty_rows 16 16 ch (glyph_rows 16 0 ch font plane))

unfoldable pub load_font_from_bios : (font : ℕ → ℕ → ℕ) → (ℕ → ℕ) → ℕ → ℕ
load_font_from_bios font plane = font_slots 256 0 font plane

glyph_rows_at :
    (r row ch : ℕ) (font : ℕ → ℕ → ℕ) (plane : ℕ → ℕ) (c l : ℕ)
    → row + r ≤ 32
    → l < 32
    → glyph_rows r row ch font plane (c * 32 + l)
      ≡ (if c == ch && (leb row l && ltb l (row + r)) then font c l else plane (c * 32 + l))
unfolding glyph_rows
glyph_rows_at zero row ch font plane c l le lt = ground (arith, le, lt)
glyph_rows_at (suc r) row ch font plane c l le lt =
    glyph_rows_at r (row + 1) ch font (update plane (ch * 32 + row) (font ch row)) c l
      (omega (arith, le)) lt
    ∙ elim (Bool-cases (c * 32 + l == ch * 32 + row)) [
      | inl here ↦
          let same_ch : c ≡ ch = ground (arith, here, le, lt) in
          let same_row : l ≡ row = ground (arith, here, le, lt) in
          rw (same_ch, same_row) (ground (arith, le, lt))
      | inr other ↦ rw other (ground (arith, other, le, lt))
    ]

empty_rows_at :
    (r row ch : ℕ) (plane : ℕ → ℕ) (c l : ℕ)
    → row + r ≤ 32
    → l < 32
    → empty_rows r row ch plane (c * 32 + l)
      ≡ (if c == ch && (leb row l && ltb l (row + r)) then 0 else plane (c * 32 + l))
unfolding empty_rows
empty_rows_at zero row ch plane c l le lt = ground (arith, le, lt)
empty_rows_at (suc r) row ch plane c l le lt =
    empty_rows_at r (row + 1) ch (update plane (ch * 32 + row) 0) c l (omega (arith, le)) lt
    ∙ ground (arith, le, lt)

font_slots_at :
    (k ch : ℕ) (font : ℕ → ℕ → ℕ) (plane : ℕ → ℕ) (c l : ℕ)
    → l < 32
    → font_slots k ch font plane (c * 32 + l) ≡ (
        if leb ch c && ltb c (ch + k)
        then (if ltb l 16 then font c l else 0)
        else plane (c * 32 + l))
unfolding font_slots
font_slots_at zero ch font plane c l lt = ground arith
font_slots_at (suc k) ch font plane c l lt =
    font_slots_at k (ch + 1) font (empty_rows 16 16 ch (glyph_rows 16 0 ch font plane)) c l lt
    ∙ rw
        (
          empty_rows_at 16 16 ch (glyph_rows 16 0 ch font plane) c l (omega arith) lt,
          glyph_rows_at 16 0 ch font plane c l (omega arith) lt,
        )
        (ground (arith, lt))

-- Every one of the 256 characters gets its 16 rows and 16 empty rows behind them, in the slot of 32 bytes
-- that starts at 32 times its code.
pub load_font_from_bios_lem :
    (font : ℕ → ℕ → ℕ) (plane : ℕ → ℕ) (c l : ℕ)
    → c < 256
    → l < 32
    → load_font_from_bios font plane (c * 32 + l) ≡ (if ltb l 16 then font c l else 0)
unfolding load_font_from_bios
load_font_from_bios_lem font plane c l c_lt l_lt =
    font_slots_at 256 0 font plane c l l_lt ∙ ground (arith, c_lt)
