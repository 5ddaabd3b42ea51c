-- ===== src/Bootvid/Fade.antt =====
-- Where `BootVidFadeScreen` leaves the palette.
use mathlib.Core.Path.{subst}
use system_operative_edit.Base.{
  if_true, ℕ, zero, suc, ◌+◌, ◌-◌, ◌*◌, ◌/◌, ◌%◌, ◌≤◌, ◌<◌, ◌≡◌, refl, sym, ap, ◌∙◌, inl, inr, Bool,
  true, false, ◌&&◌, arith, ltb, leb, ◌==◌, if◌then◌else◌, Bool-cases, update,
}
use system_operative_edit.Bootvid.{
  Rgb, Display, set_palette_color, faded, set_colors, fade_steps, fade_screen, rgb,
}

-- The mode is active, and the memory is what it was.
abbrev Kept : (d w : Display) → Type 0
Kept d w = (w.active ≡ true) × (w.memory ≡ d.memory)

set_palette_color-on :
    (i : ℕ) (c : Rgb) (d : Display)
    → d.active ≡ true
    → i < 256
    → set_palette_color i c d ≡ record d { palette = update d.palette i c }
unfolding set_palette_color
set_palette_color-on i c d on lt =
    let same : i % 256 ≡ i = omega (arith, lt) in
    if_true d.active (record d { palette = update d.palette (i % 256) c }) d on
    ∙ ap (λ n. record d { palette = update d.palette n c }) same

range_step :
    (i r j : ℕ) (v p : ℕ → Rgb)
    → (if leb (i + 1) j && ltb j (i + 1 + r) then v j else update p i (v i) j)
      ≡ (if leb i j && ltb j (i + suc r) then v j else p j)
range_step i r j v p = elim (Bool-cases (j == i)) [
  | inl here ↦
      let before : (leb (i + 1) j && ltb j (i + 1 + r)) ≡ false = ground (arith, here) in
      let inside : (leb i j && ltb j (i + suc r)) ≡ true = ground (arith, here) in
      let at : i ≡ j = ground (arith, here) in rw (before, inside, here) (ap v at)
  | inr away ↦
      let same : (leb (i + 1) j && ltb j (i + 1 + r)) ≡ (leb i j && ltb j (i + suc r)) =
        ground (arith, away) in
      rw (same, away) refl
]

-- The palette after the entries from `i` to `i + r` have been set.
abbrev Colored : (r i : ℕ) (f : Rgb → Rgb) (saved : ℕ → Rgb) (d w : Display) → Type 0
Colored r i f saved d w =
    Kept d w
    × ((j : ℕ) → w.palette j ≡ (if leb i j && ltb j (i + r) then f (saved j) else d.palette j))

set_colors_lem :
    (r i : ℕ) (f : Rgb → Rgb) (saved : ℕ → Rgb) (d : Display)
    → d.active ≡ true
    → i + r ≤ 256
    → Colored r i f saved d (set_colors r i f saved d)
unfolding set_colors
set_colors_lem zero i f saved d on le = ((on, refl), λ j. ground arith)
set_colors_lem (suc r) i f saved d on le =
    let next = record d { palette = update d.palette i (f (saved i)) } in
    let ih = set_colors_lem r (i + 1) f saved next on (omega (arith, le)) in
    subst (λ z. Colored (suc r) i f saved d (set_colors r (i + 1) f saved z))
      (sym (set_palette_color-on i (f (saved i)) d on (omega (arith, le))))
      (ih.0, λ j. ih.1 j ∙ range_step i r j (λ n. f (saved n)) d.palette)

-- A whole palette.
whole_palette :
    (f : Rgb → Rgb) (saved : ℕ → Rgb) (d : Display)
    → d.active ≡ true
    → let w = set_colors 256 0 f saved d in
      Kept d w × ((j : ℕ) → j < 256 → w.palette j ≡ f (saved j))
whole_palette f saved d on =
    let w = set_colors_lem 256 0 f saved d on (omega arith) in
    (
      w.0,
      λ j lt.
          (let inside : (leb 0 j && ltb j (0 + 256)) ≡ true = ground (arith, lt) in
            w.1 j ∙ ap (λ b. if b then f (saved j) else d.palette j) inside),
    )

-- The palette after the last of `r + 1` steps.
fade_steps_lem :
    (r step steps : ℕ) (fade_in : Bool) (saved : ℕ → Rgb) (d : Display)
    → d.active ≡ true
    → let w = fade_steps (suc r) step steps fade_in saved d in
      Kept d w × ((j : ℕ) → j < 256 → w.palette j ≡ faded fade_in (step + r) steps (saved j))
unfolding fade_steps
fade_steps_lem zero step steps fade_in saved d on =
    let w = whole_palette (faded fade_in step steps) saved d on in
    let last : step ≡ step + 0 = omega arith in
    (w.0, λ j lt. w.1 j lt ∙ ap (λ n. faded fade_in n steps (saved j)) last)
fade_steps_lem (suc r) step steps fade_in saved d on =
    let first = whole_palette (faded fade_in step steps) saved d on in
    let next = set_colors 256 0 (faded fade_in step steps) saved d in
    let w = fade_steps_lem r (step + 1) steps fade_in saved next first.0.0 in
    let last : step + 1 + r ≡ step + suc r = omega arith in
    ((w.0.0, w.0.1 ∙ first.0.1), λ j lt. w.1 j lt ∙ ap (λ n. faded fade_in n steps (saved j)) last)

-- The last step of a fade out.
last_step :
    (r : ℕ) (c : Rgb)
    → faded false (0 + r) (suc r) c ≡ rgb (c.r / suc r) (c.g / suc r) (c.b / suc r)
last_step r c =
    let one : suc r - (0 + r) ≡ 1 = omega arith in
    let times : (n : ℕ) → n * (suc r - (0 + r)) ≡ n = λ n. ap (λ k. n * k) one ∙ omega arith in
    rw (times c.r, times c.g, times c.b) refl

-- In graphics mode and with at least one step, `BootVidFadeScreen` leaves the picture; a fade in ends
-- with the palette that it found, and a fade out with every component divided by the number of steps,
-- which need not be black.
pub fade_screen_lem :
    (r : ℕ) (d : Display)
    → d.active ≡ true
    → let shown = fade_screen true (suc r) d in
      let dark = fade_screen false (suc r) d in
      (shown.memory ≡ d.memory)
      × (dark.memory ≡ d.memory)
      × ((j : ℕ) → j < 256 → shown.palette j ≡ d.palette j)
      × ((j : ℕ)
          → j < 256
          → dark.palette j
            ≡ rgb ((d.palette j).r / suc r) ((d.palette j).g / suc r) ((d.palette j).b / suc r))
unfolding fade_screen
fade_screen_lem r d on =
    let up = fade_steps_lem r 0 (suc r) true d.palette d on in
    let down = fade_steps_lem r 0 (suc r) false d.palette d on in
    let raised = fade_steps (suc r) 0 (suc r) true d.palette d in
    let back = whole_palette (λ c. c) d.palette raised up.0.0 in
    let shown = if_true d.active (set_colors 256 0 (λ c. c) d.palette raised) d on in
    let dark = if_true d.active (fade_steps (suc r) 0 (suc r) false d.palette d) d on in
    (
      ap (λ z. z.memory) shown ∙ back.0.1 ∙ up.0.1,
      ap (λ z. z.memory) dark ∙ down.0.1,
      λ j lt. ap (λ z. z.palette j) shown ∙ back.1 j lt,
      λ j lt. ap (λ z. z.palette j) dark ∙ down.1 j lt ∙ last_step r (d.palette j),
    )
