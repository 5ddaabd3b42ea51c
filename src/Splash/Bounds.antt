-- ===== src/Splash/Bounds.antt =====
-- What the splash screen of boot_splash.c writes: only the framebuffer, and only colours of its palette.
use system_operative_edit.Base.{
  ℕ, zero, suc, ◌+◌, ◌*◌, ◌≤◌, ◌<◌, ◌≡◌, refl, ◌∙◌, inl, inr, Bool, true, false, Bool-cases, ltb,
  ◌==◌, some, arith, update, ◌&&◌,
}
use system_operative_edit.Base.Int.{ℤ, pos, negsuc}
use system_operative_edit.Splash.{px, clear_from, fb_clear, vga13_w, vga13_h}
use system_operative_edit.Splash.Palette.{setup_palette, dac_set}
use system_operative_edit.Splash.Bar.{show_splash}
use system_operative_edit.Splash.Frame.{Kept}
use system_operative_edit.Splash.Frame.Show.{Inks, show_splash_keeps}

-- The offsets behind the framebuffer hold what they hold in `m`.
abbrev Outside : (m m2 : ℕ → ℕ) → Type 0
Outside m m2 = (o : ℕ) → 64000 ≤ o → m2 o ≡ m o

px-Outside : (m : ℕ → ℕ) (x y : ℤ) (c : ℕ) (m2 : ℕ → ℕ) → Outside m m2 → Outside m (px x y c m2)
unfolding px
px-Outside m (pos x) (pos y) c m2 same o above =
    elim (Bool-cases (ltb x vga13_w && ltb y vga13_h)) [
      | inl on_screen ↦
          let other : (o == y * vga13_w + x) ≡ false = ground (arith, on_screen, above) in
          rw (on_screen, other) (same o above)
      | inr off ↦ rw off (same o above)
    ]
px-Outside m (pos x) (negsuc y) c m2 same o above = same o above
px-Outside m (negsuc x) y c m2 same o above = same o above

clear_outside : (r i c : ℕ) (m : ℕ → ℕ) (o : ℕ) → i + r ≤ o → clear_from r i c m o ≡ m o
unfolding clear_from
clear_outside zero i c m o above = refl
clear_outside (suc r) i c m o above =
    let other : (o == i) ≡ false = ground (arith, above) in
    clear_outside r (i + 1) c (update m i c) o (omega (arith, above)) ∙ rw other refl

clear_before : (r i c : ℕ) (m : ℕ → ℕ) (o : ℕ) → o < i → clear_from r i c m o ≡ m o
unfolding clear_from
clear_before zero i c m o below = refl
clear_before (suc r) i c m o below =
    let other : (o == i) ≡ false = ground (arith, below) in
    clear_before r (i + 1) c (update m i c) o (omega (arith, below)) ∙ rw other refl

clear_inside : (r i c : ℕ) (m : ℕ → ℕ) (o : ℕ) → i ≤ o → o < i + r → clear_from r i c m o ≡ c
unfolding clear_from
clear_inside zero i c m o low high = absurd (omega (arith, low, high))
clear_inside (suc r) i c m o low high = elim (Bool-cases (o == i)) [
  | inl here ↦
      let at : o ≡ i = ground (arith, here) in
      clear_before r (i + 1) c (update m i c) o (omega (arith, at)) ∙ rw here refl
  | inr other ↦
      clear_inside r (i + 1) c (update m i c) o (ground (arith, other, low)) (omega (arith, high))
]

abbrev outside_kept : (ℕ → ℕ) → Kept
outside_kept m = record {
  Holds = Outside m;
  Allowed = λ c. Bool;
  px_keeps = λ x y c m2 ok same. px-Outside m x y c m2 same;
}

-- The colour has components that the splash screen chose, whatever palette there was before.
abbrev InPalette : ℕ → Type 0
InPalette c = (p q : ℕ → ℕ × ℕ × ℕ) → setup_palette p c ≡ setup_palette q c

-- Every pixel of the framebuffer has such a colour.
abbrev Coloured : (ℕ → ℕ) → Type 0
Coloured m = (o : ℕ) → o < 64000 → InPalette (m o)

px-Coloured : (x y : ℤ) (c : ℕ) (m : ℕ → ℕ) → InPalette c → Coloured m → Coloured (px x y c m)
unfolding px
px-Coloured (pos x) (pos y) c m ok old o inside =
    elim (Bool-cases (ltb x vga13_w && ltb y vga13_h)) [
      | inl on_screen ↦ elim (Bool-cases (o == y * vga13_w + x)) [
        | inl here ↦ rw (on_screen, here) ok
        | inr other ↦ rw (on_screen, other) (old o inside)
      ]
      | inr off ↦ rw off (old o inside)
    ]
px-Coloured (pos x) (negsuc y) c m ok old o inside = old o inside
px-Coloured (negsuc x) y c m ok old o inside = old o inside

abbrev coloured_kept : Kept
coloured_kept = record { Holds = Coloured; Allowed = InPalette; px_keeps = px-Coloured }

any_ink : (m : ℕ → ℕ) → Inks (outside_kept m)
any_ink m = record {
  blue = true;
  light_blue = true;
  yellow = true;
  light_yellow = true;
  grey = true;
  dark_grey = true;
  green = true;
  light_green = true;
  white = true;
  sky = true;
}

setup_palette-Inks : Inks coloured_kept
unfolding setup_palette dac_set
setup_palette-Inks = record {
  blue = λ p q. refl;
  light_blue = λ p q. refl;
  yellow = λ p q. refl;
  light_yellow = λ p q. refl;
  grey = λ p q. refl;
  dark_grey = λ p q. refl;
  green = λ p q. refl;
  light_green = λ p q. refl;
  white = λ p q. refl;
  sky = λ p q. refl;
}

fb_clear-Outside : (m : ℕ → ℕ) → Outside m (fb_clear 0 m)
unfolding fb_clear
fb_clear-Outside m o above = clear_outside 64000 0 0 m o above

fb_clear-Coloured : (m : ℕ → ℕ) → Coloured (fb_clear 0 m)
unfolding fb_clear setup_palette dac_set
fb_clear-Coloured m o inside p q =
    rw (clear_inside 64000 0 0 m o (omega arith) (omega (arith, inside))) refl

-- The splash screen is drawn to the end, whatever the byte that the code does not set holds, and writes no byte
-- behind the framebuffer.
pub show_splash_outside :
    (junk : ℕ → ℕ) (m : ℕ → ℕ)
    → (m2 : ℕ → ℕ) × (show_splash junk m ≡ some m2) × ((o : ℕ) → 64000 ≤ o → m2 o ≡ m o)
show_splash_outside junk m =
    show_splash_keeps (outside_kept m) junk m (any_ink m) (fb_clear-Outside m)

-- Once the splash screen is drawn, every pixel of the screen has a colour that `setup_palette` has set: its
-- components do not depend on the palette there was before.
pub show_splash_coloured :
    (junk : ℕ → ℕ) (m : ℕ → ℕ)
    → (m2 : ℕ → ℕ) × (show_splash junk m ≡ some m2)
      × ((o : ℕ)
          → o < 64000
          → (p q : ℕ → ℕ × ℕ × ℕ) → setup_palette p (m2 o) ≡ setup_palette q (m2 o))
show_splash_coloured junk m =
    show_splash_keeps coloured_kept junk m setup_palette-Inks (fb_clear-Coloured m)
