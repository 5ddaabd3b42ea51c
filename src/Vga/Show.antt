-- ===== src/Vga/Show.antt =====
-- `VgaPutPixel` and `VgaClearScreen` keep the planes in step with the picture.
use mathlib.Core.Path.{subst}
use system_operative_edit.Base.{
  if_true, ℕ, zero, suc, ◌+◌, ◌*◌, ◌/◌, ◌<◌, ◌≡◌, refl, sym, ap, ◌∙◌, inl, inr, Bool, true, false,
  ◌&&◌, ◌||◌, arith, ltb, leb, ◌==◌, if◌then◌else◌, Bool-cases, update,
}
use system_operative_edit.Base.Int.{ℤ, pos, negsuc}
use system_operative_edit.Vga.{
  Vga, shadow_w, shadow_h, has_bit, get_pixel, put_pixel, paint, write_mask, run_planes,
  fill_shadow, vga_clear_screen,
}
use system_operative_edit.Vga.Pixel.{IsMode, lit, Synced, put_pixel-Plotted}
use system_operative_edit.Vga.Runs.{run_planes-SamePicture, run_planes-shown}

-- The driver is in its mode, the screen shows the picture, and the picture is the given one.
abbrev pub Shows : (ℕ → ℕ) → Vga → Type 0
Shows sh t = IsMode t × Synced t × (t.shadow ≡ sh)

update_other : (m : ℕ → ℕ) (k v n : ℕ) → (n == k) ≡ false → update m k v n ≡ m n
update_other m k v n off = rw off refl

pub plot-Shows :
    (a b color : ℕ) (sh : ℕ → ℕ) (s : Vga)
    → a < 640
    → b < 480
    → Shows sh s
    → Shows (paint (pos a) (pos b) color sh) (put_pixel (pos a) (pos b) color s)
unfolding paint
plot-Shows a b color sh s la lb (mode, synced, same) =
    let w = put_pixel-Plotted a b color s mode la lb in
    let on : (leb shadow_w a || leb shadow_h b) ≡ false = ground (arith, la, lb) in
    rw on (
      w.mode,
      λ p x y lp lx ly. w.shown p x y lp lx ly ∙ (elim (Bool-cases (y == b && x / 8 == a / 8)) [
        | inl here ↦ rw here (ap (λ m. has_bit (m (y * 640 + x)) p) (sym w.shadow))
        | inr there ↦
            let off : (y * 640 + x == b * 640 + a) ≡ false = ground (arith, there, lx, la) in
            rw there (
              synced p x y lp lx ly
              ∙ ap (λ c. has_bit c p)
                  (sym (
                    ap (λ m. m (y * 640 + x)) w.shadow
                    ∙ update_other s.shadow (b * 640 + a) color (y * 640 + x) off)))
      ]),
      w.shadow ∙ ap (λ m. update m (b * 640 + a) color) same,
    )

-- The test that a coordinate is the given column or row.
abbrev pub is_at : ℤ → ℕ → Bool
is_at (pos x) n = n == x
is_at (negsuc x) n = false

-- What `VgaGetPixel` reads on the screen.
pub get_pixel_on :
    (px py : ℕ) (s : Vga)
    → px < 640
    → py < 480
    → get_pixel (pos px) (pos py) s ≡ s.shadow (py * 640 + px)
unfolding get_pixel
get_pixel_on px py s lx ly =
    let on : (leb shadow_w px || leb shadow_h py) ≡ false = ground (arith, lx, ly) in rw on refl

-- A coordinate off the screen is refused.
put_pixel_off :
    (a b color : ℕ) (s : Vga)
    → IsMode s
    → (ltb a 640 && ltb b 480) ≡ false
    → put_pixel (pos a) (pos b) color s ≡ s
unfolding put_pixel
put_pixel_off a b color s mode off =
    let guard : (s.ready && (ltb a s.screen_width && ltb b s.screen_height)) ≡ false =
      ground (arith, mode, off) in
    rw guard refl

paint_at :
    (a b color : ℕ) (sh : ℕ → ℕ) (px py : ℕ)
    → a < 640
    → b < 480
    → px < 640
    → paint (pos a) (pos b) color sh (py * 640 + px)
      ≡ (if px == a && py == b then color else sh (py * 640 + px))
unfolding paint
paint_at a b color sh px py la lb lx =
    let on : (leb shadow_w a || leb shadow_h b) ≡ false = ground (arith, la, lb) in
    rw on (ground (arith, la, lx))

-- Both for coordinates that are not negative.
abbrev Drawn : (a b color : ℕ) (s t : Vga) → Type 0
Drawn a b color s t =
    Synced t
    × ((px py : ℕ)
        → px < 640
        → py < 480
        → get_pixel (pos px) (pos py) t
          ≡ (if px == a && py == b then color else get_pixel (pos px) (pos py) s))

put_pixel_at :
    (a b color : ℕ) (s : Vga)
    → IsMode s
    → Synced s
    → Drawn a b color s (put_pixel (pos a) (pos b) color s)
put_pixel_at a b color s mode synced = elim (Bool-cases (ltb a 640 && ltb b 480)) [
  | inl on ↦
      let la : a < 640 = ground (arith, on) in
      let lb : b < 480 = ground (arith, on) in
      let t = put_pixel (pos a) (pos b) color s in
      let shows = plot-Shows a b color s.shadow s la lb (mode, synced, refl) in
      (
        shows.1,
        λ px py lx ly.
            get_pixel_on px py t lx ly
            ∙ ap (λ m. m (py * 640 + px)) shows.2
            ∙ paint_at a b color s.shadow px py la lb lx
            ∙ ap (λ v. if px == a && py == b then color else v) (sym (get_pixel_on px py s lx ly)),
      )
  | inr off ↦
      subst (Drawn a b color s) (sym (put_pixel_off a b color s mode off))
        (synced, λ px py lx ly. ground (arith, off, lx, ly))
]

-- `VgaPutPixel` at any coordinates, with the planes in step with the picture, gives the pixel there its
-- colour, if it is on the screen, and leaves every other pixel, as `VgaGetPixel` reads them; the planes
-- stay in step.
pub put_pixel_lem :
    (x y : ℤ) (color : ℕ) (s : Vga)
    → IsMode s
    → Synced s
    → let t = put_pixel x y color s in
      Synced t
      × ((px py : ℕ)
          → px < 640
          → py < 480
          → get_pixel (pos px) (pos py) t
            ≡ (if is_at x px && is_at y py then color else get_pixel (pos px) (pos py) s))
unfolding put_pixel
put_pixel_lem (negsuc x) y color s mode synced = (synced, λ px py lx ly. refl)
put_pixel_lem (pos x) (negsuc y) color s mode synced = (synced, λ px py lx ly. ground arith)
put_pixel_lem (pos x) (pos y) color s mode synced = put_pixel_at x y color s mode synced

fill_shadow_lem :
    (r i color : ℕ) (sh : ℕ → ℕ) (n : ℕ)
    → fill_shadow r i color sh n ≡ (if leb i n && ltb n (i + r) then color else sh n)
unfolding fill_shadow
fill_shadow_lem zero i color sh n = ground arith
fill_shadow_lem (suc r) i color sh n =
    fill_shadow_lem r (i + 1) color (update sh i color) n ∙ ground arith

abbrev cleared : (color : ℕ) → Vga → Vga
cleared color s =
    let size = s.screen_height * (s.screen_width / 8) in
    let w = write_mask 0x0F (run_planes 4 0 size 0 color s) in
    record w { shadow = fill_shadow (shadow_w * shadow_h) 0 color w.shadow }

vga_clear_screen-cleared :
    (color : ℕ) (s : Vga) → s.ready ≡ true → vga_clear_screen color s ≡ cleared color s
unfolding vga_clear_screen
vga_clear_screen-cleared color s ready = if_true s.ready (cleared color s) s ready

cleared-shadow :
    (color : ℕ) (s : Vga) (px py : ℕ)
    → px < 640
    → py < 480
    → (cleared color s).shadow (py * 640 + px) ≡ color
cleared-shadow color s px py lx ly =
    let size = s.screen_height * (s.screen_width / 8) in
    let w = write_mask 0x0F (run_planes 4 0 size 0 color s) in
    fill_shadow_lem (shadow_w * shadow_h) 0 color w.shadow (py * 640 + px) ∙ ground (arith, lx, ly)

cleared-shown :
    (color : ℕ) (s : Vga) (p x y : ℕ)
    → IsMode s
    → p < 4
    → x < 640
    → y < 480
    → lit (cleared color s) p x y ≡ has_bit color p
unfolding write_mask
cleared-shown color s p x y mode lp lx ly =
    let size = s.screen_height * (s.screen_width / 8) in
    let size_lem : size ≡ 38400 = rw (mode.1, mode.2) refl in
    run_planes-shown size 0 color s p x y lp (omega (arith, size_lem))
    ∙ ground (arith, size_lem, lx, ly)

-- `VgaClearScreen`, from any state of the screen, gives every pixel the colour, and the planes show it.
pub vga_clear_screen_lem :
    (color : ℕ) (s : Vga)
    → IsMode s
    → let t = vga_clear_screen color s in
      IsMode t
      × Synced t
      × ((px py : ℕ) → px < 640 → py < 480 → get_pixel (pos px) (pos py) t ≡ color)
unfolding write_mask
vga_clear_screen_lem color s mode =
    let size = s.screen_height * (s.screen_width / 8) in
    let same = run_planes-SamePicture 4 0 size 0 color s in
    rw (vga_clear_screen-cleared color s mode.0) (
      (same.0 ∙ mode.0, same.1 ∙ mode.1, same.2 ∙ mode.2),
      λ p x y lp lx ly.
          cleared-shown color s p x y mode lp lx ly
          ∙ ap (λ c. has_bit c p) (sym (cleared-shadow color s x y lx ly)),
      λ px py lx ly.
          get_pixel_on px py (cleared color s) lx ly ∙ cleared-shadow color s px py lx ly,
    )
