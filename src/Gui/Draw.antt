-- ===== src/Gui/Draw.antt =====
-- The drawing functions of vga_gui.c. Colours have their numbers: 0 is black, 1 blue, 3 cyan, 7 light
-- gray, 8 dark gray and 15 white. A pointer to a string that may be NULL is an `Option`.
use system_operative_edit.Base.{
  ℕ, suc, ◌*◌, ◌/◌, Bool, false, not, ◌&&◌, Option, none, some, List, [], ◌∷◌, if◌then◌else◌,
  length,
}
use system_operative_edit.Base.Int.{ℤ, pos, negsuc, sub_ℕ, ◌+ℤ◌, ◌-ℤ◌, ltb_ℤ}
use system_operative_edit.Vga.{Vga, fill_rect}
use system_operative_edit.Vga.Text.{draw_string, font_width, font_height}

abbrev pub color_desktop : ℕ
color_desktop = 3

abbrev pub color_window_bg : ℕ
color_window_bg = 7

abbrev pub color_shadow : ℕ
color_shadow = 8

abbrev pub titlebar_height : ℕ
titlebar_height = 10

abbrev pub border_size : ℕ
border_size = 2

-- `GUI_WINDOW`
pub record Window : Type 0 where
  pub x : ℤ
  pub y : ℤ
  pub w : ℤ
  pub h : ℤ
  pub title : Option (List ℕ)
  pub visible : Bool

-- "Universidad de Guayaquil" and "System Operative Edit"
abbrev university : List ℕ
university =
    b'U' ∷ b'n' ∷ b'i' ∷ b'v' ∷ b'e' ∷ b'r' ∷ b's' ∷ b'i' ∷ b'd' ∷ b'a' ∷ b'd' ∷ b' ' ∷ b'd' ∷ b'e'
    ∷ b' ' ∷ b'G' ∷ b'u' ∷ b'a' ∷ b'y' ∷ b'a' ∷ b'q' ∷ b'u' ∷ b'i' ∷ b'l' ∷ []

abbrev system_name : List ℕ
system_name =
    b'S' ∷ b'y' ∷ b's' ∷ b't' ∷ b'e' ∷ b'm' ∷ b' ' ∷ b'O' ∷ b'p' ∷ b'e' ∷ b'r' ∷ b'a' ∷ b't' ∷ b'i'
    ∷ b'v' ∷ b'e' ∷ b' ' ∷ b'E' ∷ b'd' ∷ b'i' ∷ b't' ∷ []

unfoldable pub draw_desktop : Vga → Vga
draw_desktop s =
    let s1 = fill_rect (pos 0) (pos 0) (pos 640) (pos 470) color_desktop s in
    let s2 = draw_string (pos 240) (pos 210) university 15 color_desktop s1 in
    draw_string (pos 260) (pos 222) system_name 7 color_desktop s2

unfoldable pub draw_h_line : (x y len : ℤ) → (color : ℕ) → Vga → Vga
draw_h_line x y len color s = fill_rect x y len (pos 1) color s

unfoldable pub draw_v_line : (x y len : ℤ) → (color : ℕ) → Vga → Vga
draw_v_line x y len color s = fill_rect x y (pos 1) len color s

-- The frame of a button or a window, with the colour above and on the left, and the one below and on
-- the right.
unfoldable pub draw_frame : (x y w h : ℤ) → (light dark : ℕ) → Vga → Vga
draw_frame x y w h light dark s =
    let s1 = draw_h_line x y w light s in
    let s2 = draw_v_line x y h light s1 in
    let s3 = draw_h_line x (y +ℤ h -ℤ pos 1) w dark s2 in draw_v_line (x +ℤ w -ℤ pos 1) y h dark s3

-- Division by 2, towards 0.
abbrev pub half : ℤ → ℤ
half (pos n) = pos (n / 2)
half (negsuc n) = sub_ℕ 0 (suc n / 2)

unfoldable pub draw_label : (x y w h : ℤ) → Option (List ℕ) → Vga → Vga
draw_label x y w h none s = s
draw_label x y w h (some label) s =
    draw_string (x +ℤ half (w -ℤ pos (length label * font_width)))
      (y +ℤ half (h -ℤ pos font_height)) label 0 7 s

unfoldable pub draw_button :
    (x y w h : ℤ) → (label : Option (List ℕ)) → (pressed : Bool) → Vga → Vga
draw_button x y w h label pressed s =
    let s1 = fill_rect x y w h 7 s in
    let s2 =
      if pressed
      then draw_frame x y w h color_shadow 15 s1
      else draw_frame x y w h 15 color_shadow s1 in
    draw_label x y w h label s2

unfoldable pub draw_title : (x y : ℤ) → Option (List ℕ) → Vga → Vga
draw_title x y none s = s
draw_title x y (some title) s = draw_string (x +ℤ pos 4) (y +ℤ pos 1) title 15 1 s

-- `GuiDrawWindow` of a window that is visible.
unfoldable pub draw_visible : (x y w h : ℤ) → (title : Option (List ℕ)) → Vga → Vga
draw_visible x y w h title s =
    let s1 = fill_rect (x +ℤ pos 3) (y +ℤ pos 3) w h color_shadow s in
    let s2 = fill_rect x y w h color_window_bg s1 in
    let s3 = fill_rect x y w (pos titlebar_height) 1 s2 in
    let s4 = draw_title x y title s3 in
    let s5 =
      draw_button (x +ℤ w -ℤ pos 16 -ℤ pos 2) (y +ℤ pos 1) (pos 16) (pos 8) (some (b'X' ∷ [])) false
        s4 in
    let s6 = draw_frame x y w h 15 color_shadow s5 in
    draw_h_line x (y +ℤ pos titlebar_height) w 8 s6

-- `none` is a NULL pointer.
unfoldable pub draw_window : Option Window → Vga → Vga
draw_window none s = s
draw_window (some win) s =
    if win.visible then draw_visible win.x win.y win.w win.h win.title s else s

unfoldable pub draw_window_text :
    Option Window → (rx ry : ℤ) → Option (List ℕ) → (fg : ℕ) → Vga → Vga
draw_window_text none rx ry txt fg s = s
draw_window_text (some win) rx ry none fg s = s
draw_window_text (some win) rx ry (some txt) fg s =
    draw_string (win.x +ℤ pos border_size +ℤ rx)
      (win.y +ℤ pos titlebar_height +ℤ pos border_size +ℤ ry) txt fg color_window_bg s

unfoldable pub draw_taskbar : Vga → Vga
draw_taskbar s =
    let s1 = fill_rect (pos 0) (pos 470) (pos 640) (pos 10) 7 s in
    let s2 = draw_h_line (pos 0) (pos 470) (pos 640) 15 s1 in
    let s3 =
      draw_button (pos 2) (pos 471) (pos 36) (pos 8) (some (b'S' ∷ b't' ∷ b'a' ∷ b'r' ∷ b't' ∷ []))
        false s2 in
    draw_string (pos 600) (pos 471) (b'0' ∷ b'0' ∷ b':' ∷ b'0' ∷ b'0' ∷ []) 0 7 s3

unfoldable pub hit_test : (mx my x y w h : ℤ) → Bool
hit_test mx my x y w h =
    (not (ltb_ℤ mx x) && ltb_ℤ mx (x +ℤ w)) && (not (ltb_ℤ my y) && ltb_ℤ my (y +ℤ h))
