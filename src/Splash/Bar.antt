-- ===== src/Splash/Bar.antt =====
-- The progress bar of boot_splash.c and the whole splash screen, up to the return to text mode.
pub mod Shown
use system_operative_edit.Base.{
  ◌||◌, ◌^◌, leb, ℕ, ◌+◌, ◌-◌, ◌*◌, ◌/◌, Option, none, some, List, [], ◌∷◌, ◌++◌, ltb, ◌==◌,
  if◌then◌else◌,
}
use system_operative_edit.Base.Int.{ℤ, pos, ◌-ℤ◌}
use system_operative_edit.Loader.Video.{dec_digits}
use system_operative_edit.Splash.{
  ◌>>=◌, vga13_w, vga13_h, fb_clear, fill_rect, rect_outline, draw_str, draw_str_c,
}
use system_operative_edit.Splash.Logo.{draw_logo}

abbrev pub bar_x : ℕ
bar_x = 60

abbrev pub bar_y : ℕ
bar_y = 163

abbrev pub bar_w : ℕ
bar_w = 200

abbrev pub bar_h : ℕ
bar_h = 9

-- What is left of the string behind buf[9]: buf[10], which the code never sets and which holds `junk`, unless
-- it is the end of the string.
abbrev pub unset_tail : (junk : ℕ) → List ℕ
unset_tail junk = if junk == 0 then [] else junk ∷ []

-- The string that starts at `buf + i`: the digits, which end at buf[9], then buf[10], then the 0 in
-- buf[11]. At most ten digits and the round that ends the loop.
unfoldable pub uint_text : (junk n : ℕ) → Option (List ℕ)
uint_text junk n =
    let digits = dec_digits 11 n [] in
    if n == 0
    then some (48 ∷ unset_tail junk)
    else elim digits [ none ↦ none | some ds ↦ some (ds ++ unset_tail junk) ]

unfoldable pub draw_uint : (junk : ℕ) → (x y : ℤ) → (n c : ℕ) → (ℕ → ℕ) → Option (ℕ → ℕ)
draw_uint junk x y n c m = do text ← uint_text junk n; some (draw_str x y text c 1 m)

-- The bar with `filled` columns filled.
unfoldable pub paint_bar : (filled : ℕ) → (ℕ → ℕ) → ℕ → ℕ
paint_bar filled m =
    let back : ℕ → ℕ = fill_rect (pos bar_x) (pos bar_y) (pos bar_w) (pos bar_h) 1 (
      fill_rect (pos bar_x -ℤ pos 2) (pos bar_y -ℤ pos 2) (pos (bar_w + 4)) (pos (bar_h + 4)) 8
        m) in
    let done : ℕ → ℕ =
      if ltb 0 filled
      then fill_rect (pos bar_x) (pos bar_y) (pos filled) (pos bar_h) 10 back
      else back in
    let edge : ℕ → ℕ =
      if ltb filled bar_w
      then fill_rect (pos (bar_x + filled)) (pos bar_y) (pos 2) (pos bar_h) 3 done
      else done in
    rect_outline (pos bar_x -ℤ pos 1) (pos bar_y -ℤ pos 1) (pos (bar_w + 2)) (pos (bar_h + 2)) 15
      edge

-- The bar for a step and a total that are not negative. `none` means that the division by `total` traps, or that
-- the product or the last column overflows an int.
unfoldable pub draw_bar : (step total : ℕ) → (ℕ → ℕ) → Option (ℕ → ℕ)
draw_bar step total m =
    let filled : ℕ = bar_w * step / total in
    if total == 0 || (leb (2 ^ 31) (bar_w * step) || ltb (2 ^ 31) (bar_x + filled))
    then none
    else some (paint_bar filled m)

unfoldable pub percent_indent : (pct : ℕ) → ℕ
percent_indent pct = if ltb pct 10 then 8 else if ltb pct 100 then 16 else 24

-- The percent sign and the label, behind the number.
unfoldable pub draw_label : (pct : ℕ) → (label : List ℕ) → (ℕ → ℕ) → ℕ → ℕ
draw_label pct label m =
    let sign : ℕ → ℕ =
      draw_str (pos (bar_x + bar_w + 5 + percent_indent pct)) (pos bar_y) (37 ∷ []) 15 1 m in
    draw_str_c (pos (bar_y + bar_h + 5)) label 7 1
      (fill_rect (pos 35) (pos (bar_y + bar_h + 5)) (pos 250) (pos 10) 1 sign)

unfoldable pub draw_progress : (junk step total : ℕ) → (label : List ℕ) → (ℕ → ℕ) → Option (ℕ → ℕ)
draw_progress junk step total label m =
    let pct : ℕ = step * 100 / total in
    do
      bar ← draw_bar step total m
      m2 ←
          draw_uint junk (pos (bar_x + bar_w + 5)) (pos bar_y) pct 15
            (fill_rect (pos (bar_x + bar_w + 5)) (pos bar_y) (pos 28) (pos 9) 1 bar)
      some (draw_label pct label m2)

-- "Inicializando hardware..."
abbrev pub hardware_label : List ℕ
hardware_label =
    73 ∷ 110 ∷ 105 ∷ 99 ∷ 105 ∷ 97 ∷ 108 ∷ 105 ∷ 122 ∷ 97 ∷ 110 ∷ 100 ∷ 111 ∷ 32 ∷ 104 ∷ 97 ∷ 114
    ∷ 100 ∷ 119 ∷ 97 ∷ 114 ∷ 101 ∷ 46 ∷ 46 ∷ 46 ∷ []

-- "Cargando modulos del kernel..."
abbrev pub modules_label : List ℕ
modules_label =
    67 ∷ 97 ∷ 114 ∷ 103 ∷ 97 ∷ 110 ∷ 100 ∷ 111 ∷ 32 ∷ 109 ∷ 111 ∷ 100 ∷ 117 ∷ 108 ∷ 111 ∷ 115 ∷ 32
    ∷ 100 ∷ 101 ∷ 108 ∷ 32 ∷ 107 ∷ 101 ∷ 114 ∷ 110 ∷ 101 ∷ 108 ∷ 46 ∷ 46 ∷ 46 ∷ []

-- "Configurando memoria..."
abbrev pub memory_label : List ℕ
memory_label =
    67 ∷ 111 ∷ 110 ∷ 102 ∷ 105 ∷ 103 ∷ 117 ∷ 114 ∷ 97 ∷ 110 ∷ 100 ∷ 111 ∷ 32 ∷ 109 ∷ 101 ∷ 109 ∷ 111
    ∷ 114 ∷ 105 ∷ 97 ∷ 46 ∷ 46 ∷ 46 ∷ []

-- "Preparando drivers VGA..."
abbrev pub drivers_label : List ℕ
drivers_label =
    80 ∷ 114 ∷ 101 ∷ 112 ∷ 97 ∷ 114 ∷ 97 ∷ 110 ∷ 100 ∷ 111 ∷ 32 ∷ 100 ∷ 114 ∷ 105 ∷ 118 ∷ 101 ∷ 114
    ∷ 115 ∷ 32 ∷ 86 ∷ 71 ∷ 65 ∷ 46 ∷ 46 ∷ 46 ∷ []

-- "Iniciando interfaz grafica..."
abbrev pub interface_label : List ℕ
interface_label =
    73 ∷ 110 ∷ 105 ∷ 99 ∷ 105 ∷ 97 ∷ 110 ∷ 100 ∷ 111 ∷ 32 ∷ 105 ∷ 110 ∷ 116 ∷ 101 ∷ 114 ∷ 102 ∷ 97
    ∷ 122 ∷ 32 ∷ 103 ∷ 114 ∷ 97 ∷ 102 ∷ 105 ∷ 99 ∷ 97 ∷ 46 ∷ 46 ∷ 46 ∷ []

-- "Iniciando..."
abbrev pub start_label : List ℕ
start_label = 73 ∷ 110 ∷ 105 ∷ 99 ∷ 105 ∷ 97 ∷ 110 ∷ 100 ∷ 111 ∷ 46 ∷ 46 ∷ 46 ∷ []

-- "Sistema listo!"
abbrev pub ready_label : List ℕ
ready_label = 83 ∷ 105 ∷ 115 ∷ 116 ∷ 101 ∷ 109 ∷ 97 ∷ 32 ∷ 108 ∷ 105 ∷ 115 ∷ 116 ∷ 111 ∷ 33 ∷ []

-- The labels of the five phases.
abbrev pub phase_labels : List (List ℕ)
phase_labels = hardware_label ∷ modules_label ∷ memory_label ∷ drivers_label ∷ interface_label ∷ []

-- The loop over the phases, from the phase `i` on. In the call with `i + 1` steps done the byte that the code does
-- not set is `junk (i + 1)`.
unfoldable pub draw_phases : (junk : ℕ → ℕ) → (i : ℕ) → List (List ℕ) → (ℕ → ℕ) → Option (ℕ → ℕ)
draw_phases junk i [] m = some m
draw_phases junk i (label ∷ labels) m = do
  m2 ← draw_progress (junk (i + 1)) (i + 1) 5 label m
  draw_phases junk (i + 1) labels m2

-- The empty bar, the phases and the flash at the end.
unfoldable pub run_progress : (junk : ℕ → ℕ) → (ℕ → ℕ) → Option (ℕ → ℕ)
run_progress junk m = do
  m2 ← draw_progress (junk 0) 0 5 start_label m
  m3 ← draw_phases junk 0 phase_labels m2
  draw_progress (junk 6) 5 5 ready_label
      (fill_rect (pos bar_x) (pos bar_y) (pos bar_w) (pos bar_h) 11 m3)

-- `KernelShowBootSplash` without the registers and the delays.
unfoldable pub show_splash : (junk : ℕ → ℕ) → (ℕ → ℕ) → Option (ℕ → ℕ)
show_splash junk m = do
  m2 ← draw_logo (fb_clear 0 m)
  run_progress junk (fill_rect (pos 0) (pos 158) (pos vga13_w) (pos (vga13_h - 158)) 1 m2)
