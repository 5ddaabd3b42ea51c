-- ===== src/Gui/Console.antt =====
-- The text console of vga_gui.c: the ring of the last twelve lines, the line that is typed, and the
-- commands. A string is the list of its bytes before the terminator; `cons_input_pos` is the length of
-- `cons_input`.
pub mod History
pub mod Process
use system_operative_edit.Base.{
  ℕ, zero, suc, ◌+◌, ◌-◌, ◌*◌, ◌/◌, ◌%◌, ◌^◌, ◌≤◌, ◌<◌, min, max, bit_and, bit_or, bit_xor, ◌≡◌,
  refl, sym, ap, ◌∙◌, fun_ext, ◌≢◌, ◌↔◌, ◌⊎◌, inl, inr, Bool, true, false, not, ◌&&◌, ◌||◌, Option,
  none, some, List, [], ◌∷◌, ◌++◌, map, arith, ltb, leb, ◌==◌, if◌then◌else◌, Bool-cases,
  Option-cases, ltb→lt, lt→ltb, leb→le, ==_iff, add32, sub32, update, length, get_elem?, get_or,
  last_from, length-append, last_from-append, has, Distinct, has-append, Distinct-append,
}
use system_operative_edit.Base.Int.{negsuc, ℤ, pos, sub_ℕ, ◌+ℤ◌}
use system_operative_edit.Vga.{Vga, fill_rect}
use system_operative_edit.Vga.Text.{draw_string, font_width, font_height}
use system_operative_edit.Gui.Draw.{
  Window, draw_window, draw_desktop, draw_taskbar, titlebar_height, border_size, color_window_bg,
}
use system_operative_edit.Gui.Keyboard.{Keyboard, kbd_getchar}

abbrev pub cons_cols : ℕ
cons_cols = 70

abbrev pub cons_rows : ℕ
cons_rows = 12

pub record Console : Type 0 where
  pub history : ℕ → List ℕ
  pub history_start : ℕ
  pub history_count : ℕ
  pub input : List ℕ
  pub active : Bool
  pub win : Window

-- The bytes are unsigned, the shorter string ends in 0.
unfoldable pub kg_strcmp : List ℕ → List ℕ → ℤ
kg_strcmp [] [] = pos 0
kg_strcmp [] (b ∷ rest_b) = sub_ℕ 0 b
kg_strcmp (a ∷ rest_a) [] = sub_ℕ a 0
kg_strcmp (a ∷ rest_a) (b ∷ rest_b) =
    let rest = kg_strcmp rest_a rest_b in if a == b then rest else sub_ℕ a b

-- The first `n` characters.
unfoldable pub kg_strncpy : (n : ℕ) → List ℕ → List ℕ
kg_strncpy zero src = []
kg_strncpy (suc n) [] = []
kg_strncpy (suc n) (c ∷ cs) = c ∷ kg_strncpy n cs

-- What is appended fits into a buffer of `max` bytes.
unfoldable pub kg_strncat : (max : ℕ) → (dst src : List ℕ) → List ℕ
kg_strncat max dst src = dst ++ kg_strncpy (max - (length dst + 1)) src

-- The loop that draws the history, `r` lines from line `i` on.
unfoldable pub draw_lines : (r i : ℕ) → Console → Vga → Vga
draw_lines zero i c s = s
draw_lines (suc r) i c s = draw_lines r (i + 1) c (
    draw_string (c.win.x +ℤ pos border_size)
      (c.win.y +ℤ pos titlebar_height +ℤ pos border_size +ℤ pos (i * font_height))
      (c.history ((c.history_start + i) % cons_rows)) 0 color_window_bg s)

unfoldable pub console_redraw : Console → Vga → Vga
console_redraw c s =
    let x = c.win.x +ℤ pos border_size in
    let y =
      c.win.y +ℤ pos titlebar_height +ℤ pos border_size +ℤ pos (c.history_count * font_height) in
    let s1 = draw_lines c.history_count 0 c (draw_window (some c.win) s) in
    let s2 = fill_rect x y (pos (cons_cols * font_width)) (pos font_height) color_window_bg s1 in
    let s3 = if ltb 0 (length c.input) then draw_string x y c.input 0 color_window_bg s2 else s2 in
    if c.active then s3 else s

-- A change of the console, followed by `ConsoleRedraw`.
abbrev pub redrawn : Console → Vga → Console × Vga
redrawn c s = (c, console_redraw c s)

-- The loop that clears the `r` lines from `i` on.
unfoldable pub clear_lines : (r i : ℕ) → (ℕ → List ℕ) → ℕ → List ℕ
clear_lines zero i history = history
clear_lines (suc r) i history = clear_lines r (i + 1) (update history i [])

unfoldable pub console_clear : Console × Vga → Console × Vga
console_clear (c, s) =
    redrawn
      (record c {
        history = clear_lines cons_rows 0 c.history;
        history_start = 0;
        history_count = 0;
        input = [];
      })
      s

-- `ConsoleAddLine` without `ConsoleRedraw`.
unfoldable pub store_line : List ℕ → Console → Console
store_line line c =
    if ltb c.history_count cons_rows
    then record c {
      history =
          update c.history ((c.history_start + c.history_count) % cons_rows)
            (kg_strncpy cons_cols line);
      history_count = c.history_count + 1;
    }
    else record c {
      history = update c.history c.history_start (kg_strncpy cons_cols line);
      history_start = (c.history_start + 1) % cons_rows;
    }

unfoldable pub add_line : List ℕ → Console × Vga → Console × Vga
add_line line (c, s) = redrawn (store_line line c) s

-- The loop of `ConsolePrint`; `buf` is the line so far.
unfoldable pub print_loop : (str buf : List ℕ) → Console × Vga → Console × Vga
print_loop [] buf t = if ltb 0 (length buf) then add_line buf t else t
print_loop (ch ∷ str) buf t =
    if ch == b'\n'
    then print_loop str [] (add_line buf t)
    else print_loop str (if ltb (length buf) (cons_cols - 1) then buf ++ (ch ∷ []) else buf) t

unfoldable pub console_print : List ℕ → Console × Vga → Console × Vga
console_print str t = print_loop str [] t

abbrev pub help_word : List ℕ
help_word = b'h' ∷ b'e' ∷ b'l' ∷ b'p' ∷ []

abbrev pub clear_word : List ℕ
clear_word = b'c' ∷ b'l' ∷ b'e' ∷ b'a' ∷ b'r' ∷ []

-- "help - lista de comandos\n", "clear - limpiar pantalla\n" and "comando desconocido: "
abbrev pub help_line : List ℕ
help_line =
    help_word
    ++ (b' ' ∷ b'-' ∷ b' ' ∷ b'l' ∷ b'i' ∷ b's' ∷ b't' ∷ b'a' ∷ b' ' ∷ b'd' ∷ b'e' ∷ b' ' ∷ b'c'
        ∷ b'o' ∷ b'm' ∷ b'a' ∷ b'n' ∷ b'd' ∷ b'o' ∷ b's' ∷ 10 ∷ [])

abbrev pub clear_line : List ℕ
clear_line =
    clear_word
    ++ (b' ' ∷ b'-' ∷ b' ' ∷ b'l' ∷ b'i' ∷ b'm' ∷ b'p' ∷ b'i' ∷ b'a' ∷ b'r' ∷ b' ' ∷ b'p' ∷ b'a'
        ∷ b'n' ∷ b't' ∷ b'a' ∷ b'l' ∷ b'l' ∷ b'a' ∷ 10 ∷ [])

abbrev pub unknown_command : List ℕ
unknown_command =
    b'c' ∷ b'o' ∷ b'm' ∷ b'a' ∷ b'n' ∷ b'd' ∷ b'o' ∷ b' ' ∷ b'd' ∷ b'e' ∷ b's' ∷ b'c' ∷ b'o' ∷ b'n'
    ∷ b'o' ∷ b'c' ∷ b'i' ∷ b'd' ∷ b'o' ∷ b':' ∷ b' ' ∷ []

-- The test `kg_strcmp(a, b) == 0`.
abbrev pub same_string : List ℕ → List ℕ → Bool
same_string a b = elim (kg_strcmp a b) [ pos n ↦ n == 0 | negsuc n ↦ false ]

unfoldable pub console_execute : List ℕ → Console × Vga → Console × Vga
console_execute cmd t =
    if same_string cmd help_word
    then console_print clear_line (console_print help_line t)
    else if same_string cmd clear_word
    then console_clear t
    else add_line (kg_strncat (cons_cols + 1) (kg_strncpy cons_cols unknown_command) cmd) t

-- "Consola activa. Escribe 'help' para ayuda.\n"
abbrev pub greeting : List ℕ
greeting =
    b'C' ∷ b'o' ∷ b'n' ∷ b's' ∷ b'o' ∷ b'l' ∷ b'a' ∷ b' ' ∷ b'a' ∷ b'c' ∷ b't' ∷ b'i' ∷ b'v' ∷ b'a'
    ∷ b'.' ∷ b' ' ∷ b'E' ∷ b's' ∷ b'c' ∷ b'r' ∷ b'i' ∷ b'b' ∷ b'e' ∷ b' ' ∷ 39 ∷ b'h' ∷ b'e' ∷ b'l'
    ∷ b'p' ∷ 39 ∷ b' ' ∷ b'p' ∷ b'a' ∷ b'r' ∷ b'a' ∷ b' ' ∷ b'a' ∷ b'y' ∷ b'u' ∷ b'd' ∷ b'a' ∷ b'.'
    ∷ 10 ∷ []

-- F1 opens or closes the console.
unfoldable pub toggle_console : Console × Vga → Console × Vga
toggle_console (c, s) =
    let c1 = record c { active = not c.active; win = record c.win { visible = not c.active } } in
    if c1.active
    then (let (c2, s2) = console_clear (c1, s) in
        console_print greeting (c2, draw_window (some c2.win) s2))
    else (c1, draw_taskbar (draw_desktop s))

-- The line without its last character.
abbrev pub without_last : List ℕ → List ℕ
without_last line = kg_strncpy (length line - 1) line

-- A character other than F1 in an open console.
unfoldable pub edit_line : ℕ → Console × Vga → Console × Vga
edit_line ch (c, s) =
    if ch == b'\n'
    then (let (c1, s1) = console_execute c.input (add_line c.input (c, s)) in
        (record c1 { input = [] }, s1))
    else if ch == 8
    then (if ltb 0 (length c.input)
        then redrawn (record c { input = without_last c.input }) s
        else (c, s))
    else if ltb (length c.input) (cons_cols - 1)
    then redrawn (record c { input = c.input ++ (ch ∷ []) }) s
    else (c, s)

unfoldable pub process_char : ℕ → Console × Vga → Console × Vga
process_char ch (c, s) =
    if ch == 0xF1 then toggle_console (c, s) else if c.active then edit_line ch (c, s) else (c, s)

-- `ConsoleProcess` takes the characters that wait; each round takes one, so 128 rounds are enough.
unfoldable pub console_process : (fuel : ℕ) → Keyboard → Console × Vga → Keyboard × (Console × Vga)
console_process zero k t = (k, t)
console_process (suc f) k t =
    let (o, k1) = kbd_getchar k in
    elim o [ none ↦ (k1, t) | some ch ↦ console_process f k1 (process_char ch t) ]
