-- ===== src/Gui/Console/History.antt =====
-- The ring of lines as the list of the last twelve, and the bounds of the console's buffers.
use system_operative_edit.Base.{
  if_both, ℕ, zero, suc, ◌+◌, ◌-◌, ◌%◌, ◌≤◌, ◌<◌, ◌≡◌, refl, sym, ap, ◌∙◌, inl, inr, true, false,
  not, some, List, [], ◌∷◌, ◌++◌, arith, ltb, ◌==◌, if◌then◌else◌, Bool-cases, update, length,
  length-append,
}
use system_operative_edit.Gui.Draw.{draw_window, draw_taskbar, draw_desktop}
use system_operative_edit.Vga.{Vga}
use system_operative_edit.Gui.Circular.{window, length-window, window-put}
use system_operative_edit.Gui.Console.{
  Console, cons_cols, cons_rows, kg_strncpy, kg_strncat, clear_lines, console_clear, store_line,
  add_line, print_loop, console_print, console_execute, toggle_console, without_last, edit_line,
  process_char, help_line, clear_line, unknown_command, greeting, help_word, clear_word,
  same_string,
}

-- The ring is in its bounds, and every string fits into its buffer with its terminator.
pub record IsValid (c : Console) : Type 0 where
  pub start : c.history_start < cons_rows
  pub count : c.history_count ≤ cons_rows
  pub typed : length c.input < cons_cols
  pub fits : (i : ℕ) → length (c.history i) ≤ cons_cols

-- The lines that the console shows, the oldest first.
abbrev pub lines : Console → List (List ℕ)
lines c = window cons_rows c.history c.history_start c.history_count

abbrev without_first : List (List ℕ) → List (List ℕ)
without_first [] = []
without_first (l ∷ ls) = ls

-- A line is added at the end; of more than twelve the oldest goes.
abbrev pub keep_last : List (List ℕ) → List ℕ → List (List ℕ)
keep_last ls l =
    let all = ls ++ (l ∷ []) in if ltb cons_rows (length all) then without_first all else all

-- Writing over the oldest line of a full ring.
window_turn :
    (buf : ℕ → List ℕ) (l : List ℕ) (s : ℕ)
    → s < cons_rows
    → window cons_rows (update buf s l) ((s + 1) % cons_rows) cons_rows
      ≡ without_first (window cons_rows buf s cons_rows ++ (l ∷ []))
window_turn buf l s lt =
    window-put cons_rows buf l 11 ((s + 1) % cons_rows) s (omega arith) (omega arith)
      (omega (arith, lt))

length_one_more : (c : Console) (l : List ℕ) → length (lines c ++ (l ∷ [])) ≡ c.history_count + 1
length_one_more c l =
    length-append (lines c) (l ∷ [])
    ∙ ap (λ n. n + 1) (length-window cons_rows c.history c.history_start c.history_count)

store_line_lem :
    (line : List ℕ) (c : Console)
    → IsValid c
    → lines (store_line line c) ≡ keep_last (lines c) (kg_strncpy cons_cols line)
unfolding store_line
store_line_lem line c v =
    let l = kg_strncpy cons_cols line in
    elim (Bool-cases (ltb c.history_count cons_rows)) [
      | inl room ↦
          let small : ltb cons_rows (length (lines c ++ (l ∷ []))) ≡ false =
            ground (arith, length_one_more c l, room) in
          let slot = (c.history_start + c.history_count) % cons_rows in
          let next : c.history_count + 1 ≡ suc c.history_count = omega arith in
          rw (room, small)
            (ap (window cons_rows (update c.history slot l) c.history_start) next
              ∙ window-put cons_rows c.history l c.history_count c.history_start slot v.start
                  (ground (arith, room)) refl)
      | inr full ↦
          let twelve : c.history_count ≡ cons_rows = ground (arith, full, v.count) in
          let large : ltb cons_rows (length (lines c ++ (l ∷ []))) ≡ true =
            ground (arith, length_one_more c l, twelve) in
          rw (full, large)
            (ap
                (window cons_rows (update c.history c.history_start l)
                  ((c.history_start + 1) % cons_rows))
                twelve
              ∙ window_turn c.history l c.history_start v.start
              ∙ ap (λ n. without_first (window cons_rows c.history c.history_start n ++ (l ∷ [])))
                  (sym twelve))
    ]

-- `ConsoleAddLine` shows the first seventy characters of the line behind the lines that are shown; of
-- more than twelve the oldest goes.
pub add_line-keep_last :
    (line : List ℕ) (c : Console) (s : Vga)
    → IsValid c
    → lines (add_line line (c, s)).0 ≡ keep_last (lines c) (kg_strncpy cons_cols line)
unfolding add_line
add_line-keep_last line c s v = store_line_lem line c v

length-kg_strncpy : (n : ℕ) (src : List ℕ) → length (kg_strncpy n src) ≤ n
unfolding kg_strncpy
length-kg_strncpy zero src = omega arith
length-kg_strncpy (suc n) [] = omega arith
length-kg_strncpy (suc n) (c ∷ cs) = omega (arith, length-kg_strncpy n cs)

store_line-IsValid : (line : List ℕ) (c : Console) → IsValid c → IsValid (store_line line c)
unfolding store_line
store_line-IsValid line c v =
    let short = length-kg_strncpy cons_cols line in
    elim (Bool-cases (ltb c.history_count cons_rows)) [
      | inl room ↦ rw room record {
        start = v.start;
        count = ground (arith, room);
        typed = v.typed;
        fits = λ i. ground (arith, short, v.fits i);
      }
      | inr full ↦ rw full record {
        start = omega arith;
        count = v.count;
        typed = v.typed;
        fits = λ i. ground (arith, short, v.fits i);
      }
    ]

add_line-IsValid : (line : List ℕ) (t : Console × Vga) → IsValid t.0 → IsValid (add_line line t).0
unfolding add_line
add_line-IsValid line (c, s) v = store_line-IsValid line c v

print_loop-IsValid :
    (str buf : List ℕ) (t : Console × Vga) → IsValid t.0 → IsValid (print_loop str buf t).0
unfolding print_loop
print_loop-IsValid [] buf t v = elim (Bool-cases (ltb 0 (length buf))) [
  | inl more ↦ rw more (add_line-IsValid buf t v)
  | inr empty ↦ rw empty v
]
print_loop-IsValid (ch ∷ str) buf t v = elim (Bool-cases (ch == b'\n')) [
  | inl newline ↦ rw newline (print_loop-IsValid str [] (add_line buf t) (add_line-IsValid buf t v))
  | inr other ↦ rw other (
      print_loop-IsValid str (if ltb (length buf) (cons_cols - 1) then buf ++ (ch ∷ []) else buf) t
        v)
]

clear_lines-fits :
    (r i : ℕ) (h : ℕ → List ℕ)
    → ((j : ℕ) → length (h j) ≤ cons_cols)
    → (j : ℕ) → length (clear_lines r i h j) ≤ cons_cols
unfolding clear_lines
clear_lines-fits zero i h fits j = fits j
clear_lines-fits (suc r) i h fits j =
    clear_lines-fits r (i + 1) (update h i []) (λ k. ground (arith, fits k)) j

console_clear-IsValid : (t : Console × Vga) → IsValid t.0 → IsValid (console_clear t).0
unfolding console_clear
console_clear-IsValid (c, s) v = record {
  start = omega arith;
  count = omega arith;
  typed = omega arith;
  fits = clear_lines-fits cons_rows 0 c.history v.fits;
}

console_execute-IsValid :
    (cmd : List ℕ) (t : Console × Vga) → IsValid t.0 → IsValid (console_execute cmd t).0
unfolding console_execute console_print
console_execute-IsValid cmd t v = elim (Bool-cases (same_string cmd help_word)) [
  | inl help ↦ rw help (
      print_loop-IsValid clear_line [] (print_loop help_line [] t)
        (print_loop-IsValid help_line [] t v))
  | inr other ↦ elim (Bool-cases (same_string cmd clear_word)) [
    | inl clear ↦ rw (other, clear) (console_clear-IsValid t v)
    | inr unknown ↦
        rw (other, unknown)
          (add_line-IsValid (kg_strncat (cons_cols + 1) (kg_strncpy cons_cols unknown_command) cmd)
            t v)
  ]
]

-- With another line typed.
with_input-IsValid :
    (input : List ℕ) (c : Console)
    → IsValid c
    → length input < cons_cols
    → IsValid (record c { input = input })
with_input-IsValid input c v short = record {
  start = v.start;
  count = v.count;
  typed = short;
  fits = v.fits;
}

edit_line-IsValid : (ch : ℕ) (t : Console × Vga) → IsValid t.0 → IsValid (edit_line ch t).0
unfolding edit_line
edit_line-IsValid ch (c, s) v = elim (Bool-cases (ch == b'\n')) [
  | inl newline ↦
      let t = console_execute c.input (add_line c.input (c, s)) in
      rw newline (
        with_input-IsValid [] t.0
          (console_execute-IsValid c.input (add_line c.input (c, s))
            (add_line-IsValid c.input (c, s) v))
          (omega arith))
  | inr other ↦ elim (Bool-cases (ch == 8)) [
    | inl back ↦ elim (Bool-cases (ltb 0 (length c.input))) [
      | inl some_typed ↦
          let shorter = length-kg_strncpy (length c.input - 1) c.input in
          rw (other, back, some_typed)
            (with_input-IsValid (without_last c.input) c v (omega (arith, shorter, v.typed)))
      | inr none_typed ↦ rw (other, back, none_typed) v
    ]
    | inr letter ↦ elim (Bool-cases (ltb (length c.input) (cons_cols - 1))) [
      | inl room ↦
          let longer = length-append c.input (ch ∷ []) in
          rw (other, letter, room)
            (with_input-IsValid (c.input ++ (ch ∷ [])) c v (ground (arith, longer, room)))
      | inr full ↦ rw (other, letter, full) v
    ]
  ]
]

toggle_console-IsValid : (c : Console) (s : Vga) → IsValid c → IsValid (toggle_console (c, s)).0
unfolding toggle_console console_print
toggle_console-IsValid c s v =
    let c1 = record c { active = not c.active; win = record c.win { visible = not c.active } } in
    let same : IsValid c1 = record {
      start = v.start;
      count = v.count;
      typed = v.typed;
      fits = v.fits;
    } in
    let t = console_clear (c1, s) in
    if_both (λ z. IsValid z.0) (not c.active)
      (console_print greeting (t.0, draw_window (some t.0.win) t.1))
      (c1, draw_taskbar (draw_desktop s))
      (print_loop-IsValid greeting [] (t.0, draw_window (some t.0.win) t.1)
        (console_clear-IsValid (c1, s) same))
      same

-- `ConsoleProcessChar` keeps the console valid: the ring stays in its bounds, and every line and what
-- is typed fit into their buffers.
pub process_char-IsValid :
    (ch : ℕ) (c : Console) (s : Vga) → IsValid c → IsValid (process_char ch (c, s)).0
unfolding process_char
process_char-IsValid ch c s v = elim (Bool-cases (ch == 0xF1)) [
  | inl toggle ↦ rw toggle (toggle_console-IsValid c s v)
  | inr other ↦ rw other (
      if_both (λ z. IsValid z.0) c.active (edit_line ch (c, s)) (c, s)
        (edit_line-IsValid ch (c, s) v) v)
]
