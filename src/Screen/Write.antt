-- ===== src/Screen/Write.antt =====
-- `screen_putchar`, `screen_write` and `screen_writeln`.
use system_operative_edit.Base.{
  ℕ, ◌+◌, ◌*◌, ◌≤◌, ◌<◌, ◌≡◌, refl, ◌∙◌, ◌≢◌, List, [], ◌∷◌, arith, ltb, ◌==◌, if◌then◌else◌,
}
use system_operative_edit.Screen.{
  vga_entry, Screen, put_cell, wrap_line, putchar, scroll, write, writeln,
}
use system_operative_edit.Screen.Scroll.{scroll_lem}

-- The cursor is on the screen.
pub record IsValid (s : Screen) : Type 0 where
  pub row_in : s.row < 25
  pub col_in : s.col < 80

cursor-scroll : (s : Screen) → ((scroll s).row ≡ 24) × ((scroll s).col ≡ s.col)
unfolding scroll
cursor-scroll s = (refl, refl)

-- `screen_putchar` of any character keeps the cursor on the screen.
pub putchar-IsValid : (c : ℕ) (s : Screen) → IsValid s → IsValid (putchar c s)
unfolding putchar put_cell wrap_line
putchar-IsValid c s v = ground (arith, cursor-scroll (wrap_line (put_cell c s)))

-- `screen_putchar` writes no memory behind the 2000 cells of the screen.
pub putchar_inside :
    (c : ℕ) (s : Screen) (j : ℕ) → IsValid s → 2000 ≤ j → (putchar c s).buffer j ≡ s.buffer j
unfolding putchar put_cell wrap_line
putchar_inside c s j v h = ground (arith, scroll_lem (wrap_line (put_cell c s)) j)

-- What is written keeps the cursor on the screen and stays inside the 2000 cells.
pub writeln-IsValid :
    (cs : List ℕ) (s : Screen)
    → IsValid s
    → IsValid (writeln cs s) × ((j : ℕ) → 2000 ≤ j → (writeln cs s).buffer j ≡ s.buffer j)
unfolding writeln write
writeln-IsValid [] s v = (putchar-IsValid 10 s v, λ j h. putchar_inside 10 s j v h)
writeln-IsValid (c ∷ cs) s v =
    let w = putchar-IsValid c s v in
    let rest = writeln-IsValid cs (putchar c s) w in
    (rest.0, λ j h. rest.1 j h ∙ putchar_inside c s j v h)

-- The cell of the cursor.
abbrev pub cursor : Screen → ℕ
cursor s = s.row * 80 + s.col

-- Anywhere but in the last cell `screen_putchar` of a character other than a newline writes it, in the
-- current colour, to the cell of the cursor and to no other, and moves the cursor to the next cell.
pub putchar_shows :
    (c : ℕ) (s : Screen)
    → IsValid s
    → c ≢ 10
    → cursor s < 1999
    → ((j : ℕ)
        → (putchar c s).buffer j ≡ (if j == cursor s then vga_entry c s.color else s.buffer j))
      × (cursor (putchar c s) ≡ cursor s + 1)
unfolding putchar put_cell wrap_line
putchar_shows c s v ne h = (λ j. ground arith, ground arith)

-- In the last cell it writes the character and then scrolls: the character ends up in the last cell of
-- the row above, and the cursor at the start of the last row.
pub putchar_scrolls :
    (c : ℕ) (s : Screen)
    → IsValid s
    → c ≢ 10
    → cursor s ≡ 1999
    → ((j : ℕ)
        → (putchar c s).buffer j ≡ (
            if j == 1919
            then vga_entry c s.color
            else if ltb j 1920
            then s.buffer (j + 80)
            else if ltb j 2000
            then vga_entry 32 s.color
            else s.buffer j))
      × (cursor (putchar c s) ≡ 1920)
unfolding putchar put_cell wrap_line
putchar_scrolls c s v ne h =
    let row : s.row ≡ 24 = omega (arith, v.row_in, v.col_in) in
    let col : s.col ≡ 79 = omega (arith, v.row_in, v.col_in) in
    (
      λ j. ground (arith, scroll_lem (wrap_line (put_cell c s)) j),
      ground (arith, cursor-scroll (wrap_line (put_cell c s))),
    )

-- A newline writes no character; it moves the cursor to the start of the next row, and scrolls when
-- there is none.
pub putchar_newline :
    (s : Screen)
    → IsValid s
    → ((j : ℕ)
        → (putchar 10 s).buffer j ≡ (
            if ltb s.row 24
            then s.buffer j
            else if ltb j 1920
            then s.buffer (j + 80)
            else if ltb j 2000
            then vga_entry 32 s.color
            else s.buffer j))
      × (cursor (putchar 10 s) ≡ (if ltb s.row 24 then (s.row + 1) * 80 else 1920))
unfolding putchar put_cell wrap_line
putchar_newline s v = (
  λ j. ground (arith, scroll_lem (wrap_line (put_cell 10 s)) j),
  ground (arith, cursor-scroll (wrap_line (put_cell 10 s))),
)
