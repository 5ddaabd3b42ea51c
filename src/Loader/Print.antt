-- ===== src/Loader/Print.antt =====
-- The output of boot/freeldr/video.c: cursor, and the printing of numbers.
use system_operative_edit.Base.{
  ℕ, zero, suc, ◌+◌, ◌-◌, ◌*◌, ◌/◌, ◌%◌, ◌^◌, ◌≤◌, ◌<◌, ◌≡◌, refl, ap, ◌∙◌, ◌⊎◌, inl, inr, true,
  false, some, List, [], ◌∷◌, arith, ◌==◌, Bool-cases, update, length,
}
use system_operative_edit.Loader.Video.{
  Video, put_symbol, end_of_line, end_of_screen, put_char, put_string, set_cursor, video_scroll,
  fill, copy_up, dec_digits, dec_print, blank,
}

-- The cursor is on the screen.
pub record IsOnScreen (v : Video) : Type 0 where
  pub column : v.x < 80
  pub line : v.y < 25

fill_frame : (r i v : ℕ) (m : ℕ → ℕ) (a : ℕ) → i + r ≤ a → fill r i v m a ≡ m a
unfolding fill
fill_frame zero i v m a out = refl
fill_frame (suc r) i v m a out = ground (arith, fill_frame r (i + 1) v (update m i v) a)

copy_up_frame : (r i : ℕ) (m : ℕ → ℕ) (a : ℕ) → i + r ≤ a → copy_up r i m a ≡ m a
unfolding copy_up
copy_up_frame zero i m a out = refl
copy_up_frame (suc r) i m a out =
    ground (arith, copy_up_frame r (i + 1) (update m i (m (i + 80))) a)

scroll_frame : (v : Video) (a : ℕ) → 2000 ≤ a → (video_scroll v).memory a ≡ v.memory a
unfolding video_scroll
scroll_frame v a out =
    fill_frame 80 1920 (blank v.color) (copy_up 1920 0 v.memory) a out
    ∙ copy_up_frame 1920 0 v.memory a (omega (arith, out))

-- A state after the switch: at the start of a line that may be the next one, or on the line.
abbrev Moved : Video → Type 0
Moved w = ((w.x < 80) × (w.y ≤ 25)) ⊎ (w.y < 25)

put_symbol-Moved : (c : ℕ) (v : Video) → IsOnScreen v → Moved (put_symbol c v)
unfolding put_symbol
put_symbol-Moved c v s = ground (arith, s.column, s.line)

put_symbol_frame :
    (c : ℕ) (v : Video) → IsOnScreen v → (a : ℕ) → 2000 ≤ a → (put_symbol c v).memory a ≡ v.memory a
unfolding put_symbol
put_symbol_frame c v s a out = ground (arith, s.column, s.line)

end_of_line_lem : (v : Video) → Moved v → ((end_of_line v).x < 80) × ((end_of_line v).y ≤ 25)
unfolding end_of_line
end_of_line_lem v m = ground arith

end_of_line_frame : (v : Video) → (end_of_line v).memory ≡ v.memory
unfolding end_of_line
end_of_line_frame v = ground arith

end_of_screen_lem : (v : Video) → v.x < 80 → v.y ≤ 25 → IsOnScreen (end_of_screen v)
unfolding end_of_screen video_scroll
end_of_screen_lem v lx ly = record { column = ground arith; line = ground arith }

end_of_screen_frame : (v : Video) (a : ℕ) → 2000 ≤ a → (end_of_screen v).memory a ≡ v.memory a
unfolding end_of_screen
end_of_screen_frame v a out = ground (arith, scroll_frame v a out)

-- `VideoPutChar` of any character keeps the cursor on the screen and writes no cell behind the screen's
-- 2000.
pub put_char-IsOnScreen :
    (c : ℕ) (v : Video)
    → IsOnScreen v
    → IsOnScreen (put_char c v) × ((a : ℕ) → 2000 ≤ a → (put_char c v).memory a ≡ v.memory a)
unfolding put_char set_cursor
put_char-IsOnScreen c v s =
    let line = end_of_line_lem (put_symbol c v) (put_symbol-Moved c v s) in
    let w = end_of_screen_lem (end_of_line (put_symbol c v)) line.0 line.1 in
    (
      record { column = w.column; line = w.line },
      λ a out.
          end_of_screen_frame (end_of_line (put_symbol c v)) a out
          ∙ ap (λ m. m a) (end_of_line_frame (put_symbol c v))
          ∙ put_symbol_frame c v s a out,
    )

-- The same for a string.
pub put_string-IsOnScreen :
    (cs : List ℕ) (v : Video)
    → IsOnScreen v
    → IsOnScreen (put_string cs v) × ((a : ℕ) → 2000 ≤ a → (put_string cs v).memory a ≡ v.memory a)
unfolding put_string
put_string-IsOnScreen [] v s = (s, λ a out. refl)
put_string-IsOnScreen (c ∷ cs) v s =
    let one = put_char-IsOnScreen c v s in
    let rest = put_string-IsOnScreen cs (put_char c v) one.0 in
    (rest.0, λ a out. rest.1 a out ∙ one.1 a out)

-- The number that decimal digits denote, behind the number `n`.
abbrev pub decimal : ℕ → List ℕ → ℕ
decimal n [] = n
decimal n (c ∷ cs) = decimal (n * 10 + (c - 48)) cs

-- The digits that the loop leaves before those in the buffer denote the value.
pub dec_digits_lem :
    (f value : ℕ) (buffer : List ℕ)
    → value < 10 ^ f
    → (cs : List ℕ) × (dec_digits (suc f) value buffer ≡ some cs)
      × (decimal 0 cs ≡ decimal value buffer)
      × (length cs ≤ f + length buffer)
unfolding dec_digits
dec_digits_lem zero value buffer lt =
    let none_left : (value == 0) ≡ true = ground arith in
    (buffer, rw none_left refl, ap (λ n. decimal n buffer) (omega (arith, lt)), omega arith)
dec_digits_lem (suc f) value buffer lt = elim (Bool-cases (value == 0)) [
  | inl end ↦ (buffer, rw end refl, ap (λ n. decimal n buffer) (ground arith), omega arith)
  | inr more ↦
      let rest = dec_digits_lem f (value / 10) ((48 + value % 10) ∷ buffer) (omega (arith, lt)) in
      (
        rest.0,
        rw more rest.1,
        rest.2 ∙ ap (λ n. decimal n buffer) (omega arith),
        omega (arith, rest.3),
      )
]

-- `VideoDecPrint` of a word other than 0 prints at most ten digits, which fit into its buffer of
-- twelve, and they denote the word.
pub dec_print_lem :
    (value : ℕ) (v : Video)
    → 0 < value
    → value < 2 ^ 32
    → (cs : List ℕ) × (dec_print value v ≡ some (put_string cs v))
      × (decimal 0 cs ≡ value)
      × (length cs ≤ 10)
unfolding dec_print
dec_print_lem value v nz lt =
    let e : (value == 0) ≡ false = ground arith in
    let digits = dec_digits_lem 10 value [] (omega (arith, lt)) in
    (digits.0, rw (e, digits.1) refl, digits.2, omega (arith, digits.3))
