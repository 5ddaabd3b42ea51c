-- ===== src/Gui/Keyboard.antt =====
-- The keyboard queue of vga_gui.c: `kbd_put`, `kbd_getchar` and `GuiKeyboardHandler`.
use system_operative_edit.Base.{
  ℕ, zero, suc, ◌+◌, ◌-◌, ◌/◌, ◌%◌, ◌<◌, bit_and, ◌≡◌, inl, inr, true, false, not, ◌&&◌, Option,
  none, some, List, [], ◌∷◌, arith, ltb, ◌==◌, if◌then◌else◌, Bool-cases, update, length, get_or,
}
use system_operative_edit.Base.Bits.{bit_and-high}
use system_operative_edit.Gui.Circular.{window, length-window, window-put}
use system_operative_edit.Gui.Fifo

abbrev pub kbd_buf_size : ℕ
kbd_buf_size = 128

-- `kbd_buf`, `kbd_head` and `kbd_tail`. A character is the byte that `kbd_getchar` returns.
pub record Keyboard : Type 0 where
  pub buf : ℕ → ℕ
  pub head : ℕ
  pub tail : ℕ

unfoldable pub kbd_put : ℕ → Keyboard → Keyboard
kbd_put c k =
    let next = (k.head + 1) % kbd_buf_size in
    if next == k.tail then k else record k { buf = update k.buf k.head c; head = next }

-- The result -1 is `none`.
unfoldable pub kbd_getchar : Keyboard → Option ℕ × Keyboard
kbd_getchar k =
    if k.head == k.tail
    then (none, k)
    else (some (k.buf k.tail), record k { tail = (k.tail + 1) % kbd_buf_size })

-- The entries 0x02 to 0x0E, 0x10 to 0x1F, 0x20 to 0x2F and 0x30 to 0x3B of the table; 0 where it
-- has none.
abbrev scancode_row : ℕ → List ℕ
scancode_row zero =
    0 ∷ 0 ∷ b'1' ∷ b'2' ∷ b'3' ∷ b'4' ∷ b'5' ∷ b'6' ∷ b'7' ∷ b'8' ∷ b'9' ∷ b'0' ∷ 0 ∷ 0 ∷ 8 ∷ 0 ∷ []
scancode_row (suc zero) =
    b'q' ∷ b'w' ∷ b'e' ∷ b'r' ∷ b't' ∷ b'y' ∷ b'u' ∷ b'i' ∷ b'o' ∷ b'p' ∷ 0 ∷ 0 ∷ 10 ∷ 0 ∷ b'a'
    ∷ b's' ∷ []
scancode_row (suc (suc zero)) =
    b'd' ∷ b'f' ∷ b'g' ∷ b'h' ∷ b'j' ∷ b'k' ∷ b'l' ∷ 0 ∷ 0 ∷ 0 ∷ 0 ∷ 0 ∷ b'z' ∷ b'x' ∷ b'c' ∷ b'v'
    ∷ []
scancode_row (suc (suc (suc zero))) =
    b'b' ∷ b'n' ∷ b'm' ∷ 0 ∷ 0 ∷ 0 ∷ 0 ∷ 0 ∷ 0 ∷ 32 ∷ 0 ∷ 0xF1 ∷ 0 ∷ 0 ∷ 0 ∷ 0 ∷ []
scancode_row _ = []

unfoldable pub scancode_to_ascii : ℕ → ℕ
scancode_to_ascii sc = get_or (scancode_row (sc / 16)) (sc % 16) 0

unfoldable pub keyboard_handler : ℕ → Keyboard → Keyboard
keyboard_handler sc k =
    if not (bit_and sc 0x80 == 0)
    then k
    else if ltb sc 128 && not (scancode_to_ascii sc == 0)
    then kbd_put (scancode_to_ascii sc) k
    else k

-- How many characters wait.
abbrev pub waiting : Keyboard → ℕ
waiting k = (k.head + kbd_buf_size - k.tail) % kbd_buf_size

-- The characters that wait, oldest first.
abbrev pub contents : Keyboard → List ℕ
contents k = window kbd_buf_size k.buf k.tail (waiting k)

pub record IsValid (k : Keyboard) : Type 0 where
  pub head_in : k.head < kbd_buf_size
  pub tail_in : k.tail < kbd_buf_size

pub kbd_put-IsValid : (k : Keyboard) (c : ℕ) → IsValid k → IsValid (kbd_put c k)
unfolding kbd_put
kbd_put-IsValid k c v = ground arith

pub kbd_getchar-IsValid : (k : Keyboard) → IsValid k → IsValid (kbd_getchar k).1
unfolding kbd_getchar
kbd_getchar-IsValid k v = ground arith

-- `kbd_put` appends the character to what waits, and drops it when 127 characters wait already.
pub kbd_put-put :
    (k : Keyboard) (c : ℕ) → IsValid k → contents (kbd_put c k) ≡ Fifo.put 127 (contents k) c
unfolding kbd_put Fifo.put
kbd_put-put k c v = elim (Bool-cases ((k.head + 1) % kbd_buf_size == k.tail)) [
  | inl full ↦
      let size : ltb (length (contents k)) 127 ≡ false =
        ground (arith, length-window kbd_buf_size k.buf k.tail (waiting k)) in
      rw (full, size)
  | inr room ↦
      let size : ltb (length (contents k)) 127 ≡ true =
        ground (arith, length-window kbd_buf_size k.buf k.tail (waiting k)) in
      let more : ((k.head + 1) % kbd_buf_size + kbd_buf_size - k.tail) % kbd_buf_size
          ≡ suc (waiting k) =
        ground arith in
      rw (room, size, more)
        (window-put kbd_buf_size k.buf c (waiting k) k.tail k.head v.tail_in (omega arith)
          (omega arith))
]

-- `kbd_getchar` takes the oldest character, and says so when none waits.
pub kbd_getchar-get :
    (k : Keyboard)
    → IsValid k
    → let (o, k') = kbd_getchar k in (o, contents k') ≡ Fifo.get (contents k)
unfolding kbd_getchar Fifo.get
kbd_getchar-get k v = elim (Bool-cases (k.head == k.tail)) [
  | inl same ↦ let none_left : waiting k ≡ 0 = ground arith in rw (same, none_left)
  | inr other ↦
      let less : waiting k
          ≡ suc ((k.head + kbd_buf_size - (k.tail + 1) % kbd_buf_size) % kbd_buf_size) =
        ground arith in
      rw (other, less)
]

-- The handler of the keyboard interrupt appends the character of a key that is pressed, if the
-- table has one and fewer than 127 wait, and ignores every key that is released.
pub keyboard_handler_lem :
    (k : Keyboard) (sc : ℕ)
    → IsValid k
    → sc < 256
    → contents (keyboard_handler sc k) ≡ (
        if ltb sc 128 && not (scancode_to_ascii sc == 0)
        then Fifo.put 127 (contents k) (scancode_to_ascii sc)
        else contents k)
unfolding keyboard_handler
keyboard_handler_lem k sc v h =
    ground (arith, bit_and-high sc h, kbd_put-put k (scancode_to_ascii sc) v)
