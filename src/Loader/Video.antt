-- ===== src/Loader/Video.antt =====
-- boot/freeldr/video.c: the text output of the boot loader. The hardware cursor is not modelled: it is
-- told the position that is stored here.
use system_operative_edit.Base.{
  ℕ, zero, suc, ◌+◌, ◌-◌, ◌*◌, ◌/◌, ◌%◌, ◌^◌, bit_or, ◌&&◌, Option, none, some, List, [], ◌∷◌, ltb,
  leb, ◌==◌, if◌then◌else◌, update,
}

abbrev pub video_cols : ℕ
video_cols = 80

abbrev pub video_rows : ℕ
video_rows = 25

-- `video_memory`, `cursor_x`, `cursor_y` and `current_color`
pub record Video : Type 0 where
  pub memory : ℕ → ℕ
  pub x : ℕ
  pub y : ℕ
  pub color : ℕ

-- `current_color << 8`
unfoldable pub attrib : ℕ → ℕ
attrib color = (color * 2 ^ 8) % 2 ^ 16

unfoldable pub blank : ℕ → ℕ
blank color = bit_or (attrib color) 0x20

-- The loops that write `v` to the `r` cells from `i` on.
unfoldable pub fill : (r i v : ℕ) → (ℕ → ℕ) → ℕ → ℕ
fill zero i v m = m
fill (suc r) i v m = fill r (i + 1) v (update m i v)

-- The loop that copies each of the `r` cells from `i` on from the cell one line below.
unfoldable pub copy_up : (r i : ℕ) → (ℕ → ℕ) → ℕ → ℕ
copy_up zero i m = m
copy_up (suc r) i m = copy_up r (i + 1) (update m i (m (i + video_cols)))

unfoldable pub set_cursor : (x y : ℕ) → Video → Video
set_cursor x y v = record v { x = x; y = y }

unfoldable pub set_video_color : ℕ → Video → Video
set_video_color color v = record v { color = color }

unfoldable pub clear_screen : Video → Video
clear_screen v =
    set_cursor 0 0 (record v {
      memory = fill (video_cols * video_rows) 0 (blank v.color) v.memory;
      x = 0;
      y = 0;
    })

unfoldable pub video_init : Video → Video
video_init v = clear_screen (record v { x = 0; y = 0; color = 0x07 })

unfoldable pub video_scroll : Video → Video
video_scroll v = record v {
  memory =
      fill video_cols ((video_rows - 1) * video_cols) (blank v.color)
        (copy_up ((video_rows - 1) * video_cols) 0 v.memory);
}

-- The switch of `VideoPutChar`; `char` is signed, so the bytes from 128 on are below ' '.
unfoldable pub put_symbol : ℕ → Video → Video
put_symbol c v =
    if c == 10
    then record v { x = 0; y = v.y + 1 }
    else if c == 13
    then record v { x = 0 }
    else if c == 9
    then record v { x = v.x + 8 - (v.x + 8) % 8 }
    else if c == 8
    then (if ltb 0 v.x
        then record v {
          x = v.x - 1;
          memory = update v.memory (v.y * video_cols + (v.x - 1)) (blank v.color);
        }
        else v)
    else if leb 32 c && ltb c 128
    then record v {
      memory = update v.memory (v.y * video_cols + v.x) (bit_or (attrib v.color) c);
      x = v.x + 1;
    }
    else v

unfoldable pub end_of_line : Video → Video
end_of_line v = if leb video_cols v.x then record v { x = 0; y = v.y + 1 } else v

unfoldable pub end_of_screen : Video → Video
end_of_screen v = if leb video_rows v.y then record (video_scroll v) { y = video_rows - 1 } else v

unfoldable pub put_char : ℕ → Video → Video
put_char c v = let w = end_of_screen (end_of_line (put_symbol c v)) in set_cursor w.x w.y w

unfoldable pub put_string : List ℕ → Video → Video
put_string [] v = v
put_string (c ∷ cs) v = put_string cs (put_char c v)

unfoldable pub put_string_at : (x y : ℕ) → List ℕ → Video → Video
put_string_at x y cs v = put_string cs (set_cursor x y v)

-- `"0123456789ABCDEF"[d]`
unfoldable pub hex_char : ℕ → ℕ
hex_char d = if ltb d 10 then 48 + d else 55 + d

-- The loop of `VideoHexPrint`, from digit `i - 1` down.
unfoldable pub hex_digits : (i value : ℕ) → List ℕ
hex_digits zero value = []
hex_digits (suc i) value = hex_char (value / 2 ^ (i * 4) % 16) ∷ hex_digits i value

unfoldable pub hex_print : ℕ → Video → Video
hex_print value v = put_string (48 ∷ 120 ∷ hex_digits 8 value) v

-- The loop of `VideoDecPrint` that extracts the digits, behind those in `buffer`, the last one
-- first, on fuel; `none` means that the fuel ran out.
unfoldable pub dec_digits : (fuel temp : ℕ) → (buffer : List ℕ) → Option (List ℕ)
dec_digits zero temp buffer = none
dec_digits (suc f) temp buffer =
    let rest = dec_digits f (temp / 10) ((48 + temp % 10) ∷ buffer) in
    if temp == 0 then some buffer else rest

-- At most ten digits and the round that ends the loop.
unfoldable pub dec_print : ℕ → Video → Option Video
dec_print value v =
    if value == 0
    then some (put_char 48 v)
    else elim (dec_digits 11 value []) [ none ↦ none | some digits ↦ some (put_string digits v) ]
