-- ===== src/Gui/Tests.antt =====
-- Runs of the queues, and their theorems at inputs that meet their hypotheses.
use system_operative_edit.Base.{
  ℕ, ◌≡◌, refl, true, false, none, [], ◌∷◌, arith, ◌==◌, if◌then◌else◌,
}
use system_operative_edit.Base.Int.{pos}
use system_operative_edit.Vga.{Vga}
use system_operative_edit.Gui.Trail.{Place, push_place, shift_places}
use system_operative_edit.Gui.Clock.{read_moment, clock_text, two_digits, bcd2bin}
use system_operative_edit.Gui.Console.{Console, add_line, kg_strncpy, process_char, console_process}
use system_operative_edit.Gui.Console.History
use system_operative_edit.Gui.Console.Process.{Drained, console_process_lem}
use system_operative_edit.Gui.Fifo
use system_operative_edit.Gui.Keyboard.{
  Keyboard, IsValid, contents, kbd_put, keyboard_handler, scancode_to_ascii, kbd_put-put,
}
use system_operative_edit.Gui.Events.{MouseEvent, Events}

-- Slots 127 and 0 hold the characters that wait.
abbrev typed : Keyboard
typed = record { buf = λ i. if i == 127 then b'h' else b'i'; head = 1; tail = 127 }

typed-IsValid : IsValid typed
typed-IsValid = omega arith

contents-typed : contents typed ≡ b'h' ∷ b'i' ∷ []
contents-typed = refl

enter_key : contents (keyboard_handler 0x1C typed) ≡ b'h' ∷ b'i' ∷ 10 ∷ []
unfolding keyboard_handler kbd_put scancode_to_ascii
enter_key = refl

kbd_put-put_example : contents (kbd_put b'!' typed) ≡ Fifo.put 127 (contents typed) b'!'
kbd_put-put_example = kbd_put-put typed b'!' typed-IsValid

abbrev click : MouseEvent
click = record { x = 320; y = 240; buttons = 1 }

abbrev clicked : Events
clicked = record { queue = λ i. click; head = 0; tail = 31 }

-- A console with two lines in the last slot and the first, and no screen.
abbrev console : Console
console = record {
  history = λ i. if i == 11 then b'a' ∷ [] else if i == 0 then b'b' ∷ [] else [];
  history_start = 11;
  history_count = 2;
  input = b'l' ∷ b's' ∷ [];
  active = true;
  win = record { x = pos 10; y = pos 10; w = pos 620; h = pos 200; title = none; visible = true };
}

abbrev dark : Vga
dark = record {
  ready = false;
  screen_width = 640;
  screen_height = 480;
  map_mask = 15;
  planes = λ p i. 0;
  shadow = λ n. 0;
}

console-IsValid : History.IsValid console
console-IsValid = record {
  start = omega arith;
  count = omega arith;
  typed = omega arith;
  fits = λ i. ground arith;
}

add_line-keep_last_example :
    History.lines (add_line (b'c' ∷ []) (console, dark)).0
    ≡ History.keep_last (History.lines console) (kg_strncpy 70 (b'c' ∷ []))
add_line-keep_last_example = History.add_line-keep_last (b'c' ∷ []) console dark console-IsValid

process_char-IsValid_example : History.IsValid (process_char b'\n' (console, dark)).0
process_char-IsValid_example = History.process_char-IsValid b'\n' console dark console-IsValid

console_process_lem_example :
    Drained typed (console, dark) (console_process 128 typed (console, dark))
console_process_lem_example = console_process_lem typed (console, dark) typed-IsValid

-- Every register of the clock holds 42: "42:42:42 42/42/42".
clock_run :
    clock_text (read_moment (λ r. 0x42))
    ≡ 52 ∷ 50 ∷ 58 ∷ 52 ∷ 50 ∷ 58 ∷ 52 ∷ 50 ∷ 32 ∷ 52 ∷ 50 ∷ 47 ∷ 52 ∷ 50 ∷ 47 ∷ 52 ∷ 50 ∷ []
unfolding clock_text read_moment two_digits bcd2bin
clock_run = refl

abbrev no_trail : ℕ → Place
no_trail i = record { x = pos 0; y = pos 0; life = 0 }

-- After two moves the older place is the second one.
trail_run : (push_place (pos 9) (pos 9) (push_place (pos 5) (pos 6) no_trail) 1).y ≡ pos 6
unfolding push_place shift_places
trail_run = refl
