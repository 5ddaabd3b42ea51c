-- ===== src/Syscall.antt =====
-- kernel/interrupt/syscall.c: the checks of pointers from user programs, the copies from their memory,
-- and the dispatch of the system calls. The text that is sent to the serial port is left out.
pub mod Copy
mod Tests
use system_operative_edit.Base.{
  ℕ, zero, suc, ◌+◌, ◌-◌, ◌*◌, ◌/◌, ◌%◌, ◌^◌, ◌≤◌, ◌<◌, min, max, bit_and, bit_or, bit_xor, ◌≡◌,
  refl, sym, ap, ◌∙◌, fun_ext, ◌≢◌, ◌↔◌, ◌⊎◌, inl, inr, Bool, true, false, not, ◌&&◌, ◌||◌, Option,
  none, some, List, [], ◌∷◌, ◌++◌, map, arith, ltb, leb, ◌==◌, if◌then◌else◌, Bool-cases,
  Option-cases, ltb→lt, lt→ltb, leb→le, ==_iff, add32, sub32, update, length, get_elem?, get_or,
  last_from, length-append, last_from-append, has, Distinct, has-append, Distinct-append,
}
use system_operative_edit.Base.Int.{ℤ, pos, negsuc}
use system_operative_edit.Vmm.{is_present, is_user, page_of}
use system_operative_edit.Vga.{Vga, put_pixel, fill_rect}
use system_operative_edit.Vga.Text.{draw_string}
use system_operative_edit.Gui.Events.{MouseEvent, Events, get_mouse_event}
use system_operative_edit.Gui.Draw.{
  Window, draw_desktop, draw_taskbar, draw_window, draw_window_text, draw_button,
}
use system_operative_edit.Input.{Mouse}
use system_operative_edit.Proc.{Kernel}
use system_operative_edit.Proc.Create.{proc_exit}
use system_operative_edit.Sched.{yield_quantum}

-- The physical memory, with the page tables in it, and CR3.
pub record Space : Type 0 where
  pub memory : ℕ → ℕ
  pub cr3 : ℕ

-- A word in memory, lowest byte first.
unfoldable pub get_word : (a : ℕ) → (ℕ → ℕ) → ℕ
get_word a bytes = bytes a + bytes (a + 1) * 2 ^ 8 + bytes (a + 2) * 2 ^ 16 + bytes (a + 3) * 2 ^ 24

-- Where the entry of the directory for an address lies, and where that of the table, and both entries.
abbrev pub pde_place : (addr : ℕ) → Space → ℕ
pde_place addr m = page_of m.cr3 + addr / 2 ^ 22 * 4

abbrev pub pde_of : (addr : ℕ) → Space → ℕ
pde_of addr m = get_word (pde_place addr m) m.memory

abbrev pub pte_place : (addr : ℕ) → Space → ℕ
pte_place addr m = page_of (pde_of addr m) + addr / 2 ^ 12 % 1024 * 4

abbrev pub pte_of : (addr : ℕ) → Space → ℕ
pte_of addr m = get_word (pte_place addr m) m.memory

-- What the processor does with an address that is mapped; another one is a page fault, which stops the kernel.
abbrev pub physical : (addr : ℕ) → Space → ℕ
physical addr m = page_of (pte_of addr m) + addr % 4096

abbrev pub byte_at : (addr : ℕ) → Space → ℕ
byte_at addr m = m.memory (physical addr m)

abbrev pub store : (addr v : ℕ) → Space → Space
store addr v m = record m { memory = update m.memory (physical addr m) v }

-- Both entries of an address are present and open to the user.
unfoldable pub is_open : (addr : ℕ) → Space → Bool
is_open addr m =
    if not (is_present (pde_of addr m)) || not (is_user (pde_of addr m))
    then false
    else if not (is_present (pte_of addr m)) || not (is_user (pte_of addr m))
    then false
    else true

unfoldable pub is_user_ptr : (addr : ℕ) → Space → Bool
is_user_ptr addr m = if leb 0x80000000 addr then false else is_open addr m

-- The loop of `copy_from_user`, `r` bytes from byte `i` on; the result -1 is `false`.
unfoldable pub copy_loop : (r i dest src : ℕ) → Space → Bool × Space
copy_loop zero i dest src m = (true, m)
copy_loop (suc r) i dest src m =
    let next = store ((dest + i) % 2 ^ 32) (byte_at ((src + i) % 2 ^ 32) m) m in
    let rest = copy_loop r (i + 1) dest src next in
    if is_user_ptr ((src + i) % 2 ^ 32) m then rest else (false, m)

unfoldable pub copy_from_user : (dest src len : ℕ) → Space → Bool × Space
copy_from_user dest src len m = copy_loop len 0 dest src m

-- The loop of SYS_DRAW_STRING, `r` characters from address `a` on: the string up to its terminator, or
-- `none` if a character cannot be read.
unfoldable pub read_string : (r a : ℕ) → Space → Option (List ℕ)
read_string zero a m = some []
read_string (suc r) a m =
    let ch = byte_at (a % 2 ^ 32) m in
    let rest = read_string r (a + 1) m in
    if is_user_ptr (a % 2 ^ 32) m
    then (if ch == 0 then some [] else elim rest [ none ↦ none | some cs ↦ some (ch ∷ cs) ])
    else none

-- The string in the `r` bytes from byte `i` of a buffer that was not initialised.
unfoldable pub junk_string : (r i : ℕ) → (junk : ℕ → ℕ) → List ℕ
junk_string zero i junk = []
junk_string (suc r) i junk =
    let rest = junk_string r (i + 1) junk in if junk i == 0 then [] else junk i ∷ rest

-- The loops of the calls for windows: when a character cannot be read only the loop ends, and the rest
-- of the buffer is what the stack held.
unfoldable pub read_title : (r i a : ℕ) → (junk : ℕ → ℕ) → Space → List ℕ
read_title zero i a junk m = []
read_title (suc r) i a junk m =
    let ch = byte_at ((a + i) % 2 ^ 32) m in
    let rest = read_title r (i + 1) a junk m in
    if is_user_ptr ((a + i) % 2 ^ 32) m
    then (if ch == 0 then [] else ch ∷ rest)
    else junk_string (suc r) i junk

-- `frame` is where the kernel's stack holds the copy of a structure, `junk` what it held in the place
-- of a string buffer.
pub record System : Type 0 where
  pub space : Space
  pub vga : Vga
  pub kernel : Kernel
  pub events : Events
  pub mouse : Mouse
  pub ticks : ℕ
  pub frame : ℕ
  pub junk : ℕ → ℕ

abbrev pub failed : ℕ
failed = 2 ^ 32 - 1

-- `(INT)a` and `(UCHAR)a`, and an INT as a word.
abbrev pub int_of : ℕ → ℤ
int_of a = if ltb a (2 ^ 31) then pos a else negsuc (2 ^ 32 - 1 - a)

abbrev pub uchar_of : ℕ → ℕ
uchar_of a = a % 256

abbrev pub word_of : ℤ → ℕ
word_of (pos n) = n % 2 ^ 32
word_of (negsuc n) = 2 ^ 32 - 1 - n % 2 ^ 32

-- A word at a virtual address.
unfoldable pub load_word : (a : ℕ) → Space → ℕ
load_word a m =
    byte_at a m
    + byte_at (a + 1) m * 2 ^ 8
    + byte_at (a + 2) m * 2 ^ 16
    + byte_at (a + 3) m * 2 ^ 24

unfoldable pub store_word : (a w : ℕ) → Space → Space
store_word a w m =
    store (a + 3) (w / 2 ^ 24 % 256)
      (store (a + 2) (w / 2 ^ 16 % 256) (store (a + 1) (w / 2 ^ 8 % 256) (store a (w % 256) m)))

-- The result of a call that draws.
abbrev pub drawn : System → Vga → ℕ × System
drawn s v = (0, record s { vga = v })

unfoldable pub sys_draw_string : (a b c d e : ℕ) → System → ℕ × System
sys_draw_string a b c d e s =
    if not (is_user_ptr c s.space) then (failed, s) else elim (read_string 127 c s.space) [
      | none ↦ (failed, s)
      | some str ↦ drawn s (draw_string (int_of a) (int_of b) str (uchar_of d) (uchar_of e) s.vga)
    ]

-- The copy of a SYS_MOUSE on the kernel's stack to the program's buffer.
unfoldable pub give_mouse : (b x y buttons : ℕ) → System → ℕ × System
give_mouse b x y buttons s =
    let filled =
      store_word (s.frame + 8) buttons
        (store_word (s.frame + 4) y (store_word s.frame x s.space)) in
    let (ok, m) = copy_from_user b s.frame 12 filled in
    (if ok then 0 else failed, record s { space = m })

-- `MouseGetState` never returns NULL.
unfoldable pub sys_get_mouse_state : (b : ℕ) → System → ℕ × System
sys_get_mouse_state b s =
    if not (is_user_ptr b s.space)
    then (failed, s)
    else give_mouse b (word_of s.mouse.x) (word_of s.mouse.y) s.mouse.buttons s

unfoldable pub sys_get_mouse_event : (b : ℕ) → System → ℕ × System
sys_get_mouse_event b s =
    let (o, events) = get_mouse_event s.events in
    if not (is_user_ptr b s.space) then (failed, s) else elim o [
      | none ↦ (failed, record s { events = events })
      | some ev ↦ give_mouse b ev.x ev.y ev.buttons (record s { events = events })
    ]

-- What the loop reads goes to the serial port only, and behind the loop the result is set to 0, also
-- when a character could not be read.
unfoldable pub sys_debug : (b : ℕ) → System → ℕ × System
sys_debug b s = (if is_user_ptr b s.space then 0 else failed, s)

unfoldable pub sys_gui_draw_window : (a b c d e : ℕ) → System → ℕ × System
sys_gui_draw_window a b c d e s =
    let win : Window = record {
      x = int_of a;
      y = int_of b;
      w = int_of c;
      h = int_of d;
      title = some (read_title 127 0 e s.junk s.space);
      visible = true;
    } in
    if not (is_user_ptr e s.space) then (failed, s) else drawn s (draw_window (some win) s.vga)

-- The window at address `a`, of 24 bytes, is copied to the kernel's stack.
unfoldable pub sys_gui_draw_window_text : (a b c d e : ℕ) → System → ℕ × System
sys_gui_draw_window_text a b c d e s =
    let (ok, m) = copy_from_user s.frame a 24 s.space in
    let local : Window = record {
      x = int_of (load_word s.frame m);
      y = int_of (load_word (s.frame + 4) m);
      w = int_of (load_word (s.frame + 8) m);
      h = int_of (load_word (s.frame + 12) m);
      title = none;
      visible = not (load_word (s.frame + 20) m == 0);
    } in
    let t = record s { space = m } in
    if not (is_user_ptr a s.space) || not (is_user_ptr d s.space)
    then (failed, s)
    else if ok
    then drawn t (
        draw_window_text (some local) (int_of b) (int_of c) (some (read_title 127 0 d s.junk m))
          (uchar_of e) s.vga)
    else (failed, t)

-- The calls from SYS_GET_MOUSE_EVENT on.
unfoldable pub dispatch_gui : (num a b c d e : ℕ) → System → ℕ × System
dispatch_gui num a b c d e s =
    if num == 0x0B
    then sys_get_mouse_event b s
    else if num == 0x0F
    then drawn s (draw_desktop s.vga)
    else if num == 0x10
    then drawn s (draw_taskbar s.vga)
    else if num == 0x11
    then sys_gui_draw_window a b c d e s
    else if num == 0x12
    then sys_gui_draw_window_text a b c d e s
    else if num == 0x13
    then drawn s (draw_button (int_of a) (int_of b) (int_of c) (int_of d) none (not (e == 0)) s.vga)
    else (failed, s)

-- `syscall_dispatch`. SYS_EXIT does not return; its result is what a return would give. The software
-- interrupt of SYS_YIELD is the next step of the scheduler.
unfoldable pub syscall_dispatch : (num a b c d e : ℕ) → System → ℕ × System
syscall_dispatch num a b c d e s =
    if num == 0x00
    then (0, record s { kernel = proc_exit s.kernel })
    else if num == 0x01
    then (0, record s { kernel = yield_quantum s.kernel })
    else if num == 0x02
    then drawn s (put_pixel (int_of a) (int_of b) (uchar_of c) s.vga)
    else if num == 0x03
    then drawn s (fill_rect (int_of a) (int_of b) (int_of c) (int_of d) (uchar_of e) s.vga)
    else if num == 0x04
    then sys_draw_string a b c d e s
    else if num == 0x05
    then (s.ticks, s)
    else if num == 0x07
    then sys_get_mouse_state b s
    else if num == 0x09
    then sys_debug b s
    else dispatch_gui num a b c d e s

-- `syscall_tick_increment`
unfoldable pub tick_increment : System → System
tick_increment s = record s { ticks = add32 s.ticks 1 }
