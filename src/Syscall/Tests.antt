-- ===== src/Syscall/Tests.antt =====
-- The theorems on system calls at a program with two pages.
use system_operative_edit.Vmm.Walk.{user_can}
use system_operative_edit.Base.{
  ℕ, zero, suc, ◌+◌, ◌*◌, ◌/◌, ◌^◌, ◌≤◌, ◌<◌, inr, ◌&&◌, ltb, leb, ◌%◌, ◌≡◌, refl, true, false,
  arith, ◌==◌, if◌then◌else◌,
}
use system_operative_edit.Input.{initial}
use system_operative_edit.Proc.{Kernel}
use system_operative_edit.Proc.Table.{zero_process, zero_thread}
use system_operative_edit.Syscall.{
  get_word, physical, pde_of, Space, System, copy_from_user, syscall_dispatch, failed,
}
use system_operative_edit.Syscall.Copy.{
  Apart, words_of, Copied, PointerOf, copy_from_user-Copied, syscall_dispatch_refuses,
}

-- The pages at 0x400000 and 0x401000 are open to the user, the one at 0x200000 is the kernel's. The directory is at
-- 0x1000, and the tables are at 0x2000 and 0x3000.
abbrev tables : ℕ → ℕ
tables x =
    if ltb x 0x3000 && leb 2 (x % 4)
    then 0
    else if x == 0x1000
    then 0x03
    else if x == 0x1001
    then 0x30
    else if x == 0x1004
    then 0x07
    else if x == 0x1005
    then 0x20
    else if x == 0x2000
    then 0x07
    else if x == 0x2001
    then 0x50
    else if x == 0x2004
    then 0x07
    else if x == 0x2005
    then 0x60
    else if x == 0x3800
    then 0x03
    else if x == 0x3802
    then 0x20
    else 0

abbrev two_pages : Space
two_pages = record { memory = λ x. if ltb x 0x4000 then tables x else x % 256; cr3 = 0x1000 }

abbrev kernel : Kernel
kernel = record {
  processes = λ i. zero_process;
  threads = λ t. zero_thread;
  next_pid = 1;
  next_tid = 1;
  current_thread = 0;
  queue_head = 0;
  queue_tail = 0;
  sched_current = 0;
  switches = 0;
  ticks = 0;
  cr3 = 0;
  esp0 = 0;
}

abbrev system : System
system = record {
  space = two_pages;
  vga = record {
    ready = true;
    screen_width = 640;
    screen_height = 480;
    map_mask = 15;
    planes = λ p i. 0;
    shadow = λ n. 0;
  };
  kernel = kernel;
  events = record { queue = λ i. record { x = 0; y = 0; buttons = 0 }; head = 0; tail = 0 };
  mouse = initial;
  ticks = 7;
  frame = 0x200000;
  junk = λ i. 0;
}

-- The last byte of one page and the first byte of the next one.
abbrev boundary : ℕ
boundary = 0x400FFF

dest_place : (j : ℕ) → j < 2 → physical (0x200000 + j) two_pages ≡ 0x200000 + j
unfolding get_word
dest_place zero lt = refl
dest_place (suc zero) lt = refl
dest_place (suc (suc j)) lt = absurd (omega (arith, lt))

src_place : (j : ℕ) → j < 2 → physical (boundary + j) two_pages ≡ 0x5FFF + j
unfolding get_word
src_place zero lt = refl
src_place (suc zero) lt = refl
src_place (suc (suc j)) lt = absurd (omega (arith, lt))

byte_lt : (x : ℕ) → two_pages.memory x < 256
byte_lt x = ground arith

upper_byte : (x : ℕ) → x < 0x3000 → 2 ≤ x % 4 → two_pages.memory x ≡ 0
upper_byte x lt high =
    let below : ltb x 0x4000 ≡ true = ground (arith, lt) in
    let upper : (ltb x 0x3000 && leb 2 (x % 4)) ≡ true = ground (arith, lt, high) in
    rw (below, upper) refl

small_pde : (a : ℕ) → a < 2 ^ 32 → pde_of a two_pages < 2 ^ 16
unfolding get_word
small_pde a lt =
    let p : ℕ = 0x1000 + a / 2 ^ 22 * 4 in
    omega (
      arith,
      byte_lt p,
      byte_lt (p + 1),
      upper_byte (p + 2) (omega (arith, lt)) (omega arith),
      upper_byte (p + 3) (omega (arith, lt)) (omega arith),
    )

kernel_buffer-Apart : Apart 0x200000 boundary 2 two_pages
kernel_buffer-Apart = record {
  directory = λ j a j_lt a_lt. inr (omega (arith, dest_place j j_lt, a_lt));
  tables = λ j a j_lt a_lt. inr (omega (arith, dest_place j j_lt, small_pde a a_lt));
  source =
      λ j k j_lt k_lt e. absurd (omega (arith, dest_place j j_lt, src_place k k_lt, e, j_lt, k_lt));
  each = λ j k lt k_lt e.
      absurd (omega (arith, dest_place j (omega (arith, lt, k_lt)), dest_place k k_lt, e, lt));
}

copy_from_user-Copied_example :
    let (ok, w) = copy_from_user 0x200000 boundary 2 two_pages in
    Copied 0 2 0x200000 boundary two_pages two_pages ok w
copy_from_user-Copied_example =
    copy_from_user-Copied 0x200000 boundary 2 two_pages (omega arith) (omega arith)
      kernel_buffer-Apart

closed_page : user_can (words_of two_pages) 0x1000 0x402000 ≡ false
unfolding get_word
closed_page = refl

syscall_dispatch_refuses_example : syscall_dispatch 0x04 1 2 0x402000 3 4 system ≡ (failed, system)
syscall_dispatch_refuses_example =
    syscall_dispatch_refuses 0x04 1 2 0x402000 3 4 0x402000 system PointerOf.of_draw_string
      (inr closed_page)
