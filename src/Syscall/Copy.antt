-- ===== src/Syscall/Copy.antt =====
-- What the checks and the copies of syscall.c guarantee.
use mathlib.Core.Path.{subst}
use system_operative_edit.Base.{
  ◌≢◌, ◌-◌, ℕ, zero, suc, ◌+◌, ◌*◌, ◌/◌, ◌%◌, ◌^◌, ◌≤◌, ◌<◌, ◌≡◌, refl, sym, ap, ◌∙◌, ◌⊎◌, inl, inr,
  Bool, true, false, not, ◌&&◌, ◌||◌, arith, ltb, leb, ◌==◌, if◌then◌else◌, Bool-cases, update,
}
use system_operative_edit.Vmm.{is_present, is_user, page_of, entry, dir_index, table_index}
use system_operative_edit.Vmm.Walk.{user_can, words_user_can, page_entry}
use system_operative_edit.Syscall.{
  get_word, pde_place, pte_place, pde_of, pte_of, physical, byte_at, failed, System, copy_from_user,
  syscall_dispatch, dispatch_gui, sys_draw_string, sys_get_mouse_state, sys_get_mouse_event,
  sys_debug, sys_gui_draw_window, sys_gui_draw_window_text, Space, System, is_open, is_user_ptr,
  copy_loop, copy_from_user, failed, syscall_dispatch, dispatch_gui, sys_draw_string,
  sys_get_mouse_state, sys_get_mouse_event, sys_debug, sys_gui_draw_window,
  sys_gui_draw_window_text,
}

-- The four tests of one call.
guards_lem :
    (pde pte : ℕ)
    → (if not (is_present pde) || not (is_user pde)
        then false
        else if not (is_present pte) || not (is_user pte)
        then false
        else true)
      ≡ words_user_can pde pte
guards_lem pde pte = ground arith

-- The words of the physical memory, as the walk of the page tables reads them.
abbrev pub words_of : Space → ℕ → ℕ
words_of m a = get_word a m.memory

is_open_lem : (addr : ℕ) (m : Space) → is_open addr m ≡ user_can (words_of m) (page_of m.cr3) addr
unfolding is_open
is_open_lem addr m =
    let i : page_of m.cr3 + addr / 2 ^ 22 * 4 ≡ entry (page_of m.cr3) (dir_index addr) =
      omega arith in
    let pde = words_of m (entry (page_of m.cr3) (dir_index addr)) in
    let j : page_of pde + addr / 2 ^ 12 % 1024 * 4 ≡ entry (page_of pde) (table_index addr) =
      omega arith in
    rw (i, j) (guards_lem pde (page_entry (words_of m) pde addr))

-- The address is below 0x80000000, and the processor lets a program in ring 3 read it through the page tables
-- that CR3 points to.
abbrev pub is_readable : (addr : ℕ) → Space → Bool
is_readable addr m = ltb addr (2 ^ 31) && user_can (words_of m) (page_of m.cr3) addr

-- `is_user_ptr` accepts an address exactly if it is below 0x80000000 and the processor would let a
-- program in ring 3 read it through the page tables that CR3 points to.
pub is_user_ptr-user_can : (addr : ℕ) (m : Space) → is_user_ptr addr m ≡ is_readable addr m
unfolding is_user_ptr
is_user_ptr-user_can addr m = elim (Bool-cases (leb 0x80000000 addr)) [
  | inl high ↦ let off : ltb addr (2 ^ 31) ≡ false = ground (arith, high) in rw (high, off) refl
  | inr low ↦
      let on : ltb addr (2 ^ 31) ≡ true = ground (arith, low) in rw (low, on) (is_open_lem addr m)
]

-- All of `r` bytes from `a` on are readable.
abbrev pub all_readable : (r a : ℕ) → Space → Bool
all_readable zero a m = true
all_readable (suc r) a m = is_readable a m && all_readable r (a + 1) m

-- The address lies in none of the four bytes of a word.
abbrev pub Beside : (p word : ℕ) → Type 0
Beside p word = (p < word) ⊎ (word + 4 ≤ p)

-- The bytes of the destination lie in physical memory apart from each other, from those of the source, and from
-- every entry of the page tables that a translation reads.
pub record Apart (dest src len : ℕ) (m : Space) : Type 0 where
  pub directory : (j a : ℕ) → j < len → a < 2 ^ 32 → Beside (physical (dest + j) m) (pde_place a m)
  pub tables : (j a : ℕ) → j < len → a < 2 ^ 32 → Beside (physical (dest + j) m) (pte_place a m)
  pub source : (j k : ℕ) → j < len → k < len → physical (src + k) m ≢ physical (dest + j) m
  pub each : (j k : ℕ) → j < k → k < len → physical (dest + j) m ≢ physical (dest + k) m

-- Every address has the same entries.
pub record SameWalks (m w : Space) : Type 0 where
  pub root : w.cr3 ≡ m.cr3
  pub pdes : (a : ℕ) → a < 2 ^ 32 → pde_of a w ≡ pde_of a m
  pub ptes : (a : ℕ) → a < 2 ^ 32 → pte_of a w ≡ pte_of a m

-- The state after the bytes from `i` to `len` of a copy, with the page tables of `o`.
pub record Copied (i len dest src : ℕ) (o m : Space) (ok : Bool) (w : Space) : Type 0 where
  pub result : ok ≡ all_readable (len - i) (src + i) o
  pub walks : SameWalks o w
  pub outside :
      (x : ℕ) → ((j : ℕ) → i ≤ j → j < len → x ≢ physical (dest + j) o) → w.memory x ≡ m.memory x
  pub copied :
      ok ≡ true
      → (j : ℕ) → i ≤ j
      → j < len
      → w.memory (physical (dest + j) o) ≡ m.memory (physical (src + j) o)

get_word_beside :
    (p v word : ℕ) (mem : ℕ → ℕ)
    → Beside p word
    → get_word word (update mem p v) ≡ get_word word mem
unfolding get_word
get_word_beside p v word mem out =
    let e0 : (word == p) ≡ false = ground (arith, out) in
    let e1 : (word + 1 == p) ≡ false = ground (arith, out) in
    let e2 : (word + 2 == p) ≡ false = ground (arith, out) in
    let e3 : (word + 3 == p) ≡ false = ground (arith, out) in rw (e0, e1, e2, e3) refl

pde_place_same : (o m : Space) → SameWalks o m → (a : ℕ) → pde_place a m ≡ pde_place a o
pde_place_same o m same a = ap (λ c. page_of c + a / 2 ^ 22 * 4) same.root

pte_place_same :
    (o m : Space) → SameWalks o m → (a : ℕ) → a < 2 ^ 32 → pte_place a m ≡ pte_place a o
pte_place_same o m same a lt = ap (λ e. page_of e + a / 2 ^ 12 % 1024 * 4) (same.pdes a lt)

physical_same : (o m : Space) → SameWalks o m → (a : ℕ) → a < 2 ^ 32 → physical a m ≡ physical a o
physical_same o m same a lt = ap (λ e. page_of e + a % 4096) (same.ptes a lt)

-- A byte beside the tables leaves every walk as it is.
store-SameWalks :
    (o m : Space) (p v : ℕ)
    → SameWalks o m
    → ((a : ℕ) → a < 2 ^ 32 → Beside p (pde_place a o))
    → ((a : ℕ) → a < 2 ^ 32 → Beside p (pte_place a o))
    → SameWalks o (record m { memory = update m.memory p v })
store-SameWalks o m p v same off_pde off_pte =
    let w : Space = record m { memory = update m.memory p v } in
    let pde_kept : (a : ℕ) → a < 2 ^ 32 → pde_of a w ≡ pde_of a m = λ a lt.
      get_word_beside p v (pde_place a m) m.memory
        (subst (λ x. Beside p x) (sym (pde_place_same o m same a)) (off_pde a lt)) in
    let pte_kept : (a : ℕ) → a < 2 ^ 32 → pte_of a w ≡ pte_of a m = λ a lt.
      ap (λ e. get_word (page_of e + a / 2 ^ 12 % 1024 * 4) w.memory) (pde_kept a lt)
      ∙ get_word_beside p v (pte_place a m) m.memory
          (subst (λ x. Beside p x) (sym (pte_place_same o m same a lt)) (off_pte a lt)) in
    record {
      root = same.root;
      pdes = λ a lt. pde_kept a lt ∙ same.pdes a lt;
      ptes = λ a lt. pte_kept a lt ∙ same.ptes a lt;
    }

is_user_ptr_same :
    (o m : Space) → SameWalks o m → (a : ℕ) → a < 2 ^ 32 → is_user_ptr a m ≡ is_user_ptr a o
unfolding is_user_ptr is_open
is_user_ptr_same o m same a lt = rw (same.ptes a lt, same.pdes a lt) refl

module _ (dest src len : ℕ) (o : Space) (dest_fits : dest + len ≤ 2 ^ 32)
    (src_fits : src + len ≤ 2 ^ 32) (apart : Apart dest src len o) where
  -- One byte more.
  next_byte :
      (i : ℕ) (m w : Space) (ok : Bool)
      → i < len
      → is_readable (src + i) o ≡ true
      → Copied
          (i + 1)
          len
          dest
          src
          o
          (record m {
            memory = update m.memory (physical (dest + i) o) (m.memory (physical (src + i) o));
          })
          ok
          w
      → Copied i len dest src o m ok w
  next_byte i m w ok lt here h =
      let p = physical (dest + i) o in
      let left : len - i ≡ suc (len - (i + 1)) = omega (arith, lt) in
      record {
        result =
            h.result
            ∙ ap (λ a. all_readable (len - (i + 1)) a o) (omega arith)
            ∙ sym (
                ap (λ n. all_readable n (src + i) o) left
                ∙ ap (λ t. t && all_readable (len - (i + 1)) (src + i + 1) o) here);
        walks = h.walks;
        outside = λ x out.
            let other : (x == p) ≡ false = ground (arith, out i (omega arith) lt) in
            h.outside x (λ j low high. out j (omega (arith, low)) high) ∙ rw other refl;
        copied = λ good j low high. elim (Bool-cases (j == i)) [
          | inl same ↦
              let at : j ≡ i = ground (arith, same) in
              let hit : (p == p) ≡ true = ground arith in
              ap (λ n. w.memory (physical (dest + n) o)) at
              ∙ h.outside p (λ k above under. apart.each i k (omega (arith, above)) under)
              ∙ rw hit refl
              ∙ ap (λ n. m.memory (physical (src + n) o)) (sym at)
          | inr later ↦
              let other : (physical (src + j) o == p) ≡ false =
                ground (arith, apart.source i j lt high) in
              h.copied good j (ground (arith, later, low)) high ∙ rw other refl
        ];
      }

  copy_loop-Copied :
      (r i : ℕ) (m : Space)
      → i + r ≡ len
      → SameWalks o m
      → let (ok, w) = copy_loop r i dest src m in Copied i len dest src o m ok w
  unfolding copy_loop
  copy_loop-Copied zero i m e same =
      let none_left : len - i ≡ 0 = omega (arith, e) in
      record {
        result = sym (ap (λ n. all_readable n (src + i) o) none_left);
        walks = same;
        outside = λ x out. refl;
        copied = λ ok j low high. absurd (omega (arith, low, high, e));
      }
  copy_loop-Copied (suc r) i m e same =
      let lt : i < len = omega (arith, e) in
      let dest_lt : dest + i < 2 ^ 32 = omega (arith, dest_fits, lt) in
      let src_lt : src + i < 2 ^ 32 = omega (arith, src_fits, lt) in
      let d : (dest + i) % 2 ^ 32 ≡ dest + i = omega (arith, dest_fits, e) in
      let f : (src + i) % 2 ^ 32 ≡ src + i = omega (arith, src_fits, e) in
      let p = physical (dest + i) o in
      let next : Space = record m {
        memory = update m.memory p (m.memory (physical (src + i) o));
      } in
      let kept =
        store-SameWalks o m p (m.memory (physical (src + i) o)) same
          (λ a below. apart.directory i a lt below) (λ a below. apart.tables i a lt below) in
      let ih = copy_loop-Copied r (i + 1) next (omega (arith, e)) kept in
      let checked = is_user_ptr_same o m same (src + i) src_lt in
      let read = is_user_ptr-user_can (src + i) o in
      let left : len - i ≡ suc r = omega (arith, e) in
      let to = physical_same o m same (dest + i) dest_lt in
      let from : byte_at (src + i) m ≡ m.memory (physical (src + i) o) =
        ap (λ x. m.memory x) (physical_same o m same (src + i) src_lt) in
      elim (Bool-cases (is_user_ptr (src + i) m)) [
        | inl here ↦
            let t = copy_loop r (i + 1) dest src next in
            rw (d, f)
              (rw here
                (rw (to, from) (next_byte i m t.1 t.0 lt (sym read ∙ sym checked ∙ here) ih)))
        | inr bad ↦
            let closed : is_readable (src + i) o ≡ false = sym read ∙ sym checked ∙ bad in
            rw (d, f)
              (rw bad record {
                result = sym (
                    ap (λ n. all_readable n (src + i) o) left
                    ∙ ap (λ t. t && all_readable r (src + i + 1) o) closed);
                walks = same;
                outside = λ x out. refl;
                copied = λ ok j low high. cc ok;
              })
      ]

-- `copy_from_user` of a range that does not wrap to one that does not wrap, whose bytes lie in physical memory apart
-- from each other, from the source and from every entry of the page tables. It succeeds exactly if every byte
-- of the source is below 0x80000000 and may be read by a program in ring 3; it then has copied every byte; it
-- changes no byte of the physical memory outside the destination, which it does not check, and every address is
-- translated as before.
pub copy_from_user-Copied :
    (dest src len : ℕ) (m : Space)
    → dest + len ≤ 2 ^ 32
    → src + len ≤ 2 ^ 32
    → Apart dest src len m
    → let (ok, w) = copy_from_user dest src len m in Copied 0 len dest src m m ok w
unfolding copy_from_user
copy_from_user-Copied dest src len m dest_fits src_fits apart =
    copy_loop-Copied dest src len m dest_fits src_fits apart len 0 m (omega arith)
      (record { root = refl; pdes = λ a lt. refl; ptes = λ a lt. refl })

-- A pointer that a call gets from the program and checks before it does anything.
pub data PointerOf (a b c d e : ℕ) : (num p : ℕ) → Type 0 where
  of_draw_string : PointerOf a b c d e 0x04 c
  of_mouse_state : PointerOf a b c d e 0x07 b
  of_debug : PointerOf a b c d e 0x09 b
  of_mouse_event : PointerOf a b c d e 0x0B b
  of_draw_window : PointerOf a b c d e 0x11 e
  of_window : PointerOf a b c d e 0x12 a
  of_window_text : PointerOf a b c d e 0x12 d

draw_string_refused :
    (a b c d e : ℕ) (s : System)
    → is_user_ptr c s.space ≡ false
    → sys_draw_string a b c d e s ≡ (failed, s)
unfolding sys_draw_string
draw_string_refused a b c d e s bad = rw bad refl

mouse_state_refused :
    (b : ℕ) (s : System) → is_user_ptr b s.space ≡ false → sys_get_mouse_state b s ≡ (failed, s)
unfolding sys_get_mouse_state
mouse_state_refused b s bad = rw bad refl

mouse_event_refused :
    (b : ℕ) (s : System) → is_user_ptr b s.space ≡ false → sys_get_mouse_event b s ≡ (failed, s)
unfolding sys_get_mouse_event
mouse_event_refused b s bad = rw bad refl

debug_refused : (b : ℕ) (s : System) → is_user_ptr b s.space ≡ false → sys_debug b s ≡ (failed, s)
unfolding sys_debug
debug_refused b s bad = rw bad refl

draw_window_refused :
    (a b c d e : ℕ) (s : System)
    → is_user_ptr e s.space ≡ false
    → sys_gui_draw_window a b c d e s ≡ (failed, s)
unfolding sys_gui_draw_window
draw_window_refused a b c d e s bad = rw bad refl

window_refused :
    (a b c d e : ℕ) (s : System)
    → is_user_ptr a s.space ≡ false
    → sys_gui_draw_window_text a b c d e s ≡ (failed, s)
unfolding sys_gui_draw_window_text
window_refused a b c d e s bad = rw bad refl

window_text_refused :
    (a b c d e : ℕ) (s : System)
    → is_user_ptr d s.space ≡ false
    → sys_gui_draw_window_text a b c d e s ≡ (failed, s)
unfolding sys_gui_draw_window_text
window_text_refused a b c d e s bad = elim (Bool-cases (is_user_ptr a s.space)) [
  | inl good ↦ rw (good, bad) refl
  | inr worse ↦ rw worse refl
]

refuses :
    (num a b c d e p : ℕ) (s : System)
    → PointerOf a b c d e num p
    → is_user_ptr p s.space ≡ false
    → syscall_dispatch num a b c d e s ≡ (failed, s)
unfolding syscall_dispatch dispatch_gui
refuses num a b c d e p s of_draw_string bad = draw_string_refused a b c d e s bad
refuses num a b c d e p s of_mouse_state bad = mouse_state_refused b s bad
refuses num a b c d e p s of_debug bad = debug_refused b s bad
refuses num a b c d e p s of_mouse_event bad = mouse_event_refused b s bad
refuses num a b c d e p s of_draw_window bad = draw_window_refused a b c d e s bad
refuses num a b c d e p s of_window bad = window_refused a b c d e s bad
refuses num a b c d e p s of_window_text bad = window_text_refused a b c d e s bad

-- A system call with a pointer at or above 0x80000000, or which the page tables do not let a program in ring 3
-- use, fails and changes nothing: neither the memory nor the screen, the queues or the threads. That holds for every
-- pointer of every call, for both pointers of the call that draws a text in a window.
pub syscall_dispatch_refuses :
    (num a b c d e p : ℕ) (s : System)
    → PointerOf a b c d e num p
    → (2 ^ 31 ≤ p) ⊎ (user_can (words_of s.space) (page_of s.space.cr3) p ≡ false)
    → syscall_dispatch num a b c d e s ≡ (failed, s)
syscall_dispatch_refuses num a b c d e p s arg out =
    refuses num a b c d e p s arg (is_user_ptr-user_can p s.space ∙ ground (arith, out))

-- A number for which the dispatch has no case fails and changes nothing; 0x06, 0x08, 0x0A and 0x0C to
-- 0x0E, which have names, are among them.
pub syscall_dispatch_unknown :
    (num a b c d e : ℕ) (s : System)
    → (num ≡ 0x06) ⊎ ((num ≡ 0x08) ⊎ ((num ≡ 0x0A) ⊎ ((0x0C ≤ num × num ≤ 0x0E) ⊎ (0x13 < num))))
    → syscall_dispatch num a b c d e s ≡ (failed, s)
unfolding syscall_dispatch dispatch_gui
syscall_dispatch_unknown num a b c d e s out = ground (arith, out)
