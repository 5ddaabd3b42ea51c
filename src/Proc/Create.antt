-- ===== src/Proc/Create.antt =====
-- kernel/proc/process.c: `proc_init`, `proc_exit`, and `proc_create_kernel` from the tables to the
-- scheduler's queue.
pub mod Created
use system_operative_edit.Base.{
  ℕ, zero, suc, ◌+◌, ◌-◌, ◌*◌, ◌/◌, ◌%◌, ◌^◌, ◌≤◌, ◌<◌, min, max, bit_and, bit_or, bit_xor, ◌≡◌,
  refl, sym, ap, ◌∙◌, fun_ext, ◌≢◌, ◌↔◌, ◌⊎◌, inl, inr, Bool, true, false, not, ◌&&◌, ◌||◌, Option,
  none, some, List, [], ◌∷◌, ◌++◌, map, arith, ltb, leb, ◌==◌, if◌then◌else◌, Bool-cases,
  Option-cases, ltb→lt, lt→ltb, leb→le, ==_iff, add32, sub32, update, length, get_elem?, get_or,
  last_from, length-append, last_from-append, has, Distinct, has-append, Distinct-append,
}
use system_operative_edit.Pmm.{Pmm, page_size, alloc_frame}
use system_operative_edit.Proc.{ThreadState, Thread, Process, Kernel}
use system_operative_edit.Proc.Table.{alloc_process, alloc_thread, zero_process, zero_thread}
use system_operative_edit.Proc.Stack.{setup_kernel_stack}
use system_operative_edit.Sched.{add_thread, get_process_by_pid}

-- What the creation of a process changes: the kernel, the frames and the memory. `kernel_dir` is
-- `g_kernel_dir` of vmm.c.
pub record Machine : Type 0 where
  pub kernel : Kernel
  pub frames : Pmm
  pub memory : ℕ → ℕ
  pub kernel_dir : ℕ

-- The loop that copies the name, at most `r` characters; the end of the list is the terminator.
unfoldable pub copy_name : ℕ → List ℕ → List ℕ
copy_name zero name = []
copy_name (suc r) [] = []
copy_name (suc r) (c ∷ cs) = c ∷ copy_name r cs

unfoldable pub set_process : ℕ → Process → Kernel → Kernel
set_process i p k = record k { processes = update k.processes i p }

unfoldable pub set_thread : ℕ → Thread → Kernel → Kernel
set_thread t x k = record k { threads = update k.threads t x }

-- The second half of `proc_create_kernel`, with the thread `t`: its fields, its stack, and its entry
-- in the queue. The frame's address is not compared with 0.
unfoldable pub start_kernel_thread : (i t entry_point : ℕ) → Machine → Machine
start_kernel_thread i t entry_point s =
    let k = s.kernel in
    let (kstack, frames) = alloc_frame s.frames in
    let (context, memory) = setup_kernel_stack (add32 kstack page_size) entry_point s.memory in
    let k1 =
      set_thread t
        (record (k.threads t) {
          pid = (k.processes i).pid;
          privilege = 0;
          quantum = 5;
          state = ThreadState.ready;
          kernel_stack_base = kstack;
          kernel_stack_top = add32 kstack page_size;
          saved_context = context;
        })
        k in
    let k2 = set_process i (record (k1.processes i) { main_thread = t }) k1 in
    record s { kernel = add_thread t k2; frames = frames; memory = memory }

-- The first half, with the process in slot `i`.
unfoldable pub fill_process : (i : ℕ) → (name : List ℕ) → Machine → Kernel
fill_process i name s =
    set_process i
      (record (s.kernel.processes i) {
        name = copy_name 31 name;
        privilege = 0;
        page_dir = s.kernel_dir;
      })
      s.kernel

-- What follows `alloc_thread`: without a thread the process is given back.
unfoldable pub with_thread : (i entry_point t : ℕ) → Machine → Option ℕ × Machine
with_thread i entry_point t s =
    if t == 0
    then (
      none,
      record s {
        kernel = set_process i (record (s.kernel.processes i) { active = false }) s.kernel;
      },
    )
    else (some i, start_kernel_thread i t entry_point s)

-- What follows `alloc_process`.
unfoldable pub with_process : Option ℕ → List ℕ → ℕ → Machine → Option ℕ × Machine
with_process none name entry_point s = (none, s)
with_process (some i) name entry_point s =
    let (t, k) = alloc_thread (fill_process i name s) in
    with_thread i entry_point t (record s { kernel = k })

-- `proc_create_kernel`; the process is its slot, NULL is `none`.
unfoldable pub create_kernel : List ℕ → ℕ → Machine → Option ℕ × Machine
create_kernel name entry_point s =
    let (p, k) = alloc_process s.kernel in with_process p name entry_point (record s { kernel = k })

-- The kernel's tables after the two calls of `memset` in `proc_init`.
unfoldable pub clear_tables : Kernel → Kernel
clear_tables k = record k { processes = λ i. zero_process; threads = λ t. zero_thread }

-- `proc_init` from the idle process in slot `i` and its thread `t` on; `idle_entry` is the address of
-- `kernel_idle`.
unfoldable pub start_idle : (i t idle_entry : ℕ) → Machine → Machine
start_idle i t idle_entry s =
    let k = s.kernel in
    let (kstack, frames) = alloc_frame s.frames in
    let (context, memory) = setup_kernel_stack (add32 kstack page_size) idle_entry s.memory in
    let k1 =
      set_thread t
        (record (k.threads t) {
          pid = (k.processes i).pid;
          privilege = 0;
          quantum = 1;
          state = ThreadState.ready;
          kernel_stack_base = kstack;
          kernel_stack_top = add32 kstack page_size;
          saved_context = context;
        })
        k in
    let k2 = set_process i (record (k1.processes i) { main_thread = t }) k1 in
    record s { kernel = record k2 { current_thread = t }; frames = frames; memory = memory }

-- `proc_init`; `none` stands for its use of a process that is NULL.
unfoldable pub proc_init : (idle_entry : ℕ) → Machine → Option Machine
proc_init idle_entry s =
    let (p, k) = alloc_process (clear_tables s.kernel) in
    elim p [
      | none ↦ none
      | some i ↦
          let k1 =
            set_process i
              (record (k.processes i) {
                pid = 0;
                name = b'i' ∷ b'd' ∷ b'l' ∷ b'e' ∷ [];
                privilege = 0;
                page_dir = s.kernel_dir;
              })
              (record k { next_pid = 1 }) in
          let (t, k2) = alloc_thread k1 in
          some (start_idle i t idle_entry (record s { kernel = k2 }))
    ]

-- `proc_exit`, before it waits for the scheduler.
unfoldable pub proc_exit : Kernel → Kernel
proc_exit k =
    if k.current_thread == 0
    then k
    else set_thread k.current_thread
        (record (k.threads k.current_thread) { state = ThreadState.dead }) k

-- `proc_current_process`: the slot of the current thread's process; `none` for NULL.
unfoldable pub current_process : Kernel → Option ℕ
current_process k =
    if k.current_thread == 0 then none else get_process_by_pid (k.threads k.current_thread).pid k
