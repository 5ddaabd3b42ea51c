-- ===== src/Proc/User.antt =====
-- kernel/proc/process.c: `proc_create_user`, without the text that it prints. The words of the memory
-- are those of Vmm.
pub mod Pages
pub mod Spawn
use system_operative_edit.Base.{
  ℕ, zero, suc, ◌+◌, ◌-◌, ◌*◌, ◌/◌, ◌%◌, ◌^◌, ◌≤◌, ◌<◌, min, max, bit_and, bit_or, bit_xor, ◌≡◌,
  refl, sym, ap, ◌∙◌, fun_ext, ◌≢◌, ◌↔◌, ◌⊎◌, inl, inr, Bool, true, false, not, ◌&&◌, ◌||◌, Option,
  none, some, List, [], ◌∷◌, ◌++◌, map, arith, ltb, leb, ◌==◌, if◌then◌else◌, Bool-cases,
  Option-cases, ltb→lt, lt→ltb, leb→le, ==_iff, add32, sub32, update, length, get_elem?, get_or,
  last_from, length-append, last_from-append, has, Distinct, has-append, Distinct-append,
}
use system_operative_edit.Pmm.{Pmm, page_size, alloc_frame}
use system_operative_edit.Vmm.{Vmm, map_page, create_directory}
use system_operative_edit.Proc.{ThreadState, Thread, Process, Kernel}
use system_operative_edit.Proc.Table.{alloc_process, alloc_thread}
use system_operative_edit.Proc.Stack.{setup_user_stack}
use system_operative_edit.Proc.Create.{Machine, copy_name, set_process, set_thread}
use system_operative_edit.Sched.{add_thread}

abbrev pub user_stack_top : ℕ
user_stack_top = 0x7FFF0000

abbrev pub user_stack_size : ℕ
user_stack_size = 0x10000

-- `a & ~(PAGE_SIZE - 1)`
abbrev pub align_page : ℕ → ℕ
align_page a = a - a % page_size

-- The loop that maps `r` pages of the program from page `p` on; 7 is PTE_PRESENT, PTE_USER and
-- PTE_WRITABLE.
unfoldable pub map_code : (r p dir virt phys : ℕ) → Vmm → Vmm
map_code zero p dir virt phys v = v
map_code (suc r) p dir virt phys v =
    map_code r (p + 1) dir virt phys
      (map_page dir ((virt + p * page_size) % 2 ^ 32) ((phys + p * page_size) % 2 ^ 32) 7 v)

-- What one round of the loop for the stack does with its frame, and the rounds behind it; `false`
-- without a frame.
unfoldable pub map_stack : (r p dir stack_virt : ℕ) → Vmm → Bool × Vmm
map_stack zero p dir stack_virt v = (true, v)
map_stack (suc r) p dir stack_virt v =
    let (frame, frames) = alloc_frame v.frames in
    let given = record v { frames = frames } in
    let rest =
      map_stack r (p + 1) dir stack_virt
        (map_page dir ((stack_virt + p * page_size) % 2 ^ 32) frame 7 given) in
    if frame == 0 then (false, given) else rest

-- The part of the machine that vmm.c works on.
abbrev pub vmm_of : Machine → Vmm
vmm_of s = record { frames = s.frames; memory = s.memory; kernel_dir = s.kernel_dir }

abbrev pub set_vmm : Vmm → Machine → Machine
set_vmm v s = record s { frames = v.frames; memory = v.memory; kernel_dir = v.kernel_dir }

-- `proc->active = 0; return NULL`
abbrev pub give_up : (i : ℕ) → Machine → Option ℕ × Machine
give_up i s = (
  none,
  record s { kernel = set_process i (record (s.kernel.processes i) { active = false }) s.kernel },
)

-- From the thread `t` on: its fields and stacks, the page of the thunk, and the scheduler's queue. The
-- frame of the kernel's stack is not compared with 0.
unfoldable pub start_user_thread : (i t dir entry_virt : ℕ) → Machine → Machine
start_user_thread i t dir entry_virt s =
    let k = s.kernel in
    let (kstack, frames) = alloc_frame s.frames in
    let (context, memory) =
      setup_user_stack (add32 kstack page_size) entry_virt (user_stack_top - 4) s.memory in
    let k1 =
      set_thread t
        (record (k.threads t) {
          pid = (k.processes i).pid;
          privilege = 3;
          quantum = 5;
          state = ThreadState.ready;
          user_stack_top = user_stack_top;
          kernel_stack_base = kstack;
          kernel_stack_top = add32 kstack page_size;
          saved_context = context;
        })
        k in
    let k2 = set_process i (record (k1.processes i) { main_thread = t }) k1 in
    let page = align_page 0x00106ccb in
    let v =
      map_page dir page page 5
        (record { frames = frames; memory = memory; kernel_dir = s.kernel_dir }) in
    set_vmm v (record s { kernel = add_thread t k2 })

unfoldable pub with_user_thread : (i dir entry_virt t : ℕ) → Machine → Option ℕ × Machine
with_user_thread i dir entry_virt t s =
    if t == 0 then give_up i s else (some i, start_user_thread i t dir entry_virt s)

-- The pages of the program and of its stack, then the thread.
unfoldable pub with_directory :
    (i dir entry_virt code_phys code_size : ℕ) → Machine → Option ℕ × Machine
with_directory i dir entry_virt code_phys code_size s =
    let code =
      map_code ((code_size + page_size - 1) % 2 ^ 32 / page_size) 0 dir (align_page entry_virt)
        (align_page code_phys) (vmm_of s) in
    let (ok, v) =
      map_stack (user_stack_size / page_size) 0 dir (user_stack_top - user_stack_size) code in
    let s1 = set_vmm v s in
    if ok
    then (let (t, k) = alloc_thread s1.kernel in
        with_user_thread i dir entry_virt t (record s1 { kernel = k }))
    else give_up i s1

-- The process in slot `i`, with its directory.
unfoldable pub with_user_process :
    (i : ℕ) → (name : List ℕ) → (entry_virt code_phys code_size : ℕ) → Machine → Option ℕ × Machine
with_user_process i name entry_virt code_phys code_size s =
    let (dir, v) = create_directory (vmm_of s) in
    let s1 = record (set_vmm v s) {
      kernel =
          set_process i
            (record (s.kernel.processes i) {
              name = copy_name 31 name;
              privilege = 3;
              page_dir = dir;
            })
            s.kernel;
    } in
    if dir == 0 then give_up i s1 else with_directory i dir entry_virt code_phys code_size s1

unfoldable pub create_user :
    (name : List ℕ) → (entry_virt code_phys code_size : ℕ) → Machine → Option ℕ × Machine
create_user name entry_virt code_phys code_size s =
    let (p, k) = alloc_process s.kernel in
    elim p [
      | none ↦ (none, record s { kernel = k })
      | some i ↦ with_user_process i name entry_virt code_phys code_size (record s { kernel = k })
    ]
