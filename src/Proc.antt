-- ===== src/Proc.antt =====
-- kernel/proc/process.h: threads, processes, and the global state of the kernel that the process
-- manager and the scheduler share. A `thread_t*` is the number of the thread's slot in `g_threads`
-- plus one, and NULL is 0; so `threads` is indexed by pointers and slot `i` is `threads (i + 1)`.
pub mod Table
pub mod Stack
pub mod Create
pub mod User
pub mod System
mod Tests
use system_operative_edit.Base.{ℕ, Bool, true, false, List, update}

-- `thread_state_t`
pub data ThreadState : Type 0 where
  ready running blocked dead : ThreadState

-- `thread_t`. The quantum is assigned 0, 1, 5 and 10 and is only decremented above 0, so it is a
-- natural number; `saved_context` is an address.
pub record Thread : Type 0 where
  pub tid : ℕ
  pub pid : ℕ
  pub state : ThreadState
  pub privilege : ℕ
  pub kernel_stack_top : ℕ
  pub kernel_stack_base : ℕ
  pub user_stack_top : ℕ
  pub saved_context : ℕ
  pub quantum : ℕ
  pub next : ℕ

-- `process_t`
pub record Process : Type 0 where
  pub pid : ℕ
  pub name : List ℕ
  pub privilege : ℕ
  pub page_dir : ℕ
  pub main_thread : ℕ
  pub active : Bool

-- The static variables of process.c, those of scheduler.c (`queue_head` to `switches`), the tick
-- counter of syscall.c, and what the scheduler sets in the processor: CR3 and the TSS's `esp0`.
pub record Kernel : Type 0 where
  pub processes : ℕ → Process
  pub threads : ℕ → Thread
  pub next_pid : ℕ
  pub next_tid : ℕ
  pub current_thread : ℕ
  pub queue_head : ℕ
  pub queue_tail : ℕ
  pub sched_current : ℕ
  pub switches : ℕ
  pub ticks : ℕ
  pub cr3 : ℕ
  pub esp0 : ℕ

abbrev pub max_processes : ℕ
max_processes = 16

abbrev pub max_threads : ℕ
max_threads = 32

abbrev pub is_ready : ThreadState → Bool
is_ready ready = true
is_ready _ = false

abbrev pub is_running : ThreadState → Bool
is_running running = true
is_running _ = false

-- `p->next = q`
abbrev pub set_next : (ℕ → Thread) → ℕ → ℕ → ℕ → Thread
set_next th p q = update th p (record (th p) { next = q })
