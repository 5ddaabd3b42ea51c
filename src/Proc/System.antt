-- ===== src/Proc/System.antt =====
-- The processes and the scheduler together: timer interrupts, yields, exits and the creation of
-- processes, in any order.
pub mod Invariant
pub mod Joined
pub mod Changes
pub mod Creation
pub mod Reachable
pub mod Boot
use system_operative_edit.Base.{ℕ, ◌≤◌, ◌≡◌, ◌≢◌, suc, true, some, List, has, length}
use system_operative_edit.Proc.{Kernel, max_threads}
use system_operative_edit.Proc.Create.{Machine, create_kernel, proc_exit}
use system_operative_edit.Proc.Create.Created.{InUse}
use system_operative_edit.Proc.User.{create_user}
use system_operative_edit.Sched.{tick, yield_quantum, scheduler_quantum}
use system_operative_edit.Sched.Dispatch.{SchedOk}
use system_operative_edit.Sched.Alive.{alive}

-- One event. `timer` is the interrupt of the clock, `yields` is `scheduler_yield`, which sends the same
-- interrupt; `exits` is `proc_exit` in a thread other than the idle one, whose function never returns.
pub data Step (idle : ℕ) (s : Machine) : Machine → Type 0 where
  timer :
      (ctx : ℕ) (r : ℕ × Kernel)
      → tick ctx s.kernel ≡ some r
      → Step idle s (record s { kernel = r.1 })
  yields :
      (ctx : ℕ) (r : ℕ × Kernel)
      → tick ctx (yield_quantum s.kernel) ≡ some r
      → Step idle s (record s { kernel = r.1 })
  exits : s.kernel.current_thread ≢ idle → Step idle s (record s { kernel = proc_exit s.kernel })
  creates : (name : List ℕ) (entry_point : ℕ) → Step idle s (create_kernel name entry_point s).1
  spawns :
      (name : List ℕ) (entry_virt code_phys code_size : ℕ)
      → Step idle s (create_user name entry_virt code_phys code_size s).1

pub data Reach (idle : ℕ) (s : Machine) : Machine → Type 0 where
  start : Reach idle s s
  later : {t u : Machine} → Reach idle s t → Step idle t u → Reach idle s u

-- The queue holds the threads `xs`; each has a slot and a tid; the idle thread is one of them and
-- can run; no thread has more than a full quantum.
pub record IsSystem (idle : ℕ) (xs : List ℕ) (s : Machine) : Type 0 where
  pub sound : SchedOk s.kernel xs
  pub used : InUse s.kernel xs
  pub slots : (a : ℕ) → has a xs ≡ true → a ≤ max_threads
  pub counted : s.kernel.next_tid ≡ suc (length xs)
  pub quanta : (a : ℕ) → (s.kernel.threads a).quantum ≤ scheduler_quantum
  pub idle_queued : has idle xs ≡ true
  pub idle_alive : alive (s.kernel.threads idle).state ≡ true
