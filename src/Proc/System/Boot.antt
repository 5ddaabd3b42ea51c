-- ===== src/Proc/System/Boot.antt =====
-- kernel/main.c, from `proc_init` to `scheduler_init`: the processes that `kernel_main` starts.
pub mod Sound
use system_operative_edit.Base.{
  ℕ, zero, suc, ◌+◌, ◌≤◌, ◌<◌, ◌≡◌, refl, sym, ap, ◌∙◌, ◌≢◌, inl, inr, true, false, Option, none,
  some, List, [], ◌∷◌, ◌++◌, arith, ◌==◌, if◌then◌else◌, Bool-cases, add32, update, length,
  length-append, has, has-append,
}
use mathlib.Core.Path.{subst}
use system_operative_edit.Pmm.{page_size, alloc_frame}
use system_operative_edit.Proc.{ThreadState, Kernel, max_threads, is_running}
use system_operative_edit.Proc.Table.{
  zero_process, zero_thread, alloc_process, alloc_thread, take_process, take_thread, pick_slot,
  find_slot,
}
use system_operative_edit.Proc.Stack.{setup_kernel_stack}
use system_operative_edit.Proc.Create.{
  Machine, create_kernel, proc_init, start_idle, clear_tables, set_process, set_thread,
}
use system_operative_edit.Proc.Create.Created.{InUse}
use system_operative_edit.Proc.User.{create_user}
use system_operative_edit.Proc.System.Changes.{Changed, create_kernel-Changed, create_user-Changed}
use system_operative_edit.Proc.System.{IsSystem}
use system_operative_edit.Proc.System.Joined.{Refused, Joined}
use system_operative_edit.Proc.System.Invariant.{length_of_Distinct}
use system_operative_edit.Sched.{init, queue_insert, scheduler_quantum}
use system_operative_edit.Sched.Ring.{IsRing}
use system_operative_edit.Sched.Next.{IsRing-Chain, Chain-no_null}
use system_operative_edit.Sched.Dispatch.{Ticked}
use system_operative_edit.Sched.Start.{init-Ticked}
use system_operative_edit.Sched.Alive.{alive}

-- `tss_set_esp0(idle->kernel_stack_top)`, if there is a current thread.
abbrev pub set_idle_stack : Kernel → Kernel
set_idle_stack k =
    if k.current_thread == 0
    then k
    else record k { esp0 = (k.threads k.current_thread).kernel_stack_top }

abbrev pub gui_name : List ℕ
gui_name = b'g' ∷ b'u' ∷ b'i' ∷ b'_' ∷ b's' ∷ b'e' ∷ b'r' ∷ b'v' ∷ b'e' ∷ b'r' ∷ []

abbrev pub user_name : List ℕ
user_name = b'g' ∷ b'u' ∷ b'i' ∷ b'_' ∷ b'u' ∷ b's' ∷ b'e' ∷ b'r' ∷ []

-- The two processes and the queue, once `proc_init` has run. What `kernel_main` prints, the display and
-- the mouse are left out.
abbrev pub start_servers : (gui_entry user_entry user_start user_size : ℕ) → Machine → Machine
start_servers gui_entry user_entry user_start user_size s =
    let a = (create_kernel gui_name gui_entry s).1 in
    let b = (create_user user_name user_entry user_start user_size a).1 in
    record b { kernel = init b.kernel }

unfoldable pub start_tasks :
    (idle_entry gui_entry user_entry user_start user_size : ℕ) → Machine → Option Machine
start_tasks idle_entry gui_entry user_entry user_start user_size s = elim (proc_init idle_entry s) [
  | none ↦ none
  | some m ↦ some (
      start_servers gui_entry user_entry user_start user_size
        (record m { kernel = set_idle_stack m.kernel }))
]
