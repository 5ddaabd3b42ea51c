-- ===== src/Sched/Tests.antt =====
-- Runs of the scheduler, and its theorems at inputs that meet their hypotheses.
use system_operative_edit.Base.{ℕ, ◌≡◌, refl, true, some, [], ◌∷◌, arith, ◌==◌, if◌then◌else◌}
use system_operative_edit.Proc.{ThreadState, Thread, Process, Kernel}
use system_operative_edit.Sched.{
  ready_loop, ready_start, queue_next_ready, remove_thread, charge, dispatch, choose, switch_to,
  switch_space, tick, get_process_by_pid, find_process,
}
use system_operative_edit.Sched.Ring.{IsRing}
use system_operative_edit.Sched.Remove.{Removed, remove_thread_lem}
use system_operative_edit.Sched.Next.{first_ready}
use system_operative_edit.Sched.Dispatch.{SchedOk, Ticked, Switched, tick-Ticked, tick-Switched}
use system_operative_edit.Sched.Fair.{HasTurn, ready-HasTurn}

-- A thread in some state, with a quantum and a link; its context was saved at 100.
abbrev thread : ThreadState → ℕ → ℕ → Thread
thread s q n = record {
  tid = 7;
  pid = 0;
  state = s;
  privilege = 0;
  kernel_stack_top = 4096;
  kernel_stack_base = 0;
  user_stack_top = 0;
  saved_context = 100;
  quantum = q;
  next = n;
}

abbrev process : Process
process = record { pid = 0; name = []; privilege = 0; page_dir = 0; main_thread = 1; active = true }

-- Thread 2 is RUNNING with its last tick, thread 1 is BLOCKED and thread 3 is READY.
abbrev three : Kernel
three = record {
  processes = λ i. process;
  threads = λ p.
      if p == 1
      then thread ThreadState.blocked 5 2
      else if p == 2
      then thread ThreadState.running 1 3
      else thread ThreadState.ready 5 1;
  next_pid = 1;
  next_tid = 4;
  current_thread = 2;
  queue_head = 1;
  queue_tail = 3;
  sched_current = 2;
  switches = 0;
  ticks = 0;
  cr3 = 0;
  esp0 = 0;
}

three-IsRing : IsRing three (1 ∷ (2 ∷ (3 ∷ [])))
three-IsRing = (
  refl,
  refl,
  (refl, omega arith, (refl, omega arith, (refl, omega arith, refl))),
  (refl, (refl, (refl, tt))),
)

three-SchedOk : SchedOk three (1 ∷ (2 ∷ (3 ∷ [])))
three-SchedOk = record {
  ring = three-IsRing;
  current = refl;
  alone = λ p i ne. ground arith;
  agree = refl;
}

-- The tick switches to thread 3.
three-tick : (p : ℕ) × (q : Kernel) × (tick 50 three ≡ some (p, q)) × (q.sched_current ≡ 3)
unfolding tick charge queue_next_ready ready_loop ready_start choose switch_to dispatch switch_space
    get_process_by_pid find_process
three-tick = (_, _, refl, refl)

tick-Ticked_example : (r : ℕ × Kernel) × (tick 50 three ≡ some r) × Ticked r.1 (1 ∷ (2 ∷ (3 ∷ [])))
tick-Ticked_example = tick-Ticked three 50 (1 ∷ (2 ∷ (3 ∷ []))) three-SchedOk (omega arith)

tick-Switched_example : (r : ℕ × Kernel) × (tick 50 three ≡ some r) × Switched 50 three 3 r
unfolding first_ready charge
tick-Switched_example =
    tick-Switched three 50 (1 ∷ []) (3 ∷ []) 3 (omega arith) three-IsRing refl refl (omega arith)
      (omega arith)

remove_thread_lem_example : Removed three 2 (1 ∷ (2 ∷ (3 ∷ []))) (remove_thread 2 three)
remove_thread_lem_example =
    remove_thread_lem three 2 (1 ∷ (2 ∷ (3 ∷ []))) (omega arith) (omega arith) three-IsRing

-- Before `scheduler_init`: thread 1 is the idle thread and thread 2 is alone in the queue.
abbrev booting : Kernel
booting = record three {
  threads = λ p. thread ThreadState.ready 5 2;
  current_thread = 1;
  queue_head = 2;
  queue_tail = 2;
  sched_current = 0;
}

-- Thread 3 has its turn within twenty ticks.
ready-HasTurn_example : HasTurn 20 (λ i. 50) three (1 ∷ (2 ∷ (3 ∷ []))) 3
ready-HasTurn_example =
    ready-HasTurn (λ i. 50) three (1 ∷ (2 ∷ (3 ∷ []))) 3 three-SchedOk (omega arith) (omega arith)
      refl (omega arith) refl
