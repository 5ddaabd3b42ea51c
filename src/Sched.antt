-- ===== src/Sched.antt =====
-- kernel/proc/scheduler.c: the circular queue of threads and the round-robin dispatcher. A loop
-- over the queue runs on fuel, and `none` means that the fuel ran out; the theorems about rings of
-- at most 32 threads (`MAX_THREADS`) show that it does not.
pub mod Ring
pub mod Insert
pub mod Erase
pub mod Remove
pub mod Next
pub mod Tick
pub mod Dispatch
pub mod Start
pub mod Turns
pub mod Alive
pub mod Waiting
pub mod Fair
mod Tests
use system_operative_edit.Base.{
  ℕ, zero, suc, ◌-◌, Bool, not, ◌&&◌, ◌||◌, Option, none, some, ltb, ◌==◌, if◌then◌else◌, update,
  add32,
}
use system_operative_edit.Proc.{
  ThreadState, Thread, Process, Kernel, max_processes, max_threads, is_ready, is_running, set_next,
}

abbrev pub scheduler_quantum : ℕ
scheduler_quantum = 10

unfoldable pub queue_insert : ℕ → Kernel → Kernel
queue_insert t k =
    if t == 0
    then k
    else if k.queue_head == 0
    then record k { queue_head = t; queue_tail = t; threads = set_next k.threads t t }
    else record k {
      threads = set_next (set_next k.threads t k.queue_head) k.queue_tail t;
      queue_tail = t;
    }

-- The search for the node before `t`, from `prev` on.
unfoldable pub find_prev : ℕ → (ℕ → Thread) → (head t prev : ℕ) → Option ℕ
find_prev zero th head t prev = none
find_prev (suc f) th head t prev =
    let rest = find_prev f th head t (th prev).next in
    if not ((th prev).next == t) && not ((th prev).next == head) then rest else some prev

-- The unlinking of `t` behind `prev`.
unfoldable pub unlink : (prev t : ℕ) → Kernel → Kernel
unlink prev t k =
    if not ((k.threads prev).next == t)
    then k
    else (let linked = set_next k.threads prev (k.threads t).next in
        record k {
          queue_head = if k.queue_head == t then (linked t).next else k.queue_head;
          queue_tail = if k.queue_tail == t then prev else k.queue_tail;
          threads = set_next linked t 0;
        })

unfoldable pub queue_remove : ℕ → Kernel → Option Kernel
queue_remove t k =
    if (k.queue_head == 0) || (t == 0)
    then some k
    else if ((k.threads k.queue_head).next == k.queue_head) && (k.queue_head == t)
    then some (record k { queue_head = 0; queue_tail = 0; threads = set_next k.threads t 0 })
    else elim (find_prev max_threads k.threads k.queue_head t k.queue_head) [
      | none ↦ none
      | some prev ↦ some (unlink prev t k)
    ]

-- The do-while loop over the queue from `candidate` back to `start`; 0 when no thread is READY.
unfoldable pub ready_loop : ℕ → (ℕ → Thread) → (start candidate : ℕ) → Option ℕ
ready_loop zero th start candidate = none
ready_loop (suc f) th start candidate =
    let rest = ready_loop f th start (th candidate).next in
    if is_ready (th candidate).state
    then some candidate
    else if (th candidate).next == start
    then some 0
    else rest

-- Where the search starts: behind `current`, or at the head.
unfoldable pub ready_start : ℕ → Kernel → ℕ
ready_start current k =
    let start = if current == 0 then k.queue_head else (k.threads current).next in
    if start == 0 then k.queue_head else start

unfoldable pub queue_next_ready : ℕ → Kernel → Option ℕ
queue_next_ready current k =
    if k.queue_head == 0
    then some 0
    else elim (ready_loop max_threads k.threads (ready_start current k) (ready_start current k)) [
      | none ↦ none
      | some zero ↦
          some (if not (current == 0) && is_ready (k.threads current).state then current else 0)
      | some (suc p) ↦ some (suc p)
    ]

-- `scheduler_init`: `proc_current_thread()` is the idle thread.
unfoldable pub init : Kernel → Kernel
init k =
    let idle = k.current_thread in
    if idle == 0
    then k
    else (let q = queue_insert idle k in
        record q {
          threads = update q.threads idle (record (q.threads idle) {
            state = ThreadState.running;
            quantum = scheduler_quantum;
          });
          sched_current = idle;
        })

unfoldable pub add_thread : ℕ → Kernel → Kernel
add_thread t k =
    if t == 0
    then k
    else queue_insert t (record k {
      threads = update k.threads t (record (k.threads t) { state = ThreadState.ready });
    })

unfoldable pub remove_thread : ℕ → Kernel → Option Kernel
remove_thread t k = if t == 0 then some k else queue_remove t k

-- `proc_get_process_by_pid`, from slot `i` on: the slot of the first active process of that pid.
unfoldable pub find_process : ℕ → (ℕ → Process) → (i pid : ℕ) → Option ℕ
find_process zero ps i pid = none
find_process (suc r) ps i pid =
    let rest = find_process r ps (suc i) pid in
    if (ps i).active && ((ps i).pid == pid) then some i else rest

unfoldable pub get_process_by_pid : ℕ → Kernel → Option ℕ
get_process_by_pid pid k = find_process max_processes k.processes 0 pid

-- Steps 1 to 3 of `scheduler_tick` on the current thread.
unfoldable pub charge : ℕ → Thread → Thread
charge ctx t = record t {
  saved_context = ctx;
  state = if is_running t.state then ThreadState.ready else t.state;
  quantum = if ltb 0 t.quantum then t.quantum - 1 else t.quantum;
}

-- The thread that goes on or starts running with a full quantum.
unfoldable pub dispatch : Thread → Thread
dispatch t = record t { quantum = scheduler_quantum; state = ThreadState.running }

-- Step 7: CR3 changes when the process changes and has a page directory.
unfoldable pub switch_space : (old new : ℕ) → Kernel → ℕ
switch_space old new k =
    if (k.threads new).pid == (k.threads old).pid
    then k.cr3
    else elim (get_process_by_pid (k.threads new).pid k) [
      | none ↦ k.cr3
      | some i ↦ if (k.processes i).page_dir == 0 then k.cr3 else (k.processes i).page_dir
    ]

-- Steps 6 to 10: the switch to `next`, and the context to restore.
unfoldable pub switch_to : (ctx next : ℕ) → Kernel → ℕ × Kernel
switch_to ctx next k =
    let k' = record k {
      switches = add32 k.switches 1;
      threads = update k.threads next (dispatch (k.threads next));
      cr3 = switch_space k.sched_current next k;
      esp0 = (k.threads next).kernel_stack_top;
      current_thread = next;
      sched_current = next;
    } in
    (if (k.threads next).saved_context == 0 then ctx else (k.threads next).saved_context, k')

-- Step 5 onwards, given what the search returned.
unfoldable pub choose : (ctx next : ℕ) → Kernel → ℕ × Kernel
choose ctx next k =
    if (next == 0) || (next == k.sched_current)
    then (
      ctx,
      record k {
        threads = update k.threads k.sched_current (dispatch (k.threads k.sched_current));
      },
    )
    else switch_to ctx next k

-- `scheduler_tick`, after `syscall_tick_increment`.
unfoldable pub tick : ℕ → Kernel → Option (ℕ × Kernel)
tick ctx k0 =
    let k = record k0 { ticks = add32 k0.ticks 1 } in
    if k.sched_current == 0
    then some (ctx, k)
    else (let c = k.sched_current in
        let t = charge ctx (k.threads c) in
        let charged = record k { threads = update k.threads c t } in
        if ltb 0 t.quantum && is_ready t.state
        then some (
          ctx,
          record k { threads = update k.threads c (record t { state = ThreadState.running }) },
        )
        else elim (queue_next_ready c charged) [
          | none ↦ none
          | some next ↦ some (choose ctx next charged)
        ])

-- `scheduler_yield`, before its software interrupt runs the timer handler.
unfoldable pub yield_quantum : Kernel → Kernel
yield_quantum k = if k.sched_current == 0 then k else record k {
  threads = update k.threads k.sched_current (record (k.threads k.sched_current) { quantum = 0 });
}

unfoldable pub get_switches : Kernel → ℕ
get_switches k = k.switches
