-- ===== src/Proc/Table.antt =====
-- kernel/proc/process.c: the allocation of slots in the tables of processes and threads. Slot `i` of
-- the processes is `processes i`; the pointer to slot `i` of the threads is `i + 1`.
use system_operative_edit.Base.{
  ℕ, zero, suc, ◌+◌, ◌-◌, ◌≤◌, ◌<◌, ◌≡◌, refl, ◌≢◌, inl, inr, Bool, true, false, not, ◌&&◌, Option,
  none, some, [], arith, ◌==◌, if◌then◌else◌, Bool-cases, add32, update,
}
use system_operative_edit.Proc.{ThreadState, Thread, Process, Kernel, max_processes, max_threads}

-- What `memset` leaves: `THREAD_READY` is 0.
abbrev pub zero_process : Process
zero_process = record {
  pid = 0;
  name = [];
  privilege = 0;
  page_dir = 0;
  main_thread = 0;
  active = false;
}

abbrev pub zero_thread : Thread
zero_thread = record {
  tid = 0;
  pid = 0;
  state = ThreadState.ready;
  privilege = 0;
  kernel_stack_top = 0;
  kernel_stack_base = 0;
  user_stack_top = 0;
  saved_context = 0;
  quantum = 0;
  next = 0;
}

abbrev pub is_dead : ThreadState → Bool
is_dead ThreadState.dead = true
is_dead _ = false

-- The first of the slots `i`, ..., `i + r - 1` that passes the test.
unfoldable pub find_slot : ℕ → (ℕ → Bool) → ℕ → Option ℕ
find_slot zero test i = none
find_slot (suc r) test i = let rest = find_slot r test (i + 1) in if test i then some i else rest

-- What `alloc_process` does with the slot that its loop found; `none` is NULL.
unfoldable pub take_process : Option ℕ → Kernel → Option ℕ × Kernel
take_process none k = (none, k)
take_process (some i) k = (
  some i,
  record k {
    processes = update k.processes i (record zero_process { active = true; pid = k.next_pid });
    next_pid = add32 k.next_pid 1;
  },
)

-- The test of `alloc_process`.
abbrev pub inactive : Kernel → ℕ → Bool
inactive k i = not (k.processes i).active

unfoldable pub alloc_process : Kernel → Option ℕ × Kernel
alloc_process k = take_process (find_slot max_processes (inactive k) 0) k

-- What both loops of `alloc_thread` do with the slot that they find.
unfoldable pub take_thread : ℕ → Kernel → Kernel
take_thread i k = record k {
  threads = update k.threads (suc i) (record zero_thread { tid = k.next_tid });
  next_tid = add32 k.next_tid 1;
}

-- The thread in the slot that the first loop found, or else the second; 0 for NULL.
unfoldable pub pick_slot : (dead_slot unused_slot : Option ℕ) → Kernel → ℕ × Kernel
pick_slot (some i) u k = (suc i, take_thread i k)
pick_slot none (some i) k = (suc i, take_thread i k)
pick_slot none none k = (0, k)

-- The two tests of `alloc_thread` on slot `i`.
abbrev pub dead_unused : Kernel → ℕ → Bool
dead_unused k i = is_dead (k.threads (suc i)).state && ((k.threads (suc i)).tid == 0)

abbrev pub unused : Kernel → ℕ → Bool
unused k i = (k.threads (suc i)).tid == 0

unfoldable pub alloc_thread : Kernel → ℕ × Kernel
alloc_thread k =
    pick_slot (find_slot max_threads (dead_unused k) 0) (find_slot max_threads (unused k) 0) k

-- What `find_slot` returns.
abbrev pub Found : (r i : ℕ) → (ℕ → Bool) → Option ℕ → Type 0
Found r i test none = (j : ℕ) → i ≤ j → j < i + r → test j ≡ false
Found r i test (some j) = (i ≤ j) × (j < i + r) × (test j ≡ true)

Found-step :
    (r i : ℕ) (test : ℕ → Bool) (o : Option ℕ)
    → test i ≡ false
    → Found r (i + 1) test o
    → Found (suc r) i test o
Found-step r i test none out f = λ j low high. elim (Bool-cases (j == i)) [
  | inl here ↦ ground arith
  | inr there ↦ f j (ground arith) (ground arith)
]
Found-step r i test (some j) out f = (omega (arith, f.0), omega (arith, f.1), f.2)

pub find_slot-Found : (r : ℕ) (test : ℕ → Bool) (i : ℕ) → Found r i test (find_slot r test i)
unfolding find_slot
find_slot-Found zero test i = λ j low high. ground arith
find_slot-Found (suc r) test i = elim (Bool-cases (test i)) [
  | inl here ↦ rw here (omega arith, omega arith, here)
  | inr later ↦ rw later (Found-step r i test _ later (find_slot-Found r test (i + 1)))
]

-- A kernel in which a slot was taken for a new thread at `t`.
pub record NewThread (k : Kernel) (t : ℕ) (q : Kernel) : Type 0 where
  pub slot : (0 < t) × (t ≤ max_threads)
  pub unused : (k.threads t).tid ≡ 0
  pub thread : q.threads t ≡ record zero_thread { tid = k.next_tid }
  pub others : (a : ℕ) → a ≢ t → q.threads a ≡ k.threads a
  pub next_tid : q.next_tid ≡ add32 k.next_tid 1
  pub processes : q.processes ≡ k.processes
  pub queue : (q.queue_head ≡ k.queue_head) × (q.queue_tail ≡ k.queue_tail)
  pub currents : (q.sched_current ≡ k.sched_current) × (q.current_thread ≡ k.current_thread)

take_thread-NewThread :
    (i : ℕ) (k : Kernel)
    → i < max_threads
    → (k.threads (suc i)).tid ≡ 0
    → NewThread k (suc i) (take_thread i k)
unfolding take_thread
take_thread-NewThread i k lt free = record {
  slot = (omega arith, omega (arith, lt));
  unused = free;
  thread = ground arith;
  others = λ a ne. ground arith;
  next_tid = refl;
  processes = refl;
  queue = (refl, refl);
  currents = (refl, refl);
}

-- The outcome of `alloc_thread`.
abbrev pub ThreadResult : Kernel → ℕ → Kernel → Type 0
ThreadResult k zero q = (q ≡ k) × ((t : ℕ) → 0 < t → t ≤ max_threads → (k.threads t).tid ≢ 0)
ThreadResult k (suc i) q = NewThread k (suc i) q

pick_slot_lem :
    (d u : Option ℕ) (k : Kernel)
    → Found max_threads 0 (dead_unused k) d
    → Found max_threads 0 (unused k) u
    → ThreadResult k (pick_slot d u k).0 (pick_slot d u k).1
unfolding pick_slot
pick_slot_lem (some i) u k d h =
    take_thread-NewThread i k (omega (arith, d.1)) (ground (arith, d.2))
pick_slot_lem none (some i) k d h =
    take_thread-NewThread i k (omega (arith, h.1)) (ground (arith, h.2))
pick_slot_lem none none k d h =
    (refl, λ t low high. ground (arith, h (t - 1) (omega arith) (omega (arith, low, high))))

-- `alloc_thread` takes a slot whose tid is 0, clears it and gives it the next tid, and leaves every
-- other slot alone, so a thread that was ever given a tid keeps its slot; it returns NULL, and
-- changes nothing, only if no slot has tid 0.
pub alloc_thread_lem : (k : Kernel) → ThreadResult k (alloc_thread k).0 (alloc_thread k).1
unfolding alloc_thread
alloc_thread_lem k =
    pick_slot_lem (find_slot max_threads (dead_unused k) 0) (find_slot max_threads (unused k) 0) k
      (find_slot-Found max_threads (dead_unused k) 0) (find_slot-Found max_threads (unused k) 0)
