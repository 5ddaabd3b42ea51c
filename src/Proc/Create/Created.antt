-- ===== src/Proc/Create/Created.antt =====
-- `proc_create_kernel` on success and on failure.
use system_operative_edit.Base.{
  ℕ, zero, suc, ◌≤◌, ◌<◌, ◌≡◌, refl, sym, ap, ◌∙◌, fun_ext, ◌≢◌, ◌⊎◌, inl, inr, true, false, Option,
  none, some, List, [], ◌∷◌, ◌++◌, arith, ◌==◌, Bool-cases, add32, update, has,
}
use mathlib.Core.Path.{subst}
use system_operative_edit.Pmm.{page_size, alloc_frame}
use system_operative_edit.Proc.{ThreadState, Kernel, max_processes, max_threads}
use system_operative_edit.Proc.Table.{
  take_process, inactive, alloc_process, ThreadResult, NewThread, alloc_thread_lem, find_slot-Found,
  Found,
}
use system_operative_edit.Proc.Stack.{setup_kernel_stack}
use system_operative_edit.Proc.Create.{
  Machine, copy_name, set_process, set_thread, start_kernel_thread, fill_process, with_thread,
  with_process, create_kernel,
}
use system_operative_edit.Sched.Tick.{IsRing-update}
use system_operative_edit.Sched.Ring.{IsRing, Ring, next_of, Chain-frame}
use system_operative_edit.Sched.Insert.{
  add_thread_lem, unlinked, unlinked-add_thread, unlinked-add_thread_other, add_thread-rest,
  processes-add_thread,
}

Ring-frame :
    (nx : ℕ → ℕ) (head tail a v : ℕ) (xs : List ℕ)
    → has a xs ≡ false
    → Ring nx head tail xs
    → Ring (update nx a v) head tail xs
Ring-frame nx head tail a v [] out r = r
Ring-frame nx head tail a v (x ∷ xs) out r =
    (r.0, r.1, Chain-frame nx x (x ∷ xs) x a v out r.2, r.3)

-- The threads of the queue are in use.
abbrev pub InUse : Kernel → List ℕ → Type 0
InUse k xs = (a : ℕ) → has a xs ≡ true → (k.threads a).tid ≢ 0

-- A thread that is not in use is not in the queue.
pub has_of_InUse :
    (k : Kernel) (xs : List ℕ) (t : ℕ) → InUse k xs → (k.threads t).tid ≡ 0 → has t xs ≡ false
has_of_InUse k xs t used free = elim (Bool-cases (has t xs)) [
  | inl inside ↦ absurd (used t inside free)
  | inr outside ↦ outside
]

-- A new thread outside the queue leaves the queue as it is.
pub IsRing-NewThread :
    (k : Kernel) (xs : List ℕ) (t : ℕ) (q : Kernel)
    → has t xs ≡ false
    → NewThread k t q
    → IsRing k xs
    → IsRing q xs
IsRing-NewThread k xs t q out n r =
    let links : next_of q.threads ≡ update (next_of k.threads) t 0 = fun_ext λ a.
      elim (Bool-cases (a == t)) [
        | inl here ↦ ground (arith, ap (λ x. x.next) n.thread)
        | inr there ↦ ground (arith, ap (λ x. x.next) (n.others a (ground arith)))
      ] in
    rw (links, n.queue.0, n.queue.1)
      (Ring-frame (next_of k.threads) k.queue_head k.queue_tail t 0 xs out r)

-- The process in slot `i` and its thread `t` after a creation from `s`.
pub record Created (s : Machine) (name : List ℕ) (entry : ℕ) (i t : ℕ) (s' : Machine) : Type 0 where
  pub slot : (i < max_processes) × ((s.kernel.processes i).active ≡ false)
  pub thread_slot : (0 < t) × (t ≤ max_threads) × ((s.kernel.threads t).tid ≡ 0)
  pub process : s'.kernel.processes i ≡ record {
    pid = s.kernel.next_pid;
    name = copy_name 31 name;
    privilege = 0;
    page_dir = s.kernel_dir;
    main_thread = t;
    active = true;
  }
  pub others : (j : ℕ) → j ≢ i → s'.kernel.processes j ≡ s.kernel.processes j
  pub thread :
      let kstack = (alloc_frame s.frames).0 in
      unlinked (s'.kernel.threads t) ≡ record {
        tid = s.kernel.next_tid;
        pid = s.kernel.next_pid;
        state = ThreadState.ready;
        privilege = 0;
        kernel_stack_top = add32 kstack page_size;
        kernel_stack_base = kstack;
        user_stack_top = 0;
        saved_context = (setup_kernel_stack (add32 kstack page_size) entry s.memory).0;
        quantum = 5;
        next = 0;
      }
  pub memory :
      s'.memory ≡ (setup_kernel_stack (add32 (alloc_frame s.frames).0 page_size) entry s.memory).1
  pub frames : s'.frames ≡ (alloc_frame s.frames).1
  pub other_threads :
      (a : ℕ) → a ≢ t → unlinked (s'.kernel.threads a) ≡ unlinked (s.kernel.threads a)
  pub next_tid : s'.kernel.next_tid ≡ add32 s.kernel.next_tid 1
  pub currents :
      (s'.kernel.sched_current ≡ s.kernel.sched_current)
      × (s'.kernel.current_thread ≡ s.kernel.current_thread)

-- The outcome of a creation with the queue `xs` before it.
abbrev pub Outcome : Machine → List ℕ → ℕ → List ℕ → Option ℕ → Machine → Type 0
Outcome s name entry xs none s' =
    (((j : ℕ) → j < max_processes → (s.kernel.processes j).active ≡ true)
      ⊎ ((t : ℕ) → 0 < t → t ≤ max_threads → (s.kernel.threads t).tid ≢ 0))
    × (s'.kernel.threads ≡ s.kernel.threads)
    × (s'.frames ≡ s.frames)
    × (s'.memory ≡ s.memory)
    × ((j : ℕ) → (s'.kernel.processes j).active ≡ (s.kernel.processes j).active)
    × (IsRing s'.kernel xs)
    × (s'.kernel.next_tid ≡ s.kernel.next_tid)
    × (s'.kernel.sched_current ≡ s.kernel.sched_current)
    × (s'.kernel.current_thread ≡ s.kernel.current_thread)
Outcome s name entry xs (some i) s' =
    (t : ℕ) × (Created s name entry i t s') × IsRing s'.kernel (xs ++ (t ∷ []))

-- The kernel when `alloc_thread` is called.
abbrev named : List ℕ → Machine → ℕ → Kernel
named name s i = fill_process i name (record s { kernel = (take_process (some i) s.kernel).1 })

module _ (name : List ℕ) (entry : ℕ) (s : Machine) (xs : List ℕ) where
  start-IsRing :
      (i t : ℕ) (q : Machine)
      → t ≢ 0
      → has t xs ≡ false
      → IsRing q.kernel xs
      → (q.kernel.threads t).next ≡ 0
      → IsRing (start_kernel_thread i t entry q).kernel (xs ++ (t ∷ []))
  unfolding start_kernel_thread set_thread set_process
  start-IsRing i t q nz out r e =
      (add_thread_lem _ t xs nz out (IsRing-update q.kernel xs t _ refl r)).0

  started :
      (i t : ℕ) (q : Kernel)
      → i < max_processes
      → (s.kernel.processes i).active ≡ false
      → NewThread (named name s i) t q
      → Created s name entry i t (start_kernel_thread i t entry (record s { kernel = q }))
  unfolding start_kernel_thread set_thread set_process fill_process take_process
  started i t q lt free n = record {
    slot = (lt, free);
    thread_slot = (n.slot.0, n.slot.1, n.unused);
    process =
        ap (λ ps. ps i) (processes-add_thread _ t) ∙ ground (arith, ap (λ ps. ps i) n.processes);
    others = λ j ne.
        ap (λ ps. ps j) (processes-add_thread _ t) ∙ ground (arith, ap (λ ps. ps j) n.processes);
    thread =
        unlinked-add_thread _ t (omega (arith, n.slot.0))
        ∙ ground (arith, n.thread, ap (λ ps. ps i) n.processes);
    memory = refl;
    frames = refl;
    other_threads =
        λ a ne. unlinked-add_thread_other _ t a ne ∙ ground (arith, ap unlinked (n.others a ne));
    next_tid = (add_thread-rest _ t).2 ∙ n.next_tid;
    currents = ((add_thread-rest _ t).0 ∙ n.currents.0, (add_thread-rest _ t).1 ∙ n.currents.1);
  }

  thread_lem :
      (i t : ℕ) (q : Kernel)
      → i < max_processes
      → (s.kernel.processes i).active ≡ false
      → IsRing s.kernel xs
      → InUse s.kernel xs
      → ThreadResult (named name s i) t q
      → let r = with_thread i entry t (record s { kernel = q }) in Outcome s name entry xs r.0 r.1
  unfolding with_thread set_process fill_process take_process
  thread_lem i zero q lt free r used h = (
    inr h.1,
    ap (λ k. k.threads) h.0,
    refl,
    refl,
    λ j. ground (arith, ap (λ k. (k.processes j).active) h.0, ap (λ k. (k.processes i).active) h.0),
    subst (λ k. IsRing k xs) (sym h.0) r,
    ap (λ k. k.next_tid) h.0,
    ap (λ k. k.sched_current) h.0,
    ap (λ k. k.current_thread) h.0,
  )
  thread_lem i (suc u) q lt free r used h =
      let e : (suc u == 0) ≡ false = ground arith in
      let out = has_of_InUse s.kernel xs (suc u) used h.unused in
      rw e (
        suc u,
        started i (suc u) q lt free h,
        start-IsRing i (suc u) (record s { kernel = q }) (omega arith) out
            (IsRing-NewThread (named name s i) xs (suc u) q out h r) (ap (λ x. x.next) h.thread),
      )

  process_lem :
      (o : Option ℕ)
      → Found max_processes 0 (inactive s.kernel) o
      → IsRing s.kernel xs
      → InUse s.kernel xs
      → let (p, k) = take_process o s.kernel in
        let r = with_process p name entry (record s { kernel = k }) in
        Outcome s name entry xs r.0 r.1
  unfolding take_process with_process
  process_lem none f r used = (
    inl (λ j lt. ground (arith, f j (omega arith) (omega (arith, lt)))),
    refl,
    refl,
    refl,
    λ j. refl,
    r,
    refl,
    refl,
    refl,
  )
  process_lem (some i) f r used =
      thread_lem i _ _ f.1 ground (arith, f.2) r used (alloc_thread_lem (named name s i))

-- `proc_create_kernel` with a queue of threads in use returns a process or NULL. A process lies in a
-- slot that was not active and gets the next pid, the first 31 characters of the name, and a new
-- thread: a slot with tid 0, READY, with quantum 5, with the initial frame on a stack in the next
-- frame that `pmm_alloc_frame` gives, and last in the queue; the other processes and threads and the
-- current thread do not change, but for the links of the queue. NULL comes only if every process is
-- active or every thread slot has a tid; then no thread, frame, word or process becomes used, and
-- the queue and the current thread stay as they were.
pub create_kernel_lem :
    (name : List ℕ) (entry : ℕ) (s : Machine) (xs : List ℕ)
    → IsRing s.kernel xs
    → InUse s.kernel xs
    → Outcome s name entry xs (create_kernel name entry s).0 (create_kernel name entry s).1
unfolding create_kernel alloc_process
create_kernel_lem name entry s xs r used =
    process_lem name entry s xs _ (find_slot-Found max_processes (inactive s.kernel) 0) r used
