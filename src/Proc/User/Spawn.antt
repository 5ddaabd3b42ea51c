-- ===== src/Proc/User/Spawn.antt =====
-- A whole new user process: what `proc_create_user` does to the processes, the threads and the queue.
use system_operative_edit.Base.{
  ℕ, zero, suc, ◌+◌, ◌-◌, ◌/◌, ◌%◌, ◌^◌, ◌<◌, ◌≡◌, refl, sym, ap, ◌∙◌, ◌≢◌, inl, inr, true, false,
  Option, none, some, List, arith, ◌==◌, Bool-cases,
}
use mathlib.Core.Path.{subst}
use system_operative_edit.Pmm.{page_size}
use system_operative_edit.Vmm.{create_directory}
use system_operative_edit.Proc.{Process, Kernel, max_processes}
use system_operative_edit.Proc.Table.{
  take_process, inactive, alloc_process, alloc_thread, ThreadResult, NewThread, alloc_thread_lem,
  find_slot-Found, Found,
}
use system_operative_edit.Proc.Create.{Machine, copy_name, set_process, set_thread}
use system_operative_edit.Proc.Create.Created.{InUse}
use system_operative_edit.Proc.User.{
  map_code, map_stack, vmm_of, set_vmm, give_up, align_page, user_stack_top, user_stack_size,
  start_user_thread, with_user_thread, with_directory, with_user_process, create_user,
}
use system_operative_edit.Proc.System.Joined.{Refused, Joined, add_thread-Joined}
use system_operative_edit.Sched.Ring.{IsRing}
use system_operative_edit.Sched.Insert.{processes-add_thread}

-- The new process: the next pid, at most 31 characters of the name, ring 3, the thread `t`, and a page
-- directory.
pub record UserProcess (k : Kernel) (called : List ℕ) (t : ℕ) (p : Process) : Type 0 where
  pub pid : p.pid ≡ k.next_pid
  pub name : p.name ≡ copy_name 31 called
  pub privilege : p.privilege ≡ 3
  pub main_thread : p.main_thread ≡ t
  pub active : p.active ≡ true
  pub directory : p.page_dir ≢ 0

abbrev pub Spawned : Kernel → List ℕ → (name : List ℕ) → Option ℕ → Kernel → Type 0
Spawned k xs name none k' =
    Refused k xs k' × ((j : ℕ) → (k'.processes j).active ≡ (k.processes j).active)
Spawned k xs name (some i) k' =
    (i < max_processes)
    × ((k.processes i).active ≡ false)
    × ((t : ℕ) × Joined k xs t k' × UserProcess k name t (k'.processes i))
    × ((j : ℕ) → j ≢ i → k'.processes j ≡ k.processes j)

-- The kernel with the process in slot `i`.
abbrev named : Kernel → (name : List ℕ) → (i dir : ℕ) → Kernel
named k name i dir =
    set_process i
      (record ((take_process (some i) k).1.processes i) {
        name = copy_name 31 name;
        privilege = 3;
        page_dir = dir;
      })
      (take_process (some i) k).1

named-Joined :
    (k : Kernel) (name : List ℕ) (i dir : ℕ) (xs : List ℕ) (t : ℕ) (k' : Kernel)
    → Joined (named k name i dir) xs t k'
    → Joined k xs t k'
unfolding set_process take_process
named-Joined k name i dir xs t k' j = record {
  slot = j.slot;
  state = j.state;
  tid = j.tid;
  quantum = j.quantum;
  others = j.others;
  ring = j.ring;
  next_tid = j.next_tid;
  sched_current = j.sched_current;
  current_thread = j.current_thread;
}

module _ (k : Kernel) (xs : List ℕ) (r : IsRing k xs) (used : InUse k xs) (name : List ℕ) (i : ℕ)
    (lt : i < max_processes) (free : (k.processes i).active ≡ false) where
  -- Without frames or threads the process is given back.
  give_up-Spawned :
      (dir : ℕ) (s : Machine)
      → s.kernel ≡ named k name i dir
      → Spawned k xs name (give_up i s).0 (give_up i s).1.kernel
  unfolding set_process take_process
  give_up-Spawned dir s e = (
    record {
      threads = ap (λ q. q.threads) e;
      ring = subst (λ q. IsRing q xs) (sym e) r;
      next_tid = ap (λ q. q.next_tid) e;
      sched_current = ap (λ q. q.sched_current) e;
      current_thread = ap (λ q. q.current_thread) e;
    },
    λ j. ground (arith, ap (λ q. (q.processes j).active) e),
  )

  module _ (dir : ℕ) (nz : dir ≢ 0) where
    started :
        (t entry : ℕ) (s : Machine)
        → NewThread (named k name i dir) t s.kernel
        → Spawned k xs name (some i) (start_user_thread i t dir entry s).kernel
    unfolding start_user_thread set_thread set_process take_process
    started t entry s n =
        let ps = ap (λ p. p i) n.processes in
        (
          lt,
          free,
          (
            t,
            named-Joined k name i dir xs t _ (
                add_thread-Joined (named k name i dir) xs t s.kernel _ _ r used n refl refl
                  (omega arith)),
            record {
              pid =
                  ap (λ p. (p i).pid) (processes-add_thread _ t)
                  ∙ ground (arith, ap (λ p. p.pid) ps);
              name =
                  ap (λ p. (p i).name) (processes-add_thread _ t)
                  ∙ ground (arith, ap (λ p. p.name) ps);
              privilege =
                  ap (λ p. (p i).privilege) (processes-add_thread _ t)
                  ∙ ground (arith, ap (λ p. p.privilege) ps);
              main_thread = ap (λ p. (p i).main_thread) (processes-add_thread _ t) ∙ ground arith;
              active =
                  ap (λ p. (p i).active) (processes-add_thread _ t)
                  ∙ ground (arith, ap (λ p. p.active) ps);
              directory = λ e. nz (
                  sym (
                    ap (λ p. (p i).page_dir) (processes-add_thread _ t)
                    ∙ ground (arith, ap (λ p. p.page_dir) ps))
                  ∙ e);
            },
          ),
          λ j ne.
              ap (λ p. p j) (processes-add_thread _ t) ∙ ground (arith, ap (λ p. p j) n.processes),
        )

    threads-Spawned :
        (t entry : ℕ) (s : Machine)
        → ThreadResult (named k name i dir) t s.kernel
        → Spawned k xs name
            (with_user_thread i dir entry t s).0
            (with_user_thread i dir entry t s).1.kernel
    unfolding with_user_thread
    threads-Spawned zero entry s h = give_up-Spawned dir s h.0
    threads-Spawned (suc t) entry s h =
        let e : (suc t == 0) ≡ false = ground arith in rw e (started (suc t) entry s h)

    pages-Spawned :
        (entry code_phys code_size : ℕ) (s : Machine)
        → s.kernel ≡ named k name i dir
        → Spawned k xs name
            (with_directory i dir entry code_phys code_size s).0
            (with_directory i dir entry code_phys code_size s).1.kernel
    unfolding with_directory
    pages-Spawned entry code_phys code_size s e =
        let code =
          map_code ((code_size + page_size - 1) % 2 ^ 32 / page_size) 0 dir (align_page entry)
            (align_page code_phys) (vmm_of s) in
        let stack =
          map_stack (user_stack_size / page_size) 0 dir (user_stack_top - user_stack_size) code in
        let s1 = set_vmm stack.1 s in
        elim (Bool-cases stack.0) [
          | inl ok ↦ rw ok (
              threads-Spawned (alloc_thread s1.kernel).0 entry
                (record s1 { kernel = (alloc_thread s1.kernel).1 })
                (subst (λ q. ThreadResult q (alloc_thread s.kernel).0 (alloc_thread s.kernel).1) e
                  (alloc_thread_lem s.kernel)))
          | inr failed ↦ rw failed (give_up-Spawned dir s1 e)
        ]

  slot-Spawned :
      (entry code_phys code_size : ℕ) (s : Machine)
      → s.kernel ≡ (take_process (some i) k).1
      → Spawned k xs name
          (with_user_process i name entry code_phys code_size s).0
          (with_user_process i name entry code_phys code_size s).1.kernel
  unfolding with_user_process set_process
  slot-Spawned entry code_phys code_size s e =
      let o = create_directory (vmm_of s) in
      let s1 = record (set_vmm o.1 s) {
        kernel =
            set_process i
              (record (s.kernel.processes i) {
                name = copy_name 31 name;
                privilege = 3;
                page_dir = o.0;
              })
              s.kernel;
      } in
      let e1 : s1.kernel ≡ named k name i o.0 =
        ap
          (λ q.
            set_process i
              (record (q.processes i) { name = copy_name 31 name; privilege = 3; page_dir = o.0 })
              q)
          e in
      elim (Bool-cases (o.0 == 0)) [
        | inl null ↦ rw null (give_up-Spawned o.0 s1 e1)
        | inr there ↦
            rw there (pages-Spawned o.0 (ground (arith, there)) entry code_phys code_size s1 e1)
      ]

Found-Spawned :
    (name : List ℕ) (entry code_phys code_size : ℕ) (s : Machine) (xs : List ℕ)
    → IsRing s.kernel xs
    → InUse s.kernel xs
    → (o : Option ℕ) → Found max_processes 0 (inactive s.kernel) o
    → let (p, k) = take_process o s.kernel in
      let q : Option ℕ × Machine = elim p [
        | none ↦ (none, record s { kernel = k })
        | some i ↦ with_user_process i name entry code_phys code_size (record s { kernel = k })
      ] in
      Spawned s.kernel xs name q.0 q.1.kernel
unfolding take_process
Found-Spawned name entry code_phys code_size s xs r used none f = (
  record { threads = refl; ring = r; next_tid = refl; sched_current = refl; current_thread = refl },
  λ j. refl,
)
Found-Spawned name entry code_phys code_size s xs r used (some i) f =
    slot-Spawned s.kernel xs r used name i f.1 (ground (arith, f.2)) entry code_phys code_size
      (record s { kernel = (take_process (some i) s.kernel).1 }) refl

-- `proc_create_user` with a queue of threads in use. If it returns a process, that lies in a slot that
-- was not active, with the next pid, at most 31 characters of the name, ring 3, a page directory and a
-- new thread: a slot with tid 0, with the next tid, READY and last in the queue; the other processes
-- and threads and the current thread do not change, but for the links of the queue. If it returns
-- NULL, the same processes are active as before, and the threads, the queue and the current thread
-- stay as they were.
pub create_user-Spawned :
    (name : List ℕ) (entry code_phys code_size : ℕ) (s : Machine) (xs : List ℕ)
    → IsRing s.kernel xs
    → InUse s.kernel xs
    → let (o, s') = create_user name entry code_phys code_size s in
      Spawned s.kernel xs name o s'.kernel
unfolding create_user alloc_process
create_user-Spawned name entry code_phys code_size s xs r used =
    Found-Spawned name entry code_phys code_size s xs r used _
      (find_slot-Found max_processes (inactive s.kernel) 0)
