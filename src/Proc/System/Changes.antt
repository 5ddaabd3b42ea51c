-- ===== src/Proc/System/Changes.antt =====
-- `proc_create_kernel` and `proc_create_user` alike: a thread joins the queue, or none is made.
use system_operative_edit.Base.{ℕ, ap, ◌⊎◌, inl, inr, Option, none, some, List, arith}
use system_operative_edit.Proc.{Kernel}
use system_operative_edit.Proc.Create.{Machine, create_kernel}
use system_operative_edit.Proc.Create.Created.{Outcome, InUse, create_kernel_lem}
use system_operative_edit.Proc.User.{create_user}
use system_operative_edit.Proc.User.Spawn.{Spawned, create_user-Spawned}
use system_operative_edit.Proc.System.Joined.{Refused, Joined}
use system_operative_edit.Sched.Ring.{IsRing}

abbrev pub Changed : Kernel → List ℕ → Kernel → Type 0
Changed k xs k' = Refused k xs k' ⊎ ((t : ℕ) × Joined k xs t k')

Outcome-Changed :
    (s s' : Machine) (name : List ℕ) (entry : ℕ) (xs : List ℕ) (o : Option ℕ)
    → Outcome s name entry xs o s'
    → Changed s.kernel xs s'.kernel
Outcome-Changed s s' name entry xs none
      (full, threads, frames, memory, active, ring, next, sched, current) =
    inl (record {
      threads = threads;
      ring = ring;
      next_tid = next;
      sched_current = sched;
      current_thread = current;
    })
Outcome-Changed s s' name entry xs (some i) (t, c, ring) = inr (
  t,
  record {
    slot = c.thread_slot;
    state = ap (λ x. x.state) c.thread;
    tid = ap (λ x. x.tid) c.thread;
    quantum = omega (arith, ap (λ x. x.quantum) c.thread);
    others = c.other_threads;
    ring = ring;
    next_tid = c.next_tid;
    sched_current = c.currents.0;
    current_thread = c.currents.1;
  },
)

Spawned-Changed :
    (k : Kernel) (xs name : List ℕ) (o : Option ℕ) (k' : Kernel)
    → Spawned k xs name o k'
    → Changed k xs k'
Spawned-Changed k xs name none k' h = inl h.0
Spawned-Changed k xs name (some i) k' (lt, free, (t, j, made), others) = inr (t, j)

module _ (s : Machine) (xs : List ℕ) (r : IsRing s.kernel xs) (used : InUse s.kernel xs)
    (name : List ℕ) where
  pub create_kernel-Changed :
      (entry : ℕ) → Changed s.kernel xs (create_kernel name entry s).1.kernel
  create_kernel-Changed entry =
      Outcome-Changed s (create_kernel name entry s).1 name entry xs (create_kernel name entry s).0
        (create_kernel_lem name entry s xs r used)

  pub create_user-Changed :
      (entry code_phys code_size : ℕ)
      → Changed s.kernel xs (create_user name entry code_phys code_size s).1.kernel
  create_user-Changed entry code_phys code_size =
      Spawned-Changed s.kernel xs name (create_user name entry code_phys code_size s).0
        (create_user name entry code_phys code_size s).1.kernel
        (create_user-Spawned name entry code_phys code_size s xs r used)
