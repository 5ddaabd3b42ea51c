-- ===== src/Proc/System/Boot/Sound.antt =====
-- `kernel_main` establishes the invariant of the system.
use system_operative_edit.Base.{
  ℕ, suc, ◌≤◌, ◌≡◌, refl, sym, ap, ◌∙◌, ◌≢◌, inl, inr, true, false, some, List, [], ◌∷◌, ◌++◌,
  arith, ◌==◌, Bool-cases, length, length-append, has, has-append,
}
use mathlib.Core.Path.{subst}
use system_operative_edit.Proc.{Kernel, max_threads, is_running}
use system_operative_edit.Proc.Table.{
  alloc_process, alloc_thread, take_process, take_thread, pick_slot, find_slot,
}
use system_operative_edit.Proc.Create.{
  Machine, create_kernel, proc_init, start_idle, clear_tables, set_process, set_thread,
}
use system_operative_edit.Proc.Create.Created.{InUse}
use system_operative_edit.Proc.User.{create_user}
use system_operative_edit.Proc.System.Changes.{Changed, create_kernel-Changed, create_user-Changed}
use system_operative_edit.Proc.System.{IsSystem}
use system_operative_edit.Proc.System.Joined.{Refused, Joined}
use system_operative_edit.Proc.System.Invariant.{length_of_Distinct}
use system_operative_edit.Sched.{init, queue_insert, scheduler_quantum}
use system_operative_edit.Sched.Ring.{IsRing}
use system_operative_edit.Sched.Next.{IsRing-Chain, Chain-no_null}
use system_operative_edit.Sched.Dispatch.{Ticked}
use system_operative_edit.Sched.Start.{init-Ticked}
use system_operative_edit.Sched.Alive.{alive}
use system_operative_edit.Proc.System.Boot.{
  set_idle_stack, gui_name, user_name, start_servers, start_tasks,
}

-- Before `scheduler_init`: the idle thread 1 is current and not in the queue, and no thread runs.
record Waiting (xs : List ℕ) (k : Kernel) : Type 0 where
  ring : IsRing k xs
  used : InUse k xs
  slots : (a : ℕ) → has a xs ≡ true → a ≤ max_threads
  still : (a : ℕ) → has a xs ≡ true → is_running (k.threads a).state ≡ false
  counted : k.next_tid ≡ suc (suc (length xs))
  idle : k.current_thread ≡ 1
  quanta : (a : ℕ) → (k.threads a).quantum ≤ scheduler_quantum
  idle_tid : (k.threads 1).tid ≢ 0
  outside : has 1 xs ≡ false

-- What `proc_init` leaves: the idle thread in the first slot, alone.
proc_init_lem :
    (idle_entry : ℕ) (s : Machine)
    → s.kernel.queue_head ≡ 0
    → s.kernel.queue_tail ≡ 0
    → s.kernel.next_tid ≡ 1
    → (m : Machine) × (proc_init idle_entry s ≡ some m) × Waiting [] (set_idle_stack m.kernel)
unfolding proc_init clear_tables alloc_process find_slot take_process alloc_thread pick_slot
    take_thread start_idle set_process set_thread
proc_init_lem idle_entry s head tail next = (
  _,
  refl,
  record {
    ring = (head, tail);
    used = λ a i. cc;
    slots = λ a i. cc;
    still = λ a i. cc;
    counted = rw next refl;
    idle = refl;
    quanta = λ a. ground arith;
    idle_tid = omega (arith, next);
    outside = refl;
  },
)

module _ (xs : List ℕ) (k : Kernel) (w : Waiting xs k) (k' : Kernel) where
  Refused-Waiting : Refused k xs k' → (ys : List ℕ) × Waiting ys k'
  Refused-Waiting f = (
    xs,
    record {
      ring = f.ring;
      used = λ a i e. w.used a i (sym (ap (λ th. (th a).tid) f.threads) ∙ e);
      slots = w.slots;
      still = λ a i. ap (λ th. is_running (th a).state) f.threads ∙ w.still a i;
      counted = f.next_tid ∙ w.counted;
      idle = f.current_thread ∙ w.idle;
      quanta = λ a. omega (arith, ap (λ th. (th a).quantum) f.threads, w.quanta a);
      idle_tid = λ e. w.idle_tid (sym (ap (λ th. (th 1).tid) f.threads) ∙ e);
      outside = w.outside;
    },
  )

  Joined-Waiting : (t : ℕ) → Joined k xs t k' → (ys : List ℕ) × Waiting ys k'
  Joined-Waiting t j =
      let old : (a : ℕ) → (a == t) ≡ false → has a (xs ++ (t ∷ [])) ≡ true → has a xs ≡ true =
        λ a off i. ground (arith, has-append a xs (t ∷ [])) in
      let ring = IsRing-Chain k xs w.ring in
      let few =
        length_of_Distinct max_threads xs ring.1
          (Chain-no_null _ k.queue_head xs k.queue_head ring.0) w.slots in
      let idle_apart : (1 == t) ≡ false = elim (Bool-cases (1 == t)) [
        | inl same ↦
            absurd (w.idle_tid (ap (λ a. (k.threads a).tid) (ground (arith, same)) ∙ j.slot.2))
        | inr other ↦ other
      ] in
      (
        xs ++ (t ∷ []),
        record {
          ring = j.ring;
          used = λ a i e. elim (Bool-cases (a == t)) [
            | inl at ↦
                let at' : a ≡ t = ground arith in
                omega (arith, j.tid, w.counted, ap (λ q. (k'.threads q).tid) at', e)
            | inr off ↦
                w.used a (old a off i) (sym (ap (λ x. x.tid) (j.others a (ground arith))) ∙ e)
          ];
          slots = λ a i. elim (Bool-cases (a == t)) [
            | inl at ↦ ground (arith, j.slot.1)
            | inr off ↦ w.slots a (old a off i)
          ];
          still = λ a i. elim (Bool-cases (a == t)) [
            | inl at ↦
                let at' : a ≡ t = ground arith in
                ap (λ q. is_running (k'.threads q).state) at' ∙ ap is_running j.state
            | inr off ↦
                ap (λ x. is_running x.state) (j.others a (ground arith)) ∙ w.still a (old a off i)
          ];
          counted = omega (arith, j.next_tid, w.counted, few, length-append xs (t ∷ []));
          idle = j.current_thread ∙ w.idle;
          quanta = λ a. elim (Bool-cases (a == t)) [
            | inl at ↦
                let at' : a ≡ t = ground arith in
                omega (arith, j.quantum, ap (λ q. (k'.threads q).quantum) at')
            | inr off ↦ omega (arith, ap (λ x. x.quantum) (j.others a (ground arith)), w.quanta a)
          ];
          idle_tid =
              λ e. w.idle_tid (sym (ap (λ x. x.tid) (j.others 1 (ground (arith, idle_apart)))) ∙ e);
          outside = ground (arith, idle_apart, w.outside, has-append 1 xs (t ∷ []));
        },
      )

  Changed-Waiting : Changed k xs k' → (ys : List ℕ) × Waiting ys k'
  Changed-Waiting (inl f) = Refused-Waiting f
  Changed-Waiting (inr (t, j)) = Joined-Waiting t j

tid-init : (k : Kernel) (a : ℕ) → ((init k).threads a).tid ≡ (k.threads a).tid
unfolding init queue_insert
tid-init k a = ground arith

quantum-init :
    (k : Kernel) (a : ℕ)
    → (k.threads a).quantum ≤ scheduler_quantum
    → ((init k).threads a).quantum ≤ scheduler_quantum
unfolding init queue_insert
quantum-init k a h = ground (arith, h)

init-rest :
    (k : Kernel)
    → ((init k).next_tid ≡ k.next_tid)
      × (k.current_thread ≢ 0 → (init k).sched_current ≡ k.current_thread)
unfolding init queue_insert
init-rest k = ground arith

-- `scheduler_init` puts the idle thread last and makes the system sound.
init-IsSystem :
    (xs : List ℕ) (s : Machine)
    → Waiting xs s.kernel
    → IsSystem 1 (xs ++ (1 ∷ [])) (record s { kernel = init s.kernel })
      × Ticked (init s.kernel) (xs ++ (1 ∷ []))
init-IsSystem xs s w =
    let k = s.kernel in
    let t : Ticked (init k) (xs ++ (1 ∷ [])) =
      subst (λ a. Ticked (init k) (xs ++ (a ∷ []))) w.idle
        (init-Ticked k xs (omega (arith, w.idle)) (ap (λ a. has a xs) w.idle ∙ w.outside) w.ring
          w.still) in
    let current : (init k).sched_current ≡ 1 = (init-rest k).1 (omega (arith, w.idle)) ∙ w.idle in
    (
      record {
        sound = t.sound;
        used = λ a i e. elim (Bool-cases (a == 1)) [
          | inl at ↦
              let at' : a ≡ 1 = ground arith in
              w.idle_tid (sym (ap (λ q. (k.threads q).tid) at') ∙ sym (tid-init k a) ∙ e)
          | inr off ↦ w.used a (ground (arith, has-append a xs (1 ∷ []))) (sym (tid-init k a) ∙ e)
        ];
        slots = λ a i. elim (Bool-cases (a == 1)) [
          | inl at ↦ ground (arith, at)
          | inr off ↦ w.slots a (ground (arith, has-append a xs (1 ∷ [])))
        ];
        counted = omega (arith, (init-rest k).0, w.counted, length-append xs (1 ∷ []));
        quanta = λ a. quantum-init k a (w.quanta a);
        idle_queued = ground (arith, has-append 1 xs (1 ∷ []));
        idle_alive = ap (λ c. alive ((init k).threads c).state) (sym current) ∙ ap alive t.runs;
      },
      t,
    )

-- With the empty queue and the counter of the kernel's static data, `proc_init`, the creation of the
-- two processes of `kernel_main`, and `scheduler_init` end, whether or not there are frames for the
-- processes; then the system is sound, and the idle thread, in the first slot, is current and RUNNING.
pub start_tasks-IsSystem :
    (idle_entry gui_entry user_entry user_start user_size : ℕ) (s : Machine)
    → s.kernel.queue_head ≡ 0
    → s.kernel.queue_tail ≡ 0
    → s.kernel.next_tid ≡ 1
    → (s' : Machine) × (xs : List ℕ) × (start_tasks idle_entry gui_entry user_entry user_start
          user_size s
        ≡ some s')
      × IsSystem 1 xs s'
      × Ticked s'.kernel xs
      × (s'.kernel.sched_current ≡ 1)
unfolding start_tasks
start_tasks-IsSystem idle_entry gui_entry user_entry user_start user_size s head tail next =
    let (m, e, w) = proc_init_lem idle_entry s head tail next in
    let m1 = record m { kernel = set_idle_stack m.kernel } in
    let gui = create_kernel gui_name gui_entry m1 in
    let (xs, w1) =
      Changed-Waiting [] m1.kernel w gui.1.kernel
        (create_kernel-Changed m1 [] w.ring w.used gui_name gui_entry) in
    let user = create_user user_name user_entry user_start user_size gui.1 in
    let (ys, w2) =
      Changed-Waiting xs gui.1.kernel w1 user.1.kernel
        (create_user-Changed gui.1 xs w1.ring w1.used user_name user_entry user_start user_size) in
    let (sound, t) = init-IsSystem ys user.1 w2 in
    (
      start_servers gui_entry user_entry user_start user_size m1,
      ys ++ (1 ∷ []),
      rw (e, start_tasks),
      sound,
      t,
      (init-rest user.1.kernel).1 (omega (arith, w2.idle)) ∙ w2.idle,
    )
