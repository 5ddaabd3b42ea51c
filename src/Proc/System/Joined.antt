-- ===== src/Proc/System/Joined.antt =====
-- What the creation of a process does to the threads and the queue.
use system_operative_edit.Base.{
  ℕ, ◌≤◌, ◌<◌, ◌≡◌, ap, ◌∙◌, ◌≢◌, List, [], ◌∷◌, ◌++◌, arith, add32, update,
}
use system_operative_edit.Proc.{ThreadState, Thread, Process, Kernel, max_threads}
use system_operative_edit.Proc.Table.{NewThread}
use system_operative_edit.Proc.Create.Created.{InUse, IsRing-NewThread, has_of_InUse}
use system_operative_edit.Sched.{add_thread, scheduler_quantum}
use system_operative_edit.Sched.Ring.{IsRing}
use system_operative_edit.Sched.Tick.{IsRing-update}
use system_operative_edit.Sched.Insert.{
  add_thread_lem, unlinked, unlinked-add_thread, unlinked-add_thread_other, add_thread-rest,
}

-- No thread was made.
pub record Refused (k : Kernel) (xs : List ℕ) (k' : Kernel) : Type 0 where
  pub threads : k'.threads ≡ k.threads
  pub ring : IsRing k' xs
  pub next_tid : k'.next_tid ≡ k.next_tid
  pub sched_current : k'.sched_current ≡ k.sched_current
  pub current_thread : k'.current_thread ≡ k.current_thread

-- A slot that had no tid became the READY thread `t`, last in the queue.
pub record Joined (k : Kernel) (xs : List ℕ) (t : ℕ) (k' : Kernel) : Type 0 where
  pub slot : (0 < t) × (t ≤ max_threads) × ((k.threads t).tid ≡ 0)
  pub state : (k'.threads t).state ≡ ThreadState.ready
  pub tid : (k'.threads t).tid ≡ k.next_tid
  pub quantum : (k'.threads t).quantum ≤ scheduler_quantum
  pub others : (a : ℕ) → a ≢ t → unlinked (k'.threads a) ≡ unlinked (k.threads a)
  pub ring : IsRing k' (xs ++ (t ∷ []))
  pub next_tid : k'.next_tid ≡ add32 k.next_tid 1
  pub sched_current : k'.sched_current ≡ k.sched_current
  pub current_thread : k'.current_thread ≡ k.current_thread

-- A new thread that gets its fields `x` and enters the queue.
pub add_thread-Joined :
    (k : Kernel) (xs : List ℕ) (t : ℕ) (q : Kernel) (x : Thread) (ps : ℕ → Process)
    → IsRing k xs
    → InUse k xs
    → NewThread k t q
    → x.next ≡ (q.threads t).next
    → x.tid ≡ (q.threads t).tid
    → x.quantum ≤ scheduler_quantum
    → Joined k xs t (add_thread t (record q { threads = update q.threads t x; processes = ps }))
add_thread-Joined k xs t q x ps r used n link id few =
    let nz : t ≢ 0 = omega (arith, n.slot.0) in
    let out = has_of_InUse k xs t used n.unused in
    let k1 = record q { threads = update q.threads t x; processes = ps } in
    let own : (update q.threads t x t).quantum ≡ x.quantum = ground arith in
    let added =
      add_thread_lem k1 t xs nz out
        (IsRing-update q xs t x link (IsRing-NewThread k xs t q out n r)) in
    record {
      slot = (n.slot.0, n.slot.1, n.unused);
      state = added.1;
      tid =
          ap (λ y. y.tid) (unlinked-add_thread k1 t nz)
          ∙ ground (arith, id, ap (λ y. y.tid) n.thread);
      quantum = omega (arith, few, ap (λ y. y.quantum) (unlinked-add_thread k1 t nz), own);
      others =
          λ a ne. unlinked-add_thread_other k1 t a ne ∙ ground (arith, ap unlinked (n.others a ne));
      ring = added.0;
      next_tid = (add_thread-rest k1 t).2 ∙ n.next_tid;
      sched_current = (add_thread-rest k1 t).0 ∙ n.currents.0;
      current_thread = (add_thread-rest k1 t).1 ∙ n.currents.1;
    }
