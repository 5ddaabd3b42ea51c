-- ===== src/Sched/Tick.antt =====
-- `scheduler_tick`: the round-robin dispatcher, over a queue given as a list.
use system_operative_edit.Base.{
  ℕ, ◌-◌, ◌≤◌, ◌≡◌, refl, sym, ◌≢◌, Bool, true, false, ◌&&◌, ◌||◌, some, List, ◌∷◌, ◌++◌, arith,
  ltb, ◌==◌, add32, update, length,
}
use mathlib.Core.Path.{subst}
use system_operative_edit.Proc.{ThreadState, Thread, Kernel, max_threads, is_ready, is_running}
use system_operative_edit.Sched.{charge, choose, queue_next_ready, tick}
use system_operative_edit.Sched.Ring.{IsRing, Ring, next_of, next_of-update, Chain-split}
use system_operative_edit.Sched.Next.{rotation, first_ready, queue_next_ready_lem, IsRing-Chain}

-- The kernel after steps 1 to 3: the tick is counted and the current thread is charged for it.
abbrev pub charged : ℕ → Kernel → Kernel
charged ctx k = record k {
  ticks = add32 k.ticks 1;
  threads = update k.threads k.sched_current (charge ctx (k.threads k.sched_current));
}

-- A write to a thread that keeps its link keeps the queue.
pub IsRing-update :
    (k : Kernel) (xs : List ℕ) (p : ℕ) (t : Thread)
    → t.next ≡ (k.threads p).next
    → IsRing k xs
    → Ring (next_of (update k.threads p t)) k.queue_head k.queue_tail xs
IsRing-update k xs p t e r =
    subst (λ nx. Ring nx k.queue_head k.queue_tail xs) (sym (next_of-update k.threads p t e)) r

-- The current thread still has time: it is READY or RUNNING and its quantum is above 1.
abbrev pub has_time : Thread → Bool
has_time t = ltb 1 t.quantum && (is_ready t.state || is_running t.state)

module _ (k : Kernel) (ctx : ℕ) where
  pub IsRing-charged : (xs : List ℕ) → IsRing k xs → IsRing (charged ctx k) xs
  unfolding charge
  IsRing-charged xs r =
      IsRing-update k xs k.sched_current (charge ctx (k.threads k.sched_current)) refl r

  time_test :
      (b : Bool)
      → has_time (k.threads k.sched_current) ≡ b
      → (let t = charge ctx (k.threads k.sched_current) in
          (ltb 0 t.quantum && is_ready t.state) ≡ b)
  unfolding charge
  time_test b e = go (k.threads k.sched_current).state refl
    where
      go :
          (s : ThreadState)
          → (k.threads k.sched_current).state ≡ s
          → (let t = charge ctx (k.threads k.sched_current) in
              (ltb 0 t.quantum && is_ready t.state) ≡ b)
      go s q = ground arith

  pub ring-ne_null :
      (before : List ℕ) (behind : List ℕ)
      → IsRing k (before ++ (k.sched_current ∷ behind))
      → k.sched_current ≢ 0
  ring-ne_null before behind r =
      let all = IsRing-Chain k _ r in
      (Chain-split (next_of k.threads) k.queue_head before k.sched_current behind k.queue_head
        all.0).1.1

  -- A current thread that still has time goes on: the same context is returned, and the thread is
  -- RUNNING with one tick less.
  pub tick_keeps :
      k.sched_current ≢ 0
      → has_time (k.threads k.sched_current) ≡ true
      → tick ctx k
        ≡ some (
          ctx,
          record k {
            ticks = add32 k.ticks 1;
            threads = update k.threads k.sched_current (record (k.threads k.sched_current) {
              saved_context = ctx;
              state = ThreadState.running;
              quantum = (k.threads k.sched_current).quantum - 1;
            });
          },
        )
  unfolding tick charge
  tick_keeps nz e =
      let cur : (k.sched_current == 0) ≡ false = ground arith in
      let pos : ltb 0 (k.threads k.sched_current).quantum ≡ true = ground arith in
      let test = time_test true e in rw (cur, pos) (rw (rw pos at test))

  tick-choose :
      (p : ℕ)
      → k.sched_current ≢ 0
      → has_time (k.threads k.sched_current) ≡ false
      → queue_next_ready k.sched_current (charged ctx k) ≡ some p
      → tick ctx k ≡ some (choose ctx p (charged ctx k))
  unfolding tick
  tick-choose p nz e found =
      let cur : (k.sched_current == 0) ≡ false = ground arith in rw (cur, time_test false e, found)

  -- A current thread without time gives way: on a queue of at most 32 threads the tick ends, and
  -- chooses the first READY thread behind the current one, round the queue, the current one last.
  pub tick_chooses :
      (before : List ℕ) (behind : List ℕ)
      → length (before ++ (k.sched_current ∷ behind)) ≤ max_threads
      → IsRing k (before ++ (k.sched_current ∷ behind))
      → has_time (k.threads k.sched_current) ≡ false
      → tick ctx k
        ≡ some (
            choose ctx
              (first_ready (charged ctx k).threads (rotation before k.sched_current behind))
              (charged ctx k))
  tick_chooses before behind le r e =
      let c = k.sched_current in
      let l = before ++ (c ∷ behind) in
      let found = queue_next_ready_lem (charged ctx k) before c behind le (IsRing-charged l r) in
      tick-choose _ (ring-ne_null before behind r) e found
