-- ===== src/Sched/Fair.antt =====
-- The scheduler is fair: under the ticks of the timer every READY thread of the queue has its turn.
use system_operative_edit.Base.{
  ℕ, zero, suc, ◌-◌, ◌*◌, ◌≤◌, ◌≡◌, ◌∙◌, ◌≢◌, inl, inr, true, Option, none, some, List, ◌∷◌, ◌++◌,
  arith, length, has,
}
use system_operative_edit.Proc.{Kernel, max_threads, is_ready}
use system_operative_edit.Sched.{tick, scheduler_quantum}
use system_operative_edit.Sched.Dispatch.{SchedOk, Ticked, split_at}
use system_operative_edit.Sched.Waiting.{Waits, due, tick-Nearer, due_bound}

-- One timer interrupt after the other, each with the context that it interrupts.
unfoldable pub run : (n : ℕ) → (ctx : ℕ → ℕ) → Kernel → Option Kernel
run zero ctx k = some k
run (suc n) ctx k = elim (tick (ctx 0) k) [
  | none ↦ none
  | some (c, k') ↦ run n (λ i. ctx (suc i)) k'
]

-- After at most `bound` ticks the scheduler is sound and `p` is the thread that runs.
abbrev pub HasTurn : (bound : ℕ) → (ctx : ℕ → ℕ) → Kernel → (xs : List ℕ) → (p : ℕ) → Type 0
HasTurn bound ctx k xs p =
    (n : ℕ) × (n ≤ bound)
    × ((k' : Kernel) × (run n ctx k ≡ some k') × Ticked k' xs × (k'.sched_current ≡ p))

run-tick :
    (n : ℕ) (ctx : ℕ → ℕ) (k : Kernel) (r : ℕ × Kernel)
    → tick (ctx 0) k ≡ some r
    → run (suc n) ctx k ≡ run n (λ i. ctx (suc i)) r.1
unfolding run
run-tick n ctx k r e = rw (e, run)

waiting-HasTurn :
    (f : ℕ) (ctx : ℕ → ℕ) (k : Kernel) (xs : List ℕ) (p : ℕ) (before behind : List ℕ)
    → Waits k xs p
    → xs ≡ before ++ (k.sched_current ∷ behind)
    → length xs ≤ max_threads
    → due k before behind p ≤ f
    → HasTurn f ctx k xs p
unfolding run
waiting-HasTurn zero ctx k xs p before behind w at le d = absurd (omega (arith, d))
waiting-HasTurn (suc f) ctx k xs p before behind w at le d =
    let (r, e, t, nearer) = tick-Nearer k (ctx 0) xs p w before behind at le in
    elim nearer [
      | inl mine ↦ (suc zero, omega arith, (r.1, run-tick zero ctx k r e, t, mine))
      | inr (before', behind', at', w', less) ↦
          let (n, below, (k', ran, t', mine)) =
            waiting-HasTurn f (λ i. ctx (suc i)) r.1 xs p before' behind' w' at' le
              (omega (arith, less, d)) in
          (suc n, omega (arith, below), (k', run-tick n ctx k r e ∙ ran, t', mine))
    ]

-- On a sound scheduler with at most 32 threads in its queue and at most a full quantum left to the
-- current thread, every READY thread `p` of the queue runs after at most ten ticks for each other
-- thread of the queue, whatever the timer interrupts; all those ticks end.
pub ready-HasTurn :
    (ctx : ℕ → ℕ) (k : Kernel) (xs : List ℕ) (p : ℕ)
    → SchedOk k xs
    → length xs ≤ max_threads
    → (k.threads k.sched_current).quantum ≤ scheduler_quantum
    → has p xs ≡ true
    → p ≢ k.sched_current
    → is_ready (k.threads p).state ≡ true
    → HasTurn (scheduler_quantum * (length xs - 1)) ctx k xs p
ready-HasTurn ctx k xs p ok le quantum queued other ready =
    let w : Waits k xs p = record { sound = ok; queued = queued; other = other; ready = ready } in
    let (before, behind, at) = split_at k.sched_current xs ok.current in
    waiting-HasTurn (scheduler_quantum * (length xs - 1)) ctx k xs p before behind w at le
      (due_bound k (ctx 0) xs p w before behind at quantum)
