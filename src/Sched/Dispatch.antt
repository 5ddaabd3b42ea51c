-- ===== src/Sched/Dispatch.antt =====
-- What a tick leaves behind: the invariant of the scheduler, and the outcome of a switch.
use system_operative_edit.Base.{
  ℕ, ◌-◌, ◌≤◌, ◌≡◌, refl, sym, ap, ◌∙◌, ◌≢◌, ◌⊎◌, inl, inr, true, false, ◌||◌, some, List, [], ◌∷◌,
  ◌++◌, arith, ◌==◌, if◌then◌else◌, Bool-cases, add32, update, length, has, has-append,
}
use mathlib.Core.Path.{subst}
use system_operative_edit.Proc.{ThreadState, Thread, Kernel, max_threads, is_running}
use system_operative_edit.Sched.{charge, dispatch, choose, switch_to, tick, scheduler_quantum}
use system_operative_edit.Sched.Ring.{IsRing}
use system_operative_edit.Sched.Next.{rotation, first_ready, first_ready_cases}
use system_operative_edit.Sched.Tick.{
  charged, has_time, IsRing-update, IsRing-charged, tick_keeps, tick_chooses, ring-ne_null,
}

-- The queue is a ring of these threads, the current thread is one of them, and no other is RUNNING;
-- process.c and scheduler.c agree on the current thread.
pub record SchedOk (k : Kernel) (xs : List ℕ) : Type 0 where
  pub ring : IsRing k xs
  pub current : has k.sched_current xs ≡ true
  pub alone :
      (p : ℕ) → has p xs ≡ true → p ≢ k.sched_current → is_running (k.threads p).state ≡ false
  pub agree : k.current_thread ≡ k.sched_current

-- The kernel after a tick: still sound, and the current thread is RUNNING.
pub record Ticked (k : Kernel) (xs : List ℕ) : Type 0 where
  pub sound : SchedOk k xs
  pub runs : (k.threads k.sched_current).state ≡ ThreadState.running

-- A switch from the kernel `k` to the thread `p`, where the timer interrupted `ctx`.
pub record Switched (ctx : ℕ) (k : Kernel) (p : ℕ) (r : ℕ × Kernel) : Type 0 where
  pub context :
      r.0 ≡ (if (k.threads p).saved_context == 0 then ctx else (k.threads p).saved_context)
  pub current : r.1.sched_current ≡ p
  pub agree : r.1.current_thread ≡ p
  pub runs : (r.1.threads p).state ≡ ThreadState.running
  pub quantum : (r.1.threads p).quantum ≡ scheduler_quantum
  pub saved : (r.1.threads k.sched_current).saved_context ≡ ctx
  pub waits : (r.1.threads k.sched_current).state ≡ (
      if is_running (k.threads k.sched_current).state
      then ThreadState.ready
      else (k.threads k.sched_current).state)
  pub others : (a : ℕ) → a ≢ p → a ≢ k.sched_current → r.1.threads a ≡ k.threads a
  pub counted : r.1.switches ≡ add32 k.switches 1
  pub stack : r.1.esp0 ≡ (k.threads p).kernel_stack_top

module _ (k : Kernel) (ctx : ℕ) where
  pub choose-Switched :
      (p : ℕ) → p ≢ 0 → p ≢ k.sched_current → Switched ctx k p (choose ctx p (charged ctx k))
  unfolding choose switch_to dispatch charge
  choose-Switched p nz ne =
      let a : ((p == 0) || (p == k.sched_current)) ≡ false = ground arith in
      let b : (p == k.sched_current) ≡ false = ground arith in
      let d : (k.sched_current == p) ≡ false = ground arith in
      rw a (record {
        context = rw b refl;
        current = refl;
        agree = refl;
        runs = ground arith;
        quantum = ground arith;
        saved = ground arith;
        waits = ground arith;
        others = λ x h1 h2. ground arith;
        counted = refl;
        stack = rw b refl;
      })

-- The list around one of its threads.
pub split_at :
    (c : ℕ) (xs : List ℕ)
    → has c xs ≡ true
    → (before : List ℕ) × (behind : List ℕ) × (xs ≡ before ++ (c ∷ behind))
split_at c [] i = cc
split_at c (x ∷ xs) i = elim (Bool-cases (c == x)) [
  | inl at ↦ ([], xs, ap (λ a. a ∷ xs) (ground arith))
  | inr off ↦
      let (before, behind, e) = split_at c xs (ground arith) in
      (x ∷ before, behind, ap (λ l. x ∷ l) e)
]

pub has-rotation :
    (p : ℕ) (before : List ℕ) (c : ℕ) (behind : List ℕ)
    → has p (rotation before c behind) ≡ has p (before ++ (c ∷ behind))
has-rotation p before c behind = ground (
  arith,
  has-append p behind (before ++ (c ∷ [])),
  has-append p before (c ∷ []),
  has-append p before (c ∷ behind),
)

-- A thread that is put back is not RUNNING.
put_back : (s : ThreadState) → is_running (if is_running s then ThreadState.ready else s) ≡ false
put_back s = ground arith

module _ (k : Kernel) (ctx : ℕ) (xs : List ℕ) (ok : SchedOk k xs) where
  stays-Ticked :
      Ticked
        (record (charged ctx k) {
          threads =
              update
                (charged ctx k).threads
                k.sched_current
                (dispatch ((charged ctx k).threads k.sched_current));
        })
        xs
  unfolding dispatch
  stays-Ticked = record {
    sound = record {
      ring =
          IsRing-update (charged ctx k) xs k.sched_current
            (dispatch ((charged ctx k).threads k.sched_current)) refl
            (IsRing-charged k ctx xs ok.ring);
      current = ok.current;
      alone = λ p i ne. ground (arith, ok.alone p i ne);
      agree = ok.agree;
    };
    runs = ground arith;
  }

  pub keeps-Ticked :
      Ticked
        (record k {
          ticks = add32 k.ticks 1;
          threads = update k.threads k.sched_current (record (k.threads k.sched_current) {
            saved_context = ctx;
            state = ThreadState.running;
            quantum = (k.threads k.sched_current).quantum - 1;
          });
        })
        xs
  keeps-Ticked = record {
    sound = record {
      ring = IsRing-update k xs k.sched_current _ refl ok.ring;
      current = ok.current;
      alone = λ p i ne. ground (arith, ok.alone p i ne);
      agree = ok.agree;
    };
    runs = ground arith;
  }

  switch-IsRing : (p : ℕ) → p ≢ 0 → p ≢ k.sched_current → IsRing (choose ctx p (charged ctx k)).1 xs
  unfolding choose switch_to dispatch
  switch-IsRing p nz ne =
      let a : ((p == 0) || (p == k.sched_current)) ≡ false = ground arith in
      let r =
        IsRing-update (charged ctx k) xs p (dispatch ((charged ctx k).threads p)) refl
          (IsRing-charged k ctx xs ok.ring) in
      subst
        (λ b.
          IsRing
            (if b
              then (
                ctx,
                record (charged ctx k) {
                  threads =
                      update (charged ctx k).threads k.sched_current
                        (dispatch ((charged ctx k).threads k.sched_current));
                },
              )
              else switch_to ctx p (charged ctx k)).1
            xs)
        (sym a) r

  pub switches-Ticked :
      (p : ℕ)
      → p ≢ 0
      → p ≢ k.sched_current
      → has p xs ≡ true
      → Ticked (choose ctx p (charged ctx k)).1 xs
  switches-Ticked p nz ne i =
      let s = choose-Switched k ctx p nz ne in
      record {
        sound = record {
          ring = switch-IsRing p nz ne;
          current = rw s.current i;
          alone = λ q j off. elim (Bool-cases (q == k.sched_current)) [
            | inl at ↦
                let e : q ≡ k.sched_current = ground arith in
                rw (e, s.waits) (put_back (k.threads k.sched_current).state)
            | inr other ↦
                let apart : q ≢ p = λ e. off (e ∙ sym s.current) in
                rw (s.others q apart (ground arith)) (ok.alone q j (ground arith))
          ];
          agree = s.agree ∙ sym s.current;
        };
        runs = rw s.current s.runs;
      }

  stays-choose :
      (p : ℕ) → (p ≡ 0) ⊎ (p ≡ k.sched_current) → Ticked (choose ctx p (charged ctx k)).1 xs
  unfolding choose
  stays-choose p h =
      let a : ((p == 0) || (p == k.sched_current)) ≡ true = ground arith in rw a stays-Ticked

  pub choose-Ticked :
      (p : ℕ) → ((p ≡ 0) ⊎ (has p xs ≡ true)) → Ticked (choose ctx p (charged ctx k)).1 xs
  choose-Ticked p h = elim (Bool-cases (p == 0)) [
    | inl z ↦ stays-choose p (inl (ground arith))
    | inr nz ↦ elim (Bool-cases (p == k.sched_current)) [
      | inl same ↦ stays-choose p (inr (ground arith))
      | inr other ↦ switches-Ticked p (ground arith) (ground arith) (ground arith)
    ]
  ]

  -- The queue around the current thread.
  around :
      (before : List ℕ) × (behind : List ℕ) × (xs ≡ before ++ (k.sched_current ∷ behind))
      × IsRing k (before ++ (k.sched_current ∷ behind))
  around =
      let (before, behind, e) = split_at k.sched_current xs ok.current in
      (before, behind, e, subst (IsRing k) e ok.ring)

  found-has :
      (th : ℕ → Thread) (before behind : List ℕ)
      → xs ≡ before ++ (k.sched_current ∷ behind)
      → let p = first_ready th (rotation before k.sched_current behind) in
        (p ≡ 0) ⊎ (has p xs ≡ true)
  found-has th before behind e =
      elim (first_ready_cases th (rotation before k.sched_current behind)) [
        | inl z ↦ inl z
        | inr (r, i) ↦ inr (ap (has _) e ∙ sym (has-rotation _ before k.sched_current behind) ∙ i)
      ]

  -- `scheduler_tick` on a sound scheduler with at most 32 threads in its queue ends, keeps the queue
  -- and the soundness, and leaves exactly one thread of the queue RUNNING: the current one.
  pub tick-Ticked :
      length xs ≤ max_threads → (r : ℕ × Kernel) × (tick ctx k ≡ some r) × Ticked r.1 xs
  tick-Ticked le =
      let (before, behind, e, ring) = around in
      elim (Bool-cases (has_time (k.threads k.sched_current))) [
        | inl time ↦
            (_, tick_keeps k ctx (ring-ne_null k ctx before behind ring) time, keeps-Ticked)
        | inr out ↦ (
          _,
          tick_chooses k ctx before behind (subst (λ l. length l ≤ max_threads) e le) ring out,
          choose-Ticked _ (found-has (charged ctx k).threads before behind e),
        )
      ]

-- When the current thread has used up its time and the first READY thread `p` behind it, round the
-- queue of at most 32 threads, is another one, `scheduler_tick` switches to `p`: it returns the
-- context saved for `p` (the interrupted one if none is saved, with `p` current all the same),
-- gives `p` a full quantum, saves the old thread's context, makes the old thread READY if it was
-- RUNNING, counts the switch, sets the kernel stack of the TSS, and touches no other thread.
pub tick-Switched :
    (k : Kernel) (ctx : ℕ) (before behind : List ℕ) (p : ℕ)
    → length (before ++ (k.sched_current ∷ behind)) ≤ max_threads
    → IsRing k (before ++ (k.sched_current ∷ behind))
    → has_time (k.threads k.sched_current) ≡ false
    → p ≡ first_ready (charged ctx k).threads (rotation before k.sched_current behind)
    → p ≢ 0
    → p ≢ k.sched_current
    → (r : ℕ × Kernel) × (tick ctx k ≡ some r) × Switched ctx k p r
tick-Switched k ctx before behind p le ring out at nz ne = (
  choose ctx p (charged ctx k),
  tick_chooses k ctx before behind le ring out
      ∙ ap (λ q. some (choose ctx q (charged ctx k))) (sym at),
  choose-Switched k ctx p nz ne,
)
