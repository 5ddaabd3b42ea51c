-- ===== src/Sched/Alive.antt =====
-- A tick neither stops nor revives a thread, as long as the queue has one that can run.
use system_operative_edit.Base.{
  ℕ, ◌≤◌, ◌≡◌, refl, sym, ap, ◌∙◌, ◌≢◌, inl, inr, Bool, true, false, ◌||◌, some, List, ◌∷◌, ◌++◌,
  arith, ◌==◌, Bool-cases, length, has,
}
use mathlib.Core.Path.{subst}
use system_operative_edit.Proc.{ThreadState, Thread, Kernel, max_threads, is_ready, is_running}
use system_operative_edit.Sched.{charge, dispatch, choose, switch_to, tick, scheduler_quantum}
use system_operative_edit.Sched.Ring.{IsRing}
use system_operative_edit.Sched.Next.{
  rotation, first_ready, first_ready_cases, first_ready_none, Chain-no_null, IsRing-Chain,
}
use system_operative_edit.Sched.Tick.{charged, has_time, tick_keeps, tick_chooses, ring-ne_null}
use system_operative_edit.Sched.Dispatch.{
  SchedOk, Ticked, split_at, has-rotation, keeps-Ticked, choose-Ticked,
}

-- READY or RUNNING.
abbrev pub alive : ThreadState → Bool
alive s = is_ready s || is_running s

-- The threads are the same, the same of them are alive, and no quantum becomes more than a full one.
pub record SameThreads (k k' : Kernel) : Type 0 where
  pub alive : (p : ℕ) → alive (k'.threads p).state ≡ alive (k.threads p).state
  pub tid : (p : ℕ) → (k'.threads p).tid ≡ (k.threads p).tid
  pub next_tid : k'.next_tid ≡ k.next_tid
  pub quantum :
      (p : ℕ)
      → (k.threads p).quantum ≤ scheduler_quantum
      → (k'.threads p).quantum ≤ scheduler_quantum

alive-charge : (ctx : ℕ) (t : Thread) → is_ready (charge ctx t).state ≡ alive t.state
unfolding charge
alive-charge ctx t = go t.state refl
  where
    go : (s : ThreadState) → t.state ≡ s → is_ready (charge ctx t).state ≡ alive t.state
    go s e = ground (arith, e)

module _ (k : Kernel) (ctx : ℕ) where
  alive-charged : (p : ℕ) → alive ((charged ctx k).threads p).state ≡ alive (k.threads p).state
  unfolding charge
  alive-charged p = ground arith

  choose-SameThreads :
      (p : ℕ)
      → p ≢ 0
      → is_ready ((charged ctx k).threads p).state ≡ true
      → SameThreads k (choose ctx p (charged ctx k)).1
  unfolding choose switch_to dispatch charge
  choose-SameThreads p nz ready = elim (Bool-cases (p == k.sched_current)) [
    | inl same ↦
        let a : ((p == 0) || (p == k.sched_current)) ≡ true = ground arith in
        rw a (record {
          alive = λ q. ground arith;
          tid = λ q. ground arith;
          next_tid = refl;
          quantum = λ q h. ground (arith, h);
        })
    | inr other ↦
        let a : ((p == 0) || (p == k.sched_current)) ≡ false = ground arith in
        rw a (record {
          alive = λ q. ground arith;
          tid = λ q. ground arith;
          next_tid = refl;
          quantum = λ q h. ground (arith, h);
        })
  ]

module _ (k : Kernel) (ctx : ℕ) (xs : List ℕ) (ok : SchedOk k xs) (idle : ℕ)
    (queued : has idle xs ≡ true) (living : alive (k.threads idle).state ≡ true) where
  -- The idle thread is READY when the search is made.
  idle-ready : is_ready ((charged ctx k).threads idle).state ≡ true
  idle-ready = elim (Bool-cases (idle == k.sched_current)) [
    | inl same ↦
        let e : idle ≡ k.sched_current = ground arith in
        rw same (
          alive-charge ctx (k.threads k.sched_current)
          ∙ sym (ap (λ q. alive (k.threads q).state) e)
          ∙ living)
    | inr other ↦ rw other (ground (arith, living, ok.alone idle queued))
  ]

  found-ready :
      (before behind : List ℕ)
      → xs ≡ before ++ (k.sched_current ∷ behind)
      → let p = first_ready (charged ctx k).threads (rotation before k.sched_current behind) in
        (p ≢ 0) × (is_ready ((charged ctx k).threads p).state ≡ true) × (has p xs ≡ true)
  found-ready before behind at =
      let th = (charged ctx k).threads in
      let l = rotation before k.sched_current behind in
      let on : (q : ℕ) → has q l ≡ has q xs =
        λ q. has-rotation q before k.sched_current behind ∙ sym (ap (has q) at) in
      let no_null : has 0 l ≡ false =
        on 0 ∙ Chain-no_null _ k.queue_head xs k.queue_head (IsRing-Chain k xs ok.ring).0 in
      let nz : first_ready th l ≢ 0 =
        λ z. cc (first_ready_none th l idle no_null z (on idle ∙ queued), idle-ready) in
      elim (first_ready_cases th l) [
        | inl z ↦ absurd (nz z)
        | inr (r, i) ↦ (nz, r, sym (on (first_ready th l)) ∙ i)
      ]

  -- With at most 32 threads in the queue and one of them alive, a tick ends, leaves the scheduler sound
  -- with a current thread that is RUNNING, and every thread as alive as it was.
  pub tick-SameThreads :
      length xs ≤ max_threads
      → (r : ℕ × Kernel) × (tick ctx k ≡ some r) × Ticked r.1 xs × SameThreads k r.1
  tick-SameThreads le =
      let (before, behind, at) = split_at k.sched_current xs ok.current in
      let ring = subst (IsRing k) at ok.ring in
      elim (Bool-cases (has_time (k.threads k.sched_current))) [
        | inl time ↦ (
          _,
          tick_keeps k ctx (ring-ne_null k ctx before behind ring) time,
          keeps-Ticked k ctx xs ok,
          record {
            alive = λ p. ground (arith, time);
            tid = λ p. ground arith;
            next_tid = refl;
            quantum = λ q h. ground (arith, h);
          },
        )
        | inr out ↦
            let (nz, ready, i) = found-ready before behind at in
            (
              _,
              tick_chooses k ctx before behind (subst (λ l. length l ≤ max_threads) at le) ring out,
              choose-Ticked k ctx xs ok _ (inr i),
              choose-SameThreads k ctx _ nz ready,
            )
      ]
