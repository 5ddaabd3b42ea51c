-- ===== src/Proc/System/Invariant.antt =====
-- The invariant under the timer's interrupt, a yield and an exit.
use system_operative_edit.Base.{
  ℕ, zero, suc, ◌≤◌, ◌≡◌, refl, sym, ◌∙◌, ◌≢◌, inl, inr, true, false, some, List, [], ◌∷◌, ◌++◌,
  arith, ◌==◌, Bool-cases, update, length, has, Distinct,
}
use mathlib.Core.Path.{subst}
use mathlib.Core.List.{append-nil}
use system_operative_edit.Proc.{ThreadState, Kernel, max_threads}
use system_operative_edit.Proc.Create.{Machine, proc_exit, set_thread}
use system_operative_edit.Proc.System.{IsSystem}
use system_operative_edit.Sched.{tick, yield_quantum}
use system_operative_edit.Sched.Erase.{erase, has-erase, not-has-erase, Distinct-erase}
use system_operative_edit.Sched.Next.{IsRing-Chain, Chain-no_null}
use system_operative_edit.Sched.Tick.{IsRing-update}
use system_operative_edit.Sched.Dispatch.{SchedOk, Ticked}
use system_operative_edit.Sched.Alive.{alive, SameThreads, tick-SameThreads}

length-erase : (t : ℕ) (xs : List ℕ) → has t xs ≡ true → length xs ≡ suc (length (erase t xs))
unfolding erase
length-erase t [] i = cc
length-erase t (x ∷ xs) i = ground (arith, length-erase t xs)

-- Distinct numbers from 1 to `n` are no more than `n`.
pub length_of_Distinct :
    (n : ℕ) (xs : List ℕ)
    → Distinct xs
    → has 0 xs ≡ false
    → ((a : ℕ) → has a xs ≡ true → a ≤ n)
    → length xs ≤ n
length_of_Distinct zero [] d nz le = omega arith
length_of_Distinct zero (x ∷ xs) d nz le = absurd (ground (arith, le x))
length_of_Distinct (suc n) xs d nz le = elim (Bool-cases (has (suc n) xs)) [
  | inl i ↦
      let ys = erase (suc n) xs in
      let ih =
        length_of_Distinct n ys (Distinct-erase (suc n) xs d) (has-erase 0 (suc n) xs nz)
          (λ a j. ground (arith, le a, has-erase a (suc n) xs, not-has-erase (suc n) xs d)) in
      omega (arith, ih, length-erase (suc n) xs i)
  | inr out ↦
      let ih = length_of_Distinct n xs d nz (λ a j. ground (arith, le a j, out)) in
      omega (arith, ih)
]

pub length-le :
    {idle : ℕ} {xs : List ℕ} {s : Machine} → IsSystem idle xs s → length xs ≤ max_threads
length-le {idle} {xs} {s} h =
    let ring = IsRing-Chain s.kernel xs h.sound.ring in
    length_of_Distinct max_threads xs ring.1
      (Chain-no_null _ s.kernel.queue_head xs s.kernel.queue_head ring.0) h.slots

-- What a step leads to from the queue `xs`: some threads more, and no thread that could not run can.
abbrev pub After : (idle : ℕ) → (xs : List ℕ) → (s s' : Machine) → Type 0
After idle xs s s' =
    (ys : List ℕ) × (IsSystem idle (xs ++ ys) s')
    × ((p : ℕ)
        → has p xs ≡ true
        → alive (s.kernel.threads p).state ≡ false
        → alive (s'.kernel.threads p).state ≡ false)

pub same_queue :
    (idle : ℕ) (xs : List ℕ) (s s' : Machine)
    → IsSystem idle xs s'
    → ((p : ℕ)
        → has p xs ≡ true
        → alive (s.kernel.threads p).state ≡ false
        → alive (s'.kernel.threads p).state ≡ false)
    → After idle xs s s'
same_queue idle xs s s' h dead = ([], subst (λ l. IsSystem idle l s') (sym (append-nil xs)) h, dead)

module _ (idle : ℕ) (xs : List ℕ) (s : Machine) (h : IsSystem idle xs s) where
  pub kernel-IsSystem :
      (k : Kernel)
      → SchedOk k xs
      → SameThreads s.kernel k
      → IsSystem idle xs (record s { kernel = k })
  kernel-IsSystem k ok same = record {
    sound = ok;
    used = λ a i e. h.used a i (sym (same.tid a) ∙ e);
    slots = h.slots;
    counted = same.next_tid ∙ h.counted;
    quanta = λ a. same.quantum a (h.quanta a);
    idle_queued = h.idle_queued;
    idle_alive = same.alive idle ∙ h.idle_alive;
  }

  kernel-After :
      (k : Kernel)
      → SchedOk k xs
      → SameThreads s.kernel k
      → After idle xs s (record s { kernel = k })
  kernel-After k ok same =
      same_queue idle xs s (record s { kernel = k }) (kernel-IsSystem k ok same)
        (λ p i dead. same.alive p ∙ dead)

  -- A tick from a sound state succeeds; so what `timer` reached is what it leads to.
  pub tick_sound :
      (ctx : ℕ)
      → (r : ℕ × Kernel) × (tick ctx s.kernel ≡ some r) × Ticked r.1 xs × SameThreads s.kernel r.1
  tick_sound ctx =
      tick-SameThreads s.kernel ctx xs h.sound idle h.idle_queued h.idle_alive (length-le h)

  pub timer-After :
      (ctx : ℕ) (r : ℕ × Kernel)
      → tick ctx s.kernel ≡ some r
      → After idle xs s (record s { kernel = r.1 })
  timer-After ctx r e =
      let (r', e', t, same) = tick_sound ctx in
      let eq : r' ≡ r = cc (e, e') in
      subst (λ q. After idle xs s (record s { kernel = q.1 })) eq (kernel-After r'.1 t.sound same)

  pub exit-After :
      s.kernel.current_thread ≢ idle → After idle xs s (record s { kernel = proc_exit s.kernel })
  unfolding proc_exit set_thread
  exit-After ne = elim (Bool-cases (s.kernel.current_thread == 0)) [
    | inl none_current ↦ rw none_current (same_queue idle xs s s h (λ p i dead. dead))
    | inr on ↦
        let t = s.kernel.current_thread in
        let ring =
          IsRing-update s.kernel xs t (record (s.kernel.threads t) { state = ThreadState.dead })
            refl h.sound.ring in
        rw on (
          same_queue idle xs s _
            (record {
              sound = record {
                ring = ring;
                current = h.sound.current;
                alone = λ p i off. ground (arith, h.sound.alone p i off);
                agree = h.sound.agree;
              };
              used = λ a i e. h.used a i (ground (arith, e));
              slots = h.slots;
              counted = h.counted;
              quanta = λ a. ground (arith, h.quanta a);
              idle_queued = h.idle_queued;
              idle_alive = ground (arith, ne, h.idle_alive);
            })
            (λ p i dead. ground (arith, dead)))
  ]

pub yield-After :
    (idle : ℕ) (xs : List ℕ) (s : Machine)
    → IsSystem idle xs s
    → (ctx : ℕ) (r : ℕ × Kernel) → tick ctx (yield_quantum s.kernel) ≡ some r
    → After idle xs s (record s { kernel = r.1 })
unfolding yield_quantum
yield-After idle xs s h ctx r e = elim (Bool-cases (s.kernel.sched_current == 0)) [
  | inl none_current ↦ timer-After idle xs s h ctx r (rw none_current at e)
  | inr on ↦
      let c = s.kernel.sched_current in
      let t = record (s.kernel.threads c) { quantum = 0 } in
      let k = record s.kernel { threads = update s.kernel.threads c t } in
      let same : SameThreads s.kernel k = record {
        alive = λ p. ground arith;
        tid = λ p. ground arith;
        next_tid = refl;
        quantum = λ p h. ground (arith, h);
      } in
      let ok : SchedOk k xs = record {
        ring = IsRing-update s.kernel xs c t refl h.sound.ring;
        current = h.sound.current;
        alone = λ p i ne. ground (arith, h.sound.alone p i ne);
        agree = h.sound.agree;
      } in
      let (ys, after, dead) =
        timer-After idle xs (record s { kernel = k }) (kernel-IsSystem idle xs s h k ok same) ctx r
          (rw on at e) in
      (ys, after, λ p i out. dead p i (same.alive p ∙ out))
]
