-- ===== src/Proc/System/Reachable.antt =====
-- Every state that is reached, whatever the order of the events.
use system_operative_edit.Base.{
  ℕ, ◌-◌, ◌*◌, ◌≡◌, sym, ap, ◌∙◌, ◌≢◌, true, false, some, List, [], ◌++◌, arith, length, has,
  has-append,
}
use mathlib.Core.Path.{subst}
use mathlib.Core.List.{append_assoc, append-nil}
use system_operative_edit.Proc.{Kernel, is_ready}
use system_operative_edit.Proc.Create.{Machine}
use system_operative_edit.Proc.System.{
  Step, Reach, IsSystem, timer, yields, exits, creates, spawns, start, later,
}
use system_operative_edit.Proc.System.Invariant.{
  After, timer-After, exit-After, yield-After, tick_sound, length-le,
}
use system_operative_edit.Proc.System.Creation.{create_kernel-After, create_user-After}
use system_operative_edit.Sched.{tick, scheduler_quantum}
use system_operative_edit.Sched.Fair.{HasTurn, ready-HasTurn}
use system_operative_edit.Sched.Dispatch.{Ticked}
use system_operative_edit.Sched.Alive.{alive}

Step-After :
    (idle : ℕ) (xs : List ℕ) (s t : Machine)
    → IsSystem idle xs s
    → Step idle s t
    → After idle xs s t
Step-After idle xs s t h (timer ctx r e) = timer-After idle xs s h ctx r e
Step-After idle xs s t h (yields ctx r e) = yield-After idle xs s h ctx r e
Step-After idle xs s t h (exits ne) = exit-After idle xs s h ne
Step-After idle xs s t h (creates name entry) = create_kernel-After idle xs s h name entry
Step-After idle xs s t h (spawns name entry code_phys code_size) =
    create_user-After idle xs s h name entry code_phys code_size

Reach-After :
    (idle : ℕ) (xs : List ℕ) (s t : Machine)
    → IsSystem idle xs s
    → Reach idle s t
    → After idle xs s t
Reach-After idle xs s t h start =
    ([], subst (λ l. IsSystem idle l s) (sym (append-nil xs)) h, λ p i dead. dead)
Reach-After idle xs s t h (later {t = m} r step) =
    let (ys, mid, dead) = Reach-After idle xs s m h r in
    let (zs, end, dead') = Step-After idle (xs ++ ys) m t mid step in
    (
      ys ++ zs,
      subst (λ l. IsSystem idle l t) (append_assoc xs ys zs) end,
      λ p i out. dead' p (ground (arith, has-append p xs ys)) (dead p i out),
    )

-- What is shown of a state `t` that was reached from `s`.
abbrev pub Reached : (idle : ℕ) → (xs : List ℕ) → (s t : Machine) → Type 0
Reached idle xs s t =
    (ys : List ℕ) × (IsSystem idle (xs ++ ys) t)
    × ((ctx : ℕ)
        → (r : ℕ × Kernel) × (tick ctx t.kernel ≡ some r)
          × Ticked r.1 (xs ++ ys)
          × ((p : ℕ)
              → has p xs ≡ true
              → alive (s.kernel.threads p).state ≡ false
              → r.1.sched_current ≢ p))
    × ((ctx : ℕ → ℕ) (p : ℕ)
        → has p (xs ++ ys) ≡ true
        → p ≢ t.kernel.sched_current
        → is_ready (t.kernel.threads p).state ≡ true
        → HasTurn (scheduler_quantum * (length (xs ++ ys) - 1)) ctx t.kernel (xs ++ ys) p)

-- From a sound system with the queue `xs`, in whatever order timer interrupts, yields, exits of threads
-- other than the idle one and creations of kernel and of user processes come: the system is sound again, its queue
-- holds `xs` and new threads behind; the next timer interrupt ends and leaves a RUNNING thread of that
-- queue current; and a thread of `xs` that was neither READY nor RUNNING, so a DEAD one, is never
-- current after it; and every READY thread of the queue runs after at most ten further ticks for each
-- other thread.
pub Reach-Reached :
    (idle : ℕ) (xs : List ℕ) (s t : Machine)
    → IsSystem idle xs s
    → Reach idle s t
    → Reached idle xs s t
Reach-Reached idle xs s t h r =
    let (ys, end, dead) = Reach-After idle xs s t h r in
    (
      ys,
      end,
      λ ctx.
          let (q, e, after, same) = tick_sound idle (xs ++ ys) t end ctx in
          (
            q,
            e,
            after,
            λ p i out at. cc (
              ap alive after.runs,
              ap (λ c. alive (q.1.threads c).state) at,
              same.alive p ∙ dead p i out,
            ),
          ),
      λ ctx p i other ready.
          ready-HasTurn ctx t.kernel (xs ++ ys) p end.sound (length-le end)
            (end.quanta t.kernel.sched_current) i other ready,
    )
