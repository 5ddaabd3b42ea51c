-- ===== src/Sched/Start.antt =====
-- `scheduler_init` establishes the invariant of the scheduler.
use system_operative_edit.Base.{
  ℕ, ◌≡◌, refl, ◌≢◌, true, false, List, [], ◌∷◌, ◌++◌, arith, ◌==◌, has, has-append,
}
use system_operative_edit.Proc.{Kernel, is_running}
use system_operative_edit.Sched.{queue_insert, init}
use system_operative_edit.Sched.Ring.{IsRing}
use system_operative_edit.Sched.Insert.{queue_insert_lem, state-queue_insert, current-queue_insert}
use system_operative_edit.Sched.Tick.{IsRing-update}
use system_operative_edit.Sched.Dispatch.{Ticked}

-- With the idle thread as the current thread of the process manager, not yet in the queue, and no
-- thread of the queue RUNNING, `scheduler_init` puts the idle thread behind the others and leaves
-- a sound scheduler in which it alone is RUNNING.
pub init-Ticked :
    (k : Kernel) (xs : List ℕ)
    → k.current_thread ≢ 0
    → has k.current_thread xs ≡ false
    → IsRing k xs
    → ((p : ℕ) → has p xs ≡ true → is_running (k.threads p).state ≡ false)
    → Ticked (init k) (xs ++ (k.current_thread ∷ []))
unfolding init
init-Ticked k xs nz out ring still =
    let idle = k.current_thread in
    let e : (idle == 0) ≡ false = ground arith in
    let q = queue_insert idle k in
    let r = queue_insert_lem k idle xs nz out ring in
    let l = xs ++ (idle ∷ []) in
    let kept = current-queue_insert k idle in
    rw e (record {
      sound = record {
        ring = IsRing-update q l idle _ refl r;
        current = ground (arith, has-append idle xs (idle ∷ []));
        alone = λ p i ne.
            ground (arith, has-append p xs (idle ∷ []), still p, state-queue_insert k idle p);
        agree = kept;
      };
      runs = ground arith;
    })
