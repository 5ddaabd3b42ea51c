-- ===== src/Proc/System/Creation.antt =====
-- The invariant under `proc_create_kernel` and `proc_create_user`.
use system_operative_edit.Base.{
  ℕ, ◌≡◌, sym, ap, ◌∙◌, ◌≢◌, inl, inr, true, false, List, [], ◌∷◌, ◌++◌, arith, ◌==◌, Bool-cases,
  length-append, has, has-append,
}
use system_operative_edit.Proc.Create.{Machine, create_kernel}
use system_operative_edit.Proc.Create.Created.{has_of_InUse}
use system_operative_edit.Proc.User.{create_user}
use system_operative_edit.Proc.System.Changes.{Changed, create_kernel-Changed, create_user-Changed}
use system_operative_edit.Proc.System.{IsSystem}
use system_operative_edit.Proc.System.Joined.{Refused, Joined}
use system_operative_edit.Proc.System.Invariant.{After, same_queue, length-le}
use system_operative_edit.Sched.Alive.{alive}

module _ (idle : ℕ) (xs : List ℕ) (s : Machine) (h : IsSystem idle xs s) (s' : Machine) where
  Refused-After : Refused s.kernel xs s'.kernel → After idle xs s s'
  Refused-After f =
      same_queue idle xs s s'
        (record {
          sound = record {
            ring = f.ring;
            current = ap (λ c. has c xs) f.sched_current ∙ h.sound.current;
            alone = λ p i ne.
                ground
                  (arith, ap (λ th. (th p).state) f.threads, h.sound.alone p i, f.sched_current);
            agree = f.current_thread ∙ h.sound.agree ∙ sym f.sched_current;
          };
          used = λ a i e. h.used a i (sym (ap (λ th. (th a).tid) f.threads) ∙ e);
          slots = h.slots;
          counted = f.next_tid ∙ h.counted;
          quanta = λ a. omega (arith, ap (λ th. (th a).quantum) f.threads, h.quanta a);
          idle_queued = h.idle_queued;
          idle_alive = ap (λ th. alive (th idle).state) f.threads ∙ h.idle_alive;
        })
        (λ p i dead. ap (λ th. alive (th p).state) f.threads ∙ dead)

  module _ (t : ℕ) (j : Joined s.kernel xs t s'.kernel) where
    fresh : has t xs ≡ false
    fresh = has_of_InUse s.kernel xs t h.used j.slot.2

    apart : (p : ℕ) → has p xs ≡ true → p ≢ t
    apart p inside e = cc (ap (λ q. has q xs) e, inside, fresh)

    in_queue : (p : ℕ) → has p (xs ++ (t ∷ [])) ≡ true → p ≢ t → has p xs ≡ true
    in_queue p inside ne = ground (arith, has-append p xs (t ∷ []))

    queue_of : (p : ℕ) → has p xs ≡ true → has p (xs ++ (t ∷ [])) ≡ true
    queue_of p inside = ground (arith, has-append p xs (t ∷ []))

    old_state : (p : ℕ) → p ≢ t → (s'.kernel.threads p).state ≡ (s.kernel.threads p).state
    old_state p ne = ap (λ x. x.state) (j.others p ne)

    old_tid : (p : ℕ) → p ≢ t → (s'.kernel.threads p).tid ≡ (s.kernel.threads p).tid
    old_tid p ne = ap (λ x. x.tid) (j.others p ne)

    grown : IsSystem idle (xs ++ (t ∷ [])) s'
    grown = record {
      sound = record {
        ring = j.ring;
        current =
            ap (λ q. has q (xs ++ (t ∷ []))) j.sched_current
            ∙ queue_of s.kernel.sched_current h.sound.current;
        alone = λ p inside off. elim (Bool-cases (p == t)) [
          | inl at ↦
              let e : p ≡ t = ground arith in
              ground (arith, ap (λ q. (s'.kernel.threads q).state) e ∙ j.state)
          | inr other ↦
              let ne : p ≢ t = ground arith in
              ground (
                arith,
                old_state p ne,
                h.sound.alone p (in_queue p inside ne) (λ e. off (e ∙ sym j.sched_current)),
              )
        ];
        agree = j.current_thread ∙ h.sound.agree ∙ sym j.sched_current;
      };
      used = λ p inside e. elim (Bool-cases (p == t)) [
        | inl at ↦
            let at' : p ≡ t = ground arith in
            omega (arith, j.tid, h.counted, ap (λ q. (s'.kernel.threads q).tid) at', e)
        | inr other ↦
            let ne : p ≢ t = ground arith in
            h.used p (in_queue p inside ne) (sym (old_tid p ne) ∙ e)
      ];
      slots = λ p inside. elim (Bool-cases (p == t)) [
        | inl at ↦ ground (arith, j.slot.1)
        | inr other ↦ h.slots p (in_queue p inside (ground arith))
      ];
      counted = omega (arith, j.next_tid, h.counted, length-le h, length-append xs (t ∷ []));
      quanta = λ a. elim (Bool-cases (a == t)) [
        | inl at ↦
            let at' : a ≡ t = ground arith in
            omega (arith, j.quantum, ap (λ q. (s'.kernel.threads q).quantum) at')
        | inr other ↦ omega (arith, ap (λ x. x.quantum) (j.others a (ground arith)), h.quanta a)
      ];
      idle_queued = queue_of idle h.idle_queued;
      idle_alive = ap alive (old_state idle (apart idle h.idle_queued)) ∙ h.idle_alive;
    }

    Joined-After : After idle xs s s'
    Joined-After = (t ∷ [], grown, λ p inside dead. ap alive (old_state p (apart p inside)) ∙ dead)

  Changed-After : Changed s.kernel xs s'.kernel → After idle xs s s'
  Changed-After (inl f) = Refused-After f
  Changed-After (inr (t, j)) = Joined-After t j

module _ (idle : ℕ) (xs : List ℕ) (s : Machine) (h : IsSystem idle xs s) (name : List ℕ) where
  pub create_kernel-After : (entry : ℕ) → After idle xs s (create_kernel name entry s).1
  create_kernel-After entry =
      Changed-After idle xs s h (create_kernel name entry s).1
        (create_kernel-Changed s xs h.sound.ring h.used name entry)

  pub create_user-After :
      (entry code_phys code_size : ℕ)
      → After idle xs s (create_user name entry code_phys code_size s).1
  create_user-After entry code_phys code_size =
      Changed-After idle xs s h (create_user name entry code_phys code_size s).1
        (create_user-Changed s xs h.sound.ring h.used name entry code_phys code_size)
