-- ===== src/Sched/Remove.antt =====
-- `queue_remove`: any thread leaves the queue and the others keep their order.
use system_operative_edit.Base.{
  ℕ, ◌≤◌, ◌≡◌, refl, sym, ap, ◌∙◌, ◌≢◌, ◌⊎◌, inl, inr, true, false, ◌&&◌, ◌||◌, Option, some, List,
  [], ◌∷◌, arith, ◌==◌, if◌then◌else◌, Bool-cases, update, length, last_from, has,
}
use mathlib.Core.Path.{subst}
use system_operative_edit.Proc.{Kernel, set_next, max_threads}
use system_operative_edit.Sched.{find_prev, unlink, queue_remove, remove_thread}
use system_operative_edit.Sched.Ring.{
  Chain, IsRing, next_of, next_of-set_next, Chain-frame, Chain-relink, has-last_from,
}
use system_operative_edit.Sched.Erase.{
  erase, pred_of, pred_of_absent, has-erase, not-has-erase, Distinct-erase, erase_absent,
  last-erase, find_prev_lem, Chain-skip, pred_of-next, last_from-next, erase-head, erase-tail,
}

-- What `unlink` does at a predecessor of `t`.
module _ (k : Kernel) (prev t : ℕ) where
  unlink-eq :
      (k.threads prev).next ≡ t
      → unlink prev t k ≡ (
          let linked = set_next k.threads prev (k.threads t).next in
          record k {
            queue_head = if k.queue_head == t then (linked t).next else k.queue_head;
            queue_tail = if k.queue_tail == t then prev else k.queue_tail;
            threads = set_next linked t 0;
          })
  unfolding unlink
  unlink-eq e = let e' : ((k.threads prev).next == t) ≡ true = ground arith in rw e'

  unlink-absent : (k.threads prev).next ≢ t → unlink prev t k ≡ k
  unfolding unlink
  unlink-absent e = let e' : ((k.threads prev).next == t) ≡ false = ground arith in rw e'

  next_of-linked :
      next_of (set_next (set_next k.threads prev (k.threads t).next) t 0)
      ≡ update (update (next_of k.threads) prev (next_of k.threads t)) t 0
  next_of-linked =
      next_of-set_next (set_next k.threads prev (k.threads t).next) t 0
      ∙ ap (λ nx. update nx t 0) (next_of-set_next k.threads prev (k.threads t).next)

-- The ring after `t`, which is not its head, has been taken out.
Ring-remove :
    (k : Kernel) (x : ℕ) (xs : List ℕ) (t : ℕ)
    → IsRing k (x ∷ xs)
    → has t xs ≡ true
    → IsRing (unlink (pred_of x xs t) t k) (x ∷ erase t xs)
Ring-remove k x xs t r i =
    let nx = next_of k.threads in
    let q = pred_of x xs t in
    let other : (k.queue_head == t) ≡ false = ground (arith, r.0, r.3.0) in
    let gone : has t (x ∷ erase t xs) ≡ false = ground (arith, r.3.0, not-has-erase t xs r.3.1) in
    subst (λ q. IsRing q (x ∷ erase t xs))
      (sym (unlink-eq k q t (pred_of-next nx x x xs x t i r.2)))
      (
        rw other r.0,
        ground (arith, last-erase x xs t r.3 i, r.1),
        subst (λ nx'. Chain nx' x (x ∷ erase t xs) x) (sym (next_of-linked k q t))
            (Chain-frame (update nx q (nx t)) x (x ∷ erase t xs) x t 0 gone
              (Chain-skip nx x x xs x t r.3 i r.2)),
        (has-erase x t xs r.3.0, Distinct-erase t xs r.3.1),
      )

-- The ring after its head has been taken out.
Ring-remove_head :
    (k : Kernel) (x y : ℕ) (ys : List ℕ)
    → IsRing k (x ∷ (y ∷ ys))
    → IsRing (unlink (last_from y ys) x k) (y ∷ ys)
Ring-remove_head k x y ys r =
    let nx = next_of k.threads in
    let q = last_from y ys in
    let at : (k.queue_head == x) ≡ true = ground (arith, r.0) in
    let apart : (x == q) ≡ false = ground (arith, r.3.0, has-last_from y ys) in
    let tail : (k.queue_tail == x) ≡ false = ground (arith, r.1, apart) in
    let c : Chain nx (nx x) (y ∷ ys) x = r.2.2 in
    subst (λ q. IsRing q (y ∷ ys)) (sym (unlink-eq k q x (last_from-next nx (nx x) y ys x c)))
      (
        rw (at, apart) c.0,
        rw tail r.1,
        subst (λ nx'. Chain nx' y (y ∷ ys) y) (sym (next_of-linked k q x))
            (Chain-frame (update nx q (nx x)) y (y ∷ ys) y x 0 r.3.0 (
              subst (λ v. Chain (update nx q v) y (y ∷ ys) y) (sym c.0)
                (Chain-relink nx y y ys x y r.3.1 (refl, c.1, c.2)))),
        r.3.1,
      )

module _ (k : Kernel) (t : ℕ) (nz : t ≢ 0) where
  -- The search is made, and succeeds.
  queue_remove-found :
      (prev : ℕ)
      → k.queue_head ≢ 0
      → (((k.threads k.queue_head).next ≢ k.queue_head) ⊎ (k.queue_head ≢ t))
      → find_prev max_threads k.threads k.queue_head t k.queue_head ≡ some prev
      → queue_remove t k ≡ some (unlink prev t k)
  unfolding queue_remove
  queue_remove-found prev h two found =
      let a : ((k.queue_head == 0) || (t == 0)) ≡ false = ground arith in
      let b : (((k.threads k.queue_head).next == k.queue_head) && (k.queue_head == t)) ≡ false =
        ground arith in
      rw (a, b, found)

  queue_remove-last :
      k.queue_head ≡ t
      → (k.threads t).next ≡ t
      → queue_remove t k
        ≡ some (record k { queue_head = 0; queue_tail = 0; threads = set_next k.threads t 0 })
  unfolding queue_remove
  queue_remove-last h n =
      let a : ((k.queue_head == 0) || (t == 0)) ≡ false = ground arith in
      let b : (((k.threads k.queue_head).next == k.queue_head) && (k.queue_head == t)) ≡ true =
        rw (h, n) (ground arith) in
      rw (a, b)

  queue_remove-empty : k.queue_head ≡ 0 → queue_remove t k ≡ some k
  unfolding queue_remove
  queue_remove-empty h = let a : (k.queue_head == 0) ≡ true = ground arith in rw a

-- The removal ends, the thread is gone from the queue and the others keep their order; and nothing
-- changes when it was not there.
pub Removed : Kernel → ℕ → List ℕ → Option Kernel → Type 0
Removed k t xs o =
    (k' : Kernel) × (o ≡ some k') × IsRing k' (erase t xs) × (has t xs ≡ false → k' ≡ k)

module _ (k : Kernel) (t : ℕ) (nz : t ≢ 0) where
  -- For a queue of one thread.
  Removed-one : (x : ℕ) → IsRing k (x ∷ []) → Removed k t (x ∷ []) (queue_remove t k)
  unfolding Removed erase
  Removed-one x r = elim (Bool-cases (x == t)) [
    | inl at ↦
        let e : x ≡ t = ground arith in
        let n : (k.threads t).next ≡ t = rw (← e) r.2.2 in
        (
          record k { queue_head = 0; queue_tail = 0; threads = set_next k.threads t 0 },
          queue_remove-last k t nz (r.0 ∙ e) n,
          rw at (refl, refl),
          λ out. ground arith,
        )
    | inr off ↦
        let found = find_prev_lem k.threads max_threads x t x [] r.2 refl (omega arith) in
        let stay : (k.threads x).next ≢ t = ground (arith, r.2.2) in
        (
          k,
          queue_remove-found k t nz x (λ z. r.2.1 (sym r.0 ∙ z)) (inr (ground (arith, r.0)))
                (rw r.0 (found ∙ ap some (pred_of_absent x [] t refl)))
              ∙ ap some (unlink-absent k x t stay),
          rw off r,
          λ out. refl,
        )
  ]

  -- For a queue of two threads or more.
  module _ (x y : ℕ) (ys : List ℕ) (le : length (x ∷ (y ∷ ys)) ≤ max_threads)
      (r : IsRing k (x ∷ (y ∷ ys))) where
    removal : (p : ℕ) → pred_of x (y ∷ ys) t ≡ p → queue_remove t k ≡ some (unlink p t k)
    removal p e =
        queue_remove-found k t nz p (λ z. r.2.1 (sym r.0 ∙ z))
          (inl (ground (arith, r.0, r.2.2.0, r.3.0)))
          (rw r.0 (
            find_prev_lem k.threads max_threads x t x (y ∷ ys) r.2 r.3.0 (omega arith) ∙ ap some e))

    Removed-head : x ≡ t → Removed k t (x ∷ (y ∷ ys)) (queue_remove t k)
    unfolding Removed
    Removed-head e =
        let q = last_from y ys in
        let p : pred_of x (y ∷ ys) t ≡ q =
          pred_of_absent x (y ∷ ys) t (subst (λ a. has a (y ∷ ys) ≡ false) e r.3.0) in
        (
          unlink q t k,
          removal q p,
          subst (λ l. IsRing (unlink q t k) l) (sym (erase-head x t (y ∷ ys) e))
              (subst (λ a. IsRing (unlink q a k) (y ∷ ys)) e (Ring-remove_head k x y ys r)),
          λ out. ground arith,
        )

    Removed-tail : x ≢ t → has t (y ∷ ys) ≡ true → Removed k t (x ∷ (y ∷ ys)) (queue_remove t k)
    unfolding Removed
    Removed-tail ne i = (
      unlink (pred_of x (y ∷ ys) t) t k,
      removal _ refl,
      subst (λ l. IsRing (unlink (pred_of x (y ∷ ys) t) t k) l) (sym (erase-tail x t (y ∷ ys) ne))
          (Ring-remove k x (y ∷ ys) t r i),
      λ out. ground arith,
    )

    Removed-absent : x ≢ t → has t (y ∷ ys) ≡ false → Removed k t (x ∷ (y ∷ ys)) (queue_remove t k)
    unfolding Removed
    Removed-absent ne out =
        let q = last_from y ys in
        let stay : (k.threads q).next ≢ t =
          λ e. ne (sym (last_from-next (next_of k.threads) x x (y ∷ ys) x r.2) ∙ e) in
        (
          k,
          removal q (pred_of_absent x (y ∷ ys) t out) ∙ ap some (unlink-absent k q t stay),
          subst (λ l. IsRing k l) (sym (erase_absent t (x ∷ (y ∷ ys)) (ground arith))) r,
          λ o. refl,
        )

  Removed-ring :
      (xs : List ℕ) → length xs ≤ max_threads → IsRing k xs → Removed k t xs (queue_remove t k)
  unfolding Removed
  Removed-ring [] le r = (
    k,
    queue_remove-empty k t nz r.0,
    subst (λ l. IsRing k l) (sym (erase_absent t [] refl)) r,
    λ o. refl,
  )
  Removed-ring (x ∷ []) le r = Removed-one x r
  Removed-ring (x ∷ (y ∷ ys)) le r = elim (Bool-cases (x == t)) [
    | inl at ↦ Removed-head x y ys le r (ground arith)
    | inr off ↦ elim (Bool-cases (has t (y ∷ ys))) [
      | inl i ↦ Removed-tail x y ys le r (ground arith) i
      | inr out ↦ Removed-absent x y ys le r (ground arith) out
    ]
  ]

-- On a queue of at most 32 threads `scheduler_remove_thread` ends; the thread is gone from the queue
-- and the others keep their order; a thread that is not in the queue changes nothing.
pub remove_thread_lem :
    (k : Kernel) (t : ℕ) (xs : List ℕ)
    → t ≢ 0
    → length xs ≤ max_threads
    → IsRing k xs
    → Removed k t xs (remove_thread t k)
unfolding remove_thread
remove_thread_lem k t xs nz le r =
    let e : (t == 0) ≡ false = ground arith in rw e (Removed-ring k t nz xs le r)
