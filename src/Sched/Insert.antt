-- ===== src/Sched/Insert.antt =====
-- `queue_insert` and `scheduler_add_thread`: insertion at the end of the queue.
use system_operative_edit.Base.{
  ℕ, ◌≡◌, refl, sym, ap, ◌∙◌, ◌≢◌, true, false, List, [], ◌∷◌, ◌++◌, arith, ◌==◌, update, last_from,
  last_from-append, has, Distinct, Distinct-append,
}
use mathlib.Core.Path.{subst, ap₂}
use system_operative_edit.Proc.{ThreadState, Thread, Kernel, set_next}
use system_operative_edit.Sched.{queue_insert, add_thread}
use system_operative_edit.Sched.Ring.{
  Chain, Ring, IsRing, next_of, next_of-set_next, next_of-update, Chain-frame, Chain-relink,
  Chain-append, has-last_from,
}

-- The links after an insertion behind a queue that is not empty.
Ring-insert :
    (nx : ℕ → ℕ) (x : ℕ) (xs : List ℕ) (t : ℕ)
    → t ≢ 0
    → has t (x ∷ xs) ≡ false
    → Chain nx x (x ∷ xs) x
    → Distinct (x ∷ xs)
    → Chain (update (update nx t x) (last_from x xs) t) x ((x ∷ xs) ++ (t ∷ [])) x
Ring-insert nx x xs t nz out c d =
    let off : (t == last_from x xs) ≡ false = ground (arith, has-last_from x xs) in
    Chain-append _ x (x ∷ xs) t (t ∷ []) x
      (Chain-relink _ x x xs x t d (Chain-frame nx x (x ∷ xs) x t x out c))
      (refl, nz, rw off (ground arith))

queue_insert-nil :
    (k : Kernel) (t : ℕ)
    → t ≢ 0
    → k.queue_head ≡ 0
    → queue_insert t k
      ≡ record k { queue_head = t; queue_tail = t; threads = set_next k.threads t t }
unfolding queue_insert
queue_insert-nil k t nz h =
    let e : (t == 0) ≡ false = ground arith in
    let h' : (k.queue_head == 0) ≡ true = ground arith in rw (e, h')

queue_insert-cons :
    (k : Kernel) (t : ℕ)
    → t ≢ 0
    → k.queue_head ≢ 0
    → queue_insert t k ≡ record k {
      threads = set_next (set_next k.threads t k.queue_head) k.queue_tail t;
      queue_tail = t;
    }
unfolding queue_insert
queue_insert-cons k t nz h =
    let e : (t == 0) ≡ false = ground arith in
    let h' : (k.queue_head == 0) ≡ false = ground arith in rw (e, h')

-- `queue_insert` of a thread that is not in the queue puts it behind the last one.
pub queue_insert_lem :
    (k : Kernel) (t : ℕ) (xs : List ℕ)
    → t ≢ 0
    → has t xs ≡ false
    → IsRing k xs
    → IsRing (queue_insert t k) (xs ++ (t ∷ []))
queue_insert_lem k t [] nz out r =
    subst (λ q. IsRing q (t ∷ [])) (sym (queue_insert-nil k t nz r.0))
      (refl, refl, (refl, nz, ground arith), (refl, tt))
queue_insert_lem k t (x ∷ xs) nz out r =
    let links : next_of (set_next (set_next k.threads t k.queue_head) k.queue_tail t)
        ≡ update (update (next_of k.threads) t x) (last_from x xs) t =
      next_of-set_next (set_next k.threads t k.queue_head) k.queue_tail t
      ∙ ap (λ nx. update nx k.queue_tail t) (next_of-set_next k.threads t k.queue_head)
      ∙ ap₂ (λ h l. update (update (next_of k.threads) t h) l t) r.0 r.1 in
    subst (λ q. IsRing q (x ∷ (xs ++ (t ∷ []))))
      (sym (queue_insert-cons k t nz (λ z. r.2.1 (sym r.0 ∙ z))))
      (
        r.0,
        sym (last_from-append x t xs),
        subst (λ nx. Chain nx x (x ∷ (xs ++ (t ∷ []))) x) (sym links)
            (Ring-insert (next_of k.threads) x xs t nz out r.2 r.3),
        Distinct-append (x ∷ xs) t r.3 out,
      )

pub current-queue_insert :
    (k : Kernel) (t : ℕ) → (queue_insert t k).current_thread ≡ k.current_thread
unfolding queue_insert
current-queue_insert k t = ground arith

pub state-queue_insert :
    (k : Kernel) (t a : ℕ) → ((queue_insert t k).threads a).state ≡ (k.threads a).state
unfolding queue_insert
state-queue_insert k t a = ground arith

-- `scheduler_add_thread` of a thread that is not in the queue puts it behind the last one, READY.
pub add_thread_lem :
    (k : Kernel) (t : ℕ) (xs : List ℕ)
    → t ≢ 0
    → has t xs ≡ false
    → IsRing k xs
    → IsRing (add_thread t k) (xs ++ (t ∷ []))
      × (((add_thread t k).threads t).state ≡ ThreadState.ready)
unfolding add_thread
add_thread_lem k t xs nz out r =
    let e : (t == 0) ≡ false = ground arith in
    let ready_t : Thread = record (k.threads t) { state = ThreadState.ready } in
    let k' : Kernel = record k { threads = update k.threads t ready_t } in
    let r' : IsRing k' xs =
      subst (λ nx. Ring nx k.queue_head k.queue_tail xs)
        (sym (next_of-update k.threads t ready_t refl)) r in
    rw e (queue_insert_lem k' t xs nz out r', (state-queue_insert k' t t ∙ ground arith))

-- A thread without its link.
abbrev pub unlinked : Thread → Thread
unlinked x = record x { next = 0 }

unlinked-queue_insert :
    (k : Kernel) (t a : ℕ) → unlinked ((queue_insert t k).threads a) ≡ unlinked (k.threads a)
unfolding queue_insert
unlinked-queue_insert k t a = ground arith

pub unlinked-add_thread :
    (k : Kernel) (t : ℕ)
    → t ≢ 0
    → unlinked ((add_thread t k).threads t)
      ≡ unlinked (record (k.threads t) { state = ThreadState.ready })
unfolding add_thread
unlinked-add_thread k t nz =
    let e : (t == 0) ≡ false = ground arith in
    let ready_t : Thread = record (k.threads t) { state = ThreadState.ready } in
    rw e
      (unlinked-queue_insert (record k { threads = update k.threads t ready_t }) t t ∙ ground arith)

pub processes-add_thread : (k : Kernel) (t : ℕ) → (add_thread t k).processes ≡ k.processes
unfolding add_thread queue_insert
processes-add_thread k t = ground arith

pub unlinked-add_thread_other :
    (k : Kernel) (t a : ℕ) → a ≢ t → unlinked ((add_thread t k).threads a) ≡ unlinked (k.threads a)
unfolding add_thread queue_insert
unlinked-add_thread_other k t a ne = ground arith

-- What `scheduler_add_thread` leaves alone.
pub add_thread-rest :
    (k : Kernel) (t : ℕ)
    → ((add_thread t k).sched_current ≡ k.sched_current)
      × ((add_thread t k).current_thread ≡ k.current_thread)
      × ((add_thread t k).next_tid ≡ k.next_tid)
unfolding add_thread queue_insert
add_thread-rest k t = ground arith
