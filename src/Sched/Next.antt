-- ===== src/Sched/Next.antt =====
-- `queue_next_ready`: the search of the queue for the next READY thread.
use system_operative_edit.Base.{
  ℕ, zero, suc, ◌≤◌, ◌<◌, ◌≡◌, refl, sym, ◌∙◌, ◌≢◌, ◌⊎◌, inl, inr, true, false, some, List, [], ◌∷◌,
  ◌++◌, arith, ◌==◌, if◌then◌else◌, Bool-cases, length, length-append, has, Distinct, has-append,
}
use mathlib.Core.Path.{subst}
use mathlib.Core.List.{append_assoc}
use system_operative_edit.Proc.{Thread, Kernel, max_threads, is_ready}
use system_operative_edit.Sched.{ready_loop, ready_start, queue_next_ready}
use system_operative_edit.Sched.Ring.{
  Chain, IsRing, next_of, Chain-append, Chain-split, Distinct-swap,
}

-- The first READY thread of a list, or 0.
unfoldable pub first_ready : (ℕ → Thread) → List ℕ → ℕ
first_ready th [] = 0
first_ready th (x ∷ xs) = if is_ready (th x).state then x else first_ready th xs

module _ (th : ℕ → Thread) where
  -- The loop round a chain finds the first READY thread on it.
  ready_loop_lem :
      (f start x : ℕ) (xs : List ℕ)
      → Chain (next_of th) x (x ∷ xs) start
      → has start xs ≡ false
      → length xs < f
      → ready_loop f th start x ≡ some (first_ready th (x ∷ xs))
  unfolding ready_loop first_ready
  ready_loop_lem zero start x xs c out fuel = absurd (omega arith)
  ready_loop_lem (suc f) start x [] c out fuel = ground (arith, c.2)
  ready_loop_lem (suc f) start x (y ∷ ys) c out fuel =
      let more : (y == start) ≡ false = ground arith in
      let rest = ready_loop_lem f start y ys (refl, c.2.1, c.2.2) (ground arith) (omega arith) in
      rw c.2.0 (rw more (rw rest (ground arith)))

  first_ready-hit :
      (x : ℕ) (xs : List ℕ) → is_ready (th x).state ≡ true → first_ready th (x ∷ xs) ≡ x
  unfolding first_ready
  first_ready-hit x xs e = rw e

  first_ready-miss :
      (x : ℕ) (xs : List ℕ)
      → is_ready (th x).state ≡ false
      → first_ready th (x ∷ xs) ≡ first_ready th xs
  unfolding first_ready
  first_ready-miss x xs e = rw e

  -- What is found is 0, or a READY thread of the list.
  pub first_ready_cases :
      (xs : List ℕ)
      → (first_ready th xs ≡ 0)
        ⊎ ((is_ready (th (first_ready th xs)).state ≡ true) × (has (first_ready th xs) xs ≡ true))
  unfolding first_ready
  first_ready_cases [] = inl refl
  first_ready_cases (x ∷ xs) = elim (Bool-cases (is_ready (th x).state)) [
    | inl hit ↦
        subst (λ p. (p ≡ 0) ⊎ ((is_ready (th p).state ≡ true) × (has p (x ∷ xs) ≡ true)))
          (sym (first_ready-hit x xs hit)) (inr (hit, ground arith))
    | inr miss ↦
        subst (λ p. (p ≡ 0) ⊎ ((is_ready (th p).state ≡ true) × (has p (x ∷ xs) ≡ true)))
          (sym (first_ready-miss x xs miss))
          (elim (first_ready_cases xs) [ inl z ↦ inl z | inr (r, i) ↦ inr (r, ground arith) ])
  ]

  -- It is 0 only where no thread of the list is READY.
  pub first_ready_none :
      (xs : List ℕ) (p : ℕ)
      → has 0 xs ≡ false
      → first_ready th xs ≡ 0
      → has p xs ≡ true
      → is_ready (th p).state ≡ false
  first_ready_none [] p nz e i = cc
  first_ready_none (x ∷ xs) p nz e i = elim (Bool-cases (is_ready (th x).state)) [
    | inl hit ↦ absurd (ground (arith, first_ready-hit x xs hit))
    | inr miss ↦ elim (Bool-cases (p == x)) [
      | inl at ↦ let q : p ≡ x = ground arith in rw q miss
      | inr off ↦
          first_ready_none xs p (ground arith) (sym (first_ready-miss x xs miss) ∙ e) (ground arith)
    ]
  ]

-- The queue from the thread behind `c` on, round to `c`.
abbrev pub rotation : List ℕ → ℕ → List ℕ → List ℕ
rotation before c behind = behind ++ (before ++ (c ∷ []))

-- A chain holds no null pointer.
pub Chain-no_null :
    (nx : ℕ → ℕ) (p : ℕ) (xs : List ℕ) (stop : ℕ) → Chain nx p xs stop → has 0 xs ≡ false
Chain-no_null nx p [] stop c = refl
Chain-no_null nx p (x ∷ xs) stop c = ground (arith, Chain-no_null nx (nx x) xs stop c.2)

pub length-rotation :
    (before : List ℕ) (c : ℕ) (behind : List ℕ)
    → length (rotation before c behind) ≡ length (before ++ (c ∷ behind))
length-rotation before c behind = omega (
  arith,
  length-append behind (before ++ (c ∷ [])),
  length-append before (c ∷ []),
  length-append before (c ∷ behind),
)

-- From the thread behind `c` the links lead round the queue and back.
pub Chain-rotation :
    (nx : ℕ → ℕ) (x : ℕ) (before : List ℕ) (c : ℕ) (behind : List ℕ)
    → Chain nx x (before ++ (c ∷ behind)) x
    → Chain nx (nx c) (rotation before c behind) (nx c)
Chain-rotation nx x before c behind ch =
    let parts = Chain-split nx x before c behind x ch in
    Chain-append nx (nx c) behind x (before ++ (c ∷ [])) (nx c) parts.1.2
      (Chain-append nx x before c (c ∷ []) (nx c) parts.0 (refl, parts.1.1, refl))

-- The start of a chain that is not empty is not null.
Chain-start :
    (nx : ℕ → ℕ) (p : ℕ) (xs : List ℕ) (stop : ℕ) → Chain nx p xs stop → 0 < length xs → p ≢ 0
Chain-start nx p [] stop c h = absurd (omega arith)
Chain-start nx p (x ∷ xs) stop c h = λ z. c.1 (sym c.0 ∙ z)

pub IsRing-Chain :
    (k : Kernel) (xs : List ℕ)
    → IsRing k xs
    → Chain (next_of k.threads) k.queue_head xs k.queue_head × Distinct xs
IsRing-Chain k [] r = (refl, tt)
IsRing-Chain k (x ∷ xs) r = (subst (λ h. Chain (next_of k.threads) h (x ∷ xs) h) (sym r.0) r.2, r.3)

pub Distinct-rotation :
    (before : List ℕ) (c : ℕ) (behind : List ℕ)
    → Distinct (before ++ (c ∷ behind))
    → Distinct (rotation before c behind)
Distinct-rotation before c behind d =
    Distinct-swap (before ++ (c ∷ [])) behind
      (subst Distinct (sym (append_assoc before (c ∷ []) behind)) d)

-- The loop on a whole circle.
ready_loop_circle :
    (th : ℕ → Thread) (f start : ℕ) (xs : List ℕ)
    → 0 < length xs
    → Chain (next_of th) start xs start
    → Distinct xs
    → length xs ≤ f
    → ready_loop f th start start ≡ some (first_ready th xs)
ready_loop_circle th f start [] pos c d fuel = absurd (omega arith)
ready_loop_circle th f start (x ∷ xs) pos c d fuel =
    subst (λ s. ready_loop f th s s ≡ some (first_ready th (x ∷ xs))) (sym c.0)
      (ready_loop_lem th f x x xs
        (refl, c.1, subst (λ s. Chain (next_of th) ((th x).next) xs s) c.0 c.2) d.0 (omega arith))

-- What the search returns is handed on, unless it is 0 and the current thread is READY.
queue_next_ready-eq :
    (k : Kernel) (c p : ℕ)
    → k.queue_head ≢ 0
    → ready_loop max_threads k.threads (ready_start c k) (ready_start c k) ≡ some p
    → ((p ≡ 0) → is_ready (k.threads c).state ≡ false)
    → queue_next_ready c k ≡ some p
unfolding queue_next_ready
queue_next_ready-eq k c zero h e none_left =
    let h' : (k.queue_head == 0) ≡ false = ground arith in rw (h', e, none_left refl) (ground arith)
queue_next_ready-eq k c (suc p) h e none_left =
    let h' : (k.queue_head == 0) ≡ false = ground arith in rw (h', e)

ready_start-next :
    (k : Kernel) (c : ℕ) → c ≢ 0 → (k.threads c).next ≢ 0 → ready_start c k ≡ (k.threads c).next
unfolding ready_start
ready_start-next k c nz nn = ground arith

-- On a queue of at most 32 threads the search ends, and returns the first READY thread behind the
-- current one, going round the queue and trying the current one last; 0 if there is none.
pub queue_next_ready_lem :
    (k : Kernel) (before : List ℕ) (c : ℕ) (behind : List ℕ)
    → length (before ++ (c ∷ behind)) ≤ max_threads
    → IsRing k (before ++ (c ∷ behind))
    → queue_next_ready c k ≡ some (first_ready k.threads (rotation before c behind))
queue_next_ready_lem k before c behind le r =
    let all = IsRing-Chain k (before ++ (c ∷ behind)) r in
    let l = rotation before c behind in
    let nx = next_of k.threads in
    let size = length-rotation before c behind in
    let some_at : 0 < length (before ++ (c ∷ behind)) =
      omega (arith, length-append before (c ∷ behind)) in
    let round : Chain nx (nx c) l (nx c) = Chain-rotation nx k.queue_head before c behind all.0 in
    let head_ne = Chain-start nx k.queue_head (before ++ (c ∷ behind)) k.queue_head all.0 some_at in
    let c_ne = (Chain-split nx k.queue_head before c behind k.queue_head all.0).1.1 in
    let next_ne = Chain-start nx (nx c) l (nx c) round (omega arith) in
    let on : has c l ≡ true =
      ground (arith, has-append c behind (before ++ (c ∷ [])), has-append c before (c ∷ [])) in
    queue_next_ready-eq k c (first_ready k.threads l) head_ne
      (subst (λ s. ready_loop max_threads k.threads s s ≡ some (first_ready k.threads l))
        (sym (ready_start-next k c c_ne next_ne))
        (ready_loop_circle k.threads max_threads (nx c) l (omega arith) round
          (Distinct-rotation before c behind all.1) (omega arith)))
      (λ z. first_ready_none k.threads l c (Chain-no_null nx (nx c) l (nx c) round) z on)
