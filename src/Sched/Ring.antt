-- ===== src/Sched/Ring.antt =====
-- The circular queue of scheduler.c as a list of threads, and how its links change.
use system_operative_edit.Base.{
  ℕ, ◌≡◌, refl, fun_ext, ◌≢◌, true, false, List, [], ◌∷◌, ◌++◌, arith, ◌==◌, update, last_from, has,
  Distinct, has-append,
}
use system_operative_edit.Proc.{Thread, Kernel, set_next}

abbrev pub next_of : (ℕ → Thread) → ℕ → ℕ
next_of th a = (th a).next

-- From `p` the links `nx` lead through the threads `xs` to `stop`.
abbrev pub Chain : (ℕ → ℕ) → ℕ → List ℕ → ℕ → Type 0
Chain nx p [] stop = p ≡ stop
Chain nx p (x ∷ xs) stop = (p ≡ x) × (x ≢ 0) × Chain nx (nx x) xs stop

-- A queue with this head, tail and links holds the threads of the list, head first.
abbrev pub Ring : (ℕ → ℕ) → (head tail : ℕ) → List ℕ → Type 0
Ring nx head tail [] = (head ≡ 0) × (tail ≡ 0)
Ring nx head tail (x ∷ xs) =
    (head ≡ x) × (tail ≡ last_from x xs) × Chain nx x (x ∷ xs) x × Distinct (x ∷ xs)

-- The scheduler's queue holds the threads of the list.
abbrev pub IsRing : Kernel → List ℕ → Type 0
IsRing k xs = Ring (next_of k.threads) k.queue_head k.queue_tail xs

pub next_of-set_next :
    (th : ℕ → Thread) (p q : ℕ) → next_of (set_next th p q) ≡ update (next_of th) p q
next_of-set_next th p q = fun_ext λ a. ground arith

-- A write to a thread that keeps its link keeps every link.
pub next_of-update :
    (th : ℕ → Thread) (p : ℕ) (t : Thread)
    → t.next ≡ (th p).next
    → next_of (update th p t) ≡ next_of th
next_of-update th p t e = fun_ext λ a. ground arith

-- The last thread of a list is on it.
pub has-last_from : (x : ℕ) (xs : List ℕ) → has (last_from x xs) (x ∷ xs) ≡ true
has-last_from x [] = ground arith
has-last_from x (y ∷ ys) = ground (arith, has-last_from y ys)

module _ (nx : ℕ → ℕ) where
  -- A chain survives a write to a thread that is not on it.
  pub Chain-frame :
      (p : ℕ) (xs : List ℕ) (stop a v : ℕ)
      → has a xs ≡ false
      → Chain nx p xs stop
      → Chain (update nx a v) p xs stop
  Chain-frame p [] stop a v out c = c
  Chain-frame p (x ∷ xs) stop a v out c =
      let off : (x == a) ≡ false = ground arith in
      (c.0, c.1, rw off (Chain-frame (nx x) xs stop a v (ground arith) c.2))

  -- Pointing the last thread elsewhere.
  pub Chain-relink :
      (p x : ℕ) (xs : List ℕ) (stop t : ℕ)
      → Distinct (x ∷ xs)
      → Chain nx p (x ∷ xs) stop
      → Chain (update nx (last_from x xs) t) p (x ∷ xs) t
  Chain-relink p x [] stop t d c = (c.0, c.1, ground arith)
  Chain-relink p x (y ∷ ys) stop t d c =
      let off : (x == last_from y ys) ≡ false = ground (arith, has-last_from y ys) in
      (c.0, c.1, rw off (Chain-relink (nx x) y ys stop t d.1 c.2))

  pub Chain-append :
      (p : ℕ) (xs : List ℕ) (m : ℕ) (ys : List ℕ) (stop : ℕ)
      → Chain nx p xs m
      → Chain nx m ys stop
      → Chain nx p (xs ++ ys) stop
  Chain-append p [] m ys stop a b = rw a b
  Chain-append p (x ∷ xs) m ys stop a b = (a.0, a.1, Chain-append (nx x) xs m ys stop a.2 b)

  pub Chain-split :
      (p : ℕ) (xs : List ℕ) (y : ℕ) (ys : List ℕ) (stop : ℕ)
      → Chain nx p (xs ++ (y ∷ ys)) stop
      → Chain nx p xs y × (Chain nx y (y ∷ ys) stop)
  Chain-split p [] y ys stop c = (c.0, (refl, c.1, c.2))
  Chain-split p (x ∷ xs) y ys stop c =
      let rest = Chain-split (nx x) xs y ys stop c.2 in ((c.0, c.1, rest.0), rest.1)

-- Distinct lists joined, and taken apart.
pub Distinct-split :
    (xs ys : List ℕ)
    → Distinct (xs ++ ys)
    → Distinct xs × Distinct ys × ((a : ℕ) → has a xs ≡ true → has a ys ≡ false)
Distinct-split [] ys d = (tt, d, λ a i. cc)
Distinct-split (x ∷ xs) ys d =
    let rest = Distinct-split xs ys d.1 in
    (
      (ground (arith, has-append x xs ys), rest.0),
      rest.1,
      λ a i. ground (arith, has-append x xs ys, rest.2 a),
    )

pub Distinct-join :
    (xs ys : List ℕ)
    → Distinct xs
    → Distinct ys
    → ((a : ℕ) → has a xs ≡ true → has a ys ≡ false)
    → Distinct (xs ++ ys)
Distinct-join [] ys d e apart = e
Distinct-join (x ∷ xs) ys d e apart = (
  ground (arith, has-append x xs ys, apart x),
  Distinct-join xs ys d.1 e (λ a i. apart a (ground arith)),
)

pub Distinct-swap : (xs ys : List ℕ) → Distinct (xs ++ ys) → Distinct (ys ++ xs)
Distinct-swap xs ys d =
    let parts = Distinct-split xs ys d in
    Distinct-join ys xs parts.1 parts.0 (λ a i. ground (arith, parts.2 a))
