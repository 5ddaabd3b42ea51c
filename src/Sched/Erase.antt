-- ===== src/Sched/Erase.antt =====
-- Taking a thread out of a list, and out of the chain of links that it stands for.
use system_operative_edit.Base.{
  ℕ, zero, suc, ◌<◌, ◌≡◌, refl, sym, ◌≢◌, inl, inr, true, false, some, List, [], ◌∷◌, arith, ◌==◌,
  if◌then◌else◌, Bool-cases, update, length, last_from, has, Distinct,
}
use mathlib.Core.Path.{subst₂}
use system_operative_edit.Proc.{Thread}
use system_operative_edit.Sched.{find_prev}
use system_operative_edit.Sched.Ring.{Chain, next_of, Chain-frame, has-last_from}

-- The list without the thread.
unfoldable pub erase : ℕ → List ℕ → List ℕ
erase t [] = []
erase t (x ∷ xs) = if x == t then xs else x ∷ erase t xs

-- The thread before `t` in `y ∷ ys`, or the last one if there is none.
pub pred_of : ℕ → List ℕ → ℕ → ℕ
pred_of y [] t = y
pred_of y (z ∷ zs) t = if z == t then y else pred_of z zs t

pub pred_of-has : (y : ℕ) (ys : List ℕ) (t : ℕ) → has (pred_of y ys t) (y ∷ ys) ≡ true
unfolding pred_of
pred_of-has y [] t = ground arith
pred_of-has y (z ∷ zs) t = ground (arith, pred_of-has z zs t)

pub pred_of_absent :
    (y : ℕ) (ys : List ℕ) (t : ℕ) → has t ys ≡ false → pred_of y ys t ≡ last_from y ys
unfolding pred_of
pred_of_absent y [] t out = refl
pred_of_absent y (z ∷ zs) t out = ground (arith, pred_of_absent z zs t)

pub has-erase : (a t : ℕ) (xs : List ℕ) → has a xs ≡ false → has a (erase t xs) ≡ false
unfolding erase
has-erase a t [] out = refl
has-erase a t (x ∷ xs) out = ground (arith, has-erase a t xs)

pub Distinct-erase : (t : ℕ) (xs : List ℕ) → Distinct xs → Distinct (erase t xs)
unfolding erase
Distinct-erase t [] d = tt
Distinct-erase t (x ∷ xs) d = elim (Bool-cases (x == t)) [
  | inl at ↦ rw at d.1
  | inr off ↦ rw off (has-erase x t xs d.0, Distinct-erase t xs d.1)
]

-- No thread stands twice, so it is gone.
pub not-has-erase : (t : ℕ) (xs : List ℕ) → Distinct xs → has t (erase t xs) ≡ false
unfolding erase
not-has-erase t [] d = refl
not-has-erase t (x ∷ xs) d = ground (arith, not-has-erase t xs d.1)

pub erase_absent : (t : ℕ) (xs : List ℕ) → has t xs ≡ false → erase t xs ≡ xs
unfolding erase
erase_absent t [] out = refl
erase_absent t (x ∷ xs) out = ground (arith, erase_absent t xs)

pub last-erase :
    (y : ℕ) (ys : List ℕ) (t : ℕ)
    → Distinct (y ∷ ys)
    → has t ys ≡ true
    → last_from y (erase t ys) ≡ (if last_from y ys == t then pred_of y ys t else last_from y ys)
unfolding erase pred_of
last-erase y [] t d i = cc
last-erase y (z ∷ []) t d i = ground arith
last-erase y (z ∷ (w ∷ ws)) t d i = ground (arith, last-erase z (w ∷ ws) t d.1, has-last_from w ws)

module _ (th : ℕ → Thread) where
  -- The loop finds that thread.
  pub find_prev_lem :
      (f head t y : ℕ) (ys : List ℕ)
      → Chain (next_of th) y (y ∷ ys) head
      → has head ys ≡ false
      → length ys < f
      → find_prev f th head t y ≡ some (pred_of y ys t)
  unfolding find_prev pred_of
  find_prev_lem zero head t y ys c out fuel = absurd (omega arith)
  find_prev_lem (suc f) head t y [] c out fuel = ground arith
  find_prev_lem (suc f) head t y (z ∷ zs) c out fuel = rw (c.2.0) (elim (Bool-cases (z == t)) [
    | inl at ↦ rw at
    | inr off ↦
        let more : (z == head) ≡ false = ground arith in
        rw (off, more)
          (find_prev_lem f head t z zs (refl, c.2.1, c.2.2) (ground arith) (omega arith))
  ])

-- The two functions at a first thread that is `t`, and at one that is not.
module _ (y z t : ℕ) (zs : List ℕ) where
  pred_of-hit : (z == t) ≡ true → pred_of y (z ∷ zs) t ≡ y
  unfolding pred_of
  pred_of-hit at = rw at

  pred_of-miss : (z == t) ≡ false → pred_of y (z ∷ zs) t ≡ pred_of z zs t
  unfolding pred_of
  pred_of-miss off = rw off

  erase-hit : (z == t) ≡ true → erase t (z ∷ zs) ≡ zs
  unfolding erase
  erase-hit at = rw at

  erase-miss : (z == t) ≡ false → erase t (z ∷ zs) ≡ z ∷ erase t zs
  unfolding erase
  erase-miss off = rw off

  has-miss : (z == t) ≡ false → has t (z ∷ zs) ≡ true → has t zs ≡ true
  has-miss off i = ground arith

-- The chain without `t`.
pub Chain-skip :
    (nx : ℕ → ℕ) (p y : ℕ) (ys : List ℕ) (stop t : ℕ)
    → Distinct (y ∷ ys)
    → has t ys ≡ true
    → Chain nx p (y ∷ ys) stop
    → Chain (update nx (pred_of y ys t) (nx t)) p (y ∷ erase t ys) stop
Chain-skip nx p y [] stop t d i c = cc
Chain-skip nx p y (z ∷ zs) stop t d i c = elim (Bool-cases (z == t)) [
  | inl at ↦
      let e : z ≡ t = ground arith in
      let self : (y == y) ≡ true = ground arith in
      subst₂ (λ q es. Chain (update nx q (nx t)) p (y ∷ es) stop) (sym (pred_of-hit y z t zs at))
        (sym (erase-hit y z t zs at))
        (c.0, c.1, rw self (Chain-frame nx (nx t) zs stop y (nx t) (ground arith) (rw e at c.2.2)))
  | inr off ↦
      let other : (y == pred_of z zs t) ≡ false = ground (arith, pred_of-has z zs t) in
      subst₂ (λ q es. Chain (update nx q (nx t)) p (y ∷ es) stop) (sym (pred_of-miss y z t zs off))
        (sym (erase-miss y z t zs off))
        (c.0, c.1, rw other (Chain-skip nx (nx y) z zs stop t d.1 (has-miss y z t zs off i) c.2))
]

-- The predecessor's link leads to `t`.
pub pred_of-next :
    (nx : ℕ → ℕ) (p y : ℕ) (ys : List ℕ) (stop t : ℕ)
    → has t ys ≡ true
    → Chain nx p (y ∷ ys) stop
    → nx (pred_of y ys t) ≡ t
pred_of-next nx p y [] stop t i c = cc
pred_of-next nx p y (z ∷ zs) stop t i c = elim (Bool-cases (z == t)) [
  | inl at ↦ rw (pred_of-hit y z t zs at) (ground (arith, c.2.0))
  | inr off ↦
      rw (pred_of-miss y z t zs off)
        (pred_of-next nx (nx y) z zs stop t (has-miss y z t zs off i) c.2)
]

-- The last link leads to the end.
pub last_from-next :
    (nx : ℕ → ℕ) (p y : ℕ) (ys : List ℕ) (stop : ℕ)
    → Chain nx p (y ∷ ys) stop
    → nx (last_from y ys) ≡ stop
last_from-next nx p y [] stop c = c.2
last_from-next nx p y (z ∷ zs) stop c = last_from-next nx (nx y) z zs stop c.2

pub erase-head : (x t : ℕ) (xs : List ℕ) → x ≡ t → erase t (x ∷ xs) ≡ xs
unfolding erase
erase-head x t xs e = ground arith

pub erase-tail : (x t : ℕ) (xs : List ℕ) → x ≢ t → erase t (x ∷ xs) ≡ x ∷ erase t xs
unfolding erase
erase-tail x t xs e = ground arith
