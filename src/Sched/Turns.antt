-- ===== src/Sched/Turns.antt =====
-- The order of the turns: where a thread stands behind the current one, and how the next turn moves it.
use system_operative_edit.Base.{
  ℕ, suc, ◌+◌, ◌<◌, ◌≡◌, refl, sym, ap, ◌∙◌, inl, inr, true, false, List, [], ◌∷◌, ◌++◌, arith,
  ◌==◌, if◌then◌else◌, Bool-cases, length, length-append, has, has-append,
}
use mathlib.Core.Path.{subst}
use system_operative_edit.Proc.{Thread, Kernel, is_ready}
use system_operative_edit.Sched.Ring.{Chain, IsRing, next_of, Chain-append, Chain-split}
use system_operative_edit.Sched.Next.{
  rotation, first_ready, length-rotation, Chain-rotation, IsRing-Chain,
}

-- How many items stand before `p`.
abbrev pub place : ℕ → List ℕ → ℕ
place p [] = 0
place p (x ∷ xs) = if p == x then 0 else suc (place p xs)

pub place-append_miss :
    (p : ℕ) (a l : List ℕ) → has p a ≡ false → place p (a ++ l) ≡ length a + place p l
place-append_miss p [] l out = omega arith
place-append_miss p (x ∷ a) l out = ground (arith, place-append_miss p a l)

pub place-append_hit : (p : ℕ) (a l : List ℕ) → has p a ≡ true → place p (a ++ l) ≡ place p a
place-append_hit p [] l i = cc
place-append_hit p (x ∷ a) l i = ground (arith, place-append_hit p a l)

pub place-lt-length : (p : ℕ) (a : List ℕ) → has p a ≡ true → place p a < length a
place-lt-length p [] i = cc
place-lt-length p (x ∷ a) i = ground (arith, place-lt-length p a)

-- A chain is determined by its start and its length.
Chain-unique :
    (nx : ℕ → ℕ) (p : ℕ) (xs ys : List ℕ) (s t : ℕ)
    → Chain nx p xs s
    → Chain nx p ys t
    → length xs ≡ length ys
    → xs ≡ ys
Chain-unique nx p [] [] s t c d e = refl
Chain-unique nx p [] (y ∷ ys) s t c d e = absurd (omega (arith, e))
Chain-unique nx p (x ∷ xs) [] s t c d e = absurd (omega (arith, e))
Chain-unique nx p (x ∷ xs) (y ∷ ys) s t c d e =
    let at : x ≡ y = sym c.0 ∙ d.0 in
    let rest =
      Chain-unique nx (nx x) xs ys s t c.2 (subst (λ z. Chain nx (nx z) ys t) (sym at) d.2)
        (omega (arith, e)) in
    ap (λ z. z ∷ xs) at ∙ ap (λ l. y ∷ l) rest

-- Behind a thread `r` the queue goes on as it did, with what stood before `r` last.
pub rotation-rotation :
    (k : Kernel) (before : List ℕ) (c : ℕ) (behind before' : List ℕ) (r : ℕ) (behind' a b : List ℕ)
    → IsRing k (before ++ (c ∷ behind))
    → IsRing k (before' ++ (r ∷ behind'))
    → length (before ++ (c ∷ behind)) ≡ length (before' ++ (r ∷ behind'))
    → rotation before c behind ≡ a ++ (r ∷ b)
    → rotation before' r behind' ≡ b ++ (a ++ (r ∷ []))
rotation-rotation k before c behind before' r behind' a b ring ring' size e =
    let nx = next_of k.threads in
    let old = Chain-rotation nx k.queue_head before c behind (IsRing-Chain k _ ring).0 in
    let new = Chain-rotation nx k.queue_head before' r behind' (IsRing-Chain k _ ring').0 in
    let parts = Chain-split nx (nx c) a r b (nx c) (subst (λ l. Chain nx (nx c) l (nx c)) e old) in
    let turned =
      Chain-append nx (nx r) b (nx c) (a ++ (r ∷ [])) (nx r) parts.1.2
        (Chain-append nx (nx c) a r (r ∷ []) (nx r) parts.0 (refl, parts.1.1, refl)) in
    Chain-unique nx (nx r) (rotation before' r behind') (b ++ (a ++ (r ∷ []))) (nx r) (nx r) new
      turned
      (omega (
        arith,
        length-rotation before c behind,
        length-rotation before' r behind',
        size,
        ap length e,
        length-append a (r ∷ b),
        length-append b (a ++ (r ∷ [])),
        length-append a (r ∷ []),
      ))

-- The first READY thread of a list with a READY thread `p` is `p` or stands before it.
pub first_ready_split :
    (th : ℕ → Thread) (l m : List ℕ) (p : ℕ)
    → is_ready (th p).state ≡ true
    → has p l ≡ true
    → (a : List ℕ) × (b : List ℕ) × (l ≡ a ++ (first_ready th (l ++ m) ∷ b)) × (has p a ≡ false)
unfolding first_ready
first_ready_split th [] m p r i = cc
first_ready_split th (x ∷ l) m p r i = elim (Bool-cases (is_ready (th x).state)) [
  | inl hit ↦ rw hit ([], l, refl, refl)
  | inr miss ↦
      let off : (p == x) ≡ false = ground arith in
      let (a, b, e, out) = first_ready_split th l m p r (ground arith) in
      rw miss (x ∷ a, b, ap (λ z. x ∷ z) e, ground arith)
]

-- With the turn of `r`, every thread behind it comes nearer.
pub place_falls :
    (p r c : ℕ) (a b : List ℕ)
    → has p a ≡ false
    → (p == r) ≡ false
    → has p b ≡ true
    → place p ((b ++ (c ∷ [])) ++ (a ++ (r ∷ []))) < place p (a ++ (r ∷ (b ++ (c ∷ []))))
place_falls p r c a b out off i =
    let i' : has p (b ++ (c ∷ [])) ≡ true = ground (arith, has-append p b (c ∷ [])) in
    ground (
      arith,
      off,
      place-append_hit p (b ++ (c ∷ [])) (a ++ (r ∷ [])) i',
      place-append_miss p a (r ∷ (b ++ (c ∷ []))) out,
    )
