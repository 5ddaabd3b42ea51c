-- ===== src/Gui/Circular.antt =====
-- A circular buffer of `n` slots as the list of what it holds.
use system_operative_edit.Base.{
  ℕ, zero, suc, ◌+◌, ◌-◌, ◌%◌, ◌<◌, ◌≡◌, refl, ap, ◌∙◌, ◌≢◌, true, false, List, [], ◌∷◌, ◌++◌,
  arith, ◌==◌, update, length,
}
use native.Mathlib.Nat.{mod-eq_of_lt, mod-eq-sub-mod, mod-add-mod}
use native.Mathlib.Decide.{dec_lt}

module _ {A : Type 0} (n : ℕ) where
  -- The `c` items from slot `t` on, going round at `n`.
  abbrev pub window : (ℕ → A) → ℕ → ℕ → List A
  window buf t zero = []
  window buf t (suc c) = buf t ∷ window buf ((t + 1) % n) c

  pub length-window : (buf : ℕ → A) (t c : ℕ) → length (window buf t c) ≡ c
  length-window buf t zero = refl
  length-window buf t (suc c) = ap suc (length-window buf ((t + 1) % n) c)

-- Fewer than `n` steps round the buffer do not come back.
round-ne : (n t c : ℕ) → t < n → suc c < n → (t + suc c) % n ≢ t
round-ne n t c ht hc = elim (dec_lt (t + suc c) n) [
  | yes p ↦ omega (arith, mod-eq_of_lt p)
  | no p ↦ omega (
    arith,
    mod-eq-sub-mod {n = t + suc c} {m = n} (omega arith),
    mod-eq_of_lt {n = t + suc c - n} {m = n} (omega arith),
  )
]

module _ {A : Type 0} (n : ℕ) where
  -- Writing the slot behind the window extends it.
  pub window-put :
      (buf : ℕ → A) (v : A) (c t h : ℕ)
      → t < n
      → c < n
      → h ≡ (t + c) % n
      → window n (update buf h v) t (suc c) ≡ window n buf t c ++ (v ∷ [])
  window-put buf v zero t h ht hc e =
      let at : h ≡ t = e ∙ (ap (λ k. k % n) (omega arith) ∙ mod-eq_of_lt ht) in
      let same : (t == h) ≡ true = ground arith in rw same
  window-put buf v (suc c) t h ht hc e =
      let off : (t == h) ≡ false = ground (arith, round-ne n t c ht hc) in
      let shift : (t + suc c) % n ≡ ((t + 1) % n + c) % n =
        rw mod-add-mod (ap (λ k. k % n) (omega arith)) in
      rw off (
        ap (λ l. buf t ∷ l)
          (window-put buf v c ((t + 1) % n) h (omega arith) (omega arith) (e ∙ shift)))
