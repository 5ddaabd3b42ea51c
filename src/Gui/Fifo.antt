-- ===== src/Gui/Fifo.antt =====
-- A first-in first-out queue of at most `cap` items, which drops what does not fit.
use system_operative_edit.Base.{
  ℕ, List, [], ◌∷◌, ◌++◌, Option, none, some, ltb, length, if◌then◌else◌,
}

module _ {A : Type 0} where
  unfoldable pub put : ℕ → List A → A → List A
  put cap q v = if ltb (length q) cap then q ++ (v ∷ []) else q

  unfoldable pub get : List A → Option A × List A
  get [] = (none, [])
  get (v ∷ q) = (some v, q)
