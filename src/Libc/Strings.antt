-- ===== src/Libc/Strings.antt =====
-- `strlen`.
use system_operative_edit.Base.{ℕ, zero, suc, ◌+◌, ◌<◌, ◌≡◌, ◌≢◌, some, arith}
use system_operative_edit.Libc.{strlen_loop, strlen}

-- The string at `str` has length `n`.
pub record Terminated (m : ℕ → ℕ) (str n : ℕ) : Type 0 where
  pub inside : (j : ℕ) → j < n → m (str + j) ≢ 0
  pub ends : m (str + n) ≡ 0

strlen_loop_lem :
    (fuel i r n str : ℕ) (m : ℕ → ℕ)
    → Terminated m str n
    → i + r ≡ n
    → r < fuel
    → strlen_loop fuel i str m ≡ some n
unfolding strlen_loop
strlen_loop_lem zero i r n str m t e lt = ground arith
strlen_loop_lem (suc f) i zero n str m t e lt = ground (arith, t.ends)
strlen_loop_lem (suc f) i (suc r) n str m t e lt = ground (
  arith,
  t.inside i (omega (arith, e)),
  strlen_loop_lem f (i + 1) r n str m t (omega (arith, e)) (omega (arith, lt)),
)

-- `strlen` returns the length of a terminated string: `n + 1` rounds are enough.
pub strlen_lem :
    (fuel n str : ℕ) (m : ℕ → ℕ) → Terminated m str n → n < fuel → strlen fuel str m ≡ some n
unfolding strlen
strlen_lem fuel n str m t lt = strlen_loop_lem fuel 0 n n str m t (omega arith) lt
