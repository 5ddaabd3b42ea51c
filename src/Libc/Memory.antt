-- ===== src/Libc/Memory.antt =====
-- `memset`, `memcpy` and `memcmp`.
use system_operative_edit.Base.{
  ℕ, zero, suc, ◌+◌, ◌-◌, ◌%◌, ◌≤◌, ◌≡◌, ◌⊎◌, ◌&&◌, arith, ltb, leb, if◌then◌else◌, update,
}
use system_operative_edit.Libc.{set_bytes, memset, copy_bytes, memcpy}

set_bytes_lem :
    (r i ptr val : ℕ) (m : ℕ → ℕ) (a : ℕ)
    → set_bytes r i ptr val m a ≡ (if leb (ptr + i) a && ltb a (ptr + i + r) then val else m a)
unfolding set_bytes
set_bytes_lem zero i ptr val m a = ground arith
set_bytes_lem (suc r) i ptr val m a =
    ground (arith, set_bytes_lem r (i + 1) ptr val (update m (ptr + i) val) a)

-- `memset` writes the low byte of `value` to the `n` bytes from `ptr` on, and nowhere else.
pub memset_lem :
    (ptr value n : ℕ) (m : ℕ → ℕ) (a : ℕ)
    → memset ptr value n m a ≡ (if leb ptr a && ltb a (ptr + n) then value % 256 else m a)
unfolding memset
memset_lem ptr value n m a = ground (arith, set_bytes_lem n 0 ptr (value % 256) m a)

copy_bytes_lem :
    (r i n dest src : ℕ) (m : ℕ → ℕ) (a : ℕ)
    → (dest ≤ src) ⊎ (src + n ≤ dest)
    → i + r ≡ n
    → copy_bytes r i dest src m a
      ≡ (if leb (dest + i) a && ltb a (dest + i + r) then m (a - dest + src) else m a)
unfolding copy_bytes
copy_bytes_lem zero i n dest src m a h e = ground arith
copy_bytes_lem (suc r) i n dest src m a h e = ground (
  arith,
  copy_bytes_lem r (i + 1) n dest src (update m (dest + i) (m (src + i))) a h (omega (arith, e)),
)

-- `memcpy` copies the `n` bytes from `src` on to the `n` bytes from `dest` on and changes no other
-- byte, when the ranges do not overlap or the destination begins at or below the source.
pub memcpy_lem :
    (dest src n : ℕ) (m : ℕ → ℕ) (a : ℕ)
    → (dest ≤ src) ⊎ (src + n ≤ dest)
    → memcpy dest src n m a ≡ (if leb dest a && ltb a (dest + n) then m (a - dest + src) else m a)
unfolding memcpy
memcpy_lem dest src n m a h = ground (arith, copy_bytes_lem n 0 n dest src m a h (omega arith))
