-- ===== src/Libc.antt =====
-- lib/memory.c: the bump allocator of the kernel's heap, and the memory and string functions over a
-- memory of bytes (a function of the address). boot/freeldr/string.c holds the same six memory and
-- string functions for the loader. Addresses are not wrapped: the ranges lie below 4 GB.
pub mod Malloc
pub mod Memory
pub mod Strings
mod Tests
use system_operative_edit.Base.{
  ℕ, zero, suc, ◌+◌, ◌-◌, ◌%◌, ◌^◌, Option, none, some, ◌&&◌, not, ltb, ◌==◌, if◌then◌else◌, update,
  add32,
}
use system_operative_edit.Base.Int.{ℤ, sub_ℕ, pos, ◌-ℤ◌, signed8}

abbrev pub heap_size : ℕ
heap_size = 0x00600000

-- `heap_current` and `heap_end`
pub record Heap : Type 0 where
  pub current : ℕ
  pub limit : ℕ

-- `PAGE_ALIGN_UP`; `x & ~0xFFF` takes the low twelve bits away.
unfoldable pub page_align_up : ℕ → ℕ
page_align_up x = let y = add32 x 0xFFF in y - y % 4096

-- `kernel_end` is the address of the linker's `_kernel_end`.
unfoldable pub heap_init : ℕ → Heap
heap_init kernel_end =
    let start = page_align_up kernel_end in
    let from = if ltb start 0x00200000 then 0x00200000 else start in
    record { current = from; limit = add32 from heap_size }

-- `(size + 3) & ~3`
unfoldable pub align4 : ℕ → ℕ
align4 size = let y = add32 size 3 in y - y % 4

-- NULL is 0.
unfoldable pub malloc : ℕ → Heap → ℕ × Heap
malloc size h =
    if h.current == 0
    then (0, h)
    else (let n = align4 size in
        if ltb h.limit (add32 h.current n)
        then (0, h)
        else (h.current, record h { current = add32 h.current n }))

-- The bump allocator gives nothing back.
unfoldable pub free : ℕ → Heap → Heap
free ptr h = h

-- The loop of `memset`, from byte `i` on.
unfoldable pub set_bytes : (rounds i ptr val : ℕ) → (ℕ → ℕ) → ℕ → ℕ
set_bytes zero i ptr val m = m
set_bytes (suc r) i ptr val m = set_bytes r (i + 1) ptr val (update m (ptr + i) val)

unfoldable pub memset : (ptr value n : ℕ) → (ℕ → ℕ) → ℕ → ℕ
memset ptr value n m = set_bytes n 0 ptr (value % 256) m

unfoldable pub copy_bytes : (rounds i dest src : ℕ) → (ℕ → ℕ) → ℕ → ℕ
copy_bytes zero i dest src m = m
copy_bytes (suc r) i dest src m = copy_bytes r (i + 1) dest src (update m (dest + i) (m (src + i)))

unfoldable pub memcpy : (dest src n : ℕ) → (ℕ → ℕ) → ℕ → ℕ
memcpy dest src n m = copy_bytes n 0 dest src m

unfoldable pub compare_bytes : (rounds i s1 s2 : ℕ) → (ℕ → ℕ) → ℤ
compare_bytes zero i s1 s2 m = pos 0
compare_bytes (suc r) i s1 s2 m =
    let rest = compare_bytes r (i + 1) s1 s2 m in
    if not (m (s1 + i) == m (s2 + i)) then sub_ℕ (m (s1 + i)) (m (s2 + i)) else rest

unfoldable pub memcmp : (s1 s2 n : ℕ) → (ℕ → ℕ) → ℤ
memcmp s1 s2 n m = compare_bytes n 0 s1 s2 m

-- The loop of `strlen` on fuel; `none` means that the fuel ran out.
unfoldable pub strlen_loop : (fuel len str : ℕ) → (ℕ → ℕ) → Option ℕ
strlen_loop zero len str m = none
strlen_loop (suc f) len str m =
    let rest = strlen_loop f (len + 1) str m in if m (str + len) == 0 then some len else rest

unfoldable pub strlen : (fuel str : ℕ) → (ℕ → ℕ) → Option ℕ
strlen fuel str m = strlen_loop fuel 0 str m

-- The loop of `strcmp` with the subtraction behind it; `char` is signed.
unfoldable pub strcmp_loop : (fuel i s1 s2 : ℕ) → (ℕ → ℕ) → Option ℤ
strcmp_loop zero i s1 s2 m = none
strcmp_loop (suc f) i s1 s2 m =
    let rest = strcmp_loop f (i + 1) s1 s2 m in
    let difference = signed8 (m (s1 + i)) -ℤ signed8 (m (s2 + i)) in
    if not (m (s1 + i) == 0) && not (m (s2 + i) == 0)
    then (if not (m (s1 + i) == m (s2 + i)) then some difference else rest)
    else some difference

unfoldable pub strcmp : (fuel s1 s2 : ℕ) → (ℕ → ℕ) → Option ℤ
strcmp fuel s1 s2 m = strcmp_loop fuel 0 s1 s2 m

-- The loop of `strcpy`, with the terminator that follows it.
unfoldable pub strcpy_loop : (fuel i dest src : ℕ) → (ℕ → ℕ) → Option (ℕ → ℕ)
strcpy_loop zero i dest src m = none
strcpy_loop (suc f) i dest src m =
    let rest = strcpy_loop f (i + 1) dest src (update m (dest + i) (m (src + i))) in
    if m (src + i) == 0 then some (update m (dest + i) 0) else rest

unfoldable pub strcpy : (fuel dest src : ℕ) → (ℕ → ℕ) → Option (ℕ → ℕ)
strcpy fuel dest src m = strcpy_loop fuel 0 dest src m
