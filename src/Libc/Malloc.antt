-- ===== src/Libc/Malloc.antt =====
-- `heap_init` and `malloc`.
use system_operative_edit.Base.{◌*◌, ◌/◌, ℕ, ◌+◌, ◌-◌, ◌%◌, ◌^◌, ◌≤◌, ◌<◌, ◌≡◌, ◌⊎◌, arith}
use system_operative_edit.Libc.{Heap, heap_size, heap_init, page_align_up, align4, malloc}

-- The heap has been initialised: it starts at or above 2 MB, at a multiple of 4, and ends below 4 GB.
pub record IsValid (h : Heap) : Type 0 where
  pub start : 0x00200000 ≤ h.current
  pub aligned : h.current % 4 ≡ 0
  pub room : h.current ≤ h.limit
  pub limit : h.limit < 2 ^ 32

-- For a kernel that ends far enough below 4 GB, `heap_init` places the heap at or above the end of the
-- kernel and 2 MB, on a page, with 6 MB of room.
pub heap_init_lem :
    (kernel_end : ℕ)
    → kernel_end + heap_size + 4096 < 2 ^ 32
    → let h = heap_init kernel_end in
      IsValid h
      × (kernel_end ≤ h.current)
      × (h.current % 4096 ≡ 0)
      × (h.limit ≡ h.current + heap_size)
unfolding heap_init page_align_up
heap_init_lem e h = ground arith

-- A request for which neither the rounding nor the sum wraps is served exactly when its size, rounded up to a
-- multiple of 4, fits: the block starts at the old top, at a multiple of 4, the top moves by the rounded size, and
-- the heap stays valid. Otherwise the result is 0 and nothing changes.
pub malloc_lem :
    (size : ℕ) (h : Heap)
    → IsValid h
    → h.limit + size + 3 < 2 ^ 32
    → let (p, h') = malloc size h in
      ((h.current + (size + 3) / 4 * 4 ≤ h.limit)
        × (p ≡ h.current)
        × (p % 4 ≡ 0)
        × (h'.current ≡ p + (size + 3) / 4 * 4)
        × (h'.limit ≡ h.limit)
        × IsValid h')
      ⊎ ((h.limit < h.current + (size + 3) / 4 * 4) × (p ≡ 0) × (h' ≡ h))
unfolding malloc align4
malloc_lem size h v small = ground (arith, v.start, v.aligned, v.room, v.limit)

-- A request of more than 4 GB less four bytes is rounded to 0, and a valid block is returned for it
-- though no byte is reserved: the next request gets the same address.
pub malloc_wraps :
    (size : ℕ) (h : Heap)
    → IsValid h
    → 2 ^ 32 - 3 ≤ size
    → size < 2 ^ 32
    → malloc size h ≡ (h.current, h)
unfolding malloc align4
malloc_wraps size h v big lt = ground (arith, v.start, v.aligned, v.room, v.limit)
