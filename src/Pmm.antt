-- ===== src/Pmm.antt =====
-- kernel/mm/pmm.c: the bitmap allocator of physical frames. The static variables are the fields
-- of `Pmm`, the bitmap a function from byte index to byte; each function of the file takes the
-- state and returns the new one beside its result. `init`, `alloc_frame`, `free_frame`,
-- `free_frames` and `used_frames` are the `pmm_` functions of those names.
pub mod Bitmap
pub mod Search
pub mod Alloc
pub mod Free
pub mod Init
mod Tests
use system_operative_edit.Base.{
  ℕ, zero, suc, ◌+◌, ◌-◌, ◌*◌, ◌/◌, ◌%◌, ◌^◌, Bool, Option, none, some, bit_or, bit_and, ltb, leb,
  ◌==◌, if◌then◌else◌, update, add32, sub32,
}
use system_operative_edit.Base.Bits.{bit_at}

abbrev pub page_size : ℕ
page_size = 4096

abbrev pub max_frames : ℕ
max_frames = 16384

abbrev pub bitmap_size : ℕ
bitmap_size = max_frames / 8

abbrev pub free_start : ℕ
free_start = 0x00800000

abbrev pub free_end : ℕ
free_end = 0x04000000

abbrev pub base_addr : ℕ
base_addr = free_start

pub record Pmm : Type 0 where
  pub bitmap : ℕ → ℕ
  pub total_frames : ℕ
  pub used : ℕ

unfoldable pub bitmap_set : (ℕ → ℕ) → ℕ → ℕ → ℕ
bitmap_set bm frame = update bm (frame / 8) (bit_or (bm (frame / 8)) (2 ^ (frame % 8)))

-- `~(uint8_t)(1 << k)`, cut to a byte, is `255 - 2 ^ k`.
unfoldable pub bitmap_clear : (ℕ → ℕ) → ℕ → ℕ → ℕ
bitmap_clear bm frame = update bm (frame / 8) (bit_and (bm (frame / 8)) (255 - 2 ^ (frame % 8)))

unfoldable pub bitmap_test : (ℕ → ℕ) → ℕ → ℕ
bitmap_test bm frame = bit_at (bm (frame / 8)) (frame % 8)

-- The loop that marks every byte 0xFF: the rounds left, and the index.
unfoldable pub fill_bytes : ℕ → ℕ → (ℕ → ℕ) → ℕ → ℕ
fill_bytes zero i bm = bm
fill_bytes (suc r) i bm = fill_bytes r (i + 1) (update bm i 0xFF)

-- The loop that frees the frames from `i` on.
unfoldable pub clear_frames : ℕ → ℕ → (ℕ → ℕ) → ℕ → ℕ
clear_frames zero i bm = bm
clear_frames (suc r) i bm = clear_frames r (i + 1) (bitmap_clear bm i)

-- `mem_end`, cut at `PMM_FREE_END`.
unfoldable pub mem_end : ℕ → ℕ
mem_end mem_upper_kb =
    let e = (add32 mem_upper_kb 1024 * 1024) % 2 ^ 32 in if ltb free_end e then free_end else e

unfoldable pub start_frame : ℕ
start_frame = sub32 free_start base_addr / page_size

unfoldable pub end_frame : ℕ → ℕ
end_frame mem_upper_kb =
    let e = sub32 (mem_end mem_upper_kb) base_addr / page_size in
    if ltb max_frames e then max_frames else e

unfoldable pub init : ℕ → Pmm → Pmm
init mem_upper_kb p =
    let first = start_frame in
    let last = end_frame mem_upper_kb in
    record {
      bitmap = clear_frames (last - first) first (fill_bytes bitmap_size 0 p.bitmap);
      total_frames = sub32 last first;
      used = 0;
    }

-- The inner loop of `pmm_alloc_frame`: bits `j` and on of byte `i`.
unfoldable pub scan_bits : ℕ → (ℕ → ℕ) → ℕ → ℕ → Option ℕ
scan_bits zero bm i j = none
scan_bits (suc r) bm i j =
    let rest = scan_bits r bm i (j + 1) in
    if bitmap_test bm (i * 8 + j) == 0 then some (i * 8 + j) else rest

-- The outer loop, from byte `i` on; a full byte is skipped.
unfoldable pub scan_bytes : ℕ → (ℕ → ℕ) → ℕ → Option ℕ
scan_bytes zero bm i = none
scan_bytes (suc r) bm i =
    let rest = scan_bytes r bm (i + 1) in
    if bm i == 0xFF
    then rest
    else elim (scan_bits 8 bm i 0) [ some frame ↦ some frame | none ↦ rest ]

-- What the loops do with the frame that they find.
unfoldable pub take_frame : Pmm → Option ℕ → ℕ × Pmm
take_frame p none = (0, p)
take_frame p (some frame) = (
  add32 base_addr (frame * page_size),
  record p { bitmap = bitmap_set p.bitmap frame; used = add32 p.used 1 },
)

unfoldable pub alloc_frame : Pmm → ℕ × Pmm
alloc_frame p = take_frame p (scan_bytes bitmap_size p.bitmap 0)

unfoldable pub free_frame : ℕ → Pmm → Pmm
free_frame addr p =
    if ltb addr base_addr
    then p
    else (let frame = (addr - base_addr) / page_size in
        if leb max_frames frame
        then p
        else if bitmap_test p.bitmap frame == 0
        then p
        else record p { bitmap = bitmap_clear p.bitmap frame; used = sub32 p.used 1 })

unfoldable pub free_frames : Pmm → ℕ
free_frames p = sub32 p.total_frames p.used

unfoldable pub used_frames : Pmm → ℕ
used_frames p = p.used
