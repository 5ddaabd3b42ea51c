-- ===== src/Pmm/Tests.antt =====
-- Runs of the frame allocator, and the theorems about it at inputs that meet their hypotheses.
use system_operative_edit.Base.{◌+◌, ◌/◌, ◌%◌, ◌≡◌, refl, false, arith, ◌==◌, if◌then◌else◌}
use system_operative_edit.Pmm.{
  Pmm, base_addr, page_size, bitmap_test, init, scan_bits, scan_bytes, take_frame, alloc_frame,
  free_frame,
}
use system_operative_edit.Pmm.Bitmap.{is_used}
use system_operative_edit.Base.Bits.{bit_at_full}
use system_operative_edit.Base.Count.{count_below}
use system_operative_edit.Pmm.Alloc.{IsValid, Allocated, alloc_frame_lem}
use system_operative_edit.Pmm.Free.{Gave, free_frame_lem, free_frame-alloc_frame}
use system_operative_edit.Pmm.Init.{Ready, init_lem}

-- The state before `pmm_init`.
abbrev blank : Pmm
blank = record { bitmap = λ i. 0; total_frames = 0; used = 0 }

-- An allocator of 16 frames, the first of which is in use.
abbrev small : Pmm
small = record {
  bitmap = λ i. if i == 0 then 1 else if i == 1 then 0 else 255;
  total_frames = 16;
  used = 1;
}

-- The allocator of a machine with 16 MB.
booted : Pmm
booted = init 14336 blank

booted-Ready : Ready 1792 booted
unfolding booted
booted-Ready = init_lem 14336 blank (λ i. omega arith) (omega arith) (omega arith)

alloc_frame_lem_example : Allocated booted (alloc_frame booted)
alloc_frame_lem_example = alloc_frame_lem booted-Ready.valid

small-IsValid : IsValid small
unfolding count_below bitmap_test
small-IsValid = record {
  bytes = λ i. ground arith;
  total = omega arith;
  reserved = λ g a b.
      let e0 : (g / 8 == 0) ≡ false = ground arith in
      let e1 : (g / 8 == 1) ≡ false = ground arith in
      rw (e0, e1, bit_at_full (g % 8) (omega arith));
  count = refl;
}

alloc_small : (alloc_frame small).0 ≡ base_addr + page_size
unfolding alloc_frame take_frame scan_bytes scan_bits bitmap_test
alloc_small = refl

free_frame_lem_example : Gave small 0 (free_frame (base_addr + 5) small)
unfolding bitmap_test
free_frame_lem_example = free_frame_lem small-IsValid (base_addr + 5) (omega arith) refl

free_frame-alloc_frame_example :
    let q = free_frame (alloc_frame small).0 (alloc_frame small).1 in
    (is_used q.bitmap ≡ is_used small.bitmap) × (q.used ≡ 1)
free_frame-alloc_frame_example = free_frame-alloc_frame small-IsValid (rw alloc_small (omega arith))
