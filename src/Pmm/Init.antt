-- ===== src/Pmm/Init.antt =====
-- `pmm_init`.
use system_operative_edit.Base.{
  ℕ, zero, suc, ◌+◌, ◌-◌, ◌*◌, ◌/◌, ◌%◌, ◌^◌, ◌≤◌, ◌<◌, ◌≡◌, refl, sym, arith, ltb, leb, not, min,
  if◌then◌else◌, update, ◌&&◌, sub32,
}
use system_operative_edit.Base.Count.{count_below-none}
use system_operative_edit.Pmm.{
  base_addr, max_frames, bitmap_size, Pmm, bitmap_test, fill_bytes, clear_frames, mem_end,
  start_frame, end_frame, init,
}
use system_operative_edit.Pmm.Bitmap.{
  AreBytes, is_used, bitmap_clear-AreBytes, bitmap_test-clear, bitmap_test_of_full,
}
use system_operative_edit.Pmm.Alloc.{IsValid}

fill_bytes_lem :
    (r i : ℕ) (bm : ℕ → ℕ) (j : ℕ)
    → fill_bytes r i bm j ≡ (if leb i j && ltb j (i + r) then 255 else bm j)
unfolding fill_bytes
fill_bytes_lem zero i bm j = ground arith
fill_bytes_lem (suc r) i bm j = ground (arith, fill_bytes_lem r (i + 1) (update bm i 255) j)

clear_frames-AreBytes : (r i : ℕ) {bm : ℕ → ℕ} → AreBytes bm → AreBytes (clear_frames r i bm)
unfolding clear_frames
clear_frames-AreBytes zero i bytes = bytes
clear_frames-AreBytes (suc r) i bytes =
    clear_frames-AreBytes r (i + 1) (bitmap_clear-AreBytes bytes i)

clear_frames_lem :
    (r i : ℕ) {bm : ℕ → ℕ}
    → AreBytes bm
    → (f : ℕ)
    → bitmap_test (clear_frames r i bm) f
      ≡ (if leb i f && ltb f (i + r) then 0 else bitmap_test bm f)
unfolding clear_frames
clear_frames_lem zero i bytes f = ground arith
clear_frames_lem (suc r) i bytes f = ground (
  arith,
  clear_frames_lem r (i + 1) (bitmap_clear-AreBytes bytes i) f,
  bitmap_test-clear bytes i f,
)

-- The state after `pmm_init` that manages `n` frames.
pub record Ready (n : ℕ) (p : Pmm) : Type 0 where
  pub total : p.total_frames ≡ n
  pub used : p.used ≡ 0
  pub valid : IsValid p
  pub free : (f : ℕ) → f < max_frames → is_used p.bitmap f ≡ not (ltb f n)

end_frame-le : (kb : ℕ) → end_frame kb ≤ max_frames
unfolding end_frame
end_frame-le kb = ground arith

sub32_zero : (n : ℕ) → n ≤ max_frames → sub32 n 0 ≡ n
sub32_zero n h = omega arith

module _ (bm : ℕ → ℕ) (bytes : AreBytes bm) where
  fill_bytes-AreBytes : (r i : ℕ) → AreBytes (fill_bytes r i bm)
  fill_bytes-AreBytes r i j = ground (arith, bytes j, fill_bytes_lem r i bm j)

  bitmap_test_of_fill : (f : ℕ) → f < max_frames → bitmap_test (fill_bytes bitmap_size 0 bm) f ≡ 1
  bitmap_test_of_fill f h =
      let full : fill_bytes bitmap_size 0 bm (f / 8) ≡ 255 =
        ground (arith, fill_bytes_lem bitmap_size 0 bm (f / 8)) in
      let at : f / 8 * 8 + f % 8 ≡ f = omega arith in
      rw at at
        (bitmap_test_of_full (fill_bytes-AreBytes bitmap_size 0) (f / 8) (f % 8) full (omega arith))

  start-Ready :
      (n : ℕ)
      → n ≤ max_frames
      → Ready n (record {
        bitmap = clear_frames n 0 (fill_bytes bitmap_size 0 bm);
        total_frames = n;
        used = 0;
      })
  start-Ready n h =
      let filled = fill_bytes-AreBytes bitmap_size 0 in
      let shown : (f : ℕ)
          → f < max_frames
          → is_used (clear_frames n 0 (fill_bytes bitmap_size 0 bm)) f ≡ not (ltb f n) =
        λ f lt. ground (arith, clear_frames_lem n 0 filled f, bitmap_test_of_fill f lt) in
      record {
        total = refl;
        used = refl;
        valid = record {
          bytes = clear_frames-AreBytes n 0 filled;
          total = h;
          reserved = λ g a b. ground (arith, shown g b);
          count = sym (count_below-none n _ (λ i l. ground (arith, shown i (omega arith))));
        };
        free = shown;
      }

start_frame_lem : start_frame ≡ 0
unfolding start_frame
start_frame_lem = refl

-- After `pmm_init` the allocator is valid, no frame counts as used, and a frame below 16384 is free
-- exactly when it lies below `end_frame`.
init-Ready : (kb : ℕ) (p : Pmm) → AreBytes p.bitmap → Ready (end_frame kb) (init kb p)
unfolding init
init-Ready kb p bytes =
    let le : end_frame kb ≤ max_frames = end_frame-le kb in
    let from : end_frame kb - 0 ≡ end_frame kb = omega arith in
    rw (start_frame_lem, from, sub32_zero (end_frame kb) le)
      (start-Ready p.bitmap bytes (end_frame kb) le)

end_frame_lem :
    (kb : ℕ) → 7168 ≤ kb → kb < 2 ^ 22 - 1024 → end_frame kb ≡ min ((kb - 7168) / 4) 14336
unfolding end_frame mem_end
end_frame_lem kb lo hi = ground arith

end_frame_short : (kb : ℕ) → kb < 7168 → end_frame kb ≡ max_frames
unfolding end_frame mem_end
end_frame_short kb lo = ground arith

module _ (kb : ℕ) (p : Pmm) (bytes : AreBytes p.bitmap) where
  -- With at least 7 MB and less than 4095 MB of upper memory, `pmm_init` makes a valid allocator with
  -- no frame in use that manages exactly the frames from 8 MB to the end of memory, and none above
  -- 64 MB; every other frame of the bitmap is marked.
  pub init_lem : 7168 ≤ kb → kb < 2 ^ 22 - 1024 → Ready (min ((kb - 7168) / 4) 14336) (init kb p)
  init_lem lo hi = rw (← end_frame_lem kb lo hi) (init-Ready kb p bytes)

  -- With less than 7 MB of upper memory the subtraction of the base address wraps, and `pmm_init`
  -- marks all 16384 frames of the bitmap as free, though the memory ends below the first.
  pub init_short : kb < 7168 → ((kb + 1024) * 1024 < base_addr) × Ready max_frames (init kb p)
  init_short lo = (omega arith, rw (← end_frame_short kb lo) (init-Ready kb p bytes))
