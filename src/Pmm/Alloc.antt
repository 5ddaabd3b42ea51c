-- ===== src/Pmm/Alloc.antt =====
-- `pmm_alloc_frame` and the invariant of the frame allocator.
use system_operative_edit.Base.{
  ℕ, ◌+◌, ◌*◌, ◌≤◌, ◌<◌, ◌≡◌, refl, fun_ext, ◌⊎◌, inl, inr, true, false, Option, none, some, arith,
  ltb, Bool-cases, update,
}
use system_operative_edit.Base.Count.{count_below, count_below-le, count_below-set}
use system_operative_edit.Pmm.{
  page_size, max_frames, bitmap_size, base_addr, Pmm, bitmap_set, take_frame, alloc_frame,
  free_frames,
}
use system_operative_edit.Pmm.Bitmap.{AreBytes, is_used, bitmap_set-AreBytes, bitmap_test-set}
use system_operative_edit.Pmm.Search.{AllUsed, FirstFree, scan-FirstFree}

-- The allocator manages the frames below `total_frames`; those above are marked for good, and
-- `pmm_used` counts the marked ones below.
pub record IsValid (p : Pmm) : Type 0 where
  pub bytes : AreBytes p.bitmap
  pub total : p.total_frames ≤ max_frames
  pub reserved : AllUsed p.bitmap p.total_frames max_frames
  pub count : p.used ≡ count_below p.total_frames (is_used p.bitmap)

-- The physical address of a frame.
abbrev pub frame_addr : ℕ → ℕ
frame_addr f = base_addr + f * page_size

pub is_used-set :
    {bm : ℕ → ℕ} → AreBytes bm → (f : ℕ) → is_used (bitmap_set bm f) ≡ update (is_used bm) f true
is_used-set {bm} bytes f = fun_ext λ g. ground (arith, bitmap_test-set bytes f g)

-- The state after frame `f` has been handed out.
pub record Took (p : Pmm) (f : ℕ) (q : Pmm) : Type 0 where
  pub marks : is_used q.bitmap ≡ update (is_used p.bitmap) f true
  pub used : q.used ≡ p.used + 1
  pub total : q.total_frames ≡ p.total_frames

-- Either memory is exhausted, the result is 0 and nothing changes; or the lowest free frame is
-- handed out.
abbrev pub Allocated : Pmm → ℕ × Pmm → Type 0
Allocated p (addr, q) =
    (AllUsed p.bitmap 0 p.total_frames × (addr ≡ 0) × (q ≡ p))
    ⊎ ((f : ℕ) × (f < p.total_frames)
        × (is_used p.bitmap f ≡ false)
        × AllUsed p.bitmap 0 f
        × (addr ≡ frame_addr f)
        × Took p f q)

module _ {p : Pmm} (v : IsValid p) where
  pub used-le : p.used ≤ p.total_frames
  used-le = omega (arith, v.count, count_below-le p.total_frames (is_used p.bitmap))

  take_frame-Allocated :
      (o : Option ℕ) → FirstFree p.bitmap 0 max_frames o → Allocated p (take_frame p o)
  unfolding take_frame
  take_frame-Allocated none h = inl (λ g a b. h g a (omega (arith, v.total)), refl, refl)
  take_frame-Allocated (some f) h =
      let low : f < p.total_frames = elim (Bool-cases (ltb f p.total_frames)) [
        | inl lt ↦ ground arith
        | inr ge ↦ ground (arith, v.reserved f, h.1)
      ] in
      inr (
        f,
        low,
        h.2,
        h.3,
        omega (arith, v.total),
        record {
          marks = is_used-set v.bytes f;
          used = omega (arith, v.total, used-le);
          total = refl;
        },
      )

  -- `pmm_alloc_frame` on a valid state hands out the lowest free frame: the result is its address,
  -- that frame alone becomes used and the counter grows by one. It returns 0, and changes
  -- nothing, exactly when every managed frame is in use.
  pub alloc_frame_lem : Allocated p (alloc_frame p)
  unfolding alloc_frame
  alloc_frame_lem = take_frame-Allocated _ (scan-FirstFree v.bytes bitmap_size)

  take_frame-IsValid :
      (o : Option ℕ) → FirstFree p.bitmap 0 max_frames o → IsValid (take_frame p o).1
  unfolding take_frame
  take_frame-IsValid none h = v
  take_frame-IsValid (some f) h =
      let low : f < p.total_frames = elim (Bool-cases (ltb f p.total_frames)) [
        | inl lt ↦ ground arith
        | inr ge ↦ ground (arith, v.reserved f, h.1)
      ] in
      let marks = is_used-set v.bytes f in
      record {
        bytes = bitmap_set-AreBytes v.bytes f;
        total = v.total;
        reserved = λ g a b. ground (arith, v.reserved g a b, bitmap_test-set v.bytes f g);
        count = rw marks (
            omega (
              arith,
              v.total,
              used-le,
              v.count,
              count_below-set p.total_frames f (is_used p.bitmap) low h.2,
            ));
      }

  -- `pmm_alloc_frame` keeps the invariant of the allocator.
  pub alloc_frame-IsValid : IsValid (alloc_frame p).1
  unfolding alloc_frame
  alloc_frame-IsValid = take_frame-IsValid _ (scan-FirstFree v.bytes bitmap_size)

  -- The number of free frames that is reported is the number of managed frames less those in use,
  -- with no wrap.
  pub free_frames_lem :
      free_frames p + count_below p.total_frames (is_used p.bitmap) ≡ p.total_frames
  unfolding free_frames
  free_frames_lem = omega (arith, v.total, used-le, v.count)
