-- ===== src/Pmm/Free.antt =====
-- `pmm_free_frame`.
use system_operative_edit.Base.{
  ℕ, ◌+◌, ◌-◌, ◌*◌, ◌/◌, ◌≤◌, ◌<◌, ◌≡◌, ap, refl, ◌∙◌, fun_ext, ◌⊎◌, ◌≢◌, inl, inr, true, false,
  arith, ◌==◌, ltb, leb, sub32, Bool-cases, update,
}
use system_operative_edit.Base.Count.{count_below-unset}
use system_operative_edit.Pmm.{
  page_size, max_frames, base_addr, Pmm, bitmap_clear, bitmap_test, alloc_frame, free_frame,
}
use system_operative_edit.Pmm.Bitmap.{
  AreBytes, is_used, bitmap_test-lt, bitmap_clear-AreBytes, bitmap_test-clear,
}
use system_operative_edit.Pmm.Alloc.{IsValid, alloc_frame_lem, alloc_frame-IsValid, used-le}

is_used-clear :
    {bm : ℕ → ℕ} → AreBytes bm → (f : ℕ) → is_used (bitmap_clear bm f) ≡ update (is_used bm) f false
is_used-clear {bm} bytes f = fun_ext λ g. ground (arith, bitmap_test-clear bytes f g)

-- The state after frame `f` has been given back.
pub record Gave (p : Pmm) (f : ℕ) (q : Pmm) : Type 0 where
  pub marks : is_used q.bitmap ≡ update (is_used p.bitmap) f false
  pub used : q.used + 1 ≡ p.used
  pub total : q.total_frames ≡ p.total_frames

-- The addresses that belong to no managed frame's page and to none above them.
abbrev pub Managed : Pmm → ℕ → Type 0
Managed p addr = (base_addr ≤ addr) × (addr < base_addr + p.total_frames * page_size)

-- The frame of an address.
abbrev pub frame_of : ℕ → ℕ
frame_of addr = (addr - base_addr) / page_size

module _ {p : Pmm} (v : IsValid p) (addr : ℕ) where
  -- A used frame counts.
  used-pos : (f : ℕ) → f < p.total_frames → is_used p.bitmap f ≡ true → 0 < p.used
  used-pos f lt u =
      omega (arith, v.count, count_below-unset p.total_frames f (is_used p.bitmap) lt u)

  free_frame_found :
      base_addr ≤ addr
      → frame_of addr < max_frames
      → is_used p.bitmap (frame_of addr) ≡ true
      → free_frame addr p
        ≡ record p { bitmap = bitmap_clear p.bitmap (frame_of addr); used = sub32 p.used 1 }
  unfolding free_frame
  free_frame_found a b u =
      let a' : ltb addr base_addr ≡ false = ground arith in
      let b' : leb max_frames (frame_of addr) ≡ false = ground arith in
      let c' : (bitmap_test p.bitmap (frame_of addr) == 0) ≡ false = ground arith in rw (a', b', c')

  -- For an address inside a managed frame that is in use, `pmm_free_frame` frees that frame alone
  -- and takes one from the counter.
  pub free_frame_lem :
      Managed p addr
      → is_used p.bitmap (frame_of addr) ≡ true
      → Gave p (frame_of addr) (free_frame addr p)
  free_frame_lem m u =
      let low : frame_of addr < p.total_frames = omega arith in
      rw (free_frame_found m.0 (omega (arith, v.total)) u) (record {
        marks = is_used-clear v.bytes (frame_of addr);
        used = omega (arith, v.total, used-pos _ low u, used-le v);
        total = refl;
      })

  -- `pmm_free_frame` changes nothing for an address below the managed memory, for one whose frame
  -- lies above the bitmap, and for a frame that is free already.
  pub free_frame_ignored :
      (addr < base_addr)
        ⊎ ((max_frames ≤ frame_of addr) ⊎ (is_used p.bitmap (frame_of addr) ≡ false))
      → free_frame addr p ≡ p
  unfolding free_frame
  free_frame_ignored h = ground (arith, bitmap_test-lt v.bytes (frame_of addr))

  -- `pmm_free_frame` of any address inside a managed frame keeps the invariant.
  pub free_frame-IsValid : Managed p addr → IsValid (free_frame addr p)
  free_frame-IsValid m = elim (Bool-cases (is_used p.bitmap (frame_of addr))) [
    | inl u ↦ freed m u
    | inr e ↦ rw (free_frame_ignored (inr (inr e))) v
  ]
    where
      freed : Managed p addr → is_used p.bitmap (frame_of addr) ≡ true → IsValid (free_frame addr p)
      freed m u =
          let f = frame_of addr in
          let low : frame_of addr < p.total_frames = omega arith in
          rw (free_frame_found m.0 (omega (arith, v.total)) u) (record {
            bytes = bitmap_clear-AreBytes v.bytes f;
            total = v.total;
            reserved = λ g a b. ground (arith, v.reserved g a b, bitmap_test-clear v.bytes f g);
            count = rw (is_used-clear v.bytes f) (
                omega (
                  arith,
                  v.total,
                  v.count,
                  used-le v,
                  count_below-unset p.total_frames f (is_used p.bitmap) low u,
                ));
          })

  -- A frame above `total_frames` that the bitmap covers was never handed out, and yet
  -- `pmm_free_frame` of its address makes it free: the invariant is lost.
  pub free_frame_reserved :
      base_addr ≤ addr
      → p.total_frames ≤ frame_of addr
      → frame_of addr < max_frames
      → ¬ (IsValid (free_frame addr p))
  free_frame_reserved lo t hi bad =
      let u = v.reserved (frame_of addr) t hi in
      let after = rw (free_frame_found lo hi u) at bad in
      let f = frame_of addr in ground (arith, after.reserved f t hi, bitmap_test-clear v.bytes f f)

-- Giving back the frame that `pmm_alloc_frame` has just handed out restores the set of used frames
-- and the counter.
pub free_frame-alloc_frame :
    {p : Pmm}
    → IsValid p
    → (alloc_frame p).0 ≢ 0
    → let q = free_frame (alloc_frame p).0 (alloc_frame p).1 in
      (is_used q.bitmap ≡ is_used p.bitmap) × (q.used ≡ p.used)
free_frame-alloc_frame {p} v ne = elim (alloc_frame_lem v) [
  | inl (full, zero_addr, same) ↦ absurd (ne zero_addr)
  | inr (f, low, free, least, at, took) ↦
      let q = (alloc_frame p).1 in
      let inside : Managed q (alloc_frame p).0 = omega (arith, v.total) in
      let back : frame_of (alloc_frame p).0 ≡ f = omega (arith, v.total) in
      let u : is_used q.bitmap (frame_of (alloc_frame p).0) ≡ true =
        rw back (ap (λ m. m f) took.marks ∙ ground arith) in
      let gave = free_frame_lem (alloc_frame-IsValid v) (alloc_frame p).0 inside u in
      (
        gave.marks ∙ rw back (ap (λ m. update m f false) took.marks ∙ fun_ext λ g. ground arith),
        omega arith,
      )
]
