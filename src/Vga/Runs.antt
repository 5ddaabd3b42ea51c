-- ===== src/Vga/Runs.antt =====
-- What the loops that write whole bytes do to the planes.
use system_operative_edit.Base.{
  ℕ, zero, suc, ◌+◌, ◌-◌, ◌*◌, ◌/◌, ◌%◌, ◌^◌, ◌≤◌, ◌<◌, ◌≡◌, refl, ap, ◌∙◌, inl, inr, Bool, true,
  false, ◌&&◌, arith, ltb, leb, ◌==◌, if◌then◌else◌, Bool-cases,
}
use system_operative_edit.Base.Bits.{bit_at, bit_at_power, bit_at_full, bit_at_empty}
use system_operative_edit.Vga.{
  Vga, write_mask, write_byte, has_bit, write_run, run_planes, fill_value,
}
use system_operative_edit.Vga.Pixel.{lit}

-- Nothing but the planes and the mask has changed.
abbrev pub SamePicture : (s w : Vga) → Type 0
SamePicture s w =
    (w.ready ≡ s.ready)
    × (w.screen_width ≡ s.screen_width)
    × (w.screen_height ≡ s.screen_height)
    × (w.shadow ≡ s.shadow)

write_run-SamePicture :
    (r off value : ℕ) (s : Vga)
    → SamePicture s (write_run r off value s) × ((write_run r off value s).map_mask ≡ s.map_mask)
unfolding write_run write_byte
write_run-SamePicture zero off value s = ((refl, refl, refl, refl), refl)
write_run-SamePicture (suc r) off value s =
    write_run-SamePicture r ((off + 1) % 2 ^ 32) value (write_byte off value s)

write_run_lem :
    (r off value : ℕ) (s : Vga) (p i : ℕ)
    → off + r < 2 ^ 32
    → (write_run r off value s).planes p i
      ≡ (if bit_at s.map_mask p == 1 && (leb off i && ltb i (off + r)) then value else s.planes p i)
unfolding write_run write_byte
write_run_lem zero off value s p i lt = ground arith
write_run_lem (suc r) off value s p i lt =
    let next : (off + 1) % 2 ^ 32 ≡ off + 1 = omega (arith, lt) in
    let ih = write_run_lem r (off + 1) value (write_byte off value s) p i (omega (arith, lt)) in
    ap (λ o. (write_run r o value (write_byte off value s)).planes p i) next ∙ ih ∙ ground arith

pub run_planes-SamePicture :
    (r q n off color : ℕ) (s : Vga) → SamePicture s (run_planes r q n off color s)
unfolding run_planes write_mask
run_planes-SamePicture zero q n off color s = (refl, refl, refl, refl)
run_planes-SamePicture (suc r) q n off color s =
    let here = write_run-SamePicture n off (fill_value color q) (write_mask (2 ^ q) s) in
    let ih =
      run_planes-SamePicture r (q + 1) n off color
        (write_run n off (fill_value color q) (write_mask (2 ^ q) s)) in
    (ih.0 ∙ here.0.0, ih.1 ∙ here.0.1, ih.2 ∙ here.0.2, ih.3 ∙ here.0.3)

-- The writes to plane `q` come after those to the planes below.
next_plane :
    (q r p : ℕ) (inside : Bool) (vp vq w v mask : ℕ)
    → mask ≡ (if p == q then 1 else 0)
    → (p ≡ q → vp ≡ vq)
    → w ≡ (if mask == 1 && inside then vq else v)
    → (if (leb (q + 1) p && ltb p (q + 1 + r)) && inside then vp else w)
      ≡ (if (leb q p && ltb p (q + suc r)) && inside then vp else v)
next_plane q r p false vp vq w v mask em ev ew = ground (arith, ew)
next_plane q r p true vp vq w v mask em ev ew = elim (Bool-cases (p == q)) [
  | inl same ↦ let e = ev (ground (arith, same)) in ground (arith, same, em, e, ew)
  | inr differ ↦ ground (arith, differ, em, ew)
]

run_planes_lem :
    (r q n off color : ℕ) (s : Vga) (p i : ℕ)
    → q + r ≤ 4
    → p < 4
    → off + n < 2 ^ 32
    → (run_planes r q n off color s).planes p i ≡ (
        if (leb q p && ltb p (q + r)) && (leb off i && ltb i (off + n))
        then fill_value color p
        else s.planes p i)
unfolding run_planes write_mask
run_planes_lem zero q n off color s p i le lp lt = ground arith
run_planes_lem (suc r) q n off color s p i le lp lt =
    let w = write_run n off (fill_value color q) (write_mask (2 ^ q) s) in
    let ih = run_planes_lem r (q + 1) n off color w p i (omega (arith, le)) lp lt in
    let here = write_run_lem n off (fill_value color q) (write_mask (2 ^ q) s) p i lt in
    let mask = bit_at_power q p (omega (arith, le)) (omega (arith, lp)) in
    ih
    ∙ next_plane q r p (leb off i && ltb i (off + n)) (fill_value color p) (fill_value color q)
        (w.planes p i) (s.planes p i) (bit_at (2 ^ q) p) mask (ap (fill_value color)) here

-- A bit of the byte that a run writes.
fill_value_lem :
    (color p j : ℕ) → j < 8 → (bit_at (fill_value color p) (7 - j) == 1) ≡ has_bit color p
fill_value_lem color p j lt = elim (Bool-cases (has_bit color p)) [
  | inl set ↦ rw set (rw (bit_at_full (7 - j) (omega arith)) refl)
  | inr clear ↦ rw clear (rw (bit_at_empty (7 - j) (omega arith)) refl)
]

-- The pixels after whole bytes have been written in every plane.
pub run_planes-shown :
    (n off color : ℕ) (s : Vga) (p x y : ℕ)
    → p < 4
    → off + n < 2 ^ 32
    → lit (run_planes 4 0 n off color s) p x y ≡ (
        if leb off (y * 80 + x / 8) && ltb (y * 80 + x / 8) (off + n)
        then has_bit color p
        else lit s p x y)
run_planes-shown n off color s p x y lp lt =
    let i = y * 80 + x / 8 in
    let all = run_planes_lem 4 0 n off color s p i (omega arith) lp lt in
    elim (Bool-cases (leb off i && ltb i (off + n))) [
      | inl here ↦ rw here (
          ap (λ v. bit_at v (7 - x % 8) == 1) (all ∙ ground (arith, lp, here))
          ∙ fill_value_lem color p (x % 8) (omega arith))
      | inr there ↦ rw there (ap (λ v. bit_at v (7 - x % 8) == 1) (all ∙ ground (arith, lp, there)))
    ]
