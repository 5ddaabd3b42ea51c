-- ===== src/Loader/Retry.antt =====
-- The reads of boot/freeldr/disk.c: positions, addresses and retries.
use native.Mathlib.Nat.{div-add-mod, mod-lt, mod-eq_of_lt, mul-pos, div-lt_iff_lt-mul}
use system_operative_edit.Base.{
  ℕ, zero, suc, ◌+◌, ◌-◌, ◌*◌, ◌/◌, ◌%◌, ◌^◌, ◌≤◌, ◌<◌, ◌≡◌, refl, ◌↔◌, ◌⊎◌, Bool, true, false,
  Option, some, arith, ◌==◌,
}
use system_operative_edit.Loader.Disk.{
  DiskInfo, Position, position, segment, offset, linear, Bios, read_sectors_lba, read_position,
}

-- For a disk whose tracks of one cylinder have at most 2^16 sectors, and a sector number in the first 2^16
-- cylinders, the position is the sector's: counting the sectors of the cylinders and heads before it gives the
-- number back, the head is below the number of heads, and the sector is between 1 and the
-- sectors of a track.
pub position_lem :
    (info : DiskInfo) (lba : ℕ)
    → 0 < info.heads
    → 0 < info.sectors
    → info.heads * info.sectors ≤ 2 ^ 16
    → lba / (info.heads * info.sectors) < 2 ^ 16
    → (p : Position) × (position info lba ≡ some p)
      × (info.heads * info.sectors * p.cylinder + (info.sectors * p.head + (p.sector - 1)) ≡ lba)
      × (p.head < info.heads)
      × (1 ≤ p.sector)
      × (p.sector ≤ info.sectors)
unfolding position
position_lem info lba h s small cyl =
    let track = info.heads * info.sectors in
    let temp = lba % track in
    let pos_track : 0 < track = mul-pos h s in
    let temp_lt : temp < track = mod-lt lba pos_track in
    let e0 : (track == 0) ≡ false = ground (arith, pos_track) in
    let e1 : temp % 2 ^ 16 ≡ temp = mod-eq_of_lt (omega (arith, temp_lt, small)) in
    let e2 : (lba / track) % 2 ^ 16 ≡ lba / track = mod-eq_of_lt cyl in
    (
      record {
        cylinder = lba / track;
        head = temp / info.sectors;
        sector = temp % info.sectors + 1;
      },
      rw (e0, e1, e2) refl,
      omega (arith, div-add-mod lba track, div-add-mod temp info.sectors),
      (div-lt_iff_lt-mul s).1 temp_lt,
      omega arith,
      omega (arith, mod-lt temp s),
    )

-- The address formed from the segment and the offset of a buffer below 1 MB is the buffer's exactly if
-- its bits 4 to 15 are 0.
pub linear_lem :
    (buffer : ℕ)
    → buffer < 2 ^ 20
    → (linear (segment buffer) (offset buffer) ≡ buffer) ↔ (buffer % 2 ^ 16 ≡ buffer % 16)
unfolding segment offset
linear_lem buffer lt = (λ e. omega (arith, lt, e), λ e. omega (arith, lt, e))

module _ {W : Type 0} (b : Bios W) (info : DiskInfo) (drive lba count buffer : ℕ) where
  abbrev by_lba : W → Bool × W
  by_lba w = read_sectors_lba b info drive lba count buffer w

  abbrev by_chs : Position → W → Bool × W
  by_chs p w = read_position b info drive lba count buffer p (by_lba w).1

  -- The state before the round `k`, when all reads before it have failed.
  abbrev pub round_start : (k : ℕ) → Position → W → W
  round_start zero p w = w
  round_start (suc k) p w = round_start k p (b.reset 0 drive (by_chs p w).1)

  abbrev pub Fails : Position → W → Type 0
  Fails p w = ((by_lba w).0 ≡ false) × ((by_chs p w).0 ≡ false)

  -- The result of a round that reads.
  abbrev pub Reads : Position → W → Option (Bool × W) → Type 0
  Reads p w r =
      (((by_lba w).0 ≡ true) × (r ≡ some (true, (by_lba w).1)))
      ⊎ (((by_lba w).0 ≡ false) × ((by_chs p w).0 ≡ true) × (r ≡ some (true, (by_chs p w).1)))

  -- Of `n` rounds the round `k` is the first that reads, or none does.
  abbrev pub Tries : (n : ℕ) → Position → W → Option (Bool × W) → Type 0
  Tries n p w r =
      ((k : ℕ) × (k < n)
        × ((j : ℕ) → j < k → Fails p (round_start j p w))
        × Reads p (round_start k p w) r)
      ⊎ (((j : ℕ) → j < n → Fails p (round_start j p w)) × (r ≡ some (false, round_start n p w)))
