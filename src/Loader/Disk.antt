-- ===== src/Loader/Disk.antt =====
-- boot/freeldr/disk.c: the geometry, the conversion of a sector number to cylinder, head and sector, the
-- disk address packet, and the retries of a read. The calls of the BIOS are an argument.
use system_operative_edit.Base.{
  ℕ, zero, suc, ◌+◌, ◌*◌, ◌/◌, ◌%◌, ◌^◌, bit_and, bit_or, Bool, true, false, not, Option, none,
  some, ◌==◌, if◌then◌else◌,
}

-- `DiskInfo`: `heads` and `sectors` are bytes, `cylinders` has 16 bits.
pub record DiskInfo : Type 0 where
  pub drive : ℕ
  pub cylinders : ℕ
  pub heads : ℕ
  pub sectors : ℕ
  pub total_sectors : ℕ

-- `DiskGetInfo`, given the registers that the BIOS returns; the Boolean is SUCCESS.
unfoldable pub get_info : (drive ax cx dx : ℕ) → DiskInfo → Bool × DiskInfo
get_info drive ax cx dx info =
    if not (bit_and ax 0xFF00 == 0)
    then (false, record info { drive = drive })
    else (let heads = (bit_and (dx / 2 ^ 8) 0xFF + 1) % 256 in
        let sectors = bit_and cx 0x3F in
        let cylinders = bit_or (bit_and (cx / 2 ^ 8) 0xFF) (bit_and cx 0xC0 * 2 ^ 2) in
        (
          true,
          record {
            drive = drive;
            cylinders = cylinders;
            heads = heads;
            sectors = sectors;
            total_sectors = (cylinders * heads * sectors) % 2 ^ 32;
          },
        ))

-- The position of a sector, in words of 16 bits.
pub record Position : Type 0 where
  pub cylinder : ℕ
  pub head : ℕ
  pub sector : ℕ

-- The conversion in `DiskReadSectorsCHS`; a geometry with a 0 divides by 0 in the source.
unfoldable pub position : DiskInfo → ℕ → Option Position
position info lba =
    let track = info.heads * info.sectors in
    let temp = (lba % track) % 2 ^ 16 in
    if track == 0
    then none
    else some (record {
      cylinder = (lba / track) % 2 ^ 16;
      head = temp / info.sectors;
      sector = temp % info.sectors + 1;
    })

-- The register CX of `DiskReadSectorsCHS`.
unfoldable pub pack_cx : Position → ℕ
pack_cx p =
    bit_or (bit_or (bit_and p.cylinder 0xFF * 2 ^ 8) (bit_and p.cylinder 0x300 / 2 ^ 2))
      (bit_and p.sector 0x3F)

-- `segment` and `offset` of a buffer.
unfoldable pub segment : ℕ → ℕ
segment buffer = (buffer / 2 ^ 4) % 2 ^ 16

unfoldable pub offset : ℕ → ℕ
offset buffer = buffer % 2 ^ 16

-- The address that the processor forms from a segment and an offset.
abbrev pub linear : (segment offset : ℕ) → ℕ
linear s o = s * 16 + o

-- The disk address packet of `DiskReadSectorsLBA`.
pub record Packet : Type 0 where
  pub size : ℕ
  pub reserved : ℕ
  pub count : ℕ
  pub offset : ℕ
  pub segment : ℕ
  pub lba_low : ℕ
  pub lba_high : ℕ

unfoldable pub packet : (lba count buffer : ℕ) → Packet
packet lba count buffer = record {
  size = 16;
  reserved = 0;
  count = count;
  offset = offset buffer;
  segment = segment buffer;
  lba_low = lba;
  lba_high = 0;
}

-- INT 13h of the BIOS with the registers that the code sets, on a state `W` of the disk and the memory; the number is
-- AX afterwards. With AH = 42h the packet tells what to read, with AH = 02h the registers do, and AH = 0 resets
-- the controller.
pub record Bios (W : Type 0) : Type 0 where
  pub extended_read : (ax dx : ℕ) → Packet → W → ℕ × W
  pub read : (ax bx cx dx es : ℕ) → W → ℕ × W
  pub reset : (ax dx : ℕ) → W → W

module _ {W : Type 0} (b : Bios W) (info : DiskInfo) (drive lba count buffer : ℕ) where
  -- The Boolean is SUCCESS: no bit of AH is set.
  unfoldable pub read_sectors_lba : W → Bool × W
  read_sectors_lba w =
      let (result, w') = b.extended_read 0x4200 drive (packet lba count buffer) w in
      (bit_and result 0xFF00 == 0, w')

  -- `DiskReadSectorsCHS` once the position is known.
  unfoldable pub read_position : Position → W → Bool × W
  read_position p w =
      let (result, w') =
        b.read (bit_or 0x0200 (bit_and count 0xFF)) (offset buffer) (pack_cx p)
          (bit_or ((p.head * 2 ^ 8) % 2 ^ 16) drive) (segment buffer) w in
      (bit_and result 0xFF00 == 0, w')

  -- `none` means that the division of `position` traps.
  unfoldable pub read_sectors_chs : W → Option (Bool × W)
  read_sectors_chs w = elim (position info lba) [ none ↦ none | some p ↦ some (read_position p w) ]

  -- What follows a round whose two reads failed or did not.
  abbrev pub go_on :
      (lba_read : Bool × W) → (rest : W → Option (Bool × W)) → Option (Bool × W) → Option (Bool × W)
  go_on first rest none = if first.0 then some (true, first.1) else none
  go_on first rest (some second) =
      let last = rest (b.reset 0 drive second.1) in
      if first.0 then some (true, first.1) else if second.0 then some (true, second.1) else last

  -- The loop of `DiskReadSectors` with `retry` rounds left.
  unfoldable pub read_loop : (retry : ℕ) → W → Option (Bool × W)
  read_loop zero w = some (false, w)
  read_loop (suc retry) w =
      let first = read_sectors_lba w in
      go_on first (λ w'. read_loop retry w') (read_sectors_chs first.1)

  unfoldable pub read_sectors : W → Option (Bool × W)
  read_sectors w = read_loop 3 w
