-- ===== src/Loader/Tests.antt =====
-- Runs of the boot loader's parts.
use system_operative_edit.Base.{
  ℕ, zero, suc, ◌+◌, ◌≤◌, ◌≡◌, refl, true, some, [], ◌∷◌, arith, length,
}
use system_operative_edit.Loader.Disk.{DiskInfo, Bios, get_info, pack_cx}
use system_operative_edit.Loader.Video.{Video, dec_digits, hex_digits, hex_char}
use system_operative_edit.Loader.Memory.{Answer, read_map, memory_init, memory_init_lem, ram}

-- A floppy disk: 2 heads and 18 sectors.
abbrev floppy : DiskInfo
floppy = record { drive = 0; cylinders = 79; heads = 2; sectors = 18; total_sectors = 2844 }

-- The geometry of the floppy disk as the BIOS reports it: the last cylinder is 79.
geometry : get_info 0 0 0x4F12 0x0101 floppy ≡ (true, floppy)
unfolding get_info
geometry = refl

-- 256 heads do not fit into the byte.
heads_wrap : (get_info 0 0 0xFE3F 0xFF01 floppy).1.heads ≡ 0
unfolding get_info
heads_wrap = refl

packed : pack_cx (record { cylinder = 0x2A5; head = 1; sector = 17 }) ≡ 0xA591
unfolding pack_cx
packed = refl

-- A disk that reads by CHS only; the state counts the calls.
abbrev old_bios : Bios ℕ
old_bios = record {
  extended_read = λ ax dx packet w. (0x0100, w + 1);
  read = λ ax bx cx dx es w. (0, w + 1);
  reset = λ ax dx w. w + 1;
}

-- 640 KB and 63 MB of RAM, and a reserved region.
abbrev bios_map : ℕ → ℕ → Answer
bios_map zero c = record {
  signature = 0x534D4150;
  bytes = 20;
  continuation = 1;
  entry = record { base = 0; length = 0xA0000; type = 1 };
}
bios_map (suc zero) c = record {
  signature = 0x534D4150;
  bytes = 20;
  continuation = 2;
  entry = record { base = 0xF0000; length = 0x10000; type = 2 };
}
bios_map (suc (suc n)) c = record {
  signature = 0x534D4150;
  bytes = 20;
  continuation = 0;
  entry = record { base = 0x100000; length = 0x3F00000; type = 1 };
}

read_bios_map : length (read_map 32 bios_map 0 0) ≡ 3
unfolding read_map
read_bios_map = refl

memory_init_lem_example :
    let i = memory_init bios_map in
    (i.available_memory ≡ ram (read_map 32 bios_map 0 0))
    × (i.total_memory ≡ i.lower_memory + i.upper_memory)
    × (i.total_memory ≤ i.available_memory)
unfolding read_map
memory_init_lem_example =
    memory_init_lem bios_map (omega arith, (omega arith, (omega arith, tt))) (omega arith)

abbrev dark : Video
dark = record { memory = λ a. 0; x = 79; y = 24; color = 7 }

printed : dec_digits 11 640 [] ≡ some (b'6' ∷ b'4' ∷ b'0' ∷ [])
unfolding dec_digits
printed = refl

printed_hex : hex_digits 8 0xB800 ≡ b'0' ∷ b'0' ∷ b'0' ∷ b'0' ∷ b'B' ∷ b'8' ∷ b'0' ∷ b'0' ∷ []
unfolding hex_digits hex_char
printed_hex = refl
