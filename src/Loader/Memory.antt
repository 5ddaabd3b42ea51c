-- ===== src/Loader/Memory.antt =====
-- boot/freeldr/memory.c: the reading of the E820 map and the sums over it.
use system_operative_edit.Base.{
  ℕ, zero, suc, ◌+◌, ◌-◌, ◌/◌, ◌%◌, ◌^◌, ◌≤◌, ◌<◌, ◌≡◌, refl, ◌⊎◌, inl, inr, true, not, ◌||◌, List,
  [], ◌∷◌, arith, ltb, leb, ◌==◌, if◌then◌else◌, Bool-cases, add32, length,
}

-- `E820Entry`: base and length have 64 bits.
pub record E820Entry : Type 0 where
  pub base : ℕ
  pub length : ℕ
  pub type : ℕ

-- `MemoryInfo`, the entries apart; their number is the length of the list.
pub record MemoryInfo : Type 0 where
  pub lower_memory : ℕ
  pub upper_memory : ℕ
  pub available_memory : ℕ
  pub total_memory : ℕ

abbrev pub e820_ram : ℕ
e820_ram = 1

-- What one call of the BIOS returns: EAX, ECX, EBX, and the entry that it wrote.
pub record Answer : Type 0 where
  pub signature : ℕ
  pub bytes : ℕ
  pub continuation : ℕ
  pub entry : E820Entry

-- The do-while loop, given what the BIOS answers to each value of EBX in turn: the entries read, of
-- which there are `entry` so far. At most `r` rounds are left; the limit of 32 entries ends the loop.
unfoldable pub read_map : (r : ℕ) → (ℕ → ℕ → Answer) → (continuation entry : ℕ) → List E820Entry
read_map zero bios continuation entry = []
read_map (suc r) bios continuation entry =
    let a = bios entry continuation in
    let rest = read_map r bios a.continuation (entry + 1) in
    if not (a.signature == 0x534D4150) || (a.bytes == 0)
    then []
    else a.entry ∷ (if (a.continuation == 0) || leb 32 (entry + 1) then [] else rest)

-- `low_size`: a region that crosses 1 MB counts up to there.
unfoldable pub low_size : E820Entry → ℕ
low_size e =
    if ltb 0x100000 ((e.base + e.length) % 2 ^ 64)
    then ((0x100000 - e.base) / 1024) % 2 ^ 32
    else (e.length / 1024) % 2 ^ 32

-- One round of the loop over the entries.
unfoldable pub count_entry : E820Entry → MemoryInfo → MemoryInfo
count_entry e i =
    let size_kb = (e.length / 1024) % 2 ^ 32 in
    if not (e.type == e820_ram)
    then i
    else if ltb e.base 0x100000
    then record i {
      available_memory = add32 i.available_memory size_kb;
      lower_memory = add32 i.lower_memory (low_size e);
    }
    else record i {
      available_memory = add32 i.available_memory size_kb;
      upper_memory = add32 i.upper_memory size_kb;
    }

unfoldable pub count_entries : List E820Entry → MemoryInfo → MemoryInfo
count_entries [] i = i
count_entries (e ∷ es) i = count_entries es (count_entry e i)

unfoldable pub get_map : List E820Entry → MemoryInfo → MemoryInfo
get_map es i =
    let c = count_entries es i in record c { total_memory = add32 c.lower_memory c.upper_memory }

-- `MemoryInit`, with the map that the BIOS gives.
unfoldable pub memory_init : (ℕ → ℕ → Answer) → MemoryInfo
memory_init bios =
    get_map (read_map 32 bios 0 0)
      (record { lower_memory = 0; upper_memory = 0; available_memory = 0; total_memory = 0 })

step_lem :
    (r s : ℕ) (bios : ℕ → ℕ → Answer) (continuation entry : ℕ)
    → let a = bios entry continuation in
      ((leb 32 (entry + 1) ≡ true)
        ⊎ (read_map r bios a.continuation (entry + 1) ≡ read_map s bios a.continuation (entry + 1)))
      → read_map (suc r) bios continuation entry ≡ read_map (suc s) bios continuation entry
unfolding read_map
step_lem r s bios continuation entry (inl full) = rw full (ground arith)
step_lem r s bios continuation entry (inr same) = rw same refl

-- 32 rounds are enough: two runs of the loop that may take more rounds than there are free
-- entries read the same map.
pub read_map_lem :
    (r s : ℕ) (bios : ℕ → ℕ → Answer) (continuation entry : ℕ)
    → entry < 32
    → 32 ≤ r + entry
    → 32 ≤ s + entry
    → read_map r bios continuation entry ≡ read_map s bios continuation entry
read_map_lem zero s bios continuation entry lt er es = absurd (omega (arith, lt, er))
read_map_lem (suc r) zero bios continuation entry lt er es = absurd (omega (arith, lt, es))
read_map_lem (suc r) (suc s) bios continuation entry lt er es =
    step_lem r s bios continuation entry (elim (Bool-cases (leb 32 (entry + 1))) [
      | inl full ↦ inl full
      | inr more ↦ inr (
          read_map_lem r s bios (bios entry continuation).continuation (entry + 1) (ground arith)
            (omega (arith, er)) (omega (arith, es)))
    ])

-- The loop never writes behind the array of 32 entries.
pub length-read_map :
    (r : ℕ) (bios : ℕ → ℕ → Answer) (continuation entry : ℕ)
    → entry < 32
    → length (read_map r bios continuation entry) + entry ≤ 32
unfolding read_map
length-read_map zero bios continuation entry lt = omega (arith, lt)
length-read_map (suc r) bios continuation entry lt = elim (Bool-cases (leb 32 (entry + 1))) [
  | inl full ↦ ground (arith, lt, full)
  | inr more ↦ ground (
    arith,
    lt,
    more,
    length-read_map r bios (bios entry continuation).continuation (entry + 1) (ground arith),
  )
]

-- The kilobytes of the entries of type RAM.
abbrev pub ram : List E820Entry → ℕ
ram [] = 0
ram (e ∷ es) = (if e.type == e820_ram then e.length / 1024 else 0) + ram es

-- The regions lie in 64 bits.
abbrev pub Fit : List E820Entry → Type 0
Fit [] = Unit {0}
Fit (e ∷ es) = (e.base + e.length < 2 ^ 64) × Fit es

-- The sums of a map after those of the entries before it, as long as nothing wraps.
count_entries_lem :
    (es : List E820Entry) (i : MemoryInfo)
    → Fit es
    → i.available_memory + ram es < 2 ^ 32
    → i.lower_memory + i.upper_memory ≤ i.available_memory
    → let c = count_entries es i in
      (c.available_memory ≡ i.available_memory + ram es)
      × (c.lower_memory + c.upper_memory ≤ c.available_memory)
unfolding count_entries count_entry low_size
count_entries_lem [] i f w le = (omega arith, le)
count_entries_lem (e ∷ es) i f w le = ground (arith, count_entries_lem es (count_entry e i) f.1)

-- When the map's regions lie in 64 bits and its RAM has less than 2^32 KB, the available memory is the
-- sum of its regions of type RAM, the total is the sum of the lower and the upper memory, and at most
-- the available memory.
pub memory_init_lem :
    (bios : ℕ → ℕ → Answer)
    → Fit (read_map 32 bios 0 0)
    → ram (read_map 32 bios 0 0) < 2 ^ 32
    → let i = memory_init bios in
      (i.available_memory ≡ ram (read_map 32 bios 0 0))
      × (i.total_memory ≡ i.lower_memory + i.upper_memory)
      × (i.total_memory ≤ i.available_memory)
unfolding memory_init get_map
memory_init_lem bios f w = ground (
  arith,
  count_entries_lem (read_map 32 bios 0 0)
      (record { lower_memory = 0; upper_memory = 0; available_memory = 0; total_memory = 0 }) f
      (omega (arith, w)) (omega arith),
)
