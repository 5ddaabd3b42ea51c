-- ===== src/Libc/Tests.antt =====
-- Runs of the heap and of the memory and string functions.
use system_operative_edit.Base.{◌*◌, ◌/◌, ℕ, ◌+◌, ◌-◌, ◌%◌, ◌≤◌, ◌<◌, ◌≡◌, refl, ◌⊎◌, arith}
use system_operative_edit.Libc.{Heap, heap_init, malloc, page_align_up}
use system_operative_edit.Libc.Malloc.{IsValid, malloc_lem}
use system_operative_edit.Libc.Strings.{Terminated}

abbrev fresh : Heap
fresh = record { current = 0x00200000; limit = 0x00800000 }

fresh-IsValid : IsValid fresh
fresh-IsValid = record {
  start = omega arith;
  aligned = refl;
  room = omega arith;
  limit = omega arith;
}

started : heap_init 0x156123 ≡ fresh
unfolding heap_init page_align_up
started = refl

malloc_lem_example :
    let (p, h') = malloc 10 fresh in
    ((0x00200000 + (10 + 3) / 4 * 4 ≤ 0x00800000)
      × (p ≡ 0x00200000)
      × (p % 4 ≡ 0)
      × (h'.current ≡ p + (10 + 3) / 4 * 4)
      × (h'.limit ≡ 0x00800000)
      × IsValid h')
    ⊎ ((0x00800000 < 0x00200000 + (10 + 3) / 4 * 4) × (p ≡ 0) × (h' ≡ fresh))
malloc_lem_example = malloc_lem 10 fresh fresh-IsValid (omega arith)

-- Two bytes at address 2 and a terminator.
abbrev text : ℕ → ℕ
text a = 4 - a

text-Terminated : Terminated text 2 2
text-Terminated = record { inside = λ j lt e. omega (arith, lt, e); ends = refl }
