-- ===== src/Vmm.antt =====
-- kernel/mm/vmm.c: page directories and page tables, in a memory of 32-bit words that is a function of
-- the address; addresses are physical, since the kernel maps its own memory to itself. A pointer to a
-- directory or a table is its address. The instructions that load CR3, set CR0 and flush the TLB are
-- not modelled.
pub mod Walk
pub mod Map
pub mod Sample
mod Tests
use system_operative_edit.Base.{
  ℕ, zero, suc, ◌+◌, ◌-◌, ◌*◌, ◌/◌, ◌%◌, ◌^◌, ◌≤◌, ◌<◌, min, max, bit_and, bit_or, bit_xor, ◌≡◌,
  refl, sym, ap, ◌∙◌, fun_ext, ◌≢◌, ◌↔◌, ◌⊎◌, inl, inr, Bool, true, false, not, ◌&&◌, ◌||◌, Option,
  none, some, List, [], ◌∷◌, ◌++◌, map, arith, ltb, leb, ◌==◌, if◌then◌else◌, Bool-cases,
  Option-cases, ltb→lt, lt→ltb, leb→le, ==_iff, add32, sub32, update, length, get_elem?, get_or,
  last_from, length-append, last_from-append, has, Distinct, has-append, Distinct-append,
}
use system_operative_edit.Pmm.{Pmm, page_size, alloc_frame}

abbrev pub pte_present : ℕ
pte_present = 1

abbrev pub pte_writable : ℕ
pte_writable = 2

abbrev pub pte_user : ℕ
pte_user = 4

-- The frames, the memory and `g_kernel_dir`.
pub record Vmm : Type 0 where
  pub frames : Pmm
  pub memory : ℕ → ℕ
  pub kernel_dir : ℕ

-- `e & PTE_PRESENT`, `e & PTE_WRITABLE` and `e & PTE_USER`, as tests.
abbrev pub is_present : ℕ → Bool
is_present e = e % 2 == 1

abbrev pub is_writable : ℕ → Bool
is_writable e = e / 2 % 2 == 1

abbrev pub is_user : ℕ → Bool
is_user e = e / 4 % 2 == 1

-- `e & ~0xFFF`
abbrev pub page_of : ℕ → ℕ
page_of e = e - e % 4096

-- `virt >> 22` and `(virt >> 12) & 0x3FF`
abbrev pub dir_index : ℕ → ℕ
dir_index virt = virt / 2 ^ 22

abbrev pub table_index : ℕ → ℕ
table_index virt = virt / 2 ^ 12 % 1024

-- The address of entry `i` of the directory or table at `base`.
abbrev pub entry : (base i : ℕ) → ℕ
entry base i = base + 4 * i

-- The loop that clears the `r` entries from `i` on.
unfoldable pub clear_entries : (r i base : ℕ) → (ℕ → ℕ) → ℕ → ℕ
clear_entries zero i base m = m
clear_entries (suc r) i base m = clear_entries r (i + 1) base (update m (entry base i) 0)

-- The new table in the frame `phys`, which may be NULL.
unfoldable pub new_table : (phys dir pdi flags : ℕ) → (frames : Pmm) → Vmm → ℕ × Vmm
new_table phys dir pdi flags frames v = if phys == 0 then (0, record v { frames = frames }) else (
  phys,
  record v {
    frames = frames;
    memory =
        update (clear_entries 1024 0 phys v.memory) (entry dir pdi)
          (bit_or (bit_or phys flags) pte_present);
  },
)

-- `get_or_create_table`: the table's address, 0 for NULL.
unfoldable pub get_or_create_table : (dir pdi flags : ℕ) → Vmm → ℕ × Vmm
get_or_create_table dir pdi flags v =
    let pde = v.memory (entry dir pdi) in
    if is_present pde
    then (page_of pde, v)
    else (let (phys, frames) = alloc_frame v.frames in new_table phys dir pdi flags frames v)

-- The first part of `vmm_map_page`: an entry of the directory that is there is opened to the user, and
-- to writing, when the page is to be.
unfoldable pub open_entry : (dir pdi flags : ℕ) → (ℕ → ℕ) → ℕ → ℕ
open_entry dir pdi flags m =
    let a = entry dir pdi in
    let m1 = update m a (bit_or (m a) pte_user) in
    if is_present (m a) && is_user flags
    then (if is_writable flags then update m1 a (bit_or (m1 a) pte_writable) else m1)
    else m

-- The last part: the entry of the table, unless the table is NULL.
unfoldable pub set_entry : (virt phys flags table : ℕ) → Vmm → Vmm
set_entry virt phys flags table v = if table == 0 then v else record v {
  memory =
      update v.memory (entry table (table_index virt))
        (bit_or (bit_or (page_of phys) flags) pte_present);
}

unfoldable pub map_page : (dir virt phys flags : ℕ) → Vmm → Vmm
map_page dir virt phys flags v =
    let opened = record v { memory = open_entry dir (dir_index virt) flags v.memory } in
    let (table, w) =
      get_or_create_table dir (dir_index virt) (bit_or (bit_or flags pte_present) pte_writable)
        opened in
    set_entry virt phys flags table w

unfoldable pub unmap_page : (dir virt : ℕ) → Vmm → Vmm
unmap_page dir virt v =
    let pde = v.memory (entry dir (dir_index virt)) in
    if is_present pde
    then record v { memory = update v.memory (entry (page_of pde) (table_index virt)) 0 }
    else v

-- The loop that copies the `r` entries of a table from `j` on, each opened to the user.
unfoldable pub copy_entries : (r j to from : ℕ) → (ℕ → ℕ) → ℕ → ℕ
copy_entries zero j to from m = m
copy_entries (suc r) j to from m =
    copy_entries r (j + 1) to from (update m (entry to j) (bit_or (m (entry from j)) pte_user))

-- One round of the loop over the kernel's directory, with the frame that it was given for a copy.
unfoldable pub clone_table : (phys dir i : ℕ) → (frames : Pmm) → Vmm → Vmm
clone_table phys dir i frames v =
    let pde = v.memory (entry v.kernel_dir i) in
    if phys == 0
    then record v { frames = frames; memory = update v.memory (entry dir i) (bit_or pde pte_user) }
    else record v {
      frames = frames;
      memory =
          update (copy_entries 1024 0 phys (page_of pde) v.memory) (entry dir i)
            (bit_or (bit_or phys (pde % 4096)) pte_user);
    }

unfoldable pub clone_entry : (dir i : ℕ) → Vmm → Vmm
clone_entry dir i v =
    if is_present (v.memory (entry v.kernel_dir i))
    then (let (phys, frames) = alloc_frame v.frames in clone_table phys dir i frames v)
    else record v { memory = update v.memory (entry dir i) 0 }

unfoldable pub clone_entries : (r i dir : ℕ) → Vmm → Vmm
clone_entries zero i dir v = v
clone_entries (suc r) i dir v = clone_entries r (i + 1) dir (clone_entry dir i v)

-- What `vmm_create_directory` does with its first frame.
unfoldable pub fill_directory : (phys : ℕ) → Vmm → ℕ × Vmm
fill_directory phys v =
    if phys == 0
    then (0, v)
    else (let cleared = record v { memory = clear_entries 1024 0 phys v.memory } in
        (phys, if v.kernel_dir == 0 then cleared else clone_entries 1024 0 phys cleared))

unfoldable pub create_directory : Vmm → ℕ × Vmm
create_directory v =
    let (phys, frames) = alloc_frame v.frames in fill_directory phys (record v { frames = frames })

-- The loop of `vmm_init` that maps the `r` pages from `addr` on to themselves.
unfoldable pub identity_map : (r addr dir : ℕ) → Vmm → Vmm
identity_map zero addr dir v = v
identity_map (suc r) addr dir v =
    identity_map r (addr + page_size) dir
      (map_page dir addr addr (bit_or pte_present pte_writable) v)

-- 128 MB are 32768 pages.
unfoldable pub vmm_init : Vmm → Vmm
vmm_init v =
    let (phys, frames) = alloc_frame v.frames in
    identity_map 32768 0 phys
      (record v { frames = frames; kernel_dir = phys; memory = clear_entries 1024 0 phys v.memory })
