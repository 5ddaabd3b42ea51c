-- ===== src/Vmm/Tests.antt =====
-- The theorems on page tables at a directory with one table.
use system_operative_edit.Base.{◌≡◌, ◌⊎◌, true, none, some, arith}
use system_operative_edit.Pmm.{base_addr}
use system_operative_edit.Vmm.{map_page}
use system_operative_edit.Vmm.Walk.{translate, user_can}
use system_operative_edit.Vmm.Map.{IsDirectory}
use system_operative_edit.Vmm.Map.Result.{Exhausted}
use system_operative_edit.Vmm.Map.Laws.{map_page_translates, map_page_others, map_page-IsDirectory}
use system_operative_edit.Vmm.Sample.{two_used, words, one_table, one_table-IsDirectory}

map_page_translates_example :
    let w = map_page base_addr 0x405007 0x00900000 6 one_table in
    ((translate w.memory base_addr 0x405007 ≡ some 0x00900007)
      × (user_can w.memory base_addr 0x405007 ≡ true))
    ⊎ (Exhausted two_used × (translate words base_addr 0x405007 ≡ none) × (w ≡ one_table))
map_page_translates_example =
    map_page_translates one_table base_addr 0x405007 0x00900000 6 one_table-IsDirectory
      (omega arith) (omega arith)

map_page_others_example :
    translate (map_page base_addr 0x405007 0x00900000 6 one_table).memory base_addr 0x406000
    ≡ translate words base_addr 0x406000
map_page_others_example =
    map_page_others one_table base_addr 0x405007 0x00900000 6 one_table-IsDirectory (omega arith)
      (omega arith) 0x406000 (omega arith) (λ e. omega (arith, e))

map_page-IsDirectory_example :
    IsDirectory (map_page base_addr 0x805007 0x00900000 6 one_table) base_addr
map_page-IsDirectory_example =
    map_page-IsDirectory one_table base_addr 0x805007 0x00900000 6 one_table-IsDirectory
      (omega arith) (omega arith)
