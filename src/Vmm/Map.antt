-- ===== src/Vmm/Map.antt =====
-- What `vmm_map_page` does to a directory whose tables lie in frames of their own.
pub mod Entries
pub mod Result
pub mod Translation
pub mod Laws
use system_operative_edit.Base.{
  ℕ, zero, suc, ◌+◌, ◌-◌, ◌*◌, ◌/◌, ◌%◌, ◌^◌, ◌≤◌, ◌<◌, min, max, bit_and, bit_or, bit_xor, ◌≡◌,
  refl, sym, ap, ◌∙◌, fun_ext, ◌≢◌, ◌↔◌, ◌⊎◌, inl, inr, Bool, true, false, not, ◌&&◌, ◌||◌, Option,
  none, some, List, [], ◌∷◌, ◌++◌, map, arith, ltb, leb, ◌==◌, if◌then◌else◌, Bool-cases,
  Option-cases, ltb→lt, lt→ltb, leb→le, ==_iff, add32, sub32, update, length, get_elem?, get_or,
  last_from, length-append, last_from-append, has, Distinct, has-append, Distinct-append,
}
use system_operative_edit.Pmm.{Pmm, alloc_frame, base_addr}
use system_operative_edit.Pmm.Bitmap.{is_used}
use system_operative_edit.Pmm.Alloc.{
  IsValid, alloc_frame_lem, alloc_frame-IsValid, frame_addr, Took,
}
use system_operative_edit.Vmm.{
  Vmm, is_present, is_user, is_writable, page_of, entry, dir_index, table_index, pte_present,
  pte_user, pte_writable, clear_entries, open_entry, new_table, get_or_create_table, set_entry,
  map_page,
}
use system_operative_edit.Vmm.Walk.{Flagged, Flagged-bit_or, clear_entries_lem, clear_entries_zero}

-- A page in a managed frame that is in use.
abbrev pub Held : Pmm → ℕ → Type 0
Held p a =
    (a % 4096 ≡ 0)
    × (base_addr ≤ a)
    × (a < 2 ^ 32)
    × (is_used p.bitmap ((a - base_addr) / 4096) ≡ true)

-- A directory and its tables lie in frames in use, each in its own.
pub record IsDirectory (v : Vmm) (dir : ℕ) : Type 0 where
  pub frames : IsValid v.frames
  pub page : Held v.frames dir
  pub tables :
      (i : ℕ)
      → i < 1024
      → is_present (v.memory (entry dir i)) ≡ true
      → Held v.frames (page_of (v.memory (entry dir i))) × (page_of (v.memory (entry dir i)) ≢ dir)
  pub apart :
      (i j : ℕ)
      → i < 1024
      → j < 1024
      → i ≢ j
      → is_present (v.memory (entry dir i)) ≡ true
      → is_present (v.memory (entry dir j)) ≡ true
      → page_of (v.memory (entry dir i)) ≢ page_of (v.memory (entry dir j))

-- The page of an address after a mapping: `table` holds its entry.
pub record Mapped (v : Vmm) (dir virt phys flags table : ℕ) (w : Vmm) : Type 0 where
  pub frames : IsValid w.frames
  pub kept : (a : ℕ) → Held v.frames a → Held w.frames a
  pub held : Held w.frames table
  pub not_dir : table ≢ dir
  pub others :
      (j : ℕ)
      → j < 1024
      → j ≢ dir_index virt
      → is_present (v.memory (entry dir j)) ≡ true
      → page_of (v.memory (entry dir j)) ≢ table
  pub present : is_present (w.memory (entry dir (dir_index virt))) ≡ true
  pub points : page_of (w.memory (entry dir (dir_index virt))) ≡ table
  pub opened : is_user flags ≡ true → is_user (w.memory (entry dir (dir_index virt))) ≡ true
  pub page_entry :
      w.memory (entry table (table_index virt)) ≡ bit_or (bit_or (page_of phys) flags) pte_present
  pub old :
      is_present (v.memory (entry dir (dir_index virt))) ≡ true
      → (page_of (v.memory (entry dir (dir_index virt))) ≡ table)
        × ((k : ℕ)
            → k < 1024
            → k ≢ table_index virt
            → w.memory (entry table k) ≡ v.memory (entry table k))
  pub new :
      is_present (v.memory (entry dir (dir_index virt))) ≡ false
      → (k : ℕ) → k < 1024
      → k ≢ table_index virt
      → w.memory (entry table k) ≡ 0
  pub outside :
      (a : ℕ)
      → a ≢ entry dir (dir_index virt)
      → (a < table) ⊎ (table + 4096 ≤ a)
      → w.memory a ≡ v.memory a

-- A word opened to the user, and one opened to writing too.
Flagged-user : (x y : ℕ) → Flagged x pte_user y → (is_present y ≡ is_present x) × (is_user y ≡ true)
Flagged-user x y f = (ground (arith, f.1), ground (arith, f.3))

Flagged-writable :
    (x y : ℕ) → Flagged x pte_writable y → (is_present y ≡ is_present x) × (is_user y ≡ is_user x)
Flagged-writable x y f = (ground (arith, f.1), ground (arith, f.3))

-- What `open_entry` makes of the entry.
abbrev opened_word : (x flags : ℕ) → ℕ
opened_word x flags =
    if is_present x && is_user flags
    then (if is_writable flags then bit_or (bit_or x pte_user) pte_writable else bit_or x pte_user)
    else x

open_entry_word :
    (dir pdi flags : ℕ) (m : ℕ → ℕ)
    → open_entry dir pdi flags m (entry dir pdi) ≡ opened_word (m (entry dir pdi)) flags
unfolding open_entry
open_entry_word dir pdi flags m =
    elim (Bool-cases (is_present (m (entry dir pdi)) && is_user flags)) [
      | inl both ↦ elim (Bool-cases (is_writable flags)) [
        | inl writable ↦ rw (both, writable) (ground arith)
        | inr readable ↦ rw (both, readable) (ground arith)
      ]
      | inr closed ↦ rw closed refl
    ]

abbrev pub Opened : (x flags y : ℕ) → Type 0
Opened x flags y =
    (is_present y ≡ is_present x)
    × (page_of y ≡ page_of x)
    × (is_present x ≡ true → is_user flags ≡ true → is_user y ≡ true)

pub opened_word-Opened : (x flags : ℕ) → Opened x flags (opened_word x flags)
opened_word-Opened x flags =
    let f = Flagged-bit_or x pte_user (omega arith) in
    let g = Flagged-bit_or (bit_or x pte_user) pte_writable (omega arith) in
    let f' = Flagged-user x (bit_or x pte_user) f in
    let g' = Flagged-writable (bit_or x pte_user) (bit_or (bit_or x pte_user) pte_writable) g in
    elim (Bool-cases (is_present x && is_user flags)) [
      | inl both ↦ elim (Bool-cases (is_writable flags)) [
        | inl writable ↦ rw (both, writable) (g'.0 ∙ f'.0, g.0 ∙ f.0, λ here user. g'.1 ∙ f'.1)
        | inr readable ↦ rw (both, readable) (f'.0, f.0, λ here user. f'.1)
      ]
      | inr closed ↦ rw closed (refl, refl, λ here user. cc (here, user, closed))
    ]

pub open_entry_frame :
    (dir pdi flags : ℕ) (m : ℕ → ℕ) (a : ℕ) → a ≢ entry dir pdi → open_entry dir pdi flags m a ≡ m a
unfolding open_entry
open_entry_frame dir pdi flags m a ne = ground arith

pub open_entry-Opened :
    (dir pdi flags : ℕ) (m : ℕ → ℕ)
    → Opened (m (entry dir pdi)) flags (open_entry dir pdi flags m (entry dir pdi))
open_entry-Opened dir pdi flags m =
    rw (open_entry_word dir pdi flags m) (opened_word-Opened (m (entry dir pdi)) flags)
