-- ===== src/Vmm/Map/Result.antt =====
-- `vmm_map_page` as a whole: the mapping is there, or no frame was left for a table.
use system_operative_edit.Base.{
  ℕ, ◌-◌, ◌/◌, ◌^◌, ◌<◌, bit_or, ◌≡◌, refl, ap, ◌∙◌, ◌≢◌, ◌⊎◌, inl, inr, true, false, arith, ◌==◌,
  Bool-cases, update,
}
use system_operative_edit.Pmm.{Pmm, alloc_frame, base_addr, max_frames}
use system_operative_edit.Pmm.Bitmap.{is_used}
use system_operative_edit.Pmm.Search.{AllUsed}
use system_operative_edit.Pmm.Alloc.{
  IsValid, Allocated, alloc_frame_lem, alloc_frame-IsValid, frame_addr, Took,
}
use system_operative_edit.Vmm.{
  Vmm, is_present, page_of, entry, dir_index, table_index, pte_present, pte_writable, open_entry,
  new_table, get_or_create_table, set_entry, map_page,
}
use system_operative_edit.Vmm.Map.{Held, IsDirectory, Mapped, open_entry-Opened}
use system_operative_edit.Vmm.Map.Entries.{
  present-Mapped, Fresh-Mapped, Fresh, fresh_memory, opened_memory, update-ne, update_self,
}

is_used_taken :
    (p q : Pmm) (f g : ℕ) → Took p f q → is_used q.bitmap g ≡ update (is_used p.bitmap) f true g
is_used_taken p q f g took = ap (λ u. u g) took.marks

pub Held-kept :
    (p q : Pmm) (f : ℕ)
    → is_used p.bitmap f ≡ false
    → Took p f q
    → (a : ℕ) → Held p a
    → Held q a × (a ≢ frame_addr f)
Held-kept p q f free took a h =
    let g = (a - base_addr) / 4096 in
    let differ : g ≢ f = λ e. cc (ap (is_used p.bitmap) e, h.3, free) in
    (
      (
        h.0,
        h.1,
        h.2,
        is_used_taken p q f g took ∙ update-ne (is_used p.bitmap) f true g differ ∙ h.3,
      ),
      λ e. differ (omega (arith, e)),
    )

Held-new : (p q : Pmm) (f : ℕ) → f < max_frames → Took p f q → Held q (frame_addr f)
Held-new p q f lt took =
    let g = (frame_addr f - base_addr) / 4096 in
    let same : g ≡ f = omega arith in
    (
      omega arith,
      omega arith,
      omega (arith, lt),
      is_used_taken p q f g took
          ∙ ap (update (is_used p.bitmap) f true) same
          ∙ update_self (is_used p.bitmap) f true,
    )

get_or_create_table_present :
    (dir pdi flags : ℕ) (v : Vmm)
    → is_present (v.memory (entry dir pdi)) ≡ true
    → get_or_create_table dir pdi flags v ≡ (page_of (v.memory (entry dir pdi)), v)
unfolding get_or_create_table
get_or_create_table_present dir pdi flags v here = rw here refl

get_or_create_table_absent :
    (dir pdi flags : ℕ) (v : Vmm)
    → is_present (v.memory (entry dir pdi)) ≡ false
    → get_or_create_table dir pdi flags v
      ≡ (let (phys, frames) = alloc_frame v.frames in new_table phys dir pdi flags frames v)
unfolding get_or_create_table
get_or_create_table_absent dir pdi flags v here = rw here refl

open_entry_absent :
    (dir pdi flags : ℕ) (m : ℕ → ℕ)
    → is_present (m (entry dir pdi)) ≡ false
    → open_entry dir pdi flags m ≡ m
unfolding open_entry
open_entry_absent dir pdi flags m here = rw here refl

set_entry_some :
    (virt phys flags t : ℕ) (v : Vmm)
    → t ≢ 0
    → set_entry virt phys flags t v ≡ record v {
      memory =
          update v.memory
            (entry t (table_index virt))
            (bit_or (bit_or (page_of phys) flags) pte_present);
    }
unfolding set_entry
set_entry_some virt phys flags t v ne =
    let test : (t == 0) ≡ false = ground (arith, ne) in rw test refl

-- Every managed frame is in use.
abbrev pub Exhausted : Pmm → Type 0
Exhausted p = AllUsed p.bitmap 0 p.total_frames

-- The mapping is written; or there is no table and no frame for one, and nothing changes.
abbrev pub MapResult : (v : Vmm) (dir virt phys flags : ℕ) (w : Vmm) → Type 0
MapResult v dir virt phys flags w =
    ((t : ℕ) × Mapped v dir virt phys flags t w)
    ⊎ (Exhausted v.frames × (is_present (v.memory (entry dir (dir_index virt))) ≡ false) × (w ≡ v))

module _ (v : Vmm) (dir virt phys flags : ℕ) (d : IsDirectory v dir) (small : virt < 2 ^ 32)
    (low : flags < 8) where
  abbrev pde : ℕ
  pde = v.memory (entry dir (dir_index virt))

  abbrev new_flags : ℕ
  new_flags = bit_or (bit_or flags pte_present) pte_writable

  -- `set_entry` after `new_table`, with what `alloc_frame` gave.
  abbrev mapped_new : ℕ × Pmm → Vmm
  mapped_new (t, q) =
      let (table, w) = new_table t dir (dir_index virt) new_flags q v in
      set_entry virt phys flags table w

  mapped_new_null : (q : Pmm) → mapped_new (0, q) ≡ record v { frames = q }
  unfolding new_table set_entry
  mapped_new_null q = refl

  mapped_new_some :
      (t : ℕ) (q : Pmm)
      → t ≢ 0
      → mapped_new (t, q) ≡ record v {
        frames = q;
        memory =
            update
              (fresh_memory v dir virt phys flags d small t)
              (entry t (table_index virt))
              (bit_or (bit_or (page_of phys) flags) pte_present);
      }
  unfolding new_table set_entry fresh_memory
  mapped_new_some t q ne =
      let test : (t == 0) ≡ false = ground (arith, ne) in rw test (rw test refl)

  absent_lem :
      (a : ℕ × Pmm)
      → is_present pde ≡ false
      → IsValid a.1
      → Allocated v.frames a
      → MapResult v dir virt phys flags (mapped_new a)
  absent_lem (t, q) absent valid (inl out) =
      inr (out.0, absent, rw (out.1, out.2) (mapped_new_null v.frames))
  absent_lem (t, q) absent valid (inr (f, lt, free, below, addr, took)) =
      let total : f < max_frames = omega (arith, lt, d.frames.total) in
      let fresh : Fresh v dir virt phys flags d small (frame_addr f) q =
        (valid, Held-new v.frames q f total took, Held-kept v.frames q f free took) in
      inl (
        t,
        rw (addr, mapped_new_some (frame_addr f) q (λ e. omega (arith, e)))
            (Fresh-Mapped v dir virt phys flags d small (frame_addr f) q low absent fresh),
      )

  abbrev opened : Vmm
  opened = record v { memory = opened_memory v dir virt phys flags d small }

  map_present :
      is_present pde ≡ true → MapResult v dir virt phys flags (map_page dir virt phys flags v)
  unfolding map_page
  map_present here =
      let o = open_entry-Opened dir (dir_index virt) flags v.memory in
      let table = d.tables (dir_index virt) (omega (arith, small)) here in
      inl (
        page_of pde,
        rw
            (
              get_or_create_table_present dir (dir_index virt) new_flags opened (o.0 ∙ here),
              o.1,
              set_entry_some virt phys flags (page_of pde) opened
                  (λ e. omega (arith, e, table.0.1)),
            )
            (present-Mapped v dir virt phys flags d small here),
      )

  map_absent :
      is_present pde ≡ false → MapResult v dir virt phys flags (map_page dir virt phys flags v)
  unfolding map_page
  map_absent here =
      rw
        (
          open_entry_absent dir (dir_index virt) flags v.memory here,
          get_or_create_table_absent dir (dir_index virt) new_flags v here,
        )
        (absent_lem (alloc_frame v.frames) here (alloc_frame-IsValid d.frames)
          (alloc_frame_lem d.frames))

  -- `vmm_map_page` writes the mapping, or finds every managed frame in use, in which case it changes
  -- nothing and the directory has no table for the address.
  pub map_page_lem : MapResult v dir virt phys flags (map_page dir virt phys flags v)
  map_page_lem = elim (Bool-cases (is_present pde)) [
    | inl here ↦ map_present here
    | inr here ↦ map_absent here
  ]
