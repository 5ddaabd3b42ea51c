-- ===== src/Proc/User/Pages.antt =====
-- The pages of a new program leave its directory well-formed.
use mathlib.Core.Path.{subst}
use system_operative_edit.Base.{
  ℕ, zero, suc, ◌+◌, ◌*◌, ◌%◌, ◌^◌, sym, inl, inr, arith, ◌==◌, Bool-cases,
}
use system_operative_edit.Pmm.{Pmm, alloc_frame}
use system_operative_edit.Pmm.Alloc.{Allocated, alloc_frame_lem, alloc_frame-IsValid}
use system_operative_edit.Vmm.{Vmm, map_page, page_of, entry}
use system_operative_edit.Vmm.Map.{Held, IsDirectory}
use system_operative_edit.Vmm.Map.Result.{Held-kept}
use system_operative_edit.Vmm.Map.Laws.{map_page-IsDirectory}
use system_operative_edit.Proc.User.{map_code, map_stack}

-- A frame that is handed out is none of the directory's.
given-Held : (p : Pmm) (o : ℕ × Pmm) → Allocated p o → (a : ℕ) → Held p a → Held o.1 a
given-Held p (addr, q) (inl (out, none_left, same)) a h = subst (λ r. Held r a) (sym same) h
given-Held p (addr, q) (inr (f, lt, free, below, at, took)) a h = (Held-kept p q f free took a h).0

alloc_frame-IsDirectory :
    (v : Vmm) (dir : ℕ)
    → IsDirectory v dir
    → IsDirectory (record v { frames = (alloc_frame v.frames).1 }) dir
alloc_frame-IsDirectory v dir d =
    let kept = given-Held v.frames (alloc_frame v.frames) (alloc_frame_lem d.frames) in
    record {
      frames = alloc_frame-IsValid d.frames;
      page = kept dir d.page;
      tables = λ i lt here.
          (kept (page_of (v.memory (entry dir i))) (d.tables i lt here).0, (d.tables i lt here).1);
      apart = d.apart;
    }

-- The loop of `proc_create_user` that maps the program keeps its directory well-formed, however many
-- pages there are and whether or not the frames last.
pub map_code-IsDirectory :
    (r p dir virt phys : ℕ) (v : Vmm)
    → IsDirectory v dir
    → IsDirectory (map_code r p dir virt phys v) dir
unfolding map_code
map_code-IsDirectory zero p dir virt phys v d = d
map_code-IsDirectory (suc r) p dir virt phys v d =
    let a = (virt + p * 4096) % 2 ^ 32 in
    let b = (phys + p * 4096) % 2 ^ 32 in
    map_code-IsDirectory r (p + 1) dir virt phys (map_page dir a b 7 v)
      (map_page-IsDirectory v dir a b 7 d (omega arith) (omega arith))

-- The loop that maps the stack keeps the directory well-formed, also when it breaks off for want of a
-- frame.
pub map_stack-IsDirectory :
    (r p dir stack_virt : ℕ) (v : Vmm)
    → IsDirectory v dir
    → IsDirectory (map_stack r p dir stack_virt v).1 dir
unfolding map_stack
map_stack-IsDirectory zero p dir stack_virt v d = d
map_stack-IsDirectory (suc r) p dir stack_virt v d =
    let o = alloc_frame v.frames in
    let given = record v { frames = o.1 } in
    let a = (stack_virt + p * 4096) % 2 ^ 32 in
    let h = alloc_frame-IsDirectory v dir d in
    let next = map_page-IsDirectory given dir a o.0 7 h (omega arith) (omega arith) in
    let ih = map_stack-IsDirectory r (p + 1) dir stack_virt (map_page dir a o.0 7 given) next in
    elim (Bool-cases (o.0 == 0)) [
      | inl none_left ↦ rw none_left h
      | inr some_left ↦ rw some_left ih
    ]
