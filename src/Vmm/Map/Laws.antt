-- ===== src/Vmm/Map/Laws.antt =====
-- What `vmm_map_page` and `vmm_unmap_page` mean for the addresses of a directory.
use system_operative_edit.Base.{
  ℕ, ◌+◌, ◌/◌, ◌%◌, ◌^◌, ◌<◌, ◌≡◌, refl, sym, ap, ◌∙◌, ◌≢◌, ◌⊎◌, inl, inr, true, none, some, arith,
  ◌==◌, Bool-cases,
}
use mathlib.Core.Path.{subst}
use system_operative_edit.Vmm.{
  Vmm, is_present, is_user, page_of, entry, dir_index, table_index, map_page, unmap_page,
}
use system_operative_edit.Vmm.Walk.{page_entry, words_translate_absent, translate, user_can}
use system_operative_edit.Vmm.Map.{Held, IsDirectory, Mapped}
use system_operative_edit.Vmm.Map.Entries.{entry-ne, update-ne, update_self}
use system_operative_edit.Vmm.Map.Result.{Exhausted, map_page_lem}
use system_operative_edit.Vmm.Map.Translation.{
  Mapped-translate, Mapped-others, Mapped-other, words_agree,
}

module _ (v : Vmm) (dir virt phys flags : ℕ) (d : IsDirectory v dir) (small : virt < 2 ^ 32)
    (low : flags < 8) where
  abbrev Slot : (w : Vmm) (t i : ℕ) → Type 0
  Slot w t i =
      ((page_of (w.memory (entry dir i)) ≡ t) × (i ≡ dir_index virt))
      ⊎ ((i ≢ dir_index virt) × (w.memory (entry dir i) ≡ v.memory (entry dir i)))

  Mapped-Slot :
      (t : ℕ) (w : Vmm) → Mapped v dir virt phys flags t w → (i : ℕ) → i < 1024 → Slot w t i
  Mapped-Slot t w m i lt = elim (Bool-cases (i == dir_index virt)) [
    | inl same ↦
        let e : i ≡ dir_index virt = ground (arith, same) in
        inl (ap (λ j. page_of (w.memory (entry dir j))) e ∙ m.points, e)
    | inr differ ↦
        let e : i ≢ dir_index virt = ground (arith, differ) in
        inr (e, Mapped-other v dir virt phys flags d small low t w i m lt e)
  ]

  -- A table that was there before, from its entry now.
  old_present :
      (w : Vmm) (i : ℕ)
      → w.memory (entry dir i) ≡ v.memory (entry dir i)
      → is_present (w.memory (entry dir i)) ≡ true
      → is_present (v.memory (entry dir i)) ≡ true
  old_present w i same here = ap is_present (sym same) ∙ here

  Mapped-tables :
      (t : ℕ) (w : Vmm)
      → Mapped v dir virt phys flags t w
      → (i : ℕ) → i < 1024
      → is_present (w.memory (entry dir i)) ≡ true
      → Held w.frames (page_of (w.memory (entry dir i))) × (page_of (w.memory (entry dir i)) ≢ dir)
  Mapped-tables t w m i lt here = elim (Mapped-Slot t w m i lt) [
    | inl (e, _) ↦ rw e (m.held, m.not_dir)
    | inr (ne, same) ↦
        let table = d.tables i lt (old_present w i same here) in rw same (m.kept _ table.0, table.1)
  ]

  Mapped-apart :
      (t : ℕ) (w : Vmm)
      → Mapped v dir virt phys flags t w
      → (i j : ℕ) → i < 1024
      → j < 1024
      → i ≢ j
      → is_present (w.memory (entry dir i)) ≡ true
      → is_present (w.memory (entry dir j)) ≡ true
      → page_of (w.memory (entry dir i)) ≢ page_of (w.memory (entry dir j))
  Mapped-apart t w m i j lti ltj ne hi hj = elim (Mapped-Slot t w m i lti) [
    | inl (ei, ai) ↦ elim (Mapped-Slot t w m j ltj) [
      | inl (ej, aj) ↦ absurd (ne (ai ∙ sym aj))
      | inr (nj, sj) ↦
          λ q. m.others j ltj nj (old_present w j sj hj) (ap page_of (sym sj) ∙ sym q ∙ ei)
    ]
    | inr (ni, si) ↦ elim (Mapped-Slot t w m j ltj) [
      | inl (ej, aj) ↦ λ q. m.others i lti ni (old_present w i si hi) (ap page_of (sym si) ∙ q ∙ ej)
      | inr (nj, sj) ↦ λ q.
          d.apart i j lti ltj ne (old_present w i si hi) (old_present w j sj hj)
            (ap page_of (sym si) ∙ q ∙ ap page_of sj)
    ]
  ]

  Mapped-IsDirectory : (t : ℕ) (w : Vmm) → Mapped v dir virt phys flags t w → IsDirectory w dir
  Mapped-IsDirectory t w m = record {
    frames = m.frames;
    page = m.kept dir d.page;
    tables = Mapped-tables t w m;
    apart = Mapped-apart t w m;
  }

  -- After `vmm_map_page` on a directory whose tables lie in frames of their own, the address is
  -- translated to the same offset in the given physical page, and a program in ring 3 may use it exactly
  -- when the flags say so; or every managed frame is in use, the directory has no table for the
  -- address, and nothing has changed.
  pub map_page_translates :
      let w = map_page dir virt phys flags v in
      ((translate w.memory dir virt ≡ some (page_of phys + virt % 4096))
        × (user_can w.memory dir virt ≡ is_user flags))
      ⊎ (Exhausted v.frames × (translate v.memory dir virt ≡ none) × (w ≡ v))
  map_page_translates = elim (map_page_lem v dir virt phys flags d small low) [
    | inl (t, m) ↦
        inl
          (Mapped-translate v dir virt phys flags d small low t (map_page dir virt phys flags v) m)
    | inr (out, absent, same) ↦
        let pde = v.memory (entry dir (dir_index virt)) in
        inr (out, words_translate_absent pde (page_entry v.memory pde virt) virt (inl absent), same)
  ]

  -- `vmm_map_page` leaves the translation of every address in another page as it was.
  pub map_page_others :
      (other : ℕ)
      → other < 2 ^ 32
      → other / 4096 ≢ virt / 4096
      → translate (map_page dir virt phys flags v).memory dir other ≡ translate v.memory dir other
  map_page_others other lt ne = elim (map_page_lem v dir virt phys flags d small low) [
    | inl (t, m) ↦
        Mapped-others v dir virt phys flags d small low t (map_page dir virt phys flags v) other m
          lt ne
    | inr (out, absent, same) ↦ ap (λ w. translate w.memory dir other) same
  ]

  -- `vmm_map_page` keeps a directory well-formed: the directory and its tables lie in frames that are
  -- in use, each in its own, and the allocator's invariant holds.
  pub map_page-IsDirectory : IsDirectory (map_page dir virt phys flags v) dir
  map_page-IsDirectory = elim (map_page_lem v dir virt phys flags d small low) [
    | inl (t, m) ↦ Mapped-IsDirectory t (map_page dir virt phys flags v) m
    | inr (out, absent, same) ↦ subst (λ w. IsDirectory w dir) (sym same) d
  ]

-- What `vmm_unmap_page` does.
module _ (v : Vmm) (dir virt : ℕ) (d : IsDirectory v dir) (small : virt < 2 ^ 32) where
  abbrev pde : ℕ
  pde = v.memory (entry dir (dir_index virt))

  unmap_page_outside :
      (a : ℕ)
      → (is_present pde ≡ true → a ≢ entry (page_of pde) (table_index virt))
      → (unmap_page dir virt v).memory a ≡ v.memory a
  unfolding unmap_page
  unmap_page_outside a out = elim (Bool-cases (is_present pde)) [
    | inl here ↦
        rw here (update-ne v.memory (entry (page_of pde) (table_index virt)) 0 a (out here))
    | inr absent ↦ rw absent refl
  ]

  unmap_page_dir :
      (i : ℕ) → i < 1024 → (unmap_page dir virt v).memory (entry dir i) ≡ v.memory (entry dir i)
  unmap_page_dir i lt = unmap_page_outside (entry dir i) (λ here.
      (let table = d.tables (dir_index virt) (omega (arith, small)) here in
        entry-ne dir (page_of pde) i (table_index virt) d.page.0 table.0.0 (λ e. table.1 (sym e)) lt
          (omega arith)))

  unmap_page_entry :
      is_present pde ≡ true
      → (unmap_page dir virt v).memory (entry (page_of pde) (table_index virt)) ≡ 0
  unfolding unmap_page
  unmap_page_entry here = rw here (update_self v.memory (entry (page_of pde) (table_index virt)) 0)

  -- After `vmm_unmap_page` the address is translated to nothing.
  pub unmap_page_translates : translate (unmap_page dir virt v).memory dir virt ≡ none
  unmap_page_translates =
      let w = unmap_page dir virt v in
      let a = w.memory (entry dir (dir_index virt)) in
      let same : a ≡ pde = unmap_page_dir (dir_index virt) (omega (arith, small)) in
      words_translate_absent a (page_entry w.memory a virt) virt
        (elim (Bool-cases (is_present pde)) [
          | inl here ↦
              let empty : page_entry w.memory a virt ≡ 0 =
                ap (λ p. page_entry w.memory p virt) same ∙ unmap_page_entry here in
              inr (ap is_present empty)
          | inr absent ↦ inl (ap is_present same ∙ absent)
        ])

  unmap_page_apart :
      (other : ℕ)
      → other < 2 ^ 32
      → other / 4096 ≢ virt / 4096
      → is_present (v.memory (entry dir (dir_index other))) ≡ true
      → is_present pde ≡ true
      → entry (page_of (v.memory (entry dir (dir_index other)))) (table_index other)
        ≢ entry (page_of pde) (table_index virt)
  unmap_page_apart other lt ne there here =
      let i = dir_index other in
      let j = dir_index virt in
      let word : ℕ → ℕ = λ n. v.memory (entry dir n) in
      elim (Bool-cases (i == j)) [
        | inl same ↦
            let e : i ≡ j = ground (arith, same) in
            let pages : page_of (word i) ≡ page_of pde = ap (λ n. page_of (word n)) e in
            λ q. ne (omega (arith, q, pages, e))
        | inr differ ↦
            let e : i ≢ j = ground (arith, differ) in
            let li : i < 1024 = omega (arith, lt) in
            let lj : j < 1024 = omega (arith, small) in
            entry-ne (page_of (word i)) (page_of pde) (table_index other) (table_index virt)
              (d.tables i li there).0.0 (d.tables j lj here).0.0 (d.apart i j li lj e there here)
              (omega arith) (omega arith)
      ]

  -- `vmm_unmap_page` leaves the translation of every address in another page as it was.
  pub unmap_page_others :
      (other : ℕ)
      → other < 2 ^ 32
      → other / 4096 ≢ virt / 4096
      → translate (unmap_page dir virt v).memory dir other ≡ translate v.memory dir other
  unmap_page_others other lt ne =
      let w = unmap_page dir virt v in
      let i = dir_index other in
      let a = w.memory (entry dir i) in
      let b = v.memory (entry dir i) in
      let same : a ≡ b = unmap_page_dir i (omega (arith, lt)) in
      words_agree a b (page_entry w.memory a other) (page_entry v.memory b other) other
        (ap is_present same)
        (λ there.
          (ap (λ p. page_entry w.memory p other) same
            ∙ unmap_page_outside (entry (page_of b) (table_index other))
                (λ here. unmap_page_apart other lt ne there here)))
