-- ===== src/Vmm/Map/Translation.antt =====
-- The translation of addresses after `vmm_map_page`.
use mathlib.Core.Path.{subst}
use system_operative_edit.Base.{
  ℕ, ◌+◌, ◌/◌, ◌%◌, ◌^◌, ◌≤◌, ◌<◌, bit_or, ◌≡◌, refl, sym, ap, ◌∙◌, ◌≢◌, ◌⊎◌, inl, inr, true, some,
  arith, ltb, ◌==◌, Bool-cases,
}
use system_operative_edit.Vmm.{
  Vmm, is_present, is_user, page_of, entry, dir_index, table_index, pte_present,
}
use system_operative_edit.Vmm.Walk.{
  words_translate, words_user_can, page_entry, words_translate_absent, words_translate_same,
  translate, user_can, Flagged-bit_or,
}
use system_operative_edit.Vmm.Map.{IsDirectory, Mapped}
use system_operative_edit.Vmm.Map.Entries.{entry-ne}

-- The entry of a page: its address, and its flags.
page_word_lem :
    (phys flags : ℕ)
    → flags < 8
    → let y = bit_or (bit_or (page_of phys) flags) pte_present in
      (is_present y ≡ true) × (page_of y ≡ page_of phys) × (is_user y ≡ is_user flags)
page_word_lem phys flags lt =
    let x = page_of phys in
    let f = Flagged-bit_or x flags lt in
    let g = Flagged-bit_or (bit_or x flags) pte_present (omega arith) in
    (ground (arith, g.1), g.0 ∙ f.0 ∙ omega arith, ground (arith, g.3, f.3))

words_translate_present :
    (pde pte virt : ℕ)
    → is_present pde ≡ true
    → is_present pte ≡ true
    → words_translate pde pte virt ≡ some (page_of pte + virt % 4096)
words_translate_present pde pte virt here there = ground (arith, here, there)

words_user_can_lem :
    (pde pte flags : ℕ)
    → is_present pde ≡ true
    → is_present pte ≡ true
    → is_user pte ≡ is_user flags
    → (is_user flags ≡ true → is_user pde ≡ true)
    → words_user_can pde pte ≡ is_user flags
words_user_can_lem pde pte flags here there same opened = elim (Bool-cases (is_user flags)) [
  | inl user ↦ rw (here, there, same, user, opened user) refl
  | inr closed ↦ ground (arith, same, closed)
]

pub words_agree :
    (a b x y virt : ℕ)
    → is_present a ≡ is_present b
    → (is_present b ≡ true → x ≡ y)
    → words_translate a x virt ≡ words_translate b y virt
words_agree a b x y virt same agree = elim (Bool-cases (is_present b)) [
  | inl here ↦
      words_translate_same a b x virt same ∙ ap (λ z. words_translate b z virt) (agree here)
  | inr absent ↦
      words_translate_absent a x virt (inl (same ∙ absent))
      ∙ sym (words_translate_absent b y virt (inl absent))
]

-- An entry of one page lies outside another page.
apart :
    (a t j : ℕ)
    → a % 4096 ≡ 0
    → t % 4096 ≡ 0
    → t ≢ a
    → j < 1024
    → (entry a j < t) ⊎ (t + 4096 ≤ entry a j)
apart a t j pa pt ne lt = elim (Bool-cases (ltb a t)) [
  | inl less ↦ inl (ground (arith, pa, pt, lt, less))
  | inr more ↦ inr (ground (arith, pa, pt, ne, more))
]

module _ (v : Vmm) (dir virt phys flags : ℕ) (d : IsDirectory v dir) (small : virt < 2 ^ 32)
    (low : flags < 8) where
  pub Mapped-translate :
      (t : ℕ) (w : Vmm)
      → Mapped v dir virt phys flags t w
      → (translate w.memory dir virt ≡ some (page_of phys + virt % 4096))
        × (user_can w.memory dir virt ≡ is_user flags)
  Mapped-translate t w m =
      let pde = w.memory (entry dir (dir_index virt)) in
      let word = bit_or (bit_or (page_of phys) flags) pte_present in
      let l = page_word_lem phys flags low in
      let e : page_entry w.memory pde virt ≡ word =
        ap (λ p. w.memory (entry p (table_index virt))) m.points ∙ m.page_entry in
      (
        ap (λ x. words_translate pde x virt) e
            ∙ words_translate_present pde word virt m.present l.0
            ∙ ap (λ p. some (p + virt % 4096)) l.1,
        ap (words_user_can pde) e ∙ words_user_can_lem pde word flags m.present l.0 l.2 m.opened,
      )

  -- The entries of the directory at other indices stay.
  pub Mapped-other :
      (t : ℕ) (w : Vmm) (j : ℕ)
      → Mapped v dir virt phys flags t w
      → j < 1024
      → j ≢ dir_index virt
      → w.memory (entry dir j) ≡ v.memory (entry dir j)
  Mapped-other t w j m lt ne =
      m.outside (entry dir j) (λ e. ne (omega (arith, e)))
        (apart dir t j d.page.0 m.held.0 m.not_dir lt)

  -- The translations of an address by entry `i` of the directory, before and after.
  abbrev Agree : (w : Vmm) (other i : ℕ) → Type 0
  Agree w other i =
      let a = w.memory (entry dir i) in
      let b = v.memory (entry dir i) in
      words_translate a (page_entry w.memory a other) other
      ≡ words_translate b (page_entry v.memory b other) other

  Mapped-neighbour :
      (t : ℕ) (w : Vmm) (other : ℕ)
      → Mapped v dir virt phys flags t w
      → table_index other ≢ table_index virt
      → Agree w other (dir_index virt)
  Mapped-neighbour t w other m ne =
      let k = table_index other in
      let a = w.memory (entry dir (dir_index virt)) in
      let b = v.memory (entry dir (dir_index virt)) in
      let to_table : page_entry w.memory a other ≡ w.memory (entry t k) =
        ap (λ p. w.memory (entry p k)) m.points in
      elim (Bool-cases (is_present b)) [
        | inl here ↦
            words_agree a b (page_entry w.memory a other) (page_entry v.memory b other) other
              (m.present ∙ sym here)
              (λ _.
                to_table
                ∙ (m.old here).1 k (omega arith) ne
                ∙ ap (λ p. v.memory (entry p k)) (sym (m.old here).0))
        | inr absent ↦
            let empty : page_entry w.memory a other ≡ 0 =
              to_table ∙ m.new absent k (omega arith) ne in
            words_translate_absent a (page_entry w.memory a other) other (inr (rw empty refl))
            ∙ sym (words_translate_absent b (page_entry v.memory b other) other (inl absent))
      ]

  Mapped-stranger :
      (t : ℕ) (w : Vmm) (other : ℕ)
      → Mapped v dir virt phys flags t w
      → dir_index other < 1024
      → dir_index other ≢ dir_index virt
      → Agree w other (dir_index other)
  Mapped-stranger t w other m lt ne =
      let i = dir_index other in
      let k = table_index other in
      let a = w.memory (entry dir i) in
      let b = v.memory (entry dir i) in
      let same : a ≡ b = Mapped-other t w i m lt ne in
      words_agree a b (page_entry w.memory a other) (page_entry v.memory b other) other
        (ap is_present same)
        (λ here.
          (let table = d.tables i lt here in
            ap (λ p. page_entry w.memory p other) same
            ∙ m.outside (entry (page_of b) k)
                (entry-ne (page_of b) dir k (dir_index virt) table.0.0 d.page.0 table.1
                  (omega arith) (omega (arith, small)))
                (apart (page_of b) t k table.0.0 m.held.0 (λ q. m.others i lt ne here (sym q))
                  (omega arith))))

  pub Mapped-others :
      (t : ℕ) (w : Vmm) (other : ℕ)
      → Mapped v dir virt phys flags t w
      → other < 2 ^ 32
      → other / 4096 ≢ virt / 4096
      → translate w.memory dir other ≡ translate v.memory dir other
  Mapped-others t w other m lt ne = elim (Bool-cases (dir_index other == dir_index virt)) [
    | inl same ↦
        let e : dir_index other ≡ dir_index virt = ground (arith, same) in
        subst (Agree w other) (sym e) (Mapped-neighbour t w other m (λ q. ne (omega (arith, q, e))))
    | inr differ ↦
        let e : dir_index other ≢ dir_index virt = ground (arith, differ) in
        Mapped-stranger t w other m (omega (arith, lt)) e
  ]
