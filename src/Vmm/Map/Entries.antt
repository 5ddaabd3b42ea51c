-- ===== src/Vmm/Map/Entries.antt =====
-- `vmm_map_page` writes the entries that `Mapped` describes, or finds no frame.
use system_operative_edit.Base.{
  ℕ, ◌+◌, ◌%◌, ◌^◌, ◌≤◌, ◌<◌, bit_or, ◌≡◌, refl, sym, ◌∙◌, ◌≢◌, ◌⊎◌, inl, inr, true, false, arith,
  update,
}
use system_operative_edit.Base.Masks.{bit_or_flags}
use system_operative_edit.Pmm.{Pmm}
use system_operative_edit.Pmm.Alloc.{IsValid}
use system_operative_edit.Vmm.{
  Vmm, is_present, is_user, page_of, entry, dir_index, table_index, pte_present, pte_writable,
  clear_entries, open_entry,
}
use system_operative_edit.Vmm.Walk.{Flagged, Flagged-bit_or, clear_entries_lem, clear_entries_zero}
use system_operative_edit.Vmm.Map.{Held, IsDirectory, Mapped, open_entry-Opened, open_entry_frame}

pub entry-ne :
    (a b i j : ℕ)
    → a % 4096 ≡ 0
    → b % 4096 ≡ 0
    → a ≢ b
    → i < 1024
    → j < 1024
    → entry a i ≢ entry b j
entry-ne a b i j pa pb ne li lj = λ e. ne (omega (arith, pa, pb, li, lj, e))

out-ne : (a t k : ℕ) → (a < t) ⊎ (t + 4096 ≤ a) → k < 1024 → a ≢ entry t k
out-ne a t k out lt = λ e. omega (arith, out, lt, e)

pub update-ne {ℓ} :
    {A : Type ℓ} → (m : ℕ → A) (a : ℕ) (x : A) (b : ℕ) → b ≢ a → update m a x b ≡ m b
update-ne m a x b ne = ground arith

pub update_self {ℓ} : {A : Type ℓ} → (m : ℕ → A) (a : ℕ) (x : A) → update m a x a ≡ x
update_self m a x = ground arith

bit_or-lt : (x g : ℕ) → x < 8 → g < 8 → bit_or x g < 8
bit_or-lt x g lx lg = omega (arith, lx, lg, bit_or_flags x g lg)

Flagged-present : (x g y : ℕ) → is_present g ≡ true → Flagged x g y → is_present y ≡ true
Flagged-present x g y set f = ground (arith, set, f.1)

user_flag_lem :
    (x g y : ℕ) → (is_user x ≡ true) ⊎ (is_user g ≡ true) → Flagged x g y → is_user y ≡ true
user_flag_lem x g y (inl set) f = ground (arith, set, f.3)
user_flag_lem x g y (inr set) f = ground (arith, set, f.3)

module _ (v : Vmm) (dir virt phys flags : ℕ) (d : IsDirectory v dir) (small : virt < 2 ^ 32) where
  abbrev pdi : ℕ
  pdi = dir_index virt

  abbrev pti : ℕ
  pti = table_index virt

  abbrev word : ℕ
  word = bit_or (bit_or (page_of phys) flags) pte_present

  pdi-lt : pdi < 1024
  pdi-lt = omega (arith, small)

  pti-lt : pti < 1024
  pti-lt = omega arith

  abbrev pub opened_memory : ℕ → ℕ
  opened_memory = open_entry dir pdi flags v.memory

  pub present-Mapped :
      is_present (v.memory (entry dir pdi)) ≡ true
      → let t = page_of (v.memory (entry dir pdi)) in
        Mapped v dir virt phys flags t
          (record v { memory = update opened_memory (entry t pti) word })
  present-Mapped here =
      let t = page_of (v.memory (entry dir pdi)) in
      let table = d.tables pdi pdi-lt here in
      let far : entry dir pdi ≢ entry t pti =
        entry-ne dir t pdi pti d.page.0 table.0.0 (λ e. table.1 (sym e)) pdi-lt pti-lt in
      let kept : update opened_memory (entry t pti) word (entry dir pdi)
          ≡ opened_memory (entry dir pdi) =
        update-ne opened_memory (entry t pti) word (entry dir pdi) far in
      let o = open_entry-Opened dir pdi flags v.memory in
      record {
        frames = d.frames;
        kept = λ a h. h;
        held = table.0;
        not_dir = table.1;
        others = λ j lt ne there. d.apart j pdi lt pdi-lt ne there here;
        present = rw kept (o.0 ∙ here);
        points = rw kept (o.1);
        opened = λ user. rw kept (o.2 here user);
        page_entry = update_self opened_memory (entry t pti) word;
        old = λ _. (
          refl,
          λ k lt ne.
              update-ne opened_memory (entry t pti) word (entry t k) (λ e. ne (omega (arith, e)))
              ∙ open_entry_frame dir pdi flags v.memory (entry t k)
                  (entry-ne t dir k pdi table.0.0 d.page.0 table.1 lt pdi-lt),
        );
        new = λ absent. cc (absent, here);
        outside = λ a ne out.
            update-ne opened_memory (entry t pti) word a (out-ne a t pti out pti-lt)
            ∙ open_entry_frame dir pdi flags v.memory a ne;
      }

  -- A frame for a new table: free until now.
  abbrev pub Fresh : ℕ → Pmm → Type 0
  Fresh t fr = IsValid fr × Held fr t × ((a : ℕ) → Held v.frames a → Held fr a × (a ≢ t))

  -- The flags of a new directory entry, and the entry.
  abbrev pub dir_flags : ℕ
  dir_flags = bit_or (bit_or flags pte_present) pte_writable

  abbrev pub dir_word : ℕ → ℕ
  dir_word t = bit_or (bit_or t dir_flags) pte_present

  dir_word_lem :
      (t : ℕ)
      → flags < 8
      → t % 4096 ≡ 0
      → (is_present (dir_word t) ≡ true)
        × (page_of (dir_word t) ≡ t)
        × (is_user flags ≡ true → is_user (dir_word t) ≡ true)
  dir_word_lem t lt aligned =
      let some_flags = bit_or flags pte_present in
      let some_word = bit_or t dir_flags in
      let l = bit_or-lt flags pte_present lt (omega arith) in
      let f = Flagged-bit_or flags pte_present (omega arith) in
      let g = Flagged-bit_or some_flags pte_writable (omega arith) in
      let h = Flagged-bit_or t dir_flags (bit_or-lt some_flags pte_writable l (omega arith)) in
      let k = Flagged-bit_or some_word pte_present (omega arith) in
      (
        Flagged-present some_word pte_present (dir_word t) refl k,
        k.0 ∙ h.0 ∙ omega (arith, aligned),
        λ user.
            (let a = user_flag_lem flags pte_present some_flags (inl user) f in
              let b = user_flag_lem some_flags pte_writable dir_flags (inl a) g in
              let c = user_flag_lem t dir_flags some_word (inr b) h in
              user_flag_lem some_word pte_present (dir_word t) (inl c) k),
      )

  unfoldable pub fresh_memory : ℕ → ℕ → ℕ
  fresh_memory t = update (clear_entries 1024 0 t v.memory) (entry dir pdi) (dir_word t)

  pub Fresh-Mapped :
      (t : ℕ) (fr : Pmm)
      → flags < 8
      → is_present (v.memory (entry dir pdi)) ≡ false
      → Fresh t fr
      → Mapped v dir virt phys flags t
          (record v { frames = fr; memory = update (fresh_memory t) (entry t pti) word })
  unfolding fresh_memory
  Fresh-Mapped t fr lt absent f =
      let e = entry dir pdi in
      let cleared = clear_entries 1024 0 t v.memory in
      let not_dir : t ≢ dir = λ q. (f.2 dir d.page).1 (sym q) in
      let far : e ≢ entry t pti =
        entry-ne dir t pdi pti d.page.0 f.1.0 (λ q. not_dir (sym q)) pdi-lt pti-lt in
      let here : update (fresh_memory t) (entry t pti) word e ≡ dir_word t =
        update-ne (fresh_memory t) (entry t pti) word e far ∙ update_self cleared e (dir_word t) in
      let w = dir_word_lem t lt f.1.0 in
      record {
        frames = f.0;
        kept = λ a h. (f.2 a h).0;
        held = f.1;
        not_dir = not_dir;
        others = λ j ltj ne there. (f.2 _ (d.tables j ltj there).0).1;
        present = rw here w.0;
        points = rw here w.1;
        opened = λ user. rw here (w.2 user);
        page_entry = update_self (fresh_memory t) (entry t pti) word;
        old = λ there. cc (absent, there);
        new = λ _ k ltk ne.
            update-ne (fresh_memory t) (entry t pti) word (entry t k) (λ q. ne (omega (arith, q)))
            ∙ update-ne cleared e (dir_word t) (entry t k)
                (entry-ne t dir k pdi f.1.0 d.page.0 not_dir ltk pdi-lt)
            ∙ clear_entries_zero 1024 0 t k v.memory (omega arith) (omega (arith, ltk));
        outside = λ a ne out.
            update-ne (fresh_memory t) (entry t pti) word a (out-ne a t pti out pti-lt)
            ∙ update-ne cleared e (dir_word t) a ne
            ∙ clear_entries_lem 1024 0 t v.memory a (ground (arith, out));
      }
