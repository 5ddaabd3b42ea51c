-- ===== src/Vmm/Walk.antt =====
-- The walk of the page tables as the processor does it, and the entries that vmm.c writes.
use system_operative_edit.Base.{
  ℕ, zero, suc, ◌+◌, ◌/◌, ◌%◌, ◌≤◌, ◌<◌, bit_or, ◌≡◌, refl, ap, ◌∙◌, ◌⊎◌, inl, inr, Bool, false,
  ◌&&◌, ◌||◌, Option, none, some, arith, ltb, leb, ◌==◌, if◌then◌else◌, Bool-cases, update,
}
use system_operative_edit.Base.Masks.{bit_or_flags}
use system_operative_edit.Vmm.{
  is_present, is_user, is_writable, page_of, entry, dir_index, table_index, clear_entries,
}

-- What an address is translated to by an entry of the directory and one of the table; `none` is a
-- page fault.
abbrev pub words_translate : (pde pte virt : ℕ) → Option ℕ
words_translate pde pte virt =
    if is_present pde && is_present pte then some (page_of pte + virt % 4096) else none

-- The access of a program in ring 3 is allowed: both entries are present and open to the user.
abbrev pub words_user_can : (pde pte : ℕ) → Bool
words_user_can pde pte = (is_present pde && is_user pde) && (is_present pte && is_user pte)

-- The entry of the table for an address, with the entry of the directory.
abbrev pub page_entry : (ℕ → ℕ) → (pde virt : ℕ) → ℕ
page_entry m pde virt = m (entry (page_of pde) (table_index virt))

-- The physical address of a virtual one.
abbrev pub translate : (ℕ → ℕ) → (dir virt : ℕ) → Option ℕ
translate m dir virt =
    let pde = m (entry dir (dir_index virt)) in words_translate pde (page_entry m pde virt) virt

abbrev pub user_can : (ℕ → ℕ) → (dir virt : ℕ) → Bool
user_can m dir virt =
    let pde = m (entry dir (dir_index virt)) in words_user_can pde (page_entry m pde virt)

pub words_translate_absent :
    (pde pte virt : ℕ)
    → (is_present pde ≡ false) ⊎ (is_present pte ≡ false)
    → words_translate pde pte virt ≡ none
words_translate_absent pde pte virt out = ground (arith, out)

pub words_translate_same :
    (a b pte virt : ℕ)
    → is_present a ≡ is_present b
    → words_translate a pte virt ≡ words_translate b pte virt
words_translate_same a b pte virt same =
    ap (λ x. if x && is_present pte then some (page_of pte + virt % 4096) else none) same

-- An entry after flags were set in it: its page, and each flag.
abbrev pub Flagged : (x g y : ℕ) → Type 0
Flagged x g y =
    (page_of y ≡ page_of x)
    × (is_present y ≡ (is_present x || is_present g))
    × (is_writable y ≡ (is_writable x || is_writable g))
    × (is_user y ≡ (is_user x || is_user g))
    × (y % 4096 / 8 ≡ x % 4096 / 8)

pub Flagged-bit_or : (x g : ℕ) → g < 8 → Flagged x g (bit_or x g)
Flagged-bit_or x g lt = (
  omega (arith, bit_or_flags x g lt),
  ground (arith, bit_or_flags x g lt),
  ground (arith, bit_or_flags x g lt),
  ground (arith, bit_or_flags x g lt),
  omega (arith, bit_or_flags x g lt),
)

pub clear_entries_lem :
    (r i base : ℕ) (m : ℕ → ℕ) (a : ℕ)
    → (leb (entry base i) a && ltb a (entry base (i + r)) ≡ false)
    → clear_entries r i base m a ≡ m a
unfolding clear_entries
clear_entries_lem zero i base m a out = refl
clear_entries_lem (suc r) i base m a out =
    ground (arith, clear_entries_lem r (i + 1) base (update m (entry base i) 0) a)

pub clear_entries_zero :
    (r i base j : ℕ) (m : ℕ → ℕ) → i ≤ j → j < i + r → clear_entries r i base m (entry base j) ≡ 0
unfolding clear_entries
clear_entries_zero zero i base j m low high = absurd (omega (arith, low, high))
clear_entries_zero (suc r) i base j m low high = elim (Bool-cases (j == i)) [
  | inl here ↦
      clear_entries_lem r (i + 1) base (update m (entry base i) 0) (entry base j) (ground arith)
      ∙ ground arith
  | inr there ↦
      clear_entries_zero r (i + 1) base j (update m (entry base i) 0) (ground arith)
        (omega (arith, high))
]
