-- ===== src/Vmm/Sample.antt =====
-- A small directory for the tests.
use system_operative_edit.Base.{
  ℕ, ◌+◌, ◌/◌, ◌%◌, ◌≡◌, refl, sym, ◌∙◌, ◌≢◌, true, false, arith, ◌==◌, if◌then◌else◌,
}
use mathlib.Core.Path.{subst}
use system_operative_edit.Pmm.{Pmm, base_addr, page_size, bitmap_test}
use system_operative_edit.Pmm.Alloc.{IsValid}
use system_operative_edit.Base.Bits.{bit_at_full}
use system_operative_edit.Base.Count.{count_below}
use system_operative_edit.Vmm.{Vmm, is_present, page_of, entry}
use system_operative_edit.Vmm.Map.{Held, IsDirectory}

-- 16 frames; the directory is in the first and its table for the second 4 MB in the second.
abbrev pub two_used : Pmm
two_used = record {
  bitmap = λ i. if i == 0 then 3 else if i == 1 then 0 else 255;
  total_frames = 16;
  used = 2;
}

abbrev pub words : ℕ → ℕ
words a = if a == base_addr + 4 then base_addr + page_size + 3 else 0

abbrev pub one_table : Vmm
one_table = record { frames = two_used; memory = words; kernel_dir = 0 }

two_used-IsValid : IsValid two_used
unfolding count_below bitmap_test
two_used-IsValid = record {
  bytes = λ i. ground arith;
  total = omega arith;
  reserved = λ g a b.
      let e0 : (g / 8 == 0) ≡ false = ground arith in
      let e1 : (g / 8 == 1) ≡ false = ground arith in
      rw (e0, e1, bit_at_full (g % 8) (omega arith));
  count = refl;
}

present_one : (i : ℕ) → is_present (words (entry base_addr i)) ≡ true → i ≡ 1
present_one i here = ground (arith, here)

pub one_table-IsDirectory : IsDirectory one_table base_addr
unfolding bitmap_test
one_table-IsDirectory = record {
  frames = two_used-IsValid;
  page = (refl, omega arith, omega arith, refl);
  tables = λ i lt here.
      subst
        (λ j.
          Held two_used (page_of (words (entry base_addr j)))
          × (page_of (words (entry base_addr j)) ≢ base_addr))
        (sym (present_one i here)) ((refl, omega arith, omega arith, refl), λ e. omega (arith, e));
  apart = λ i j lti ltj ne hi hj. absurd (ne (present_one i hi ∙ sym (present_one j hj)));
}
