-- ===== src/Desc/Tss.antt =====
-- kernel/interrupt/tss.c: the task state segment, from which the processor takes the stack of the kernel when
-- a program in ring 3 is interrupted, and its descriptor.
use native.Mathlib.Nat.{zero-div}
use system_operative_edit.Base.{
  false, sym, Bool-cases, inl, inr, ltb, ℕ, ◌+◌, ◌-◌, ◌*◌, ◌%◌, ◌/◌, ◌^◌, ◌<◌, ◌≤◌, ◌≡◌, refl,
  arith, Bool, true, ◌&&◌, leb, ◌==◌, List, [], ◌∷◌, get_or, if◌then◌else◌, ap, ◌∙◌,
}
use system_operative_edit.Base.Bits.{table_lem, check_from}
use system_operative_edit.Desc.Fields.{base_of, gdt_set_gate_lem}
use system_operative_edit.Desc.{gdt_set_gate, GdtEntry, gdt_install_tss}

-- `struct tss_entry`
pub record TssEntry : Type 0 where
  pub prev_tss : ℕ
  pub esp0 : ℕ
  pub ss0 : ℕ
  pub esp1 : ℕ
  pub ss1 : ℕ
  pub esp2 : ℕ
  pub ss2 : ℕ
  pub cr3 : ℕ
  pub eip : ℕ
  pub eflags : ℕ
  pub eax : ℕ
  pub ecx : ℕ
  pub edx : ℕ
  pub ebx : ℕ
  pub esp : ℕ
  pub ebp : ℕ
  pub esi : ℕ
  pub edi : ℕ
  pub es : ℕ
  pub cs : ℕ
  pub ss : ℕ
  pub ds : ℕ
  pub fs : ℕ
  pub gs : ℕ
  pub ldt_selector : ℕ
  pub trap : ℕ
  pub iomap_base : ℕ

-- The loop over all bytes.
abbrev pub cleared_tss : TssEntry
cleared_tss = record {
  prev_tss = 0;
  esp0 = 0;
  ss0 = 0;
  esp1 = 0;
  ss1 = 0;
  esp2 = 0;
  ss2 = 0;
  cr3 = 0;
  eip = 0;
  eflags = 0;
  eax = 0;
  ecx = 0;
  edx = 0;
  ebx = 0;
  esp = 0;
  ebp = 0;
  esi = 0;
  edi = 0;
  es = 0;
  cs = 0;
  ss = 0;
  ds = 0;
  fs = 0;
  gs = 0;
  ldt_selector = 0;
  trap = 0;
  iomap_base = 0;
}

-- 25 fields of four bytes and two of two bytes.
abbrev pub tss_size : ℕ
tss_size = 104

-- The segment is at the address `base`.
unfoldable pub tss_init : (base : ℕ) → (ℕ → GdtEntry) → (TssEntry × (ℕ → GdtEntry))
tss_init base gdt = (record cleared_tss { ss0 = 0x10 }, gdt_install_tss base (tss_size - 1) gdt)

unfoldable pub tss_set_esp0 : (esp0 : ℕ) → TssEntry → TssEntry
tss_set_esp0 esp0 t = record t { esp0 = esp0 }

-- The processor's view of the segment: the words of four bytes in the order of the fields, and its bytes.
abbrev tss_words : TssEntry → List ℕ
tss_words t =
    t.prev_tss
    ∷ t.esp0
    ∷ t.ss0
    ∷ t.esp1
    ∷ t.ss1
    ∷ t.esp2
    ∷ t.ss2
    ∷ t.cr3
    ∷ t.eip
    ∷ t.eflags
    ∷ t.eax
    ∷ t.ecx
    ∷ t.edx
    ∷ t.ebx
    ∷ t.esp
    ∷ t.ebp
    ∷ t.esi
    ∷ t.edi
    ∷ t.es
    ∷ t.cs
    ∷ t.ss
    ∷ t.ds
    ∷ t.fs
    ∷ t.gs
    ∷ t.ldt_selector
    ∷ (t.trap + t.iomap_base * 2 ^ 16)
    ∷ []

abbrev tss_byte : TssEntry → ℕ → ℕ
tss_byte t o = get_or (tss_words t) (o / 4) 0 / 256 ^ (o % 4) % 256

-- The limit of a segment, as the processor puts it together: the flag 0x80 counts pages.
abbrev pub limit_of : GdtEntry → ℕ
limit_of e =
    let raw = e.limit_low + e.granularity % 16 * 2 ^ 16 in
    if e.granularity / 128 % 2 == 1 then raw * 4096 + 4095 else raw

-- The test that the processor makes before a program in ring 3 reads or writes a byte at the port `p`: the two
-- bytes of the map that it reads lie within the limit of the segment, and the bit of the port is 0.
abbrev pub port_open : (limit : ℕ) → TssEntry → (p : ℕ) → Bool
port_open limit t p =
    leb (t.iomap_base + p / 8 + 1) limit
    && (tss_byte t (t.iomap_base + p / 8) / 2 ^ (p % 8) % 2 == 0)

installed_limit : (base : ℕ) (gdt : ℕ → GdtEntry) → limit_of ((tss_init base gdt).1 5) ≡ 103
unfolding tss_init gdt_install_tss gdt_set_gate
installed_limit base gdt = refl

installed_access : (base : ℕ) (gdt : ℕ → GdtEntry) → ((tss_init base gdt).1 5).access ≡ 0x89
unfolding tss_init gdt_install_tss gdt_set_gate
installed_access base gdt = refl

installed_base :
    (base : ℕ) (gdt : ℕ → GdtEntry) → base < 2 ^ 32 → base_of ((tss_init base gdt).1 5) ≡ base
unfolding tss_init gdt_install_tss
installed_base base gdt lt = (gdt_set_gate_lem 5 base (tss_size - 1) 0x89 0x40 gdt lt).0

-- The words behind `ss0` are 0.
upper_words :
    (base esp0 : ℕ) (gdt : ℕ → GdtEntry) (k : ℕ)
    → 3 ≤ k
    → k < 26
    → get_or (tss_words (tss_set_esp0 esp0 (tss_init base gdt).0)) k 0 ≡ 0
unfolding check_from tss_set_esp0 tss_init
upper_words base esp0 gdt k low high =
    let test =
      table_lem 26
        (λ i.
          if leb 3 i
          then get_or (tss_words (tss_set_esp0 esp0 (tss_init base gdt).0)) i 0 == 0
          else true)
        k refl high in
    ground (arith, test, low)

zero_byte : (t : TssEntry) (o : ℕ) → get_or (tss_words t) (o / 4) 0 ≡ 0 → tss_byte t o ≡ 0
zero_byte t o word =
    ap (λ w. w / 256 ^ (o % 4) % 256) word ∙ ap (λ z. z % 256) (zero-div (256 ^ (o % 4)))

open_port :
    (limit : ℕ) (t : TssEntry) (p : ℕ)
    → leb (t.iomap_base + p / 8 + 1) limit ≡ true
    → tss_byte t (t.iomap_base + p / 8) ≡ 0
    → port_open limit t p ≡ true
open_port limit t p inside byte =
    ap (λ b. b && (tss_byte t (t.iomap_base + p / 8) / 2 ^ (p % 8) % 2 == 0)) inside
    ∙ ap (λ z. z / 2 ^ (p % 8) % 2 == 0) byte
    ∙ ap (λ z. z % 2 == 0) (zero-div (2 ^ (p % 8)))

closed_port :
    (limit : ℕ) (t : TssEntry) (p : ℕ)
    → leb (t.iomap_base + p / 8 + 1) limit ≡ false
    → port_open limit t p ≡ false
closed_port limit t p outside =
    ap (λ b. b && (tss_byte t (t.iomap_base + p / 8) / 2 ^ (p % 8) % 2 == 0)) outside

-- `tss_init` installs a descriptor with the address of the segment, the limit 103 and the type of a segment that
-- is available. With that limit, whatever the stack that `tss_set_esp0` sets, the processor lets a program in
-- ring 3 use, of the ports from 96, the data of the keyboard, on, exactly those up to 823: the map of the ports
-- starts at offset 0, on fields that are 0.
pub tss_init_opens :
    (base esp0 : ℕ) (gdt : ℕ → GdtEntry) (p : ℕ)
    → base < 2 ^ 32
    → 96 ≤ p
    → let (t, gdt') = tss_init base gdt in
      (base_of (gdt' 5) ≡ base)
      × (limit_of (gdt' 5) ≡ 103)
      × ((gdt' 5).access ≡ 0x89)
      × (port_open (limit_of (gdt' 5)) (tss_set_esp0 esp0 t) p ≡ ltb p 824)
unfolding tss_set_esp0 tss_init
tss_init_opens base esp0 gdt p lt low =
    let t : TssEntry = tss_set_esp0 esp0 (tss_init base gdt).0 in
    let limit = installed_limit base gdt in
    (
      installed_base base gdt lt,
      limit,
      installed_access base gdt,
      ap (λ n. port_open n t p) limit ∙ elim (Bool-cases (ltb p 824)) [
        | inl inside ↦
            let word =
              upper_words base esp0 gdt ((0 + p / 8) / 4) (omega (arith, low))
                (ground (arith, inside)) in
            open_port 103 t p (ground (arith, inside)) (zero_byte t (0 + p / 8) word) ∙ sym inside
        | inr outside ↦ closed_port 103 t p (ground (arith, outside)) ∙ sym outside
      ],
    )
