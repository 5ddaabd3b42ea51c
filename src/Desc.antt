-- ===== src/Desc.antt =====
-- kernel/interrupt/gdt.c and idt.c: the descriptors and gates that the processor reads.
pub mod Fields
pub mod Report
pub mod Tss
mod Tests
use system_operative_edit.Base.{
  ℕ, zero, suc, ◌+◌, ◌-◌, ◌*◌, ◌/◌, ◌%◌, ◌^◌, ◌≤◌, ◌<◌, min, max, bit_and, bit_or, bit_xor, ◌≡◌,
  refl, sym, ap, ◌∙◌, fun_ext, ◌≢◌, ◌↔◌, ◌⊎◌, inl, inr, Bool, true, false, not, ◌&&◌, ◌||◌, Option,
  none, some, List, [], ◌∷◌, ◌++◌, map, arith, ltb, leb, ◌==◌, if◌then◌else◌, Bool-cases,
  Option-cases, ltb→lt, lt→ltb, leb→le, ==_iff, add32, sub32, update, length, get_elem?, get_or,
  last_from, length-append, last_from-append, has, Distinct, has-append, Distinct-append,
}

-- `struct gdt_entry`
pub record GdtEntry : Type 0 where
  pub limit_low : ℕ
  pub base_low : ℕ
  pub base_middle : ℕ
  pub access : ℕ
  pub granularity : ℕ
  pub base_high : ℕ

-- `gdt_set_gate`; a field's assignment cuts the value to the field.
unfoldable pub gdt_set_gate : (num base limit access gran : ℕ) → (ℕ → GdtEntry) → ℕ → GdtEntry
gdt_set_gate num base limit access gran gdt = update gdt num (record {
  base_low = base % 2 ^ 16;
  base_middle = (base / 2 ^ 16) % 2 ^ 8;
  base_high = (base / 2 ^ 24) % 2 ^ 8;
  limit_low = limit % 2 ^ 16;
  granularity = bit_or ((limit / 2 ^ 16) % 2 ^ 4) (bit_and gran 0xF0);
  access = access;
})

unfoldable pub gdt_install_tss : (base limit : ℕ) → (ℕ → GdtEntry) → ℕ → GdtEntry
gdt_install_tss base limit gdt = gdt_set_gate 5 base limit 0x89 0x40 gdt

-- The table that `gdt_init` loads.
unfoldable pub gdt_init : (ℕ → GdtEntry) → ℕ → GdtEntry
gdt_init gdt = gdt_set_gate 5 0 0 0 0 (
    gdt_set_gate 4 0 0xFFFFFFFF 0xF2 0xCF (
      gdt_set_gate 3 0 0xFFFFFFFF 0xFA 0xCF (
        gdt_set_gate 2 0 0xFFFFFFFF 0x92 0xCF
          (gdt_set_gate 1 0 0xFFFFFFFF 0x9A 0xCF (gdt_set_gate 0 0 0 0 0 gdt)))))

-- `struct idt_entry`
pub record IdtEntry : Type 0 where
  pub offset_low : ℕ
  pub selector : ℕ
  pub zero_field : ℕ
  pub type_attr : ℕ
  pub offset_high : ℕ

unfoldable pub idt_set_gate : (num base sel flags : ℕ) → (ℕ → IdtEntry) → ℕ → IdtEntry
idt_set_gate num base sel flags idt = update idt num (record {
  offset_low = base % 2 ^ 16;
  offset_high = (base / 2 ^ 16) % 2 ^ 16;
  selector = sel;
  zero_field = 0;
  type_attr = flags;
})

-- The loops that set the `r` gates from `i` on to one handler of the kernel.
unfoldable pub set_gates : (r i base : ℕ) → (ℕ → IdtEntry) → ℕ → IdtEntry
set_gates zero i base idt = idt
set_gates (suc r) i base idt = set_gates r (i + 1) base (idt_set_gate i base 0x08 0x8E idt)

-- The addresses of the handlers, which are written in assembly.
pub record Handlers : Type 0 where
  pub generic_exception : ℕ
  pub divide_error : ℕ
  pub invalid_opcode : ℕ
  pub double_fault : ℕ
  pub protection_fault : ℕ
  pub page_fault : ℕ
  pub timer : ℕ
  pub keyboard : ℕ
  pub generic_irq : ℕ
  pub syscall : ℕ

-- Steps 3 and 4 of `idt_init`: the exceptions.
unfoldable pub init_exceptions : Handlers → (ℕ → IdtEntry) → ℕ → IdtEntry
init_exceptions h idt = idt_set_gate 0x0E h.page_fault 0x08 0x8E (
    idt_set_gate 0x0D h.protection_fault 0x08 0x8E (
      idt_set_gate 0x08 h.double_fault 0x08 0x8E (
        idt_set_gate 0x06 h.invalid_opcode 0x08 0x8E
          (idt_set_gate 0x00 h.divide_error 0x08 0x8E (set_gates 256 0 h.generic_exception idt)))))

-- Step 5: the interrupts of the devices.
unfoldable pub init_irqs : Handlers → (ℕ → IdtEntry) → ℕ → IdtEntry
init_irqs h idt =
    set_gates 14 0x22 h.generic_irq
      (idt_set_gate 0x21 h.keyboard 0x08 0x8E (idt_set_gate 0x20 h.timer 0x08 0x8E idt))

-- The table that `idt_init` loads.
unfoldable pub idt_init : Handlers → (ℕ → IdtEntry) → ℕ → IdtEntry
idt_init h idt = idt_set_gate 0x30 h.syscall 0x08 0xEE (init_irqs h (init_exceptions h idt))
