-- ===== src/Desc/Fields.antt =====
-- What the processor reads from the tables of gdt.c and idt.c.
use system_operative_edit.Base.{
  ℕ, zero, suc, ◌+◌, ◌*◌, ◌/◌, ◌%◌, ◌^◌, ◌<◌, ◌≡◌, ◌≢◌, ◌↔◌, ◌&&◌, arith, ltb, leb, ◌==◌,
  if◌then◌else◌,
}
use system_operative_edit.Desc.{
  GdtEntry, gdt_set_gate, IdtEntry, idt_set_gate, set_gates, init_exceptions, init_irqs, Handlers,
  idt_init,
}

-- The base of a segment, as the processor puts it together.
abbrev pub base_of : GdtEntry → ℕ
base_of e = e.base_low + e.base_middle * 2 ^ 16 + e.base_high * 2 ^ 24

-- The gates through which a program in ring 3 may enter with `int`: their privilege level is 3.
abbrev pub dpl : IdtEntry → ℕ
dpl e = e.type_attr / 2 ^ 5 % 4

-- The entry that `gdt_set_gate` writes holds the base and the access byte that it was given; no other
-- entry changes.
pub gdt_set_gate_lem :
    (num base limit access gran : ℕ) (gdt : ℕ → GdtEntry)
    → base < 2 ^ 32
    → let g = gdt_set_gate num base limit access gran gdt in
      (base_of (g num) ≡ base) × ((g num).access ≡ access) × ((j : ℕ) → j ≢ num → g j ≡ gdt j)
unfolding gdt_set_gate
gdt_set_gate_lem num base limit access gran gdt lt =
    (ground arith, ground arith, λ j ne. ground arith)

-- The access bytes of a table.
abbrev attr : (ℕ → IdtEntry) → ℕ → ℕ
attr idt j = (idt j).type_attr

attr-idt_set_gate :
    (num base sel flags : ℕ) (idt : ℕ → IdtEntry) (j : ℕ)
    → attr (idt_set_gate num base sel flags idt) j ≡ (if j == num then flags else attr idt j)
unfolding idt_set_gate
attr-idt_set_gate num base sel flags idt j = ground arith

attr-set_gates :
    (r i base : ℕ) (idt : ℕ → IdtEntry) (j : ℕ)
    → attr (set_gates r i base idt) j ≡ (if leb i j && ltb j (i + r) then 0x8E else attr idt j)
unfolding set_gates
attr-set_gates zero i base idt j = ground arith
attr-set_gates (suc r) i base idt j = ground (
  arith,
  attr-set_gates r (i + 1) base (idt_set_gate i base 0x08 0x8E idt) j,
  attr-idt_set_gate i base 0x08 0x8E idt j,
)

-- A table whose first 256 gates are closed to ring 3.
abbrev Closed : (ℕ → IdtEntry) → Type 0
Closed idt = (j : ℕ) → j < 256 → attr idt j ≡ 0x8E

Closed-idt_set_gate :
    (num base : ℕ) (idt : ℕ → IdtEntry) → Closed idt → Closed (idt_set_gate num base 0x08 0x8E idt)
Closed-idt_set_gate num base idt c =
    λ j lt. ground (arith, attr-idt_set_gate num base 0x08 0x8E idt j, c j lt)

Closed-set_gates :
    (r i base : ℕ) (idt : ℕ → IdtEntry) → Closed idt → Closed (set_gates r i base idt)
Closed-set_gates r i base idt c = λ j lt. ground (arith, attr-set_gates r i base idt j, c j lt)

-- The gates of all exceptions, before those of the interrupts.
Closed-all : (base : ℕ) (idt : ℕ → IdtEntry) → Closed (set_gates 256 0 base idt)
Closed-all base idt = λ j lt. ground (arith, attr-set_gates 256 0 base idt j)

Closed-init_exceptions : (h : Handlers) (idt : ℕ → IdtEntry) → Closed (init_exceptions h idt)
unfolding init_exceptions
Closed-init_exceptions h idt = Closed-idt_set_gate 0x0E h.page_fault _ (
    Closed-idt_set_gate 0x0D h.protection_fault _ (
      Closed-idt_set_gate 0x08 h.double_fault _ (
        Closed-idt_set_gate 0x06 h.invalid_opcode _
          (Closed-idt_set_gate 0x00 h.divide_error _ (Closed-all h.generic_exception idt)))))

Closed-init_irqs : (h : Handlers) (idt : ℕ → IdtEntry) → Closed idt → Closed (init_irqs h idt)
unfolding init_irqs
Closed-init_irqs h idt c =
    Closed-set_gates 14 0x22 h.generic_irq _
      (Closed-idt_set_gate 0x21 h.keyboard _ (Closed-idt_set_gate 0x20 h.timer idt c))

-- Of the 256 gates that `idt_init` sets, only the one of the system calls, 0x30, can be entered from
-- ring 3.
pub idt_init_lem :
    (h : Handlers) (idt : ℕ → IdtEntry) (j : ℕ)
    → j < 256
    → (dpl (idt_init h idt j) ≡ 3) ↔ (j ≡ 0x30)
unfolding idt_init
idt_init_lem h idt j lt =
    let table = init_irqs h (init_exceptions h idt) in
    let last = attr-idt_set_gate 0x30 h.syscall 0x08 0xEE table j in
    let before = Closed-init_irqs h (init_exceptions h idt) (Closed-init_exceptions h idt) j lt in
    (λ d. ground (arith, last, before, d), λ d. ground (arith, last, before, d))
