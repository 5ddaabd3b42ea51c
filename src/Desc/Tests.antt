-- ===== src/Desc/Tests.antt =====
-- Runs of the descriptor tables.
use system_operative_edit.Base.{ltb, ℕ, ◌≡◌, refl, ◌↔◌, arith, List, [], ◌∷◌, ◌++◌, length}
use system_operative_edit.Desc.{
  GdtEntry, gdt_set_gate, gdt_install_tss, gdt_init, IdtEntry, Handlers, idt_init,
}
use system_operative_edit.Desc.Report.{
  Machine, exc_page_fault, exc_gpf, hex_digits, hex_value, serial_prefix, line_end, gpf_detected,
  exc_page_fault_lem, exc_gpf_exchanges,
}
use system_operative_edit.Desc.Tss.{limit_of, tss_init, tss_set_esp0, port_open, tss_init_opens}
use system_operative_edit.Desc.Fields.{base_of, dpl, idt_init_lem}

abbrev empty_gdt : ℕ → GdtEntry
empty_gdt i = record {
  limit_low = 0;
  base_low = 0;
  base_middle = 0;
  access = 0;
  granularity = 0;
  base_high = 0;
}

abbrev empty_idt : ℕ → IdtEntry
empty_idt i = record {
  offset_low = 0;
  selector = 0;
  zero_field = 0;
  type_attr = 0;
  offset_high = 0;
}

abbrev vector : ℕ
vector = 0x30

abbrev handlers : Handlers
handlers = record {
  generic_exception = 0x00100100;
  divide_error = 0x00100200;
  invalid_opcode = 0x00100300;
  double_fault = 0x00100400;
  protection_fault = 0x00100500;
  page_fault = 0x00100600;
  timer = 0x00100700;
  keyboard = 0x00100800;
  generic_irq = 0x00100900;
  syscall = 0x00100A00;
}

flat : (gdt_init empty_gdt 3).granularity ≡ 0xCF
unfolding gdt_init gdt_set_gate
flat = refl

tss : (gdt_install_tss 0x12345678 103 empty_gdt 5).base_middle ≡ 0x34
unfolding gdt_install_tss gdt_set_gate
tss = refl

idt_init_lem_example : (dpl (idt_init handlers empty_idt vector) ≡ 3) ↔ (vector ≡ 0x30)
idt_init_lem_example = idt_init_lem handlers empty_idt vector (omega arith)

abbrev machine : Machine
machine = record {
  last_pf_addr = 0;
  screen = record { buffer = λ i. 0; row = 0; col = 0; color = 7 };
  sent = [];
}

hex_run : hex_digits 8 0 0xC0DE ≡ 48 ∷ 48 ∷ 48 ∷ 48 ∷ 67 ∷ 48 ∷ 68 ∷ 69 ∷ []
unfolding hex_digits
hex_run = refl

exc_page_fault_lem_example :
    (digits : List ℕ) × ((exc_page_fault 0xC0DE machine).sent
      ≡ ((machine.sent ++ serial_prefix) ++ digits) ++ line_end)
    × (hex_value 0 digits ≡ 0xC0DE)
    × (length digits ≡ 8)
    × ((exc_page_fault 0xC0DE machine).last_pf_addr ≡ 0xC0DE)
    × ((exc_page_fault 0xC0DE machine).screen.buffer 78 ≡ 0x4C50)
    × ((exc_page_fault 0xC0DE machine).screen.buffer 79 ≡ 0x4C46)
exc_page_fault_lem_example = exc_page_fault_lem 0xC0DE machine (omega arith)

exc_gpf_exchanges_example :
    (first second : List ℕ) × ((exc_gpf 0x100000 24 machine).sent
      ≡ (machine.sent ++ gpf_detected)
        ++ ((69 ∷ 73 ∷ 80 ∷ 61 ∷ [])
            ++ first
            ++ (32 ∷ 69 ∷ 82 ∷ 82 ∷ 61 ∷ [])
            ++ second
            ++ line_end))
    × (hex_value 0 first ≡ 24)
    × (hex_value 0 second ≡ 0x100000)
exc_gpf_exchanges_example = exc_gpf_exchanges 0x100000 24 machine (omega arith) (omega arith)

-- The data port of the first disk.
tss_init_opens_example :
    let (t, gdt') = tss_init 0x8000 empty_gdt in
    (base_of (gdt' 5) ≡ 0x8000)
    × (limit_of (gdt' 5) ≡ 103)
    × ((gdt' 5).access ≡ 0x89)
    × (port_open (limit_of (gdt' 5)) (tss_set_esp0 0x9000 t) 0x1F0 ≡ ltb 0x1F0 824)
tss_init_opens_example = tss_init_opens 0x8000 0x9000 empty_gdt 0x1F0 (omega arith) (omega arith)
