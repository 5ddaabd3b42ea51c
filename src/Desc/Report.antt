-- ===== src/Desc/Report.antt =====
-- kernel/interrupt/idt.c: the reports of page faults and of protection faults, on the screen and on the serial
-- port. The port is the list of the bytes that were sent, once it was ready for them.
use system_operative_edit.Base.{
  ℕ, zero, suc, ◌+◌, ◌-◌, ◌*◌, ◌/◌, ◌%◌, ◌^◌, ◌<◌, ◌≡◌, refl, sym, ap, ◌∙◌, arith, leb, ◌==◌,
  if◌then◌else◌, List, [], ◌∷◌, ◌++◌, get_or, length, update,
}
use native.Mathlib.Nat.{div-div-eq-div-mul, pow-suc}
use system_operative_edit.Base.Bits.{table_lem, check_from}
use system_operative_edit.Screen.{Screen, set_color, write, writeln}

-- `g_last_pf_addr`, the screen and the serial port.
pub record Machine : Type 0 where
  pub last_pf_addr : ℕ
  pub screen : Screen
  pub sent : List ℕ

unfoldable pub serial_puts : List ℕ → Machine → Machine
serial_puts s m = record m { sent = m.sent ++ s }

-- "0123456789ABCDEF"
abbrev pub hex : List ℕ
hex = 48 ∷ 49 ∷ 50 ∷ 51 ∷ 52 ∷ 53 ∷ 54 ∷ 55 ∷ 56 ∷ 57 ∷ 65 ∷ 66 ∷ 67 ∷ 68 ∷ 69 ∷ 70 ∷ []

-- The loop that writes the digits, `r` of them from the digit `i` on.
unfoldable pub hex_digits : (r i value : ℕ) → List ℕ
hex_digits zero i value = []
hex_digits (suc r) i value =
    get_or hex (value / 2 ^ ((7 - i) * 4) % 16) 0 ∷ hex_digits r (i + 1) value

-- The texts "PF @ 0x", "PF @ ", the end of a line, and "GPF detected".
abbrev pub screen_prefix : List ℕ
screen_prefix = 80 ∷ 70 ∷ 32 ∷ 64 ∷ 32 ∷ 48 ∷ 120 ∷ []

abbrev pub serial_prefix : List ℕ
serial_prefix = 80 ∷ 70 ∷ 32 ∷ 64 ∷ 32 ∷ []

abbrev pub line_end : List ℕ
line_end = 13 ∷ 10 ∷ []

abbrev pub gpf_detected : List ℕ
gpf_detected = 71 ∷ 80 ∷ 70 ∷ 32 ∷ 100 ∷ 101 ∷ 116 ∷ 101 ∷ 99 ∷ 116 ∷ 101 ∷ 100 ∷ 13 ∷ 10 ∷ []

-- Light red on black.
unfoldable pub pf_report : (addr : ℕ) → Machine → Machine
pf_report addr m =
    let shown : Machine = record m {
      last_pf_addr = addr;
      screen = writeln (hex_digits 8 0 addr) (write screen_prefix (set_color 12 0 m.screen));
    } in
    serial_puts line_end (serial_puts (hex_digits 8 0 addr) (serial_puts serial_prefix shown))

unfoldable pub gpf_report : (eip error : ℕ) → Machine → Machine
gpf_report eip error m =
    serial_puts
      ((69 ∷ 73 ∷ 80 ∷ 61 ∷ [])
        ++ hex_digits 8 0 eip
        ++ (32 ∷ 69 ∷ 82 ∷ 82 ∷ 61 ∷ [])
        ++ hex_digits 8 0 error
        ++ line_end)
      (serial_puts gpf_detected m)

-- What an exception leaves when it stops the processor: two letters, with their colours, at the end of the first
-- row of the screen.
unfoldable pub show_code : (c1 c2 : ℕ) → Machine → Machine
show_code c1 c2 m = record m {
  screen = record m.screen { buffer = update (update m.screen.buffer 78 c1) 79 c2 };
}

-- `exc_gpf` calls `gpf_report` and pushes no arguments: the first one is what the processor pushed last, the
-- error code, and the second one what it pushed before that, the address of the instruction.
unfoldable pub exc_gpf : (eip error : ℕ) → Machine → Machine
exc_gpf eip error m = show_code 0x4C47 0x4C50 (gpf_report error eip m)

-- `exc_page_fault` pushes the address that the processor keeps in `cr2`.
unfoldable pub exc_page_fault : (cr2 : ℕ) → Machine → Machine
exc_page_fault cr2 m = show_code 0x4C50 0x4C46 (pf_report cr2 m)

-- The number that hexadecimal digits denote, behind the number `n`.
abbrev pub hex_value : ℕ → List ℕ → ℕ
hex_value n [] = n
hex_value n (c ∷ cs) = hex_value (n * 16 + (if leb c 57 then c - 48 else c - 55)) cs

-- The value of the digit that stands for `d`.
hex_digit :
    (d : ℕ)
    → d < 16
    → (if leb (get_or hex d 0) 57 then get_or hex d 0 - 48 else get_or hex d 0 - 55) ≡ d
unfolding check_from
hex_digit d lt = ground (
  arith,
  table_lem 16
      (λ k. (if leb (get_or hex k 0) 57 then get_or hex k 0 - 48 else get_or hex k 0 - 55) == k) d
      refl lt,
)

place_step : (r : ℕ) → 2 ^ (suc r * 4) ≡ 2 ^ (r * 4) * 16
place_step r =
    let e : ℕ = r * 4 in
    let four : suc r * 4 ≡ suc (suc (suc (suc e))) = omega arith in
    ap (λ k. 2 ^ k) four
    ∙ omega (
      arith,
      pow-suc 2 e,
      pow-suc 2 (suc e),
      pow-suc 2 (suc (suc e)),
      pow-suc 2 (suc (suc (suc e))),
    )

hex_digits_value :
    (r i value : ℕ) → i + r ≡ 8 → hex_value (value / 2 ^ (r * 4)) (hex_digits r i value) ≡ value
unfolding hex_digits
hex_digits_value zero i value eq = omega arith
hex_digits_value (suc r) i value eq =
    let place : 7 - i ≡ r = omega (arith, eq) in
    let q : ℕ = value / 2 ^ (r * 4) in
    let upper : value / 2 ^ (suc r * 4) ≡ q / 16 =
      ap (λ z. value / z) (place_step r) ∙ sym (div-div-eq-div-mul value (2 ^ (r * 4)) 16) in
    let digit = hex_digit (q % 16) (omega arith) in
    let whole : q / 16 * 16 + q % 16 ≡ q = omega arith in
    rw (place, digit, upper, whole) (hex_digits_value r (i + 1) value (omega (arith, eq)))

hex_digits_length : (r i value : ℕ) → length (hex_digits r i value) ≡ r
unfolding hex_digits
hex_digits_length zero i value = refl
hex_digits_length (suc r) i value = ap suc (hex_digits_length r (i + 1) value)

-- The digits of a word of 32 bits denote it.
hex_digits_lem :
    (value : ℕ)
    → value < 2 ^ 32
    → (hex_value 0 (hex_digits 8 0 value) ≡ value) × (length (hex_digits 8 0 value) ≡ 8)
hex_digits_lem value lt =
    let none_above : value / 2 ^ 32 ≡ 0 = omega (arith, lt) in
    (
      ap (λ n. hex_value n (hex_digits 8 0 value)) (sym none_above)
          ∙ hex_digits_value 8 0 value refl,
      hex_digits_length 8 0 value,
    )

-- A page fault sends the prefix, eight hexadecimal digits that denote the address, and the end of the line behind
-- what was sent; it keeps the address, and leaves the letters PF in the corner of the screen.
pub exc_page_fault_lem :
    (cr2 : ℕ) (m : Machine)
    → cr2 < 2 ^ 32
    → (digits : List ℕ) × ((exc_page_fault cr2 m).sent
        ≡ ((m.sent ++ serial_prefix) ++ digits) ++ line_end)
      × (hex_value 0 digits ≡ cr2)
      × (length digits ≡ 8)
      × ((exc_page_fault cr2 m).last_pf_addr ≡ cr2)
      × ((exc_page_fault cr2 m).screen.buffer 78 ≡ 0x4C50)
      × ((exc_page_fault cr2 m).screen.buffer 79 ≡ 0x4C46)
unfolding exc_page_fault show_code pf_report serial_puts
exc_page_fault_lem cr2 m lt =
    let text = hex_digits_lem cr2 lt in (hex_digits 8 0 cr2, refl, text.0, text.1, refl, refl, refl)

-- A protection fault sends, behind "EIP=", eight hexadecimal digits that denote the error code, and behind
-- "ERR=" eight that denote the address of the instruction: the two are exchanged.
pub exc_gpf_exchanges :
    (eip error : ℕ) (m : Machine)
    → eip < 2 ^ 32
    → error < 2 ^ 32
    → (first second : List ℕ) × ((exc_gpf eip error m).sent
        ≡ (m.sent ++ gpf_detected)
          ++ ((69 ∷ 73 ∷ 80 ∷ 61 ∷ [])
              ++ first
              ++ (32 ∷ 69 ∷ 82 ∷ 82 ∷ 61 ∷ [])
              ++ second
              ++ line_end))
      × (hex_value 0 first ≡ error)
      × (hex_value 0 second ≡ eip)
unfolding exc_gpf show_code gpf_report serial_puts
exc_gpf_exchanges eip error m eip_lt error_lt = (
  hex_digits 8 0 error,
  hex_digits 8 0 eip,
  refl,
  (hex_digits_lem error error_lt).0,
  (hex_digits_lem eip eip_lt).0,
)
