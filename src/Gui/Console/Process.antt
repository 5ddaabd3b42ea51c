-- ===== src/Gui/Console/Process.antt =====
-- What `ConsoleProcess` does with the characters that wait.
use mathlib.Core.Path.{subst}
use system_operative_edit.Base.{
  ℕ, zero, suc, ◌+◌, ◌%◌, ◌<◌, ◌≡◌, refl, sym, inl, inr, true, false, Option, none, some, List, [],
  ◌∷◌, arith, ◌==◌, Bool-cases,
}
use system_operative_edit.Vga.{Vga}
use system_operative_edit.Gui.Keyboard.{
  Keyboard, IsValid, contents, waiting, kbd_getchar, kbd_buf_size,
}
use system_operative_edit.Gui.Console.{Console, process_char, console_process}

-- The characters of a list, one after the other.
unfoldable pub process_all : List ℕ → Console × Vga → Console × Vga
process_all [] t = t
process_all (c ∷ cs) t = process_all cs (process_char c t)

-- `ConsoleProcess` hands over every character and leaves none.
abbrev pub Drained : (k : Keyboard) → Console × Vga → Keyboard × (Console × Vga) → Type 0
Drained k t (k', t') = (contents k' ≡ []) × (t' ≡ process_all (contents k) t)

-- A round, on what `kbd_getchar` returns.
abbrev round : ℕ → Option ℕ × Keyboard → Console × Vga → Keyboard × (Console × Vga)
round f (o, k1) t = elim o [ none ↦ (k1, t) | some ch ↦ console_process f k1 (process_char ch t) ]

kbd_getchar-none : (k : Keyboard) → (k.head == k.tail) ≡ true → kbd_getchar k ≡ (none, k)
unfolding kbd_getchar
kbd_getchar-none k same = rw same refl

abbrev popped : Keyboard → Keyboard
popped k = record k { tail = (k.tail + 1) % kbd_buf_size }

kbd_getchar-some :
    (k : Keyboard) → (k.head == k.tail) ≡ false → kbd_getchar k ≡ (some (k.buf k.tail), popped k)
unfolding kbd_getchar
kbd_getchar-some k other = rw other refl

console_process-Drained :
    (f : ℕ) (k : Keyboard) (t : Console × Vga)
    → IsValid k
    → waiting k < f
    → Drained k t (console_process f k t)
unfolding console_process process_all
console_process-Drained zero k t v lt = absurd (omega (arith, lt))
console_process-Drained (suc f) k t v lt = elim (Bool-cases (k.head == k.tail)) [
  | inl same ↦
      let none_left : waiting k ≡ 0 = ground arith in
      subst (λ z. Drained k t (round f z t)) (sym (kbd_getchar-none k same))
        (rw none_left (refl, refl))
  | inr other ↦
      let less : waiting k ≡ suc (waiting (popped k)) = ground arith in
      let ih =
        console_process-Drained f (popped k) (process_char (k.buf k.tail) t) (ground arith)
          (omega (arith, less, lt)) in
      subst (λ z. Drained k t (round f z t)) (sym (kbd_getchar-some k other)) (rw less ih)
]

-- `ConsoleProcess` on a valid buffer ends after at most 128 rounds: then no character waits, and
-- the console has processed all that waited, oldest first.
pub console_process_lem :
    (k : Keyboard) (t : Console × Vga) → IsValid k → Drained k t (console_process 128 k t)
console_process_lem k t v = console_process-Drained 128 k t v (omega (arith, v.head_in, v.tail_in))
