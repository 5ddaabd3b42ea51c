-- ===== src/Gui/Clock.antt =====
-- drivers/video/vga/vga_gui.c: the time and the date in the task bar. The registers of the clock are a function
-- of their number, which does not change while they are read.
use system_operative_edit.Base.{
  ℕ, ◌+◌, ◌-◌, ◌*◌, ◌/◌, ◌%◌, ◌<◌, ◌≡◌, refl, ap, ◌∙◌, arith, List, [], ◌∷◌, ◌++◌, get_or, length,
}

unfoldable pub bcd2bin : ℕ → ℕ
bcd2bin v = (v % 16 + v / 16 * 10) % 256

-- The six variables of the clock in `GuiMainLoop`.
pub record Moment : Type 0 where
  pub h : ℕ
  pub m : ℕ
  pub s : ℕ
  pub d : ℕ
  pub mo : ℕ
  pub y : ℕ

-- `read_rtc` and the three reads behind it.
unfoldable pub read_moment : (cmos : ℕ → ℕ) → Moment
read_moment cmos = record {
  h = bcd2bin (cmos 4);
  m = bcd2bin (cmos 2);
  s = bcd2bin (cmos 0);
  d = bcd2bin (cmos 7);
  mo = bcd2bin (cmos 8);
  y = bcd2bin (cmos 9);
}

unfoldable pub two_digits : ℕ → List ℕ
two_digits v = (48 + v / 10) ∷ (48 + v % 10) ∷ []

-- hh:mm:ss dd/mm/yy
unfoldable pub clock_text : Moment → List ℕ
clock_text t =
    two_digits t.h
    ++ (58 ∷ [])
    ++ two_digits t.m
    ++ (58 ∷ [])
    ++ two_digits t.s
    ++ (32 ∷ [])
    ++ two_digits t.d
    ++ (47 ∷ [])
    ++ two_digits t.mo
    ++ (47 ∷ [])
    ++ two_digits t.y

-- The register `r` holds the two decimal digits of `v`.
pub record Holds (cmos : ℕ → ℕ) (r v : ℕ) : Type 0 where
  pub below : v < 100
  pub digits : cmos r ≡ v / 10 * 16 + v % 10

-- The number that the two characters from `i` on denote.
abbrev pub number_at : List ℕ → (i : ℕ) → ℕ
number_at text i = (get_or text i 48 - 48) * 10 + (get_or text (i + 1) 48 - 48)

bcd2bin-Holds : (cmos : ℕ → ℕ) (r v : ℕ) → Holds cmos r v → bcd2bin (cmos r) ≡ v
unfolding bcd2bin
bcd2bin-Holds cmos r v reg =
    ap (λ x. (x % 16 + x / 16 * 10) % 256) reg.digits ∙ omega (arith, reg.below)

shown : (v : ℕ) → (48 + v / 10 - 48) * 10 + (48 + v % 10 - 48) ≡ v
shown v = omega arith

-- With two decimal digits in each register, the text has 17 characters, and the numbers in it are the
-- hours, minutes, seconds, the day, the month and the year of the registers.
pub clock_text_lem :
    (cmos : ℕ → ℕ) (h m s d mo y : ℕ)
    → Holds cmos 4 h
    → Holds cmos 2 m
    → Holds cmos 0 s
    → Holds cmos 7 d
    → Holds cmos 8 mo
    → Holds cmos 9 y
    → let text = clock_text (read_moment cmos) in
      (length text ≡ 17)
      × (number_at text 0 ≡ h)
      × (number_at text 3 ≡ m)
      × (number_at text 6 ≡ s)
      × (number_at text 9 ≡ d)
      × (number_at text 12 ≡ mo)
      × (number_at text 15 ≡ y)
unfolding clock_text read_moment two_digits
clock_text_lem cmos h m s d mo y rh rm rs rd rmo ry = (
  refl,
  shown (bcd2bin (cmos 4)) ∙ bcd2bin-Holds cmos 4 h rh,
  shown (bcd2bin (cmos 2)) ∙ bcd2bin-Holds cmos 2 m rm,
  shown (bcd2bin (cmos 0)) ∙ bcd2bin-Holds cmos 0 s rs,
  shown (bcd2bin (cmos 7)) ∙ bcd2bin-Holds cmos 7 d rd,
  shown (bcd2bin (cmos 8)) ∙ bcd2bin-Holds cmos 8 mo rmo,
  shown (bcd2bin (cmos 9)) ∙ bcd2bin-Holds cmos 9 y ry,
)
