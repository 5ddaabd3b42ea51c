-- ===== src/Gui/Trail.antt =====
-- drivers/video/vga/vga_gui.c: the trail of the mouse in `GuiMainLoop`, eight old places of the pointer that fade
-- with the ticks of the timer.
use system_operative_edit.Base.{
  ℕ, zero, suc, ◌+◌, ◌-◌, ◌<◌, ◌≡◌, refl, ◌∙◌, inl, inr, true, false, ◌&&◌, arith, ltb, leb, ◌==◌,
  if◌then◌else◌, Bool-cases, update,
}
use system_operative_edit.Base.Int.{ℤ, pos, ltb_ℤ}
use system_operative_edit.Vga.{Vga, put_pixel}

abbrev pub trail_max : ℕ
trail_max = 8

abbrev pub trail_life : ℕ
trail_life = 5

-- An entry of `trail`
pub record Place : Type 0 where
  pub x : ℤ
  pub y : ℤ
  pub life : ℕ

-- The loop that moves the entries up, `r` of them, from the last one down to the first.
unfoldable pub shift_places : (r : ℕ) → (ℕ → Place) → ℕ → Place
shift_places zero trail = trail
shift_places (suc r) trail = shift_places r (update trail (suc r) (trail r))

-- A move or a button puts the old place in front.
unfoldable pub push_place : (prev_x prev_y : ℤ) → (ℕ → Place) → ℕ → Place
push_place prev_x prev_y trail =
    update (shift_places (trail_max - 1) trail) 0
      (record { x = prev_x; y = prev_y; life = trail_life })

-- The colour of a place that still lives, or else that of the desktop; light gray, dark gray and cyan.
unfoldable pub fade_color : (life : ℕ) → ℕ
fade_color life = if ltb 0 life then (if leb 3 life then 7 else 8) else 3

-- The loop of a tick over the entries from `i` on; the task bar, from row 470 on, is skipped.
unfoldable pub fade_places : (r i : ℕ) → (ℕ → Place) → Vga → ((ℕ → Place) × Vga)
fade_places zero i trail s = (trail, s)
fade_places (suc r) i trail s =
    let p = trail i in
    let left = p.life - 1 in
    let drawn = if ltb_ℤ p.y (pos 470) then put_pixel p.x p.y (fade_color left) s else s in
    let faded = fade_places r (i + 1) (update trail i (record p { life = left })) drawn in
    let rest = fade_places r (i + 1) trail s in if ltb 0 p.life then faded else rest

unfoldable pub fade_trail : (ℕ → Place) → Vga → ((ℕ → Place) × Vga)
fade_trail trail s = fade_places trail_max 0 trail s

-- The lives in the entries from `i` on, `r` of them, one less.
abbrev aged : (r i : ℕ) → (ℕ → Place) → ℕ → ℕ
aged r i trail j = if leb i j && ltb j (i + r) then (trail j).life - 1 else (trail j).life

aged_step :
    (r i : ℕ) (trail : ℕ → Place) (j : ℕ)
    → aged r (i + 1) (update trail i (record (trail i) { life = (trail i).life - 1 })) j
      ≡ aged (suc r) i trail j
aged_step r i trail j = elim (Bool-cases (j == i)) [
  | inl here ↦
      let at : j ≡ i = ground (arith, here) in
      let past : (leb (i + 1) i && ltb i (i + 1 + r)) ≡ false = ground arith in
      let inside : (leb i i && ltb i (i + suc r)) ≡ true = ground arith in
      let same : (i == i) ≡ true = ground arith in rw (at, past, inside, same) refl
  | inr other ↦ rw other (ground (arith, other))
]

dead_step :
    (r i : ℕ) (trail : ℕ → Place) (j : ℕ)
    → ltb 0 (trail i).life ≡ false
    → aged r (i + 1) trail j ≡ aged (suc r) i trail j
dead_step r i trail j dead = elim (Bool-cases (j == i)) [
  | inl here ↦ let at : j ≡ i = ground (arith, here) in rw at (ground (arith, dead))
  | inr other ↦ ground (arith, other)
]

life_fades :
    (r i : ℕ) (trail : ℕ → Place) (s : Vga) (j : ℕ)
    → ((fade_places r i trail s).0 j).life
      ≡ (if leb i j && ltb j (i + r) then (trail j).life - 1 else (trail j).life)
unfolding fade_places
life_fades zero i trail s j = ground arith
life_fades (suc r) i trail s j =
    let p = trail i in
    let drawn = if ltb_ℤ p.y (pos 470) then put_pixel p.x p.y (fade_color (p.life - 1)) s else s in
    let next : ℕ → Place = update trail i (record p { life = p.life - 1 }) in
    elim (Bool-cases (ltb 0 p.life)) [
      | inl lives ↦ rw lives (life_fades r (i + 1) next drawn j ∙ aged_step r i trail j)
      | inr dead ↦ rw dead (life_fades r (i + 1) trail s j ∙ dead_step r i trail j dead)
    ]

shift_places_lem :
    (r : ℕ) (trail : ℕ → Place) (j : ℕ)
    → shift_places r trail j ≡ (if ltb 0 j && leb j r then trail (j - 1) else trail j)
unfolding shift_places
shift_places_lem zero trail j =
    let none_moved : (ltb 0 j && leb j 0) ≡ false = ground arith in rw none_moved refl
shift_places_lem (suc r) trail j =
    shift_places_lem r (update trail (suc r) (trail r)) j ∙ elim (Bool-cases (j == suc r)) [
      | inl last ↦
          let at : j ≡ suc r = ground (arith, last) in
          let past : (ltb 0 (suc r) && leb (suc r) r) ≡ false = ground arith in
          let inside : (ltb 0 (suc r) && leb (suc r) (suc r)) ≡ true = ground arith in
          let same : (suc r == suc r) ≡ true = ground arith in
          let before : suc r - 1 ≡ r = omega arith in rw (at, past, inside, same, before) refl
      | inr other ↦ elim (Bool-cases (ltb 0 j && leb j r)) [
        | inl moved ↦
            let under : (j - 1 == suc r) ≡ false = ground (arith, moved) in
            let inside : (ltb 0 j && leb j (suc r)) ≡ true = ground (arith, moved) in
            rw (moved, inside, under) refl
        | inr stays ↦
            let outside : (ltb 0 j && leb j (suc r)) ≡ false = ground (arith, stays, other) in
            rw (stays, outside, other) refl
      ]
    ]

-- The new place is in front with a full life, and each of the other seven is the one that was before it.
pub push_place_lem :
    (prev_x prev_y : ℤ) (trail : ℕ → Place)
    → let t = push_place prev_x prev_y trail in
      ((t 0).x ≡ prev_x)
      × ((t 0).y ≡ prev_y)
      × ((t 0).life ≡ trail_life)
      × ((j : ℕ) → j < 7 → t (j + 1) ≡ trail j)
unfolding push_place
push_place_lem prev_x prev_y trail = (
  refl,
  refl,
  refl,
  λ j lt.
      let behind : (j + 1 == 0) ≡ false = ground arith in
      let moved : (ltb 0 (j + 1) && leb (j + 1) 7) ≡ true = ground (arith, lt) in
      let before : j + 1 - 1 ≡ j = omega arith in
      rw behind (shift_places_lem 7 trail (j + 1) ∙ rw (moved, before) refl),
)

-- The trail after the given number of ticks.
abbrev pub fade_ticks : ℕ → (ℕ → Place) → Vga → ((ℕ → Place) × Vga)
fade_ticks zero trail s = (trail, s)
fade_ticks (suc n) trail s = let t = fade_trail trail s in fade_ticks n t.0 t.1

-- After `n` ticks each of the eight places has `n` ticks less to live.
pub fade_ticks_lem :
    (n : ℕ) (trail : ℕ → Place) (s : Vga) (j : ℕ)
    → j < 8
    → ((fade_ticks n trail s).0 j).life ≡ (trail j).life - n
unfolding fade_trail
fade_ticks_lem zero trail s j lt = omega arith
fade_ticks_lem (suc n) trail s j lt =
    let one_tick : ((fade_trail trail s).0 j).life ≡ (trail j).life - 1 =
      life_fades 8 0 trail s j ∙ ground (arith, lt) in
    fade_ticks_lem n (fade_trail trail s).0 (fade_trail trail s).1 j lt ∙ omega (arith, one_tick)
