-- ===== src/Proc/Stack.antt =====
-- kernel/proc/process.c: the initial stacks, which the timer handler's return sequence unwinds. The
-- memory is a function from the addresses of words to words.
use mathlib.Core.Path.{subst}
use system_operative_edit.Base.{
  ℕ, ◌+◌, ◌-◌, ◌*◌, ◌^◌, ◌≤◌, ◌<◌, ◌≡◌, refl, ◌∙◌, ◌⊎◌, inl, inr, List, [], ◌∷◌, arith, sub32,
  update, length,
}

-- `*(--esp) = v`
unfoldable pub push : ℕ → ℕ × (ℕ → ℕ) → ℕ × (ℕ → ℕ)
push v (esp, m) = let esp' = sub32 esp 4 in (esp', update m esp' v)

unfoldable pub push_all : List ℕ → ℕ × (ℕ → ℕ) → ℕ × (ℕ → ℕ)
push_all [] s = s
push_all (v ∷ vs) s = push_all vs (push v s)

-- What `setup_kernel_stack` pushes, in this order.
abbrev pub kernel_frame : ℕ → List ℕ
kernel_frame entry_point =
    0x202 ∷ 0x08 ∷ entry_point ∷ 0 ∷ 0 ∷ 0 ∷ 0 ∷ 0 ∷ 0 ∷ 0 ∷ 0 ∷ 0 ∷ 0 ∷ 0x10 ∷ 0x10 ∷ 0x10 ∷ 0x10
    ∷ []

unfoldable pub setup_kernel_stack : (stack_top entry_point : ℕ) → (ℕ → ℕ) → ℕ × (ℕ → ℕ)
setup_kernel_stack stack_top entry_point m = push_all (kernel_frame entry_point) (stack_top, m)

-- What `setup_user_stack` pushes, in this order.
abbrev pub user_frame : (entry_virt user_esp : ℕ) → List ℕ
user_frame entry_virt user_esp =
    0x23 ∷ user_esp ∷ 0x202 ∷ 0x1B ∷ entry_virt ∷ 0 ∷ 0 ∷ 0 ∷ 0 ∷ 0 ∷ 0 ∷ 0 ∷ 0 ∷ 0 ∷ 0 ∷ 0x23
    ∷ 0x23 ∷ 0x23 ∷ 0x23 ∷ []

unfoldable pub setup_user_stack : (kstack_top entry_virt user_esp : ℕ) → (ℕ → ℕ) → ℕ × (ℕ → ℕ)
setup_user_stack kstack_top entry_virt user_esp m =
    push_all (user_frame entry_virt user_esp) (kstack_top, m)

-- The words of a list at an address, upwards.
abbrev pub Words : (ℕ → ℕ) → ℕ → List ℕ → Type 0
Words m a [] = Unit {0}
Words m a (v ∷ vs) = (m a ≡ v) × Words m (a + 4) vs

-- The words of `vs` on top of those of `ws`, in the order in which they are popped.
abbrev pub rev_onto : List ℕ → List ℕ → List ℕ
rev_onto [] ws = ws
rev_onto (v ∷ vs) ws = rev_onto vs (v ∷ ws)

Words-update :
    (m : ℕ → ℕ) (a b v : ℕ) (ws : List ℕ) → b < a → Words m a ws → Words (update m b v) a ws
Words-update m a b v [] lt w = tt
Words-update m a b v (x ∷ ws) lt w =
    (ground (arith, w.0), Words-update m (a + 4) b v ws (omega (arith, lt)) w.1)

-- Pushing writes the words below the old top, downwards, and no others.
push_all_lem :
    (vs ws : List ℕ) (esp : ℕ) (m : ℕ → ℕ)
    → 4 * length vs ≤ esp
    → esp < 2 ^ 32
    → Words m esp ws
    → let (top, m') = push_all vs (esp, m) in
      (top ≡ esp - 4 * length vs)
      × Words m' top (rev_onto vs ws)
      × ((a : ℕ) → (a < top) ⊎ (esp ≤ a) → m' a ≡ m a)
unfolding push_all push
push_all_lem [] ws esp m room w h = (omega arith, h, λ a out. refl)
push_all_lem (v ∷ vs) ws esp m room w h =
    let e : sub32 esp 4 ≡ esp - 4 = omega (arith, room, w) in
    let m1 = update m (sub32 esp 4) v in
    let below = Words-update m esp (sub32 esp 4) v ws (omega (arith, room, w)) h in
    let rest =
      push_all_lem vs (v ∷ ws) (sub32 esp 4) m1 (omega (arith, room, w)) (omega arith)
        (ground arith, subst (λ b. Words m1 b ws) (omega (arith, room, w)) below) in
    (
      omega (arith, room, w, rest.0),
      rest.1,
      λ a out. elim out [
        | inl low ↦ rest.2 a (inl low) ∙ ground (arith, room, w, rest.0, low)
        | inr high ↦ rest.2 a (inr (omega (arith, room, w, high))) ∙ ground (arith, room, w, high)
      ],
    )

-- For a stack top with room for a frame, `setup_kernel_stack` returns the address 68 bytes below it,
-- where the timer handler's pops find, in this order: ds, es, fs and gs (the kernel's data segment), the eight
-- general registers, the interrupt number and the error code (all 0), and the frame of `iret` with the entry
-- point, the kernel's code segment and the flag IF. No word outside these 68 bytes changes.
pub setup_kernel_stack_lem :
    (top entry : ℕ) (m : ℕ → ℕ)
    → 68 ≤ top
    → top < 2 ^ 32
    → let (ctx, m') = setup_kernel_stack top entry m in
      (ctx ≡ top - 68)
      × Words m' ctx (
          0x10 ∷ 0x10 ∷ 0x10 ∷ 0x10 ∷ 0 ∷ 0 ∷ 0 ∷ 0 ∷ 0 ∷ 0 ∷ 0 ∷ 0 ∷ 0 ∷ 0 ∷ entry ∷ 0x08 ∷ 0x202
          ∷ [])
      × ((a : ℕ) → (a < ctx) ⊎ (top ≤ a) → m' a ≡ m a)
unfolding setup_kernel_stack
setup_kernel_stack_lem top entry m room w = push_all_lem (kernel_frame entry) [] top m room w tt

-- For a stack top with room for a frame, `setup_user_stack` returns the address 76 bytes below it,
-- where the timer handler's pops find the user's data segment four times, the eight general
-- registers, the interrupt number and the error code (all 0), and the frame of `iret` to ring 3: the
-- entry point, the user's code segment, the flag IF, the user's stack pointer and its segment. No
-- word outside these 76 bytes changes.
pub setup_user_stack_lem :
    (top entry esp : ℕ) (m : ℕ → ℕ)
    → 76 ≤ top
    → top < 2 ^ 32
    → let (ctx, m') = setup_user_stack top entry esp m in
      (ctx ≡ top - 76)
      × Words m' ctx (
          0x23 ∷ 0x23 ∷ 0x23 ∷ 0x23 ∷ 0 ∷ 0 ∷ 0 ∷ 0 ∷ 0 ∷ 0 ∷ 0 ∷ 0 ∷ 0 ∷ 0 ∷ entry ∷ 0x1B ∷ 0x202
          ∷ esp ∷ 0x23 ∷ [])
      × ((a : ℕ) → (a < ctx) ⊎ (top ≤ a) → m' a ≡ m a)
unfolding setup_user_stack
setup_user_stack_lem top entry esp m room w = push_all_lem (user_frame entry esp) [] top m room w tt
