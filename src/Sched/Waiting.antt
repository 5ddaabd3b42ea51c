-- ===== src/Sched/Waiting.antt =====
-- A READY thread that waits for its turn, and how `scheduler_tick` brings the turn nearer.
use system_operative_edit.Base.{
  ℕ, ◌+◌, ◌-◌, ◌*◌, ◌≤◌, ◌<◌, max, ◌≡◌, sym, ap, ◌∙◌, ◌≢◌, ◌⊎◌, inl, inr, true, false, some, List,
  [], ◌∷◌, ◌++◌, arith, ◌==◌, Bool-cases, length, length-append, has, Distinct, has-append,
}
use mathlib.Core.Path.{subst}
use mathlib.Core.List.{append_assoc}
use system_operative_edit.Proc.{Kernel, max_threads, is_ready}
use system_operative_edit.Sched.{choose, tick, scheduler_quantum}
use system_operative_edit.Sched.Ring.{IsRing, Distinct-split}
use system_operative_edit.Sched.Next.{
  rotation, first_ready, Distinct-rotation, IsRing-Chain, Chain-no_null,
}
use system_operative_edit.Sched.Tick.{charged, has_time, tick_keeps, tick_chooses, ring-ne_null}
use system_operative_edit.Sched.Dispatch.{
  SchedOk, Ticked, Switched, split_at, choose-Switched, keeps-Ticked, switches-Ticked,
}
use system_operative_edit.Sched.Turns.{
  place, place_falls, place-append_hit, place-lt-length, rotation-rotation, first_ready_split,
}

-- A READY thread of the queue that is not the current one.
pub record Waits (k : Kernel) (xs : List ℕ) (p : ℕ) : Type 0 where
  pub sound : SchedOk k xs
  pub queued : has p xs ≡ true
  pub other : p ≢ k.sched_current
  pub ready : is_ready (k.threads p).state ≡ true

-- The ticks until `p` runs, at most: what is left to the current thread, and a quantum for each
-- thread before `p`.
abbrev pub due : Kernel → (before behind : List ℕ) → (p : ℕ) → ℕ
due k before behind p =
    scheduler_quantum * place p (rotation before k.sched_current behind)
    + max (k.threads k.sched_current).quantum 1

-- `p` runs, or waits for fewer ticks.
abbrev pub Nearer : (bound : ℕ) → (xs : List ℕ) → (p : ℕ) → Kernel → Type 0
Nearer bound xs p k =
    (k.sched_current ≡ p)
    ⊎ ((before : List ℕ) × (behind : List ℕ) × (xs ≡ before ++ (k.sched_current ∷ behind))
        × Waits k xs p
        × (due k before behind p < bound))

module _ (k : Kernel) (ctx : ℕ) (xs : List ℕ) (p : ℕ) (w : Waits k xs p) (before behind : List ℕ)
    (at : xs ≡ before ++ (k.sched_current ∷ behind)) where
  ring : IsRing k (before ++ (k.sched_current ∷ behind))
  ring = subst (IsRing k) at w.sound.ring

  kept :
      has_time (k.threads k.sched_current) ≡ true
      → (r : ℕ × Kernel) × (tick ctx k ≡ some r)
        × Ticked r.1 xs
        × Nearer (due k before behind p) xs p r.1
  kept time =
      let t = keeps-Ticked k ctx xs w.sound in
      (
        _,
        tick_keeps k ctx (ring-ne_null k ctx before behind ring) time,
        t,
        inr (
          before,
          behind,
          at,
          record {
            sound = t.sound;
            queued = w.queued;
            other = w.other;
            ready = ground (arith, w.ready, w.other);
          },
          ground (arith, time),
        ),
      )

  -- The threads behind the current one, up to it.
  abbrev behind_all : List ℕ
  behind_all = behind ++ before

  abbrev found : ℕ
  found = first_ready (charged ctx k).threads (rotation before k.sched_current behind)

  has-behind_all : (q : ℕ) → (q == k.sched_current) ≡ false → has q behind_all ≡ has q xs
  has-behind_all q off =
      ground (arith, has-append q behind before, has-append q before (k.sched_current ∷ behind))
      ∙ sym (ap (has q) at)

  found_split : (a : List ℕ) × (b : List ℕ) × (behind_all ≡ a ++ (found ∷ b)) × (has p a ≡ false)
  found_split =
      subst
        (λ l.
          (a : List ℕ) × (b : List ℕ) × (behind_all
            ≡ a ++ (first_ready (charged ctx k).threads l ∷ b))
          × (has p a ≡ false))
        (append_assoc behind before (k.sched_current ∷ []))
        (first_ready_split (charged ctx k).threads behind_all (k.sched_current ∷ []) p
          (ground (arith, w.ready, w.other))
          (has-behind_all p (ground (arith, w.other)) ∙ w.queued))

  found-queued : has found behind_all ≡ true
  found-queued =
      let (a, b, e, out) = found_split in
      ap (has found) e ∙ ground (arith, has-append found a (found ∷ b))

  found-ne-current : found ≢ k.sched_current
  found-ne-current =
      let d =
        subst Distinct (sym (append_assoc behind before (k.sched_current ∷ [])))
          (Distinct-rotation before k.sched_current behind (IsRing-Chain k _ ring).1) in
      λ e. ground (arith, (Distinct-split behind_all (k.sched_current ∷ []) d).2 found found-queued)

  found-has : has found xs ≡ true
  found-has = sym (has-behind_all found (ground (arith, found-ne-current))) ∙ found-queued

  found-ne_null : found ≢ 0
  found-ne_null e =
      let none_null =
        Chain-no_null _ k.queue_head xs k.queue_head (IsRing-Chain k xs w.sound.ring).0 in
      cc (sym none_null ∙ sym (ap (λ z. has z xs) e) ∙ found-has)

  abbrev chosen : ℕ × Kernel
  chosen = choose ctx found (charged ctx k)

  switched : Switched ctx k found chosen
  switched = choose-Switched k ctx found found-ne_null found-ne-current

  still-Waits : p ≢ found → Waits chosen.1 xs p
  still-Waits ne = record {
    sound = (switches-Ticked k ctx xs w.sound found found-ne_null found-ne-current found-has).sound;
    queued = w.queued;
    other = λ e. ne (e ∙ switched.current);
    ready = ap (λ t. is_ready t.state) (switched.others p ne w.other) ∙ w.ready;
  }

  full_quantum : (chosen.1.threads chosen.1.sched_current).quantum ≡ 10
  full_quantum = ap (λ c. (chosen.1.threads c).quantum) switched.current ∙ switched.quantum

  nearer :
      p ≢ found
      → (before' behind' : List ℕ) → xs ≡ before' ++ (found ∷ behind')
      → place p (rotation before' found behind') < place p (rotation before k.sched_current behind)
  nearer ne before' behind' e' =
      let (a, b, e, out) = found_split in
      let off : (p == found) ≡ false = ground (arith, ne) in
      let i : has p b ≡ true = ground (
        arith,
        sym (ap (has p) e) ∙ has-behind_all p (ground (arith, w.other)) ∙ w.queued,
        has-append p a (found ∷ b),
      ) in
      let old : rotation before k.sched_current behind
          ≡ a ++ (found ∷ (b ++ (k.sched_current ∷ []))) =
        sym (append_assoc behind before (k.sched_current ∷ []))
        ∙ ap (λ l. l ++ (k.sched_current ∷ [])) e
        ∙ append_assoc a (found ∷ b) (k.sched_current ∷ []) in
      let new =
        rotation-rotation k before k.sched_current behind before' found behind' a
          (b ++ (k.sched_current ∷ [])) ring (subst (IsRing k) e' w.sound.ring)
          (ap length (sym at ∙ e')) old in
      subst (λ l. place p l < place p (rotation before k.sched_current behind)) (sym new)
        (subst (λ l. place p ((b ++ (k.sched_current ∷ [])) ++ (a ++ (found ∷ []))) < place p l)
          (sym old) (place_falls p found k.sched_current a b out off i))

  gave_way :
      has_time (k.threads k.sched_current) ≡ false
      → length xs ≤ max_threads
      → (r : ℕ × Kernel) × (tick ctx k ≡ some r)
        × Ticked r.1 xs
        × Nearer (due k before behind p) xs p r.1
  gave_way out le =
      let (before', behind', e') = split_at found xs found-has in
      let at' = e' ∙ ap (λ c. before' ++ (c ∷ behind')) (sym switched.current) in
      (
        chosen,
        tick_chooses k ctx before behind (subst (λ l. length l ≤ max_threads) at le) ring out,
        switches-Ticked k ctx xs w.sound found found-ne_null found-ne-current found-has,
        elim (Bool-cases (p == found)) [
          | inl mine ↦ inl (switched.current ∙ ground (arith, mine))
          | inr not_mine ↦
              let ne : p ≢ found = ground (arith, not_mine) in
              let less = nearer ne before' behind' e' in
              let same : place p (rotation before' chosen.1.sched_current behind')
                  ≡ place p (rotation before' found behind') =
                ap (λ c. place p (rotation before' c behind')) switched.current in
              inr (before', behind', at', still-Waits ne, omega (arith, less, same, full_quantum))
        ],
      )

  -- A tick ends, and `p` runs after it or waits for fewer ticks.
  pub tick-Nearer :
      length xs ≤ max_threads
      → (r : ℕ × Kernel) × (tick ctx k ≡ some r)
        × Ticked r.1 xs
        × Nearer (due k before behind p) xs p r.1
  tick-Nearer le = elim (Bool-cases (has_time (k.threads k.sched_current))) [
    | inl time ↦ kept time
    | inr out ↦ gave_way out le
  ]

  pub due_bound :
      (k.threads k.sched_current).quantum ≤ scheduler_quantum
      → due k before behind p ≤ scheduler_quantum * (length xs - 1)
  due_bound q =
      let i : has p behind_all ≡ true = has-behind_all p (ground (arith, w.other)) ∙ w.queued in
      let same : place p (rotation before k.sched_current behind) ≡ place p behind_all =
        ap (place p) (sym (append_assoc behind before (k.sched_current ∷ [])))
        ∙ place-append_hit p behind_all (k.sched_current ∷ []) i in
      omega (
        arith,
        same,
        q,
        place-lt-length p behind_all i,
        length-append behind before,
        ap length at,
        length-append before (k.sched_current ∷ behind),
      )
