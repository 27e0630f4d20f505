-- ===== src/Blitter/Slots/Split.antt =====
-- The slots of a line granted in two parts.
use rigel.Prelude.{
  ℕ, zero, suc, ◌+◌, ◌≡◌, refl, ap, Bool, true, false, arith, ◌∙◌, sym, inl, inr, Bool-cases, not,
  ◌&&◌, ◌==◌, leb,
}
use rigel.Blitter.{BlitterState, BlitterMemory, BlitterIrqSink, BlitCommand}
use rigel.Blitter.Line.{
  line_state_init, line_pixel, line_pixel_done, line_publish_partial_result, blitter_line_step,
  blitter_line_done, is_line,
}
use rigel.Blitter.Slots.{
  count_slot, set_phase, line_slots, finish, blitter_publish_result, blitter_force_finish,
  blitter_step_dma,
}

-- The fields that decide what the next grant does.
abbrev pub gate : BlitterState → Bool × BlitCommand
gate b = (b.busy, b.cmd)

gate-init : (b : BlitterState) → gate (line_state_init b) ≡ gate b
unfolding line_state_init
gate-init b = ground arith

gate-pixel : (b : BlitterState) (c d : ℕ) → gate (line_pixel_done b c d) ≡ gate b
unfolding line_pixel_done line_publish_partial_result
gate-pixel b c d = refl

module _ {ℓ} {W : Type ℓ} (mem : BlitterMemory W) (irq : BlitterIrqSink W) where
  gate-step : (b : BlitterState) (w : W) → gate ((blitter_line_step mem (b, w)).0) ≡ gate b
  unfolding blitter_line_step
  gate-step b w =
      let s = line_state_init b in
      let (cval, dval, written) = line_pixel (b.cmd) (s.line_state) mem w in
      let e = gate-pixel s cval dval in
      let f = gate-init b in
      elim (Bool-cases (not (is_line (b.cmd.mode)))) [
        | inl g ↦ rw g refl
        | inr g ↦ rw g (elim (Bool-cases (leb (b.cmd.height_lines) (s.line_state.step_index))) [
          | inl h ↦ rw h f
          | inr h ↦ rw h (e ∙ f)
        ])
      ]

  gate-finish : (b : BlitterState) (w : W) → gate ((finish irq (b, w)).0) ≡ (false, b.cmd)
  unfolding blitter_force_finish blitter_publish_result
  gate-finish b w = ground arith

  -- A grant in line mode, to a busy blitter and to one that is not.
  pub busy_dma :
      (m : ℕ) (b : BlitterState) (w : W)
      → b.busy ≡ true
      → is_line (b.cmd.mode) ≡ true
      → blitter_step_dma mem irq m (b, w) ≡ line_slots mem irq m (b, w)
  unfolding blitter_step_dma
  busy_dma m b w y l = ground arith

  pub free_dma :
      (m : ℕ) (b : BlitterState) (w : W)
      → b.busy ≡ false
      → blitter_step_dma mem irq m (b, w) ≡ (b, w)
  unfolding blitter_step_dma
  free_dma m b w y = ground arith

  gated_dma :
      (m : ℕ) (b : BlitterState) (w : W) (cmd : BlitCommand)
      → gate b ≡ (true, cmd)
      → is_line (cmd.mode) ≡ true
      → blitter_step_dma mem irq m (b, w) ≡ line_slots mem irq m (b, w)
  gated_dma m b w cmd y l =
      let e : b.cmd ≡ cmd = ap (λ x. x.1) y in busy_dma m b w (ap (λ x. x.0) y) (rw e l)

  finish_dma :
      (m : ℕ) (b : BlitterState) (w : W)
      → blitter_step_dma mem irq m (finish irq (b, w)) ≡ finish irq (b, w)
  finish_dma m b w =
      let t = finish irq (b, w) in free_dma m (t.0) (t.1) (ap (λ x. x.0) (gate-finish b w))

  done_slots :
      (m : ℕ) (b : BlitterState) (w : W)
      → blitter_line_done b ≡ true
      → line_slots mem irq m (b, w) ≡ (b, w)
  unfolding line_slots
  done_slots zero b w h = refl
  done_slots (suc m) b w h = rw h refl

  line_split :
      (n m : ℕ) (b : BlitterState) (w : W) (cmd : BlitCommand)
      → gate b ≡ (true, cmd)
      → is_line (cmd.mode) ≡ true
      → line_slots mem irq (n + m) (b, w) ≡ blitter_step_dma mem irq m (line_slots mem irq n (b, w))
  unfolding line_slots
  line_split zero m b w cmd y l =
      let e : 0 + m ≡ m = omega arith in rw e (sym (gated_dma m b w cmd y l))
  line_split (suc n) m b w cmd y l =
      let s = set_phase (count_slot b) 0 in
      let t = blitter_line_step mem (s, w) in
      let g = gate-step s w in
      let e : suc n + m ≡ suc (n + m) = omega arith in
      rw e (elim (Bool-cases (blitter_line_done b)) [
        | inl h ↦ rw h (sym (gated_dma m b w cmd y l ∙ done_slots m b w h))
        | inr h ↦ rw h (elim (Bool-cases (b.cycle_exact && b.line_state.pixel_slot_phase == 0)) [
          | inl f ↦ rw f (line_split n m (set_phase (count_slot b) 1) w cmd y l)
          | inr f ↦ rw f (elim (Bool-cases (blitter_line_done (t.0))) [
            | inl d ↦ rw d (sym (finish_dma m (t.0) (t.1)))
            | inr d ↦ rw d (line_split n m (t.0) (t.1) cmd (g ∙ y) l)
          ])
        ])
      ])

  slots_cmd : (n : ℕ) (b : BlitterState) (w : W) → (line_slots mem irq n (b, w)).0.cmd ≡ b.cmd
  unfolding line_slots
  slots_cmd zero b w = refl
  slots_cmd (suc n) b w =
      let s = set_phase (count_slot b) 0 in
      let t = blitter_line_step mem (s, w) in
      let g : t.0.cmd ≡ b.cmd = ap (λ x. x.1) (gate-step s w) in
      elim (Bool-cases (blitter_line_done b)) [
        | inl h ↦ rw h refl
        | inr h ↦ rw h (elim (Bool-cases (b.cycle_exact && b.line_state.pixel_slot_phase == 0)) [
          | inl f ↦ rw f (slots_cmd n (set_phase (count_slot b) 1) w)
          | inr f ↦ rw f (elim (Bool-cases (blitter_line_done (t.0))) [
            | inl d ↦ rw d (ap (λ x. x.1) (gate-finish (t.0) (t.1)) ∙ g)
            | inr d ↦ rw d (slots_cmd n (t.0) (t.1) ∙ g)
          ])
        ])
      ]

  pub dma_cmd :
      (n : ℕ) (b : BlitterState) (w : W)
      → is_line (b.cmd.mode) ≡ true
      → (blitter_step_dma mem irq n (b, w)).0.cmd ≡ b.cmd
  dma_cmd n b w l = elim (Bool-cases (b.busy)) [
    | inl y ↦ rw (busy_dma n b w y l) (slots_cmd n b w)
    | inr y ↦ rw (free_dma n b w y) refl
  ]

  pub dma_split :
      (n m : ℕ) (b : BlitterState) (w : W)
      → is_line (b.cmd.mode) ≡ true
      → blitter_step_dma mem irq (n + m) (b, w)
        ≡ blitter_step_dma mem irq m (blitter_step_dma mem irq n (b, w))
  dma_split n m b w l = elim (Bool-cases (b.busy)) [
    | inl y ↦
        let e : gate b ≡ (true, b.cmd) = rw y refl in
        rw (busy_dma n b w y l, busy_dma (n + m) b w y l) (line_split n m b w (b.cmd) e l)
    | inr y ↦ rw (free_dma n b w y, free_dma (n + m) b w y, free_dma m b w y) refl
  ]
