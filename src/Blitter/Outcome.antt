-- ===== src/Blitter/Outcome.antt =====
-- What a line and a copy leave when they have had their slots.
use rigel.Prelude.{ℕ, ◌+◌, ◌<◌, ◌^◌, ◌≡◌, refl, ap, true, false, arith, ◌∙◌, sym, List, [], ◌∷◌}
use mathlib.Core.Path.{subst⁻¹}
use rigel.Blitter.{BlitterState, BlitterRegs, BlitterMemory, BlitterIrqSink, BlitterExecState}
use rigel.Blitter.Line.{is_line}
use rigel.Blitter.Reference.{execute_line_mode, line_locals}
use rigel.Blitter.Copy.{blitter_execute_reference, execute_copy_mode, zero_result}
use rigel.Blitter.Refinement.{init_IsDrawn, executed}
use rigel.Blitter.Slots.{blitter_step_dma, is_pending, copy_slots}
use rigel.Blitter.Slots.Split.{busy_dma}
use rigel.Blitter.Slots.Lines.{IsKept}
use rigel.Blitter.Slots.Cadence.{slots_run, slots_left}
use rigel.Blitter.Slots.Grants.{grants, total, line_grants, Outcome, IsCounting, counting_grants}

abbrev pub cleared : BlitterState → BlitterState
cleared b = record b { result = zero_result }

abbrev running : BlitterState → BlitterState
running b = record b { exec_state = BlitterExecState.running }

module _ {ℓ} {W : Type ℓ} (mem : BlitterMemory W) (irq : BlitterIrqSink W) where
  pub reference_line :
      (b : BlitterState) (w : W)
      → is_line (b.cmd.mode) ≡ true
      → b.command_valid ≡ true
      → blitter_execute_reference mem (b, w) ≡ (true, execute_line_mode mem (cleared b, w))
  unfolding blitter_execute_reference is_line
  reference_line b w l y = ground arith

  pub reference_copy :
      (b : BlitterState) (w : W)
      → is_line (b.cmd.mode) ≡ false
      → b.command_valid ≡ true
      → blitter_execute_reference mem (b, w) ≡ (true, execute_copy_mode mem (cleared b, w))
  unfolding blitter_execute_reference is_line
  reference_copy b w l y = ground arith

  pub line-Outcome :
      (ns : List ℕ) (b : BlitterState) (w : W) (r : BlitterRegs)
      → is_line (b.cmd.mode) ≡ true
      → 0 < b.cmd.height_lines
      → b.cmd.height_lines < 2 ^ 16
      → b.line_state.initialized ≡ false
      → IsKept b r (b.cycle_exact) 0
      → let x = execute_line_mode mem (cleared b, w) in
        Outcome mem irq
          (total ns)
          (slots_left (b.cycle_exact) (b.cmd.height_lines) 0)
          (grants mem irq ns (b, w))
          r
          (x.0.result)
          (x.1)
  line-Outcome ns b w r l pos hb i kept =
      let h = b.cmd.height_lines in
      let (f, g) = executed mem (cleared b) w pos in
      let (p, q) =
        slots_run mem irq (total ns) h 0 0 b w w (b.cmd) (line_locals (b.cmd)) r (b.cycle_exact)
          refl (init_IsDrawn b i) kept (omega arith) l pos (omega arith) hb in
      let x = execute_line_mode mem (cleared b, w) in
      let e = line_grants mem irq ns b w l ∙ busy_dma mem irq (total ns) b w (kept.is_busy) l in
      subst⁻¹
        (λ t. Outcome mem irq (total ns) (slots_left (b.cycle_exact) h 0) t r (x.0.result) (x.1)) e
        ((λ lt. (p lt).0), (λ le. rw (f, g) (q le)))

  copy-IsCounting :
      (b : BlitterState) (w : W)
      → b.busy ≡ true
      → is_line (b.cmd.mode) ≡ false
      → let x = execute_copy_mode mem (cleared b, w) in
        IsCounting (running (x.0)) (b.regs) (x.0.result) (b.cycles_remaining)
  unfolding execute_copy_mode
  copy-IsCounting b w y l = record {
    is_busy = y;
    mode_eq = l;
    exec_eq = unfold is_pending in refl;
    regs_eq = refl;
    result_eq = refl;
    cycles_eq = refl;
  }

  pending_dma :
      (n : ℕ) (b : BlitterState) (w : W)
      → b.busy ≡ true
      → is_line (b.cmd.mode) ≡ false
      → is_pending (b.exec_state) ≡ true
      → let r = blitter_execute_reference mem (b, w) in
        r.0 ≡ true → blitter_step_dma mem irq n (b, w) ≡ copy_slots irq n (running (r.1.0), r.1.1)
  unfolding blitter_step_dma
  pending_dma n b w y l e ok = ground arith

  executed_dma :
      (n : ℕ) (b : BlitterState) (w : W)
      → b.busy ≡ true
      → is_line (b.cmd.mode) ≡ false
      → is_pending (b.exec_state) ≡ false
      → blitter_step_dma mem irq n (b, w) ≡ copy_slots irq n (b, w)
  unfolding blitter_step_dma
  executed_dma n b w y l e = ground arith

  -- The first grant executes the copy.
  first_grant :
      (n : ℕ) (b : BlitterState) (w : W)
      → b.busy ≡ true
      → is_line (b.cmd.mode) ≡ false
      → b.command_valid ≡ true
      → b.exec_state ≡ BlitterExecState.pending
      → let x = execute_copy_mode mem (cleared b, w) in
        blitter_step_dma mem irq n (b, w) ≡ blitter_step_dma mem irq n (running (x.0), x.1)
  first_grant n b w y l v p =
      let x = execute_copy_mode mem (cleared b, w) in
      let i = copy-IsCounting b w y l in
      let f = reference_copy b w l v in
      pending_dma n b w y l (rw p (unfold is_pending in refl)) (ap (λ r. r.0) f)
      ∙ ap (λ r. copy_slots irq n (running (r.1.0), r.1.1)) f
      ∙ sym (executed_dma n (running (x.0)) (x.1) (i.is_busy) (i.mode_eq) (i.exec_eq))

  pub copy-Outcome :
      (ns : List ℕ) (b : BlitterState) (w : W)
      → is_line (b.cmd.mode) ≡ false
      → b.busy ≡ true
      → b.command_valid ≡ true
      → b.exec_state ≡ BlitterExecState.pending
      → 0 < b.cycles_remaining
      → let x = execute_copy_mode mem (cleared b, w) in
        Outcome mem irq
          (total ns)
          (b.cycles_remaining)
          (grants mem irq ns (b, w))
          (b.regs)
          (x.0.result)
          (x.1)
  unfolding grants
  copy-Outcome [] b w l y v p pos = ((λ lt. y), (λ le. absurd (omega arith)))
  copy-Outcome (n ∷ ns) b w l y v p pos =
      let x = execute_copy_mode mem (cleared b, w) in
      let c = b.cycles_remaining in
      subst⁻¹
        (λ t. Outcome mem irq (n + total ns) c (grants mem irq ns t) (b.regs) (x.0.result) (x.1))
        (first_grant n b w y l v p)
        (counting_grants mem irq (n ∷ ns) c (running (x.0)) (x.1) (b.regs) (x.0.result)
          (copy-IsCounting b w y l) pos)
