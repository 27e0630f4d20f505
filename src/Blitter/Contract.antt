-- ===== src/Blitter/Contract.antt =====
-- What a write to BLTSIZE does once the blit has had its slots.
use rigel.Prelude.{
  ℕ, bit_and, ◌<◌, ◌≤◌, ◌^◌, ◌≡◌, refl, Bool, true, false, arith, ◌∙◌, inl, inr, Bool-cases, List,
  ◌>>>◌,
}
use mathlib.Core.Path.{subst⁻¹}
use rigel.Blitter.{BlitterState, BlitterMemory, BlitterIrqSink, BlitCommand, BlitterExecState}
use rigel.Blitter.Line.{is_line}
use rigel.Blitter.Copy.{blitter_execute_reference}
use rigel.Blitter.Timing.{blitter_estimate_cycles, blitter_start_timing}
use rigel.Blitter.Registers.{blitter_begin_command, blitter_build_command, build_command}
use rigel.Blitter.Slots.Lines.{IsKept}
use rigel.Blitter.Slots.Cadence.{IsOver, slots_left}
use rigel.Blitter.Slots.Grants.{grants, total, Outcome}
use rigel.Blitter.Registers.{blitter_write_reg16, or_largest}
use rigel.Prelude.Bits.{bit_and-le_right}
use rigel.Blitter.Outcome.{line-Outcome, copy-Outcome, reference_line, reference_copy}

-- The sizes that a write to BLTSIZE stores.
abbrev sized : BlitterState → ℕ → BlitterState
sized b value = record b {
  regs = record (b.regs) {
    bltsize = value;
    bltsizh = or_largest 64 (bit_and value 0x003f);
    bltsizv = or_largest 1024 (bit_and (value >>> 6) 0x03ff);
  };
}

begun_fields :
    (b : BlitterState)
    → let t = blitter_begin_command b in
      (t.cmd.height_lines ≡ b.regs.bltsizv)
      × (t.busy ≡ true)
      × (t.command_valid ≡ true)
      × (t.exec_state ≡ BlitterExecState.pending)
      × (t.line_state.initialized ≡ false)
      × (t.line_state.pixel_slot_phase ≡ 0)
      × (t.cycles_remaining ≡ blitter_estimate_cycles (t.cmd) (t.cycle_exact))
unfolding blitter_begin_command blitter_start_timing blitter_build_command build_command
begun_fields b = (refl, refl, refl, refl, refl, refl, refl)

line_cycles :
    (cmd : BlitCommand) (exact : Bool)
    → is_line (cmd.mode) ≡ true
    → 0 < cmd.height_lines
    → cmd.height_lines < 2 ^ 16
    → blitter_estimate_cycles cmd exact ≡ slots_left exact (cmd.height_lines) 0
unfolding blitter_estimate_cycles is_line
line_cycles cmd exact l pos hb = ground arith

some_cycles : (cmd : BlitCommand) (exact : Bool) → 0 < blitter_estimate_cycles cmd exact
unfolding blitter_estimate_cycles
some_cycles cmd exact = ground arith

module _ {ℓ} {W : Type ℓ} (mem : BlitterMemory W) (irq : BlitterIrqSink W) where
  command-Outcome :
      (ns : List ℕ) (b : BlitterState) (w : W)
      → 0 < b.regs.bltsizv
      → b.regs.bltsizv < 2 ^ 16
      → let t = blitter_begin_command b in
        let r = blitter_execute_reference mem (t, w) in
        Outcome mem irq
          (total ns)
          (t.cycles_remaining)
          (grants mem irq ns (t, w))
          (t.regs)
          (r.1.0.result)
          (r.1.1)
  command-Outcome ns b w pos hb =
      let t = blitter_begin_command b in
      let r = blitter_execute_reference mem (t, w) in
      let g = grants mem irq ns (t, w) in
      let (height, busy, valid, exec, fresh, phase, cycles) = begun_fields b in
      let c = t.cycles_remaining in
      elim (Bool-cases (is_line (t.cmd.mode))) [
        | inl l ↦
            let p : 0 < t.cmd.height_lines = omega (arith, height) in
            let q : t.cmd.height_lines < 2 ^ 16 = omega (arith, height) in
            let kept : IsKept t (t.regs) (t.cycle_exact) 0 = record {
              regs_eq = refl;
              is_busy = busy;
              exact_eq = refl;
              phase_eq = phase;
            } in
            subst⁻¹ (λ n. Outcome mem irq (total ns) n g (t.regs) (r.1.0.result) (r.1.1))
              (cycles ∙ line_cycles (t.cmd) (t.cycle_exact) l p q)
              (subst⁻¹
                (λ x.
                  Outcome mem irq (total ns) (slots_left (t.cycle_exact) (t.cmd.height_lines) 0) g
                    (t.regs) (x.1.0.result) (x.1.1))
                (reference_line mem irq t w l valid)
                (line-Outcome mem irq ns t w (t.regs) l p q fresh kept))
        | inr l ↦
            let some = some_cycles (t.cmd) (t.cycle_exact) in
            subst⁻¹ (λ x. Outcome mem irq (total ns) c g (t.regs) (x.1.0.result) (x.1.1))
              (reference_copy mem irq t w l valid)
              (copy-Outcome mem irq ns t w l busy valid exec (omega (arith, cycles, some)))
      ]

  -- A write to BLTSIZE starts a command of 1 to 1024 lines.
  size_write :
      (b : BlitterState) (value : ℕ)
      → let s = sized b value in
        (0 < s.regs.bltsizv)
        × (s.regs.bltsizv < 2 ^ 16)
        × (blitter_write_reg16 b 0x058 value ≡ blitter_begin_command s)
  unfolding blitter_write_reg16
  size_write b value = (ground (arith), ground (arith, bit_and-le_right (value >>> 6) 0x03ff), refl)

  blit-Outcome :
      (ns : List ℕ) (b : BlitterState) (value : ℕ) (w : W)
      → let t = blitter_write_reg16 b 0x058 value in
        let r = blitter_execute_reference mem (t, w) in
        Outcome mem irq
          (total ns)
          (t.cycles_remaining)
          (grants mem irq ns (t, w))
          (t.regs)
          (r.1.0.result)
          (r.1.1)
  blit-Outcome ns b value w =
      let (pos, hb, e) = size_write b value in
      subst⁻¹
        (λ t.
          let r = blitter_execute_reference mem (t, w) in
          Outcome mem irq (total ns) (t.cycles_remaining) (grants mem irq ns (t, w)) (t.regs)
            (r.1.0.result) (r.1.1))
        e (command-Outcome ns (sized b value) w pos hb)

  -- A blit that a write to BLTSIZE has started, a line or a copy, whatever the registers hold: while
  -- the slots granted to it, in any number of grants, are fewer than the cycles of its estimate,
  -- the blitter is busy.
  pub blit_busy :
      (ns : List ℕ) (b : BlitterState) (value : ℕ) (w : W)
      → total ns < (blitter_write_reg16 b 0x058 value).cycles_remaining
      → (grants mem irq ns (blitter_write_reg16 b 0x058 value, w)).0.busy ≡ true
  blit_busy ns b value w h = (blit-Outcome ns b value w).0 h

  -- A blit that a write to BLTSIZE has started, a line or a copy, whatever the registers hold, is
  -- over as soon as the slots granted to it, in any number of grants, are as many as the cycles
  -- of its estimate: the blitter is idle, its registers and the memory are those that the
  -- execution at once leaves, and the interrupt of the blitter has then been raised once.
  pub blit-IsOver :
      (ns : List ℕ) (b : BlitterState) (value : ℕ) (w : W)
      → let t = blitter_write_reg16 b 0x058 value in
        let r = blitter_execute_reference mem (t, w) in
        t.cycles_remaining ≤ total ns
        → IsOver irq (grants mem irq ns (t, w)) (t.regs) (r.1.0.result) (r.1.1)
  blit-IsOver ns b value w h = (blit-Outcome ns b value w).1 h
