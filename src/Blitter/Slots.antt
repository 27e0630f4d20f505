-- ===== src/Blitter/Slots.antt =====
-- The blitter in the bus slots that it is granted (blitter_dma.c of src/chipset/agnus/blitter, and the
-- end of a blit in blitter_timing.c).
pub mod Lines
pub mod Cadence
pub mod Split
pub mod Grants
use rigel.Prelude.{
  ℕ, zero, suc, ◌+◌, ◌-◌, Bool, true, false, not, ◌&&◌, ltb, ◌==◌, u32, if◌then◌else◌, none, some,
}
use rigel.Blitter.{BlitterState, BlitterMemory, BlitterExecState, BlitterIrqSink}
use rigel.Blitter.Line.{blitter_line_step, blitter_line_done, is_line}
use rigel.Blitter.Copy.{blitter_execute_reference}

unfoldable pub blitter_publish_result : BlitterState → BlitterState
blitter_publish_result b = record b {
  regs = record (b.regs) {
    bltapt = b.result.final_apt;
    bltbpt = b.result.final_bpt;
    bltcpt = b.result.final_cpt;
    bltdpt = b.result.final_dpt;
    bltadat = b.result.final_adat;
    bltbdat = b.result.final_bdat;
    bltcdat = b.result.final_cdat;
    bltddat = b.result.final_ddat;
    bltbhold = b.result.final_bhold;
  };
}

abbrev pub stopped : BlitterState → BlitterState
stopped b = record b { busy = false; exec_state = BlitterExecState.idle; cycles_remaining = 0 }

-- The counters after a slot of a line.
abbrev pub count_slot : BlitterState → BlitterState
count_slot b = record b {
  dma_slots_consumed = u32 (b.dma_slots_consumed + 1);
  cycles_remaining =
      if ltb 0 (b.cycles_remaining) then b.cycles_remaining - 1 else b.cycles_remaining;
}

abbrev pub set_phase : BlitterState → ℕ → BlitterState
set_phase b phase = record b { line_state = record (b.line_state) { pixel_slot_phase = phase } }

unfoldable pub is_pending : BlitterExecState → Bool
is_pending BlitterExecState.idle = false
is_pending BlitterExecState.pending = true
is_pending BlitterExecState.running = false

module _ {ℓ} {W : Type ℓ} where
  unfoldable pub blitter_force_finish : BlitterIrqSink W → BlitterState × W → BlitterState × W
  blitter_force_finish irq (b, w) = elim (irq.raise) [
    | none ↦ (stopped b, w)
    | some raise ↦ (stopped b, raise w 0x8040)
  ]

  abbrev pub finish : BlitterIrqSink W → BlitterState × W → BlitterState × W
  finish irq (b, w) =
      blitter_force_finish irq (blitter_publish_result (record b { cycles_remaining = 0 }), w)

  -- `for (i = 0; i < dma_slots; i++)` of a line, with `n` slots left.
  unfoldable pub line_slots :
      BlitterMemory W → BlitterIrqSink W → ℕ → BlitterState × W → BlitterState × W
  line_slots mem irq zero s = s
  line_slots mem irq (suc n) (b, w) =
      let counted = count_slot b in
      let read = line_slots mem irq n (set_phase counted 1, w) in
      let (t, drawn) = blitter_line_step mem (set_phase counted 0, w) in
      let rest = line_slots mem irq n (t, drawn) in
      if blitter_line_done b
      then (b, w)
      else if b.cycle_exact && b.line_state.pixel_slot_phase == 0
      then read
      else if blitter_line_done t
      then finish irq (t, drawn)
      else rest

  -- The slots of a copy that has been executed.
  unfoldable pub copy_slots : BlitterIrqSink W → ℕ → BlitterState × W → BlitterState × W
  copy_slots irq dma_slots (b, w) =
      let consumed = record b { dma_slots_consumed = u32 (b.dma_slots_consumed + dma_slots) } in
      if ltb dma_slots (b.cycles_remaining)
      then ((record consumed { cycles_remaining = b.cycles_remaining - dma_slots }), w)
      else finish irq (consumed, w)

  unfoldable pub blitter_step_dma :
      BlitterMemory W → BlitterIrqSink W → ℕ → BlitterState × W → BlitterState × W
  blitter_step_dma mem irq dma_slots (b, w) =
      let (ok, (t, copied)) = blitter_execute_reference mem (b, w) in
      if not (b.busy)
      then (b, w)
      else if is_line (b.cmd.mode)
      then line_slots mem irq dma_slots (b, w)
      else if not (is_pending (b.exec_state))
      then copy_slots irq dma_slots (b, w)
      else if not ok
      then (stopped t, copied)
      else copy_slots irq dma_slots ((record t { exec_state = BlitterExecState.running }), copied)
