-- ===== src/Blitter/Timing.antt =====
-- The cost of a command and its start (blitter_timing.c of src/chipset/agnus/blitter).
use rigel.Prelude.{ℕ, ◌+◌, ◌*◌, Bool, true, false, not, ◌&&◌, ◌==◌, u32, if◌then◌else◌, from_bool}
use rigel.Blitter.{BlitterLineState, BlitCommand, BlitterState, BlitterMode, BlitterExecState}
use rigel.Blitter.Copy.{zero_result}

unfoldable pub blitter_active_channel_count : BlitCommand → ℕ
blitter_active_channel_count cmd =
    let channels =
      from_bool (cmd.use_a)
      + from_bool (cmd.use_b)
      + from_bool (cmd.use_c)
      + from_bool (cmd.use_d) in
    if channels == 0 then 1 else channels

unfoldable pub blitter_word_cost : BlitCommand → ℕ
blitter_word_cost cmd =
    let cost = blitter_active_channel_count cmd in
    if cmd.use_d && not (cmd.use_c) then cost + 1 else cost

unfoldable pub blitter_estimate_cycles : BlitCommand → Bool → ℕ
blitter_estimate_cycles cmd cycle_exact =
    let words = u32 (cmd.width_words * cmd.height_lines) in
    let cycles : ℕ = elim (cmd.mode) [
      | BlitterMode.line ↦ if cycle_exact then u32 (cmd.height_lines * 2) else cmd.height_lines
      | BlitterMode.copy ↦ if cycle_exact then u32 (words * blitter_word_cost cmd) else words
    ] in
    if cycles == 0 then 1 else cycles

-- The states of memory that `memset` clears.
abbrev pub zero_line_state : BlitterLineState
zero_line_state = record {
  error = 0;
  pattern = 0;
  cpt = 0;
  step_index = 0;
  x_shift = 0;
  one_dot_count = 0;
  last_cdat = 0;
  last_ddat = 0;
  zero_flag = false;
  sign = false;
  initialized = false;
  pixel_slot_phase = 0;
}

unfoldable pub blitter_start_timing : BlitterState → BlitterState
blitter_start_timing b = record b {
  busy = true;
  exec_state = BlitterExecState.pending;
  result = record zero_result { zero_flag = true };
  line_state = zero_line_state;
  dma_slots_consumed = 0;
  cycles_remaining = blitter_estimate_cycles (b.cmd) (b.cycle_exact);
}
