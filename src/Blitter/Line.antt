-- ===== src/Blitter/Line.antt =====
-- A line drawn pixel by pixel (blitter_line.c of src/chipset/agnus/blitter), whose memory functions are
-- those of blitter_ref.c written again.
use rigel.Prelude.{
  ℕ, ◌+◌, ◌-◌, ◌^◌, bit_and, bit_or, Bool, true, false, not, ◌&&◌, ◌||◌, any, leb, ◌==◌, u8, u16,
  not16, ◌<<<◌, ◌>>>◌, if◌then◌else◌,
}
use rigel.Blitter.{
  BlitterLineState, BlitCommand, BlitterState, BlitterMode, BlitterMemory, chip_addr, sign_extend,
  add32, sub32, chip_read16, chip_write16,
}
use rigel.Blitter.Logic.{or_if}

unfoldable pub line_blitter_logic : ℕ → ℕ → ℕ → ℕ → ℕ
line_blitter_logic minterm a b c =
    let na = not16 a in
    let nb = not16 b in
    let nc = not16 c in
    let d80 = or_if minterm 0x80 (bit_and (bit_and a b) c) 0 in
    let d40 = or_if minterm 0x40 (bit_and (bit_and a b) nc) d80 in
    let d20 = or_if minterm 0x20 (bit_and (bit_and a nb) c) d40 in
    let d10 = or_if minterm 0x10 (bit_and (bit_and a nb) nc) d20 in
    let d08 = or_if minterm 0x08 (bit_and (bit_and na b) c) d10 in
    let d04 = or_if minterm 0x04 (bit_and (bit_and na b) nc) d08 in
    let d02 = or_if minterm 0x02 (bit_and (bit_and na nb) c) d04 in
    or_if minterm 0x01 (bit_and (bit_and na nb) nc) d02

unfoldable pub line_rotate_pattern : ℕ → ℕ → ℕ
line_rotate_pattern pattern shift =
    if shift == 0 then pattern else u16 (bit_or (pattern >>> shift) (pattern <<< (16 - shift)))

unfoldable pub line_incx : BlitterLineState → BlitterLineState
line_incx state =
    let x = u8 (state.x_shift + 1) in
    if x == 16
    then (record state { x_shift = 0; cpt = chip_addr (add32 (state.cpt) 2) })
    else (record state { x_shift = x })

unfoldable pub line_decx : BlitterLineState → BlitterLineState
line_decx state =
    if state.x_shift == 0
    then (record state { x_shift = 15; cpt = chip_addr (sub32 (state.cpt) 2) })
    else (record state { x_shift = state.x_shift - 1 })

unfoldable pub line_incy : BlitterLineState → ℕ → BlitterLineState
line_incy state mod_ = record state {
  cpt = chip_addr (add32 (state.cpt) (sign_extend mod_));
  one_dot_count = 0;
}

unfoldable pub line_decy : BlitterLineState → ℕ → BlitterLineState
line_decy state mod_ = record state {
  cpt = chip_addr (sub32 (state.cpt) (sign_extend mod_));
  one_dot_count = 0;
}

-- The three `if`s of `line_advance`: the error, the step that the sign allows and the step of every
-- pixel.
unfoldable pub advance_error : BlitterLineState → BlitCommand → BlitterLineState
advance_error state cmd =
    if cmd.use_a
    then (record state {
      error = if state.sign then u16 (state.error + cmd.bmod) else u16 (state.error + cmd.amod);
    })
    else state

unfoldable pub advance_minor : BlitterLineState → BlitCommand → BlitterLineState
advance_minor state cmd =
    if state.sign
    then state
    else if any (cmd.line_octant) 0x04
    then (if any (cmd.line_octant) 0x02
        then line_decy state (cmd.cmod)
        else line_incy state (cmd.cmod))
    else if any (cmd.line_octant) 0x02
    then line_decx state
    else line_incx state

unfoldable pub advance_major : BlitterLineState → BlitCommand → BlitterLineState
advance_major state cmd =
    if any (cmd.line_octant) 0x04
    then (if any (cmd.line_octant) 0x01 then line_decx state else line_incx state)
    else if any (cmd.line_octant) 0x01
    then line_decy state (cmd.cmod)
    else line_incy state (cmd.cmod)

unfoldable pub line_advance : BlitterLineState → BlitCommand → BlitterLineState
line_advance state cmd =
    let moved = advance_major (advance_minor (advance_error state cmd) cmd) cmd in
    record moved { sign = leb (2 ^ 15) (moved.error) }

unfoldable pub line_state_init : BlitterState → BlitterState
line_state_init b = if b.line_state.initialized then b else (record b {
  line_state = record {
    error = bit_and (b.cmd.apt) 0xffff;
    pattern = line_rotate_pattern (b.cmd.bdat) (b.cmd.bshift);
    cpt = chip_addr (b.cmd.cpt);
    step_index = 0;
    x_shift = bit_and (b.cmd.line_start_bit) 0x0f;
    one_dot_count = 0;
    last_cdat = b.cmd.cdat;
    last_ddat = 0;
    zero_flag = true;
    sign = b.cmd.line_initial_sign;
    initialized = true;
    pixel_slot_phase = 0;
  };
})

unfoldable pub line_publish_partial_result : BlitterState → BlitterState
line_publish_partial_result b = record b {
  result = record {
    final_apt = bit_or (bit_and (b.cmd.apt) 0xffff0000) (b.line_state.error);
    final_bpt = b.cmd.bpt;
    final_cpt = b.line_state.cpt;
    final_dpt = b.line_state.cpt;
    final_adat = b.cmd.adat;
    final_bdat = b.cmd.bdat;
    final_cdat = b.line_state.last_cdat;
    final_ddat = b.line_state.last_ddat;
    final_bhold = b.cmd.bhold;
    zero_flag = b.line_state.zero_flag;
  };
}

unfoldable pub is_line : BlitterMode → Bool
is_line BlitterMode.copy = false
is_line BlitterMode.line = true

-- The state after the pixel `dval` computed from the word `cval`.
unfoldable pub line_pixel_done : BlitterState → ℕ → ℕ → BlitterState
line_pixel_done b cval dval =
    let state = b.line_state in
    let counted = record state {
      last_cdat = cval;
      zero_flag = if dval == 0 then state.zero_flag else false;
      last_ddat = dval;
      step_index = u16 (state.step_index + 1);
      one_dot_count = u8 (state.one_dot_count + 1);
    } in
    let moved = line_advance counted (b.cmd) in
    line_publish_partial_result (record b {
      line_state = record moved {
        pattern = u16 (bit_or (moved.pattern <<< 1) (moved.pattern >>> 15));
      };
    })

module _ {ℓ} {W : Type ℓ} where
  -- The pixel at the current position: the words C and D, and the memory after it.
  unfoldable pub line_pixel : BlitCommand → BlitterLineState → BlitterMemory W → W → ℕ × ℕ × W
  line_pixel cmd state mem w =
      let cval = if cmd.use_c then chip_read16 mem w (state.cpt) else cmd.cdat in
      let ahold = u16 (bit_and (cmd.adat) (cmd.afwm) >>> state.x_shift) in
      let bhold = if any (state.pattern) 1 then 0xffff else 0 in
      let dval = line_blitter_logic (cmd.minterm) ahold bhold cval in
      let write_pixel = not (cmd.line_single_dot) || state.one_dot_count == 0 in
      (cval, dval, (if cmd.use_c && write_pixel then chip_write16 mem w (state.cpt) dval else w))

  unfoldable pub blitter_line_step : BlitterMemory W → BlitterState × W → BlitterState × W
  blitter_line_step mem (b, w) =
      let started = line_state_init b in
      let (cval, dval, written) = line_pixel (b.cmd) (started.line_state) mem w in
      if not (is_line (b.cmd.mode))
      then (b, w)
      else if leb (b.cmd.height_lines) (started.line_state.step_index)
      then (started, w)
      else (line_pixel_done started cval dval, written)

unfoldable pub blitter_line_done : BlitterState → Bool
blitter_line_done b =
    not (is_line (b.cmd.mode))
    || b.line_state.initialized && leb (b.cmd.height_lines) (b.line_state.step_index)
