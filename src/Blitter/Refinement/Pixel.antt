-- ===== src/Blitter/Refinement/Pixel.antt =====
-- The pixel of a step is that of the loop's body.
use rigel.Prelude.{ℕ, ◌+◌, ◌<◌, ◌^◌, ◌≡◌, refl, leb, true, u16, arith}
use rigel.Blitter.{BlitterLineState, BlitCommand, BlitterState, BlitterMemory}
use rigel.Blitter.Line.{
  line_incx, line_decx, line_incy, line_decy, advance_error, advance_minor, advance_major,
  line_advance, line_state_init, line_publish_partial_result, line_pixel, line_pixel_done,
  blitter_line_step, is_line, line_blitter_logic,
}
use rigel.Blitter.Logic.{blitter_logic}
use rigel.Blitter.Reference.{LineLocals, minor_step, major_step, line_body, line_result}

-- The variables a step moves, and a state with others.
abbrev pub position : BlitterLineState → ℕ × ℕ × ℕ
position s = (s.x_shift, s.cpt, s.one_dot_count)

abbrev pub place : BlitterLineState → ℕ × ℕ × ℕ → BlitterLineState
place s (x, c, d) = record s { x_shift = x; cpt = c; one_dot_count = d }

-- The variables of the loop that a state of the line stands for.
abbrev pub locals_of : BlitterLineState → LineLocals
locals_of s = record {
  error = s.error;
  x_shift = s.x_shift;
  one_dot_count = s.one_dot_count;
  pattern = s.pattern;
  cpt = s.cpt;
  zero_flag = s.zero_flag;
  sign = s.sign;
  last_cdat = s.last_cdat;
  final_ddat = s.last_ddat;
}

minor-place :
    (s : BlitterLineState) (cmd : BlitCommand)
    → advance_minor s cmd ≡ place s (minor_step cmd (s.sign) (position s))
unfolding advance_minor minor_step line_incx line_decx line_incy line_decy
minor-place s cmd = ground arith

major-place :
    (s : BlitterLineState) (cmd : BlitCommand)
    → advance_major s cmd ≡ place s (major_step cmd (position s))
unfolding advance_major major_step line_incx line_decx line_incy line_decy
major-place s cmd = ground arith

pub advance_lem :
    (s : BlitterLineState) (cmd : BlitCommand)
    → let e = (advance_error s cmd).error in
      let p = major_step cmd (minor_step cmd (s.sign) (position s)) in
      line_advance s cmd ≡ (record (place s p) { error = e; sign = leb (2 ^ 15) e })
unfolding line_advance
advance_lem s cmd =
    rw
      (
        major-place (advance_minor (advance_error s cmd) cmd) cmd,
        minor-place (advance_error s cmd) cmd,
      )
      (unfold advance_error in ground arith)

-- `b` is drawing the line: its result is that of the pixels drawn.
pub record IsDrawn (b : BlitterState) (cmd : BlitCommand) (v : LineLocals) (k : ℕ) : Type 0 where
  pub cmd_eq : b.cmd ≡ cmd
  pub begun : b.line_state.initialized ≡ true
  pub index : b.line_state.step_index ≡ k
  pub variables : locals_of (b.line_state) ≡ v

logic_again : (m x y z : ℕ) → line_blitter_logic m x y z ≡ blitter_logic m x y z
unfolding line_blitter_logic blitter_logic
logic_again m x y z = refl

pub pixel_fields :
    (b : BlitterState) (cval dval : ℕ)
    → let t = line_pixel_done b cval dval in
      (t.cmd ≡ b.cmd)
      × (t.line_state.initialized ≡ b.line_state.initialized)
      × (t.line_state.step_index ≡ u16 (b.line_state.step_index + 1))
      × (t.result ≡ line_result (b.cmd) (locals_of (t.line_state)))
unfolding line_pixel_done line_publish_partial_result line_result
pixel_fields b cval dval = rw advance_lem (ground arith)

pub pixel_kept :
    (b : BlitterState) (cval dval : ℕ)
    → let t = line_pixel_done b cval dval in
      (t.regs ≡ b.regs)
      × (t.busy ≡ b.busy)
      × (t.cycle_exact ≡ b.cycle_exact)
      × (t.line_state.pixel_slot_phase ≡ b.line_state.pixel_slot_phase)
unfolding line_pixel_done line_publish_partial_result
pixel_kept b cval dval = rw advance_lem (ground arith)

module _ {ℓ} {W : Type ℓ} (mem : BlitterMemory W) where
  -- The pixel of a state, as the loop's body computes it.
  pub pixel_body :
      (b : BlitterState) (w : W)
      → let s = b.line_state in
        let (cval, dval, written) = line_pixel (b.cmd) s mem w in
        (locals_of ((line_pixel_done b cval dval).line_state), written)
        ≡ line_body (b.cmd) mem (locals_of s, w)
  unfolding line_pixel line_pixel_done line_body line_publish_partial_result
  pixel_body b w = rw (advance_lem, logic_again) (unfold advance_error in ground arith)

  -- A step of a line that has begun draws the pixel and counts it.
  pub step_eq :
      (b : BlitterState) (w : W)
      → b.line_state.initialized ≡ true
      → is_line (b.cmd.mode) ≡ true
      → b.line_state.step_index < b.cmd.height_lines
      → let (cval, dval, written) = line_pixel (b.cmd) (b.line_state) mem w in
        blitter_line_step mem (b, w) ≡ (line_pixel_done b cval dval, written)
  unfolding blitter_line_step line_state_init
  step_eq b w i m lt = ground arith
