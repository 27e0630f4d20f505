-- ===== src/Blitter/Refinement.antt =====
-- A line drawn pixel by pixel is the line drawn at once.
pub mod Pixel
use rigel.Prelude.{
  ℕ, zero, suc, ◌+◌, ◌-◌, ◌<◌, ◌≤◌, ◌^◌, ◌≡◌, refl, ap, leb, Bool, true, false, u16, arith, not,
  ◌∙◌, sym,
}
use rigel.Blitter.{
  BlitterLineState, BlitCommand, BlitterResult, BlitterState, BlitterMode, BlitterMemory,
}
use rigel.Blitter.Line.{
  line_incx, line_decx, line_incy, line_decy, advance_error, advance_minor, advance_major,
  line_advance, line_state_init, line_rotate_pattern, line_publish_partial_result, line_pixel,
  line_pixel_done, blitter_line_step, blitter_line_done, is_line, line_blitter_logic,
}
use rigel.Blitter.Logic.{blitter_logic}
use rigel.Blitter.Reference.{
  LineLocals, minor_step, major_step, line_body, line_loop, line_locals, line_result,
  execute_line_mode,
}
use rigel.Blitter.Refinement.Pixel.{locals_of, IsDrawn, pixel_body, step_eq, pixel_fields}

pub init_IsDrawn :
    (b : BlitterState)
    → b.line_state.initialized ≡ false
    → IsDrawn (line_state_init b) (b.cmd) (line_locals (b.cmd)) 0
unfolding line_state_init line_locals line_rotate_pattern
init_IsDrawn b h = rw h (record { cmd_eq = refl; begun = refl; index = refl; variables = refl })

pub drawn_done :
    (b : BlitterState) (cmd : BlitCommand) (v : LineLocals) (k : ℕ)
    → IsDrawn b cmd v k
    → is_line (cmd.mode) ≡ true
    → blitter_line_done b ≡ leb (cmd.height_lines) k
unfolding blitter_line_done
drawn_done b cmd v k i m = rw (i.cmd_eq, i.begun, i.index, m) refl

module _ {ℓ} {W : Type ℓ} (mem : BlitterMemory W) where
  pub IsDrawn-step :
      (b : BlitterState) (w w' : W) (cmd : BlitCommand) (v : LineLocals) (k : ℕ)
      → w ≡ w'
      → IsDrawn b cmd v k
      → is_line (cmd.mode) ≡ true
      → k < cmd.height_lines
      → cmd.height_lines < 2 ^ 16
      → let t = blitter_line_step mem (b, w) in
        let u = line_body cmd mem (v, w') in
        IsDrawn (t.0) cmd (u.0) (suc k) × (t.0.result ≡ line_result cmd (u.0)) × (t.1 ≡ u.1)
  IsDrawn-step b w w' cmd v k q i m lt hb =
      let (cval, dval, written) = line_pixel (b.cmd) (b.line_state) mem w in
      let e = step_eq mem b w (i.begun) (rw (i.cmd_eq) m) (rw (i.cmd_eq, i.index) lt) in
      let body = pixel_body mem b w in
      let (f1, f2, f3, f4) = pixel_fields b cval dval in
      rw (← q, e, ← i.cmd_eq, ← i.variables, ← body)
        (
          (record {
            cmd_eq = f1;
            begun = f2 ∙ i.begun;
            index = f3 ∙ (omega (arith, i.index));
            variables = refl;
          }),
          f4,
          refl,
        )

  -- `n` steps one after another.
  unfoldable pub line_steps : ℕ → BlitterState × W → BlitterState × W
  line_steps zero s = s
  line_steps (suc n) s = line_steps n (blitter_line_step mem s)

  IsDrawn-steps :
      (n : ℕ) (b : BlitterState) (w w' : W) (cmd : BlitCommand) (v : LineLocals) (k : ℕ)
      → w ≡ w'
      → IsDrawn b cmd v k
      → b.result ≡ line_result cmd v
      → is_line (cmd.mode) ≡ true
      → k + n ≡ cmd.height_lines
      → cmd.height_lines < 2 ^ 16
      → let t = line_steps n (b, w) in
        let u = line_loop cmd mem n (v, w') in
        IsDrawn (t.0) cmd (u.0) (cmd.height_lines)
        × (t.0.result ≡ line_result cmd (u.0))
        × (t.1 ≡ u.1)
  unfolding line_steps line_loop
  IsDrawn-steps zero b w w' cmd v k q i r m e hb = (
    (record {
      cmd_eq = i.cmd_eq;
      begun = i.begun;
      index = i.index ∙ (omega (arith, e));
      variables = i.variables;
    }),
    r,
    q,
  )
  IsDrawn-steps (suc n) b w w' cmd v k q i r m e hb =
      let t = blitter_line_step mem (b, w) in
      let u = line_body cmd mem (v, w') in
      let (j, p, f) = IsDrawn-step b w w' cmd v k q i m (omega arith) hb in
      IsDrawn-steps n (t.0) (t.1) (u.1) cmd (u.0) (suc k) f j p m (omega arith) hb

  pub init_again :
      (b : BlitterState) (w : W)
      → is_line (b.cmd.mode) ≡ true
      → blitter_line_step mem (b, w) ≡ blitter_line_step mem (line_state_init b, w)
  unfolding blitter_line_step line_state_init
  init_again b w m = ground arith

  -- The first step of a line, which also sets it up.
  pub first_step :
      (b : BlitterState) (w : W)
      → b.line_state.initialized ≡ false
      → is_line (b.cmd.mode) ≡ true
      → 0 < b.cmd.height_lines
      → b.cmd.height_lines < 2 ^ 16
      → let t = blitter_line_step mem (b, w) in
        let u = line_body (b.cmd) mem (line_locals (b.cmd), w) in
        IsDrawn (t.0) (b.cmd) (u.0) 1 × (t.0.result ≡ line_result (b.cmd) (u.0)) × (t.1 ≡ u.1)
  first_step b w i m pos hb = rw (init_again b w m) (
      IsDrawn-step (line_state_init b) w w (b.cmd) (line_locals (b.cmd)) 0 refl (init_IsDrawn b i) m
        pos hb)

  IsDrawn-all :
      (n : ℕ) (b : BlitterState) (w : W)
      → n ≡ b.cmd.height_lines
      → 0 < n
      → b.line_state.initialized ≡ false
      → is_line (b.cmd.mode) ≡ true
      → b.cmd.height_lines < 2 ^ 16
      → let t = line_steps n (b, w) in
        let u = line_loop (b.cmd) mem n (line_locals (b.cmd), w) in
        IsDrawn (t.0) (b.cmd) (u.0) (b.cmd.height_lines)
        × (t.0.result ≡ line_result (b.cmd) (u.0))
        × (t.1 ≡ u.1)
  unfolding line_steps line_loop
  IsDrawn-all zero b w e pos i m hb = absurd (omega arith)
  IsDrawn-all (suc n) b w e pos i m hb =
      let t = blitter_line_step mem (b, w) in
      let u = line_body (b.cmd) mem (line_locals (b.cmd), w) in
      let (j, p, f) = first_step b w i m (omega arith) hb in
      IsDrawn-steps n (t.0) (t.1) (u.1) (b.cmd) (u.0) 1 f j p m (omega arith) hb

  pub executed :
      (b : BlitterState) (w : W)
      → 0 < b.cmd.height_lines
      → let u = line_loop (b.cmd) mem (b.cmd.height_lines) (line_locals (b.cmd), w) in
        let r = execute_line_mode mem (b, w) in
        (r.0.result ≡ line_result (b.cmd) (u.0)) × (r.1 ≡ u.1)
  unfolding execute_line_mode
  executed b w pos = ground arith

  -- As many steps as the line has pixels, 1 to 65535 of them, from a state of line mode whose line has
  -- not begun: they leave the result and the memory that the execution at once leaves, and the line
  -- is then done.
  pub steps-executes :
      (b : BlitterState) (w : W)
      → b.line_state.initialized ≡ false
      → is_line (b.cmd.mode) ≡ true
      → 0 < b.cmd.height_lines
      → b.cmd.height_lines < 2 ^ 16
      → let t = line_steps (b.cmd.height_lines) (b, w) in
        let r = execute_line_mode mem (b, w) in
        (t.0.result ≡ r.0.result) × (t.1 ≡ r.1) × (blitter_line_done (t.0) ≡ true)
  steps-executes b w i m pos hb =
      let h = b.cmd.height_lines in
      let u = line_loop (b.cmd) mem h (line_locals (b.cmd), w) in
      let (j, p, f) = IsDrawn-all h b w refl pos i m hb in
      let (q, g) = executed b w pos in
      (
        p ∙ sym q,
        f ∙ sym g,
        drawn_done ((line_steps h (b, w)).0) (b.cmd) (u.0) h j m ∙ (ground arith),
      )
