-- ===== src/Blitter/Slots/Lines.antt =====
-- A line in the slots granted to it.
use rigel.Prelude.{
  ℕ, suc, ◌<◌, ◌^◌, ◌≡◌, refl, leb, Bool, true, false, arith, not, ◌∙◌, sym, inl, inr, Bool-cases,
}
use mathlib.Core.Path.{subst}
use rigel.Blitter.{BlitterRegs, BlitCommand, BlitterState, BlitterMemory}
use rigel.Blitter.Line.{line_state_init, line_pixel, blitter_line_step, blitter_line_done, is_line}
use rigel.Blitter.Reference.{LineLocals, line_body, line_result}
use rigel.Blitter.Refinement.{IsDrawn-step, drawn_done, init_again}
use rigel.Blitter.Refinement.Pixel.{locals_of, IsDrawn, pixel_kept}
use rigel.Blitter.Slots.{count_slot, set_phase}

-- The fields that a step of a line leaves alone.
pub record IsKept (b : BlitterState) (r : BlitterRegs) (exact : Bool) (p : ℕ) : Type 0 where
  pub regs_eq : b.regs ≡ r
  pub is_busy : b.busy ≡ true
  pub exact_eq : b.cycle_exact ≡ exact
  pub phase_eq : b.line_state.pixel_slot_phase ≡ p

-- `k` pixels of the line are drawn, none of them where it has not begun.
abbrev pub IsAt : BlitterState → BlitCommand → LineLocals → ℕ → Type 0
IsAt b cmd v k = IsDrawn (line_state_init b) cmd v k

init_begun : (b : BlitterState) → b.line_state.initialized ≡ true → line_state_init b ≡ b
unfolding line_state_init
init_begun b e = rw e refl

init_cmd : (b : BlitterState) → (line_state_init b).cmd ≡ b.cmd
unfolding line_state_init
init_cmd b = ground arith

pub not_done :
    (b : BlitterState) (cmd : BlitCommand) (v : LineLocals) (k : ℕ)
    → IsAt b cmd v k
    → is_line (cmd.mode) ≡ true
    → k < cmd.height_lines
    → blitter_line_done b ≡ false
not_done b cmd v k i m lt = elim (Bool-cases (b.line_state.initialized)) [
  | inl e ↦
      drawn_done b cmd v k (subst (λ x. IsDrawn x cmd v k) (init_begun b e) i) m ∙ (ground arith)
  | inr e ↦ let c = sym (init_cmd b) ∙ i.cmd_eq in unfold blitter_line_done in rw (c, m, e) refl
]

counted_fields :
    (b : BlitterState) (q : ℕ)
    → let t = line_state_init (set_phase (count_slot b) q) in
      let s = line_state_init b in
      (t.cmd ≡ s.cmd)
      × (t.line_state.initialized ≡ s.line_state.initialized)
      × (t.line_state.step_index ≡ s.line_state.step_index)
      × (locals_of (t.line_state) ≡ locals_of (s.line_state))
unfolding line_state_init
counted_fields b q = ground arith

pub counted :
    (b : BlitterState) (cmd : BlitCommand) (v : LineLocals) (k q : ℕ)
    → IsAt b cmd v k
    → IsAt (set_phase (count_slot b) q) cmd v k
counted b cmd v k q i =
    let (f1, f2, f3, f4) = counted_fields b q in
    record {
      cmd_eq = f1 ∙ i.cmd_eq;
      begun = f2 ∙ i.begun;
      index = f3 ∙ i.index;
      variables = f4 ∙ i.variables;
    }

pub counted-IsKept :
    (b : BlitterState) (r : BlitterRegs) (exact : Bool) (p q : ℕ)
    → IsKept b r exact p
    → IsKept (set_phase (count_slot b) q) r exact q
counted-IsKept b r exact p q i = record {
  regs_eq = i.regs_eq;
  is_busy = i.is_busy;
  exact_eq = i.exact_eq;
  phase_eq = refl;
}

init_kept :
    (b : BlitterState)
    → b.line_state.pixel_slot_phase ≡ 0
    → let t = line_state_init b in
      (t.regs ≡ b.regs)
      × (t.busy ≡ b.busy)
      × (t.cycle_exact ≡ b.cycle_exact)
      × (t.line_state.pixel_slot_phase ≡ 0)
unfolding line_state_init
init_kept b h = ground arith

module _ {ℓ} {W : Type ℓ} (mem : BlitterMemory W) where
  pub step-IsKept :
      (b : BlitterState) (w : W) (r : BlitterRegs) (exact : Bool)
      → IsKept b r exact 0
      → IsKept ((blitter_line_step mem (b, w)).0) r exact 0
  unfolding blitter_line_step
  step-IsKept b w r exact i =
      let s = line_state_init b in
      let (cval, dval, written) = line_pixel (b.cmd) (s.line_state) mem w in
      let (f1, f2, f3, f4) = pixel_kept s cval dval in
      let (g1, g2, g3, g4) = init_kept b (i.phase_eq) in
      elim (Bool-cases (not (is_line (b.cmd.mode)))) [
        | inl e ↦ rw e i
        | inr e ↦ rw e (elim (Bool-cases (leb (b.cmd.height_lines) (s.line_state.step_index))) [
          | inl h ↦ rw h (record {
            regs_eq = g1 ∙ i.regs_eq;
            is_busy = g2 ∙ i.is_busy;
            exact_eq = g3 ∙ i.exact_eq;
            phase_eq = g4;
          })
          | inr h ↦ rw h (record {
            regs_eq = f1 ∙ g1 ∙ i.regs_eq;
            is_busy = f2 ∙ g2 ∙ i.is_busy;
            exact_eq = f3 ∙ g3 ∙ i.exact_eq;
            phase_eq = f4 ∙ g4;
          })
        ])
      ]

  pub slot_step :
      (b : BlitterState) (w w' : W) (cmd : BlitCommand) (v : LineLocals) (k : ℕ)
      → w ≡ w'
      → IsAt b cmd v k
      → is_line (cmd.mode) ≡ true
      → k < cmd.height_lines
      → cmd.height_lines < 2 ^ 16
      → let t = blitter_line_step mem (b, w) in
        let u = line_body cmd mem (v, w') in
        IsAt (t.0) cmd (u.0) (suc k)
        × (blitter_line_done (t.0) ≡ leb (cmd.height_lines) (suc k))
        × (t.0.result ≡ line_result cmd (u.0))
        × (t.1 ≡ u.1)
  slot_step b w w' cmd v k q i m lt hb =
      let t = blitter_line_step mem (b, w) in
      let u = line_body cmd mem (v, w') in
      let again = init_again mem b w (rw (sym (init_cmd b) ∙ i.cmd_eq) m) in
      let (j, p, f) = IsDrawn-step mem (line_state_init b) w w' cmd v k q i m lt hb in
      let t' = (blitter_line_step mem (line_state_init b, w)).0 in
      rw again (rw (init_begun t' (j.begun)) j, drawn_done t' cmd (u.0) (suc k) j m, p, f)
