-- ===== src/Blitter/Slots/Cadence.antt =====
-- How many slots a line takes, and what it has drawn before the last of them.
use rigel.Prelude.{
  ℕ, zero, suc, ◌+◌, ◌-◌, ◌*◌, ◌/◌, ◌<◌, ◌≤◌, ◌^◌, ◌≡◌, refl, leb, Bool, true, false, arith, inl,
  inr, Bool-cases, ◌&&◌, ◌==◌, none, some, if◌then◌else◌,
}
use rigel.Blitter.{
  BlitterRegs, BlitCommand, BlitterResult, BlitterState, BlitterMemory, BlitterIrqSink,
  BlitterExecState,
}
use rigel.Blitter.Line.{blitter_line_step, blitter_line_done, is_line}
use rigel.Blitter.Reference.{LineLocals, line_body, line_loop, line_result}
use rigel.Blitter.Slots.{
  count_slot, set_phase, line_slots, finish, blitter_publish_result, blitter_force_finish,
}
use rigel.Blitter.Slots.Lines.{
  IsKept, IsAt, not_done, counted, counted-IsKept, step-IsKept, slot_step,
}

-- The slots that `m` pixels take after the phase `p`, and the pixels that `n` slots draw.
abbrev pub slots_left : Bool → ℕ → ℕ → ℕ
slots_left exact m p = if exact then 2 * m - p else m

abbrev pub pixels : Bool → ℕ → ℕ → ℕ
pixels exact n p = if exact then (n + p) / 2 else n

-- The registers with a result published in them.
unfoldable pub published : BlitterRegs → BlitterResult → BlitterRegs
published r result = record r {
  bltapt = result.final_apt;
  bltbpt = result.final_bpt;
  bltcpt = result.final_cpt;
  bltdpt = result.final_dpt;
  bltadat = result.final_adat;
  bltbdat = result.final_bdat;
  bltcdat = result.final_cdat;
  bltddat = result.final_ddat;
  bltbhold = result.final_bhold;
}

-- The world after the interrupt of the blitter.
unfoldable pub interrupted {ℓ} : {W : Type ℓ} → BlitterIrqSink W → W → W
interrupted irq w = elim (irq.raise) [ none ↦ w | some raise ↦ raise w 0x8040 ]

-- The blit is over: its result is in the registers, and the interrupt is raised in the world `w`.
pub record IsOver {ℓ} {W : Type ℓ} (irq : BlitterIrqSink W) (t : BlitterState × W) (r : BlitterRegs)
    (result : BlitterResult) (w : W) : Type ℓ where
  pub not_busy : t.0.busy ≡ false
  pub is_idle : t.0.exec_state ≡ BlitterExecState.idle
  pub no_cycles : t.0.cycles_remaining ≡ 0
  pub regs_eq : t.0.regs ≡ published r result
  pub world_eq : t.1 ≡ interrupted irq w

finish_fields {ℓ} :
    {W : Type ℓ} (irq : BlitterIrqSink W) (b : BlitterState) (w : W)
    → let t = finish irq (b, w) in
      (t.0.busy ≡ false)
      × (t.0.exec_state ≡ BlitterExecState.idle)
      × (t.0.cycles_remaining ≡ 0)
      × (t.0.regs ≡ published (b.regs) (b.result))
      × (t.1 ≡ interrupted irq w)
unfolding blitter_force_finish blitter_publish_result published interrupted
finish_fields irq b w = ground arith

pub finish-IsOver {ℓ} :
    {W : Type ℓ} (irq : BlitterIrqSink W) (b : BlitterState) (w w' : W) (r : BlitterRegs)
    (result : BlitterResult)
    → b.regs ≡ r
    → b.result ≡ result
    → w ≡ w'
    → IsOver irq (finish irq (b, w)) r result w'
finish-IsOver irq b w w' r result e q f =
    let (f1, f2, f3, f4, f5) = finish_fields irq b w in
    rw (← e, ← q, ← f)
      (record { not_busy = f1; is_idle = f2; no_cycles = f3; regs_eq = f4; world_eq = f5 })

module _ {ℓ} {W : Type ℓ} (mem : BlitterMemory W) (irq : BlitterIrqSink W) where
  read_slot :
      (n : ℕ) (b : BlitterState) (w : W)
      → blitter_line_done b ≡ false
      → (b.cycle_exact && b.line_state.pixel_slot_phase == 0) ≡ true
      → line_slots mem irq (suc n) (b, w) ≡ line_slots mem irq n (set_phase (count_slot b) 1, w)
  unfolding line_slots
  read_slot n b w h f = rw (h, f) refl

  pixel_slot :
      (n : ℕ) (b : BlitterState) (w : W)
      → blitter_line_done b ≡ false
      → (b.cycle_exact && b.line_state.pixel_slot_phase == 0) ≡ false
      → let t = blitter_line_step mem (set_phase (count_slot b) 0, w) in
        line_slots mem irq (suc n) (b, w)
        ≡ (if blitter_line_done (t.0) then finish irq t else line_slots mem irq n t)
  unfolding line_slots
  pixel_slot n b w h f = rw (h, f) refl

  pub slots_run :
      (n m k p : ℕ) (b : BlitterState) (w w' : W) (cmd : BlitCommand) (v : LineLocals)
      (r : BlitterRegs) (exact : Bool)
      → w ≡ w'
      → IsAt b cmd v k
      → IsKept b r exact p
      → p < 2
      → is_line (cmd.mode) ≡ true
      → 0 < m
      → k + m ≡ cmd.height_lines
      → cmd.height_lines < 2 ^ 16
      → let t = line_slots mem irq n (b, w) in
        let u = line_loop cmd mem m (v, w') in
        (n < slots_left exact m p
          → (t.0.busy ≡ true) × (t.1 ≡ (line_loop cmd mem (pixels exact n p) (v, w')).1))
        × (slots_left exact m p ≤ n → IsOver irq t r (line_result cmd (u.0)) (u.1))
  unfolding line_slots line_loop
  slots_run zero m k p b w w' cmd v r exact q i j hp ml pos e hb =
      let z : pixels exact 0 p ≡ 0 = ground arith in
      ((λ lt. (j.is_busy, rw z q)), (λ le. absurd (ground arith)))
  slots_run (suc n) zero k p b w w' cmd v r exact q i j hp ml pos e hb = absurd (omega arith)
  slots_run (suc n) (suc m) k p b w w' cmd v r exact q i j hp ml pos e hb =
      let h = not_done b cmd v k i ml (omega arith) in
      elim (Bool-cases (exact && p == 0)) [
        | inl f ↦
            let g : (b.cycle_exact && b.line_state.pixel_slot_phase == 0) ≡ true =
              rw (j.exact_eq, j.phase_eq) f in
            let (x, y) =
              slots_run n (suc m) k 1 (set_phase (count_slot b) 1) w w' cmd v r exact q
                (counted b cmd v k 1 i) (counted-IsKept b r exact p 1 j) (omega arith) ml pos e
                hb in
            let px : pixels exact (suc n) p ≡ pixels exact n 1 = ground arith in
            rw (read_slot n b w h g) ((λ lt. rw px (x (ground arith))), (λ le. y (ground arith)))
        | inr f ↦
            let g : (b.cycle_exact && b.line_state.pixel_slot_phase == 0) ≡ false =
              rw (j.exact_eq, j.phase_eq) f in
            let s = set_phase (count_slot b) 0 in
            let t = blitter_line_step mem (s, w) in
            let u = line_body cmd mem (v, w') in
            let (i', d, rs, f') =
              slot_step mem s w w' cmd v k q (counted b cmd v k 0 i) ml (omega arith) hb in
            let j' = step-IsKept mem s w r exact (counted-IsKept b r exact p 0 j) in
            let px : pixels exact (suc n) p ≡ suc (pixels exact n 0) = ground arith in
            rw (pixel_slot n b w h g, d)
              (elim (Bool-cases (leb (cmd.height_lines) (suc k))) [
                | inl c ↦
                    let last : m ≡ 0 = ground arith in
                    rw (c, last)
                      (
                        (λ lt. absurd (ground arith)),
                        (λ le.
                            finish-IsOver irq (t.0) (t.1) (u.1) r (line_result cmd (u.0))
                              (j'.regs_eq) rs f'),
                      )
                | inr c ↦
                    let (x, y) =
                      slots_run n m (suc k) 0 (t.0) (t.1) (u.1) cmd (u.0) r exact f' i' j'
                        (omega arith) ml (ground arith) (omega arith) hb in
                    rw (c, px) ((λ lt. x (ground arith)), (λ le. y (ground arith)))
              ])
      ]
