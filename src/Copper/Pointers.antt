-- ===== src/Copper/Pointers.antt =====
-- The copper's list pointers, written half by half and used at the start of a frame.
use rigel.Prelude.{
  ℕ, ◌+◌, ◌-◌, ◌*◌, ◌/◌, ◌%◌, ◌^◌, ◌<◌, ◌≡◌, refl, ap, ◌∙◌, arith, bit_and, true, false, not, ◌==◌,
  u32, ◌<<<◌,
}
use native.Mathlib.Decide.{dec_lt}
use rigel.Prelude.Bits.{testbit, testbit-and, bits_ext, bit_and-lt}
use rigel.Prelude.Shifts.{testbit_shl, testbit_shr, ones_test, bit_and_mask, shift_or, or_shift}
use rigel.Copper.{
  CopperState, copper_set_pointer_hi, copper_set_pointer_lo, copper_vbl_reload, jump1,
}
use rigel.Copper.Program.{Outside, Machine, copper_regs_read, copper_regs_write, store_reg}

high_mask : (x : ℕ) → x < 2 ^ 32 → bit_and x 0xffff0000 ≡ x / 2 ^ 16 * 2 ^ 16
high_mask x h =
    bits_ext 32 (bit_and x 0xffff0000) (x / 2 ^ 16 * 2 ^ 16) (bit_and-lt 32 x 0xffff0000 h)
      (omega (arith, h))
      (λ i lt. elim (dec_lt i 16) [
        | yes low ↦ ground (
          arith,
          testbit-and x 0xffff0000 i,
          testbit_shl 0xffff 16 i,
          testbit_shl (x / 2 ^ 16) 16 i,
        )
        | no high ↦
            let e : 16 + (i - 16) ≡ i = omega arith in
            ground (
              arith,
              testbit-and x 0xffff0000 i,
              testbit_shl 0xffff 16 i,
              ones_test 16 (i - 16),
              testbit_shl (x / 2 ^ 16) 16 i,
              testbit_shr x 16 (i - 16),
              ap (testbit x) e,
            )
      ])

set_hi_lem : (ptr v : ℕ) → v < 2 ^ 16 → copper_set_pointer_hi ptr v ≡ ptr % 2 ^ 16 + v * 2 ^ 16
unfolding copper_set_pointer_hi
set_hi_lem ptr v h =
    let e : u32 (v <<< 16) ≡ v * 2 ^ 16 = omega arith in
    rw (e, bit_and_mask 16 ptr) (or_shift 16 (ptr % 2 ^ 16) v (omega arith))

set_lo_lem :
    (ptr v : ℕ)
    → ptr < 2 ^ 32
    → v < 2 ^ 16
    → copper_set_pointer_lo ptr v ≡ ptr / 2 ^ 16 * 2 ^ 16 + v
unfolding copper_set_pointer_lo
set_lo_lem ptr v h k = rw (high_mask ptr h) (shift_or 16 v (ptr / 2 ^ 16) k)

-- In no WAIT, and without the marks of one that is over.
abbrev pub IsReleased : CopperState → Type 0
IsReleased c = (c.waiting ≡ false) × (c.triggered ≡ false) × (c.event_latched ≡ false)

module _ {R : Type 0} (o : Outside R) where
  -- For a 32-bit COP1LC and two words written to COP1LCH and then to COP1LCL: the registers read the
  -- two words, and COP2LC and the program counter are left alone. A write to COPJMP1 then sets the
  -- program counter to the two words, ends a WAIT, clears the marks of one, and makes a fetch pending, but
  -- leaves a stopped copper stopped. The next frame sets the program counter to the two words, cut to an
  -- even address below 2 ^ 21, ends a WAIT and a stop, clears the marks, and makes a fetch pending
  -- exactly where that address is not 0.
  pub pointer_written :
      (m : Machine R) (hi lo value : ℕ)
      → m.copper.cop1lc < 2 ^ 32
      → hi < 2 ^ 16
      → lo < 2 ^ 16
      → let t = copper_regs_write o (copper_regs_write o m 0x80 hi) 0x82 lo in
        let ptr = hi * 2 ^ 16 + lo in
        let jumped = (copper_regs_write o t 0x88 value).copper in
        let frame = copper_vbl_reload t.copper in
        (copper_regs_read o t 0x80 ≡ hi)
        × (copper_regs_read o t 0x82 ≡ lo)
        × (t.copper.cop2lc ≡ m.copper.cop2lc)
        × (t.copper.program_counter ≡ m.copper.program_counter)
        × (jumped.program_counter ≡ ptr)
        × (jumped.fetch_pending ≡ true)
        × IsReleased jumped
        × (jumped.stopped_until_vbl ≡ m.copper.stopped_until_vbl)
        × (frame.program_counter ≡ bit_and ptr 0x1ffffe)
        × (frame.fetch_pending ≡ not (bit_and ptr 0x1ffffe == 0))
        × IsReleased frame
        × (frame.stopped_until_vbl ≡ false)
  unfolding copper_regs_write store_reg copper_regs_read copper_vbl_reload jump1
  pointer_written m hi lo value h k l =
      let up = copper_set_pointer_hi m.copper.cop1lc hi in
      let a = set_hi_lem m.copper.cop1lc hi k in
      let e : copper_set_pointer_lo up lo ≡ hi * 2 ^ 16 + lo =
        set_lo_lem up lo (omega (arith, a)) l ∙ (omega (arith, a)) in
      (
        ground (arith, e),
        ground (arith, e, bit_and_mask 16 (hi * 2 ^ 16 + lo)),
        refl,
        refl,
        e,
        refl,
        (refl, refl, refl),
        refl,
        rw e (ground arith),
        rw e (ground arith),
        ground arith,
        ground arith,
      )
