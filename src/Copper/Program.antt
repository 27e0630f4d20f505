-- ===== src/Copper/Program.antt =====
-- The registers of the copper and its program (src/chipset/agnus/copper/copper_regs.c, copper_exec.c
-- and copper_service.c). Logging has no counterpart.
use rigel.Prelude.{
  ℕ, ◌+◌, bit_and, Bool, true, false, not, ◌&&◌, ◌||◌, any, ltb, ◌==◌, u16, u32, ◌>>>◌,
  if◌then◌else◌,
}
use rigel.Beam.{BeamState}
use rigel.Copper.{
  CopperState, copper_beam_cmp, copper_set_pointer_hi, copper_set_pointer_lo, copper_wait_arm,
  jump1, jump2,
}

abbrev pub reg_copcon : ℕ
reg_copcon = 0x02e

abbrev pub reg_cop1lch : ℕ
reg_cop1lch = 0x080

abbrev pub reg_cop1lcl : ℕ
reg_cop1lcl = 0x082

abbrev pub reg_cop2lch : ℕ
reg_cop2lch = 0x084

abbrev pub reg_cop2lcl : ℕ
reg_cop2lcl = 0x086

abbrev pub reg_copjmp1 : ℕ
reg_copjmp1 = 0x088

abbrev pub reg_copjmp2 : ℕ
reg_copjmp2 = 0x08a

unfoldable pub copper_owns_reg : ℕ → Bool
copper_owns_reg addr =
    addr == reg_copcon
    || addr == reg_cop1lch
    || addr == reg_cop1lcl
    || addr == reg_cop2lch
    || addr == reg_cop2lcl
    || addr == reg_copjmp1
    || addr == reg_copjmp2

-- The part of the machine outside the copper that its program meets: the beam, the words of chip
-- RAM (0 where none is attached), the copy of every register in `custom_regs`, a write to a register
-- of another part, and the flag `RIGEL_FRAME_COPPER_ACTIVE` of the frame.
pub record Outside (R : Type 0) : Type 0 where
  pub beam : R → BeamState
  pub fetch16 : R → ℕ → ℕ
  pub custom_reg : R → ℕ → ℕ
  pub set_custom_reg : R → ℕ → ℕ → R
  pub write16 : R → ℕ → ℕ → R
  pub mark_active : R → R

pub record Machine (R : Type 0) : Type 0 where
  pub copper : CopperState
  pub rest : R

-- The switch of `rigel_copper_regs_write`.
unfoldable pub store_reg : CopperState → ℕ → ℕ → CopperState
unfolding copper_set_pointer_hi copper_set_pointer_lo jump1 jump2
store_reg copper addr value =
    if addr == reg_copcon
    then record copper { copcon = value }
    else if addr == reg_cop1lch
    then record copper { cop1lc = copper_set_pointer_hi copper.cop1lc value }
    else if addr == reg_cop1lcl
    then record copper { cop1lc = copper_set_pointer_lo copper.cop1lc value }
    else if addr == reg_cop2lch
    then record copper { cop2lc = copper_set_pointer_hi copper.cop2lc value }
    else if addr == reg_cop2lcl
    then record copper { cop2lc = copper_set_pointer_lo copper.cop2lc value }
    else if addr == reg_copjmp1
    then jump1 copper
    else if addr == reg_copjmp2
    then jump2 copper
    else copper

unfoldable pub copper_exec_skip_test : ℕ → ℕ → ℕ → ℕ → Bool
unfolding copper_beam_cmp
copper_exec_skip_test ir1 ir2 hpos vpos =
    let tgt_vpos = bit_and (ir1 >>> 8) 0xff in
    let tgt_hpos = bit_and ir1 0xfe in
    let vpmask = bit_and (ir2 >>> 8) 0xff in
    let hpmask = bit_and ir2 0xfe in copper_beam_cmp vpos hpos tgt_vpos tgt_hpos vpmask hpmask

module _ {R : Type 0} (o : Outside R) where
  unfoldable pub copper_regs_read : Machine R → ℕ → ℕ
  copper_regs_read m addr =
      if addr == reg_cop1lch
      then u16 (m.copper.cop1lc >>> 16)
      else if addr == reg_cop1lcl
      then u16 (bit_and m.copper.cop1lc 0xffff)
      else if addr == reg_cop2lch
      then u16 (m.copper.cop2lc >>> 16)
      else if addr == reg_cop2lcl
      then u16 (bit_and m.copper.cop2lc 0xffff)
      else o.custom_reg m.rest addr

  unfoldable pub copper_regs_write : Machine R → ℕ → ℕ → Machine R
  unfolding store_reg
  copper_regs_write m addr value = record {
    copper = store_reg m.copper addr value;
    rest = o.set_custom_reg m.rest addr value;
  }

  -- `custom_regs_write16` at an even address up to 0x1fe, as far as the copper's registers go.
  unfoldable pub custom_regs_write16 : Machine R → ℕ → ℕ → Machine R
  unfolding copper_owns_reg copper_regs_write
  custom_regs_write16 m addr value =
      if copper_owns_reg addr
      then copper_regs_write m addr value
      else record m { rest = o.write16 m.rest addr value }

  unfoldable pub copper_exec_move : Machine R → ℕ → ℕ → Machine R
  unfolding custom_regs_write16
  copper_exec_move m ir1 ir2 =
      let reg = bit_and ir1 0x01fe in
      let cdang = any m.copper.copcon 0x0002 in
      if (not cdang && ltb reg 0x80) || (cdang && ltb reg 0x40)
      then record m {
        copper = record (m.copper) {
          waiting = false;
          fetch_pending = false;
          stopped_until_vbl = true;
        };
      }
      else custom_regs_write16 (record m { rest = o.mark_active m.rest }) reg ir2

  -- The end of `rigel_copper_service_step_program`, after the MOVE.
  unfoldable pub after_move : ℕ → Machine R → Machine R
  after_move pc_before m =
      let pc =
        if m.copper.program_counter == pc_before
        then u32 (m.copper.program_counter + 4)
        else m.copper.program_counter in
      if m.copper.stopped_until_vbl then m else record m {
        copper = record (m.copper) {
          program_counter = pc;
          triggered = true;
          event_latched = true;
          fetch_pending = true;
        };
      }

  unfoldable pub service_step_program : Machine R → Machine R
  unfolding copper_exec_skip_test copper_wait_arm copper_exec_move after_move
  service_step_program m =
      let copper = m.copper in
      let ir1 = o.fetch16 m.rest copper.program_counter in
      let ir2 = o.fetch16 m.rest (u32 (copper.program_counter + 2)) in
      let beam = o.beam m.rest in
      let fetched = record copper { fetch_pending = false } in
      let skip = copper_exec_skip_test ir1 ir2 beam.hpos beam.vpos in
      if copper.stopped_until_vbl
      then m
      else if not copper.enabled || not copper.fetch_pending
      then m
      else if any ir1 1
      then if any ir2 1
        then record m {
          copper = record fetched {
            program_counter = u32 (copper.program_counter + (if skip then 8 else 4));
            fetch_pending = true;
          };
        }
        else record m { copper = copper_wait_arm fetched ir1 ir2 }
      else after_move copper.program_counter
          (copper_exec_move (record m { copper = fetched }) ir1 ir2)
