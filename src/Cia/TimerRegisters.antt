-- ===== src/Cia/TimerRegisters.antt =====
-- The registers of the timers of a CIA (the register functions of src/cia/cia_timers.c). `none` is
-- the result 0, for a register of another part.
pub mod RoundTrip
use rigel.Prelude.{
  ℕ, bit_and, bit_or, any, ◌==◌, u8, u16, not8, ◌<<<◌, ◌>>>◌, if◌then◌else◌, Option, none, some,
}
use rigel.Cia.State.{
  CiaState, cra_start, cra_pbon, cra_runmode, cra_load, crb_start, crb_pbon, crb_runmode, crb_load,
  reg_talo, reg_tahi, reg_tblo, reg_tbhi, reg_cra, reg_crb,
}

unfoldable pub timers_read_reg : CiaState → ℕ → Option ℕ
timers_read_reg cia reg =
    let r = bit_and reg 0x0f in
    if r == reg_talo
    then some (u8 (bit_and cia.ta_counter 0x00ff))
    else if r == reg_tahi
    then some (u8 (bit_and (cia.ta_counter >>> 8) 0x00ff))
    else if r == reg_tblo
    then some (u8 (bit_and cia.tb_counter 0x00ff))
    else if r == reg_tbhi
    then some (u8 (bit_and (cia.tb_counter >>> 8) 0x00ff))
    else if r == reg_cra
    then some cia.cra
    else if r == reg_crb
    then some cia.crb
    else none

-- The cases of `cia_timers_write_reg`.
unfoldable pub write_talo : CiaState → ℕ → CiaState
write_talo cia val = record cia { ta_latch = u16 (bit_or (bit_and cia.ta_latch 0xff00) val) }

unfoldable pub write_tahi : CiaState → ℕ → CiaState
write_tahi cia val =
    let latch = u16 (bit_or (bit_and cia.ta_latch 0x00ff) (val <<< 8)) in
    if any cia.cra cra_start then record cia { ta_latch = latch } else record cia {
      ta_latch = latch;
      ta_counter = latch;
      cra = if any cia.cra cra_runmode then bit_or cia.cra cra_start else cia.cra;
    }

unfoldable pub write_tblo : CiaState → ℕ → CiaState
write_tblo cia val = record cia { tb_latch = u16 (bit_or (bit_and cia.tb_latch 0xff00) val) }

unfoldable pub write_tbhi : CiaState → ℕ → CiaState
write_tbhi cia val =
    let latch = u16 (bit_or (bit_and cia.tb_latch 0x00ff) (val <<< 8)) in
    if any cia.crb crb_start then record cia { tb_latch = latch } else record cia {
      tb_latch = latch;
      tb_counter = latch;
      crb = if any cia.crb crb_runmode then bit_or cia.crb crb_start else cia.crb;
    }

unfoldable pub write_cra : CiaState → ℕ → CiaState
write_cra cia val =
    let control = u8 (bit_and val (not8 cra_load)) in
    record cia {
      cra = control;
      pb_timer_out =
          if any control cra_pbon then bit_or cia.pb_timer_out 0x40 else cia.pb_timer_out;
      ta_counter = if any val cra_load then cia.ta_latch else cia.ta_counter;
    }

unfoldable pub write_crb : CiaState → ℕ → CiaState
write_crb cia val =
    let control = u8 (bit_and val (not8 crb_load)) in
    record cia {
      crb = control;
      pb_timer_out =
          if any control crb_pbon then bit_or cia.pb_timer_out 0x80 else cia.pb_timer_out;
      tb_counter = if any val crb_load then cia.tb_latch else cia.tb_counter;
    }

unfoldable pub timers_write_reg : CiaState → ℕ → ℕ → Option CiaState
unfolding write_talo write_tahi write_tblo write_tbhi write_cra write_crb
timers_write_reg cia reg val =
    let r = bit_and reg 0x0f in
    if r == reg_talo
    then some (write_talo cia val)
    else if r == reg_tahi
    then some (write_tahi cia val)
    else if r == reg_tblo
    then some (write_tblo cia val)
    else if r == reg_tbhi
    then some (write_tbhi cia val)
    else if r == reg_cra
    then some (write_cra cia val)
    else if r == reg_crb
    then some (write_crb cia val)
    else none
