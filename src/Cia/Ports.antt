-- ===== src/Cia/Ports.antt =====
-- The parallel ports and external pins of a CIA (src/cia/cia_ports.c).
pub mod Values
use rigel.Prelude.{
  ℕ, bit_and, bit_or, not, ◌&&◌, any, truth, from_bool, ◌==◌, u8, not8, if◌then◌else◌, Option, none,
  some,
}
use rigel.Cia.State.{
  port_a, port_b, CiaState, Link, icr_flg, cra_pbon, crb_pbon, reg_pra, reg_prb, reg_ddra, reg_ddrb,
}
use rigel.Cia.Irq.{interrupt_raise}
use rigel.Cia.Serial.{serial_set_sp_input, serial_on_cnt_rising}
use rigel.Cia.Timers.{timers_count_cnt}

unfoldable pub ports_reset : CiaState → CiaState
ports_reset cia = record cia {
  pra = 0xff;
  prb = 0xff;
  ddra = 0;
  ddrb = 0;
  ext_pra = 0xff;
  ext_prb = 0xff;
}

-- Both ids have the same case.
unfoldable pub ports_apply_defaults : CiaState → CiaState
ports_apply_defaults cia = record cia { ext_pra = 0xff; ext_prb = 0xff }

unfoldable pub set_external_pra : CiaState → ℕ → CiaState
set_external_pra cia value = record cia { ext_pra = value }

unfoldable pub set_external_prb : CiaState → ℕ → CiaState
set_external_prb cia value = record cia { ext_prb = value }

unfoldable pub set_sp_level : CiaState → ℕ → CiaState
set_sp_level cia level = serial_set_sp_input cia level

unfoldable pub set_cnt_level : Link → ℕ → Link
set_cnt_level s level =
    let new_level = from_bool (truth level) in
    let old_level = s.cia.cnt_level in
    let s' = record s { cia = record (s.cia) { cnt_level = new_level } } in
    if not (truth old_level) && truth new_level
    then timers_count_cnt (serial_on_cnt_rising s') 1
    else s'

unfoldable pub set_flag_level : Link → ℕ → Link
set_flag_level s level =
    let new_level = from_bool (truth level) in
    let old_level = s.cia.flag_level in
    let s' = record s { cia = record (s.cia) { flag_level = new_level } } in
    if truth old_level && not (truth new_level) then interrupt_raise s' icr_flg else s'

unfoldable pub pulse_cnt : Link → ℕ → Link
pulse_cnt s pulses = timers_count_cnt s pulses

unfoldable pub port_a_value : CiaState → ℕ
port_a_value cia =
    let low = u8 (
      bit_or (bit_and (bit_and cia.pra cia.ddra) 0x03)
        (bit_and (bit_and cia.ext_pra (not8 cia.ddra)) 0x03)) in
    elim (cia.id) [
      | port_a ↦ u8 (bit_or low (bit_and cia.ext_pra 0xfc))
      | port_b ↦ u8 (bit_or (bit_and cia.pra cia.ddra) (bit_and cia.ext_pra (not8 cia.ddra)))
    ]

unfoldable pub port_b_value : CiaState → ℕ
port_b_value cia =
    let value = u8 (bit_or (bit_and cia.prb cia.ddrb) (bit_and cia.ext_prb (not8 cia.ddrb))) in
    let value6 =
      if not (any cia.cra cra_pbon)
      then value
      else if any cia.pb_timer_out 0x40
      then bit_or value 0x40
      else bit_and value (not8 0x40) in
    if not (any cia.crb crb_pbon)
    then value6
    else if any cia.pb_timer_out 0x80
    then bit_or value6 0x80
    else bit_and value6 (not8 0x80)

unfoldable pub ports_read_reg : CiaState → ℕ → Option ℕ
unfolding port_a_value port_b_value
ports_read_reg cia reg =
    let r = bit_and reg 0x0f in
    if r == reg_pra
    then some (port_a_value cia)
    else if r == reg_prb
    then some (port_b_value cia)
    else if r == reg_ddra
    then some cia.ddra
    else if r == reg_ddrb
    then some cia.ddrb
    else none

unfoldable pub ports_write_reg : CiaState → ℕ → ℕ → Option CiaState
ports_write_reg cia reg value =
    let r = bit_and reg 0x0f in
    if r == reg_pra
    then some (record cia { pra = value })
    else if r == reg_prb
    then some (record cia { prb = value })
    else if r == reg_ddra
    then some (record cia { ddra = value })
    else if r == reg_ddrb
    then some (record cia { ddrb = value })
    else none
