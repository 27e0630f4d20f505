-- ===== src/Cia/Serial.antt =====
-- The serial port of a CIA (src/cia/cia_serial.c). Counters and levels are `uint8_t`.
pub mod Input
pub mod Output
pub mod Send
use rigel.Prelude.{
  ℕ, ◌+◌, bit_and, bit_or, not, ◌||◌, any, truth, from_bool, ltb, u8, ◌<<<◌, ◌>>>◌, if◌then◌else◌,
  Bool, true, false,
}
use rigel.Cia.State.{CiaState, Link, icr_sp, cra_spmode}
use rigel.Cia.Irq.{interrupt_raise}

unfoldable pub serial_start_output : CiaState → CiaState
serial_start_output cia =
    if truth cia.serial_out_busy || not (truth cia.serial_out_buffer_full)
    then cia
    else record cia {
      serial_out_shift = cia.serial_out_buffer;
      serial_out_bits = 8;
      serial_out_busy = 1;
      serial_out_buffer_full = 0;
    }

unfoldable pub serial_reset : CiaState → CiaState
serial_reset cia = record cia {
  sdr = 0;
  sdr_full = 0;
  sp_input_level = 1;
  sp_output_level = 1;
  cnt_output_level = 1;
  serial_in_shift = 0;
  serial_in_bits = 0;
  serial_out_shift = 0;
  serial_out_bits = 0;
  serial_out_busy = 0;
  serial_out_buffer = 0;
  serial_out_buffer_full = 0;
}

unfoldable pub serial_set_sp_input : CiaState → ℕ → CiaState
serial_set_sp_input cia level = record cia { sp_input_level = from_bool (truth level) }

unfoldable pub serial_on_cnt_rising : Link → Link
serial_on_cnt_rising s =
    let shift =
      u8 (bit_or (s.cia.serial_in_shift <<< 1) (from_bool (truth s.cia.sp_input_level))) in
    let bits = u8 (s.cia.serial_in_bits + 1) in
    if truth s.cia.serial_out_busy || truth s.cia.serial_out_buffer_full
    then s
    else if ltb bits 8
    then record s { cia = record (s.cia) { serial_in_shift = shift; serial_in_bits = bits } }
    else interrupt_raise
        (record s {
          cia = record (s.cia) {
            sdr = shift;
            sdr_full = 1;
            serial_in_shift = 0;
            serial_in_bits = 0;
          };
        })
        icr_sp

-- What follows the shift once the last bit is out.
unfoldable pub serial_end_output : Link → Link
serial_end_output s =
    let s' =
      interrupt_raise
        (record s { cia = record (s.cia) { serial_out_busy = 0; sp_output_level = 1 } }) icr_sp in
    record s' { cia = serial_start_output s'.cia }

-- CNT goes low and high again within the call.
unfoldable pub serial_on_timer_a_underflow : Link → Link
unfolding serial_end_output
serial_on_timer_a_underflow s =
    let started = serial_start_output s.cia in
    let shifted = record started {
      sp_output_level = u8 (bit_and (started.serial_out_shift >>> 7) 1);
      cnt_output_level = 1;
      serial_out_shift = u8 (started.serial_out_shift <<< 1);
      serial_out_bits = u8 (started.serial_out_bits + 255);
    } in
    if not (any s.cia.cra cra_spmode)
    then s
    else if not (truth started.serial_out_busy)
    then record s { cia = started }
    else if truth shifted.serial_out_bits
    then record s { cia = shifted }
    else serial_end_output (record s { cia = shifted })

unfoldable pub serial_write_sdr : CiaState → ℕ → CiaState
serial_write_sdr cia value =
    let cia' = record cia { sdr = value } in
    if not (any cia.cra cra_spmode)
    then cia'
    else serial_start_output (record cia' { serial_out_buffer = value; serial_out_buffer_full = 1 })

-- `false` when the byte is refused.
unfoldable pub serial_receive_byte : Link → ℕ → Link × Bool
serial_receive_byte s value = if truth s.cia.sdr_full then (s, false) else (
  interrupt_raise (record s { cia = record (s.cia) { sdr = value; sdr_full = 1 } }) icr_sp,
  true,
)

unfoldable pub serial_sp_output_level : CiaState → ℕ
serial_sp_output_level cia = from_bool (truth cia.sp_output_level)

unfoldable pub serial_cnt_output_level : CiaState → ℕ
serial_cnt_output_level cia = from_bool (truth cia.cnt_output_level)
