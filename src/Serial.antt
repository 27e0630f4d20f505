-- ===== src/Serial.antt =====
-- The serial port of Paula (src/chipset/paula/serial.c and serial.h). The interrupt sink is the caller's, a
-- function on a world W, absent where the code finds NULL; no pointer to a state is NULL. An array of
-- bytes is a function of the index.
pub mod Queue
pub mod Sending
pub mod Fifo
mod Tests
use rigel.Prelude.{
  ℕ, suc, ◌+◌, ◌-◌, ◌*◌, ◌/◌, ◌%◌, ◌^◌, bit_and, bit_or, Bool, true, false, not, ◌&&◌, ◌||◌, Option,
  none, some, u8, u32, ltb, leb, ◌==◌, if◌then◌else◌,
}

pub record SerialIrqSink {ℓ} (W : Type ℓ) : Type ℓ where
  pub raise : Option (W → ℕ → W)

-- `serial_state_t`, without the sink.
pub record SerialState : Type 0 where
  pub serper : ℕ
  pub tx_buffer : ℕ
  pub tx_buffer_valid : Bool
  pub tx_shift_reg : ℕ
  pub tx_shift_busy : Bool
  pub tx_cycles_remaining : ℕ
  pub rx_buffer : ℕ
  pub rx_buffer_full : Bool
  pub overrun : Bool
  pub rxd_level : Bool
  pub tx_instant : Bool
  pub tx_fifo : ℕ → ℕ
  pub tx_fifo_head : ℕ
  pub tx_fifo_tail : ℕ
  pub tx_fifo_count : ℕ
  pub tx_overflow : Bool

abbrev pub intreq_rbf : ℕ
intreq_rbf = 0x0800

abbrev pub intreq_tbe : ℕ
intreq_tbe = 0x0001

abbrev pub tx_fifo_size : ℕ
tx_fifo_size = 16

unfoldable pub serial_cycles_per_bit : SerialState → ℕ
serial_cycles_per_bit serial =
    let value = bit_and (serial.serper) 0x7fff + 1 in if value == 0 then 1 else value

unfoldable pub serial_frame_cycles : SerialState → ℕ → ℕ
serial_frame_cycles serial word = u32 (10 * serial_cycles_per_bit serial)

-- `fifo[at] = byte`
abbrev pub stored : (ℕ → ℕ) → ℕ → ℕ → ℕ → ℕ
stored fifo at byte i = if i == at then byte else fifo i

unfoldable pub serial_queue_tx_byte : SerialState → ℕ → SerialState
serial_queue_tx_byte serial word =
    if leb tx_fifo_size (serial.tx_fifo_count)
    then (record serial { tx_overflow = true })
    else (record serial {
      tx_fifo = stored (serial.tx_fifo) (serial.tx_fifo_tail) (u8 (bit_and word 0xff));
      tx_fifo_tail = (serial.tx_fifo_tail + 1) % tx_fifo_size;
      tx_fifo_count = serial.tx_fifo_count + 1;
    })

-- The state of `serial_start_tx_shift` past its guard, without the interrupt.
unfoldable pub shift_started : SerialState → SerialState
shift_started serial =
    let shifting = record serial {
      tx_shift_reg = serial.tx_buffer;
      tx_shift_busy = true;
      tx_cycles_remaining = serial_frame_cycles serial (serial.tx_buffer);
      tx_buffer_valid = false;
    } in
    if shifting.tx_instant then serial_queue_tx_byte shifting (shifting.tx_shift_reg) else shifting

unfoldable pub serial_reset : SerialState → SerialState
serial_reset serial = record serial {
  serper = 0;
  tx_buffer = 0;
  tx_buffer_valid = false;
  tx_shift_reg = 0;
  tx_shift_busy = false;
  tx_cycles_remaining = 0;
  rx_buffer = 0;
  rx_buffer_full = false;
  overrun = false;
  rxd_level = true;
  tx_instant = false;
  tx_fifo_head = 0;
  tx_fifo_tail = 0;
  tx_fifo_count = 0;
  tx_overflow = false;
}

unfoldable pub serial_write_serper : SerialState → ℕ → SerialState
serial_write_serper serial value = record serial { serper = value }

unfoldable pub serial_read_serdatr : SerialState → ℕ
serial_read_serdatr serial =
    let v0 = bit_and (serial.rx_buffer) 0x03ff in
    let v1 = if serial.overrun then bit_or v0 0x8000 else v0 in
    let v2 = if serial.rx_buffer_full then bit_or v1 0x4000 else v1 in
    let v3 = if not (serial.tx_buffer_valid) then bit_or v2 0x2000 else v2 in
    let v4 = if not (serial.tx_shift_busy) then bit_or v3 0x1000 else v3 in
    if serial.rxd_level then bit_or v4 0x0800 else v4

unfoldable pub serial_clear_rbf : SerialState → SerialState
serial_clear_rbf serial = record serial { rx_buffer_full = false; rx_buffer = 0; overrun = false }

unfoldable pub serial_tx_available : SerialState → Bool
serial_tx_available serial = ltb 0 (serial.tx_fifo_count)

-- The state after it and the byte, `none` where it returns false.
unfoldable pub serial_pop_tx_byte : SerialState → SerialState × Option ℕ
serial_pop_tx_byte serial = if serial.tx_fifo_count == 0 then (serial, none) else (
  (record serial {
    tx_fifo_head = (serial.tx_fifo_head + 1) % tx_fifo_size;
    tx_fifo_count = serial.tx_fifo_count - 1;
  }),
  some (serial.tx_fifo (serial.tx_fifo_head)),
)

unfoldable pub serial_set_tx_instant : SerialState → Bool → SerialState
serial_set_tx_instant serial enabled = record serial { tx_instant = enabled }

module _ {ℓ} {W : Type ℓ} (irq : SerialIrqSink W) where
  unfoldable pub serial_raise_irq : W → ℕ → W
  serial_raise_irq w mask = elim (irq.raise) [ none ↦ w | some raise ↦ raise w mask ]

  unfoldable pub serial_start_tx_shift : SerialState × W → SerialState × W
  serial_start_tx_shift (serial, w) =
      if not (serial.tx_buffer_valid) || serial.tx_shift_busy
      then (serial, w)
      else (shift_started serial, serial_raise_irq w intreq_tbe)

  unfoldable pub serial_write_serdat : SerialState × W → ℕ → SerialState × W
  serial_write_serdat (serial, w) value =
      let buffered = record serial { tx_buffer = value; tx_buffer_valid = true } in
      if serial.tx_instant
      then (serial_queue_tx_byte serial value, serial_raise_irq w intreq_tbe)
      else if not (serial.tx_shift_busy)
      then serial_start_tx_shift (buffered, w)
      else (buffered, w)

  unfoldable pub serial_step : SerialState × W → ℕ → SerialState × W
  serial_step (serial, w) cycles =
      let completed_word = serial.tx_shift_reg in
      let ended = record serial {
        tx_cycles_remaining = 0;
        tx_shift_busy = false;
        tx_shift_reg = 0;
      } in
      let queued =
        if not (ended.tx_instant) then serial_queue_tx_byte ended completed_word else ended in
      if not (serial.tx_shift_busy)
      then (if serial.tx_buffer_valid then serial_start_tx_shift (serial, w) else (serial, w))
      else if ltb cycles (serial.tx_cycles_remaining)
      then ((record serial { tx_cycles_remaining = serial.tx_cycles_remaining - cycles }), w)
      else if queued.tx_buffer_valid
      then serial_start_tx_shift (queued, w)
      else (queued, w)

  unfoldable pub serial_receive_byte : SerialState × W → ℕ → SerialState × W
  serial_receive_byte (serial, w) byte =
      let r = record serial {
        overrun = if serial.rx_buffer_full then true else serial.overrun;
        rx_buffer = bit_or byte 0x0100;
        rx_buffer_full = true;
        rxd_level = true;
      } in
      (r, serial_raise_irq w intreq_rbf)
