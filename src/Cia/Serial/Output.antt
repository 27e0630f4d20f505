-- ===== src/Cia/Serial/Output.antt =====
-- A byte sent by the serial port, a bit at each underflow of timer A.
use rigel.Prelude.{
  ℕ, suc, ◌+◌, ◌-◌, ◌*◌, ◌/◌, ◌^◌, ◌<◌, ◌≤◌, bit_and, ◌≡◌, ap, ◌∙◌, true, arith, any, u8, ◌<<<◌,
  ◌>>>◌, from_bool,
}
use rigel.Prelude.Bits.{testbit, testbit_set, testbit-and, ones_bit}
use rigel.Prelude.Shifts.{bit_and_mask, testbit_shl, testbit_value}
use rigel.Cia.State.{Link, icr_sp}
use rigel.Cia.Irq.Frame.{raise-icr, raise-output}
use rigel.Cia.Serial.{serial_start_output, serial_on_timer_a_underflow}

-- A byte is on its way: `bits` bits of `shift`, the highest first, are still to be sent.
pub record IsSending (s : Link) (shift bits : ℕ) : Type 0 where
  pub output_mode : any s.cia.cra 0x40 ≡ true
  pub is_busy : s.cia.serial_out_busy ≡ 1
  pub no_buffer : s.cia.serial_out_buffer_full ≡ 0
  pub shift_eq : s.cia.serial_out_shift ≡ shift
  pub bits_eq : s.cia.serial_out_bits ≡ bits

top_bit : (shift : ℕ) → shift < 2 ^ 8 → u8 (bit_and (shift >>> 7) 1) ≡ from_bool (testbit shift 7)
top_bit shift h = omega (arith, bit_and_mask 1 (shift / 2 ^ 7), testbit_value shift 7)

pub shift_left : (shift i : ℕ) → i < 7 → testbit (u8 (shift <<< 1)) (suc i) ≡ testbit shift i
shift_left shift i h = rw (← bit_and_mask 8 (shift * 2)) (
    testbit-and (shift * 2) 0xff (suc i)
    ∙ (rw (ones_bit 8 (suc i) (omega arith)) (
        let e : suc i - 1 ≡ i = omega arith in
        ground (arith, testbit_shl shift 1 (suc i), ap (testbit shift) e))))

pub underflow_step :
    (s : Link) (shift bits : ℕ)
    → shift < 2 ^ 8
    → 1 < bits
    → bits ≤ 8
    → IsSending s shift bits
    → let t = serial_on_timer_a_underflow s in
      IsSending t (u8 (shift <<< 1)) (bits - 1)
      × (t.cia.sp_output_level ≡ from_bool (testbit shift 7))
      × (t.cia.icr_data ≡ s.cia.icr_data)
unfolding serial_on_timer_a_underflow serial_start_output
underflow_step s shift bits hs lo hi i = ground (arith, top_bit shift hs)

-- The chip with the last bit shifted out.
abbrev emptied : Link → Link
emptied s = record s {
  cia = record (s.cia) {
    sp_output_level = 1;
    cnt_output_level = 1;
    serial_out_shift = u8 (s.cia.serial_out_shift <<< 1);
    serial_out_bits = u8 (s.cia.serial_out_bits + 255);
    serial_out_busy = 0;
  };
}

pub underflow_last :
    (s : Link) (shift : ℕ)
    → IsSending s shift 1
    → let t = (serial_on_timer_a_underflow s).cia in
      (t.sp_output_level ≡ 1) × (t.serial_out_busy ≡ 0) × (testbit t.icr_data 3 ≡ true)
unfolding serial_on_timer_a_underflow serial_start_output
underflow_last s shift i = ground (
  arith,
  raise-icr (emptied s) icr_sp,
  raise-output (emptied s) icr_sp,
  testbit_set s.cia.icr_data 3 3,
)
