-- ===== src/Cia/Serial/Input.antt =====
-- A byte clocked into the serial port bit by bit.
use rigel.Prelude.{
  ℕ, ◌+◌, ◌*◌, ◌%◌, ◌^◌, ◌<◌, bit_or, ◌≡◌, refl, ◌∙◌, Bool, true, false, arith, u8, ◌<<<◌,
  from_bool, truth,
}
use rigel.Prelude.Bits.{testbit, testbit_set}
use rigel.Prelude.Shifts.{or_double, testbit_value}
use rigel.Cia.State.{Link, icr_sp}
use rigel.Cia.Irq.Frame.{raise-icr, raise-input}
use rigel.Cia.Serial.{serial_set_sp_input, serial_on_cnt_rising}

-- The level of SP is set, then CNT rises.
abbrev pub clock_in : Link → Bool → Link
clock_in s b = serial_on_cnt_rising (record s { cia = serial_set_sp_input s.cia (from_bool b) })

-- The bits of a byte, the highest first.
abbrev pub clock_in_byte : Link → ℕ → Link
clock_in_byte s v =
    clock_in
      (clock_in
        (clock_in
          (clock_in
            (clock_in (clock_in (clock_in (clock_in s (testbit v 7)) (testbit v 6)) (testbit v 5))
              (testbit v 4))
            (testbit v 3))
          (testbit v 2))
        (testbit v 1))
      (testbit v 0)

-- No output is under way or waits, and `bits` bits, with the value `shift`, are in.
pub record IsShifting (s : Link) (shift bits : ℕ) : Type 0 where
  pub not_busy : s.cia.serial_out_busy ≡ 0
  pub no_buffer : s.cia.serial_out_buffer_full ≡ 0
  pub shift_eq : s.cia.serial_in_shift ≡ shift
  pub bits_eq : s.cia.serial_in_bits ≡ bits

shifted : (x : ℕ) (b : Bool) → u8 (bit_or (x <<< 1) (from_bool b)) ≡ (x * 2 + from_bool b) % 2 ^ 8
shifted x true = omega (arith, or_double x 1 (omega arith))
shifted x false = omega (arith, or_double x 0 (omega arith))

-- One of the first seven bits.
clock_in-IsShifting :
    (s : Link) (shift bits : ℕ) (b : Bool)
    → bits < 7
    → IsShifting s shift bits
    → IsShifting (clock_in s b) ((shift * 2 + from_bool b) % 2 ^ 8) (bits + 1)
unfolding serial_on_cnt_rising serial_set_sp_input
clock_in-IsShifting s shift bits b h i = ground (arith, shifted shift b)

-- The first seven bits leave SDR and ICR alone.
clock_in_quiet :
    (s : Link) (shift bits : ℕ) (b : Bool)
    → bits < 7
    → IsShifting s shift bits
    → ((clock_in s b).cia.sdr ≡ s.cia.sdr) × ((clock_in s b).cia.icr_data ≡ s.cia.icr_data)
unfolding serial_on_cnt_rising serial_set_sp_input
clock_in_quiet s shift bits b h i = ground arith

-- The chip as the eighth bit hands the byte over, before the interrupt.
abbrev handed_over : Link → Bool → Link
handed_over s b =
    let c = serial_set_sp_input s.cia (from_bool b) in
    record s {
      cia = record c {
        sdr = u8 (bit_or (c.serial_in_shift <<< 1) (from_bool (truth c.sp_input_level)));
        sdr_full = 1;
        serial_in_shift = 0;
        serial_in_bits = 0;
      };
    }

clock_in_last :
    (s : Link) (shift : ℕ) (b : Bool)
    → IsShifting s shift 7
    → let t = (clock_in s b).cia in
      (t.sdr ≡ (shift * 2 + from_bool b) % 2 ^ 8)
      × (t.sdr_full ≡ 1)
      × (t.serial_in_bits ≡ 0)
      × (testbit t.icr_data 3 ≡ true)
unfolding serial_on_cnt_rising serial_set_sp_input
clock_in_last s shift b i = ground (
  arith,
  shifted shift b,
  raise-icr (handed_over s b) icr_sp,
  raise-input (handed_over s b) icr_sp,
  testbit_set (handed_over s b).cia.icr_data 3 3,
)

abbrev shift_by : ℕ → Bool → ℕ
shift_by x b = (x * 2 + from_bool b) % 2 ^ 8

-- Eight digits push out whatever the shift register held.
byte_value :
    (x v : ℕ)
    → v < 2 ^ 8
    → shift_by
        (shift_by
          (shift_by
            (shift_by
              (shift_by
                (shift_by (shift_by (shift_by x (testbit v 7)) (testbit v 6)) (testbit v 5))
                (testbit v 4))
              (testbit v 3))
            (testbit v 2))
          (testbit v 1))
        (testbit v 0)
      ≡ v
byte_value x v h = omega (
  arith,
  testbit_value v 7,
  testbit_value v 6,
  testbit_value v 5,
  testbit_value v 4,
  testbit_value v 3,
  testbit_value v 2,
  testbit_value v 1,
  testbit_value v 0,
)

-- A byte that is clocked in bit by bit, the highest bit first, while no output is under way stands in
-- SDR afterwards; SDR is then full, the SP bit of ICR is set, and the port waits for the next byte.
pub clock_in_byte_lem :
    (s : Link) (v : ℕ)
    → v < 2 ^ 8
    → s.cia.serial_out_busy ≡ 0
    → s.cia.serial_out_buffer_full ≡ 0
    → s.cia.serial_in_bits ≡ 0
    → let t = (clock_in_byte s v).cia in
      (t.sdr ≡ v) × (t.sdr_full ≡ 1) × (t.serial_in_bits ≡ 0) × (testbit t.icr_data 3 ≡ true)
clock_in_byte_lem s v hv busy full bits =
    let i0 : IsShifting s s.cia.serial_in_shift 0 = record {
      not_busy = busy;
      no_buffer = full;
      shift_eq = refl;
      bits_eq = bits;
    } in
    let i1 = clock_in-IsShifting s _ 0 (testbit v 7) (omega arith) i0 in
    let i2 = clock_in-IsShifting _ _ 1 (testbit v 6) (omega arith) i1 in
    let i3 = clock_in-IsShifting _ _ 2 (testbit v 5) (omega arith) i2 in
    let i4 = clock_in-IsShifting _ _ 3 (testbit v 4) (omega arith) i3 in
    let i5 = clock_in-IsShifting _ _ 4 (testbit v 3) (omega arith) i4 in
    let i6 = clock_in-IsShifting _ _ 5 (testbit v 2) (omega arith) i5 in
    let i7 = clock_in-IsShifting _ _ 6 (testbit v 1) (omega arith) i6 in
    let last = clock_in_last _ _ (testbit v 0) i7 in
    (last.0 ∙ byte_value s.cia.serial_in_shift v hv, last.1, last.2, last.3)
