-- ===== src/Cia/Ports/Values.antt =====
-- The levels of the port pins, pin by pin.
use rigel.Prelude.{
  ℕ, ◌<◌, ◌≡◌, ◌∙◌, not, ◌&&◌, arith, ◌==◌, ltb, bit_or, bit_and, not8, u8, if◌then◌else◌, Bool,
  xor,
}
use rigel.Prelude.Bits.{
  testbit, testbit-and, testbit-or, testbit-not8, testbit_set, testbit_clear8, any_bit, ones_bit,
  testbit-xor,
}
use rigel.Prelude.Shifts.{bit_and_mask, ones_test}
use rigel.Cia.State.{CiaId, port_a, port_b, CiaState}
use rigel.Cia.Ports.{port_a_value, port_b_value}

-- A pin is an output if its direction digit is set.
abbrev pub pin_level : ℕ → ℕ → ℕ → ℕ → Bool
pin_level data_reg direction outside i =
    if testbit direction i then testbit data_reg i else testbit outside i

byte_bit : (x i : ℕ) → i < 8 → testbit (u8 x) i ≡ testbit x i
byte_bit x i h =
    rw (← bit_and_mask 8 x) (testbit-and x 0xff i ∙ (rw (ones_bit 8 i h) (ground arith)))

merged_bit :
    (r d e i : ℕ)
    → i < 8
    → testbit (u8 (bit_or (bit_and r d) (bit_and e (not8 d)))) i ≡ pin_level r d e i
merged_bit r d e i h = ground (
  arith,
  byte_bit (bit_or (bit_and r d) (bit_and e (not8 d))) i h,
  testbit-or (bit_and r d) (bit_and e (not8 d)) i,
  testbit-and r d i,
  testbit-and e (not8 d) i,
  testbit-not8 d i h,
)

-- For every pin of port B: PB7 is the output of timer B while CRB has PBON, PB6 that of timer A
-- while CRA has it; every other pin has its digit of the data register where the direction
-- register makes it an output, and the outside level elsewhere.
port_b_pins :
    (cia : CiaState) (i : ℕ)
    → i < 8
    → testbit (port_b_value cia) i ≡ (
        if testbit cia.crb 1 && i == 7
        then testbit cia.pb_timer_out 7
        else if testbit cia.cra 1 && i == 6
        then testbit cia.pb_timer_out 6
        else pin_level cia.prb cia.ddrb cia.ext_prb i)
unfolding port_b_value
port_b_pins cia i h =
    let v = u8 (bit_or (bit_and cia.prb cia.ddrb) (bit_and cia.ext_prb (not8 cia.ddrb))) in
    ground (
      arith,
      merged_bit cia.prb cia.ddrb cia.ext_prb i h,
      any_bit cia.cra 1,
      any_bit cia.crb 1,
      any_bit cia.pb_timer_out 6,
      any_bit cia.pb_timer_out 7,
      testbit_set v 6 i,
      testbit_clear8 v 6 i h,
      testbit_set v 7 i,
      testbit_clear8 v 7 i h,
      testbit_set (bit_or v 0x40) 7 i,
      testbit_clear8 (bit_or v 0x40) 7 i h,
      testbit_set (bit_and v (not8 0x40)) 7 i,
      testbit_clear8 (bit_and v (not8 0x40)) 7 i h,
    )

input_mask : (i : ℕ) → i < 8 → testbit 0xfc i ≡ not (ltb i 2)
unfolding xor
input_mask i h = ground (arith, testbit-xor 0xff 0x03 i, ones_test 8 i, ones_test 2 i)

abbrev merged : ℕ → ℕ → ℕ → ℕ
merged r d e = u8 (bit_or (bit_and r d) (bit_and e (not8 d)))

-- The two low pins are merged as on port B, the others pass.
low_bit :
    (r d e i : ℕ)
    → i < 8
    → testbit
        (u8 (
          bit_or
            (u8 (bit_or (bit_and (bit_and r d) 0x03) (bit_and (bit_and e (not8 d)) 0x03)))
            (bit_and e 0xfc)))
        i
      ≡ (if ltb i 2 then pin_level r d e i else testbit e i)
low_bit r d e i h =
    let out = bit_and (bit_and r d) 0x03 in
    let inp = bit_and (bit_and e (not8 d)) 0x03 in
    ground (
      arith,
      byte_bit (bit_or (u8 (bit_or out inp)) (bit_and e 0xfc)) i h,
      testbit-or (u8 (bit_or out inp)) (bit_and e 0xfc) i,
      byte_bit (bit_or out inp) i h,
      testbit-or out inp i,
      testbit-and (bit_and r d) 0x03 i,
      testbit-and r d i,
      testbit-and (bit_and e (not8 d)) 0x03 i,
      testbit-and e (not8 d) i,
      testbit-not8 d i h,
      testbit-and e 0xfc i,
      input_mask i h,
      ones_test 2 i,
    )

pins_of :
    (k : CiaId) (r d e i : ℕ)
    → i < 8
    → testbit
        (elim k [
          | port_a ↦ u8 (
              bit_or
                (u8 (bit_or (bit_and (bit_and r d) 0x03) (bit_and (bit_and e (not8 d)) 0x03)))
                (bit_and e 0xfc))
          | port_b ↦ merged r d e
        ])
        i
      ≡ elim k [
        | port_a ↦ if ltb i 2 then pin_level r d e i else testbit e i
        | port_b ↦ pin_level r d e i
      ]
pins_of port_a r d e i h = low_bit r d e i h
pins_of port_b r d e i h = merged_bit r d e i h

-- For every pin of port A: on CIA-A only pins 0 and 1 follow their direction digits, and the
-- others have the outside level; on CIA-B every pin has its digit of the data register where it is
-- an output, and the outside level elsewhere.
pub port_a_pins :
    (cia : CiaState) (i : ℕ)
    → i < 8
    → testbit (port_a_value cia) i ≡ elim (cia.id) [
      | port_a ↦ if ltb i 2 then pin_level cia.pra cia.ddra cia.ext_pra i else testbit cia.ext_pra i
      | port_b ↦ pin_level cia.pra cia.ddra cia.ext_pra i
    ]
unfolding port_a_value
port_a_pins cia i h = pins_of cia.id cia.pra cia.ddra cia.ext_pra i h
