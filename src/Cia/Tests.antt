-- ===== src/Cia/Tests.antt =====
-- The CIAs on concrete states.
use rigel.Prelude.{
  ℕ, ◌≡◌, ◌+◌, ◌-◌, ◌*◌, ◌^◌, refl, true, false, xor, List, [], ◌∷◌, arith, any, ltb, from_bool,
  some, ◌%◌, ◌/◌, ◌==◌, ◌&&◌, ◌||◌, if◌then◌else◌,
}
use rigel.Prelude.Bits.{testbit}
use rigel.Interrupt.{InterruptDomain}
use rigel.Interrupt
use rigel.Interrupt.Priority.{IsHighest}
use rigel.Cia.State.{port_a, port_b, CiaState, Link}
use rigel.Cia.Irq.{irq_pending, sync_irq_line, interrupt_read_icr}
use rigel.Cia.Chip.{cia_init}
use rigel.Cia.Board.{BoardOp, run, board_reset, on_a, on_b, enable, write, step}
use rigel.Cia.Board.Wiring.{run-lines}
use rigel.Cia.Line.Acknowledge.{read_icr_acknowledges}
use rigel.Cia.Line.{line, IsWired}
use rigel.Cia.Timers.{timer_advance, timer_advance_events, apply_underflow_output, on_underflow_b}
use rigel.Cia.Timers.Advance.{
  ticks, outcome, from_counter, timer_advance-ticks, timer_advance_events-ticks,
}
use rigel.Cia.Timers.Output.{pin, output_bits, pb7_unreached}
use rigel.Cia.TimerRegisters.{timers_write_reg, timers_read_reg, write_talo, write_tahi, write_cra}
use rigel.Cia.TimerRegisters.RoundTrip.{load_a}
use rigel.Cia.Tod.{tod_pulse, tod_read}
use rigel.Cia.Tod.Count.{alarm_bit, pulses_before, tod_pulse-count}
use rigel.Cia.Tod.Access.{write_tod, tod_bytes, read_tod, tod_write-read}
use rigel.Cia.Tod.Latch.{after_read, tod_read-snapshot}
use rigel.Cia.Serial.{serial_write_sdr}
use rigel.Cia.Serial.Input.{clock_in_byte, clock_in_byte_lem}
use rigel.Cia.Serial.Send.{send_byte}
use rigel.Cia.Timers.{serial_underflows}
use rigel.Cia.Ports.{port_a_value}
use rigel.Cia.Ports.Values.{pin_level, port_a_pins}

abbrev idle : InterruptDomain
idle = record { intena = 0; intreq = 0; ipl = 0 }

abbrev fresh : Link
fresh = cia_init idle port_a

-- Enable PORTS and EXTER; on CIA-A enable the timer A interrupt, load 2 and start; step past it.
abbrev session : List BoardOp
session =
    enable 0xe008
    ∷ on_a (write 0xd 0x81)
    ∷ on_a (write 0x4 2)
    ∷ on_a (write 0x5 0)
    ∷ on_a (write 0xe 0x01)
    ∷ on_b (step 7)
    ∷ on_a (step 7)
    ∷ []

timer_advance-ticks_example :
    timer_advance 3 5 true 20 ≡ outcome (ticks 5 true 20 (from_counter 3 0))
timer_advance-ticks_example = timer_advance-ticks 3 5 20 true (omega arith) (omega arith)

timer_advance_events-ticks_example :
    timer_advance_events 3 5 false 20 ≡ outcome (ticks 5 false 20 (from_counter 3 0))
timer_advance_events-ticks_example =
    timer_advance_events-ticks 3 5 20 false (omega arith) (omega arith)

abbrev armed : CiaState
armed = record (fresh.cia) {
  cra = 0x03;
  crb = 0x07;
  pb_timer_out = 0x40;
  ddra = 0x03;
  pra = 0xfd;
  ext_pra = 0x5a;
}

output_bits_example : testbit (apply_underflow_output armed 0x07 3).pb_timer_out 7 ≡ (
    if testbit 0x07 1 && 7 == pin armed 0x07
    then if testbit 0x07 2 then xor (testbit armed.pb_timer_out 7) (testbit 3 0) else false
    else testbit armed.pb_timer_out 7)
output_bits_example = output_bits armed 0x07 3 7 (omega arith)

abbrev twin : Link
twin = record fresh { cia = record armed { cra = 0x07 } }

pb7_unreached_example :
    let t = (on_underflow_b twin 1).cia in
    (testbit t.pb_timer_out 7 ≡ testbit twin.cia.pb_timer_out 7)
    × (testbit t.pb_timer_out 6 ≡ (
        if testbit twin.cia.crb 1
        then if testbit twin.cia.crb 2
          then xor (testbit twin.cia.pb_timer_out 6) (testbit 1 0)
          else false
        else testbit twin.cia.pb_timer_out 6))
unfolding cia_init sync_irq_line
pb7_unreached_example = pb7_unreached twin 1 refl refl

tod_pulse-count_example :
    ((tod_pulse fresh 5).cia.tod
      ≡ record (fresh.cia.tod) { counter = (fresh.cia.tod.counter + 5) % 2 ^ 24 })
    × (alarm_bit (tod_pulse fresh 5)
        ≡ (alarm_bit fresh || ltb (pulses_before fresh.cia.tod.counter fresh.cia.tod.alarm) 5))
unfolding cia_init sync_irq_line
tod_pulse-count_example = tod_pulse-count fresh 5 (ground arith) (ground arith)

run-lines_example :
    let b = run (board_reset (Interrupt.reset idle)) session in
    (testbit b.paula.intreq 3 ≡ irq_pending b.cia_a)
    × (testbit b.paula.intreq 13 ≡ irq_pending b.cia_b)
    × (b.cia_a.irq_asserted ≡ from_bool (irq_pending b.cia_a))
    × (b.cia_b.irq_asserted ≡ from_bool (irq_pending b.cia_b))
    × IsHighest b.paula b.paula.ipl
run-lines_example = run-lines idle session

abbrev running : CiaState
running = record (fresh.cia) { cra = 0x01 }

load_a_example :
    let c1 = write_talo fresh.cia 0x34 in
    let c = write_tahi c1 0x12 in
    let counter = if any fresh.cia.cra 0x01 then fresh.cia.ta_counter else 0x34 + 0x12 * 2 ^ 8 in
    (timers_write_reg fresh.cia 4 0x34 ≡ some c1)
    × (timers_write_reg c1 5 0x12 ≡ some c)
    × (c.ta_counter ≡ counter)
    × (timers_read_reg c 4 ≡ some (counter % 2 ^ 8))
    × (timers_read_reg c 5 ≡ some (counter / 2 ^ 8 % 2 ^ 8))
    × (any c.cra 0x01 ≡ (any fresh.cia.cra 0x01 || any fresh.cia.cra 0x08))
    × ((v : ℕ) → (write_cra c v).ta_counter ≡ (if any v 0x10 then 0x34 + 0x12 * 2 ^ 8 else counter))
load_a_example = load_a fresh.cia 0x34 0x12 (omega arith) (omega arith)

tod_write-read_example :
    let alarm_set = any fresh.cia.crb 0x80 in
    let before = fresh.cia.tod in
    let t = write_tod fresh.cia 1 2 3 in
    let bytes = 1 * 2 ^ 16 + 2 * 2 ^ 8 + 3 in
    (read_tod t ≡ (if alarm_set then tod_bytes before.counter else (1, 2, 3)))
    × (t.tod.counter ≡ (if alarm_set then before.counter else bytes))
    × (t.tod.alarm ≡ (if alarm_set then bytes else before.alarm))
    × (t.tod.stopped ≡ (alarm_set && before.stopped))
tod_write-read_example = tod_write-read fresh.cia 1 2 3 (omega arith) (omega arith) (omega arith)

tod_read-snapshot_example :
    let s1 = after_read fresh 0xa in
    let s2 = tod_pulse s1 4 in
    let s3 = after_read s2 0x9 in
    let s4 = tod_pulse s3 5 in
    ((tod_read fresh.cia 0xa).1 * 2 ^ 16 + (tod_read s2.cia 0x9).1 * 2 ^ 8 + (tod_read s4.cia 0x8).1
      ≡ fresh.cia.tod.counter)
    × ((after_read s4 0x8).cia.tod.latched ≡ false)
unfolding cia_init sync_irq_line
tod_read-snapshot_example = tod_read-snapshot fresh 4 5 (ground arith)

clock_in_byte_lem_example :
    let t = (clock_in_byte fresh 0xa5).cia in
    (t.sdr ≡ 0xa5) × (t.sdr_full ≡ 1) × (t.serial_in_bits ≡ 0) × (testbit t.icr_data 3 ≡ true)
unfolding cia_init sync_irq_line
clock_in_byte_lem_example = clock_in_byte_lem fresh 0xa5 (omega arith) refl refl refl

abbrev sending : Link
sending = record fresh { cia = record (fresh.cia) { cra = 0x41 } }

send_byte_example :
    let start = record sending { cia = serial_write_sdr sending.cia 0xa5 } in
    let t = (serial_underflows 3 start).cia in
    let end = (serial_underflows 8 start).cia in
    (t.sp_output_level ≡ from_bool (testbit 0xa5 (7 - 2)))
    × (t.icr_data ≡ sending.cia.icr_data)
    × (end.sp_output_level ≡ 1)
    × (end.serial_out_busy ≡ 0)
    × (testbit end.icr_data 3 ≡ true)
unfolding cia_init sync_irq_line any
send_byte_example = send_byte sending 0xa5 2 (omega arith) (omega arith) refl refl

-- A chip with an enabled timer interrupt that has come.
abbrev asking : Link
asking = record {
  cia = record (fresh.cia) { icr_mask = 1; icr_data = 1; irq_asserted = 1; attached = true };
  paula = record { intena = 0; intreq = 8; ipl = 0 };
}

asking-IsWired : IsWired asking
unfolding irq_pending any testbit Interrupt.compute_ipl cia_init sync_irq_line
asking-IsWired = record {
  synced = record { intena_fits = omega arith; intreq_fits = omega arith; cached = refl };
  bit_eq = refl;
  requested = λ _. refl;
  asserted = λ _. refl;
}

read_icr_acknowledges_example :
    let (t, value) = interrupt_read_icr asking in
    (testbit value 0 ≡ testbit asking.cia.icr_data 0)
    × (testbit value 7 ≡ irq_pending asking.cia)
    × (t.cia.icr_data ≡ 0)
    × (t.cia.irq_asserted ≡ 0)
    × (testbit t.paula.intreq (line asking.cia.id) ≡ false)
unfolding cia_init sync_irq_line
read_icr_acknowledges_example =
    read_icr_acknowledges asking 0 asking-IsWired refl (omega arith) (omega arith)

port_a_pins_example : testbit (port_a_value armed) 1 ≡ elim (armed.id) [
  | port_a ↦
      if ltb 1 2 then pin_level armed.pra armed.ddra armed.ext_pra 1 else testbit armed.ext_pra 1
  | port_b ↦ pin_level armed.pra armed.ddra armed.ext_pra 1
]
port_a_pins_example = port_a_pins armed 1 (omega arith)
