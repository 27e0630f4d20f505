-- ===== src/Cia/Chip.antt =====
-- A CIA as a whole (src/cia/cia.c).
use rigel.Prelude.{ℕ, bit_and, Bool, true, false, ◌||◌, ◌==◌, if◌then◌else◌, Option, none, some}
use rigel.Interrupt.{InterruptDomain, int_ports, int_exter}
use rigel.Cia.State.{
  CiaId, port_a, port_b, TodState, CiaState, Link, reg_pra, reg_prb, reg_ddra, reg_ddrb, reg_talo,
  reg_tahi, reg_tblo, reg_tbhi, reg_todlo, reg_todmid, reg_todhi, reg_unused, reg_sdr, reg_icr,
  reg_cra, reg_crb,
}
use rigel.Cia.Irq.{sync_irq_line, interrupt_reset, interrupt_read_icr, interrupt_write_icr}
use rigel.Cia.Serial.{serial_reset, serial_write_sdr, serial_receive_byte}
use rigel.Cia.Timers.{timers_reset, timers_step, advance_pb_outputs}
use rigel.Cia.TimerRegisters.{timers_read_reg, timers_write_reg}
use rigel.Cia.Tod.{tod_reset, tod_step, tod_read, tod_write}
use rigel.Cia.Ports.{ports_reset, ports_apply_defaults, ports_read_reg, ports_write_reg}

-- The chip after the first seven lines of `cia_reset_core_state`, on the way to its registers.
unfoldable pub reset_core_state : Link → Link
unfolding ports_reset serial_reset interrupt_reset timers_reset
reset_core_state s =
    let ports = record (ports_reset s.cia) { cnt_level = 1; flag_level = 1 } in
    let quiet = interrupt_reset (record s { cia = serial_reset ports }) in
    record quiet { cia = timers_reset quiet.cia }

unfoldable pub cia_reset : Link → Link
unfolding reset_core_state tod_reset ports_apply_defaults
cia_reset s =
    let core = reset_core_state s in
    let saved = record (core.cia) {
      id = s.cia.id;
      irq_level = s.cia.irq_level;
      paula_irq_bit = s.cia.paula_irq_bit;
      attached = s.cia.attached;
    } in
    let timed = record saved { tod = tod_reset saved.tod 0 } in
    sync_irq_line (record core { cia = ports_apply_defaults timed })

-- All bytes zero, as `memset` leaves the struct; `CIA_PORT_A` is 0.
abbrev pub zeroed_tod : TodState
zeroed_tod = record {
  counter = 0;
  alarm = 0;
  latch = 0;
  latched = false;
  stopped = false;
  subticks = 0;
  ticks_per_inc = 0;
}

abbrev pub zeroed : CiaState
zeroed = record {
  id = port_a;
  pra = 0;
  prb = 0;
  ddra = 0;
  ddrb = 0;
  ext_pra = 0;
  ext_prb = 0;
  sdr = 0;
  sdr_full = 0;
  sp_input_level = 0;
  sp_output_level = 0;
  cnt_output_level = 0;
  serial_in_shift = 0;
  serial_in_bits = 0;
  serial_out_shift = 0;
  serial_out_bits = 0;
  serial_out_busy = 0;
  serial_out_buffer = 0;
  serial_out_buffer_full = 0;
  icr_mask = 0;
  icr_data = 0;
  cra = 0;
  crb = 0;
  ta_latch = 0;
  ta_counter = 0;
  tb_latch = 0;
  tb_counter = 0;
  pb_timer_out = 0;
  pb_pulse_mask = 0;
  cnt_level = 0;
  flag_level = 0;
  tod = zeroed_tod;
  irq_level = 0;
  paula_irq_bit = 0;
  attached = false;
  irq_asserted = 0;
}

unfoldable pub cia_init : InterruptDomain → CiaId → Link
unfolding cia_reset
cia_init paula id = cia_reset (record {
  cia = record zeroed {
    id = id;
    irq_level = elim id [ port_a ↦ 2 | port_b ↦ 6 ];
    paula_irq_bit = elim id [ port_a ↦ int_ports | port_b ↦ int_exter ];
    attached = false;
  };
  paula = paula;
})

unfoldable pub attach_paula : Link → Link
attach_paula s = sync_irq_line (record s { cia = record (s.cia) { attached = true } })

unfoldable pub cia_step : Link → ℕ → Link
cia_step s ticks = tod_step (timers_step (record s { cia = advance_pb_outputs s.cia }) ticks) ticks

abbrev pub or_ff : Option ℕ → ℕ
or_ff none = 0xff
or_ff (some v) = v

abbrev pub or_same : Link → Option CiaState → Link
or_same s none = s
or_same s (some cia) = record s { cia = cia }

abbrev pub is_port_reg : ℕ → Bool
is_port_reg r = r == reg_pra || r == reg_prb || r == reg_ddra || r == reg_ddrb

abbrev pub is_timer_reg : ℕ → Bool
is_timer_reg r =
    r == reg_talo || r == reg_tahi || r == reg_tblo || r == reg_tbhi || r == reg_cra || r == reg_crb

abbrev pub is_tod_reg : ℕ → Bool
is_tod_reg r = r == reg_todlo || r == reg_todmid || r == reg_todhi

abbrev pub on_cia : Link → CiaState × ℕ → Link × ℕ
on_cia s (cia, v) = (record s { cia = cia }, v)

unfoldable pub read_reg : Link → ℕ → Link × ℕ
read_reg s reg =
    let r = bit_and reg 0x0f in
    if is_port_reg r
    then (s, or_ff (ports_read_reg s.cia reg))
    else if is_timer_reg r
    then (s, or_ff (timers_read_reg s.cia reg))
    else if is_tod_reg r
    then on_cia s (tod_read s.cia r)
    else if r == reg_unused
    then (s, 0xff)
    else if r == reg_sdr
    then (record s { cia = record (s.cia) { sdr_full = 0 } }, s.cia.sdr)
    else if r == reg_icr
    then interrupt_read_icr s
    else (s, 0xff)

unfoldable pub receive_sdr : Link → ℕ → Link × Bool
receive_sdr s val = serial_receive_byte s val

unfoldable pub write_reg : Link → ℕ → ℕ → Link
write_reg s reg val =
    let r = bit_and reg 0x0f in
    if is_port_reg r
    then or_same s (ports_write_reg s.cia reg val)
    else if is_timer_reg r
    then or_same s (timers_write_reg s.cia reg val)
    else if is_tod_reg r
    then record s { cia = tod_write s.cia r val }
    else if r == reg_unused
    then s
    else if r == reg_sdr
    then record s { cia = serial_write_sdr s.cia val }
    else if r == reg_icr
    then interrupt_write_icr s val
    else s
