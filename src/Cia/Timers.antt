-- ===== src/Cia/Timers.antt =====
-- The timers of a CIA (src/cia/cia_timers.c). An `int` is its bit pattern, below 2 ^ 32.
pub mod Advance
pub mod Output
pub mod Frame
use rigel.Prelude.{
  ℕ, zero, suc, ◌+◌, ◌-◌, ◌/◌, ◌%◌, ◌^◌, bit_and, bit_or, bit_xor, Bool, not, ◌&&◌, ◌||◌, any,
  truth, ltb, leb, ◌==◌, u16, u32, not8, ◌>>>◌, if◌then◌else◌,
}
use rigel.Cia.State.{
  CiaState, Link, icr_ta, icr_tb, cra_start, cra_pbon, cra_outmode, cra_runmode, cra_inmode,
  crb_start, crb_runmode,
}
use rigel.Cia.Irq.{interrupt_raise}
use rigel.Cia.Serial.{serial_on_timer_a_underflow}

-- `0 < n` of an `int`.
abbrev pub is_positive : ℕ → Bool
is_positive n = ltb 0 n && ltb n (2 ^ 31)

-- The counter after `ticks` and the number of underflows.
unfoldable pub timer_advance : ℕ → ℕ → Bool → ℕ → ℕ × ℕ
timer_advance counter latch continuous ticks =
    let left = ticks - (counter + 1) in
    let cycle = latch + 1 in
    let rem = u32 (left % cycle) in
    if ticks == 0
    then (counter, 0)
    else if leb ticks counter
    then (u16 (counter - u32 ticks), 0)
    else if not continuous
    then (0, 1)
    else (if rem == 0 then latch else u16 (latch - rem), u32 (1 + left / cycle))

-- The `while` loop, whose every round uses up at least one event: `fuel` of them are enough.
unfoldable pub advance_events_loop : ℕ → ℕ → ℕ → Bool → ℕ → ℕ → ℕ × ℕ
advance_events_loop zero counter latch continuous events underflows = (counter, underflows)
advance_events_loop (suc fuel) counter latch continuous events underflows =
    let until_underflow = counter + 1 in
    let next =
      advance_events_loop fuel latch latch continuous (events - until_underflow)
        (u32 (underflows + 1)) in
    if not (ltb 0 events)
    then (counter, underflows)
    else if ltb events until_underflow
    then (u16 (counter + 2 ^ 16 - u16 events), underflows)
    else if not continuous
    then (0, u32 (underflows + 1))
    else next

unfoldable pub timer_advance_events : ℕ → ℕ → Bool → ℕ → ℕ × ℕ
timer_advance_events counter latch continuous events =
    advance_events_loop events counter latch continuous events 0

unfoldable pub timers_reset : CiaState → CiaState
timers_reset cia = record cia {
  cra = 0;
  crb = 0;
  ta_latch = 0xffff;
  ta_counter = 0xffff;
  tb_latch = 0xffff;
  tb_counter = 0xffff;
  pb_timer_out = 0xc0;
  pb_pulse_mask = 0;
}

unfoldable pub apply_underflow_output : CiaState → ℕ → ℕ → CiaState
apply_underflow_output cia control underflows =
    let mask = if control == cia.cra then 0x40 else 0x80 in
    if not (any control cra_pbon)
    then cia
    else if any control cra_outmode
    then record cia {
      pb_timer_out = if any underflows 1 then bit_xor cia.pb_timer_out mask else cia.pb_timer_out;
      pb_pulse_mask = bit_and cia.pb_pulse_mask (not8 mask);
    }
    else record cia {
      pb_timer_out = bit_and cia.pb_timer_out (not8 mask);
      pb_pulse_mask = bit_or cia.pb_pulse_mask mask;
    }

unfoldable pub advance_pb_outputs : CiaState → CiaState
advance_pb_outputs cia =
    let out6 =
      if any cia.pb_pulse_mask 0x40 then bit_or cia.pb_timer_out 0x40 else cia.pb_timer_out in
    let out7 = if any cia.pb_pulse_mask 0x80 then bit_or out6 0x80 else out6 in
    record cia { pb_timer_out = out7; pb_pulse_mask = 0 }

-- The serial port hears of each underflow of timer A.
unfoldable pub serial_underflows : ℕ → Link → Link
serial_underflows zero s = s
serial_underflows (suc n) s = serial_underflows n (serial_on_timer_a_underflow s)

-- The block under `if (uf_a > 0)`, which stands in `cia_timers_step` and in `cia_timers_count_cnt`.
unfoldable pub on_underflow_a : Link → ℕ → Link
on_underflow_a s uf_a =
    let raised = interrupt_raise s icr_ta in
    let shown =
      serial_underflows uf_a
        (record raised { cia = apply_underflow_output raised.cia raised.cia.cra uf_a }) in
    if not (is_positive uf_a)
    then s
    else if any shown.cia.cra cra_runmode
    then record shown { cia = record (shown.cia) { cra = bit_and shown.cia.cra (not8 cra_start) } }
    else shown

-- The block under `if (uf_b > 0)`.
unfoldable pub on_underflow_b : Link → ℕ → Link
on_underflow_b s uf_b =
    let raised = interrupt_raise s icr_tb in
    let shown = record raised { cia = apply_underflow_output raised.cia raised.cia.crb uf_b } in
    if not (is_positive uf_b)
    then s
    else if any shown.cia.crb crb_runmode
    then record shown { cia = record (shown.cia) { crb = bit_and shown.cia.crb (not8 crb_start) } }
    else shown

abbrev pub continuous_a : CiaState → Bool
continuous_a cia = not (any cia.cra cra_runmode)

abbrev pub continuous_b : CiaState → Bool
continuous_b cia = not (any cia.crb crb_runmode)

abbrev pub inmode_b : CiaState → ℕ
inmode_b cia = bit_and (cia.crb >>> 5) 0x03

-- A new value of a counter, and the underflows that go with it.
abbrev pub count_a : Link → ℕ × ℕ → Link × ℕ
count_a s (counter, uf) =
    (on_underflow_a (record s { cia = record (s.cia) { ta_counter = counter } }) uf, uf)

abbrev pub count_b : Link → ℕ × ℕ → Link
count_b s (counter, uf) =
    on_underflow_b (record s { cia = record (s.cia) { tb_counter = counter } }) uf

-- The first half of `cia_timers_step`, with the underflows of timer A.
unfoldable pub step_timer_a : Link → ℕ → Link × ℕ
unfolding on_underflow_a
step_timer_a s ticks =
    if any s.cia.cra cra_start && not (any s.cia.cra cra_inmode)
    then count_a s (timer_advance s.cia.ta_counter s.cia.ta_latch (continuous_a s.cia) ticks)
    else (s, 0)

-- The second half.
unfoldable pub step_timer_b : Link → ℕ → ℕ → Link
unfolding on_underflow_b
step_timer_b s ticks uf_a =
    let cia = s.cia in
    if not (any cia.crb crb_start)
    then s
    else if inmode_b cia == 0
    then count_b s (timer_advance cia.tb_counter cia.tb_latch (continuous_b cia) ticks)
    else if (inmode_b cia == 2 || inmode_b cia == 3)
        && is_positive uf_a
        && (not (inmode_b cia == 3) || truth cia.cnt_level)
    then count_b s (timer_advance_events cia.tb_counter cia.tb_latch (continuous_b cia) uf_a)
    else s

unfoldable pub timers_step : Link → ℕ → Link
unfolding step_timer_a step_timer_b
timers_step s ticks =
    let (s', uf_a) = step_timer_a s ticks in if ticks == 0 then s else step_timer_b s' ticks uf_a

-- The halves of `cia_timers_count_cnt`.
unfoldable pub cnt_timer_a : Link → ℕ → Link × ℕ
unfolding on_underflow_a
cnt_timer_a s pulses =
    if any s.cia.cra cra_start && any s.cia.cra cra_inmode
    then count_a s
        (timer_advance_events s.cia.ta_counter s.cia.ta_latch (continuous_a s.cia) pulses)
    else (s, 0)

unfoldable pub cnt_timer_b : Link → ℕ → ℕ → Link
unfolding on_underflow_b
cnt_timer_b s pulses uf_a =
    let cia = s.cia in
    if not (any cia.crb crb_start)
    then s
    else if inmode_b cia == 1
    then count_b s (timer_advance_events cia.tb_counter cia.tb_latch (continuous_b cia) pulses)
    else if inmode_b cia == 3 && is_positive uf_a
    then count_b s (timer_advance_events cia.tb_counter cia.tb_latch (continuous_b cia) uf_a)
    else s

unfoldable pub timers_count_cnt : Link → ℕ → Link
unfolding cnt_timer_a cnt_timer_b
timers_count_cnt s pulses =
    let (s', uf_a) = cnt_timer_a s pulses in if pulses == 0 then s else cnt_timer_b s' pulses uf_a
