-- ===== src/Cia/Timers/Frame.antt =====
-- The timers leave the time of day alone.
use rigel.Prelude.{ℕ, zero, suc, ◌≡◌, refl, ◌∙◌, arith, u8, bit_and, ◌+◌, ◌<<<◌, ◌>>>◌}
use rigel.Cia.State.{CiaState, Link, icr_ta, icr_tb, icr_sp}
use rigel.Cia.Irq.{interrupt_raise}
use rigel.Cia.Irq.Frame.{raise-tod}
use rigel.Cia.Serial.{serial_start_output, serial_end_output, serial_on_timer_a_underflow}
use rigel.Cia.Timers.{
  apply_underflow_output, serial_underflows, on_underflow_a, on_underflow_b, step_timer_a,
  step_timer_b, timers_step, timer_advance, timer_advance_events, continuous_a, continuous_b,
  advance_pb_outputs,
}

start-tod : (c : CiaState) → (serial_start_output c).tod ≡ c.tod
unfolding serial_start_output
start-tod c = ground arith

end-tod : (s : Link) → (serial_end_output s).cia.tod ≡ s.cia.tod
unfolding serial_end_output
end-tod s =
    let before : Link = record s {
      cia = record (s.cia) { serial_out_busy = 0; sp_output_level = 1 };
    } in
    start-tod (interrupt_raise before icr_sp).cia ∙ raise-tod before icr_sp

underflow-tod : (s : Link) → (serial_on_timer_a_underflow s).cia.tod ≡ s.cia.tod
unfolding serial_on_timer_a_underflow
underflow-tod s =
    let started = serial_start_output s.cia in
    let shifted = record started {
      sp_output_level = u8 (bit_and (started.serial_out_shift >>> 7) 1);
      cnt_output_level = 1;
      serial_out_shift = u8 (started.serial_out_shift <<< 1);
      serial_out_bits = u8 (started.serial_out_bits + 255);
    } in
    ground (arith, start-tod s.cia, end-tod (record s { cia = shifted }))

underflows-tod : (n : ℕ) (s : Link) → (serial_underflows n s).cia.tod ≡ s.cia.tod
unfolding serial_underflows
underflows-tod zero s = refl
underflows-tod (suc n) s = underflows-tod n (serial_on_timer_a_underflow s) ∙ underflow-tod s

output-tod : (c : CiaState) (control n : ℕ) → (apply_underflow_output c control n).tod ≡ c.tod
unfolding apply_underflow_output
output-tod c control n = ground arith

on_a-tod : (s : Link) (n : ℕ) → (on_underflow_a s n).cia.tod ≡ s.cia.tod
unfolding on_underflow_a
on_a-tod s n =
    let raised = interrupt_raise s icr_ta in
    let shown = record raised { cia = apply_underflow_output raised.cia raised.cia.cra n } in
    ground
      (arith, raise-tod s icr_ta, output-tod raised.cia raised.cia.cra n, underflows-tod n shown)

on_b-tod : (s : Link) (n : ℕ) → (on_underflow_b s n).cia.tod ≡ s.cia.tod
unfolding on_underflow_b
on_b-tod s n =
    let raised = interrupt_raise s icr_tb in
    ground (arith, raise-tod s icr_tb, output-tod raised.cia raised.cia.crb n)

timer_a-tod : (s : Link) (ticks : ℕ) → (step_timer_a s ticks).0.cia.tod ≡ s.cia.tod
unfolding step_timer_a
timer_a-tod s ticks =
    let (counter, uf) = timer_advance s.cia.ta_counter s.cia.ta_latch (continuous_a s.cia) ticks in
    ground (arith, on_a-tod (record s { cia = record (s.cia) { ta_counter = counter } }) uf)

timer_b-tod : (s : Link) (ticks uf_a : ℕ) → (step_timer_b s ticks uf_a).cia.tod ≡ s.cia.tod
unfolding step_timer_b
timer_b-tod s ticks uf_a =
    let c = s.cia in
    let (counter, uf) = timer_advance c.tb_counter c.tb_latch (continuous_b c) ticks in
    let (counted, events) = timer_advance_events c.tb_counter c.tb_latch (continuous_b c) uf_a in
    ground (
      arith,
      on_b-tod (record s { cia = record c { tb_counter = counter } }) uf,
      on_b-tod (record s { cia = record c { tb_counter = counted } }) events,
    )

pub timers_step-tod : (s : Link) (ticks : ℕ) → (timers_step s ticks).cia.tod ≡ s.cia.tod
unfolding timers_step
timers_step-tod s ticks =
    let (t, uf_a) = step_timer_a s ticks in
    ground (arith, timer_a-tod s ticks, timer_b-tod t ticks uf_a)

pub outputs-tod : (c : CiaState) → (advance_pb_outputs c).tod ≡ c.tod
unfolding advance_pb_outputs
outputs-tod c = ground arith
