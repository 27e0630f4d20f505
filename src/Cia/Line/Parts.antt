-- ===== src/Cia/Line/Parts.antt =====
-- The operations of the parts of a CIA keep the line.
use rigel.Prelude.{
  ℕ, zero, suc, refl, Bool, true, false, not, ◌&&◌, ◌||◌, arith, any, truth, ltb, ◌==◌, u8,
  if◌then◌else◌, bit_and, bit_or, ◌+◌, ◌<<<◌, ◌>>>◌,
}
use rigel.Cia.State.{CiaState, Link, icr_sp, icr_ta, icr_tb, cra_spmode}
use rigel.Cia.Irq.{interrupt_raise, interrupt_read_icr, interrupt_write_icr}
use rigel.Cia.Serial.{
  serial_start_output, serial_end_output, serial_on_cnt_rising, serial_on_timer_a_underflow,
  serial_write_sdr,
}
use rigel.Cia.Timers.{
  apply_underflow_output, advance_pb_outputs, serial_underflows, on_underflow_a, on_underflow_b,
  step_timer_a, step_timer_b, timers_step, cnt_timer_a, cnt_timer_b, timers_count_cnt,
  timer_advance, timer_advance_events, is_positive, count_a, count_b, continuous_a, continuous_b,
  inmode_b,
}
use rigel.Cia.Line.{
  Follows, Same, Quiet, sync-Follows, Quiet-Follows, Follows-trans, Follows-refl, Follows-if,
}

pub raise-Follows :
    (s : Link) (c : CiaState) (mask : ℕ)
    → Same s.cia c
    → Follows s (interrupt_raise (record s { cia = c }) mask)
unfolding interrupt_raise
raise-Follows s c mask h =
    sync-Follows s (record c { icr_data = bit_or c.icr_data (bit_and mask 0x1f) }) (ground arith)

pub raise-Follows_self : (s : Link) (mask : ℕ) → Follows s (interrupt_raise s mask)
raise-Follows_self s mask = raise-Follows s s.cia mask (ground arith)

pub read_icr-Follows : (s : Link) → Follows s (interrupt_read_icr s).0
unfolding interrupt_read_icr
read_icr-Follows s = sync-Follows s (record (s.cia) { icr_data = 0 }) (ground arith)

pub write_icr-Follows : (s : Link) (v : ℕ) → Follows s (interrupt_write_icr s v)
unfolding interrupt_write_icr
write_icr-Follows s v = sync-Follows s (record (s.cia) { icr_mask = _ }) (ground arith)

start-Quiet : (c : CiaState) → Quiet c (serial_start_output c)
unfolding serial_start_output
start-Quiet c = ground arith

pub write_sdr-Quiet : (c : CiaState) (v : ℕ) → Quiet c (serial_write_sdr c v)
unfolding serial_write_sdr serial_start_output
write_sdr-Quiet c v = ground arith

Same-refl : (c : CiaState) → Same c c
Same-refl c = record { id_eq = refl; wire_eq = refl; attached_eq = refl }

pub cnt_rising-Follows : (s : Link) → Follows s (serial_on_cnt_rising s)
unfolding serial_on_cnt_rising
cnt_rising-Follows s =
    Follows-if (truth s.cia.serial_out_busy || truth s.cia.serial_out_buffer_full) s _ _
      (Follows-refl s)
      (Follows-if (ltb (u8 (s.cia.serial_in_bits + 1)) 8) s _ _ (Quiet-Follows s _ (ground arith))
        (raise-Follows s _ icr_sp (ground arith)))

pub Follows-if_pair {ℓ} :
    {A : Type ℓ} (b : Bool) (s : Link) (t u : Link × A)
    → Follows s t.0
    → Follows s u.0
    → Follows s (if b then t else u).0
Follows-if_pair true s t u f g = f
Follows-if_pair false s t u f g = g

end_output-Follows :
    (s : Link) (c : CiaState) → Same s.cia c → Follows s (serial_end_output (record s { cia = c }))
unfolding serial_end_output
end_output-Follows s c h =
    let cleared = record c { serial_out_busy = 0; sp_output_level = 1 } in
    let raised = interrupt_raise (record s { cia = cleared }) icr_sp in
    Follows-trans (raise-Follows s cleared icr_sp (ground arith))
      (Quiet-Follows raised _ (start-Quiet raised.cia))

pub underflow-Follows : (s : Link) → Follows s (serial_on_timer_a_underflow s)
unfolding serial_on_timer_a_underflow
underflow-Follows s =
    let started = serial_start_output s.cia in
    let q = start-Quiet s.cia in
    let shifted = record started {
      sp_output_level = u8 (bit_and (started.serial_out_shift >>> 7) 1);
      cnt_output_level = 1;
      serial_out_shift = u8 (started.serial_out_shift <<< 1);
      serial_out_bits = u8 (started.serial_out_bits + 255);
    } in
    Follows-if (not (any s.cia.cra cra_spmode)) s _ _ (Follows-refl s) (
      Follows-if (not (truth started.serial_out_busy)) s _ _ (Quiet-Follows s started q) (
        Follows-if (truth (u8 (started.serial_out_bits + 255))) s _ _
          (Quiet-Follows s shifted (ground arith)) (end_output-Follows s shifted (ground arith))))

underflows-Follows : (n : ℕ) (s : Link) → Follows s (serial_underflows n s)
unfolding serial_underflows
underflows-Follows zero s = Follows-refl s
underflows-Follows (suc n) s =
    Follows-trans (underflow-Follows s) (underflows-Follows n (serial_on_timer_a_underflow s))

output-Quiet : (c : CiaState) (control n : ℕ) → Quiet c (apply_underflow_output c control n)
unfolding apply_underflow_output
output-Quiet c control n = ground arith

pub pb_outputs-Quiet : (c : CiaState) → Quiet c (advance_pb_outputs c)
unfolding advance_pb_outputs
pb_outputs-Quiet c = ground arith

-- Raising timer A's interrupt, its pin, and the serial port.
raised_a-Follows :
    (s : Link) (uf : ℕ)
    → let raised = interrupt_raise s icr_ta in
      Follows s (
        serial_underflows uf
          (record raised { cia = apply_underflow_output raised.cia raised.cia.cra uf }))
raised_a-Follows s uf =
    let raised = interrupt_raise s icr_ta in
    Follows-trans (raise-Follows_self s icr_ta) (
      Follows-trans (Quiet-Follows raised _ (output-Quiet raised.cia raised.cia.cra uf))
        (underflows-Follows uf _))

on_underflow_a-Follows : (s : Link) (uf : ℕ) → Follows s (on_underflow_a s uf)
unfolding on_underflow_a
on_underflow_a-Follows s uf =
    let raised = interrupt_raise s icr_ta in
    let shown =
      serial_underflows uf
        (record raised { cia = apply_underflow_output raised.cia raised.cia.cra uf }) in
    Follows-if (not (is_positive uf)) s _ _ (Follows-refl s) (
      Follows-trans (raised_a-Follows s uf) (
        Follows-if (any shown.cia.cra 0x08) shown _ _ (Quiet-Follows shown _ (ground arith))
          (Follows-refl shown)))

on_underflow_b-Follows : (s : Link) (uf : ℕ) → Follows s (on_underflow_b s uf)
unfolding on_underflow_b
on_underflow_b-Follows s uf =
    let raised = interrupt_raise s icr_tb in
    let shown = record raised { cia = apply_underflow_output raised.cia raised.cia.crb uf } in
    Follows-if (not (is_positive uf)) s _ _ (Follows-refl s) (
      Follows-trans (raise-Follows_self s icr_tb) (
        Follows-trans (Quiet-Follows raised _ (output-Quiet raised.cia raised.cia.crb uf)) (
          Follows-if (any shown.cia.crb 0x08) shown _ _ (Quiet-Follows shown _ (ground arith))
            (Follows-refl shown))))

count_a-Follows : (s : Link) (p : ℕ × ℕ) → Follows s (count_a s p).0
count_a-Follows s p =
    Follows-trans (Quiet-Follows s _ (ground arith)) (on_underflow_a-Follows _ p.1)

count_b-Follows : (s : Link) (p : ℕ × ℕ) → Follows s (count_b s p)
count_b-Follows s p =
    Follows-trans (Quiet-Follows s _ (ground arith)) (on_underflow_b-Follows _ p.1)

step_timer_a-Follows : (s : Link) (ticks : ℕ) → Follows s (step_timer_a s ticks).0
unfolding step_timer_a
step_timer_a-Follows s ticks =
    let p = timer_advance s.cia.ta_counter s.cia.ta_latch (continuous_a s.cia) ticks in
    Follows-if_pair (any s.cia.cra 0x01 && not (any s.cia.cra 0x20)) s (count_a s p) (s, 0)
      (count_a-Follows s p) (Follows-refl s)

step_timer_b-Follows : (s : Link) (ticks uf_a : ℕ) → Follows s (step_timer_b s ticks uf_a)
unfolding step_timer_b
step_timer_b-Follows s ticks uf_a =
    let mode = inmode_b s.cia in
    let events = timer_advance_events s.cia.tb_counter s.cia.tb_latch (continuous_b s.cia) in
    Follows-if (not (any s.cia.crb 0x01)) s _ _ (Follows-refl s) (
      Follows-if (mode == 0) s _ _
        (count_b-Follows s
          (timer_advance s.cia.tb_counter s.cia.tb_latch (continuous_b s.cia) ticks))
        (Follows-if
          ((mode == 2 || mode == 3)
            && is_positive uf_a
            && (not (mode == 3) || truth s.cia.cnt_level))
          s _ _ (count_b-Follows s (events uf_a)) (Follows-refl s)))

pub timers_step-Follows : (s : Link) (ticks : ℕ) → Follows s (timers_step s ticks)
unfolding timers_step
timers_step-Follows s ticks = Follows-if (ticks == 0) s _ _ (Follows-refl s) (
    Follows-trans (step_timer_a-Follows s ticks)
      (step_timer_b-Follows (step_timer_a s ticks).0 ticks (step_timer_a s ticks).1))

cnt_timer_a-Follows : (s : Link) (pulses : ℕ) → Follows s (cnt_timer_a s pulses).0
unfolding cnt_timer_a
cnt_timer_a-Follows s pulses =
    let p = timer_advance_events s.cia.ta_counter s.cia.ta_latch (continuous_a s.cia) pulses in
    Follows-if_pair (any s.cia.cra 0x01 && any s.cia.cra 0x20) s (count_a s p) (s, 0)
      (count_a-Follows s p) (Follows-refl s)

cnt_timer_b-Follows : (s : Link) (pulses uf_a : ℕ) → Follows s (cnt_timer_b s pulses uf_a)
unfolding cnt_timer_b
cnt_timer_b-Follows s pulses uf_a =
    let mode = inmode_b s.cia in
    let events = timer_advance_events s.cia.tb_counter s.cia.tb_latch (continuous_b s.cia) in
    Follows-if (not (any s.cia.crb 0x01)) s _ _ (Follows-refl s) (
      Follows-if (mode == 1) s _ _ (count_b-Follows s (events pulses)) (
        Follows-if (mode == 3 && is_positive uf_a) s _ _ (count_b-Follows s (events uf_a))
          (Follows-refl s)))

pub count_cnt-Follows : (s : Link) (pulses : ℕ) → Follows s (timers_count_cnt s pulses)
unfolding timers_count_cnt
count_cnt-Follows s pulses = Follows-if (pulses == 0) s _ _ (Follows-refl s) (
    Follows-trans (cnt_timer_a-Follows s pulses)
      (cnt_timer_b-Follows (cnt_timer_a s pulses).0 pulses (cnt_timer_a s pulses).1))
