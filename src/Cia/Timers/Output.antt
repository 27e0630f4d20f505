-- ===== src/Cia/Timers/Output.antt =====
-- The timer outputs on PB6 and PB7 when a timer underflows.
use rigel.Prelude.{ℕ, ◌<◌, ◌≡◌, true, false, ap, xor, ◌&&◌, arith, ◌==◌, if◌then◌else◌}
use rigel.Prelude.Bits.{testbit, any_bit, testbit_clear8, testbit_flip}
use rigel.Cia.State.{CiaState, Link, icr_tb}
use rigel.Cia.Irq.{interrupt_raise}
use rigel.Cia.Irq.Frame.{raise-cia}
use rigel.Cia.Timers.{apply_underflow_output, on_underflow_b, is_positive}

-- The pin that `cia_timer_apply_underflow_output` picks: PB6 if the control value that it is given
-- is the value of CRA, otherwise PB7.
abbrev pub pin : CiaState → ℕ → ℕ
pin cia control = if control == cia.cra then 6 else 7

-- For every one of the eight pins: with PBON in the control value, underflows act on the one pin
-- that is picked, and on no other: in toggle mode it is flipped by an odd number of underflows, in
-- pulse mode it goes low. Without PBON nothing moves.
pub output_bits :
    (cia : CiaState) (control underflows i : ℕ)
    → i < 8
    → testbit (apply_underflow_output cia control underflows).pb_timer_out i ≡ (
        if testbit control 1 && i == pin cia control
        then if testbit control 2
          then xor (testbit cia.pb_timer_out i) (testbit underflows 0)
          else false
        else testbit cia.pb_timer_out i)
unfolding apply_underflow_output xor
output_bits cia control underflows i h = ground (
  arith,
  any_bit control 1,
  any_bit control 2,
  any_bit underflows 0,
  testbit_flip cia.pb_timer_out 6 i,
  testbit_flip cia.pb_timer_out 7 i,
  testbit_clear8 cia.pb_timer_out 6 i h,
  testbit_clear8 cia.pb_timer_out 7 i h,
)

-- When CRA and CRB hold the same value, an underflow of timer B never reaches its own pin: PB7 keeps
-- its level whatever the mode, and with PBON the pin of timer A is driven in its place.
pub pb7_unreached :
    (s : Link) (underflows : ℕ)
    → s.cia.cra ≡ s.cia.crb
    → is_positive underflows ≡ true
    → let t = (on_underflow_b s underflows).cia in
      (testbit t.pb_timer_out 7 ≡ testbit s.cia.pb_timer_out 7)
      × (testbit t.pb_timer_out 6 ≡ (
          if testbit s.cia.crb 1
          then if testbit s.cia.crb 2
            then xor (testbit s.cia.pb_timer_out 6) (testbit underflows 0)
            else false
          else testbit s.cia.pb_timer_out 6))
unfolding on_underflow_b
pb7_unreached s underflows e h =
    let raised = (interrupt_raise s icr_tb).cia in
    let shown = output_bits raised raised.crb underflows in
    let keep = raise-cia s icr_tb in
    ground (
      arith,
      shown 6 (omega arith),
      shown 7 (omega arith),
      ap (λ (c : CiaState). c.cra) keep,
      ap (λ (c : CiaState). c.crb) keep,
      ap (λ (c : CiaState). c.pb_timer_out) keep,
    )
