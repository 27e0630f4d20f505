-- ===== src/Cia/Tod/Count.antt =====
-- The time of day under pulses.
use rigel.Prelude.{
  ℕ, zero, suc, ◌+◌, ◌-◌, ◌%◌, ◌^◌, ◌<◌, ◌≡◌, ◌∙◌, Bool, ◌||◌, arith, ltb, ◌==◌, bit_and, u32,
}
use rigel.Prelude.Bits.{testbit, testbit_set}
use rigel.Prelude.Shifts.{bit_and_mask}
use rigel.Cia.State.{Link, icr_alrm}
use rigel.Cia.Irq.Frame.{raise-tod, raise-icr}
use rigel.Cia.Tod.{tod_increment_once, tod_increment, tod_pulse}

abbrev pub alarm_bit : Link → Bool
alarm_bit s = testbit s.cia.icr_data 2

-- The chip with its counter moved on.
abbrev advanced : Link → Link
advanced s = record s {
  cia = record (s.cia) {
    tod = record (s.cia.tod) { counter = bit_and (u32 (s.cia.tod.counter + 1)) 0xffffff };
  };
}

wrapped : (c : ℕ) → bit_and (u32 (c + 1)) 0xffffff ≡ (c + 1) % 2 ^ 24
wrapped c = bit_and_mask 24 (u32 (c + 1)) ∙ (omega arith)

pub once-tod :
    (s : Link)
    → (tod_increment_once s).cia.tod
      ≡ record (s.cia.tod) { counter = (s.cia.tod.counter + 1) % 2 ^ 24 }
unfolding tod_increment_once
once-tod s = ground (arith, wrapped s.cia.tod.counter, raise-tod (advanced s) icr_alrm)

once-alarm :
    (s : Link)
    → alarm_bit (tod_increment_once s)
      ≡ (alarm_bit s || (s.cia.tod.counter + 1) % 2 ^ 24 == s.cia.tod.alarm)
unfolding tod_increment_once
once-alarm s = ground (
  arith,
  wrapped s.cia.tod.counter,
  raise-icr (advanced s) icr_alrm,
  testbit_set s.cia.icr_data 2 2,
)

-- The pulses from a counter to its next stop at the alarm, less one.
abbrev pub pulses_before : ℕ → ℕ → ℕ
pulses_before counter alarm = (alarm + 2 ^ 24 - 1 - counter) % 2 ^ 24

-- After any number of increments the counter has advanced modulo 2 ^ 24, no other field of the
-- time of day has changed, and the alarm bit of ICR is set if it was set or the counter stopped at
-- the alarm on the way.
pub tod_increment_lem :
    (s : Link) (n : ℕ)
    → s.cia.tod.counter < 2 ^ 24
    → s.cia.tod.alarm < 2 ^ 24
    → ((tod_increment s n).cia.tod
        ≡ record (s.cia.tod) { counter = (s.cia.tod.counter + n) % 2 ^ 24 })
      × (alarm_bit (tod_increment s n)
          ≡ (alarm_bit s || ltb (pulses_before s.cia.tod.counter s.cia.tod.alarm) n))
unfolding tod_increment
tod_increment_lem s zero hc ha = (ground arith, ground arith)
tod_increment_lem s (suc n) hc ha =
    ground (arith, once-tod s, once-alarm s, tod_increment_lem (tod_increment_once s) n)

-- For a 24-bit counter and alarm, `cia_tod_pulse` advances the counter modulo 2 ^ 24 by the number
-- of pulses and changes no other field of the time of day; the alarm bit of ICR is set afterwards
-- exactly if it was set before or the counter stopped at the alarm on the way. The `stopped` flag
-- makes no difference.
pub tod_pulse-count :
    (s : Link) (n : ℕ)
    → s.cia.tod.counter < 2 ^ 24
    → s.cia.tod.alarm < 2 ^ 24
    → ((tod_pulse s n).cia.tod ≡ record (s.cia.tod) { counter = (s.cia.tod.counter + n) % 2 ^ 24 })
      × (alarm_bit (tod_pulse s n)
          ≡ (alarm_bit s || ltb (pulses_before s.cia.tod.counter s.cia.tod.alarm) n))
unfolding tod_pulse
tod_pulse-count s n hc ha = ground (arith, tod_increment_lem s n)
