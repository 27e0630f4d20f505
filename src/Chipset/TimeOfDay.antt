-- ===== src/Chipset/TimeOfDay.antt =====
-- The time of day of CIA-B over a step of the chipset (`rigel_chipset_step` of src/chipset/chipset.c), which
-- follows the lines of the beam and not, as docs/api_status.md says, /INDEX of a drive.
use rigel.Prelude.{ℕ, ◌+◌, ◌/◌, ◌%◌, ◌^◌, ◌<◌, ◌≡◌, refl, ap, ◌∙◌, arith, u32}
use native.Mathlib.Nat.{div-le_self}
use rigel.Beam.{BeamState}
use rigel.Beam.Ticks.{ticks}
use rigel.Beam.Position.{IsProgressive}
use rigel.Cia.State.{CiaState, Link, TodState}
use rigel.Cia.Tod.{tod_step}
use rigel.Cia.Tod.Count.{tod_pulse-count}
use rigel.Cia.Timers.{advance_pb_outputs}
use rigel.Cia.Timers.Frame.{timers_step-tod, outputs-tod}
use rigel.Cia.Chip.{cia_step}
use rigel.Chipset.{
  Chipset, timing_advance, hsync_pulses, eclock, pulse_cia_a, pulse_cia_b, clock_cias, chipset_step,
}
use rigel.Chipset.Clocks.{hsync_pulses-ticks, hpos-lt}

-- Both chips take their time of day from pulses alone.
cia_step-tod : (s : Link) (n : ℕ) → s.cia.tod.ticks_per_inc ≡ 0 → (cia_step s n).cia.tod ≡ s.cia.tod
unfolding cia_step tod_step
cia_step-tod s n h =
    let shown = record s { cia = advance_pb_outputs s.cia } in
    ground (arith, timers_step-tod shown n, outputs-tod s.cia)

clock-tod :
    (c : Chipset) (n : ℕ) → c.cia_b.tod.ticks_per_inc ≡ 0 → (clock_cias c n).cia_b.tod ≡ c.cia_b.tod
unfolding clock_cias
clock-tod c n h =
    let (ticks, rem) = eclock c.cia_eclock_rem n in
    let a = cia_step (record { cia = c.cia_a; paula = c.paula }) ticks in
    ground (arith, cia_step-tod (record { cia = c.cia_b; paula = a.paula }) ticks h)

pulse_a-other :
    (before : BeamState) (c : Chipset)
    → ((pulse_cia_a before c).cia_b ≡ c.cia_b) × ((pulse_cia_a before c).beam ≡ c.beam)
unfolding pulse_cia_a
pulse_a-other before c = ground arith

pulse_b-tod :
    (before : BeamState) (c : Chipset)
    → 0 < before.frame_lines
    → hsync_pulses before c.beam < 2 ^ 32
    → c.cia_b.tod.counter < 2 ^ 24
    → c.cia_b.tod.alarm < 2 ^ 24
    → (pulse_cia_b before c).cia_b.tod ≡ record (c.cia_b.tod) {
      counter = (c.cia_b.tod.counter + hsync_pulses before c.beam) % 2 ^ 24;
    }
unfolding pulse_cia_b
pulse_b-tod before c some short hc ha =
    let n = hsync_pulses before c.beam in
    ground (arith, tod_pulse-count (record { cia = c.cia_b; paula = c.paula }) (u32 n) hc ha)

-- For a step of fewer than 2 ^ 31 clocks, a beam inside a picture without interlace whose frame
-- count does not wrap, what Agnus does moving the beam by the clocks of the step and leaving CIA-B
-- alone, and a CIA-B with a 24-bit counter and alarm that counts pulses alone: its time of day
-- advances, modulo 2 ^ 24, by the lines that the beam ends, and changes in nothing else.
pub chipset_step-tod :
    (others : Chipset → ℕ → Chipset) (c : Chipset) (n : ℕ)
    → (others (record c { cycles = timing_advance c.cycles n }) n).beam ≡ ticks n c.beam
    → (others (record c { cycles = timing_advance c.cycles n }) n).cia_b ≡ c.cia_b
    → IsProgressive c.beam
    → c.beam.frame_count + n < 2 ^ 64
    → n < 2 ^ 31
    → c.cia_b.tod.ticks_per_inc ≡ 0
    → c.cia_b.tod.counter < 2 ^ 24
    → c.cia_b.tod.alarm < 2 ^ 24
    → (chipset_step others c n).cia_b.tod ≡ record (c.cia_b.tod) {
      counter = (c.cia_b.tod.counter + (c.beam.hpos + n) / c.beam.line_clocks) % 2 ^ 24;
    }
unfolding chipset_step
chipset_step-tod others c n beam_eq cia_eq p fits short rate hc ha =
    let moved = others (record c { cycles = timing_advance c.cycles n }) n in
    let framed = pulse_cia_a c.beam moved in
    let kept = pulse_a-other c.beam moved in
    let cia = kept.0 ∙ cia_eq in
    let pulses : hsync_pulses c.beam framed.beam ≡ (c.beam.hpos + n) / c.beam.line_clocks =
      rw (kept.1, beam_eq) (hsync_pulses-ticks c.beam n p fits (omega arith)) in
    let due = div-le_self (c.beam.hpos + n) c.beam.line_clocks in
    let tod = ap (λ (k : CiaState). k.tod) cia in
    let lined =
      pulse_b-tod c.beam framed p.inside.some_lines
        (omega (arith, pulses, due, hpos-lt c.beam p, p.inside.clocks_fit)) (rw tod hc)
        (rw tod ha) in
    clock-tod (pulse_cia_b c.beam framed) n
      (ap (λ (t : TodState). t.ticks_per_inc) lined ∙ (rw tod rate))
    ∙ lined
    ∙ (rw (tod, pulses) refl)
