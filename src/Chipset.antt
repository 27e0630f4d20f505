-- ===== src/Chipset.antt =====
-- The step of the chipset, as far as it clocks the CIAs (`rigel_chipset_step` of
-- src/chipset/chipset.c). What Agnus and the rest of Paula do in between is an argument. CIA-B counts the
-- lines of the beam, as the code does; docs/api_status.md has it count a pulse of /INDEX from the drive, which
-- nothing in the code sends it.
pub mod Clocks
pub mod TimeOfDay
mod Tests
use rigel.Prelude.{
  ℕ, ◌+◌, ◌-◌, ◌*◌, ◌/◌, ◌%◌, ◌^◌, Bool, not, ◌&&◌, ltb, ◌==◌, u32, u64, if◌then◌else◌,
}
use rigel.Interrupt.{InterruptDomain}
use rigel.Beam.{BeamState, beam_in_vblank}
use rigel.Cia.State.{CiaState, Link}
use rigel.Cia.Tod.{tod_pulse}
use rigel.Cia.Chip.{cia_step}

-- The fields of `RigelChipset` that the step reads or writes.
pub record Chipset : Type 0 where
  pub cycles : ℕ
  pub cia_eclock_rem : ℕ
  pub cia_a : CiaState
  pub cia_b : CiaState
  pub paula : InterruptDomain
  pub beam : BeamState

abbrev pub cia_cck_per_eclock : ℕ
cia_cck_per_eclock = 5

unfoldable pub timing_advance : ℕ → ℕ → ℕ
timing_advance current delta = u64 (current + delta)

abbrev pub with_cia_a : (Link → Link) → Chipset → Chipset
with_cia_a f c =
    let s = f (record { cia = c.cia_a; paula = c.paula }) in
    record c { cia_a = s.cia; paula = s.paula }

abbrev pub with_cia_b : (Link → Link) → Chipset → Chipset
with_cia_b f c =
    let s = f (record { cia = c.cia_b; paula = c.paula }) in
    record c { cia_b = s.cia; paula = s.paula }

-- The line ends between two beams, as the step counts them for the time of day of CIA-B.
unfoldable pub hsync_pulses : BeamState → BeamState → ℕ
hsync_pulses before after =
    let frame_lines = before.frame_lines in
    let lines_after = u64 (u64 (after.frame_count * frame_lines) + after.vpos) in
    let lines_before = u64 (u64 (before.frame_count * frame_lines) + before.vpos) in
    u64 (lines_after + 2 ^ 64 - lines_before)

-- The ticks of the E-clock that are due, and the clocks that are left over.
unfoldable pub eclock : ℕ → ℕ → ℕ × ℕ
eclock rem cycles =
    (u32 (rem + cycles) / cia_cck_per_eclock, u32 (rem + cycles) % cia_cck_per_eclock)

-- One pulse for the time of day of CIA-A where the beam has come into the vertical blank.
unfoldable pub pulse_cia_a : BeamState → Chipset → Chipset
pulse_cia_a before chipset =
    if not (beam_in_vblank before) && beam_in_vblank chipset.beam
    then with_cia_a (λ s. tod_pulse s 1) chipset
    else chipset

unfoldable pub pulse_cia_b : BeamState → Chipset → Chipset
unfolding hsync_pulses
pulse_cia_b before chipset =
    let pulses = hsync_pulses before chipset.beam in
    if not (before.frame_lines == 0) && ltb 0 pulses
    then with_cia_b (λ s. tod_pulse s (u32 pulses)) chipset
    else chipset

unfoldable pub clock_cias : Chipset → ℕ → Chipset
unfolding eclock
clock_cias chipset cycles =
    let (ticks, rem) = eclock chipset.cia_eclock_rem cycles in
    let clocked = record chipset { cia_eclock_rem = rem } in
    if ltb 0 ticks
    then with_cia_b (λ s. cia_step s ticks) (with_cia_a (λ s. cia_step s ticks) clocked)
    else clocked

unfoldable pub chipset_step : (Chipset → ℕ → Chipset) → Chipset → ℕ → Chipset
unfolding timing_advance pulse_cia_a pulse_cia_b clock_cias
chipset_step others chipset cycles =
    let start = record chipset { cycles = timing_advance chipset.cycles cycles } in
    let moved = others start cycles in
    clock_cias (pulse_cia_b chipset.beam (pulse_cia_a chipset.beam moved)) cycles
