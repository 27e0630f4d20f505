-- ===== src/Cia/Tod.antt =====
-- The time-of-day counter of a CIA (src/cia/cia_tod.c).
pub mod Count
pub mod Access
pub mod Latch
use rigel.Prelude.{
  ℕ, zero, suc, ◌+◌, bit_and, bit_or, true, false, ◌||◌, any, leb, ◌==◌, u8, u32, ◌<<<◌, ◌>>>◌, ◌/◌,
  ◌%◌, if◌then◌else◌,
}
use rigel.Cia.State.{
  CiaState, TodState, Link, icr_alrm, crb_alarm, reg_todlo, reg_todmid, reg_todhi,
}
use rigel.Cia.Irq.{interrupt_raise}

unfoldable pub tod_lo : ℕ → ℕ
tod_lo v = u8 (bit_and v 0xff)

unfoldable pub tod_mid : ℕ → ℕ
tod_mid v = u8 (bit_and (v >>> 8) 0xff)

unfoldable pub tod_hi : ℕ → ℕ
tod_hi v = u8 (bit_and (v >>> 16) 0xff)

unfoldable pub tod_raise_alarm : Link → Link
tod_raise_alarm s = interrupt_raise s icr_alrm

unfoldable pub tod_reset : TodState → ℕ → TodState
tod_reset tod ticks_per_inc = record tod {
  counter = 0;
  alarm = 0x00ffff;
  latch = 0;
  latched = false;
  stopped = false;
  subticks = 0;
  ticks_per_inc = ticks_per_inc;
}

-- One round of the loop.
unfoldable pub tod_increment_once : Link → Link
unfolding tod_raise_alarm
tod_increment_once s =
    let counter = bit_and (u32 (s.cia.tod.counter + 1)) 0xffffff in
    let s' = record s { cia = record (s.cia) { tod = record (s.cia.tod) { counter = counter } } } in
    if counter == s.cia.tod.alarm then tod_raise_alarm s' else s'

unfoldable pub tod_increment : Link → ℕ → Link
unfolding tod_increment_once
tod_increment s zero = s
tod_increment s (suc increments) = tod_increment (tod_increment_once s) increments

unfoldable pub tod_step : Link → ℕ → Link
unfolding tod_increment
tod_step s ticks =
    let tod = s.cia.tod in
    let subticks = u32 (tod.subticks + u32 ticks) in
    let counted =
      λ (n : ℕ). record s { cia = record (s.cia) { tod = record tod { subticks = n } } } in
    if ticks == 0 || tod.ticks_per_inc == 0 || tod.stopped
    then s
    else if leb tod.ticks_per_inc subticks
    then tod_increment (counted (subticks % tod.ticks_per_inc)) (subticks / tod.ticks_per_inc)
    else counted subticks

unfoldable pub tod_pulse : Link → ℕ → Link
unfolding tod_increment
tod_pulse s pulses = if pulses == 0 then s else tod_increment s pulses

unfoldable pub tod_read : CiaState → ℕ → CiaState × ℕ
unfolding tod_lo tod_mid tod_hi
tod_read cia reg =
    let tod = cia.tod in
    if reg == reg_todlo
    then if tod.latched
      then (record cia { tod = record tod { latched = false } }, tod_lo tod.latch)
      else (cia, tod_lo tod.counter)
    else if reg == reg_todmid
    then if tod.latched then (cia, tod_mid tod.latch) else (cia, tod_mid tod.counter)
    else if reg == reg_todhi
    then (
      record cia { tod = record tod { latch = tod.counter; latched = true } },
      tod_hi tod.counter,
    )
    else (cia, 0xff)

-- The store through `target`, as the bits that stay and the bits that come in.
abbrev tod_store : CiaState → ℕ → ℕ → TodState
tod_store cia keep bits =
    let tod = cia.tod in
    if any cia.crb crb_alarm
    then record tod { alarm = bit_or (bit_and tod.alarm keep) bits }
    else record tod { counter = bit_or (bit_and tod.counter keep) bits; stopped = true }

unfoldable pub tod_write : CiaState → ℕ → ℕ → CiaState
tod_write cia reg val =
    let lo = tod_store cia 0xffff00 val in
    if reg == reg_todlo
    then if any cia.crb crb_alarm
      then record cia { tod = lo }
      else record cia { tod = record lo { stopped = false } }
    else if reg == reg_todmid
    then record cia { tod = tod_store cia 0xff00ff (val <<< 8) }
    else if reg == reg_todhi
    then record cia { tod = tod_store cia 0x00ffff (val <<< 16) }
    else if any cia.crb crb_alarm
    then cia
    else record cia { tod = record (cia.tod) { stopped = true } }
