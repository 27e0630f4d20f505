-- ===== src/Cia/Tod/Latch.antt =====
-- Reading the time of day while it runs.
use rigel.Prelude.{ℕ, zero, suc, ◌+◌, ◌*◌, ◌/◌, ◌^◌, ◌<◌, ◌≡◌, refl, true, false, arith}
use rigel.Prelude.Shifts.{bit_and_mask}
use rigel.Cia.State.{CiaState, Link}
use rigel.Cia.Tod.{tod_lo, tod_mid, tod_hi, tod_increment_once, tod_increment, tod_pulse, tod_read}
use rigel.Cia.Tod.Count.{once-tod}

-- Pulses leave the latch alone.
pulse-latch :
    (s : Link) (n : ℕ)
    → ((tod_increment s n).cia.tod.latch ≡ s.cia.tod.latch)
      × ((tod_increment s n).cia.tod.latched ≡ s.cia.tod.latched)
unfolding tod_increment
pulse-latch s zero = (refl, refl)
pulse-latch s (suc n) = ground (arith, once-tod s, pulse-latch (tod_increment_once s) n)

pub bytes_sum : (v : ℕ) → v < 2 ^ 24 → tod_hi v * 2 ^ 16 + tod_mid v * 2 ^ 8 + tod_lo v ≡ v
unfolding tod_hi tod_mid tod_lo
bytes_sum v h =
    omega (arith, bit_and_mask 8 v, bit_and_mask 8 (v / 2 ^ 8), bit_and_mask 8 (v / 2 ^ 16))

-- The chip has latched `v`.
abbrev IsLatched : ℕ → CiaState → Type 0
IsLatched v c = (c.tod.latched ≡ true) × (c.tod.latch ≡ v)

pulse-IsLatched : (v : ℕ) (s : Link) (n : ℕ) → IsLatched v s.cia → IsLatched v (tod_pulse s n).cia
unfolding tod_pulse
pulse-IsLatched v s n h = ground (arith, pulse-latch s n)

hi_read : (c : CiaState) → (tod_read c 0xa).1 ≡ tod_hi c.tod.counter
unfolding tod_read
hi_read c = refl

mid-IsLatched :
    (v : ℕ) (c : CiaState)
    → IsLatched v c
    → ((tod_read c 0x9).1 ≡ tod_mid v) × IsLatched v (tod_read c 0x9).0
unfolding tod_read
mid-IsLatched v c h = ground arith

lo_latched :
    (v : ℕ) (c : CiaState)
    → IsLatched v c
    → ((tod_read c 0x8).1 ≡ tod_lo v) × ((tod_read c 0x8).0.tod.latched ≡ false)
unfolding tod_read
lo_latched v c h = ground arith

-- A register read of the chip, which keeps the rest of the link.
abbrev pub after_read : Link → ℕ → Link
after_read s reg = record s { cia = (tod_read s.cia reg).0 }

-- For a 24-bit counter: TODHI, TODMID and TODLO, read in this order with any pulses in between,
-- are the bytes of the counter at the moment of the first read; the last read ends the latching.
pub tod_read-snapshot :
    (s : Link) (m n : ℕ)
    → s.cia.tod.counter < 2 ^ 24
    → let s1 = after_read s 0xa in
      let s2 = tod_pulse s1 m in
      let s3 = after_read s2 0x9 in
      let s4 = tod_pulse s3 n in
      ((tod_read s.cia 0xa).1 * 2 ^ 16 + (tod_read s2.cia 0x9).1 * 2 ^ 8 + (tod_read s4.cia 0x8).1
        ≡ s.cia.tod.counter)
      × ((after_read s4 0x8).cia.tod.latched ≡ false)
tod_read-snapshot s m n h =
    let v = s.cia.tod.counter in
    let s2 = tod_pulse (after_read s 0xa) m in
    let first : IsLatched v (after_read s 0xa).cia = unfold tod_read in (refl, refl) in
    let second = pulse-IsLatched v (after_read s 0xa) m first in
    let middle = mid-IsLatched v s2.cia second in
    let third = pulse-IsLatched v (after_read s2 0x9) n middle.1 in
    let last = lo_latched v (tod_pulse (after_read s2 0x9) n).cia third in
    (omega (arith, bytes_sum v h, hi_read s.cia, middle.0, last.0), last.1)
