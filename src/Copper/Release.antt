-- ===== src/Copper/Release.antt =====
-- An armed WAIT, looked at on every clock of the beam.
use rigel.Prelude.{
  ℕ, zero, suc, ◌+◌, ◌^◌, ◌<◌, ◌≡◌, refl, ap, ◌∙◌, arith, bit_and, Bool, true, false, ◌==◌, u32,
  if◌then◌else◌,
}
use rigel.Beam.{BeamState}
use rigel.Beam.Ticks.{tick, ticks}
use rigel.Beam.Position.{IsProgressive}
use rigel.Dma.{DmaState}
use rigel.Copper.{CopperState, wait_over, cycles_to_wait, copper_step}
use rigel.Copper.Deadline.{IsFullWait, cycles_to_wait_lem}

-- `looks` calls of `rigel_copper_domain_step` with the blitter idle, the beam moving by a clock after
-- each.
unfoldable pub watch : ℕ → CopperState → BeamState → DmaState → CopperState
unfolding copper_step
watch zero copper beam dma = copper
watch (suc looks) copper beam dma = watch looks (copper_step copper beam dma false) (tick beam) dma

abbrev held : CopperState → CopperState
held c = record c { triggered = false; enabled = true }

held_same :
    (x : Bool) (c : CopperState) (b : BeamState)
    → let d = if x then c else held c in
      (d.waiting ≡ c.waiting)
      × (d.program_counter ≡ c.program_counter)
      × (wait_over d b ≡ wait_over c b)
unfolding wait_over
held_same true c b = (refl, refl, refl)
held_same false c b = (refl, refl, refl)

module _ (dma : DmaState) (on : bit_and dma.dmacon 0x280 ≡ 0x280) where
  look_early :
      (c : CopperState) (b : BeamState)
      → c.waiting ≡ true
      → wait_over c b ≡ false
      → copper_step c b dma false ≡ held c
  unfolding copper_step
  look_early c b h k = ground arith

  look_over :
      (c : CopperState) (b : BeamState)
      → c.waiting ≡ true
      → wait_over c b ≡ true
      → let d = copper_step c b dma false in
        (d.waiting ≡ false)
        × (d.program_counter ≡ u32 (c.program_counter + 4))
        × (d.fetch_pending ≡ true)
  unfolding copper_step
  look_over c b h k = ground arith

  watch_early :
      (n : ℕ) (c : CopperState) (b : BeamState)
      → c.waiting ≡ true
      → ((j : ℕ) → j < n → wait_over c (ticks j b) ≡ false)
      → watch n c b dma ≡ (if n == 0 then c else held c)
  unfolding watch ticks wait_over
  watch_early zero c b h k = refl
  watch_early (suc n) c b h k =
      rw (look_early c b h (k 0 (omega arith)))
        (watch_early n (held c) (tick b) h (λ j lt. k (suc j) (omega arith)) ∙ (ground arith))

  watch-suc :
      (n : ℕ) (c : CopperState) (b : BeamState)
      → watch (suc n) c b dma ≡ copper_step (watch n c b dma) (ticks n b) dma false
  unfolding watch ticks
  watch-suc zero c b = refl
  watch-suc (suc n) c b = watch-suc n (copper_step c b dma false) (tick b)

  -- For a copper with its DMA enabled and the blitter idle, in an armed WAIT with full masks whose
  -- target, on an even clock, lies inside a picture without interlace and with lines of at most 256
  -- clocks, and for a beam on the first 256 lines of it whose frame count does not wrap on the way:
  -- looked at on every clock, the copper waits where it is for `rigel_copper_domain_cycles_to_wait`
  -- clocks, and at the next look goes on behind the WAIT and may fetch.
  pub watch_released :
      (c : CopperState) (b : BeamState)
      → IsProgressive b
      → IsFullWait c b
      → b.vpos < 256
      → b.frame_count + cycles_to_wait c b < 2 ^ 64
      → let before = watch (cycles_to_wait c b) c b dma in
        let after = watch (suc (cycles_to_wait c b)) c b dma in
        (before.waiting ≡ true)
        × (before.program_counter ≡ c.program_counter)
        × (after.waiting ≡ false)
        × (after.program_counter ≡ u32 (c.program_counter + 4))
        × (after.fetch_pending ≡ true)
  watch_released c b p w h fits =
      let n = cycles_to_wait c b in
      let early =
        watch_early n c b w.armed
          (λ j lt. cycles_to_wait_lem c b j p w h (omega arith) (omega arith) ∙ (ground arith)) in
      let over : wait_over c (ticks n b) ≡ true =
        cycles_to_wait_lem c b n p w h fits (omega arith) ∙ (ground arith) in
      let same = held_same (n == 0) c (ticks n b) in
      let d = watch n c b dma in
      let waiting = ap (λ (k : CopperState). k.waiting) early ∙ same.0 ∙ w.armed in
      let pc = ap (λ (k : CopperState). k.program_counter) early ∙ same.1 in
      let out =
        look_over d (ticks n b) waiting
          (ap (λ (k : CopperState). wait_over k (ticks n b)) early ∙ same.2 ∙ over) in
      (
        waiting,
        pc,
        rw (watch-suc n c b) out.0,
        rw (watch-suc n c b) (out.1 ∙ (rw pc refl)),
        rw (watch-suc n c b) out.2,
      )
