-- ===== src/Copper.antt =====
-- The copper of Agnus: its state and WAIT (copper.h, copper.c and copper_wait.c of
-- src/chipset/agnus/copper, and src/domains/copper/copper_domain.c). No pointer is NULL.
pub mod Program
pub mod Compare
pub mod Deadline
pub mod Release
pub mod Moves
pub mod Pointers
mod Tests
use rigel.Prelude.{
  ℕ, ◌+◌, ◌-◌, ◌*◌, ◌^◌, bit_and, bit_or, Bool, true, false, not, ◌&&◌, ◌||◌, any, ltb, leb, ◌==◌,
  u16, u32, ◌<<<◌, ◌>>>◌, if◌then◌else◌,
}
use rigel.Beam.{BeamState}
use rigel.Dma.{DmaState}

-- `copper_state_t`
pub record CopperState : Type 0 where
  pub cop1lc : ℕ
  pub cop2lc : ℕ
  pub program_counter : ℕ
  pub wait_hpos : ℕ
  pub wait_vpos : ℕ
  pub wait_vpmask : ℕ
  pub wait_hpmask : ℕ
  pub copcon : ℕ
  pub waiting : Bool
  pub wait_blitter : Bool
  pub stopped_until_vbl : Bool
  pub enabled : Bool
  pub triggered : Bool
  pub event_latched : Bool
  pub fetch_pending : Bool

-- The 16-bit word that is compared, for the beam and for the target.
abbrev pub masked : ℕ → ℕ → ℕ → ℕ → ℕ
masked vpos hpos vpmask hpmask =
    u16 (bit_or (u16 (bit_and vpos vpmask) <<< 8) (bit_and (bit_and hpos hpmask) 0xfe))

unfoldable pub copper_beam_cmp : ℕ → ℕ → ℕ → ℕ → ℕ → ℕ → Bool
copper_beam_cmp vpos hpos wait_vpos wait_hpos vpmask hpmask =
    leb (masked wait_vpos wait_hpos vpmask hpmask) (masked vpos hpos vpmask hpmask)

unfoldable pub copper_reset : CopperState
copper_reset = record {
  cop1lc = 0;
  cop2lc = 0;
  program_counter = 0;
  wait_hpos = 0;
  wait_vpos = 0;
  wait_vpmask = 0xff;
  wait_hpmask = 0xfe;
  copcon = 0;
  waiting = false;
  wait_blitter = false;
  stopped_until_vbl = false;
  enabled = false;
  triggered = false;
  event_latched = false;
  fetch_pending = false;
}

unfoldable pub copper_vbl_reload : CopperState → CopperState
copper_vbl_reload copper =
    let start = bit_and copper.cop1lc 0x001ffffe in
    if start == 0
    then record copper {
      program_counter = 0;
      waiting = false;
      wait_blitter = false;
      stopped_until_vbl = false;
      fetch_pending = false;
      triggered = false;
      event_latched = false;
    }
    else record copper {
      program_counter = start;
      waiting = false;
      wait_blitter = false;
      stopped_until_vbl = false;
      fetch_pending = true;
      triggered = false;
      event_latched = false;
    }

unfoldable pub copper_set_pointer_hi : ℕ → ℕ → ℕ
copper_set_pointer_hi ptr value = bit_or (bit_and ptr 0x0000ffff) (u32 (value <<< 16))

unfoldable pub copper_set_pointer_lo : ℕ → ℕ → ℕ
copper_set_pointer_lo ptr value = bit_or (bit_and ptr 0xffff0000) value

unfoldable pub copper_wait_arm : CopperState → ℕ → ℕ → CopperState
copper_wait_arm copper ir1 ir2 = record copper {
  wait_vpos = bit_and (ir1 >>> 8) 0xff;
  wait_hpos = bit_and ir1 0xfe;
  wait_vpmask = bit_and (ir2 >>> 8) 0xff;
  wait_hpmask = bit_and ir2 0xfe;
  waiting = true;
  wait_blitter = bit_and ir2 0x8000 == 0;
  stopped_until_vbl = ir1 == 0xffff && ir2 == 0xfffe;
}

unfoldable pub copper_wait_satisfied : CopperState → ℕ → ℕ → Bool
unfolding copper_beam_cmp
copper_wait_satisfied copper hpos vpos =
    if not copper.waiting
    then true
    else copper_beam_cmp vpos hpos copper.wait_vpos copper.wait_hpos copper.wait_vpmask
        copper.wait_hpmask

unfoldable pub set_wait : CopperState → ℕ → ℕ → ℕ → ℕ → CopperState
set_wait copper vpos hpos vpmask hpmask = record copper {
  wait_vpos = vpos;
  wait_hpos = hpos;
  wait_vpmask = vpmask;
  wait_hpmask = hpmask;
  waiting = true;
}

unfoldable pub jump1 : CopperState → CopperState
jump1 copper = record copper {
  program_counter = copper.cop1lc;
  triggered = false;
  event_latched = false;
  fetch_pending = true;
  waiting = false;
}

unfoldable pub jump2 : CopperState → CopperState
jump2 copper = record copper {
  program_counter = copper.cop2lc;
  triggered = false;
  event_latched = false;
  fetch_pending = true;
  waiting = false;
}

abbrev pub deadline_none : ℕ
deadline_none = 0xffffffff

-- The comparison of an armed WAIT with the beam.
unfoldable pub wait_over : CopperState → BeamState → Bool
unfolding copper_beam_cmp
wait_over copper beam =
    copper_beam_cmp beam.vpos beam.hpos copper.wait_vpos copper.wait_hpos copper.wait_vpmask
      copper.wait_hpmask

unfoldable pub cycles_to_wait : CopperState → BeamState → ℕ
unfolding wait_over
cycles_to_wait copper beam =
    let current = u32 (u32 (beam.vpos * beam.line_clocks) + beam.hpos) in
    let target = u32 (u32 (copper.wait_vpos * beam.line_clocks) + copper.wait_hpos) in
    let frame_total = u32 (beam.frame_lines * beam.line_clocks) in
    if not copper.waiting
    then deadline_none
    else if wait_over copper beam
    then 0
    else if copper.wait_vpmask == 0xff && copper.wait_hpmask == 0xfe
    then (if ltb current target
        then target - current
        else u32 (u32 (frame_total + 2 ^ 32 - current) + target))
    else u32 (beam.line_clocks + 2 ^ 32 - beam.hpos)

abbrev pub copper_dmacon_copen : ℕ
copper_dmacon_copen = 0x0080

abbrev pub copper_dmacon_dmaen : ℕ
copper_dmacon_dmaen = 0x0200

unfoldable pub copper_step : CopperState → BeamState → DmaState → Bool → CopperState
unfolding wait_over
copper_step copper beam dma blitter_busy =
    let both = bit_or copper_dmacon_dmaen copper_dmacon_copen in
    let enabled = bit_and dma.dmacon both == both in
    let ready = record copper { triggered = false; enabled = enabled } in
    if not enabled || not copper.waiting
    then ready
    else if copper.wait_blitter && blitter_busy
    then ready
    else if wait_over copper beam
    then record ready {
      waiting = false;
      wait_blitter = false;
      program_counter = u32 (copper.program_counter + 4);
      triggered = true;
      event_latched = true;
      fetch_pending = true;
    }
    else ready
