-- ===== src/Beam.antt =====
-- The beam of Agnus (beam.c and beam.h of src/chipset/agnus) and the vertical blank (timing/vblank.c
-- and vblank.h there). No pointer is NULL.
pub mod Ticks
pub mod Position
pub mod Vertb
mod Tests
use rigel.Prelude.{
  ℕ, zero, suc, ◌+◌, ◌-◌, ◌*◌, ◌^◌, bit_xor, Bool, not, ◌&&◌, ◌||◌, truth, ltb, leb, ◌==◌, u16, u32,
  u64, if◌then◌else◌, Option, none, some,
}

-- `beam_state_t`
pub record BeamState : Type 0 where
  pub hpos : ℕ
  pub vpos : ℕ
  pub line_clocks : ℕ
  pub frame_lines : ℕ
  pub visible_y_start : ℕ
  pub visible_y_stop : ℕ
  pub lof : ℕ
  pub lof_toggle : ℕ
  pub lol : ℕ
  pub lol_toggle : ℕ
  pub frame_count : ℕ

abbrev pub default_line_clocks : ℕ
default_line_clocks = 227

abbrev pub default_frame_lines : ℕ
default_frame_lines = 262

abbrev pub default_visible_y_start : ℕ
default_visible_y_start = 26

abbrev pub default_visible_y_stop : ℕ
default_visible_y_stop = 255

unfoldable pub line_hmax : BeamState → ℕ
line_hmax beam = u16 (beam.line_clocks + (if truth beam.lol then 1 else 0))

unfoldable pub frame_vmax : BeamState → ℕ
frame_vmax beam = u16 (beam.frame_lines + (if truth beam.lof then 1 else 0))

unfoldable pub advance_line : BeamState → BeamState
advance_line beam =
    let next = record beam {
      hpos = 0;
      vpos = u16 (beam.vpos + 1);
      lol = if truth beam.lol_toggle then bit_xor beam.lol 1 else 0;
    } in
    if leb (frame_vmax next) next.vpos
    then record next {
      vpos = 0;
      frame_count = u64 (next.frame_count + 1);
      lof = if truth next.lof_toggle then bit_xor next.lof 1 else 0;
      lol = if not (truth next.lol_toggle) then 0 else next.lol;
    }
    else next

unfoldable pub beam_reset : BeamState
beam_reset = record {
  hpos = 0;
  vpos = 0;
  line_clocks = default_line_clocks;
  frame_lines = default_frame_lines;
  visible_y_start = default_visible_y_start;
  visible_y_stop = default_visible_y_stop;
  lof = 0;
  lof_toggle = 0;
  lol = 0;
  lol_toggle = 0;
  frame_count = 0;
}

-- The body of the `while` loop, with the clocks that are left.
unfoldable pub beam_round : BeamState → ℕ → BeamState × ℕ
unfolding advance_line line_hmax
beam_round beam clocks =
    let hmax = line_hmax beam in
    let remaining = u16 (hmax + 2 ^ 16 - beam.hpos) in
    let moved = record beam { hpos = u16 (beam.hpos + remaining) } in
    if remaining == 0
    then (advance_line beam, clocks)
    else if ltb clocks remaining
    then (record beam { hpos = u16 (beam.hpos + clocks) }, 0)
    else (if leb hmax moved.hpos then advance_line moved else moved, u16 (clocks - remaining))

-- `none` when the fuel runs out.
unfoldable pub beam_loop : ℕ → BeamState → ℕ → Option BeamState
unfolding beam_round
beam_loop zero beam clocks = if clocks == 0 then some beam else none
beam_loop (suc fuel) beam clocks =
    let (next, left) = beam_round beam clocks in
    let rest = beam_loop fuel next left in if clocks == 0 then some beam else rest

-- A round without progress comes at most once, first, since it leaves the beam at the start of a line.
unfoldable pub beam_step : BeamState → ℕ → Option BeamState
unfolding beam_reset
beam_step beam clocks =
    let start = if beam.line_clocks == 0 || beam.frame_lines == 0 then beam_reset else beam in
    beam_loop (clocks + 1) start clocks

abbrev pub vbl_line_end : ℕ
vbl_line_end = 25

abbrev pub vertb_vpos : ℕ
vertb_vpos = 0

abbrev pub vertb_hpos : ℕ
vertb_hpos = 1

unfoldable pub in_vbl_zone : ℕ → Bool
in_vbl_zone vpos = leb vpos vbl_line_end

unfoldable pub is_vertb_position : ℕ → ℕ → Bool
is_vertb_position hpos vpos = vpos == vertb_vpos && hpos == vertb_hpos

unfoldable pub vbl_inhibits_dma : ℕ → Bool
vbl_inhibits_dma vpos = leb vpos vbl_line_end

unfoldable pub beam_in_vblank : BeamState → Bool
beam_in_vblank beam = in_vbl_zone beam.vpos

unfoldable pub beam_in_visible_area : BeamState → Bool
beam_in_visible_area beam = leb beam.visible_y_start beam.vpos && leb beam.vpos beam.visible_y_stop

unfoldable pub cycles_until_line_end : BeamState → ℕ
cycles_until_line_end beam =
    if beam.line_clocks == 0 then 0 else u16 (line_hmax beam + 2 ^ 16 - beam.hpos)

unfoldable pub cycles_to_vertb : BeamState → ℕ
unfolding is_vertb_position
cycles_to_vertb beam =
    let cycles = u32 (beam.line_clocks + 2 ^ 32 - beam.hpos) in
    let lines_to_wrap =
      if ltb beam.vpos beam.frame_lines
      then u32 (beam.frame_lines + 2 ^ 32 - beam.vpos - 1)
      else 0 in
    if is_vertb_position beam.hpos beam.vpos
    then 0
    else u32 (u32 (cycles + u32 (lines_to_wrap * beam.line_clocks)) + vertb_hpos)
