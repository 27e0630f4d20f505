-- ===== src/Beam/Tests.antt =====
-- The beam on concrete positions.
use rigel.Prelude.{◌+◌, ◌%◌, ◌≡◌, ◌==◌, refl, some, arith}
use rigel.Beam.{BeamState, beam_step, line_hmax, cycles_to_vertb}
use rigel.Beam.Ticks.{ticks, IsInside, beam_step-ticks}
use rigel.Beam.Position.{IsProgressive, total, position, frame_clocks, beam_step-position}
use rigel.Beam.Vertb.{vertb_now, cycles_to_vertb_lem}

abbrev near_end : BeamState
near_end = record {
  hpos = 220;
  vpos = 261;
  line_clocks = 227;
  frame_lines = 262;
  visible_y_start = 26;
  visible_y_stop = 255;
  lof = 0;
  lof_toggle = 0;
  lol = 0;
  lol_toggle = 0;
  frame_count = 41;
}

near_end-IsInside : IsInside near_end
unfolding line_hmax
near_end-IsInside = record {
  some_clocks = omega arith;
  clocks_fit = omega arith;
  some_lines = omega arith;
  lines_fit = omega arith;
  in_line = omega arith;
  in_frame = omega arith;
}

near_end-IsProgressive : IsProgressive near_end
near_end-IsProgressive = record {
  inside = near_end-IsInside;
  lof_eq = refl;
  lof_toggle_eq = refl;
  lol_eq = refl;
  lol_toggle_eq = refl;
  below = omega arith;
}

-- The same beam with long frames and lines in turn.
abbrev interlaced : BeamState
interlaced = record near_end { lof_toggle = 1; lol_toggle = 1; lol = 1; vpos = 262; lof = 1 }

interlaced-IsInside : IsInside interlaced
unfolding line_hmax
interlaced-IsInside = record {
  some_clocks = omega arith;
  clocks_fit = omega arith;
  some_lines = omega arith;
  lines_fit = omega arith;
  in_line = omega arith;
  in_frame = omega arith;
}

beam_step-ticks_example : beam_step interlaced 300 ≡ some (ticks 300 interlaced)
beam_step-ticks_example = beam_step-ticks interlaced 300 (omega arith) interlaced-IsInside

beam_step-position_example :
    (beam_step near_end 500 ≡ some (ticks 500 near_end))
    × (total (ticks 500 near_end) ≡ total near_end + 500)
    × (position (ticks 500 near_end) ≡ (position near_end + 500) % frame_clocks near_end)
    × IsProgressive (ticks 500 near_end)
beam_step-position_example =
    beam_step-position near_end 500 near_end-IsProgressive (omega arith) (omega arith)

cycles_to_vertb_lem_example : vertb_now (ticks 3 near_end) ≡ (3 == cycles_to_vertb near_end)
unfolding cycles_to_vertb
cycles_to_vertb_lem_example =
    cycles_to_vertb_lem near_end 3 near_end-IsProgressive (omega arith) (λ e. omega (arith, e))
      (omega arith) (omega arith)

abbrev at_start : BeamState
at_start = record near_end { hpos = 0; vpos = 0 }

at_start-IsProgressive : IsProgressive at_start
unfolding line_hmax
at_start-IsProgressive = record {
  inside = record {
    some_clocks = omega arith;
    clocks_fit = omega arith;
    some_lines = omega arith;
    lines_fit = omega arith;
    in_line = omega arith;
    in_frame = omega arith;
  };
  lof_eq = refl;
  lof_toggle_eq = refl;
  lol_eq = refl;
  lol_toggle_eq = refl;
  below = omega arith;
}
