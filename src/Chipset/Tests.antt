-- ===== src/Chipset/Tests.antt =====
-- The clocks of the CIAs on concrete states.
use rigel.Prelude.{ℕ, ◌+◌, ◌/◌, ◌%◌, ◌^◌, ◌≡◌, refl, List, [], ◌∷◌, arith}
use rigel.Interrupt.{InterruptDomain}
use rigel.Beam.{BeamState, line_hmax}
use rigel.Beam.Ticks.{ticks, IsInside}
use rigel.Beam.Position.{IsProgressive}
use rigel.Cia.State.{port_a, port_b}
use rigel.Cia.Irq.{sync_irq_line}
use rigel.Cia.Chip.{cia_init}
use rigel.Chipset.{Chipset, chipset_step}
use rigel.Chipset.Clocks.{eclocks, sum, eclocks-sum}
use rigel.Chipset.TimeOfDay.{chipset_step-tod}

abbrev cuts : List ℕ
cuts = 7 ∷ 1 ∷ 1 ∷ 12 ∷ []

eclocks-sum_example :
    ((eclocks 3 cuts).0 ≡ (3 + sum cuts) / 5) × ((eclocks 3 cuts).1 ≡ (3 + sum cuts) % 5)
eclocks-sum_example = eclocks-sum 3 cuts (omega arith) (omega arith)

abbrev plain : BeamState
plain = record {
  hpos = 200;
  vpos = 311;
  line_clocks = 227;
  frame_lines = 312;
  visible_y_start = 26;
  visible_y_stop = 311;
  lof = 0;
  lof_toggle = 0;
  lol = 0;
  lol_toggle = 0;
  frame_count = 3;
}

plain-IsProgressive : IsProgressive plain
unfolding line_hmax
plain-IsProgressive = record {
  inside = record {
    some_clocks = omega arith;
    clocks_fit = omega arith;
    some_lines = omega arith;
    lines_fit = omega arith;
    in_line = omega arith;
    in_frame = omega arith;
  };
  lof_eq = refl;
  lof_toggle_eq = refl;
  lol_eq = refl;
  lol_toggle_eq = refl;
  below = omega arith;
}

-- The last clock of a long frame.
abbrev long : BeamState
long = record plain { hpos = 226; vpos = 312; lof = 1; lof_toggle = 1 }

long-IsInside : IsInside long
unfolding line_hmax
long-IsInside = record {
  some_clocks = omega arith;
  clocks_fit = omega arith;
  some_lines = omega arith;
  lines_fit = omega arith;
  in_line = omega arith;
  in_frame = omega arith;
}

abbrev quiet : InterruptDomain
quiet = record { intena = 0; intreq = 0; ipl = 0 }

abbrev board : Chipset
board = record {
  cycles = 0;
  cia_eclock_rem = 4;
  cia_a = (cia_init quiet port_a).cia;
  cia_b = (cia_init quiet port_b).cia;
  paula = quiet;
  beam = plain;
}

-- Agnus moves the beam and nothing else.
abbrev beam_only : Chipset → ℕ → Chipset
beam_only c n = record c { beam = ticks n c.beam }

chipset_step-tod_example : (chipset_step beam_only board 500).cia_b.tod ≡ record (board.cia_b.tod) {
  counter = (board.cia_b.tod.counter + (board.beam.hpos + 500) / board.beam.line_clocks) % 2 ^ 24;
}
unfolding cia_init sync_irq_line
chipset_step-tod_example =
    chipset_step-tod beam_only board 500 refl refl plain-IsProgressive (omega arith) (omega arith)
      refl (ground arith) (ground arith)
