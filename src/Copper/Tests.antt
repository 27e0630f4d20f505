-- ===== src/Copper/Tests.antt =====
-- The copper on a concrete program and beam.
use rigel.Prelude.{
  ℕ, ◌+◌, ◌-◌, ◌*◌, ◌≡◌, ◌==◌, refl, true, false, List, [], ◌∷◌, arith, length, if◌then◌else◌, suc,
  u32, bit_and, ◌^◌, not,
}
use rigel.Beam.{BeamState, line_hmax}
use rigel.Beam.Ticks.{ticks}
use rigel.Beam.Position.{IsProgressive, position}
use rigel.Copper.{CopperState, wait_over, cycles_to_wait}
use rigel.Copper.Program.{Outside, Machine}
use rigel.Copper.{copper_beam_cmp}
use rigel.Copper.Program.{copper_owns_reg}
use rigel.Prelude.{any}
use rigel.Copper.Deadline.{IsFullWait, target, cycles_to_wait_lem, wait_past_256}
use rigel.Dma.{DmaState}
use rigel.Copper.{copper_vbl_reload}
use rigel.Copper.Program.{copper_regs_read, copper_regs_write}
use rigel.Copper.Pointers.{IsReleased, pointer_written}
use rigel.Copper.Release.{watch, watch_released}
use rigel.Copper.Moves.{Move, IsReady, steps, writes, steps-writes, blocked_move}

abbrev high : BeamState
high = record {
  hpos = 10;
  vpos = 40;
  line_clocks = 227;
  frame_lines = 312;
  visible_y_start = 26;
  visible_y_stop = 311;
  lof = 0;
  lof_toggle = 0;
  lol = 0;
  lol_toggle = 0;
  frame_count = 7;
}

abbrev low : BeamState
low = record high { vpos = 260 }

high-IsProgressive : IsProgressive high
unfolding line_hmax
high-IsProgressive = record {
  inside = record {
    some_clocks = omega arith;
    clocks_fit = omega arith;
    some_lines = omega arith;
    lines_fit = omega arith;
    in_line = omega arith;
    in_frame = omega arith;
  };
  lof_eq = refl;
  lof_toggle_eq = refl;
  lol_eq = refl;
  lol_toggle_eq = refl;
  below = omega arith;
}

low-IsProgressive : IsProgressive low
unfolding line_hmax
low-IsProgressive = record {
  inside = record {
    some_clocks = omega arith;
    clocks_fit = omega arith;
    some_lines = omega arith;
    lines_fit = omega arith;
    in_line = omega arith;
    in_frame = omega arith;
  };
  lof_eq = refl;
  lof_toggle_eq = refl;
  lol_eq = refl;
  lol_toggle_eq = refl;
  below = omega arith;
}

-- WAIT for line 44, clock 100, and for line 5.
abbrev idle : CopperState
idle = record {
  cop1lc = 0x1000;
  cop2lc = 0x2000;
  program_counter = 0x1000;
  wait_hpos = 100;
  wait_vpos = 44;
  wait_vpmask = 0xff;
  wait_hpmask = 0xfe;
  copcon = 0;
  waiting = true;
  wait_blitter = false;
  stopped_until_vbl = false;
  enabled = true;
  triggered = false;
  event_latched = false;
  fetch_pending = false;
}

abbrev early : CopperState
early = record idle { wait_vpos = 5 }

idle-IsFullWait : IsFullWait idle high
idle-IsFullWait = record {
  armed = refl;
  vpmask_eq = refl;
  hpmask_eq = refl;
  vpos_fits = omega arith;
  even = refl;
  in_line = omega arith;
  in_frame = omega arith;
  short_lines = omega arith;
}

early-IsFullWait : IsFullWait early low
early-IsFullWait = record {
  armed = refl;
  vpmask_eq = refl;
  hpmask_eq = refl;
  vpos_fits = omega arith;
  even = refl;
  in_line = omega arith;
  in_frame = omega arith;
  short_lines = omega arith;
}

cycles_to_wait_lem_example : wait_over idle (ticks 50 high) ≡ (50 == cycles_to_wait idle high)
unfolding cycles_to_wait wait_over copper_beam_cmp
cycles_to_wait_lem_example =
    cycles_to_wait_lem idle high 50 high-IsProgressive idle-IsFullWait (omega arith) (omega arith)
      (omega arith)

abbrev copper_on : DmaState
copper_on = record { dmacon = 0x280; enabled = true; blitter_enabled = false }

watch_released_example :
    let before = watch (cycles_to_wait idle high) idle high copper_on in
    let after = watch (suc (cycles_to_wait idle high)) idle high copper_on in
    (before.waiting ≡ true)
    × (before.program_counter ≡ idle.program_counter)
    × (after.waiting ≡ false)
    × (after.program_counter ≡ u32 (idle.program_counter + 4))
    × (after.fetch_pending ≡ true)
unfolding cycles_to_wait wait_over copper_beam_cmp
watch_released_example =
    watch_released copper_on refl idle high high-IsProgressive idle-IsFullWait (omega arith)
      (omega arith)

wait_past_256_example :
    let n = target early low + 256 * low.line_clocks - position low in
    (wait_over early (ticks n low) ≡ true)
    × (cycles_to_wait early low ≡ n + (low.frame_lines - 256) * low.line_clocks)
wait_past_256_example =
    wait_past_256 early low low-IsProgressive early-IsFullWait (omega arith) (omega arith)
      (omega arith) (omega arith) (omega arith)

-- A machine whose registers are a log of their writes, newest first; chip RAM holds one program.
abbrev program : ℕ → ℕ
program a =
    if a == 0x1000
    then 0x180
    else if a == 0x1002
    then 0xf00
    else if a == 0x1004
    then 0x182
    else if a == 0x1006
    then 0x00f
    else if a == 0x1008
    then 0x088
    else if a == 0x100a
    then 0x000
    else if a == 0x100c
    then 0x040
    else 0x123

abbrev logged : Outside (List Move)
logged = record {
  beam = λ _. high;
  fetch16 = λ _ a. program a;
  custom_reg = λ _ _. 0;
  set_custom_reg = λ r addr value. r;
  write16 = λ r addr value. (addr, value) ∷ r;
  mark_active = λ r. r;
}

abbrev ready : ℕ → Machine (List Move)
ready pc = record {
  copper = record idle { waiting = false; fetch_pending = true; program_counter = pc };
  rest = [];
}

ready-IsReady : (pc : ℕ) → IsReady (ready pc).copper
ready-IsReady pc = record { on = refl; pending = refl; not_stopped = refl }

abbrev colours : List Move
colours = (0x180, 0xf00) ∷ (0x182, 0x00f) ∷ []

steps-writes_example :
    let t = steps logged (length colours) (ready 0x1000) in
    (t.rest ≡ writes logged [] colours)
    × (t.copper.program_counter ≡ 0x1000 + 4 * length colours)
    × IsReady t.copper
unfolding any copper_owns_reg
steps-writes_example =
    steps-writes logged (ready 0x1000) colours (λ r reg value a. refl) (ready-IsReady 0x1000)
      (omega arith) refl refl

blocked_move_example :
    let t = steps logged 4 (ready 0x100c) in
    (t.rest ≡ []) × (t.copper.stopped_until_vbl ≡ true) × (t.copper.program_counter ≡ 0x100c)
unfolding any
blocked_move_example =
    blocked_move logged (ready 0x100c) 0x040 0x123 3 (ready-IsReady 0x100c) (omega arith) refl refl
      refl (omega arith)

pointer_written_example :
    let t =
      copper_regs_write logged (copper_regs_write logged (ready 0x1000) 0x80 0x1) 0x82 0x5000 in
    let ptr = 0x1 * 2 ^ 16 + 0x5000 in
    let jumped = (copper_regs_write logged t 0x88 0).copper in
    let frame = copper_vbl_reload t.copper in
    (copper_regs_read logged t 0x80 ≡ 0x1)
    × (copper_regs_read logged t 0x82 ≡ 0x5000)
    × (t.copper.cop2lc ≡ (ready 0x1000).copper.cop2lc)
    × (t.copper.program_counter ≡ (ready 0x1000).copper.program_counter)
    × (jumped.program_counter ≡ ptr)
    × (jumped.fetch_pending ≡ true)
    × IsReleased jumped
    × (jumped.stopped_until_vbl ≡ (ready 0x1000).copper.stopped_until_vbl)
    × (frame.program_counter ≡ bit_and ptr 0x1ffffe)
    × (frame.fetch_pending ≡ not (bit_and ptr 0x1ffffe == 0))
    × IsReleased frame
    × (frame.stopped_until_vbl ≡ false)
pointer_written_example =
    pointer_written logged (ready 0x1000) 0x1 0x5000 0 (omega arith) (omega arith) (omega arith)
