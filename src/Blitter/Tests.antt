-- ===== src/Blitter/Tests.antt =====
-- The blitter on concrete commands.
use rigel.Prelude.{
  ℕ, ◌≡◌, refl, true, false, xor, List, [], ◌∷◌, some, arith, ◌==◌, if◌then◌else◌, from_bool, any,
}
use rigel.Prelude.Bits.{testbit}
use rigel.Blitter.{BlitterState, BlitterMemory, BlitterIrqSink, BlitterMode}
use rigel.Blitter.Logic.{
  blitter_logic, blitter_logic_minterm, blitter_fill_word, fill_down, fill_round,
}
use rigel.Blitter.Fill.{odd, fill_bits}
use rigel.Blitter.Minterm.{logic_minterm}
use rigel.Blitter.Line.{is_line, blitter_line_done}
use rigel.Blitter.Reference.{execute_line_mode}
use rigel.Blitter.Copy.{blitter_execute_reference}
use rigel.Blitter.Timing.{blitter_estimate_cycles, blitter_start_timing}
use rigel.Blitter.Registers.{
  blitter_init, blitter_write_reg16, blitter_begin_command, blitter_build_command, build_command,
  decode_mode,
}
use rigel.Blitter.Refinement.{line_steps, steps-executes}
use rigel.Blitter.Slots.Cadence.{IsOver}
use rigel.Blitter.Slots.Grants.{grants}
use rigel.Blitter.Contract.{blit_busy, blit-IsOver}

-- A memory that is the list of the words written to it, and the interrupts raised.
abbrev Log : Type 0
Log = List (ℕ × ℕ)

abbrev latest : Log → ℕ → ℕ
latest [] addr = 0
latest ((a, v) ∷ log) addr = if a == addr then v else latest log addr

abbrev log_memory : BlitterMemory Log
log_memory = record { read16 = some latest; write16 = some (λ log addr value. (addr, value) ∷ log) }

abbrev log_irq : BlitterIrqSink Log
log_irq = record { raise = some (λ log mask. (0xdff09c, mask) ∷ log) }

-- Line mode, with A and C, and the registers of a line down from the address 0x100.
abbrev line_regs : BlitterState
line_regs = record blitter_init {
  regs = record (blitter_init.regs) {
    bltcon0 = 0x0aca;
    bltcon1 = 0x0001;
    bltcpt = 0x100;
    bltadat = 0x8000;
    bltbdat = 0xffff;
    bltcmod = 40;
  };
}

-- `BLTSIZE` of 3 lines of 2 words.
abbrev three_lines : ℕ
three_lines = 0x00c2

line_cost : (blitter_write_reg16 line_regs 0x058 three_lines).cycles_remaining ≡ 3
unfolding blitter_write_reg16 blitter_begin_command blitter_build_command build_command decode_mode
    blitter_start_timing blitter_estimate_cycles blitter_init any
line_cost = refl

abbrev line_started : BlitterState
line_started = blitter_write_reg16 line_regs 0x058 three_lines

blit_busy_example : (grants log_memory log_irq (1 ∷ 1 ∷ []) (line_started, [])).0.busy ≡ true
blit_busy_example =
    blit_busy log_memory log_irq (1 ∷ 1 ∷ []) line_regs three_lines [] (omega (arith, line_cost))

blit-IsOver_example :
    let r = blitter_execute_reference log_memory (line_started, []) in
    IsOver log_irq
      (grants log_memory log_irq (2 ∷ 0 ∷ 5 ∷ []) (line_started, []))
      (line_started.regs)
      (r.1.0.result)
      (r.1.1)
blit-IsOver_example =
    blit-IsOver log_memory log_irq (2 ∷ 0 ∷ 5 ∷ []) line_regs three_lines []
      (omega (arith, line_cost))

-- A command of three pixels that has not begun.
abbrev three_pixels : BlitterState
three_pixels = record blitter_init {
  cmd = record (build_command (line_regs.regs)) { height_lines = 3; mode = BlitterMode.line };
}

three_fresh : three_pixels.line_state.initialized ≡ false
unfolding blitter_init
three_fresh = refl

three_mode : is_line (three_pixels.cmd.mode) ≡ true
unfolding is_line
three_mode = refl

steps-executes_example :
    let t = line_steps log_memory 3 (three_pixels, []) in
    let r = execute_line_mode log_memory (three_pixels, []) in
    (t.0.result ≡ r.0.result) × (t.1 ≡ r.1) × (blitter_line_done (t.0) ≡ true)
steps-executes_example =
    steps-executes log_memory three_pixels [] three_fresh three_mode (omega arith) (omega arith)

logic_minterm_example :
    blitter_logic 0xca 0xff00 0x0ff0 0x00ff ≡ blitter_logic_minterm 0xca 0xff00 0x0ff0 0x00ff
logic_minterm_example = logic_minterm 0xca 0xff00 0x0ff0 0x00ff (omega arith)

fill_bits_example :
    let t = blitter_fill_word 0x0810 0 false false in
    (testbit (t.0) 4 ≡ xor false (odd 0x0810 4 12))
    × (t.1 ≡ from_bool (xor false (odd 0x0810 0 16)))
fill_bits_example = fill_bits false false 0x0810 4 false (omega arith)

-- Both modes fill the edges 0x0810 from bit 11 to bit 5.
fill_inclusive : blitter_fill_word 0x0810 0 true false ≡ (0x0fe0, 0)
unfolding blitter_fill_word fill_down fill_round
fill_inclusive = refl

fill_exclusive : blitter_fill_word 0x0810 0 false false ≡ (0x0fe0, 0)
unfolding blitter_fill_word fill_down fill_round
fill_exclusive = refl
