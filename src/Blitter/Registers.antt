-- ===== src/Blitter/Registers.antt =====
-- The registers of the blitter and the command they start (blitter_regs.c and blitter_command.c of
-- src/chipset/agnus/blitter, and blitter_begin_command of blitter_timing.c there).
use rigel.Prelude.{
  ℕ, ◌-◌, bit_and, bit_or, Bool, true, false, any, ◌==◌, u16, ◌<<<◌, ◌>>>◌, if◌then◌else◌,
  from_bool,
}
use rigel.Blitter.{
  BlitterRegs, BlitCommand, BlitterState, BlitterMode, BlitterFillMode, BlitterExecState, chip_addr,
}
use rigel.Blitter.Copy.{zero_result}
use rigel.Blitter.Timing.{blitter_start_timing, zero_line_state}

unfoldable pub decode_mode : ℕ → BlitterMode
decode_mode bltcon1 = if any bltcon1 0x0001 then BlitterMode.line else BlitterMode.copy

unfoldable pub decode_fill_mode : ℕ → BlitterFillMode
decode_fill_mode bltcon1 =
    let field = bit_and (bltcon1 >>> 3) 0x03 in
    if field == 1
    then BlitterFillMode.inclusive
    else if field == 2
    then BlitterFillMode.exclusive
    else BlitterFillMode.fill_none

unfoldable pub build_command : BlitterRegs → BlitCommand
build_command r = record {
  apt = chip_addr (r.bltapt);
  bpt = chip_addr (r.bltbpt);
  cpt = chip_addr (r.bltcpt);
  dpt = chip_addr (r.bltdpt);
  amod = r.bltamod;
  bmod = r.bltbmod;
  cmod = r.bltcmod;
  dmod = r.bltdmod;
  adat = r.bltadat;
  bdat = r.bltbdat;
  cdat = r.bltcdat;
  bhold = r.bltbhold;
  afwm = r.bltafwm;
  alwm = r.bltalwm;
  width_words = r.bltsizh;
  height_lines = r.bltsizv;
  minterm = bit_and (r.bltcon0) 0x00ff;
  ashift = bit_and (r.bltcon0 >>> 12) 0x0f;
  bshift = bit_and (r.bltcon1 >>> 12) 0x0f;
  use_a = any (r.bltcon0) 0x0800;
  use_b = any (r.bltcon0) 0x0400;
  use_c = any (r.bltcon0) 0x0200;
  use_d = any (r.bltcon0) 0x0100;
  descending = any (r.bltcon1) 0x0002;
  fill_carry_in = any (r.bltcon1) 0x0004;
  line_octant = bit_and (r.bltcon1 >>> 2) 0x07;
  line_start_bit = bit_and (r.bltcon0 >>> 12) 0x0f;
  line_single_dot = any (r.bltcon1) 0x0002;
  line_initial_sign = any (r.bltcon1) 0x0040;
  mode = decode_mode (r.bltcon1);
  fill_mode = decode_fill_mode (r.bltcon1);
}

unfoldable pub blitter_build_command : BlitterState → BlitterState
blitter_build_command b = record b { cmd = build_command (b.regs); command_valid = true }

unfoldable pub blitter_begin_command : BlitterState → BlitterState
blitter_begin_command b = blitter_start_timing (blitter_build_command b)

unfoldable pub make_ptr : ℕ → ℕ → Bool → ℕ
make_ptr old_value value high =
    if high
    then bit_or (value <<< 16) (bit_and old_value 0x0000ffff)
    else bit_or (bit_and old_value 0xffff0000) (bit_and value 0xfffe)

unfoldable pub make_b_hold : BlitterRegs → ℕ → ℕ
make_b_hold r value =
    let shift = bit_and (r.bltcon1 >>> 12) 0x0f in
    if shift == 0
    then value
    else if any (r.bltcon1) 0x0002
    then u16 (bit_or (value <<< 16) (r.bltbdat) >>> (16 - shift))
    else u16 (bit_or (r.bltbdat <<< 16) value >>> shift)

-- The registers and the command that `blitter_init` leaves.
abbrev pub init_regs : BlitterRegs
init_regs = record {
  bltcon0 = 0;
  bltcon1 = 0;
  bltapt = 0;
  bltbpt = 0;
  bltcpt = 0;
  bltdpt = 0;
  bltamod = 0;
  bltbmod = 0;
  bltcmod = 0;
  bltdmod = 0;
  bltadat = 0;
  bltbdat = 0;
  bltcdat = 0;
  bltddat = 0;
  bltbhold = 0;
  bltafwm = 0xffff;
  bltalwm = 0xffff;
  bltsize = 0;
  bltsizh = 0;
  bltsizv = 0;
}

abbrev pub zero_command : BlitCommand
zero_command = record {
  apt = 0;
  bpt = 0;
  cpt = 0;
  dpt = 0;
  amod = 0;
  bmod = 0;
  cmod = 0;
  dmod = 0;
  adat = 0;
  bdat = 0;
  cdat = 0;
  bhold = 0;
  afwm = 0;
  alwm = 0;
  width_words = 0;
  height_lines = 0;
  minterm = 0;
  ashift = 0;
  bshift = 0;
  use_a = false;
  use_b = false;
  use_c = false;
  use_d = false;
  descending = false;
  fill_carry_in = false;
  line_octant = 0;
  line_start_bit = 0;
  line_single_dot = false;
  line_initial_sign = false;
  mode = BlitterMode.copy;
  fill_mode = BlitterFillMode.fill_none;
}

unfoldable pub blitter_init : BlitterState
blitter_init = record {
  regs = init_regs;
  cmd = zero_command;
  result = record zero_result { zero_flag = true };
  exec_state = BlitterExecState.idle;
  command_valid = false;
  busy = false;
  cycles_remaining = 0;
  dma_slots_consumed = 0;
  cycle_exact = false;
  line_state = zero_line_state;
}

unfoldable pub blitter_reset : BlitterState
blitter_reset = blitter_init

unfoldable pub blitter_is_busy : BlitterState → ℕ
blitter_is_busy b = from_bool (b.busy)

unfoldable pub blitter_read_reg16 : BlitterState → ℕ → ℕ
blitter_read_reg16 b custom_offset =
    let r = b.regs in
    let dmaconr = if b.busy then 0x4000 else 0 in
    if custom_offset == 0x040
    then r.bltcon0
    else if custom_offset == 0x042
    then r.bltcon1
    else if custom_offset == 0x044
    then r.bltafwm
    else if custom_offset == 0x046
    then r.bltalwm
    else if custom_offset == 0x064
    then r.bltamod
    else if custom_offset == 0x062
    then r.bltbmod
    else if custom_offset == 0x060
    then r.bltcmod
    else if custom_offset == 0x066
    then r.bltdmod
    else if custom_offset == 0x074
    then r.bltadat
    else if custom_offset == 0x072
    then r.bltbdat
    else if custom_offset == 0x070
    then r.bltcdat
    else if custom_offset == 0x000
    then r.bltddat
    else if custom_offset == 0x058
    then r.bltsize
    else if custom_offset == 0x002
    then (if b.result.zero_flag then bit_or dmaconr 0x2000 else dmaconr)
    else 0

-- The size that a register field gives, where 0 stands for the largest.
abbrev pub or_largest : ℕ → ℕ → ℕ
or_largest largest n = if n == 0 then largest else n

abbrev pub set_regs : BlitterState → BlitterRegs → BlitterState
set_regs b r = record b { regs = r }

unfoldable pub blitter_write_reg16 : BlitterState → ℕ → ℕ → BlitterState
blitter_write_reg16 b custom_offset value =
    let r = b.regs in
    if custom_offset == 0x040
    then set_regs b (record r { bltcon0 = value })
    else if custom_offset == 0x042
    then set_regs b (record r { bltcon1 = value })
    else if custom_offset == 0x05a
    then set_regs b
        (record r { bltcon0 = bit_or (bit_and (r.bltcon0) 0xff00) (bit_and value 0x00ff) })
    else if custom_offset == 0x044
    then set_regs b (record r { bltafwm = value })
    else if custom_offset == 0x046
    then set_regs b (record r { bltalwm = value })
    else if custom_offset == 0x064
    then set_regs b (record r { bltamod = value })
    else if custom_offset == 0x062
    then set_regs b (record r { bltbmod = value })
    else if custom_offset == 0x060
    then set_regs b (record r { bltcmod = value })
    else if custom_offset == 0x066
    then set_regs b (record r { bltdmod = value })
    else if custom_offset == 0x074
    then set_regs b (record r { bltadat = value })
    else if custom_offset == 0x072
    then set_regs b (record r { bltbhold = make_b_hold r value; bltbdat = value })
    else if custom_offset == 0x070
    then set_regs b (record r { bltcdat = value })
    else if custom_offset == 0x000
    then set_regs b (record r { bltddat = value })
    else if custom_offset == 0x050
    then set_regs b (record r { bltapt = make_ptr (r.bltapt) value true })
    else if custom_offset == 0x052
    then set_regs b (record r { bltapt = make_ptr (r.bltapt) value false })
    else if custom_offset == 0x04c
    then set_regs b (record r { bltbpt = make_ptr (r.bltbpt) value true })
    else if custom_offset == 0x04e
    then set_regs b (record r { bltbpt = make_ptr (r.bltbpt) value false })
    else if custom_offset == 0x048
    then set_regs b (record r { bltcpt = make_ptr (r.bltcpt) value true })
    else if custom_offset == 0x04a
    then set_regs b (record r { bltcpt = make_ptr (r.bltcpt) value false })
    else if custom_offset == 0x054
    then set_regs b (record r { bltdpt = make_ptr (r.bltdpt) value true })
    else if custom_offset == 0x056
    then set_regs b (record r { bltdpt = make_ptr (r.bltdpt) value false })
    else if custom_offset == 0x058
    then blitter_begin_command (
        set_regs b (record r {
          bltsize = value;
          bltsizh = or_largest 64 (bit_and value 0x003f);
          bltsizv = or_largest 1024 (bit_and (value >>> 6) 0x03ff);
        }))
    else if custom_offset == 0x05c
    then set_regs b (record r { bltsizv = or_largest 32768 (bit_and value 0x7fff) })
    else if custom_offset == 0x05e
    then blitter_begin_command
        (set_regs b (record r { bltsizh = or_largest 2048 (bit_and value 0x07ff) }))
    else b
