-- ===== src/Blitter/Reference.antt =====
-- A blit executed at once (blitter_ref.c of src/chipset/agnus/blitter).
use rigel.Prelude.{
  ℕ, zero, suc, ◌+◌, ◌-◌, ◌^◌, bit_and, bit_or, Bool, true, false, not, ◌&&◌, ◌||◌, any, leb, ◌==◌,
  u8, u16, ◌<<<◌, ◌>>>◌, if◌then◌else◌,
}
use rigel.Blitter.{
  BlitCommand, BlitterResult, BlitterState, BlitterMemory, chip_addr, sign_extend, add32, sub32,
  chip_read16, chip_write16,
}
use rigel.Blitter.Logic.{blitter_logic}

-- The local variables of `execute_line_mode` that its loop changes.
pub record LineLocals : Type 0 where
  pub error : ℕ
  pub x_shift : ℕ
  pub one_dot_count : ℕ
  pub pattern : ℕ
  pub cpt : ℕ
  pub zero_flag : Bool
  pub sign : Bool
  pub last_cdat : ℕ
  pub final_ddat : ℕ

-- The variables a step moves, in the order x_shift, cpt, one_dot_count.
abbrev pub step_right : ℕ × ℕ × ℕ → ℕ × ℕ × ℕ
step_right (x, cpt, dots) =
    let next = u8 (x + 1) in
    if next == 16 then (0, chip_addr (add32 cpt 2), dots) else (next, cpt, dots)

abbrev pub step_left : ℕ × ℕ × ℕ → ℕ × ℕ × ℕ
step_left (x, cpt, dots) =
    if x == 0 then (15, chip_addr (sub32 cpt 2), dots) else (x - 1, cpt, dots)

abbrev pub step_down : ℕ → ℕ × ℕ × ℕ → ℕ × ℕ × ℕ
step_down cmod (x, cpt, dots) = (x, chip_addr (add32 cpt (sign_extend cmod)), 0)

abbrev pub step_up : ℕ → ℕ × ℕ × ℕ → ℕ × ℕ × ℕ
step_up cmod (x, cpt, dots) = (x, chip_addr (sub32 cpt (sign_extend cmod)), 0)

-- `if (!sign) { ... }`
unfoldable pub minor_step : BlitCommand → Bool → ℕ × ℕ × ℕ → ℕ × ℕ × ℕ
minor_step cmd sign p =
    if sign
    then p
    else if any (cmd.line_octant) 0x04
    then (if any (cmd.line_octant) 0x02 then step_up (cmd.cmod) p else step_down (cmd.cmod) p)
    else if any (cmd.line_octant) 0x02
    then step_left p
    else step_right p

-- `if (cmd->line_octant & 0x04u) { ... } else ...`
unfoldable pub major_step : BlitCommand → ℕ × ℕ × ℕ → ℕ × ℕ × ℕ
major_step cmd p =
    if any (cmd.line_octant) 0x04
    then (if any (cmd.line_octant) 0x01 then step_left p else step_right p)
    else if any (cmd.line_octant) 0x01
    then step_up (cmd.cmod) p
    else step_down (cmd.cmod) p

module _ {ℓ} {W : Type ℓ} where
  -- The body of the loop of `execute_line_mode`.
  unfoldable pub line_body : BlitCommand → BlitterMemory W → LineLocals × W → LineLocals × W
  line_body cmd mem (v, w) =
      let cval = if cmd.use_c then chip_read16 mem w (v.cpt) else cmd.cdat in
      let ahold = u16 (bit_and (cmd.adat) (cmd.afwm) >>> v.x_shift) in
      let bhold = if any (v.pattern) 1 then 0xffff else 0 in
      let dval = blitter_logic (cmd.minterm) ahold bhold cval in
      let write_pixel = not (cmd.line_single_dot) || v.one_dot_count == 0 in
      let written = if cmd.use_c && write_pixel then chip_write16 mem w (v.cpt) dval else w in
      let error =
        if cmd.use_a
        then (if v.sign then u16 (v.error + cmd.bmod) else u16 (v.error + cmd.amod))
        else v.error in
      let (x_shift, cpt, one_dot_count) =
        major_step cmd (minor_step cmd (v.sign) (v.x_shift, v.cpt, u8 (v.one_dot_count + 1))) in
      (
        (record {
          error = error;
          x_shift = x_shift;
          one_dot_count = one_dot_count;
          pattern = u16 (bit_or (v.pattern <<< 1) (v.pattern >>> 15));
          cpt = cpt;
          zero_flag = if dval == 0 then v.zero_flag else false;
          sign = leb (2 ^ 15) error;
          last_cdat = cval;
          final_ddat = dval;
        }),
        written,
      )

  -- The loop with `n` rounds left.
  unfoldable pub line_loop : BlitCommand → BlitterMemory W → ℕ → LineLocals × W → LineLocals × W
  line_loop cmd mem zero s = s
  line_loop cmd mem (suc n) s = line_loop cmd mem n (line_body cmd mem s)

-- The variables before the loop.
unfoldable pub line_locals : BlitCommand → LineLocals
line_locals cmd = record {
  error = bit_and (cmd.apt) 0xffff;
  x_shift = bit_and (cmd.line_start_bit) 0x0f;
  one_dot_count = 0;
  pattern =
      if cmd.bshift == 0
      then cmd.bdat
      else u16 (bit_or (cmd.bdat >>> cmd.bshift) (cmd.bdat <<< (16 - cmd.bshift)));
  cpt = chip_addr (cmd.cpt);
  zero_flag = true;
  sign = cmd.line_initial_sign;
  last_cdat = cmd.cdat;
  final_ddat = 0;
}

-- The result of a line without pixels.
unfoldable pub empty_line_result : BlitCommand → BlitterResult
empty_line_result cmd = record {
  final_apt = cmd.apt;
  final_bpt = cmd.bpt;
  final_cpt = cmd.cpt;
  final_dpt = cmd.dpt;
  final_adat = cmd.adat;
  final_bdat = cmd.bdat;
  final_cdat = cmd.cdat;
  final_ddat = 0;
  final_bhold = cmd.bhold;
  zero_flag = true;
}

unfoldable pub line_result : BlitCommand → LineLocals → BlitterResult
line_result cmd v = record {
  final_apt = bit_or (bit_and (cmd.apt) 0xffff0000) (v.error);
  final_bpt = cmd.bpt;
  final_cpt = v.cpt;
  final_dpt = v.cpt;
  final_adat = cmd.adat;
  final_bdat = cmd.bdat;
  final_cdat = v.last_cdat;
  final_ddat = v.final_ddat;
  final_bhold = cmd.bhold;
  zero_flag = v.zero_flag;
}

module _ {ℓ} {W : Type ℓ} where
  -- Its result, `true`, is left out.
  unfoldable pub execute_line_mode : BlitterMemory W → BlitterState × W → BlitterState × W
  execute_line_mode mem (b, w) =
      let (v, drawn) = line_loop (b.cmd) mem (b.cmd.height_lines) (line_locals (b.cmd), w) in
      if b.cmd.height_lines == 0
      then ((record b { result = empty_line_result (b.cmd) }), w)
      else ((record b { result = line_result (b.cmd) v }), drawn)
