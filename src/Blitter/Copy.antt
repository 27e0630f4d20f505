-- ===== src/Blitter/Copy.antt =====
-- A copy executed at once (`execute_copy_mode` and `blitter_execute_reference` of
-- src/chipset/agnus/blitter/blitter_ref.c).
use rigel.Prelude.{
  ℕ, zero, suc, ◌+◌, bit_and, Bool, true, false, ◌==◌, u32, if◌then◌else◌, from_bool, Option, none,
  some,
}
use rigel.Blitter.{
  BlitCommand, BlitterResult, BlitterState, BlitterMode, BlitterFillMode, BlitterMemory,
  sign_extend, add32, sub32, chip_read16, chip_write16,
}
use rigel.Blitter.Logic.{blitter_logic, blitter_apply_shift, blitter_fill_word}
use rigel.Blitter.Reference.{execute_line_mode}

unfoldable pub blitter_apply_a_masks : BlitCommand → ℕ → ℕ → ℕ
blitter_apply_a_masks cmd value word_index =
    let first = if word_index == 0 then bit_and value (cmd.afwm) else value in
    if u32 (word_index + 1) == cmd.width_words then bit_and first (cmd.alwm) else first

-- The word and the carry after it.
unfoldable pub blitter_apply_fill : BlitCommand → ℕ → ℕ → ℕ × ℕ
blitter_apply_fill cmd value carry = elim (cmd.fill_mode) [
  | BlitterFillMode.inclusive ↦ blitter_fill_word value carry true (cmd.descending)
  | BlitterFillMode.exclusive ↦ blitter_fill_word value carry false (cmd.descending)
  | BlitterFillMode.fill_none ↦ (value, carry)
]

pub record BlitterCopyState : Type 0 where
  pub apt : ℕ
  pub bpt : ℕ
  pub cpt : ℕ
  pub dpt : ℕ
  pub previous_a : ℕ
  pub previous_b : ℕ
  pub bhold : ℕ
  pub last_adat : ℕ
  pub last_bdat : ℕ
  pub last_cdat : ℕ
  pub last_ddat : ℕ
  pub fill_carry : ℕ
  pub zero_flag : Bool

unfoldable pub blitter_copy_state_init : BlitCommand → BlitterCopyState
blitter_copy_state_init cmd = record {
  apt = cmd.apt;
  bpt = cmd.bpt;
  cpt = cmd.cpt;
  dpt = cmd.dpt;
  previous_a = 0;
  previous_b = 0;
  bhold = cmd.bhold;
  last_adat = cmd.adat;
  last_bdat = cmd.bdat;
  last_cdat = cmd.cdat;
  last_ddat = 0;
  fill_carry = from_bool (cmd.fill_carry_in);
  zero_flag = true;
}

-- `p += modulo`, or `p -= modulo` of a descending copy.
abbrev pub move_by : Bool → ℕ → ℕ → ℕ
move_by descending p modulo =
    if descending then sub32 p (sign_extend modulo) else add32 p (sign_extend modulo)

unfoldable pub blitter_copy_advance_line : BlitterCopyState → BlitCommand → BlitterCopyState
blitter_copy_advance_line state cmd = record state {
  apt = move_by (cmd.descending) (state.apt) (cmd.amod);
  bpt = move_by (cmd.descending) (state.bpt) (cmd.bmod);
  cpt = move_by (cmd.descending) (state.cpt) (cmd.cmod);
  dpt = move_by (cmd.descending) (state.dpt) (cmd.dmod);
}

unfoldable pub blitter_copy_publish_result : BlitterCopyState → BlitterResult
blitter_copy_publish_result state = record {
  final_apt = state.apt;
  final_bpt = state.bpt;
  final_cpt = state.cpt;
  final_dpt = state.dpt;
  final_adat = state.last_adat;
  final_bdat = state.last_bdat;
  final_cdat = state.last_cdat;
  final_ddat = state.last_ddat;
  final_bhold = state.bhold;
  zero_flag = state.zero_flag;
}

-- `*ptr += increment`
abbrev pub step_pointer : Bool → ℕ → ℕ
step_pointer descending p = if descending then sub32 p 2 else add32 p 2

abbrev pub zero_result : BlitterResult
zero_result = record {
  final_apt = 0;
  final_bpt = 0;
  final_cpt = 0;
  final_dpt = 0;
  final_adat = 0;
  final_bdat = 0;
  final_cdat = 0;
  final_ddat = 0;
  final_bhold = 0;
  zero_flag = false;
}

-- The word D that waits for its write, with its address: `pending_d`, `pending_dpt` and
-- `pending_ddat`.
abbrev pub Pending : Type 0
Pending = Option (ℕ × ℕ)

module _ {ℓ} {W : Type ℓ} where
  unfoldable pub write_pending : BlitterMemory W → W → Pending → W
  write_pending mem w none = w
  write_pending mem w (some (dpt, ddat)) = chip_write16 mem w dpt ddat

  -- The value, the pointer after it and the word last observed.
  unfoldable pub blitter_fetch_word : BlitterMemory W → W → Bool → Bool → ℕ → ℕ → ℕ → ℕ × ℕ × ℕ
  blitter_fetch_word mem w enabled descending ptr latched last =
      let value = chip_read16 mem w ptr in
      if enabled then (value, step_pointer descending ptr, value) else (latched, ptr, last)

  -- The body of the loop of `execute_copy_mode` over the words of a line.
  unfoldable pub copy_word :
      BlitCommand
      → BlitterMemory W
      → ℕ
      → BlitterCopyState × Pending × W
      → BlitterCopyState × Pending × W
  copy_word cmd mem x (state, pending_d, w) =
      let d = cmd.descending in
      let (raw_adat, apt, last_adat) =
        blitter_fetch_word mem w (cmd.use_a) d (state.apt) (cmd.adat) (state.last_adat) in
      let adat = blitter_apply_a_masks cmd raw_adat x in
      let (bdat, bpt, last_bdat) =
        blitter_fetch_word mem w (cmd.use_b) d (state.bpt) (cmd.bdat) (state.last_bdat) in
      let (cdat, cpt, last_cdat) =
        blitter_fetch_word mem w (cmd.use_c) d (state.cpt) (cmd.cdat) (state.last_cdat) in
      let a = blitter_apply_shift d (state.previous_a) adat (cmd.ashift) in
      let b =
        if cmd.use_b
        then blitter_apply_shift d (state.previous_b) bdat (cmd.bshift)
        else state.bhold in
      let written = write_pending mem w pending_d in
      let (word, carry) =
        blitter_apply_fill cmd (blitter_logic (cmd.minterm) a b cdat) (state.fill_carry) in
      (
        (record {
          apt = apt;
          bpt = bpt;
          cpt = cpt;
          dpt = if cmd.use_d then step_pointer d (state.dpt) else state.dpt;
          previous_a = adat;
          previous_b = if cmd.use_b then bdat else state.previous_b;
          bhold = b;
          last_adat = last_adat;
          last_bdat = last_bdat;
          last_cdat = last_cdat;
          last_ddat = word;
          fill_carry = carry;
          zero_flag = if word == 0 then state.zero_flag else false;
        }),
        (if cmd.use_d then some (state.dpt, word) else none),
        written,
      )

  -- The words from `x` on, `n` of them left.
  unfoldable pub copy_words :
      BlitCommand
      → BlitterMemory W
      → ℕ
      → ℕ
      → BlitterCopyState × Pending × W
      → BlitterCopyState × Pending × W
  copy_words cmd mem x zero s = s
  copy_words cmd mem x (suc n) s = copy_words cmd mem (suc x) n (copy_word cmd mem x s)

  -- The body of the loop over the lines.
  unfoldable pub copy_line :
      BlitCommand
      → BlitterMemory W
      → BlitterCopyState × Pending × W
      → BlitterCopyState × Pending × W
  copy_line cmd mem (state, pending_d, w) =
      let begun = record state { fill_carry = from_bool (cmd.fill_carry_in) } in
      let (after, left, written) = copy_words cmd mem 0 (cmd.width_words) (begun, pending_d, w) in
      (blitter_copy_advance_line after cmd, left, written)

  unfoldable pub copy_lines :
      BlitCommand
      → BlitterMemory W
      → ℕ
      → BlitterCopyState × Pending × W
      → BlitterCopyState × Pending × W
  copy_lines cmd mem zero s = s
  copy_lines cmd mem (suc n) s = copy_lines cmd mem n (copy_line cmd mem s)

  -- Its result, `true`, is left out.
  unfoldable pub execute_copy_mode : BlitterMemory W → BlitterState × W → BlitterState × W
  execute_copy_mode mem (b, w) =
      let (state, left, written) =
        copy_lines (b.cmd) mem (b.cmd.height_lines) (blitter_copy_state_init (b.cmd), none, w) in
      ((record b { result = blitter_copy_publish_result state }), write_pending mem written left)

  -- The `bool` it returns, and the state and memory after it.
  unfoldable pub blitter_execute_reference :
      BlitterMemory W → BlitterState × W → Bool × (BlitterState × W)
  blitter_execute_reference mem (b, w) =
      let cleared = record b { result = zero_result } in
      if b.command_valid
      then elim (b.cmd.mode) [
        | BlitterMode.copy ↦ (true, execute_copy_mode mem (cleared, w))
        | BlitterMode.line ↦ (true, execute_line_mode mem (cleared, w))
      ]
      else (false, (b, w))
