-- ===== src/Blitter/Logic.antt =====
-- The word operations of the blitter: minterms, shifts and fills (blitter_ref.c, blitter_logic.c and
-- blitter_fill.c of src/chipset/agnus/blitter).
use rigel.Prelude.{
  ℕ, zero, suc, ◌-◌, bit_and, bit_or, bit_xor, Bool, not, ◌&&◌, any, ◌==◌, truth, u8, u16, not16,
  ◌<<<◌, ◌>>>◌, if◌then◌else◌,
}

-- `if (minterm & m) D |= t`
abbrev pub or_if : ℕ → ℕ → ℕ → ℕ → ℕ
or_if minterm m t d = if any minterm m then bit_or d t else d

unfoldable pub blitter_logic : ℕ → ℕ → ℕ → ℕ → ℕ
blitter_logic minterm a b c =
    let na = not16 a in
    let nb = not16 b in
    let nc = not16 c in
    let d80 = or_if minterm 0x80 (bit_and (bit_and a b) c) 0 in
    let d40 = or_if minterm 0x40 (bit_and (bit_and a b) nc) d80 in
    let d20 = or_if minterm 0x20 (bit_and (bit_and a nb) c) d40 in
    let d10 = or_if minterm 0x10 (bit_and (bit_and a nb) nc) d20 in
    let d08 = or_if minterm 0x08 (bit_and (bit_and na b) c) d10 in
    let d04 = or_if minterm 0x04 (bit_and (bit_and na b) nc) d08 in
    let d02 = or_if minterm 0x02 (bit_and (bit_and na nb) c) d04 in
    or_if minterm 0x01 (bit_and (bit_and na nb) nc) d02

-- `(x >> bit) & 1u`
abbrev pub bit_at : ℕ → ℕ → ℕ
bit_at x bit = bit_and (x >>> bit) 1

-- The index of a bit of the minterm, from the bits of the three channels.
abbrev pub minterm_index : ℕ → ℕ → ℕ → ℕ → ℕ
minterm_index a b c bit = bit_or (bit_or (bit_at a bit <<< 2) (bit_at b bit <<< 1)) (bit_at c bit)

-- The result after the rounds for the bits below `bit`.
unfoldable pub minterm_loop : ℕ → ℕ → ℕ → ℕ → ℕ → ℕ
minterm_loop minterm a b c zero = 0
minterm_loop minterm a b c (suc bit) =
    let result = minterm_loop minterm a b c bit in
    if truth (bit_at minterm (minterm_index a b c bit))
    then bit_or result (u16 (1 <<< bit))
    else result

unfoldable pub blitter_logic_minterm : ℕ → ℕ → ℕ → ℕ → ℕ
blitter_logic_minterm minterm a b c = minterm_loop minterm a b c 16

unfoldable pub shift_ascending : ℕ → ℕ → ℕ → ℕ
shift_ascending previous current shift =
    if shift == 0 then current else u16 (bit_or (previous <<< (16 - shift)) (current >>> shift))

unfoldable pub shift_descending : ℕ → ℕ → ℕ → ℕ
shift_descending previous current shift =
    if shift == 0 then current else u16 (bit_or (previous >>> (16 - shift)) (current <<< shift))

unfoldable pub blitter_apply_shift : Bool → ℕ → ℕ → ℕ → ℕ
blitter_apply_shift descending previous current shift =
    if descending
    then shift_descending previous current shift
    else shift_ascending previous current shift

-- A round of the loop of `blitter_fill_word` in blitter_ref.c, on the result and the carry.
unfoldable pub fill_round : Bool → ℕ → ℕ → ℕ × ℕ → ℕ × ℕ
fill_round is_inclusive d i (result, c) =
    let bit = u8 (bit_at d i) in
    let toggled = if truth bit then bit_xor c 1 else c in
    let set = bit_or result (u16 (1 <<< i)) in
    if is_inclusive
    then (if truth toggled then set else result, toggled)
    else (if truth (bit_xor c bit) then set else result, toggled)

-- `for (i = 15; i >= 0; --i)`, with `n` rounds left.
unfoldable pub fill_down : Bool → ℕ → ℕ → ℕ × ℕ → ℕ × ℕ
fill_down is_inclusive d zero s = s
fill_down is_inclusive d (suc n) s = fill_down is_inclusive d n (fill_round is_inclusive d n s)

-- `for (i = 0; i <= 15; ++i)`, after `n` rounds.
unfoldable pub fill_up : Bool → ℕ → ℕ → ℕ × ℕ → ℕ × ℕ
fill_up is_inclusive d zero s = s
fill_up is_inclusive d (suc n) s = fill_round is_inclusive d n (fill_up is_inclusive d n s)

-- The `blitter_fill_word` of blitter_ref.c: the result and the carry out.
unfoldable pub blitter_fill_word : ℕ → ℕ → Bool → Bool → ℕ × ℕ
blitter_fill_word d carry is_inclusive descending =
    if not descending
    then fill_down is_inclusive d 16 (0, carry)
    else fill_up is_inclusive d 16 (0, carry)

-- A round of the loop of the other `blitter_fill_word`, in blitter_fill.c.
unfoldable pub word_round : Bool → ℕ → ℕ → ℕ × Bool → ℕ × Bool
word_round is_inclusive word bit (result, c) =
    let pixel = truth (bit_at word bit) in
    let toggled = if pixel then not c else c in
    let out = if is_inclusive then toggled else toggled && not pixel in
    (if out then bit_or result (u16 (1 <<< bit)) else result, toggled)

unfoldable pub word_loop : Bool → ℕ → ℕ → ℕ × Bool → ℕ × Bool
word_loop is_inclusive word zero s = s
word_loop is_inclusive word (suc n) s =
    word_loop is_inclusive word n (word_round is_inclusive word n s)

-- The `blitter_fill_word` of blitter_fill.c.
unfoldable pub fill_word : ℕ → Bool → Bool → ℕ × Bool
fill_word word is_inclusive carry = word_loop is_inclusive word 16 (0, carry)
