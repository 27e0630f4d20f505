-- ===== src/Copper/Compare.antt =====
-- What the masked comparison of WAIT and SKIP means.
use rigel.Prelude.{
  ℕ, ◌+◌, ◌*◌, ◌/◌, ◌%◌, ◌^◌, ◌<◌, ◌≤◌, ◌≡◌, refl, ◌∙◌, bit_and, bit_xor, arith, leb, u16, xor, any,
  true, false,
}
use native.Mathlib.Decide.{dec_lt}
use native.Mathlib.Nat.{mul-le-mul_right}
use rigel.Prelude.Digits.{and_lowest}
use rigel.Prelude.Bits.{testbit, testbit-and, testbit_flip, bits_ext, bit_and-le_right, any_bit}
use rigel.Prelude.Shifts.{bit_and_mask, shift_or, testbit_shr}
use rigel.Copper.{CopperState, masked, copper_beam_cmp, copper_wait_arm, copper_wait_satisfied}

even_part : (h : ℕ) → bit_and (bit_and h 0xfe) 0xfe ≡ h / 2 % 128 * 2
even_part h = ground (
  arith,
  and_lowest h 0xfe,
  and_lowest (bit_and h 0xfe) 0xfe,
  bit_and_mask 7 (h / 2),
  bit_and_mask 7 (bit_and h 0xfe / 2),
)

masked_full : (v h : ℕ) → masked v h 0xff 0xfe ≡ v % 256 * 256 + h / 2 % 128 * 2
masked_full v h =
    let e = even_part h in
    let hi : u16 (bit_and v 0xff) ≡ v % 256 = omega (arith, bit_and_mask 8 v) in
    rw (e, hi, shift_or 8 (h / 2 % 128 * 2) (v % 256) (omega arith)) (omega arith)

-- Line by line, then clock by clock, is the order of the positions.
lexicographic :
    (v h wv wh lc : ℕ)
    → h < lc
    → wh < lc
    → lc ≤ 256
    → wh % 2 ≡ 0
    → leb (wv * 256 + wh) (v * 256 + h / 2 * 2) ≡ leb (wv * lc + wh) (v * lc + h)
lexicographic v h wv wh lc hh hw hl even = elim (dec_lt v wv) [
  | yes lt ↦ ground (arith, mul-le-mul_right {m = v + 1} {n = wv} lc (omega arith))
  | no ge ↦ elim (dec_lt wv v) [
    | yes gt ↦ ground (arith, mul-le-mul_right {m = wv + 1} {n = v} lc (omega arith))
    | no le ↦ let e : v ≡ wv = omega arith in rw e (ground arith)
  ]
]

-- With full masks, and on the first 256 lines, the comparison is the order of the positions.
pub copper_beam_cmp-position :
    (v h wv wh lc : ℕ)
    → v < 256
    → wv < 256
    → h < lc
    → wh < lc
    → lc ≤ 256
    → wh % 2 ≡ 0
    → copper_beam_cmp v h wv wh 0xff 0xfe ≡ leb (wv * lc + wh) (v * lc + h)
unfolding copper_beam_cmp
copper_beam_cmp-position v h wv wh lc hv hwv hh hw hl even =
    rw (masked_full v h, masked_full wv wh)
      (ground arith ∙ lexicographic v h wv wh lc hh hw hl even)

-- Only the low eight digits of the lines count.
pub copper_beam_cmp-mod :
    (v h wv wh : ℕ)
    → copper_beam_cmp v h wv wh 0xff 0xfe ≡ copper_beam_cmp (v % 256) h wv wh 0xff 0xfe
unfolding copper_beam_cmp
copper_beam_cmp-mod v h wv wh = rw (masked_full v h, masked_full (v % 256) h) (ground arith)

-- A digit that the mask drops may change.
xor_masked : (v m : ℕ) → m < 2 ^ 8 → testbit m 7 ≡ false → bit_and (bit_xor v 0x80) m ≡ bit_and v m
unfolding xor
xor_masked v m h off =
    bits_ext 8 (bit_and (bit_xor v 0x80) m) (bit_and v m)
      (omega (arith, bit_and-le_right (bit_xor v 0x80) m)) (omega (arith, bit_and-le_right v m))
      (λ i lt. elim (dec_lt i 7) [
        | yes low ↦
            ground (arith, testbit-and (bit_xor v 0x80) m i, testbit-and v m i, testbit_flip v 7 i)
        | no high ↦
            let e : i ≡ 7 = omega arith in
            rw (e, testbit-and (bit_xor v 0x80) m 7, testbit-and v m 7, off) (ground arith)
      ])

-- A WAIT whose second word has digit 15 clear waits for the blitter as well, and does not compare
-- digit 7 of the line of the beam.
arm_ignores_v7 :
    (c : CopperState) (ir1 ir2 hpos vpos : ℕ)
    → testbit ir2 15 ≡ false
    → let armed = copper_wait_arm c ir1 ir2 in
      (armed.wait_blitter ≡ true)
      × (copper_wait_satisfied armed hpos (bit_xor vpos 0x80)
          ≡ copper_wait_satisfied armed hpos vpos)
unfolding copper_wait_arm copper_wait_satisfied any
arm_ignores_v7 c ir1 ir2 hpos vpos clear =
    let m = bit_and (ir2 / 2 ^ 8) 0xff in
    let off : testbit m 7 ≡ false =
      testbit-and (ir2 / 2 ^ 8) 0xff 7 ∙ (rw (testbit_shr ir2 8 7, clear) refl) in
    let e = xor_masked vpos m (omega (arith, bit_and-le_right (ir2 / 2 ^ 8) 0xff)) off in
    (ground (arith, any_bit ir2 15), rw e refl)
