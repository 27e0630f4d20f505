-- ===== src/Setclr.antt =====
-- The set/clear convention of the custom registers (src/irq/intena.c, src/irq/intreq.c and the
-- static copy in src/domains/dma/dma_domain.c): bit 15 says whether the other bits of the written
-- value are set or cleared.
use rigel.Prelude.{
  ℕ, ◌<◌, ◌^◌, bit_and, bit_or, ◌≡◌, not, ◌&&◌, ◌||◌, arith, any, not16, if◌then◌else◌,
}
use rigel.Prelude.Bits.{
  testbit, testbit-and, testbit-or, testbit-not16, ones_bit, any_bit, bit_or-lt, bit_and-lt,
  bit_and-le_right,
}

unfoldable pub intena_apply_write : ℕ → ℕ → ℕ
intena_apply_write current value =
    let mask = bit_and value 0x7fff in
    if any value 0x8000 then bit_or current mask else bit_and current (not16 mask)

unfoldable pub intreq_apply_write : ℕ → ℕ → ℕ
intreq_apply_write current value =
    let mask = bit_and value 0x7fff in
    if any value 0x8000 then bit_or current mask else bit_and current (not16 mask)

mask_bit : (v i : ℕ) → i < 15 → testbit (bit_and v 0x7fff) i ≡ testbit v i
mask_bit v i h = ground (arith, testbit-and v 0x7fff i, ones_bit 15 i h)

-- Digit `i` after a write, for the 15 digits that can be written.
pub testbit-setclr :
    (current value i : ℕ)
    → i < 15
    → testbit (intena_apply_write current value) i ≡ (
        if testbit value 15
        then testbit current i || testbit value i
        else testbit current i && not (testbit value i))
unfolding intena_apply_write
testbit-setclr current value i h = ground (
  arith,
  any_bit value 15,
  mask_bit value i h,
  testbit-or current (bit_and value 0x7fff) i,
  testbit-and current (not16 (bit_and value 0x7fff)) i,
  testbit-not16 (bit_and value 0x7fff) i,
)

-- A 15-digit register stays one.
pub setclr-lt : (current value : ℕ) → current < 2 ^ 15 → intena_apply_write current value < 2 ^ 15
unfolding intena_apply_write
setclr-lt current value h = ground (
  arith,
  bit_and-le_right value 0x7fff,
  bit_or-lt 15 current (bit_and value 0x7fff) h,
  bit_and-lt 15 current (not16 (bit_and value 0x7fff)) h,
)
