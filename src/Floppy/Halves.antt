-- ===== src/Floppy/Halves.antt =====
-- The odd and the even bits of a longword, with clock bits or without.
use rigel.Prelude.{
  ℕ, inl, inr, Bool-cases, ◌+◌, ◌-◌, ◌/◌, ◌%◌, ◌<◌, ◌^◌, ◌≡◌, arith, ◌∙◌, bit_and, bit_or, List, [],
  ◌∷◌, ◌<<<◌, ◌&&◌, ◌==◌, leb,
}
use rigel.Prelude.Bits.{testbit, testbit-or, bits_ext, bit_or-lt, bit_and-le_right}
use rigel.Prelude.Shifts.{testbit_shl, testbit_shr}
use rigel.Floppy.{mfm_mask, clocked}
use rigel.Floppy.Sector.{odd_bits, even_bits}
use rigel.Floppy.Clocks.{data_bit, clocked_data}

-- A longword put together from its odd and its even bits.
unfoldable pub joined : ℕ → ℕ → ℕ
joined odd even = bit_or (bit_and odd mfm_mask <<< 1) (bit_and even mfm_mask)

unfoldable pub join_longs : List ℕ → List ℕ → List ℕ
join_longs [] evens = []
join_longs (o ∷ odds) [] = []
join_longs (o ∷ odds) (e ∷ evens) = joined o e ∷ join_longs odds evens

pub clocked-lt : (p w : ℕ) → clocked p w < 2 ^ 32
unfolding clocked
clocked-lt p w =
    bit_or-lt 32 _ _ (omega (arith, bit_and-le_right w mfm_mask))
      (omega (arith, bit_and-le_right _ 0xaaaaaaaa))

pub masked_same : (p w : ℕ) → bit_and (clocked p w) mfm_mask ≡ bit_and w mfm_mask
masked_same p w =
    bits_ext 32 (bit_and (clocked p w) mfm_mask) (bit_and w mfm_mask)
      (omega (arith, bit_and-le_right (clocked p w) mfm_mask))
      (omega (arith, bit_and-le_right w mfm_mask))
      (λ i h. data_bit (clocked p w) i h ∙ (elim (Bool-cases (i % 2 == 0)) [
        | inl e ↦ ground (arith, data_bit w i h, clocked_data p w i h (ground arith))
        | inr e ↦ ground (arith, data_bit w i h)
      ]))

pub even_at :
    (raw i : ℕ)
    → i < 32
    → testbit (bit_and (even_bits raw) mfm_mask) i ≡ (testbit raw i && i % 2 == 0)
even_at raw i h = ground (arith, data_bit (even_bits raw) i h, data_bit raw i h)

pub odd_at :
    (raw i : ℕ)
    → i < 32
    → testbit (bit_and (odd_bits raw) mfm_mask) i ≡ (testbit raw (1 + i) && i % 2 == 0)
odd_at raw i h =
    ground (arith, data_bit (odd_bits raw) i h, data_bit (raw / 2 ^ 1) i h, testbit_shr raw 1 i)

pub joined_raw : (raw : ℕ) → raw < 2 ^ 32 → joined (odd_bits raw) (even_bits raw) ≡ raw
unfolding joined
joined_raw raw h =
    let high = bit_and (odd_bits raw) mfm_mask in
    let low = bit_and (even_bits raw) mfm_mask in
    bits_ext 32 (bit_or (high <<< 1) low) raw
      (bit_or-lt 32 (high <<< 1) low (omega (arith, bit_and-le_right (odd_bits raw) mfm_mask))
        (omega (arith, bit_and-le_right (even_bits raw) mfm_mask)))
      h
      (λ i lt.
        testbit-or (high <<< 1) low i
        ∙ (rw (testbit_shl high 1 i, even_at raw i lt)
            (elim (Bool-cases (leb 1 i)) [
              | inl e ↦
                  let f : 1 + (i - 1) ≡ i = ground arith in
                  rw (odd_at raw (i - 1) (omega arith), f) (ground arith)
              | inr e ↦ rw e (ground arith)
            ])))
