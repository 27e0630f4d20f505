-- ===== src/Floppy.antt =====
-- The MFM encoding of a floppy track (src/floppy/floppy_mfm.c). A byte buffer is the list of its bytes,
-- and a pointer into it the rest of the list; a pointer that may be NULL is an Option.
pub mod Sector
pub mod Clocks
pub mod Buffer
pub mod Halves
pub mod Masks
pub mod RoundTrip
pub mod Spacing
pub mod Drive
mod Tests
use rigel.Prelude.{
  ℕ, zero, suc, ◌+◌, ◌-◌, ◌*◌, ◌/◌, ◌^◌, bit_and, bit_or, bit_xor, Bool, not, ◌&&◌, List, [], ◌∷◌,
  ◌++◌, Option, none, some, u8, u16, u32, ◌<<<◌, ◌>>>◌, ◌==◌, if◌then◌else◌,
}

-- `MFM_MASK`
abbrev pub mfm_mask : ℕ
mfm_mask = 0x55555555

-- `~x` of a 32-bit word.
abbrev pub not32 : ℕ → ℕ
not32 x = bit_xor x 0xffffffff

-- The four bytes that `write_be32` stores.
unfoldable pub write_be32 : ℕ → List ℕ
write_be32 v =
    u8 (bit_and (v >>> 24) 0xff)
    ∷ u8 (bit_and (v >>> 16) 0xff)
    ∷ u8 (bit_and (v >>> 8) 0xff)
    ∷ u8 (bit_and v 0xff)
    ∷ []

-- The first four bytes as a longword; C does not say what a read past the end gives.
unfoldable pub read_be32 : List ℕ → ℕ
read_be32 (a ∷ b ∷ c ∷ d ∷ p) = bit_or (bit_or (bit_or (a <<< 24) (b <<< 16)) (c <<< 8)) d
read_be32 p = 0

-- `sum ^= (data[i] & MFM_MASK)`
unfoldable pub checksum_loop : ℕ → List ℕ → ℕ → ℕ
checksum_loop zero longs sum = sum
checksum_loop (suc n) [] sum = sum
checksum_loop (suc n) (x ∷ longs) sum = checksum_loop n longs (bit_xor sum (bit_and x mfm_mask))

unfoldable pub floppy_mfm_checksum : Option (List ℕ) → ℕ → ℕ
floppy_mfm_checksum none longwords = 0
floppy_mfm_checksum (some longs) longwords = checksum_loop longwords longs 0

-- The values stored through `even` and `odd`.
unfoldable pub floppy_mfm_encode_even_odd : ℕ → ℕ × ℕ
floppy_mfm_encode_even_odd value = (bit_and (value >>> 1) mfm_mask, bit_and value mfm_mask)

-- A round of `floppy_mfm_encode_word`, for the bit `i`.
unfoldable pub encode_bit : ℕ → ℕ → ℕ → ℕ → ℕ
encode_bit raw previous i out =
    let bit = bit_and (raw >>> i) 1 in
    let prev_data = if i == 15 then bit_and previous 1 else bit_and (raw >>> (i + 1)) 1 in
    let clock = if prev_data == 0 && bit == 0 then 1 else 0 in
    u16 (bit_or (u16 (u16 (bit_or (u16 (out <<< 1)) clock) <<< 1)) bit)

-- `for (i = 15; i >= 0; i--)`, with `n` rounds left.
unfoldable pub encode_bits : ℕ → ℕ → ℕ → ℕ → ℕ
encode_bits raw previous zero out = out
encode_bits raw previous (suc n) out = encode_bits raw previous n (encode_bit raw previous n out)

unfoldable pub floppy_mfm_encode_word : ℕ → ℕ → ℕ
floppy_mfm_encode_word raw previous = encode_bits raw previous 16 0

-- A longword with its clock bits, after the longword `prev`.
unfoldable pub clocked : ℕ → ℕ → ℕ
clocked prev word =
    let v = bit_and word mfm_mask in
    let mask1 = bit_or (u32 (prev <<< 31)) (v >>> 1) in
    let mask2 = u32 (v <<< 1) in
    let clk = bit_and (bit_and (not32 mask1) (not32 mask2)) 0xaaaaaaaa in bit_or v clk

-- `mfmcode_u32`: `longs` longwords after `prev`, which is `mfm[-1]`.
unfoldable pub mfmcode_u32 : ℕ → List ℕ → ℕ → List ℕ
mfmcode_u32 prev mfm zero = mfm
mfmcode_u32 prev [] (suc longs) = []
mfmcode_u32 prev (x ∷ mfm) (suc longs) = clocked prev x ∷ mfmcode_u32 (bit_and x mfm_mask) mfm longs
