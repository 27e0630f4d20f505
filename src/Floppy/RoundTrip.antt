-- ===== src/Floppy/RoundTrip.antt =====
-- The data that an encoded sector gives back.
use mathlib.Core.Path.{ap₂}
use mathlib.Core.Option.{map}
use rigel.Prelude.{
  ℕ, zero, suc, ◌*◌, ◌<◌, ◌≤◌, ◌^◌, ◌≡◌, ap, arith, ◌∙◌, sym, bit_and, List, [], ◌∷◌, ◌++◌, some,
  length, ◌<<<◌, false, ltb,
}
use rigel.Prelude.Bits.{bit_or-lt}
use rigel.Floppy.{mfm_mask, mfmcode_u32, read_be32}
use rigel.Floppy.Sector.{
  drop, raw_longs, odd_longs, even_longs, sector_info, sector_longs, sector_buf, data_check,
  be32_bytes, floppy_mfm_encode_sector, amiga_mfm_sector_size,
}
use rigel.Floppy.Buffer.{IsBelow, below_nil, below_cons, take, longs_back, put-append}
use rigel.Floppy.Halves.{join_longs}
use rigel.Floppy.Masks.{
  masks, masks-mfmcode, mfmcode-IsBelow, length-mfmcode, masks-take, masks-drop, masks-append,
  join-masks, join_raws, length-masks, length-odd, length-even, length-raw, length-be32,
  length-append, take-append, drop-append, take_all, drop_more,
}

-- What a reader makes of the data of a sector: 128 longwords of odd bits from the longword 16 on, and as
-- many of even bits from the longword 144 on.
unfoldable pub decoded : List ℕ → List ℕ
decoded p = join_longs (raw_longs 128 (drop (4 * 16) p)) (raw_longs 128 (drop (4 * 144) p))

-- The masked longwords of a sector from the places of its data on.
odd_place :
    (info : ℕ) (raws : List ℕ)
    → drop 16 (masks (sector_buf info raws)) ≡ masks (odd_longs raws) ++ masks (even_longs raws)
unfolding sector_buf sector_longs drop masks mfmcode_u32
odd_place info raws =
    masks-mfmcode 256 (bit_and (data_check raws 0) mfm_mask) (odd_longs raws ++ even_longs raws)
    ∙ masks-append (odd_longs raws) (even_longs raws)

even_place :
    (info : ℕ) (raws : List ℕ)
    → length raws ≡ 128
    → drop 144 (masks (sector_buf info raws)) ≡ masks (even_longs raws)
even_place info raws h =
    drop_more 16 128 (masks (sector_buf info raws))
    ∙ ap (drop 128) (odd_place info raws)
    ∙ drop-append 128 (masks (odd_longs raws)) (masks (even_longs raws))
        (length-masks (odd_longs raws) ∙ length-odd raws ∙ h)

-- The halves of the data in the longwords of a sector.
halves :
    (info : ℕ) (raws : List ℕ)
    → length raws ≡ 128
    → IsBelow (2 ^ 32) raws
    → join_longs
        (take 128 (drop 16 (sector_buf info raws)))
        (take 128 (drop 144 (sector_buf info raws)))
      ≡ raws
halves info raws h i =
    let buf = sector_buf info raws in
    let odd =
      masks-take 128 (drop 16 buf)
      ∙ ap (take 128) (masks-drop 16 buf ∙ odd_place info raws)
      ∙ take-append 128 (masks (odd_longs raws)) (masks (even_longs raws))
          (length-masks (odd_longs raws) ∙ length-odd raws ∙ h) in
    let even =
      masks-take 128 (drop 144 buf)
      ∙ ap (take 128) (masks-drop 144 buf ∙ even_place info raws h)
      ∙ take_all 128 (masks (even_longs raws))
          (length-masks (even_longs raws) ∙ length-even raws ∙ h) in
    sym (join-masks (take 128 (drop 16 buf)) (take 128 (drop 144 buf)))
    ∙ ap₂ join_longs odd even
    ∙ join-masks (odd_longs raws) (even_longs raws)
    ∙ join_raws raws i

pub length-longs :
    (info : ℕ) (raws : List ℕ) → length raws ≡ 128 → length (sector_longs info raws) ≡ 270
unfolding sector_longs
length-longs info raws h =
    omega
      (arith, length-append (odd_longs raws) (even_longs raws), length-odd raws, length-even raws)

length-buf : (info : ℕ) (raws : List ℕ) → length raws ≡ 128 → length (sector_buf info raws) ≡ 272
unfolding sector_buf
length-buf info raws h =
    omega (arith, length-mfmcode 270 0x44894489 (sector_longs info raws), length-longs info raws h)

buf-IsBelow :
    (info : ℕ) (raws : List ℕ) → length raws ≡ 128 → IsBelow (2 ^ 32) (sector_buf info raws)
unfolding sector_buf
buf-IsBelow info raws h = below_cons _ _ (omega arith) (
    below_cons _ _ (omega arith) (
      mfmcode-IsBelow 270 0x44894489 (sector_longs info raws)
        (omega (arith, length-longs info raws h))))

-- What a reader finds in a buffer that begins with a sector.
decoded_buf :
    (ws rest : List ℕ)
    → IsBelow (2 ^ 32) ws
    → length ws ≡ 272
    → decoded (be32_bytes ws ++ rest) ≡ join_longs (take 128 (drop 16 ws)) (take 128 (drop 144 ws))
unfolding decoded
decoded_buf ws rest i h =
    ap₂ join_longs (longs_back 128 16 ws rest i (omega arith))
      (longs_back 128 144 ws rest i (omega arith))

read_be32-lt : (p : List ℕ) → IsBelow (2 ^ 8) p → read_be32 p < 2 ^ 32
unfolding read_be32
read_be32-lt [] i = omega arith
read_be32-lt (a ∷ []) i = omega arith
read_be32-lt (a ∷ b ∷ []) i = omega arith
read_be32-lt (a ∷ b ∷ c ∷ []) i = omega arith
read_be32-lt (a ∷ b ∷ c ∷ d ∷ p)
      (below_cons _ _ ha (below_cons _ _ hb (below_cons _ _ hc (below_cons _ _ hd i)))) =
    bit_or-lt 32 _ d
      (bit_or-lt 32 _ (c <<< 8) (bit_or-lt 32 (a <<< 24) (b <<< 16) (omega arith) (omega arith))
        (omega arith))
      (omega arith)

drop-IsBelow : (n : ℕ) (p : List ℕ) → IsBelow (2 ^ 8) p → IsBelow (2 ^ 8) (drop n p)
unfolding drop
drop-IsBelow zero p i = i
drop-IsBelow (suc n) [] i = below_nil
drop-IsBelow (suc n) (x ∷ p) (below_cons _ _ h i) = drop-IsBelow n p i

longs-IsBelow : (n : ℕ) (p : List ℕ) → IsBelow (2 ^ 8) p → IsBelow (2 ^ 32) (raw_longs n p)
unfolding raw_longs
longs-IsBelow zero p i = below_nil
longs-IsBelow (suc n) p i =
    below_cons _ _ (read_be32-lt p i) (longs-IsBelow n (drop 4 p) (drop-IsBelow 4 p i))

-- A sector encoded into a buffer that is large enough: the encoder returns true, and a reader finds in
-- the buffer the longwords of the data, whose bytes are below 256.
pub encode_sector-decoded :
    (dst bytes : List ℕ) (dst_size track sector sectors_per_track : ℕ)
    → amiga_mfm_sector_size ≤ dst_size
    → dst_size ≤ length dst
    → IsBelow (2 ^ 8) bytes
    → map decoded
        (floppy_mfm_encode_sector (some dst) dst_size (some bytes) track sector sectors_per_track)
      ≡ some (raw_longs 128 bytes)
unfolding floppy_mfm_encode_sector
encode_sector-decoded dst bytes dst_size track sector sectors_per_track h k i =
    let raws = raw_longs 128 bytes in
    let info = sector_info track sector sectors_per_track in
    let buf = sector_buf info raws in
    let l = length-raw 128 bytes in
    let e : ltb dst_size amiga_mfm_sector_size ≡ false = ground arith in
    let n = length-be32 buf in
    let fits : length (be32_bytes buf) ≤ length dst = omega (arith, n, length-buf info raws l) in
    rw e (
      ap some (
        ap decoded (put-append (be32_bytes buf) dst fits)
        ∙ decoded_buf buf (drop (length (be32_bytes buf)) dst) (buf-IsBelow info raws l)
            (length-buf info raws l)
        ∙ halves info raws l (longs-IsBelow 128 bytes i)))
