-- ===== src/Floppy/Sector.antt =====
-- Sectors and tracks (`floppy_mfm_encode_sector` and `floppy_mfm_encode_track`).
use rigel.Prelude.{
  ℕ, zero, suc, ◌+◌, ◌-◌, ◌*◌, ◌/◌, ◌^◌, bit_and, bit_or, bit_xor, List, [], ◌∷◌, ◌++◌, Option,
  none, some, u32, ◌<<<◌, ◌>>>◌, ltb, leb, if◌then◌else◌, truth,
}
use rigel.Floppy.{mfm_mask, write_be32, read_be32, mfmcode_u32}

abbrev pub amiga_sector_size : ℕ
amiga_sector_size = 512

abbrev pub amiga_mfm_sector_size : ℕ
amiga_mfm_sector_size = 1088

-- The rest of a buffer from an offset on, `p + n`.
unfoldable pub drop : ℕ → List ℕ → List ℕ
drop zero p = p
drop (suc n) [] = []
drop (suc n) (x ∷ p) = drop n p

-- A buffer with bytes stored from an offset on; what lies past its end is not stored.
unfoldable pub put : ℕ → List ℕ → List ℕ → List ℕ
put n bytes [] = []
put zero [] (x ∷ p) = x ∷ p
put zero (b ∷ bytes) (x ∷ p) = b ∷ put zero bytes p
put (suc n) bytes (x ∷ p) = x ∷ put n bytes p

-- `info`
unfoldable pub sector_info : ℕ → ℕ → ℕ → ℕ
sector_info track sector sectors_per_track =
    let to_gap = bit_and (u32 (sectors_per_track + (2 ^ 32 - sector))) 0xff in
    bit_or (bit_or (bit_or (0xff <<< 24) (bit_and track 0xff <<< 16)) (bit_and sector 0xff <<< 8))
      to_gap

abbrev pub odd_bits : ℕ → ℕ
odd_bits v = bit_and (v >>> 1) mfm_mask

abbrev pub even_bits : ℕ → ℕ
even_bits v = bit_and v mfm_mask

-- The longwords of the data, `read_be32(sector_data + i * 4u)`.
unfoldable pub raw_longs : ℕ → List ℕ → List ℕ
raw_longs zero p = []
raw_longs (suc n) p = read_be32 p ∷ raw_longs n (drop 4 p)

unfoldable pub odd_longs : List ℕ → List ℕ
odd_longs [] = []
odd_longs (raw ∷ rest) = odd_bits raw ∷ odd_longs rest

unfoldable pub even_longs : List ℕ → List ℕ
even_longs [] = []
even_longs (raw ∷ rest) = even_bits raw ∷ even_longs rest

-- `dck ^= odd; dck ^= even;`
unfoldable pub data_check : List ℕ → ℕ → ℕ
data_check [] dck = dck
data_check (raw ∷ rest) dck = data_check rest (bit_xor (bit_xor dck (odd_bits raw)) (even_bits raw))

-- `buf[2..271]` before the clock bits.
unfoldable pub sector_longs : ℕ → List ℕ → List ℕ
sector_longs info raws =
    let odd = odd_bits info in
    let even = even_bits info in
    let hck = bit_xor (bit_xor 0 odd) even in
    let dck = data_check raws 0 in
    odd ∷ even ∷ 0 ∷ 0 ∷ 0 ∷ 0 ∷ 0 ∷ 0 ∷ 0 ∷ 0 ∷ hck >>> 1 ∷ hck ∷ dck >>> 1 ∷ dck ∷ odd_longs raws
    ++ even_longs raws

-- `buf` after `mfmcode_u32(buf + 2, 270u)`.
unfoldable pub sector_buf : ℕ → List ℕ → List ℕ
sector_buf info raws = 0xaaaaaaaa ∷ 0x44894489 ∷ mfmcode_u32 0x44894489 (sector_longs info raws) 270

-- `for (i = 0; i < 272u; i++) write_be32(dst + i * 4u, buf[i])`
unfoldable pub be32_bytes : List ℕ → List ℕ
be32_bytes [] = []
be32_bytes (v ∷ rest) = write_be32 v ++ be32_bytes rest

-- The buffer after it, `none` where it returns false and stores nothing.
unfoldable pub floppy_mfm_encode_sector :
    Option (List ℕ) → ℕ → Option (List ℕ) → ℕ → ℕ → ℕ → Option (List ℕ)
floppy_mfm_encode_sector none dst_size sector_data track sector sectors_per_track = none
floppy_mfm_encode_sector (some dst) dst_size none track sector sectors_per_track = none
floppy_mfm_encode_sector (some dst) dst_size (some bytes) track sector sectors_per_track =
    let raws = raw_longs 128 bytes in
    let buf = sector_buf (sector_info track sector sectors_per_track) raws in
    if ltb dst_size amiga_mfm_sector_size then none else some (put 0 (be32_bytes buf) dst)

-- The leading gap: the buffer and `pos` after `n` longwords of it.
unfoldable pub gap_loop : ℕ → List ℕ × ℕ → List ℕ × ℕ
gap_loop zero s = s
gap_loop (suc n) (dst, pos) = gap_loop n (put pos (write_be32 0xaaaaaaaa) dst, u32 (pos + 4))

-- The longword before `pos`.
abbrev pub before : List ℕ → ℕ → ℕ
before dst pos = if leb 4 pos then read_be32 (drop (pos - 4) dst) else 0

-- What the buffer `dst` is after a call that may store into it.
abbrev pub stored : List ℕ → ℕ → Option (List ℕ) → List ℕ
stored dst pos none = dst
stored dst pos (some rest) = put pos rest dst

-- A round of the loop over the sectors.
unfoldable pub track_round : List ℕ → ℕ → ℕ → ℕ → List ℕ × ℕ → List ℕ × ℕ
track_round track_data track sectors_per_track sec (dst, pos) =
    let prev_last_bit = bit_and (before dst pos) 1 in
    let encoded =
      floppy_mfm_encode_sector (some (drop pos dst)) amiga_mfm_sector_size
        (some (drop (u32 (sec * amiga_sector_size)) track_data)) track sec sectors_per_track in
    let first = if truth prev_last_bit then 0x2aaaaaaa else 0xaaaaaaaa in
    (put pos (write_be32 first) (stored dst pos encoded), u32 (pos + amiga_mfm_sector_size))

-- The rounds from `sec` on, `n` of them left.
unfoldable pub track_loop : List ℕ → ℕ → ℕ → ℕ → ℕ → List ℕ × ℕ → List ℕ × ℕ
track_loop track_data track sectors_per_track sec zero s = s
track_loop track_data track sectors_per_track sec (suc n) s =
    track_loop track_data track sectors_per_track (suc sec) n
      (track_round track_data track sectors_per_track sec s)

-- The trailing longword.
unfoldable pub track_tail : ℕ → List ℕ × ℕ → List ℕ
track_tail dst_size (dst, pos) =
    if leb (u32 (pos + 4)) (u32 dst_size)
    then put pos (be32_bytes (mfmcode_u32 (before dst pos) (0 ∷ []) 1)) dst
    else dst

unfoldable pub floppy_mfm_encode_track :
    Option (List ℕ) → ℕ → Option (List ℕ) → ℕ → ℕ → Option (List ℕ)
floppy_mfm_encode_track none dst_size track_data track sectors_per_track = none
floppy_mfm_encode_track (some dst) dst_size none track sectors_per_track = none
floppy_mfm_encode_track (some dst) dst_size (some bytes) track sectors_per_track =
    let data_bytes = u32 (sectors_per_track * amiga_mfm_sector_size) in
    let gapsize = if ltb data_bytes dst_size then u32 (dst_size - data_bytes) else 0 in
    let gap_words = if ltb 1 (gapsize / 4) then gapsize / 4 - 1 else 0 in
    let gap = gap_loop gap_words (dst, 0) in
    let sectors = track_loop bytes track sectors_per_track 0 sectors_per_track gap in
    if ltb dst_size data_bytes then none else some (track_tail dst_size sectors)
