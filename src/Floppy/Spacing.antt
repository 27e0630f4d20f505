-- ===== src/Floppy/Spacing.antt =====
-- The stream of an encoded sector never has two ones in a row.
use rigel.Prelude.{
  ℕ, zero, suc, ◌+◌, ◌/◌, ◌<◌, ◌≤◌, ◌^◌, ◌≡◌, refl, arith, bit_and, false, ◌&&◌, List, [], ◌∷◌,
  length,
}
use rigel.Prelude.Bits.{testbit, testbit-and, testbit_high}
use rigel.Prelude.Shifts.{testbit_shr}
use rigel.Floppy.{mfm_mask, clocked, mfmcode_u32}
use rigel.Floppy.Sector.{raw_longs, sector_info, sector_longs, sector_buf}
use rigel.Floppy.Clocks.{data_bit, clocked_data, no_pair, no_pair_first}
use rigel.Floppy.Masks.{length-raw}
use rigel.Floppy.RoundTrip.{length-longs}

-- No digit of `w` and the one below it are both ones.
abbrev pub Spaced : ℕ → Type 0
Spaced w = (i : ℕ) → i < 31 → (testbit w i && testbit w (1 + i)) ≡ false

-- After the digit 0 of `p`, read from the highest digit of the first longword on, no two ones are
-- neighbours.
pub data IsSpaced : ℕ → List ℕ → Type 0 where
  spaced_nil : (p : ℕ) → IsSpaced p []
  spaced_cons :
      (p w : ℕ) (ws : List ℕ)
      → (testbit p 0 && testbit w 31) ≡ false
      → Spaced w
      → IsSpaced w ws
      → IsSpaced p (w ∷ ws)

same_digit : (p q : ℕ) (ws : List ℕ) → testbit p 0 ≡ testbit q 0 → IsSpaced p ws → IsSpaced q ws
same_digit p q [] e i = spaced_nil q
same_digit p q (w ∷ ws) e (spaced_cons _ _ _ f g i) = spaced_cons q w ws (rw (← e) f) g i

mfmcode-IsSpaced : (n p : ℕ) (ws : List ℕ) → length ws ≤ n → IsSpaced p (mfmcode_u32 p ws n)
unfolding mfmcode_u32
mfmcode-IsSpaced zero p [] h = spaced_nil p
mfmcode-IsSpaced zero p (w ∷ ws) h = absurd (omega arith)
mfmcode-IsSpaced (suc n) p [] h = spaced_nil p
mfmcode-IsSpaced (suc n) p (w ∷ ws) h =
    let v = bit_and w mfm_mask in
    let c = clocked p w in
    let e : testbit v 0 ≡ testbit c 0 =
      ground (arith, data_bit w 0 (omega arith), clocked_data p w 0 (omega arith) refl) in
    spaced_cons p c _ (no_pair_first p w) (no_pair p w)
      (same_digit v c _ e (mfmcode-IsSpaced n v ws (omega arith)))

-- A constant whose digits are no neighbours.
apart : (w : ℕ) → bit_and w (w / 2 ^ 1) ≡ 0 → Spaced w
apart w e i h =
    rw (← testbit_shr w 1 i, ← testbit-and w (w / 2 ^ 1) i, e)
      (testbit_high 0 0 i (omega arith) (omega arith))

-- The longwords of a sector, the gap and the sync marks among them, written one after the other from
-- the highest digit on: no two ones follow one another, whatever the data, the track and the sector.
pub sector_buf-IsSpaced :
    (bytes : List ℕ) (track sector sectors_per_track : ℕ)
    → IsSpaced 0 (sector_buf (sector_info track sector sectors_per_track) (raw_longs 128 bytes))
unfolding sector_buf
sector_buf-IsSpaced bytes track sector sectors_per_track =
    let raws = raw_longs 128 bytes in
    let info = sector_info track sector sectors_per_track in
    spaced_cons 0 0xaaaaaaaa _ (unfold testbit in refl) (apart 0xaaaaaaaa refl) (
      spaced_cons 0xaaaaaaaa 0x44894489 _ (unfold testbit in refl) (apart 0x44894489 refl) (
        mfmcode-IsSpaced 270 0x44894489 (sector_longs info raws)
          (omega (arith, length-longs info raws (length-raw 128 bytes)))))
