-- ===== src/Floppy/Tests.antt =====
-- The MFM encoder on concrete data.
use mathlib.Core.Option.{map}
use rigel.Prelude.{
  ℕ, zero, suc, ◌<◌, ◌^◌, ◌≡◌, refl, ap, arith, List, [], ◌∷◌, some, length, true, from_bool, ◌==◌,
}
use rigel.Floppy.{floppy_mfm_encode_word, encode_bits, encode_bit}
use rigel.Floppy.Sector.{sector_info, sector_buf, raw_longs, floppy_mfm_encode_sector}
use rigel.Floppy.Drive.{FloppyDrive, FloppySignals, floppy_init, floppy_get_track0}
use rigel.Floppy.Drive.Seek.{IsWaiting, pulses, seeked, pulses_seek}
use rigel.Floppy.Drive.Sound.{
  IsSound, IsShowing, run, run-IsSound, insert, signal, read, eject, reset,
}
use rigel.Floppy.Buffer.{IsBelow, below_nil, below_cons}
use rigel.Floppy.RoundTrip.{decoded, encode_sector-decoded}
use rigel.Floppy.Spacing.{IsSpaced, sector_buf-IsSpaced}

abbrev repeat : ℕ → ℕ → List ℕ
repeat zero x = []
repeat (suc n) x = x ∷ repeat n x

length-repeat : (n x : ℕ) → length (repeat n x) ≡ n
length-repeat zero x = refl
length-repeat (suc n) x = ap suc (length-repeat n x)

repeat-IsBelow : (n x : ℕ) → x < 2 ^ 8 → IsBelow (2 ^ 8) (repeat n x)
repeat-IsBelow zero x h = below_nil
repeat-IsBelow (suc n) x h = below_cons x (repeat n x) h (repeat-IsBelow n x h)

encode_sector-decoded_example :
    map decoded
      (floppy_mfm_encode_sector (some (repeat 1088 0)) 1088 (some (repeat 512 0xa5)) 3 7 11)
    ≡ some (raw_longs 128 (repeat 512 0xa5))
encode_sector-decoded_example =
    encode_sector-decoded (repeat 1088 0) (repeat 512 0xa5) 1088 3 7 11 (omega arith)
      (omega (arith, length-repeat 1088 0)) (repeat-IsBelow 512 0xa5 (omega arith))

sector_buf-IsSpaced_example :
    IsSpaced 0 (sector_buf (sector_info 3 7 11) (raw_longs 128 (repeat 512 0xff)))
sector_buf-IsSpaced_example = sector_buf-IsSpaced (repeat 512 0xff) 3 7 11

-- Of a word only the low byte and the bit above it count, since the result has 16 bits.
encode_word_wide : floppy_mfm_encode_word 0xff00 0 ≡ floppy_mfm_encode_word 0x0100 0
unfolding floppy_mfm_encode_word encode_bits encode_bit
encode_word_wide = refl

-- A connected drive with its head on cylinder 2.
abbrev drive : FloppyDrive
drive = record floppy_init { connected = 1; cylinder = 2; track0 = 0 }

abbrev outward : FloppySignals
outward = record { selected = 1; motor = 1; step = 0; direction = 1; side = 0 }

drive-IsWaiting : IsWaiting drive
unfolding floppy_init
drive-IsWaiting = record { present = refl; latched = refl; cylinder_in = omega arith }

pulses_seek_example :
    let t = pulses outward 3 drive in
    (t.cylinder ≡ seeked 1 3 2) × (floppy_get_track0 t ≡ from_bool (t.cylinder == 0))
pulses_seek_example = pulses_seek 2 outward drive refl drive-IsWaiting

run-IsSound_example :
    let d =
      run floppy_init
        (insert (some (λ i. i)) 901120 ∷ signal outward ∷ read true 512 ∷ eject ∷ reset ∷ []) in
    IsSound d × IsShowing d
run-IsSound_example =
    run-IsSound
      (insert (some (λ i. i)) 901120 ∷ signal outward ∷ read true 512 ∷ eject ∷ reset ∷ [])
