-- ===== src/Dma.antt =====
-- DMACON (src/domains/dma/dma_domain.c over src/chipset/agnus/dma.c). Tracing has no counterpart.
mod Tests
use rigel.Prelude.{
  ℕ, ◌<◌, ◌^◌, bit_and, bit_or, ◌≡◌, refl, Bool, false, not, ◌&&◌, ◌||◌, List, [], ◌∷◌, arith, any,
  not16, if◌then◌else◌,
}
use rigel.Prelude.Bits.{testbit, any_bit}
use rigel.Setclr.{intena_apply_write, testbit-setclr, setclr-lt}

-- `RIGEL_DMACON_DMAEN` and `RIGEL_DMACON_BLTEN` in include/rigel/rigel_custom.h
abbrev pub dmacon_dmaen : ℕ
dmacon_dmaen = 0x0200

abbrev pub dmacon_blten : ℕ
dmacon_blten = 0x0040

-- `dma_state_t`
pub record DmaState : Type 0 where
  pub dmacon : ℕ
  pub enabled : Bool
  pub blitter_enabled : Bool

unfoldable pub set_enabled : DmaState → Bool → DmaState
set_enabled dma enabled = record dma { enabled = enabled }

unfoldable pub set_dmacon : DmaState → ℕ → DmaState
set_dmacon dma dmacon = record dma { dmacon = dmacon }

unfoldable pub apply_setclr : ℕ → ℕ → ℕ
apply_setclr current value =
    let mask = bit_and value 0x7fff in
    if any value 0x8000 then bit_or current mask else bit_and current (not16 mask)

unfoldable pub reset : DmaState → DmaState
reset dma = record dma { dmacon = 0; enabled = false; blitter_enabled = false }

unfoldable pub read_dmacon : DmaState → ℕ
read_dmacon dma = dma.dmacon

unfoldable pub sync_dmacon : DmaState → ℕ → DmaState
unfolding set_enabled set_dmacon
sync_dmacon dma dmacon =
    let dma' = set_enabled (set_dmacon dma dmacon) (any dmacon dmacon_dmaen) in
    record dma' { blitter_enabled = any dmacon dmacon_blten }

unfoldable pub write_dmacon : DmaState → ℕ → DmaState
unfolding set_dmacon
write_dmacon dma value =
    let dma' = set_dmacon dma (apply_setclr dma.dmacon value) in sync_dmacon dma' dma'.dmacon

unfoldable pub blitter_grants : DmaState → ℕ → ℕ
blitter_grants dma cycles = if not dma.enabled || not dma.blitter_enabled then 0 else cycles

unfoldable pub run : DmaState → List ℕ → DmaState
run dma [] = dma
run dma (v ∷ vs) = run (write_dmacon dma v) vs

-- The flags are the digits of DMACON that they stand for.
pub record IsSynced (dma : DmaState) : Type 0 where
  pub fits : dma.dmacon < 2 ^ 15
  pub master : dma.enabled ≡ testbit dma.dmacon 9
  pub blitter : dma.blitter_enabled ≡ testbit dma.dmacon 6

apply_setclr-intena :
    (current value : ℕ) → apply_setclr current value ≡ intena_apply_write current value
unfolding apply_setclr intena_apply_write
apply_setclr-intena current value = refl

write_dmacon-IsSynced : (dma : DmaState) (v : ℕ) → IsSynced dma → IsSynced (write_dmacon dma v)
unfolding write_dmacon sync_dmacon
write_dmacon-IsSynced dma v h = record {
  fits = rw (apply_setclr-intena dma.dmacon v) (setclr-lt dma.dmacon v h.fits);
  master = any_bit (apply_setclr dma.dmacon v) 9;
  blitter = any_bit (apply_setclr dma.dmacon v) 6;
}

reset-IsSynced : (dma : DmaState) → IsSynced (reset dma)
unfolding reset testbit
reset-IsSynced dma = record { fits = omega arith; master = refl; blitter = refl }

run-IsSynced : (dma : DmaState) (vs : List ℕ) → IsSynced dma → IsSynced (run dma vs)
unfolding run
run-IsSynced dma [] h = h
run-IsSynced dma (v ∷ vs) h = run-IsSynced (write_dmacon dma v) vs (write_dmacon-IsSynced dma v h)

-- After a reset and any writes to DMACON, the blitter is granted all of the cycles when both DMAEN
-- and BLTEN are set in the value that a read gives back, and none otherwise.
pub blitter_grants-run :
    (dma : DmaState) (vs : List ℕ) (cycles : ℕ)
    → let d = run (reset dma) vs in
      blitter_grants d cycles
      ≡ (if testbit (read_dmacon d) 9 && testbit (read_dmacon d) 6 then cycles else 0)
unfolding blitter_grants read_dmacon
blitter_grants-run dma vs cycles = ground (arith, run-IsSynced (reset dma) vs (reset-IsSynced dma))

-- A write to DMACON sets or clears the digits that the value names, as its bit 15 says.
dmacon_bits :
    (dma : DmaState) (v i : ℕ)
    → i < 15
    → testbit (read_dmacon (write_dmacon dma v)) i ≡ (
        if testbit v 15
        then testbit (read_dmacon dma) i || testbit v i
        else testbit (read_dmacon dma) i && not (testbit v i))
unfolding write_dmacon sync_dmacon read_dmacon
dmacon_bits dma v i h = rw (apply_setclr-intena dma.dmacon v) (testbit-setclr dma.dmacon v i h)
