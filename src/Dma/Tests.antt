-- ===== src/Dma/Tests.antt =====
-- DMACON on concrete writes.
use rigel.Prelude.{ℕ, ◌≡◌, any, false, List, [], ◌∷◌}
use rigel.Prelude.Bits.{testbit}
use rigel.Dma.{
  DmaState, reset, run, apply_setclr, sync_dmacon, write_dmacon, read_dmacon, blitter_grants,
  blitter_grants-run,
}

abbrev off : DmaState
off = record { dmacon = 0; enabled = false; blitter_enabled = false }

-- Both enables on, then the blitter's off and on again.
abbrev writes : List ℕ
writes = 0x8240 ∷ 0x0040 ∷ 0x8040 ∷ []

blitter_grants-run_example : blitter_grants (run (reset off) writes) 7 ≡ 7
unfolding run write_dmacon reset testbit read_dmacon sync_dmacon apply_setclr any
blitter_grants-run_example = blitter_grants-run off writes 7
