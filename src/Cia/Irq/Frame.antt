-- ===== src/Cia/Irq/Frame.antt =====
-- What an interrupt of a CIA leaves alone.
use rigel.Prelude.{ℕ, bit_and, bit_or, ◌≡◌, ap, arith}
use rigel.Cia.State.{CiaState, Link}
use rigel.Cia.Irq.{sync_irq_line, interrupt_raise}

-- Bringing the line up to date touches no field of the chip but `irq_asserted`.
pub sync-cia :
    (s : Link)
    → (sync_irq_line s).cia ≡ record (s.cia) { irq_asserted = (sync_irq_line s).cia.irq_asserted }
unfolding sync_irq_line
sync-cia s = ground arith

pub raise-cia :
    (s : Link) (mask : ℕ)
    → (interrupt_raise s mask).cia ≡ record (s.cia) {
      icr_data = bit_or s.cia.icr_data (bit_and mask 0x1f);
      irq_asserted = (interrupt_raise s mask).cia.irq_asserted;
    }
unfolding interrupt_raise
raise-cia s mask =
    sync-cia
      (record s { cia = record (s.cia) { icr_data = bit_or s.cia.icr_data (bit_and mask 0x1f) } })

module _ (s : Link) (mask : ℕ) where
  pub raise-tod : (interrupt_raise s mask).cia.tod ≡ s.cia.tod
  raise-tod = ap (λ (c : CiaState). c.tod) (raise-cia s mask)

  pub raise-icr : (interrupt_raise s mask).cia.icr_data ≡ bit_or s.cia.icr_data (bit_and mask 0x1f)
  raise-icr = ap (λ (c : CiaState). c.icr_data) (raise-cia s mask)

  pub raise-input :
      ((interrupt_raise s mask).cia.serial_in_shift ≡ s.cia.serial_in_shift)
      × ((interrupt_raise s mask).cia.serial_in_bits ≡ s.cia.serial_in_bits)
      × ((interrupt_raise s mask).cia.sdr ≡ s.cia.sdr)
      × ((interrupt_raise s mask).cia.sdr_full ≡ s.cia.sdr_full)
  raise-input = (
    ap (λ (c : CiaState). c.serial_in_shift) (raise-cia s mask),
    ap (λ (c : CiaState). c.serial_in_bits) (raise-cia s mask),
    ap (λ (c : CiaState). c.sdr) (raise-cia s mask),
    ap (λ (c : CiaState). c.sdr_full) (raise-cia s mask),
  )

  pub raise-output :
      ((interrupt_raise s mask).cia.serial_out_busy ≡ s.cia.serial_out_busy)
      × ((interrupt_raise s mask).cia.serial_out_buffer_full ≡ s.cia.serial_out_buffer_full)
      × ((interrupt_raise s mask).cia.sp_output_level ≡ s.cia.sp_output_level)
  raise-output = (
    ap (λ (c : CiaState). c.serial_out_busy) (raise-cia s mask),
    ap (λ (c : CiaState). c.serial_out_buffer_full) (raise-cia s mask),
    ap (λ (c : CiaState). c.sp_output_level) (raise-cia s mask),
  )

pub sync-icr : (s : Link) → (sync_irq_line s).cia.icr_data ≡ s.cia.icr_data
sync-icr s = ap (λ (c : CiaState). c.icr_data) (sync-cia s)
