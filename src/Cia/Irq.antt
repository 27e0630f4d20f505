-- ===== src/Cia/Irq.antt =====
-- The interrupt registers of a CIA and its line to Paula (src/cia/cia_interrupt.c; `paula_irq_raise`
-- and `paula_irq_clear` of src/chipset/paula/paula.c). Logging has no counterpart.
pub mod Frame
use rigel.Prelude.{ℕ, bit_and, bit_or, Bool, not, any, not8, if◌then◌else◌}
use rigel.Interrupt.{InterruptDomain}
use rigel.Interrupt
use rigel.Cia.State.{CiaState, Link, icr_setclr}

unfoldable pub paula_irq_raise : InterruptDomain → ℕ → InterruptDomain
paula_irq_raise paula mask = Interrupt.raise paula mask

unfoldable pub paula_irq_clear : InterruptDomain → ℕ → InterruptDomain
paula_irq_clear paula mask = Interrupt.clear paula mask

unfoldable pub irq_pending : CiaState → Bool
irq_pending cia = any cia.icr_data cia.icr_mask

unfoldable pub compute_ipl : CiaState → ℕ
compute_ipl cia = if irq_pending cia then cia.irq_level else 0

unfoldable pub sync_irq_line : Link → Link
unfolding paula_irq_raise paula_irq_clear
sync_irq_line s =
    if not s.cia.attached
    then s
    else if irq_pending s.cia
    then record s {
      cia = record (s.cia) { irq_asserted = 1 };
      paula = paula_irq_raise s.paula s.cia.paula_irq_bit;
    }
    else record s {
      cia = record (s.cia) { irq_asserted = 0 };
      paula = paula_irq_clear s.paula s.cia.paula_irq_bit;
    }

unfoldable pub interrupt_reset : Link → Link
interrupt_reset s = record s {
  cia = record (s.cia) { icr_mask = 0; icr_data = 0; irq_asserted = 0 };
}

unfoldable pub interrupt_raise : Link → ℕ → Link
interrupt_raise s mask =
    sync_irq_line
      (record s { cia = record (s.cia) { icr_data = bit_or s.cia.icr_data (bit_and mask 0x1f) } })

-- The value is computed before the data register is cleared.
unfoldable pub interrupt_read_icr : Link → Link × ℕ
interrupt_read_icr s =
    let value = if irq_pending s.cia then bit_or s.cia.icr_data 0x80 else s.cia.icr_data in
    (sync_irq_line (record s { cia = record (s.cia) { icr_data = 0 } }), value)

unfoldable pub interrupt_write_icr : Link → ℕ → Link
interrupt_write_icr s value =
    let mask =
      if any value icr_setclr
      then bit_or s.cia.icr_mask (bit_and value 0x1f)
      else bit_and s.cia.icr_mask (not8 (bit_and value 0x1f)) in
    sync_irq_line (record s { cia = record (s.cia) { icr_mask = mask } })
