-- ===== src/Cia/Board.antt =====
-- The two CIAs of the machine on one Paula, as `rigel_chipset_reset` of src/chipset/chipset.c wires
-- them, and everything that the chipset and the CPU do to them.
pub mod Wiring
use rigel.Prelude.{ℕ, ◌<◌, ◌^◌, ◌≡◌, ◌≢◌, from_bool, refl, sym, ap, ◌∙◌, true, List, [], ◌∷◌, arith}
use mathlib.Core.Path.{subst}
use rigel.Prelude.Bits.{testbit}
use rigel.Interrupt.{InterruptDomain, write_intena}
use rigel.Interrupt
use rigel.Interrupt.Registers.{IsSynced, write_intena-IsSynced, reset-IsSynced, register_bits}
use rigel.Interrupt.Priority.{IsHighest, compute_ipl-IsHighest}
use rigel.Cia.State.{CiaId, port_a, port_b, CiaState, Link}
use rigel.Cia.Irq.{irq_pending, sync_irq_line}
use rigel.Cia.Tod.{tod_pulse}
use rigel.Cia.Ports.{
  set_cnt_level, set_flag_level, set_sp_level, pulse_cnt, set_external_pra, set_external_prb,
}
use rigel.Cia.Chip.{cia_init, cia_reset, cia_step, attach_paula, read_reg, receive_sdr, write_reg}
use rigel.Cia.Line.{line, IsWired, Follows, Quiet, Quiet-Follows, sync-IsWired, sync_others}
use rigel.Cia.Line.Parts.{count_cnt-Follows}
use rigel.Cia.Line.Whole.{
  tod_pulse-Follows, step-Follows, cnt_level-Follows, flag_level-Follows, receive_sdr-Follows,
  pins-Quiet, write_reg-Follows, read_reg-Follows, reset-Follows,
}

-- What is done to one chip.
pub data ChipOp : Type 0 where
  write : ℕ → ℕ → ChipOp
  read : ℕ → ChipOp
  step : ℕ → ChipOp
  pulse_tod : ℕ → ChipOp
  count_cnt : ℕ → ChipOp
  cnt_pin : ℕ → ChipOp
  flag_pin : ℕ → ChipOp
  sp_pin : ℕ → ChipOp
  receive : ℕ → ChipOp
  pins_a : ℕ → ChipOp
  pins_b : ℕ → ChipOp
  restart : ChipOp

unfoldable pub chip_op : ChipOp → Link → Link
chip_op (write reg v) s = write_reg s reg v
chip_op (read reg) s = (read_reg s reg).0
chip_op (step n) s = cia_step s n
chip_op (pulse_tod n) s = tod_pulse s n
chip_op (count_cnt n) s = pulse_cnt s n
chip_op (cnt_pin v) s = set_cnt_level s v
chip_op (flag_pin v) s = set_flag_level s v
chip_op (sp_pin v) s = record s { cia = set_sp_level s.cia v }
chip_op (receive v) s = (receive_sdr s v).0
chip_op (pins_a v) s = record s { cia = set_external_pra s.cia v }
chip_op (pins_b v) s = record s { cia = set_external_prb s.cia v }
chip_op restart s = cia_reset s

pub record Board : Type 0 where
  pub cia_a : CiaState
  pub cia_b : CiaState
  pub paula : InterruptDomain

abbrev link_a : Board → Link
link_a b = record { cia = b.cia_a; paula = b.paula }

abbrev link_b : Board → Link
link_b b = record { cia = b.cia_b; paula = b.paula }

-- An operation on either chip, or a write of the CPU to INTENA.
pub data BoardOp : Type 0 where
  on_a : ChipOp → BoardOp
  on_b : ChipOp → BoardOp
  enable : ℕ → BoardOp

unfoldable pub board_op : Board → BoardOp → Board
unfolding chip_op
board_op b (on_a o) = let s = chip_op o (link_a b) in record b { cia_a = s.cia; paula = s.paula }
board_op b (on_b o) = let s = chip_op o (link_b b) in record b { cia_b = s.cia; paula = s.paula }
board_op b (enable v) = record b { paula = write_intena b.paula v }

unfoldable pub run : Board → List BoardOp → Board
unfolding board_op
run b [] = b
run b (o ∷ os) = run (board_op b o) os

-- The lines of `rigel_chipset_reset` about the CIAs.
unfoldable pub board_reset : InterruptDomain → Board
board_reset paula =
    let a0 = cia_init paula port_a in
    let b0 = cia_init a0.paula port_b in
    let a = attach_paula (record { cia = a0.cia; paula = b0.paula }) in
    let b = attach_paula (record { cia = b0.cia; paula = a.paula }) in
    let outputs = record (a.cia) { ddra = 0x03 } in
    record { cia_a = set_external_pra outputs 0xff; cia_b = b.cia; paula = b.paula }
