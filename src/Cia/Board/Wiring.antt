-- ===== src/Cia/Board/Wiring.antt =====
-- The lines of the two CIAs of Cia/Board to Paula, through every operation on the machine.
use rigel.Prelude.{ℕ, ◌<◌, ◌^◌, ◌≡◌, ◌≢◌, from_bool, refl, sym, ap, ◌∙◌, true, List, [], ◌∷◌, arith}
use mathlib.Core.Path.{subst}
use rigel.Prelude.Bits.{testbit}
use rigel.Interrupt.{InterruptDomain, write_intena}
use rigel.Interrupt
use rigel.Interrupt.Registers.{IsSynced, write_intena-IsSynced, reset-IsSynced, register_bits}
use rigel.Interrupt.Priority.{IsHighest, compute_ipl-IsHighest}
use rigel.Cia.State.{CiaId, port_a, port_b, CiaState, Link}
use rigel.Cia.Irq.{irq_pending, sync_irq_line}
use rigel.Cia.Ports.{pulse_cnt, set_external_pra}
use rigel.Cia.Chip.{cia_init, attach_paula}
use rigel.Cia.Line.{line, IsWired, Follows, Quiet, Quiet-Follows, sync-IsWired, sync_others}
use rigel.Cia.Line.Parts.{count_cnt-Follows}
use rigel.Cia.Line.Whole.{
  tod_pulse-Follows, step-Follows, cnt_level-Follows, flag_level-Follows, receive_sdr-Follows,
  pins-Quiet, write_reg-Follows, read_reg-Follows, reset-Follows,
}
use rigel.Cia.Board.{
  ChipOp, write, read, step, pulse_tod, count_cnt, cnt_pin, flag_pin, sp_pin, receive, pins_a,
  pins_b, restart, chip_op, Board, link_a, link_b, BoardOp, on_a, on_b, enable, board_op, run,
  board_reset,
}

chip_op-Follows : (o : ChipOp) (s : Link) → Follows s (chip_op o s)
unfolding chip_op pulse_cnt
chip_op-Follows (write reg v) s = write_reg-Follows s reg v
chip_op-Follows (read reg) s = read_reg-Follows s reg
chip_op-Follows (step n) s = step-Follows s n
chip_op-Follows (pulse_tod n) s = tod_pulse-Follows s n
chip_op-Follows (count_cnt n) s = count_cnt-Follows s n
chip_op-Follows (cnt_pin v) s = cnt_level-Follows s v
chip_op-Follows (flag_pin v) s = flag_level-Follows s v
chip_op-Follows (sp_pin v) s = Quiet-Follows s _ (pins-Quiet s.cia v).2
chip_op-Follows (receive v) s = receive_sdr-Follows s v
chip_op-Follows (pins_a v) s = Quiet-Follows s _ (pins-Quiet s.cia v).0
chip_op-Follows (pins_b v) s = Quiet-Follows s _ (pins-Quiet s.cia v).1
chip_op-Follows restart s = reset-Follows s

-- Both chips hold their lines, each with its own digit.
record IsWiredBoard (b : Board) : Type 0 where
  wired_a : IsWired (link_a b)
  wired_b : IsWired (link_b b)
  id_a : b.cia_a.id ≡ port_a
  id_b : b.cia_b.id ≡ port_b
  attached_a : b.cia_a.attached ≡ true
  attached_b : b.cia_b.attached ≡ true

-- A chip stays wired when something else moves other digits of INTREQ.
other-IsWired :
    (c : CiaState) (paula after : InterruptDomain)
    → IsWired (record { cia = c; paula = paula })
    → IsSynced after
    → testbit after.intreq (line c.id) ≡ testbit paula.intreq (line c.id)
    → IsWired (record { cia = c; paula = after })
other-IsWired c paula after w h e = record {
  synced = h;
  bit_eq = w.bit_eq;
  requested = λ on. e ∙ w.requested on;
  asserted = w.asserted;
}

lines_differ : (k l : CiaId) → k ≡ port_a → l ≡ port_b → (line l ≢ line k) × (line k ≢ line l)
lines_differ k l e f = omega (arith, ap line e, ap line f)

line-lt : (k : CiaId) → line k < 15
line-lt port_a = omega arith
line-lt port_b = omega arith

board_a-IsWired :
    (b : Board) (s : Link)
    → Follows (link_a b) s
    → IsWiredBoard b
    → IsWiredBoard (record b { cia_a = s.cia; paula = s.paula })
board_a-IsWired b s f w =
    let ne = lines_differ b.cia_a.id b.cia_b.id w.id_a w.id_b in
    record {
      wired_a = f.keeps w.wired_a;
      wired_b =
          other-IsWired b.cia_b b.paula s.paula w.wired_b (f.keeps w.wired_a).synced
            (f.others w.wired_a (line b.cia_b.id) (line-lt b.cia_b.id) ne.0);
      id_a = f.id_eq ∙ w.id_a;
      id_b = w.id_b;
      attached_a = f.attached_eq ∙ w.attached_a;
      attached_b = w.attached_b;
    }

board_b-IsWired :
    (b : Board) (s : Link)
    → Follows (link_b b) s
    → IsWiredBoard b
    → IsWiredBoard (record b { cia_b = s.cia; paula = s.paula })
board_b-IsWired b s f w =
    let ne = lines_differ b.cia_a.id b.cia_b.id w.id_a w.id_b in
    record {
      wired_a =
          other-IsWired b.cia_a b.paula s.paula w.wired_a (f.keeps w.wired_b).synced
            (f.others w.wired_b (line b.cia_a.id) (line-lt b.cia_a.id) ne.1);
      wired_b = f.keeps w.wired_b;
      id_a = w.id_a;
      id_b = f.id_eq ∙ w.id_b;
      attached_a = w.attached_a;
      attached_b = f.attached_eq ∙ w.attached_b;
    }

enable-IsWired :
    (b : Board) (v : ℕ)
    → IsWiredBoard b
    → IsWiredBoard (record b { paula = write_intena b.paula v })
enable-IsWired b v w =
    let same = ap testbit (register_bits b.paula v 0 (omega arith)).4 in
    let synced = write_intena-IsSynced b.paula v w.wired_a.synced in
    record {
      wired_a = other-IsWired b.cia_a b.paula _ w.wired_a synced (λ i. same i (line b.cia_a.id));
      wired_b = other-IsWired b.cia_b b.paula _ w.wired_b synced (λ i. same i (line b.cia_b.id));
      id_a = w.id_a;
      id_b = w.id_b;
      attached_a = w.attached_a;
      attached_b = w.attached_b;
    }

op-IsWired : (b : Board) (o : BoardOp) → IsWiredBoard b → IsWiredBoard (board_op b o)
unfolding board_op
op-IsWired b (on_a o) w = board_a-IsWired b _ (chip_op-Follows o (link_a b)) w
op-IsWired b (on_b o) w = board_b-IsWired b _ (chip_op-Follows o (link_b b)) w
op-IsWired b (enable v) w = enable-IsWired b v w

run-IsWired : (b : Board) (os : List BoardOp) → IsWiredBoard b → IsWiredBoard (run b os)
unfolding run
run-IsWired b [] w = w
run-IsWired b (o ∷ os) w = run-IsWired (board_op b o) os (op-IsWired b o w)

-- A new chip has its id and its digit, and has not touched Paula.
init_lem :
    (paula : InterruptDomain) (k : CiaId)
    → ((cia_init paula k).cia.id ≡ k)
      × ((cia_init paula k).cia.paula_irq_bit ≡ 2 ^ line k)
      × ((cia_init paula k).paula ≡ paula)
unfolding cia_init sync_irq_line
init_lem paula port_a = (refl, refl, refl)
init_lem paula port_b = (refl, refl, refl)

attach-id :
    (s : Link) → ((attach_paula s).cia.id ≡ s.cia.id) × ((attach_paula s).cia.attached ≡ true)
unfolding attach_paula sync_irq_line
attach-id s = ground arith

attach-IsWired :
    (s : Link)
    → IsSynced s.paula
    → s.cia.paula_irq_bit ≡ 2 ^ line s.cia.id
    → IsWired (attach_paula s)
unfolding attach_paula
attach-IsWired s h e = sync-IsWired (record s { cia = record (s.cia) { attached = true } }) h e

attach_others :
    (s : Link) (i : ℕ)
    → i < 15
    → s.cia.paula_irq_bit ≡ 2 ^ line s.cia.id
    → i ≢ line s.cia.id
    → testbit (attach_paula s).paula.intreq i ≡ testbit s.paula.intreq i
unfolding attach_paula
attach_others s i h e ne =
    sync_others (record s { cia = record (s.cia) { attached = true } }) i h e ne

outputs-Quiet : (c : CiaState) → Quiet c (set_external_pra (record c { ddra = 0x03 }) 0xff)
unfolding set_external_pra
outputs-Quiet c = ground arith

board_reset-IsWired : (paula : InterruptDomain) → IsSynced paula → IsWiredBoard (board_reset paula)
unfolding board_reset
board_reset-IsWired paula h =
    let a0 = cia_init paula port_a in
    let b0 = cia_init a0.paula port_b in
    let ia = init_lem paula port_a in
    let ib = init_lem a0.paula port_b in
    let sa : Link = record { cia = a0.cia; paula = b0.paula } in
    let a = attach_paula sa in
    let sb : Link = record { cia = b0.cia; paula = a.paula } in
    let synced : IsSynced b0.paula = subst IsSynced (sym (ib.2 ∙ ia.2)) h in
    let wa = attach-IsWired sa synced (ia.1 ∙ (rw ia.0)) in
    let wb = attach-IsWired sb wa.synced (ib.1 ∙ (rw ib.0)) in
    let id_a = (attach-id sa).0 ∙ ia.0 in
    let ne = lines_differ a.cia.id b0.cia.id id_a ib.0 in
    let q = outputs-Quiet a.cia in
    let moved =
      other-IsWired a.cia a.paula (attach_paula sb).paula wa wb.synced
        (attach_others sb (line a.cia.id) (line-lt a.cia.id) (ib.1 ∙ (rw ib.0)) ne.1) in
    record {
      wired_a =
          (Quiet-Follows (record { cia = a.cia; paula = (attach_paula sb).paula }) _ q).keeps moved;
      wired_b = wb;
      id_a = q.same.id_eq ∙ id_a;
      id_b = (attach-id sb).0 ∙ ib.0;
      attached_a = q.same.attached_eq ∙ (attach-id sa).1;
      attached_b = (attach-id sb).1;
    }

-- After the reset of the chipset and any operations on the two CIAs and writes to INTENA, PORTS of
-- INTREQ says whether CIA-A has an enabled interrupt pending and EXTER whether CIA-B has, each
-- `irq_asserted` agrees, and the level for the CPU is the highest among the requested and enabled
-- sources.
pub run-lines :
    (paula : InterruptDomain) (os : List BoardOp)
    → let b = run (board_reset (Interrupt.reset paula)) os in
      (testbit b.paula.intreq 3 ≡ irq_pending b.cia_a)
      × (testbit b.paula.intreq 13 ≡ irq_pending b.cia_b)
      × (b.cia_a.irq_asserted ≡ from_bool (irq_pending b.cia_a))
      × (b.cia_b.irq_asserted ≡ from_bool (irq_pending b.cia_b))
      × IsHighest b.paula b.paula.ipl
run-lines paula os =
    let w =
      run-IsWired (board_reset (Interrupt.reset paula)) os
        (board_reset-IsWired (Interrupt.reset paula) (reset-IsSynced paula)) in
    let b = run (board_reset (Interrupt.reset paula)) os in
    (
      ap (λ k. testbit b.paula.intreq (line k)) (sym w.id_a) ∙ w.wired_a.requested w.attached_a,
      ap (λ k. testbit b.paula.intreq (line k)) (sym w.id_b) ∙ w.wired_b.requested w.attached_b,
      w.wired_a.asserted w.attached_a,
      w.wired_b.asserted w.attached_b,
      subst (IsHighest b.paula) (sym w.wired_a.synced.cached) (compute_ipl-IsHighest b.paula),
    )
