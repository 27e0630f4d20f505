-- ===== src/Cia/Line/Acknowledge.antt =====
-- Reading ICR acknowledges the interrupts of a CIA.
use rigel.Prelude.{ℕ, ◌<◌, ◌^◌, ◌≡◌, ap, ◌∙◌, true, false, arith, any}
use rigel.Prelude.Bits.{testbit, testbit_set, testbit_high, zero-and}
use rigel.Cia.State.{Link}
use rigel.Cia.Irq.{irq_pending, interrupt_read_icr}
use rigel.Cia.Irq.Frame.{sync-icr}
use rigel.Cia.Line.{line, IsWired}
use rigel.Cia.Line.Parts.{read_icr-Follows}

-- A read of ICR by an attached chip whose line is in order gives the five interrupt bits as they
-- were, and bit 7 exactly if an enabled one was set; afterwards no interrupt bit is left, the line is
-- released, and the chip's digit of INTREQ is clear.
pub read_icr_acknowledges :
    (s : Link) (i : ℕ)
    → IsWired s
    → s.cia.attached ≡ true
    → s.cia.icr_data < 2 ^ 5
    → i < 7
    → let (t, value) = interrupt_read_icr s in
      (testbit value i ≡ testbit s.cia.icr_data i)
      × (testbit value 7 ≡ irq_pending s.cia)
      × (t.cia.icr_data ≡ 0)
      × (t.cia.irq_asserted ≡ 0)
      × (testbit t.paula.intreq (line s.cia.id) ≡ false)
read_icr_acknowledges s i w on fits hi =
    let f = read_icr-Follows s in
    let after = f.keeps w in
    let t = (interrupt_read_icr s).0 in
    let empty : t.cia.icr_data ≡ 0 = unfold interrupt_read_icr in sync-icr _ in
    let idle : irq_pending t.cia ≡ false =
      unfold irq_pending any in ground (arith, empty, zero-and t.cia.icr_mask) in
    let held : t.cia.attached ≡ true = f.attached_eq ∙ on in
    (
      unfold interrupt_read_icr in ground (arith, testbit_set s.cia.icr_data 7 i),
      unfold interrupt_read_icr in
          ground (arith, testbit_set s.cia.icr_data 7 7, testbit_high 5 s.cia.icr_data 7 fits),
      empty,
      ground (arith, after.asserted held, idle),
      ground (arith, after.requested held, idle, ap line f.id_eq),
    )
