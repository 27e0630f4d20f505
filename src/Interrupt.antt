-- ===== src/Interrupt.antt =====
-- Paula's interrupt controller (src/domains/interrupt/interrupt_domain.c). The NULL guards of its
-- functions and its tracing have no counterpart: a controller is a value.
pub mod Priority
pub mod Registers
mod Tests
use rigel.Prelude.{ℕ, bit_and, bit_or, Bool, false, not, ◌||◌, any, not16, ◌==◌, if◌then◌else◌}

abbrev pub int_tbe : ℕ
int_tbe = 0x0001

abbrev pub int_dskblk : ℕ
int_dskblk = 0x0002

abbrev pub int_soft : ℕ
int_soft = 0x0004

abbrev pub int_ports : ℕ
int_ports = 0x0008

abbrev pub int_coper : ℕ
int_coper = 0x0010

abbrev pub int_vertb : ℕ
int_vertb = 0x0020

abbrev pub int_blit : ℕ
int_blit = 0x0040

abbrev pub int_aud0 : ℕ
int_aud0 = 0x0080

abbrev pub int_aud1 : ℕ
int_aud1 = 0x0100

abbrev pub int_aud2 : ℕ
int_aud2 = 0x0200

abbrev pub int_aud3 : ℕ
int_aud3 = 0x0400

abbrev pub int_rbf : ℕ
int_rbf = 0x0800

abbrev pub int_dsksyn : ℕ
int_dsksyn = 0x1000

abbrev pub int_exter : ℕ
int_exter = 0x2000

abbrev pub int_inten : ℕ
int_inten = 0x4000

abbrev pub int_setclr : ℕ
int_setclr = 0x8000

-- `RIGEL_REG_INTENAR` and its neighbours in include/rigel/rigel_custom.h
abbrev pub reg_intenar : ℕ
reg_intenar = 0x01c

abbrev pub reg_intreqr : ℕ
reg_intreqr = 0x01e

abbrev pub reg_intena : ℕ
reg_intena = 0x09a

abbrev pub reg_intreq : ℕ
reg_intreq = 0x09c

pub record InterruptDomain : Type 0 where
  pub intena : ℕ
  pub intreq : ℕ
  pub ipl : ℕ

unfoldable pub owns_reg : ℕ → Bool
owns_reg addr =
    addr == reg_intena || addr == reg_intreq || addr == reg_intenar || addr == reg_intreqr

unfoldable pub compute_ipl : InterruptDomain → ℕ
compute_ipl irq =
    let pending = bit_and irq.intreq irq.intena in
    if not (any irq.intena int_inten)
    then 0
    else if any pending int_exter
    then 6
    else if any pending (bit_or int_dsksyn int_rbf)
    then 5
    else if any pending (bit_or (bit_or (bit_or int_aud0 int_aud1) int_aud2) int_aud3)
    then 4
    else if any pending (bit_or (bit_or int_blit int_vertb) int_coper)
    then 3
    else if any pending int_ports
    then 2
    else if any pending (bit_or (bit_or int_tbe int_dskblk) int_soft)
    then 1
    else 0

unfoldable pub update : InterruptDomain → InterruptDomain
update irq = record irq { ipl = compute_ipl irq }

unfoldable pub reset : InterruptDomain → InterruptDomain
reset irq = record irq { intena = 0; intreq = 0; ipl = 0 }

unfoldable pub write_intena : InterruptDomain → ℕ → InterruptDomain
write_intena irq value =
    let mask = bit_and value 0x7fff in
    update (record irq {
      intena =
          if any value int_setclr then bit_or irq.intena mask else bit_and irq.intena (not16 mask);
    })

unfoldable pub write_intreq : InterruptDomain → ℕ → InterruptDomain
write_intreq irq value =
    let mask = bit_and value 0x7fff in
    update (record irq {
      intreq =
          if any value int_setclr then bit_or irq.intreq mask else bit_and irq.intreq (not16 mask);
    })

unfoldable pub raise : InterruptDomain → ℕ → InterruptDomain
raise irq mask = update (record irq { intreq = bit_or irq.intreq (bit_and mask 0x7fff) })

unfoldable pub clear : InterruptDomain → ℕ → InterruptDomain
clear irq mask = update (record irq { intreq = bit_and irq.intreq (not16 (bit_and mask 0x7fff)) })

unfoldable pub read_intena : InterruptDomain → ℕ
read_intena irq = irq.intena

unfoldable pub read_intreq : InterruptDomain → ℕ
read_intreq irq = irq.intreq

unfoldable pub current_ipl : InterruptDomain → ℕ
current_ipl irq = irq.ipl

unfoldable pub pending : InterruptDomain → ℕ → Bool
pending irq mask = any irq.intreq mask

unfoldable pub read_reg : InterruptDomain → ℕ → ℕ
unfolding read_intena read_intreq
read_reg irq addr =
    if addr == reg_intena || addr == reg_intenar
    then read_intena irq
    else if addr == reg_intreq || addr == reg_intreqr
    then read_intreq irq
    else 0

unfoldable pub write_reg : InterruptDomain → ℕ → ℕ → InterruptDomain
write_reg irq addr value =
    if addr == reg_intena
    then write_intena irq value
    else if addr == reg_intreq
    then write_intreq irq value
    else irq
