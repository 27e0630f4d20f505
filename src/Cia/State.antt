-- ===== src/Cia/State.antt =====
-- The state of a CIA (src/cia/cia.h) and the wire to Paula that its functions write through.
use rigel.Prelude.{ℕ, Bool}
use rigel.Interrupt.{InterruptDomain}

-- `CIA_ID`
pub data CiaId : Type 0 where
  port_a port_b : CiaId

-- `CIA_TOD_State`
pub record TodState : Type 0 where
  pub counter : ℕ
  pub alarm : ℕ
  pub latch : ℕ
  pub latched : Bool
  pub stopped : Bool
  pub subticks : ℕ
  pub ticks_per_inc : ℕ

-- `CIA_State`. `attached` says that the pointer to Paula is not NULL.
pub record CiaState : Type 0 where
  pub id : CiaId
  pub pra : ℕ
  pub prb : ℕ
  pub ddra : ℕ
  pub ddrb : ℕ
  pub ext_pra : ℕ
  pub ext_prb : ℕ
  pub sdr : ℕ
  pub sdr_full : ℕ
  pub sp_input_level : ℕ
  pub sp_output_level : ℕ
  pub cnt_output_level : ℕ
  pub serial_in_shift : ℕ
  pub serial_in_bits : ℕ
  pub serial_out_shift : ℕ
  pub serial_out_bits : ℕ
  pub serial_out_busy : ℕ
  pub serial_out_buffer : ℕ
  pub serial_out_buffer_full : ℕ
  pub icr_mask : ℕ
  pub icr_data : ℕ
  pub cra : ℕ
  pub crb : ℕ
  pub ta_latch : ℕ
  pub ta_counter : ℕ
  pub tb_latch : ℕ
  pub tb_counter : ℕ
  pub pb_timer_out : ℕ
  pub pb_pulse_mask : ℕ
  pub cnt_level : ℕ
  pub flag_level : ℕ
  pub tod : TodState
  pub irq_level : ℕ
  pub paula_irq_bit : ℕ
  pub attached : Bool
  pub irq_asserted : ℕ

-- A chip, and the interrupt controller of the Paula that its pointer refers to.
pub record Link : Type 0 where
  pub cia : CiaState
  pub paula : InterruptDomain

-- The register numbers, and the bits of ICR, CRA and CRB.
abbrev pub reg_pra : ℕ
reg_pra = 0x0

abbrev pub reg_prb : ℕ
reg_prb = 0x1

abbrev pub reg_ddra : ℕ
reg_ddra = 0x2

abbrev pub reg_ddrb : ℕ
reg_ddrb = 0x3

abbrev pub reg_talo : ℕ
reg_talo = 0x4

abbrev pub reg_tahi : ℕ
reg_tahi = 0x5

abbrev pub reg_tblo : ℕ
reg_tblo = 0x6

abbrev pub reg_tbhi : ℕ
reg_tbhi = 0x7

abbrev pub reg_todlo : ℕ
reg_todlo = 0x8

abbrev pub reg_todmid : ℕ
reg_todmid = 0x9

abbrev pub reg_todhi : ℕ
reg_todhi = 0xa

abbrev pub reg_unused : ℕ
reg_unused = 0xb

abbrev pub reg_sdr : ℕ
reg_sdr = 0xc

abbrev pub reg_icr : ℕ
reg_icr = 0xd

abbrev pub reg_cra : ℕ
reg_cra = 0xe

abbrev pub reg_crb : ℕ
reg_crb = 0xf

abbrev pub icr_ta : ℕ
icr_ta = 0x01

abbrev pub icr_tb : ℕ
icr_tb = 0x02

abbrev pub icr_alrm : ℕ
icr_alrm = 0x04

abbrev pub icr_sp : ℕ
icr_sp = 0x08

abbrev pub icr_flg : ℕ
icr_flg = 0x10

abbrev pub icr_setclr : ℕ
icr_setclr = 0x80

abbrev pub cra_start : ℕ
cra_start = 0x01

abbrev pub cra_pbon : ℕ
cra_pbon = 0x02

abbrev pub cra_outmode : ℕ
cra_outmode = 0x04

abbrev pub cra_runmode : ℕ
cra_runmode = 0x08

abbrev pub cra_load : ℕ
cra_load = 0x10

abbrev pub cra_inmode : ℕ
cra_inmode = 0x20

abbrev pub cra_spmode : ℕ
cra_spmode = 0x40

abbrev pub crb_start : ℕ
crb_start = 0x01

abbrev pub crb_pbon : ℕ
crb_pbon = 0x02

abbrev pub crb_runmode : ℕ
crb_runmode = 0x08

abbrev pub crb_load : ℕ
crb_load = 0x10

abbrev pub crb_alarm : ℕ
crb_alarm = 0x80
