-- ===== src/Cia/Line/Whole.antt =====
-- The time of day, the pins and the whole chip keep the line.
use rigel.Prelude.{
  ℕ, zero, suc, ◌≡◌, refl, true, false, not, ◌&&◌, ◌||◌, arith, truth, leb, ◌==◌, u32, from_bool,
  if◌then◌else◌, bit_and, ◌+◌, ◌/◌, ◌%◌, Option, none, some,
}
use rigel.Cia.State.{CiaState, Link, icr_flg, icr_alrm}
use rigel.Cia.Irq.{interrupt_raise, interrupt_read_icr}
use rigel.Cia.Serial.{serial_on_cnt_rising, serial_receive_byte, serial_set_sp_input}
use rigel.Cia.TimerRegisters.{timers_write_reg, timers_read_reg}
use rigel.Cia.Tod.{tod_increment_once, tod_increment, tod_step, tod_pulse, tod_read, tod_write}
use rigel.Cia.Ports.{
  set_cnt_level, set_flag_level, set_sp_level, set_external_pra, set_external_prb, ports_write_reg,
  ports_read_reg,
}
use rigel.Cia.Chip.{
  cia_reset, cia_step, read_reg, receive_sdr, write_reg, or_same, or_ff, on_cia, is_port_reg,
  is_timer_reg, is_tod_reg,
}
use rigel.Cia.Line.{
  Follows, Quiet, sync-Follows, Quiet-Follows, Follows-trans, Follows-refl, Follows-if,
}
use rigel.Cia.Line.Parts.{
  raise-Follows, read_icr-Follows, write_icr-Follows, write_sdr-Quiet, Follows-if_pair,
  cnt_rising-Follows, pb_outputs-Quiet, timers_step-Follows, count_cnt-Follows,
}

once-Follows : (s : Link) → Follows s (tod_increment_once s)
unfolding tod_increment_once
once-Follows s =
    let counter = bit_and (u32 (s.cia.tod.counter + 1)) 0xffffff in
    let moved = record (s.cia) { tod = record (s.cia.tod) { counter = counter } } in
    Follows-if (counter == s.cia.tod.alarm) s _ _ (raise-Follows s moved icr_alrm (ground arith))
      (Quiet-Follows s moved (ground arith))

increment-Follows : (s : Link) (n : ℕ) → Follows s (tod_increment s n)
unfolding tod_increment
increment-Follows s zero = Follows-refl s
increment-Follows s (suc n) =
    Follows-trans (once-Follows s) (increment-Follows (tod_increment_once s) n)

pub tod_pulse-Follows : (s : Link) (n : ℕ) → Follows s (tod_pulse s n)
unfolding tod_pulse
tod_pulse-Follows s n = Follows-if (n == 0) s _ _ (Follows-refl s) (increment-Follows s n)

counted-Follows :
    (s : Link) (n : ℕ)
    → Follows s (record s { cia = record (s.cia) { tod = record (s.cia.tod) { subticks = n } } })
counted-Follows s n = Quiet-Follows s _ (ground arith)

tod_step-Follows : (s : Link) (ticks : ℕ) → Follows s (tod_step s ticks)
unfolding tod_step
tod_step-Follows s ticks =
    let tod = s.cia.tod in
    let subticks = u32 (tod.subticks + u32 ticks) in
    Follows-if (ticks == 0 || tod.ticks_per_inc == 0 || tod.stopped) s _ _ (Follows-refl s) (
      Follows-if (leb tod.ticks_per_inc subticks) s _ _
        (Follows-trans (counted-Follows s (subticks % tod.ticks_per_inc))
          (increment-Follows _ (subticks / tod.ticks_per_inc)))
        (counted-Follows s subticks))

tod_read-Quiet : (c : CiaState) (reg : ℕ) → Quiet c (tod_read c reg).0
unfolding tod_read
tod_read-Quiet c reg = ground arith

tod_write-Quiet : (c : CiaState) (reg v : ℕ) → Quiet c (tod_write c reg v)
unfolding tod_write
tod_write-Quiet c reg v = ground arith

pub step-Follows : (s : Link) (ticks : ℕ) → Follows s (cia_step s ticks)
unfolding cia_step
step-Follows s ticks =
    Follows-trans (Quiet-Follows s _ (pb_outputs-Quiet s.cia))
      (Follows-trans (timers_step-Follows _ ticks) (tod_step-Follows _ ticks))

pub cnt_level-Follows : (s : Link) (level : ℕ) → Follows s (set_cnt_level s level)
unfolding set_cnt_level
cnt_level-Follows s level =
    let moved = record (s.cia) { cnt_level = from_bool (truth level) } in
    let s' = record s { cia = moved } in
    Follows-if (not (truth s.cia.cnt_level) && truth (from_bool (truth level))) s _ _
      (Follows-trans (Quiet-Follows s moved (ground arith))
        (Follows-trans (cnt_rising-Follows s') (count_cnt-Follows (serial_on_cnt_rising s') 1)))
      (Quiet-Follows s moved (ground arith))

pub flag_level-Follows : (s : Link) (level : ℕ) → Follows s (set_flag_level s level)
unfolding set_flag_level
flag_level-Follows s level =
    let moved = record (s.cia) { flag_level = from_bool (truth level) } in
    Follows-if (truth s.cia.flag_level && not (truth (from_bool (truth level)))) s _ _
      (raise-Follows s moved icr_flg (ground arith)) (Quiet-Follows s moved (ground arith))

pub receive_sdr-Follows : (s : Link) (v : ℕ) → Follows s (receive_sdr s v).0
unfolding receive_sdr serial_receive_byte
receive_sdr-Follows s v =
    let full = record (s.cia) { sdr = v; sdr_full = 1 } in
    Follows-if_pair (truth s.cia.sdr_full) s (s, false)
      (interrupt_raise (record s { cia = full }) 0x08, true) (Follows-refl s)
      (raise-Follows s full 0x08 (ground arith))

pub pins-Quiet :
    (c : CiaState) (v : ℕ)
    → Quiet c (set_external_pra c v) × Quiet c (set_external_prb c v) × Quiet c (set_sp_level c v)
unfolding set_external_pra set_external_prb set_sp_level serial_set_sp_input
pins-Quiet c v = (ground arith, ground arith, ground arith)

ports_write-Quiet :
    (c : CiaState) (reg v : ℕ) (d : CiaState) → ports_write_reg c reg v ≡ some d → Quiet c d
unfolding ports_write_reg
ports_write-Quiet c reg v d h = ground arith

timers_write-Quiet :
    (c : CiaState) (reg v : ℕ) (d : CiaState) → timers_write_reg c reg v ≡ some d → Quiet c d
unfolding timers_write_reg
timers_write-Quiet c reg v d h = ground arith

or_same-Follows :
    (s : Link) (o : Option CiaState)
    → ((d : CiaState) → o ≡ some d → Quiet s.cia d)
    → Follows s (or_same s o)
or_same-Follows s none h = Follows-refl s
or_same-Follows s (some d) h = Quiet-Follows s d (h d refl)

pub write_reg-Follows : (s : Link) (reg v : ℕ) → Follows s (write_reg s reg v)
unfolding write_reg
write_reg-Follows s reg v =
    let r = bit_and reg 0x0f in
    Follows-if (is_port_reg r) s _ _ (or_same-Follows s _ (ports_write-Quiet s.cia reg v)) (
      Follows-if (is_timer_reg r) s _ _ (or_same-Follows s _ (timers_write-Quiet s.cia reg v)) (
        Follows-if (is_tod_reg r) s _ _ (Quiet-Follows s _ (tod_write-Quiet s.cia r v)) (
          Follows-if (r == 0xb) s _ _ (Follows-refl s) (
            Follows-if (r == 0xc) s _ _ (Quiet-Follows s _ (write_sdr-Quiet s.cia v))
              (Follows-if (r == 0xd) s _ _ (write_icr-Follows s v) (Follows-refl s))))))

pub read_reg-Follows : (s : Link) (reg : ℕ) → Follows s (read_reg s reg).0
unfolding read_reg
read_reg-Follows s reg =
    let r = bit_and reg 0x0f in
    let none_of : Link × ℕ = (s, 0xff) in
    let from_icr = if r == 0xd then interrupt_read_icr s else none_of in
    let emptied = record (s.cia) { sdr_full = 0 } in
    let from_sdr : Link × ℕ =
      if r == 0xc then (record s { cia = emptied }, s.cia.sdr) else from_icr in
    let from_unused = if r == 0xb then none_of else from_sdr in
    let from_tod = if is_tod_reg r then on_cia s (tod_read s.cia r) else from_unused in
    let timers : Link × ℕ = (s, or_ff (timers_read_reg s.cia reg)) in
    let from_timers = if is_timer_reg r then timers else from_tod in
    Follows-if_pair (is_port_reg r) s (s, or_ff (ports_read_reg s.cia reg)) from_timers
      (Follows-refl s)
      (Follows-if_pair (is_timer_reg r) s timers from_tod (Follows-refl s) (
        Follows-if_pair (is_tod_reg r) s (on_cia s (tod_read s.cia r)) from_unused
          (Quiet-Follows s (tod_read s.cia r).0 (tod_read-Quiet s.cia r))
          (Follows-if_pair (r == 0xb) s none_of from_sdr (Follows-refl s) (
            Follows-if_pair (r == 0xc) s (record s { cia = emptied }, s.cia.sdr) from_icr
              (Quiet-Follows s emptied (ground arith))
              (Follows-if_pair (r == 0xd) s (interrupt_read_icr s) none_of (read_icr-Follows s)
                (Follows-refl s))))))

pub reset-Follows : (s : Link) → Follows s (cia_reset s)
unfolding cia_reset
reset-Follows s = sync-Follows s _ (ground arith)
