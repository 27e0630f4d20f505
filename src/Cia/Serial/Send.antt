-- ===== src/Cia/Serial/Send.antt =====
-- A whole byte on the serial output.
use rigel.Prelude.{
  ℕ, zero, suc, ◌-◌, ◌^◌, ◌<◌, ◌≤◌, ◌≡◌, refl, ap, ◌∙◌, Bool, true, arith, any, u8, ◌<<<◌,
  from_bool,
}
use rigel.Prelude.Bits.{testbit}
use rigel.Cia.State.{Link}
use rigel.Cia.Serial.{serial_on_timer_a_underflow, serial_start_output, serial_write_sdr}
use rigel.Cia.Serial.Output.{IsSending, underflow_step, underflow_last, shift_left}
use rigel.Cia.Timers.{serial_underflows}

underflows-snoc :
    (n : ℕ) (s : Link)
    → serial_underflows (suc n) s ≡ serial_on_timer_a_underflow (serial_underflows n s)
unfolding serial_underflows
underflows-snoc zero s = refl
underflows-snoc (suc n) s = underflows-snoc n (serial_on_timer_a_underflow s)

-- What `n` underflows, fewer than there are bits, leave: the last bit that went out is on the line.
record Sent (s : Link) (shift bits n : ℕ) : Type 0 where
  left : ℕ
  left_fits : left < 2 ^ 8
  sending : IsSending (serial_underflows (suc n) s) left (bits - suc n)
  level : (serial_underflows (suc n) s).cia.sp_output_level ≡ from_bool (testbit shift (7 - n))
  quiet : (serial_underflows (suc n) s).cia.icr_data ≡ s.cia.icr_data

-- The first underflow, and then `n + 1` more.
Sent-next :
    (n : ℕ) (s : Link) (shift bits : ℕ)
    → n < 6
    → (serial_on_timer_a_underflow s).cia.icr_data ≡ s.cia.icr_data
    → Sent (serial_on_timer_a_underflow s) (u8 (shift <<< 1)) (bits - 1) n
    → Sent s shift bits (suc n)
unfolding serial_underflows
Sent-next n s shift bits h q r =
    let below : bits - suc (suc n) ≡ bits - 1 - suc n = omega arith in
    let from : 7 - n ≡ suc (6 - n) = omega arith in
    let to : 6 - n ≡ 7 - suc n = omega arith in
    record {
      left = r.left;
      left_fits = r.left_fits;
      sending = rw below r.sending;
      level =
          r.level
          ∙ ap (λ (b : Bool). from_bool b)
              (ap (testbit (u8 (shift <<< 1))) from
                ∙ shift_left shift (6 - n) (omega arith)
                ∙ ap (testbit shift) to);
      quiet = r.quiet ∙ q;
    }

sent :
    (n : ℕ) (s : Link) (shift bits : ℕ)
    → shift < 2 ^ 8
    → suc n < bits
    → bits ≤ 8
    → IsSending s shift bits
    → Sent s shift bits n
sent zero s shift bits hs lo hi i =
    let step = underflow_step s shift bits hs lo hi i in
    record {
      left = u8 (shift <<< 1);
      left_fits = omega arith;
      sending = unfold serial_underflows in step.0;
      level = unfold serial_underflows in step.1;
      quiet = unfold serial_underflows in step.2;
    }
sent (suc n) s shift bits hs lo hi i =
    let step = underflow_step s shift bits hs (omega arith) hi i in
    let rest =
      sent n (serial_on_timer_a_underflow s) (u8 (shift <<< 1)) (bits - 1) (omega arith)
        (omega arith) (omega arith) step.0 in
    Sent-next n s shift bits (omega arith) step.2 rest

written-IsSending :
    (s : Link) (v : ℕ)
    → any s.cia.cra 0x40 ≡ true
    → s.cia.serial_out_busy ≡ 0
    → IsSending (record s { cia = serial_write_sdr s.cia v }) v 8
unfolding serial_write_sdr serial_start_output
written-IsSending s v mode idle = ground arith

written_quiet : (s : Link) (v : ℕ) → (serial_write_sdr s.cia v).icr_data ≡ s.cia.icr_data
unfolding serial_write_sdr serial_start_output
written_quiet s v = ground arith

-- A byte written to SDR while the port is in output mode and idle: the underflow `n + 1` of timer A,
-- for `n` below 7, puts digit `7 - n` of the byte on the line and raises no interrupt; the eighth one
-- leaves the line high whatever digit 0 is, frees the port and sets the SP bit of ICR.
pub send_byte :
    (s : Link) (v n : ℕ)
    → v < 2 ^ 8
    → n < 7
    → any s.cia.cra 0x40 ≡ true
    → s.cia.serial_out_busy ≡ 0
    → let start = record s { cia = serial_write_sdr s.cia v } in
      let t = (serial_underflows (suc n) start).cia in
      let end = (serial_underflows 8 start).cia in
      (t.sp_output_level ≡ from_bool (testbit v (7 - n)))
      × (t.icr_data ≡ s.cia.icr_data)
      × (end.sp_output_level ≡ 1)
      × (end.serial_out_busy ≡ 0)
      × (testbit end.icr_data 3 ≡ true)
send_byte s v n hv hn mode idle =
    let start = record s { cia = serial_write_sdr s.cia v } in
    let i : IsSending start v 8 = written-IsSending s v mode idle in
    let part = sent n start v 8 hv (omega arith) (omega arith) i in
    let seven = sent 6 start v 8 hv (omega arith) (omega arith) i in
    let end = underflow_last (serial_underflows 7 start) seven.left seven.sending in
    (
      part.level,
      part.quiet ∙ written_quiet s v,
      ap (λ (t : Link). t.cia.sp_output_level) (underflows-snoc 7 start) ∙ end.0,
      ap (λ (t : Link). t.cia.serial_out_busy) (underflows-snoc 7 start) ∙ end.1,
      rw (underflows-snoc 7 start) end.2,
    )
