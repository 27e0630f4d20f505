-- ===== src/Rtc/Clock.antt =====
-- The operations of the clock (src/rtc/rtc.c).
use rigel.Prelude.{ℕ, ◌+◌, ◌-◌, ◌^◌, Option, none, some, u64, ltb, ◌==◌, if◌then◌else◌}
use rigel.Rtc.{
  RtcModel, model_none, model_oki, model_ricoh, RtcHost, Tm, Libc, RigelRtc, put, rtc_nibble,
  rtc_host_now, rtc_host_to_calendar, rtc_host_from_calendar, rtc_bank_internal,
}
use rigel.Rtc.Registers.{
  rtc_time_to_regs_oki, rtc_time_to_regs_ricoh, rtc_regs_to_time_oki, rtc_regs_to_time_ricoh,
}

module _ {ℓ} {W : Type ℓ} where
  unfoldable pub rtc_apply_model_defaults : RigelRtc W → RigelRtc W
  rtc_apply_model_defaults rtc =
      let clear : ℕ → ℕ → ℕ = λ b n. 0 in
      elim (rtc.model) [
        | model_oki ↦ record rtc { reg = put (put (put clear 0 0xd 0x1) 0 0xe 0x0) 0 0xf 0x4 }
        | model_ricoh ↦ record rtc { reg = put (put (put clear 0 0xd 0x8) 0 0xe 0x0) 0 0xf 0x0 }
        | model_none ↦ record rtc { reg = clear }
      ]

  unfoldable pub rtc_get_time : Option (Libc W) → RigelRtc W → W → ℕ
  rtc_get_time libc rtc w =
      let host_now = rtc_host_now libc rtc w in
      elim (rtc.model) [
        | model_none ↦ host_now
        | model_oki ↦ u64 (host_now + rtc.time_offset)
        | model_ricoh ↦ u64 (host_now + rtc.time_offset)
      ]

  unfoldable pub rtc_set_time : Option (Libc W) → RigelRtc W → W → ℕ → RigelRtc W
  rtc_set_time libc rtc w t = record rtc {
    time_offset = u64 (t + (2 ^ 64 - rtc_host_now libc rtc w));
  }

  -- The registers of a calendar, by the model.
  unfoldable pub calendar_to_regs : RigelRtc W → Option Tm → RigelRtc W
  calendar_to_regs rtc none = rtc
  calendar_to_regs rtc (some t) = elim (rtc.model) [
    | model_oki ↦ rtc_time_to_regs_oki rtc t
    | model_ricoh ↦ rtc_time_to_regs_ricoh rtc t
    | model_none ↦ rtc
  ]

  unfoldable pub rtc_update : Option (Libc W) → RigelRtc W → W → RigelRtc W
  rtc_update libc rtc w = elim (rtc.model) [
    | model_none ↦ rtc
    | model_oki ↦ calendar_to_regs rtc (rtc_host_to_calendar libc rtc w (rtc_get_time libc rtc w))
    | model_ricoh ↦ calendar_to_regs rtc (rtc_host_to_calendar libc rtc w (rtc_get_time libc rtc w))
  ]

  -- The time of a calendar that the host could convert.
  unfoldable pub time_if : Option (Libc W) → RigelRtc W → W → Option ℕ → RigelRtc W
  time_if libc rtc w none = rtc
  time_if libc rtc w (some t) = rtc_set_time libc rtc w t

  unfoldable pub rtc_regs_to_time : Option (Libc W) → RigelRtc W → W → RigelRtc W
  rtc_regs_to_time libc rtc w = elim (rtc.model) [
    | model_none ↦ rtc
    | model_oki ↦ time_if libc rtc w (rtc_host_from_calendar libc rtc w (rtc_regs_to_time_oki rtc))
    | model_ricoh ↦
        time_if libc rtc w (rtc_host_from_calendar libc rtc w (rtc_regs_to_time_ricoh rtc))
  ]

  unfoldable pub rtc_init : Option (Libc W) → W → RtcModel → RigelRtc W
  rtc_init libc w model =
      rtc_update libc
        (rtc_apply_model_defaults (record {
          model = model;
          reg = λ b n. 0;
          time_offset = 0;
          host = record { now = none; to_calendar = none; from_calendar = none };
        }))
        w

  unfoldable pub rtc_reset : Option (Libc W) → RigelRtc W → W → RigelRtc W
  rtc_reset libc rtc w =
      rtc_update libc (rtc_apply_model_defaults (record rtc { reg = λ b n. 0 })) w

  unfoldable pub rtc_set_host : RigelRtc W → Option (RtcHost W) → RigelRtc W
  rtc_set_host rtc none = record rtc {
    host = record { now = none; to_calendar = none; from_calendar = none };
  }
  rtc_set_host rtc (some host) = record rtc { host = host }

  unfoldable pub rtc_set_model : Option (Libc W) → RigelRtc W → W → RtcModel → RigelRtc W
  rtc_set_model libc rtc w model =
      rtc_update libc (rtc_apply_model_defaults (record rtc { model = model })) w

  -- A register of a clock that is there, after the update.
  unfoldable pub register : RigelRtc W → ℕ → ℕ
  register rtc nr =
      if ltb nr 0xd
      then rtc_nibble (rtc.reg (rtc_bank_internal rtc) nr)
      else rtc_nibble (rtc.reg 0 nr)

  unfoldable pub rtc_read_reg : Option (Libc W) → RigelRtc W → W → ℕ → RigelRtc W × ℕ
  rtc_read_reg libc rtc w nr =
      let u = rtc_update libc rtc w in
      elim (rtc.model) [
        | model_none ↦ (rtc, 0)
        | model_oki ↦ (u, register u nr)
        | model_ricoh ↦ (u, register u nr)
      ]

  -- A write to a clock that is there.
  unfoldable pub store : Option (Libc W) → RigelRtc W → W → ℕ → ℕ → RigelRtc W
  store libc rtc w nr nibble =
      let u = rtc_update libc rtc w in
      let bank = rtc_bank_internal u in
      let stored = record u { reg = put (u.reg) bank nr nibble } in
      if ltb nr 0xd
      then (if bank == 0 then rtc_regs_to_time libc stored w else stored)
      else (record rtc { reg = put (rtc.reg) 0 nr (rtc_nibble nibble) })

  unfoldable pub rtc_write_reg : Option (Libc W) → RigelRtc W → W → ℕ → ℕ → RigelRtc W
  rtc_write_reg libc rtc w nr value = elim (rtc.model) [
    | model_none ↦ rtc
    | model_oki ↦ store libc rtc w nr (rtc_nibble value)
    | model_ricoh ↦ store libc rtc w nr (rtc_nibble value)
  ]
