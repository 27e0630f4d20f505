-- ===== src/Rtc/Registers.antt =====
-- Calendar and registers (`rtc_time_to_regs_oki`, `rtc_regs_to_time_oki` and their Ricoh counterparts in
-- src/rtc/rtc.c).
use rigel.Prelude.{
  ℕ, ◌+◌, ◌-◌, ◌*◌, ◌^◌, bit_and, bit_or, Bool, not, ◌&&◌, ◌||◌, u8, u32, any, ltb, ◌==◌,
  if◌then◌else◌, ◌<<<◌, ◌>>>◌,
}
use rigel.Rtc.{
  Tm, RigelRtc, rem_s32, quot_s32, rtc_bcd_lo, rtc_bcd_hi, rtc_from_bcd, rtc_nibble, put,
}

-- `hour > 12` of an `int`
abbrev past_noon : ℕ → Bool
past_noon hour = ltb 12 hour && ltb hour (2 ^ 31)

-- The hour that the registers show, and `pm`.
unfoldable pub shown_hour : Bool → ℕ → ℕ
shown_hour is_24h hour =
    if is_24h then hour else if hour == 0 then 12 else if past_noon hour then hour - 12 else hour

unfoldable pub shown_pm : Bool → ℕ → Bool
shown_pm is_24h hour = not is_24h && (hour == 12 || past_noon hour)

-- The hour that the registers mean.
unfoldable pub meant_hour : Bool → Bool → ℕ → ℕ
meant_hour is_24h pm hour =
    if is_24h
    then hour
    else if hour == 12
    then (if pm then 12 else 0)
    else if pm
    then hour + 12
    else hour

-- `t->tm_year += (t->tm_year < 70) ? 100 : 0`
abbrev pub full_year : ℕ → ℕ
full_year year = year + (if ltb year 70 then 100 else 0)

-- The alarm bank of the Ricoh, trimmed.
unfoldable pub alarm_trimmed : (ℕ → ℕ → ℕ) → ℕ → ℕ → ℕ
alarm_trimmed r =
    let t0 = put r 1 0x0 (bit_and (r 1 0x0) 0x0) in
    let t1 = put t0 1 0x1 (bit_and (r 1 0x1) 0x0) in
    let t2 = put t1 1 0x2 (bit_and (r 1 0x2) 0xf) in
    let t3 = put t2 1 0x3 (bit_and (r 1 0x3) 0x7) in
    let t4 = put t3 1 0x4 (bit_and (r 1 0x4) 0xf) in
    let t5 = put t4 1 0x5 (bit_and (r 1 0x5) 0x3) in
    let t6 = put t5 1 0x6 (bit_and (r 1 0x6) 0x7) in
    let t7 = put t6 1 0x7 (bit_and (r 1 0x7) 0xf) in
    let t8 = put t7 1 0x8 (bit_and (r 1 0x8) 0x3) in
    let t9 = put t8 1 0x9 (bit_and (r 1 0x9) 0x0) in
    let ta = put t9 1 0xa (bit_and (r 1 0xa) 0x1) in
    let tb = put ta 1 0xb (bit_and (r 1 0xb) 0x3) in put tb 1 0xc (bit_and (r 1 0xc) 0x0)

module _ {ℓ} {W : Type ℓ} where
  unfoldable pub rtc_time_to_regs_oki : RigelRtc W → Tm → RigelRtc W
  rtc_time_to_regs_oki rtc t =
      let is_24h = any (rtc.reg 0 0xf) 0x4 in
      let hour = shown_hour is_24h (t.tm_hour) in
      let hi = rtc_bcd_hi hour in
      let r0 = put (rtc.reg) 0 0x0 (rtc_bcd_lo (t.tm_sec)) in
      let r1 = put r0 0 0x1 (rtc_bcd_hi (t.tm_sec)) in
      let r2 = put r1 0 0x2 (rtc_bcd_lo (t.tm_min)) in
      let r3 = put r2 0 0x3 (rtc_bcd_hi (t.tm_min)) in
      let r4 = put r3 0 0x4 (rtc_bcd_lo hour) in
      let r5 = put r4 0 0x5 (if shown_pm is_24h (t.tm_hour) then u8 (bit_or hi 0x4) else hi) in
      let r6 = put r5 0 0x6 (rtc_bcd_lo (t.tm_mday)) in
      let r7 = put r6 0 0x7 (rtc_bcd_hi (t.tm_mday)) in
      let r8 = put r7 0 0x8 (rtc_bcd_lo (u32 (t.tm_mon + 1))) in
      let r9 = put r8 0 0x9 (rtc_bcd_hi (u32 (t.tm_mon + 1))) in
      let ra = put r9 0 0xa (rtc_bcd_lo (rem_s32 (t.tm_year) 100)) in
      let rb = put ra 0 0xb (rtc_bcd_hi (rem_s32 (t.tm_year) 100)) in
      record rtc { reg = put rb 0 0xc (u8 (bit_and (t.tm_wday) 0x0f)) }

  unfoldable pub rtc_time_to_regs_ricoh : RigelRtc W → Tm → RigelRtc W
  rtc_time_to_regs_ricoh rtc t =
      let is_24h = any (rtc.reg 0 0xa) 0x1 in
      let hour = shown_hour is_24h (t.tm_hour) in
      let hi = rtc_bcd_hi hour in
      let r0 = put (rtc.reg) 0 0x0 (rtc_bcd_lo (t.tm_sec)) in
      let r1 = put r0 0 0x1 (rtc_bcd_hi (t.tm_sec)) in
      let r2 = put r1 0 0x2 (rtc_bcd_lo (t.tm_min)) in
      let r3 = put r2 0 0x3 (rtc_bcd_hi (t.tm_min)) in
      let r4 = put r3 0 0x4 (rtc_bcd_lo hour) in
      let r5 = put r4 0 0x5 (if shown_pm is_24h (t.tm_hour) then u8 (bit_or hi 0x2) else hi) in
      let r6 = put r5 0 0x6 (u8 (bit_and (quot_s32 (t.tm_yday) 7) 0x0f)) in
      let r7 = put r6 0 0x7 (rtc_bcd_lo (t.tm_mday)) in
      let r8 = put r7 0 0x8 (rtc_bcd_hi (t.tm_mday)) in
      let r9 = put r8 0 0x9 (rtc_bcd_lo (u32 (t.tm_mon + 1))) in
      let ra =
        put r9 0 0xa
          (u8 (bit_or (bit_and (rtc.reg 0 0xa) 0x1) (rtc_bcd_hi (u32 (t.tm_mon + 1)) <<< 1))) in
      let rb = put ra 0 0xb (rtc_bcd_lo (rem_s32 (t.tm_year) 100)) in
      let rc = put rb 0 0xc (rtc_bcd_hi (rem_s32 (t.tm_year) 100)) in
      record rtc { reg = alarm_trimmed (put rc 0 0xa (bit_and (rc 0 0xa) 0x03)) }

  unfoldable pub rtc_regs_to_time_oki : RigelRtc W → Tm
  rtc_regs_to_time_oki rtc =
      let r = rtc.reg 0 in
      let hour = rtc_from_bcd (r 0x4) (bit_and (r 0x5) 0x3) in
      record {
        tm_sec = rtc_from_bcd (r 0x0) (r 0x1);
        tm_min = rtc_from_bcd (r 0x2) (r 0x3);
        tm_hour = meant_hour (any (r 0xf) 0x4) (any (r 0x5) 0x4) hour;
        tm_mday = rtc_from_bcd (r 0x6) (r 0x7);
        tm_mon = u32 (rtc_from_bcd (r 0x8) (r 0x9) + 0xffffffff);
        tm_year = full_year (rtc_from_bcd (r 0xa) (r 0xb));
        tm_wday = 0;
        tm_yday = 0;
      }

  unfoldable pub rtc_regs_to_time_ricoh : RigelRtc W → Tm
  rtc_regs_to_time_ricoh rtc =
      let r = rtc.reg 0 in
      let hour = rtc_from_bcd (r 0x4) (bit_and (r 0x5) 0x1) in
      let mon_hi = bit_and (r 0xa >>> 1) 0x1 in
      record {
        tm_sec = rtc_from_bcd (r 0x0) (r 0x1);
        tm_min = rtc_from_bcd (r 0x2) (r 0x3);
        tm_hour = meant_hour (any (r 0xa) 0x1) (any (r 0x5) 0x2) hour;
        tm_mday = rtc_from_bcd (r 0x7) (r 0x8);
        tm_mon = u32 (rtc_nibble (r 0x9) + 10 * mon_hi + 0xffffffff);
        tm_year = full_year (rtc_from_bcd (r 0xb) (r 0xc));
        tm_wday = 0;
        tm_yday = 0;
      }
