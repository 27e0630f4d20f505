-- ===== src/Rtc/Tests.antt =====
-- The clock on a host whose time is the hour of one day.
use rigel.Prelude.{ℕ, ◌+◌, ◌-◌, ◌≡◌, refl, arith, some, none, any}
use rigel.Rtc.{
  Tm, RtcHost, RigelRtc, model_ricoh, rtc_host_now, rtc_host_to_calendar, rtc_host_from_calendar,
  rtc_bank_internal, rtc_nibble, rtc_bcd_lo,
}
use rigel.Rtc.Registers.{rtc_time_to_regs_oki, rtc_time_to_regs_ricoh, rtc_regs_to_time_ricoh}
use rigel.Rtc.Hours.{IsCalendar, kept, hour_read, regs_ricoh}
use rigel.Rtc.Clock.{
  rtc_get_time, rtc_read_reg, rtc_write_reg, rtc_update, calendar_to_regs, register,
}
use rigel.Rtc.WriteBack.{oki_clock, write_reg-read_reg}

-- The last day of 1999.
abbrev at_hour : ℕ → Tm
at_hour hour = record {
  tm_sec = 58;
  tm_min = 59;
  tm_hour = hour;
  tm_mday = 31;
  tm_mon = 11;
  tm_year = 99;
  tm_wday = 5;
  tm_yday = 364;
}

abbrev host : RtcHost ℕ
host = record {
  now = some (λ w. w);
  to_calendar = some (λ w t. some (at_hour (t - 985)));
  from_calendar = some (λ w t. some (t.tm_hour + 985));
}

late-IsCalendar : IsCalendar (at_hour 22)
late-IsCalendar = record {
  sec_in = omega arith;
  min_in = omega arith;
  hour_in = omega arith;
  mday_in = omega arith;
  mon_in = omega arith;
  year_from = omega arith;
  year_to = omega arith;
}

abbrev zeros : ℕ → ℕ → ℕ
zeros bank nr = 0

-- The minutes are read two hours before they are written.
write_reg-read_reg_example :
    let (after, value) = rtc_read_reg none (oki_clock zeros 7 host) 998 2 in
    (rtc_write_reg none after 1000 2 value).time_offset ≡ 7
unfolding rtc_get_time rtc_host_now rtc_host_to_calendar rtc_host_from_calendar rtc_read_reg
    rtc_update calendar_to_regs rtc_time_to_regs_oki register rtc_bank_internal rtc_nibble
    rtc_bcd_lo
write_reg-read_reg_example =
    write_reg-read_reg none host 998 1000 zeros 7 2 (at_hour 22) (omega arith) (omega arith)
      (omega arith) refl late-IsCalendar refl refl

-- A Ricoh clock in the mode of 24 hours.
abbrev ricoh : RigelRtc ℕ
ricoh = record (oki_clock (λ bank nr. 1) 7 host) { model = model_ricoh }

regs_ricoh_example :
    rtc_regs_to_time_ricoh (rtc_time_to_regs_ricoh ricoh (at_hour 22))
    ≡ kept (at_hour 22) (hour_read (any 1 1) 22)
regs_ricoh_example = regs_ricoh ricoh (at_hour 22) late-IsCalendar
