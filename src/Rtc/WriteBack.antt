-- ===== src/Rtc/WriteBack.antt =====
-- A register of the clock, read and written back.
use mathlib.Core.Path.{fun_ext, subst, subst⁻¹}
use rigel.Prelude.{
  ℕ, suc, ◌+◌, ◌^◌, ◌<◌, ◌≡◌, refl, ap, ◌∙◌, arith, bit_and, Option, none, some, u8, ltb, ◌==◌,
  if◌then◌else◌, Bool-cases, inl, inr, ==_iff, lt→ltb, Bool, u32, any, bit_or,
}
use rigel.Prelude.Bits.{bit_or-lt, bit_and-le_right}
use rigel.Rtc.{
  rem_s32, Tm, RtcHost, model_oki, Libc, RigelRtc, put, rtc_host_now, rtc_host_to_calendar,
  rtc_host_from_calendar, rtc_bank_internal, rtc_nibble, rtc_bcd_lo, rtc_bcd_hi,
}
use rigel.Rtc.Registers.{shown_hour, shown_pm, rtc_time_to_regs_oki}
use rigel.Rtc.Hours.{IsCalendar, kept, regs_oki, nibble}
use rigel.Rtc.Clock.{
  rtc_get_time, rtc_set_time, calendar_to_regs, rtc_update, time_if, rtc_regs_to_time, register,
  store, rtc_read_reg, rtc_write_reg,
}

put_same : (r : ℕ → ℕ → ℕ) (bank nr v : ℕ) → v ≡ r bank nr → put r bank nr v ≡ r
put_same r bank nr v e = fun_ext (λ b. fun_ext (λ n. at b n))
  where
    at : (b n : ℕ) → put r bank nr v b n ≡ r b n
    at b n = elim (Bool-cases (b == bank)) [
      | inl p ↦ elim (Bool-cases (n == nr)) [
        | inl q ↦
            ap (λ x. if x then (if n == nr then v else r b n) else r b n) p
            ∙ ap (λ x. if x then v else r b n) q
            ∙ e
            ∙ cc ((==_iff b bank).0 p, (==_iff n nr).0 q)
        | inr q ↦ rw (p, q)
      ]
      | inr p ↦ rw (p)
    ]

lo : (v : ℕ) → v < 100 → rtc_bcd_lo v < 16
unfolding rtc_bcd_lo
lo v h = ground (arith, h)

hi : (v : ℕ) → v < 100 → rtc_bcd_hi v < 16
unfolding rtc_bcd_hi
hi v h = ground (arith, h)

shown-lt : (b : Bool) (hour : ℕ) → hour < 24 → shown_hour b hour < 24
unfolding shown_hour
shown-lt b hour h = ground (arith, h)

-- The registers below `m` of bank 0 hold one digit.
record IsDigits (m : ℕ) (r : ℕ → ℕ → ℕ) : Type 0 where
  digit : (n : ℕ) → n < m → r 0 n < 16

next : {m : ℕ} {r : ℕ → ℕ → ℕ} → IsDigits m r → (v : ℕ) → v < 16 → IsDigits (suc m) (put r 0 m v)
next {m} {r} d v h = record {
  digit = λ n k. elim (Bool-cases (n == m)) [
    | inl p ↦ ground (arith, p, h)
    | inr p ↦ ground (arith, p, d.digit n (ground (arith, p, k)))
  ];
}

module _ {ℓ} {W : Type ℓ} where
  digits :
      (rtc : RigelRtc W) (t : Tm) (nr : ℕ)
      → IsCalendar t
      → nr < 13
      → (rtc_time_to_regs_oki rtc t).reg 0 nr < 16
  unfolding rtc_time_to_regs_oki
  digits rtc t nr c h =
      let pm = shown_pm (any (rtc.reg 0 0xf) 0x4) (t.tm_hour) in
      let shown = shown_hour (any (rtc.reg 0 0xf) 0x4) (t.tm_hour) in
      let mon = u32 (t.tm_mon + 1) in
      let year = rem_s32 (t.tm_year) 100 in
      let shown_in = shown-lt (any (rtc.reg 0 0xf) 0x4) (t.tm_hour) (c.hour_in) in
      let tens = hi shown (omega (arith, shown_in)) in
      let hour_digit : (if pm then u8 (bit_or (rtc_bcd_hi shown) 0x4) else rtc_bcd_hi shown) < 16 =
        ground (arith, tens, bit_or-lt 4 (rtc_bcd_hi shown) 4 tens (omega arith)) in
      let d0 : IsDigits 0 (rtc.reg) = record { digit = λ n k. absurd (omega (arith, k)) } in
      let d1 = next d0 (rtc_bcd_lo (t.tm_sec)) (lo (t.tm_sec) (omega (arith, c.sec_in))) in
      let d2 = next d1 (rtc_bcd_hi (t.tm_sec)) (hi (t.tm_sec) (omega (arith, c.sec_in))) in
      let d3 = next d2 (rtc_bcd_lo (t.tm_min)) (lo (t.tm_min) (omega (arith, c.min_in))) in
      let d4 = next d3 (rtc_bcd_hi (t.tm_min)) (hi (t.tm_min) (omega (arith, c.min_in))) in
      let d5 = next d4 (rtc_bcd_lo shown) (lo shown (omega (arith, shown_in))) in
      let d6 =
        next d5 (if pm then u8 (bit_or (rtc_bcd_hi shown) 0x4) else rtc_bcd_hi shown) hour_digit in
      let d7 = next d6 (rtc_bcd_lo (t.tm_mday)) (lo (t.tm_mday) (omega (arith, c.mday_in))) in
      let d8 = next d7 (rtc_bcd_hi (t.tm_mday)) (hi (t.tm_mday) (omega (arith, c.mday_in))) in
      let d9 = next d8 (rtc_bcd_lo mon) (lo mon (omega (arith, c.mon_in))) in
      let d10 = next d9 (rtc_bcd_hi mon) (hi mon (omega (arith, c.mon_in))) in
      let d11 = next d10 (rtc_bcd_lo year) (lo year (ground (arith, c.year_to))) in
      let d12 = next d11 (rtc_bcd_hi year) (hi year (ground (arith, c.year_to))) in
      let d13 =
        next d12 (u8 (bit_and (t.tm_wday) 0x0f))
          (omega (arith, bit_and-le_right (t.tm_wday) 0x0f)) in
      d13.digit nr h

  -- An OKI clock.
  abbrev pub oki_clock : (ℕ → ℕ → ℕ) → ℕ → RtcHost W → RigelRtc W
  oki_clock reg offset host = record {
    model = model_oki;
    reg = reg;
    time_offset = offset;
    host = host;
  }

  -- The time set to what it is.
  set-get :
      (libc : Option (Libc W)) (host : RtcHost W) (w : W) (r r' : ℕ → ℕ → ℕ) (offset : ℕ)
      → offset < 2 ^ 64
      → rtc_host_now libc (oki_clock r offset host) w < 2 ^ 64
      → (rtc_set_time libc
          (oki_clock r' offset host)
          w
          (rtc_get_time libc (oki_clock r offset host) w)).time_offset
        ≡ offset
  unfolding rtc_set_time rtc_get_time rtc_host_now
  set-get libc host w r r' offset h k = omega (arith, h, k)

  -- A register of bank 0 written with what it holds.
  stored_back :
      (libc : Option (Libc W)) (host : RtcHost W) (w : W) (r : ℕ → ℕ → ℕ) (offset nr v : ℕ) (t : Tm)
      → let rtc = oki_clock r offset host in
        let u = rtc_time_to_regs_oki rtc t in
        offset < 2 ^ 64
        → rtc_host_now libc rtc w < 2 ^ 64
        → IsCalendar t
        → rtc_host_from_calendar libc rtc w (kept t (t.tm_hour)) ≡ some (rtc_get_time libc rtc w)
        → v ≡ u.reg 0 nr
        → (rtc_regs_to_time libc (record u { reg = put (u.reg) 0 nr v }) w).time_offset ≡ offset
  unfolding rtc_regs_to_time time_if rtc_time_to_regs_oki rtc_host_from_calendar
  stored_back libc host w r offset nr v t o k c f e =
      let rtc = oki_clock r offset host in
      let u = rtc_time_to_regs_oki rtc t in
      subst⁻¹ (λ x. (rtc_regs_to_time libc (record u { reg = x }) w).time_offset ≡ offset)
        (put_same (u.reg) 0 nr v e)
        (subst⁻¹
          (λ x. (time_if libc u w (rtc_host_from_calendar libc rtc w x)).time_offset ≡ offset)
          (regs_oki rtc t c)
          (subst⁻¹ (λ x. (time_if libc u w x).time_offset ≡ offset) f
            (set-get libc host w r (u.reg) offset o k)))

  -- The offset after the write, from the calendar of the host and the test for a special register.
  abbrev offset_after : Option (Libc W) → RigelRtc W → W → ℕ → Option Tm → Bool → ℕ
  offset_after libc rtc w nr o ordinary =
      let u = calendar_to_regs rtc o in
      let bank = rtc_bank_internal u in
      let v =
        rtc_nibble (if ordinary then rtc_nibble (u.reg bank nr) else rtc_nibble (u.reg 0 nr)) in
      let stored = record u { reg = put (u.reg) bank nr v } in
      (if ordinary
        then (if bank == 0 then rtc_regs_to_time libc stored w else stored)
        else (record rtc { reg = put (rtc.reg) 0 nr (rtc_nibble v) })).time_offset

  -- The value that a read would give, written.
  shown_back :
      (libc : Option (Libc W)) (host : RtcHost W) (w : W) (r : ℕ → ℕ → ℕ) (offset nr : ℕ) (t : Tm)
      → let rtc = oki_clock r offset host in
        nr < 13
        → offset < 2 ^ 64
        → rtc_host_now libc rtc w < 2 ^ 64
        → rtc_host_to_calendar libc rtc w (rtc_get_time libc rtc w) ≡ some t
        → IsCalendar t
        → rtc_host_from_calendar libc rtc w (kept t (t.tm_hour)) ≡ some (rtc_get_time libc rtc w)
        → (rtc_write_reg libc rtc w nr ((rtc_read_reg libc rtc w nr).1)).time_offset ≡ offset
  unfolding rtc_write_reg rtc_read_reg store register rtc_update calendar_to_regs
      rtc_time_to_regs_oki
  shown_back libc host w r offset nr t h o k g c f =
      let rtc = oki_clock r offset host in
      let u = rtc_time_to_regs_oki rtc t in
      let bank = rtc_bank_internal u in
      let value = λ (b : ℕ). rtc_nibble (rtc_nibble (u.reg b nr)) in
      let stored = λ (b : ℕ). record u { reg = put (u.reg) b nr (value b) } in
      let by_bank : Bool → Type 0 = λ x.
        (if x then rtc_regs_to_time libc (stored bank) w else stored bank).time_offset ≡ offset in
      let v = u.reg 0 nr in
      let same : value 0 ≡ v =
        omega (arith, nibble (rtc_nibble v), nibble v, digits rtc t nr c h) in
      subst⁻¹ (λ x. offset_after libc rtc w nr x (ltb nr 0xd) ≡ offset) g
        (subst⁻¹ (λ x. offset_after libc rtc w nr (some t) x ≡ offset) (lt→ltb nr 0xd h)
          (elim (Bool-cases (bank == 0)) [
            | inl p ↦ subst⁻¹ by_bank p (
                subst⁻¹ (λ b. (rtc_regs_to_time libc (stored b) w).time_offset ≡ offset)
                  ((==_iff bank 0).0 p)
                  (stored_back libc host w r offset nr (value 0) t o k c f same))
            | inr p ↦ subst⁻¹ by_bank p refl
          ]))

  -- A read changes no more than the registers.
  read_keeps :
      (libc : Option (Libc W)) (host : RtcHost W) (w : W) (r : ℕ → ℕ → ℕ) (offset nr : ℕ)
      → let after = (rtc_read_reg libc (oki_clock r offset host) w nr).0 in
        oki_clock (after.reg) offset host ≡ after
  unfolding rtc_read_reg rtc_update calendar_to_regs rtc_time_to_regs_oki
  read_keeps libc host w r offset nr =
      let rtc = oki_clock r offset host in
      go (rtc_host_to_calendar libc rtc w (rtc_get_time libc rtc w))
    where
      go :
          (o : Option Tm)
          → let u = calendar_to_regs (oki_clock r offset host) o in
            oki_clock (u.reg) offset host ≡ u
      go none = refl
      go (some t) = refl

  -- An OKI clock is read at one time of the host and written at another, and within each of the two the
  -- host shows one time. At the time of the write the host shows a 64-bit time, turns the time of the
  -- clock into a calendar between 1970 and 2069, and turns its fields without the day of the week and
  -- of the year back into the time. Then a write of the value that the read of a register below 13
  -- gave, if the register would be read with this value still, leaves the offset of the clock as it
  -- was, whichever bank is selected.
  pub write_reg-read_reg :
      (libc : Option (Libc W)) (host : RtcHost W) (before w : W) (r : ℕ → ℕ → ℕ) (offset nr : ℕ)
      (t : Tm)
      → let rtc = oki_clock r offset host in
        let (after, value) = rtc_read_reg libc rtc before nr in
        nr < 13
        → offset < 2 ^ 64
        → rtc_host_now libc rtc w < 2 ^ 64
        → rtc_host_to_calendar libc rtc w (rtc_get_time libc rtc w) ≡ some t
        → IsCalendar t
        → rtc_host_from_calendar libc rtc w (kept t (t.tm_hour)) ≡ some (rtc_get_time libc rtc w)
        → (rtc_read_reg libc after w nr).1 ≡ value
        → (rtc_write_reg libc after w nr value).time_offset ≡ offset
  unfolding rtc_get_time rtc_host_now rtc_host_to_calendar rtc_host_from_calendar
  write_reg-read_reg libc host before w r offset nr t h o k g c f e =
      let after = (rtc_read_reg libc (oki_clock r offset host) before nr).0 in
      let same = shown_back libc host w (after.reg) offset nr t h o k g c f in
      subst (λ v. (rtc_write_reg libc after w nr v).time_offset ≡ offset) e
        (subst
          (λ x. (rtc_write_reg libc x w nr ((rtc_read_reg libc x w nr).1)).time_offset ≡ offset)
          (read_keeps libc host before r offset nr) same)
