-- ===== src/Rtc/Hours.antt =====
-- A calendar put into the registers and taken out again.
use rigel.Prelude.{
  ℕ, suc, zero, ◌+◌, ◌-◌, ◌*◌, ◌/◌, ◌%◌, ◌<◌, ◌≤◌, ◌≡◌, refl, ap, ◌∙◌, arith, bit_and, bit_or, Bool,
  true, false, any, ltb, ◌==◌, u8, u32, ◌<<<◌, ◌>>>◌, if◌then◌else◌, ◌&&◌, ==_iff, Bool-cases, inl,
  inr,
}
use mathlib.Core.Path.{subst⁻¹}
use rigel.Prelude.Shifts.{bit_and_mask, or_shift}
use rigel.Rtc.{rem_s32, Tm, RigelRtc, rtc_bcd_lo, rtc_bcd_hi, rtc_from_bcd, rtc_nibble}
use rigel.Rtc.Registers.{
  shown_hour, shown_pm, meant_hour, full_year, rtc_time_to_regs_oki, rtc_regs_to_time_oki,
  rtc_time_to_regs_ricoh, rtc_regs_to_time_ricoh, alarm_trimmed,
}

-- A calendar between 1970 and 2069.
pub record IsCalendar (t : Tm) : Type 0 where
  pub sec_in : t.tm_sec < 60
  pub min_in : t.tm_min < 60
  pub hour_in : t.tm_hour < 24
  pub mday_in : t.tm_mday < 32
  pub mon_in : t.tm_mon < 12
  pub year_from : 70 ≤ t.tm_year
  pub year_to : t.tm_year < 170

pub nibble : (v : ℕ) → rtc_nibble v ≡ v % 16
unfolding rtc_nibble
nibble v = omega (arith, bit_and_mask 4 v)

bcd : (v : ℕ) → v < 100 → rtc_from_bcd (rtc_bcd_lo v) (rtc_bcd_hi v) ≡ v
unfolding rtc_from_bcd rtc_bcd_lo rtc_bcd_hi
bcd v h = ground (arith, nibble (v % 10), nibble (v / 10), h)

-- A test on every number below `n`.
abbrev all_below : ℕ → (ℕ → Bool) → Bool
all_below zero f = true
all_below (suc n) f = f n && all_below n f

both : (a b : Bool) → (a && b) ≡ true → (a ≡ true) × (b ≡ true)
both true b e = (refl, e)
both false b e = ground (arith, e)

below : (n : ℕ) (f : ℕ → Bool) → all_below n f ≡ true → (i : ℕ) → i < n → f i ≡ true
below zero f e i h = absurd (omega (arith, h))
below (suc n) f e i h = elim (Bool-cases (i == n)) [
  | inl p ↦ subst⁻¹ (λ x. f x ≡ true) ((==_iff i n).0 p) ((both (f n) (all_below n f) e).0)
  | inr p ↦ below n f ((both (f n) (all_below n f) e).1) i (ground (arith, p, h))
]

-- The hour through the registers 4 and 5, `pm` on the digit `pm` of the second, which gives the other
-- digits below `mask` to the hour.
abbrev back : ℕ → ℕ → Bool → ℕ → ℕ
back pm mask is_24h hour =
    let shown = shown_hour is_24h hour in
    let hi = rtc_bcd_hi shown in
    let stored = if shown_pm is_24h hour then u8 (bit_or hi pm) else hi in
    meant_hour is_24h (any stored pm) (rtc_from_bcd (rtc_bcd_lo shown) (bit_and stored mask))

hour_oki : (is_24h : Bool) (hour : ℕ) → hour < 24 → back 4 3 is_24h hour ≡ hour
unfolding shown_hour shown_pm meant_hour rtc_bcd_hi rtc_bcd_lo rtc_from_bcd rtc_nibble any
hour_oki true hour h =
    (==_iff (back 4 3 true hour) hour).0 (below 24 (λ i. back 4 3 true i == i) refl hour h)
hour_oki false hour h =
    (==_iff (back 4 3 false hour) hour).0 (below 24 (λ i. back 4 3 false i == i) refl hour h)

-- The hour that the Ricoh clock gives back: its digit for 20 is not read.
abbrev pub hour_read : Bool → ℕ → ℕ
hour_read is_24h hour = if is_24h then (if ltb hour 20 then hour else hour - 20) else hour

hour_ricoh : (is_24h : Bool) (hour : ℕ) → hour < 24 → back 2 1 is_24h hour ≡ hour_read is_24h hour
unfolding shown_hour shown_pm meant_hour rtc_bcd_hi rtc_bcd_lo rtc_from_bcd rtc_nibble any
hour_ricoh true hour h =
    (==_iff (back 2 1 true hour) (hour_read true hour)).0
      (below 24 (λ i. back 2 1 true i == hour_read true i) refl hour h)
hour_ricoh false hour h =
    (==_iff (back 2 1 false hour) hour).0 (below 24 (λ i. back 2 1 false i == i) refl hour h)

month_back :
    (m : ℕ)
    → m < 12
    → u32 (rtc_from_bcd (rtc_bcd_lo (u32 (m + 1))) (rtc_bcd_hi (u32 (m + 1))) + 0xffffffff) ≡ m
month_back m h = omega (arith, h, bcd (u32 (m + 1)))

year_back :
    (y : ℕ)
    → 70 ≤ y
    → y < 170
    → full_year (rtc_from_bcd (rtc_bcd_lo (rem_s32 y 100)) (rtc_bcd_hi (rem_s32 y 100))) ≡ y
year_back y h k = ground (arith, h, k, bcd (rem_s32 y 100))

-- Register 10 of the Ricoh clock keeps the mode and holds the tens of the month.
abbrev tens_stored : ℕ → ℕ → ℕ
tens_stored a m = bit_and (u8 (bit_or (bit_and a 0x1) (rtc_bcd_hi m <<< 1))) 0x03

tens_lem : (a m : ℕ) → m < 13 → tens_stored a m ≡ a % 2 + 2 * (m / 10)
unfolding rtc_bcd_hi
tens_lem a m h = ground (
  arith,
  h,
  bit_and_mask 1 a,
  or_shift 1 (bit_and a 1) (m / 10),
  bit_and_mask 2 (a % 2 + 2 * (m / 10)),
)

tens_mode : (a m : ℕ) → m < 13 → any (tens_stored a m) 1 ≡ any a 1
unfolding any
tens_mode a m h =
    ground (arith, h, tens_lem a m h, bit_and_mask 1 a, bit_and_mask 1 (tens_stored a m))

tens_month :
    (a m : ℕ)
    → m < 12
    → u32 (
        rtc_nibble (rtc_bcd_lo (u32 (m + 1)))
        + 10 * bit_and (tens_stored a (u32 (m + 1)) >>> 1) 0x1
        + 0xffffffff)
      ≡ m
unfolding rtc_bcd_lo
tens_month a m h =
    let n = u32 (m + 1) in
    let t = tens_stored a n in
    ground
      (arith, h, tens_lem a n (omega (arith, h)), bit_and_mask 1 (t >>> 1), nibble (rtc_bcd_lo n))

-- What the registers hold of a calendar.
abbrev pub kept : Tm → ℕ → Tm
kept t hour = record t { tm_hour = hour; tm_wday = 0; tm_yday = 0 }

-- Register 5 of the Ricoh clock.
abbrev hours : Bool → ℕ → ℕ
hours is_24h hour =
    let hi = rtc_bcd_hi (shown_hour is_24h hour) in
    if shown_pm is_24h hour then u8 (bit_or hi 2) else hi

module _ {ℓ} {W : Type ℓ} where
  -- For a calendar between 1970 and 2069, with either mode of the clock: put into the registers of an OKI
  -- clock and taken out again, it is the same but for the day of the week and of the year, which are 0.
  pub regs_oki :
      (rtc : RigelRtc W) (t : Tm)
      → IsCalendar t
      → rtc_regs_to_time_oki (rtc_time_to_regs_oki rtc t) ≡ kept t (t.tm_hour)
  unfolding rtc_time_to_regs_oki rtc_regs_to_time_oki
  regs_oki rtc t c = λ i. record {
    tm_sec = bcd (t.tm_sec) (omega (arith, c.sec_in)) i;
    tm_min = bcd (t.tm_min) (omega (arith, c.min_in)) i;
    tm_hour = hour_oki (any (rtc.reg 0 0xf) 0x4) (t.tm_hour) (c.hour_in) i;
    tm_mday = bcd (t.tm_mday) (omega (arith, c.mday_in)) i;
    tm_mon = month_back (t.tm_mon) (c.mon_in) i;
    tm_year = year_back (t.tm_year) (c.year_from) (c.year_to) i;
    tm_wday = 0;
    tm_yday = 0;
  }

  -- For a calendar between 1970 and 2069, put into the registers of a Ricoh clock and taken out again: in
  -- the mode of 12 hours it is the same but for the day of the week and of the year, which are 0; in the
  -- mode of 24 hours an hour from 20 on comes back as 20 less.
  pub regs_ricoh :
      (rtc : RigelRtc W) (t : Tm)
      → IsCalendar t
      → rtc_regs_to_time_ricoh (rtc_time_to_regs_ricoh rtc t)
        ≡ kept t (hour_read (any (rtc.reg 0 0xa) 0x1) (t.tm_hour))
  unfolding rtc_time_to_regs_ricoh rtc_regs_to_time_ricoh alarm_trimmed
  regs_ricoh rtc t c =
      let n = u32 (t.tm_mon + 1) in
      let a = rtc.reg 0 0xa in
      let mode = any a 0x1 in
      λ i. record {
        tm_sec = bcd (t.tm_sec) (omega (arith, c.sec_in)) i;
        tm_min = bcd (t.tm_min) (omega (arith, c.min_in)) i;
        tm_hour =
            (ap
                  (λ x. meant_hour x (any (hours mode (t.tm_hour)) 2) (
                    rtc_from_bcd (rtc_bcd_lo (shown_hour mode (t.tm_hour)))
                      (bit_and (hours mode (t.tm_hour)) 1)))
                  (tens_mode a n (omega (arith, c.mon_in)))
                ∙ hour_ricoh mode (t.tm_hour) (c.hour_in))
              i;
        tm_mday = bcd (t.tm_mday) (omega (arith, c.mday_in)) i;
        tm_mon = tens_month a (t.tm_mon) (c.mon_in) i;
        tm_year = year_back (t.tm_year) (c.year_from) (c.year_to) i;
        tm_wday = 0;
        tm_yday = 0;
      }
