-- ===== src/Rtc.antt =====
-- The real-time clock: its state and the host behind it (src/rtc/rtc.h, include/rigel/rigel_rtc.h and the
-- helpers of src/rtc/rtc.c). A `time_t` is its 64-bit pattern, an `int` its 32-bit pattern. The host is
-- reached through a world W, which stays the same within one operation; libc stands behind it, absent
-- where the build leaves it out. No pointer to a clock is NULL.
pub mod Registers
pub mod Clock
pub mod Hours
pub mod WriteBack
mod Tests
use rigel.Prelude.{
  ℕ, ◌+◌, ◌-◌, ◌*◌, ◌/◌, ◌%◌, ◌^◌, bit_and, Bool, Option, none, some, u8, u32, ltb, ◌==◌,
  if◌then◌else◌,
}

pub data RtcModel : Type 0 where
  model_none : RtcModel
  model_oki : RtcModel
  model_ricoh : RtcModel

-- `struct tm`, the fields that the code reads.
pub record Tm : Type 0 where
  pub tm_sec : ℕ
  pub tm_min : ℕ
  pub tm_hour : ℕ
  pub tm_mday : ℕ
  pub tm_mon : ℕ
  pub tm_year : ℕ
  pub tm_wday : ℕ
  pub tm_yday : ℕ

-- A conversion that fails is `none`.
pub record RtcHost {ℓ} (W : Type ℓ) : Type ℓ where
  pub now : Option (W → ℕ)
  pub to_calendar : Option (W → ℕ → Option Tm)
  pub from_calendar : Option (W → Tm → Option ℕ)

-- `time`, `localtime` and `mktime`.
pub record Libc {ℓ} (W : Type ℓ) : Type ℓ where
  pub time : W → ℕ
  pub localtime : W → ℕ → Option Tm
  pub mktime : W → Tm → ℕ

pub record RigelRtc {ℓ} (W : Type ℓ) : Type ℓ where
  pub model : RtcModel
  pub reg : ℕ → ℕ → ℕ
  pub time_offset : ℕ
  pub host : RtcHost W

-- `v % n` and `v / n` of an `int`, which round towards 0.
abbrev pub rem_s32 : ℕ → ℕ → ℕ
rem_s32 v n = if ltb v (2 ^ 31) then v % n else u32 (2 ^ 32 - (2 ^ 32 - v) % n)

abbrev pub quot_s32 : ℕ → ℕ → ℕ
quot_s32 v n = if ltb v (2 ^ 31) then v / n else u32 (2 ^ 32 - (2 ^ 32 - v) / n)

unfoldable pub rtc_nibble : ℕ → ℕ
rtc_nibble v = u8 (bit_and v 0x0f)

unfoldable pub rtc_bcd_lo : ℕ → ℕ
rtc_bcd_lo v = u8 (rem_s32 v 10)

unfoldable pub rtc_bcd_hi : ℕ → ℕ
rtc_bcd_hi v = u8 (quot_s32 v 10)

unfoldable pub rtc_from_bcd : ℕ → ℕ → ℕ
rtc_from_bcd lo hi = rtc_nibble lo + 10 * rtc_nibble hi

-- `reg[bank][nr] = value`
abbrev pub put : (ℕ → ℕ → ℕ) → ℕ → ℕ → ℕ → ℕ → ℕ → ℕ
put reg bank nr value b n = if b == bank then (if n == nr then value else reg b n) else reg b n

module _ {ℓ} {W : Type ℓ} where
  unfoldable pub rtc_host_now : Option (Libc W) → RigelRtc W → W → ℕ
  rtc_host_now libc rtc w = elim (rtc.host.now) [
    | some now ↦ now w
    | none ↦ elim libc [ some c ↦ c.time w | none ↦ 0 ]
  ]

  unfoldable pub rtc_host_to_calendar : Option (Libc W) → RigelRtc W → W → ℕ → Option Tm
  rtc_host_to_calendar libc rtc w value = elim (rtc.host.to_calendar) [
    | some to_calendar ↦ to_calendar w value
    | none ↦ elim libc [ some c ↦ c.localtime w value | none ↦ none ]
  ]

  unfoldable pub rtc_host_from_calendar : Option (Libc W) → RigelRtc W → W → Tm → Option ℕ
  rtc_host_from_calendar libc rtc w calendar = elim (rtc.host.from_calendar) [
    | some from_calendar ↦ from_calendar w calendar
    | none ↦ elim libc [
      | some c ↦
          let value = c.mktime w calendar in
          if value == 0xffffffffffffffff then none else some value
      | none ↦ none
    ]
  ]

  unfoldable pub rtc_bank_internal : RigelRtc W → ℕ
  rtc_bank_internal rtc = u8 (bit_and (rtc.reg 0 0xd) 0x03)
