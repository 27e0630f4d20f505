-- ===== src/Cia/TimerRegisters/RoundTrip.antt =====
-- Loading a stopped timer through its two latch registers and reading it back.
use rigel.Prelude.{
  ℕ, ◌<◌, ◌+◌, ◌*◌, ◌^◌, ◌%◌, ◌/◌, ◌≡◌, ◌∙◌, arith, any, bit_and, bit_or, u16, ap, refl, ◌||◌,
  ◌<<<◌, if◌then◌else◌, some,
}
use rigel.Prelude.Bits.{testbit, testbit-and, testbit-or, bits_ext, ones_bit, any_bit, testbit_set}
use rigel.Prelude.Shifts.{bit_and_mask, ones_test, testbit_shl, or_shift}
use rigel.Cia.State.{CiaState}
use rigel.Cia.TimerRegisters.{
  timers_write_reg, timers_read_reg, write_talo, write_tahi, write_tblo, write_tbhi, write_cra,
  write_crb,
}

testbit-u16 : (x i : ℕ) → i < 16 → testbit (u16 x) i ≡ testbit x i
testbit-u16 x i h =
    rw (← bit_and_mask 16 x) (testbit-and x 0xffff i ∙ (rw (ones_bit 16 i h) (ground arith)))

low_half : (latch lo : ℕ) → lo < 2 ^ 8 → bit_and (u16 (bit_or (bit_and latch 0xff00) lo)) 0xff ≡ lo
low_half latch lo h =
    let kept = bit_and latch 0xff00 in
    bits_ext 8 (bit_and (u16 (bit_or kept lo)) 0xff) lo
      (ground (arith, bit_and_mask 8 (u16 (bit_or kept lo)))) h
      (λ i lt. ground (
        arith,
        testbit-and (u16 (bit_or kept lo)) 0xff i,
        ones_test 8 i,
        testbit-u16 (bit_or kept lo) i (omega arith),
        testbit-or kept lo i,
        testbit-and latch 0xff00 i,
        testbit_shl 0xff 8 i,
      ))

-- The latch after its two halves are written.
latch_lem :
    (latch lo hi : ℕ)
    → lo < 2 ^ 8
    → hi < 2 ^ 8
    → u16 (bit_or (bit_and (u16 (bit_or (bit_and latch 0xff00) lo)) 0x00ff) (hi <<< 8))
      ≡ lo + hi * 2 ^ 8
latch_lem latch lo hi h k = rw (low_half latch lo h, or_shift 8 lo hi h) (omega arith)

-- For any bytes written to TALO and then TAHI: a stopped timer A counts from them, a running one
-- keeps its counter; the counter is what TALO and TAHI read; the timer runs afterwards if it ran
-- or is in one-shot mode; and a write to CRA with LOAD gives it the two bytes.
pub load_a :
    (cia : CiaState) (lo hi : ℕ)
    → lo < 2 ^ 8
    → hi < 2 ^ 8
    → let c1 = write_talo cia lo in
      let c = write_tahi c1 hi in
      let running = any cia.cra 0x01 in
      let counter = if running then cia.ta_counter else lo + hi * 2 ^ 8 in
      (timers_write_reg cia 4 lo ≡ some c1)
      × (timers_write_reg c1 5 hi ≡ some c)
      × (c.ta_counter ≡ counter)
      × (timers_read_reg c 4 ≡ some (counter % 2 ^ 8))
      × (timers_read_reg c 5 ≡ some (counter / 2 ^ 8 % 2 ^ 8))
      × (any c.cra 0x01 ≡ (running || any cia.cra 0x08))
      × ((v : ℕ) → (write_cra c v).ta_counter ≡ (if any v 0x10 then lo + hi * 2 ^ 8 else counter))
unfolding write_talo write_tahi write_cra timers_write_reg timers_read_reg
load_a cia lo hi h k =
    let c = write_tahi (write_talo cia lo) hi in
    let l = latch_lem cia.ta_latch lo hi h k in
    let counter = if any cia.cra 0x01 then cia.ta_counter else lo + hi * 2 ^ 8 in
    let e : c.ta_counter ≡ counter = ground (arith, l) in
    (
      refl,
      refl,
      e,
      rw e (ap some (omega (arith, bit_and_mask 8 counter))),
      rw e (ap some (omega (arith, bit_and_mask 8 (counter / 2 ^ 8)))),
      ground (arith, any_bit cia.cra 0, any_bit (bit_or cia.cra 1) 0, testbit_set cia.cra 0 0),
      λ v. ground (arith, l),
    )

-- For any bytes written to TBLO and then TBHI: a stopped timer B counts from them, a running one
-- keeps its counter; the counter is what TBLO and TBHI read; the timer runs afterwards if it ran
-- or is in one-shot mode; and a write to CRB with LOAD gives it the two bytes.
load_b :
    (cia : CiaState) (lo hi : ℕ)
    → lo < 2 ^ 8
    → hi < 2 ^ 8
    → let c1 = write_tblo cia lo in
      let c = write_tbhi c1 hi in
      let running = any cia.crb 0x01 in
      let counter = if running then cia.tb_counter else lo + hi * 2 ^ 8 in
      (timers_write_reg cia 6 lo ≡ some c1)
      × (timers_write_reg c1 7 hi ≡ some c)
      × (c.tb_counter ≡ counter)
      × (timers_read_reg c 6 ≡ some (counter % 2 ^ 8))
      × (timers_read_reg c 7 ≡ some (counter / 2 ^ 8 % 2 ^ 8))
      × (any c.crb 0x01 ≡ (running || any cia.crb 0x08))
      × ((v : ℕ) → (write_crb c v).tb_counter ≡ (if any v 0x10 then lo + hi * 2 ^ 8 else counter))
unfolding write_tblo write_tbhi write_crb timers_write_reg timers_read_reg
load_b cia lo hi h k =
    let c = write_tbhi (write_tblo cia lo) hi in
    let l = latch_lem cia.tb_latch lo hi h k in
    let counter = if any cia.crb 0x01 then cia.tb_counter else lo + hi * 2 ^ 8 in
    let e : c.tb_counter ≡ counter = ground (arith, l) in
    (
      refl,
      refl,
      e,
      rw e (ap some (omega (arith, bit_and_mask 8 counter))),
      rw e (ap some (omega (arith, bit_and_mask 8 (counter / 2 ^ 8)))),
      ground (arith, any_bit cia.crb 0, any_bit (bit_or cia.crb 1) 0, testbit_set cia.crb 0 0),
      λ v. ground (arith, l),
    )
