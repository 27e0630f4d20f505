-- ===== src/Cia/Tod/Access.antt =====
-- The registers of the time of day (src/cia/cia_tod.c), written byte by byte.
use rigel.Prelude.{
  ℕ, ◌+◌, ◌-◌, ◌/◌, ◌^◌, ◌<◌, bit_and, bit_or, ◌≡◌, refl, ◌*◌, Bool, true, false, ap, ◌∙◌, xor,
  ◌&&◌, arith, any, ltb, u8, ◌<<<◌, if◌then◌else◌,
}
use rigel.Prelude.Bits.{
  testbit, testbit-and, testbit-or, testbit-xor, testbit_high, ones_bit, bits_ext, bit_and-le_right,
  bit_or-lt,
}
use rigel.Prelude.Shifts.{ones_test, testbit_shr, testbit_shl}
use rigel.Cia.State.{CiaState}
use rigel.Cia.Tod.{tod_lo, tod_mid, tod_hi, tod_read, tod_write}
use rigel.Cia.Tod.Latch.{bytes_sum}

-- What three writes, high byte first, leave of a target with the old value `x`.
abbrev assembled : ℕ → ℕ → ℕ → ℕ → ℕ
assembled x a b c =
    bit_or
      (bit_and (bit_or (bit_and (bit_or (bit_and x 0x00ffff) (a <<< 16)) 0xff00ff) (b <<< 8))
        0xffff00)
      c

middle_mask : (i : ℕ) → testbit 0xff00ff i ≡ xor (ltb i 24) (xor (ltb i 16) (ltb i 8))
middle_mask i =
    testbit-xor 0xffffff 0x00ff00 i
    ∙ (rw (testbit-xor 0xffff 0xff i) (rw (ones_test 24 i, ones_test 16 i, ones_test 8 i)))

low_mask : (i : ℕ) → testbit 0xffff00 i ≡ xor (ltb i 24) (ltb i 8)
low_mask i = testbit-xor 0xffffff 0xff i ∙ (rw (ones_test 24 i, ones_test 8 i))

assembled_bit :
    (x a b c i : ℕ)
    → a < 2 ^ 8
    → b < 2 ^ 8
    → c < 2 ^ 8
    → testbit (assembled x a b c) i ≡ (
        if ltb i 8 then testbit c i else if ltb i 16 then testbit b (i - 8) else testbit a (i - 16))
unfolding xor
assembled_bit x a b c i ha hb hc =
    let x1 = bit_or (bit_and x 0x00ffff) (a <<< 16) in
    let x2 = bit_or (bit_and x1 0xff00ff) (b <<< 8) in
    ground (
      arith,
      testbit-or (bit_and x2 0xffff00) c i,
      testbit-and x2 0xffff00 i,
      low_mask i,
      testbit-or (bit_and x1 0xff00ff) (b <<< 8) i,
      testbit-and x1 0xff00ff i,
      middle_mask i,
      testbit-or (bit_and x 0x00ffff) (a <<< 16) i,
      testbit-and x 0x00ffff i,
      ones_test 16 i,
      testbit_shl a 16 i,
      testbit_shl b 8 i,
      testbit_high 8 a (i - 16) ha,
      testbit_high 8 b (i - 8) hb,
      testbit_high 8 c i hc,
    )

-- A byte of a number, from its digits.
byte_eq :
    (r k v : ℕ)
    → v < 2 ^ 8
    → ((i : ℕ) → i < 8 → testbit r (k + i) ≡ testbit v i)
    → u8 (bit_and (r / 2 ^ k) 0xff) ≡ v
byte_eq r k v hv h = bits_ext 8 (u8 (bit_and (r / 2 ^ k) 0xff)) v (omega arith) hv λ i p.
    let small : u8 (bit_and (r / 2 ^ k) 0xff) ≡ bit_and (r / 2 ^ k) 0xff =
      omega (arith, bit_and-le_right (r / 2 ^ k) 0xff) in
    rw small (
      testbit-and (r / 2 ^ k) 0xff i
      ∙ (rw (ones_bit 8 i p, testbit_shr r k i) (ground (arith, h i p))))

module _ (x a b c : ℕ) (ha : a < 2 ^ 8) (hb : b < 2 ^ 8) (hc : c < 2 ^ 8) where
  pub assembled_bytes :
      (tod_hi (assembled x a b c) ≡ a)
      × (tod_mid (assembled x a b c) ≡ b)
      × (tod_lo (assembled x a b c) ≡ c)
  unfolding tod_hi tod_mid tod_lo
  assembled_bytes = (
    byte_eq (assembled x a b c) 16 a ha (λ i p. hi i p),
    byte_eq (assembled x a b c) 8 b hb (λ i p. mid i p),
    ap (λ (t : ℕ). u8 (bit_and t 0xff)) {y = assembled x a b c / 2 ^ 0} (omega arith)
        ∙ byte_eq (assembled x a b c) 0 c hc (λ i p. lo i p),
  )
    where
      lo : (i : ℕ) → i < 8 → testbit (assembled x a b c) (0 + i) ≡ testbit c i
      lo i p =
          let e : 0 + i ≡ i = omega arith in
          rw e (assembled_bit x a b c i ha hb hc ∙ (ground arith))

      hi : (i : ℕ) → i < 8 → testbit (assembled x a b c) (16 + i) ≡ testbit a i
      hi i p =
          assembled_bit x a b c (16 + i) ha hb hc
          ∙ (let e : 16 + i - 16 ≡ i = omega arith in rw e (ground arith))

      mid : (i : ℕ) → i < 8 → testbit (assembled x a b c) (8 + i) ≡ testbit b i
      mid i p =
          assembled_bit x a b c (8 + i) ha hb hc
          ∙ (let e : 8 + i - 8 ≡ i = omega arith in rw e (ground arith))

-- Three writes of bytes to TODHI, TODMID and TODLO.
abbrev pub write_tod : CiaState → ℕ → ℕ → ℕ → CiaState
write_tod cia a b c = tod_write (tod_write (tod_write cia 0xa a) 0x9 b) 0x8 c

-- The three bytes as one number.
assembled_lem :
    (x a b c : ℕ)
    → a < 2 ^ 8
    → b < 2 ^ 8
    → c < 2 ^ 8
    → assembled x a b c ≡ a * 2 ^ 16 + b * 2 ^ 8 + c
assembled_lem x a b c ha hb hc =
    let upper = bit_or (bit_and (bit_or (bit_and x 0x00ffff) (a <<< 16)) 0xff00ff) (b <<< 8) in
    let fits : assembled x a b c < 2 ^ 24 =
      bit_or-lt 24 (bit_and upper 0xffff00) c (omega (arith, bit_and-le_right upper 0xffff00))
        (omega (arith, hc)) in
    omega (arith, bytes_sum (assembled x a b c) fits, assembled_bytes x a b c ha hb hc)

-- The bytes of a number, the highest first.
abbrev pub tod_bytes : ℕ → ℕ × ℕ × ℕ
tod_bytes v = (tod_hi v, tod_mid v, tod_lo v)

-- Reads of TODHI, TODMID and TODLO, and the bytes that they give.
abbrev pub read_tod : CiaState → ℕ × ℕ × ℕ
read_tod cia =
    let (held, hi) = tod_read cia 0xa in
    let (kept, mid) = tod_read held 0x9 in (hi, mid, (tod_read kept 0x8).1)

read_tod_lem : (cia : CiaState) → read_tod cia ≡ tod_bytes cia.tod.counter
unfolding tod_read
read_tod_lem cia = refl

-- Where the writes go.
written :
    (cia : CiaState) (a b c : ℕ)
    → let alarm_set = any cia.crb 0x80 in
      let before = cia.tod in
      let after = (write_tod cia a b c).tod in
      (after.counter ≡ (if alarm_set then before.counter else assembled before.counter a b c))
      × (after.alarm ≡ (if alarm_set then assembled before.alarm a b c else before.alarm))
      × (after.stopped ≡ (alarm_set && before.stopped))
unfolding tod_write
written cia a b c = ground arith

-- The bytes of one of two numbers.
bytes_of :
    (alarm_set : Bool) (x y a b c : ℕ)
    → (tod_hi y ≡ a) × (tod_mid y ≡ b) × (tod_lo y ≡ c)
    → tod_bytes (if alarm_set then x else y) ≡ (if alarm_set then tod_bytes x else (a, b, c))
bytes_of true x y a b c e = refl
bytes_of false x y a b c (hi, mid, lo) = λ i. (hi i, mid i, lo i)

-- Three bytes written to TODHI, TODMID and TODLO. With the ALARM bit of CRB clear, reads of the three
-- registers then give the bytes; they are the counter, which runs, and the alarm keeps its value. With
-- it set they are the alarm, which the reads do not give: the counter keeps its value, and the reads
-- give its bytes; it is stopped if it was.
pub tod_write-read :
    (cia : CiaState) (a b c : ℕ)
    → a < 2 ^ 8
    → b < 2 ^ 8
    → c < 2 ^ 8
    → let alarm_set = any cia.crb 0x80 in
      let before = cia.tod in
      let t = write_tod cia a b c in
      let bytes = a * 2 ^ 16 + b * 2 ^ 8 + c in
      (read_tod t ≡ (if alarm_set then tod_bytes before.counter else (a, b, c)))
      × (t.tod.counter ≡ (if alarm_set then before.counter else bytes))
      × (t.tod.alarm ≡ (if alarm_set then bytes else before.alarm))
      × (t.tod.stopped ≡ (alarm_set && before.stopped))
tod_write-read cia a b c ha hb hc =
    let before = cia.tod in
    let t = write_tod cia a b c in
    let (counter, alarm, stopped) = written cia a b c in
    let whole = assembled_lem before.counter a b c ha hb hc in
    let bytes = assembled_lem before.alarm a b c ha hb hc in
    (
      read_tod_lem t
          ∙ ap tod_bytes counter
          ∙ bytes_of (any cia.crb 0x80) before.counter (assembled before.counter a b c) a b c
              (assembled_bytes before.counter a b c ha hb hc),
      counter ∙ ap (λ x. if any cia.crb 0x80 then before.counter else x) whole,
      alarm ∙ ap (λ x. if any cia.crb 0x80 then x else before.alarm) bytes,
      stopped,
    )
