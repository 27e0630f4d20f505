-- ===== src/Floppy/Clocks.antt =====
-- The digits of a longword with clock bits.
use rigel.Prelude.{
  ℕ, zero, suc, ◌+◌, ◌-◌, ◌*◌, ◌/◌, ◌%◌, ◌<◌, ◌^◌, ◌≡◌, refl, ap, false, arith, ◌∙◌, sym, inl, inr,
  Bool-cases, not, xor, ◌&&◌, ◌||◌, bit_and, bit_or, u32, ltb, leb, ◌==◌, ◌<<<◌, ◌>>>◌,
}
use rigel.Prelude.Bits.{
  testbit, testbit-and, testbit-or, testbit-xor, ones_bit, testbit_high, bit_and-le_right,
}
use rigel.Prelude.Shifts.{testbit_shr, testbit_shl, bit_and_mask}
use rigel.Floppy.{mfm_mask, not32, clocked}

-- `k` digits 01, from the lowest on.
abbrev alternate : ℕ → ℕ
alternate zero = 0
alternate (suc k) = 4 * alternate k + 1

alternate_bit : (k i : ℕ) → testbit (alternate k) i ≡ (ltb i (2 * k) && i % 2 == 0)
unfolding testbit
alternate_bit zero i = testbit_high 0 0 i (omega arith) (omega arith) ∙ (ground arith)
alternate_bit (suc k) zero = ground arith
alternate_bit (suc k) (suc zero) = ground arith
alternate_bit (suc k) (suc (suc i)) =
    let e : (4 * alternate k + 1) / 2 / 2 ≡ alternate k = omega arith in
    rw e (alternate_bit k i ∙ (ground arith))

pub mask_bit : (i : ℕ) → i < 32 → testbit mfm_mask i ≡ (i % 2 == 0)
mask_bit i h = alternate_bit 16 i ∙ (ground arith)

clock_bit : (i : ℕ) → i < 32 → testbit 0xaaaaaaaa i ≡ (i % 2 == 1)
unfolding testbit
clock_bit zero h = refl
clock_bit (suc i) h = mask_bit i (omega arith) ∙ (ground arith)

not_bit : (x i : ℕ) → i < 32 → testbit (not32 x) i ≡ not (testbit x i)
unfolding xor
not_bit x i h = ground (arith, testbit-xor x 0xffffffff i, ones_bit 32 i h)

low_bit : (x i : ℕ) → i < 32 → testbit (u32 x) i ≡ testbit x i
low_bit x i h =
    ap (λ y. testbit y i) (sym (bit_and_mask 32 x))
    ∙ testbit-and x 0xffffffff i
    ∙ (rw (ones_bit 32 i h) (ground arith))

-- The digits of the parts of a longword with clock bits.
pub data_bit : (w i : ℕ) → i < 32 → testbit (bit_and w mfm_mask) i ≡ (testbit w i && i % 2 == 0)
data_bit w i h = testbit-and w mfm_mask i ∙ (rw (mask_bit i h) refl)

clocked_bit :
    (p w i : ℕ)
    → i < 32
    → let v = bit_and w mfm_mask in
      testbit (clocked p w) i ≡ (
        testbit v i
        || not (leb 31 i && testbit p (i - 31) || testbit v (1 + i))
          && not (leb 1 i && testbit v (i - 1))
          && (i % 2 == 1))
unfolding clocked
clocked_bit p w i h =
    let v = bit_and w mfm_mask in
    let m1 = bit_or (u32 (p <<< 31)) (v >>> 1) in
    let m2 = u32 (v <<< 1) in
    let e1 = low_bit (p * 2 ^ 31) i h in
    let e2 = low_bit (v * 2 ^ 1) i h in
    rw
      (
        testbit-or v (bit_and (bit_and (not32 m1) (not32 m2)) 0xaaaaaaaa) i,
        testbit-and (bit_and (not32 m1) (not32 m2)) 0xaaaaaaaa i,
        testbit-and (not32 m1) (not32 m2) i,
        not_bit m1 i h,
        not_bit m2 i h,
        testbit-or (u32 (p <<< 31)) (v >>> 1) i,
        e1,
        e2,
        testbit_shl p 31 i,
        testbit_shl v 1 i,
        testbit_shr v 1 i,
        clock_bit i h,
      )
      refl

pub clocked_data : (p w i : ℕ) → i < 32 → i % 2 ≡ 0 → testbit (clocked p w) i ≡ testbit w i
clocked_data p w i h e = clocked_bit p w i h ∙ (ground (arith, data_bit w i h))

clocked_clock :
    (p w i : ℕ)
    → i < 31
    → i % 2 ≡ 1
    → testbit (clocked p w) i ≡ (not (testbit w (1 + i)) && not (testbit w (i - 1)))
clocked_clock p w i h e =
    clocked_bit p w i (omega arith)
    ∙ (ground (
      arith,
      data_bit w i (omega arith),
      data_bit w (1 + i) (omega arith),
      data_bit w (i - 1) (omega arith),
    ))

clocked_first : (p w : ℕ) → testbit (clocked p w) 31 ≡ (not (testbit p 0) && not (testbit w 30))
clocked_first p w =
    let high : testbit (bit_and w mfm_mask) 32 ≡ false =
      testbit_high 32 (bit_and w mfm_mask) 32 (omega (arith, bit_and-le_right w mfm_mask))
        (omega arith) in
    clocked_bit p w 31 (omega arith)
    ∙ (rw (high, data_bit w 31 (omega arith), data_bit w 30 (omega arith)) (ground arith))

-- Two digits in a row of a longword with clock bits, and its first after the digit before.
pub no_pair :
    (p w i : ℕ) → i < 31 → (testbit (clocked p w) i && testbit (clocked p w) (1 + i)) ≡ false
no_pair p w i h = elim (Bool-cases (i % 2 == 0)) [
  | inl e ↦ elim (Bool-cases (i == 30)) [
    | inl f ↦
        let j : i ≡ 30 = ground arith in
        rw (j, clocked_data p w 30 (omega arith) refl, clocked_first p w) (ground arith)
    | inr f ↦
        let j : 1 + i - 1 ≡ i = omega arith in
        rw
          (
            clocked_data p w i (omega arith) (ground arith),
            clocked_clock p w (1 + i) (ground arith) (ground arith),
            j,
          )
          (ground arith)
  ]
  | inr e ↦
      rw
        (
          clocked_data p w (1 + i) (omega arith) (ground arith),
          clocked_clock p w i (omega arith) (ground arith),
        )
        (ground arith)
]

pub no_pair_first : (p w : ℕ) → (testbit p 0 && testbit (clocked p w) 31) ≡ false
no_pair_first p w = rw (clocked_first p w) (ground arith)
