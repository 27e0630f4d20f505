-- ===== src/Prelude/Shifts.antt =====
-- Shifts and low masks, digit by digit and as arithmetic.
use native.Mathlib.Nat.{pow-suc, one-le-pow, div-div-eq-div-mul}
use Prim.Native.Nat.{bit_or-bitwise}
use mathlib.Core.Path.{ap₂}
use native.Mathlib.Decide.{dec_lt}
use rigel.Prelude.{
  ℕ, zero, suc, ◌+◌, ◌-◌, ◌*◌, ◌/◌, ◌%◌, ◌^◌, ◌≤◌, ◌<◌, bit_and, bit_or, ◌≡◌, refl, sym, ap, ◌∙◌,
  ◌&&◌, arith, ltb, leb, if◌then◌else◌,
}
use rigel.Prelude.Digits.{and_lowest, or_lowest}
use rigel.Prelude.Bits.{testbit, testbit_high, ones_bit, and-zero}

pub ones_test : (w i : ℕ) → testbit (2 ^ w - 1) i ≡ ltb i w
ones_test w i = elim (dec_lt i w) [
  | yes lt ↦ ones_bit w i lt ∙ (ground arith)
  | no ge ↦
      testbit_high w (2 ^ w - 1) i (omega (arith, one-le-pow w 2)) (omega arith) ∙ (ground arith)
]

testbit-suc : (x i : ℕ) → testbit x (suc i) ≡ testbit (x / 2) i
unfolding testbit
testbit-suc x i = refl

-- Shifts move the digits.
pub testbit_shr : (x k i : ℕ) → testbit (x / 2 ^ k) i ≡ testbit x (k + i)
testbit_shr x zero i =
    let e : x / 2 ^ zero ≡ x = omega arith in let f : zero + i ≡ i = omega arith in rw (e, f) refl
testbit_shr x (suc k) i =
    let e : x / 2 ^ suc k ≡ x / 2 / 2 ^ k =
      ap (λ (t : ℕ). x / t) (omega (arith, pow-suc 2 k)) ∙ sym (div-div-eq-div-mul x 2 (2 ^ k)) in
    let f : suc k + i ≡ suc (k + i) = omega arith in
    rw (e, f) (testbit_shr (x / 2) k i ∙ sym (testbit-suc x (k + i)))

testbit_double : (x i : ℕ) → testbit (x * 2) (suc i) ≡ testbit x i
unfolding testbit
testbit_double x i = let e : x * 2 / 2 ≡ x = omega arith in rw e refl

pub testbit_shl : (x k i : ℕ) → testbit (x * 2 ^ k) i ≡ (leb k i && testbit x (i - k))
testbit_shl x zero i =
    let e : x * 2 ^ zero ≡ x = omega arith in
    let f : i - zero ≡ i = omega arith in rw (e, f) (ground arith)
testbit_shl x (suc k) zero = unfold testbit in ground (arith, ap (λ (t : ℕ). x * t) (pow-suc 2 k))
testbit_shl x (suc k) (suc i) =
    let e : x * 2 ^ suc k ≡ x * 2 ^ k * 2 = omega (arith, ap (λ (t : ℕ). x * t) (pow-suc 2 k)) in
    let f : suc i - suc k ≡ i - k = omega arith in
    rw (e, f) (testbit_double (x * 2 ^ k) i ∙ testbit_shl x k i ∙ (ground arith))

mul-pow-suc : (q k : ℕ) → q * 2 ^ suc k ≡ q * 2 ^ k * 2
mul-pow-suc q k = omega (arith, ap (λ (t : ℕ). q * t) (pow-suc 2 k))

bit_and_low : (k q r : ℕ) → r < 2 ^ k → bit_and (q * 2 ^ k + r) (2 ^ k - 1) ≡ r
bit_and_low zero q r h = rw and-zero (omega arith)
bit_and_low (suc k) q r h = ground (
  arith,
  and_lowest (q * 2 ^ suc k + r) (2 ^ suc k - 1),
  mul-pow-suc q k,
  pow-suc 2 k,
  one-le-pow k 2,
  bit_and_low k q (r / 2) (omega (arith, pow-suc 2 k)),
)

-- `x & (2 ^ k - 1)` is the remainder by `2 ^ k`.
pub bit_and_mask : (k x : ℕ) → bit_and x (2 ^ k - 1) ≡ x % 2 ^ k
bit_and_mask k x = ground (arith, one-le-pow k 2, bit_and_low k (x / 2 ^ k) (x % 2 ^ k))

or_zero_fuel : (n x : ℕ) → x ≤ n → bit_or x 0 ≡ x
or_zero_fuel n zero h = omega (arith, bit_or-bitwise 0 0)
or_zero_fuel zero (suc x) h = absurd (omega arith)
or_zero_fuel (suc n) (suc x) h =
    omega (arith, or_lowest (suc x) 0, or_zero_fuel n (suc x / 2) (omega arith))

or-zero : (x : ℕ) → bit_or x 0 ≡ x
or-zero x = or_zero_fuel x x (omega arith)

-- `(x << 1) | b` for a digit `b`.
pub or_double : (x b : ℕ) → b < 2 → bit_or (x * 2) b ≡ x * 2 + b
or_double x b h =
    let e : bit_or (x * 2 / 2) (b / 2) ≡ x = ap₂ bit_or (omega arith) (omega arith) ∙ or-zero x in
    omega (arith, or_lowest (x * 2) b, e)

-- The value of a digit.
pub testbit_value : (x i : ℕ) → (if testbit x i then 1 else 0) ≡ x / 2 ^ i % 2
testbit_value x i =
    let e : i + 0 ≡ i = omega arith in
    let h : testbit (x / 2 ^ i) 0 ≡ testbit x i = testbit_shr x i 0 ∙ (rw e refl) in
    rw (← h) (unfold testbit in ground arith)

-- `lo | (hi << k)` of a `lo` that fits below.
pub or_shift : (k lo hi : ℕ) → lo < 2 ^ k → bit_or lo (hi * 2 ^ k) ≡ lo + hi * 2 ^ k
or_shift zero lo hi h = let e : lo ≡ 0 = omega arith in rw e (simp bit_or-bitwise (omega arith))
or_shift (suc k) lo hi h = ground (
  arith,
  or_lowest lo (hi * 2 ^ suc k),
  mul-pow-suc hi k,
  pow-suc 2 k,
  one-le-pow k 2,
  or_shift k (lo / 2) hi (omega (arith, pow-suc 2 k)),
)

-- `(hi << k) | lo` of a `lo` that fits below.
pub shift_or : (k lo hi : ℕ) → lo < 2 ^ k → bit_or (hi * 2 ^ k) lo ≡ hi * 2 ^ k + lo
shift_or zero lo hi h =
    let e : lo ≡ 0 = omega arith in rw e (or-zero (hi * 2 ^ zero) ∙ (omega arith))
shift_or (suc k) lo hi h = ground (
  arith,
  or_lowest (hi * 2 ^ suc k) lo,
  mul-pow-suc hi k,
  pow-suc 2 k,
  one-le-pow k 2,
  shift_or k (lo / 2) hi (omega (arith, pow-suc 2 k)),
)
