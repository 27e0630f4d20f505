-- ===== src/Prelude/Bits.antt =====
-- The binary digits of a number, and the bit operations digit by digit.
use Prim.Native.Nat.{bit_and-bitwise}
use native.Mathlib.Nat.{pow-suc, one-le-pow}
use rigel.Prelude.{
  ℕ, zero, suc, ◌-◌, ◌*◌, ◌/◌, ◌%◌, ◌^◌, ◌≤◌, ◌<◌, bit_and, bit_or, bit_xor, ◌≡◌, refl, ap, ◌∙◌,
  Bool, true, false, not, xor, ◌&&◌, ◌||◌, arith, ◌==◌, any, not8, not16,
}
use rigel.Prelude.Digits.{and_lowest, or_lowest, xor_lowest}

unfoldable pub testbit : ℕ → ℕ → Bool
testbit x zero = x % 2 == 1
testbit x (suc i) = testbit (x / 2) i

pub testbit-and : (a b i : ℕ) → testbit (bit_and a b) i ≡ (testbit a i && testbit b i)
unfolding testbit
testbit-and a b zero = ground (arith, and_lowest a b)
testbit-and a b (suc i) =
    let e : bit_and a b / 2 ≡ bit_and (a / 2) (b / 2) = omega (arith, and_lowest a b) in
    rw e (testbit-and (a / 2) (b / 2) i)

pub testbit-or : (a b i : ℕ) → testbit (bit_or a b) i ≡ (testbit a i || testbit b i)
unfolding testbit
testbit-or a b zero = ground (arith, or_lowest a b)
testbit-or a b (suc i) =
    let e : bit_or a b / 2 ≡ bit_or (a / 2) (b / 2) = omega (arith, or_lowest a b) in
    rw e (testbit-or (a / 2) (b / 2) i)

pub testbit-xor : (a b i : ℕ) → testbit (bit_xor a b) i ≡ xor (testbit a i) (testbit b i)
unfolding testbit xor
testbit-xor a b zero = ground (arith, xor_lowest a b)
testbit-xor a b (suc i) =
    let e : bit_xor a b / 2 ≡ bit_xor (a / 2) (b / 2) = omega (arith, xor_lowest a b) in
    rw e (testbit-xor (a / 2) (b / 2) i)

-- Beyond its width a number has no digits.
pub testbit_high : (w a i : ℕ) → a < 2 ^ w → w ≤ i → testbit a i ≡ false
unfolding testbit
testbit_high zero a zero h k = ground arith
testbit_high zero a (suc i) h k = testbit_high zero (a / 2) i (omega arith) (omega arith)
testbit_high (suc w) a zero h k = absurd (omega arith)
testbit_high (suc w) a (suc i) h k =
    testbit_high w (a / 2) i (omega (arith, pow-suc 2 w)) (omega arith)

-- Two numbers of one width with the same digits are equal.
pub bits_ext :
    (w a b : ℕ) → a < 2 ^ w → b < 2 ^ w → ((i : ℕ) → i < w → testbit a i ≡ testbit b i) → a ≡ b
unfolding testbit
bits_ext zero a b ha hb h = omega arith
bits_ext (suc w) a b ha hb h =
    let low = h zero (omega arith) in
    let high : a / 2 ≡ b / 2 =
      bits_ext w (a / 2) (b / 2) (omega (arith, pow-suc 2 w)) (omega (arith, pow-suc 2 w))
        (λ i p. h (suc i) (omega arith)) in
    ground arith

pub bit_or-lt : (w a b : ℕ) → a < 2 ^ w → b < 2 ^ w → bit_or a b < 2 ^ w
bit_or-lt zero zero zero ha hb = omega arith
bit_or-lt zero zero (suc b) ha hb = absurd (omega arith)
bit_or-lt zero (suc a) b ha hb = absurd (omega arith)
bit_or-lt (suc w) a b ha hb = omega (
  arith,
  pow-suc 2 w,
  or_lowest a b,
  bit_or-lt w (a / 2) (b / 2) (omega (arith, pow-suc 2 w)) (omega (arith, pow-suc 2 w)),
)

pub bit_xor-lt : (w a b : ℕ) → a < 2 ^ w → b < 2 ^ w → bit_xor a b < 2 ^ w
bit_xor-lt zero zero zero ha hb = omega arith
bit_xor-lt zero zero (suc b) ha hb = absurd (omega arith)
bit_xor-lt zero (suc a) b ha hb = absurd (omega arith)
bit_xor-lt (suc w) a b ha hb = omega (
  arith,
  pow-suc 2 w,
  xor_lowest a b,
  bit_xor-lt w (a / 2) (b / 2) (omega (arith, pow-suc 2 w)) (omega (arith, pow-suc 2 w)),
)

-- `&` gives no more than its first operand; the fuel bounds the digits.
and_le_fuel : (n a b : ℕ) → a ≤ n → bit_and a b ≤ a
and_le_fuel n zero b h = omega (arith, bit_and-bitwise 0 b)
and_le_fuel zero (suc a) b h = absurd (omega arith)
and_le_fuel (suc n) (suc a) b h =
    omega (arith, and_lowest (suc a) b, and_le_fuel n (suc a / 2) (b / 2) (omega arith))

pub bit_and-le : (a b : ℕ) → bit_and a b ≤ a
bit_and-le a b = and_le_fuel a a b (omega arith)

pub bit_and-lt : (w a b : ℕ) → a < 2 ^ w → bit_and a b < 2 ^ w
bit_and-lt w a b h = omega (arith, bit_and-le a b)

pub zero-and : (b : ℕ) → bit_and 0 b ≡ 0
zero-and b = bit_and-bitwise 0 b

and_right_fuel : (n a b : ℕ) → a ≤ n → bit_and a b ≤ b
and_right_fuel n zero b h = omega (arith, bit_and-bitwise 0 b)
and_right_fuel zero (suc a) b h = absurd (omega arith)
and_right_fuel (suc n) (suc a) b h =
    omega (arith, and_lowest (suc a) b, and_right_fuel n (suc a / 2) (b / 2) (omega arith))

pub bit_and-le_right : (a b : ℕ) → bit_and a b ≤ b
bit_and-le_right a b = and_right_fuel a a b (omega arith)

pub and-zero : (a : ℕ) → bit_and a 0 ≡ 0
and-zero a = omega (arith, bit_and-le_right a 0)

any_double : (x m k : ℕ) → m ≡ 2 * k → any x m ≡ any (x / 2) k
unfolding any
any_double x m k e =
    let h : m / 2 ≡ k = omega arith in
    ground (arith, and_lowest x m, ap (λ (t : ℕ). bit_and (x / 2) t) h)

-- The test of one bit, `(x & (1 << i)) != 0`, reads that digit.
pub any_bit : (x i : ℕ) → any x (2 ^ i) ≡ testbit x i
unfolding any testbit
any_bit x zero = ground (arith, and_lowest x 1, and-zero (x / 2))
any_bit x (suc i) =
    any_double x (2 ^ suc i) (2 ^ i) (omega (arith, pow-suc 2 i)) ∙ any_bit (x / 2) i

-- `2 ^ w - 1` is `w` ones.
pub ones_bit : (w i : ℕ) → i < w → testbit (2 ^ w - 1) i ≡ true
unfolding testbit
ones_bit zero i h = absurd (omega arith)
ones_bit (suc w) zero h = ground (arith, pow-suc 2 w, one-le-pow w 2)
ones_bit (suc w) (suc i) h =
    let e : (2 ^ suc w - 1) / 2 ≡ 2 ^ w - 1 = omega (arith, pow-suc 2 w, one-le-pow w 2) in
    rw e (ones_bit w i (omega arith))

-- The complement of a mask within 8 and within 16 digits.
pub testbit-not8 : (a i : ℕ) → i < 8 → testbit (not8 a) i ≡ not (testbit a i)
unfolding xor
testbit-not8 a i h = ground (arith, testbit-xor a 0xff i, ones_bit 8 i h)

pub testbit-not16 : (a i : ℕ) → i < 16 → testbit (not16 a) i ≡ not (testbit a i)
unfolding xor
testbit-not16 a i h = ground (arith, testbit-xor a 0xffff i, ones_bit 16 i h)

-- A test by two masks at once.
pub any_step : (x m : ℕ) → any x m ≡ (x % 2 == 1 && m % 2 == 1 || any (x / 2) (m / 2))
unfolding any
any_step x m = ground (arith, and_lowest x m)

any_or_fuel : (n x a b : ℕ) → x ≤ n → any x (bit_or a b) ≡ (any x a || any x b)
any_or_fuel n zero a b h =
    unfold any in ground (arith, zero-and (bit_or a b), zero-and a, zero-and b)
any_or_fuel zero (suc x) a b h = absurd (omega arith)
any_or_fuel (suc n) (suc x) a b h =
    let e : bit_or a b / 2 ≡ bit_or (a / 2) (b / 2) = omega (arith, or_lowest a b) in
    ground (
      arith,
      any_step (suc x) (bit_or a b),
      any_step (suc x) a,
      any_step (suc x) b,
      or_lowest a b,
      ap (λ (t : ℕ). any (suc x / 2) t) e,
      any_or_fuel n (suc x / 2) (a / 2) (b / 2) (omega arith),
    )

pub any_or : (x a b : ℕ) → any x (bit_or a b) ≡ (any x a || any x b)
any_or x a b = any_or_fuel x x a b (omega arith)

testbit_zero : (i : ℕ) → testbit 0 i ≡ false
testbit_zero i = testbit_high 0 0 i (omega arith) (omega arith)

-- `1 << k` has the one digit `k`.
pub testbit_pow : (k i : ℕ) → testbit (2 ^ k) i ≡ (i == k)
unfolding testbit
testbit_pow zero zero = refl
testbit_pow zero (suc i) = testbit_zero i ∙ (ground arith)
testbit_pow (suc k) zero = ground (arith, pow-suc 2 k)
testbit_pow (suc k) (suc i) =
    let e : 2 ^ suc k / 2 ≡ 2 ^ k = omega (arith, pow-suc 2 k) in
    rw e (testbit_pow k i ∙ (ground arith))

-- Setting, clearing and flipping one digit of a byte.
pub testbit_set : (a k i : ℕ) → testbit (bit_or a (2 ^ k)) i ≡ (testbit a i || i == k)
testbit_set a k i = testbit-or a (2 ^ k) i ∙ (rw (testbit_pow k i))

pub testbit_clear8 :
    (a k i : ℕ) → i < 8 → testbit (bit_and a (not8 (2 ^ k))) i ≡ (testbit a i && not (i == k))
testbit_clear8 a k i h =
    testbit-and a (not8 (2 ^ k)) i ∙ (rw (testbit-not8 (2 ^ k) i h, testbit_pow k i))

pub testbit_flip : (a k i : ℕ) → testbit (bit_xor a (2 ^ k)) i ≡ xor (testbit a i) (i == k)
testbit_flip a k i = testbit-xor a (2 ^ k) i ∙ (rw (testbit_pow k i))
