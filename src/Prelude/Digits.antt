-- ===== src/Prelude/Digits.antt =====
-- The bit operations, which the kernel knows through the fuelled recursion `digits`, by the lowest
-- digit of both numbers. One section serves the three: it takes the operation, what it gives at 0,
-- and what it does to a pair of digits.
use Prim.Native.Nat.{digits, bitwise, differ, bit_and-bitwise, bit_or-bitwise, bit_xor-bitwise}
use rigel.Prelude.{
  ℕ, zero, suc, ◌+◌, ◌*◌, ◌/◌, ◌%◌, ◌≤◌, ◌<◌, min, max, bit_and, bit_or, bit_xor, ◌≡◌, refl, ap,
  ◌∙◌, arith, ◌-◌,
}

module _ (at_zero : ℕ → ℕ) (on_digits : ℕ → ℕ → ℕ) where
  abbrev run : ℕ → ℕ → ℕ → ℕ
  run = digits at_zero on_digits

  -- A unit of fuel beyond the first number is not used.
  spare_unit : (fuel x y : ℕ) → x ≤ fuel → run (suc fuel) x y ≡ run fuel x y
  spare_unit zero zero y le = refl
  spare_unit (suc fuel) zero y le = refl
  spare_unit zero (suc x) y le = absurd (omega arith)
  spare_unit (suc fuel) (suc x) y le =
      ap (λ (t : ℕ). t * 2 + on_digits (suc x % 2) (y % 2))
        (spare_unit fuel (suc x / 2) (y / 2) (omega arith))

  -- Nor is any number of them.
  spare_fuel : (extra x y : ℕ) → run (extra + x) x y ≡ run x x y
  spare_fuel zero x y = ap (λ (t : ℕ). run t x y) (omega arith)
  spare_fuel (suc extra) x y =
      ap (λ (t : ℕ). run t x y) {y = suc (extra + x)} (omega arith)
      ∙ spare_unit (extra + x) x y (omega arith)
      ∙ spare_fuel extra x y

  module _ (op : ℕ → ℕ → ℕ) (meaning : (x y : ℕ) → op x y ≡ bitwise at_zero on_digits x y)
      (zero_law : (y : ℕ) → at_zero y ≡ at_zero (y / 2) * 2 + on_digits 0 (y % 2)) where
    lowest : (x y : ℕ) → op x y ≡ op (x / 2) (y / 2) * 2 + on_digits (x % 2) (y % 2)
    lowest zero y = rw (meaning 0 y, meaning 0 (y / 2)) (zero_law y)
    lowest (suc x) y =
        let half = suc x / 2 in
        let fuel : run x half (y / 2) ≡ run half half (y / 2) =
          ap (λ (t : ℕ). run t half (y / 2)) (omega arith) ∙ spare_fuel (x - half) half (y / 2) in
        omega (arith, meaning (suc x) y, meaning half (y / 2), fuel)

pub or_lowest : (x y : ℕ) → bit_or x y ≡ bit_or (x / 2) (y / 2) * 2 + max (x % 2) (y % 2)
or_lowest = lowest (λ y. y) max bit_or bit_or-bitwise (λ y. omega arith)

pub and_lowest : (x y : ℕ) → bit_and x y ≡ bit_and (x / 2) (y / 2) * 2 + min (x % 2) (y % 2)
and_lowest = lowest (λ y. 0) min bit_and bit_and-bitwise (λ y. omega arith)

-- The exclusive or of two digits is their sum without its carry.
digit_sum : (x y : ℕ) → x < 2 → y < 2 → differ x y ≡ (x + y) % 2
digit_sum zero y h k = omega arith
digit_sum (suc zero) zero h k = refl
digit_sum (suc zero) (suc y) h k = let e : y ≡ 0 = omega arith in rw e refl
digit_sum (suc (suc x)) y h k = absurd (omega arith)

pub xor_lowest : (x y : ℕ) → bit_xor x y ≡ bit_xor (x / 2) (y / 2) * 2 + (x + y) % 2
xor_lowest x y = omega (
  arith,
  lowest (λ y. y) differ bit_xor bit_xor-bitwise (λ t. omega arith) x y,
  digit_sum (x % 2) (y % 2) (omega arith) (omega arith),
)
