-- ===== src/Blitter/Minterm.antt =====
-- The minterm as the table of the bits of A, B and C.
use native.Mathlib.Nat.{pow-suc, one-le-pow}
use rigel.Prelude.{
  ℕ, zero, suc, ◌+◌, ◌*◌, ◌/◌, ◌<◌, ◌≤◌, ◌^◌, ◌≡◌, refl, ap, Bool, true, false, arith, ◌∙◌, sym,
  inl, inr, Bool-cases, not, ◌&&◌, ◌||◌, any, truth, bit_and, bit_or, u16, from_bool, ◌<<<◌, ltb,
  ◌==◌, if◌then◌else◌,
}
use rigel.Prelude.Bits.{
  testbit, testbit-and, testbit-or, testbit-not16, testbit_set, bits_ext, bit_or-lt, bit_xor-lt,
  bit_and-lt, any_bit, testbit_high,
}
use rigel.Prelude.Shifts.{bit_and_mask, testbit_value}
use rigel.Blitter.Logic.{
  or_if, blitter_logic, bit_at, minterm_index, minterm_loop, blitter_logic_minterm,
}

-- The index of a bit of the minterm.
abbrev pub row : Bool → Bool → Bool → ℕ
row a b c = 4 * from_bool a + 2 * from_bool b + from_bool c

pub bit_at_value : (x i : ℕ) → bit_at x i ≡ from_bool (testbit x i)
bit_at_value x i = bit_and_mask 1 (x / 2 ^ i) ∙ sym (testbit_value x i)

row_value :
    (x y z : Bool) → bit_or (bit_or (from_bool x * 4) (from_bool y * 2)) (from_bool z) ≡ row x y z
row_value true true true = refl
row_value true true false = refl
row_value true false true = refl
row_value true false false = refl
row_value false true true = refl
row_value false true false = refl
row_value false false true = refl
row_value false false false = refl

index_row : (a b c i : ℕ) → minterm_index a b c i ≡ row (testbit a i) (testbit b i) (testbit c i)
index_row a b c i =
    rw (bit_at_value a i, bit_at_value b i, bit_at_value c i)
      (row_value (testbit a i) (testbit b i) (testbit c i))

table_round :
    (m a b c n : ℕ)
    → truth (bit_at m (minterm_index a b c n))
      ≡ testbit m (row (testbit a n) (testbit b n) (testbit c n))
table_round m a b c n = rw (index_row a b c n, bit_at_value m _) (ground arith)

pub pow_fits : (k n : ℕ) → n < k → 2 ^ n < 2 ^ k
pow_fits zero n h = absurd (omega arith)
pow_fits (suc k) zero h = omega (arith, pow-suc 2 k, one-le-pow k 2)
pow_fits (suc k) (suc n) h = omega (arith, pow-suc 2 k, pow-suc 2 n, pow_fits k n (omega arith))

pub set_if :
    (p : Bool) (x n i : ℕ)
    → testbit (if p then bit_or x (2 ^ n) else x) i ≡ (testbit x i || p && i == n)
set_if true x n i = testbit_set x n i
set_if false x n i = ground arith

-- Bit `i` of the result so far.
loop_bit :
    (n m a b c i : ℕ)
    → n ≤ 16
    → testbit (minterm_loop m a b c n) i
      ≡ (ltb i n && testbit m (row (testbit a i) (testbit b i) (testbit c i)))
unfolding minterm_loop
loop_bit zero m a b c i h =
    let z : testbit 0 i ≡ false = testbit_high 0 0 i (omega arith) (omega arith) in
    rw z (ground arith)
loop_bit (suc n) m a b c i h =
    let t = λ (j : ℕ). testbit m (row (testbit a j) (testbit b j) (testbit c j)) in
    let x = minterm_loop m a b c n in
    let ih = loop_bit n m a b c i (omega arith) in
    let bit : u16 (1 <<< n) ≡ 2 ^ n = omega (arith, pow_fits 16 n (omega arith)) in
    rw (table_round m a b c n, bit, set_if (t n) x n i, ih)
      (elim (Bool-cases (i == n)) [
        | inl e ↦ let f : t i ≡ t n = ap t (ground arith) in rw (e, f) (ground arith)
        | inr e ↦ rw e (ground arith)
      ])

-- The eight terms of a minterm.
abbrev table : Bool → Bool → Bool → (ℕ → Bool) → Bool
table x y z m =
    m 7 && (x && y && z)
    || m 6 && (x && y && not z)
    || m 5 && (x && not y && z)
    || m 4 && (x && not y && not z)
    || m 3 && (not x && y && z)
    || m 2 && (not x && y && not z)
    || m 1 && (not x && not y && z)
    || m 0 && (not x && not y && not z)

table-row : (x y z : Bool) (m : ℕ → Bool) → table x y z m ≡ m (row x y z)
table-row true true true m = ground arith
table-row true true false m = ground arith
table-row true false true m = ground arith
table-row true false false m = ground arith
table-row false true true m = ground arith
table-row false true false m = ground arith
table-row false false true m = ground arith
table-row false false false m = ground arith

or_if_bit : (m k t d i : ℕ) → testbit (or_if m k t d) i ≡ (testbit d i || any m k && testbit t i)
or_if_bit m k t d i = elim (Bool-cases (any m k)) [
  | inl h ↦ rw h (testbit-or d t i)
  | inr h ↦ rw h (ground arith)
]

logic_bits :
    (m a b c i : ℕ)
    → i < 16
    → testbit (blitter_logic m a b c) i
      ≡ table (testbit a i) (testbit b i) (testbit c i) (testbit m)
unfolding blitter_logic
logic_bits m a b c i h =
    let z : testbit 0 i ≡ false = testbit_high 0 0 i (omega arith) (omega arith) in
    let flip = λ (x : ℕ). testbit-not16 x i h in
    let e7 : any m 0x80 ≡ testbit m 7 = any_bit m 7 in
    let e6 : any m 0x40 ≡ testbit m 6 = any_bit m 6 in
    let e5 : any m 0x20 ≡ testbit m 5 = any_bit m 5 in
    let e4 : any m 0x10 ≡ testbit m 4 = any_bit m 4 in
    let e3 : any m 0x08 ≡ testbit m 3 = any_bit m 3 in
    let e2 : any m 0x04 ≡ testbit m 2 = any_bit m 2 in
    let e1 : any m 0x02 ≡ testbit m 1 = any_bit m 1 in
    let e0 : any m 0x01 ≡ testbit m 0 = any_bit m 0 in
    simp (or_if_bit, testbit-and, flip, z) (simp (e7, e6, e5, e4, e3, e2, e1, e0) refl)

logic_bit :
    (m a b c i : ℕ)
    → i < 16
    → testbit (blitter_logic m a b c) i ≡ testbit m (row (testbit a i) (testbit b i) (testbit c i))
logic_bit m a b c i h =
    logic_bits m a b c i h ∙ table-row (testbit a i) (testbit b i) (testbit c i) (testbit m)

or_if-lt : (m k t d : ℕ) → t < 2 ^ 16 → d < 2 ^ 16 → or_if m k t d < 2 ^ 16
or_if-lt m k t d ht hd = elim (Bool-cases (any m k)) [
  | inl h ↦ rw h (bit_or-lt 16 d t hd ht)
  | inr h ↦ rw h hd
]

term-lt : (x y z : ℕ) → x < 2 ^ 16 → bit_and (bit_and x y) z < 2 ^ 16
term-lt x y z h = bit_and-lt 16 (bit_and x y) z (bit_and-lt 16 x y h)

logic-lt : (m a b c : ℕ) → a < 2 ^ 16 → blitter_logic m a b c < 2 ^ 16
unfolding blitter_logic
logic-lt m a b c h =
    let n = bit_xor-lt 16 a 0xffff h (omega arith) in
    or_if-lt m _ _ _ (term-lt _ _ _ n) (
      or_if-lt m _ _ _ (term-lt _ _ _ n) (
        or_if-lt m _ _ _ (term-lt _ _ _ n) (
          or_if-lt m _ _ _ (term-lt _ _ _ n) (
            or_if-lt m _ _ _ (term-lt _ _ _ h) (
              or_if-lt m _ _ _ (term-lt _ _ _ h) (
                or_if-lt m _ _ _ (term-lt _ _ _ h)
                  (or_if-lt m _ _ _ (term-lt _ _ _ h) (omega arith))))))))

loop-lt : (n m a b c : ℕ) → minterm_loop m a b c n < 2 ^ 16
unfolding minterm_loop
loop-lt zero m a b c = omega arith
loop-lt (suc n) m a b c =
    let ih = loop-lt n m a b c in
    elim (Bool-cases (truth (bit_at m (minterm_index a b c n)))) [
      | inl h ↦ rw h (bit_or-lt 16 _ _ ih (omega arith))
      | inr h ↦ rw h ih
    ]

-- The eight masked terms of the one minterm function and the lookup of the other, bit by bit, give
-- the same word, where A fits 16 bits.
pub logic_minterm :
    (m a b c : ℕ) → a < 2 ^ 16 → blitter_logic m a b c ≡ blitter_logic_minterm m a b c
unfolding blitter_logic_minterm
logic_minterm m a b c ha =
    bits_ext 16 (blitter_logic m a b c) (minterm_loop m a b c 16) (logic-lt m a b c ha)
      (loop-lt 16 m a b c)
      (λ i h. logic_bit m a b c i h ∙ sym (loop_bit 16 m a b c i (omega arith) ∙ (ground arith)))
