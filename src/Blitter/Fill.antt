-- ===== src/Blitter/Fill.antt =====
-- What the fill of blitter_ref.c makes of a word.
use rigel.Prelude.{
  ℕ, zero, suc, ◌+◌, ◌-◌, ◌<◌, ◌≤◌, ◌^◌, ◌≡◌, refl, ap, Bool, true, false, arith, ◌∙◌, sym, inl,
  inr, Bool-cases, xor, ◌&&◌, ◌||◌, truth, bit_or, bit_xor, u8, u16, from_bool, ◌<<<◌, ltb, ◌==◌,
  if◌then◌else◌,
}
use rigel.Prelude.Bits.{testbit, testbit_high}
use rigel.Blitter.Logic.{bit_at, fill_round, fill_down, fill_up, blitter_fill_word}
use rigel.Blitter.Minterm.{set_if, pow_fits, bit_at_value}

-- Whether an odd number of the bits `i` to `i + k - 1` are set.
unfoldable pub odd : ℕ → ℕ → ℕ → Bool
odd d i zero = false
odd d i (suc k) = xor (testbit d (i + k)) (odd d i k)

fill_digit :
    (incl bit c : Bool) (set result : ℕ)
    → let toggled = if truth (from_bool bit) then bit_xor (from_bool c) 1 else from_bool c in
      let left : ℕ × ℕ =
        if incl
        then (if truth toggled then set else result, toggled)
        else (if truth (bit_xor (from_bool c) (from_bool bit)) then set else result, toggled) in
      let right : ℕ × ℕ = (if xor c bit then set else result, from_bool (xor c bit)) in left ≡ right
unfolding xor
fill_digit true true true x y = refl
fill_digit true true false x y = refl
fill_digit true false true x y = refl
fill_digit true false false x y = refl
fill_digit false true true x y = refl
fill_digit false true false x y = refl
fill_digit false false true x y = refl
fill_digit false false false x y = refl

-- A round of either mode.
fill_round_lem :
    (incl : Bool) (d n r : ℕ) (c : Bool)
    → n < 16
    → let o = xor c (testbit d n) in
      fill_round incl d n (r, from_bool c) ≡ (if o then bit_or r (2 ^ n) else r, from_bool o)
unfolding fill_round
fill_round_lem incl d n r c h =
    let e : u8 (bit_at d n) ≡ from_bool (testbit d n) = ground (arith, bit_at_value d n) in
    let f : u16 (1 <<< n) ≡ 2 ^ n = omega (arith, pow_fits 16 n h) in
    rw (e, f) (fill_digit incl (testbit d n) c (bit_or r (2 ^ n)) r)

xor_turn : (c b p : Bool) → xor (xor c b) p ≡ xor c (xor b p)
unfolding xor
xor_turn true true true = refl
xor_turn true true false = refl
xor_turn true false true = refl
xor_turn true false false = refl
xor_turn false true true = refl
xor_turn false true false = refl
xor_turn false false true = refl
xor_turn false false false = refl

xor_comm : (b p : Bool) → xor b p ≡ xor p b
unfolding xor
xor_comm true true = refl
xor_comm true false = refl
xor_comm false true = refl
xor_comm false false = refl

xor_none : (c : Bool) → xor c false ≡ c
unfolding xor
xor_none true = refl
xor_none false = refl

odd_top : (d i n : ℕ) → i ≤ n → odd d i (suc n - i) ≡ xor (testbit d n) (odd d i (n - i))
unfolding odd
odd_top d i n h =
    let e : suc n - i ≡ suc (n - i) = omega arith in
    let f : i + (n - i) ≡ n = omega arith in rw (e, f) refl

odd_all : (d n : ℕ) → odd d 0 (suc n) ≡ xor (testbit d n) (odd d 0 n)
unfolding odd
odd_all d n = let f : 0 + n ≡ n = omega arith in rw f refl

odd_none : (d i n : ℕ) → n ≤ i → odd d i (n - i) ≡ false
unfolding odd
odd_none d i n h = let e : n - i ≡ 0 = omega arith in rw e refl

no_round : (d : ℕ) (c : Bool) → from_bool c ≡ from_bool (xor c (odd d 0 0))
unfolding odd
no_round d c = ap from_bool (sym (xor_none c))

down_step :
    (incl : Bool) (d n r : ℕ) (c : Bool)
    → n < 16
    → let o = xor c (testbit d n) in
      fill_down incl d (suc n) (r, from_bool c)
      ≡ fill_down incl d n (if o then bit_or r (2 ^ n) else r, from_bool o)
unfolding fill_down
down_step incl d n r c h = ap (fill_down incl d n) (fill_round_lem incl d n r c h)

down_bit :
    (incl : Bool) (d n r i : ℕ) (c : Bool)
    → n ≤ 16
    → let t = fill_down incl d n (r, from_bool c) in
      (testbit (t.0) i ≡ (testbit r i || ltb i n && xor c (odd d i (n - i))))
      × (t.1 ≡ from_bool (xor c (odd d 0 n)))
unfolding fill_down
down_bit incl d zero r i c h = (ground arith, no_round d c)
down_bit incl d (suc n) r i c h =
    let o = xor c (testbit d n) in
    let x = if o then bit_or r (2 ^ n) else r in
    let (p, q) = down_bit incl d n x i o (omega arith) in
    let carry =
      q ∙ ap from_bool (xor_turn c (testbit d n) (odd d 0 n) ∙ ap (xor c) (sym (odd_all d n))) in
    rw (down_step incl d n r c (omega arith)) (
      p
          ∙ (rw (set_if o r n i) (elim (Bool-cases (ltb n i)) [
            | inl g ↦ ground arith
            | inr g ↦
                rw (odd_top d i n (ground arith), ← xor_turn c (testbit d n) (odd d i (n - i)))
                  (elim (Bool-cases (i == n)) [
                    | inl e ↦ rw (odd_none d i n (ground arith), xor_none o) (ground arith)
                    | inr e ↦ rw e (ground arith)
                  ])
          ])),
      carry,
    )

up_bit :
    (incl : Bool) (d n i : ℕ) (c : Bool)
    → n ≤ 16
    → let t = fill_up incl d n (0, from_bool c) in
      (testbit (t.0) i ≡ (ltb i n && xor c (odd d 0 (suc i))))
      × (t.1 ≡ from_bool (xor c (odd d 0 n)))
unfolding fill_up
up_bit incl d zero i c h =
    let z : testbit 0 i ≡ false = testbit_high 0 0 i (omega arith) (omega arith) in
    (z ∙ (ground arith), no_round d c)
up_bit incl d (suc n) i c h =
    let t = fill_up incl d n (0, from_bool c) in
    let (p, q) = up_bit incl d n i c (omega arith) in
    let o = xor c (odd d 0 n) in
    let e =
      ap (λ x. fill_round incl d n (t.0, x)) q ∙ fill_round_lem incl d n (t.0) o (omega arith) in
    let f : xor o (testbit d n) ≡ xor c (odd d 0 (suc n)) =
      xor_turn c (odd d 0 n) (testbit d n)
      ∙ ap (xor c) (xor_comm (odd d 0 n) (testbit d n) ∙ sym (odd_all d n)) in
    let g = set_if (xor o (testbit d n)) (t.0) n i in
    rw (e, g, p, f)
      (
        elim (Bool-cases (i == n)) [
          | inl h ↦ let j : i ≡ n = ground arith in rw j (ground arith)
          | inr h ↦ rw h (ground arith)
        ],
        refl,
      )

-- A fill of a 16-bit word in either mode: a bit of the result is set where the carry in and the bits
-- of the word passed up to it, itself included, make an odd number, which are those from bit 15
-- down, or from bit 0 up in a descending copy; the carry out counts all 16 bits.
pub fill_bits :
    (is_inclusive descending : Bool) (d i : ℕ) (c : Bool)
    → i < 16
    → let t = blitter_fill_word d (from_bool c) is_inclusive descending in
      let passed = if descending then odd d 0 (suc i) else odd d i (16 - i) in
      (testbit (t.0) i ≡ xor c passed) × (t.1 ≡ from_bool (xor c (odd d 0 16)))
unfolding blitter_fill_word
fill_bits incl true d i c h =
    let (p, q) = up_bit incl d 16 i c (omega arith) in (p ∙ (ground arith), q)
fill_bits incl false d i c h =
    let z : testbit 0 i ≡ false = testbit_high 0 0 i (omega arith) (omega arith) in
    let (p, q) = down_bit incl d 16 0 i c (omega arith) in (p ∙ (ground arith), q)
