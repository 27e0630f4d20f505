-- ===== src/Floppy/Masks.antt =====
-- Lists of longwords: their lengths, their parts, and their data bits.
use mathlib.Core.Path.{ap₂}
use rigel.Prelude.{
  ℕ, zero, suc, ◌+◌, ◌*◌, ◌≤◌, ◌^◌, ◌≡◌, refl, ap, arith, ◌∙◌, sym, bit_and, List, [], ◌∷◌, ◌++◌,
  length,
}
use rigel.Prelude.Bits.{bits_ext, bit_and-le_right}
use rigel.Floppy.{mfm_mask, mfmcode_u32, write_be32}
use rigel.Floppy.Sector.{drop, raw_longs, odd_longs, even_longs, be32_bytes}
use rigel.Floppy.Clocks.{data_bit}
use rigel.Floppy.Buffer.{IsBelow, below_nil, below_cons, take}
use rigel.Floppy.Halves.{joined, join_longs, clocked-lt, masked_same, joined_raw}

-- The longwords without their clock bits.
unfoldable pub masks : List ℕ → List ℕ
masks [] = []
masks (w ∷ ws) = bit_and w mfm_mask ∷ masks ws

pub masks-mfmcode : (n p : ℕ) (ws : List ℕ) → masks (mfmcode_u32 p ws n) ≡ masks ws
unfolding masks mfmcode_u32
masks-mfmcode zero p ws = refl
masks-mfmcode (suc n) p [] = refl
masks-mfmcode (suc n) p (w ∷ ws) =
    ap₂ (λ x xs. x ∷ xs) (masked_same p w) (masks-mfmcode n (bit_and w mfm_mask) ws)

pub mfmcode-IsBelow :
    (n p : ℕ) (ws : List ℕ) → length ws ≤ n → IsBelow (2 ^ 32) (mfmcode_u32 p ws n)
unfolding mfmcode_u32
mfmcode-IsBelow zero p [] h = below_nil
mfmcode-IsBelow zero p (w ∷ ws) h = absurd (omega arith)
mfmcode-IsBelow (suc n) p [] h = below_nil
mfmcode-IsBelow (suc n) p (w ∷ ws) h =
    below_cons _ _ (clocked-lt p w) (mfmcode-IsBelow n (bit_and w mfm_mask) ws (omega arith))

pub length-mfmcode : (n p : ℕ) (ws : List ℕ) → length (mfmcode_u32 p ws n) ≡ length ws
unfolding mfmcode_u32
length-mfmcode zero p ws = refl
length-mfmcode (suc n) p [] = refl
length-mfmcode (suc n) p (w ∷ ws) = ap suc (length-mfmcode n (bit_and w mfm_mask) ws)

pub masks-take : (n : ℕ) (ws : List ℕ) → masks (take n ws) ≡ take n (masks ws)
unfolding masks take
masks-take zero ws = refl
masks-take (suc n) [] = refl
masks-take (suc n) (w ∷ ws) = ap (λ x. bit_and w mfm_mask ∷ x) (masks-take n ws)

pub masks-drop : (n : ℕ) (ws : List ℕ) → masks (drop n ws) ≡ drop n (masks ws)
unfolding masks drop
masks-drop zero ws = refl
masks-drop (suc n) [] = refl
masks-drop (suc n) (w ∷ ws) = masks-drop n ws

pub masks-append : (xs ys : List ℕ) → masks (xs ++ ys) ≡ masks xs ++ masks ys
unfolding masks
masks-append [] ys = refl
masks-append (x ∷ xs) ys = ap (λ t. bit_and x mfm_mask ∷ t) (masks-append xs ys)

pub mask_twice : (w : ℕ) → bit_and (bit_and w mfm_mask) mfm_mask ≡ bit_and w mfm_mask
mask_twice w =
    bits_ext 32 (bit_and (bit_and w mfm_mask) mfm_mask) (bit_and w mfm_mask)
      (omega (arith, bit_and-le_right (bit_and w mfm_mask) mfm_mask))
      (omega (arith, bit_and-le_right w mfm_mask))
      (λ i h. ground (arith, data_bit (bit_and w mfm_mask) i h, data_bit w i h))

pub join-masks : (xs ys : List ℕ) → join_longs (masks xs) (masks ys) ≡ join_longs xs ys
unfolding masks join_longs joined
join-masks [] ys = refl
join-masks (x ∷ xs) [] = refl
join-masks (x ∷ xs) (y ∷ ys) = rw (mask_twice x, mask_twice y, join-masks xs ys) refl

pub join_raws :
    (raws : List ℕ) → IsBelow (2 ^ 32) raws → join_longs (odd_longs raws) (even_longs raws) ≡ raws
unfolding join_longs odd_longs even_longs
join_raws [] i = refl
join_raws (raw ∷ raws) (below_cons _ _ lt i) =
    ap₂ (λ x xs. x ∷ xs) (joined_raw raw lt) (join_raws raws i)

pub length-masks : (ws : List ℕ) → length (masks ws) ≡ length ws
unfolding masks
length-masks [] = refl
length-masks (w ∷ ws) = ap suc (length-masks ws)

pub length-odd : (raws : List ℕ) → length (odd_longs raws) ≡ length raws
unfolding odd_longs
length-odd [] = refl
length-odd (r ∷ raws) = ap suc (length-odd raws)

pub length-even : (raws : List ℕ) → length (even_longs raws) ≡ length raws
unfolding even_longs
length-even [] = refl
length-even (r ∷ raws) = ap suc (length-even raws)

pub length-raw : (n : ℕ) (p : List ℕ) → length (raw_longs n p) ≡ n
unfolding raw_longs
length-raw zero p = refl
length-raw (suc n) p = ap suc (length-raw n (drop 4 p))

pub length-be32 : (ws : List ℕ) → length (be32_bytes ws) ≡ 4 * length ws
unfolding be32_bytes write_be32
length-be32 [] = refl
length-be32 (w ∷ ws) = omega (arith, length-be32 ws)

pub length-append : (xs ys : List ℕ) → length (xs ++ ys) ≡ length xs + length ys
length-append [] ys = omega arith
length-append (x ∷ xs) ys = omega (arith, length-append xs ys)

pub take-append : (n : ℕ) (xs ys : List ℕ) → length xs ≡ n → take n (xs ++ ys) ≡ xs
unfolding take
take-append zero [] [] h = refl
take-append zero [] (y ∷ ys) h = refl
take-append zero (x ∷ xs) ys h = absurd (omega arith)
take-append (suc n) [] ys h = absurd (omega arith)
take-append (suc n) (x ∷ xs) ys h = ap (λ t. x ∷ t) (take-append n xs ys (omega arith))

pub drop-append : (n : ℕ) (xs ys : List ℕ) → length xs ≡ n → drop n (xs ++ ys) ≡ ys
unfolding drop
drop-append zero [] ys h = refl
drop-append zero (x ∷ xs) ys h = absurd (omega arith)
drop-append (suc n) [] ys h = absurd (omega arith)
drop-append (suc n) (x ∷ xs) ys h = drop-append n xs ys (omega arith)

pub take_all : (n : ℕ) (xs : List ℕ) → length xs ≡ n → take n xs ≡ xs
unfolding take
take_all zero [] h = refl
take_all zero (x ∷ xs) h = absurd (omega arith)
take_all (suc n) [] h = absurd (omega arith)
take_all (suc n) (x ∷ xs) h = ap (λ t. x ∷ t) (take_all n xs (omega arith))

pub drop-nil : (n : ℕ) → drop n [] ≡ []
unfolding drop
drop-nil zero = refl
drop-nil (suc n) = refl

pub drop_more : (m n : ℕ) (xs : List ℕ) → drop (m + n) xs ≡ drop n (drop m xs)
unfolding drop
drop_more zero n xs = let e : 0 + n ≡ n = omega arith in rw e refl
drop_more (suc m) n [] = drop-nil (suc m + n) ∙ sym (drop-nil n)
drop_more (suc m) n (x ∷ xs) =
    let e : suc m + n ≡ suc (m + n) = omega arith in rw e (drop_more m n xs)
