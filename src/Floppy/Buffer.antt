-- ===== src/Floppy/Buffer.antt =====
-- Buffers: longwords stored as bytes and read back.
use rigel.Prelude.{
  ℕ, zero, suc, ◌+◌, ◌*◌, ◌/◌, ◌%◌, ◌<◌, ◌≤◌, ◌^◌, ◌≡◌, refl, ap, arith, ◌∙◌, bit_and, bit_or, List,
  [], ◌∷◌, ◌++◌, length, ◌>>>◌, u8,
}
use mathlib.Core.Path.{ap₂}
use rigel.Prelude.Shifts.{bit_and_mask, shift_or}
use rigel.Floppy.{write_be32, read_be32}
use rigel.Floppy.Sector.{drop, put, raw_longs, be32_bytes}

-- Every number of the list is below `n`.
pub data IsBelow (n : ℕ) : List ℕ → Type 0 where
  below_nil : IsBelow n []
  below_cons : (x : ℕ) (xs : List ℕ) → x < n → IsBelow n xs → IsBelow n (x ∷ xs)

-- The first longwords.
unfoldable pub take : ℕ → List ℕ → List ℕ
take zero xs = []
take (suc n) [] = []
take (suc n) (x ∷ xs) = x ∷ take n xs

pub read-write : (v : ℕ) (rest : List ℕ) → v < 2 ^ 32 → read_be32 (write_be32 v ++ rest) ≡ v
unfolding read_be32 write_be32
read-write v rest h =
    let e3 : u8 (bit_and (v >>> 24) 0xff) ≡ v / 2 ^ 24 =
      omega (arith, bit_and_mask 8 (v / 2 ^ 24)) in
    let e2 : u8 (bit_and (v >>> 16) 0xff) ≡ v / 2 ^ 16 % 2 ^ 8 =
      omega (arith, bit_and_mask 8 (v / 2 ^ 16)) in
    let e1 : u8 (bit_and (v >>> 8) 0xff) ≡ v / 2 ^ 8 % 2 ^ 8 =
      omega (arith, bit_and_mask 8 (v / 2 ^ 8)) in
    let e0 : u8 (bit_and v 0xff) ≡ v % 2 ^ 8 = omega (arith, bit_and_mask 8 v) in
    let f2 : bit_or (v / 2 ^ 24 * 2 ^ 24) (v / 2 ^ 16 % 2 ^ 8 * 2 ^ 16) ≡ v / 2 ^ 16 * 2 ^ 16 =
      shift_or 24 (v / 2 ^ 16 % 2 ^ 8 * 2 ^ 16) (v / 2 ^ 24) (omega arith) ∙ (omega arith) in
    let f1 : bit_or (v / 2 ^ 16 * 2 ^ 16) (v / 2 ^ 8 % 2 ^ 8 * 2 ^ 8) ≡ v / 2 ^ 8 * 2 ^ 8 =
      shift_or 16 (v / 2 ^ 8 % 2 ^ 8 * 2 ^ 8) (v / 2 ^ 16) (omega arith) ∙ (omega arith) in
    let f0 : bit_or (v / 2 ^ 8 * 2 ^ 8) (v % 2 ^ 8) ≡ v =
      shift_or 8 (v % 2 ^ 8) (v / 2 ^ 8) (omega arith) ∙ (omega arith) in
    rw (e3, e2, e1, e0, f2, f1, f0) refl

pub put-append :
    (bytes p : List ℕ) → length bytes ≤ length p → put 0 bytes p ≡ bytes ++ drop (length bytes) p
unfolding put drop
put-append [] [] h = refl
put-append [] (x ∷ p) h = refl
put-append (b ∷ bytes) [] h = absurd (omega arith)
put-append (b ∷ bytes) (x ∷ p) h = ap (λ q. b ∷ q) (put-append bytes p (omega arith))

pub longs_back :
    (n k : ℕ) (ws rest : List ℕ)
    → IsBelow (2 ^ 32) ws
    → k + n ≤ length ws
    → raw_longs n (drop (4 * k) (be32_bytes ws ++ rest)) ≡ take n (drop k ws)
unfolding raw_longs drop be32_bytes take write_be32
longs_back zero zero ws rest i h = refl
longs_back (suc n) zero [] rest i h = absurd (omega arith)
longs_back (suc n) zero (w ∷ ws) rest (below_cons _ _ lt i) h =
    ap₂ (λ x xs. x ∷ xs) (read-write w (be32_bytes ws ++ rest) lt)
      (longs_back n 0 ws rest i (omega arith))
longs_back n (suc k) [] rest i h = absurd (omega arith)
longs_back n (suc k) (w ∷ ws) rest (below_cons _ _ lt i) h =
    let e : 4 * suc k ≡ suc (suc (suc (suc (4 * k)))) = omega arith in
    rw e (longs_back n k ws rest i (omega arith))
