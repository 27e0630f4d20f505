-- ===== src/Serial/Queue.antt =====
-- The bytes that wait to be taken, as a list.
use rigel.Prelude.{
  ℕ, zero, suc, ◌+◌, ◌-◌, ◌%◌, ◌<◌, ◌≤◌, ◌≡◌, refl, ap, arith, ◌∙◌, sym, true, false, bit_and, List,
  [], ◌∷◌, ◌++◌, some, length, u8, inl, inr, Bool-cases, ltb, leb, ◌==◌, if◌then◌else◌,
}
use mathlib.Core.Path.{ap₂}
use rigel.Prelude.Shifts.{bit_and_mask}
use rigel.Serial.{SerialState, tx_fifo_size, stored, serial_queue_tx_byte, serial_pop_tx_byte}

-- `n` bytes of an array that goes round, from `head` on.
unfoldable pub ring : (ℕ → ℕ) → ℕ → ℕ → List ℕ
ring fifo head zero = []
ring fifo head (suc n) = fifo head ∷ ring fifo ((head + 1) % tx_fifo_size) n

-- The bytes that wait, the oldest first.
abbrev pub queue : SerialState → List ℕ
queue s = ring (s.tx_fifo) (s.tx_fifo_head) (s.tx_fifo_count)

-- The indices and the count of the queue agree.
pub record IsQueue (s : SerialState) : Type 0 where
  pub head_in : s.tx_fifo_head < tx_fifo_size
  pub count_in : s.tx_fifo_count ≤ tx_fifo_size
  pub tail_eq : s.tx_fifo_tail ≡ (s.tx_fifo_head + s.tx_fifo_count) % tx_fifo_size

-- A byte stored behind `n` others does not change them.
ring-stored :
    (fifo : ℕ → ℕ) (n head k byte : ℕ)
    → head < tx_fifo_size
    → n + k < tx_fifo_size
    → ring (stored fifo ((head + n + k) % tx_fifo_size) byte) head n ≡ ring fifo head n
unfolding ring
ring-stored fifo zero head k byte h lt = refl
ring-stored fifo (suc n) head k byte h lt =
    let head' = (head + 1) % tx_fifo_size in
    let e : (head + suc n + k) % tx_fifo_size ≡ (head' + n + k) % tx_fifo_size = omega arith in
    let f : (head == (head + suc n + k) % tx_fifo_size) ≡ false = ground arith in
    rw f (
      ap (λ q. fifo head ∷ q)
        (ap (λ i. ring (stored fifo i byte) head' n) e
          ∙ ring-stored fifo n head' k byte (omega arith) (omega arith)))

-- One byte more.
ring-suc :
    (fifo : ℕ → ℕ) (n head : ℕ)
    → head < tx_fifo_size
    → ring fifo head (suc n) ≡ ring fifo head n ++ (fifo ((head + n) % tx_fifo_size) ∷ [])
unfolding ring
ring-suc fifo zero head h = let e : (head + 0) % tx_fifo_size ≡ head = omega arith in rw e refl
ring-suc fifo (suc n) head h =
    let head' = (head + 1) % tx_fifo_size in
    let e : (head' + n) % tx_fifo_size ≡ (head + suc n) % tx_fifo_size = omega arith in
    ap (λ q. fifo head ∷ q)
      (ring-suc fifo n head' (omega arith) ∙ ap (λ i. ring fifo head' n ++ (fifo i ∷ [])) e)

push_ring :
    (fifo : ℕ → ℕ) (head count tail byte : ℕ)
    → head < tx_fifo_size
    → count < tx_fifo_size
    → tail ≡ (head + count) % tx_fifo_size
    → ring (stored fifo tail byte) head (count + 1) ≡ ring fifo head count ++ (byte ∷ [])
push_ring fifo head count tail byte h lt e =
    let f = stored fifo tail byte in
    let n : count + 1 ≡ suc count = omega arith in
    let t : tail ≡ (head + count + 0) % tx_fifo_size = omega (arith, e) in
    let at : (head + count) % tx_fifo_size ≡ tail = sym e in
    let same : (tail == tail) ≡ true = ground arith in
    ap (ring f head) n
    ∙ ring-suc f count head h
    ∙ ap₂ (λ q b. q ++ (b ∷ []))
        (ap (λ i. ring (stored fifo i byte) head count) t
          ∙ ring-stored fifo count head 0 byte h (omega arith))
        (rw (at, same) refl)

abbrev first : List ℕ → ℕ
first [] = 0
first (x ∷ xs) = x

abbrev others : List ℕ → List ℕ
others [] = []
others (x ∷ xs) = xs

pop_ring :
    (fifo : ℕ → ℕ) (head n byte : ℕ) (rest : List ℕ)
    → ring fifo head n ≡ (byte ∷ rest)
    → (0 < n) × (fifo head ≡ byte) × (ring fifo ((head + 1) % tx_fifo_size) (n - 1) ≡ rest)
unfolding ring
pop_ring fifo head zero byte rest e = let z = ap length e in absurd (omega arith)
pop_ring fifo head (suc n) byte rest e =
    let m : suc n - 1 ≡ n = omega arith in (omega arith, ap first e, rw m (ap others e))

-- A byte offered to the queue goes to its end, if it is not full.
pub queue_tx_byte_lem :
    (s : SerialState) (word : ℕ)
    → IsQueue s
    → let t = serial_queue_tx_byte s word in
      IsQueue t
      × (queue t
          ≡ (if ltb (s.tx_fifo_count) tx_fifo_size then queue s ++ (u8 word ∷ []) else queue s))
unfolding serial_queue_tx_byte
queue_tx_byte_lem s word i = elim (Bool-cases (ltb (s.tx_fifo_count) tx_fifo_size)) [
  | inl h ↦
      let g : leb tx_fifo_size (s.tx_fifo_count) ≡ false = ground arith in
      let m : u8 (bit_and word 0xff) ≡ u8 word = omega (arith, bit_and_mask 8 word) in
      rw (g, h, m)
        (
          (record {
            head_in = i.head_in;
            count_in = ground arith;
            tail_eq = omega (arith, i.tail_eq);
          }),
          push_ring (s.tx_fifo) (s.tx_fifo_head) (s.tx_fifo_count) (s.tx_fifo_tail) (u8 word)
              (i.head_in) (ground arith) (i.tail_eq),
        )
  | inr h ↦
      let g : leb tx_fifo_size (s.tx_fifo_count) ≡ true = ground arith in
      rw (g, h) ((record { head_in = i.head_in; count_in = i.count_in; tail_eq = i.tail_eq }), refl)
]

-- The oldest byte is taken.
pub pop_tx_byte_lem :
    (s : SerialState) (byte : ℕ) (rest : List ℕ)
    → IsQueue s
    → queue s ≡ (byte ∷ rest)
    → let t = serial_pop_tx_byte s in IsQueue (t.0) × (t.1 ≡ some byte) × (queue (t.0) ≡ rest)
unfolding serial_pop_tx_byte
pop_tx_byte_lem s byte rest i e =
    let (n, f, g) = pop_ring (s.tx_fifo) (s.tx_fifo_head) (s.tx_fifo_count) byte rest e in
    let z : (s.tx_fifo_count == 0) ≡ false = ground arith in
    rw z (
      (record {
        head_in = omega arith;
        count_in = omega (arith, i.count_in);
        tail_eq = omega (arith, i.tail_eq, i.head_in, n);
      }),
      ap some f,
      g,
    )
