-- ===== src/Serial/Fifo.antt =====
-- The ring of bytes is a queue of at most sixteen bytes.
use rigel.Prelude.{
  ℕ, zero, suc, ◌+◌, ◌%◌, ◌≡◌, refl, ap, arith, ◌∙◌, sym, List, [], ◌∷◌, ◌++◌, length, u8, ltb,
  Option, none, some, ◌==◌, true, if◌then◌else◌,
}
use mathlib.Core.Path.{ap₂}
use rigel.Serial.{SerialState, tx_fifo_size, serial_queue_tx_byte, serial_pop_tx_byte, serial_reset}
use rigel.Serial.Queue.{ring, queue, IsQueue, queue_tx_byte_lem, pop_tx_byte_lem}

-- A byte is offered to the queue, or the oldest is taken.
pub data QueueOp : Type 0 where
  offer : ℕ → QueueOp
  fetch : QueueOp

abbrev taken : Option ℕ → List ℕ → List ℕ
taken none rest = rest
taken (some byte) rest = byte ∷ rest

-- The bytes that the operations take from the ring of a port.
unfoldable pub run_ring : List QueueOp → SerialState → List ℕ
run_ring [] s = []
run_ring (offer word ∷ ops) s = run_ring ops (serial_queue_tx_byte s word)
run_ring (fetch ∷ ops) s = let (t, byte) = serial_pop_tx_byte s in taken byte (run_ring ops t)

-- The bytes that they take from a list of at most sixteen bytes.
unfoldable pub run_list : List QueueOp → List ℕ → List ℕ
run_list [] q = []
run_list (offer word ∷ ops) q =
    run_list ops (if ltb (length q) tx_fifo_size then q ++ (u8 word ∷ []) else q)
run_list (fetch ∷ ops) [] = run_list ops []
run_list (fetch ∷ ops) (byte ∷ q) = byte ∷ run_list ops q

length-ring : (fifo : ℕ → ℕ) (head n : ℕ) → length (ring fifo head n) ≡ n
unfolding ring
length-ring fifo head zero = refl
length-ring fifo head (suc n) = ap suc (length-ring fifo ((head + 1) % tx_fifo_size) n)

pop_none : (s : SerialState) → queue s ≡ [] → serial_pop_tx_byte s ≡ (s, none)
unfolding serial_pop_tx_byte
pop_none s e =
    let z : (s.tx_fifo_count == 0) ≡ true =
      let n = sym (length-ring (s.tx_fifo) (s.tx_fifo_head) (s.tx_fifo_count)) ∙ ap length e in
      ground (arith, n) in
    rw z refl

ring_list :
    (ops : List QueueOp) (s : SerialState) (q : List ℕ)
    → IsQueue s
    → queue s ≡ q
    → run_ring ops s ≡ run_list ops q
unfolding run_ring run_list
ring_list [] s q i e = refl
ring_list (offer word ∷ ops) s q i e =
    let (j, f) = queue_tx_byte_lem s word i in
    let n = sym (length-ring (s.tx_fifo) (s.tx_fifo_head) (s.tx_fifo_count)) ∙ ap length e in
    ring_list ops (serial_queue_tx_byte s word) _ j
      (f ∙ ap₂ (λ c r. if ltb c tx_fifo_size then r ++ (u8 word ∷ []) else r) n e)
ring_list (fetch ∷ ops) s [] i e = rw (pop_none s e) (ring_list ops s [] i e)
ring_list (fetch ∷ ops) s (byte ∷ q) i e =
    let t = serial_pop_tx_byte s in
    let (j, f, g) = pop_tx_byte_lem s byte q i e in
    ap (λ b. taken b (run_ring ops (t.0))) f ∙ ap (λ r. byte ∷ r) (ring_list ops (t.0) q j g)

-- From the reset on, whatever bytes are offered and taken in whatever order, the bytes taken from the
-- ring are those taken from a list that holds at most sixteen: in their order, and without those
-- offered while it is full.
pub ring_queue :
    (ops : List QueueOp) (s : SerialState) → run_ring ops (serial_reset s) ≡ run_list ops []
unfolding serial_reset
ring_queue ops s =
    ring_list ops (serial_reset s) []
      (record { head_in = omega arith; count_in = omega arith; tail_eq = refl })
      (unfold ring in refl)
