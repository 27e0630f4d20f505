-- ===== src/Serial/Sending.antt =====
-- A word from SERDAT to the queue.
use rigel.Prelude.{
  ℕ, ◌+◌, ◌-◌, ◌*◌, ◌%◌, ◌<◌, ◌≤◌, ◌^◌, ◌≡◌, refl, ap, arith, ◌∙◌, Bool, true, false, not, ◌||◌,
  List, [], ◌∷◌, ◌++◌, u8, ltb, leb, if◌then◌else◌, inl, inr, Bool-cases,
}
use rigel.Prelude.Shifts.{bit_and_mask}
use rigel.Serial.{
  SerialState, SerialIrqSink, tx_fifo_size, intreq_tbe, serial_cycles_per_bit, serial_frame_cycles,
  serial_queue_tx_byte, shift_started, serial_raise_irq, serial_start_tx_shift, serial_write_serdat,
  serial_step,
}
use rigel.Serial.Queue.{IsQueue, queue, queue_tx_byte_lem}

-- The port sends nothing, and words are sent in their time.
pub record IsIdle (s : SerialState) : Type 0 where
  pub no_word : s.tx_buffer_valid ≡ false
  pub not_busy : s.tx_shift_busy ≡ false
  pub timed : s.tx_instant ≡ false

-- The cycles of a word: a start bit, eight bits and a stop bit.
abbrev pub frame : SerialState → ℕ
frame s = 10 * (s.serper % 2 ^ 15 + 1)

abbrev pub total : List ℕ → ℕ
total [] = 0
total (c ∷ cs) = c + total cs

-- The port `s` with a word in its shift register for `left` cycles more, and after it.
abbrev shifting : SerialState → ℕ → ℕ → SerialState
shifting s value left = record s {
  tx_buffer = value;
  tx_buffer_valid = false;
  tx_shift_reg = value;
  tx_shift_busy = true;
  tx_cycles_remaining = left;
  tx_instant = false;
}

abbrev at_rest : SerialState → ℕ → SerialState
at_rest s value = record s {
  tx_buffer = value;
  tx_buffer_valid = false;
  tx_shift_reg = 0;
  tx_shift_busy = false;
  tx_cycles_remaining = 0;
  tx_instant = false;
}

turned {ℓ} : {A : Type ℓ} (b : Bool) (x y : A) → (if b then x else y) ≡ (if not b then y else x)
turned true x y = refl
turned false x y = refl

queued_rest :
    (s : SerialState) (value : ℕ)
    → let t = serial_queue_tx_byte (at_rest s value) value in
      (t.tx_shift_busy ≡ false) × (t.tx_buffer_valid ≡ false)
unfolding serial_queue_tx_byte
queued_rest s value = ground arith

module _ {ℓ} {W : Type ℓ} (irq : SerialIrqSink W) where
  -- Steps one after another.
  unfoldable pub steps : List ℕ → SerialState × W → SerialState × W
  steps [] s = s
  steps (c ∷ cs) s = steps cs (serial_step irq s c)

  written :
      (s : SerialState) (w : W) (value : ℕ)
      → IsIdle s
      → serial_write_serdat irq (s, w) value
        ≡ (shifting s value (frame s), serial_raise_irq irq w intreq_tbe)
  unfolding serial_write_serdat serial_start_tx_shift shift_started serial_frame_cycles
      serial_cycles_per_bit
  written s w value i = ground (arith, bit_and_mask 15 (s.serper))

  before_end :
      (s : SerialState) (w : W) (value left c : ℕ)
      → c < left
      → serial_step irq (shifting s value left, w) c ≡ (shifting s value (left - c), w)
  unfolding serial_step
  before_end s w value left c h = ground arith

  at_end :
      (s : SerialState) (w : W) (value left c : ℕ)
      → left ≤ c
      → serial_step irq (shifting s value left, w) c
        ≡ (serial_queue_tx_byte (at_rest s value) value, w)
  unfolding serial_step serial_queue_tx_byte
  at_end s w value left c h = ground arith

  resting :
      (s : SerialState) (w : W) (c : ℕ)
      → s.tx_shift_busy ≡ false
      → s.tx_buffer_valid ≡ false
      → serial_step irq (s, w) c ≡ (s, w)
  unfolding serial_step
  resting s w c h k = ground arith

  still :
      (cs : List ℕ) (s : SerialState) (w : W)
      → s.tx_shift_busy ≡ false
      → s.tx_buffer_valid ≡ false
      → steps cs (s, w) ≡ (s, w)
  unfolding steps
  still [] s w h k = refl
  still (c ∷ cs) s w h k = rw (resting s w c h k) (still cs s w h k)

  shifted :
      (cs : List ℕ) (s : SerialState) (w : W) (value left : ℕ)
      → 0 < left
      → (total cs < left
          → steps cs (shifting s value left, w) ≡ (shifting s value (left - total cs), w))
        × (left ≤ total cs
            → steps cs (shifting s value left, w)
              ≡ (serial_queue_tx_byte (at_rest s value) value, w))
  unfolding steps
  shifted [] s w value left pos =
      let e : left - 0 ≡ left = omega arith in ((λ lt. rw e refl), (λ le. absurd (omega arith)))
  shifted (c ∷ cs) s w value left pos = elim (Bool-cases (ltb c left)) [
    | inl h ↦
        let f = ap (steps cs) (before_end s w value left c (ground arith)) in
        let (x, y) = shifted cs s w value (left - c) (ground arith) in
        let e : left - c - total cs ≡ left - (c + total cs) = omega arith in
        (
          (λ lt. f ∙ x (ground arith) ∙ ap (λ n. (shifting s value n, w)) e),
          (λ le. f ∙ y (ground arith)),
        )
    | inr h ↦
        let t = serial_queue_tx_byte (at_rest s value) value in
        let f = ap (steps cs) (at_end s w value left c (ground arith)) in
        (
          (λ lt. absurd (ground arith)),
          (λ le. f ∙ still cs t w (queued_rest s value).0 (queued_rest s value).1),
        )
  ]

  -- A word written to SERDAT of a port that sends nothing, and the cycles of any steps after it: TBE is
  -- raised, once. While the cycles are fewer than the ten bits of the word take, the port is busy
  -- and the queue is as it was; from then on it is not busy, and the low byte of the word stands at
  -- the end of the queue, if that was not full.
  pub word_sent :
      (cs : List ℕ) (s : SerialState) (w : W) (value : ℕ)
      → IsIdle s
      → IsQueue s
      → let t = steps cs (serial_write_serdat irq (s, w) value) in
        (t.1 ≡ serial_raise_irq irq w intreq_tbe)
        × IsQueue (t.0)
        × (t.0.tx_shift_busy ≡ ltb (total cs) (frame s))
        × (queue (t.0) ≡ (
            if ltb (total cs) (frame s) || leb tx_fifo_size (s.tx_fifo_count)
            then queue s
            else queue s ++ (u8 value ∷ [])))
  word_sent cs s w value i j =
      let r = serial_raise_irq irq w intreq_tbe in
      let begun = ap (steps cs) (written s w value i) in
      let (x, y) = shifted cs s r value (frame s) (omega arith) in
      elim (Bool-cases (ltb (total cs) (frame s))) [
        | inl h ↦
            rw (begun ∙ x (ground arith), h)
              (
                refl,
                (record { head_in = j.head_in; count_in = j.count_in; tail_eq = j.tail_eq }),
                refl,
                refl,
              )
        | inr h ↦
            let k : IsQueue (at_rest s value) = record {
              head_in = j.head_in;
              count_in = j.count_in;
              tail_eq = j.tail_eq;
            } in
            let (p, q) = queue_tx_byte_lem (at_rest s value) value k in
            let f : leb tx_fifo_size (s.tx_fifo_count) ≡ not (ltb (s.tx_fifo_count) tx_fifo_size) =
              ground arith in
            rw (begun ∙ y (ground arith), h)
              (
                refl,
                p,
                (queued_rest s value).0,
                q ∙ (rw f (turned (ltb (s.tx_fifo_count) tx_fifo_size) _ _)),
              )
      ]
