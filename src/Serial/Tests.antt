-- ===== src/Serial/Tests.antt =====
-- The serial port on concrete words.
use rigel.Prelude.{
  ℕ, ◌≡◌, refl, arith, true, false, List, [], ◌∷◌, ◌++◌, u8, ltb, leb, ◌||◌, some, if◌then◌else◌,
}
use rigel.Serial.{
  SerialState, SerialIrqSink, intreq_tbe, tx_fifo_size, serial_reset, serial_raise_irq,
  serial_write_serdat,
}
use rigel.Serial.Queue.{IsQueue, queue}
use rigel.Serial.Sending.{frame, total, steps, word_sent}
use rigel.Serial.Fifo.{offer, fetch, run_ring, run_list, ring_queue}

-- A port with two bytes in its queue, the ring about to go round.
abbrev port : SerialState
port = record {
  serper = 9;
  tx_buffer = 0;
  tx_buffer_valid = false;
  tx_shift_reg = 0;
  tx_shift_busy = false;
  tx_cycles_remaining = 0;
  rx_buffer = 0;
  rx_buffer_full = false;
  overrun = false;
  rxd_level = true;
  tx_instant = false;
  tx_fifo = λ i. i;
  tx_fifo_head = 14;
  tx_fifo_tail = 0;
  tx_fifo_count = 2;
  tx_overflow = false;
}

abbrev log_sink : SerialIrqSink (List ℕ)
log_sink = record { raise = some (λ log mask. mask ∷ log) }

word_sent_example :
    let t = steps log_sink (60 ∷ 60 ∷ []) (serial_write_serdat log_sink (port, []) 0x141) in
    (t.1 ≡ serial_raise_irq log_sink [] intreq_tbe)
    × IsQueue (t.0)
    × (t.0.tx_shift_busy ≡ ltb (total (60 ∷ 60 ∷ [])) (frame port))
    × (queue (t.0) ≡ (
        if ltb (total (60 ∷ 60 ∷ [])) (frame port) || leb tx_fifo_size (port.tx_fifo_count)
        then queue port
        else queue port ++ (u8 0x141 ∷ [])))
word_sent_example =
    word_sent log_sink (60 ∷ 60 ∷ []) port [] 0x141
      (record { no_word = refl; not_busy = refl; timed = refl })
      (record { head_in = omega arith; count_in = omega arith; tail_eq = refl })

ring_queue_example :
    run_ring (offer 0x141 ∷ offer 0x42 ∷ fetch ∷ fetch ∷ fetch ∷ []) (serial_reset port)
    ≡ run_list (offer 0x141 ∷ offer 0x42 ∷ fetch ∷ fetch ∷ fetch ∷ []) []
ring_queue_example = ring_queue (offer 0x141 ∷ offer 0x42 ∷ fetch ∷ fetch ∷ fetch ∷ []) port
