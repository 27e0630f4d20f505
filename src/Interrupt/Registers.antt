-- ===== src/Interrupt/Registers.antt =====
-- The registers of the interrupt controller under every operation on it.
use mathlib.Core.Path.{subst}
use rigel.Prelude.{
  ℕ, ◌<◌, ◌^◌, ◌≡◌, refl, sym, not, ◌&&◌, ◌||◌, List, [], ◌∷◌, arith, bit_and, any, not16,
  if◌then◌else◌,
}
use rigel.Prelude.Bits.{
  testbit, testbit-and, testbit-or, testbit-not16, ones_bit, bit_or-lt, bit_and-lt,
  bit_and-le_right,
}
use rigel.Setclr.{intena_apply_write, testbit-setclr, setclr-lt}
use rigel.Interrupt.{
  InterruptDomain, compute_ipl, update, reset, write_intena, write_intreq, raise, clear, write_reg,
  current_ipl,
}
use rigel.Interrupt.Priority.{IsHighest, compute_ipl-IsHighest}

-- What chip code and the CPU do to the controller.
pub data Op : Type 0 where
  intena : ℕ → Op
  intreq : ℕ → Op
  irq_raise : ℕ → Op
  irq_clear : ℕ → Op
  poke : ℕ → ℕ → Op
  restart : Op

unfoldable pub apply : InterruptDomain → Op → InterruptDomain
unfolding write_intena write_intreq raise clear write_reg reset update compute_ipl any
apply irq (intena v) = write_intena irq v
apply irq (intreq v) = write_intreq irq v
apply irq (irq_raise m) = raise irq m
apply irq (irq_clear m) = clear irq m
apply irq (poke addr v) = write_reg irq addr v
apply irq restart = reset irq

unfoldable pub run : InterruptDomain → List Op → InterruptDomain
unfolding apply
run irq [] = irq
run irq (o ∷ os) = run (apply irq o) os

-- The cached level is the one that the registers call for, and the registers have 15 digits.
pub record IsSynced (irq : InterruptDomain) : Type 0 where
  pub intena_fits : irq.intena < 2 ^ 15
  pub intreq_fits : irq.intreq < 2 ^ 15
  pub cached : irq.ipl ≡ compute_ipl irq

write_intena-setclr :
    (irq : InterruptDomain) (v : ℕ) → (write_intena irq v).intena ≡ intena_apply_write irq.intena v
unfolding write_intena intena_apply_write update
write_intena-setclr irq v = refl

write_intreq-setclr :
    (irq : InterruptDomain) (v : ℕ) → (write_intreq irq v).intreq ≡ intena_apply_write irq.intreq v
unfolding write_intreq intena_apply_write update
write_intreq-setclr irq v = refl

pub write_intena-IsSynced :
    (irq : InterruptDomain) (v : ℕ) → IsSynced irq → IsSynced (write_intena irq v)
write_intena-IsSynced irq v h = record {
  intena_fits = rw (write_intena-setclr irq v) (setclr-lt irq.intena v h.intena_fits);
  intreq_fits = unfold write_intena update in h.intreq_fits;
  cached = unfold write_intena update compute_ipl in refl;
}

write_intreq-IsSynced :
    (irq : InterruptDomain) (v : ℕ) → IsSynced irq → IsSynced (write_intreq irq v)
write_intreq-IsSynced irq v h = record {
  intena_fits = unfold write_intreq update in h.intena_fits;
  intreq_fits = rw (write_intreq-setclr irq v) (setclr-lt irq.intreq v h.intreq_fits);
  cached = unfold write_intreq update compute_ipl in refl;
}

pub raise-IsSynced : (irq : InterruptDomain) (m : ℕ) → IsSynced irq → IsSynced (raise irq m)
unfolding raise update compute_ipl
raise-IsSynced irq m h = record {
  intena_fits = h.intena_fits;
  intreq_fits =
      bit_or-lt 15 irq.intreq (bit_and m 0x7fff) h.intreq_fits
        (omega (arith, bit_and-le_right m 0x7fff));
  cached = refl;
}

pub clear-IsSynced : (irq : InterruptDomain) (m : ℕ) → IsSynced irq → IsSynced (clear irq m)
unfolding clear update compute_ipl
clear-IsSynced irq m h = record {
  intena_fits = h.intena_fits;
  intreq_fits = bit_and-lt 15 irq.intreq (not16 (bit_and m 0x7fff)) h.intreq_fits;
  cached = refl;
}

pub reset-IsSynced : (irq : InterruptDomain) → IsSynced (reset irq)
unfolding reset compute_ipl any
reset-IsSynced irq = record { intena_fits = omega arith; intreq_fits = omega arith; cached = refl }

write_reg-IsSynced :
    (irq : InterruptDomain) (addr v : ℕ) → IsSynced irq → IsSynced (write_reg irq addr v)
unfolding write_reg
write_reg-IsSynced irq addr v h =
    ground (arith, write_intena-IsSynced irq v h, write_intreq-IsSynced irq v h)

apply-IsSynced : (irq : InterruptDomain) (o : Op) → IsSynced irq → IsSynced (apply irq o)
unfolding apply
apply-IsSynced irq (intena v) h = write_intena-IsSynced irq v h
apply-IsSynced irq (intreq v) h = write_intreq-IsSynced irq v h
apply-IsSynced irq (irq_raise m) h = raise-IsSynced irq m h
apply-IsSynced irq (irq_clear m) h = clear-IsSynced irq m h
apply-IsSynced irq (poke addr v) h = write_reg-IsSynced irq addr v h
apply-IsSynced irq restart h = reset-IsSynced irq

run-IsSynced : (irq : InterruptDomain) (os : List Op) → IsSynced irq → IsSynced (run irq os)
unfolding run
run-IsSynced irq [] h = h
run-IsSynced irq (o ∷ os) h = run-IsSynced (apply irq o) os (apply-IsSynced irq o h)

-- After a reset and any operations, the level that the CPU sees is the highest level among the
-- sources that are requested and enabled while the master enable is set, and 0 if there is none.
pub run-IsHighest :
    (irq : InterruptDomain) (os : List Op)
    → IsHighest (run (reset irq) os) (current_ipl (run (reset irq) os))
unfolding current_ipl
run-IsHighest irq os =
    subst (IsHighest (run (reset irq) os))
      (sym (run-IsSynced (reset irq) os (reset-IsSynced irq)).cached)
      (compute_ipl-IsHighest (run (reset irq) os))

mask_bit : (m i : ℕ) → i < 15 → testbit (bit_and m 0x7fff) i ≡ testbit m i
mask_bit m i h = ground (arith, testbit-and m 0x7fff i, ones_bit 15 i h)

-- Digit by digit: a write to INTENA or INTREQ sets or clears the digits that the value names, as its
-- bit 15 says; a raise sets and a clear clears the digits of INTREQ that the mask names; the register
-- that an operation is not about keeps its value.
pub register_bits :
    (irq : InterruptDomain) (v i : ℕ)
    → i < 15
    → let q = testbit irq.intreq i in
      let e = testbit irq.intena i in
      let b = testbit v i in
      (testbit (write_intena irq v).intena i ≡ (if testbit v 15 then e || b else e && not b))
      × (testbit (write_intreq irq v).intreq i ≡ (if testbit v 15 then q || b else q && not b))
      × (testbit (raise irq v).intreq i ≡ (q || b))
      × (testbit (clear irq v).intreq i ≡ (q && not b))
      × ((write_intena irq v).intreq ≡ irq.intreq)
      × ((write_intreq irq v).intena ≡ irq.intena)
      × ((raise irq v).intena ≡ irq.intena)
      × ((clear irq v).intena ≡ irq.intena)
register_bits irq v i h = (
  rw (write_intena-setclr irq v) (testbit-setclr irq.intena v i h),
  rw (write_intreq-setclr irq v) (testbit-setclr irq.intreq v i h),
  unfold raise update in rw (testbit-or irq.intreq (bit_and v 0x7fff) i, mask_bit v i h) refl,
  unfold clear update in
      ground (
        arith,
        testbit-and irq.intreq (not16 (bit_and v 0x7fff)) i,
        testbit-not16 (bit_and v 0x7fff) i,
        mask_bit v i h,
      ),
  unfold write_intena update in refl,
  unfold write_intreq update in refl,
  unfold raise update in refl,
  unfold clear update in refl,
)
