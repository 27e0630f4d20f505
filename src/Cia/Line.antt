-- ===== src/Cia/Line.antt =====
-- The interrupt line from a CIA to Paula: the invariant that ties INTREQ to ICR, and the operations of
-- src/cia that keep it. `Parts` has those of the chip's parts, `Whole` those of src/cia/cia.c.
pub mod Parts
pub mod Whole
pub mod Acknowledge
use rigel.Prelude.{
  ℕ, ◌+◌, ◌^◌, ◌<◌, ◌≡◌, ◌≢◌, refl, ◌∙◌, Bool, true, false, not, ◌||◌, ◌&&◌, arith, from_bool, ◌==◌,
  bit_or, bit_and, if◌then◌else◌,
}
use rigel.Prelude.Bits.{testbit, testbit_pow}
use rigel.Interrupt.{InterruptDomain}
use rigel.Interrupt
use rigel.Interrupt.Registers.{IsSynced, raise-IsSynced, clear-IsSynced, register_bits}
use rigel.Cia.State.{CiaId, port_a, port_b, CiaState, Link}
use rigel.Cia.Irq.{
  irq_pending, sync_irq_line, interrupt_raise, interrupt_read_icr, interrupt_write_icr,
}

-- The digit of INTREQ that a CIA drives: PORTS or EXTER.
abbrev pub line : CiaId → ℕ
line port_a = 3
line port_b = 13

line-lt : (k : CiaId) → line k < 15
line-lt port_a = omega arith
line-lt port_b = omega arith

-- While the chip is attached, its digit of INTREQ and its `irq_asserted` say whether an enabled
-- interrupt is pending.
pub record IsWired (s : Link) : Type 0 where
  pub synced : IsSynced s.paula
  pub bit_eq : s.cia.paula_irq_bit ≡ 2 ^ line s.cia.id
  pub requested : s.cia.attached ≡ true → testbit s.paula.intreq (line s.cia.id) ≡ irq_pending s.cia
  pub asserted : s.cia.attached ≡ true → s.cia.irq_asserted ≡ from_bool (irq_pending s.cia)

-- An operation of a chip: it keeps the chip's identity and the line, and no other digit of INTREQ moves.
pub record Follows (s t : Link) : Type 0 where
  pub id_eq : t.cia.id ≡ s.cia.id
  pub wire_eq : t.cia.paula_irq_bit ≡ s.cia.paula_irq_bit
  pub attached_eq : t.cia.attached ≡ s.cia.attached
  pub intena_eq : t.paula.intena ≡ s.paula.intena
  pub keeps : IsWired s → IsWired t
  pub others :
      IsWired s
      → (i : ℕ) → i < 15
      → i ≢ line s.cia.id
      → testbit t.paula.intreq i ≡ testbit s.paula.intreq i

-- Two chips with the same wire.
pub record Same (c d : CiaState) : Type 0 where
  pub id_eq : d.id ≡ c.id
  pub wire_eq : d.paula_irq_bit ≡ c.paula_irq_bit
  pub attached_eq : d.attached ≡ c.attached

-- Two chips with the same wire and the same interrupts.
pub record Quiet (c d : CiaState) : Type 0 where
  pub same : Same c d
  pub data_eq : d.icr_data ≡ c.icr_data
  pub mask_eq : d.icr_mask ≡ c.icr_mask
  pub asserted_eq : d.irq_asserted ≡ c.irq_asserted

module _ (s : Link) where
  raise_bit :
      (i : ℕ)
      → i < 15
      → s.cia.paula_irq_bit ≡ 2 ^ line s.cia.id
      → testbit (Interrupt.raise s.paula s.cia.paula_irq_bit).intreq i
        ≡ (testbit s.paula.intreq i || i == line s.cia.id)
  raise_bit i h e =
      (register_bits s.paula s.cia.paula_irq_bit i h).2
      ∙ (rw e (rw (testbit_pow (line s.cia.id) i)))

  clear_bit :
      (i : ℕ)
      → i < 15
      → s.cia.paula_irq_bit ≡ 2 ^ line s.cia.id
      → testbit (Interrupt.clear s.paula s.cia.paula_irq_bit).intreq i
        ≡ (testbit s.paula.intreq i && not (i == line s.cia.id))
  clear_bit i h e =
      (register_bits s.paula s.cia.paula_irq_bit i h).3
      ∙ (rw e (rw (testbit_pow (line s.cia.id) i)))

  pub sync-IsWired :
      IsSynced s.paula → s.cia.paula_irq_bit ≡ 2 ^ line s.cia.id → IsWired (sync_irq_line s)
  unfolding sync_irq_line irq_pending
  sync-IsWired h e = record {
    synced = ground (
      arith,
      raise-IsSynced s.paula s.cia.paula_irq_bit h,
      clear-IsSynced s.paula s.cia.paula_irq_bit h,
    );
    bit_eq = ground arith;
    requested = ground (
      arith,
      raise_bit (line s.cia.id) (line-lt s.cia.id) e,
      clear_bit (line s.cia.id) (line-lt s.cia.id) e,
    );
    asserted = ground arith;
  }

  pub sync_others :
      (i : ℕ)
      → i < 15
      → s.cia.paula_irq_bit ≡ 2 ^ line s.cia.id
      → i ≢ line s.cia.id
      → testbit (sync_irq_line s).paula.intreq i ≡ testbit s.paula.intreq i
  unfolding sync_irq_line
  sync_others i h e ne = ground (arith, raise_bit i h e, clear_bit i h e)

  pub sync_intena : (sync_irq_line s).paula.intena ≡ s.paula.intena
  unfolding sync_irq_line
  sync_intena = ground (
    arith,
    (register_bits s.paula s.cia.paula_irq_bit 0 (omega arith)).6,
    (register_bits s.paula s.cia.paula_irq_bit 0 (omega arith)).7,
  )

  sync-Same : Same s.cia (sync_irq_line s).cia
  unfolding sync_irq_line
  sync-Same = record { id_eq = ground arith; wire_eq = ground arith; attached_eq = ground arith }

-- Any change of a chip that leaves its wire alone, then the line brought up to date.
pub sync-Follows :
    (s : Link) (c : CiaState) → Same s.cia c → Follows s (sync_irq_line (record s { cia = c }))
sync-Follows s c h =
    let s' = record s { cia = c } in
    let same = sync-Same s' in
    record {
      id_eq = same.id_eq ∙ h.id_eq;
      wire_eq = same.wire_eq ∙ h.wire_eq;
      attached_eq = same.attached_eq ∙ h.attached_eq;
      intena_eq = sync_intena s';
      keeps = λ w. sync-IsWired s' w.synced (h.wire_eq ∙ w.bit_eq ∙ (rw h.id_eq));
      others = λ w i p ne. sync_others s' i p (h.wire_eq ∙ w.bit_eq ∙ (rw h.id_eq)) (rw h.id_eq ne);
    }

-- A change that touches neither the wire nor the interrupts.
pub Quiet-Follows : (s : Link) (c : CiaState) → Quiet s.cia c → Follows s (record s { cia = c })
unfolding irq_pending
Quiet-Follows s c q = record {
  id_eq = q.same.id_eq;
  wire_eq = q.same.wire_eq;
  attached_eq = q.same.attached_eq;
  intena_eq = refl;
  keeps = λ w. record {
    synced = w.synced;
    bit_eq = q.same.wire_eq ∙ w.bit_eq ∙ (rw q.same.id_eq);
    requested = ground (arith, w.requested);
    asserted = ground (arith, w.asserted);
  };
  others = λ w i p ne. refl;
}

pub Follows-trans : {s t u : Link} → Follows s t → Follows t u → Follows s u
Follows-trans f g = record {
  id_eq = g.id_eq ∙ f.id_eq;
  wire_eq = g.wire_eq ∙ f.wire_eq;
  attached_eq = g.attached_eq ∙ f.attached_eq;
  intena_eq = g.intena_eq ∙ f.intena_eq;
  keeps = λ w. g.keeps (f.keeps w);
  others = λ w i p ne. g.others (f.keeps w) i p (rw f.id_eq ne) ∙ f.others w i p ne;
}

pub Follows-refl : (s : Link) → Follows s s
Follows-refl s = record {
  id_eq = refl;
  wire_eq = refl;
  attached_eq = refl;
  intena_eq = refl;
  keeps = λ w. w;
  others = λ w i p ne. refl;
}

pub Follows-if :
    (b : Bool) (s t u : Link) → Follows s t → Follows s u → Follows s (if b then t else u)
Follows-if true s t u f g = f
Follows-if false s t u f g = g
