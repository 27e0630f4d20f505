-- ===== src/Interrupt/Priority.antt =====
-- What `rigel_interrupt_domain_compute_ipl` promises, against a table of the interrupt sources.
use rigel.Prelude.{
  ℕ, ◌≤◌, ◌^◌, bit_and, bit_or, ◌≡◌, refl, ◌∙◌, Bool, true, not, ◌&&◌, ◌||◌, ◌⊎◌, inl, inr, arith,
  any, if◌then◌else◌,
}
use rigel.Prelude.Bits.{testbit, testbit-and, any_bit, any_or}
use rigel.Interrupt.{InterruptDomain, compute_ipl}

pub data Source : Type 0 where
  tbe dskblk soft ports coper vertb blit aud0 aud1 aud2 aud3 rbf dsksyn exter : Source

-- The bit of a source in INTREQ and INTENA.
abbrev pub bit_of : Source → ℕ
bit_of tbe = 0
bit_of dskblk = 1
bit_of soft = 2
bit_of ports = 3
bit_of coper = 4
bit_of vertb = 5
bit_of blit = 6
bit_of aud0 = 7
bit_of aud1 = 8
bit_of aud2 = 9
bit_of aud3 = 10
bit_of rbf = 11
bit_of dsksyn = 12
bit_of exter = 13

-- The 68000 interrupt level that a source is wired to.
abbrev pub level_of : Source → ℕ
level_of tbe = 1
level_of dskblk = 1
level_of soft = 1
level_of ports = 2
level_of coper = 3
level_of vertb = 3
level_of blit = 3
level_of aud0 = 4
level_of aud1 = 4
level_of aud2 = 4
level_of aud3 = 4
level_of rbf = 5
level_of dsksyn = 5
level_of exter = 6

-- Requested and enabled.
abbrev pub wants : InterruptDomain → ℕ → Bool
wants irq i = testbit irq.intreq i && testbit irq.intena i

-- Requested and enabled, with the master enable set.
abbrev pub asserted : InterruptDomain → Source → Bool
asserted irq s = testbit irq.intena 14 && wants irq (bit_of s)

ladder : Bool → (ℕ → Bool) → ℕ
ladder master on =
    if not master
    then 0
    else if on 13
    then 6
    else if on 12 || on 11
    then 5
    else if ((on 7 || on 8) || on 9) || on 10
    then 4
    else if (on 6 || on 5) || on 4
    then 3
    else if on 3
    then 2
    else if (on 0 || on 1) || on 2
    then 1
    else 0

module _ (irq : InterruptDomain) where
  pending_bit : (i : ℕ) → any (bit_and irq.intreq irq.intena) (2 ^ i) ≡ wants irq i
  pending_bit i = any_bit (bit_and irq.intreq irq.intena) i ∙ testbit-and irq.intreq irq.intena i

  pending_or :
      (m n : ℕ) (a b : Bool)
      → any (bit_and irq.intreq irq.intena) m ≡ a
      → any (bit_and irq.intreq irq.intena) n ≡ b
      → any (bit_and irq.intreq irq.intena) (bit_or m n) ≡ (a || b)
  pending_or m n a b p q = any_or _ m n ∙ (rw (p, q))

  compute_ipl-ladder : compute_ipl irq ≡ ladder (testbit irq.intena 14) (wants irq)
  unfolding compute_ipl ladder
  compute_ipl-ladder =
      rw
        (
          any_bit irq.intena 14,
          pending_bit 13,
          pending_or 0x1000 0x0800 _ _ (pending_bit 12) (pending_bit 11),
          pending_or (bit_or (bit_or 0x80 0x100) 0x200) 0x400 _ _
              (pending_or (bit_or 0x80 0x100) 0x200 _ _
                (pending_or 0x80 0x100 _ _ (pending_bit 7) (pending_bit 8)) (pending_bit 9))
              (pending_bit 10),
          pending_or (bit_or 0x40 0x20) 0x10 _ _
              (pending_or 0x40 0x20 _ _ (pending_bit 6) (pending_bit 5)) (pending_bit 4),
          pending_bit 3,
          pending_or (bit_or 1 2) 4 _ _ (pending_or 1 2 _ _ (pending_bit 0) (pending_bit 1))
              (pending_bit 2),
        )
        refl

-- The source that the ladder answers for.
winner : (ℕ → Bool) → Source
winner on =
    if on 13
    then exter
    else if on 12
    then dsksyn
    else if on 11
    then rbf
    else if on 7
    then aud0
    else if on 8
    then aud1
    else if on 9
    then aud2
    else if on 10
    then aud3
    else if on 6
    then blit
    else if on 5
    then vertb
    else if on 4
    then coper
    else if on 3
    then ports
    else if on 0
    then tbe
    else if on 1
    then dskblk
    else soft

ladder-upper :
    (master : Bool) (on : ℕ → Bool) (s : Source)
    → (master && on (bit_of s)) ≡ true
    → level_of s ≤ ladder master on
unfolding ladder
ladder-upper master on tbe h = ground arith
ladder-upper master on _ h = ground arith

ladder-winner :
    (master : Bool) (on : ℕ → Bool)
    → (ladder master on ≡ 0)
      ⊎ ((master && on (bit_of (winner on))) ≡ true) × (level_of (winner on) ≡ ladder master on)
unfolding ladder winner
ladder-winner master on = ground arith

-- The priority level that a controller's registers call for.
pub record IsHighest (irq : InterruptDomain) (ipl : ℕ) : Type 0 where
  pub upper : (s : Source) → asserted irq s ≡ true → level_of s ≤ ipl
  pub attained : (ipl ≡ 0) ⊎ ((s : Source) × (asserted irq s ≡ true) × (level_of s ≡ ipl))

pub compute_ipl-IsHighest : (irq : InterruptDomain) → IsHighest irq (compute_ipl irq)
compute_ipl-IsHighest irq = rw (compute_ipl-ladder irq) (record {
  upper = λ s h. ladder-upper (testbit irq.intena 14) (wants irq) s h;
  attained = elim (ladder-winner (testbit irq.intena 14) (wants irq)) [
    | inl z ↦ inl z
    | inr w ↦ inr (winner (wants irq), w.0, w.1)
  ];
})
