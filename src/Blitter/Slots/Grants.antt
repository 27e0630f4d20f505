-- ===== src/Blitter/Slots/Grants.antt =====
-- A blit from its start to its end, in slots granted a few at a time.
use rigel.Prelude.{
  ℕ, ◌+◌, ◌-◌, ◌<◌, ◌≤◌, ◌≡◌, refl, ap, true, false, arith, ◌∙◌, sym, inl, inr, Bool-cases, ltb,
  u32, List, [], ◌∷◌,
}
use mathlib.Core.Path.{subst⁻¹}
use rigel.Blitter.{BlitterState, BlitterRegs, BlitterResult, BlitterMemory, BlitterIrqSink}
use rigel.Blitter.Line.{is_line}
use rigel.Blitter.Slots.{copy_slots, blitter_step_dma, line_slots, finish, is_pending}
use rigel.Blitter.Slots.Split.{dma_split, dma_cmd, busy_dma, free_dma}
use rigel.Blitter.Slots.Cadence.{IsOver, finish-IsOver}

-- The slots of all grants.
abbrev pub total : List ℕ → ℕ
total [] = 0
total (n ∷ ns) = n + total ns

-- A copy that has been executed and waits for its slots to pass.
pub record IsCounting (b : BlitterState) (r : BlitterRegs) (result : BlitterResult) (c : ℕ)
    : Type 0 where
  pub is_busy : b.busy ≡ true
  pub mode_eq : is_line (b.cmd.mode) ≡ false
  pub exec_eq : is_pending (b.exec_state) ≡ false
  pub regs_eq : b.regs ≡ r
  pub result_eq : b.result ≡ result
  pub cycles_eq : b.cycles_remaining ≡ c

abbrev consumed : ℕ → BlitterState → BlitterState
consumed n b = record b { dma_slots_consumed = u32 (b.dma_slots_consumed + n) }

abbrev counted_down : ℕ → BlitterState → BlitterState
counted_down n b = record (consumed n b) { cycles_remaining = b.cycles_remaining - n }

module _ {ℓ} {W : Type ℓ} (mem : BlitterMemory W) (irq : BlitterIrqSink W) where
  -- Grants one after another.
  unfoldable pub grants : List ℕ → BlitterState × W → BlitterState × W
  grants [] s = s
  grants (n ∷ ns) s = grants ns (blitter_step_dma mem irq n s)

  pub line_grants :
      (ns : List ℕ) (b : BlitterState) (w : W)
      → is_line (b.cmd.mode) ≡ true
      → grants ns (b, w) ≡ blitter_step_dma mem irq (total ns) (b, w)
  unfolding grants line_slots
  line_grants [] b w l = elim (Bool-cases (b.busy)) [
    | inl y ↦ sym (busy_dma mem irq 0 b w y l)
    | inr y ↦ sym (free_dma mem irq 0 b w y)
  ]
  line_grants (n ∷ ns) b w l =
      let t = blitter_step_dma mem irq n (b, w) in
      rw (dma_split mem irq n (total ns) b w l)
        (line_grants ns (t.0) (t.1) (rw (dma_cmd mem irq n b w l) l))

  free_grants :
      (ns : List ℕ) (b : BlitterState) (w : W) → b.busy ≡ false → grants ns (b, w) ≡ (b, w)
  unfolding grants
  free_grants [] b w y = refl
  free_grants (n ∷ ns) b w y = rw (free_dma mem irq n b w y) (free_grants ns b w y)

  counting_before :
      (n c : ℕ) (b : BlitterState) (w : W) (r : BlitterRegs) (result : BlitterResult)
      → IsCounting b r result c
      → n < c
      → blitter_step_dma mem irq n (b, w) ≡ (counted_down n b, w)
  unfolding blitter_step_dma copy_slots
  counting_before n c b w r result i lt =
      let e : ltb n (b.cycles_remaining) ≡ true = ground (arith, i.cycles_eq) in
      rw (i.is_busy, i.mode_eq, i.exec_eq, e) refl

  counting_after :
      (n c : ℕ) (b : BlitterState) (w : W) (r : BlitterRegs) (result : BlitterResult)
      → IsCounting b r result c
      → c ≤ n
      → blitter_step_dma mem irq n (b, w) ≡ finish irq (consumed n b, w)
  unfolding blitter_step_dma copy_slots
  counting_after n c b w r result i le =
      let e : ltb n (b.cycles_remaining) ≡ false = ground (arith, i.cycles_eq) in
      rw (i.is_busy, i.mode_eq, i.exec_eq, e) refl

  -- Busy before the last of `c` slots, and over after it.
  abbrev pub Outcome : ℕ → ℕ → BlitterState × W → BlitterRegs → BlitterResult → W → Type ℓ
  Outcome n c t r result w = (n < c → t.0.busy ≡ true) × (c ≤ n → IsOver irq t r result w)

  pub counting_grants :
      (ns : List ℕ) (c : ℕ) (b : BlitterState) (w : W) (r : BlitterRegs) (result : BlitterResult)
      → IsCounting b r result c
      → 0 < c
      → Outcome (total ns) c (grants ns (b, w)) r result w
  unfolding grants
  counting_grants [] c b w r result i pos = ((λ lt. i.is_busy), (λ le. absurd (omega arith)))
  counting_grants (n ∷ ns) c b w r result i pos = elim (Bool-cases (ltb n c)) [
    | inl h ↦
        let j : IsCounting (counted_down n b) r result (c - n) = record {
          is_busy = i.is_busy;
          mode_eq = i.mode_eq;
          exec_eq = i.exec_eq;
          regs_eq = i.regs_eq;
          result_eq = i.result_eq;
          cycles_eq = ap (λ x. x - n) (i.cycles_eq);
        } in
        let (x, y) = counting_grants ns (c - n) (counted_down n b) w r result j (ground arith) in
        subst⁻¹ (λ g. Outcome (n + total ns) c (grants ns g) r result w)
          (counting_before n c b w r result i (ground arith))
          ((λ lt. x (ground arith)), (λ le. y (ground arith)))
    | inr h ↦
        let t = finish irq (consumed n b, w) in
        let over = finish-IsOver irq (consumed n b) w w r result (i.regs_eq) (i.result_eq) refl in
        subst⁻¹ (λ g. Outcome (n + total ns) c g r result w)
          (ap (grants ns) (counting_after n c b w r result i (ground arith))
            ∙ free_grants ns (t.0) (t.1) (over.not_busy))
          ((λ lt. absurd (ground arith)), (λ le. over))
  ]
