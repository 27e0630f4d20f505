-- ===== src/Cia/Timers/Advance.antt =====
-- A timer counted tick by tick, and the closed form and the loop of the source against it.
use native.Mathlib.Nat.{suc-add, div-add-mod', mod-lt}
use native.Mathlib.Decide.{dec_le}
use rigel.Prelude.{
  ℕ, zero, suc, ◌+◌, ◌-◌, ◌*◌, ◌/◌, ◌%◌, ◌^◌, ◌≤◌, ◌<◌, ◌≡◌, refl, sym, ap, ◌∙◌, Bool, true, false,
  not, arith, ◌==◌, u32, if◌then◌else◌,
}
use rigel.Cia.Timers.{timer_advance, advance_events_loop, timer_advance_events}

-- A timer while it counts: its counter, its underflows so far, and whether it still runs.
pub record Countdown : Type 0 where
  pub counter : ℕ
  pub underflows : ℕ
  pub running : Bool

module _ (latch : ℕ) (continuous : Bool) where
  -- One tick: count down, or at 0 underflow and reload, or stop at 0 in one-shot mode.
  unfoldable pub tick : Countdown → Countdown
  tick t =
      if not t.running
      then t
      else if not (t.counter == 0)
      then record t { counter = t.counter - 1 }
      else if continuous
      then record t { counter = latch; underflows = t.underflows + 1 }
      else record t { underflows = t.underflows + 1; running = false }

  unfoldable pub ticks : ℕ → Countdown → Countdown
  unfolding tick
  ticks zero t = t
  ticks (suc n) t = ticks n (tick t)

  ticks-add : (m n : ℕ) (t : Countdown) → ticks (m + n) t ≡ ticks n (ticks m t)
  unfolding ticks
  ticks-add zero n t = let e : zero + n ≡ n = omega arith in rw e refl
  ticks-add (suc m) n t = ap (λ k. ticks k t) (suc-add m n) ∙ ticks-add m n (tick t)

  ticks_down :
      (n c u : ℕ)
      → n ≤ c
      → ticks n (record { counter = c; underflows = u; running = true })
        ≡ record { counter = c - n; underflows = u; running = true }
  unfolding ticks
  ticks_down zero c u h = ground arith
  ticks_down (suc n) c u h = ground (arith, ticks_down n (c - 1) u)

  ticks_stopped :
      (n c u : ℕ)
      → ticks n (record { counter = c; underflows = u; running = false })
        ≡ record { counter = c; underflows = u; running = false }
  unfolding ticks
  ticks_stopped zero c u = refl
  ticks_stopped (suc n) c u = ticks_stopped n c u

  -- The state after the tick at which the counter underflows.
  abbrev reloaded : ℕ → Countdown
  reloaded u = record {
    counter = if continuous then latch else 0;
    underflows = u + 1;
    running = continuous;
  }

  ticks_underflow :
      (c n u : ℕ)
      → ticks (c + 1 + n) (record { counter = c; underflows = u; running = true })
        ≡ ticks n (reloaded u)
  ticks_underflow c n u =
      ticks-add (c + 1) n _
      ∙ ap (ticks n) (ticks-add c 1 _ ∙ (rw (ticks_down c c u (omega arith)) last))
    where
      last : ticks 1 (record { counter = c - c; underflows = u; running = true }) ≡ reloaded u
      last = unfold ticks in ground arith

-- A running timer in continuous mode has the period `latch + 1`.
ticks_cycles :
    (latch q u : ℕ)
    → ticks latch true
        (q * (latch + 1))
        (record { counter = latch; underflows = u; running = true })
      ≡ record { counter = latch; underflows = u + q; running = true }
ticks_cycles latch zero u =
    let e : zero * (latch + 1) ≡ 0 = omega arith in rw e (unfold ticks in ground arith)
ticks_cycles latch (suc q) u =
    let e : suc q * (latch + 1) ≡ latch + 1 + q * (latch + 1) = omega arith in
    rw e (
      ticks_underflow latch true latch (q * (latch + 1)) u
      ∙ ticks_cycles latch q (u + 1)
      ∙ (ground arith))

ticks_reloaded :
    (latch n u : ℕ)
    → ticks latch true n (record { counter = latch; underflows = u; running = true }) ≡ record {
      counter = latch - n % (latch + 1);
      underflows = u + n / (latch + 1);
      running = true;
    }
ticks_reloaded latch n u =
    let q = n / (latch + 1) in
    let r = n % (latch + 1) in
    let e : n ≡ q * (latch + 1) + r = sym (div-add-mod' n (latch + 1)) in
    ap (λ k. ticks latch true k _) e
    ∙ ticks-add latch true (q * (latch + 1)) r _
    ∙ (rw (ticks_cycles latch q u) (
        ticks_down latch true r latch (u + q)
          (omega (arith, mod-lt n {m = latch + 1} (omega arith)))))

-- What a run leaves: the counter, and the underflows as an `int`.
abbrev pub outcome : Countdown → ℕ × ℕ
outcome t = (t.counter, u32 t.underflows)

abbrev pub from_counter : ℕ → ℕ → Countdown
from_counter counter underflows = record {
  counter = counter;
  underflows = underflows;
  running = true;
}

past_underflow :
    (latch n c u : ℕ) (continuous : Bool)
    → c < n
    → ticks latch continuous n (from_counter c u)
      ≡ ticks latch continuous (n - (c + 1)) (reloaded latch continuous u)
past_underflow latch n c u continuous h =
    let e : n ≡ c + 1 + (n - (c + 1)) = omega arith in
    ap (λ k. ticks latch continuous k (from_counter c u)) e
    ∙ ticks_underflow latch continuous c (n - (c + 1)) u

timer_advance_past :
    (counter latch n : ℕ) (continuous : Bool)
    → counter < n
    → latch < 2 ^ 16
    → timer_advance counter latch continuous n
      ≡ outcome (ticks latch continuous (n - (counter + 1)) (reloaded latch continuous 0))
timer_advance_past counter latch n true h hl = rw (ticks_reloaded latch (n - (counter + 1)) 1) (
    unfold timer_advance in
    ground (arith, mod-lt (n - (counter + 1)) {m = latch + 1} (omega arith)))
timer_advance_past counter latch n false h hl =
    rw (ticks_stopped latch false (n - (counter + 1)) 0 1) (unfold timer_advance in ground arith)

-- For a 16-bit counter and latch, `cia_timer_advance` gives the counter and the number of
-- underflows, as an `int`, that counting tick by tick gives, in both modes and for any number of
-- ticks.
pub timer_advance-ticks :
    (counter latch n : ℕ) (continuous : Bool)
    → counter < 2 ^ 16
    → latch < 2 ^ 16
    → timer_advance counter latch continuous n
      ≡ outcome (ticks latch continuous n (from_counter counter 0))
timer_advance-ticks counter latch n continuous hc hl = elim (dec_le n counter) [
  | yes le ↦ rw (ticks_down latch continuous n counter 0 le) (unfold timer_advance in ground arith)
  | no gt ↦
      rw (past_underflow latch n counter 0 continuous (omega arith))
        (timer_advance_past counter latch n continuous (omega arith) hl)
]

-- One round of the loop that reaches an underflow, given what the rounds after it do.
loop_past :
    (fuel counter latch n u : ℕ) (continuous : Bool)
    → counter < n
    → advance_events_loop fuel latch latch true (n - (counter + 1)) (u32 (u + 1))
      ≡ outcome (ticks latch true (n - (counter + 1)) (from_counter latch (u + 1)))
    → advance_events_loop (suc fuel) counter latch continuous n (u32 u)
      ≡ outcome (ticks latch continuous (n - (counter + 1)) (reloaded latch continuous u))
loop_past fuel counter latch n u true h rest =
    let e : u32 (u32 u + 1) ≡ u32 (u + 1) = omega arith in
    rw (← rest) (
      unfold advance_events_loop in
      ground (arith, ap (advance_events_loop fuel latch latch true (n - (counter + 1))) e))
loop_past fuel counter latch n u false h rest =
    rw (ticks_stopped latch false (n - (counter + 1)) 0 (u + 1))
      (unfold advance_events_loop in ground arith)

advance_events_loop-ticks :
    (fuel counter latch n u : ℕ) (continuous : Bool)
    → n ≤ fuel
    → counter < 2 ^ 16
    → latch < 2 ^ 16
    → advance_events_loop fuel counter latch continuous n (u32 u)
      ≡ outcome (ticks latch continuous n (from_counter counter u))
advance_events_loop-ticks zero counter latch zero u continuous h hc hl =
    unfold advance_events_loop ticks in refl
advance_events_loop-ticks zero counter latch (suc n) u continuous h hc hl = absurd (omega arith)
advance_events_loop-ticks (suc fuel) counter latch n u continuous h hc hl =
    elim (dec_le n counter) [
      | yes le ↦
          rw (ticks_down latch continuous n counter u le)
            (unfold advance_events_loop in ground arith)
      | no gt ↦ rw (past_underflow latch n counter u continuous (omega arith)) (
          loop_past fuel counter latch n u continuous (omega arith) (
            advance_events_loop-ticks fuel latch latch (n - (counter + 1)) (u + 1) true
              (omega arith) hl hl))
    ]

-- For a 16-bit counter and latch, the loop of `cia_timer_advance_events` ends, and gives the
-- counter and the number of underflows, as an `int`, that counting event by event gives, in both
-- modes.
pub timer_advance_events-ticks :
    (counter latch n : ℕ) (continuous : Bool)
    → counter < 2 ^ 16
    → latch < 2 ^ 16
    → timer_advance_events counter latch continuous n
      ≡ outcome (ticks latch continuous n (from_counter counter 0))
unfolding timer_advance_events
timer_advance_events-ticks counter latch n continuous hc hl =
    advance_events_loop-ticks n counter latch n 0 continuous (omega arith) hc hl
