-- ===== src/Chipset/Clocks.antt =====
-- The clocks that the step derives for the CIAs.
use rigel.Prelude.{ℕ, ◌+◌, ◌*◌, ◌/◌, ◌%◌, ◌^◌, ◌<◌, ◌≡◌, sym, ap, ◌∙◌, arith, List, [], ◌∷◌, u32}
use native.Mathlib.Nat.{add-mul-div_right, mul_assoc, div-eq_of_lt, div-le_self}
use rigel.Beam.{BeamState, line_hmax, frame_vmax, advance_line}
use rigel.Beam.Ticks.{tick, ticks, IsInside}
use rigel.Beam.Position.{IsProgressive, total, ticks-total, ticks-IsProgressive}
use rigel.Beam.Vertb.{line_clocks-ticks, frame_lines-ticks}
use rigel.Chipset.{hsync_pulses, eclock}

-- The ticks of a run of steps, and what is left after it.
abbrev pub eclocks : ℕ → List ℕ → ℕ × ℕ
eclocks rem [] = (0, rem)
eclocks rem (cycles ∷ rest) =
    let (due, left) = eclock rem cycles in
    let (more, last) = eclocks left rest in (due + more, last)

abbrev pub sum : List ℕ → ℕ
sum [] = 0
sum (n ∷ ns) = n + sum ns

-- For a remainder below 5, and clocks that stay below 2 ^ 32 with it: however they are cut into
-- steps, the CIAs get one tick of the E-clock for every five clocks since the remainder began, and
-- the rest stays as the remainder.
pub eclocks-sum :
    (rem : ℕ) (steps : List ℕ)
    → rem < 5
    → rem + sum steps < 2 ^ 32
    → ((eclocks rem steps).0 ≡ (rem + sum steps) / 5)
      × ((eclocks rem steps).1 ≡ (rem + sum steps) % 5)
unfolding eclock
eclocks-sum rem [] h k = (omega arith, omega arith)
eclocks-sum rem (n ∷ ns) h k =
    let rest = eclocks-sum (u32 (rem + n) % 5) ns (omega arith) (omega arith) in
    (omega (arith, rest.0), omega (arith, rest.1))

-- The lines since frame 0.
abbrev lines : BeamState → ℕ
lines b = b.frame_count * b.frame_lines + b.vpos

total-lines : (b : BeamState) → total b ≡ lines b * b.line_clocks + b.hpos
total-lines b = omega (arith, mul_assoc b.frame_count b.frame_lines b.line_clocks)

pub hpos-lt : (b : BeamState) → IsProgressive b → b.hpos < b.line_clocks
unfolding line_hmax
hpos-lt b p = ground arith

-- The lines of a moved beam, by its clocks.
lines-ticks :
    (n : ℕ) (b : BeamState)
    → IsProgressive b
    → b.frame_count + n < 2 ^ 64
    → lines (ticks n b) ≡ (b.hpos + n) / b.line_clocks + lines b
lines-ticks n b p h =
    let after = ticks n b in
    let t = (ticks-total n b p h).0 in
    let lc = line_clocks-ticks n b in
    let e : after.hpos + lines after * b.line_clocks ≡ b.hpos + n + lines b * b.line_clocks =
      omega (arith, t, total-lines after, total-lines b, ap (λ (k : ℕ). lines after * k) lc) in
    let q = ticks-IsProgressive n b p in
    let inside : after.hpos < b.line_clocks = omega (arith, hpos-lt after q, lc) in
    sym (
      add-mul-div_right after.hpos (lines after) {z = b.line_clocks} p.inside.some_clocks
      ∙ (rw (div-eq_of_lt {n = after.hpos} {m = b.line_clocks} inside) (omega arith)))
    ∙ ap (λ (k : ℕ). k / b.line_clocks) e
    ∙ add-mul-div_right (b.hpos + n) (lines b) {z = b.line_clocks} p.inside.some_clocks

-- Without interlace, the time of day of CIA-B gets one pulse for every line that the beam ends.
pub hsync_pulses-ticks :
    (b : BeamState) (n : ℕ)
    → IsProgressive b
    → b.frame_count + n < 2 ^ 64
    → n < 2 ^ 32
    → hsync_pulses b (ticks n b) ≡ (b.hpos + n) / b.line_clocks
unfolding hsync_pulses line_hmax
hsync_pulses-ticks b n p h k = ground (
  arith,
  lines-ticks n b p h,
  ap (λ (t : ℕ). (ticks n b).frame_count * t) (frame_lines-ticks n b),
  div-le_self (b.hpos + n) b.line_clocks,
)

-- The last clock of a long frame.
long_frame_end :
    (b : BeamState)
    → IsInside b
    → b.lof ≡ 1
    → b.vpos ≡ b.frame_lines
    → b.hpos + 1 ≡ line_hmax b
    → b.frame_count + 1 < 2 ^ 64
    → ((tick b).vpos ≡ 0) × ((tick b).frame_count ≡ b.frame_count + 1)
unfolding tick advance_line frame_vmax
long_frame_end b i long v h fits = rw h (ground (arith, i.lines_fit, long, v, fits))

-- For a beam at the last clock of the last line of a long frame of an interlaced picture, and a
-- frame count that does not wrap: one clock later the beam has gone to the next frame, but the
-- step counts no pulse for that line.
hsync_lost :
    (b : BeamState)
    → IsInside b
    → b.lof ≡ 1
    → b.vpos ≡ b.frame_lines
    → b.hpos + 1 ≡ line_hmax b
    → b.frame_count + 1 < 2 ^ 64
    → (hsync_pulses b (tick b) ≡ 0)
      × ((tick b).vpos ≡ 0)
      × ((tick b).frame_count ≡ b.frame_count + 1)
unfolding hsync_pulses
hsync_lost b i long v h fits =
    let t = long_frame_end b i long v h fits in
    (ground (arith, t.0, ap (λ (k : ℕ). k * b.frame_lines) t.1, v), t.0, t.1)
