-- ===== src/Beam/Vertb.antt =====
-- The way to the vertical blank interrupt.
use rigel.Prelude.{
  ℕ, zero, suc, ◌+◌, ◌-◌, ◌%◌, ◌^◌, ◌<◌, ◌≤◌, ◌≡◌, ◌≢◌, sym, refl, ◌∙◌, true, Bool, arith, ◌==◌,
  if◌then◌else◌,
}
use native.Mathlib.Decide.{dec_lt}
use native.Mathlib.Nat.{mod-eq_of_lt, add-mod_right}
use rigel.Beam.{BeamState, advance_line, cycles_to_vertb, is_vertb_position}
use rigel.Beam.Ticks.{tick, ticks}
use rigel.Beam.Position.{
  IsProgressive, position, frame_clocks, ticks-position, at_vertb, cycles_to_vertb-position,
  position-lt, lines-le,
}

-- The beam is where the interrupt is raised.
abbrev pub vertb_now : BeamState → Bool
vertb_now beam = is_vertb_position beam.hpos beam.vpos

-- The clocks of a line and the lines of a frame stay the same.
pub line_clocks-ticks : (n : ℕ) (b : BeamState) → (ticks n b).line_clocks ≡ b.line_clocks
unfolding ticks tick advance_line
line_clocks-ticks zero b = refl
line_clocks-ticks (suc n) b = line_clocks-ticks n (tick b) ∙ (ground arith)

pub frame_lines-ticks : (n : ℕ) (b : BeamState) → (ticks n b).frame_lines ≡ b.frame_lines
unfolding ticks tick advance_line
frame_lines-ticks zero b = refl
frame_lines-ticks (suc n) b = frame_lines-ticks n (tick b) ∙ (ground arith)

vertb_now-ticks :
    (n : ℕ) (b : BeamState)
    → IsProgressive b
    → 1 < b.line_clocks
    → b.frame_count + n < 2 ^ 64
    → vertb_now (ticks n b) ≡ ((position b + n) % frame_clocks b == 1)
vertb_now-ticks n b p lc h =
    let after = ticks n b in
    let e = line_clocks-ticks n b in
    sym (at_vertb after.hpos after.vpos after.line_clocks (omega (arith, e, lc)))
    ∙ (rw (ticks-position n b p h) (ground arith))

past_frame :
    (x m t : ℕ)
    → x < t
    → 1 < t
    → x ≢ 0
    → (c : ℕ) → c ≡ (if x == 1 then 0 else t + 1 - x)
    → m ≤ c
    → t ≤ x + m
    → ((x + m) % t == 1) ≡ (m == c)
past_frame x m t h one ne c e k ge =
    let d = x + m - t in
    let f : x + m ≡ d + t = omega arith in
    rw (f, add-mod_right d t, mod-eq_of_lt {n = d} {m = t} (ground arith)) (ground arith)

-- The remainders on the way from `x` to the next 1.
on_the_way :
    (x m t : ℕ)
    → x < t
    → 1 < t
    → x ≢ 0
    → (c : ℕ) → c ≡ (if x == 1 then 0 else t + 1 - x)
    → m ≤ c
    → ((x + m) % t == 1) ≡ (m == c)
on_the_way x m t h one ne c e k = elim (dec_lt (x + m) t) [
  | yes lt ↦ rw (mod-eq_of_lt {n = x + m} {m = t} lt) (ground arith)
  | no ge ↦ past_frame x m t h one ne c e k (omega arith)
]

-- For a beam inside a picture without interlace and with lines of more than one clock, anywhere
-- but at the start of a frame, and a frame count that does not wrap: up to `agnus_cycles_to_vertb`
-- clocks later the beam is where the vertical blank interrupt is raised exactly after that many
-- clocks.
pub cycles_to_vertb_lem :
    (b : BeamState) (m : ℕ)
    → IsProgressive b
    → 1 < b.line_clocks
    → position b ≢ 0
    → b.frame_count + cycles_to_vertb b < 2 ^ 64
    → m ≤ cycles_to_vertb b
    → vertb_now (ticks m b) ≡ (m == cycles_to_vertb b)
cycles_to_vertb_lem b m p lc ne h k =
    vertb_now-ticks m b p lc (omega arith)
    ∙ on_the_way (position b) m (frame_clocks b) (position-lt b p) (omega (arith, lines-le b p)) ne
        (cycles_to_vertb b) (cycles_to_vertb-position b p lc) k

-- For a beam at the start of a frame of such a picture, the interrupt is one clock away, and
-- `agnus_cycles_to_vertb` gives the clocks of a whole frame and one.
vertb_frame_late :
    (b : BeamState)
    → IsProgressive b
    → 1 < b.line_clocks
    → position b ≡ 0
    → b.frame_count + 1 < 2 ^ 64
    → (cycles_to_vertb b ≡ frame_clocks b + 1) × (vertb_now (ticks 1 b) ≡ true)
vertb_frame_late b p lc e h = (
  ground (arith, cycles_to_vertb-position b p lc),
  vertb_now-ticks 1 b p lc h
      ∙ (rw e
          (rw (mod-eq_of_lt {n = 1} {m = frame_clocks b} (omega (arith, lines-le b p, lc))) refl)),
)
