-- ===== src/Beam/Ticks.antt =====
-- The loop of `beam_step` against a beam that moves clock by clock.
use rigel.Prelude.{
  ℕ, zero, suc, ◌+◌, ◌-◌, ◌^◌, ◌<◌, ◌≤◌, ◌≡◌, refl, ap, ◌∙◌, ltb, u16, arith, if◌then◌else◌, some,
}
use native.Mathlib.Decide.{dec_lt}
use rigel.Beam.{BeamState, line_hmax, frame_vmax, advance_line, beam_round, beam_loop, beam_step}

-- One colour clock: to the right, or at the end of the line to the next one.
unfoldable pub tick : BeamState → BeamState
tick beam =
    if ltb (beam.hpos + 1) (line_hmax beam)
    then record beam { hpos = beam.hpos + 1 }
    else advance_line beam

unfoldable pub ticks : ℕ → BeamState → BeamState
ticks zero beam = beam
ticks (suc n) beam = ticks n (tick beam)

-- The beam is inside the picture, and the lines and frames are not of the longest 16-bit length.
pub record IsInside (beam : BeamState) : Type 0 where
  pub some_clocks : 0 < beam.line_clocks
  pub clocks_fit : beam.line_clocks < 2 ^ 16 - 1
  pub some_lines : 0 < beam.frame_lines
  pub lines_fit : beam.frame_lines < 2 ^ 16 - 1
  pub in_line : beam.hpos < line_hmax beam
  pub in_frame : beam.vpos ≤ beam.frame_lines

advance_line-IsInside : (b : BeamState) → IsInside b → IsInside (advance_line b)
unfolding advance_line line_hmax frame_vmax
advance_line-IsInside b i = ground arith

pub tick-IsInside : (b : BeamState) → IsInside b → IsInside (tick b)
unfolding tick line_hmax
tick-IsInside b i = ground (arith, advance_line-IsInside b i)

pub ticks-IsInside : (n : ℕ) (b : BeamState) → IsInside b → IsInside (ticks n b)
unfolding ticks
ticks-IsInside zero b i = i
ticks-IsInside (suc n) b i = ticks-IsInside n (tick b) (tick-IsInside b i)

pub ticks-add : (m n : ℕ) (b : BeamState) → ticks (m + n) b ≡ ticks n (ticks m b)
unfolding ticks
ticks-add zero n b = let e : zero + n ≡ n = omega arith in rw e refl
ticks-add (suc m) n b =
    let e : suc m + n ≡ suc (m + n) = omega arith in rw e (ticks-add m n (tick b))

-- Before the end of the line the ticks only move the beam to the right.
ticks_in_line :
    (n : ℕ) (b : BeamState) → b.hpos + n < line_hmax b → ticks n b ≡ record b { hpos = b.hpos + n }
unfolding ticks tick line_hmax
ticks_in_line zero b h = ground arith
ticks_in_line (suc n) b h =
    ground (arith, ticks_in_line n (record b { hpos = b.hpos + 1 }) (ground arith))

advance_line_moved : (b : BeamState) (x : ℕ) → advance_line (record b { hpos = x }) ≡ advance_line b
unfolding advance_line
advance_line_moved b x = refl

-- The last tick of the line.
ticks_to_next_line :
    (b : BeamState) → b.hpos < line_hmax b → ticks (line_hmax b - b.hpos) b ≡ advance_line b
ticks_to_next_line b h =
    let n = line_hmax b - b.hpos - 1 in
    let e : line_hmax b - b.hpos ≡ n + 1 = omega arith in
    rw (e, ticks-add n 1 b, ticks_in_line n b (omega arith))
      (unfold ticks tick line_hmax in ground (arith, advance_line_moved b (b.hpos + n)))

loop_done : (fuel : ℕ) (b : BeamState) → beam_loop fuel b 0 ≡ some b
unfolding beam_loop
loop_done zero b = refl
loop_done (suc fuel) b = refl

-- A round of the loop that has clocks left takes the beam to the next line.
round_lem :
    (b : BeamState) (clocks : ℕ)
    → IsInside b
    → clocks < 2 ^ 16
    → beam_round b clocks ≡ (
        if ltb clocks (line_hmax b - b.hpos)
        then (record b { hpos = b.hpos + clocks }, 0)
        else (advance_line b, clocks - (line_hmax b - b.hpos)))
unfolding beam_round line_hmax
round_lem b clocks i h =
    ground (arith, advance_line_moved b (u16 (b.hpos + u16 (line_hmax b + 2 ^ 16 - b.hpos))))

loop_step :
    (fuel : ℕ) (b : BeamState) (n : ℕ)
    → beam_loop (suc fuel) b (suc n)
      ≡ beam_loop fuel (beam_round b (suc n)).0 (beam_round b (suc n)).1
unfolding beam_loop
loop_step fuel b n = ground arith

loop-ticks :
    (fuel : ℕ) (b : BeamState) (clocks : ℕ)
    → clocks ≤ fuel
    → clocks < 2 ^ 16
    → IsInside b
    → beam_loop fuel b clocks ≡ some (ticks clocks b)
loop-ticks zero b clocks le h i =
    let e : clocks ≡ 0 = omega arith in rw e (unfold beam_loop ticks in refl)
loop-ticks (suc fuel) b zero le h i = unfold beam_loop ticks in refl
loop-ticks (suc fuel) b (suc n) le h i = elim (dec_lt (suc n) (line_hmax b - b.hpos)) [
  | yes lt ↦
      let r : beam_round b (suc n) ≡ (record b { hpos = b.hpos + suc n }, 0) =
        round_lem b (suc n) i h ∙ (ground arith) in
      rw
        (
          loop_step fuel b n,
          r,
          loop_done fuel (record b { hpos = b.hpos + suc n }),
          ticks_in_line (suc n) b (omega arith),
        )
        refl
  | no ge ↦
      let k = line_hmax b - b.hpos in
      let left = suc n - k in
      let r : beam_round b (suc n) ≡ (advance_line b, left) =
        round_lem b (suc n) i h ∙ (ground arith) in
      let e : ticks (suc n) b ≡ ticks left (advance_line b) =
        ap (λ (t : ℕ). ticks t b) (omega arith)
        ∙ ticks-add k left b
        ∙ ap (ticks left) (ticks_to_next_line b i.in_line) in
      rw (loop_step fuel b n, r, e)
        (loop-ticks fuel (advance_line b) left (omega (arith, i.in_line)) (omega arith)
          (advance_line-IsInside b i))
]

-- For a beam inside a picture whose lines and frames are not empty and below the longest 16-bit
-- length, with interlace or without, and for any 16-bit number of clocks: the loop of `beam_step`
-- ends, and does what as many single clocks do.
pub beam_step-ticks :
    (b : BeamState) (clocks : ℕ)
    → clocks < 2 ^ 16
    → IsInside b
    → beam_step b clocks ≡ some (ticks clocks b)
unfolding beam_step
beam_step-ticks b clocks h i = ground (arith, loop-ticks (clocks + 1) b clocks (omega arith) h i)
