-- ===== src/Beam/Position.antt =====
-- Where the beam is after any number of clocks in a picture without interlace, and the way to VERTB.
use rigel.Prelude.{
  ℕ, zero, suc, ◌+◌, ◌-◌, ◌*◌, ◌%◌, ◌^◌, ◌<◌, ◌≤◌, ◌≡◌, refl, sym, ap, ◌∙◌, arith, ltb, ◌==◌,
  if◌then◌else◌, some,
}
use native.Mathlib.Nat.{add-mul-mod_self_right, mul-le-mul_right, mul-le-mul}
use native.Mathlib.Nat.{mod-eq_of_lt}
use rigel.Beam.{
  BeamState, line_hmax, frame_vmax, advance_line, beam_step, cycles_to_vertb, is_vertb_position,
}
use rigel.Beam.Ticks.{tick, ticks, IsInside, tick-IsInside, beam_step-ticks}

-- No long lines and frames, and the beam inside the picture.
pub record IsProgressive (beam : BeamState) : Type 0 where
  pub inside : IsInside beam
  pub lof_eq : beam.lof ≡ 0
  pub lof_toggle_eq : beam.lof_toggle ≡ 0
  pub lol_eq : beam.lol ≡ 0
  pub lol_toggle_eq : beam.lol_toggle ≡ 0
  pub below : beam.vpos < beam.frame_lines

-- The clocks of a frame, those since its start, and those since frame 0.
abbrev pub frame_clocks : BeamState → ℕ
frame_clocks beam = beam.frame_lines * beam.line_clocks

abbrev pub position : BeamState → ℕ
position beam = beam.vpos * beam.line_clocks + beam.hpos

abbrev pub total : BeamState → ℕ
total beam = beam.frame_count * frame_clocks beam + position beam

tick-IsProgressive : (b : BeamState) → IsProgressive b → IsProgressive (tick b)
unfolding tick advance_line frame_vmax
tick-IsProgressive b p = ground (arith, tick-IsInside b p.inside)

-- A tick without interlace.
abbrev next : BeamState → BeamState
next b =
    if ltb (b.hpos + 1) b.line_clocks
    then record b { hpos = b.hpos + 1 }
    else if ltb (b.vpos + 1) b.frame_lines
    then record b { hpos = 0; vpos = b.vpos + 1 }
    else record b { hpos = 0; vpos = 0; frame_count = b.frame_count + 1 }

tick-next : (b : BeamState) → IsProgressive b → b.frame_count + 1 < 2 ^ 64 → tick b ≡ next b
unfolding tick advance_line frame_vmax line_hmax
tick-next b p h = ground arith

suc-mul : (n k : ℕ) → (n + 1) * k ≡ n * k + k
suc-mul n k = omega arith

wraps : (fc v lc fl : ℕ) → v + 1 ≡ fl → (fc + 1) * (fl * lc) ≡ fc * (fl * lc) + (v * lc + lc)
wraps fc v lc fl e = omega (arith, suc-mul fc (fl * lc), suc-mul v lc, ap (λ (t : ℕ). t * lc) e)

next-total :
    (b : BeamState)
    → IsProgressive b
    → (total (next b) ≡ total b + 1)
      × (frame_clocks (next b) ≡ frame_clocks b)
      × ((next b).frame_count ≤ b.frame_count + 1)
unfolding line_hmax
next-total b p =
    ground
      (arith, suc-mul b.vpos b.line_clocks, wraps b.frame_count b.vpos b.line_clocks b.frame_lines)

tick-total :
    (b : BeamState)
    → IsProgressive b
    → b.frame_count + 1 < 2 ^ 64
    → (total (tick b) ≡ total b + 1)
      × (frame_clocks (tick b) ≡ frame_clocks b)
      × ((tick b).frame_count ≤ b.frame_count + 1)
tick-total b p h = rw (tick-next b p h) (next-total b p)

pub ticks-IsProgressive : (n : ℕ) (b : BeamState) → IsProgressive b → IsProgressive (ticks n b)
unfolding ticks
ticks-IsProgressive zero b p = p
ticks-IsProgressive (suc n) b p = ticks-IsProgressive n (tick b) (tick-IsProgressive b p)

pub ticks-total :
    (n : ℕ) (b : BeamState)
    → IsProgressive b
    → b.frame_count + n < 2 ^ 64
    → (total (ticks n b) ≡ total b + n) × (frame_clocks (ticks n b) ≡ frame_clocks b)
unfolding ticks
ticks-total zero b p h = (omega arith, refl)
ticks-total (suc n) b p h =
    let t = tick-total b p (omega arith) in
    let rest = ticks-total n (tick b) (tick-IsProgressive b p) (omega (arith, t.2)) in
    (omega (arith, t.0, rest.0), rest.1 ∙ t.1)

pub lines-le :
    (b : BeamState) → IsProgressive b → b.vpos * b.line_clocks + b.line_clocks ≤ frame_clocks b
lines-le b p = omega (
  arith,
  mul-le-mul_right {m = b.vpos + 1} {n = b.frame_lines} b.line_clocks (omega (arith, p.below)),
  suc-mul b.vpos b.line_clocks,
)

pub position-lt : (b : BeamState) → IsProgressive b → position b < frame_clocks b
unfolding line_hmax
position-lt b p = ground (arith, lines-le b p)

pub frame_fits : (b : BeamState) → IsProgressive b → frame_clocks b < 2 ^ 32 - 2
frame_fits b p = omega (
  arith,
  mul-le-mul {n₁ = b.frame_lines} {m₁ = b.line_clocks} {n₂ = 2 ^ 16 - 2} {m₂ = 2 ^ 16 - 2}
      (omega (arith, p.inside.lines_fit)) (omega (arith, p.inside.clocks_fit)),
)

rest-mod : (q t x : ℕ) → (q * t + x) % t ≡ x % t
rest-mod q t x = ap (λ (y : ℕ). y % t) (omega arith) ∙ add-mul-mod_self_right x q t

-- The position is what is left of the total.
position-total : (b : BeamState) → IsProgressive b → position b ≡ total b % frame_clocks b
position-total b p = sym (
    rest-mod b.frame_count (frame_clocks b) (position b)
    ∙ mod-eq_of_lt {n = position b} {m = frame_clocks b} (position-lt b p))

pub at_vertb : (h v lc : ℕ) → 1 < lc → (v * lc + h == 1) ≡ is_vertb_position h v
unfolding is_vertb_position
at_vertb h zero lc lt = ground arith
at_vertb h (suc v) lc lt = ground (arith, suc-mul v lc)

lines_left : (v fl lc : ℕ) → v < fl → (fl - v - 1) * lc + (v * lc + lc) ≡ fl * lc
lines_left v fl lc h =
    let k = fl - v - 1 in
    let e : fl ≡ k + (v + 1) = omega arith in omega (arith, ap (λ (t : ℕ). t * lc) e, suc-mul v lc)

-- The way to the position 1, but a whole frame too long at the position 0.
pub cycles_to_vertb-position :
    (b : BeamState)
    → IsProgressive b
    → 1 < b.line_clocks
    → cycles_to_vertb b ≡ (if position b == 1 then 0 else frame_clocks b + 1 - position b)
unfolding cycles_to_vertb line_hmax
cycles_to_vertb-position b p h = ground (
  arith,
  at_vertb b.hpos b.vpos b.line_clocks h,
  lines_left b.vpos b.frame_lines b.line_clocks p.below,
  frame_fits b p,
)

pub ticks-position :
    (n : ℕ) (b : BeamState)
    → IsProgressive b
    → b.frame_count + n < 2 ^ 64
    → position (ticks n b) ≡ (position b + n) % frame_clocks b
ticks-position n b p h =
    let t = ticks-total n b p h in
    let e : total b + n ≡ b.frame_count * frame_clocks b + (position b + n) = omega arith in
    position-total (ticks n b) (ticks-IsProgressive n b p)
    ∙ (rw (t.0, t.1, e) (rest-mod b.frame_count (frame_clocks b) (position b + n)))

-- For a beam inside a picture without interlace, a 16-bit number of clocks, and a frame count that
-- does not wrap: `beam_step` ends, and moves the beam on by exactly the clocks given, counted over
-- frames; it is inside the picture again, at the position that is left modulo the clocks of a
-- frame.
pub beam_step-position :
    (b : BeamState) (clocks : ℕ)
    → IsProgressive b
    → clocks < 2 ^ 16
    → b.frame_count + clocks < 2 ^ 64
    → let after = ticks clocks b in
      (beam_step b clocks ≡ some after)
      × (total after ≡ total b + clocks)
      × (position after ≡ (position b + clocks) % frame_clocks b)
      × IsProgressive after
beam_step-position b clocks p h k = (
  beam_step-ticks b clocks h p.inside,
  (ticks-total clocks b p k).0,
  ticks-position clocks b p k,
  ticks-IsProgressive clocks b p,
)
