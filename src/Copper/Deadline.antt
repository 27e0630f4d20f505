-- ===== src/Copper/Deadline.antt =====
-- `rigel_copper_domain_cycles_to_wait` against the beam.
use rigel.Prelude.{ℕ, ◌+◌, ◌-◌, ◌*◌, ◌%◌, ◌^◌, ◌<◌, ◌≤◌, ◌≡◌, ap, ◌∙◌, arith, leb, ◌==◌, true}
use native.Mathlib.Nat.{mul-le-mul_right, mod-eq_of_lt}
use native.Mathlib.Decide.{dec_lt}
use rigel.Beam.{BeamState, line_hmax}
use rigel.Beam.Ticks.{ticks}
use rigel.Beam.Position.{
  IsProgressive, position, frame_clocks, ticks-position, ticks-IsProgressive, position-lt,
  frame_fits,
}
use rigel.Beam.Vertb.{line_clocks-ticks, frame_lines-ticks}
use rigel.Copper.{CopperState, copper_beam_cmp, wait_over, cycles_to_wait}
use rigel.Copper.Compare.{copper_beam_cmp-position, copper_beam_cmp-mod}

-- An armed WAIT with full masks, for a position inside a picture of lines of at most 256 clocks.
pub record IsFullWait (c : CopperState) (b : BeamState) : Type 0 where
  pub armed : c.waiting ≡ true
  pub vpmask_eq : c.wait_vpmask ≡ 0xff
  pub hpmask_eq : c.wait_hpmask ≡ 0xfe
  pub vpos_fits : c.wait_vpos < 256
  pub even : c.wait_hpos % 2 ≡ 0
  pub in_line : c.wait_hpos < b.line_clocks
  pub in_frame : c.wait_vpos < b.frame_lines
  pub short_lines : b.line_clocks ≤ 256

abbrev pub target : CopperState → BeamState → ℕ
target c b = c.wait_vpos * b.line_clocks + c.wait_hpos

wait_over-position :
    (c : CopperState) (b : BeamState)
    → IsProgressive b
    → IsFullWait c b
    → b.vpos < 256
    → wait_over c b ≡ leb (target c b) (position b)
unfolding wait_over line_hmax
wait_over-position c b p w h =
    rw (w.vpmask_eq, w.hpmask_eq)
      (copper_beam_cmp-position b.vpos b.hpos c.wait_vpos c.wait_hpos b.line_clocks h w.vpos_fits
        (ground arith) w.in_line w.short_lines w.even)

target-lt : (c : CopperState) (b : BeamState) → IsFullWait c b → target c b < frame_clocks b
target-lt c b w = ground (
  arith,
  mul-le-mul_right {m = c.wait_vpos + 1} {n = b.frame_lines} b.line_clocks
      (omega (arith, w.in_frame)),
)

cycles_to_wait-position :
    (c : CopperState) (b : BeamState)
    → IsProgressive b
    → IsFullWait c b
    → b.vpos < 256
    → cycles_to_wait c b ≡ target c b - position b
unfolding cycles_to_wait
cycles_to_wait-position c b p w h =
    ground (arith, wait_over-position c b p w h, position-lt b p, target-lt c b w, frame_fits b p)

later-IsFullWait :
    (c : CopperState) (b : BeamState) (m : ℕ) → IsFullWait c b → IsFullWait c (ticks m b)
later-IsFullWait c b m w = record {
  armed = w.armed;
  vpmask_eq = w.vpmask_eq;
  hpmask_eq = w.hpmask_eq;
  vpos_fits = w.vpos_fits;
  even = w.even;
  in_line = rw (line_clocks-ticks m b) w.in_line;
  in_frame = rw (frame_lines-ticks m b) w.in_frame;
  short_lines = rw (line_clocks-ticks m b) w.short_lines;
}

-- Up to the target the beam is on the first 256 lines.
vpos-lt :
    (c : CopperState) (b : BeamState) → IsFullWait c b → position b ≤ target c b → b.vpos < 256
vpos-lt c b w h = elim (dec_lt c.wait_vpos b.vpos) [
  | yes gt ↦ absurd (
      omega (
        arith,
        h,
        w.in_line,
        mul-le-mul_right {m = c.wait_vpos + 1} {n = b.vpos} b.line_clocks (omega arith),
      ))
  | no le ↦ omega (arith, w.vpos_fits)
]

target-ticks : (c : CopperState) (b : BeamState) (m : ℕ) → target c (ticks m b) ≡ target c b
target-ticks c b m = ap (λ (t : ℕ). c.wait_vpos * t + c.wait_hpos) (line_clocks-ticks m b)

-- On the way to the target, too.
way_vpos-lt :
    (c : CopperState) (b : BeamState) (m : ℕ)
    → IsFullWait c b
    → b.vpos < 256
    → m ≤ target c b - position b
    → position (ticks m b) ≡ position b + m
    → (ticks m b).vpos < 256
way_vpos-lt c b m w h le moved = elim (dec_lt (target c b) (position b + m)) [
  | yes gt ↦ let e : m ≡ 0 = omega arith in rw e (unfold ticks in h)
  | no near ↦
      vpos-lt c (ticks m b) (later-IsFullWait c b m w) (omega (arith, target-ticks c b m, moved))
]

-- For an armed WAIT with full masks whose target, on an even clock, lies inside a picture without
-- interlace and with lines of at most 256 clocks, and for a beam on the first 256 lines of it
-- whose frame count does not wrap on the way: up to `rigel_copper_domain_cycles_to_wait` clocks
-- later the WAIT is over exactly after that many clocks.
pub cycles_to_wait_lem :
    (c : CopperState) (b : BeamState) (m : ℕ)
    → IsProgressive b
    → IsFullWait c b
    → b.vpos < 256
    → b.frame_count + m < 2 ^ 64
    → m ≤ cycles_to_wait c b
    → wait_over c (ticks m b) ≡ (m == cycles_to_wait c b)
cycles_to_wait_lem c b m p w h fits le =
    let after = ticks m b in
    let n = cycles_to_wait-position c b p w h in
    let pos = ticks-position m b p fits in
    let same = target-ticks c b m in
    let moved : position after ≡ position b + m =
      pos
      ∙ mod-eq_of_lt {n = position b + m} {m = frame_clocks b}
          (omega (arith, n, le, target-lt c b w, position-lt b p)) in
    wait_over-position c after (ticks-IsProgressive m b p) (later-IsFullWait c b m w)
      (way_vpos-lt c b m w h (omega (arith, n, le)) moved)
    ∙ (rw (same, moved, n) (ground (arith, le, n)))

sub-mul : (a b k : ℕ) → b ≤ a → (a - b) * k + b * k ≡ a * k
sub-mul a b k h =
    let d = a - b in let e : a ≡ d + b = omega arith in omega (arith, ap (λ (t : ℕ). t * k) e)

-- Past the first 256 lines the comparison reads a position 256 lines back.
far_wait_over-position :
    (c : CopperState) (b : BeamState)
    → IsProgressive b
    → IsFullWait c b
    → 256 ≤ b.vpos
    → b.frame_lines ≤ 512
    → wait_over c b ≡ leb (target c b + 256 * b.line_clocks) (position b)
unfolding wait_over line_hmax
far_wait_over-position c b p w h short =
    let back : b.vpos % 256 ≡ b.vpos - 256 = omega (arith, p.below, h, short) in
    let e : b.vpos * b.line_clocks ≡ (b.vpos - 256) * b.line_clocks + 256 * b.line_clocks =
      omega (arith, sub-mul b.vpos 256 b.line_clocks h) in
    let near : copper_beam_cmp (b.vpos % 256) b.hpos c.wait_vpos c.wait_hpos 0xff 0xfe
        ≡ leb (target c b) ((b.vpos - 256) * b.line_clocks + b.hpos) =
      rw back (
        copper_beam_cmp-position (b.vpos - 256) b.hpos c.wait_vpos c.wait_hpos b.line_clocks
          (omega (arith, p.below, short)) w.vpos_fits (ground arith) w.in_line w.short_lines
          w.even) in
    rw (w.vpmask_eq, w.hpmask_eq)
      (ground (arith, copper_beam_cmp-mod b.vpos b.hpos c.wait_vpos c.wait_hpos, near, e))

-- Where the lines from 256 on, and that of the target, begin.
lines_from :
    (c : CopperState) (b : BeamState)
    → IsProgressive b
    → IsFullWait c b
    → 256 ≤ b.vpos
    → c.wait_vpos + 256 < b.frame_lines
    → (256 * b.line_clocks ≤ b.vpos * b.line_clocks)
      × (target c b < 256 * b.line_clocks)
      × (target c b + 256 * b.line_clocks < frame_clocks b)
      × ((b.frame_lines - 256) * b.line_clocks + 256 * b.line_clocks ≡ frame_clocks b)
lines_from c b p w h in_frame = (
  mul-le-mul_right {m = 256} {n = b.vpos} b.line_clocks h,
  omega (
    arith,
    w.in_line,
    mul-le-mul_right {m = c.wait_vpos + 1} {n = 256} b.line_clocks (omega (arith, w.vpos_fits)),
  ),
  omega (
    arith,
    w.in_line,
    mul-le-mul_right {m = c.wait_vpos + 257} {n = b.frame_lines} b.line_clocks
        (omega (arith, in_frame)),
  ),
  sub-mul b.frame_lines 256 b.line_clocks (omega (arith, in_frame)),
)

far_vpos : (b : BeamState) → IsProgressive b → 256 * b.line_clocks ≤ position b → 256 ≤ b.vpos
unfolding line_hmax
far_vpos b p h = elim (dec_lt b.vpos 256) [
  | yes lt ↦
      absurd
        (ground (arith, h, mul-le-mul_right {m = b.vpos + 1} {n = 256} b.line_clocks (omega arith)))
  | no ge ↦ omega arith
]

-- For an armed WAIT with full masks, and a beam past the first 256 lines of a picture of at most
-- 512 lines, without interlace, before line `wait_vpos + 256` and clock `wait_hpos`, which is
-- inside the picture: the WAIT is over after the clocks to there, but
-- `rigel_copper_domain_cycles_to_wait` gives the clocks to line `wait_vpos` of the next frame.
pub wait_past_256 :
    (c : CopperState) (b : BeamState)
    → IsProgressive b
    → IsFullWait c b
    → 256 ≤ b.vpos
    → b.frame_lines ≤ 512
    → c.wait_vpos + 256 < b.frame_lines
    → position b < target c b + 256 * b.line_clocks
    → b.frame_count + b.frame_lines * b.line_clocks < 2 ^ 64
    → let n = target c b + 256 * b.line_clocks - position b in
      (wait_over c (ticks n b) ≡ true)
      × (cycles_to_wait c b ≡ n + (b.frame_lines - 256) * b.line_clocks)
unfolding cycles_to_wait
wait_past_256 c b p w h short in_frame before fits =
    let n = target c b + 256 * b.line_clocks - position b in
    let lc = b.line_clocks in
    let first = lines_from c b p w h in_frame in
    let moved : position (ticks n b) ≡ position b + n =
      ticks-position n b p (omega (arith, first, fits))
      ∙ mod-eq_of_lt {n = position b + n} {m = frame_clocks b} (omega (arith, first, before)) in
    let far = far_vpos (ticks n b) (ticks-IsProgressive n b p) (
      omega (
        arith,
        moved,
        before,
        line_clocks-ticks n b,
        ap (λ (t : ℕ). 256 * t) (line_clocks-ticks n b),
      )) in
    let over =
      far_wait_over-position c (ticks n b) (ticks-IsProgressive n b p) (later-IsFullWait c b n w)
        far (rw (frame_lines-ticks n b) short) in
    (
      over
          ∙ (ground (
            arith,
            target-ticks c b n,
            ap (λ (t : ℕ). 256 * t) (line_clocks-ticks n b),
            moved,
            before,
          )),
      ground (
        arith,
        far_wait_over-position c b p w h short,
        before,
        first,
        position-lt b p,
        frame_fits b p,
        w.armed,
        w.vpmask_eq,
        w.hpmask_eq,
      ),
    )
