-- ===== src/Floppy/Drive/Seek.antt =====
-- The head moved by pulses on STEP.
use rigel.Prelude.{
  ℕ, zero, suc, ◌+◌, ◌-◌, ◌<◌, ◌≡◌, refl, ap, arith, ◌∙◌, true, truth, from_bool, ◌==◌, min,
  if◌then◌else◌,
}
use rigel.Floppy.Drive.{
  FloppyDrive, FloppySignals, floppy_adf_cylinders, step_motor, step_head, floppy_step,
  floppy_get_track0,
}

-- STEP goes active and back, with the other signals held.
unfoldable pub pulse : FloppySignals → FloppyDrive → FloppyDrive
pulse sig d = floppy_step (floppy_step d (record sig { step = 1 })) (record sig { step = 0 })

unfoldable pub pulses : FloppySignals → ℕ → FloppyDrive → FloppyDrive
pulses sig zero d = d
pulses sig (suc n) d = pulses sig n (pulse sig d)

-- The drive is there and takes a pulse.
pub record IsWaiting (d : FloppyDrive) : Type 0 where
  pub present : truth (d.connected) ≡ true
  pub latched : truth (d.step_latch) ≡ true
  pub cylinder_in : d.cylinder < floppy_adf_cylinders

-- The cylinder after `n` pulses outward or inward.
abbrev pub seeked : ℕ → ℕ → ℕ → ℕ
seeked direction n cylinder =
    if truth direction then cylinder - n else min (floppy_adf_cylinders - 1) (cylinder + n)

motor_kept :
    (d : FloppyDrive) (sig : FloppySignals)
    → let t = step_motor d sig in
      (t.cylinder ≡ d.cylinder) × (t.connected ≡ d.connected) × (t.step_latch ≡ d.step_latch)
unfolding step_motor
motor_kept d sig = ground arith

-- STEP goes active.
active :
    (sig : FloppySignals) (d : FloppyDrive)
    → truth (sig.selected) ≡ true
    → IsWaiting d
    → let t = floppy_step d (record sig { step = 1 }) in
      (t.connected ≡ d.connected) × (t.cylinder ≡ seeked (sig.direction) 1 (d.cylinder))
unfolding floppy_step step_head
active sig d s i =
    let (f, g, h) = motor_kept (record d { selected = 1 }) (record sig { step = 1 }) in
    ground (arith, f, g, h, i.present, i.latched, i.cylinder_in)

-- STEP goes back.
released :
    (sig : FloppySignals) (d : FloppyDrive)
    → truth (sig.selected) ≡ true
    → truth (d.connected) ≡ true
    → let t = floppy_step d (record sig { step = 0 }) in
      (t.connected ≡ d.connected)
      × (t.cylinder ≡ d.cylinder)
      × (t.step_latch ≡ 1)
      × (t.track0 ≡ from_bool (t.cylinder == 0))
unfolding floppy_step step_head
released sig d s h =
    let (f, g, k) = motor_kept (record d { selected = 1 }) (record sig { step = 0 }) in
    ground (arith, f, g, k)

pulse_lem :
    (sig : FloppySignals) (d : FloppyDrive)
    → truth (sig.selected) ≡ true
    → IsWaiting d
    → let t = pulse sig d in
      IsWaiting t
      × (t.cylinder ≡ seeked (sig.direction) 1 (d.cylinder))
      × (t.track0 ≡ from_bool (t.cylinder == 0))
unfolding pulse
pulse_lem sig d s i =
    let t = floppy_step d (record sig { step = 1 }) in
    let (f, g) = active sig d s i in
    let c : truth (t.connected) ≡ true = ap truth f ∙ i.present in
    let (p, q, r, z) = released sig t s c in
    (
      (record {
        present = ap truth p ∙ c;
        latched = ap truth r;
        cylinder_in = ground (arith, q, g, i.cylinder_in);
      }),
      q ∙ g,
      z,
    )

seek_from :
    (n : ℕ) (sig : FloppySignals) (d : FloppyDrive)
    → truth (sig.selected) ≡ true
    → IsWaiting d
    → let t = pulses sig n d in IsWaiting t × (t.cylinder ≡ seeked (sig.direction) n (d.cylinder))
unfolding pulses
seek_from zero sig d s i = (i, ground (arith, i.cylinder_in))
seek_from (suc n) sig d s i =
    let (j, e, z) = pulse_lem sig d s i in
    let (k, f) = seek_from n sig (pulse sig d) s j in (k, ground (arith, e, f, i.cylinder_in))

track0_last :
    (n : ℕ) (sig : FloppySignals) (d : FloppyDrive)
    → truth (sig.selected) ≡ true
    → IsWaiting d
    → let t = pulses sig (suc n) d in t.track0 ≡ from_bool (t.cylinder == 0)
unfolding pulses
track0_last zero sig d s i = let (j, e, z) = pulse_lem sig d s i in z
track0_last (suc n) sig d s i =
    let (j, e, z) = pulse_lem sig d s i in track0_last n sig (pulse sig d) s j

shown : (d : FloppyDrive) → truth (d.connected) ≡ true → floppy_get_track0 d ≡ d.track0
unfolding floppy_get_track0
shown d h = rw h refl

-- Pulses on STEP with a drive selected that is there and takes them: `n` of them move the head `n`
-- cylinders outward, to the outermost at most, or inward, to the innermost at most, as the direction
-- says; after at least one pulse TRACK0 is shown exactly on the outermost cylinder.
pub pulses_seek :
    (n : ℕ) (sig : FloppySignals) (d : FloppyDrive)
    → truth (sig.selected) ≡ true
    → IsWaiting d
    → let t = pulses sig (suc n) d in
      (t.cylinder ≡ seeked (sig.direction) (suc n) (d.cylinder))
      × (floppy_get_track0 t ≡ from_bool (t.cylinder == 0))
pulses_seek n sig d s i =
    let (k, e) = seek_from (suc n) sig d s i in
    (e, shown (pulses sig (suc n) d) (k.present) ∙ track0_last n sig d s i)
