-- ===== src/Floppy/Drive/Sound.antt =====
-- What holds of a drive after any operations.
use rigel.Prelude.{
  ℕ, ◌<◌, ◌≤◌, ◌^◌, ◌≡◌, refl, arith, Bool, false, not, ◌&&◌, Option, List, [], ◌∷◌, truth,
  from_bool, ◌==◌, u32,
}
use rigel.Floppy.Drive.{
  FloppyDrive, FloppySignals, floppy_adf_cylinders, floppy_init, floppy_insert, floppy_reset,
  floppy_set_connected, floppy_eject, step_motor, step_head, floppy_step, floppy_read_linear,
  floppy_get_track0, floppy_get_ready,
}

-- The head is on a cylinder of the disk, the field `track0` says whether it is the outermost, a drive is ready
-- only while its motor turns, and the place of the linear read lies inside the image.
pub record IsSound (d : FloppyDrive) : Type 0 where
  pub cylinder_in : d.cylinder < floppy_adf_cylinders
  pub track0_eq : d.track0 ≡ from_bool (d.cylinder == 0)
  pub ready_turns : (truth (d.ready) && not (truth (d.motor))) ≡ false
  pub offset_in : d.read_offset ≤ d.adf_size
  pub size_fits : d.adf_size < 2 ^ 32

pub data DriveOp : Type 0 where
  reset : DriveOp
  connect : ℕ → DriveOp
  insert : Option (ℕ → ℕ) → ℕ → DriveOp
  eject : DriveOp
  signal : FloppySignals → DriveOp
  read : Bool → ℕ → DriveOp

-- A size is a 32-bit number.
unfoldable pub apply : FloppyDrive → DriveOp → FloppyDrive
apply d reset = floppy_reset d
apply d (connect n) = floppy_set_connected d n
apply d (insert image size) = floppy_insert d image (u32 size)
apply d eject = floppy_eject d
apply d (signal sig) = floppy_step d sig
apply d (read has_buffer bytes) = (floppy_read_linear d has_buffer bytes).0

unfoldable pub run : FloppyDrive → List DriveOp → FloppyDrive
run d [] = d
run d (op ∷ ops) = run (apply d op) ops

step_motor-IsSound :
    (d : FloppyDrive) (sig : FloppySignals) → IsSound d → IsSound (step_motor d sig)
unfolding step_motor
step_motor-IsSound d sig i = record {
  cylinder_in = ground (arith, i.cylinder_in);
  track0_eq = ground (arith, i.track0_eq);
  ready_turns = ground (arith, i.ready_turns);
  offset_in = ground (arith, i.offset_in);
  size_fits = ground (arith, i.size_fits);
}

step-IsSound : (d : FloppyDrive) (sig : FloppySignals) → IsSound d → IsSound (floppy_step d sig)
unfolding floppy_step step_head
step-IsSound d sig i =
    let j =
      step_motor-IsSound (record d { selected = 1 }) sig
        (record {
          cylinder_in = i.cylinder_in;
          track0_eq = i.track0_eq;
          ready_turns = i.ready_turns;
          offset_in = i.offset_in;
          size_fits = i.size_fits;
        }) in
    record {
      cylinder_in = ground (arith, i.cylinder_in, j.cylinder_in);
      track0_eq = ground (arith, i.track0_eq, j.track0_eq);
      ready_turns = ground (arith, i.ready_turns, j.ready_turns);
      offset_in = ground (arith, i.offset_in, j.offset_in);
      size_fits = ground (arith, i.size_fits, j.size_fits);
    }

insert-IsSound :
    (d : FloppyDrive) (image : Option (ℕ → ℕ)) (size : ℕ)
    → IsSound d
    → size < 2 ^ 32
    → IsSound (floppy_insert d image size)
unfolding floppy_insert
insert-IsSound d image size i h = record {
  cylinder_in = i.cylinder_in;
  track0_eq = i.track0_eq;
  ready_turns = i.ready_turns;
  offset_in = omega arith;
  size_fits = h;
}

init-IsSound : IsSound floppy_init
unfolding floppy_init
init-IsSound = record {
  cylinder_in = omega arith;
  track0_eq = refl;
  ready_turns = refl;
  offset_in = omega arith;
  size_fits = omega arith;
}

reset-IsSound : (d : FloppyDrive) → IsSound d → IsSound (floppy_reset d)
unfolding floppy_reset floppy_init floppy_insert
reset-IsSound d i = record {
  cylinder_in = ground arith;
  track0_eq = ground arith;
  ready_turns = ground arith;
  offset_in = ground arith;
  size_fits = ground (arith, i.size_fits);
}

read-IsSound :
    (d : FloppyDrive) (has_buffer : Bool) (bytes : ℕ)
    → IsSound d
    → IsSound ((floppy_read_linear d has_buffer bytes).0)
unfolding floppy_read_linear
read-IsSound d has_buffer bytes i = record {
  cylinder_in = ground (arith, i.cylinder_in);
  track0_eq = ground (arith, i.track0_eq);
  ready_turns = ground (arith, i.ready_turns);
  offset_in = ground (arith, i.offset_in, i.size_fits);
  size_fits = ground (arith, i.size_fits);
}

connect-IsSound : (d : FloppyDrive) (n : ℕ) → IsSound d → IsSound (floppy_set_connected d n)
unfolding floppy_set_connected
connect-IsSound d n i = record {
  cylinder_in = ground (arith, i.cylinder_in);
  track0_eq = ground (arith, i.track0_eq);
  ready_turns = ground (arith, i.ready_turns);
  offset_in = ground (arith, i.offset_in);
  size_fits = ground (arith, i.size_fits);
}

eject-IsSound : (d : FloppyDrive) → IsSound d → IsSound (floppy_eject d)
unfolding floppy_eject
eject-IsSound d i = record {
  cylinder_in = i.cylinder_in;
  track0_eq = i.track0_eq;
  ready_turns = refl;
  offset_in = omega arith;
  size_fits = omega arith;
}

apply-IsSound : (d : FloppyDrive) (op : DriveOp) → IsSound d → IsSound (apply d op)
unfolding apply
apply-IsSound d reset i = reset-IsSound d i
apply-IsSound d (connect n) i = connect-IsSound d n i
apply-IsSound d (insert image size) i = insert-IsSound d image (u32 size) i (omega arith)
apply-IsSound d eject i = eject-IsSound d i
apply-IsSound d (signal sig) i = step-IsSound d sig i
apply-IsSound d (read has_buffer bytes) i = read-IsSound d has_buffer bytes i

run_from : (ops : List DriveOp) (d : FloppyDrive) → IsSound d → IsSound (run d ops)
unfolding run
run_from [] d i = i
run_from (op ∷ ops) d i = run_from ops (apply d op) (apply-IsSound d op i)

-- What the getters show: TRACK0 on a connected drive exactly if its head is on the outermost cylinder,
-- ready only on a connected drive whose motor turns.
pub record IsShowing (d : FloppyDrive) : Type 0 where
  pub track0_shown : floppy_get_track0 d ≡ from_bool (truth (d.connected) && d.cylinder == 0)
  pub ready_shown :
      (truth (floppy_get_ready d) && not (truth (d.connected) && truth (d.motor))) ≡ false

sound-IsShowing : (d : FloppyDrive) → IsSound d → IsShowing d
unfolding floppy_get_track0 floppy_get_ready
sound-IsShowing d i = record {
  track0_shown = ground (arith, i.track0_eq);
  ready_shown = ground (arith, i.ready_turns);
}

-- After the initialisation and any operations: the head is on one of the 80 cylinders, the field
-- `track0` says whether it is the outermost, `ready` is set only while the motor turns, and the place
-- of the linear read is not past the end of the image, whose size fits 32 bits. `floppy_get_track0`
-- gives 1 exactly for a connected drive on the outermost cylinder, and else 0, and
-- `floppy_get_ready` gives 0 unless the drive is connected and its motor turns.
pub run-IsSound : (ops : List DriveOp) → let d = run floppy_init ops in IsSound d × IsShowing d
run-IsSound ops =
    let sound = run_from ops floppy_init init-IsSound in
    (sound, sound-IsShowing (run floppy_init ops) sound)
