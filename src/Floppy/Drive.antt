-- ===== src/Floppy/Drive.antt =====
-- A floppy drive (src/floppy/floppy_drive.c and floppy_drive.h). An `int` is its bit pattern, a disk image the
-- function of its bytes, absent where the code finds NULL; no pointer to a drive is NULL.
pub mod Sound
pub mod Seek
use rigel.Prelude.{
  ℕ, zero, suc, ◌+◌, ◌-◌, ◌*◌, ◌/◌, ◌^◌, bit_and, Bool, true, false, not, ◌&&◌, ◌||◌, Option, none,
  some, List, [], ◌∷◌, u32, ltb, leb, ◌==◌, truth, from_bool, if◌then◌else◌, ◌>>>◌,
}

pub record FloppySignals : Type 0 where
  pub selected : ℕ
  pub motor : ℕ
  pub step : ℕ
  pub direction : ℕ
  pub side : ℕ

pub record FloppyDrive : Type 0 where
  pub connected : ℕ
  pub selected : ℕ
  pub motor : ℕ
  pub cylinder : ℕ
  pub side : ℕ
  pub ready : ℕ
  pub track0 : ℕ
  pub disk_inserted : ℕ
  pub disk_changed : ℕ
  pub write_protected : ℕ
  pub step_latch : ℕ
  pub id_data : ℕ
  pub id_count : ℕ
  pub adf : Option (ℕ → ℕ)
  pub adf_size : ℕ
  pub read_offset : ℕ

abbrev pub floppy_adf_cylinders : ℕ
floppy_adf_cylinders = 80

-- `p != 0`
unfoldable pub is_set : Option (ℕ → ℕ) → Bool
is_set none = false
is_set (some image) = true

unfoldable pub floppy_init : FloppyDrive
floppy_init = record {
  connected = 0;
  selected = 0;
  motor = 0;
  cylinder = 0;
  side = 0;
  ready = 0;
  track0 = 1;
  disk_inserted = 0;
  disk_changed = 1;
  write_protected = 1;
  step_latch = 1;
  id_data = 0;
  id_count = 0;
  adf = none;
  adf_size = 0;
  read_offset = 0;
}

unfoldable pub floppy_insert : FloppyDrive → Option (ℕ → ℕ) → ℕ → FloppyDrive
floppy_insert d image size = record d {
  connected = 1;
  adf = image;
  adf_size = size;
  disk_inserted = from_bool (is_set image && ltb 0 size);
  disk_changed = 1;
  write_protected = 1;
  read_offset = 0;
}

unfoldable pub floppy_reset : FloppyDrive → FloppyDrive
floppy_reset d =
    let fresh = record floppy_init { connected = d.connected } in
    if is_set (d.adf) && not (d.adf_size == 0)
    then floppy_insert fresh (d.adf) (d.adf_size)
    else fresh

unfoldable pub floppy_set_connected : FloppyDrive → ℕ → FloppyDrive
floppy_set_connected d connected =
    if truth connected
    then (record d { connected = 1 })
    else (record d { connected = 0; motor = 0; ready = 0 })

unfoldable pub floppy_eject : FloppyDrive → FloppyDrive
floppy_eject d = record d {
  adf = none;
  adf_size = 0;
  disk_inserted = 0;
  disk_changed = 1;
  write_protected = 0;
  ready = 0;
  motor = 0;
  read_offset = 0;
}

unfoldable pub floppy_has_media : FloppyDrive → Bool
floppy_has_media d =
    truth (d.connected) && truth (d.disk_inserted) && is_set (d.adf) && ltb 0 (d.adf_size)

-- The motor in `floppy_step`.
unfoldable pub step_motor : FloppyDrive → FloppySignals → FloppyDrive
step_motor d sig =
    if truth (sig.motor)
    then (if truth (d.motor) then d else (record d {
      motor = 1;
      ready = from_bool (floppy_has_media d);
      id_count = 0xffffffff;
    }))
    else if truth (d.motor)
    then (record d { motor = 0; ready = 0 })
    else d

-- The head in `floppy_step`.
unfoldable pub step_head : FloppyDrive → FloppySignals → FloppyDrive
step_head d sig =
    let out = if ltb 0 (d.cylinder) then d.cylinder - 1 else d.cylinder in
    let into = if ltb (d.cylinder) (floppy_adf_cylinders - 1) then d.cylinder + 1 else d.cylinder in
    if truth (sig.step) && truth (d.step_latch)
    then (record d {
      step_latch = 0;
      cylinder = if truth (sig.direction) then out else into;
      disk_changed = from_bool (not (floppy_has_media d));
    })
    else d

unfoldable pub floppy_step : FloppyDrive → FloppySignals → FloppyDrive
floppy_step d sig =
    let spun = step_motor (record d { selected = 1 }) sig in
    let sided = record spun { side = from_bool (truth (sig.side)) } in
    let moved = step_head sided sig in
    let id_count =
      if truth (d.selected) && d.motor == 0 then u32 (d.id_count + 1) else d.id_count in
    if not (truth (d.connected))
    then (record d { selected = 0; motor = 0; ready = 0 })
    else if not (truth (sig.selected))
    then (record d { id_count = id_count; selected = 0 })
    else (record moved {
      step_latch = if truth (sig.step) then moved.step_latch else 1;
      track0 = from_bool (moved.cylinder == 0);
    })

-- The bytes of an image from an offset on, the buffer that the loop fills.
unfoldable pub copied : Option (ℕ → ℕ) → ℕ → ℕ → List ℕ
copied none offset n = []
copied (some image) offset zero = []
copied (some image) offset (suc n) = image offset ∷ copied (some image) (offset + 1) n

-- `floppy_read_linear` with a buffer: the drive after it, the number returned and the bytes stored.
unfoldable pub floppy_read_linear : FloppyDrive → Bool → ℕ → FloppyDrive × ℕ × List ℕ
floppy_read_linear d has_buffer bytes =
    let available = d.adf_size - d.read_offset in
    let to_copy = if ltb bytes available then bytes else available in
    if not (floppy_has_media d)
    then (d, 0, [])
    else if not has_buffer || bytes == 0
    then (d, 0, [])
    else if leb (d.adf_size) (d.read_offset)
    then (d, 0, [])
    else (
      (record d { read_offset = u32 (d.read_offset + to_copy); disk_changed = 0 }),
      to_copy,
      copied (d.adf) (d.read_offset) to_copy,
    )

unfoldable pub floppy_get_ready : FloppyDrive → ℕ
floppy_get_ready d = if truth (d.connected) then d.ready else 0

unfoldable pub floppy_get_track0 : FloppyDrive → ℕ
floppy_get_track0 d = if truth (d.connected) then d.track0 else 0

unfoldable pub floppy_get_dskchg : FloppyDrive → ℕ
floppy_get_dskchg d = if truth (d.connected) then (if truth (d.disk_changed) then 0 else 1) else 1

unfoldable pub floppy_get_wpro : FloppyDrive → ℕ
floppy_get_wpro d =
    if not (truth (d.connected))
    then 1
    else if not (floppy_has_media d)
    then 1
    else if truth (d.write_protected)
    then 0
    else 1

unfoldable pub floppy_get_idbit : FloppyDrive → ℕ
floppy_get_idbit d =
    if truth (d.connected) then bit_and (d.id_data >>> (31 - bit_and (d.id_count) 31)) 1 else 0
