-- ===== src/Blitter.antt =====
-- The blitter of Agnus: its state (blitter_types.h and blitter.h of src/chipset/agnus/blitter). An
-- `int16_t` is its bit pattern, below 2 ^ 16, and no pointer to a state is NULL. The memory and the
-- interrupt sink are the caller's: functions on a world W, absent where the code finds NULL.
pub mod Logic
pub mod Minterm
pub mod Fill
pub mod Line
pub mod Reference
pub mod Copy
pub mod Timing
pub mod Registers
pub mod Slots
pub mod Outcome
pub mod Contract
mod Tests
pub mod Refinement
use rigel.Prelude.{ℕ, ◌+◌, ◌-◌, ◌^◌, bit_and, Bool, Option, none, some, ltb, u32, if◌then◌else◌}

pub data BlitterMode : Type 0 where
  copy : BlitterMode
  line : BlitterMode

pub data BlitterFillMode : Type 0 where
  fill_none : BlitterFillMode
  inclusive : BlitterFillMode
  exclusive : BlitterFillMode

pub data BlitterExecState : Type 0 where
  idle : BlitterExecState
  pending : BlitterExecState
  running : BlitterExecState

pub record BlitterLineState : Type 0 where
  pub error : ℕ
  pub pattern : ℕ
  pub cpt : ℕ
  pub step_index : ℕ
  pub x_shift : ℕ
  pub one_dot_count : ℕ
  pub last_cdat : ℕ
  pub last_ddat : ℕ
  pub zero_flag : Bool
  pub sign : Bool
  pub initialized : Bool
  pub pixel_slot_phase : ℕ

pub record BlitterRegs : Type 0 where
  pub bltcon0 : ℕ
  pub bltcon1 : ℕ
  pub bltapt : ℕ
  pub bltbpt : ℕ
  pub bltcpt : ℕ
  pub bltdpt : ℕ
  pub bltamod : ℕ
  pub bltbmod : ℕ
  pub bltcmod : ℕ
  pub bltdmod : ℕ
  pub bltadat : ℕ
  pub bltbdat : ℕ
  pub bltcdat : ℕ
  pub bltddat : ℕ
  pub bltbhold : ℕ
  pub bltafwm : ℕ
  pub bltalwm : ℕ
  pub bltsize : ℕ
  pub bltsizh : ℕ
  pub bltsizv : ℕ

pub record BlitCommand : Type 0 where
  pub apt : ℕ
  pub bpt : ℕ
  pub cpt : ℕ
  pub dpt : ℕ
  pub amod : ℕ
  pub bmod : ℕ
  pub cmod : ℕ
  pub dmod : ℕ
  pub adat : ℕ
  pub bdat : ℕ
  pub cdat : ℕ
  pub bhold : ℕ
  pub afwm : ℕ
  pub alwm : ℕ
  pub width_words : ℕ
  pub height_lines : ℕ
  pub minterm : ℕ
  pub ashift : ℕ
  pub bshift : ℕ
  pub use_a : Bool
  pub use_b : Bool
  pub use_c : Bool
  pub use_d : Bool
  pub descending : Bool
  pub fill_carry_in : Bool
  pub line_octant : ℕ
  pub line_start_bit : ℕ
  pub line_single_dot : Bool
  pub line_initial_sign : Bool
  pub mode : BlitterMode
  pub fill_mode : BlitterFillMode

pub record BlitterResult : Type 0 where
  pub final_apt : ℕ
  pub final_bpt : ℕ
  pub final_cpt : ℕ
  pub final_dpt : ℕ
  pub final_adat : ℕ
  pub final_bdat : ℕ
  pub final_cdat : ℕ
  pub final_ddat : ℕ
  pub final_bhold : ℕ
  pub zero_flag : Bool

pub record BlitterState : Type 0 where
  pub regs : BlitterRegs
  pub cmd : BlitCommand
  pub result : BlitterResult
  pub exec_state : BlitterExecState
  pub command_valid : Bool
  pub busy : Bool
  pub cycles_remaining : ℕ
  pub dma_slots_consumed : ℕ
  pub cycle_exact : Bool
  pub line_state : BlitterLineState

-- `rigel_chip_ram_if_t`, whose reads leave the memory as it is.
pub record BlitterMemory {ℓ} (W : Type ℓ) : Type ℓ where
  pub read16 : Option (W → ℕ → ℕ)
  pub write16 : Option (W → ℕ → ℕ → W)

pub record BlitterIrqSink {ℓ} (W : Type ℓ) : Type ℓ where
  pub raise : Option (W → ℕ → W)

-- `addr & BLITTER_CHIP_ADDR_MASK`
abbrev pub chip_addr : ℕ → ℕ
chip_addr addr = bit_and addr 0x001ffffe

-- `(int32_t)` and `(uint32_t)` of an `int16_t`.
abbrev pub sign_extend : ℕ → ℕ
sign_extend n = if ltb n (2 ^ 15) then n else n + (2 ^ 32 - 2 ^ 16)

abbrev pub add32 : ℕ → ℕ → ℕ
add32 a b = u32 (a + b)

abbrev pub sub32 : ℕ → ℕ → ℕ
sub32 a b = u32 (a + (2 ^ 32 - b))

module _ {ℓ} {W : Type ℓ} where
  unfoldable pub chip_read16 : BlitterMemory W → W → ℕ → ℕ
  chip_read16 mem w addr = elim (mem.read16) [ none ↦ 0 | some read ↦ read w (chip_addr addr) ]

  unfoldable pub chip_write16 : BlitterMemory W → W → ℕ → ℕ → W
  chip_write16 mem w addr value = elim (mem.write16) [
    | none ↦ w
    | some write ↦ write w (chip_addr addr) value
  ]
