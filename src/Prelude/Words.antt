-- ===== src/Prelude/Words.antt =====
-- Casts to the fixed widths of C, and the truth of a C integer.
use Prim.Native.Nat.{ℕ, ◌*◌, ◌/◌, ◌%◌, ◌^◌, bit_and, bit_xor}
use mathlib.Core.Bool.{Bool, not}
use rigel.Prelude.Tests.{◌==◌, if◌then◌else◌}

abbrev pub u8 : ℕ → ℕ
u8 n = n % 2 ^ 8

abbrev pub u16 : ℕ → ℕ
u16 n = n % 2 ^ 16

abbrev pub u32 : ℕ → ℕ
u32 n = n % 2 ^ 32

abbrev pub u64 : ℕ → ℕ
u64 n = n % 2 ^ 64

infixl 75 ◌<<<◌ ◌>>>◌
abbrev pub ◌<<<◌ : ℕ → ℕ → ℕ
x <<< k = x * 2 ^ k

abbrev pub ◌>>>◌ : ℕ → ℕ → ℕ
x >>> k = x / 2 ^ k

-- `(uint8_t)~x` and `(uint16_t)~x` of a value that fits.
abbrev pub not8 : ℕ → ℕ
not8 x = bit_xor x 0xff

abbrev pub not16 : ℕ → ℕ
not16 x = bit_xor x 0xffff

-- A C integer where a condition is wanted.
abbrev pub truth : ℕ → Bool
truth n = not (n == 0)

-- `(x & m) != 0`
unfoldable pub any : ℕ → ℕ → Bool
any x m = not (bit_and x m == 0)

-- A condition stored as an integer, `level ? 1u : 0u`.
abbrev pub from_bool : Bool → ℕ
from_bool b = if b then 1 else 0
