-- ===== src/Version/Byte.antt =====
-- The one-byte form of a version.
use orv.Base.{ℕ, ◌+◌, ◌*◌, ◌%◌, ◌<◌, ◌≡◌, arith, and_low_nibble, or_field}
use orv.Version.{Version, byte, from_byte}

-- Both fields are values of a `uint8`.
pub record IsBytes (v : Version) : Type 0 where
  pub major_byte : v.major < 256
  pub minor_byte : v.minor < 256

-- Both fields fit into a nibble.
pub record IsNibbles (v : Version) : Type 0 where
  pub major_nibble : v.major < 16
  pub minor_nibble : v.minor < 16

-- What lies beyond the low nibble of each field is dropped.
pub byte_nibbles : (v : Version) → IsBytes v → byte v ≡ v.major % 16 * 16 + v.minor % 16
unfolding byte
byte_nibbles v h = ground (arith, and_low_nibble v.minor, or_field 4 (v.major % 16) (v.minor % 16))

pub byte-lt : (v : Version) → IsBytes v → byte v < 256
byte-lt v h = omega (arith, byte_nibbles v h)

pub from_byte-byte : (v : Version) → IsNibbles v → from_byte (byte v) ≡ v
unfolding from_byte
from_byte-byte v h = ground (
  arith,
  byte_nibbles v (record { major_byte = omega arith; minor_byte = omega arith }),
  and_low_nibble (byte v),
)

pub from_byte-IsNibbles : (b : ℕ) → b < 256 → IsNibbles (from_byte b)
unfolding from_byte
from_byte-IsNibbles b h = ground (arith, and_low_nibble b)

pub byte-from_byte : (b : ℕ) → b < 256 → byte (from_byte b) ≡ b
unfolding from_byte
byte-from_byte b h = ground (
  arith,
  and_low_nibble b,
  byte_nibbles (from_byte b)
      (record { major_byte = ground arith; minor_byte = ground (arith, and_low_nibble b) }),
)
