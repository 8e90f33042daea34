-- ===== src/Wal/Bytes.antt =====
-- Little-endian numbers, as Rust's `to_le_bytes` and `from_le_bytes` write and read them, and the
-- checksum of the crate crc32c.
use trust_ledger.Common.{
  ℕ, zero, suc, ◌+◌, ◌*◌, ◌/◌, ◌%◌, ◌<◌, ◌≡◌, List, [], ◌∷◌, ◌++◌, arith, length, refl, ap,
}

-- Bytes are numbers.
abbrev pub Bytes : Type 0
Bytes = List ℕ

unfoldable pub to_le_bytes : ℕ → ℕ → Bytes
to_le_bytes zero n = []
to_le_bytes (suc width) n = (n % 256) ∷ to_le_bytes width (n / 256)

unfoldable pub from_le_bytes : Bytes → ℕ
from_le_bytes [] = 0
from_le_bytes (b ∷ bytes) = b + 256 * from_le_bytes bytes

-- The number of values of a width.
abbrev pub values : ℕ → ℕ
values zero = 1
values (suc width) = 256 * values width

abbrev pub u32_mod : ℕ
u32_mod = 4294967296

abbrev pub u64_mod : ℕ
u64_mod = 18446744073709551616

pub from_le_bytes-to_le_bytes :
    (width n : ℕ) → n < values width → from_le_bytes (to_le_bytes width n) ≡ n
unfolding from_le_bytes to_le_bytes
from_le_bytes-to_le_bytes zero n h = omega arith
from_le_bytes-to_le_bytes (suc width) n h =
    omega (arith, from_le_bytes-to_le_bytes width (n / 256) (omega arith))

pub length-to_le_bytes : (width n : ℕ) → length (to_le_bytes width n) ≡ width
unfolding to_le_bytes
length-to_le_bytes zero n = refl
length-to_le_bytes (suc width) n = ap suc (length-to_le_bytes width (n / 256))

-- The checksum: what is appended later is covered as if it had been there from the start.
pub record Checksum : Type 0 where
  pub crc32c : Bytes → ℕ
  pub crc32c_append : ℕ → Bytes → ℕ
  pub appends : (a b : Bytes) → crc32c_append (crc32c a) b ≡ crc32c (a ++ b)
  pub bounded : (a : Bytes) → crc32c a < u32_mod
