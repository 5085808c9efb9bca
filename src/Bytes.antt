-- ===== src/Bytes.antt =====
-- Byte sequences: the little-endian fields and the fixed-size slices by which `src/block.rs` and
-- `src/superblock.rs` lay out and read their headers, and `==` on byte arrays.
-- A `u8` is a number below 256; a `&[u8]`, a `Vec<u8>` and a `[u8; N]` are lists of these.
pub mod Laws
pub mod Layout
use cy.Common.{
  ℕ, zero, suc, ◌+◌, ◌-◌, ◌*◌, ◌/◌, ◌%◌, ◌^◌, ◌<◌, List, [], ◌∷◌, ◌++◌, Bool, true, false, ◌&&◌,
  ◌==◌, take, drop, length, All,
}

abbrev pub IsByte : ℕ → Type 0
IsByte b = b < 256

abbrev pub Bytes : Type 0
Bytes = List ℕ

abbrev pub IsBytes : Bytes → Type 0
IsBytes = All IsByte

-- `v.to_le_bytes()` of a `w`-byte integer; what does not fit the width is dropped, as by `as u32`.
unfoldable pub to_le_bytes : ℕ → ℕ → Bytes
to_le_bytes zero v = []
to_le_bytes (suc w) v = v % 256 ∷ to_le_bytes w (v / 256)

-- `u32::from_le_bytes(..)` and its like
unfoldable pub from_le_bytes : Bytes → ℕ
from_le_bytes [] = 0
from_le_bytes (b ∷ bs) = b + 256 * from_le_bytes bs

-- `buf[i..j]`, for `i ≤ j`
abbrev pub slice : ℕ → ℕ → Bytes → Bytes
slice i j buf = take (j - i) (drop i buf)

-- `==` on byte arrays
unfoldable pub bytes_eq : Bytes → Bytes → Bool
bytes_eq [] [] = true
bytes_eq [] (b ∷ bs) = false
bytes_eq (a ∷ as') [] = false
bytes_eq (a ∷ as') (b ∷ bs) = a == b && bytes_eq as' bs
