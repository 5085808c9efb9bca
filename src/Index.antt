-- ===== src/Index.antt =====
-- src/index/mod.rs and the checkpoints of src/recovery/mod.rs: the file index and its root hash. Reading
-- and writing these as JSON is derived code of serde, and is a parameter.
use cy.Common.{
  ℕ, zero, suc, ◌/◌, ◌%◌, ℤ, Bool, List, [], ◌∷◌, ◌++◌, Text, codes, Result, ok, ltb, ◌≡◌,
}
use cy.Bytes.{Bytes}
use cy.Libs.{Libs}
use cy.Codec.{hex_digit}

pub record BlockRef : Type 0 where
  pub content_hash : Bytes
  pub archive_offset : ℕ
  pub intra_offset : ℕ
  pub intra_length : ℕ

unfoldable pub is_solid_slice : BlockRef → Bool
is_solid_slice br = ltb 0 br.intra_length

-- `metadata` maps texts to texts.
pub record FileIndexRecord : Type 0 where
  pub id : ℕ
  pub parent_id : ℕ
  pub name : Text
  pub block_refs : List BlockRef
  pub original_size : ℕ
  pub compressed_size : ℕ
  pub metadata : List (Text × Text)

-- The lowest `w` hexadecimal digits, highest first.
pub hex_digits : ℕ → ℕ → Text
hex_digits zero v = []
hex_digits (suc w) v = hex_digits w (v / 16) ++ hex_digit (v % 16) ∷ []

-- `FileIndexRecord::from_scan`; `{file_id:08x}` of a `u32` is its eight digits.
unfoldable pub from_scan : ℕ → ℕ → List BlockRef → FileIndexRecord
unfolding hex_digits
from_scan file_id original_size refs = record {
  id = file_id;
  parent_id = 0;
  name = codes "file_" ++ hex_digits 8 file_id;
  block_refs = refs;
  original_size = original_size;
  compressed_size = 0;
  metadata = [];
}

pub record FileIndex : Type 0 where
  pub records : List FileIndexRecord
  pub root_hash : Bytes

hashes_of_refs : List BlockRef → Bytes
hashes_of_refs [] = []
hashes_of_refs (br ∷ brs) = br.content_hash ++ hashes_of_refs brs

hashes_of_records : List FileIndexRecord → Bytes
unfolding hashes_of_refs
hashes_of_records [] = []
hashes_of_records (r ∷ rs) = hashes_of_refs r.block_refs ++ hashes_of_records rs

-- `h.update(..)` for each block in turn, and `h.finalize()`: the hash of what was fed, in order.
unfoldable pub compute_root_hash : Libs → FileIndex → FileIndex
unfolding hashes_of_records
compute_root_hash L index = record index { root_hash = L.blake3 (hashes_of_records index.records) }

pub record RecoveryCheckpoint : Type 0 where
  pub archive_offset : ℕ
  pub last_file_id : ℕ
  pub timestamp : ℤ

pub record RecoveryMap : Type 0 where
  pub checkpoints : List RecoveryCheckpoint

-- `serde_json::to_vec` and `serde_json::from_slice` on the two derived types.
pub record Json : Type 0 where
  pub index_to_vec : FileIndex → Result Text Bytes
  pub index_from_slice : Bytes → Result Text FileIndex
  pub recovery_to_vec : RecoveryMap → Result Text Bytes

-- What is written as JSON is read back.
pub record IsJson (J : Json) : Type 0 where
  pub index_back :
      (i : FileIndex) (b : Bytes) → J.index_to_vec i ≡ ok b → J.index_from_slice b ≡ ok i

-- The index and the recovery map can be written.
pub record IsWritable (J : Json) : Type 0 where
  pub index_total : (i : FileIndex) → (b : Bytes) × (J.index_to_vec i ≡ ok b)
  pub recovery_total : (m : RecoveryMap) → (b : Bytes) × (J.recovery_to_vec m ≡ ok b)
