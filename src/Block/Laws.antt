-- ===== src/Block/Laws.antt =====
-- `BlockHeader::read` and `BlockHeader::write` of src/block.rs are inverse to one another.
use cy.Common.{
  ℕ, ◌^◌, ◌<◌, ◌≡◌, refl, sym, ==-refl, ◌≤◌, List, [], ◌∷◌, ◌++◌, some, ok, arith, length, take,
  drop, append_assoc, append-nil, take-append_exact,
}
use cy.Bytes.{Bytes, to_le_bytes, from_le_bytes}
use cy.Bytes.Laws.{length-to_le_bytes, from_le_bytes-to_le_bytes}
use cy.Bytes.Layout.{concat, total, Fits, field_at, width_at, slice-concat, length-concat}
use cy.Libs.{Libs, IsHashes}
use cy.Io.Laws.{read_exact-append}
use cy.Block.{
  BlockHeader, BlockType, data_block, IsHeader, body_fields, to_u16, from_u16, write, validate,
  parse, read, block_header_version, block_magic,
}

from_u16-to_u16 : (t : BlockType) → from_u16 (to_u16 t) ≡ some t
unfolding from_u16 to_u16
from_u16-to_u16 data_block = refl
from_u16-to_u16 _ = refl

to_u16-lt : (t : BlockType) → to_u16 t < 3
unfolding to_u16
to_u16-lt data_block = omega arith
to_u16-lt _ = omega arith

-- The widths of the fields before the checksum.
abbrev pub body_widths : List ℕ
body_widths = 4 ∷ 2 ∷ 2 ∷ 2 ∷ 2 ∷ 16 ∷ 4 ∷ 8 ∷ 4 ∷ 4 ∷ 32 ∷ []

abbrev pub widths : List ℕ
widths = 4 ∷ 2 ∷ 2 ∷ 2 ∷ 2 ∷ 16 ∷ 4 ∷ 8 ∷ 4 ∷ 4 ∷ 32 ∷ 4 ∷ []

pub concat-snoc : (fs : List Bytes) (x : Bytes) → concat (fs ++ x ∷ []) ≡ concat fs ++ x
concat-snoc [] x = append-nil x
concat-snoc (f ∷ fs) x = rw (concat-snoc fs x) (sym (append_assoc f (concat fs) x))

pub validate-eq-ok :
    (expected stored magic version size raw : ℕ) (t : BlockType)
    → validate expected stored magic version size raw ≡ ok t
    → (stored ≡ expected)
      × (magic ≡ block_magic)
      × (version ≡ block_header_version)
      × (84 ≤ size)
      × (raw ≡ to_u16 t)
unfolding validate to_u16
validate-eq-ok expected stored magic version size raw t h = ground arith

module _ (L : Libs) (h : BlockHeader) (valid : IsHeader h) where
  body-Fits : Fits body_widths (body_fields h)
  unfolding body_fields
  body-Fits = omega (arith, length-to_le_bytes, valid.uuid_width, valid.hash_width)

  crc_field : Bytes
  crc_field = to_le_bytes 4 (L.crc32 (concat (body_fields h)))

  all_fields : List Bytes
  all_fields = body_fields h ++ crc_field ∷ []

  all-Fits : Fits widths all_fields
  unfolding body_fields crc_field all_fields
  all-Fits = omega (arith, length-to_le_bytes, valid.uuid_width, valid.hash_width)

  pub length-body : length (concat (body_fields h)) ≡ 80
  length-body = length-concat body_widths (body_fields h) body-Fits

  write-concat : write L h ≡ concat all_fields
  unfolding write all_fields crc_field
  write-concat = sym (concat-snoc (body_fields h) crc_field)

  -- The header is 84 bytes.
  pub length-write : length (write L h) ≡ 84
  length-write = rw write-concat (length-concat widths all_fields all-Fits)

  field-write :
      (k : ℕ)
      → take (width_at k widths) (drop (total (take k widths)) (write L h)) ≡ field_at k all_fields
  field-write k = rw write-concat (slice-concat widths all_fields k all-Fits)

  body-write : take 80 (write L h) ≡ concat (body_fields h)
  unfolding write crc_field
  body-write = take-append_exact (concat (body_fields h)) crc_field 80 length-body

  -- The number that is read back at a field.
  field_back :
      (k w v : ℕ)
      → field_at k all_fields ≡ to_le_bytes w v
      → v < 256 ^ w
      → from_le_bytes (take (width_at k widths) (drop (total (take k widths)) (write L h))) ≡ v
  field_back k w v e lt = rw (field-write k, e) (from_le_bytes-to_le_bytes w v lt)

  module _ (hashes : IsHashes L) where
    -- A header of valid field values, written, is read back with all its fields; the version is the
    -- one that this build writes.
    pub parse-write : parse L (write L h) ≡ ok (record h { header_version = block_header_version })
    unfolding parse validate body_fields all_fields crc_field
    parse-write = rw (
      body-write,
      field_back 11 4 (L.crc32 (concat (body_fields h))) refl (hashes.crc32-lt _),
      field_back 0 4 0x424c434b refl (omega arith),
      field_back 1 2 1 refl (omega arith),
      field_back 2 2 84 refl (omega arith),
      field_back 3 2 (to_u16 h.block_type) refl (omega (arith, to_u16-lt)),
      field_back 4 2 h.flags refl valid.flags_u16,
      field-write 5,
      field_back 6 4 h.file_id refl valid.file_id_u32,
      field_back 7 8 h.file_offset refl valid.file_offset_u64,
      field_back 8 4 h.orig_size refl valid.orig_size_u32,
      field_back 9 4 h.comp_size refl valid.comp_size_u32,
      field-write 10,
      ==-refl (L.crc32 (concat (body_fields h))),
      from_u16-to_u16 h.block_type,
    )

    -- With a checksum of 32 bits: a header whose values are in the ranges of their fields, written
    -- in front of anything, is read back with all its fields, its version being the one that this
    -- build writes, and what stands behind its 84 bytes is left to read.
    pub read-write_header :
        (rest : Bytes)
        → read L (write L h ++ rest) ≡ ok (record h { header_version = block_header_version }, rest)
    unfolding read
    read-write_header rest = rw (read_exact-append 84 (write L h) rest length-write, parse-write)
