-- ===== src/Block.antt =====
-- src/block.rs: the 84-byte block header, written and read, and the payload's encoding.
pub mod Payload
pub mod Laws
pub mod Accepted
use cy.Common.{
  ℕ, ◌+◌, ◌*◌, ◌%◌, ◌^◌, ◌<◌, ◌≤◌, ◌≡◌, bit_and, Bool, not, List, [], ◌∷◌, ◌++◌, Option, none, some,
  Text, Result, ok, err, ◌>>=◌, ◌>>◌, ok_or, ◌==◌, leb, if◌then◌else◌, length, take,
}
use cy.Bytes.{Bytes, IsBytes, to_le_bytes, from_le_bytes, slice}
use cy.Bytes.Layout.{concat}
use cy.Errors.{
  IoError, invalid_data, crc_mismatch, bad_magic, bad_header_version, bad_header_size,
  unknown_block_type,
}
use cy.Libs.{Libs}
use cy.Io.{require, read_exact}
use cy.Codec.{CodecId, from_uuid, uuid_to_string}

abbrev pub block_magic : ℕ
block_magic = 0x424c434b

abbrev pub block_header_version : ℕ
block_header_version = 1

abbrev pub block_header_size : ℕ
block_header_size = 84

abbrev pub file_id_shared : ℕ
file_id_shared = 0xffff_ffff

-- `Data`, `Index` and `Solid`
pub data BlockType : Type 0 where
  data_block index_block solid_block : BlockType

-- `block_type as u16`
unfoldable pub to_u16 : BlockType → ℕ
to_u16 data_block = 0
to_u16 index_block = 1
to_u16 solid_block = 2

unfoldable pub from_u16 : ℕ → Option BlockType
from_u16 v =
    if v == 0
    then some data_block
    else if v == 1
    then some index_block
    else if v == 2
    then some solid_block
    else none

abbrev pub flag_encrypted : ℕ
flag_encrypted = 0x0001

pub record BlockHeader : Type 0 where
  pub header_version : ℕ
  pub block_type : BlockType
  pub flags : ℕ
  pub codec_uuid : Bytes
  pub file_id : ℕ
  pub file_offset : ℕ
  pub orig_size : ℕ
  pub comp_size : ℕ
  pub content_hash : Bytes

-- The ranges of the field types `u16`, `[u8; 16]`, `u32`, `u64` and `[u8; 32]`.
pub record IsHeader (h : BlockHeader) : Type 0 where
  pub flags_u16 : h.flags < 2 ^ 16
  pub uuid_width : length h.codec_uuid ≡ 16
  pub uuid_bytes : IsBytes h.codec_uuid
  pub file_id_u32 : h.file_id < 2 ^ 32
  pub file_offset_u64 : h.file_offset < 2 ^ 64
  pub orig_size_u32 : h.orig_size < 2 ^ 32
  pub comp_size_u32 : h.comp_size < 2 ^ 32
  pub hash_width : length h.content_hash ≡ 32
  pub hash_bytes : IsBytes h.content_hash

-- The fields that `put_u32le!`, `put_u16le!`, `put_u64le!` and `put_bytes!` put, in order.
unfoldable pub body_fields : BlockHeader → List Bytes
body_fields h =
    to_le_bytes 4 block_magic
    ∷ to_le_bytes 2 block_header_version
    ∷ to_le_bytes 2 block_header_size
    ∷ to_le_bytes 2 (to_u16 h.block_type)
    ∷ to_le_bytes 2 h.flags
    ∷ h.codec_uuid
    ∷ to_le_bytes 4 h.file_id
    ∷ to_le_bytes 8 h.file_offset
    ∷ to_le_bytes 4 h.orig_size
    ∷ to_le_bytes 4 h.comp_size
    ∷ h.content_hash
    ∷ []

-- The checks of `BlockHeader::read` in the order of the code, on the values read from the buffer.
unfoldable pub validate : ℕ → ℕ → ℕ → ℕ → ℕ → ℕ → Result IoError BlockType
unfolding from_u16
validate expected_crc stored_crc magic version header_size block_type_raw = do
  require (stored_crc == expected_crc) (invalid_data (crc_mismatch expected_crc stored_crc))
  require (magic == block_magic) (invalid_data (bad_magic magic))
  require (version == block_header_version) (invalid_data (bad_header_version version))
  require (leb block_header_size header_size) (invalid_data (bad_header_size header_size))
  ok_or (invalid_data (unknown_block_type block_type_raw)) (from_u16 block_type_raw)

module _ (L : Libs) where
  -- `BlockHeader::write`: what is given to `write_all`.
  unfoldable pub write : BlockHeader → Bytes
  write h = concat (body_fields h) ++ to_le_bytes 4 (L.crc32 (concat (body_fields h)))

  -- `BlockHeader::read` behind its `read_exact`.
  unfoldable pub parse : Bytes → Result IoError BlockHeader
  parse buf = do
    block_type ←
        validate (L.crc32 (take 80 buf)) (from_le_bytes (slice 80 84 buf))
          (from_le_bytes (slice 0 4 buf)) (from_le_bytes (slice 4 6 buf))
          (from_le_bytes (slice 6 8 buf)) (from_le_bytes (slice 8 10 buf))
    ok (record {
      header_version = from_le_bytes (slice 4 6 buf);
      block_type = block_type;
      flags = from_le_bytes (slice 10 12 buf);
      codec_uuid = slice 12 28 buf;
      file_id = from_le_bytes (slice 28 32 buf);
      file_offset = from_le_bytes (slice 32 40 buf);
      orig_size = from_le_bytes (slice 40 44 buf);
      comp_size = from_le_bytes (slice 44 48 buf);
      content_hash = slice 48 80 buf;
    })

  -- `BlockHeader::read`: the header, and what is left to read.
  unfoldable pub read : Bytes → Result IoError (BlockHeader × Bytes)
  read r = do (buf, rest) ← read_exact block_header_size r; header ← parse buf; ok (header, rest)

unfoldable pub is_encrypted : BlockHeader → Bool
is_encrypted h = not (bit_and h.flags flag_encrypted == 0)

unfoldable pub codec_id : BlockHeader → Option CodecId
codec_id h = from_uuid h.codec_uuid

unfoldable pub codec_uuid_str : BlockHeader → Text
codec_uuid_str h = uuid_to_string h.codec_uuid
