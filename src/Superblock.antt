-- ===== src/Superblock.antt =====
-- src/superblock.rs: the 256-byte anchor at offset 0, written, read and checked, and the list of the
-- codecs that an archive requires.
pub mod Parts
pub mod Laws
pub mod Required
use cy.Common.{
  ℕ, zero, suc, ◌+◌, ◌-◌, ◌*◌, ◌^◌, ◌<◌, ◌≤◌, ◌≡◌, Bool, true, false, ◌||◌, Option, none, some,
  List, [], ◌∷◌, ◌++◌, Result, ok, err, map_err, ◌>>=◌, ◌>>◌, ◌==◌, leb, if◌then◌else◌, length,
  take, replicate, All,
}
use cy.Bytes.{Bytes, IsBytes, to_le_bytes, from_le_bytes, slice, bytes_eq}
use cy.Bytes.Layout.{concat}
use cy.Errors.{
  SuperblockError, invalid_magic, unsupported_version, crc32_mismatch, codec_missing, io,
  invalid_data, codec_count_overflow,
}
use cy.Libs.{Libs}
use cy.Io.{require, read_exact}
use cy.Codec.{CodecId, uuid, from_uuid, codec_eq, uuid_to_string}

-- ".6cy"
abbrev pub magic_bytes : Bytes
magic_bytes = b'.' ∷ b'6' ∷ b'c' ∷ b'y' ∷ []

abbrev pub format_version_3 : ℕ
format_version_3 = 3

abbrev pub min_format_version : ℕ
min_format_version = 3

abbrev pub superblock_size : ℕ
superblock_size = 256

abbrev pub sb_flag_encrypted : ℕ
sb_flag_encrypted = 0x0001

pub record Superblock : Type 0 where
  pub magic : Bytes
  pub format_version : ℕ
  pub archive_uuid : Bytes
  pub flags : ℕ
  pub index_offset : ℕ
  pub index_size : ℕ
  pub required_codec_uuids : List Bytes

-- `Superblock::new`; the random UUID is an argument.
unfoldable pub new : Bytes → Superblock
new archive_uuid = record {
  magic = magic_bytes;
  format_version = format_version_3;
  archive_uuid = archive_uuid;
  flags = 0;
  index_offset = 0;
  index_size = 0;
  required_codec_uuids = [];
}

-- What `extend_from_slice` appends to the body, up to the checksum.
unfoldable pub covered_fields : Superblock → List Bytes
covered_fields sb =
    sb.magic
    ∷ to_le_bytes 4 sb.format_version
    ∷ sb.archive_uuid
    ∷ to_le_bytes 4 sb.flags
    ∷ to_le_bytes 8 sb.index_offset
    ∷ to_le_bytes 8 sb.index_size
    ∷ to_le_bytes 2 (length sb.required_codec_uuids)
    ∷ sb.required_codec_uuids

-- The `assert!` on the size, and `body.resize(SUPERBLOCK_SIZE, 0)`; `none` is the panic.
unfoldable pub pad : Bytes → Option Bytes
pad body =
    if leb (length body) superblock_size
    then some (body ++ replicate (superblock_size - length body) 0)
    else none

-- `for i in 0..codec_count`, with `n` rounds left
unfoldable pub codec_uuids : ℕ → ℕ → Bytes → List Bytes
codec_uuids zero i buf = []
codec_uuids (suc n) i buf = slice (46 + i * 16) (46 + i * 16 + 16) buf ∷ codec_uuids n (i + 1) buf

-- `Superblock::check_codecs`: the first UUID of no codec is the error.
unfoldable pub check_codecs : List Bytes → Result SuperblockError (Unit {0})
check_codecs [] = ok tt
check_codecs (u ∷ us) = elim (from_uuid u) [
  | none ↦ err (codec_missing (uuid_to_string u))
  | some c ↦ check_codecs us
]

module _ (L : Libs) where
  -- `Superblock::write`: what is given to `write_all`, or a panic.
  unfoldable pub write : Superblock → Option Bytes
  write sb =
      let covered = concat (covered_fields sb) in pad (covered ++ to_le_bytes 4 (L.crc32 covered))

  -- `Superblock::read` behind its `read_exact`.
  unfoldable pub parse : Bytes → Result SuperblockError Superblock
  parse buf = do
    require (bytes_eq (slice 0 4 buf) magic_bytes) invalid_magic
    let format_version = from_le_bytes (slice 4 8 buf)
    require (leb min_format_version format_version) (unsupported_version format_version)
    let codec_count = from_le_bytes (slice 44 46 buf)
    let uuid_end = 46 + codec_count * 16
    require (leb (uuid_end + 4) superblock_size) (io (invalid_data codec_count_overflow))
    let required = codec_uuids codec_count 0 buf
    let stored_crc = from_le_bytes (slice uuid_end (uuid_end + 4) buf)
    require (L.crc32 (take uuid_end buf) == stored_crc) crc32_mismatch
    check_codecs required
    ok (record {
      magic = magic_bytes;
      format_version = format_version;
      archive_uuid = slice 8 24 buf;
      flags = from_le_bytes (slice 24 28 buf);
      index_offset = from_le_bytes (slice 28 36 buf);
      index_size = from_le_bytes (slice 36 44 buf);
      required_codec_uuids = required;
    })

  -- `Superblock::read`: the superblock, and what is left to read.
  unfoldable pub read : Bytes → Result SuperblockError (Superblock × Bytes)
  read r = do (buf, rest) ← map_err io (read_exact superblock_size r); sb ← parse buf; ok (sb, rest)

-- `iter().any(|u| u == &uuid)`
unfoldable pub contains : List Bytes → Bytes → Bool
contains [] u = false
contains (v ∷ vs) u = bytes_eq v u || contains vs u

unfoldable pub add_required_codec : CodecId → Superblock → Superblock
add_required_codec c sb =
    if codec_eq c CodecId.none
    then sb
    else if contains sb.required_codec_uuids (uuid c)
    then sb
    else record sb { required_codec_uuids = sb.required_codec_uuids ++ uuid c ∷ [] }

-- The widths of the fields that are arrays.
pub record HasWidths (sb : Superblock) : Type 0 where
  pub magic_width : length sb.magic ≡ 4
  pub archive_width : length sb.archive_uuid ≡ 16
  pub codecs_width : All (λ u. length u ≡ 16) sb.required_codec_uuids

-- The ranges of the field types, and what the constant fields of a superblock of this build hold.
pub record IsSuperblock (sb : Superblock) : Type 0 where
  pub magic_const : sb.magic ≡ magic_bytes
  pub version_u32 : sb.format_version < 2 ^ 32
  pub version_min : 3 ≤ sb.format_version
  pub uuid_width : length sb.archive_uuid ≡ 16
  pub flags_u32 : sb.flags < 2 ^ 32
  pub index_offset_u64 : sb.index_offset < 2 ^ 64
  pub index_size_u64 : sb.index_size < 2 ^ 64
  pub codec_widths : All (λ u. length u ≡ 16) sb.required_codec_uuids
