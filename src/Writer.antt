-- ===== src/Writer.antt =====
-- `SixCyWriter` of src/io_stream/mod.rs. A method returns its result beside the new state, which it
-- leaves on an error too. Nonces and times are drawn from `Host`: `drawn` counts the former.
pub mod Files
pub mod Finish
pub mod Blocks
pub mod Encoded
pub mod Chunks
pub mod Stored
pub mod Adding
pub mod Archive
pub mod Packing
pub mod Finalized
pub mod Opening
pub mod Session
pub mod Slices
pub mod Solid
pub mod Batches
pub mod Packed
pub mod Idle
pub mod RoundTrip
pub mod Success
pub mod Labels
pub mod Named
use cy.Common.{
  ℕ, zero, suc, ◌+◌, ◌*◌, ◌%◌, ◌^◌, ◌≡◌, max, bit_or, ℤ, pos, Bool, true, false, Option, none, some,
  List, [], ◌∷◌, ◌++◌, Text, Result, ok, err, ◌==◌, leb, if◌then◌else◌, length, take, drop,
  replicate,
}
use cy.Bytes.{Bytes, to_le_bytes, bytes_eq}
use cy.Errors.{IoError, other_codec, other_json, panicked}
use cy.Libs.{Libs}
use cy.Io.{File, write_all, seek_start}
use cy.Codec.{CodecId}
use cy.Block
use cy.Block.{BlockHeader, BlockType, data_block, index_block, solid_block, file_id_shared}
use cy.Block.Payload.{encode_block}
use cy.Superblock
use cy.Superblock.{Superblock, superblock_size, sb_flag_encrypted, add_required_codec}
use cy.Index.{
  BlockRef, FileIndexRecord, FileIndex, compute_root_hash, RecoveryCheckpoint, RecoveryMap, Json,
}

abbrev pub default_chunk_size : ℕ
default_chunk_size = 4 * 1024 * 1024

abbrev pub default_compression_level : ℤ
default_compression_level = pos 3

-- What the process draws from outside: the n-th nonce, and the time of the n-th checkpoint.
pub record Host : Type 0 where
  pub nonce : ℕ → Bytes
  pub now : ℕ → ℤ

-- An entry of `solid_file_ranges`.
pub record SolidRange : Type 0 where
  pub file_id : ℕ
  pub intra_offset : ℕ
  pub intra_length : ℕ
  pub content_hash : Bytes

-- An entry of `block_dedup`.
pub record Known : Type 0 where
  pub hash : Bytes
  pub archive_offset : ℕ
  pub comp_len : ℕ

pub record SixCyWriter : Type 0 where
  pub writer : File
  pub superblock : Superblock
  pub index : FileIndex
  pub recovery_map : RecoveryMap
  pub solid_buffer : Bytes
  pub solid_codec : Option CodecId
  pub solid_file_ranges : List SolidRange
  pub block_dedup : List Known
  pub chunk_size : ℕ
  pub compression_level : ℤ
  pub encryption_key : Option Bytes
  pub drawn : ℕ

-- `with_options`, over a file that may hold bytes already, with the random archive UUID.
unfoldable pub with_options : File → Bytes → ℕ → ℤ → Option Bytes → SixCyWriter
with_options file archive_uuid chunk_size level key = record {
  writer = write_all (replicate superblock_size 0) (seek_start 0 file);
  superblock = Superblock.new archive_uuid;
  index = record { records = []; root_hash = replicate 32 0 };
  recovery_map = record { checkpoints = [] };
  solid_buffer = [];
  solid_codec = none;
  solid_file_ranges = [];
  block_dedup = [];
  chunk_size = max chunk_size 1;
  compression_level = level;
  encryption_key = key;
  drawn = 0;
}

-- `records.iter_mut().find(|r| r.id == file_id)`, and what is done to the record found.
unfoldable pub update_first :
    ℕ → (FileIndexRecord → FileIndexRecord) → List FileIndexRecord → List FileIndexRecord
update_first id change [] = []
update_first id change (r ∷ rs) =
    if r.id == id then change r ∷ rs else r ∷ update_first id change rs

-- The reference for a range, pushed to the file's record.
unfoldable pub attach_range : ℕ → ℕ → SolidRange → FileIndexRecord → FileIndexRecord
attach_range archive_offset payload_len s r = record r {
  block_refs =
      r.block_refs
      ++ record {
        content_hash = s.content_hash;
        archive_offset = archive_offset;
        intra_offset = s.intra_offset;
        intra_length = s.intra_length;
      }
        ∷ [];
  compressed_size = payload_len;
}

-- The loop over `solid_file_ranges.drain(..)`.
unfoldable pub attach_ranges : ℕ → ℕ → List SolidRange → List FileIndexRecord → List FileIndexRecord
attach_ranges archive_offset payload_len [] records = records
attach_ranges archive_offset payload_len (s ∷ ss) records =
    attach_ranges archive_offset payload_len ss
      (update_first s.file_id (attach_range archive_offset payload_len s) records)

-- A block header and its payload, written one behind the other.
unfoldable pub write_block : Libs → BlockHeader → Bytes → File → File
write_block L header payload file = write_all payload (write_all (Block.write L header) file)

-- `?` on the result of a method: `next` runs on the state that a success left.
abbrev pub then_on :
    {A : Type 0}
    → Result IoError A × SixCyWriter
    → (A → SixCyWriter → Result IoError (Unit {0}) × SixCyWriter)
    → Result IoError (Unit {0}) × SixCyWriter
then_on (ok a, w) next = next a w
then_on (err e, w) next = (err e, w)

module _ (L : Libs) (H : Host) where
  -- The part of `flush_solid_session` behind the successful `encode_block`.
  unfoldable pub store_solid : BlockHeader → Bytes → SixCyWriter → SixCyWriter
  store_solid header payload w = record w {
    writer = write_block L header payload w.writer;
    index = record w.index {
      records = attach_ranges w.writer.pos (length payload) w.solid_file_ranges w.index.records;
    };
    solid_file_ranges = [];
    solid_buffer = [];
    drawn = w.drawn + 1;
  }

  -- The part behind the test for an empty buffer.
  unfoldable pub compress_solid : CodecId → SixCyWriter → Result IoError (Unit {0}) × SixCyWriter
  unfolding store_solid
  compress_solid codec w =
      elim (encode_block L solid_block file_id_shared 0 w.solid_buffer codec w.compression_level
        w.encryption_key (H.nonce w.drawn)) [
          | ok (header, payload) ↦ (ok tt, store_solid header payload w)
          | err e ↦ (err (other_codec e), record w { drawn = w.drawn + 1 })
        ]

  unfoldable pub flush_codec :
      Option CodecId → SixCyWriter → Result IoError (Unit {0}) × SixCyWriter
  unfolding compress_solid
  flush_codec none w = (ok tt, w)
  flush_codec (some codec) w =
      let taken = record w { solid_codec = none } in
      if leb (length w.solid_buffer) 0
      then (ok tt, record taken { solid_file_ranges = [] })
      else compress_solid codec
          (record taken { superblock = add_required_codec codec w.superblock })

  unfoldable pub flush_solid_session : SixCyWriter → Result IoError (Unit {0}) × SixCyWriter
  unfolding flush_codec
  flush_solid_session w = flush_codec w.solid_codec w

  unfoldable pub start_solid_session :
      CodecId → SixCyWriter → Result IoError (Unit {0}) × SixCyWriter
  start_solid_session codec w =
      then_on (flush_solid_session w) (λ _ w'. (ok tt, record w' { solid_codec = some codec }))
