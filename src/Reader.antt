-- ===== src/Reader.antt =====
-- `SixCyReader` of src/io_stream/mod.rs, over the bytes of a file. Every read seeks first, so the
-- position is no state.
pub mod ReadAt
pub mod Stable
pub mod Scan
use cy.Common.{
  ℕ, ◌+◌, ◌-◌, ◌%◌, ◌^◌, Bool, Option, none, some, List, [], ◌∷◌, ◌++◌, Result, ok, err, ◌>>=◌,
  ◌>>◌, map_err, ok_or, ◌==◌, ◌||◌, ltb, leb, if◌then◌else◌, length, take, drop, min,
}
use cy.Bytes.{Bytes, slice}
use cy.Errors.{
  IoError, other_codec, other_superblock, other_json, not_found, invalid_data, solid_range,
  panicked,
}
use cy.Libs.{Libs}
use cy.Io.{require, read_exact}
use cy.Block
use cy.Block.{BlockHeader}
use cy.Block.Payload.{decode_block}
use cy.Superblock
use cy.Superblock.{Superblock}
use cy.Index.{BlockRef, is_solid_slice, FileIndexRecord, FileIndex, Json}

pub record SixCyReader : Type 0 where
  pub reader : Bytes
  pub superblock : Superblock
  pub index : FileIndex
  pub decryption_key : Option Bytes

module _ (L : Libs) where
  -- `read_block_at`
  unfoldable pub read_block_at : Bytes → ℕ → Result IoError (BlockHeader × Bytes)
  read_block_at file offset = do
    (header, after) ← Block.read L (drop offset file)
    (payload, _) ← read_exact header.comp_size after
    ok (header, payload)

  -- `SixCyReader::with_key`: the index is decoded with no key.
  unfoldable pub with_key : Json → Bytes → Option Bytes → Result IoError SixCyReader
  with_key J file key = do
    (sb, _) ← map_err other_superblock (Superblock.read L file)
    (idx_header, idx_payload) ← read_block_at file sb.index_offset
    idx_raw ← map_err other_codec (decode_block L idx_header idx_payload none)
    index ← map_err other_json (J.index_from_slice idx_raw)
    ok (record { reader = file; superblock = sb; index = index; decryption_key = key })

  -- The part of a decompressed block that a reference names. An end above `usize` wraps, below its
  -- start; if the check lets it pass, slicing panics. What is in memory is shorter than that.
  unfoldable pub slice_of : BlockRef → Bytes → Result IoError Bytes
  slice_of br decompressed =
      let start = br.intra_offset in
      let end = start + br.intra_length in
      let wrapped = end % 2 ^ 64 in
      if is_solid_slice br
      then (if leb end (length decompressed)
          then ok (slice start end decompressed)
          else if leb wrapped (length decompressed)
          then err panicked
          else err (invalid_data (solid_range start wrapped (length decompressed))))
      else ok decompressed

  unfoldable pub decompress_ref : Bytes → Option Bytes → BlockRef → Result IoError Bytes
  decompress_ref file key br = do
    (header, payload) ← read_block_at file br.archive_offset
    decompressed ← map_err other_codec (decode_block L header payload key)
    slice_of br decompressed

  -- `for br in &refs { out.extend(self.decompress_ref(br)?) }`
  unfoldable pub read_refs : Bytes → Option Bytes → List BlockRef → Bytes → Result IoError Bytes
  read_refs file key [] out = ok out
  read_refs file key (br ∷ brs) out = do
    block ← decompress_ref file key br
    read_refs file key brs (out ++ block)

-- `records.iter().find(|r| r.id == file_id)`
unfoldable pub find_record : ℕ → List FileIndexRecord → Option FileIndexRecord
find_record id [] = none
find_record id (r ∷ rs) = if r.id == id then some r else find_record id rs

unfoldable pub unpack_file : Libs → SixCyReader → ℕ → Result IoError Bytes
unpack_file L r file_id = do
  rec ← ok_or not_found (find_record file_id r.index.records)
  read_refs L r.reader r.decryption_key rec.block_refs []

-- The loop of `read_at` over the references: the bytes that are copied to the front of a buffer of
-- `size` bytes, given those copied so far.
unfoldable pub read_at_loop :
    Libs → Bytes → Option Bytes → ℕ → ℕ → List BlockRef → ℕ → Bytes → Result IoError Bytes
read_at_loop L file key offset size [] file_pos copied = ok copied
read_at_loop L file key offset size (br ∷ brs) file_pos copied =
    let rest = (do
      block ← decompress_ref L file key br
      let block_end = file_pos + length block
      let read_start = if ltb file_pos offset then offset - file_pos else 0
      let to_copy = min (size - length copied) (length block - read_start)
      read_at_loop L file key offset size brs block_end (
          if leb block_end offset
          then copied
          else copied ++ slice read_start (read_start + to_copy) block)) in
    if length copied == size then ok copied else rest

-- `read_at` into a buffer of `size` bytes: the bytes that are copied, whose number it returns.
unfoldable pub read_at : Libs → SixCyReader → ℕ → ℕ → ℕ → Result IoError Bytes
read_at L r file_id offset size = do
  rec ← ok_or not_found (find_record file_id r.index.records)
  let nothing = leb rec.original_size offset || size == 0
  if nothing
      then ok []
      else read_at_loop L r.reader r.decryption_key offset size rec.block_refs 0 []
