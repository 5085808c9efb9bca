-- ===== src/Recovery.antt =====
-- src/recovery/scanner.rs: the walk over the blocks of an archive that may be damaged, and the report
-- that it makes. The hash maps are one list of groups; their order is lost in the final sort, as the
-- ids are distinct. `progress` keeps what the callback is given.
pub mod Walks
pub mod Account
pub mod Verdicts
pub mod Log
pub mod Refs
pub mod Agreement
pub mod Layout
pub mod Extract
pub mod Salvage
pub mod Rebuilt
use cy.Common.{
  ℕ, zero, suc, ◌+◌, ◌-◌, ◌*◌, ◌%◌, ◌^◌, Bool, true, false, not, ◌&&◌, Option, none, some, List, [],
  ◌∷◌, ◌++◌, Text, ok, err, ltb, leb, ◌==◌, if◌then◌else◌, length, drop, replicate, Run, done,
  out_of_fuel,
}
use cy.Bytes.{Bytes, bytes_eq}
use cy.Libs.{Libs}
use cy.Io.{read_exact}
use cy.Codec.{from_uuid, uuid_none}
use cy.Block
use cy.Block.{BlockHeader, BlockType, data_block, index_block, solid_block, block_header_size}
use cy.Superblock.{superblock_size}
use cy.Index.{BlockRef, FileIndexRecord, from_scan, FileIndex, compute_root_hash}
use cy.Reader.Scan.{Group, note_part, sort_parts, insert_record}

-- An `UnknownCodec` carries the UUID in hexadecimal digits.
pub data BlockHealth : Type 0 where
  healthy header_corrupt : BlockHealth
  truncated_payload : ℕ → ℕ → BlockHealth
  unknown_codec : Text → BlockHealth

-- `BlockHealth::is_usable`
unfoldable pub is_healthy : BlockHealth → Bool
is_healthy healthy = true
is_healthy header_corrupt = false
is_healthy (truncated_payload declared available) = false
is_healthy (unknown_codec uuid_hex) = false

pub record ScannedBlock : Type 0 where
  pub archive_offset : ℕ
  pub header : Option BlockHeader
  pub health : BlockHealth

is_some {ℓ} : {A : Type ℓ} → Option A → Bool
is_some none = false
is_some (some a) = true

-- `ScannedBlock::is_usable`
unfoldable pub is_usable : ScannedBlock → Bool
unfolding is_healthy is_some
is_usable sb = is_healthy sb.health && is_some sb.header

pub data RecoveryQuality : Type 0 where
  full partial header_only catastrophic : RecoveryQuality

pub record RecoveryReport : Type 0 where
  pub total_scanned : ℕ
  pub healthy_blocks : ℕ
  pub corrupt_blocks : ℕ
  pub truncated_blocks : ℕ
  pub unknown_codec_blocks : ℕ
  pub bytes_scanned : ℕ
  pub block_log : List ScannedBlock
  pub index : FileIndex
  pub recoverable_bytes : ℕ
  pub quality : RecoveryQuality

-- The variables of `scan`.
pub record Scanned : Type 0 where
  pub chunks : List (Group ScannedBlock)
  pub block_log : List ScannedBlock
  pub total_scanned : ℕ
  pub healthy_blocks : ℕ
  pub corrupt_blocks : ℕ
  pub truncated_blocks : ℕ
  pub unknown_codec_blocks : ℕ
  pub recoverable_bytes : ℕ
  pub bytes_scanned : ℕ
  pub progress : List (ℕ × ℕ)

abbrev pub fresh : Scanned
fresh = record {
  chunks = [];
  block_log = [];
  total_scanned = 0;
  healthy_blocks = 0;
  corrupt_blocks = 0;
  truncated_blocks = 0;
  unknown_codec_blocks = 0;
  recoverable_bytes = 0;
  bytes_scanned = superblock_size;
  progress = [];
}

-- The arm for a header that is not accepted.
unfoldable pub note_corrupt : ℕ → Scanned → Scanned
note_corrupt pos s = record s {
  block_log =
      s.block_log ++ record { archive_offset = pos; header = none; health = header_corrupt } ∷ [];
  total_scanned = s.total_scanned + 1;
  corrupt_blocks = s.corrupt_blocks + 1;
  bytes_scanned = pos + 1 + block_header_size;
}

-- What stands behind a stream position, by the hint or else by the end of the stream.
unfoldable pub remaining_at : ℕ → Bytes → ℕ → ℕ
remaining_at file_size_hint file stream_pos =
    if ltb stream_pos file_size_hint
    then file_size_hint - stream_pos
    else if ltb stream_pos (length file)
    then length file - stream_pos
    else 0

unfoldable pub assess : Libs → BlockHeader → ℕ → BlockHealth
unfolding is_some
assess L header remaining =
    if not (is_some (from_uuid header.codec_uuid)) && not (bytes_eq header.codec_uuid uuid_none)
    then unknown_codec (L.hex_encode header.codec_uuid)
    else if ltb remaining header.comp_size
    then truncated_payload header.comp_size remaining
    else healthy

-- The counters that the assessment raises.
unfoldable pub tally : BlockHealth → BlockHeader → Scanned → Scanned
tally healthy header s = record s {
  healthy_blocks = s.healthy_blocks + 1;
  recoverable_bytes = s.recoverable_bytes + header.orig_size;
}
tally header_corrupt header s = s
tally (truncated_payload declared available) header s = record s {
  truncated_blocks = s.truncated_blocks + 1;
}
tally (unknown_codec uuid_hex) header s = record s {
  unknown_codec_blocks = s.unknown_codec_blocks + 1;
}

unfoldable pub is_data : BlockType → Bool
is_data data_block = true
is_data index_block = false
is_data solid_block = false

-- `if usable`: the entry of `chunks` and the extent in `orig_sizes`.
unfoldable pub note_chunk :
    ScannedBlock → BlockHeader → List (Group ScannedBlock) → List (Group ScannedBlock)
unfolding is_healthy is_data
note_chunk sb header groups =
    if is_healthy sb.health && is_data header.block_type
    then note_part header.file_id ((header.file_offset + header.orig_size) % 2 ^ 64)
        header.file_offset sb groups
    else groups

-- The arm for an accepted header, up to the skip over the payload.
unfoldable pub note_header : ScannedBlock → BlockHeader → Scanned → Scanned
unfolding tally note_chunk
note_header sb header s =
    let counted = tally sb.health header s in
    record counted {
      chunks = note_chunk sb header s.chunks;
      block_log = s.block_log ++ sb ∷ [];
      total_scanned = s.total_scanned + 1;
      bytes_scanned = s.bytes_scanned + block_header_size + header.comp_size;
    }

-- The callback behind a block.
unfoldable pub notify : ℕ → Scanned → Scanned
notify file_size_hint s = record s {
  progress =
      s.progress
      ++ (s.bytes_scanned, if ltb 0 file_size_hint then file_size_hint else s.bytes_scanned * 2)
        ∷ [];
}

module _ (L : Libs) (file_size_hint : ℕ) (file : Bytes) where
  -- The log entry of an accepted header.
  unfoldable pub scanned_at : ℕ → BlockHeader → ScannedBlock
  unfolding assess remaining_at
  scanned_at pos header = record {
    archive_offset = pos;
    header = some header;
    health = assess L header (remaining_at file_size_hint file (pos + block_header_size));
  }

  -- The loop, at a position.
  unfoldable pub scan_loop : ℕ → ℕ → Scanned → Run Scanned
  scan_loop zero pos s = out_of_fuel
  scan_loop (suc fuel) pos s = elim (read_exact block_header_size (drop pos file)) [
    | err e ↦ done s
    | ok (hdr_buf, rest) ↦
        let retry = scan_loop fuel (pos + 1) (notify file_size_hint (note_corrupt pos s)) in
        elim (Block.read L hdr_buf) [
          | err e ↦ retry
          | ok (header, none_left) ↦
              let noted = note_header (scanned_at pos header) header s in
              let more =
                scan_loop fuel (pos + block_header_size + header.comp_size)
                  (notify file_size_hint noted) in
              elim header.block_type [ index_block ↦ done noted | _ ↦ more ]
        ]
  ]

hash_or_zeros : Option BlockHeader → Bytes
hash_or_zeros none = replicate 32 0
hash_or_zeros (some h) = h.content_hash

unfoldable pub ref_of : ScannedBlock → BlockRef
unfolding hash_or_zeros
ref_of sb = record {
  content_hash = hash_or_zeros sb.header;
  archive_offset = sb.archive_offset;
  intra_offset = 0;
  intra_length = 0;
}

unfoldable pub refs_of : List (ℕ × ScannedBlock) → List BlockRef
refs_of [] = []
refs_of (p ∷ ps) = ref_of p.1 ∷ refs_of ps

-- `records`, sorted by the ids.
unfoldable pub recovered_records : List (Group ScannedBlock) → List FileIndexRecord
unfolding refs_of
recovered_records [] = []
recovered_records (g ∷ gs) =
    insert_record (from_scan g.file_id g.size (refs_of (sort_parts g.parts))) (recovered_records gs)

-- The comparisons of the quotient with 0.95 and 0.50 are exact on `f64` for fewer than 2^48 blocks.
unfoldable pub quality_of : Bool → ℕ → ℕ → RecoveryQuality
quality_of no_records healthy_blocks total_scanned =
    if total_scanned == 0
    then catastrophic
    else if no_records
    then header_only
    else if leb (95 * total_scanned) (100 * healthy_blocks)
    then full
    else if leb (50 * total_scanned) (100 * healthy_blocks)
    then partial
    else catastrophic

is_empty : List FileIndexRecord → Bool
is_empty [] = true
is_empty (r ∷ rs) = false

-- What `scan` makes of its variables behind the loop.
unfoldable pub report_of : Libs → Scanned → RecoveryReport
unfolding recovered_records is_empty quality_of
report_of L s =
    let records = recovered_records s.chunks in
    record {
      total_scanned = s.total_scanned;
      healthy_blocks = s.healthy_blocks;
      corrupt_blocks = s.corrupt_blocks;
      truncated_blocks = s.truncated_blocks;
      unknown_codec_blocks = s.unknown_codec_blocks;
      bytes_scanned = s.bytes_scanned;
      block_log = s.block_log;
      index = compute_root_hash L (record { records = records; root_hash = replicate 32 0 });
      recoverable_bytes = s.recoverable_bytes;
      quality = quality_of (is_empty records) s.healthy_blocks s.total_scanned;
    }

-- Each round takes a byte at least, so there are fewer rounds than bytes.
unfoldable pub scan_all : Libs → ℕ → Bytes → Run Scanned
scan_all L file_size_hint file =
    scan_loop L file_size_hint file (suc (length file)) superblock_size fresh

unfoldable pub report : Libs → Run Scanned → Run RecoveryReport
unfolding report_of
report L out_of_fuel = out_of_fuel
report L (done s) = done (report_of L s)

unfoldable pub scan : Libs → ℕ → Bytes → Run RecoveryReport
unfolding scan_all report
scan L file_size_hint file = report L (scan_all L file_size_hint file)

-- `scan_file`, on the bytes that stand at the path.
unfoldable pub scan_file : Libs → Bytes → Run RecoveryReport
unfolding scan
scan_file L file = scan L (length file) file
