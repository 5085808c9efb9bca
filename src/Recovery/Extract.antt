-- ===== src/Recovery/Extract.antt =====
-- `extract_recoverable` of src/recovery/scanner.rs: the healthy DATA blocks of a damaged archive, packed
-- into a new one. The hash map is a list; the ids are distinct, so that sorting its entries by their
-- ids is sorting the ids and looking each up.
use cy.Common.{
  ℕ, ◌+◌, ◌*◌, ◌&&◌, Option, none, some, List, [], ◌∷◌, ◌++◌, codes, Text, Result, ok, err, ◌>>=◌,
  leb, ◌==◌, if◌then◌else◌, length, drop, Run, done, out_of_fuel,
}
use cy.Bytes.{Bytes}
use cy.Errors.{IoError, panicked}
use cy.Libs.{Libs}
use cy.Io.{File, read_exact}
use cy.Codec.{CodecId}
use cy.Block.{BlockHeader, block_header_size}
use cy.Block.Payload.{decode_block}
use cy.Index.{Json, hex_digits}
use cy.Writer.{Host, SixCyWriter, with_options, default_compression_level, then_on}
use cy.Writer.Files.{add_file}
use cy.Writer.Finish.{finalize}
use cy.Recovery.{ScannedBlock, is_usable, is_data, RecoveryReport, scan}

-- An entry of `by_file`.
pub record FileBlocks : Type 0 where
  pub file_id : ℕ
  pub blocks : List ScannedBlock

-- `by_file.entry(fid).or_default().push(sb)`
unfoldable pub note_file : ℕ → ScannedBlock → List FileBlocks → List FileBlocks
note_file fid sb [] = record { file_id = fid; blocks = sb ∷ [] } ∷ []
note_file fid sb (f ∷ fs) =
    if f.file_id == fid
    then record f { blocks = f.blocks ++ sb ∷ [] } ∷ fs
    else f ∷ note_file fid sb fs

-- The arm for a header that is there.
unfoldable pub group_block : ScannedBlock → Option BlockHeader → List FileBlocks → List FileBlocks
unfolding note_file
group_block sb none fs = fs
group_block sb (some h) fs =
    if is_usable sb && is_data h.block_type then note_file h.file_id sb fs else fs

-- The loop over the usable entries of the log.
unfoldable pub group_log : List ScannedBlock → List FileBlocks → List FileBlocks
unfolding group_block
group_log [] fs = fs
group_log (sb ∷ log) fs = group_log log (group_block sb sb.header fs)

unfoldable pub insert_file : FileBlocks → List FileBlocks → List FileBlocks
insert_file f [] = f ∷ []
insert_file f (g ∷ gs) = if leb f.file_id g.file_id then f ∷ g ∷ gs else g ∷ insert_file f gs

unfoldable pub sort_files : List FileBlocks → List FileBlocks
unfolding insert_file
sort_files [] = []
sort_files (f ∷ fs) = insert_file f (sort_files fs)

-- The key that blocks are sorted by.
unfoldable pub offset_of : Option BlockHeader → ℕ
offset_of none = 0
offset_of (some h) = h.file_offset

unfoldable pub insert_block : ScannedBlock → List ScannedBlock → List ScannedBlock
unfolding offset_of
insert_block sb [] = sb ∷ []
insert_block sb (x ∷ xs) =
    if leb (offset_of sb.header) (offset_of x.header) then sb ∷ x ∷ xs else x ∷ insert_block sb xs

unfoldable pub sort_blocks : List ScannedBlock → List ScannedBlock
unfolding insert_block
sort_blocks [] = []
sort_blocks (sb ∷ sbs) = insert_block sb (sort_blocks sbs)

-- `format!("recovered_file_{fid:08x}")`
unfoldable pub recovered_name : ℕ → Text
recovered_name fid = codes "recovered_file_" ++ hex_digits 8 fid

-- A chunk that cannot be decoded is left out.
abbrev pub append_chunk : {E : Type 0} → Bytes → Result E Bytes → Bytes
append_chunk contents (ok chunk) = contents ++ chunk
append_chunk contents (err e) = contents

module _ (L : Libs) where
  -- The payload of a block is read and decoded; an `unwrap` of no header panics.
  unfoldable pub read_payload :
      Bytes → ScannedBlock → Option BlockHeader → Result IoError (BlockHeader × Bytes)
  read_payload src sb none = err panicked
  read_payload src sb (some h) = do
    (payload, _) ← read_exact h.comp_size (drop (sb.archive_offset + block_header_size) src)
    ok (h, payload)

  unfoldable pub read_blocks :
      Bytes → Option Bytes → List ScannedBlock → Bytes → Result IoError Bytes
  unfolding read_payload
  read_blocks src key [] contents = ok contents
  read_blocks src key (sb ∷ sbs) contents = do
    (h, payload) ← read_payload src sb sb.header
    read_blocks src key sbs (append_chunk contents (decode_block L h payload key))

  -- `if !data.is_empty() { writer.add_file(..)? }`
  unfoldable pub add_recovered :
      Host → ℕ → Bytes → SixCyWriter → Result IoError (Unit {0}) × SixCyWriter
  unfolding recovered_name
  add_recovered H fid contents w =
      if leb (length contents) 0
      then (ok tt, w)
      else add_file L H (recovered_name fid) contents CodecId.zstd w

  -- The loop over the files, in the order of their ids.
  unfoldable pub extract_files :
      Host
      → Bytes
      → Option Bytes
      → List FileBlocks
      → SixCyWriter
      → Result IoError (Unit {0}) × SixCyWriter
  unfolding add_recovered
  extract_files H src key [] w = (ok tt, w)
  extract_files H src key (f ∷ fs) w = elim (read_blocks src key (sort_blocks f.blocks) []) [
    | err e ↦ (err e, w)
    | ok contents ↦
        then_on (add_recovered H f.file_id contents w) (λ _ w'. extract_files H src key fs w')
  ]

  -- The new archive, given the report.
  unfoldable pub rebuild :
      Json
      → Host
      → Bytes
      → File
      → Bytes
      → Option Bytes
      → RecoveryReport
      → Result IoError (Unit {0}) × SixCyWriter
  unfolding extract_files group_log sort_files
  rebuild J H src dst archive_uuid key report =
      then_on
        (extract_files H src key (sort_files (group_log report.block_log []))
          (with_options dst archive_uuid (4 * 1024 * 1024) default_compression_level none))
        (λ _ w. finalize L J H w)

abbrev pub with_report :
    RecoveryReport
    → Result IoError (Unit {0}) × SixCyWriter
    → Result IoError RecoveryReport × SixCyWriter
with_report report (ok u, w) = (ok report, w)
with_report report (err e, w) = (err e, w)

-- The report, or what failed, beside the writer of the new archive.
unfoldable pub extract_recoverable :
    Libs
    → Json
    → Host
    → Bytes
    → File
    → Bytes
    → Option Bytes
    → Run (Result IoError RecoveryReport × SixCyWriter)
unfolding rebuild scan
extract_recoverable L J H src dst archive_uuid key = elim (scan L (length src) src) [
  | out_of_fuel ↦ out_of_fuel
  | done report ↦ done (with_report report (rebuild L J H src dst archive_uuid key report))
]
