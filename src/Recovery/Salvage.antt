-- ===== src/Recovery/Salvage.antt =====
-- What `extract_recoverable` of src/recovery/scanner.rs is to find for each file, by the log of the scan:
-- the blocks of the file in the order of their offsets, and the data of those that can be decoded.
pub mod Sorting
pub mod Groups
pub mod Order
pub mod Described
pub mod Reading
use cy.Common.{
  ℕ, ◌+◌, ◌≤◌, ◌<◌, ◌≡◌, ◌⊎◌, Bool, false, ◌&&◌, Option, none, some, List, [], ◌∷◌, ◌++◌, Result,
  ok, err, ◌==◌, length, take, drop, All, get_elem?, if◌then◌else◌,
}
use cy.Bytes.{Bytes}
use cy.Libs.{Libs}
use cy.Codec.{CodecId}
use cy.Block.{BlockHeader}
use cy.Block.Payload.{decode_block}
use cy.Writer.Packing.{Input}
use cy.Writer.Batches.{Batch, single}
use cy.Recovery.{ScannedBlock, is_usable, is_data}
use cy.Recovery.Extract.{FileBlocks, group_log, sort_files, offset_of, sort_blocks, recovered_name}

abbrev pub belongs : ℕ → Option BlockHeader → Bool
belongs fid none = false
belongs fid (some h) = is_data h.block_type && h.file_id == fid

-- The usable DATA blocks of a file, in the order of the log.
abbrev pub blocks_of : ℕ → List ScannedBlock → List ScannedBlock
blocks_of fid [] = []
blocks_of fid (sb ∷ log) =
    if is_usable sb && belongs fid sb.header then sb ∷ blocks_of fid log else blocks_of fid log

-- Those of a list of blocks that have an offset in the file.
abbrev pub at_offset : ℕ → List ScannedBlock → List ScannedBlock
at_offset k [] = []
at_offset k (sb ∷ sbs) = if offset_of sb.header == k then sb ∷ at_offset k sbs else at_offset k sbs

abbrev pub InOrder : List ScannedBlock → Type 0
InOrder [] = Unit {0}
InOrder (sb ∷ sbs) = All (λ x. offset_of sb.header ≤ offset_of x.header) sbs × InOrder sbs

-- Numbered files, by rising numbers.
abbrev pub Rising : List (ℕ × Bytes) → Type 0
Rising [] = Unit {0}
Rising (f ∷ fs) = All (λ g. f.0 < g.0) fs × Rising fs

abbrev pub decoded : {E : Type 0} → Result E Bytes → Bytes
decoded (ok chunk) = chunk
decoded (err e) = []

abbrev pub keep : ℕ → Bytes → List (ℕ × Bytes) → List (ℕ × Bytes)
keep fid [] files = files
keep fid (b ∷ bs) files = (fid, b ∷ bs) ∷ files

module _ (L : Libs) (src : Bytes) (key : Option Bytes) where
  -- The data of the payload that stands behind a header, if it can be decoded.
  abbrev pub chunk_at : ℕ → Option BlockHeader → Bytes
  chunk_at at none = []
  chunk_at at (some h) = decoded (decode_block L h (take h.comp_size (drop (at + 84) src)) key)

  abbrev pub joined : List ScannedBlock → Bytes
  joined [] = []
  joined (sb ∷ sbs) = chunk_at sb.archive_offset sb.header ++ joined sbs

  -- The contents are those of the file's blocks, in the order of their offsets, and in the order of
  -- the log among blocks of the same offset.
  pub record IsFileOf (log : List ScannedBlock) (fid : ℕ) (contents : Bytes) : Type 0 where
    pub blocks : List ScannedBlock
    pub in_order : InOrder blocks
    pub same : (k : ℕ) → at_offset k blocks ≡ at_offset k (blocks_of fid log)
    pub is_joined : contents ≡ joined blocks

  -- The files are those of the log that are not empty, each once.
  pub record IsSalvage (log : List ScannedBlock) (files : List (ℕ × Bytes)) : Type 0 where
    pub rising : Rising files
    pub each : All (λ f. IsFileOf log f.0 f.1 × (0 < length f.1)) files
    pub complete :
        (fid : ℕ)
        → (blocks_of fid log ≡ [])
          ⊎ ((contents : Bytes) × IsFileOf log fid contents
              × ((contents ≡ []) ⊎ ((n : ℕ) × (get_elem? files n ≡ some (fid, contents)))))

  -- The groups whose blocks give any byte.
  unfoldable pub kept : List FileBlocks → List (ℕ × Bytes)
  kept [] = []
  kept (f ∷ fs) = keep f.file_id (joined (sort_blocks f.blocks)) (kept fs)

  -- The files that are packed, given the log of a scan.
  unfoldable pub salvaged : List ScannedBlock → List (ℕ × Bytes)
  unfolding kept
  salvaged log = kept (sort_files (group_log log []))

abbrev pub input : ℕ × Bytes → Input
input f = record { name = recovered_name f.0; contents = f.1; codec = CodecId.zstd }

abbrev pub singles : List (ℕ × Bytes) → List Batch
singles [] = []
singles (f ∷ fs) = single (input f) ∷ singles fs
