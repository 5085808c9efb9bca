-- ===== src/Reader/Scan.antt =====
-- `SixCyReader::scan_blocks` of src/io_stream/mod.rs, over the bytes of a file. The two hash maps are one
-- list of groups; their iteration order is lost in the final sort, as the ids are distinct.
pub mod Sound
use cy.Common.{
  ℕ, zero, suc, ◌+◌, ◌%◌, ◌^◌, max, List, [], ◌∷◌, ◌++◌, map, Result, ok, err, ◌==◌, leb,
  if◌then◌else◌, length, drop, replicate, Run, done, out_of_fuel,
}
use cy.Bytes.{Bytes}
use cy.Libs.{Libs}
use cy.Block
use cy.Block.{BlockHeader, BlockType, data_block, index_block, solid_block}
use cy.Superblock.{superblock_size}
use cy.Index.{BlockRef, FileIndexRecord, from_scan, FileIndex, compute_root_hash}

-- What stands in `chunks` and `orig_sizes` for one file, whose parts are `B`s at their file offsets.
pub record Group (B : Type 0) : Type 0 where
  pub file_id : ℕ
  pub size : ℕ
  pub parts : List (ℕ × B)

module _ {B : Type 0} where
  -- The largest extent so far, and one more part.
  unfoldable pub grow : ℕ → ℕ → B → Group B → Group B
  grow end offset b g = record g { size = max g.size end; parts = g.parts ++ (offset, b) ∷ [] }

  unfoldable pub note_part : ℕ → ℕ → ℕ → B → List (Group B) → List (Group B)
  note_part fid end offset b [] =
      grow end offset b (record { file_id = fid; size = 0; parts = [] }) ∷ []
  note_part fid end offset b (g ∷ gs) =
      if g.file_id == fid then grow end offset b g ∷ gs else g ∷ note_part fid end offset b gs

  -- `sort_by_key`, which keeps the order of equal keys.
  unfoldable pub insert_part : ℕ × B → List (ℕ × B) → List (ℕ × B)
  insert_part p [] = p ∷ []
  insert_part p (q ∷ qs) = if leb p.0 q.0 then p ∷ q ∷ qs else q ∷ insert_part p qs

  unfoldable pub sort_parts : List (ℕ × B) → List (ℕ × B)
  sort_parts [] = []
  sort_parts (p ∷ ps) = insert_part p (sort_parts ps)

-- The arm for DATA blocks.
unfoldable pub note_block : ℕ → BlockHeader → List (Group BlockRef) → List (Group BlockRef)
note_block pos header groups =
    note_part header.file_id ((header.file_offset + header.orig_size) % 2 ^ 64) header.file_offset
      (record {
        content_hash = header.content_hash;
        archive_offset = pos;
        intra_offset = 0;
        intra_length = 0;
      })
      groups

module _ (L : Libs) where
  -- The loop, at a position. A position behind the end is allowed, and the next read fails there.
  unfoldable pub scan_loop : ℕ → Bytes → ℕ → List (Group BlockRef) → Run (List (Group BlockRef))
  scan_loop zero file pos groups = out_of_fuel
  scan_loop (suc fuel) file pos groups = elim (Block.read L (drop pos file)) [
    | err e ↦ done groups
    | ok (header, rest) ↦
        let next = pos + 84 + header.comp_size in
        let with_part = scan_loop fuel file next (note_block pos header groups) in
        let without = scan_loop fuel file next groups in
        elim header.block_type [
          | index_block ↦ done groups
          | solid_block ↦ without
          | data_block ↦ with_part
        ]
  ]

unfoldable pub insert_record : FileIndexRecord → List FileIndexRecord → List FileIndexRecord
insert_record r [] = r ∷ []
insert_record r (q ∷ qs) = if leb r.id q.id then r ∷ q ∷ qs else q ∷ insert_record r qs

unfoldable pub refs_of : List (ℕ × BlockRef) → List BlockRef
refs_of [] = []
refs_of (p ∷ ps) = p.1 ∷ refs_of ps

unfoldable pub sorted_records : List (Group BlockRef) → List FileIndexRecord
sorted_records [] = []
sorted_records (g ∷ gs) =
    insert_record (from_scan g.file_id g.size (refs_of (sort_parts g.parts))) (sorted_records gs)

unfoldable pub index_of : Libs → Run (List (Group BlockRef)) → Run FileIndex
index_of L out_of_fuel = out_of_fuel
index_of L (done groups) =
    done
      (compute_root_hash L (record { records = sorted_records groups; root_hash = replicate 32 0 }))

-- A header takes 84 bytes, so there are fewer rounds than bytes.
unfoldable pub scan_blocks : Libs → Bytes → Run FileIndex
scan_blocks L file = index_of L (scan_loop L (suc (length file)) file superblock_size [])
