-- ===== src/Reader/Scan/Sound.antt =====
-- The scan of src/io_stream/mod.rs ends, and what it lists stands in the file.
use cy.Common.{ℕ, ◌≡◌, List, ok, drop, All, Run, done}
use cy.Bytes.{Bytes}
use cy.Libs.{Libs}
use cy.Block
use cy.Block.{BlockHeader, data_block}
use cy.Index.{BlockRef, FileIndexRecord}
use cy.Reader.Scan.{Group}

module _ (L : Libs) (file : Bytes) where
  -- The reference is to a whole DATA block of the file, with the hash in its header.
  unfoldable pub IsListed : ℕ → BlockRef → Type 0
  IsListed fid br =
      (header : BlockHeader) × (rest : Bytes) × (Block.read L (drop br.archive_offset file)
        ≡ ok (header, rest))
      × (header.block_type ≡ data_block)
      × (header.file_id ≡ fid)
      × (header.content_hash ≡ br.content_hash)
      × (br.intra_length ≡ 0)

  abbrev IsGroup : Group BlockRef → Type 0
  IsGroup g = All (λ p. IsListed g.file_id p.1) g.parts

  -- Every reference of the record.
  abbrev pub IsFound : FileIndexRecord → Type 0
  IsFound r = All (IsListed r.id) r.block_refs

  -- A loop that ended, with groups of blocks of the file.
  abbrev IsScanned : Run (List (Group BlockRef)) → Type 0
  IsScanned r = (out : List (Group BlockRef)) × (r ≡ done out) × All IsGroup out
