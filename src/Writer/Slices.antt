-- ===== src/Writer/Slices.antt =====
-- The references that a flush makes in src/io_stream/mod.rs: each reads its file's part of the solid block.
use cy.Common.{
  ℕ, ◌+◌, ◌-◌, ◌≤◌, ◌≡◌, refl, sym, ap, ◌∙◌, Option, List, [], ◌∷◌, ◌++◌, append_assoc, ok, true,
  ltb, leb, lt→ltb, le→leb, arith, length, All, length-append, drop-append_exact, take-append_exact,
}
use cy.Bytes.{Bytes, slice}
use cy.Bytes.Layout.{concat}
use cy.Libs.{Libs}
use cy.Block.{BlockHeader}
use cy.Block.Payload.{decode_block}
use cy.Index.{BlockRef, is_solid_slice}
use cy.Reader.{read_block_at, slice_of, decompress_ref, read_refs}
use cy.Reader.Stable.{Reads}
use cy.Writer.{attach_range}
use cy.Writer.Files.{new_record}
use cy.Writer.Packing.{Input, contents_of}
use cy.Writer.Archive.{Filed}
use cy.Writer.Session.{attached}

slice-middle :
    (before d after : Bytes) (start size : ℕ)
    → start ≡ length before
    → size ≡ length d
    → slice start (start + size) (before ++ (d ++ after)) ≡ d
slice-middle before d after start size e k =
    let w : start + size - start ≡ length d = omega arith in
    rw (w, drop-append_exact before (d ++ after) start (sym e))
      (take-append_exact d after (length d) refl)

module _ (L : Libs) where
  slice_of-middle :
      (br : BlockRef) (before d after : Bytes)
      → br.intra_offset ≡ length before
      → br.intra_length ≡ length d
      → 1 ≤ length d
      → slice_of L br (before ++ (d ++ after)) ≡ ok d
  unfolding slice_of is_solid_slice
  slice_of-middle br before d after off size full =
      let real : ltb 0 br.intra_length ≡ true = lt→ltb 0 br.intra_length (omega arith) in
      let inside : leb (br.intra_offset + br.intra_length) (length (before ++ (d ++ after)))
          ≡ true =
        le→leb (br.intra_offset + br.intra_length) (length (before ++ (d ++ after)))
          (omega (arith, length-append before (d ++ after), length-append d after)) in
      rw (real, inside)
        (ap ok (slice-middle before d after br.intra_offset br.intra_length off size))

  module _ (file : Bytes) (key : Option Bytes) (at len : ℕ) (h : BlockHeader) (p buffer : Bytes)
      (found : read_block_at L file at ≡ ok (h, p)) (decoded : decode_block L h p key ≡ ok buffer)
      (past : 256 ≤ at) where
    solid-Reads :
        (br : BlockRef) (before d after : Bytes)
        → br.archive_offset ≡ at
        → br.intra_offset ≡ length before
        → br.intra_length ≡ length d
        → 1 ≤ length d
        → before ++ (d ++ after) ≡ buffer
        → Reads L key file (br ∷ []) d
    unfolding Reads read_refs decompress_ref slice_of is_solid_slice
    solid-Reads br before d after there off size full whole =
        let e : slice_of L br buffer ≡ ok d =
          rw (← whole) (slice_of-middle br before d after off size full) in
        (((omega arith), tt), rw (there, found, decoded, e) refl)

    pub attached-Filed :
        (i off : ℕ) (before : Bytes) (fs : List Input)
        → off ≡ length before
        → All (λ f. 1 ≤ length f.contents) fs
        → before ++ concat (contents_of fs) ≡ buffer
        → Filed L key file i (attached L at len i off fs) (contents_of fs)
    unfolding attach_range new_record
    attached-Filed i off before [] e full whole = tt
    attached-Filed i off before (f ∷ fs) e full whole = (
      refl,
      refl,
      solid-Reads _ before f.contents (concat (contents_of fs)) refl e refl full.0 whole,
      attached-Filed (i + 1) (off + length f.contents) (before ++ f.contents) fs
          (omega (arith, length-append before f.contents)) full.1
          (append_assoc before f.contents (concat (contents_of fs)) ∙ whole),
    )
