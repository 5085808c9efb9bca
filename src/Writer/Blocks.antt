-- ===== src/Writer/Blocks.antt =====
-- A block that the writer of src/io_stream/mod.rs appends is read back by the reader at its offset.
use cy.Common.{
  ℕ, ◌%◌, ◌^◌, ◌≤◌, ◌<◌, ◌≡◌, refl, ap, ◌∙◌, Option, ◌++◌, append_assoc, ok, ℤ, arith, length,
  take-all, drop-append_exact,
}
use cy.Bytes.{Bytes}
use cy.Libs.{Libs, IsHashes, IsLossless, IsAead}
use cy.Io.{File, write_all}
use cy.Io.Laws.{read_exact-long}
use cy.Io.Append.{AtEnd, write_all-AtEnd}
use cy.Codec.{CodecId}
use cy.Block
use cy.Block.{BlockHeader, BlockType, IsHeader, block_header_version, is_encrypted}
use cy.Block.Laws.{read-write_header}
use cy.Block.Payload.{encode_block, decode_block}
use cy.Block.Payload.Laws.{encode_block-eq-ok, encode_block-IsHeader, decode-encode}
use cy.Index.{BlockRef, is_solid_slice}
use cy.Reader.{read_block_at, slice_of, decompress_ref}
use cy.Reader.Stable.{Holds}
use cy.Writer.{write_block}

module _ (L : Libs) where
  -- The bytes of a block.
  abbrev pub block_bytes : BlockHeader → Bytes → Bytes
  block_bytes h payload = Block.write L h ++ payload

  pub write_block-AtEnd :
      (h : BlockHeader) (payload : Bytes) (f : File)
      → AtEnd f
      → ((write_block L h payload f).bytes ≡ f.bytes ++ block_bytes h payload)
        × AtEnd (write_block L h payload f)
  unfolding write_block
  write_block-AtEnd h payload f end =
      let (first, end1) = write_all-AtEnd (Block.write L h) f end in
      let (second, end2) = write_all-AtEnd payload (write_all (Block.write L h) f) end1 in
      (second ∙ ap (λ b. b ++ payload) first ∙ append_assoc f.bytes (Block.write L h) payload, end2)

  module _ (hashes : IsHashes L) where
    pub read_block_at-write :
        (before payload : Bytes) (h : BlockHeader)
        → IsHeader h
        → h.comp_size ≡ length payload
        → read_block_at L (before ++ block_bytes h payload) (length before)
          ≡ ok (record h { header_version = block_header_version }, payload)
    unfolding read_block_at
    read_block_at-write before payload h valid size = rw (
      drop-append_exact before (block_bytes h payload) (length before) refl,
      read-write_header L h valid hashes payload,
      read_exact-long h.comp_size payload (omega arith),
      take-all h.comp_size payload (omega arith),
    )

    module _ (lossless : IsLossless L) (aead : IsAead L) where
      -- An encoded block, read and decoded under its key.
      pub encode-read :
          (before : Bytes) (t : BlockType) (file_id file_offset : ℕ) (input : Bytes)
          (codec : CodecId) (level : ℤ) (key : Option Bytes) (nonce : Bytes) (h : BlockHeader)
          (payload : Bytes)
          → length nonce ≡ 12
          → file_id < 2 ^ 32
          → file_offset < 2 ^ 64
          → encode_block L t file_id file_offset input codec level key nonce ≡ ok (h, payload)
          → length payload < 2 ^ 32
          → (read_block_at L (before ++ block_bytes h payload) (length before)
              ≡ ok (record h { header_version = block_header_version }, payload))
            × (decode_block L (record h { header_version = block_header_version }) payload key
                ≡ ok input)
      unfolding decode_block is_encrypted
      encode-read before t file_id file_offset input codec level key nonce h payload hn fi fo e
            small =
          let r =
            encode_block-eq-ok L t file_id file_offset input codec level key nonce h payload e in
          let size : length payload % 2 ^ 32 ≡ h.comp_size = ap (λ x. x.comp_size) r.header in
          let valid =
            encode_block-IsHeader L hashes t file_id file_offset input codec level key nonce h
              payload fi fo e in
          (
            read_block_at-write before payload h valid (omega arith),
            decode-encode L lossless aead t file_id file_offset input codec level key nonce h
                payload hn e,
          )

      -- A reference to all of it holds the input.
      pub encode-Holds :
          (before : Bytes) (t : BlockType) (file_id file_offset : ℕ) (input : Bytes)
          (codec : CodecId) (level : ℤ) (key : Option Bytes) (nonce : Bytes) (h : BlockHeader)
          (payload : Bytes) (br : BlockRef)
          → length nonce ≡ 12
          → file_id < 2 ^ 32
          → file_offset < 2 ^ 64
          → encode_block L t file_id file_offset input codec level key nonce ≡ ok (h, payload)
          → length payload < 2 ^ 32
          → 256 ≤ length before
          → br.archive_offset ≡ length before
          → br.intra_length ≡ 0
          → Holds L key (before ++ block_bytes h payload) br input
      unfolding Holds decompress_ref slice_of is_solid_slice
      encode-Holds before t file_id file_offset input codec level key nonce h payload br hn fi fo e
            small past at whole =
          let (found, decoded) =
            encode-read before t file_id file_offset input codec level key nonce h payload hn fi fo
              e small in
          (omega arith, rw (at, found, decoded, whole))
