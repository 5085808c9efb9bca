-- ===== src/Writer/Encoded.antt =====
-- What `encode_block` of src/block.rs makes, written anywhere in a file, read and decoded: the header
-- describes the block.
use cy.Common.{
  ℕ, ◌%◌, ◌^◌, ◌<◌, ◌≡◌, refl, sym, ap, ◌∙◌, Bool, true, false, Option, none, some, ◌++◌,
  append_assoc, ok, ℤ, arith, length, >>=-eq-ok, map_err, ok_injective,
}
use cy.Bytes.{Bytes}
use cy.Libs.{Libs, IsHashes, IsLossless, IsAead}
use cy.Codec.{CodecId, uuid, from_uuid}
use cy.Codec.Laws.{from_uuid_iff}
use cy.Crypto.{encrypt}
use cy.Block
use cy.Block.{BlockHeader, BlockType, block_header_version, is_encrypted, codec_id}
use cy.Block.Payload.{seal, encode_block, decode_block}
use cy.Block.Payload.Laws.{encode_block-eq-ok}
use cy.Reader.{read_block_at}
use cy.Reader.Stable.{read_block_at-more}
use cy.Writer.Blocks.{encode-read}

-- Whether there is a key.
abbrev pub has_key : Option Bytes → Bool
has_key none = false
has_key (some key) = true

-- What a header says of the block that it heads.
pub record Describes (L : Libs) (t : BlockType) (file_id file_offset : ℕ) (input : Bytes)
    (codec : CodecId) (key : Option Bytes) (payload : Bytes) (h : BlockHeader) : Type 0 where
  pub version : h.header_version ≡ 1
  pub type : h.block_type ≡ t
  pub encrypted : is_encrypted h ≡ has_key key
  pub codec_named : codec_id h ≡ some codec
  pub file : h.file_id ≡ file_id
  pub offset : h.file_offset ≡ file_offset
  pub orig : h.orig_size ≡ length input
  pub comp : h.comp_size ≡ length payload
  pub hash : h.content_hash ≡ L.blake3 input

module _ (L : Libs) where
  seal-is_encrypted :
      (key : Option Bytes) (nonce compressed payload : Bytes) (flags : ℕ) (h : BlockHeader)
      → seal L key nonce compressed ≡ ok (payload, flags)
      → h.flags ≡ flags
      → is_encrypted h ≡ has_key key
  unfolding seal is_encrypted
  seal-is_encrypted none nonce compressed payload flags h e f =
      rw (f, ← ap (λ x. x.1) (ok_injective e))
  seal-is_encrypted (some key) nonce compressed payload flags h e f =
      let (s, sealed, e') = >>=-eq-ok (map_err _ (encrypt L key nonce compressed)) _ e in
      rw (f, ← ap (λ x. x.1) (ok_injective e'))

  encode_block-Describes :
      (t : BlockType) (file_id file_offset : ℕ) (input : Bytes) (codec : CodecId) (level : ℤ)
      (key : Option Bytes) (nonce : Bytes) (h : BlockHeader) (payload : Bytes)
      → encode_block L t file_id file_offset input codec level key nonce ≡ ok (h, payload)
      → length input < 2 ^ 32
      → length payload < 2 ^ 32
      → Describes L t file_id file_offset input codec key payload h
  unfolding codec_id
  encode_block-Describes t file_id file_offset input codec level key nonce h payload e small short =
      let r = encode_block-eq-ok L t file_id file_offset input codec level key nonce h payload e in
      let orig : length input % 2 ^ 32 ≡ h.orig_size = ap (λ x. x.orig_size) r.header in
      let comp : length payload % 2 ^ 32 ≡ h.comp_size = ap (λ x. x.comp_size) r.header in
      record {
        version = ap (λ x. x.header_version) (sym r.header);
        type = ap (λ x. x.block_type) (sym r.header);
        encrypted =
            seal-is_encrypted key nonce r.compressed payload r.flags h r.sealed
              (ap (λ x. x.flags) (sym r.header));
        codec_named =
            ap (λ x. from_uuid x.codec_uuid) (sym r.header)
            ∙ (from_uuid_iff (uuid codec) codec).1 refl;
        file = ap (λ x. x.file_id) (sym r.header);
        offset = ap (λ x. x.file_offset) (sym r.header);
        orig = omega arith;
        comp = omega arith;
        hash = ap (λ x. x.content_hash) (sym r.header);
      }

  same_version :
      (t : BlockType) (file_id file_offset : ℕ) (input : Bytes) (codec : CodecId)
      (key : Option Bytes) (payload : Bytes) (h : BlockHeader)
      → Describes L t file_id file_offset input codec key payload h
      → record h { header_version = block_header_version } ≡ h
  same_version t file_id file_offset input codec key payload h d =
      ap (λ v. record h { header_version = v }) (sym d.version)

  module _ (hashes : IsHashes L) (lossless : IsLossless L) (aead : IsAead L) where
    -- For lossless compressors, AES-GCM's own law, 32-byte hashes and 32-bit checksums, a 12-byte
    -- nonce, a file number and a file offset in the ranges of their types, and input and payload
    -- below 4 GiB: a block that `encode_block` produced, its header and its payload written between
    -- any other bytes, is read at its offset with this header and this payload, and decoded under
    -- the same key to the input; and the header says what the block is: its type, version 1,
    -- whether there is a key, the codec, the file number and offset, the length of the input, the
    -- length of the payload, and the hash of the input.
    pub read_block_at-encode_block :
        (before after : Bytes) (t : BlockType) (file_id file_offset : ℕ) (input : Bytes)
        (codec : CodecId) (level : ℤ) (key : Option Bytes) (nonce : Bytes) (h : BlockHeader)
        (payload : Bytes)
        → length nonce ≡ 12
        → file_id < 2 ^ 32
        → file_offset < 2 ^ 64
        → length input < 2 ^ 32
        → length payload < 2 ^ 32
        → encode_block L t file_id file_offset input codec level key nonce ≡ ok (h, payload)
        → (read_block_at L (before ++ ((Block.write L h ++ payload) ++ after)) (length before)
            ≡ ok (h, payload))
          × (decode_block L h payload key ≡ ok input)
          × Describes L t file_id file_offset input codec key payload h
    read_block_at-encode_block before after t file_id file_offset input codec level key nonce h
          payload hn fi fo small short e =
        let d =
          encode_block-Describes t file_id file_offset input codec level key nonce h payload e small
            short in
        let same = same_version t file_id file_offset input codec key payload h d in
        let (found, decoded) =
          encode-read L hashes lossless aead before t file_id file_offset input codec level key
            nonce h payload hn fi fo e short in
        let block = Block.write L h ++ payload in
        (
          rw (← append_assoc before block after) (
              read_block_at-more L (before ++ block) after (length before) h payload
                (found ∙ ap (λ x. ok (x, payload)) same)),
          ap (λ x. decode_block L x payload key) (sym same) ∙ decoded,
          d,
        )
