-- ===== src/Block/Payload.antt =====
-- `encode_block` and `decode_block` of src/block.rs. The nonce that an encryption draws is an
-- argument; it is used only if there is a key.
pub mod Laws
pub mod Total
use cy.Common.{
  ℕ, ◌%◌, ◌^◌, ℤ, Bool, true, false, Option, none, some, Result, ok, err, ◌>>=◌, ◌>>◌, map_err,
  ok_or, if◌then◌else◌, length, bit_or,
}
use cy.Bytes.{Bytes, bytes_eq}
use cy.Errors.{CodecError, decompression, encryption, crypto, no_key, hash_mismatch, CryptoError}
use cy.Libs.{Libs}
use cy.Io.{require}
use cy.Codec.{CodecId, uuid, get_codec_by_uuid}
use cy.Crypto.{encrypt, decrypt}
use cy.Block.{BlockHeader, BlockType, block_header_version, flag_encrypted, is_encrypted}

-- `.map_err(|e| CodecError::Encryption(e.to_string()))`
abbrev encryption_error : CryptoError → CodecError
encryption_error e = encryption (crypto e)

module _ (L : Libs) where
  -- The payload and the flags behind the optional encryption.
  unfoldable pub seal : Option Bytes → Bytes → Bytes → Result CodecError (Bytes × ℕ)
  seal none nonce payload = ok (payload, 0)
  seal (some key) nonce payload = do
    sealed ← map_err encryption_error (encrypt L key nonce payload)
    ok (sealed, bit_or 0 flag_encrypted)

  unfoldable pub encode_block :
      BlockType
      → ℕ
      → ℕ
      → Bytes
      → CodecId
      → ℤ
      → Option Bytes
      → Bytes
      → Result CodecError (BlockHeader × Bytes)
  unfolding seal
  encode_block block_type file_id file_offset input codec level encryption_key nonce = do
    codec_impl ← get_codec_by_uuid L (uuid codec)
    compressed ← codec_impl.compress input level
    (payload, flags) ← seal encryption_key nonce compressed
    ok (
      record {
        header_version = block_header_version;
        block_type = block_type;
        flags = flags;
        codec_uuid = uuid codec;
        file_id = file_id;
        file_offset = file_offset;
        orig_size = length input % 2 ^ 32;
        comp_size = length payload % 2 ^ 32;
        content_hash = L.blake3 input;
      },
      payload,
    )

  pub unseal : Bool → Option Bytes → Bytes → Result CodecError Bytes
  unseal false key payload = ok payload
  unseal true none payload = err (encryption no_key)
  unseal true (some key) payload = map_err encryption_error (decrypt L key payload)

  unfoldable pub decode_block : BlockHeader → Bytes → Option Bytes → Result CodecError Bytes
  unfolding unseal
  decode_block header payload decryption_key = do
    compressed ← unseal (is_encrypted header) decryption_key payload
    codec_impl ← get_codec_by_uuid L header.codec_uuid
    decompressed ← codec_impl.decompress compressed
    require (bytes_eq (L.blake3 decompressed) header.content_hash)
        (decompression (hash_mismatch (L.blake3 decompressed) header.content_hash))
    ok decompressed
