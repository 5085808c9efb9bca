-- ===== src/Errors.antt =====
-- The error values of the crate: `CodecError` (src/codec/mod.rs), `CryptoError`
-- (src/crypto/mod.rs), `SuperblockError` (src/superblock.rs), and the `io::Error`s that the code
-- builds. In place of a formatted message an error keeps the site and the values that it prints.
use cy.Common.{ℕ, Text}
use cy.Bytes.{Bytes}

pub data CryptoError : Type 0 where
  encryption_failed decryption_failed : CryptoError
  key_derivation : Text → CryptoError
  too_short missing_key : CryptoError

-- What a `CodecError::Decompression` or `CodecError::Encryption` says.
pub data Reason : Type 0 where
  -- the library's own message
  message : Text → Reason
  -- "BLAKE3 content hash mismatch (got .., expected ..)"
  hash_mismatch : Bytes → Bytes → Reason
  -- "Block is encrypted but no decryption key was provided"
  no_key : Reason
  crypto : CryptoError → Reason

pub data CodecError : Type 0 where
  compression decompression encryption : Reason → CodecError
  unavailable_codec : Text → CodecError

-- The texts of `io::ErrorKind::InvalidData` errors.
pub data Invalid : Type 0 where
  crc_mismatch : ℕ → ℕ → Invalid
  bad_magic : ℕ → Invalid
  bad_header_version : ℕ → Invalid
  bad_header_size : ℕ → Invalid
  unknown_block_type : ℕ → Invalid
  codec_count_overflow : Invalid
  solid_range : ℕ → ℕ → ℕ → Invalid

mutual
  pub data SuperblockError : Type 0 where
    invalid_magic : SuperblockError
    unsupported_version : ℕ → SuperblockError
    crc32_mismatch : SuperblockError
    codec_missing : Text → SuperblockError
    io : IoError → SuperblockError

  pub data IoError : Type 0 where
    unexpected_eof not_found read_only write_only : IoError
    -- not an `io::Error`: the panic of the `assert!` in `Superblock::write`
    panicked : IoError
    invalid_data : Invalid → IoError
    other_codec : CodecError → IoError
    other_superblock : SuperblockError → IoError
    other_json : Text → IoError
    other_crypto : CryptoError → IoError
