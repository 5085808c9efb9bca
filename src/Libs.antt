-- ===== src/Libs.antt =====
-- The crates that the program calls: crc32fast, blake3, zstd, lz4_flex, brotli, lzma-rs, aes-gcm,
-- argon2 and hex. Their code is not in the repository, so each is a function that the model takes, and what
-- is relied on is stated as a law.
use cy.Common.{ℕ, ◌^◌, ◌<◌, ◌≡◌, Option, some, ℤ, Result, ok, Text, length}
use cy.Bytes.{Bytes, IsBytes}

pub record Libs : Type 0 where
  -- `crc32fast::Hasher`, `blake3::hash`
  pub crc32 : Bytes → ℕ
  pub blake3 : Bytes → Bytes
  -- `zstd::encode_all`, `zstd::decode_all`
  pub zstd_encode_all : Bytes → ℤ → Result Text Bytes
  pub zstd_decode_all : Bytes → Result Text Bytes
  -- `lz4_flex::compress_prepend_size`, `lz4_flex::decompress_size_prepended`
  pub lz4_compress : Bytes → Bytes
  pub lz4_decompress : Bytes → Result Text Bytes
  -- `brotli::CompressorWriter` at a quality, `brotli::Decompressor`
  pub brotli_write : ℕ → Bytes → Result Text Bytes
  pub brotli_read : Bytes → Result Text Bytes
  -- `lzma_rs::lzma_compress`, `lzma_rs::lzma_decompress`
  pub lzma_compress : Bytes → Result Text Bytes
  pub lzma_decompress : Bytes → Result Text Bytes
  -- AES-256-GCM under a key and a nonce
  pub aes_encrypt : Bytes → Bytes → Bytes → Option Bytes
  pub aes_decrypt : Bytes → Bytes → Bytes → Option Bytes
  -- `Argon2::hash_password_into` with the parameters of `derive_key`
  pub argon2id : Bytes → Bytes → Result Text Bytes
  -- `hex::encode`
  pub hex_encode : Bytes → Text

-- The value ranges of the two checksums.
pub record IsHashes (L : Libs) : Type 0 where
  pub crc32-lt : (d : Bytes) → L.crc32 d < 2 ^ 32
  pub length-blake3 : (d : Bytes) → length (L.blake3 d) ≡ 32
  pub blake3-IsBytes : (d : Bytes) → IsBytes (L.blake3 d)

-- Every compressor's output is decompressed to its input.
pub record IsLossless (L : Libs) : Type 0 where
  pub zstd_back :
      (d e : Bytes) (level : ℤ) → L.zstd_encode_all d level ≡ ok e → L.zstd_decode_all e ≡ ok d
  pub lz4_back : (d : Bytes) → L.lz4_decompress (L.lz4_compress d) ≡ ok d
  pub brotli_back :
      (d e : Bytes) (quality : ℕ) → L.brotli_write quality d ≡ ok e → L.brotli_read e ≡ ok d
  pub lzma_back : (d e : Bytes) → L.lzma_compress d ≡ ok e → L.lzma_decompress e ≡ ok d

-- What AES-256-GCM seals under a key and a nonce, it opens under the same two.
pub record IsAead (L : Libs) : Type 0 where
  pub aes_back :
      (key nonce d e : Bytes)
      → L.aes_encrypt key nonce d ≡ some e
      → L.aes_decrypt key nonce e ≡ some d

-- No compressor fails, nor the cipher.
pub record IsTotal (L : Libs) : Type 0 where
  pub zstd_total : (d : Bytes) (level : ℤ) → (e : Bytes) × (L.zstd_encode_all d level ≡ ok e)
  pub brotli_total : (d : Bytes) (quality : ℕ) → (e : Bytes) × (L.brotli_write quality d ≡ ok e)
  pub lzma_total : (d : Bytes) → (e : Bytes) × (L.lzma_compress d ≡ ok e)
  pub aes_total : (key nonce d : Bytes) → (e : Bytes) × (L.aes_encrypt key nonce d ≡ some e)
