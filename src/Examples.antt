-- ===== src/Examples.antt =====
-- Concrete stand-ins for the crates, with the laws that `Libs` states of the real ones, and runs of the
-- model on them.
pub mod Serial
mod Codecs
mod Blocks
mod Superblocks
mod Perf
mod Readers
mod Archives
mod Recoveries
mod Rebuilds
mod Facades
mod Plugins
mod Packing
mod Optimizing
mod Merging
use cy.Common.{
  ◌+◌, ◌%◌, ◌^◌, ◌≡◌, refl, sym, ap, some, List, [], ◌∷◌, ok, arith, length, drop, replicate,
  ok_injective, some_injective,
}
use cy.Bytes.{Bytes, to_le_bytes, from_le_bytes}
use cy.Bytes.Laws.{length-to_le_bytes, to_le_bytes-IsBytes}
use cy.Libs.{Libs, IsHashes, IsLossless, IsAead, IsTotal}

-- Each compressor, and the cipher, puts one byte in front; the hash is the first 32 bytes of the data.
abbrev pub sample : Libs
sample = record {
  crc32 = λ d. from_le_bytes d % 2 ^ 32;
  blake3 = λ d. to_le_bytes 32 (from_le_bytes d);
  zstd_encode_all = λ d level. ok (1 ∷ d);
  zstd_decode_all = λ d. ok (drop 1 d);
  lz4_compress = λ d. 2 ∷ d;
  lz4_decompress = λ d. ok (drop 1 d);
  brotli_write = λ quality d. ok (quality ∷ d);
  brotli_read = λ d. ok (drop 1 d);
  lzma_compress = λ d. ok (4 ∷ d);
  lzma_decompress = λ d. ok (drop 1 d);
  aes_encrypt = λ key nonce d. some (length key ∷ d);
  aes_decrypt = λ key nonce d. some (drop 1 d);
  argon2id = λ password salt. ok (replicate 32 5);
  hex_encode = λ d. d;
}

pub sample-IsHashes : IsHashes sample
sample-IsHashes = record {
  crc32-lt = λ d. omega arith;
  length-blake3 = λ d. length-to_le_bytes 32 (from_le_bytes d);
  blake3-IsBytes = λ d. to_le_bytes-IsBytes 32 (from_le_bytes d);
}

pub sample-IsLossless : IsLossless sample
sample-IsLossless = record {
  zstd_back = λ d e level h. ap (λ x. ok (drop 1 x)) (sym (ok_injective h));
  lz4_back = λ d. refl;
  brotli_back = λ d e quality h. ap (λ x. ok (drop 1 x)) (sym (ok_injective h));
  lzma_back = λ d e h. ap (λ x. ok (drop 1 x)) (sym (ok_injective h));
}

pub sample-IsAead : IsAead sample
sample-IsAead = record {
  aes_back = λ key nonce d e h. ap (λ x. some (drop 1 x)) (sym (some_injective h));
}

pub sample-IsTotal : IsTotal sample
sample-IsTotal = record {
  zstd_total = λ d level. (1 ∷ d, refl);
  brotli_total = λ d quality. (quality ∷ d, refl);
  lzma_total = λ d. (4 ∷ d, refl);
  aes_total = λ key nonce d. (length key ∷ d, refl);
}

abbrev pub nonce : Bytes
nonce = replicate 12 9

abbrev pub key : Bytes
key = replicate 32 5
