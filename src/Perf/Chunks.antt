-- ===== src/Perf/Chunks.antt =====
-- `compress_chunks_parallel` and `decompress_into` of src/perf.rs.
pub mod Laws
use cy.Common.{ℕ, ◌+◌, min, ℤ, List, [], ◌∷◌, ◌++◌, Result, ok, err, ◌>>=◌, length, take, drop}
use cy.Bytes.{Bytes}
use cy.Errors.{CodecError}
use cy.Libs.{Libs}
use cy.Codec.{CodecId, get_codec}

pub record CompressedChunk : Type 0 where
  pub chunk_index : ℕ
  pub content_hash : Bytes
  pub orig_size : ℕ
  pub payload : Bytes

module _ (L : Libs) (codec : CodecId) (level : ℤ) where
  -- The closure of the build with the feature `parallel`.
  unfoldable pub compress_chunk : ℕ → Bytes → Result CodecError CompressedChunk
  compress_chunk i chunk = do
    let hash = L.blake3 chunk
    c ← get_codec L codec
    payload ← c.compress chunk level
    ok (record {
      chunk_index = i;
      content_hash = hash;
      orig_size = length chunk;
      payload = payload;
    })

  -- The closure of the build without it.
  unfoldable pub compress_chunk_alone : ℕ → Bytes → Result CodecError CompressedChunk
  compress_chunk_alone i chunk = do
    let hash = L.blake3 chunk
    c ← get_codec L codec
    payload ← c.compress chunk level
    ok (record {
      chunk_index = i;
      content_hash = hash;
      orig_size = length chunk;
      payload = payload;
    })

  -- Without `parallel`: `collect` into a `Result` stops at the first error.
  unfoldable pub compress_sequential : ℕ → List Bytes → Result CodecError (List CompressedChunk)
  unfolding compress_chunk_alone
  compress_sequential i [] = ok []
  compress_sequential i (chunk ∷ chunks) = do
    first ← compress_chunk_alone i chunk
    rest ← compress_sequential (i + 1) chunks
    ok (first ∷ rest)

  -- With it: `par_iter().enumerate().map(..).collect()` gives all results in the order of the chunks.
  unfoldable pub compress_each : ℕ → List Bytes → List (Result CodecError CompressedChunk)
  compress_each i [] = []
  compress_each i (chunk ∷ chunks) = compress_chunk i chunk ∷ compress_each (i + 1) chunks

  -- `for r in results { out.push(r?) }`
  unfoldable pub surface :
      List (Result CodecError CompressedChunk)
      → List CompressedChunk
      → Result CodecError (List CompressedChunk)
  surface [] out = ok out
  surface (r ∷ rs) out = do chunk ← r; surface rs (out ++ chunk ∷ [])

  unfoldable pub compress_parallel : List Bytes → Result CodecError (List CompressedChunk)
  compress_parallel chunks = surface (compress_each 0 chunks) []

-- `decompress_into`: the count, and the caller's buffer behind the call.
unfoldable pub decompress_into : Libs → CodecId → Bytes → Bytes → Result CodecError (ℕ × Bytes)
decompress_into L codec payload out = do
  codec_impl ← get_codec L codec
  decompressed ← codec_impl.decompress payload
  let n = min (length decompressed) (length out)
  ok (n, take n decompressed ++ drop n out)
