-- ===== src/Examples/Perf.antt =====
-- The filter, the write buffer and the chunk compressor at concrete inputs.
use cy.Common.{◌*◌, ◌≤◌, ◌≡◌, ◌⊎◌, refl, some, pos, List, [], ◌∷◌, ◌++◌, length, Option, done}
use cy.Bytes.{Bytes, to_le_bytes, from_le_bytes}
use cy.Bytes.Layout.{concat}
use cy.Codec.{CodecId, zstd_codec, get_codec}
use cy.Perf.Rle.{rle_encode, rle_decode}
use cy.Perf.Rle.RoundTrip.{rle_roundtrip}
use cy.Perf.Rle.Total.{rle_decode_total}
use cy.Perf.WriteBuffer
use cy.Perf.WriteBuffer.{WriteBuffer}
use cy.Perf.WriteBuffer.Laws.{contents, IsBuffer, write_lem, flush-write_each}
use cy.Perf.Chunks.{
  CompressedChunk, compress_chunk, compress_sequential, compress_each, surface, compress_parallel,
}
use cy.Perf.Chunks.Laws.{
  AllCompressed, FirstError, Describe, parallel-eq-sequential, compress_parallel_lem,
}
use cy.Examples.{sample, sample-IsLossless}

abbrev runs : Bytes
runs = 7 ∷ 9 ∷ 9 ∷ 9 ∷ 9 ∷ 9 ∷ []

rle_roundtrip_example :
    (enc : Bytes) × (rle_encode runs ≡ done enc)
    × (rle_decode enc ≡ done (some runs))
    × (length enc ≤ 4 * length runs)
rle_roundtrip_example = rle_roundtrip runs

rle_decode_total_example : (r : Option Bytes) × (rle_decode (2 ∷ 0 ∷ []) ≡ done r)
rle_decode_total_example = rle_decode_total (2 ∷ 0 ∷ [])

abbrev buffer : WriteBuffer
buffer = record { inner = 1 ∷ []; buf = 2 ∷ []; capacity = 3; bytes_written = 2 }

write_lem_example :
    (contents (WriteBuffer.write buffer runs).0 ≡ (1 ∷ 2 ∷ []) ++ runs)
    × IsBuffer (WriteBuffer.write buffer runs).0
    × ((WriteBuffer.write buffer runs).0.bytes_written ≡ 8)
    × ((WriteBuffer.write buffer runs).1 ≡ 6)
write_lem_example = write_lem buffer runs

abbrev pieces : List Bytes
pieces = (1 ∷ 2 ∷ []) ∷ [] ∷ runs ∷ []

flush-write_each_example :
    ((WriteBuffer.flush (WriteBuffer.write_each (WriteBuffer.new [] 4) pieces)).inner
      ≡ concat pieces)
    × ((WriteBuffer.flush (WriteBuffer.write_each (WriteBuffer.new [] 4) pieces)).buf ≡ [])
    × ((WriteBuffer.write_each (WriteBuffer.new [] 4) pieces).bytes_written
        ≡ length (concat pieces))
flush-write_each_example = flush-write_each 4 pieces

parallel-eq-sequential_example :
    (compress_parallel sample CodecId.zstd (pos 3) pieces
      ≡ compress_sequential sample CodecId.zstd (pos 3) 0 pieces)
    × (AllCompressed sample CodecId.zstd
          (pos 3)
          0
          pieces
          (compress_parallel sample CodecId.zstd (pos 3) pieces)
        ⊎ FirstError sample CodecId.zstd
            (pos 3)
            0
            pieces
            (compress_parallel sample CodecId.zstd (pos 3) pieces))
parallel-eq-sequential_example = parallel-eq-sequential sample CodecId.zstd (pos 3) pieces

abbrev compressed : List CompressedChunk
compressed =
    record {
      chunk_index = 0;
      content_hash = to_le_bytes 32 513;
      orig_size = 2;
      payload = 1 ∷ 1 ∷ 2 ∷ [];
    }
    ∷ record {
      chunk_index = 1;
      content_hash = to_le_bytes 32 7;
      orig_size = 1;
      payload = 1 ∷ 7 ∷ [];
    }
    ∷ []

compress_parallel_lem_example :
    Describe sample (zstd_codec sample) 0 ((1 ∷ 2 ∷ []) ∷ (7 ∷ []) ∷ []) compressed
unfolding compress_parallel compress_each compress_chunk surface get_codec zstd_codec to_le_bytes
    from_le_bytes
compress_parallel_lem_example =
    compress_parallel_lem sample sample-IsLossless CodecId.zstd (zstd_codec sample) (pos 3) refl
      ((1 ∷ 2 ∷ []) ∷ (7 ∷ []) ∷ []) compressed refl
