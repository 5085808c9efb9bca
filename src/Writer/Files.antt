-- ===== src/Writer/Files.antt =====
-- `SixCyWriter::add_file` of src/io_stream/mod.rs: chunks, deduplication by hash, and solid mode.
use cy.Common.{
  ℕ, zero, suc, ◌+◌, ◌*◌, ◌%◌, ◌^◌, Option, none, some, List, [], ◌∷◌, ◌++◌, Text, Result, ok, err,
  if◌then◌else◌, length, take, drop,
}
use cy.Bytes.{Bytes, bytes_eq}
use cy.Errors.{IoError, other_codec}
use cy.Libs.{Libs}
use cy.Codec.{CodecId}
use cy.Block.{BlockHeader, data_block}
use cy.Block.Payload.{encode_block}
use cy.Superblock.{add_required_codec}
use cy.Index.{FileIndexRecord}
use cy.Writer.{Host, Known, SixCyWriter, write_block}

-- `HashMap::get`
unfoldable pub find_known : Bytes → List Known → Option Known
find_known h [] = none
find_known h (k ∷ ks) = if bytes_eq k.hash h then some k else find_known h ks

-- `data.chunks(n)`, on fuel: every chunk takes a byte at least.
unfoldable pub chunks_fuel : ℕ → ℕ → Bytes → List Bytes
chunks_fuel fuel n [] = []
chunks_fuel zero n (x ∷ xs) = []
chunks_fuel (suc fuel) n (x ∷ xs) = take n (x ∷ xs) ∷ chunks_fuel fuel n (drop n (x ∷ xs))

unfoldable pub chunks : ℕ → Bytes → List Bytes
unfolding chunks_fuel
chunks n input = chunks_fuel (length input) n input

-- A CAS hit, and the record with one more reference to the block that is there.
unfoldable pub reuse_block : Known → FileIndexRecord → FileIndexRecord
reuse_block known rec = record rec {
  block_refs =
      rec.block_refs
      ++ record {
        content_hash = known.hash;
        archive_offset = known.archive_offset;
        intra_offset = 0;
        intra_length = 0;
      }
        ∷ [];
  compressed_size = rec.compressed_size + known.comp_len;
}

unfoldable pub new_record : ℕ → Text → Bytes → FileIndexRecord
new_record file_id name input = record {
  id = file_id;
  parent_id = 0;
  name = name;
  block_refs = [];
  original_size = length input;
  compressed_size = 0;
  metadata = [];
}

unfoldable pub push_record : FileIndexRecord → SixCyWriter → SixCyWriter
push_record rec w = record w { index = record w.index { records = w.index.records ++ rec ∷ [] } }

module _ (L : Libs) (H : Host) where
  -- A new chunk, behind the successful `encode_block`.
  unfoldable pub store_chunk : Bytes → BlockHeader → Bytes → SixCyWriter → SixCyWriter
  store_chunk content_hash header payload w = record w {
    writer = write_block L header payload w.writer;
    block_dedup =
        record { hash = content_hash; archive_offset = w.writer.pos; comp_len = length payload }
        ∷ w.block_dedup;
    drawn = w.drawn + 1;
  }

  unfoldable pub new_chunk :
      ℕ
      → ℕ
      → CodecId
      → Bytes
      → FileIndexRecord
      → SixCyWriter
      → Result IoError FileIndexRecord × SixCyWriter
  new_chunk file_id file_offset codec chunk rec w =
      elim (encode_block L data_block file_id file_offset chunk codec w.compression_level
        w.encryption_key (H.nonce w.drawn)) [
          | ok (header, payload) ↦ (
            ok (
                reuse_block
                  (record {
                    hash = L.blake3 chunk;
                    archive_offset = w.writer.pos;
                    comp_len = length payload;
                  })
                  rec),
            store_chunk (L.blake3 chunk) header payload w,
          )
          | err e ↦ (err (other_codec e), record w { drawn = w.drawn + 1 })
        ]

  -- One round of the loop over the chunks.
  unfoldable pub add_chunk :
      ℕ
      → CodecId
      → ℕ
      → Bytes
      → FileIndexRecord
      → SixCyWriter
      → Result IoError FileIndexRecord × SixCyWriter
  unfolding new_chunk
  add_chunk file_id codec chunk_idx chunk rec w = elim (find_known (L.blake3 chunk) w.block_dedup) [
    | some known ↦ (ok (reuse_block known rec), w)
    | none ↦ new_chunk file_id (chunk_idx * w.chunk_size % 2 ^ 64) codec chunk rec w
  ]

  -- `for (chunk_idx, chunk) in data.chunks(..).enumerate()`
  unfoldable pub add_chunks :
      ℕ
      → CodecId
      → ℕ
      → List Bytes
      → FileIndexRecord
      → SixCyWriter
      → Result IoError FileIndexRecord × SixCyWriter
  add_chunks file_id codec chunk_idx [] rec w = (ok rec, w)
  add_chunks file_id codec chunk_idx (chunk ∷ rest) rec w =
      let (added, w') = add_chunk file_id codec chunk_idx chunk rec w in
      elim added [
        | ok rec' ↦ add_chunks file_id codec (chunk_idx + 1) rest rec' w'
        | err e ↦ (err e, w')
      ]

  -- Solid mode: the data waits in the buffer for the next flush.
  unfoldable pub add_solid : ℕ → Text → Bytes → SixCyWriter → SixCyWriter
  unfolding new_record push_record
  add_solid file_id name input w = push_record (new_record file_id name input) (record w {
    solid_file_ranges =
        w.solid_file_ranges
        ++ record {
          file_id = file_id;
          intra_offset = length w.solid_buffer;
          intra_length = length input;
          content_hash = L.blake3 input;
        }
          ∷ [];
    solid_buffer = w.solid_buffer ++ input;
  })

  -- The checkpoint and the record, behind the loop over the chunks.
  unfoldable pub finish_file : ℕ → FileIndexRecord → SixCyWriter → SixCyWriter
  unfolding push_record
  finish_file file_id rec w = push_record rec (record w {
    recovery_map = record {
      checkpoints =
          w.recovery_map.checkpoints
          ++ record {
            archive_offset = w.writer.pos;
            last_file_id = file_id;
            timestamp = H.now (length w.recovery_map.checkpoints);
          }
            ∷ [];
    };
  })

  -- Normal mode: chunks with deduplication.
  unfoldable pub add_normal :
      ℕ → Text → Bytes → CodecId → SixCyWriter → Result IoError (Unit {0}) × SixCyWriter
  unfolding new_record finish_file
  add_normal file_id name input codec w =
      let declared = record w { superblock = add_required_codec codec w.superblock } in
      let (added, w') =
        add_chunks file_id codec 0 (chunks w.chunk_size input) (new_record file_id name input)
          declared in
      elim added [ ok rec ↦ (ok tt, finish_file file_id rec w') | err e ↦ (err e, w') ]

  unfoldable pub add_file :
      Text → Bytes → CodecId → SixCyWriter → Result IoError (Unit {0}) × SixCyWriter
  add_file name input codec w =
      let file_id = length w.index.records % 2 ^ 32 in
      elim w.solid_codec [
        | some solid ↦ (ok tt, add_solid file_id name input w)
        | none ↦ add_normal file_id name input codec w
      ]
