-- ===== src/Writer/Finish.antt =====
-- `SixCyWriter::finalize` of src/io_stream/mod.rs.
use cy.Common.{ℕ, bit_or, Option, none, some, Result, ok, err, length}
use cy.Bytes.{Bytes, to_le_bytes}
use cy.Errors.{IoError, other_codec, other_json, panicked}
use cy.Libs.{Libs}
use cy.Io.{write_all, seek_start}
use cy.Codec.{CodecId}
use cy.Block.{BlockHeader, index_block, file_id_shared}
use cy.Block.Payload.{encode_block}
use cy.Superblock
use cy.Superblock.{Superblock, sb_flag_encrypted}
use cy.Index.{compute_root_hash, Json}
use cy.Writer.{
  Host, SixCyWriter, default_compression_level, write_block, flush_solid_session, then_on,
}

-- The superblock's fields that `finalize` sets.
unfoldable pub patched : ℕ → ℕ → Option Bytes → Superblock → Superblock
patched index_offset index_size none sb = record sb {
  index_offset = index_offset;
  index_size = index_size;
}
patched index_offset index_size (some key) sb = record sb {
  index_offset = index_offset;
  index_size = index_size;
  flags = bit_or sb.flags sb_flag_encrypted;
}

module _ (L : Libs) (J : Json) (H : Host) where
  -- `self.superblock.write(&mut self.writer)?` behind the `seek` to 0.
  unfoldable pub write_superblock : SixCyWriter → Result IoError (Unit {0}) × SixCyWriter
  write_superblock w = elim (Superblock.write L w.superblock) [
    | none ↦ (err panicked, w)
    | some bytes ↦ (ok tt, record w { writer = write_all bytes w.writer })
  ]

  -- From the written index block on.
  unfoldable pub write_tail :
      BlockHeader → Bytes → SixCyWriter → Result IoError (Unit {0}) × SixCyWriter
  unfolding write_superblock patched
  write_tail idx_header idx_on_disk w =
      let index_offset = w.writer.pos in
      let indexed = record w { writer = write_block L idx_header idx_on_disk w.writer } in
      elim (J.recovery_to_vec w.recovery_map) [
        | err e ↦ (err (other_json e), indexed)
        | ok recovery_bytes ↦ write_superblock (record indexed {
          writer = seek_start 0 (
              write_all recovery_bytes
                (write_all (to_le_bytes 8 (length recovery_bytes)) indexed.writer));
          superblock = patched index_offset (length idx_on_disk) w.encryption_key w.superblock;
        })
      ]

  -- From the serialized index on: the index block is never encrypted, and its codec is not declared.
  unfoldable pub write_index : Bytes → SixCyWriter → Result IoError (Unit {0}) × SixCyWriter
  unfolding write_tail
  write_index index_payload w =
      elim (encode_block L index_block file_id_shared 0 index_payload CodecId.zstd
        default_compression_level none (H.nonce w.drawn)) [
          | err e ↦ (err (other_codec e), w)
          | ok (idx_header, idx_on_disk) ↦ write_tail idx_header idx_on_disk w
        ]

  unfoldable pub finalize : SixCyWriter → Result IoError (Unit {0}) × SixCyWriter
  unfolding write_index
  finalize w = then_on (flush_solid_session L H w) (λ _ flushed.
      let hashed = record flushed { index = compute_root_hash L flushed.index } in
      elim (J.index_to_vec hashed.index) [
        | err e ↦ (err (other_json e), hashed)
        | ok index_payload ↦ write_index index_payload hashed
      ])
