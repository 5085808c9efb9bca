-- ===== src/Writer/Success.antt =====
-- The calls of the writer of src/io_stream/mod.rs succeed where no crate fails.
use cy.Common.{
  Result, err, Bool-cases, leb, ℕ, ◌+◌, ◌*◌, ◌%◌, ◌^◌, ◌≡◌, refl, ap, ◌∙◌, Option, none, some, List,
  [], ◌∷◌, ok, ℤ, Text, length, Option-cases, inl, inr, arith, replicate,
}
use cy.Bytes.{Bytes}
use cy.Errors.{IoError}
use cy.Libs.{Libs, IsTotal}
use cy.Io.{seek_start}
use cy.Io.Append.{AtEnd, write_all-AtEnd}
use cy.Codec.{CodecId}
use cy.Block.{BlockHeader, data_block, index_block, solid_block, file_id_shared}
use cy.Block.Payload.Total.{encode_block_total}
use cy.Superblock
use cy.Superblock.{Superblock, HasWidths}
use cy.Superblock.Laws.{write_cases, IsSuperblock-HasWidths}
use cy.Superblock.Required.{IsBuilt, IsBuilt-few, new-IsBuilt}
use cy.Index.{FileIndexRecord, Json, IsWritable, compute_root_hash}
use cy.Writer.{
  Host, SixCyWriter, with_options, then_on, flush_solid_session, flush_codec, compress_solid,
  start_solid_session, default_compression_level,
}
use cy.Writer.Files.{
  find_known, chunks, new_chunk, add_chunk, add_chunks, new_record, add_normal, add_file,
}
use cy.Writer.Finish.{patched, write_superblock, write_tail, write_index, finalize}
use cy.Writer.Archive.{declared}
use cy.Writer.Packing.{Input, add_files, add_file_idle, add_file_solid}
use cy.Writer.Solid.{session}
use cy.Writer.Batches.{Batch, single, solid, pack_batch, pack, pack-Appends}
use cy.Writer.Idle.{pack_mode}
use cy.Writer.Finalized.{flush_idle}
use cy.Writer.Opening.{patched-uuids}

module _ (L : Libs) (total : IsTotal L) (H : Host) where
  new_chunk_total :
      (file_id file_offset : ℕ) (codec : CodecId) (chunk : Bytes) (rec : FileIndexRecord)
      (w : SixCyWriter)
      → (r : FileIndexRecord) × ((new_chunk L H file_id file_offset codec chunk rec w).0 ≡ ok r)
  unfolding new_chunk
  new_chunk_total file_id file_offset codec chunk rec w =
      let ((h, p), e) =
        encode_block_total L total data_block file_id file_offset chunk codec w.compression_level
          w.encryption_key (H.nonce w.drawn) in
      rw (e, new_chunk) (_, refl)

  add_chunk_total :
      (file_id : ℕ) (codec : CodecId) (i : ℕ) (chunk : Bytes) (rec : FileIndexRecord)
      (w : SixCyWriter)
      → (r : FileIndexRecord) × ((add_chunk L H file_id codec i chunk rec w).0 ≡ ok r)
  unfolding add_chunk
  add_chunk_total file_id codec i chunk rec w =
      elim (Option-cases (find_known (L.blake3 chunk) w.block_dedup)) [
        | inl e ↦
            let (r, h) = new_chunk_total file_id (i * w.chunk_size % 2 ^ 64) codec chunk rec w in
            rw (e, add_chunk) (r, h)
        | inr (k, e) ↦ rw (e, add_chunk) (_, refl)
      ]

  add_chunks_total :
      (file_id : ℕ) (codec : CodecId) (i : ℕ) (cs : List Bytes) (rec : FileIndexRecord)
      (w : SixCyWriter)
      → (r : FileIndexRecord) × ((add_chunks L H file_id codec i cs rec w).0 ≡ ok r)
  unfolding add_chunks
  add_chunks_total file_id codec i [] rec w = (rec, refl)
  add_chunks_total file_id codec i (c ∷ cs) rec w =
      let (r1, e) = add_chunk_total file_id codec i c rec w in
      let (r2, h) =
        add_chunks_total file_id codec (i + 1) cs r1 (add_chunk L H file_id codec i c rec w).1 in
      rw (e, add_chunks) (r2, h)

  add_normal_total :
      (id : ℕ) (name : Text) (d : Bytes) (codec : CodecId) (w : SixCyWriter)
      → (add_normal L H id name d codec w).0 ≡ ok tt
  unfolding add_normal
  add_normal_total id name d codec w =
      let (r, e) =
        add_chunks_total id codec 0 (chunks w.chunk_size d) (new_record id name d)
          (declared codec w) in
      rw (e, add_normal) refl

  pub add_file_total :
      (name : Text) (d : Bytes) (codec : CodecId) (w : SixCyWriter)
      → (add_file L H name d codec w).0 ≡ ok tt
  add_file_total name d codec w = elim (Option-cases w.solid_codec) [
    | inl q ↦ ap (λ r. r.0) (add_file_idle L H name d codec w q) ∙ add_normal_total _ name d codec w
    | inr (c, q) ↦ ap (λ r. r.0) (add_file_solid L H name d codec c w q)
  ]

  pub add_files_total : (fs : List Input) (w : SixCyWriter) → (add_files L H fs w).0 ≡ ok tt
  unfolding add_files
  add_files_total [] w = refl
  add_files_total (f ∷ fs) w =
      rw (add_file_total f.name f.contents f.codec w, add_files)
        (add_files_total fs (add_file L H f.name f.contents f.codec w).1)

then_on_total :
    (r : Result IoError (Unit {0}) × SixCyWriter)
    (next : SixCyWriter → Result IoError (Unit {0}) × SixCyWriter)
    → r.0 ≡ ok tt
    → ((v : SixCyWriter) → (next v).0 ≡ ok tt)
    → (then_on r (λ _ v. next v)).0 ≡ ok tt
then_on_total (ok u, v) next e h = h v
then_on_total (err x, v) next e h = e

module _ (L : Libs) (total : IsTotal L) (H : Host) where
  flush_codec_total : (o : Option CodecId) (w : SixCyWriter) → (flush_codec L H o w).0 ≡ ok tt
  unfolding flush_codec compress_solid
  flush_codec_total none w = refl
  flush_codec_total (some c) w = elim (Bool-cases (leb (length w.solid_buffer) 0)) [
    | inl empty ↦ rw (empty, flush_codec) refl
    | inr full ↦
        let ((h, p), e) =
          encode_block_total L total solid_block file_id_shared 0 w.solid_buffer c
            w.compression_level w.encryption_key (H.nonce w.drawn) in
        rw (full, flush_codec) (rw (e, compress_solid) refl)
  ]

  flush_total : (w : SixCyWriter) → (flush_solid_session L H w).0 ≡ ok tt
  unfolding flush_solid_session
  flush_total w = flush_codec_total w.solid_codec w

  session_total : (c : CodecId) (fs : List Input) (w : SixCyWriter) → (session L H c fs w).0 ≡ ok tt
  unfolding session start_solid_session
  session_total c fs w =
      then_on_total (start_solid_session L H c w) _
        (then_on_total (flush_solid_session L H w) (λ v. (ok tt, record v { solid_codec = some c }))
          (flush_total w) (λ v. refl))
        (λ v.
          then_on_total (add_files L H fs v) (λ u. flush_solid_session L H u)
            (add_files_total L total H fs v) (λ u. flush_total u))

  pack_batch_total : (b : Batch) (w : SixCyWriter) → (pack_batch L H b w).0 ≡ ok tt
  unfolding pack_batch
  pack_batch_total (single f) w = add_file_total L total H f.name f.contents f.codec w
  pack_batch_total (solid c fs) w = session_total c fs w

  pub pack_total : (bs : List Batch) (w : SixCyWriter) → (pack L H bs w).0 ≡ ok tt
  unfolding pack
  pack_total [] w = refl
  pack_total (b ∷ bs) w =
      then_on_total (pack_batch L H b w) (λ v. pack L H bs v) (pack_batch_total b w)
        (λ v. pack_total bs v)

patched-HasWidths :
    (o s : ℕ) (key : Option Bytes) (sb : Superblock) → HasWidths sb → HasWidths (patched o s key sb)
unfolding patched
patched-HasWidths o s none sb h = record {
  magic_width = h.magic_width;
  archive_width = h.archive_width;
  codecs_width = h.codecs_width;
}
patched-HasWidths o s (some key) sb h = record {
  magic_width = h.magic_width;
  archive_width = h.archive_width;
  codecs_width = h.codecs_width;
}

-- The superblock that `finalize` writes fits.
patched-write :
    (L : Libs) (o s : ℕ) (key : Option Bytes) (sb : Superblock)
    → IsBuilt sb
    → (front : Bytes) × (Superblock.write L (patched o s key sb) ≡ some front)
patched-write L o s key sb b =
    let same : (patched o s key sb).required_codec_uuids ≡ sb.required_codec_uuids =
      patched-uuids o s key sb in
    elim (write_cases L (patched o s key sb)
      (patched-HasWidths o s key sb (IsSuperblock-HasWidths sb b.valid))) [
        | inl (front, e, _, _) ↦ (front, e)
        | inr (_, many) ↦
            let few = IsBuilt-few sb b in absurd (omega (arith, ap (length {A = Bytes}) same))
      ]

module _ (L : Libs) (total : IsTotal L) (J : Json) (writable : IsWritable J) (H : Host) where
  write_superblock_total :
      (w : SixCyWriter) (front : Bytes)
      → Superblock.write L w.superblock ≡ some front
      → (write_superblock L J H w).0 ≡ ok tt
  unfolding write_superblock
  write_superblock_total w front e = rw (e, write_superblock) refl

  write_tail_total :
      (h : BlockHeader) (p : Bytes) (w : SixCyWriter)
      → IsBuilt w.superblock
      → (write_tail L J H h p w).0 ≡ ok tt
  unfolding write_tail
  write_tail_total h p w b =
      let (r, e) = writable.recovery_total w.recovery_map in
      let (front, f) = patched-write L w.writer.pos (length p) w.encryption_key w.superblock b in
      rw (e, write_tail) (write_superblock_total _ front f)

  write_index_total :
      (payload : Bytes) (w : SixCyWriter)
      → IsBuilt w.superblock
      → (write_index L J H payload w).0 ≡ ok tt
  unfolding write_index
  write_index_total payload w b =
      let ((h, p), e) =
        encode_block_total L total index_block file_id_shared 0 payload CodecId.zstd
          default_compression_level none (H.nonce w.drawn) in
      rw (e, write_index) (write_tail_total h p w b)

  finalize_total :
      (w : SixCyWriter) → IsBuilt w.superblock → w.solid_codec ≡ none → (finalize L J H w).0 ≡ ok tt
  unfolding finalize
  finalize_total w b idle =
      let (payload, e) = writable.index_total (compute_root_hash L w.index) in
      rw (flush_idle L J H w idle, finalize) (rw (e, then_on) (write_index_total payload _ b))

  -- Where no compressor, cipher or JSON writer fails: on a new file, with a 16-byte archive UUID,
  -- all calls for any mix of single files and solid sessions succeed, and so does the `finalize`
  -- behind them, whatever the files, the chunk size, the level and the key. The superblock, too, is
  -- written without a panic.
  pub packing_total :
      (archive_uuid : Bytes) (size : ℕ) (level : ℤ) (key : Option Bytes) (bs : List Batch)
      → length archive_uuid ≡ 16
      → ((pack L H bs (with_options (record { bytes = []; pos = 0 }) archive_uuid size level key)).0
          ≡ ok tt)
        × ((finalize L J H
              (pack L H bs
                (with_options (record { bytes = []; pos = 0 }) archive_uuid size level key)).1).0
            ≡ ok tt)
  unfolding with_options
  packing_total archive_uuid size level key bs width =
      let w0 : SixCyWriter =
        with_options (record { bytes = []; pos = 0 }) archive_uuid size level key in
      let (_, end) = write_all-AtEnd (replicate 256 0) (record { bytes = []; pos = 0 }) refl in
      let at_end : AtEnd w0.writer = unfold seek_start in end in
      let g = pack-Appends L H bs w0 at_end in
      let success = pack_total L total H bs w0 in
      (
        success,
        finalize_total _ (g.built (new-IsBuilt archive_uuid width))
            (pack_mode L H bs w0 at_end refl success),
      )
