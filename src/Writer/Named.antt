-- ===== src/Writer/Named.antt =====
-- The writer of src/io_stream/mod.rs gives every file the name that it was added under.
use cy.Common.{
  ℕ, ◌+◌, ◌*◌, ◌%◌, ◌^◌, ◌≡◌, refl, sym, ap, ◌∙◌, subst, Option, none, some, List, [], ◌∷◌, ◌++◌,
  append-nil, Text, ok, leb, Bool-cases, Option-cases, Result-cases, inl, inr, length, ok_injective,
}
use cy.Bytes.{Bytes}
use cy.Libs.{Libs}
use cy.Codec.{CodecId}
use cy.Block.{data_block, solid_block, file_id_shared}
use cy.Block.Payload.{encode_block}
use cy.Superblock.{add_required_codec}
use cy.Index.{FileIndexRecord}
use cy.Writer.{
  Host, SixCyWriter, store_solid, compress_solid, flush_codec, flush_solid_session,
  start_solid_session,
}
use cy.Writer.Files.{
  find_known, chunks, reuse_block, store_chunk, new_chunk, add_chunk, add_chunks, new_record,
  push_record, finish_file, add_solid, add_normal, add_file,
}
use cy.Writer.Archive.{declared}
use cy.Writer.Packing.{Input, add_files, add_file_idle, add_file_solid}
use cy.Writer.Solid.{session}
use cy.Writer.Batches.{Batch, single, solid, pack_batch, pack}
use cy.Writer.Labels.{
  names, names_of, batch_names, all_names, names-snoc, Labels, Labels-refl, then_on-Labels,
  add_required_codec-uuid, Same, names-attach_ranges,
}

module _ (L : Libs) (H : Host) where
  new_chunk-Same :
      (file_id file_offset : ℕ) (codec : CodecId) (chunk : Bytes) (rec : FileIndexRecord)
      (w : SixCyWriter)
      → Same rec w (new_chunk L H file_id file_offset codec chunk rec w)
  unfolding new_chunk store_chunk reuse_block
  new_chunk-Same file_id file_offset codec chunk rec w =
      elim (Result-cases (
        encode_block L data_block file_id file_offset chunk codec w.compression_level
          w.encryption_key (H.nonce w.drawn))) [
            | inl ((h, p), e) ↦
                rw (e, new_chunk)
                  (record {
                    records = refl;
                    same_uuid = refl;
                    same_name = λ rec' q. ap (λ r. r.name) (sym (ok_injective q));
                  })
            | inr (x, e) ↦
                rw (e, new_chunk)
                  (record { records = refl; same_uuid = refl; same_name = λ rec' q. cc q })
          ]

  add_chunk-Same :
      (file_id : ℕ) (codec : CodecId) (i : ℕ) (chunk : Bytes) (rec : FileIndexRecord)
      (w : SixCyWriter)
      → Same rec w (add_chunk L H file_id codec i chunk rec w)
  unfolding add_chunk reuse_block
  add_chunk-Same file_id codec i chunk rec w =
      elim (Option-cases (find_known (L.blake3 chunk) w.block_dedup)) [
        | inl e ↦
            rw (e, add_chunk) (new_chunk-Same file_id (i * w.chunk_size % 2 ^ 64) codec chunk rec w)
        | inr (k, e) ↦
            rw (e, add_chunk)
              (record {
                records = refl;
                same_uuid = refl;
                same_name = λ rec' q. ap (λ r. r.name) (sym (ok_injective q));
              })
      ]

  add_chunks-Same :
      (file_id : ℕ) (codec : CodecId) (i : ℕ) (cs : List Bytes) (rec : FileIndexRecord)
      (w : SixCyWriter)
      → Same rec w (add_chunks L H file_id codec i cs rec w)
  unfolding add_chunks
  add_chunks-Same file_id codec i [] rec w = record {
    records = refl;
    same_uuid = refl;
    same_name = λ rec' q. ap (λ r. r.name) (sym (ok_injective q));
  }
  add_chunks-Same file_id codec i (c ∷ cs) rec w =
      let r = add_chunk L H file_id codec i c rec w in
      let one : Same rec w r = add_chunk-Same file_id codec i c rec w in
      elim (Result-cases r.0) [
        | inr (x, e) ↦
            rw (e, add_chunks)
              (record {
                records = one.records;
                same_uuid = one.same_uuid;
                same_name = λ rec' q. cc q;
              })
        | inl (rec1, e) ↦
            let rest = add_chunks-Same file_id codec (i + 1) cs rec1 r.1 in
            rw (e, add_chunks)
              (record {
                records = rest.records ∙ one.records;
                same_uuid = rest.same_uuid ∙ one.same_uuid;
                same_name = λ rec' q. rest.same_name rec' q ∙ one.same_name rec1 e;
              })
      ]

  add_normal-Labels :
      (id : ℕ) (name : Text) (d : Bytes) (codec : CodecId) (w : SixCyWriter)
      → (add_normal L H id name d codec w).0 ≡ ok tt
      → Labels (name ∷ []) w (add_normal L H id name d codec w).1
  unfolding add_normal finish_file push_record new_record
  add_normal-Labels id name d codec w =
      let r =
        add_chunks L H id codec 0 (chunks w.chunk_size d) (new_record id name d)
          (declared codec w) in
      let same =
        add_chunks-Same id codec 0 (chunks w.chunk_size d) (new_record id name d)
          (declared codec w) in
      elim (Result-cases r.0) [
        | inr (x, e) ↦ rw (e, add_normal) (λ q. cc q)
        | inl (rec, e) ↦
            rw (e, add_normal)
              (λ q. record {
                named =
                    names-snoc r.1.index.records rec
                    ∙ ap (λ rs. names rs ++ rec.name ∷ []) same.records
                    ∙ ap (λ t. names w.index.records ++ t ∷ []) (same.same_name rec e);
                same_uuid = same.same_uuid ∙ add_required_codec-uuid codec w.superblock;
              })
      ]

  add_file-Labels :
      (name : Text) (d : Bytes) (codec : CodecId) (w : SixCyWriter)
      → (add_file L H name d codec w).0 ≡ ok tt
      → Labels (name ∷ []) w (add_file L H name d codec w).1
  unfolding add_solid push_record new_record
  add_file-Labels name d codec w = elim (Option-cases w.solid_codec) [
    | inl q ↦ rw (add_file_idle L H name d codec w q) (add_normal-Labels _ name d codec w)
    | inr (c, q) ↦
        rw (add_file_solid L H name d codec c w q)
          (λ e. record { named = names-snoc w.index.records _; same_uuid = refl })
  ]

  add_files-Labels :
      (fs : List Input) (w : SixCyWriter)
      → (add_files L H fs w).0 ≡ ok tt
      → Labels (names_of fs) w (add_files L H fs w).1
  unfolding add_files
  add_files-Labels [] w e = Labels-refl w
  add_files-Labels (f ∷ fs) w e =
      then_on-Labels (f.name ∷ []) (names_of fs) w (add_file L H f.name f.contents f.codec w)
        (λ v. add_files L H fs v) (add_file-Labels f.name f.contents f.codec w)
        (λ v. add_files-Labels fs v) e

  compress_solid-Labels :
      (c : CodecId) (w : SixCyWriter)
      → (compress_solid L H c w).0 ≡ ok tt
      → Labels [] w (compress_solid L H c w).1
  unfolding compress_solid store_solid
  compress_solid-Labels c w =
      elim (Result-cases (
        encode_block L solid_block file_id_shared 0 w.solid_buffer c w.compression_level
          w.encryption_key (H.nonce w.drawn))) [
            | inr (x, e) ↦ rw (e, compress_solid) (λ q. cc q)
            | inl ((h, p), e) ↦
                rw (e, compress_solid)
                  (λ q. record {
                    named =
                        names-attach_ranges w.writer.pos (length p) w.solid_file_ranges
                          w.index.records
                        ∙ sym (append-nil (names w.index.records));
                    same_uuid = refl;
                  })
          ]

  flush_codec-Labels :
      (o : Option CodecId) (w : SixCyWriter)
      → (flush_codec L H o w).0 ≡ ok tt
      → Labels [] w (flush_codec L H o w).1
  unfolding flush_codec
  flush_codec-Labels none w = λ e. Labels-refl w
  flush_codec-Labels (some c) w = elim (Bool-cases (leb (length w.solid_buffer) 0)) [
    | inl empty ↦
        rw (empty, flush_codec)
          (λ q. record { named = sym (append-nil (names w.index.records)); same_uuid = refl })
    | inr full ↦
        let v : SixCyWriter = record w {
          solid_codec = none;
          superblock = add_required_codec c w.superblock;
        } in
        rw (full, flush_codec)
          (λ q.
            let g = compress_solid-Labels c v q in
            record {
              named = g.named;
              same_uuid = g.same_uuid ∙ add_required_codec-uuid c w.superblock;
            })
  ]

  flush-Labels :
      (w : SixCyWriter)
      → (flush_solid_session L H w).0 ≡ ok tt
      → Labels [] w (flush_solid_session L H w).1
  unfolding flush_solid_session
  flush-Labels w = flush_codec-Labels w.solid_codec w

  start-Labels :
      (c : CodecId) (w : SixCyWriter)
      → (start_solid_session L H c w).0 ≡ ok tt
      → Labels [] w (start_solid_session L H c w).1
  unfolding start_solid_session
  start-Labels c w =
      then_on-Labels [] [] w (flush_solid_session L H w)
        (λ v. (ok tt, record v { solid_codec = some c })) (flush-Labels w)
        (λ v e. record { named = sym (append-nil (names v.index.records)); same_uuid = refl })

  session-Labels :
      (c : CodecId) (fs : List Input) (w : SixCyWriter)
      → (session L H c fs w).0 ≡ ok tt
      → Labels (names_of fs ++ []) w (session L H c fs w).1
  unfolding session
  session-Labels c fs w =
      then_on-Labels [] (names_of fs ++ []) w (start_solid_session L H c w) _ (start-Labels c w)
        (λ v.
          then_on-Labels (names_of fs) [] v (add_files L H fs v) (λ u. flush_solid_session L H u)
            (add_files-Labels fs v) (λ u. flush-Labels u))

  pack_batch-Labels :
      (b : Batch) (w : SixCyWriter)
      → (pack_batch L H b w).0 ≡ ok tt
      → Labels (batch_names b) w (pack_batch L H b w).1
  unfolding pack_batch
  pack_batch-Labels (single f) w = add_file-Labels f.name f.contents f.codec w
  pack_batch-Labels (solid c fs) w = λ e.
      subst (λ ns. Labels ns w (session L H c fs w).1) (append-nil (names_of fs))
        (session-Labels c fs w e)

  -- The files of all batches keep their names, in order.
  pub pack-Labels :
      (bs : List Batch) (w : SixCyWriter)
      → (pack L H bs w).0 ≡ ok tt
      → Labels (all_names bs) w (pack L H bs w).1
  unfolding pack
  pack-Labels [] w e = Labels-refl w
  pack-Labels (b ∷ bs) w e =
      then_on-Labels (batch_names b) (all_names bs) w (pack_batch L H b w) (λ v. pack L H bs v)
        (pack_batch-Labels b w) (λ v. pack-Labels bs v) e
