-- ===== src/Writer/Idle.antt =====
-- No solid session of src/io_stream/mod.rs is open behind batches that succeed.
use cy.Common.{
  ◌≡◌, refl, ◌∙◌, Option, none, some, List, [], ◌∷◌, Result, ok, err, Result-cases, Bool-cases, inl,
  inr, leb, length,
}
use cy.Errors.{IoError}
use cy.Libs.{Libs}
use cy.Codec.{CodecId}
use cy.Block.{solid_block, file_id_shared}
use cy.Block.Payload.{encode_block}
use cy.Superblock.{add_required_codec}
use cy.Io.Append.{AtEnd}
use cy.Writer.{
  Host, SixCyWriter, store_solid, compress_solid, flush_codec, flush_solid_session, then_on,
  start_solid_session,
}
use cy.Writer.Packing.{Input, add_files, add_file-Grows}
use cy.Writer.Solid.{session}
use cy.Writer.Batches.{Batch, single, solid, pack_batch, pack, pack_batch-Appends}

-- What a success of the second step ensures, the whole ensures.
then_on-last :
    (Q : SixCyWriter → Type 0) (r : Result IoError (Unit {0}) × SixCyWriter)
    (next : SixCyWriter → Result IoError (Unit {0}) × SixCyWriter)
    → ((v : SixCyWriter) → (next v).0 ≡ ok tt → Q (next v).1)
    → (then_on r (λ _ v. next v)).0 ≡ ok tt
    → Q (then_on r (λ _ v. next v)).1
then_on-last Q (ok u, v) next h e = h v e
then_on-last Q (err x, v) next h e = cc e

module _ (L : Libs) (H : Host) where
  compress_solid-mode :
      (c : CodecId) (w : SixCyWriter) → (compress_solid L H c w).1.solid_codec ≡ w.solid_codec
  unfolding compress_solid store_solid
  compress_solid-mode c w =
      elim (Result-cases (
        encode_block L solid_block file_id_shared 0 w.solid_buffer c w.compression_level
          w.encryption_key (H.nonce w.drawn))) [
            | inl (p, e) ↦ rw (e, compress_solid) refl
            | inr (x, e) ↦ rw (e, compress_solid) refl
          ]

  flush_codec-mode :
      (o : Option CodecId) (w : SixCyWriter)
      → w.solid_codec ≡ o
      → (flush_codec L H o w).1.solid_codec ≡ none
  unfolding flush_codec
  flush_codec-mode none w e = e
  flush_codec-mode (some c) w e = elim (Bool-cases (leb (length w.solid_buffer) 0)) [
    | inl empty ↦ rw (empty, flush_codec) refl
    | inr full ↦
        rw (full, flush_codec)
          (compress_solid-mode c
            (record w { solid_codec = none; superblock = add_required_codec c w.superblock }))
  ]

  flush_mode : (w : SixCyWriter) → (flush_solid_session L H w).1.solid_codec ≡ none
  unfolding flush_solid_session
  flush_mode w = flush_codec-mode w.solid_codec w refl

  session_mode :
      (c : CodecId) (fs : List Input) (w : SixCyWriter)
      → (session L H c fs w).0 ≡ ok tt
      → (session L H c fs w).1.solid_codec ≡ none
  unfolding session
  session_mode c fs w =
      then_on-last (λ x. x.solid_codec ≡ none) (start_solid_session L H c w) _
        (λ v.
          then_on-last (λ x. x.solid_codec ≡ none) (add_files L H fs v)
            (λ u. flush_solid_session L H u) (λ u e. flush_mode u))

  pack_batch_mode :
      (b : Batch) (w : SixCyWriter)
      → AtEnd w.writer
      → w.solid_codec ≡ none
      → (pack_batch L H b w).0 ≡ ok tt
      → (pack_batch L H b w).1.solid_codec ≡ none
  unfolding pack_batch
  pack_batch_mode (single f) w end idle e =
      (add_file-Grows L H f.name f.contents f.codec w end).same_mode ∙ idle
  pack_batch_mode (solid c fs) w end idle e = session_mode c fs w e

  pub pack_mode :
      (bs : List Batch) (w : SixCyWriter)
      → AtEnd w.writer
      → w.solid_codec ≡ none
      → (pack L H bs w).0 ≡ ok tt
      → (pack L H bs w).1.solid_codec ≡ none
  unfolding pack
  pack_mode [] w end idle = λ e. idle
  pack_mode (b ∷ bs) w end idle = elim (Result-cases (pack_batch L H b w).0) [
    | inr (x, q) ↦ rw (q, pack) (λ e. cc e)
    | inl (u, q) ↦
        let v : SixCyWriter = (pack_batch L H b w).1 in
        rw (q, pack)
          (pack_mode bs v (pack_batch-Appends L H b w end).at_end
            (pack_batch_mode b w end idle (q ∙ refl)))
  ]
