-- ===== src/Writer/Batches.antt =====
-- An archive of src/io_stream/mod.rs that is filled in batches: single files, and solid sessions.
use cy.Common.{
  ℕ, ◌≤◌, ◌≡◌, sym, ap, ◌∙◌, Option, none, some, List, [], ◌∷◌, ◌++◌, append_assoc, append-nil,
  Result, ok, err, Result-cases, Bool-cases, inl, inr, leb, arith, length, length-append,
}
use cy.Bytes.{Bytes}
use cy.Errors.{IoError}
use cy.Libs.{Libs}
use cy.Io.Append.{AtEnd}
use cy.Codec.{CodecId}
use cy.Block.{solid_block, file_id_shared}
use cy.Block.Payload.{encode_block}
use cy.Superblock.{add_required_codec}
use cy.Superblock.Required.{IsBuilt, add_required_codec-IsBuilt}
use cy.Writer.{
  Host, SixCyWriter, store_solid, compress_solid, flush_codec, flush_solid_session, then_on,
  start_solid_session,
}
use cy.Writer.Files.{add_file}
use cy.Writer.Blocks.{block_bytes, write_block-AtEnd}
use cy.Writer.Chunks.{Grows}
use cy.Writer.Packing.{Input, contents_of, add_files, add_files-Grows, add_file-Grows}
use cy.Writer.Solid.{session}

-- One file outside solid mode, or a session with its files.
pub data Batch : Type 0 where
  single : Input → Batch
  solid : CodecId → List Input → Batch

abbrev pub batch_contents : Batch → List Bytes
batch_contents (single f) = f.contents ∷ []
batch_contents (solid c fs) = contents_of fs

-- The files of all batches, in order.
abbrev pub all_contents : List Batch → List Bytes
all_contents [] = []
all_contents (b ∷ bs) = batch_contents b ++ all_contents bs

unfoldable pub pack_batch :
    Libs → Host → Batch → SixCyWriter → Result IoError (Unit {0}) × SixCyWriter
pack_batch L H (single f) w = add_file L H f.name f.contents f.codec w
pack_batch L H (solid c fs) w = session L H c fs w

-- The batches in order, up to the first that fails.
unfoldable pub pack :
    Libs → Host → List Batch → SixCyWriter → Result IoError (Unit {0}) × SixCyWriter
pack L H [] w = (ok tt, w)
pack L H (b ∷ bs) w = then_on (pack_batch L H b w) (λ _ w'. pack L H bs w')

-- The second state's file is the first one's with bytes behind it, and a well-built superblock
-- still is.
pub record Appends (w w' : SixCyWriter) : Type 0 where
  pub at_end : AtEnd w'.writer
  pub more : Bytes
  pub appended : w'.writer.bytes ≡ w.writer.bytes ++ more
  pub built : IsBuilt w.superblock → IsBuilt w'.superblock

Grows-Appends : (w w' : SixCyWriter) → Grows w w' → Appends w w'
Grows-Appends w w' g = record {
  at_end = g.at_end;
  more = g.more;
  appended = g.appended;
  built = g.built;
}

Appends-refl : (w : SixCyWriter) → AtEnd w.writer → Appends w w
Appends-refl w end = record {
  at_end = end;
  more = [];
  appended = sym (append-nil w.writer.bytes);
  built = λ b. b;
}

Appends-trans : (a b c : SixCyWriter) → Appends a b → Appends b c → Appends a c
Appends-trans a b c g h = record {
  at_end = h.at_end;
  more = g.more ++ h.more;
  appended =
      h.appended ∙ ap (λ x. x ++ h.more) g.appended ∙ append_assoc a.writer.bytes g.more h.more;
  built = λ x. h.built (g.built x);
}

pub Appends-length :
    (w w' : SixCyWriter) → Appends w w' → length w.writer.bytes ≤ length w'.writer.bytes
Appends-length w w' g =
    omega (arith, ap (length {A = ℕ}) g.appended, length-append w.writer.bytes g.more)

-- What follows a step that appends.
then_on-Appends :
    (w : SixCyWriter) (r : Result IoError (Unit {0}) × SixCyWriter)
    (next : SixCyWriter → Result IoError (Unit {0}) × SixCyWriter)
    → Appends w r.1
    → ((v : SixCyWriter) → AtEnd v.writer → Appends v (next v).1)
    → Appends w (then_on r (λ _ v. next v)).1
then_on-Appends w (ok u, v) next g h = Appends-trans w v (next v).1 g (h v g.at_end)
then_on-Appends w (err e, v) next g h = g

module _ (L : Libs) (H : Host) where
  compress_solid-Appends :
      (codec : CodecId) (w : SixCyWriter)
      → AtEnd w.writer
      → Appends w (compress_solid L H codec w).1
  unfolding compress_solid store_solid
  compress_solid-Appends codec w end =
      elim (Result-cases (
        encode_block L solid_block file_id_shared 0 w.solid_buffer codec w.compression_level
          w.encryption_key (H.nonce w.drawn))) [
            | inl ((h, p), e) ↦
                let (bytes, end') = write_block-AtEnd L h p w.writer end in
                rw (e, compress_solid)
                  (record {
                    at_end = end';
                    more = block_bytes L h p;
                    appended = bytes;
                    built = λ b. b;
                  })
            | inr (x, e) ↦
                rw (e, compress_solid)
                  (record {
                    at_end = end;
                    more = [];
                    appended = sym (append-nil w.writer.bytes);
                    built = λ b. b;
                  })
          ]

  flush_codec-Appends :
      (o : Option CodecId) (w : SixCyWriter) → AtEnd w.writer → Appends w (flush_codec L H o w).1
  unfolding flush_codec
  flush_codec-Appends none w end = Appends-refl w end
  flush_codec-Appends (some c) w end = elim (Bool-cases (leb (length w.solid_buffer) 0)) [
    | inl empty ↦
        rw (empty, flush_codec)
          (record {
            at_end = end;
            more = [];
            appended = sym (append-nil w.writer.bytes);
            built = λ b. b;
          })
    | inr full ↦
        let v : SixCyWriter = record w {
          solid_codec = none;
          superblock = add_required_codec c w.superblock;
        } in
        let g = compress_solid-Appends c v end in
        rw (full, flush_codec)
          (record {
            at_end = g.at_end;
            more = g.more;
            appended = g.appended;
            built = λ b. g.built (add_required_codec-IsBuilt c w.superblock b);
          })
  ]

  flush-Appends : (w : SixCyWriter) → AtEnd w.writer → Appends w (flush_solid_session L H w).1
  unfolding flush_solid_session
  flush-Appends w end = flush_codec-Appends w.solid_codec w end

  session-Appends :
      (c : CodecId) (fs : List Input) (w : SixCyWriter)
      → AtEnd w.writer
      → Appends w (session L H c fs w).1
  unfolding session start_solid_session
  session-Appends c fs w end =
      then_on-Appends w (start_solid_session L H c w) _
        (then_on-Appends w (flush_solid_session L H w)
          (λ v. (ok tt, record v { solid_codec = some c })) (flush-Appends w end)
          (λ v e. record {
            at_end = e;
            more = [];
            appended = sym (append-nil v.writer.bytes);
            built = λ b. b;
          }))
        (λ v e.
          then_on-Appends v (add_files L H fs v) (λ u. flush_solid_session L H u)
            (Grows-Appends v _ (add_files-Grows L H fs v e)) (λ u k. flush-Appends u k))

  pub pack_batch-Appends :
      (b : Batch) (w : SixCyWriter) → AtEnd w.writer → Appends w (pack_batch L H b w).1
  unfolding pack_batch
  pack_batch-Appends (single f) w end =
      Grows-Appends w _ (add_file-Grows L H f.name f.contents f.codec w end)
  pack_batch-Appends (solid c fs) w end = session-Appends c fs w end

  pub pack-Appends :
      (bs : List Batch) (w : SixCyWriter) → AtEnd w.writer → Appends w (pack L H bs w).1
  unfolding pack
  pack-Appends [] w end = Appends-refl w end
  pack-Appends (b ∷ bs) w end =
      then_on-Appends w (pack_batch L H b w) (λ v. pack L H bs v) (pack_batch-Appends b w end)
        (λ v e. pack-Appends bs v e)
