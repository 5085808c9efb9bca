-- ===== src/Writer/Chunks.antt =====
-- The loop over the chunks in `add_file` of src/io_stream/mod.rs: every chunk can be read back, written
-- or found.
use cy.Common.{
  refl, ℕ, ◌+◌, ◌≤◌, ◌≡◌, sym, ap, ◌∙◌, subst, Bool-cases, some, List, [], ◌∷◌, ◌++◌, append_assoc,
  append-nil, Option-cases, Result-cases, some_injective, inl, inr, arith, length, All,
  length-append,
}
use cy.Bytes.{Bytes, bytes_eq}
use cy.Bytes.Laws.{bytes_eq→eq}
use cy.Libs.{Libs}
use cy.Io.Append.{AtEnd}
use cy.Codec.{CodecId}
use cy.Block.{data_block}
use cy.Block.Payload.{encode_block}
use cy.Index.{FileIndexRecord}
use cy.Superblock.Required.{IsBuilt}
use cy.Writer.{Host, Known, SixCyWriter}
use cy.Writer.Files.{find_known, store_chunk, new_chunk, add_chunk, add_chunks}
use cy.Writer.Blocks.{block_bytes, write_block-AtEnd}

-- The second state's file is the first one's with bytes behind it, the mode is the same,
-- and a well-built superblock still is.
pub record Grows (w w' : SixCyWriter) : Type 0 where
  pub at_end : AtEnd w'.writer
  pub more : Bytes
  pub appended : w'.writer.bytes ≡ w.writer.bytes ++ more
  pub same_mode : w'.solid_codec ≡ w.solid_codec
  pub built : IsBuilt w.superblock → IsBuilt w'.superblock

pub Grows-refl : (w : SixCyWriter) → AtEnd w.writer → Grows w w
Grows-refl w end = record {
  at_end = end;
  more = [];
  appended = sym (append-nil w.writer.bytes);
  same_mode = refl;
  built = λ b. b;
}

pub Grows-trans : (a b c : SixCyWriter) → Grows a b → Grows b c → Grows a c
Grows-trans a b c g h = record {
  at_end = h.at_end;
  more = g.more ++ h.more;
  appended =
      h.appended ∙ ap (λ x. x ++ h.more) g.appended ∙ append_assoc a.writer.bytes g.more h.more;
  same_mode = h.same_mode ∙ g.same_mode;
  built = λ b. h.built (g.built b);
}

pub Grows-length :
    (w w' : SixCyWriter) → Grows w w' → length w.writer.bytes ≤ length w'.writer.bytes
Grows-length w w' g =
    omega (arith, ap (length {A = ℕ}) g.appended, length-append w.writer.bytes g.more)

pub find_known-eq-some :
    (h : Bytes) (ks : List Known) (k : Known) (Q : Known → Type 0)
    → All Q ks
    → find_known h ks ≡ some k
    → Q k × (k.hash ≡ h)
unfolding find_known
find_known-eq-some h [] k Q all e = cc
find_known-eq-some h (x ∷ ks) k Q all e = elim (Bool-cases (bytes_eq x.hash h)) [
  | inl hit ↦
      let same : x ≡ k = some_injective (rw hit at e) in
      (subst Q same all.0, ap (λ y. y.hash) (sym same) ∙ bytes_eq→eq x.hash h hit)
  | inr miss ↦ find_known-eq-some h ks k Q all.1 (rw miss at e)
]

module _ (L : Libs) (H : Host) where
  new_chunk-Grows :
      (file_id file_offset : ℕ) (codec : CodecId) (chunk : Bytes) (rec : FileIndexRecord)
      (w : SixCyWriter)
      → AtEnd w.writer
      → Grows w (new_chunk L H file_id file_offset codec chunk rec w).1
  unfolding new_chunk store_chunk
  new_chunk-Grows file_id file_offset codec chunk rec w end =
      elim (Result-cases (
        encode_block L data_block file_id file_offset chunk codec w.compression_level
          w.encryption_key (H.nonce w.drawn))) [
            | inl ((h, payload), e) ↦
                let (bytes, end') = write_block-AtEnd L h payload w.writer end in
                rw (e, new_chunk)
                  (record {
                    at_end = end';
                    more = block_bytes L h payload;
                    appended = bytes;
                    same_mode = refl;
                    built = λ b. b;
                  })
            | inr (x, e) ↦
                rw (e, new_chunk)
                  (record {
                    at_end = end;
                    more = [];
                    appended = sym (append-nil w.writer.bytes);
                    same_mode = refl;
                    built = λ b. b;
                  })
          ]

  pub add_chunk-Grows :
      (file_id : ℕ) (codec : CodecId) (i : ℕ) (chunk : Bytes) (rec : FileIndexRecord)
      (w : SixCyWriter)
      → AtEnd w.writer
      → Grows w (add_chunk L H file_id codec i chunk rec w).1
  unfolding add_chunk
  add_chunk-Grows file_id codec i chunk rec w end =
      elim (Option-cases (find_known (L.blake3 chunk) w.block_dedup)) [
        | inl e ↦ rw (e, add_chunk) (new_chunk-Grows file_id _ codec chunk rec w end)
        | inr (k, e) ↦ rw (e, add_chunk) (Grows-refl w end)
      ]

  pub add_chunks-Grows :
      (file_id : ℕ) (codec : CodecId) (i : ℕ) (cs : List Bytes) (rec : FileIndexRecord)
      (w : SixCyWriter)
      → AtEnd w.writer
      → Grows w (add_chunks L H file_id codec i cs rec w).1
  unfolding add_chunks
  add_chunks-Grows file_id codec i [] rec w end = Grows-refl w end
  add_chunks-Grows file_id codec i (c ∷ cs) rec w end =
      let g = add_chunk-Grows file_id codec i c rec w end in
      let w1 : SixCyWriter = (add_chunk L H file_id codec i c rec w).1 in
      elim (Result-cases (add_chunk L H file_id codec i c rec w).0) [
        | inl (rec1, e) ↦
            rw (e, add_chunks)
              (Grows-trans w w1 _ g (add_chunks-Grows file_id codec (i + 1) cs rec1 w1 g.at_end))
        | inr (x, e) ↦ rw (e, add_chunks) g
      ]
