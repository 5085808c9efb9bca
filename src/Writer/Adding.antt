-- ===== src/Writer/Adding.antt =====
-- `add_file` of src/io_stream/mod.rs outside solid mode, and a sequence of such calls: the record that is
-- pushed reads back as the file.
use cy.Common.{
  ℕ, zero, suc, ◌+◌, ◌^◌, ◌≤◌, ◌<◌, ◌≡◌, refl, sym, ◌∙◌, subst, Option, List, [], ◌∷◌, ◌++◌,
  append_assoc, append-nil, Result-cases, ok_injective, inl, inr, arith, length, drop, All,
  length-drop, take-append-drop,
}
use cy.Bytes.{Bytes}
use cy.Bytes.Layout.{concat}
use cy.Libs.{Libs, IsHashes, IsLossless, IsAead}
use cy.Codec.{CodecId}
use cy.Index.{FileIndexRecord}
use cy.Reader.Stable.{Keeps, Reads}
use cy.Writer.{Host, SixCyWriter}
use cy.Writer.Files.{chunks_fuel, chunks, add_chunk, add_chunks}
use cy.Writer.Chunks.{Grows-length, add_chunk-Grows, add_chunks-Grows}
use cy.Writer.Stored.{Store, Same, Step, Good, add_chunk-Good}

-- The chunks make up the data.
concat-chunks_fuel :
    (fuel n : ℕ) (d : Bytes) → 1 ≤ n → length d ≤ fuel → concat (chunks_fuel fuel n d) ≡ d
unfolding chunks_fuel
concat-chunks_fuel fuel n [] pos h = refl
concat-chunks_fuel zero n (x ∷ xs) pos h = absurd (omega arith)
concat-chunks_fuel (suc fuel) n (x ∷ xs) pos h =
    rw (concat-chunks_fuel fuel n (drop n (x ∷ xs)) pos (omega (arith, length-drop n (x ∷ xs))))
      (take-append-drop n (x ∷ xs))

pub concat-chunks : (n : ℕ) (d : Bytes) → 1 ≤ n → concat (chunks n d) ≡ d
unfolding chunks
concat-chunks n d pos = concat-chunks_fuel (length d) n d pos (omega arith)

module _ (L : Libs) (key : Option Bytes) (P : Bytes → Type 0) where
  Same-trans : (a b c : SixCyWriter) → Same L key P a b → Same L key P b c → Same L key P a c
  Same-trans a b c s t = record {
    same_index = t.same_index ∙ s.same_index;
    same_superblock = t.same_superblock ∙ s.same_superblock;
    same_codec = t.same_codec ∙ s.same_codec;
    same_size = t.same_size ∙ s.same_size;
    same_buffer = t.same_buffer ∙ s.same_buffer;
    same_ranges = t.same_ranges ∙ s.same_ranges;
  }

  Step-trans :
      (a b c : SixCyWriter) (r r' r'' : FileIndexRecord) (out out' : Bytes)
      → Step L key P a b r r' out
      → Step L key P b c r' r'' out'
      → Step L key P a c r r'' out'
  unfolding Keeps
  Step-trans a b c r r' r'' out out' s t = record {
    store = t.store;
    keeps = λ br contents h. t.keeps br contents (s.keeps br contents h);
    reads = t.reads;
    same = Same-trans a b c s.same t.same;
    same_id = t.same_id ∙ s.same_id;
    same_size = t.same_size ∙ s.same_size;
  }

  Step-refl :
      (w : SixCyWriter) (r : FileIndexRecord) (out : Bytes)
      → Store L key P w
      → Reads L key w.writer.bytes r.block_refs out
      → Step L key P w w r r (out ++ [])
  unfolding Keeps
  Step-refl w r out s reads = record {
    store = s;
    keeps = λ br contents h. h;
    reads = subst (Reads L key w.writer.bytes r.block_refs) (sym (append-nil out)) reads;
    same = record {
      same_index = refl;
      same_superblock = refl;
      same_codec = refl;
      same_size = refl;
      same_buffer = refl;
      same_ranges = refl;
    };
    same_id = refl;
    same_size = refl;
  }

module _ (L : Libs) (hashes : IsHashes L) (lossless : IsLossless L) (aead : IsAead L) (H : Host)
    (nonces : (n : ℕ) → length (H.nonce n) ≡ 12) (key : Option Bytes) (P : Bytes → Type 0)
    (free : (a b : Bytes) → P a → P b → L.blake3 a ≡ L.blake3 b → a ≡ b) where
  pub add_chunks-Good :
      (w : SixCyWriter) (file_id i : ℕ) (codec : CodecId) (cs : List Bytes) (rec : FileIndexRecord)
      (out : Bytes)
      → Store L key P w
      → Reads L key w.writer.bytes rec.block_refs out
      → All P cs
      → file_id < 2 ^ 32
      → Good L key P w rec (out ++ concat cs) (add_chunks L H file_id codec i cs rec w)
  unfolding add_chunks Good
  add_chunks-Good w file_id i codec [] rec out s reads pcs fi = λ rec' q small.
      subst (λ r. Step L key P w w rec r (out ++ [])) (ok_injective q)
        (Step-refl L key P w rec out s reads)
  add_chunks-Good w file_id i codec (c ∷ cs) rec out s reads pcs fi =
      let r1 = add_chunk L H file_id codec i c rec w in
      let g1 = add_chunk-Grows L H file_id codec i c rec w s.at_end in
      let good =
        add_chunk-Good L hashes lossless aead H nonces key P free w file_id i codec c rec out s
          reads pcs.0 fi in
      elim (Result-cases r1.0) [
        | inr (x, e) ↦ rw (e, add_chunks) (λ rec' q small. cc q)
        | inl (rec1, e) ↦
            rw (e, add_chunks)
              (λ rec' q small.
                let grown =
                  Grows-length r1.1 _
                    (add_chunks-Grows L H file_id codec (i + 1) cs rec1 r1.1 g1.at_end) in
                let first = good rec1 e (omega arith) in
                let rest =
                  add_chunks-Good r1.1 file_id (i + 1) codec cs rec1 (out ++ c) first.store
                    first.reads pcs.1 fi rec' q small in
                subst (Step L key P w _ rec rec') (append_assoc out c (concat cs)) (
                  Step-trans L key P w r1.1 _ rec rec1 rec' (out ++ c) ((out ++ c) ++ concat cs)
                    first rest))
      ]
