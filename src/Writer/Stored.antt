-- ===== src/Writer/Stored.antt =====
-- What the loop over the chunks in `add_file` of src/io_stream/mod.rs leaves behind: references from which
-- the chunks can be read, for those written and for those found.
use cy.Common.{
  ℕ, ◌+◌, ◌^◌, ◌≤◌, ◌<◌, ◌≡◌, refl, sym, ap, ◌∙◌, subst, Option, some, List, [], ◌∷◌, ◌++◌, Result,
  ok, Option-cases, Result-cases, ok_injective, inl, inr, arith, length, All, length-append,
}
use cy.Bytes.{Bytes}
use cy.Errors.{IoError}
use cy.Libs.{Libs, IsHashes, IsLossless, IsAead}
use cy.Io.Append.{AtEnd}
use cy.Codec.{CodecId}
use cy.Block
use cy.Block.{BlockHeader, data_block}
use cy.Block.Payload.{encode_block}
use cy.Index.{BlockRef, FileIndexRecord}
use cy.Reader.Stable.{Holds, Keeps, Reads, append-Keeps, Keeps-Reads, Reads-snoc}
use cy.Writer.{Host, Known, SixCyWriter, write_block}
use cy.Writer.Files.{find_known, reuse_block, store_chunk, new_chunk, add_chunk}
use cy.Writer.Blocks.{block_bytes, write_block-AtEnd, encode-Holds}
use cy.Writer.Chunks.{find_known-eq-some}

module _ (L : Libs) (key : Option Bytes) (P : Bytes → Type 0) where
  -- Every reference to the whole block at an offset holds `contents`.
  unfoldable pub HoldsAt : Bytes → ℕ → Bytes → Type 0
  HoldsAt file offset contents =
      (br : BlockRef)
      → br.archive_offset ≡ offset
      → br.intra_length ≡ 0
      → Holds L key file br contents

  -- An entry of `block_dedup` names a block whose data, one of the chunks, has the entry's hash.
  unfoldable pub IsSound : Bytes → Known → Type 0
  IsSound file k =
      (contents : Bytes) × P contents
      × (L.blake3 contents ≡ k.hash)
      × HoldsAt file k.archive_offset contents

  pub record Store (w : SixCyWriter) : Type 0 where
    pub at_end : AtEnd w.writer
    pub past : 256 ≤ length w.writer.bytes
    pub keyed : w.encryption_key ≡ key
    pub sound : All (IsSound w.writer.bytes) w.block_dedup

  -- The fields that adding chunks leaves as they are.
  pub record Same (w w' : SixCyWriter) : Type 0 where
    pub same_index : w'.index ≡ w.index
    pub same_superblock : w'.superblock ≡ w.superblock
    pub same_codec : w'.solid_codec ≡ w.solid_codec
    pub same_size : w'.chunk_size ≡ w.chunk_size
    pub same_buffer : w'.solid_buffer ≡ w.solid_buffer
    pub same_ranges : w'.solid_file_ranges ≡ w.solid_file_ranges

  -- Adding to the record for `out` the chunks that make `more`.
  pub record Step (w w' : SixCyWriter) (rec rec' : FileIndexRecord) (out : Bytes) : Type 0 where
    pub store : Store w'
    pub keeps : Keeps L key w.writer.bytes w'.writer.bytes
    pub reads : Reads L key w'.writer.bytes rec'.block_refs out
    pub same : Same w w'
    pub same_id : rec'.id ≡ rec.id
    pub same_size : rec'.original_size ≡ rec.original_size

  -- What holds of a result: if it is a record and the file is below 4 GiB, the step was made.
  unfoldable pub Good :
      SixCyWriter → FileIndexRecord → Bytes → Result IoError FileIndexRecord × SixCyWriter → Type 0
  Good w rec out r =
      (rec' : FileIndexRecord)
      → r.0 ≡ ok rec'
      → length r.1.writer.bytes < 2 ^ 32
      → Step w r.1 rec rec' out

  pub IsSound-Keeps :
      (file file' : Bytes) (ks : List Known)
      → Keeps L key file file'
      → All (IsSound file) ks
      → All (IsSound file') ks
  unfolding Keeps IsSound HoldsAt
  IsSound-Keeps file file' [] keeps all = tt
  IsSound-Keeps file file' (k ∷ ks) keeps ((c, pc, hash, holds), all) = (
    (c, pc, hash, λ br at whole. keeps br c (holds br at whole)),
    IsSound-Keeps file file' ks keeps all,
  )

  -- The record with a reference to a block that holds the chunk.
  reuse_block-Reads :
      (file : Bytes) (k : Known) (rec : FileIndexRecord) (out chunk : Bytes)
      → Reads L key file rec.block_refs out
      → HoldsAt file k.archive_offset chunk
      → Reads L key file (reuse_block k rec).block_refs (out ++ chunk)
  unfolding reuse_block HoldsAt
  reuse_block-Reads file k rec out chunk reads holds =
      Reads-snoc L key file rec.block_refs _ out chunk reads (holds _ refl refl)

module _ (L : Libs) (hashes : IsHashes L) (lossless : IsLossless L) (aead : IsAead L) (H : Host)
    (nonces : (n : ℕ) → length (H.nonce n) ≡ 12) (key : Option Bytes) (P : Bytes → Type 0)
    (free : (a b : Bytes) → P a → P b → L.blake3 a ≡ L.blake3 b → a ≡ b) where
  -- The stored chunk can be read at the old end of the file.
  new_chunk-HoldsAt :
      (w : SixCyWriter) (file_id file_offset : ℕ) (codec : CodecId) (chunk : Bytes)
      (h : BlockHeader) (payload : Bytes)
      → Store L key P w
      → file_id < 2 ^ 32
      → file_offset < 2 ^ 64
      → encode_block L data_block file_id file_offset chunk codec w.compression_level
          w.encryption_key
          (H.nonce w.drawn)
        ≡ ok (h, payload)
      → length (w.writer.bytes ++ block_bytes L h payload) < 2 ^ 32
      → HoldsAt L key P (w.writer.bytes ++ block_bytes L h payload) w.writer.pos chunk
  unfolding HoldsAt
  new_chunk-HoldsAt w file_id file_offset codec chunk h payload s fi fo e small br at whole =
      let size : length payload < 2 ^ 32 = omega (
        arith,
        length-append w.writer.bytes (block_bytes L h payload),
        length-append (Block.write L h) payload,
      ) in
      encode-Holds L hashes lossless aead w.writer.bytes data_block file_id file_offset chunk codec
        w.compression_level key (H.nonce w.drawn) h payload br (nonces w.drawn) fi fo
        (ap
            (λ k.
              encode_block L data_block file_id file_offset chunk codec w.compression_level k
                (H.nonce w.drawn))
            (sym s.keyed)
          ∙ e)
        size s.past (at ∙ s.at_end) whole

  -- The entry that a new chunk makes.
  abbrev entry : SixCyWriter → Bytes → Bytes → Known
  entry w chunk payload = record {
    hash = L.blake3 chunk;
    archive_offset = w.writer.pos;
    comp_len = length payload;
  }

  store_chunk-Step :
      (w : SixCyWriter) (file_id file_offset : ℕ) (codec : CodecId) (chunk : Bytes)
      (rec : FileIndexRecord) (out : Bytes) (h : BlockHeader) (payload : Bytes)
      → Store L key P w
      → Reads L key w.writer.bytes rec.block_refs out
      → P chunk
      → file_id < 2 ^ 32
      → file_offset < 2 ^ 64
      → encode_block L data_block file_id file_offset chunk codec w.compression_level
          w.encryption_key
          (H.nonce w.drawn)
        ≡ ok (h, payload)
      → length (write_block L h payload w.writer).bytes < 2 ^ 32
      → Step L key P w
          (store_chunk L H (L.blake3 chunk) h payload w)
          rec
          (reuse_block (entry w chunk payload) rec)
          (out ++ chunk)
  unfolding store_chunk IsSound
  store_chunk-Step w file_id file_offset codec chunk rec out h payload s reads pc fi fo e small =
      let (bytes, end) = write_block-AtEnd L h payload w.writer s.at_end in
      let longer : length (write_block L h payload w.writer).bytes
          ≡ length w.writer.bytes + length (block_bytes L h payload) =
        ap (length {A = ℕ}) bytes ∙ length-append w.writer.bytes (block_bytes L h payload) in
      let keeps : Keeps L key w.writer.bytes (write_block L h payload w.writer).bytes =
        rw bytes (append-Keeps L key w.writer.bytes (block_bytes L h payload)) in
      let holds : HoldsAt L key P (write_block L h payload w.writer).bytes w.writer.pos chunk =
        rw bytes (
          new_chunk-HoldsAt w file_id file_offset codec chunk h payload s fi fo e
            (rw bytes at small)) in
      record {
        store = record {
          at_end = end;
          past = (let p : 256 ≤ length w.writer.bytes = s.past in omega arith);
          keyed = s.keyed;
          sound = (
            (chunk, pc, refl, holds),
            IsSound-Keeps L key P w.writer.bytes _ w.block_dedup keeps s.sound,
          );
        };
        keeps = keeps;
        reads =
            reuse_block-Reads L key P _ (entry w chunk payload) rec out chunk
              (Keeps-Reads L key w.writer.bytes _ rec.block_refs out keeps reads) holds;
        same = record {
          same_index = refl;
          same_superblock = refl;
          same_codec = refl;
          same_size = refl;
          same_buffer = refl;
          same_ranges = refl;
        };
        same_id = unfold reuse_block in refl;
        same_size = unfold reuse_block in refl;
      }

  new_chunk-Good :
      (w : SixCyWriter) (file_id file_offset : ℕ) (codec : CodecId) (chunk : Bytes)
      (rec : FileIndexRecord) (out : Bytes)
      → Store L key P w
      → Reads L key w.writer.bytes rec.block_refs out
      → P chunk
      → file_id < 2 ^ 32
      → file_offset < 2 ^ 64
      → Good L key P w rec (out ++ chunk) (new_chunk L H file_id file_offset codec chunk rec w)
  unfolding Good new_chunk
  new_chunk-Good w file_id file_offset codec chunk rec out s reads pc fi fo =
      elim (Result-cases (
        encode_block L data_block file_id file_offset chunk codec w.compression_level
          w.encryption_key (H.nonce w.drawn))) [
            | inr (x, e) ↦ rw (e, new_chunk) (λ rec' q small. cc q)
            | inl ((h, payload), e) ↦
                rw (e, new_chunk)
                  (λ rec' q small.
                    subst
                      (λ r.
                        Step L key P w (store_chunk L H (L.blake3 chunk) h payload w) rec r
                          (out ++ chunk))
                      (ok_injective q)
                      (store_chunk-Step w file_id file_offset codec chunk rec out h payload s reads
                        pc fi fo e (unfold store_chunk in small)))
          ]

  known-Step :
      (w : SixCyWriter) (chunk : Bytes) (rec : FileIndexRecord) (out : Bytes) (k : Known)
      → Store L key P w
      → Reads L key w.writer.bytes rec.block_refs out
      → P chunk
      → find_known (L.blake3 chunk) w.block_dedup ≡ some k
      → Step L key P w w rec (reuse_block k rec) (out ++ chunk)
  unfolding IsSound HoldsAt Keeps
  known-Step w chunk rec out k s reads pc found =
      let ((c, p, hash, holds), named) =
        find_known-eq-some (L.blake3 chunk) w.block_dedup k (IsSound L key P w.writer.bytes) s.sound
          found in
      let same : c ≡ chunk = free c chunk p pc (hash ∙ named) in
      record {
        store = s;
        keeps = λ br contents h. h;
        reads =
            reuse_block-Reads L key P w.writer.bytes k rec out chunk reads
              (subst (HoldsAt L key P w.writer.bytes k.archive_offset) same holds);
        same = record {
          same_index = refl;
          same_superblock = refl;
          same_codec = refl;
          same_size = refl;
          same_buffer = refl;
          same_ranges = refl;
        };
        same_id = unfold reuse_block in refl;
        same_size = unfold reuse_block in refl;
      }

  pub add_chunk-Good :
      (w : SixCyWriter) (file_id i : ℕ) (codec : CodecId) (chunk : Bytes) (rec : FileIndexRecord)
      (out : Bytes)
      → Store L key P w
      → Reads L key w.writer.bytes rec.block_refs out
      → P chunk
      → file_id < 2 ^ 32
      → Good L key P w rec (out ++ chunk) (add_chunk L H file_id codec i chunk rec w)
  unfolding add_chunk Good
  add_chunk-Good w file_id i codec chunk rec out s reads pc fi =
      elim (Option-cases (find_known (L.blake3 chunk) w.block_dedup)) [
        | inl e ↦
            rw (e, add_chunk)
              (new_chunk-Good w file_id _ codec chunk rec out s reads pc fi (omega arith))
        | inr (k, e) ↦
            rw (e, add_chunk)
              (λ rec' q small.
                subst (λ r. Step L key P w w rec r (out ++ chunk)) (ok_injective q)
                  (known-Step w chunk rec out k s reads pc e))
      ]
