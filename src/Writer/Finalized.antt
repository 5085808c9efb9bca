-- ===== src/Writer/Finalized.antt =====
-- What `finalize` of src/io_stream/mod.rs leaves in the file where it succeeds, outside solid mode.
use cy.Common.{
  ◌≡◌, refl, ap, ◌∙◌, none, some, ◌++◌, ok, Result-cases, Option-cases, inl, inr, length, drop,
}
use cy.Bytes.{Bytes, to_le_bytes}
use cy.Libs.{Libs}
use cy.Io.{write_all}
use cy.Io.Append.{AtEnd, write_all-AtEnd, write_all-front}
use cy.Codec.{CodecId}
use cy.Block.{BlockHeader, index_block, file_id_shared}
use cy.Block.Payload.{encode_block}
use cy.Superblock
use cy.Superblock.{Superblock}
use cy.Index.{Json, compute_root_hash}
use cy.Writer.{
  Host, SixCyWriter, default_compression_level, flush_solid_session, flush_codec, write_block,
  then_on,
}
use cy.Writer.Finish.{patched, write_superblock, write_tail, write_index, finalize}
use cy.Writer.Blocks.{block_bytes, write_block-AtEnd}

module _ (L : Libs) (J : Json) (H : Host) where
  -- What a `finalize` that succeeds has written.
  pub record Tail (w w' : SixCyWriter) (h : BlockHeader) (on_disk : Bytes) : Type 0 where
    pub recovery : Bytes
    pub front : Bytes
    pub written :
        Superblock.write L (patched w.writer.pos (length on_disk) w.encryption_key w.superblock)
        ≡ some front
    pub bytes :
        w'.writer.bytes
        ≡ front
          ++ drop (length front) (
              ((w.writer.bytes ++ block_bytes L h on_disk) ++ to_le_bytes 8 (length recovery))
              ++ recovery)

  write_superblock-ok :
      (w : SixCyWriter)
      → (write_superblock L J H w).0 ≡ ok tt
      → (front : Bytes) × (Superblock.write L w.superblock ≡ some front)
        × ((write_superblock L J H w).1.writer ≡ write_all front w.writer)
  unfolding write_superblock
  write_superblock-ok w = elim (Option-cases (Superblock.write L w.superblock)) [
    | inl e ↦ rw (e, write_superblock) (λ q. cc q)
    | inr (front, e) ↦ rw (e, write_superblock) (λ q. (front, refl, refl))
  ]

  -- The file before the superblock is written over its front.
  abbrev pub body : SixCyWriter → BlockHeader → Bytes → Bytes → Bytes
  body w h on_disk recovery =
      ((w.writer.bytes ++ block_bytes L h on_disk) ++ to_le_bytes 8 (length recovery)) ++ recovery

  body-bytes :
      (h : BlockHeader) (on_disk recovery : Bytes) (w : SixCyWriter)
      → AtEnd w.writer
      → (write_all recovery
          (write_all (to_le_bytes 8 (length recovery)) (write_block L h on_disk w.writer))).bytes
        ≡ body w h on_disk recovery
  body-bytes h on_disk recovery w end =
      let prefix : Bytes = to_le_bytes 8 (length recovery) in
      let (b1, end1) = write_block-AtEnd L h on_disk w.writer end in
      let (b2, end2) = write_all-AtEnd prefix (write_block L h on_disk w.writer) end1 in
      let (b3, _) =
        write_all-AtEnd recovery (write_all prefix (write_block L h on_disk w.writer)) end2 in
      b3 ∙ ap (λ b. b ++ recovery) (b2 ∙ ap (λ b. b ++ prefix) b1)

  write_tail-Tail :
      (h : BlockHeader) (on_disk : Bytes) (w : SixCyWriter)
      → AtEnd w.writer
      → (write_tail L J H h on_disk w).0 ≡ ok tt
      → Tail w (write_tail L J H h on_disk w).1 h on_disk
  unfolding write_tail
  write_tail-Tail h on_disk w end = elim (Result-cases (J.recovery_to_vec w.recovery_map)) [
    | inr (x, e) ↦ rw (e, write_tail) (λ q. cc q)
    | inl (rb, e) ↦
        rw (e, write_tail)
          (λ q.
            let (front, written, file) = write_superblock-ok _ q in
            record {
              recovery = rb;
              front = front;
              written = written;
              bytes =
                  ap (λ f. f.bytes) file
                  ∙ write_all-front front _
                  ∙ ap (λ b. front ++ drop (length front) b) (body-bytes h on_disk rb w end);
            })
  ]

  -- A `finalize` that succeeds, outside solid mode.
  pub record Finalized (w w' : SixCyWriter) : Type 0 where
    pub payload : Bytes
    pub header : BlockHeader
    pub on_disk : Bytes
    pub listed : J.index_to_vec (compute_root_hash L w.index) ≡ ok payload
    pub encoded :
        encode_block L index_block file_id_shared 0 payload CodecId.zstd default_compression_level
          none
          (H.nonce w.drawn)
        ≡ ok (header, on_disk)
    pub tail : Tail w w' header on_disk

  -- The index with its root hash.
  abbrev hashed : SixCyWriter → SixCyWriter
  hashed w = record w { index = compute_root_hash L w.index }

  write_index-Finalized :
      (payload : Bytes) (w : SixCyWriter)
      → AtEnd w.writer
      → J.index_to_vec (compute_root_hash L w.index) ≡ ok payload
      → (write_index L J H payload (hashed w)).0 ≡ ok tt
      → Finalized w (write_index L J H payload (hashed w)).1
  unfolding write_index
  write_index-Finalized payload w end listed =
      elim (Result-cases (
        encode_block L index_block file_id_shared 0 payload CodecId.zstd default_compression_level
          none (H.nonce w.drawn))) [
            | inr (x, e) ↦ rw (e, write_index) (λ q. cc q)
            | inl ((h, on_disk), e) ↦
                rw (e, write_index)
                  (λ q.
                    let t = write_tail-Tail h on_disk (hashed w) end q in
                    record {
                      payload = payload;
                      header = h;
                      on_disk = on_disk;
                      listed = listed;
                      encoded = e;
                      tail = record {
                        recovery = t.recovery;
                        front = t.front;
                        written = t.written;
                        bytes = t.bytes;
                      };
                    })
          ]

  pub flush_idle : (w : SixCyWriter) → w.solid_codec ≡ none → flush_solid_session L H w ≡ (ok tt, w)
  unfolding flush_solid_session flush_codec
  flush_idle w q = ap (λ o. flush_codec L H o w) q

  pub finalize-Finalized :
      (w : SixCyWriter)
      → AtEnd w.writer
      → w.solid_codec ≡ none
      → (finalize L J H w).0 ≡ ok tt
      → Finalized w (finalize L J H w).1
  unfolding finalize
  finalize-Finalized w end idle =
      elim (Result-cases (J.index_to_vec (compute_root_hash L w.index))) [
        | inr (x, e) ↦ rw (flush_idle w idle, finalize) (rw (e, then_on) (λ q. cc q))
        | inl (payload, e) ↦
            rw (flush_idle w idle, finalize)
              (rw (e, then_on) (write_index-Finalized payload w end e))
      ]
