-- ===== src/Writer/Opening.antt =====
-- A finalized archive of src/io_stream/mod.rs, opened by the reader.
use cy.Common.{
  ℕ, ◌+◌, ◌-◌, ◌^◌, ◌≤◌, ◌<◌, ◌≡◌, refl, sym, ap, ◌∙◌, subst, Option, none, some, [], ◌++◌, ok, inl,
  inr, arith, length, drop, take, All, >>=-eq-ok, map_err, map_err-eq-ok, ok_injective,
  length-append, length-take, length-drop, take-append-drop, some_injective, Bool-cases, leb,
  leb→le, replicate, length-replicate,
}
use cy.Bytes.{Bytes, to_le_bytes}
use cy.Libs.{Libs, IsHashes, IsLossless, IsAead}
use cy.Io.Append.{AtEnd}
use cy.Codec.{CodecId}
use cy.Block
use cy.Block.{BlockHeader, index_block, file_id_shared}
use cy.Block.Payload.{decode_block}
use cy.Superblock
use cy.Superblock.{Superblock, IsSuperblock, pad}
use cy.Superblock.Parts.{IsKnown}
use cy.Superblock.Laws.{read-write_superblock}
use cy.Index.{BlockRef, is_solid_slice, Json, IsJson, compute_root_hash}
use cy.Reader.{SixCyReader, read_block_at, slice_of, decompress_ref, with_key}
use cy.Reader.Stable.{Holds, Keeps, append-Keeps, front-Keeps}
use cy.Writer.{Host, SixCyWriter, default_compression_level}
use cy.Writer.Finish.{patched}
use cy.Writer.Blocks.{block_bytes, encode-Holds}
use cy.Writer.Finalized.{Finalized, body}

patched-IsSuperblock :
    (o s : ℕ) (key : Option Bytes) (sb : Superblock)
    → o < 2 ^ 64
    → s < 2 ^ 64
    → sb.flags ≡ 0
    → IsSuperblock sb
    → IsSuperblock (patched o s key sb)
unfolding patched
patched-IsSuperblock o s none sb ho hs plain v = record {
  magic_const = v.magic_const;
  version_u32 = v.version_u32;
  version_min = v.version_min;
  uuid_width = v.uuid_width;
  flags_u32 = v.flags_u32;
  index_offset_u64 = ho;
  index_size_u64 = hs;
  codec_widths = v.codec_widths;
}
patched-IsSuperblock o s (some key) sb ho hs plain v = record {
  magic_const = v.magic_const;
  version_u32 = v.version_u32;
  version_min = v.version_min;
  uuid_width = v.uuid_width;
  flags_u32 = rw plain (omega arith);
  index_offset_u64 = ho;
  index_size_u64 = hs;
  codec_widths = v.codec_widths;
}

patched-index_offset :
    (o s : ℕ) (key : Option Bytes) (sb : Superblock) → (patched o s key sb).index_offset ≡ o
unfolding patched
patched-index_offset o s none sb = refl
patched-index_offset o s (some key) sb = refl

pub patched-archive_uuid :
    (offset size : ℕ) (key : Option Bytes) (sb : Superblock)
    → (patched offset size key sb).archive_uuid ≡ sb.archive_uuid
unfolding patched
patched-archive_uuid offset size none sb = refl
patched-archive_uuid offset size (some key) sb = refl

pub patched-uuids :
    (o s : ℕ) (key : Option Bytes) (sb : Superblock)
    → (patched o s key sb).required_codec_uuids ≡ sb.required_codec_uuids
unfolding patched
patched-uuids o s none sb = refl
patched-uuids o s (some key) sb = refl

pad-length : (b front : Bytes) → pad b ≡ some front → length front ≡ 256
unfolding pad
pad-length b front e = elim (Bool-cases (leb (length b) 256)) [
  | inl fits ↦
      let le = leb→le (length b) 256 fits in
      let same : b ++ replicate (256 - length b) 0 ≡ front = some_injective (rw fits at e) in
      rw (← same) (
        omega (
          arith,
          length-append b (replicate (256 - length b) 0),
          length-replicate {A = ℕ} (256 - length b) 0,
        ))
  | inr long ↦ cc (e, long)
]

module _ (L : Libs) where
  length-write :
      (sb : Superblock) (front : Bytes) → Superblock.write L sb ≡ some front → length front ≡ 256
  unfolding Superblock.write
  length-write sb front e = pad-length _ front e

  slice_of-whole :
      (br : BlockRef) (d e : Bytes) → br.intra_length ≡ 0 → slice_of L br d ≡ ok e → d ≡ e
  unfolding slice_of is_solid_slice
  slice_of-whole br d e whole h = ok_injective (rw whole at h)

  -- A reference to a whole block is its decoded payload.
  decompress_ref-whole :
      (file : Bytes) (key : Option Bytes) (br : BlockRef) (d : Bytes)
      → br.intra_length ≡ 0
      → decompress_ref L file key br ≡ ok d
      → (h : BlockHeader) × (p : Bytes) × (read_block_at L file br.archive_offset ≡ ok (h, p))
        × (decode_block L h p key ≡ ok d)
  unfolding decompress_ref
  decompress_ref-whole file key br d whole e =
      let ((h, p), found, e1) = >>=-eq-ok (read_block_at L file br.archive_offset) _ e in
      let (x, decoded, e2) = >>=-eq-ok (map_err _ (decode_block L h p key)) _ e1 in
      let same : x ≡ d = slice_of-whole br x d whole e2 in
      (h, p, found, map_err-eq-ok _ (decode_block L h p key) decoded ∙ ap ok same)

  -- What a reference holds behind the superblock, it holds in the finished file.
  pub body-Keeps :
      (H : Host) (J : Json) (key : Option Bytes) (w : SixCyWriter) (h : BlockHeader)
      (on_disk recovery front : Bytes)
      → length front ≡ 256
      → 256 ≤ length w.writer.bytes
      → Keeps L key
          (w.writer.bytes ++ block_bytes L h on_disk)
          (front ++ drop 256 (body L J H w h on_disk recovery))
  unfolding Keeps
  body-Keeps H J key w h on_disk recovery front size past br contents holds =
      let b : Bytes = body L J H w h on_disk recovery in
      let a1 : Bytes = w.writer.bytes ++ block_bytes L h on_disk in
      let a2 : Bytes = a1 ++ to_le_bytes 8 (length recovery) in
      let long : 256 ≤ length b = omega (
        arith,
        length-append a2 recovery,
        length-append a1 (to_le_bytes 8 (length recovery)),
        length-append w.writer.bytes (block_bytes L h on_disk),
      ) in
      let in_body : Holds L key b br contents =
        append-Keeps L key a2 recovery br contents
          (append-Keeps L key a1 (to_le_bytes 8 (length recovery)) br contents holds) in
      front-Keeps L key (take 256 b) front (drop 256 b) (omega (arith, length-take 256 b)) size br
        contents (subst (λ x. Holds L key x br contents) (sym (take-append-drop 256 b)) in_body)

module _ (L : Libs) (hashes : IsHashes L) (lossless : IsLossless L) (aead : IsAead L) (J : Json)
    (json : IsJson J) (H : Host) (nonces : (n : ℕ) → length (H.nonce n) ≡ 12) where
  -- The reader that opens the file.
  abbrev pub opened : Option Bytes → SixCyWriter → SixCyWriter → Superblock → SixCyReader
  opened key w w' sb = record {
    reader = w'.writer.bytes;
    superblock = sb;
    index = compute_root_hash L w.index;
    decryption_key = key;
  }

  -- What the steps of `with_key` read.
  pub record Opens (file : Bytes) (w : SixCyWriter) (sb : Superblock) : Type 0 where
    pub rest : Bytes
    header : BlockHeader
    on_disk : Bytes
    payload : Bytes
    pub superblock_read : Superblock.read L file ≡ ok (sb, rest)
    block_read : read_block_at L file sb.index_offset ≡ ok (header, on_disk)
    decoded : decode_block L header on_disk none ≡ ok payload
    listed : J.index_to_vec (compute_root_hash L w.index) ≡ ok payload

  pub Opens-with_key :
      (key : Option Bytes) (w w' : SixCyWriter) (sb : Superblock)
      → Opens w'.writer.bytes w sb
      → with_key L J w'.writer.bytes key ≡ ok (opened key w w' sb)
  unfolding with_key
  Opens-with_key key w w' sb o = rw (
    o.superblock_read,
    o.block_read,
    o.decoded,
    json.index_back (compute_root_hash L w.index) o.payload o.listed,
  )

  index_ref : ℕ → BlockRef
  index_ref offset = record {
    content_hash = [];
    archive_offset = offset;
    intra_offset = 0;
    intra_length = 0;
  }

  -- The file is as long as what was appended.
  pub length-Finalized :
      (w w' : SixCyWriter) (f : Finalized L J H w w')
      → 256 ≤ length w.writer.bytes
      → (length f.tail.front ≡ 256)
        × (length w.writer.bytes + length f.on_disk ≤ length w'.writer.bytes)
  length-Finalized w w' f past =
      let size = length-write L _ f.tail.front f.tail.written in
      let front : Bytes = f.tail.front in
      let b : Bytes = body L J H w f.header f.on_disk f.tail.recovery in
      let a1 : Bytes = w.writer.bytes ++ block_bytes L f.header f.on_disk in
      let whole : length w'.writer.bytes ≡ length (front ++ drop (length front) b) =
        ap (length {A = ℕ}) f.tail.bytes in
      (
        size,
        omega (
          arith,
          length-append front (drop (length front) b),
          length-drop (length front) b,
          length-append (a1 ++ to_le_bytes 8 (length f.tail.recovery)) f.tail.recovery,
          length-append a1 (to_le_bytes 8 (length f.tail.recovery)),
          length-append w.writer.bytes (block_bytes L f.header f.on_disk),
          length-append (Block.write L f.header) f.on_disk,
        ),
      )

  block-Keeps :
      (key : Option Bytes) (w w' : SixCyWriter) (f : Finalized L J H w w')
      → 256 ≤ length w.writer.bytes
      → Keeps L key (w.writer.bytes ++ block_bytes L f.header f.on_disk) w'.writer.bytes
  block-Keeps key w w' f past =
      let (size, _) = length-Finalized w w' f past in
      subst (Keeps L key (w.writer.bytes ++ block_bytes L f.header f.on_disk))
        (sym (
          f.tail.bytes
          ∙ ap (λ n. f.tail.front ++ drop n (body L J H w f.header f.on_disk f.tail.recovery))
              size))
        (body-Keeps L H J key w f.header f.on_disk f.tail.recovery f.tail.front size past)

  -- What was written before `finalize` can be read afterwards.
  pub Finalized-Keeps :
      (key : Option Bytes) (w w' : SixCyWriter)
      → 256 ≤ length w.writer.bytes
      → Finalized L J H w w'
      → Keeps L key w.writer.bytes w'.writer.bytes
  unfolding Keeps
  Finalized-Keeps key w w' past f br contents holds =
      block-Keeps key w w' f past br contents
        (append-Keeps L key w.writer.bytes (block_bytes L f.header f.on_disk) br contents holds)

  index-Holds :
      (w w' : SixCyWriter)
      → AtEnd w.writer
      → 256 ≤ length w.writer.bytes
      → (f : Finalized L J H w w') → length w'.writer.bytes < 2 ^ 32
      → Holds L none w'.writer.bytes (index_ref w.writer.pos) f.payload
  unfolding index_ref Keeps
  index-Holds w w' end past f small =
      let (size, longer) = length-Finalized w w' f past in
      let there =
        encode-Holds L hashes lossless aead w.writer.bytes index_block file_id_shared 0 f.payload
          CodecId.zstd default_compression_level none (H.nonce w.drawn) f.header f.on_disk
          (index_ref w.writer.pos) (nonces w.drawn) (omega arith) (omega arith) f.encoded
          (omega arith) past end refl in
      block-Keeps none w w' f past _ f.payload there

  pub Finalized-Opens :
      (w w' : SixCyWriter)
      → AtEnd w.writer
      → 256 ≤ length w.writer.bytes
      → w.superblock.flags ≡ 0
      → IsSuperblock w.superblock
      → All IsKnown w.superblock.required_codec_uuids
      → (f : Finalized L J H w w') → length w'.writer.bytes < 2 ^ 32
      → Opens w'.writer.bytes w
          (patched w.writer.pos (length f.on_disk) w.encryption_key w.superblock)
  unfolding index_ref Holds
  Finalized-Opens w w' end past plain valid known f small =
      let key = w.encryption_key in
      let sb : Superblock = patched w.writer.pos (length f.on_disk) key w.superblock in
      let (size, longer) = length-Finalized w w' f past in
      let valid' : IsSuperblock sb =
        patched-IsSuperblock w.writer.pos (length f.on_disk) key w.superblock (omega arith)
          (omega arith) plain valid in
      let known' : All IsKnown sb.required_codec_uuids =
        subst (All IsKnown) (sym (patched-uuids w.writer.pos (length f.on_disk) key w.superblock))
          known in
      let (h, p, found, decoded) =
        decompress_ref-whole L w'.writer.bytes none (index_ref w.writer.pos) f.payload refl
          (index-Holds w w' end past f small).1 in
      record {
        rest = drop (length f.tail.front) (body L J H w f.header f.on_disk f.tail.recovery);
        header = h;
        on_disk = p;
        payload = f.payload;
        superblock_read =
            rw f.tail.bytes
              (read-write_superblock L sb f.tail.front _ hashes valid' known' f.tail.written);
        block_read =
            rw (patched-index_offset w.writer.pos (length f.on_disk) key w.superblock) found;
        decoded = decoded;
        listed = f.listed;
      }
