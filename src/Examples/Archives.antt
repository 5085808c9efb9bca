-- ===== src/Examples/Archives.antt =====
-- Two files that share their chunks, with a solid session between them, packed under a key, opened and
-- read.
use cy.Common.{
  ℕ, ◌^◌, ◌<◌, ◌≡◌, ◌⊎◌, inl, inr, refl, sym, ap, ◌∙◌, some, List, [], ◌∷◌, codes, ok, pos, length,
  All, arith, max,
}
use cy.Bytes.{Bytes, to_le_bytes, from_le_bytes, bytes_eq}
use cy.Io.{File, write_all, seek_start}
use cy.Codec.{
  CodecId, uuid, from_uuid, get_codec, get_codec_by_uuid, zstd_codec, lz4_codec, lzma_codec,
  codec_eq,
}
use cy.Crypto.{encrypt}
use cy.Block
use cy.Block.{body_fields, to_u16}
use cy.Block.Payload.{encode_block}
use cy.Superblock
use cy.Superblock.{covered_fields, pad, add_required_codec, contains}
use cy.Index.{compute_root_hash}
use cy.Reader.{SixCyReader, with_key, unpack_file, read_at}
use cy.Writer.{
  Host, SixCyWriter, with_options, write_block, flush_solid_session, flush_codec,
  start_solid_session, compress_solid, store_solid, attach_range, attach_ranges, update_first,
}
use cy.Writer.Files.{
  chunks, chunks_fuel, find_known, reuse_block, store_chunk, new_chunk, add_chunk, add_chunks,
  add_solid, new_record, push_record, finish_file, add_normal, add_file,
}
use cy.Writer.Finish.{patched, write_superblock, write_tail, write_index, finalize}
use cy.Writer.Packing.{add_files}
use cy.Writer.Solid.{session}
use cy.Writer.Batches.{Batch, single, solid, pack_batch, pack}
use cy.Writer.Packed.{IsPackable}
use cy.Writer.RoundTrip.{archive_roundtrip}
use cy.Writer.Success.{packing_total}
use cy.Examples.{
  sample, sample-IsHashes, sample-IsLossless, sample-IsAead, sample-IsTotal, nonce, key,
}
use cy.Examples.Serial.{json, json-IsJson, json-IsWritable}

abbrev pub host : Host
host = record { nonce = λ n. nonce; now = λ n. pos n }

abbrev left : Bytes
left = 1 ∷ 2 ∷ []

abbrev right : Bytes
right = 3 ∷ 4 ∷ []

abbrev pub batches : List Batch
batches =
    single (record { name = codes "a"; contents = 1 ∷ 2 ∷ 3 ∷ 4 ∷ []; codec = CodecId.zstd })
    ∷ solid CodecId.lzma (
        record { name = codes "b"; contents = 5 ∷ 6 ∷ 7 ∷ []; codec = CodecId.none }
        ∷ record { name = codes "c"; contents = 8 ∷ []; codec = CodecId.none }
        ∷ [])
    ∷ single (record { name = codes "d"; contents = 3 ∷ 4 ∷ 1 ∷ 2 ∷ []; codec = CodecId.lz4 })
    ∷ []

abbrev pub IsChunk : Bytes → Type 0
IsChunk c = (c ≡ left) ⊎ (c ≡ right)

abbrev pub blank : File
blank = record { bytes = []; pos = 0 }

abbrev pub archive_uuid : Bytes
archive_uuid = 6 ∷ 6 ∷ 6 ∷ 6 ∷ 6 ∷ 6 ∷ 6 ∷ 6 ∷ 6 ∷ 6 ∷ 6 ∷ 6 ∷ 6 ∷ 6 ∷ 6 ∷ 6 ∷ []

abbrev pub packed : SixCyWriter
packed = (pack sample host batches (with_options blank archive_uuid 2 (pos 3) (some key))).1

pub no_collision : (a b : Bytes) → IsChunk a → IsChunk b → sample.blake3 a ≡ sample.blake3 b → a ≡ b
unfolding to_le_bytes from_le_bytes
no_collision a b (inl p) (inl q) h = p ∙ sym q
no_collision a b (inr p) (inr q) h = p ∙ sym q
no_collision a b (inl p) (inr q) h =
    let e : ◌≡◌ {A = ℕ} 513 1027 = ap from_le_bytes (rw (p, q) at h) in absurd (omega arith)
no_collision a b (inr p) (inl q) h =
    let e : ◌≡◌ {A = ℕ} 1027 513 = ap from_le_bytes (rw (p, q) at h) in absurd (omega arith)

pub packable : All (IsPackable IsChunk (max 2 1)) batches
unfolding chunks chunks_fuel
packable = (
  (inl refl, (inr refl, tt)),
  ((omega arith, (omega arith, tt)), ((inr refl, (inl refl, tt)), tt)),
)

pub succeeds :
    ((pack sample host batches (with_options blank archive_uuid 2 (pos 3) (some key))).0 ≡ ok tt)
    × ((finalize sample json host packed).0 ≡ ok tt)
succeeds =
    packing_total sample sample-IsTotal json json-IsWritable host archive_uuid 2 (pos 3) (some key)
      batches refl

added :
    pack sample host batches (with_options blank archive_uuid 2 (pos 3) (some key))
    ≡ (ok tt, packed)
added = ap (λ r. (r, packed)) succeeds.0

pub below : length (finalize sample json host packed).1.writer.bytes < 2 ^ 32
unfolding pack pack_batch session start_solid_session flush_solid_session flush_codec compress_solid
    store_solid attach_ranges attach_range update_first add_solid add_files add_file add_normal
    add_chunks add_chunk new_chunk store_chunk finish_file push_record new_record reuse_block
    find_known chunks chunks_fuel encode_block encrypt get_codec_by_uuid get_codec zstd_codec
    lz4_codec lzma_codec from_uuid uuid bytes_eq to_le_bytes from_le_bytes with_options write_block
    Block.write body_fields to_u16 write_all seek_start finalize write_index write_tail
    write_superblock compute_root_hash Superblock.write pad covered_fields patched Superblock.new
    add_required_codec contains codec_eq
below = omega arith

archive_roundtrip_example :
    (r : SixCyReader) × (with_key sample json
        (finalize sample json host packed).1.writer.bytes
        (some key)
      ≡ ok r)
    × (unpack_file sample r 1 ≡ ok (5 ∷ 6 ∷ 7 ∷ []))
    × (read_at sample r 1 1 4 ≡ ok (6 ∷ 7 ∷ []))
archive_roundtrip_example =
    archive_roundtrip sample sample-IsHashes sample-IsLossless sample-IsAead json json-IsJson host
      (λ n. refl) (some key) IsChunk no_collision archive_uuid 2 (pos 3) batches packed 1 1 4
      (5 ∷ 6 ∷ 7 ∷ []) refl (omega arith) packable added succeeds.1 below refl

packing_total_example :
    ((pack sample host batches (with_options blank archive_uuid 2 (pos 3) (some key))).0 ≡ ok tt)
    × ((finalize sample json host packed).0 ≡ ok tt)
packing_total_example =
    packing_total sample sample-IsTotal json json-IsWritable host archive_uuid 2 (pos 3) (some key)
      batches refl
