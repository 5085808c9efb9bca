-- ===== src/Examples/Packing.antt =====
-- Two files that `pack` stores and `unpack` and `optimize` take from there.
use cy.Common.{
  to_lowercase, ℕ, ◌^◌, ◌<◌, ◌≡◌, ◌⊎◌, inl, inr, refl, sym, ap, ◌∙◌, false, Option, some, none,
  List, [], ◌∷◌, codes, Text, Result, ok, pos, length, All, arith, if◌then◌else◌,
}
use cy.Bytes.{Bytes, to_le_bytes, from_le_bytes, bytes_eq}
use cy.Errors.{IoError}
use cy.Io.{write_all, seek_start}
use cy.Codec.{
  CodecId, uuid, from_uuid, from_name, get_codec, get_codec_by_uuid, zstd_codec, none_codec,
  codec_eq,
}
use cy.Block
use cy.Block.{body_fields, to_u16}
use cy.Block.Payload.{encode_block}
use cy.Superblock
use cy.Superblock.{covered_fields, pad, add_required_codec, contains}
use cy.Index.{compute_root_hash}
use cy.Writer.{SixCyWriter, with_options, write_block, flush_solid_session, flush_codec}
use cy.Writer.Files.{
  chunks, chunks_fuel, find_known, reuse_block, store_chunk, new_chunk, add_chunk, add_chunks,
  new_record, push_record, finish_file, add_normal, add_file,
}
use cy.Writer.Finish
use cy.Writer.Finish.{patched, write_superblock, write_tail, write_index}
use cy.Writer.Batches
use cy.Writer.Batches.{Batch, pack_batch}
use cy.Writer.Success.{packing_total}
use cy.Archive.{Archive, and_then, create, finalize}
use cy.Archive.Filling.{open_for, fill-lifted}
use cy.Archive.Reopened.{bytes_of}
use cy.Commands.{parse_codec, disk_with, finished, pack, unpack, pack_inputs}
use cy.Commands.Adding.{batches, pack_inputs-fill, Stands, Suits}
use cy.Commands.RoundTrip.{pack-unpack_roundtrip}
use cy.Examples.{sample, sample-IsHashes, sample-IsLossless, sample-IsAead, sample-IsTotal}
use cy.Examples.Serial.{json, json-IsJson, json-IsWritable}
use cy.Examples.Archives.{host, archive_uuid, blank}
use cy.Examples.Facades.{folder}

abbrev pub left : Bytes
left = 1 ∷ 2 ∷ []

abbrev pub right : Bytes
right = 3 ∷ 4 ∷ 5 ∷ []

abbrev pub files : List (Text × Bytes)
files = (codes "a", left) ∷ (codes "b", right) ∷ []

abbrev pub output : Text
output = codes "out"

-- Two files stand on the disk, at the paths "a" and "b".
abbrev pub disk : Text → Option Bytes
disk path =
    if bytes_eq path (codes "a")
    then some left
    else if bytes_eq path (codes "b")
    then some right
    else none

abbrev pub IsPart : Bytes → Type 0
IsPart c = (c ≡ left) ⊎ (c ≡ right)

pub no_collision : (a b : Bytes) → IsPart a → IsPart b → sample.blake3 a ≡ sample.blake3 b → a ≡ b
unfolding to_le_bytes from_le_bytes
no_collision a b (inl p) (inl q) h = p ∙ sym q
no_collision a b (inr p) (inr q) h = p ∙ sym q
no_collision a b (inl p) (inr q) h =
    let e : ◌≡◌ {A = ℕ} 513 328707 = ap from_le_bytes (rw (p, q) at h) in absurd (omega arith)
no_collision a b (inr p) (inl q) h =
    let e : ◌≡◌ {A = ℕ} 328707 513 = ap from_le_bytes (rw (p, q) at h) in absurd (omega arith)

abbrev pub new : SixCyWriter
new = with_options blank archive_uuid 1024 (pos 3) none

abbrev pub bs : List Batch
bs = batches false CodecId.none files

abbrev pub packed : SixCyWriter
packed = (Batches.pack sample host bs new).1

abbrev pub dst : Archive
dst = open_for output CodecId.none (Finish.finalize sample json host packed).1

pub succeeds :
    ((Batches.pack sample host bs new).0 ≡ ok tt)
    × ((Finish.finalize sample json host packed).0 ≡ ok tt)
succeeds =
    packing_total sample sample-IsTotal json json-IsWritable host archive_uuid 1024 (pos 3) none bs
      refl

-- A command that fills an archive without an error gives it.
pub ended :
    (path : Text) (codec : CodecId) (body : Archive → Result IoError (Unit {0}) × Archive)
    (a : Archive) (w : SixCyWriter)
    → body a ≡ (ok tt, open_for path codec w)
    → (Finish.finalize sample json host w).0 ≡ ok tt
    → finished (and_then (body a) (λ b. finalize sample host json b))
      ≡ ok (open_for path codec (Finish.finalize sample json host w).1)
unfolding finalize Finish.finalize
ended path codec body a w e f = rw e (rw f refl)

stands : Stands disk output (λ p. some p) (codes "a" ∷ codes "b" ∷ []) files
unfolding bytes_eq
stands = (refl, refl, refl, (refl, refl, refl, tt))

was_packed :
    pack sample host json disk
      (λ p. some p)
      output
      (codes "a" ∷ codes "b" ∷ [])
      (codes "none")
      (pos 3)
      1
      false
      none
      archive_uuid
    ≡ ok dst
unfolding pack create parse_codec from_name with_options Superblock.new bytes_eq to_lowercase
was_packed =
    ended output CodecId.none
      (pack_inputs sample host json disk (λ p. some p) false CodecId.none
        (codes "a" ∷ codes "b" ∷ []))
      (open_for output CodecId.none new) packed
      (pack_inputs-fill sample host json disk output CodecId.none (λ p. some p) false
          (codes "a" ∷ codes "b" ∷ []) files new stands
        ∙ fill-lifted sample host output CodecId.none bs new
        ∙ ap (λ r. (r, open_for output CodecId.none packed)) succeeds.0)
      succeeds.1

pub below : length (bytes_of dst.mode) < 2 ^ 32
unfolding Batches.pack pack_batch flush_solid_session flush_codec add_file add_normal add_chunks
    add_chunk new_chunk store_chunk finish_file push_record new_record reuse_block find_known chunks
    chunks_fuel encode_block get_codec_by_uuid get_codec zstd_codec none_codec from_uuid uuid
    bytes_eq to_le_bytes from_le_bytes with_options write_block Block.write body_fields to_u16
    write_all seek_start Finish.finalize write_index write_tail write_superblock compute_root_hash
    Superblock.write pad covered_fields patched Superblock.new add_required_codec contains codec_eq
below = omega arith

cut : All (λ f. Suits IsPart 1024 false f.1) files
unfolding chunks chunks_fuel
cut = ((inl refl, tt), ((inr refl, tt), tt))

pack-unpack_roundtrip_example :
    unpack sample host json (disk_with disk dst) folder output (codes "dest") none []
    ≡ (ok tt, (codes "dest/a", left) ∷ (codes "dest/b", right) ∷ [])
pack-unpack_roundtrip_example =
    pack-unpack_roundtrip sample sample-IsHashes sample-IsLossless sample-IsAead json json-IsJson
      host (λ n. refl) IsPart no_collision disk output archive_uuid (λ p. some p)
      (codes "a" ∷ codes "b" ∷ []) (codes "none") (pos 3) 1 false none files dst folder
      (codes "dest") [] (λ p d s. refl) refl refl stands (omega arith) cut was_packed below
