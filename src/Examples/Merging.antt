-- ===== src/Examples/Merging.antt =====
-- The archive of `Packing`, merged twice.
use cy.Common.{
  to_lowercase, ◌^◌, ◌<◌, ◌≡◌, refl, ap, ◌∙◌, subst, sym, false, none, List, [], ◌∷◌, ◌++◌, codes,
  Text, ok, length, All, arith, take, get_elem?,
}
use cy.Bytes.{Bytes, to_le_bytes, from_le_bytes, bytes_eq}
use cy.Io.{write_all, seek_start}
use cy.Codec.{
  CodecId, uuid, from_uuid, from_name, get_codec, get_codec_by_uuid, zstd_codec, lz4_codec,
  codec_eq,
}
use cy.Block
use cy.Block.{body_fields, to_u16}
use cy.Block.Payload.{encode_block}
use cy.Superblock
use cy.Superblock.{covered_fields, pad, add_required_codec, contains}
use cy.Index.{compute_root_hash}
use cy.Writer.{
  SixCyWriter, with_options, default_chunk_size, default_compression_level, write_block,
  flush_solid_session, flush_codec,
}
use cy.Writer.Files.{
  chunks, chunks_fuel, find_known, reuse_block, store_chunk, new_chunk, add_chunk, add_chunks,
  new_record, push_record, finish_file, add_normal, add_file,
}
use cy.Writer.Finish
use cy.Writer.Finish.{patched, write_superblock, write_tail, write_index}
use cy.Writer.Batches
use cy.Writer.Batches.{Batch, pack_batch}
use cy.Writer.Success.{packing_total}
use cy.Archive.{Archive, create, list, read_file}
use cy.Archive.Filling.{open_for, fill-lifted}
use cy.Archive.Reopened.{bytes_of, listed}
use cy.Commands.{parse_codec, disk_with, open_archive, add_all, merge_each, merge}
use cy.Commands.Adding.{batches, names_in, add_all-fill}
use cy.Commands.Merging.{under, merged, Sources, merge_each-add_all, merge_roundtrip}
use cy.Examples.{sample, sample-IsHashes, sample-IsLossless, sample-IsAead, sample-IsTotal}
use cy.Examples.Serial.{json, json-IsJson, json-IsWritable}
use cy.Examples.Archives.{host, archive_uuid, blank}
use cy.Examples.Packing.{right, files, output, IsPart, no_collision, ended}
use cy.Examples.Optimizing.{disk2, src, opened, readable, read}

abbrev path : Text
path = codes "all"

abbrev inputs : List Text
inputs = output ∷ output ∷ []

abbrev srcs : List Archive
srcs = src ∷ src ∷ []

abbrev all_files : List (Text × Bytes)
all_files = under output files ++ under output files

gathered : merged sample host json disk2 path (λ p. p) inputs srcs ≡ all_files
gathered = rw read refl

sources : Sources sample host json disk2 path IsPart inputs srcs
unfolding bytes_eq
sources = (refl, opened, readable, (refl, opened, readable, tt))

abbrev new : SixCyWriter
new = with_options blank archive_uuid default_chunk_size default_compression_level none

abbrev bs : List Batch
bs = batches false CodecId.lz4 all_files

abbrev packed : SixCyWriter
packed = (Batches.pack sample host bs new).1

abbrev dst : Archive
dst = open_for path CodecId.lz4 (Finish.finalize sample json host packed).1

succeeds :
    ((Batches.pack sample host bs new).0 ≡ ok tt)
    × ((Finish.finalize sample json host packed).0 ≡ ok tt)
succeeds =
    packing_total sample sample-IsTotal json json-IsWritable host archive_uuid default_chunk_size
      default_compression_level none bs refl

was_merged : merge sample host json disk2 (λ p. p) inputs path (codes "lz4") archive_uuid ≡ ok dst
unfolding merge create parse_codec from_name with_options Superblock.new bytes_eq to_lowercase
was_merged =
    ended path CodecId.lz4 (merge_each sample host json disk2 (λ p. p) inputs)
      (open_for path CodecId.lz4 new) packed
      (merge_each-add_all sample host json disk2 path IsPart CodecId.lz4 (λ p. p) inputs srcs new
          sources
        ∙ ap (λ fs. add_all sample host json disk2 fs (open_for path CodecId.lz4 new)) gathered
        ∙ add_all-fill sample host json disk2 path CodecId.lz4 all_files new
        ∙ fill-lifted sample host path CodecId.lz4 bs new
        ∙ ap (λ r. (r, open_for path CodecId.lz4 packed)) succeeds.0)
      succeeds.1

below : length (bytes_of dst.mode) < 2 ^ 32
unfolding Batches.pack pack_batch flush_solid_session flush_codec add_file add_normal add_chunks
    add_chunk new_chunk store_chunk finish_file push_record new_record reuse_block find_known chunks
    chunks_fuel encode_block get_codec_by_uuid get_codec zstd_codec lz4_codec from_uuid uuid
    bytes_eq to_le_bytes from_le_bytes with_options write_block Block.write body_fields to_u16
    write_all seek_start Finish.finalize write_index write_tail write_superblock compute_root_hash
    Superblock.write pad covered_fields patched Superblock.new add_required_codec contains codec_eq
below = omega arith

fresh :
    All
      (λ m. bytes_eq m (codes "out/b") ≡ false)
      (take 1 (names_in (merged sample host json disk2 path (λ p. p) inputs srcs)))
unfolding bytes_eq
fresh =
    subst (λ fs. All (λ m. bytes_eq m (codes "out/b") ≡ false) (take 1 (names_in fs)))
      (sym gathered) (refl, tt)

merge_roundtrip_example :
    (a : Archive) × (open_archive sample host json (disk_with disk2 dst) path none ≡ ok a)
    × (listed (list a) ≡ names_in (merged sample host json disk2 path (λ p. p) inputs srcs))
    × (read_file sample a (codes "out/b") ≡ ok right)
merge_roundtrip_example =
    merge_roundtrip sample sample-IsHashes sample-IsLossless sample-IsAead json json-IsJson host
      (λ n. refl) IsPart no_collision disk2 path archive_uuid (λ p. p) inputs srcs (codes "lz4") dst
      1 (codes "out/b", right) refl sources
      (let e : length (merged sample host json disk2 path (λ p. p) inputs srcs) ≡ 4 =
          rw gathered refl in
        omega arith)
      was_merged below (ap (λ fs. get_elem? fs 1) gathered) fresh
