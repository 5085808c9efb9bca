-- ===== src/Examples/Optimizing.antt =====
-- The packed archive of `Packing`, optimized.
use cy.Common.{
  ◌+◌, ◌^◌, ◌<◌, ◌≡◌, refl, sym, ap, ◌∙◌, subst, false, Option, some, none, List, [], ◌∷◌, codes,
  Text, ok, pos, length, All, arith, take, get_elem?, inl, inr,
}
use cy.Bytes.{Bytes, to_le_bytes, from_le_bytes, bytes_eq}
use cy.Io.{write_all, seek_start}
use cy.Codec.{CodecId, uuid, from_uuid, get_codec, get_codec_by_uuid, zstd_codec, codec_eq}
use cy.Block
use cy.Block.{body_fields, to_u16}
use cy.Block.Payload.{encode_block}
use cy.Superblock
use cy.Superblock.{covered_fields, pad, add_required_codec, contains}
use cy.Index.{compute_root_hash}
use cy.Writer.{
  SixCyWriter, with_options, default_chunk_size, write_block, flush_solid_session, flush_codec,
}
use cy.Writer.Files.{
  chunks, chunks_fuel, find_known, reuse_block, store_chunk, new_chunk, add_chunk, add_chunks,
  new_record, push_record, finish_file, add_normal, add_file,
}
use cy.Writer.Finish
use cy.Writer.Finish.{patched, write_superblock, write_tail, write_index}
use cy.Writer.Batches
use cy.Writer.Batches.{Batch, pack_batch}
use cy.Writer.Packed.{IsPackable}
use cy.Writer.Success.{packing_total}
use cy.Archive.{Archive, FileInfo, PackOptions, create, list, reading, read_file, read_file_by_id}
use cy.Archive.Filling.{open_for, fill-lifted, finalize-lifted}
use cy.Archive.Reopened.{Reopened, IsPacked-Reopened, bytes_of, listed, listed-infos}
use cy.Commands.{disk_with, open_archive, read_all, add_all, optimize}
use cy.Commands.Adding.{batches, add_all-fill}
use cy.Commands.Readable.{
  IsReadable, Filed-IsReadable, Filed-read_all, listed-read_all, length-read_all, named_at,
  same_files,
}
use cy.Commands.RoundTrip.{optimize_roundtrip}
use cy.Examples.{sample, sample-IsHashes, sample-IsLossless, sample-IsAead, sample-IsTotal}
use cy.Examples.Serial.{json, json-IsJson, json-IsWritable}
use cy.Examples.Archives.{host, archive_uuid, blank}
use cy.Examples.Packing.{
  left, right, files, output, disk, IsPart, no_collision, new, bs, packed, dst, succeeds, below,
  ended,
}

abbrev opts : PackOptions
opts = record { default_codec = CodecId.none; level = pos 3; chunk_size = 1024; password = none }

abbrev pub disk2 : Text → Option Bytes
disk2 = disk_with disk dst

pub created : create sample output archive_uuid opts ≡ ok (open_for output CodecId.none new)
unfolding create with_options Superblock.new
created = refl

pub there : disk2 output ≡ some (bytes_of dst.mode)
unfolding disk_with bytes_eq
there = refl

pub packable : All (IsPackable IsPart 1024) bs
unfolding chunks chunks_fuel
packable = ((inl refl, tt), ((inr refl, tt), tt))

abbrev reopened :
    Reopened sample sample-IsHashes sample-IsLossless sample-IsAead json json-IsJson host
      (λ n. refl)
      IsPart
      no_collision
      disk2
      output
      archive_uuid
      opts
      bs
      (open_for output CodecId.none new)
      (open_for output CodecId.none packed)
      dst
reopened =
    IsPacked-Reopened sample sample-IsHashes sample-IsLossless sample-IsAead json json-IsJson host
      (λ n. refl) IsPart no_collision disk2 output archive_uuid opts bs
      (open_for output CodecId.none new) (open_for output CodecId.none packed) dst
      (record {
        width = refl;
        few = omega arith;
        packable = packable;
        created = created;
        filled =
            fill-lifted sample host output CodecId.none bs new
            ∙ ap (λ r. (r, open_for output CodecId.none packed)) succeeds.0;
        finalized =
            finalize-lifted sample host output CodecId.none json packed
            ∙ ap (λ r. (r, dst)) succeeds.1;
        small = below;
        there = there;
      })

-- The source, as it is opened.
abbrev pub src : Archive
src = record { path = output; mode = reading reopened.reader }

pub opened : open_archive sample host json disk2 output none ≡ ok src
unfolding open_archive
opened = reopened.opens

parts : All (λ d. All IsPart (chunks default_chunk_size d)) (left ∷ right ∷ [])
unfolding chunks chunks_fuel
parts = ((inl refl, tt), ((inr refl, tt), tt))

pub readable : IsReadable sample IsPart default_chunk_size src (list src)
unfolding list read_file_by_id
readable =
    Filed-IsReadable sample IsPart default_chunk_size reopened.key reopened.file src 0
      reopened.reader.index.records (left ∷ right ∷ []) reopened.filed
      (λ n d at.
        ap (read_file_by_id sample src) (let e : 0 + n ≡ n = omega arith in e)
        ∙ (reopened.unpacked n d at).0)
      parts

pub read : read_all sample host json disk2 src (list src) ≡ files
unfolding list read_file_by_id
read =
    same_files (read_all sample host json disk2 src (list src)) files
      (listed-read_all sample host json disk2 src (list src)
        ∙ listed-infos reopened.reader.index.records
        ∙ reopened.labelled)
      (Filed-read_all sample host json disk2 reopened.key reopened.file src 0
        reopened.reader.index.records (left ∷ right ∷ []) reopened.filed
        (λ n d at.
          ap (read_file_by_id sample src) (let e : 0 + n ≡ n = omega arith in e)
          ∙ (reopened.unpacked n d at).0))

abbrev path2 : Text
path2 = codes "opt"

abbrev new2 : SixCyWriter
new2 = with_options blank archive_uuid default_chunk_size (pos 19) none

abbrev bs2 : List Batch
bs2 = batches false CodecId.zstd files

abbrev packed2 : SixCyWriter
packed2 = (Batches.pack sample host bs2 new2).1

abbrev dst2 : Archive
dst2 = open_for path2 CodecId.zstd (Finish.finalize sample json host packed2).1

succeeds2 :
    ((Batches.pack sample host bs2 new2).0 ≡ ok tt)
    × ((Finish.finalize sample json host packed2).0 ≡ ok tt)
succeeds2 =
    packing_total sample sample-IsTotal json json-IsWritable host archive_uuid default_chunk_size
      (pos 19) none bs2 refl

was_optimized : optimize sample host json disk2 output path2 none (pos 19) archive_uuid ≡ ok dst2
unfolding optimize create with_options Superblock.new
was_optimized =
    rw (opened, read)
      (ended path2 CodecId.zstd (add_all sample host json disk2 files)
        (open_for path2 CodecId.zstd new2) packed2
        (add_all-fill sample host json disk2 path2 CodecId.zstd files new2
          ∙ fill-lifted sample host path2 CodecId.zstd bs2 new2
          ∙ ap (λ r. (r, open_for path2 CodecId.zstd packed2)) succeeds2.0)
        succeeds2.1)

below2 : length (bytes_of dst2.mode) < 2 ^ 32
unfolding Batches.pack pack_batch flush_solid_session flush_codec add_file add_normal add_chunks
    add_chunk new_chunk store_chunk finish_file push_record new_record reuse_block find_known chunks
    chunks_fuel encode_block get_codec_by_uuid get_codec zstd_codec from_uuid uuid bytes_eq
    to_le_bytes from_le_bytes with_options write_block Block.write body_fields to_u16 write_all
    seek_start Finish.finalize write_index write_tail write_superblock compute_root_hash
    Superblock.write pad covered_fields patched Superblock.new add_required_codec contains codec_eq
below2 = omega arith

listed_names : listed (list src) ≡ codes "a" ∷ codes "b" ∷ []
unfolding list
listed_names = listed-infos reopened.reader.index.records ∙ reopened.labelled

-- The entry of the second file.
second : (info : FileInfo) × (get_elem? (list src) 1 ≡ some info) × (info.name ≡ codes "b")
unfolding list
second =
    named_at reopened.reader.index.records 1 (codes "b") (ap (λ l. get_elem? l 1) reopened.labelled)

fresh : All (λ m. bytes_eq m second.0.name ≡ false) (take 1 (listed (list src)))
unfolding bytes_eq
fresh =
    subst (λ ns. All (λ m. bytes_eq m second.0.name ≡ false) (take 1 ns)) (sym listed_names)
      (subst (λ name. bytes_eq (codes "a") name ≡ false) (sym second.2) refl, tt)

few : length (list src) < 2 ^ 32
unfolding list
few = omega (arith, length-read_all sample host json disk2 src (list src), ap length read)

optimize_roundtrip_example :
    (a : Archive) × (open_archive sample host json (disk_with disk2 dst2) path2 none ≡ ok a)
    × (listed (list a) ≡ listed (list src))
    × (read_file sample a second.0.name ≡ read_file_by_id sample src second.0.id)
optimize_roundtrip_example =
    optimize_roundtrip sample sample-IsHashes sample-IsLossless sample-IsAead json json-IsJson host
      (λ n. refl) IsPart no_collision disk2 path2 archive_uuid output none (pos 19) src dst2 1
      second.0 refl opened few readable was_optimized below2 second.1 fresh
