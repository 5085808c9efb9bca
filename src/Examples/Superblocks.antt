-- ===== src/Examples/Superblocks.antt =====
-- A superblock that requires two codecs, written and read.
use cy.Common.{
  ◌+◌, ◌*◌, ◌<◌, ◌≤◌, ◌≡◌, refl, ◌↔◌, ◌⊎◌, ◌||◌, List, ok, some, none, [], ◌∷◌, ◌++◌, take, length,
  All, arith, replicate,
}
use cy.Bytes.{Bytes, to_le_bytes, from_le_bytes, slice, bytes_eq}
use cy.Bytes.Layout.{concat}
use cy.Codec.{CodecId, uuid, uuid_zstd, uuid_lzma, from_uuid, codec_eq}
use cy.Superblock
use cy.Superblock.{
  Superblock, IsSuperblock, magic_bytes, check_codecs, covered_fields, pad, contains,
}
use cy.Superblock.Parts.{IsKnown, check_codecs_iff}
use cy.Superblock.Laws.{write_cases, read-write_superblock, parse_accepts}
use cy.Superblock.Required.{add_all, add_all_fits, listed, contains-add_all}
use cy.Examples.{sample, sample-IsHashes}

abbrev sb : Superblock
sb = record {
  magic = magic_bytes;
  format_version = 3;
  archive_uuid = replicate 16 6;
  flags = 1;
  index_offset = 300;
  index_size = 70;
  required_codec_uuids = uuid_zstd ∷ uuid_lzma ∷ [];
}

sb-IsSuperblock : IsSuperblock sb
sb-IsSuperblock = record {
  magic_const = refl;
  version_u32 = omega arith;
  version_min = omega arith;
  uuid_width = refl;
  flags_u32 = omega arith;
  index_offset_u64 = omega arith;
  index_size_u64 = omega arith;
  codec_widths = (refl, (refl, tt));
}

known : All IsKnown sb.required_codec_uuids
unfolding from_uuid bytes_eq
known = ((CodecId.zstd, refl), ((CodecId.lzma, refl), tt))

check_codecs_iff_example :
    (check_codecs sb.required_codec_uuids ≡ ok tt) ↔ All IsKnown sb.required_codec_uuids
check_codecs_iff_example = check_codecs_iff sb.required_codec_uuids

abbrev written : Bytes
written =
    let covered = concat (covered_fields sb) in
    (covered ++ to_le_bytes 4 (sample.crc32 covered)) ++ replicate 174 0

written_lem : Superblock.write sample sb ≡ some written
unfolding Superblock.write pad covered_fields to_le_bytes from_le_bytes
written_lem = refl

read-write_superblock_example : Superblock.read sample (written ++ 5 ∷ []) ≡ ok (sb, 5 ∷ [])
read-write_superblock_example =
    read-write_superblock sample sb written (5 ∷ []) sample-IsHashes sb-IsSuperblock known
      written_lem

write_cases_example :
    ((bs : Bytes) × (Superblock.write sample sb ≡ some bs)
      × (length bs ≡ 256)
      × (length sb.required_codec_uuids ≤ 12))
    ⊎ ((Superblock.write sample sb ≡ none) × (12 < length sb.required_codec_uuids))
write_cases_example =
    write_cases sample sb
      (record { magic_width = refl; archive_width = refl; codecs_width = (refl, (refl, tt)) })

parsed : Superblock.parse sample written ≡ ok sb
unfolding Superblock.parse Superblock.codec_uuids check_codecs covered_fields to_le_bytes
    from_le_bytes bytes_eq from_uuid
parsed = refl

parse_accepts_example :
    (slice 0 4 written ≡ magic_bytes)
    × (3 ≤ sb.format_version)
    × (length sb.required_codec_uuids ≤ 12)
    × All IsKnown sb.required_codec_uuids
    × (from_le_bytes (
          slice
            (46 + length sb.required_codec_uuids * 16)
            (46 + length sb.required_codec_uuids * 16 + 4)
            written)
        ≡ sample.crc32 (take (46 + length sb.required_codec_uuids * 16) written))
parse_accepts_example = parse_accepts sample written sb parsed

abbrev added : List CodecId
added = CodecId.zstd ∷ CodecId.none ∷ CodecId.zstd ∷ CodecId.lz4 ∷ []

add_all_fits_example :
    (bs : Bytes) × (Superblock.write sample (add_all added (Superblock.new (replicate 16 6)))
      ≡ some bs)
    × (length bs ≡ 256)
    × (length (add_all added (Superblock.new (replicate 16 6))).required_codec_uuids ≤ 4)
    × All IsKnown (add_all added (Superblock.new (replicate 16 6))).required_codec_uuids
add_all_fits_example = add_all_fits sample (replicate 16 6) added refl

contains-add_all_example :
    contains (add_all added sb).required_codec_uuids (uuid CodecId.lz4)
    ≡ (listed CodecId.lz4 added || contains sb.required_codec_uuids (uuid CodecId.lz4))
unfolding codec_eq
contains-add_all_example = contains-add_all added CodecId.lz4 sb refl
