-- ===== src/Examples/Readers.antt =====
-- A window over the seam of two stored blocks, and a scan.
use cy.Common.{
  ℕ, List, map, Run, done, out_of_fuel, ◌≡◌, refl, none, [], ◌∷◌, ◌++◌, codes, ok, replicate,
  length,
}
use cy.Bytes.{Bytes, to_le_bytes, from_le_bytes, bytes_eq}
use cy.Codec.{uuid_none, none_codec, from_uuid, get_codec, get_codec_by_uuid}
use cy.Block
use cy.Block.{
  BlockHeader, BlockType, data_block, solid_block, body_fields, to_u16, from_u16, validate,
  is_encrypted,
}
use cy.Block.Payload.{decode_block}
use cy.Io.{read_exact}
use cy.Superblock
use cy.Index.{BlockRef, is_solid_slice, FileIndexRecord, FileIndex, from_scan, compute_root_hash}
use cy.Reader.{
  SixCyReader, read_block_at, slice_of, decompress_ref, read_refs, find_record, unpack_file,
  read_at,
}
use cy.Reader.Scan.{
  scan_blocks, index_of, sorted_records, insert_record, refs_of, sort_parts, insert_part, scan_loop,
  note_block, note_part, grow,
}
use cy.Reader.ReadAt.{read_at-unpack_file}
use cy.Examples.{sample}

abbrev header : Bytes → BlockHeader
header d = record {
  header_version = 1;
  block_type = data_block;
  flags = 0;
  codec_uuid = uuid_none;
  file_id = 0;
  file_offset = 0;
  orig_size = length d;
  comp_size = length d;
  content_hash = to_le_bytes 32 (from_le_bytes d);
}

abbrev block : Bytes → Bytes
block d = Block.write sample (header d) ++ d

abbrev ref : Bytes → Bytes → BlockRef
ref before d = record {
  content_hash = to_le_bytes 32 (from_le_bytes d);
  archive_offset = length before;
  intra_offset = 0;
  intra_length = 0;
}

abbrev front : Bytes
front = replicate 256 0

abbrev first : Bytes
first = 1 ∷ 2 ∷ 3 ∷ []

abbrev second : Bytes
second = 4 ∷ 5 ∷ []

abbrev file_record : FileIndexRecord
file_record = record {
  id = 7;
  parent_id = 0;
  name = codes "x";
  block_refs = ref front first ∷ ref (front ++ block first) second ∷ [];
  original_size = 5;
  compressed_size = 5;
  metadata = [];
}

abbrev reader : SixCyReader
reader = record {
  reader = (front ++ block first) ++ block second;
  superblock = Superblock.new [];
  index = record { records = file_record ∷ []; root_hash = [] };
  decryption_key = none;
}

unpacked : unpack_file sample reader 7 ≡ ok (1 ∷ 2 ∷ 3 ∷ 4 ∷ 5 ∷ [])
unfolding unpack_file find_record read_refs decompress_ref read_block_at slice_of is_solid_slice
    decode_block is_encrypted get_codec_by_uuid get_codec none_codec from_uuid bytes_eq Block.read
    Block.parse validate from_u16 to_u16 Block.write body_fields to_le_bytes from_le_bytes
    read_exact
unpacked = refl

read_at-unpack_file_example : read_at sample reader 7 2 2 ≡ ok (3 ∷ 4 ∷ [])
read_at-unpack_file_example =
    read_at-unpack_file sample reader 7 2 2 file_record (1 ∷ 2 ∷ 3 ∷ 4 ∷ 5 ∷ [])
      (unfold find_record in refl) refl unpacked

-- A DATA block of file 7, then a solid block, then another DATA block of file 7 that comes first.
abbrev part : BlockType → ℕ → Bytes → Bytes
part t offset d =
    Block.write sample (record (header d) { block_type = t; file_id = 7; file_offset = offset })
    ++ d

abbrev damaged : Bytes
damaged =
    ((front ++ part data_block 2 first) ++ part solid_block 0 second) ++ part data_block 0 second

listing : Run FileIndex → List (ℕ × (ℕ × List ℕ))
listing out_of_fuel = []
listing (done index) =
    map (λ r. (r.id, (r.original_size, map (λ br. br.archive_offset) r.block_refs))) index.records

scanned : listing (scan_blocks sample damaged) ≡ (7, (5, 429 ∷ 256 ∷ [])) ∷ []
unfolding listing scan_blocks index_of sorted_records insert_record refs_of sort_parts insert_part
    scan_loop note_block note_part grow from_scan compute_root_hash Block.read Block.parse validate
    from_u16 to_u16 Block.write body_fields to_le_bytes from_le_bytes read_exact
scanned = refl
