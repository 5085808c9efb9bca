-- ===== src/Examples/Recoveries.antt =====
-- A damaged archive, scanned and rebuilt.
use cy.Common.{
  ℕ, ◌+◌, ◌^◌, ◌<◌, ◌≡◌, refl, inl, List, [], ◌∷◌, ◌++◌, All, Run, done, out_of_fuel, length,
  replicate, arith,
}
use cy.Bytes.{Bytes, to_le_bytes, from_le_bytes, bytes_eq}
use cy.Codec.{CodecId, uuid_none, from_uuid}
use cy.Io.{read_exact}
use cy.Block
use cy.Block.{
  BlockHeader, BlockType, data_block, index_block, solid_block, body_fields, to_u16, from_u16,
  validate, is_encrypted,
}
use cy.Index.{from_scan, compute_root_hash}
use cy.Recovery.{
  BlockHealth, healthy, header_corrupt, ScannedBlock, fresh, scan, report, report_of, scan_all,
  scan_loop, scanned_at, assess, remaining_at, note_header, note_corrupt, note_chunk, tally, notify,
  RecoveryReport, recovered_records, quality_of, partial, RecoveryQuality,
}
use cy.Recovery.Account.{
  Covers, count_where, as_healthy, as_corrupt, as_truncated, as_unknown, healthy_bytes, groups_of,
}
use cy.Recovery.Verdicts.{IsJudged, Over}
use cy.Recovery.Log.{scan_counts}
use cy.Recovery.Log.{scan_log}
use cy.Recovery.Agreement.{scan_blocks-eq-scan}
use cy.Reader.Scan.{note_part, grow, insert_record, scan_blocks}
use cy.Bytes.Laws.{length-to_le_bytes, to_le_bytes-IsBytes}
use cy.Recovery.Layout.{
  Segment, junk, stored, IsBlock, IsLaid, laid, log_of, healthy_at, scan_complete,
}
use cy.Examples.{sample, sample-IsHashes}

abbrev pub header : BlockType → ℕ → ℕ → Bytes → BlockHeader
header t id offset d = record {
  header_version = 1;
  block_type = t;
  flags = 0;
  codec_uuid = uuid_none;
  file_id = id;
  file_offset = offset;
  orig_size = length d;
  comp_size = length d;
  content_hash = to_le_bytes 32 (from_le_bytes d);
}

abbrev pub first : Bytes
first = 1 ∷ 2 ∷ 3 ∷ []

abbrev pub second : Bytes
second = 4 ∷ 5 ∷ []

-- A block, two bytes of damage, a block of the same file that comes first, and the index block.
abbrev pub segments : List Segment
segments =
    stored (header data_block 7 2 first) first
    ∷ junk (9 ∷ 9 ∷ [])
    ∷ stored (header data_block 7 0 second) second
    ∷ []

abbrev pub index : BlockHeader
index = header index_block 0xffff_ffff 0 (8 ∷ [])

abbrev pub tail : Bytes
tail = Block.write sample index ++ ((8 ∷ []) ++ [])

abbrev pub front : Bytes
front = replicate 256 0

abbrev pub damaged : Bytes
damaged = front ++ laid sample segments tail

abbrev value : Run RecoveryReport → List (ℕ × (BlockHealth × RecoveryQuality))
value out_of_fuel = []
value (done r) = go r.block_log
  where
    go : List ScannedBlock → List (ℕ × (BlockHealth × RecoveryQuality))
    go [] = []
    go (sb ∷ sbs) = (sb.archive_offset, (sb.health, r.quality)) ∷ go sbs

-- The scan, with all that it computes with.
unfoldable pub scan_sample : ℕ → Bytes → Run RecoveryReport
unfolding scan report report_of scan_all scan_loop scanned_at assess remaining_at note_header
    note_corrupt note_chunk tally notify recovered_records quality_of from_scan compute_root_hash
    Block.read Block.parse validate from_u16 to_u16 Block.write body_fields to_le_bytes
    from_le_bytes read_exact from_uuid bytes_eq note_part grow insert_record
scan_sample = scan sample

logged :
    value (scan sample (length damaged) damaged)
    ≡ (256, (healthy, partial))
      ∷ (343, (header_corrupt, partial))
      ∷ (344, (header_corrupt, partial))
      ∷ (345, (healthy, partial))
      ∷ (431, (healthy, partial))
      ∷ []
unfolding scan_sample
logged = refl

is_block :
    (t : BlockType) (id offset : ℕ) (d : Bytes)
    → id < 2 ^ 32
    → offset < 2 ^ 64
    → length d < 2 ^ 32
    → IsBlock sample (header t id offset d) d
unfolding from_uuid bytes_eq
is_block t id offset d h k small = record {
  valid = record {
    flags_u16 = omega arith;
    uuid_width = refl;
    uuid_bytes = omega arith;
    file_id_u32 = h;
    file_offset_u64 = k;
    orig_size_u32 = small;
    comp_size_u32 = small;
    hash_width = length-to_le_bytes 32 (from_le_bytes d);
    hash_bytes = to_le_bytes-IsBytes 32 (from_le_bytes d);
  };
  size = refl;
  known = (CodecId.none, refl);
}

is_laid : IsLaid sample segments tail
unfolding Block.read Block.parse validate Block.write body_fields to_u16 from_u16 to_le_bytes
    from_le_bytes read_exact
is_laid = (
  is_block data_block 7 2 first (omega arith) (omega arith) (omega arith),
  (λ e. cc e),
  (
    ((_, refl), ((_, refl), tt)),
    (is_block data_block 7 0 second (omega arith) (omega arith) (omega arith), (λ e. cc e), tt),
  ),
)

scan_complete_example :
    (r : RecoveryReport) × (scan sample 0 damaged ≡ done r)
    × (r.block_log ≡ log_of 256 segments ++ healthy_at 431 index ∷ [])
scan_complete_example =
    scan_complete sample sample-IsHashes 0 front segments index (8 ∷ []) [] refl
      (is_block index_block 0xffff_ffff 0 (8 ∷ []) (omega arith) (omega arith) (omega arith)) refl
      is_laid (inl refl)

scan_log_example :
    (r : RecoveryReport) × (to : ℕ) × (scan sample 0 damaged ≡ done r)
    × Covers 256 r.block_log to
    × Over sample damaged to r.block_log
    × All (IsJudged sample damaged) r.block_log
scan_log_example = scan_log sample 0 damaged (inl refl)

scan_counts_example :
    (r : RecoveryReport) × (scan sample 0 damaged ≡ done r)
    × (r.total_scanned ≡ length r.block_log)
    × (r.total_scanned
        ≡ r.healthy_blocks + r.corrupt_blocks + r.truncated_blocks + r.unknown_codec_blocks)
    × (r.healthy_blocks ≡ count_where as_healthy r.block_log)
    × (r.corrupt_blocks ≡ count_where as_corrupt r.block_log)
    × (r.truncated_blocks ≡ count_where as_truncated r.block_log)
    × (r.unknown_codec_blocks ≡ count_where as_unknown r.block_log)
    × (r.recoverable_bytes ≡ healthy_bytes r.block_log)
    × (r.index.records ≡ recovered_records (groups_of r.block_log []))
scan_counts_example = scan_counts sample 0 damaged (inl refl)

-- The same without the damage.
abbrev intact : Bytes
intact =
    front
    ++ laid sample
        (stored (header data_block 7 2 first) first
          ∷ stored (header data_block 7 0 second) second
          ∷ [])
        tail

nothing : RecoveryReport
unfolding report_of
nothing = report_of sample fresh

abbrev report_in : Run RecoveryReport → RecoveryReport
report_in out_of_fuel = nothing
report_in (done r) = r

abbrev found : RecoveryReport
found = report_in (scan sample 0 intact)

ends :
    (scan sample 0 intact ≡ done found)
    × (found.corrupt_blocks ≡ 0)
    × (found.truncated_blocks ≡ 0)
    × (found.unknown_codec_blocks ≡ 0)
unfolding scan report report_of scan_all scan_loop scanned_at assess remaining_at note_header
    note_corrupt note_chunk tally notify recovered_records quality_of from_scan compute_root_hash
    Block.read Block.parse validate from_u16 to_u16 Block.write body_fields to_le_bytes
    from_le_bytes read_exact from_uuid bytes_eq note_part grow insert_record
ends = (refl, refl, refl, refl)

scan_blocks-eq-scan_example : scan_blocks sample intact ≡ done found.index
scan_blocks-eq-scan_example = scan_blocks-eq-scan sample 0 intact found ends.0 ends.1 ends.2 ends.3
