-- ===== src/Recovery/Log.antt =====
-- What `scan` of src/recovery/scanner.rs reports: its log, and its counters beside the log.
use cy.Common.{ℕ, ◌+◌, ◌≡◌, refl, ap, List, [], ◌∷◌, arith, length, All, done}
use cy.Bytes.{Bytes}
use cy.Libs.{Libs}
use cy.Index.{compute_root_hash}
use cy.Recovery.{
  BlockHealth, healthy, header_corrupt, truncated_payload, unknown_codec, ScannedBlock, Scanned,
  fresh, RecoveryReport, scan, report, report_of, recovered_records,
}
use cy.Recovery.Walks.{scan_all-Walk}
use cy.Recovery.Account.{
  Covers, IsAccounted, as_healthy, as_corrupt, as_truncated, as_unknown, count_where, healthy_bytes,
  groups_of,
}
use cy.Recovery.Verdicts.{IsHint, IsJudged, Keeps, Over, Walk-Keeps}

fresh-Keeps : (L : Libs) (file : Bytes) → Keeps L file 256 fresh
unfolding groups_of count_where healthy_bytes
fresh-Keeps L file = record {
  accounted = record {
    total = refl;
    healthy_count = refl;
    corrupt_count = refl;
    truncated_count = refl;
    unknown_count = refl;
    recoverable = refl;
    grouped = refl;
  };
  judged = tt;
  covers = refl;
}

-- The end of `scan`, with what its loop has kept.
pub scan-Keeps :
    (L : Libs) (hint : ℕ) (file : Bytes)
    → IsHint hint file
    → (out : Scanned) × (to : ℕ) × (scan L hint file ≡ done (report_of L out))
      × Keeps L file to out
      × Over L file to out.block_log
unfolding scan report
scan-Keeps L hint file hinted =
    let (out, e, w) = scan_all-Walk L hint file in
    let (to, k, over) = Walk-Keeps L file hint hinted out 256 fresh w (fresh-Keeps L file) in
    (out, to, rw e refl, k, over)

-- Whatever the bytes of a file are, with the file's size as the hint or no hint: the scan ends; the
-- entries of its log stand at rising offsets that leave nothing out, from 256 up to where it stops,
-- each entry taking one byte if it is corrupt and the whole block otherwise; it stops only at the
-- end of the file or behind an INDEX block; and every verdict tells this of the file: at a corrupt
-- header, which is logged without a header, `read` refuses, for whatever reason; a healthy block is
-- read there, its codec is known and its payload is whole, which is not decoded and may be damaged;
-- a truncated one has exactly the available bytes up to the end of the file, and the codec of an
-- unknown one is none of this build's.
pub scan_log :
    (L : Libs) (hint : ℕ) (file : Bytes)
    → IsHint hint file
    → (r : RecoveryReport) × (to : ℕ) × (scan L hint file ≡ done r)
      × Covers 256 r.block_log to
      × Over L file to r.block_log
      × All (IsJudged L file) r.block_log
unfolding report_of
scan_log L hint file hinted =
    let (out, to, e, k, over) = scan-Keeps L hint file hinted in
    (report_of L out, to, e, k.covers, over, k.judged)

one_each :
    (log : List ScannedBlock)
    → length log
      ≡ count_where as_healthy log
        + count_where as_corrupt log
        + count_where as_truncated log
        + count_where as_unknown log
unfolding count_where
one_each [] = refl
one_each (sb ∷ log) = omega (arith, one_each log, one sb.health)
  where
    one : (v : BlockHealth) → as_healthy v + as_corrupt v + as_truncated v + as_unknown v ≡ 1
    one healthy = refl
    one header_corrupt = refl
    one (truncated_payload d a) = refl
    one (unknown_codec u) = refl

-- Whatever the bytes of a file are, with the file's size as the hint or no hint: the scan ends, its
-- total is the length of its log and the sum of its four counters, each counter is the number of
-- the log's entries of that health, so that a block whose header is accepted but whose payload is
-- truncated or whose codec is unknown does not count as healthy, the recoverable bytes are the sum
-- of the sizes of the healthy blocks, and the records of the index are those that the log's healthy
-- DATA blocks give.
pub scan_counts :
    (L : Libs) (hint : ℕ) (file : Bytes)
    → IsHint hint file
    → (r : RecoveryReport) × (scan L hint file ≡ done r)
      × (r.total_scanned ≡ length r.block_log)
      × (r.total_scanned
          ≡ r.healthy_blocks + r.corrupt_blocks + r.truncated_blocks + r.unknown_codec_blocks)
      × (r.healthy_blocks ≡ count_where as_healthy r.block_log)
      × (r.corrupt_blocks ≡ count_where as_corrupt r.block_log)
      × (r.truncated_blocks ≡ count_where as_truncated r.block_log)
      × (r.unknown_codec_blocks ≡ count_where as_unknown r.block_log)
      × (r.recoverable_bytes ≡ healthy_bytes r.block_log)
      × (r.index.records ≡ recovered_records (groups_of r.block_log []))
unfolding report_of compute_root_hash
scan_counts L hint file hinted =
    let (out, to, e, k, over) = scan-Keeps L hint file hinted in
    let a : IsAccounted out = k.accounted in
    let each = one_each out.block_log in
    (
      report_of L out,
      e,
      a.total,
      omega (arith, a.total, a.healthy_count, a.corrupt_count, a.truncated_count, a.unknown_count),
      a.healthy_count,
      a.corrupt_count,
      a.truncated_count,
      a.unknown_count,
      a.recoverable,
      ap recovered_records a.grouped,
    )
