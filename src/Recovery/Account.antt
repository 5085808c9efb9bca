-- ===== src/Recovery/Account.antt =====
-- What a report of `scan` (src/recovery/scanner.rs) says is so in the file: its log covers the file
-- without a gap, every verdict is right, and counters and chunks are those of the log.
use cy.Common.{
  ℕ, ◌+◌, ◌*◌, ◌≡◌, refl, sym, ap, ◌∙◌, Option, none, some, List, [], ◌∷◌, ◌++◌, arith, length,
  length-append,
}
use cy.Block.{BlockHeader}
use cy.Reader.Scan.{Group}
use cy.Recovery.{
  BlockHealth, healthy, header_corrupt, truncated_payload, unknown_codec, ScannedBlock, Scanned,
  note_corrupt, note_header, notify, tally, note_chunk,
}

-- How many entries have a verdict of a kind.
unfoldable pub count_where : (BlockHealth → ℕ) → List ScannedBlock → ℕ
count_where one [] = 0
count_where one (sb ∷ log) = one sb.health + count_where one log

abbrev pub as_healthy : BlockHealth → ℕ
as_healthy healthy = 1
as_healthy header_corrupt = 0
as_healthy (truncated_payload d a) = 0
as_healthy (unknown_codec u) = 0

abbrev pub as_corrupt : BlockHealth → ℕ
as_corrupt healthy = 0
as_corrupt header_corrupt = 1
as_corrupt (truncated_payload d a) = 0
as_corrupt (unknown_codec u) = 0

abbrev pub as_truncated : BlockHealth → ℕ
as_truncated healthy = 0
as_truncated header_corrupt = 0
as_truncated (truncated_payload d a) = 1
as_truncated (unknown_codec u) = 0

abbrev pub as_unknown : BlockHealth → ℕ
as_unknown healthy = 0
as_unknown header_corrupt = 0
as_unknown (truncated_payload d a) = 0
as_unknown (unknown_codec u) = 1

abbrev orig_size_of : Option BlockHeader → ℕ
orig_size_of none = 0
orig_size_of (some h) = h.orig_size

-- The original sizes of the healthy entries.
unfoldable pub healthy_bytes : List ScannedBlock → ℕ
healthy_bytes [] = 0
healthy_bytes (sb ∷ log) = as_healthy sb.health * orig_size_of sb.header + healthy_bytes log

abbrev add_block :
    ScannedBlock → Option BlockHeader → List (Group ScannedBlock) → List (Group ScannedBlock)
add_block sb none groups = groups
add_block sb (some h) groups = note_chunk sb h groups

-- The healthy DATA entries of a log, by file.
unfoldable pub groups_of : List ScannedBlock → List (Group ScannedBlock) → List (Group ScannedBlock)
groups_of [] groups = groups
groups_of (sb ∷ log) groups = groups_of log (add_block sb sb.header groups)

-- Where the walk goes on behind an entry.
abbrev extent : Option BlockHeader → ℕ
extent none = 1
extent (some h) = 84 + h.comp_size

-- Each entry stands where the one before it ends.
abbrev pub Covers : ℕ → List ScannedBlock → ℕ → Type 0
Covers from [] to = from ≡ to
Covers from (sb ∷ log) to = (sb.archive_offset ≡ from) × Covers (from + extent sb.header) log to

pub Covers-snoc :
    (from to : ℕ) (log : List ScannedBlock) (sb : ScannedBlock)
    → Covers from log to
    → sb.archive_offset ≡ to
    → Covers from (log ++ sb ∷ []) (to + extent sb.header)
Covers-snoc from to [] sb e h = (h ∙ sym e, ap (λ n. n + extent sb.header) e)
Covers-snoc from to (x ∷ log) sb (at, c) h =
    (at, Covers-snoc (from + extent x.header) to log sb c h)

count_where-snoc :
    (one : BlockHealth → ℕ) (log : List ScannedBlock) (sb : ScannedBlock)
    → count_where one (log ++ sb ∷ []) ≡ count_where one log + one sb.health
unfolding count_where
count_where-snoc one [] sb = omega arith
count_where-snoc one (x ∷ log) sb = omega (arith, count_where-snoc one log sb)

healthy_bytes-snoc :
    (log : List ScannedBlock) (sb : ScannedBlock)
    → healthy_bytes (log ++ sb ∷ [])
      ≡ healthy_bytes log + as_healthy sb.health * orig_size_of sb.header
unfolding healthy_bytes
healthy_bytes-snoc [] sb = omega arith
healthy_bytes-snoc (x ∷ log) sb = omega (arith, healthy_bytes-snoc log sb)

groups_of-snoc :
    (log : List ScannedBlock) (sb : ScannedBlock) (groups : List (Group ScannedBlock))
    → groups_of (log ++ sb ∷ []) groups ≡ add_block sb sb.header (groups_of log groups)
unfolding groups_of
groups_of-snoc [] sb groups = refl
groups_of-snoc (x ∷ log) sb groups = groups_of-snoc log sb (add_block x x.header groups)

-- The counters and the chunks are those of the log.
pub record IsAccounted (s : Scanned) : Type 0 where
  pub total : s.total_scanned ≡ length s.block_log
  pub healthy_count : s.healthy_blocks ≡ count_where as_healthy s.block_log
  pub corrupt_count : s.corrupt_blocks ≡ count_where as_corrupt s.block_log
  pub truncated_count : s.truncated_blocks ≡ count_where as_truncated s.block_log
  pub unknown_count : s.unknown_codec_blocks ≡ count_where as_unknown s.block_log
  pub recoverable : s.recoverable_bytes ≡ healthy_bytes s.block_log
  pub grouped : s.chunks ≡ groups_of s.block_log []

pub note_corrupt-IsAccounted :
    (pos : ℕ) (s : Scanned) → IsAccounted s → IsAccounted (note_corrupt pos s)
unfolding note_corrupt
note_corrupt-IsAccounted pos s a =
    let sb : ScannedBlock = record {
      archive_offset = pos;
      header = none;
      health = header_corrupt;
    } in
    let count = λ (one : BlockHealth → ℕ). count_where-snoc one s.block_log sb in
    record {
      total = omega (arith, a.total, length-append s.block_log (sb ∷ []));
      healthy_count = omega (arith, a.healthy_count, count as_healthy);
      corrupt_count = omega (arith, a.corrupt_count, count as_corrupt);
      truncated_count = omega (arith, a.truncated_count, count as_truncated);
      unknown_count = omega (arith, a.unknown_count, count as_unknown);
      recoverable = omega (arith, a.recoverable, healthy_bytes-snoc s.block_log sb);
      grouped = a.grouped ∙ sym (groups_of-snoc s.block_log sb []);
    }

-- The counters behind an accepted header, for every verdict.
pub tally_lem :
    (health : BlockHealth) (h : BlockHeader) (s : Scanned)
    → ((tally health h s).healthy_blocks ≡ s.healthy_blocks + as_healthy health)
      × ((tally health h s).truncated_blocks ≡ s.truncated_blocks + as_truncated health)
      × ((tally health h s).unknown_codec_blocks ≡ s.unknown_codec_blocks + as_unknown health)
      × ((tally health h s).recoverable_bytes
          ≡ s.recoverable_bytes + as_healthy health * h.orig_size)
      × ((tally health h s).corrupt_blocks ≡ s.corrupt_blocks)
unfolding tally
tally_lem healthy h s = omega arith
tally_lem header_corrupt h s = omega arith
tally_lem (truncated_payload d a) h s = omega arith
tally_lem (unknown_codec u) h s = omega arith

pub note_header-IsAccounted :
    (sb : ScannedBlock) (h : BlockHeader) (s : Scanned)
    → sb.header ≡ some h
    → as_corrupt sb.health ≡ 0
    → IsAccounted s
    → IsAccounted (note_header sb h s)
unfolding note_header
note_header-IsAccounted sb h s e sure a =
    let count = λ (one : BlockHealth → ℕ). count_where-snoc one s.block_log sb in
    let (x1, x2, x3, x4, x5) = tally_lem sb.health h s in
    let size : orig_size_of sb.header ≡ h.orig_size = ap orig_size_of e in
    record {
      total = omega (arith, a.total, length-append s.block_log (sb ∷ []));
      healthy_count = omega (arith, a.healthy_count, count as_healthy);
      corrupt_count = omega (arith, a.corrupt_count, count as_corrupt);
      truncated_count = omega (arith, a.truncated_count, count as_truncated);
      unknown_count = omega (arith, a.unknown_count, count as_unknown);
      recoverable =
          x4
          ∙ ap (λ n. s.recoverable_bytes + as_healthy sb.health * n) (sym size)
          ∙ ap (λ n. n + as_healthy sb.health * orig_size_of sb.header) a.recoverable
          ∙ sym (healthy_bytes-snoc s.block_log sb);
      grouped =
          ap (note_chunk sb h) a.grouped
          ∙ ap (λ o. add_block sb o (groups_of s.block_log [])) (sym e)
          ∙ sym (groups_of-snoc s.block_log sb []);
    }

pub notify-IsAccounted : (hint : ℕ) (s : Scanned) → IsAccounted s → IsAccounted (notify hint s)
unfolding notify
notify-IsAccounted hint s a = record {
  total = a.total;
  healthy_count = a.healthy_count;
  corrupt_count = a.corrupt_count;
  truncated_count = a.truncated_count;
  unknown_count = a.unknown_count;
  recoverable = a.recoverable;
  grouped = a.grouped;
}
