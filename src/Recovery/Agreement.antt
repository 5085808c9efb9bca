-- ===== src/Recovery/Agreement.antt =====
-- The two scans: where `scan` of src/recovery/scanner.rs has nothing to complain of, `scan_blocks` of
-- src/io_stream/mod.rs makes the same index.
use cy.Common.{
  ℕ, zero, suc, ◌+◌, ◌≤◌, ◌<◌, ◌≡◌, ◌≢◌, refl, sym, ap, ◌∙◌, subst, List, [], ok, Bool-cases,
  Result-cases, inl, inr, arith, length, drop, length-drop, Run, done, replicate, done_injective,
}
use cy.Bytes.{Bytes}
use cy.Libs.{Libs}
use cy.Block
use cy.Block.{BlockHeader, BlockType, data_block, index_block, solid_block}
use cy.Block.Accepted.{read-eq-ok}
use cy.Index.{BlockRef, compute_root_hash}
use cy.Reader.Scan
use cy.Reader.Scan.{
  Group, grow, note_part, note_block, sorted_records, insert_record, insert_part, sort_parts,
  index_of, scan_blocks,
}
use cy.Recovery.{
  BlockHealth, healthy, header_corrupt, truncated_payload, unknown_codec, is_healthy, is_data,
  ScannedBlock, Scanned, fresh, note_corrupt, note_chunk, ref_of, note_header, notify, tally,
  scanned_at, assess, remaining_at, RecoveryReport, scan, report, report_of,
}
use cy.Recovery.Walks.{Walk, scan_all-Walk}
use cy.Recovery.Account.{tally_lem}
use cy.Recovery.Refs.{ref_groups, ref_groups-note_part, sorted_records-ref_groups}

module _ (L : Libs) (hint : ℕ) (file : Bytes) where
  -- Nothing is damaged.
  abbrev IsClean : Scanned → Type 0
  IsClean s = (s.corrupt_blocks ≡ 0) × (s.truncated_blocks ≡ 0) × (s.unknown_codec_blocks ≡ 0)

  -- The counters only rise.
  Walk-IsClean :
      (out : Scanned) (pos : ℕ) (s : Scanned) → Walk L hint file out pos s → IsClean out → IsClean s
  unfolding note_corrupt note_header notify
  Walk-IsClean out pos s (Walk.ends _ _ short e) c = subst IsClean (sym e) c
  Walk-IsClean out pos s (Walk.skips _ _ x fits bad w) c =
      let next = Walk-IsClean out (pos + 1) _ w c in absurd (omega arith)
  Walk-IsClean out pos s (Walk.stops _ _ h rest good index e) c =
      let sb : ScannedBlock = scanned_at L hint file pos h in
      let last : IsClean (note_header sb h s) = subst IsClean (sym e) c in
      omega (arith, tally_lem sb.health h s)
  Walk-IsClean out pos s (Walk.reads _ _ h rest good other w) c =
      let sb : ScannedBlock = scanned_at L hint file pos h in
      let next = Walk-IsClean out (pos + 84 + h.comp_size) _ w c in
      omega (arith, tally_lem sb.health h s)

  -- Nothing but a healthy block leaves the counters alone.
  clean_health :
      (health : BlockHealth) (h : BlockHeader) (s : Scanned)
      → health ≢ header_corrupt
      → IsClean (tally health h s)
      → health ≡ healthy
  unfolding tally
  clean_health healthy h s n c = refl
  clean_health header_corrupt h s n c = absurd (n refl)
  clean_health (truncated_payload d a) h s n c = absurd (omega arith)
  clean_health (unknown_codec u) h s n c = absurd (omega arith)

  assess-ne-corrupt : (h : BlockHeader) (n : ℕ) → assess L h n ≢ header_corrupt
  unfolding assess
  assess-ne-corrupt h n e = ground arith

  -- The three kinds of block, for the scan that has one test less.
  abbrev by_type :
      BlockType
      → List (Group BlockRef)
      → Run (List (Group BlockRef))
      → Run (List (Group BlockRef))
      → Run (List (Group BlockRef))
  by_type data_block groups with_part without = with_part
  by_type index_block groups with_part without = done groups
  by_type solid_block groups with_part without = without

  by_index :
      (groups : List (Group BlockRef)) (with_part without : Run (List (Group BlockRef)))
      (t : BlockType)
      → t ≡ index_block
      → by_type t groups with_part without ≡ done groups
  by_index groups with_part without t e = rw e

  plain_loop-accepts :
      (fuel pos : ℕ) (groups : List (Group BlockRef)) (h : BlockHeader) (rest : Bytes)
      → Block.read L (drop pos file) ≡ ok (h, rest)
      → Scan.scan_loop L (suc fuel) file pos groups
        ≡ by_type h.block_type groups
            (Scan.scan_loop L fuel file (pos + 84 + h.comp_size) (note_block pos h groups))
            (Scan.scan_loop L fuel file (pos + 84 + h.comp_size) groups)
  unfolding Scan.scan_loop
  plain_loop-accepts fuel pos groups h rest good =
      rw (good, Scan.scan_loop) (types h.block_type _ _)
    where
      types :
          (t : BlockType) (with_part without : Run (List (Group BlockRef)))
          → elim t [ index_block ↦ done groups | solid_block ↦ without | data_block ↦ with_part ]
            ≡ by_type t groups with_part without
      types data_block a b = refl
      types index_block a b = refl
      types solid_block a b = refl

  plain_loop-rejects :
      (fuel pos : ℕ) (groups : List (Group BlockRef))
      → length file < pos + 84
      → Scan.scan_loop L (suc fuel) file pos groups ≡ done groups
  unfolding Scan.scan_loop
  plain_loop-rejects fuel pos groups short = elim (Result-cases (Block.read L (drop pos file))) [
    | inr (x, e) ↦ rw (e, Scan.scan_loop) refl
    | inl ((h, rest), e) ↦
        let (long, _, _) = read-eq-ok L (drop pos file) h rest e in
        absurd (omega (arith, length-drop pos file))
  ]

  -- A healthy block is noted by both.
  noted :
      (pos : ℕ) (h : BlockHeader) (s : Scanned) (t : BlockType)
      → h.block_type ≡ t
      → t ≢ index_block
      → assess L h (remaining_at hint file (pos + 84)) ≡ healthy
      → (fuel next : ℕ)
      → by_type t
          (ref_groups s.chunks)
          (Scan.scan_loop L fuel file next (note_block pos h (ref_groups s.chunks)))
          (Scan.scan_loop L fuel file next (ref_groups s.chunks))
        ≡ Scan.scan_loop L fuel file next
            (ref_groups (notify hint (note_header (scanned_at L hint file pos h) h s)).chunks)
  unfolding notify note_header note_chunk scanned_at note_block ref_of tally is_healthy is_data
  noted pos h s data_block k other well fuel next =
      rw (k, well)
        (ap (Scan.scan_loop L fuel file next) (sym (ref_groups-note_part _ _ _ _ s.chunks)))
  noted pos h s index_block k other well fuel next = absurd (other refl)
  noted pos h s solid_block k other well fuel next = rw (k, well) refl

  skip_unclean : (pos : ℕ) (s : Scanned) → ¬ IsClean (notify hint (note_corrupt pos s))
  unfolding notify note_corrupt
  skip_unclean pos s c = absurd (omega arith)

  note_clean :
      (pos : ℕ) (h : BlockHeader) (s : Scanned)
      → IsClean (notify hint (note_header (scanned_at L hint file pos h) h s))
      → assess L h (remaining_at hint file (pos + 84)) ≡ healthy
  unfolding notify note_header scanned_at
  note_clean pos h s c = clean_health _ h s (assess-ne-corrupt h _) c

  index_chunks :
      (sb : ScannedBlock) (h : BlockHeader) (s : Scanned)
      → h.block_type ≡ index_block
      → (note_header sb h s).chunks ≡ s.chunks
  unfolding note_header note_chunk is_data
  index_chunks sb h s e = elim (Bool-cases (is_healthy sb.health)) [
    | inl well ↦ rw (e, well) refl
    | inr ill ↦ rw ill refl
  ]

  Walk-plain_loop :
      (fuel pos : ℕ) (s out : Scanned)
      → Walk L hint file out pos s
      → IsClean out
      → length file < fuel + pos
      → 1 ≤ fuel
      → Scan.scan_loop L fuel file pos (ref_groups s.chunks) ≡ done (ref_groups out.chunks)
  Walk-plain_loop zero pos s out w c enough some_fuel = absurd (omega arith)
  Walk-plain_loop (suc fuel) pos s out (Walk.ends _ _ short e) c enough some_fuel =
      plain_loop-rejects fuel pos (ref_groups s.chunks) short
      ∙ ap (λ x. done (ref_groups x.chunks)) e
  Walk-plain_loop (suc fuel) pos s out (Walk.skips _ _ x fits bad w) c enough some_fuel =
      absurd (skip_unclean pos s (Walk-IsClean out (pos + 1) _ w c))
  Walk-plain_loop (suc fuel) pos s out (Walk.stops _ _ h rest good index e) c enough some_fuel =
      plain_loop-accepts fuel pos (ref_groups s.chunks) h rest good
      ∙ by_index (ref_groups s.chunks) _ _ h.block_type index
      ∙ ap (λ gs. done (ref_groups gs))
          (sym (index_chunks (scanned_at L hint file pos h) h s index) ∙ ap (λ x. x.chunks) e)
  Walk-plain_loop (suc fuel) pos s out (Walk.reads _ _ h rest good other w) c enough some_fuel =
      let (long, _, _) = read-eq-ok L (drop pos file) h rest good in
      let next = Walk-IsClean out (pos + 84 + h.comp_size) _ w c in
      plain_loop-accepts fuel pos (ref_groups s.chunks) h rest good
      ∙ noted pos h s h.block_type refl other (note_clean pos h s next) fuel
          (pos + 84 + h.comp_size)
      ∙ Walk-plain_loop fuel (pos + 84 + h.comp_size) _ out w c
          (omega (arith, length-drop pos file)) (omega (arith, length-drop pos file))

-- If the scan of a file meets no corrupt header, no truncated payload and no unknown codec, the
-- index that it recovers is that which the reader's `scan_blocks` finds, root hash included.
pub scan_blocks-eq-scan :
    (L : Libs) (hint : ℕ) (file : Bytes) (r : RecoveryReport)
    → scan L hint file ≡ done r
    → r.corrupt_blocks ≡ 0
    → r.truncated_blocks ≡ 0
    → r.unknown_codec_blocks ≡ 0
    → scan_blocks L file ≡ done r.index
unfolding scan report report_of scan_blocks index_of ref_groups
scan_blocks-eq-scan L hint file r e corrupt truncated unknown =
    let (out, ended, w) = scan_all-Walk L hint file in
    let same : report_of L out ≡ r = done_injective (ap (report L) (sym ended) ∙ e) in
    let clean : IsClean L hint file out = (
      ap (λ x. x.corrupt_blocks) same ∙ corrupt,
      ap (λ x. x.truncated_blocks) same ∙ truncated,
      ap (λ x. x.unknown_codec_blocks) same ∙ unknown,
    ) in
    let plain : Scan.scan_loop L (suc (length file)) file 256 [] ≡ done (ref_groups out.chunks) =
      Walk-plain_loop L hint file (suc (length file)) 256 fresh out w clean (omega arith)
        (omega arith) in
    rw (plain, index_of)
      (ap (λ rs. done (compute_root_hash L (record { records = rs; root_hash = replicate 32 0 })))
          (sorted_records-ref_groups out.chunks)
        ∙ ap (λ x. done x.index) same)
