-- ===== src/Recovery/Refs.antt =====
-- Scanned blocks as references: the groups of src/recovery/scanner.rs beside those of `scan_blocks` in
-- src/io_stream/mod.rs.
use cy.Common.{ℕ, ◌≡◌, refl, ap, ◌∙◌, List, [], ◌∷◌, ◌++◌, leb, ◌==◌, Bool-cases, inl, inr}
use cy.Index.{BlockRef}
use cy.Reader.Scan
use cy.Reader.Scan.{
  Group, grow, note_part, note_block, sorted_records, insert_record, insert_part, sort_parts,
  index_of, scan_blocks,
}
use cy.Recovery.{ScannedBlock, ref_of, refs_of, recovered_records}

-- The parts as references.
unfoldable pub ref_parts : List (ℕ × ScannedBlock) → List (ℕ × BlockRef)
ref_parts [] = []
ref_parts (p ∷ ps) = (p.0, ref_of p.1) ∷ ref_parts ps

unfoldable pub ref_groups : List (Group ScannedBlock) → List (Group BlockRef)
ref_groups [] = []
ref_groups (g ∷ gs) =
    record { file_id = g.file_id; size = g.size; parts = ref_parts g.parts } ∷ ref_groups gs

pub ref_parts-snoc :
    (ps : List (ℕ × ScannedBlock)) (p : ℕ × ScannedBlock)
    → ref_parts (ps ++ p ∷ []) ≡ ref_parts ps ++ (p.0, ref_of p.1) ∷ []
unfolding ref_parts
ref_parts-snoc [] p = refl
ref_parts-snoc (q ∷ ps) p = rw (ref_parts-snoc ps p)

pub ref_groups-note_part :
    (fid end offset : ℕ) (sb : ScannedBlock) (gs : List (Group ScannedBlock))
    → ref_groups (note_part fid end offset sb gs)
      ≡ note_part fid end offset (ref_of sb) (ref_groups gs)
unfolding ref_groups ref_parts note_part grow
ref_groups-note_part fid end offset sb [] = refl
ref_groups-note_part fid end offset sb (g ∷ gs) = elim (Bool-cases (g.file_id == fid)) [
  | inl same ↦ rw same (rw (ref_parts-snoc g.parts (offset, sb)))
  | inr other ↦ rw other (rw (ref_groups-note_part fid end offset sb gs))
]

pub ref_parts-insert_part :
    (p : ℕ × ScannedBlock) (ps : List (ℕ × ScannedBlock))
    → ref_parts (insert_part p ps) ≡ insert_part (p.0, ref_of p.1) (ref_parts ps)
unfolding ref_parts insert_part
ref_parts-insert_part p [] = refl
ref_parts-insert_part p (q ∷ ps) = elim (Bool-cases (leb p.0 q.0)) [
  | inl first ↦ rw first
  | inr later ↦ rw later (rw (ref_parts-insert_part p ps))
]

pub ref_parts-sort_parts :
    (ps : List (ℕ × ScannedBlock)) → ref_parts (sort_parts ps) ≡ sort_parts (ref_parts ps)
unfolding ref_parts sort_parts
ref_parts-sort_parts [] = refl
ref_parts-sort_parts (p ∷ ps) =
    ref_parts-insert_part p (sort_parts ps)
    ∙ ap (insert_part (p.0, ref_of p.1)) (ref_parts-sort_parts ps)

pub refs_of-ref_parts : (ps : List (ℕ × ScannedBlock)) → Scan.refs_of (ref_parts ps) ≡ refs_of ps
unfolding ref_parts Scan.refs_of refs_of
refs_of-ref_parts [] = refl
refs_of-ref_parts (p ∷ ps) = rw (refs_of-ref_parts ps)

pub sorted_records-ref_groups :
    (gs : List (Group ScannedBlock)) → sorted_records (ref_groups gs) ≡ recovered_records gs
unfolding sorted_records ref_groups recovered_records
sorted_records-ref_groups [] = refl
sorted_records-ref_groups (g ∷ gs) = rw (
  sorted_records-ref_groups gs,
  ← ref_parts-sort_parts g.parts,
  refs_of-ref_parts (sort_parts g.parts),
)
