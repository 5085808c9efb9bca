-- ===== src/Recovery/Salvage/Groups.antt =====
-- `by_file` of `extract_recoverable` (src/recovery/scanner.rs), sorted: one entry for each file, with all
-- its usable DATA blocks in the order of the log.
use cy.Common.{
  ℕ, ◌≡◌, refl, sym, ap, ◌∙◌, subst, true, false, ◌&&◌, Option, none, some, List, [], ◌∷◌, ◌++◌,
  append_assoc, append-nil, ◌==◌, ==-refl, ==_iff, Bool-cases, inl, inr, arith, All, if◌then◌else◌,
}
use cy.Block.{BlockHeader}
use cy.Recovery.{ScannedBlock, is_usable, is_data}
use cy.Recovery.Extract.{FileBlocks, note_file, group_block, group_log}
use cy.Recovery.Salvage.{belongs, blocks_of}

-- No entry is that of the file.
abbrev pub NoFile : ℕ → List FileBlocks → Type 0
NoFile k fs = All (λ f. (f.file_id == k) ≡ false) fs

abbrev pub Distinct : List FileBlocks → Type 0
Distinct [] = Unit {0}
Distinct (f ∷ fs) = NoFile f.file_id fs × Distinct fs

-- The entries hold the blocks of their files, and there is one for every file that has any.
pub record IsGrouping (blocks : ℕ → List ScannedBlock) (fs : List FileBlocks) : Type 0 where
  pub distinct : Distinct fs
  pub own : All (λ f. f.blocks ≡ blocks f.file_id) fs
  pub others : (k : ℕ) → NoFile k fs → blocks k ≡ []

module _ (i : ℕ) (sb : ScannedBlock) where
  note_file-All :
      (Q : ℕ → Type 0) (fs : List FileBlocks)
      → Q i
      → All (λ f. Q f.file_id) fs
      → All (λ f. Q f.file_id) (note_file i sb fs)
  unfolding note_file
  note_file-All Q [] q all = (q, tt)
  note_file-All Q (f ∷ fs) q all = elim (Bool-cases (f.file_id == i)) [
    | inl same ↦ rw same all
    | inr other ↦ rw other (all.0, note_file-All Q fs q all.1)
  ]

  All-note_file :
      (Q : ℕ → Type 0) (fs : List FileBlocks)
      → All (λ f. Q f.file_id) (note_file i sb fs)
      → Q i × All (λ f. Q f.file_id) fs
  unfolding note_file
  All-note_file Q [] all = all
  All-note_file Q (f ∷ fs) all = elim (Bool-cases (f.file_id == i)) [
    | inl same ↦
        let all' : Q f.file_id × All (λ g. Q g.file_id) fs = rw same at all in
        (subst Q ((==_iff f.file_id i).0 same) all'.0, all')
    | inr other ↦
        let all' : Q f.file_id × All (λ g. Q g.file_id) (note_file i sb fs) = rw other at all in
        let (q, rest) = All-note_file Q fs all'.1 in (q, (all'.0, rest))
  ]

  note_file-Distinct : (fs : List FileBlocks) → Distinct fs → Distinct (note_file i sb fs)
  unfolding note_file
  note_file-Distinct [] d = (tt, tt)
  note_file-Distinct (f ∷ fs) d = elim (Bool-cases (f.file_id == i)) [
    | inl same ↦ rw same d
    | inr other ↦
        let back : (i == f.file_id) ≡ false = ground arith in
        rw other
          (note_file-All (λ j. (j == f.file_id) ≡ false) fs back d.0, note_file-Distinct fs d.1)
  ]

  -- What the file of a block gets.
  abbrev one : ℕ → List ScannedBlock
  one k = if i == k then sb ∷ [] else []

  own_others :
      (B : ℕ → List ScannedBlock) (fs : List FileBlocks)
      → NoFile i fs
      → All (λ f. f.blocks ≡ B f.file_id) fs
      → All (λ f. f.blocks ≡ B f.file_id ++ one f.file_id) fs
  own_others B [] away own = tt
  own_others B (f ∷ fs) (other, away) own =
      let back : (i == f.file_id) ≡ false = ground arith in
      (rw back (own.0 ∙ sym (append-nil (B f.file_id))), own_others B fs away own.1)

  note_file-own :
      (B : ℕ → List ScannedBlock) (fs : List FileBlocks)
      → Distinct fs
      → All (λ f. f.blocks ≡ B f.file_id) fs
      → (NoFile i fs → B i ≡ [])
      → All (λ f. f.blocks ≡ B f.file_id ++ one f.file_id) (note_file i sb fs)
  unfolding note_file
  note_file-own B [] d own new = (rw (new tt, ==-refl i) refl, tt)
  note_file-own B (f ∷ fs) d own new = elim (Bool-cases (f.file_id == i)) [
    | inl same ↦
        let id : f.file_id ≡ i = (==_iff f.file_id i).0 same in
        let back : (i == f.file_id) ≡ true = ground arith in
        rw same (
          rw back (ap (λ l. l ++ sb ∷ []) own.0),
          own_others B fs (subst (λ j. NoFile j fs) id d.0) own.1,
        )
    | inr other ↦
        let back : (i == f.file_id) ≡ false = ground arith in
        rw other (
          rw back (own.0 ∙ sym (append-nil (B f.file_id))),
          note_file-own B fs d.1 own.1 (λ away. new (other, away)),
        )
  ]

  note_file-IsGrouping :
      (B : ℕ → List ScannedBlock) (fs : List FileBlocks)
      → IsGrouping B fs
      → IsGrouping (λ k. B k ++ one k) (note_file i sb fs)
  note_file-IsGrouping B fs g = record {
    distinct = note_file-Distinct fs g.distinct;
    own = note_file-own B fs g.distinct g.own (g.others i);
    others = λ k away.
        let (other, rest) = All-note_file (λ j. (j == k) ≡ false) fs away in
        rw (other, g.others k rest) refl;
  }

pub same-IsGrouping :
    (B C : ℕ → List ScannedBlock) (fs : List FileBlocks)
    → ((k : ℕ) → B k ≡ C k)
    → IsGrouping B fs
    → IsGrouping C fs
same-IsGrouping B C fs same g = record {
  distinct = g.distinct;
  own = all fs g.own;
  others = λ k away. sym (same k) ∙ g.others k away;
}
  where
    all :
        (fs : List FileBlocks)
        → All (λ f. f.blocks ≡ B f.file_id) fs
        → All (λ f. f.blocks ≡ C f.file_id) fs
    all [] own = tt
    all (f ∷ fs) own = (own.0 ∙ same f.file_id, all fs own.1)

pub blocks_of-cons :
    (k : ℕ) (sb : ScannedBlock) (log : List ScannedBlock)
    → blocks_of k (sb ∷ log) ≡ blocks_of k (sb ∷ []) ++ blocks_of k log
blocks_of-cons k sb log = elim (Bool-cases (is_usable sb && belongs k sb.header)) [
  | inl its ↦ rw its refl
  | inr other ↦ rw other refl
]

pub group_block-IsGrouping :
    (B : ℕ → List ScannedBlock) (sb : ScannedBlock) (o : Option BlockHeader) (fs : List FileBlocks)
    → IsGrouping B fs
    → IsGrouping
        (λ k. B k ++ (if is_usable sb && belongs k o then sb ∷ [] else []))
        (group_block sb o fs)
unfolding group_block
group_block-IsGrouping B sb none fs g = elim (Bool-cases (is_usable sb)) [
  | inl well ↦ rw well (same-IsGrouping B _ fs (λ k. sym (append-nil (B k))) g)
  | inr ill ↦ rw ill (same-IsGrouping B _ fs (λ k. sym (append-nil (B k))) g)
]
group_block-IsGrouping B sb (some h) fs g = elim (Bool-cases (is_usable sb)) [
  | inr ill ↦ rw ill (same-IsGrouping B _ fs (λ k. sym (append-nil (B k))) g)
  | inl well ↦ elim (Bool-cases (is_data h.block_type)) [
    | inr other ↦ rw (well, other) (same-IsGrouping B _ fs (λ k. sym (append-nil (B k))) g)
    | inl data_block ↦ rw (well, data_block) (note_file-IsGrouping h.file_id sb B fs g)
  ]
]

pub group_log-IsGrouping :
    (B : ℕ → List ScannedBlock) (log : List ScannedBlock) (fs : List FileBlocks)
    → IsGrouping B fs
    → IsGrouping (λ k. B k ++ blocks_of k log) (group_log log fs)
unfolding group_log
group_log-IsGrouping B [] fs g = same-IsGrouping B _ fs (λ k. sym (append-nil (B k))) g
group_log-IsGrouping B (sb ∷ log) fs g =
    same-IsGrouping _ _ _
      (λ k.
        append_assoc (B k) (blocks_of k (sb ∷ [])) (blocks_of k log)
        ∙ ap (λ l. B k ++ l) (sym (blocks_of-cons k sb log)))
      (group_log-IsGrouping (λ k. B k ++ blocks_of k (sb ∷ [])) log (group_block sb sb.header fs)
        (group_block-IsGrouping B sb sb.header fs g))
