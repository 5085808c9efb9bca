-- ===== src/Recovery/Salvage/Order.antt =====
-- The groups of `extract_recoverable` (src/recovery/scanner.rs), sorted by their file numbers.
use cy.Common.{ℕ, ◌<◌, ◌≡◌, refl, false, List, [], ◌∷◌, leb, ◌==◌, Bool-cases, inl, inr, arith, All}
use cy.Recovery.{ScannedBlock}
use cy.Recovery.Extract.{FileBlocks, group_log, insert_file, sort_files}
use cy.Recovery.Salvage.{blocks_of}
use cy.Recovery.Salvage.Groups.{NoFile, Distinct, group_log-IsGrouping}

-- The groups by rising file numbers.
abbrev pub RisingFiles : List FileBlocks → Type 0
RisingFiles [] = Unit {0}
RisingFiles (f ∷ fs) = All (λ g. f.file_id < g.file_id) fs × RisingFiles fs

pub insert_file-All :
    (Q : FileBlocks → Type 0) (f : FileBlocks) (fs : List FileBlocks)
    → Q f
    → All Q fs
    → All Q (insert_file f fs)
unfolding insert_file
insert_file-All Q f [] h all = (h, tt)
insert_file-All Q f (g ∷ gs) h all = elim (Bool-cases (leb f.file_id g.file_id)) [
  | inl first ↦ rw first (h, all)
  | inr later ↦ rw later (all.0, insert_file-All Q f gs h all.1)
]

All-insert_file :
    (Q : FileBlocks → Type 0) (f : FileBlocks) (fs : List FileBlocks)
    → All Q (insert_file f fs)
    → Q f × All Q fs
unfolding insert_file
All-insert_file Q f [] all = all
All-insert_file Q f (g ∷ gs) all = elim (Bool-cases (leb f.file_id g.file_id)) [
  | inl first ↦ rw first at all
  | inr later ↦
      let all' : Q g × All Q (insert_file f gs) = rw later at all in
      let (h, rest) = All-insert_file Q f gs all'.1 in (h, (all'.0, rest))
]

pub sort_files-All :
    (Q : FileBlocks → Type 0) (fs : List FileBlocks) → All Q fs → All Q (sort_files fs)
unfolding sort_files
sort_files-All Q [] all = tt
sort_files-All Q (f ∷ fs) all =
    insert_file-All Q f (sort_files fs) all.0 (sort_files-All Q fs all.1)

All-sort_files : (Q : FileBlocks → Type 0) (fs : List FileBlocks) → All Q (sort_files fs) → All Q fs
unfolding sort_files
All-sort_files Q [] all = tt
All-sort_files Q (f ∷ fs) all =
    let (h, rest) = All-insert_file Q f (sort_files fs) all in (h, All-sort_files Q fs rest)

All-lt :
    (a b : ℕ) (fs : List FileBlocks)
    → a < b
    → All (λ g. b < g.file_id) fs
    → All (λ g. a < g.file_id) fs
All-lt a b [] h all = tt
All-lt a b (g ∷ gs) h all = (let e : b < g.file_id = all.0 in omega arith, All-lt a b gs h all.1)

insert_file-Rising :
    (f : FileBlocks) (fs : List FileBlocks)
    → NoFile f.file_id fs
    → RisingFiles fs
    → RisingFiles (insert_file f fs)
unfolding insert_file
insert_file-Rising f [] away up = (tt, tt)
insert_file-Rising f (g ∷ gs) away up = elim (Bool-cases (leb f.file_id g.file_id)) [
  | inl first ↦
      let other : (g.file_id == f.file_id) ≡ false = away.0 in
      let less : f.file_id < g.file_id = ground arith in
      rw first ((less, All-lt f.file_id g.file_id gs less up.0), up)
  | inr later ↦
      let more : g.file_id < f.file_id = ground arith in
      rw later (
        insert_file-All (λ x. g.file_id < x.file_id) f gs more up.0,
        insert_file-Rising f gs away.1 up.1,
      )
]

sort_files-Rising : (fs : List FileBlocks) → Distinct fs → RisingFiles (sort_files fs)
unfolding sort_files
sort_files-Rising [] d = tt
sort_files-Rising (f ∷ fs) d =
    insert_file-Rising f (sort_files fs)
      (sort_files-All (λ g. (g.file_id == f.file_id) ≡ false) fs d.0) (sort_files-Rising fs d.1)

pub sorted_groups :
    (log : List ScannedBlock)
    → let fs : List FileBlocks = sort_files (group_log log []) in
      RisingFiles fs
      × All (λ f. f.blocks ≡ blocks_of f.file_id log) fs
      × ((k : ℕ) → NoFile k fs → blocks_of k log ≡ [])
sorted_groups log =
    let g =
      group_log-IsGrouping (λ k. []) log []
        (record { distinct = tt; own = tt; others = λ k away. refl }) in
    (
      sort_files-Rising (group_log log []) g.distinct,
      sort_files-All (λ f. f.blocks ≡ blocks_of f.file_id log) (group_log log []) g.own,
      λ k away. g.others k (All-sort_files (λ f. (f.file_id == k) ≡ false) (group_log log []) away),
    )
