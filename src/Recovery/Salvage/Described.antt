-- ===== src/Recovery/Salvage/Described.antt =====
-- The files that `extract_recoverable` (src/recovery/scanner.rs) packs are those of the log.
use cy.Common.{
  ℕ, ◌<◌, ◌≡◌, ◌⊎◌, refl, subst, Option, some, List, [], ◌∷◌, ◌==◌, ==_iff, Bool-cases, inl, inr,
  arith, All, get_elem?, suc, length,
}
use cy.Bytes.{Bytes}
use cy.Libs.{Libs}
use cy.Recovery.{ScannedBlock}
use cy.Recovery.Extract.{FileBlocks, group_log, sort_files, sort_blocks}
use cy.Recovery.Salvage.{
  blocks_of, at_offset, Rising, joined, IsFileOf, IsSalvage, keep, kept, salvaged,
}
use cy.Recovery.Salvage.Sorting.{sort_blocks-InOrder, at_offset-sort_blocks}
use cy.Recovery.Salvage.Groups.{NoFile}
use cy.Recovery.Salvage.Order.{sorted_groups}
use cy.Recovery.Salvage.Order.{RisingFiles}

module _ (L : Libs) (src : Bytes) (key : Option Bytes) (log : List ScannedBlock) where
  abbrev IsFile : ℕ × Bytes → Type 0
  IsFile f = IsFileOf L src key log f.0 f.1 × (0 < length f.1)

  keep-All :
      (Q : ℕ × Bytes → Type 0) (k : ℕ) (contents : Bytes) (files : List (ℕ × Bytes))
      → (0 < length contents → Q (k, contents))
      → All Q files
      → All Q (keep k contents files)
  keep-All Q k [] files q all = all
  keep-All Q k (b ∷ bs) files q all = (q (omega arith), all)

  keep-Rising :
      (k : ℕ) (contents : Bytes) (files : List (ℕ × Bytes))
      → All (λ g. k < g.0) files
      → Rising files
      → Rising (keep k contents files)
  keep-Rising k [] files above up = up
  keep-Rising k (b ∷ bs) files above up = (above, up)

  keep_found :
      (k : ℕ) (contents : Bytes) (files : List (ℕ × Bytes))
      → (contents ≡ []) ⊎ ((n : ℕ) × (get_elem? (keep k contents files) n ≡ some (k, contents)))
  keep_found k [] files = inl refl
  keep_found k (b ∷ bs) files = inr (0, refl)

  keep_later :
      (k : ℕ) (contents : Bytes) (files : List (ℕ × Bytes)) (n : ℕ) (f : ℕ × Bytes)
      → get_elem? files n ≡ some f
      → (m : ℕ) × (get_elem? (keep k contents files) m ≡ some f)
  keep_later k [] files n f at = (n, at)
  keep_later k (b ∷ bs) files n f at = (suc n, at)

  kept-above :
      (k : ℕ) (fs : List FileBlocks)
      → All (λ g. k < g.file_id) fs
      → All (λ g. k < g.0) (kept L src key fs)
  unfolding kept
  kept-above k [] above = tt
  kept-above k (f ∷ fs) above =
      keep-All (λ g. k < g.0) f.file_id (joined L src key (sort_blocks f.blocks))
        (kept L src key fs) (λ some_left. above.0) (kept-above k fs above.1)

  kept-Rising : (fs : List FileBlocks) → RisingFiles fs → Rising (kept L src key fs)
  unfolding kept
  kept-Rising [] up = tt
  kept-Rising (f ∷ fs) up =
      keep-Rising f.file_id (joined L src key (sort_blocks f.blocks)) (kept L src key fs)
        (kept-above f.file_id fs up.0) (kept-Rising fs up.1)

  sort_blocks-IsFileOf :
      (k : ℕ) (blocks : List ScannedBlock)
      → blocks ≡ blocks_of k log
      → IsFileOf L src key log k (joined L src key (sort_blocks blocks))
  sort_blocks-IsFileOf k blocks own = record {
    blocks = sort_blocks blocks;
    in_order = sort_blocks-InOrder blocks;
    same = λ o.
        subst (λ l. at_offset o (sort_blocks blocks) ≡ at_offset o l) own
          (at_offset-sort_blocks o blocks);
    is_joined = refl;
  }

  kept-IsFile :
      (fs : List FileBlocks)
      → All (λ f. f.blocks ≡ blocks_of f.file_id log) fs
      → All IsFile (kept L src key fs)
  unfolding kept
  kept-IsFile [] own = tt
  kept-IsFile (f ∷ fs) own =
      keep-All IsFile f.file_id (joined L src key (sort_blocks f.blocks)) (kept L src key fs)
        (λ some_left. (sort_blocks-IsFileOf f.file_id f.blocks own.0, some_left))
        (kept-IsFile fs own.1)

  -- The file of a number is among the files, or has no data.
  abbrev IsAmong : List (ℕ × Bytes) → ℕ → Type 0
  IsAmong files k =
      (contents : Bytes) × IsFileOf L src key log k contents
      × ((contents ≡ []) ⊎ ((n : ℕ) × (get_elem? files n ≡ some (k, contents))))

  kept_all :
      (k : ℕ) (fs : List FileBlocks)
      → All (λ f. f.blocks ≡ blocks_of f.file_id log) fs
      → NoFile k fs ⊎ IsAmong (kept L src key fs) k
  unfolding kept
  kept_all k [] own = inl tt
  kept_all k (f ∷ fs) own =
      let contents = joined L src key (sort_blocks f.blocks) in
      elim (Bool-cases (f.file_id == k)) [
        | inl same ↦
            let id : f.file_id ≡ k = (==_iff f.file_id k).0 same in
            inr (
              subst (IsAmong (keep f.file_id contents (kept L src key fs))) id (
                contents,
                sort_blocks-IsFileOf f.file_id f.blocks own.0,
                keep_found f.file_id contents (kept L src key fs),
              ))
        | inr other ↦ elim (kept_all k fs own.1) [
          | inl away ↦ inl (other, away)
          | inr (c, its, inl empty) ↦ inr (c, its, inl empty)
          | inr (c, its, inr (n, at)) ↦
              inr (c, its, inr (keep_later f.file_id contents (kept L src key fs) n (k, c) at))
        ]
      ]

  pub salvaged-IsSalvage : IsSalvage L src key log (salvaged L src key log)
  unfolding salvaged
  salvaged-IsSalvage =
      let fs : List FileBlocks = sort_files (group_log log []) in
      let (up, own, others) = sorted_groups log in
      record {
        rising = kept-Rising fs up;
        each = kept-IsFile fs own;
        complete = λ k. elim (kept_all k fs own) [
          | inl away ↦ inl (others k away)
          | inr among ↦ inr among
        ];
      }
