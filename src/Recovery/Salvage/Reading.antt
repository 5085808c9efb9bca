-- ===== src/Recovery/Salvage/Reading.antt =====
-- `extract_recoverable` of src/recovery/scanner.rs: reading never fails, and the new archive is filled with
-- the files of the log.
use cy.Common.{
  ℕ, ◌+◌, ◌≤◌, ◌≡◌, refl, sym, ap, ◌∙◌, subst, true, false, ◌&&◌, Option, none, some, List, [], ◌∷◌,
  ◌++◌, append_assoc, append-nil, Result, ok, err, leb, Bool-cases, inl, inr, arith, length, take,
  drop, length-drop, All,
}
use cy.Bytes.{Bytes}
use cy.Errors.{IoError}
use cy.Libs.{Libs}
use cy.Io.Laws.{read_exact-long}
use cy.Block.{BlockHeader}
use cy.Block.Payload.{decode_block}
use cy.Writer.{Host, SixCyWriter, then_on}
use cy.Writer.Batches.{pack_batch, pack}
use cy.Recovery.{
  BlockHealth, healthy, header_corrupt, truncated_payload, unknown_codec, ScannedBlock, is_some,
  is_usable, is_healthy,
}
use cy.Recovery.Verdicts.{Judged, IsJudged}
use cy.Recovery.Extract.{
  FileBlocks, group_log, sort_files, offset_of, insert_block, sort_blocks, append_chunk,
  read_payload, read_blocks, add_recovered, extract_files,
}
use cy.Recovery.Salvage.{
  blocks_of, belongs, decoded, chunk_at, joined, keep, kept, salvaged, singles,
}
use cy.Recovery.Salvage.Order.{sorted_groups}

module _ (L : Libs) (src : Bytes) (key : Option Bytes) where
  -- The payload of the block stands in the source.
  abbrev Whole : ℕ → Option BlockHeader → Type 0
  Whole at none = ⊥
  Whole at (some h) = at + 84 + h.comp_size ≤ length src

  abbrev IsWhole : ScannedBlock → Type 0
  IsWhole sb = Whole sb.archive_offset sb.header

  usable-Whole :
      (at : ℕ) (v : BlockHealth) (o : Option BlockHeader)
      → (is_healthy v && is_some o) ≡ true
      → Judged L src at v o
      → Whole at o
  unfolding is_healthy is_some
  usable-Whole at v none u (corrupt, _, _) = cc (rw corrupt at u)
  usable-Whole at healthy (some h) u (_, (c, _, fits)) = fits
  usable-Whole at header_corrupt (some h) u (_, v) = absurd v
  usable-Whole at (truncated_payload d a) (some h) u j = cc u
  usable-Whole at (unknown_codec x) (some h) u j = cc u

  blocks_of-IsWhole :
      (k : ℕ) (log : List ScannedBlock) → All (IsJudged L src) log → All IsWhole (blocks_of k log)
  unfolding is_usable
  blocks_of-IsWhole k [] j = tt
  blocks_of-IsWhole k (sb ∷ log) j = elim (Bool-cases (is_healthy sb.health && is_some sb.header)) [
    | inr ill ↦ rw ill (blocks_of-IsWhole k log j.1)
    | inl well ↦ elim (Bool-cases (belongs k sb.header)) [
      | inr other ↦ rw (well, other) (blocks_of-IsWhole k log j.1)
      | inl its ↦
          rw (well, its)
            (
              usable-Whole sb.archive_offset sb.health sb.header well j.0,
              blocks_of-IsWhole k log j.1,
            )
    ]
  ]

  groups-IsWhole :
      (log : List ScannedBlock) (fs : List FileBlocks)
      → All (IsJudged L src) log
      → All (λ f. f.blocks ≡ blocks_of f.file_id log) fs
      → All (λ f. All IsWhole f.blocks) fs
  groups-IsWhole log [] j own = tt
  groups-IsWhole log (f ∷ fs) j own = (
    subst (All IsWhole) (sym own.0) (blocks_of-IsWhole f.file_id log j),
    groups-IsWhole log fs j own.1,
  )

  insert_block-IsWhole :
      (sb : ScannedBlock) (sbs : List ScannedBlock)
      → IsWhole sb
      → All IsWhole sbs
      → All IsWhole (insert_block sb sbs)
  unfolding insert_block
  insert_block-IsWhole sb [] h all = (h, tt)
  insert_block-IsWhole sb (x ∷ xs) h all =
      elim (Bool-cases (leb (offset_of sb.header) (offset_of x.header))) [
        | inl first ↦ rw first (h, all)
        | inr later ↦ rw later (all.0, insert_block-IsWhole sb xs h all.1)
      ]

  sort_blocks-IsWhole : (sbs : List ScannedBlock) → All IsWhole sbs → All IsWhole (sort_blocks sbs)
  unfolding sort_blocks
  sort_blocks-IsWhole [] all = tt
  sort_blocks-IsWhole (sb ∷ sbs) all =
      insert_block-IsWhole sb (sort_blocks sbs) all.0 (sort_blocks-IsWhole sbs all.1)

  append_decoded :
      {E : Type 0} (contents : Bytes) (r : Result E Bytes)
      → append_chunk contents r ≡ contents ++ decoded r
  append_decoded contents (ok chunk) = refl
  append_decoded contents (err e) = sym (append-nil contents)

  read_payload-Whole :
      (sb : ScannedBlock) (o : Option BlockHeader)
      → Whole sb.archive_offset o
      → (h : BlockHeader) × (payload : Bytes) × (read_payload L src sb o ≡ ok (h, payload))
        × ((contents : Bytes)
            → append_chunk contents (decode_block L h payload key)
              ≡ contents ++ chunk_at L src key sb.archive_offset o)
  unfolding read_payload
  read_payload-Whole sb none w = absurd w
  read_payload-Whole sb (some h) w =
      let r : Bytes = drop (sb.archive_offset + 84) src in
      (
        h,
        take h.comp_size r,
        rw (read_exact-long h.comp_size r (omega (arith, length-drop (sb.archive_offset + 84) src)))
            refl,
        λ contents. append_decoded contents (decode_block L h (take h.comp_size r) key),
      )

  -- Reading never fails.
  read_blocks-joined :
      (sbs : List ScannedBlock) (contents : Bytes)
      → All IsWhole sbs
      → read_blocks L src key sbs contents ≡ ok (contents ++ joined L src key sbs)
  unfolding read_blocks
  read_blocks-joined [] contents all = ap ok (sym (append-nil contents))
  read_blocks-joined (sb ∷ sbs) contents all =
      let (h, payload, e, same) = read_payload-Whole sb sb.header all.0 in
      let chunk : Bytes = chunk_at L src key sb.archive_offset sb.header in
      rw (e, same contents)
        (read_blocks-joined sbs (contents ++ chunk) all.1
          ∙ ap ok (append_assoc contents chunk (joined L src key sbs)))

  module _ (H : Host) where
    then_on_same :
        (r : Result IoError (Unit {0}) × SixCyWriter)
        (f g : SixCyWriter → Result IoError (Unit {0}) × SixCyWriter)
        → ((v : SixCyWriter) → f v ≡ g v)
        → then_on r (λ _ v. f v) ≡ then_on r (λ _ v. g v)
    then_on_same (ok u, v) f g h = h v
    then_on_same (err e, v) f g h = refl

    -- One file, and those behind it.
    add_recovered-keep :
        (k : ℕ) (contents : Bytes) (files : List (ℕ × Bytes)) (w : SixCyWriter)
        (f : SixCyWriter → Result IoError (Unit {0}) × SixCyWriter)
        → ((v : SixCyWriter) → f v ≡ pack L H (singles files) v)
        → then_on (add_recovered L H k contents w) (λ _ v. f v)
          ≡ pack L H (singles (keep k contents files)) w
    unfolding add_recovered pack pack_batch
    add_recovered-keep k [] files w f h = h w
    add_recovered-keep k (b ∷ bs) files w f h =
        let some_left : leb (length (b ∷ bs)) 0 ≡ false = ground arith in
        rw some_left (then_on_same _ f (λ v. pack L H (singles files) v) h)

    extract_files-pack :
        (fs : List FileBlocks) (w : SixCyWriter)
        → All (λ f. All IsWhole f.blocks) fs
        → extract_files L H src key fs w ≡ pack L H (singles (kept L src key fs)) w
    unfolding extract_files pack kept
    extract_files-pack [] w all = refl
    extract_files-pack (f ∷ fs) w all =
        let contents : Bytes = joined L src key (sort_blocks f.blocks) in
        let e : read_blocks L src key (sort_blocks f.blocks) [] ≡ ok contents =
          read_blocks-joined (sort_blocks f.blocks) [] (sort_blocks-IsWhole f.blocks all.0) in
        rw (e, extract_files)
          (add_recovered-keep f.file_id contents (kept L src key fs) w
            (λ v. extract_files L H src key fs v) (λ v. extract_files-pack fs v all.1))

    pub extract_files-salvaged :
        (log : List ScannedBlock) (w : SixCyWriter)
        → All (IsJudged L src) log
        → extract_files L H src key (sort_files (group_log log [])) w
          ≡ pack L H (singles (salvaged L src key log)) w
    unfolding salvaged
    extract_files-salvaged log w j =
        extract_files-pack (sort_files (group_log log [])) w
          (groups-IsWhole log (sort_files (group_log log [])) j (sorted_groups log).1)
