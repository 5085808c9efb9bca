-- ===== src/Recovery/Verdicts.antt =====
-- The log of `scan` (src/recovery/scanner.rs) says what stands in the file, from one end of the walk to
-- the other.
use cy.Common.{
  ℕ, ◌+◌, ◌-◌, ◌≤◌, ◌<◌, ◌≡◌, ◌⊎◌, refl, sym, ap, subst, false, Option, none, some, List, [], ◌∷◌,
  ◌++◌, ok, err, ltb, ltb→lt, Bool-cases, Option-cases, inl, inr, arith, length, drop, length-drop,
  All, All-append,
}
use cy.Bytes.{Bytes, bytes_eq}
use cy.Errors.{IoError}
use cy.Libs.{Libs}
use cy.Codec.{CodecId, from_uuid, uuid_none}
use cy.Block
use cy.Block.{BlockHeader, BlockType, index_block}
use cy.Block.Accepted.{read-eq-ok}
use cy.Recovery.{
  BlockHealth, healthy, header_corrupt, truncated_payload, unknown_codec, ScannedBlock, Scanned,
  note_corrupt, note_header, notify, scanned_at, remaining_at, assess,
}
use cy.Recovery.Walks.{Walk}
use cy.Recovery.Account.{
  Covers, Covers-snoc, IsAccounted, note_corrupt-IsAccounted, note_header-IsAccounted,
  notify-IsAccounted, as_corrupt,
}

-- What the code passes as `file_size_hint`.
abbrev pub IsHint : ℕ → Bytes → Type 0
IsHint hint file = (hint ≡ 0) ⊎ (hint ≡ length file)

pub remaining_at_lem :
    (hint : ℕ) (file : Bytes) (pos : ℕ)
    → IsHint hint file
    → remaining_at hint file pos ≡ length file - pos
unfolding remaining_at
remaining_at_lem hint file pos h = ground arith

pub known_none : (u : Bytes) → from_uuid u ≡ none → bytes_eq u uuid_none ≡ false
unfolding from_uuid
known_none u h = elim (Bool-cases (bytes_eq u uuid_none)) [
  | inl same ↦ cc (rw same at h)
  | inr other ↦ other
]

module _ (L : Libs) (file : Bytes) where
  -- What a verdict on the block at an offset states.
  abbrev pub Verdict : BlockHeader → ℕ → BlockHealth → Type 0
  Verdict h at healthy =
      (c : CodecId) × (from_uuid h.codec_uuid ≡ some c) × (at + 84 + h.comp_size ≤ length file)
  Verdict h at header_corrupt = ⊥
  Verdict h at (truncated_payload declared available) =
      (c : CodecId) × (from_uuid h.codec_uuid ≡ some c)
      × (declared ≡ h.comp_size)
      × (at + 84 + available ≡ length file)
      × (available < declared)
  Verdict h at (unknown_codec uuid_hex) =
      (from_uuid h.codec_uuid ≡ none) × (uuid_hex ≡ L.hex_encode h.codec_uuid)

  abbrev pub Judged : ℕ → BlockHealth → Option BlockHeader → Type 0
  Judged at health none =
      (health ≡ header_corrupt)
      × (at + 84 ≤ length file)
      × ((e : IoError) × (Block.read L (drop at file) ≡ err e))
  Judged at health (some h) =
      ((rest : Bytes) × (Block.read L (drop at file) ≡ ok (h, rest))) × Verdict h at health

  -- An entry with no header stands where 84 bytes are no header; one with a header stands where that
  -- header is read, and its verdict holds.
  abbrev pub IsJudged : ScannedBlock → Type 0
  IsJudged sb = Judged sb.archive_offset sb.health sb.header

  assess_lem :
      (h : BlockHeader) (at : ℕ)
      → at + 84 ≤ length file
      → Verdict h at (assess L h (length file - (at + 84)))
  unfolding assess
  assess_lem h at fits = elim (Option-cases (from_uuid h.codec_uuid)) [
    | inl e ↦ rw (e, assess) (rw (known_none h.codec_uuid e) (e, refl))
    | inr (c, e) ↦ elim (Bool-cases (ltb (length file - (at + 84)) h.comp_size)) [
      | inl short ↦
          let less : length file - (at + 84) < h.comp_size =
            ltb→lt (length file - (at + 84)) h.comp_size short in
          rw (e, assess) (rw short (c, e, refl, omega arith, less))
      | inr whole ↦
          let enough : h.comp_size ≤ length file - (at + 84) = ground arith in
          rw (e, assess) (rw whole (c, e, omega arith))
    ]
  ]

  pub assess_known :
      (h : BlockHeader) (c : CodecId) (n : ℕ)
      → from_uuid h.codec_uuid ≡ some c
      → h.comp_size ≤ n
      → assess L h n ≡ healthy
  unfolding assess
  assess_known h c n e enough =
      let whole : ltb n h.comp_size ≡ false = ground arith in rw (e, assess) (rw whole refl)

  not_corrupt :
      (h : BlockHeader) (at : ℕ) (health : BlockHealth)
      → Verdict h at health
      → as_corrupt health ≡ 0
  not_corrupt h at healthy v = refl
  not_corrupt h at header_corrupt v = absurd v
  not_corrupt h at (truncated_payload d a) v = refl
  not_corrupt h at (unknown_codec u) v = refl

  -- What the loop keeps: the counters, the log's verdicts, and that the log covers what lies behind.
  pub record Keeps (pos : ℕ) (s : Scanned) : Type 0 where
    pub accounted : IsAccounted s
    pub judged : All IsJudged s.block_log
    pub covers : Covers 256 s.block_log pos

  notify-Keeps : (hint pos : ℕ) (s : Scanned) → Keeps pos s → Keeps pos (notify hint s)
  unfolding notify
  notify-Keeps hint pos s k = record {
    accounted = notify-IsAccounted hint s k.accounted;
    judged = k.judged;
    covers = k.covers;
  }

  note_corrupt-Keeps :
      (pos : ℕ) (s : Scanned) (e : IoError)
      → pos + 84 ≤ length file
      → Block.read L (drop pos file) ≡ err e
      → Keeps pos s
      → Keeps (pos + 1) (note_corrupt pos s)
  unfolding note_corrupt
  note_corrupt-Keeps pos s e fits bad k =
      let sb : ScannedBlock = record {
        archive_offset = pos;
        header = none;
        health = header_corrupt;
      } in
      record {
        accounted = note_corrupt-IsAccounted pos s k.accounted;
        judged = All-append IsJudged s.block_log (sb ∷ []) k.judged ((refl, fits, (e, bad)), tt);
        covers = Covers-snoc 256 pos s.block_log sb k.covers refl;
      }

  -- How a walk ends.
  abbrev pub Over : ℕ → List ScannedBlock → Type 0
  Over to log =
      (length file < to + 84)
      ⊎ ((front : List ScannedBlock) × (sb : ScannedBlock) × (h : BlockHeader) × (log
            ≡ front ++ sb ∷ [])
          × (sb.header ≡ some h)
          × (h.block_type ≡ index_block))

  module _ (hint : ℕ) (hinted : IsHint hint file) where
    scanned_at-IsJudged :
        (pos : ℕ) (h : BlockHeader) (rest : Bytes)
        → Block.read L (drop pos file) ≡ ok (h, rest)
        → IsJudged (scanned_at L hint file pos h)
    unfolding scanned_at
    scanned_at-IsJudged pos h rest good =
        let (long, _, _) = read-eq-ok L (drop pos file) h rest good in
        (
          (rest, good),
          rw (remaining_at_lem hint file (pos + 84) hinted)
              (assess_lem h pos (omega (arith, length-drop pos file))),
        )

    note_header-Keeps :
        (pos : ℕ) (s : Scanned) (h : BlockHeader) (rest : Bytes)
        → Block.read L (drop pos file) ≡ ok (h, rest)
        → Keeps pos s
        → Keeps (pos + 84 + h.comp_size) (note_header (scanned_at L hint file pos h) h s)
    unfolding note_header scanned_at
    note_header-Keeps pos s h rest good k =
        let sb : ScannedBlock = scanned_at L hint file pos h in
        let true_verdict = scanned_at-IsJudged pos h rest good in
        record {
          accounted =
              note_header-IsAccounted sb h s refl (not_corrupt h pos _ true_verdict.1) k.accounted;
          judged = All-append IsJudged s.block_log (sb ∷ []) k.judged (true_verdict, tt);
          covers =
              subst (Covers 256 (s.block_log ++ sb ∷ [])) (omega arith)
                (Covers-snoc 256 pos s.block_log sb k.covers refl);
        }

    pub Walk-Keeps :
        (out : Scanned) (pos : ℕ) (s : Scanned)
        → Walk L hint file out pos s
        → Keeps pos s
        → (to : ℕ) × Keeps to out × Over to out.block_log
    unfolding note_header scanned_at
    Walk-Keeps out pos s (Walk.ends _ _ short e) k = (pos, subst (Keeps pos) e k, inl short)
    Walk-Keeps out pos s (Walk.skips _ _ x fits bad w) k =
        Walk-Keeps out (pos + 1) _ w
          (notify-Keeps hint (pos + 1) _ (note_corrupt-Keeps pos s x fits bad k))
    Walk-Keeps out pos s (Walk.stops _ _ h rest good index e) k =
        let last = note_header-Keeps pos s h rest good k in
        (
          pos + 84 + h.comp_size,
          subst (Keeps (pos + 84 + h.comp_size)) e last,
          inr (
            s.block_log,
            scanned_at L hint file pos h,
            h,
            sym (ap (λ x. x.block_log) e),
            refl,
            index,
          ),
        )
    Walk-Keeps out pos s (Walk.reads _ _ h rest good other w) k =
        Walk-Keeps out (pos + 84 + h.comp_size) _ w
          (notify-Keeps hint (pos + 84 + h.comp_size) _ (note_header-Keeps pos s h rest good k))
