-- ===== src/Recovery/Walks.antt =====
-- The loop of `scan` (src/recovery/scanner.rs) as a relation: how one goes over a file, and that the
-- loop goes this way and ends.
use cy.Common.{
  ℕ, zero, suc, [], ◌+◌, ◌≤◌, ◌<◌, ◌≡◌, ◌≢◌, ◌⊎◌, refl, sym, ap, ◌∙◌, subst, ok, err, leb, leb→le,
  Bool-cases, Result-cases, ok_injective, inl, inr, arith, length, take, drop, length-take,
  length-drop, take-all, drop-all, Run, done,
}
use mathlib.Core.Path.{ap₂}
use cy.Bytes.{Bytes}
use cy.Errors.{IoError}
use cy.Libs.{Libs}
use cy.Io.{read_exact}
use cy.Io.Laws.{read_exact-long}
use cy.Block
use cy.Block.{BlockHeader, BlockType, data_block, index_block, solid_block}
use cy.Block.Accepted.{read-eq-ok}
use cy.Recovery.{Scanned, note_corrupt, note_header, notify, scanned_at, scan_loop, scan_all, fresh}

-- The ways to go on at a position.
pub data Walk (L : Libs) (hint : ℕ) (file : Bytes) (out : Scanned) : ℕ → Scanned → Type 0 where
  -- No header fits.
  ends : (pos : ℕ) (s : Scanned) → length file < pos + 84 → s ≡ out → Walk L hint file out pos s
  -- No header is accepted: one byte on.
  skips :
      (pos : ℕ) (s : Scanned) (e : IoError)
      → pos + 84 ≤ length file
      → Block.read L (drop pos file) ≡ err e
      → Walk L hint file out (pos + 1) (notify hint (note_corrupt pos s))
      → Walk L hint file out pos s
  -- The index block is the last.
  stops :
      (pos : ℕ) (s : Scanned) (h : BlockHeader) (rest : Bytes)
      → Block.read L (drop pos file) ≡ ok (h, rest)
      → h.block_type ≡ index_block
      → note_header (scanned_at L hint file pos h) h s ≡ out
      → Walk L hint file out pos s
  reads :
      (pos : ℕ) (s : Scanned) (h : BlockHeader) (rest : Bytes)
      → Block.read L (drop pos file) ≡ ok (h, rest)
      → h.block_type ≢ index_block
      → Walk L hint file out
          (pos + 84 + h.comp_size)
          (notify hint (note_header (scanned_at L hint file pos h) h s))
      → Walk L hint file out pos s

-- A header is accepted in the buffer exactly if it is in the stream.
abbrev ReadAlike : Libs → Bytes → Type 0
ReadAlike L r =
    ((h : BlockHeader) × (Block.read L (take 84 r) ≡ ok (h, []))
      × (Block.read L r ≡ ok (h, drop 84 r)))
    ⊎ ((e : IoError) × (Block.read L (take 84 r) ≡ err e) × (Block.read L r ≡ err e))

read_alike : (L : Libs) (r : Bytes) → 84 ≤ length r → ReadAlike L r
unfolding Block.read
read_alike L r long =
    let size : length (take 84 r) ≡ 84 = omega (arith, length-take 84 r) in
    let whole : take 84 (take 84 r) ≡ take 84 r = take-all 84 (take 84 r) (omega arith) in
    let buffer : read_exact 84 (take 84 r) ≡ ok (take 84 r, []) =
      read_exact-long 84 (take 84 r) (omega arith)
      ∙ ap₂ (λ a b. ok (a, b)) whole (drop-all 84 (take 84 r) (omega arith)) in
    elim (Result-cases (Block.parse L (take 84 r))) [
      | inl (h, e) ↦ inl (h, rw (buffer, e) refl, rw (read_exact-long 84 r long, e) refl)
      | inr (x, e) ↦ inr (x, rw (buffer, e) refl, rw (read_exact-long 84 r long, e) refl)
    ]

module _ (L : Libs) (hint : ℕ) (file : Bytes) where
  -- What follows an accepted header.
  abbrev by_type : Scanned → Run Scanned → BlockType → Run Scanned
  by_type noted more index_block = done noted
  by_type noted more data_block = more
  by_type noted more solid_block = more

  scan_loop-ends :
      (fuel pos : ℕ) (s : Scanned)
      → length file < pos + 84
      → scan_loop L hint file (suc fuel) pos s ≡ done s
  unfolding scan_loop read_exact
  scan_loop-ends fuel pos s short = elim (Bool-cases (leb 84 (length (drop pos file)))) [
    | inl long ↦
        absurd (omega (arith, length-drop pos file, leb→le 84 (length (drop pos file)) long))
    | inr e ↦ rw (e, scan_loop) refl
  ]

  scan_loop-skips :
      (fuel pos : ℕ) (s : Scanned) (e : IoError)
      → pos + 84 ≤ length file
      → Block.read L (drop pos file) ≡ err e
      → scan_loop L hint file (suc fuel) pos s
        ≡ scan_loop L hint file fuel (pos + 1) (notify hint (note_corrupt pos s))
  unfolding scan_loop
  scan_loop-skips fuel pos s e inside bad =
      let long : 84 ≤ length (drop pos file) = omega (arith, length-drop pos file) in
      elim (read_alike L (drop pos file) long) [
        | inl (h, b, w) ↦ cc (w, bad)
        | inr (x, b, w) ↦
            rw (read_exact-long 84 (drop pos file) long, scan_loop) (rw (b, scan_loop) refl)
      ]

  scan_loop-accepts :
      (fuel pos : ℕ) (s : Scanned) (h : BlockHeader) (rest : Bytes)
      → Block.read L (drop pos file) ≡ ok (h, rest)
      → scan_loop L hint file (suc fuel) pos s
        ≡ by_type
            (note_header (scanned_at L hint file pos h) h s)
            (scan_loop L hint file fuel
              (pos + 84 + h.comp_size)
              (notify hint (note_header (scanned_at L hint file pos h) h s)))
            h.block_type
  unfolding scan_loop
  scan_loop-accepts fuel pos s h rest good =
      let (long, _, _) = read-eq-ok L (drop pos file) h rest good in
      elim (read_alike L (drop pos file) long) [
        | inr (x, b, w) ↦ cc (w, good)
        | inl (h', b, w) ↦
            let same : h' ≡ h =
              ap (λ (q : BlockHeader × Bytes). q.0) (ok_injective (sym w ∙ good)) in
            rw (read_exact-long 84 (drop pos file) long, scan_loop)
              (rw
                (subst (λ x. Block.read L (take 84 (drop pos file)) ≡ ok (x, [])) same b, scan_loop)
                (types (note_header (scanned_at L hint file pos h) h s) _ h.block_type))
      ]
    where
      types :
          (noted : Scanned) (more : Run Scanned) (t : BlockType)
          → elim t [ index_block ↦ done noted | _ ↦ more ] ≡ by_type noted more t
      types noted more data_block = refl
      types noted more index_block = refl
      types noted more solid_block = refl

  by_type-index :
      (noted : Scanned) (more : Run Scanned) (t : BlockType)
      → t ≡ index_block
      → by_type noted more t ≡ done noted
  by_type-index noted more t e = rw e

  by_type-other :
      (noted : Scanned) (more : Run Scanned) (t : BlockType)
      → t ≢ index_block
      → by_type noted more t ≡ more
  by_type-other noted more data_block h = refl
  by_type-other noted more index_block h = absurd (h refl)
  by_type-other noted more solid_block h = refl

  index_or_not : (t : BlockType) → (t ≡ index_block) ⊎ (t ≢ index_block)
  index_or_not data_block = inr (λ e. cc e)
  index_or_not index_block = inl refl
  index_or_not solid_block = inr (λ e. cc e)

  -- The loop goes the way of a walk, and ends with what the walk ends with.
  pub Walk-scan_loop :
      (fuel pos : ℕ) (s out : Scanned)
      → Walk L hint file out pos s
      → length file < fuel + pos
      → 1 ≤ fuel
      → scan_loop L hint file fuel pos s ≡ done out
  Walk-scan_loop zero pos s out w enough some_fuel = absurd (omega arith)
  Walk-scan_loop (suc fuel) pos s out (Walk.ends _ _ short e) enough some_fuel =
      scan_loop-ends fuel pos s short ∙ ap done e
  Walk-scan_loop (suc fuel) pos s out (Walk.skips _ _ x inside bad w) enough some_fuel =
      scan_loop-skips fuel pos s x inside bad
      ∙ Walk-scan_loop fuel (pos + 1) _ out w (omega arith) (omega arith)
  Walk-scan_loop (suc fuel) pos s out (Walk.stops _ _ h rest good index e) enough some_fuel =
      scan_loop-accepts fuel pos s h rest good ∙ by_type-index _ _ h.block_type index ∙ ap done e
  Walk-scan_loop (suc fuel) pos s out (Walk.reads _ _ h rest good other w) enough some_fuel =
      let (long, _, _) = read-eq-ok L (drop pos file) h rest good in
      let inside : pos + 84 ≤ length file = omega (arith, length-drop pos file) in
      scan_loop-accepts fuel pos s h rest good
      ∙ by_type-other _ _ h.block_type other
      ∙ Walk-scan_loop fuel (pos + 84 + h.comp_size) _ out w (omega arith) (omega arith)

  -- From every position there is a walk.
  pub Walk-total :
      (fuel pos : ℕ) (s : Scanned)
      → length file < fuel + pos
      → (out : Scanned) × Walk L hint file out pos s
  Walk-total zero pos s enough = (s, Walk.ends pos s (omega arith) refl)
  Walk-total (suc fuel) pos s enough = elim (Bool-cases (leb (pos + 84) (length file))) [
    | inr short ↦ (s, Walk.ends pos s (ground arith) refl)
    | inl fits ↦
        let inside : pos + 84 ≤ length file = leb→le (pos + 84) (length file) fits in
        elim (Result-cases (Block.read L (drop pos file))) [
          | inr (x, bad) ↦
              let (out, w) =
                Walk-total fuel (pos + 1) (notify hint (note_corrupt pos s)) (omega arith) in
              (out, Walk.skips pos s x inside bad w)
          | inl ((h, rest), good) ↦
              let noted : Scanned = note_header (scanned_at L hint file pos h) h s in
              elim (index_or_not h.block_type) [
                | inl index ↦ (noted, Walk.stops pos s h rest good index refl)
                | inr other ↦
                    let (out, w) =
                      Walk-total fuel (pos + 84 + h.comp_size) (notify hint noted) (omega arith) in
                    (out, Walk.reads pos s h rest good other w)
              ]
        ]
  ]

-- Whatever the bytes and the hint are, the loop of `scan` ends, as one walk from behind the superblock does.
pub scan_all-Walk :
    (L : Libs) (hint : ℕ) (file : Bytes)
    → (out : Scanned) × (scan_all L hint file ≡ done out) × Walk L hint file out 256 fresh
unfolding scan_all
scan_all-Walk L hint file =
    let (out, w) = Walk-total L hint file (suc (length file)) 256 fresh (omega arith) in
    (
      out,
      Walk-scan_loop L hint file (suc (length file)) 256 fresh out w (omega arith) (omega arith),
      w,
    )

-- And it ends with what any walk ends with.
pub Walk-scan_all :
    (L : Libs) (hint : ℕ) (file : Bytes) (out : Scanned)
    → Walk L hint file out 256 fresh
    → scan_all L hint file ≡ done out
unfolding scan_all
Walk-scan_all L hint file out w =
    Walk-scan_loop L hint file (suc (length file)) 256 fresh out w (omega arith) (omega arith)
