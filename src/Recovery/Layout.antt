-- ===== src/Recovery/Layout.antt =====
-- Files laid out as blocks with damage between them: `scan` of src/recovery/scanner.rs finds every block.
use cy.Common.{
  ℕ, zero, suc, ◌+◌, ◌≤◌, ◌≡◌, ◌≢◌, refl, sym, ap, ◌∙◌, subst, some, none, List, [], ◌∷◌, ◌++◌,
  append_assoc, append-nil, ok, err, arith, length, drop, length-append, drop-append_exact,
  drop-drop, done,
}
use cy.Bytes.{Bytes}
use cy.Errors.{IoError}
use cy.Libs.{Libs, IsHashes}
use cy.Codec.{CodecId, from_uuid}
use cy.Block
use cy.Block.{BlockHeader, IsHeader, index_block, block_header_version}
use cy.Block.Laws.{length-write, read-write_header}
use cy.Recovery.{
  healthy, header_corrupt, ScannedBlock, Scanned, fresh, note_corrupt, note_header, notify,
  scanned_at, assess, RecoveryReport, scan, report, report_of,
}
use cy.Recovery.Walks.{Walk, Walk-scan_all}
use cy.Recovery.Verdicts.{IsHint, remaining_at_lem, assess_known}

-- A stretch of a file: bytes that are no block, or a block with its payload.
pub data Segment : Type 0 where
  junk : Bytes → Segment
  stored : BlockHeader → Bytes → Segment

-- What `read` makes of a header: its version is that of this build.
abbrev pub as_read : BlockHeader → BlockHeader
as_read h = record h { header_version = block_header_version }

abbrev pub corrupt_at : ℕ → ScannedBlock
corrupt_at pos = record { archive_offset = pos; header = none; health = header_corrupt }

abbrev pub healthy_at : ℕ → BlockHeader → ScannedBlock
healthy_at pos h = record { archive_offset = pos; header = some (as_read h); health = healthy }

-- One entry for each byte that is no block.
abbrev pub corrupt_from : ℕ → ℕ → List ScannedBlock
corrupt_from pos zero = []
corrupt_from pos (suc n) = corrupt_at pos ∷ corrupt_from (pos + 1) n

-- The log of a layout that starts at a position.
abbrev pub log_of : ℕ → List Segment → List ScannedBlock
log_of pos [] = []
log_of pos (junk j ∷ ss) = corrupt_from pos (length j) ++ log_of (pos + length j) ss
log_of pos (stored h p ∷ ss) = healthy_at pos h ∷ log_of (pos + (84 + length p)) ss

-- How many bytes a layout takes.
abbrev pub size_of : List Segment → ℕ
size_of [] = 0
size_of (junk j ∷ ss) = length j + size_of ss
size_of (stored h p ∷ ss) = 84 + length p + size_of ss

module _ (L : Libs) where
  -- The bytes of a layout, and what follows them.
  abbrev pub laid : List Segment → Bytes → Bytes
  laid [] tail = tail
  laid (junk j ∷ ss) tail = j ++ laid ss tail
  laid (stored h p ∷ ss) tail = Block.write L h ++ (p ++ laid ss tail)

  -- The header describes a payload that stands behind it whole, by a codec of this build.
  pub record IsBlock (h : BlockHeader) (payload : Bytes) : Type 0 where
    pub valid : IsHeader h
    pub size : h.comp_size ≡ length payload
    pub known : (c : CodecId) × (from_uuid h.codec_uuid ≡ some c)

  -- At none of the first `n` positions a header is accepted.
  abbrev pub NoHeader : ℕ → Bytes → Type 0
  NoHeader zero r = Unit {0}
  NoHeader (suc n) r = ((e : IoError) × (Block.read L r ≡ err e)) × NoHeader n (drop 1 r)

  abbrev pub IsLaid : List Segment → Bytes → Type 0
  IsLaid [] tail = Unit {0}
  IsLaid (junk j ∷ ss) tail = NoHeader (length j) (j ++ laid ss tail) × IsLaid ss tail
  IsLaid (stored h p ∷ ss) tail = IsBlock h p × (h.block_type ≢ index_block) × IsLaid ss tail

  module _ (hashes : IsHashes L) (hint : ℕ) (file : Bytes) (hinted : IsHint hint file) where
    -- A block that stands at a position of the file.
    stored_at :
        (front rest p : Bytes) (h : BlockHeader)
        → file ≡ front ++ (Block.write L h ++ (p ++ rest))
        → IsBlock h p
        → (Block.read L (drop (length front) file) ≡ ok (as_read h, p ++ rest))
          × (scanned_at L hint file (length front) (as_read h) ≡ healthy_at (length front) h)
    unfolding scanned_at
    stored_at front rest p h e b =
        let at : drop (length front) file ≡ Block.write L h ++ (p ++ rest) =
          ap (drop (length front)) e ∙ drop-append_exact front _ (length front) refl in
        let width : length (Block.write L h) ≡ 84 = length-write L h b.valid in
        let long : length file ≡ length front + (84 + (length p + length rest)) = omega (
          arith,
          ap (length {A = ℕ}) e,
          length-append front (Block.write L h ++ (p ++ rest)),
          length-append (Block.write L h) (p ++ rest),
          length-append p rest,
        ) in
        let (c, known) = b.known in
        (
          ap (Block.read L) at ∙ read-write_header L h b.valid hashes (p ++ rest),
          ap (λ v. record { archive_offset = length front; header = some (as_read h); health = v })
              (ap (assess L (as_read h)) (remaining_at_lem hint file (length front + 84) hinted)
                ∙ assess_known L file (as_read h) c _ known (omega (arith, b.size))),
        )

    -- The variables behind a stretch with no header.
    skipped : ℕ → ℕ → Scanned → Scanned
    skipped pos zero s = s
    skipped pos (suc n) s = skipped (pos + 1) n (notify hint (note_corrupt pos s))

    skipped-block_log :
        (pos n : ℕ) (s : Scanned) → (skipped pos n s).block_log ≡ s.block_log ++ corrupt_from pos n
    unfolding skipped notify note_corrupt
    skipped-block_log pos zero s = sym (append-nil s.block_log)
    skipped-block_log pos (suc n) s =
        skipped-block_log (pos + 1) n (notify hint (note_corrupt pos s))
        ∙ append_assoc s.block_log (corrupt_at pos ∷ []) (corrupt_from (pos + 1) n)

    skips_over :
        (out : Scanned) (pos n : ℕ) (s : Scanned)
        → NoHeader n (drop pos file)
        → pos + n + 84 ≤ length file
        → Walk L hint file out (pos + n) (skipped pos n s)
        → Walk L hint file out pos s
    unfolding skipped
    skips_over out pos zero s none_there fits w =
        subst (λ p. Walk L hint file out p s) (omega arith) w
    skips_over out pos (suc n) s ((x, bad), none_there) fits w =
        Walk.skips pos s x (omega arith) bad (
          skips_over out (pos + 1) n (notify hint (note_corrupt pos s))
            (subst (NoHeader n) (drop-drop pos 1 file) none_there) (omega arith)
            (subst
              (λ p. Walk L hint file out p (skipped (pos + 1) n (notify hint (note_corrupt pos s))))
              (let e : pos + suc n ≡ pos + 1 + n = omega arith in e) w))

    -- A walk over a layout and an index block, and its log.
    abbrev WalksOver : ℕ → List Segment → BlockHeader → Scanned → Type 0
    WalksOver pos ss index s =
        (out : Scanned) × (end : ℕ) × (end ≡ pos + size_of ss)
        × Walk L hint file out pos s
        × (out.block_log ≡ s.block_log ++ (log_of pos ss ++ healthy_at end index ∷ []))

    module _ (index : BlockHeader) (payload after : Bytes) (b : IsBlock index payload)
        (last : index.block_type ≡ index_block) where
      abbrev tail : Bytes
      tail = Block.write L index ++ (payload ++ after)

      length-laid : (ss : List Segment) → 84 ≤ length (laid ss tail)
      length-laid [] = omega (
        arith,
        length-append (Block.write L index) (payload ++ after),
        length-write L index b.valid,
      )
      length-laid (junk j ∷ ss) = omega (arith, length-append j (laid ss tail), length-laid ss)
      length-laid (stored h p ∷ ss) = omega (
        arith,
        length-append (Block.write L h) (p ++ laid ss tail),
        length-append p (laid ss tail),
        length-laid ss,
      )

      walk_over :
          (pos : ℕ) (front : Bytes) (ss : List Segment) (s : Scanned)
          → pos ≡ length front
          → file ≡ front ++ laid ss tail
          → IsLaid ss tail
          → WalksOver pos ss index s
      unfolding note_header notify
      walk_over pos front [] s at e laid_out =
          let (found, judged) = stored_at front after payload index e b in
          (
            note_header (scanned_at L hint file pos (as_read index)) (as_read index) s,
            pos,
            omega arith,
            Walk.stops pos s (as_read index) (payload ++ after)
                (ap (λ n. Block.read L (drop n file)) at ∙ found) last refl,
            ap (λ n. s.block_log ++ scanned_at L hint file n (as_read index) ∷ []) at
                ∙ ap (λ sb. s.block_log ++ sb ∷ []) judged
                ∙ ap (λ n. s.block_log ++ healthy_at n index ∷ []) (sym at),
          )
      walk_over pos front (junk j ∷ ss) s at e (none_there, laid_out) =
          let n : ℕ = length j in
          let at_front : drop pos file ≡ j ++ laid ss tail =
            ap (λ k. drop k file) at
            ∙ ap (drop (length front)) e
            ∙ drop-append_exact front (j ++ laid ss tail) (length front) refl in
          let long = ap (length {A = ℕ}) e in
          let (out, end, there, w, logged) =
            walk_over (pos + n) (front ++ j) ss (skipped pos n s)
              (omega (arith, length-append front j)) (e ∙ sym (append_assoc front j (laid ss tail)))
              laid_out in
          (
            out,
            end,
            omega arith,
            skips_over out pos n s (subst (NoHeader n) (sym at_front) none_there)
                (omega (
                  arith,
                  long,
                  length-append front (j ++ laid ss tail),
                  length-append j (laid ss tail),
                  length-laid ss,
                ))
                w,
            logged
                ∙ ap (λ l. l ++ (log_of (pos + n) ss ++ healthy_at end index ∷ []))
                    (skipped-block_log pos n s)
                ∙ append_assoc s.block_log (corrupt_from pos n) _
                ∙ ap (λ l. s.block_log ++ l)
                    (sym (append_assoc (corrupt_from pos n) (log_of (pos + n) ss) _)),
          )
      walk_over pos front (stored h p ∷ ss) s at e (bh, other, laid_out) =
          let rest : Bytes = laid ss tail in
          let (found, judged) = stored_at front rest p h e bh in
          let entry : ScannedBlock = scanned_at L hint file pos (as_read h) in
          let s1 : Scanned = notify hint (note_header entry (as_read h) s) in
          let width : length (Block.write L h) ≡ 84 = length-write L h bh.valid in
          let (out, end, there, w, logged) =
            walk_over (pos + (84 + length p)) (front ++ (Block.write L h ++ p)) ss s1
              (omega (
                arith,
                length-append front (Block.write L h ++ p),
                length-append (Block.write L h) p,
              ))
              (e
                ∙ ap (λ x. front ++ x) (sym (append_assoc (Block.write L h) p rest))
                ∙ sym (append_assoc front (Block.write L h ++ p) rest))
              laid_out in
          (
            out,
            end,
            omega arith,
            Walk.reads pos s (as_read h) (p ++ rest)
                (ap (λ n. Block.read L (drop n file)) at ∙ found) other
                (subst (λ n. Walk L hint file out n s1) (omega (arith, bh.size)) w),
            logged
                ∙ append_assoc s.block_log (entry ∷ []) _
                ∙ ap
                    (λ sb.
                      s.block_log
                      ++ sb ∷ (log_of (pos + (84 + length p)) ss ++ healthy_at end index ∷ []))
                    (ap (λ n. scanned_at L hint file n (as_read h)) at
                      ∙ judged
                      ∙ ap (λ n. healthy_at n h) (sym at)),
          )

-- With 32-bit checksums and 32-byte hashes, and with the size of the file as the hint or no hint:
-- in a file of 256 bytes of any kind, then blocks with their whole payloads and with codecs that
-- this build knows, none of them an INDEX block, with stretches of bytes between them at none of
-- whose positions a header is accepted, then an INDEX block with its payload, and then anything,
-- the scan ends, and its log has every block at its offset, with its header and as healthy,
-- whatever bytes its payload has, one entry of a corrupt header, without a header, for every byte
-- between, and nothing behind the INDEX block.
pub scan_complete :
    (L : Libs) (hashes : IsHashes L) (hint : ℕ) (front : Bytes) (ss : List Segment)
    (index : BlockHeader) (payload after : Bytes)
    → length front ≡ 256
    → IsBlock L index payload
    → index.block_type ≡ index_block
    → IsLaid L ss (Block.write L index ++ (payload ++ after))
    → IsHint hint (front ++ laid L ss (Block.write L index ++ (payload ++ after)))
    → (r : RecoveryReport) × (scan L hint
          (front ++ laid L ss (Block.write L index ++ (payload ++ after)))
        ≡ done r)
      × (r.block_log ≡ log_of 256 ss ++ healthy_at (256 + size_of ss) index ∷ [])
unfolding scan report report_of
scan_complete L hashes hint front ss index payload after size b last laid_out hinted =
    let file : Bytes = front ++ laid L ss (Block.write L index ++ (payload ++ after)) in
    let (out, end, there, w, logged) =
      walk_over L hashes hint file hinted index payload after b last 256 front ss fresh (sym size)
        refl laid_out in
    (
      report_of L out,
      rw (Walk-scan_all L hint file out w) refl,
      logged ∙ ap (λ n. log_of 256 ss ++ healthy_at n index ∷ []) there,
    )
