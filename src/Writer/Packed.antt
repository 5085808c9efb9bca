-- ===== src/Writer/Packed.antt =====
-- Batches that succeed keep the invariant of an archive in writing (src/io_stream/mod.rs).
use cy.Common.{
  ℕ, ◌+◌, ◌^◌, ◌≤◌, ◌<◌, ◌≡◌, refl, sym, subst, Option, List, [], ◌∷◌, ◌++◌, append_assoc,
  append-nil, ok, Result-cases, inl, inr, arith, length, All, length-append,
}
use cy.Bytes.{Bytes}
use cy.Libs.{Libs, IsHashes, IsLossless, IsAead}
use cy.Writer.{Host, SixCyWriter}
use cy.Writer.Files.{chunks}
use cy.Writer.Archive.{Archive}
use cy.Writer.Packing.{Input, contents_of, add_file-Archive}
use cy.Writer.Solid.{session-Archive}
use cy.Writer.Batches.{
  Batch, single, solid, batch_contents, all_contents, pack_batch, pack, pack_batch-Appends,
  pack-Appends, Appends-length,
}

-- The chunks of a single file satisfy `P`, and no file of a session is empty.
abbrev pub IsPackable : (Bytes → Type 0) → ℕ → Batch → Type 0
IsPackable P n (single f) = All P (chunks n f.contents)
IsPackable P n (solid c fs) = All (λ f. 1 ≤ length f.contents) fs

length-contents_of : (fs : List Input) → length (contents_of fs) ≡ length fs
length-contents_of [] = refl
length-contents_of (f ∷ fs) = omega (arith, length-contents_of fs)

module _ (L : Libs) (hashes : IsHashes L) (lossless : IsLossless L) (aead : IsAead L) (H : Host)
    (nonces : (n : ℕ) → length (H.nonce n) ≡ 12) (key : Option Bytes) (P : Bytes → Type 0)
    (free : (a b : Bytes) → P a → P b → L.blake3 a ≡ L.blake3 b → a ≡ b) where
  pack_batch-Archive :
      (n : ℕ) (files : List Bytes) (b : Batch) (w : SixCyWriter)
      → Archive L key P n files w
      → 1 ≤ n
      → IsPackable P n b
      → length files + length (batch_contents b) < 2 ^ 32
      → (pack_batch L H b w).0 ≡ ok tt
      → length (pack_batch L H b w).1.writer.bytes < 2 ^ 32
      → Archive L key P n (files ++ batch_contents b) (pack_batch L H b w).1
  unfolding pack_batch
  pack_batch-Archive n files (single f) w a pos h few =
      add_file-Archive L hashes lossless aead H nonces key P free n files w f.name f.contents
        f.codec a pos h (omega arith)
  pack_batch-Archive n files (solid c fs) w a pos h few =
      session-Archive L hashes lossless aead H nonces key P n files c fs w a h
        (omega (arith, length-contents_of fs))

  pub pack-Archive :
      (n : ℕ) (files : List Bytes) (bs : List Batch) (w : SixCyWriter)
      → Archive L key P n files w
      → 1 ≤ n
      → All (IsPackable P n) bs
      → length files + length (all_contents bs) < 2 ^ 32
      → (pack L H bs w).0 ≡ ok tt
      → length (pack L H bs w).1.writer.bytes < 2 ^ 32
      → Archive L key P n (files ++ all_contents bs) (pack L H bs w).1
  unfolding pack
  pack-Archive n files [] w a pos h few =
      λ e small. subst (λ x. Archive L key P n x w) (sym (append-nil files)) a
  pack-Archive n files (b ∷ bs) w a pos h few =
      let r = pack_batch L H b w in
      let g = pack_batch-Appends L H b w a.store.at_end in
      let split = length-append (batch_contents b) (all_contents bs) in
      elim (Result-cases r.0) [
        | inr (x, q) ↦ rw (q, pack) (λ e small. cc e)
        | inl (u, q) ↦
            rw (q, pack)
              (λ e small.
                let longer = Appends-length r.1 _ (pack-Appends L H bs r.1 g.at_end) in
                let one = pack_batch-Archive n files b w a pos h.0 (omega arith) q (omega arith) in
                subst (λ x. Archive L key P n x (pack L H bs r.1).1)
                  (append_assoc files (batch_contents b) (all_contents bs))
                  (pack-Archive n (files ++ batch_contents b) bs r.1 one pos h.1
                    (omega (arith, length-append files (batch_contents b))) e small))
      ]
