-- ===== src/Reader/Stable.antt =====
-- What a reference of src/io_stream/mod.rs is decompressed to stays the same while the file grows at its
-- end and while the bytes before the block are replaced.
use cy.Common.{
  ℕ, ◌-◌, ◌≤◌, ◌≡◌, ap, Option, List, [], ◌∷◌, ◌++◌, ok, >>=-eq-ok, ok_injective, arith, length,
  drop, All, drop-append_le, drop-append_ge, length-drop,
}
use cy.Bytes.{Bytes}
use cy.Libs.{Libs}
use cy.Io.{read_exact}
use cy.Io.Laws.{read_exact-more}
use cy.Block
use cy.Block.{BlockHeader}
use cy.Block.Accepted.{read-more, read-eq-ok}
use cy.Index.{BlockRef}
use cy.Reader.{read_block_at, decompress_ref, read_refs}

module _ (L : Libs) where
  pub read_block_at-more :
      (file more : Bytes) (offset : ℕ) (h : BlockHeader) (payload : Bytes)
      → read_block_at L file offset ≡ ok (h, payload)
      → read_block_at L (file ++ more) offset ≡ ok (h, payload)
  unfolding read_block_at
  read_block_at-more file more offset h payload e =
      let ((h', after), found, e1) = >>=-eq-ok (Block.read L (drop offset file)) _ e in
      let ((p, left), took, e2) = >>=-eq-ok (read_exact h'.comp_size after) _ e1 in
      let (long, _, _) = read-eq-ok L (drop offset file) h' after found in
      let inside : offset ≤ length file = omega (arith, length-drop offset file) in
      rw
        (
          drop-append_le offset file more inside,
          read-more L (drop offset file) more h' after found,
          read_exact-more h'.comp_size after more p left took,
        )
        (ap ok (ok_injective e2))

  read_block_at-front :
      (a b rest : Bytes) (offset : ℕ)
      → length a ≡ length b
      → length a ≤ offset
      → read_block_at L (a ++ rest) offset ≡ read_block_at L (b ++ rest) offset
  unfolding read_block_at
  read_block_at-front a b rest offset e h = rw (
    drop-append_ge offset (offset - length a) a rest (omega arith),
    drop-append_ge offset (offset - length a) b rest (omega arith),
  )

  module _ (key : Option Bytes) where
    -- A reference behind the superblock that is decompressed to `data`.
    unfoldable pub Holds : Bytes → BlockRef → Bytes → Type 0
    Holds file br contents =
        (256 ≤ br.archive_offset) × (decompress_ref L file key br ≡ ok contents)

    -- Whatever a reference holds in the one file, it holds in the other.
    unfoldable pub Keeps : Bytes → Bytes → Type 0
    Keeps file file' =
        (br : BlockRef) (contents : Bytes) → Holds file br contents → Holds file' br contents

    -- References that hold the pieces of `data`.
    unfoldable pub Reads : Bytes → List BlockRef → Bytes → Type 0
    Reads file refs contents =
        All (λ br. 256 ≤ br.archive_offset) refs × (read_refs L file key refs [] ≡ ok contents)

    pub append-Keeps : (file more : Bytes) → Keeps file (file ++ more)
    unfolding Keeps Holds decompress_ref
    append-Keeps file more br contents (past, e) =
        let ((h, payload), found, e') = >>=-eq-ok (read_block_at L file br.archive_offset) _ e in
        (past, rw (read_block_at-more file more br.archive_offset h payload found) e')

    pub front-Keeps :
        (a b rest : Bytes) → length a ≡ 256 → length b ≡ 256 → Keeps (a ++ rest) (b ++ rest)
    unfolding Keeps Holds decompress_ref
    front-Keeps a b rest ha hb br contents (past, e) =
        (past, rw (← read_block_at-front a b rest br.archive_offset (omega arith) (omega arith)) e)

    read_refs-Keeps :
        (file file' : Bytes) (refs : List BlockRef) (out all : Bytes)
        → Keeps file file'
        → All (λ br. 256 ≤ br.archive_offset) refs
        → read_refs L file key refs out ≡ ok all
        → read_refs L file' key refs out ≡ ok all
    unfolding read_refs Keeps Holds
    read_refs-Keeps file file' [] out all keeps past e = e
    read_refs-Keeps file file' (br ∷ brs) out all keeps past e =
        let (block, found, e') = >>=-eq-ok (decompress_ref L file key br) _ e in
        rw (keeps br block (past.0, found)).1
          (read_refs-Keeps file file' brs (out ++ block) all keeps past.1 e')

    pub Keeps-Reads :
        (file file' : Bytes) (refs : List BlockRef) (contents : Bytes)
        → Keeps file file'
        → Reads file refs contents
        → Reads file' refs contents
    unfolding Reads
    Keeps-Reads file file' refs contents keeps (past, e) =
        (past, read_refs-Keeps file file' refs [] contents keeps past e)

    read_refs-snoc :
        (file : Bytes) (refs : List BlockRef) (br : BlockRef) (out all block : Bytes)
        → read_refs L file key refs out ≡ ok all
        → decompress_ref L file key br ≡ ok block
        → read_refs L file key (refs ++ br ∷ []) out ≡ ok (all ++ block)
    unfolding read_refs
    read_refs-snoc file [] br out all block e d = rw (d, ok_injective e)
    read_refs-snoc file (r ∷ refs) br out all block e d =
        let (b, found, e') = >>=-eq-ok (decompress_ref L file key r) _ e in
        rw found (read_refs-snoc file refs br (out ++ b) all block e' d)

    past-snoc :
        (refs : List BlockRef) (br : BlockRef)
        → All (λ r. 256 ≤ r.archive_offset) refs
        → 256 ≤ br.archive_offset
        → All (λ r. 256 ≤ r.archive_offset) (refs ++ br ∷ [])
    past-snoc [] br h k = (k, tt)
    past-snoc (r ∷ refs) br h k = (h.0, past-snoc refs br h.1 k)

    -- One more reference, one more piece.
    pub Reads-snoc :
        (file : Bytes) (refs : List BlockRef) (br : BlockRef) (contents block : Bytes)
        → Reads file refs contents
        → Holds file br block
        → Reads file (refs ++ br ∷ []) (contents ++ block)
    unfolding Reads Holds
    Reads-snoc file refs br contents block (past, e) (k, d) =
        (past-snoc refs br past k, read_refs-snoc file refs br [] contents block e d)
