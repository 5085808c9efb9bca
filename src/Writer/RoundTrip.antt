-- ===== src/Writer/RoundTrip.antt =====
-- Files that the writer of src/io_stream/mod.rs packs are unpacked by its reader to what they were.
use cy.Common.{
  none, ℕ, ◌^◌, ◌≤◌, ◌<◌, ◌≡◌, refl, ap, subst, Option, some, List, [], ok, ℤ, max, arith, length,
  drop, take, All, get_elem?,
}
use cy.Bytes.{Bytes}
use cy.Libs.{Libs, IsHashes, IsLossless, IsAead}
use cy.Index.{Json, IsJson, compute_root_hash}
use cy.Superblock
use cy.Superblock.{Superblock}
use cy.Reader.{SixCyReader, with_key, unpack_file, read_at}
use cy.Reader.ReadAt.{read_at-unpack_file}
use cy.Reader.Stable.{Reads, Keeps-Reads}
use cy.Writer.{Host, SixCyWriter, with_options}
use cy.Writer.Finish.{patched, finalize}
use cy.Writer.Archive.{Archive, Filed-find_record}
use cy.Writer.Packing.{with_options-Archive}
use cy.Writer.Batches.{Batch, all_contents, pack, Appends, Appends-length, pack-Appends}
use cy.Writer.Packed.{IsPackable, pack-Archive}
use cy.Writer.Idle.{pack_mode}
use cy.Writer.Finalized.{finalize-Finalized}
use cy.Writer.Opening.{
  opened, Opens-with_key, Finalized-Opens, length-Finalized, patched-archive_uuid, Finalized-Keeps,
}

module _ (L : Libs) (hashes : IsHashes L) (lossless : IsLossless L) (aead : IsAead L) (J : Json)
    (json : IsJson J) (H : Host) (nonces : (n : ℕ) → length (H.nonce n) ≡ 12) (key : Option Bytes)
    (P : Bytes → Type 0) where
  -- A finalized archive is opened, and its files are read by their numbers.
  pub Archive-opened :
      (size : ℕ) (files : List Bytes) (w : SixCyWriter)
      → Archive L key P size files w
      → (finalize L J H w).0 ≡ ok tt
      → length (finalize L J H w).1.writer.bytes < 2 ^ 32
      → (r : SixCyReader) × (rest : Bytes) × (with_key L J (finalize L J H w).1.writer.bytes key
          ≡ ok r)
        × (Superblock.read L (finalize L J H w).1.writer.bytes ≡ ok (r.superblock, rest))
        × (r.superblock.archive_uuid ≡ w.superblock.archive_uuid)
        × (r.index.records ≡ w.index.records)
        × ((n : ℕ) (d : Bytes)
            → get_elem? files n ≡ some d
            → (unpack_file L r n ≡ ok d)
              × ((offset count : ℕ) → read_at L r n offset count ≡ ok (take count (drop offset d))))
  unfolding unpack_file Reads compute_root_hash
  Archive-opened size files w a e small =
      let w' : SixCyWriter = (finalize L J H w).1 in
      let f = finalize-Finalized L J H w a.store.at_end a.idle e in
      let sb : Superblock = patched w.writer.pos (length f.on_disk) w.encryption_key w.superblock in
      let o =
        Finalized-Opens L hashes lossless aead J json H nonces w w' a.store.at_end a.store.past
          a.plain a.built.valid a.built.known f small in
      let r : SixCyReader = opened L hashes lossless aead J json H nonces key w w' sb in
      let keeps = Finalized-Keeps L hashes lossless aead J json H nonces key w w' a.store.past f in
      (
        r,
        o.rest,
        Opens-with_key L hashes lossless aead J json H nonces key w w' sb o,
        o.superblock_read,
        patched-archive_uuid w.writer.pos (length f.on_disk) w.encryption_key w.superblock,
        refl,
        λ n d at.
            let (rec, found, sized, reads) =
              Filed-find_record L key w.writer.bytes 0 n n w.index.records files d (omega arith)
                a.filed at in
            let whole : unpack_file L r n ≡ ok d =
              rw found
                (Keeps-Reads L key w.writer.bytes w'.writer.bytes rec.block_refs d keeps reads).1 in
            (whole, λ offset count. read_at-unpack_file L r n offset count rec d found sized whole),
      )

  -- The invariant behind the batches.
  pub packed-Archive :
      (free : (a b : Bytes) → P a → P b → L.blake3 a ≡ L.blake3 b → a ≡ b) (archive_uuid : Bytes)
      (size : ℕ) (level : ℤ) (bs : List Batch) (w : SixCyWriter)
      → length archive_uuid ≡ 16
      → length (all_contents bs) < 2 ^ 32
      → All (IsPackable P (max size 1)) bs
      → pack L H bs (with_options (record { bytes = []; pos = 0 }) archive_uuid size level key)
        ≡ (ok tt, w)
      → (finalize L J H w).0 ≡ ok tt
      → length (finalize L J H w).1.writer.bytes < 2 ^ 32
      → Archive L key P (max size 1) (all_contents bs) w
  packed-Archive free archive_uuid size level bs w width few packable packed e small =
      let w0 : SixCyWriter =
        with_options (record { bytes = []; pos = 0 }) archive_uuid size level key in
      let new =
        with_options-Archive L hashes lossless aead H nonces key P free archive_uuid size level
          width in
      let there : (pack L H bs w0).1 ≡ w = ap (λ x. x.1) packed in
      let success : (pack L H bs w0).0 ≡ ok tt = ap (λ x. x.0) packed in
      let g : Appends w0 w = subst (Appends w0) there (pack-Appends L H bs w0 new.store.at_end) in
      let idle : w.solid_codec ≡ none =
        subst (λ x. x.solid_codec ≡ none) there
          (pack_mode L H bs w0 new.store.at_end new.idle success) in
      let past0 : 256 ≤ length w0.writer.bytes = new.store.past in
      let past : 256 ≤ length w.writer.bytes = omega (arith, Appends-length w0 w g) in
      let f = finalize-Finalized L J H w g.at_end idle e in
      let (_, longer) = length-Finalized L hashes lossless aead J json H nonces w _ f past in
      let below : length w.writer.bytes < 2 ^ 32 = omega arith in
      subst (Archive L key P (max size 1) (all_contents bs)) there (
        pack-Archive L hashes lossless aead H nonces key P free (max size 1) [] bs w0 new
          (omega arith) packable (omega arith) success (rw there below))

  -- For lossless compressors, AES-GCM's own law, an index that its JSON gives back, 12-byte nonces
  -- and 32-byte hashes: an archive, with a key or without, is filled on a new file with any mix of
  -- single files, of any length and in chunks of any size, and of solid sessions, whose files are
  -- not empty; no two of the chunks of single files, which satisfy `P`, share a hash, and there are
  -- fewer than 2^32 files. If all calls and `finalize` succeed and the archive is below 4 GiB, the
  -- reader opens it under the same key, unpacks every file to what was added, and reads every
  -- window of every file.
  pub archive_roundtrip :
      (free : (a b : Bytes) → P a → P b → L.blake3 a ≡ L.blake3 b → a ≡ b) (archive_uuid : Bytes)
      (size : ℕ) (level : ℤ) (bs : List Batch) (w : SixCyWriter) (n offset count : ℕ) (d : Bytes)
      → length archive_uuid ≡ 16
      → length (all_contents bs) < 2 ^ 32
      → All (IsPackable P (max size 1)) bs
      → pack L H bs (with_options (record { bytes = []; pos = 0 }) archive_uuid size level key)
        ≡ (ok tt, w)
      → (finalize L J H w).0 ≡ ok tt
      → length (finalize L J H w).1.writer.bytes < 2 ^ 32
      → get_elem? (all_contents bs) n ≡ some d
      → (r : SixCyReader) × (with_key L J (finalize L J H w).1.writer.bytes key ≡ ok r)
        × (unpack_file L r n ≡ ok d)
        × (read_at L r n offset count ≡ ok (take count (drop offset d)))
  archive_roundtrip free archive_uuid size level bs w n offset count d width few packable packed e
        small at =
      let a = packed-Archive free archive_uuid size level bs w width few packable packed e small in
      let (r, _, opens, _, _, _, files) =
        Archive-opened (max size 1) (all_contents bs) w a e small in
      let (whole, window) = files n d at in (r, opens, whole, window offset count)
