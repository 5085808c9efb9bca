-- ===== src/Archive/RoundTrip.antt =====
-- What is put into an archive through the facade of src/archive.rs is read back by its names, and is
-- extracted to a folder.
use cy.Common.{
  ℕ, suc, ◌+◌, ◌^◌, ◌<◌, ◌≡◌, refl, sym, ap, ◌∙◌, subst, false, Option, some, List, [], ◌∷◌, Text,
  Result, ok, err, max, arith, length, take, drop, get_elem?, All, Bool-cases, inl, inr,
  if◌then◌else◌,
}
use cy.Bytes.{Bytes, bytes_eq}
use cy.Errors.{IoError}
use cy.Libs.{Libs, IsHashes, IsLossless, IsAead}
use cy.Index.{FileIndexRecord, Json, IsJson}
use cy.Reader.{unpack_file}
use cy.Writer.{Host}
use cy.Writer.Archive.{Filed}
use cy.Writer.Batches.{Batch, all_contents}
use cy.Writer.Packed.{IsPackable}
use cy.Writer.Labels.{names, all_names}
use cy.Archive.{
  PackOptions, info_of, Archive, reading, infos, list, stat, finalize, open_with_password, create,
  read_file, read_file_by_id, read_at, records_of, Folder, and_then, create_read, extract_each,
  extract_all,
}
use cy.Archive.Filling.{fill}
use cy.Archive.Reopened.{named_info, bytes_of, listed, listed-infos, IsPacked-Reopened}

-- What is created in a folder: each file's contents under its name, in order.
abbrev pub put_all : (F : Folder) → Text → List Text → List Bytes → F.State → F.State
put_all F dest [] ds s = s
put_all F dest (name ∷ ns) [] s = s
put_all F dest (name ∷ ns) (d ∷ ds) s =
    put_all F dest ns ds (F.create_file (F.join dest name) d s).1

module _ (L : Libs) (F : Folder)
    (creates : (path : Text) (d : Bytes) (s : F.State) → (F.create_file path d s).0 ≡ ok tt) where
  and_then-ok :
      (r : Result IoError (Unit {0}) × F.State)
      (next : F.State → Result IoError (Unit {0}) × F.State)
      → r.0 ≡ ok tt
      → and_then r next ≡ next r.1
  and_then-ok (ok u, s) next e = refl
  and_then-ok (err x, s) next e = cc e

  -- The files from the number `i` on.
  extract_each-put_all :
      (key : Option Bytes) (file : Bytes) (a : Archive) (dest : Text) (i : ℕ)
      (rs : List FileIndexRecord) (ds : List Bytes) (s : F.State)
      → Filed L key file i rs ds
      → ((n : ℕ) (d : Bytes) → get_elem? ds n ≡ some d → read_file_by_id L a (i + n) ≡ ok d)
      → extract_each L F a dest (infos rs) s ≡ (ok tt, put_all F dest (names rs) ds s)
  unfolding extract_each info_of
  extract_each-put_all key file a dest i [] ds s f reads = refl
  extract_each-put_all key file a dest i (r ∷ rs) [] s f reads = elim f [ ]
  extract_each-put_all key file a dest i (r ∷ rs) (d ∷ ds) s (id, _, _, f) reads =
      let first : read_file_by_id L a r.id ≡ ok d =
        ap (read_file_by_id L a) (let e : r.id ≡ i + 0 = omega arith in e) ∙ reads 0 d refl in
      ap
        (λ x.
          and_then (create_read L F (F.join dest r.name) x s) (extract_each L F a dest (infos rs)))
        first
      ∙ and_then-ok (F.create_file (F.join dest r.name) d s) _ (creates (F.join dest r.name) d s)
      ∙ extract_each-put_all key file a dest (i + 1) rs ds _ f (λ n d' at.
        ap (read_file_by_id L a) (let e : i + 1 + n ≡ i + suc n = omega arith in e)
        ∙ reads (suc n) d' at)

  -- The folder itself is there, or is made.
  extract_all-made :
      (a : Archive) (dest : Text) (s : F.State)
      → (F.create_dir_all dest s).0 ≡ ok tt
      → extract_all L F a dest s
        ≡ extract_each L F a dest
            (infos (records_of a.mode))
            (if F.exists dest s then s else (F.create_dir_all dest s).1)
  unfolding extract_all
  extract_all-made a dest s made = elim (Bool-cases (F.exists dest s)) [
    | inl there ↦ rw there refl
    | inr missing ↦ rw missing (and_then-ok (F.create_dir_all dest s) _ made)
  ]

module _ (L : Libs) (hashes : IsHashes L) (lossless : IsLossless L) (aead : IsAead L) (J : Json)
    (json : IsJson J) (H : Host) (nonces : (n : ℕ) → length (H.nonce n) ≡ 12) (P : Bytes → Type 0)
    (free : (a b : Bytes) → P a → P b → L.blake3 a ≡ L.blake3 b → a ≡ b)
    (disk : Text → Option Bytes) (path : Text) (archive_uuid : Bytes) (opts : PackOptions)
    (bs : List Batch) (a0 a1 a2 : Archive) where
  -- For lossless compressors, AES-GCM's own law, 32-byte hashes of which no two chunks that satisfy
  -- `P` share one, an index that its JSON gives back, and 12-byte nonces: an archive is created
  -- with any options, a password or none among them, at a path; any mix of single files, whose
  -- chunks satisfy `P`, and solid sessions, whose files are not empty, fewer than 2^32 files in
  -- all, is added to it, and it is finalized, all without an error and below 4 GiB. If its bytes
  -- stand at the path, opening it with the same password succeeds, `list` shows all names in the
  -- order of the calls, and for the first file of a name `read_file` gives the contents that were
  -- added, and `read_at` every window of them.
  pub facade_roundtrip :
      length archive_uuid ≡ 16
      → length (all_contents bs) < 2 ^ 32
      → All (IsPackable P (max opts.chunk_size 1)) bs
      → create L path archive_uuid opts ≡ ok a0
      → fill L H bs a0 ≡ (ok tt, a1)
      → finalize L H J a1 ≡ (ok tt, a2)
      → length (bytes_of a2.mode) < 2 ^ 32
      → disk path ≡ some (bytes_of a2.mode)
      → (n offset size : ℕ) (name : Text) (d : Bytes) → get_elem? (all_names bs) n ≡ some name
      → get_elem? (all_contents bs) n ≡ some d
      → All (λ m. bytes_eq m name ≡ false) (take n (all_names bs))
      → (a : Archive) × (open_with_password L J disk path opts.password ≡ ok a)
        × (listed (list a) ≡ all_names bs)
        × (read_file L a name ≡ ok d)
        × (read_at L a name offset size ≡ ok (take size (drop offset d)))
  unfolding read_file read_at read_file_by_id stat list
  facade_roundtrip width few packable created filled finalized small there n offset size name d
        named at new =
      let o =
        IsPacked-Reopened L hashes lossless aead J json H nonces P free disk path archive_uuid opts
          bs a0 a1 a2
          (record {
            width = width;
            few = few;
            packable = packable;
            created = created;
            filled = filled;
            finalized = finalized;
            small = small;
            there = there;
          }) in
      let rs : List FileIndexRecord = o.reader.index.records in
      let (info, found, number) =
        named_info L o.key o.file 0 n rs (all_contents bs) name o.filed
          (ap (λ l. get_elem? l n) o.labelled ∙ named)
          (subst (λ l. All (λ m. bytes_eq m name ≡ false) (take n l)) (sym o.labelled) new) in
      let id : info.id ≡ n = omega arith in
      let (whole, window) = o.unpacked n d at in
      (
        record { path = path; mode = reading o.reader },
        o.opens,
        listed-infos rs ∙ o.labelled,
        rw (found, id) whole,
        rw (found, id) (window offset size),
      )

  -- For lossless compressors, AES-GCM's own law, 32-byte hashes of which no two chunks that satisfy
  -- `P` share one, an index that its JSON gives back, and 12-byte nonces, where an archive is
  -- created, filled and finalized as in `facade_roundtrip`, the directory can be made if it does
  -- not exist and every `File::create` with its write succeeds: the archive opens with the same
  -- password, and `extract_all` succeeds and makes, one after the other in the order of the calls,
  -- each file under its name joined to the directory, with the contents that were added.
  pub extract_all_roundtrip :
      (F : Folder)
      → ((p : Text) (d : Bytes) (s : F.State) → (F.create_file p d s).0 ≡ ok tt)
      → length archive_uuid ≡ 16
      → length (all_contents bs) < 2 ^ 32
      → All (IsPackable P (max opts.chunk_size 1)) bs
      → create L path archive_uuid opts ≡ ok a0
      → fill L H bs a0 ≡ (ok tt, a1)
      → finalize L H J a1 ≡ (ok tt, a2)
      → length (bytes_of a2.mode) < 2 ^ 32
      → disk path ≡ some (bytes_of a2.mode)
      → (dest : Text) (s : F.State) → (F.create_dir_all dest s).0 ≡ ok tt
      → (a : Archive) × (open_with_password L J disk path opts.password ≡ ok a)
        × (extract_all L F a dest s ≡ (
          ok tt,
          put_all F dest
              (all_names bs)
              (all_contents bs)
              (if F.exists dest s then s else (F.create_dir_all dest s).1),
        ))
  unfolding read_file_by_id
  extract_all_roundtrip F creates width few packable created filled finalized small there dest s
        made =
      let o =
        IsPacked-Reopened L hashes lossless aead J json H nonces P free disk path archive_uuid opts
          bs a0 a1 a2
          (record {
            width = width;
            few = few;
            packable = packable;
            created = created;
            filled = filled;
            finalized = finalized;
            small = small;
            there = there;
          }) in
      let a : Archive = record { path = path; mode = reading o.reader } in
      let start = (if F.exists dest s then s else (F.create_dir_all dest s).1) in
      (
        a,
        o.opens,
        extract_all-made L F creates a dest s made
            ∙ extract_each-put_all L F creates o.key o.file a dest 0 o.reader.index.records
                (all_contents bs) start o.filed
                (λ n d at.
                  ap (unpack_file L o.reader) (let e : 0 + n ≡ n = omega arith in e)
                  ∙ (o.unpacked n d at).0)
            ∙ ap (λ ns. (ok tt, put_all F dest ns (all_contents bs) start)) o.labelled,
      )
