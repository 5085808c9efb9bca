-- ===== src/Archive/Reopened.antt =====
-- An archive of src/archive.rs that was created and filled without an error, opened again.
use cy.Common.{
  ℕ, zero, suc, ◌+◌, ◌^◌, ◌<◌, ◌≡◌, refl, sym, ap, ◌∙◌, subst, true, false, Option, none, some,
  List, [], ◌∷◌, Text, ok, ◌>>=◌, map_err, max, arith, length, take, drop, get_elem?, All,
  some_injective, ok_injective, >>=-eq-ok, map_err-eq-ok,
}
use cy.Bytes.{Bytes, bytes_eq}
use cy.Bytes.Laws.{bytes_eq_refl}
use cy.Errors.{other_crypto}
use cy.Libs.{Libs, IsHashes, IsLossless, IsAead}
use cy.Crypto.{derive_key}
use cy.Index.{FileIndexRecord, Json, IsJson}
use cy.Superblock
use cy.Reader
use cy.Reader.{SixCyReader, with_key, unpack_file}
use cy.Writer.{Host, SixCyWriter, with_options}
use cy.Writer.Finish
use cy.Writer.Archive.{Filed}
use cy.Writer.Batches.{Batch, all_contents, pack}
use cy.Writer.Packed.{IsPackable}
use cy.Writer.Labels.{names, all_names}
use cy.Writer.Named.{pack-Labels}
use cy.Writer.RoundTrip.{packed-Archive, Archive-opened}
use cy.Archive.{
  PackOptions, FileInfo, info_of, Archive, ArchiveMode, reading, writing, find_info, infos,
  finalize, open_with_password, with_password, create,
}
use cy.Archive.Filling.{fill, open_for, lifted, fill-lifted, finalize-lifted}

-- The number of the first file with a name.
pub named_info :
    (L : Libs) (key : Option Bytes) (file : Bytes) (i n : ℕ) (rs : List FileIndexRecord)
    (ds : List Bytes) (name : Text)
    → Filed L key file i rs ds
    → get_elem? (names rs) n ≡ some name
    → All (λ m. bytes_eq m name ≡ false) (take n (names rs))
    → (info : FileInfo) × (find_info name (infos rs) ≡ some info) × (info.id ≡ i + n)
unfolding find_info info_of
named_info L key file i n [] ds name f at new = cc
named_info L key file i n (r ∷ rs) [] name f at new = elim f [ ]
named_info L key file i zero (r ∷ rs) (d ∷ ds) name (id, _, _, f) at new =
    let same : bytes_eq r.name name ≡ true = rw (some_injective at) (bytes_eq_refl name) in
    (info_of r, rw same refl, omega arith)
named_info L key file i (suc n) (r ∷ rs) (d ∷ ds) name (id, _, _, f) at (other, new) =
    let (info, found, number) = named_info L key file (i + 1) n rs ds name f at new in
    (info, rw other found, omega arith)

-- The key for a password, if there is one.
abbrev pub KeyOf : Libs → Option Text → Bytes → Option Bytes → Type 0
KeyOf L none archive_uuid key = key ≡ none
KeyOf L (some password) archive_uuid key =
    (k : Bytes) × (key ≡ some k) × (derive_key L password archive_uuid ≡ ok k)

module _ (L : Libs) (path : Text) where
  -- A new archive has a new writer, under the key of its password.
  pub create-eq-ok :
      (archive_uuid : Bytes) (opts : PackOptions) (a : Archive)
      → create L path archive_uuid opts ≡ ok a
      → (key : Option Bytes) × (a
          ≡ open_for path opts.default_codec (
              with_options
                (record { bytes = []; pos = 0 })
                archive_uuid
                opts.chunk_size
                opts.level
                key))
        × KeyOf L opts.password archive_uuid key
  unfolding create with_options Superblock.new
  create-eq-ok archive_uuid opts a e = go opts.password e
    where
      new : Option Bytes → SixCyWriter
      new key =
          with_options (record { bytes = []; pos = 0 }) archive_uuid opts.chunk_size opts.level key

      go :
          (p : Option Text)
          → (with_password L p (new none) >>= λ w. ok (open_for path opts.default_codec w)) ≡ ok a
          → (key : Option Bytes) × (a ≡ open_for path opts.default_codec (new key))
            × KeyOf L p archive_uuid key
      go none e = (none, sym (ok_injective e), refl)
      go (some password) e =
          let (w, keyed, e1) = >>=-eq-ok (with_password L (some password) (new none)) _ e in
          let (k, derived, e2) =
            >>=-eq-ok (map_err other_crypto (derive_key L password archive_uuid)) _ keyed in
          (
            some k,
            sym (ok_injective e1) ∙ ap (open_for path opts.default_codec) (sym (ok_injective e2)),
            (k, refl, map_err-eq-ok other_crypto (derive_key L password archive_uuid) derived),
          )

  -- An archive is opened under the key that its password gives with the UUID in its superblock.
  open-eq-ok :
      (J : Json) (disk : Text → Option Bytes) (password : Option Text) (file rest : Bytes)
      (r : SixCyReader) (key : Option Bytes)
      → disk path ≡ some file
      → Superblock.read L file ≡ ok (r.superblock, rest)
      → KeyOf L password r.superblock.archive_uuid key
      → with_key L J file key ≡ ok r
      → open_with_password L J disk path password ≡ ok (record { path = path; mode = reading r })
  unfolding open_with_password
  open-eq-ok J disk none file rest r key there front known opens =
      rw (there, subst (λ k. with_key L J file k ≡ ok r) known opens) refl
  open-eq-ok J disk (some password) file rest r key there front (k, known, derived) opens =
      rw (there, front, derived, subst (λ o. with_key L J file o ≡ ok r) known opens) refl

-- The bytes of the archive's file.
abbrev pub bytes_of : ArchiveMode → Bytes
bytes_of (reading r) = r.reader
bytes_of (writing w codec) = w.writer.bytes

-- The names of the files that are listed.
abbrev pub listed : List FileInfo → List Text
listed [] = []
listed (f ∷ fs) = f.name ∷ listed fs

pub listed-infos : (rs : List FileIndexRecord) → listed (infos rs) ≡ names rs
unfolding info_of
listed-infos [] = refl
listed-infos (r ∷ rs) = ap (λ l. r.name ∷ l) (listed-infos rs)

module _ (L : Libs) (hashes : IsHashes L) (lossless : IsLossless L) (aead : IsAead L) (J : Json)
    (json : IsJson J) (H : Host) (nonces : (n : ℕ) → length (H.nonce n) ≡ 12) (P : Bytes → Type 0)
    (free : (a b : Bytes) → P a → P b → L.blake3 a ≡ L.blake3 b → a ≡ b)
    (disk : Text → Option Bytes) (path : Text) (archive_uuid : Bytes) (opts : PackOptions)
    (bs : List Batch) (a0 a1 a2 : Archive) where
  -- An archive that was created, filled and finalized without an error, and then stands on the disk.
  pub record IsPacked : Type 0 where
    pub width : length archive_uuid ≡ 16
    pub few : length (all_contents bs) < 2 ^ 32
    pub packable : All (IsPackable P (max opts.chunk_size 1)) bs
    pub created : create L path archive_uuid opts ≡ ok a0
    pub filled : fill L H bs a0 ≡ (ok tt, a1)
    pub finalized : finalize L H J a1 ≡ (ok tt, a2)
    pub small : length (bytes_of a2.mode) < 2 ^ 32
    pub there : disk path ≡ some (bytes_of a2.mode)

  -- The reader that the archive is opened with.
  pub record Reopened : Type 0 where
    pub reader : SixCyReader
    pub key : Option Bytes
    pub file : Bytes
    pub opens :
        open_with_password L J disk path opts.password
        ≡ ok (record { path = path; mode = reading reader })
    pub filed : Filed L key file 0 reader.index.records (all_contents bs)
    pub labelled : names reader.index.records ≡ all_names bs
    pub unpacked :
        (n : ℕ) (d : Bytes)
        → get_elem? (all_contents bs) n ≡ some d
        → (unpack_file L reader n ≡ ok d)
          × ((offset size : ℕ)
              → Reader.read_at L reader n offset size ≡ ok (take size (drop offset d)))

  pub IsPacked-Reopened : IsPacked → Reopened
  unfolding with_options Superblock.new
  IsPacked-Reopened h =
      let (key, new, known) = create-eq-ok L path archive_uuid opts a0 h.created in
      let codec = opts.default_codec in
      let w0 : SixCyWriter =
        with_options (record { bytes = []; pos = 0 }) archive_uuid opts.chunk_size opts.level key in
      let w : SixCyWriter = (pack L H bs w0).1 in
      let w' : SixCyWriter = (Finish.finalize L J H w).1 in
      let filled : lifted L H path codec (pack L H bs w0) ≡ (ok tt, a1) =
        sym (fill-lifted L H path codec bs w0) ∙ ap (fill L H bs) (sym new) ∙ h.filled in
      let packed : pack L H bs w0 ≡ (ok tt, w) = ap (λ x. (x.0, w)) filled in
      let written : lifted L H path codec (Finish.finalize L J H w) ≡ (ok tt, a2) =
        sym (finalize-lifted L H path codec J w)
        ∙ ap (λ x. finalize L H J x.1) filled
        ∙ h.finalized in
      let success : (Finish.finalize L J H w).0 ≡ ok tt = ap (λ x. x.0) written in
      let bytes : w'.writer.bytes ≡ bytes_of a2.mode = ap (λ x. bytes_of x.1.mode) written in
      let small : length w'.writer.bytes < 2 ^ 32 = rw bytes h.small in
      let a =
        packed-Archive L hashes lossless aead J json H nonces key P free archive_uuid
          opts.chunk_size opts.level bs w h.width h.few h.packable packed success small in
      let labels = pack-Labels L H bs w0 (ap (λ x. x.0) packed) in
      let (r, rest, opens, front, same_uuid, records, files) =
        Archive-opened L hashes lossless aead J json H nonces key P (max opts.chunk_size 1)
          (all_contents bs) w a success small in
      record {
        reader = r;
        key = key;
        file = w.writer.bytes;
        opens =
            open-eq-ok L path J disk opts.password w'.writer.bytes rest r key
              (h.there ∙ ap some (sym bytes)) front
              (subst (λ u. KeyOf L opts.password u key) (sym (same_uuid ∙ labels.same_uuid)) known)
              opens;
        filed =
            subst (λ rs. Filed L key w.writer.bytes 0 rs (all_contents bs)) (sym records) a.filed;
        labelled = ap names records ∙ labels.named;
        unpacked = files;
      }
