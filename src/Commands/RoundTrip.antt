-- ===== src/Commands/RoundTrip.antt =====
-- What the commands `pack` and `optimize` of src/main.rs make is read back.
use cy.Common.{
  ℕ, ◌*◌, ◌%◌, ◌^◌, ◌<◌, ◌≡◌, refl, sym, ap, ◌∙◌, subst, Bool, true, false, Option, none, some,
  List, [], Text, Result, ok, ◌>>=◌, ℤ, max, length, take, get_elem?, All, if◌then◌else◌, >>=-eq-ok,
}
use cy.Bytes.{Bytes, bytes_eq}
use cy.Bytes.Laws.{bytes_eq_refl}
use cy.Errors.{IoError}
use cy.Libs.{Libs, IsHashes, IsLossless, IsAead}
use cy.Codec.{CodecId}
use cy.Index.{Json, IsJson}
use cy.Writer.{Host, SixCyWriter, with_options, default_chunk_size}
use cy.Writer.Batches
use cy.Writer.Batches.{Batch, all_contents}
use cy.Writer.Labels.{all_names}
use cy.Archive.{
  Archive, FileInfo, PackOptions, Folder, and_then, create, finalize, list, read_file,
  read_file_by_id,
}
use cy.Archive.Filling.{open_for, fill, fill-lifted, finalize-lifted}
use cy.Archive.Reopened.{bytes_of, listed, create-eq-ok}
use cy.Archive.RoundTrip.{put_all, facade_roundtrip, extract_all_roundtrip}
use cy.Commands.{
  parse_codec, disk_with, finished, open_archive, pack_inputs, pack, unpack, read_all, add_all,
  optimize,
}
use cy.Commands.Adding.{
  batches, names_in, contents_in, all_names-batches, all_contents-batches, length-contents_in,
  Suits, batches-IsPackable, finished-ok, add_all-fill, Stands, pack_inputs-fill, put_files,
  put_all-put_files,
}
use cy.Commands.Readable.{listed-read_all, IsReadable, read_all_at, read_all-Suits, length-read_all}

module _ (L : Libs) (H : Host) (J : Json) (disk : Text → Option Bytes) (output : Text)
    (archive_uuid : Bytes) (opts : PackOptions) (bs : List Batch) (dst : Archive) where
  -- A new archive that was filled and finalized, and then stands on the disk.
  pub record IsMade : Type 0 where
    pub a0 : Archive
    pub a1 : Archive
    pub created : create L output archive_uuid opts ≡ ok a0
    pub filled : fill L H bs a0 ≡ (ok tt, a1)
    pub finalized : finalize L H J a1 ≡ (ok tt, dst)
    pub there : disk_with disk dst output ≡ some (bytes_of dst.mode)

  finalize-path :
      (a : Archive) (w : SixCyWriter)
      → a ≡ open_for output opts.default_codec w
      → finalize L H J a ≡ (ok tt, dst)
      → dst.path ≡ output
  finalize-path a w same e =
      sym (ap (λ r. r.1.path) e)
      ∙ ap (λ b. (finalize L H J b).1.path) same
      ∙ ap (λ r. r.1.path) (finalize-lifted L H output opts.default_codec J w)

  pub command-IsMade :
      (body : Archive → Result IoError (Unit {0}) × Archive)
      → ((w : SixCyWriter)
          → body (open_for output opts.default_codec w)
            ≡ fill L H bs (open_for output opts.default_codec w))
      → (create L output archive_uuid opts >>= λ a.
          finished (and_then (body a) (λ a'. finalize L H J a')))
        ≡ ok dst
      → IsMade
  unfolding disk_with
  command-IsMade body same e =
      let (a, made, e1) = >>=-eq-ok (create L output archive_uuid opts) _ e in
      let (key, new, known) = create-eq-ok L output archive_uuid opts a made in
      let codec = opts.default_codec in
      let w0 : SixCyWriter =
        with_options (record { bytes = []; pos = 0 }) archive_uuid opts.chunk_size opts.level key in
      let (well, ended) = finished-ok (body a) (λ a'. finalize L H J a') dst e1 in
      let packed : fill L H bs a ≡ (ok tt, (body a).1) =
        subst (λ x. fill L H bs x ≡ body x) (sym new) (sym (same w0)) ∙ well in
      let written : (body a).1 ≡ open_for output codec (lifted_writer w0) =
        sym (ap (λ r. r.1) packed)
        ∙ ap (λ x. (fill L H bs x).1) new
        ∙ ap (λ r. r.1) (fill-lifted L H output codec bs w0) in
      let named : dst.path ≡ output = finalize-path (body a).1 _ written ended in
      record {
        a0 = a;
        a1 = (body a).1;
        created = made;
        filled = packed;
        finalized = ended;
        there =
            let same : bytes_eq output dst.path ≡ true =
              subst (λ p. bytes_eq output p ≡ true) (sym named) (bytes_eq_refl output) in
            rw same refl;
      }
    where
      lifted_writer : SixCyWriter → SixCyWriter
      lifted_writer w = (Batches.pack L H bs w).1

module _ (L : Libs) (hashes : IsHashes L) (lossless : IsLossless L) (aead : IsAead L) (J : Json)
    (json : IsJson J) (H : Host) (nonces : (n : ℕ) → length (H.nonce n) ≡ 12) (P : Bytes → Type 0)
    (free : (a b : Bytes) → P a → P b → L.blake3 a ≡ L.blake3 b → a ≡ b)
    (disk : Text → Option Bytes) (output : Text) (archive_uuid : Bytes) where
  -- For lossless compressors, AES-GCM's own law, 32-byte hashes of which no two chunks that satisfy
  -- `P` share one, an index that its JSON gives back, and 12-byte nonces: if `pack`, with any codec
  -- name, level, chunk size and password, and with or without `--solid`, succeeds on fewer than
  -- 2^32 files that stand on the disk, none of them at the output's path, in solid mode none empty
  -- and otherwise all their chunks satisfying `P`, and the archive is below 4 GiB, then `unpack` of
  -- its output under the same password, into a directory that can be made and in which files can be
  -- created, succeeds, and puts every file there under its name, in the order of the command line.
  pub pack-unpack_roundtrip :
      (file_name : Text → Option Text) (input : List Text) (codec : Text) (level : ℤ)
      (chunk_size : ℕ) (solid : Bool) (password : Option Text) (files : List (Text × Bytes))
      (dst : Archive) (F : Folder) (dest : Text) (s : F.State)
      → ((p : Text) (d : Bytes) (s : F.State) → (F.create_file p d s).0 ≡ ok tt)
      → (F.create_dir_all dest s).0 ≡ ok tt
      → length archive_uuid ≡ 16
      → Stands disk output file_name input files
      → length files < 2 ^ 32
      → All (λ f. Suits P (max (chunk_size * 1024 % 2 ^ 64) 1) solid f.1) files
      → pack L H J disk file_name output input codec level chunk_size solid password archive_uuid
        ≡ ok dst
      → length (bytes_of dst.mode) < 2 ^ 32
      → unpack L H J (disk_with disk dst) F output dest password s ≡ (
        ok tt,
        put_files F dest files (if F.exists dest s then s else (F.create_dir_all dest s).1),
      )
  unfolding pack unpack open_archive
  pack-unpack_roundtrip file_name input codec level chunk_size solid password files dst F dest s
        creates folder width stands few suits e small =
      let codec_id : CodecId = parse_codec codec in
      let opts : PackOptions = record {
        default_codec = codec_id;
        level = level;
        chunk_size = chunk_size * 1024 % 2 ^ 64;
        password = password;
      } in
      let bs : List Batch = batches solid codec_id files in
      let made : IsMade L H J disk output archive_uuid opts bs dst =
        command-IsMade L H J disk output archive_uuid opts bs dst
          (pack_inputs L H J disk file_name solid codec_id input)
          (λ w. pack_inputs-fill L H J disk output codec_id file_name solid input files w stands)
          e in
      let contents : all_contents bs ≡ contents_in files =
        all_contents-batches solid codec_id files in
      let start = (if F.exists dest s then s else (F.create_dir_all dest s).1) in
      let (a, opens, extracted) =
        extract_all_roundtrip L hashes lossless aead J json H nonces P free (disk_with disk dst)
          output archive_uuid opts bs made.a0 made.a1 dst F creates width
          (rw contents (rw (length-contents_in files) few))
          (batches-IsPackable P (max (chunk_size * 1024 % 2 ^ 64) 1) solid codec_id files suits)
          made.created made.filled made.finalized small made.there dest s folder in
      rw (opens, unpack)
        (extracted
          ∙ ap (λ x. (ok tt, x))
              (ap (λ ns. put_all F dest ns (all_contents bs) start)
                  (all_names-batches solid codec_id files)
                ∙ ap (λ ds. put_all F dest (names_in files) ds start) contents
                ∙ put_all-put_files F dest files start))

  -- For lossless compressors, AES-GCM's own law, 32-byte hashes of which no two chunks that satisfy
  -- `P` share one, an index that its JSON gives back, and 12-byte nonces: if `optimize` succeeds on
  -- an archive that opens, of fewer than 2^32 files that can all be read, in chunks that satisfy
  -- `P`, and its output is below 4 GiB, then the output opens without a password, lists the same
  -- names in the same order, and for the first file of a name reads what the source reads for it.
  pub optimize_roundtrip :
      (input : Text) (password : Option Text) (level : ℤ) (src dst : Archive) (n : ℕ)
      (info : FileInfo)
      → length archive_uuid ≡ 16
      → open_archive L H J disk input password ≡ ok src
      → length (list src) < 2 ^ 32
      → IsReadable L P default_chunk_size src (list src)
      → optimize L H J disk input output password level archive_uuid ≡ ok dst
      → length (bytes_of dst.mode) < 2 ^ 32
      → get_elem? (list src) n ≡ some info
      → All (λ m. bytes_eq m info.name ≡ false) (take n (listed (list src)))
      → (a : Archive) × (open_archive L H J (disk_with disk dst) output none ≡ ok a)
        × (listed (list a) ≡ listed (list src))
        × (read_file L a info.name ≡ read_file_by_id L src info.id)
  unfolding optimize open_archive
  optimize_roundtrip input password level src dst n info width opened few readable e small at new =
      let files : List (Text × Bytes) = read_all L H J disk src (list src) in
      let opts : PackOptions = record {
        default_codec = CodecId.zstd;
        level = level;
        chunk_size = default_chunk_size;
        password = none;
      } in
      let bs : List Batch = batches false CodecId.zstd files in
      let made : IsMade L H J disk output archive_uuid opts bs dst =
        command-IsMade L H J disk output archive_uuid opts bs dst (add_all L H J disk files)
          (λ w. add_all-fill L H J disk output CodecId.zstd files w) (rw opened at e) in
      let contents : all_contents bs ≡ contents_in files =
        all_contents-batches false CodecId.zstd files in
      let labels : all_names bs ≡ listed (list src) =
        all_names-batches false CodecId.zstd files ∙ listed-read_all L H J disk src (list src) in
      let (d, read, named, stored) =
        read_all_at L H J disk P default_chunk_size src (list src) n info readable at in
      let (a, opens, same_names, whole, _) =
        facade_roundtrip L hashes lossless aead J json H nonces P free (disk_with disk dst) output
          archive_uuid opts bs made.a0 made.a1 dst width
          (rw contents
            (rw (length-contents_in files, length-read_all L H J disk src (list src)) few))
          (batches-IsPackable P default_chunk_size false CodecId.zstd files
            (read_all-Suits L H J disk P default_chunk_size src (list src) readable))
          made.created made.filled made.finalized small made.there n 0 0 info.name d
          (ap (λ l. get_elem? l n) (all_names-batches false CodecId.zstd files) ∙ named)
          (ap (λ l. get_elem? l n) contents ∙ stored) (rw labels new) in
      (a, opens, same_names ∙ labels, whole ∙ sym read)
