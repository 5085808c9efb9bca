-- ===== src/Commands/Merging.antt =====
-- What the command `merge` of src/main.rs makes of several archives is read back.
use cy.Common.{
  ℕ, zero, suc, ◌^◌, ◌<◌, ◌≡◌, refl, ap, ◌∙◌, false, Option, none, some, List, [], ◌∷◌, ◌++◌, Text,
  Result, ok, err, length, take, get_elem?, All, some_injective,
}
use cy.Bytes.{Bytes, bytes_eq}
use cy.Errors.{IoError}
use cy.Libs.{Libs, IsHashes, IsLossless, IsAead}
use cy.Codec.{CodecId}
use cy.Index.{Json, IsJson}
use cy.Writer.{Host, SixCyWriter, default_chunk_size}
use cy.Writer.Files
use cy.Writer.Batches.{Batch, all_contents}
use cy.Writer.Labels.{all_names}
use cy.Archive.{
  Archive, FileInfo, PackOptions, default_options, and_then, add_file, list, read_file,
  open_with_password, key_for,
}
use cy.Archive.Filling.{open_for}
use cy.Archive.Reopened.{bytes_of, listed}
use cy.Archive.RoundTrip.{facade_roundtrip}
use cy.Commands.{
  parse_codec, disk_with, open_archive, read_all, add_all, merge_files, merge_each, merge,
}
use cy.Commands.Adding.{
  batches, names_in, contents_in, all_names-batches, all_contents-batches, length-contents_in,
  Suits, batches-IsPackable, add_all-fill, same_next,
}
use cy.Commands.Readable.{IsReadable, read_all-Suits}
use cy.Commands.RoundTrip.{IsMade, command-IsMade}

-- Files under the stem of the archive that they come from.
abbrev pub under : Text → List (Text × Bytes) → List (Text × Bytes)
under stem [] = []
under stem (f ∷ fs) = (stem ++ b'/' ∷ f.0, f.1) ∷ under stem fs

All-under :
    (Q : Bytes → Type 0) (stem : Text) (fs rest : List (Text × Bytes))
    → All (λ f. Q f.1) fs
    → All (λ f. Q f.1) rest
    → All (λ f. Q f.1) (under stem fs ++ rest)
All-under Q stem [] rest h k = k
All-under Q stem (f ∷ fs) rest h k = (h.0, All-under Q stem fs rest h.1 k)

named_in :
    (fs : List (Text × Bytes)) (n : ℕ) (f : Text × Bytes)
    → get_elem? fs n ≡ some f
    → (get_elem? (names_in fs) n ≡ some f.0) × (get_elem? (contents_in fs) n ≡ some f.1)
named_in [] n f at = cc at
named_in (g ∷ fs) zero f at =
    (ap (λ x. some x.0) (some_injective at), ap (λ x. some x.1) (some_injective at))
named_in (g ∷ fs) (suc n) f at = named_in fs n f at

and_then_assoc :
    (r : Result IoError (Unit {0}) × Archive) (f g : Archive → Result IoError (Unit {0}) × Archive)
    → and_then (and_then r f) g ≡ and_then r (λ a. and_then (f a) g)
and_then_assoc (ok u, a) f g = refl
and_then_assoc (err e, a) f g = refl

module _ (L : Libs) (H : Host) (J : Json) (disk : Text → Option Bytes) (output : Text) where
  -- The files of all sources, in order.
  abbrev pub merged : (Text → Text) → List Text → List Archive → List (Text × Bytes)
  merged file_stem [] srcs = []
  merged file_stem (p ∷ ps) [] = []
  merged file_stem (p ∷ ps) (src ∷ srcs) =
      under (file_stem p) (read_all L H J disk src (list src)) ++ merged file_stem ps srcs

  -- None of the paths is the output's, each opens as an archive without a password, and of each all
  -- files can be read, in chunks that satisfy `P`.
  abbrev pub Sources : (Bytes → Type 0) → List Text → List Archive → Type 0
  Sources P [] [] = Unit {0}
  Sources P [] (src ∷ srcs) = ⊥
  Sources P (p ∷ ps) [] = ⊥
  Sources P (p ∷ ps) (src ∷ srcs) =
      (bytes_eq p output ≡ false)
      × (open_archive L H J disk p none ≡ ok src)
      × IsReadable L P default_chunk_size src (list src)
      × Sources P ps srcs

  merged-Suits :
      (P : Bytes → Type 0) (file_stem : Text → Text) (ps : List Text) (srcs : List Archive)
      → Sources P ps srcs
      → All (λ f. Suits P default_chunk_size false f.1) (merged file_stem ps srcs)
  merged-Suits P file_stem [] srcs s = tt
  merged-Suits P file_stem (p ∷ ps) [] s = elim s [ ]
  merged-Suits P file_stem (p ∷ ps) (src ∷ srcs) (_, _, readable, s) =
      All-under (Suits P default_chunk_size false) (file_stem p)
        (read_all L H J disk src (list src)) (merged file_stem ps srcs)
        (read_all-Suits L H J disk P default_chunk_size src (list src) readable)
        (merged-Suits P file_stem ps srcs s)

  -- A source opens while the new archive is written.
  opens_on :
      (a : Archive) (p : Text) (src : Archive)
      → a.path ≡ output
      → bytes_eq p output ≡ false
      → open_archive L H J disk p none ≡ ok src
      → open_archive L H J (disk_with disk a) p none ≡ ok src
  unfolding open_archive open_with_password key_for disk_with
  opens_on a p src at other opens = rw (at, other) opens

  module _ (P : Bytes → Type 0) (codec : CodecId) where
    -- Merging the files of one source adds them, whatever follows.
    merge_files-add_all :
        (src : Archive) (stem : Text) (fs : List FileInfo) (rest : List (Text × Bytes))
        (k : Archive → Result IoError (Unit {0}) × Archive) (w : SixCyWriter)
        → IsReadable L P default_chunk_size src fs
        → ((v : SixCyWriter)
            → k (open_for output codec v) ≡ add_all L H J disk rest (open_for output codec v))
        → and_then (merge_files L H J disk src stem fs (open_for output codec w)) k
          ≡ add_all L H J disk
              (under stem (read_all L H J disk src fs) ++ rest)
              (open_for output codec w)
    unfolding merge_files read_all add_all add_file
    merge_files-add_all src stem [] rest k w readable next = next w
    merge_files-add_all src stem (f ∷ fs) rest k w ((d, read, _), readable) next =
        rw (read, merge_files)
          (and_then_assoc (add_file L H (stem ++ b'/' ∷ f.name) d (open_for output codec w)) _ k
            ∙ same_next L H J disk output codec
                (Files.add_file L H (stem ++ b'/' ∷ f.name) d codec w) _ _
                (λ v. merge_files-add_all src stem fs rest k v readable next))

    pub merge_each-add_all :
        (file_stem : Text → Text) (ps : List Text) (srcs : List Archive) (w : SixCyWriter)
        → Sources P ps srcs
        → merge_each L H J disk file_stem ps (open_for output codec w)
          ≡ add_all L H J disk (merged file_stem ps srcs) (open_for output codec w)
    unfolding merge_each add_all
    merge_each-add_all file_stem [] srcs w s = refl
    merge_each-add_all file_stem (p ∷ ps) [] w s = elim s [ ]
    merge_each-add_all file_stem (p ∷ ps) (src ∷ srcs) w (other, opens, readable, s) =
        rw (opens_on (open_for output codec w) p src refl other opens, merge_each)
          (merge_files-add_all src (file_stem p) (list src) (merged file_stem ps srcs)
            (λ a. merge_each L H J disk file_stem ps a) w readable
            (λ v. merge_each-add_all file_stem ps srcs v s))

module _ (L : Libs) (hashes : IsHashes L) (lossless : IsLossless L) (aead : IsAead L) (J : Json)
    (json : IsJson J) (H : Host) (nonces : (n : ℕ) → length (H.nonce n) ≡ 12) (P : Bytes → Type 0)
    (free : (a b : Bytes) → P a → P b → L.blake3 a ≡ L.blake3 b → a ≡ b)
    (disk : Text → Option Bytes) (output : Text) (archive_uuid : Bytes) where
  -- For lossless compressors, AES-GCM's own law, 32-byte hashes of which no two chunks that satisfy
  -- `P` share one, an index that its JSON gives back, and 12-byte nonces: if `merge`, with any
  -- codec name, succeeds on archives that open without a password, none of them at the output's
  -- path, of which all files can be read, in chunks of the default size that satisfy `P`, fewer
  -- than 2^32 files in all, and its output is below 4 GiB, then the output opens without a
  -- password, lists the files of all archives in order, each under the stem of its archive, and for
  -- the first file of a name reads what is read of it in its archive.
  pub merge_roundtrip :
      (file_stem : Text → Text) (inputs : List Text) (srcs : List Archive) (codec : Text)
      (dst : Archive) (n : ℕ) (f : Text × Bytes)
      → length archive_uuid ≡ 16
      → Sources L H J disk output P inputs srcs
      → length (merged L H J disk output file_stem inputs srcs) < 2 ^ 32
      → merge L H J disk file_stem inputs output codec archive_uuid ≡ ok dst
      → length (bytes_of dst.mode) < 2 ^ 32
      → get_elem? (merged L H J disk output file_stem inputs srcs) n ≡ some f
      → All
          (λ m. bytes_eq m f.0 ≡ false)
          (take n (names_in (merged L H J disk output file_stem inputs srcs)))
      → (a : Archive) × (open_archive L H J (disk_with disk dst) output none ≡ ok a)
        × (listed (list a) ≡ names_in (merged L H J disk output file_stem inputs srcs))
        × (read_file L a f.0 ≡ ok f.1)
  unfolding merge open_archive
  merge_roundtrip file_stem inputs srcs codec dst n f width sources few e small at new =
      let files : List (Text × Bytes) = merged L H J disk output file_stem inputs srcs in
      let codec_id : CodecId = parse_codec codec in
      let opts : PackOptions = record default_options { default_codec = codec_id } in
      let bs : List Batch = batches false codec_id files in
      let made : IsMade L H J disk output archive_uuid opts bs dst =
        command-IsMade L H J disk output archive_uuid opts bs dst
          (merge_each L H J disk file_stem inputs)
          (λ w.
            merge_each-add_all L H J disk output P codec_id file_stem inputs srcs w sources
            ∙ add_all-fill L H J disk output codec_id files w)
          e in
      let contents : all_contents bs ≡ contents_in files =
        all_contents-batches false codec_id files in
      let labels : all_names bs ≡ names_in files = all_names-batches false codec_id files in
      let (named, stored) = named_in files n f at in
      let (a, opens, same_names, whole, _) =
        facade_roundtrip L hashes lossless aead J json H nonces P free (disk_with disk dst) output
          archive_uuid opts bs made.a0 made.a1 dst width
          (rw contents (rw (length-contents_in files) few))
          (batches-IsPackable P default_chunk_size false codec_id files
            (merged-Suits L H J disk output P file_stem inputs srcs sources))
          made.created made.filled made.finalized small made.there n 0 0 f.0 f.1
          (ap (λ l. get_elem? l n) labels ∙ named) (ap (λ l. get_elem? l n) contents ∙ stored)
          (rw labels new) in
      (a, opens, same_names ∙ labels, whole)
