-- ===== src/Commands.antt =====
-- The commands of src/main.rs over the archive facade: `pack`, `unpack`, `recover`, `optimize` and
-- `merge`. `disk` gives the bytes at a path; a command gives the archive that it made, or what failed.
-- `file_name` and `file_stem` are those of `std::path`.
pub mod Adding
pub mod Readable
pub mod RoundTrip
pub mod Merging
use cy.Common.{
  ℕ, ◌*◌, ◌%◌, ◌^◌, ℤ, Bool, Option, none, some, List, [], ◌∷◌, ◌++◌, Text, Result, ok, err, ◌>>=◌,
  map_err, ok_or, if◌then◌else◌, Run,
}
use cy.Bytes.{Bytes, bytes_eq}
use cy.Errors.{IoError, not_found, panicked, other_crypto, SuperblockError}
use cy.Libs.{Libs}
use cy.Codec.{CodecId, from_name}
use cy.Crypto.{derive_key}
use cy.Index.{Json}
use cy.Superblock
use cy.Superblock.{Superblock}
use cy.Writer.{Host, SixCyWriter, default_chunk_size}
use cy.Recovery.{RecoveryReport}
use cy.Recovery.Extract.{extract_recoverable}
use cy.Archive.{
  Archive, FileInfo, PackOptions, default_options, Folder, and_then, create, open_with_password,
  add_file, begin_solid, end_solid, finalize, list, read_file_by_id, extract_all,
}
use cy.Archive.Reopened.{bytes_of}

abbrev or_zstd : Option CodecId → CodecId
or_zstd none = CodecId.zstd
or_zstd (some c) = c

unfoldable pub parse_codec : Text → CodecId
parse_codec s = or_zstd (from_name s)

-- The bytes at a path while an archive is written at its own.
unfoldable pub disk_with : (Text → Option Bytes) → Archive → Text → Option Bytes
disk_with disk a path = if bytes_eq path a.path then some (bytes_of a.mode) else disk path

-- The archive, if all went well.
abbrev pub finished : Result IoError (Unit {0}) × Archive → Result IoError Archive
finished (ok u, a) = ok a
finished (err e, a) = err e

-- `unwrap_or_default`
abbrev pub or_default : Result IoError Bytes → Bytes
or_default (ok contents) = contents
or_default (err e) = []

module _ (L : Libs) (H : Host) (J : Json) (disk : Text → Option Bytes) where
  unfoldable pub open_archive : Text → Option Text → Result IoError Archive
  open_archive path password = open_with_password L J disk path password

  abbrev pub add_read : Option Bytes → Option Text → Archive → Result IoError (Unit {0}) × Archive
  add_read none name a = (err not_found, a)
  add_read (some contents) none a = (err panicked, a)
  add_read (some contents) (some name) a = add_file L H name contents a

  -- The loop over the input of `pack`.
  unfoldable pub add_inputs :
      (Text → Option Text) → List Text → Archive → Result IoError (Unit {0}) × Archive
  unfolding disk_with
  add_inputs file_name [] a = (ok tt, a)
  add_inputs file_name (path ∷ paths) a =
      and_then (add_read (disk_with disk a path) (file_name path) a)
        (λ a'. add_inputs file_name paths a')

  -- `pack`, from the new archive on.
  unfoldable pub pack_inputs :
      (Text → Option Text)
      → Bool
      → CodecId
      → List Text
      → Archive
      → Result IoError (Unit {0}) × Archive
  unfolding add_inputs
  pack_inputs file_name solid codec_id input a =
      and_then (if solid then begin_solid L H codec_id a else (ok tt, a)) (λ a1.
        and_then (add_inputs file_name input a1)
          (λ a2. if solid then end_solid L H a2 else (ok tt, a2)))

  unfoldable pub pack :
      (Text → Option Text)
      → Text
      → List Text
      → Text
      → ℤ
      → ℕ
      → Bool
      → Option Text
      → Bytes
      → Result IoError Archive
  unfolding parse_codec pack_inputs
  pack file_name output input codec level chunk_size solid password archive_uuid = do
    let codec_id = parse_codec codec
    a ← create L output archive_uuid (record {
      default_codec = codec_id;
      level = level;
      chunk_size = chunk_size * 1024 % 2 ^ 64;
      password = password;
    })
    finished (and_then (pack_inputs file_name solid codec_id input a) (λ a'. finalize L H J a'))

  -- `unpack`: what failed first, beside the state of the folder.
  unfoldable pub unpack :
      (F : Folder) → Text → Text → Option Text → F.State → Result IoError (Unit {0}) × F.State
  unfolding open_archive
  unpack F input output_dir password s = elim (open_archive input password) [
    | err e ↦ (err e, s)
    | ok a ↦ extract_all L F a output_dir s
  ]

  -- The files of an archive, those that cannot be read as empty ones.
  unfoldable pub read_all : Archive → List FileInfo → List (Text × Bytes)
  read_all src [] = []
  read_all src (f ∷ fs) = (f.name, or_default (read_file_by_id L src f.id)) ∷ read_all src fs

  unfoldable pub add_all : List (Text × Bytes) → Archive → Result IoError (Unit {0}) × Archive
  add_all [] dst = (ok tt, dst)
  add_all (f ∷ fs) dst = and_then (add_file L H f.0 f.1 dst) (λ dst'. add_all fs dst')

  unfoldable pub optimize : Text → Text → Option Text → ℤ → Bytes → Result IoError Archive
  unfolding open_archive read_all add_all
  optimize input output password level archive_uuid = do
    src ← open_archive input password
    dst ← create L output archive_uuid (record {
      default_codec = CodecId.zstd;
      level = level;
      chunk_size = default_chunk_size;
      password = none;
    })
    finished (and_then (add_all (read_all src (list src)) dst) (λ dst'. finalize L H J dst'))

  -- The key of `recover`: none without a password, nor if the superblock cannot be read.
  abbrev pub recovery_key :
      Text → Result SuperblockError (Superblock × Bytes) → Result IoError (Option Bytes)
  recovery_key password (err e) = ok none
  recovery_key password (ok (sb, rest)) = do
    key ← map_err other_crypto (derive_key L password sb.archive_uuid)
    ok (some key)

  unfoldable pub recover_key : Bytes → Option Text → Result IoError (Option Bytes)
  recover_key file none = ok none
  recover_key file (some password) = recovery_key password (Superblock.read L file)

  -- `recover`; creating the output empties a source at the same path.
  unfoldable pub recover :
      Text
      → Text
      → Option Text
      → Bytes
      → Result IoError (Run (Result IoError RecoveryReport × SixCyWriter))
  unfolding recover_key
  recover input output password archive_uuid = do
    file ← ok_or not_found (disk input)
    key ← recover_key file password
    let src = if bytes_eq input output then [] else file
    ok (extract_recoverable L J H src (record { bytes = []; pos = 0 }) archive_uuid key)

  -- The files of one source of `merge`.
  unfoldable pub merge_files :
      Archive → Text → List FileInfo → Archive → Result IoError (Unit {0}) × Archive
  merge_files src stem [] dst = (ok tt, dst)
  merge_files src stem (f ∷ fs) dst = elim (read_file_by_id L src f.id) [
    | err e ↦ (err e, dst)
    | ok contents ↦
        and_then (add_file L H (stem ++ b'/' ∷ f.name) contents dst)
          (λ dst'. merge_files src stem fs dst')
  ]

module _ (L : Libs) (H : Host) (J : Json) (disk : Text → Option Bytes) where
  unfoldable pub merge_each :
      (Text → Text) → List Text → Archive → Result IoError (Unit {0}) × Archive
  unfolding merge_files open_archive disk_with
  merge_each file_stem [] dst = (ok tt, dst)
  merge_each file_stem (path ∷ paths) dst =
      elim (open_archive L H J (disk_with disk dst) path none) [
        | err e ↦ (err e, dst)
        | ok src ↦
            and_then (merge_files L H J disk src (file_stem path) (list src) dst)
              (λ dst'. merge_each file_stem paths dst')
      ]

  unfoldable pub merge : (Text → Text) → List Text → Text → Text → Bytes → Result IoError Archive
  unfolding merge_each parse_codec
  merge file_stem inputs output codec archive_uuid = do
    let codec_id = parse_codec codec
    dst ← create L output archive_uuid (record default_options { default_codec = codec_id })
    finished (and_then (merge_each file_stem inputs dst) (λ dst'. finalize L H J dst'))
