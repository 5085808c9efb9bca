-- ===== src/Archive.antt =====
-- src/archive.rs: the archive facade over the reader and the writer of src/io_stream/mod.rs. A method
-- returns its result beside the archive. The file system is a parameter: `disk` gives the bytes at a path,
-- `Folder` is what `extract_all` does to a directory.
pub mod Filling
pub mod Reopened
pub mod RoundTrip
use cy.Common.{
  ℕ, Bool, Option, none, some, List, [], ◌∷◌, Text, Result, ok, err, ◌>>=◌, map_err, ok_or, ℤ,
  if◌then◌else◌, length,
}
use cy.Bytes.{Bytes, bytes_eq}
use cy.Errors.{IoError, not_found, read_only, write_only, other_superblock, other_crypto}
use cy.Libs.{Libs}
use cy.Codec.{CodecId}
use cy.Crypto.{derive_key}
use cy.Index.{BlockRef, FileIndexRecord, Json}
use cy.Superblock
use cy.Reader
use cy.Reader.{SixCyReader, with_key, unpack_file}
use cy.Writer.{
  Host, SixCyWriter, with_options, default_chunk_size, default_compression_level,
  start_solid_session, flush_solid_session,
}
use cy.Writer.Files
use cy.Writer.Finish

pub record PackOptions : Type 0 where
  pub default_codec : CodecId
  pub level : ℤ
  pub chunk_size : ℕ
  pub password : Option Text

-- `PackOptions::default`
abbrev pub default_options : PackOptions
default_options = record {
  default_codec = CodecId.zstd;
  level = default_compression_level;
  chunk_size = default_chunk_size;
  password = none;
}

pub record FileInfo : Type 0 where
  pub id : ℕ
  pub name : Text
  pub original_size : ℕ
  pub compressed_size : ℕ
  pub block_count : ℕ
  pub first_block_hash : Option Bytes

first_hash : List BlockRef → Option Bytes
first_hash [] = none
first_hash (br ∷ brs) = some br.content_hash

-- `FileInfo::from`
unfoldable pub info_of : FileIndexRecord → FileInfo
unfolding first_hash
info_of r = record {
  id = r.id;
  name = r.name;
  original_size = r.original_size;
  compressed_size = r.compressed_size;
  block_count = length r.block_refs;
  first_block_hash = first_hash r.block_refs;
}

pub data ArchiveMode : Type 0 where
  reading : SixCyReader → ArchiveMode
  writing : SixCyWriter → CodecId → ArchiveMode

pub record Archive : Type 0 where
  pub path : Text
  pub mode : ArchiveMode

-- `find(|f| f.name == name)`
unfoldable pub find_info : Text → List FileInfo → Option FileInfo
find_info name [] = none
find_info name (f ∷ fs) = if bytes_eq f.name name then some f else find_info name fs

abbrev pub infos : List FileIndexRecord → List FileInfo
infos [] = []
infos (r ∷ rs) = info_of r ∷ infos rs

-- The records that `list` shows.
abbrev records_of : ArchiveMode → List FileIndexRecord
records_of (reading r) = r.index.records
records_of (writing w c) = w.index.records

unfoldable pub list : Archive → List FileInfo
unfolding info_of
list a = infos (records_of a.mode)

unfoldable pub stat : Archive → Text → Option FileInfo
unfolding list find_info
stat a name = find_info name (list a)

abbrev uuid_of : ArchiveMode → Bytes
uuid_of (reading r) = r.superblock.archive_uuid
uuid_of (writing w c) = w.superblock.archive_uuid

unfoldable pub uuid : Archive → Bytes
uuid a = uuid_of a.mode

abbrev root_hash_of : ArchiveMode → Bytes
root_hash_of (reading r) = r.index.root_hash
root_hash_of (writing w c) = w.index.root_hash

unfoldable pub root_hash_hex : Libs → Archive → Text
root_hash_hex L a = L.hex_encode (root_hash_of a.mode)

-- A method of the writer, in the mode for it.
abbrev in_mode :
    Archive
    → ArchiveMode
    → (CodecId → SixCyWriter → Result IoError (Unit {0}) × SixCyWriter)
    → Result IoError (Unit {0}) × Archive
in_mode a (reading r) method = (err read_only, a)
in_mode a (writing w c) method =
    let (result, w') = method c w in (result, record a { mode = writing w' c })

abbrev pub on_writer :
    Archive
    → (CodecId → SixCyWriter → Result IoError (Unit {0}) × SixCyWriter)
    → Result IoError (Unit {0}) × Archive
on_writer a method = in_mode a a.mode method

module _ (L : Libs) (H : Host) where
  unfoldable pub add_file_with_codec :
      Text → Bytes → CodecId → Archive → Result IoError (Unit {0}) × Archive
  add_file_with_codec name contents codec a =
      on_writer a (λ c w. Files.add_file L H name contents codec w)

  abbrev add_in_mode : Archive → ArchiveMode → Text → Bytes → Result IoError (Unit {0}) × Archive
  add_in_mode a (reading r) name contents = (err read_only, a)
  add_in_mode a (writing w codec) name contents = add_file_with_codec name contents codec a

  -- The codec is that of the archive.
  unfoldable pub add_file : Text → Bytes → Archive → Result IoError (Unit {0}) × Archive
  unfolding add_file_with_codec
  add_file name contents a = add_in_mode a a.mode name contents

  unfoldable pub begin_solid : CodecId → Archive → Result IoError (Unit {0}) × Archive
  begin_solid codec a = on_writer a (λ c w. start_solid_session L H codec w)

  unfoldable pub end_solid : Archive → Result IoError (Unit {0}) × Archive
  end_solid a = on_writer a (λ c w. flush_solid_session L H w)

  unfoldable pub finalize : Json → Archive → Result IoError (Unit {0}) × Archive
  finalize J a = on_writer a (λ c w. Finish.finalize L J H w)

module _ (L : Libs) where
  unfoldable pub key_for :
      (Text → Option Bytes) → Text → Option Text → Result IoError (Option Bytes)
  key_for disk path none = ok none
  key_for disk path (some password) = do
    f ← ok_or not_found (disk path)
    (sb, _) ← map_err other_superblock (Superblock.read L f)
    key ← map_err other_crypto (derive_key L password sb.archive_uuid)
    ok (some key)

  -- `Archive::open` has no password, and `Archive::open_encrypted` has one.
  unfoldable pub open_with_password :
      Json → (Text → Option Bytes) → Text → Option Text → Result IoError Archive
  unfolding key_for
  open_with_password J disk path password = do
    key ← key_for disk path password
    f ← ok_or not_found (disk path)
    reader ← with_key L J f key
    ok (record { path = path; mode = reading reader })

  unfoldable pub with_password : Option Text → SixCyWriter → Result IoError SixCyWriter
  with_password none w = ok w
  with_password (some password) w = do
    key ← map_err other_crypto (derive_key L password w.superblock.archive_uuid)
    ok (record w { encryption_key = some key })

  -- `Archive::create`, on the file that `File::create` empties, with the random archive UUID.
  unfoldable pub create : Text → Bytes → PackOptions → Result IoError Archive
  unfolding with_password
  create path archive_uuid opts = do
    writer ←
        with_password opts.password (
          with_options (record { bytes = []; pos = 0 }) archive_uuid opts.chunk_size opts.level
            none)
    ok (record { path = path; mode = writing writer opts.default_codec })

  abbrev read_by_id : ArchiveMode → ℕ → Result IoError Bytes
  read_by_id (reading r) id = unpack_file L r id
  read_by_id (writing w c) id = err write_only

  unfoldable pub read_file_by_id : Archive → ℕ → Result IoError Bytes
  read_file_by_id a id = read_by_id a.mode id

  unfoldable pub read_file : Archive → Text → Result IoError Bytes
  unfolding read_file_by_id stat
  read_file a name = do info ← ok_or not_found (stat a name); read_file_by_id a info.id

  abbrev read_at_id : ArchiveMode → ℕ → ℕ → ℕ → Result IoError Bytes
  read_at_id (reading r) id offset size = Reader.read_at L r id offset size
  read_at_id (writing w c) id offset size = err write_only

  -- `read_at` into a buffer of `size` bytes: the bytes that are copied.
  unfoldable pub read_at : Archive → Text → ℕ → ℕ → Result IoError Bytes
  unfolding stat
  read_at a name offset size = do
    info ← ok_or not_found (stat a name)
    read_at_id a.mode info.id offset size

-- What `extract_all` uses of `std::fs` and `std::path`; an error leaves a state too. The folder does
-- not hold the archive that is extracted: no file is created at the archive's own path.
pub record Folder : Type 1 where
  pub State : Type 0
  pub exists : Text → State → Bool
  pub create_dir_all : Text → State → Result IoError (Unit {0}) × State
  -- `File::create(path)?.write_all(..)`
  pub create_file : Text → Bytes → State → Result IoError (Unit {0}) × State
  pub join : Text → Text → Text

-- `?` on an action on a folder.
abbrev pub and_then :
    {S : Type 0}
    → Result IoError (Unit {0}) × S
    → (S → Result IoError (Unit {0}) × S)
    → Result IoError (Unit {0}) × S
and_then (ok u, s) next = next s
and_then (err e, s) next = (err e, s)

module _ (L : Libs) (F : Folder) where
  abbrev create_read : Text → Result IoError Bytes → F.State → Result IoError (Unit {0}) × F.State
  create_read path (ok contents) s = F.create_file path contents s
  create_read path (err e) s = (err e, s)

  -- The loop over the files of the list.
  unfoldable pub extract_each :
      Archive → Text → List FileInfo → F.State → Result IoError (Unit {0}) × F.State
  extract_each a dest [] s = (ok tt, s)
  extract_each a dest (f ∷ fs) s =
      and_then (create_read (F.join dest f.name) (read_file_by_id L a f.id) s)
        (extract_each a dest fs)

  unfoldable pub extract_all : Archive → Text → F.State → Result IoError (Unit {0}) × F.State
  unfolding list extract_each
  extract_all a dest s =
      and_then (if F.exists dest s then (ok tt, s) else F.create_dir_all dest s)
        (extract_each a dest (list a))
