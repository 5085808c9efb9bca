-- ===== src/Writer/Packing.antt =====
-- A new archive of src/io_stream/mod.rs, and `add_file` for one file after the other.
use cy.Common.{
  ℕ, ◌%◌, ◌^◌, ◌≤◌, ◌<◌, ◌≡◌, refl, sym, ap, ◌∙◌, Option, none, some, List, [], ◌∷◌, ◌++◌,
  append-nil, Result, ok, ℤ, max, Result-cases, Option-cases, inl, inr, arith, length, All, Text,
  replicate, length-replicate,
}
use cy.Bytes.{Bytes}
use cy.Errors.{IoError}
use cy.Libs.{Libs, IsHashes, IsLossless, IsAead}
use cy.Io.{File, seek_start}
use cy.Io.Append.{AtEnd, write_all-AtEnd}
use cy.Codec.{CodecId}
use cy.Superblock
use cy.Superblock.Required.{new-IsBuilt, add_required_codec-IsBuilt}
use cy.Writer.{Host, SixCyWriter, with_options, then_on}
use cy.Writer.Files.{
  chunks, add_chunks, new_record, push_record, finish_file, add_solid, add_normal, add_file,
}
use cy.Writer.Chunks.{Grows, Grows-refl, Grows-trans, add_chunks-Grows}
use cy.Writer.Archive.{Archive, Filed-length, add_normal-Archive, declared}

-- The arguments of one `add_file`.
pub record Input : Type 0 where
  pub name : Text
  pub contents : Bytes
  pub codec : CodecId

abbrev pub contents_of : List Input → List Bytes
contents_of [] = []
contents_of (f ∷ fs) = f.contents ∷ contents_of fs

-- The calls in order, up to the first that fails.
unfoldable pub add_files :
    Libs → Host → List Input → SixCyWriter → Result IoError (Unit {0}) × SixCyWriter
add_files L H [] w = (ok tt, w)
add_files L H (f ∷ fs) w =
    then_on (add_file L H f.name f.contents f.codec w) (λ _ w'. add_files L H fs w')

module _ (L : Libs) (H : Host) where
  add_normal-Grows :
      (id : ℕ) (name : Text) (d : Bytes) (codec : CodecId) (w : SixCyWriter)
      → AtEnd w.writer
      → Grows w (add_normal L H id name d codec w).1
  unfolding add_normal finish_file push_record
  add_normal-Grows id name d codec w end =
      let r1 =
        add_chunks L H id codec 0 (chunks w.chunk_size d) (new_record id name d)
          (declared codec w) in
      let g =
        add_chunks-Grows L H id codec 0 (chunks w.chunk_size d) (new_record id name d)
          (declared codec w) end in
      elim (Result-cases r1.0) [
        | inr (x, q) ↦
            rw (q, add_normal)
              (record {
                at_end = g.at_end;
                more = g.more;
                appended = g.appended;
                same_mode = g.same_mode;
                built = λ b. g.built (add_required_codec-IsBuilt codec w.superblock b);
              })
        | inl (rec, q) ↦
            rw (q, add_normal)
              (record {
                at_end = g.at_end;
                more = g.more;
                appended = g.appended;
                same_mode = g.same_mode;
                built = λ b. g.built (add_required_codec-IsBuilt codec w.superblock b);
              })
      ]

  -- The two cases of `add_file`.
  by_mode :
      Text
      → Bytes
      → CodecId
      → SixCyWriter
      → Option CodecId
      → Result IoError (Unit {0}) × SixCyWriter
  by_mode name d codec w (some solid) =
      (ok tt, add_solid L H (length w.index.records % 2 ^ 32) name d w)
  by_mode name d codec w none = add_normal L H (length w.index.records % 2 ^ 32) name d codec w

  add_file_lem :
      (name : Text) (d : Bytes) (codec : CodecId) (w : SixCyWriter)
      → add_file L H name d codec w ≡ by_mode name d codec w w.solid_codec
  unfolding add_file by_mode
  add_file_lem name d codec w = go w.solid_codec
    where
      go :
          (o : Option CodecId)
          → elim o [
            | some solid ↦ (ok tt, add_solid L H (length w.index.records % 2 ^ 32) name d w)
            | none ↦ add_normal L H (length w.index.records % 2 ^ 32) name d codec w
          ]
            ≡ by_mode name d codec w o
      go none = refl
      go (some c) = refl

  pub add_file_idle :
      (name : Text) (d : Bytes) (codec : CodecId) (w : SixCyWriter)
      → w.solid_codec ≡ none
      → add_file L H name d codec w
        ≡ add_normal L H (length w.index.records % 2 ^ 32) name d codec w
  unfolding by_mode
  add_file_idle name d codec w q = add_file_lem name d codec w ∙ ap (by_mode name d codec w) q

  pub add_file_solid :
      (name : Text) (d : Bytes) (codec c : CodecId) (w : SixCyWriter)
      → w.solid_codec ≡ some c
      → add_file L H name d codec w
        ≡ (ok tt, add_solid L H (length w.index.records % 2 ^ 32) name d w)
  unfolding by_mode
  add_file_solid name d codec c w q = add_file_lem name d codec w ∙ ap (by_mode name d codec w) q

  pub add_file-Grows :
      (name : Text) (d : Bytes) (codec : CodecId) (w : SixCyWriter)
      → AtEnd w.writer
      → Grows w (add_file L H name d codec w).1
  unfolding add_solid push_record
  add_file-Grows name d codec w end = elim (Option-cases w.solid_codec) [
    | inl q ↦ rw (add_file_idle name d codec w q) (add_normal-Grows _ name d codec w end)
    | inr (c, q) ↦ rw (add_file_solid name d codec c w q) (record {
      at_end = end;
      more = [];
      appended = sym (append-nil w.writer.bytes);
      same_mode = refl;
      built = λ b. b;
    })
  ]

  pub add_files-Grows :
      (fs : List Input) (w : SixCyWriter) → AtEnd w.writer → Grows w (add_files L H fs w).1
  unfolding add_files
  add_files-Grows [] w end = Grows-refl w end
  add_files-Grows (f ∷ fs) w end =
      let r = add_file L H f.name f.contents f.codec w in
      let g = add_file-Grows f.name f.contents f.codec w end in
      elim (Result-cases r.0) [
        | inl (u, q) ↦ rw (q, add_files) (Grows-trans w r.1 _ g (add_files-Grows fs r.1 g.at_end))
        | inr (x, q) ↦ rw (q, add_files) g
      ]

module _ (L : Libs) (hashes : IsHashes L) (lossless : IsLossless L) (aead : IsAead L) (H : Host)
    (nonces : (n : ℕ) → length (H.nonce n) ≡ 12) (key : Option Bytes) (P : Bytes → Type 0)
    (free : (a b : Bytes) → P a → P b → L.blake3 a ≡ L.blake3 b → a ≡ b) where
  pub add_file-Archive :
      (n : ℕ) (files : List Bytes) (w : SixCyWriter) (name : Text) (d : Bytes) (codec : CodecId)
      → Archive L key P n files w
      → 1 ≤ n
      → All P (chunks n d)
      → length files < 2 ^ 32
      → (add_file L H name d codec w).0 ≡ ok tt
      → length (add_file L H name d codec w).1.writer.bytes < 2 ^ 32
      → Archive L key P n (files ++ d ∷ []) (add_file L H name d codec w).1
  add_file-Archive n files w name d codec a pos pcs few =
      let counted : length w.index.records ≡ length files =
        Filed-length L key w.writer.bytes 0 w.index.records files a.filed in
      let id : length w.index.records % 2 ^ 32 ≡ length w.index.records = omega arith in
      rw (add_file_idle L H name d codec w a.idle, id)
        (add_normal-Archive L hashes lossless aead H nonces key P free n files w name d codec a pos
          pcs few)

  -- A new archive has no file.
  pub with_options-Archive :
      (archive_uuid : Bytes) (size : ℕ) (level : ℤ)
      → length archive_uuid ≡ 16
      → Archive L key P
          (max size 1)
          []
          (with_options (record { bytes = []; pos = 0 }) archive_uuid size level key)
  unfolding with_options seek_start
  with_options-Archive archive_uuid size level width =
      let start : File = record { bytes = []; pos = 0 } in
      let (bytes, end) = write_all-AtEnd (replicate 256 0) start refl in
      record {
        store = record {
          at_end = end;
          past = rw bytes (omega (arith, length-replicate {A = ℕ} 256 0));
          keyed = refl;
          sound = tt;
        };
        idle = refl;
        split = refl;
        no_buffer = refl;
        no_ranges = refl;
        built = new-IsBuilt archive_uuid width;
        plain = unfold Superblock.new in refl;
        filed = tt;
      }
