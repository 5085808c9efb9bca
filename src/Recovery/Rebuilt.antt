-- ===== src/Recovery/Rebuilt.antt =====
-- The archive that `extract_recoverable` (src/recovery/scanner.rs) builds.
use cy.Common.{
  ℕ, ◌*◌, ◌^◌, ◌<◌, ◌≡◌, refl, sym, ap, ◌∙◌, subst, Option, none, some, List, [], ◌∷◌, Result, ok,
  err, length, All, done, get_elem?, done_injective, ok_injective, inl, inr, zero, suc, arith,
  some_injective, ◌≢◌, ◌⊎◌,
}
use cy.Bytes.{Bytes}
use cy.Errors.{IoError}
use cy.Libs.{Libs, IsHashes, IsLossless, IsAead, IsTotal}
use cy.Io.{File}
use cy.Index.{Json, IsJson, IsWritable}
use cy.Reader.{SixCyReader, with_key, unpack_file}
use cy.Writer.{Host, SixCyWriter, with_options, default_compression_level, then_on}
use cy.Writer.Files.{chunks}
use cy.Writer.Finish.{finalize}
use cy.Writer.Batches.{Batch, all_contents, pack}
use cy.Writer.Labels.{names, all_names}
use cy.Writer.Named.{pack-Labels}
use cy.Writer.Packed.{IsPackable}
use cy.Writer.RoundTrip.{packed-Archive, Archive-opened}
use cy.Writer.Success.{packing_total}
use cy.Recovery.{RecoveryReport, scan}
use cy.Recovery.Log.{scan_log}
use cy.Recovery.Extract.{with_report, recovered_name, rebuild, extract_recoverable}
use cy.Recovery.Salvage.{blocks_of, IsFileOf, IsSalvage, salvaged, singles}
use cy.Recovery.Salvage.Described.{salvaged-IsSalvage}
use cy.Recovery.Salvage.Reading.{extract_files-salvaged}

abbrev pub blank : File
blank = record { bytes = []; pos = 0 }

abbrev pub target_chunk : ℕ
target_chunk = 4 * 1024 * 1024

module _ (L : Libs) (J : Json) (H : Host) where
  -- The calls of the writer that the extraction comes to.
  abbrev pub repacked : List (ℕ × Bytes) → Bytes → Result IoError (Unit {0}) × SixCyWriter
  repacked files archive_uuid =
      then_on
        (pack L H (singles files)
          (with_options blank archive_uuid target_chunk default_compression_level none))
        (λ _ w. finalize L J H w)

  rebuilt :
      (src archive_uuid : Bytes) (key : Option Bytes)
      → (report : RecoveryReport) × (scan L (length src) src ≡ done report)
        × (extract_recoverable L J H src blank archive_uuid key
            ≡ done
                (with_report report (repacked (salvaged L src key report.block_log) archive_uuid)))
  unfolding extract_recoverable rebuild
  rebuilt src archive_uuid key =
      let (report, to, e, _, _, judged) = scan_log L (length src) src (inr refl) in
      (
        report,
        e,
        rw (e, extract_recoverable)
            (ap (λ r. done (with_report report (then_on r (λ _ w. finalize L J H w))))
              (extract_files-salvaged L src key H report.block_log _ judged)),
      )

  -- Whatever the bytes of the damaged archive are: the scan ends with a report, and
  -- `extract_recoverable` ends, and does exactly what packing the files of the log into a new
  -- archive without a key and finalizing it does. The files are by rising numbers, each has the
  -- data of its usable DATA blocks in the order of their file offsets, and every file number with
  -- such blocks and any data is among them. No read of a payload fails on the way.
  pub extract_recoverable-pack :
      (src archive_uuid : Bytes) (key : Option Bytes)
      → (report : RecoveryReport) × (files : List (ℕ × Bytes)) × (scan L (length src) src
          ≡ done report)
        × IsSalvage L src key report.block_log files
        × (extract_recoverable L J H src blank archive_uuid key
            ≡ done (with_report report (repacked files archive_uuid)))
  extract_recoverable-pack src archive_uuid key =
      let (report, e, same) = rebuilt src archive_uuid key in
      let log = report.block_log in
      (report, salvaged L src key log, e, salvaged-IsSalvage L src key log, same)

  -- Where no compressor, cipher or JSON writer fails: with a 16-byte archive UUID,
  -- `extract_recoverable` ends with the scan's report and without an error, whatever the bytes of
  -- the damaged archive and the key are.
  pub extract_recoverable_total :
      IsTotal L
      → IsWritable J
      → (src archive_uuid : Bytes) (key : Option Bytes) → length archive_uuid ≡ 16
      → (report : RecoveryReport) × (w : SixCyWriter) × (scan L (length src) src ≡ done report)
        × (extract_recoverable L J H src blank archive_uuid key ≡ done (ok report, w))
  extract_recoverable_total total writable src archive_uuid key width =
      let (report, e, same) = rebuilt src archive_uuid key in
      let bs : List Batch = singles (salvaged L src key report.block_log) in
      let (packed, finalized) =
        packing_total L total J writable H archive_uuid target_chunk default_compression_level none
          bs width in
      (report, _, e, same ∙ ap done (both report _ _ packed finalized))
    where
      both :
          (report : RecoveryReport) (r : Result IoError (Unit {0}) × SixCyWriter)
          (next : SixCyWriter → Result IoError (Unit {0}) × SixCyWriter)
          → r.0 ≡ ok tt
          → (next r.1).0 ≡ ok tt
          → with_report report (then_on r (λ _ w. next w)) ≡ (ok report, (next r.1).1)
      both report r next p q = rw (p, then_on) (rw q refl)

-- Both steps of a packing that ended well did.
then_on-ok :
    (r : Result IoError (Unit {0}) × SixCyWriter)
    (next : SixCyWriter → Result IoError (Unit {0}) × SixCyWriter) (report found : RecoveryReport)
    (w : SixCyWriter)
    → with_report report (then_on r (λ _ v. next v)) ≡ (ok found, w)
    → (r ≡ (ok tt, r.1)) × (next r.1 ≡ (ok tt, w)) × (report ≡ found)
then_on-ok (err x, v) next report found w e = cc (ap (λ p. p.0) e)
then_on-ok (ok u, v) next report found w e =
    let (finished, same) = step (next v) e in (refl, finished, same)
  where
    step :
        (q : Result IoError (Unit {0}) × SixCyWriter)
        → with_report report q ≡ (ok found, w)
        → (q ≡ (ok tt, w)) × (report ≡ found)
    step (ok u, v) e = (ap (λ p. (ok tt, p.1)) e, ok_injective (ap (λ p. p.0) e))
    step (err x, v) e = cc (ap (λ p. p.0) e)

singles-IsPackable :
    (P : Bytes → Type 0) (n : ℕ) (files : List (ℕ × Bytes))
    → All (λ f. All P (chunks n f.1)) files
    → All (IsPackable P n) (singles files)
singles-IsPackable P n [] h = tt
singles-IsPackable P n (f ∷ fs) h = (h.0, singles-IsPackable P n fs h.1)

length-singles : (files : List (ℕ × Bytes)) → length (all_contents (singles files)) ≡ length files
length-singles [] = refl
length-singles (f ∷ fs) = omega (arith, length-singles fs)

singles_at :
    (files : List (ℕ × Bytes)) (n fid : ℕ) (contents : Bytes)
    → get_elem? files n ≡ some (fid, contents)
    → (get_elem? (all_names (singles files)) n ≡ some (recovered_name fid))
      × (get_elem? (all_contents (singles files)) n ≡ some contents)
singles_at [] n fid contents at = cc at
singles_at (f ∷ fs) zero fid contents at =
    let e : f ≡ (fid, contents) = some_injective at in
    (ap (λ g. some (recovered_name g.0)) e, ap (λ g. some g.1) e)
singles_at (f ∷ fs) (suc n) fid contents at = singles_at fs n fid contents at

module _ (L : Libs) (hashes : IsHashes L) (lossless : IsLossless L) (aead : IsAead L) (J : Json)
    (json : IsJson J) (H : Host) (nonces : (n : ℕ) → length (H.nonce n) ≡ 12)
    (P : Bytes → Type 0) where
  -- The new archive, opened: its files and their names.
  reopened :
      (free : (a b : Bytes) → P a → P b → L.blake3 a ≡ L.blake3 b → a ≡ b)
      (src archive_uuid : Bytes) (key : Option Bytes) (report : RecoveryReport) (w : SixCyWriter)
      → length archive_uuid ≡ 16
      → extract_recoverable L J H src blank archive_uuid key ≡ done (ok report, w)
      → length (salvaged L src key report.block_log) < 2 ^ 32
      → All (λ f. All P (chunks target_chunk f.1)) (salvaged L src key report.block_log)
      → length w.writer.bytes < 2 ^ 32
      → (r : SixCyReader) × (with_key L J w.writer.bytes none ≡ ok r)
        × ((n fid : ℕ) (contents : Bytes)
            → get_elem? (salvaged L src key report.block_log) n ≡ some (fid, contents)
            → (get_elem? (names r.index.records) n ≡ some (recovered_name fid))
              × (unpack_file L r n ≡ ok contents))
  unfolding with_options salvaged
  reopened free src archive_uuid key report w width e few cut small =
      let (found, scanned, same) = rebuilt L J H src archive_uuid key in
      let files : List (ℕ × Bytes) = salvaged L src key report.block_log in
      let new : SixCyWriter =
        with_options blank archive_uuid target_chunk default_compression_level none in
      let (_, _, reported) =
        then_on-ok (pack L H (singles (salvaged L src key found.block_log)) new)
          (λ v. finalize L J H v) found report w (done_injective (sym same ∙ e)) in
      let packing = pack L H (singles files) new in
      let (packed, finalized, _) =
        then_on-ok packing (λ v. finalize L J H v) report report w
          (subst
            (λ r.
              with_report r (repacked L J H (salvaged L src key r.block_log) archive_uuid)
              ≡ (ok report, w))
            reported (done_injective (sym same ∙ e))) in
      let bytes : (finalize L J H packing.1).1.writer.bytes ≡ w.writer.bytes =
        ap (λ p. p.1.writer.bytes) finalized in
      let success : (finalize L J H packing.1).0 ≡ ok tt = ap (λ p. p.0) finalized in
      let below : length (finalize L J H packing.1).1.writer.bytes < 2 ^ 32 = rw bytes small in
      let a =
        packed-Archive L hashes lossless aead J json H nonces none P free archive_uuid target_chunk
          default_compression_level (singles files) packing.1 width (rw (length-singles files) few)
          (singles-IsPackable P target_chunk files cut) packed success below in
      let labels = pack-Labels L H (singles files) new (ap (λ p. p.0) packed) in
      let (r, rest, opens, front, same_uuid, records, whole) =
        Archive-opened L hashes lossless aead J json H nonces none P target_chunk
          (all_contents (singles files)) packing.1 a success below in
      (
        r,
        subst (λ b. with_key L J b none ≡ ok r) bytes opens,
        λ n fid contents at.
            let (named, stored) = singles_at files n fid contents at in
            (
              ap (λ l. get_elem? l n) (ap names records ∙ labels.named) ∙ named,
              (whole n contents stored).0,
            ),
      )

  -- For lossless compressors, AES-GCM's own law, 32-byte hashes of which no two chunks that satisfy
  -- `P` share one, an index that its JSON gives back, and 12-byte nonces: whatever the bytes of the
  -- damaged archive are, if `extract_recoverable` reports success, there are fewer than 2^32
  -- recovered files, their chunks satisfy `P`, and the new archive is below 4 GiB, then the new
  -- archive opens without a key, and for every file number of which the log has a usable DATA
  -- block, either there are no data, or a file of the new archive has the name `recovered_file_`
  -- with the number's eight digits and unpacks to the file's data: those of its usable DATA blocks
  -- that can be decoded, in the order of their file offsets, and of the log for equal ones.
  pub extract_recoverable_roundtrip :
      (free : (a b : Bytes) → P a → P b → L.blake3 a ≡ L.blake3 b → a ≡ b)
      (src archive_uuid : Bytes) (key : Option Bytes) (report : RecoveryReport) (w : SixCyWriter)
      (fid : ℕ)
      → length archive_uuid ≡ 16
      → extract_recoverable L J H src blank archive_uuid key ≡ done (ok report, w)
      → length (salvaged L src key report.block_log) < 2 ^ 32
      → All (λ f. All P (chunks target_chunk f.1)) (salvaged L src key report.block_log)
      → length w.writer.bytes < 2 ^ 32
      → blocks_of fid report.block_log ≢ []
      → (r : SixCyReader) × (contents : Bytes) × (with_key L J w.writer.bytes none ≡ ok r)
        × IsFileOf L src key report.block_log fid contents
        × ((contents ≡ [])
            ⊎ ((n : ℕ) × (get_elem? (names r.index.records) n ≡ some (recovered_name fid))
                × (unpack_file L r n ≡ ok contents)))
  extract_recoverable_roundtrip free src archive_uuid key report w fid width e few cut small any =
      let (r, opens, files) = reopened free src archive_uuid key report w width e few cut small in
      elim ((salvaged-IsSalvage L src key report.block_log).complete fid) [
        | inl no_blocks ↦ absurd (any no_blocks)
        | inr (contents, its, inl empty) ↦ (r, contents, opens, its, inl empty)
        | inr (contents, its, inr (n, at)) ↦
            let (named, whole) = files n fid contents at in
            (r, contents, opens, its, inr (n, named, whole))
      ]
