-- ===== src/Examples/Rebuilds.antt =====
-- The damaged archive, rebuilt: its one file is opened in the new archive.
use cy.Common.{
  ℕ, ◌^◌, ◌<◌, ◌≡◌, refl, sym, ap, ◌∙◌, subst, get_elem?, none, some, ◌≢◌, ◌⊎◌, List, [], ◌∷◌, Run,
  done, out_of_fuel, Result, ok, length, All, arith,
}
use cy.Bytes.{Bytes}
use cy.Codec.{uuid, get_codec, get_codec_by_uuid, none_codec, zstd_codec, codec_eq, hex_digit}
use cy.Io.{write_all, seek_start}
use cy.Reader.{SixCyReader, with_key, unpack_file}
use cy.Writer.{SixCyWriter, with_options, write_block, flush_solid_session, flush_codec}
use cy.Writer.Files.{
  chunks, chunks_fuel, find_known, reuse_block, store_chunk, new_chunk, add_chunk, add_chunks,
  new_record, push_record, finish_file, add_normal, add_file,
}
use cy.Writer.Finish.{patched, write_superblock, write_tail, write_index, finalize}
use cy.Errors.{IoError}
use cy.Block.{is_encrypted}
use cy.Block.Payload.{encode_block, decode_block}
use cy.Crypto.{encrypt}
use cy.Superblock
use cy.Superblock.{covered_fields, pad, add_required_codec, contains}
use cy.Recovery.{ScannedBlock, RecoveryReport, scan, is_usable}
use cy.Recovery.Extract.{
  sort_files, group_log, sort_blocks, recovered_name, read_blocks, rebuild, extract_recoverable,
  with_report,
}
use cy.Recovery.Salvage.{blocks_of, IsFileOf, IsSalvage, salvaged, kept}
use cy.Writer.Labels.{names}
use cy.Recovery.Rebuilt.{
  blank, target_chunk, repacked, extract_recoverable-pack, extract_recoverable_total,
  extract_recoverable_roundtrip,
}
use cy.Examples.{sample, sample-IsHashes, sample-IsLossless, sample-IsAead, sample-IsTotal}
use cy.Examples.Serial.{json, json-IsJson, json-IsWritable}
use cy.Examples.Archives.{host, archive_uuid}
use cy.Examples.Recoveries.{damaged, scan_sample}

extract_recoverable-pack_example :
    (report : RecoveryReport) × (files : List (ℕ × Bytes)) × (scan sample (length damaged) damaged
      ≡ done report)
    × IsSalvage sample damaged none report.block_log files
    × (extract_recoverable sample json host damaged blank archive_uuid none
        ≡ done (with_report report (repacked sample json host files archive_uuid)))
extract_recoverable-pack_example =
    extract_recoverable-pack sample json host damaged archive_uuid none

extract_recoverable_total_example :
    (report : RecoveryReport) × (w : SixCyWriter) × (scan sample (length damaged) damaged
      ≡ done report)
    × (extract_recoverable sample json host damaged blank archive_uuid none ≡ done (ok report, w))
extract_recoverable_total_example =
    extract_recoverable_total sample json host sample-IsTotal json-IsWritable damaged archive_uuid
      none refl

abbrev log_in : Run RecoveryReport → List ScannedBlock
log_in out_of_fuel = []
log_in (done r) = r.block_log

abbrev size_in : Run (Result IoError RecoveryReport × SixCyWriter) → ℕ
size_in out_of_fuel = 0
size_in (done (r, w)) = length w.writer.bytes

abbrev contents : Bytes
contents = 4 ∷ 5 ∷ 1 ∷ 2 ∷ 3 ∷ []

abbrev recovered : List (ℕ × Bytes)
recovered = (7, contents) ∷ []

files : salvaged sample damaged none (log_in (scan sample (length damaged) damaged)) ≡ recovered
unfolding scan_sample salvaged kept sort_files group_log is_usable sort_blocks decode_block
    is_encrypted get_codec_by_uuid get_codec
files = refl

blocks : length (blocks_of 7 (log_in (scan sample (length damaged) damaged))) ≡ 2
unfolding scan_sample is_usable
blocks = refl

small : size_in (extract_recoverable sample json host damaged blank archive_uuid none) < 2 ^ 32
unfolding scan_sample sort_files group_log is_usable sort_blocks decode_block is_encrypted
    get_codec_by_uuid get_codec recovered_name hex_digit extract_recoverable read_blocks rebuild
    add_file add_normal add_chunks add_chunk new_chunk store_chunk finish_file push_record
    new_record reuse_block find_known chunks chunks_fuel encode_block encrypt zstd_codec none_codec
    uuid with_options write_block write_all seek_start finalize write_index write_tail
    write_superblock Superblock.write pad covered_fields patched Superblock.new add_required_codec
    contains codec_eq flush_solid_session flush_codec
small = omega arith

abbrev IsPart : Bytes → Type 0
IsPart c = c ≡ contents

-- The report and the writer of the extraction.
abbrev t :
    (report : RecoveryReport) × (w : SixCyWriter) × (scan sample (length damaged) damaged
      ≡ done report)
    × (extract_recoverable sample json host damaged blank archive_uuid none ≡ done (ok report, w))
t =
    extract_recoverable_total sample json host sample-IsTotal json-IsWritable damaged archive_uuid
      none refl

same : salvaged sample damaged none t.0.block_log ≡ recovered
same = ap (λ x. salvaged sample damaged none (log_in x)) (sym t.2) ∙ files

cut : All (λ f. All IsPart (chunks target_chunk f.1)) recovered
unfolding chunks chunks_fuel
cut = ((refl, tt), tt)

two : length (blocks_of 7 t.0.block_log) ≡ 2
two = ap (λ x. length (blocks_of 7 (log_in x))) (sym t.2) ∙ blocks

any : blocks_of 7 t.0.block_log ≢ []
any none_left =
    let e : length (blocks_of 7 t.0.block_log) ≡ 0 = ap length none_left in omega (arith, two)

extract_recoverable_roundtrip_example :
    (r : SixCyReader) × (c : Bytes) × (with_key sample json t.1.writer.bytes none ≡ ok r)
    × IsFileOf sample damaged none t.0.block_log 7 c
    × ((c ≡ [])
        ⊎ ((n : ℕ) × (get_elem? (names r.index.records) n ≡ some (recovered_name 7))
            × (unpack_file sample r n ≡ ok c)))
extract_recoverable_roundtrip_example =
    extract_recoverable_roundtrip sample sample-IsHashes sample-IsLossless sample-IsAead json
      json-IsJson host (λ n. refl) IsPart (λ a b p q h. p ∙ sym q) damaged archive_uuid none t.0 t.1
      7 refl t.3 (subst (λ l. length l < 2 ^ 32) (sym same) (omega arith))
      (subst (λ l. All (λ f. All IsPart (chunks target_chunk f.1)) l) (sym same) cut)
      (subst (λ x. size_in x < 2 ^ 32) t.3 small) any
