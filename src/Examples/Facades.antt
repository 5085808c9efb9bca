-- ===== src/Examples/Facades.antt =====
-- The archive of `Archives`, through the facade and under a password.
use cy.Common.{
  ◌≡◌, refl, ap, ◌∙◌, some, Option, List, [], ◌∷◌, ◌++◌, ok, pos, codes, false, Text, arith,
}
use cy.Bytes.{Bytes, bytes_eq}
use cy.Codec.{CodecId}
use cy.Crypto.{derive_key}
use cy.Superblock
use cy.Writer.{SixCyWriter, with_options}
use cy.Writer.Finish
use cy.Writer.Labels.{all_names}
use cy.Archive.{
  Archive, PackOptions, Folder, create, finalize, open_with_password, list, read_file, read_at,
  extract_all,
}
use cy.Archive.Filling.{open_for, fill, fill-lifted, finalize-lifted}
use cy.Archive.Reopened.{bytes_of, listed}
use cy.Archive.RoundTrip.{facade_roundtrip, extract_all_roundtrip}
use cy.Examples.{sample, sample-IsHashes, sample-IsLossless, sample-IsAead, key}
use cy.Examples.Serial.{json, json-IsJson}
use cy.Examples.Archives.{
  host, archive_uuid, batches, packed, IsChunk, blank, no_collision, packable, succeeds, below,
}

abbrev opts : PackOptions
opts = record {
  default_codec = CodecId.brotli;
  level = pos 3;
  chunk_size = 2;
  password = some (codes "secret");
}

abbrev path : Text
path = codes "out.6cy"

abbrev new : SixCyWriter
new = with_options blank archive_uuid 2 (pos 3) (some key)

abbrev a0 : Archive
a0 = open_for path CodecId.brotli new

abbrev a1 : Archive
a1 = open_for path CodecId.brotli packed

abbrev a2 : Archive
a2 = open_for path CodecId.brotli (Finish.finalize sample json host packed).1

created : create sample path archive_uuid opts ≡ ok a0
unfolding create derive_key with_options Superblock.new
created = refl

filled : fill sample host batches a0 ≡ (ok tt, a1)
filled = fill-lifted sample host path CodecId.brotli batches new ∙ ap (λ r. (r, a1)) succeeds.0

finalized : finalize sample host json a1 ≡ (ok tt, a2)
finalized =
    finalize-lifted sample host path CodecId.brotli json packed ∙ ap (λ r. (r, a2)) succeeds.1

abbrev disk : Text → Option Bytes
disk p = some (bytes_of a2.mode)

facade_roundtrip_example :
    (a : Archive) × (open_with_password sample json disk path opts.password ≡ ok a)
    × (listed (list a) ≡ all_names batches)
    × (read_file sample a (codes "c") ≡ ok (8 ∷ []))
    × (read_at sample a (codes "c") 0 5 ≡ ok (8 ∷ []))
unfolding bytes_eq
facade_roundtrip_example =
    facade_roundtrip sample sample-IsHashes sample-IsLossless sample-IsAead json json-IsJson host
      (λ n. refl) IsChunk no_collision disk path archive_uuid opts batches a0 a1 a2 refl
      (omega arith) packable created filled finalized below refl 2 0 5 (codes "c") (8 ∷ []) refl
      refl (refl, (refl, tt))

-- A folder as the list of what was created in it.
abbrev pub folder : Folder
folder = record {
  State = List (Text × Bytes);
  exists = λ p s. false;
  create_dir_all = λ p s. (ok tt, s);
  create_file = λ p d s. (ok tt, s ++ (p, d) ∷ []);
  join = λ dest name. dest ++ b'/' ∷ name;
}

extract_all_roundtrip_example :
    (a : Archive) × (open_with_password sample json disk path opts.password ≡ ok a)
    × (extract_all sample folder a (codes "dest") [] ≡ (
      ok tt,
      (codes "dest/a", 1 ∷ 2 ∷ 3 ∷ 4 ∷ [])
          ∷ (codes "dest/b", 5 ∷ 6 ∷ 7 ∷ [])
          ∷ (codes "dest/c", 8 ∷ [])
          ∷ (codes "dest/d", 3 ∷ 4 ∷ 1 ∷ 2 ∷ [])
          ∷ [],
    ))
extract_all_roundtrip_example =
    extract_all_roundtrip sample sample-IsHashes sample-IsLossless sample-IsAead json json-IsJson
      host (λ n. refl) IsChunk no_collision disk path archive_uuid opts batches a0 a1 a2 folder
      (λ p d s. refl) refl (omega arith) packable created filled finalized below refl (codes "dest")
      [] refl
