-- ===== src/Examples/Codecs.antt =====
-- The factory, the names and the cipher at concrete inputs.
use cy.Common.{◌≡◌, refl, ◌↔◌, ◌⊎◌, ◌≢◌, ok, err, some, pos, [], ◌∷◌, codes, to_lowercase}
use cy.Bytes.{bytes_eq}
use cy.Errors.{unavailable_codec}
use cy.Codec.{
  CodecId, Codec, uuid, from_uuid, name, from_name, uuid_lz4, uuid_to_string, uuid_str, zstd_codec,
  get_codec, get_codec_by_uuid, hex_digit,
}
use cy.Codec.Laws.{decompress-compress, from_uuid_iff, from_name_iff, get_codec_by_uuid_cases}
use cy.Crypto.{encrypt, decrypt}
use cy.Crypto.Laws.{decrypt-encrypt}
use cy.Examples.{sample, sample-IsLossless, sample-IsAead, nonce, key}

-- The text of the Zstd UUID, its first three groups as little-endian numbers.
uuid_str_zstd : uuid_str CodecId.zstd ≡ codes "b28a9d4f-5e3c-4a1b-8f2e-7c6d9b0e1a2f"
unfolding uuid_str uuid_to_string hex_digit uuid
uuid_str_zstd = refl

from_name_mixed_case : from_name (codes "LZ4") ≡ some CodecId.lz4
unfolding from_name bytes_eq to_lowercase
from_name_mixed_case = refl

from_uuid_iff_example : (from_uuid uuid_lz4 ≡ some CodecId.lz4) ↔ (uuid CodecId.lz4 ≡ uuid_lz4)
from_uuid_iff_example = from_uuid_iff uuid_lz4 CodecId.lz4

from_name_iff_example :
    (from_name (codes "LZ4") ≡ some CodecId.lz4) ↔ (to_lowercase (codes "LZ4") ≡ name CodecId.lz4)
from_name_iff_example = from_name_iff (codes "LZ4") CodecId.lz4

get_codec_by_uuid_cases_example :
    ((k : Codec) × (get_codec_by_uuid sample (1 ∷ []) ≡ ok k) × (uuid k.codec_id ≡ 1 ∷ []))
    ⊎ ((get_codec_by_uuid sample (1 ∷ []) ≡ err (unavailable_codec (uuid_to_string (1 ∷ []))))
        × ((c : CodecId) → uuid c ≢ (1 ∷ [])))
get_codec_by_uuid_cases_example = get_codec_by_uuid_cases sample (1 ∷ [])

decompress-compress_example : (zstd_codec sample).decompress (1 ∷ 7 ∷ 8 ∷ []) ≡ ok (7 ∷ 8 ∷ [])
unfolding get_codec get_codec_by_uuid zstd_codec from_uuid uuid bytes_eq
decompress-compress_example =
    decompress-compress sample sample-IsLossless CodecId.zstd (zstd_codec sample)
      (zstd_codec sample) (7 ∷ 8 ∷ []) (1 ∷ 7 ∷ 8 ∷ []) (pos 3) refl refl refl

decrypt-encrypt_example :
    decrypt sample key (9 ∷ 9 ∷ 9 ∷ 9 ∷ 9 ∷ 9 ∷ 9 ∷ 9 ∷ 9 ∷ 9 ∷ 9 ∷ 9 ∷ 32 ∷ 1 ∷ 2 ∷ [])
    ≡ ok (1 ∷ 2 ∷ [])
unfolding encrypt
decrypt-encrypt_example =
    decrypt-encrypt sample sample-IsAead key nonce (1 ∷ 2 ∷ [])
      (9 ∷ 9 ∷ 9 ∷ 9 ∷ 9 ∷ 9 ∷ 9 ∷ 9 ∷ 9 ∷ 9 ∷ 9 ∷ 9 ∷ 32 ∷ 1 ∷ 2 ∷ []) refl refl
