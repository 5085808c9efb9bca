-- ===== src/Codec.antt =====
-- src/codec/mod.rs: codec identities, the built-in codecs behind the `Codec` trait, and the factory.
pub mod Laws
use cy.Common.{
  ℕ, zero, suc, ◌+◌, ◌-◌, ◌/◌, ◌%◌, min, ℤ, pos, negsuc, Option, some, Bool, List, [], ◌∷◌, ◌++◌,
  Text, codes, to_lowercase, Result, ok, err, map_err, ltb, ◌==◌, if◌then◌else◌,
}
use cy.Bytes.{Bytes, bytes_eq}
use cy.Errors.{CodecError, compression, decompression, unavailable_codec, message}
use cy.Libs.{Libs}

abbrev pub uuid_none : Bytes
uuid_none =
    0x00 ∷ 0x00 ∷ 0x00 ∷ 0x00 ∷ 0x00 ∷ 0x00 ∷ 0x00 ∷ 0x00 ∷ 0x00 ∷ 0x00 ∷ 0x00 ∷ 0x00 ∷ 0x00 ∷ 0x00
    ∷ 0x00 ∷ 0x00 ∷ []

abbrev pub uuid_zstd : Bytes
uuid_zstd =
    0x4f ∷ 0x9d ∷ 0x8a ∷ 0xb2 ∷ 0x3c ∷ 0x5e ∷ 0x1b ∷ 0x4a ∷ 0x8f ∷ 0x2e ∷ 0x7c ∷ 0x6d ∷ 0x9b ∷ 0x0e
    ∷ 0x1a ∷ 0x2f ∷ []

abbrev pub uuid_lz4 : Bytes
uuid_lz4 =
    0x8e ∷ 0x2c ∷ 0x7b ∷ 0x3f ∷ 0x4d ∷ 0x1a ∷ 0x9f ∷ 0x4e ∷ 0xb6 ∷ 0xc3 ∷ 0x5d ∷ 0x8a ∷ 0x2f ∷ 0x7e
    ∷ 0x0b ∷ 0x1c ∷ []

abbrev pub uuid_brotli : Bytes
uuid_brotli =
    0x3a ∷ 0x5f ∷ 0x1e ∷ 0x9c ∷ 0x2d ∷ 0x7b ∷ 0x8e ∷ 0x4c ∷ 0xa5 ∷ 0xf1 ∷ 0x2e ∷ 0x6b ∷ 0x9d ∷ 0x0c
    ∷ 0x3a ∷ 0x7f ∷ []

abbrev pub uuid_lzma : Bytes
uuid_lzma =
    0x1c ∷ 0x2e ∷ 0x8f ∷ 0x4a ∷ 0x3d ∷ 0x9b ∷ 0x7a ∷ 0x4f ∷ 0xc2 ∷ 0xe8 ∷ 0x6d ∷ 0x5b ∷ 0x1a ∷ 0x0f
    ∷ 0x3c ∷ 0x9e ∷ []

pub data CodecId : Type 0 where
  none zstd lz4 brotli lzma : CodecId

unfoldable pub uuid : CodecId → Bytes
uuid CodecId.none = uuid_none
uuid CodecId.zstd = uuid_zstd
uuid CodecId.lz4 = uuid_lz4
uuid CodecId.brotli = uuid_brotli
uuid CodecId.lzma = uuid_lzma

-- `ShortId(n)` is the number `n`.
pub short_id : CodecId → ℕ
short_id CodecId.none = 0
short_id CodecId.zstd = 1
short_id CodecId.lz4 = 2
short_id CodecId.brotli = 3
short_id CodecId.lzma = 4

unfoldable pub from_uuid : Bytes → Option CodecId
from_uuid u =
    if bytes_eq u uuid_none
    then some CodecId.none
    else if bytes_eq u uuid_zstd
    then some CodecId.zstd
    else if bytes_eq u uuid_lz4
    then some CodecId.lz4
    else if bytes_eq u uuid_brotli
    then some CodecId.brotli
    else if bytes_eq u uuid_lzma
    then some CodecId.lzma
    else Option.none

-- `==` of the derived `PartialEq`, which compares the variants.
unfoldable pub codec_eq : CodecId → CodecId → Bool
unfolding short_id
codec_eq a b = short_id a == short_id b

unfoldable pub name : CodecId → Text
name CodecId.none = codes "none"
name CodecId.zstd = codes "zstd"
name CodecId.lz4 = codes "lz4"
name CodecId.brotli = codes "brotli"
name CodecId.lzma = codes "lzma"

unfoldable pub from_name : Text → Option CodecId
from_name s =
    let low = to_lowercase s in
    if bytes_eq low (codes "none")
    then some CodecId.none
    else if bytes_eq low (codes "zstd")
    then some CodecId.zstd
    else if bytes_eq low (codes "lz4")
    then some CodecId.lz4
    else if bytes_eq low (codes "brotli")
    then some CodecId.brotli
    else if bytes_eq low (codes "lzma")
    then some CodecId.lzma
    else Option.none

unfoldable pub hex_digit : ℕ → ℕ
hex_digit d = if ltb d 10 then b'0' + d else b'a' + (d - 10)

-- `{:02x}` of the byte at an index
hex_at : Bytes → ℕ → Text
unfolding hex_digit
hex_at [] i = []
hex_at (b ∷ bs) zero = hex_digit (b / 16) ∷ hex_digit (b % 16) ∷ []
hex_at (b ∷ bs) (suc i) = hex_at bs i

hex_each : Bytes → List ℕ → Text
unfolding hex_at
hex_each u [] = []
hex_each u (i ∷ is) = hex_at u i ++ hex_each u is

abbrev dash : Text
dash = b'-' ∷ []

unfoldable pub uuid_to_string : Bytes → Text
unfolding hex_each
uuid_to_string u =
    hex_each u (3 ∷ 2 ∷ 1 ∷ 0 ∷ [])
    ++ dash
    ++ hex_each u (5 ∷ 4 ∷ [])
    ++ dash
    ++ hex_each u (7 ∷ 6 ∷ [])
    ++ dash
    ++ hex_each u (8 ∷ 9 ∷ [])
    ++ dash
    ++ hex_each u (10 ∷ 11 ∷ 12 ∷ 13 ∷ 14 ∷ 15 ∷ [])

unfoldable pub uuid_str : CodecId → Text
unfolding uuid uuid_to_string
uuid_str c = uuid_to_string (uuid c)

-- The trait `Codec`: a value of it is what `Box<dyn Codec>` holds.
pub record Codec : Type 0 where
  pub codec_id : CodecId
  pub compress : Bytes → ℤ → Result CodecError Bytes
  pub decompress : Bytes → Result CodecError Bytes

abbrev compression_message : Text → CodecError
compression_message e = compression (message e)

abbrev decompression_message : Text → CodecError
decompression_message e = decompression (message e)

unfoldable pub none_codec : Codec
none_codec = record { codec_id = CodecId.none; compress = λ d level. ok d; decompress = λ d. ok d }

-- `level.clamp(0, 11) as u32`
unfoldable pub brotli_quality : ℤ → ℕ
brotli_quality (pos n) = min n 11
brotli_quality (negsuc n) = 0

module _ (L : Libs) where
  unfoldable pub zstd_codec : Codec
  zstd_codec = record {
    codec_id = CodecId.zstd;
    compress = λ d level. map_err compression_message (L.zstd_encode_all d level);
    decompress = λ d. map_err decompression_message (L.zstd_decode_all d);
  }

  unfoldable pub lz4_codec : Codec
  lz4_codec = record {
    codec_id = CodecId.lz4;
    compress = λ d level. ok (L.lz4_compress d);
    decompress = λ d. map_err decompression_message (L.lz4_decompress d);
  }

  unfoldable pub brotli_codec : Codec
  unfolding brotli_quality
  brotli_codec = record {
    codec_id = CodecId.brotli;
    compress = λ d level. map_err compression_message (L.brotli_write (brotli_quality level) d);
    decompress = λ d. map_err decompression_message (L.brotli_read d);
  }

  unfoldable pub lzma_codec : Codec
  lzma_codec = record {
    codec_id = CodecId.lzma;
    compress = λ d level. map_err compression_message (L.lzma_compress d);
    decompress = λ d. map_err decompression_message (L.lzma_decompress d);
  }

  unfoldable pub get_codec : CodecId → Result CodecError Codec
  unfolding none_codec zstd_codec lz4_codec brotli_codec lzma_codec
  get_codec CodecId.none = ok none_codec
  get_codec CodecId.zstd = ok zstd_codec
  get_codec CodecId.lz4 = ok lz4_codec
  get_codec CodecId.brotli = ok brotli_codec
  get_codec CodecId.lzma = ok lzma_codec

  codec_or_unavailable : Bytes → Option CodecId → Result CodecError Codec
  codec_or_unavailable u (some c) = get_codec c
  codec_or_unavailable u Option.none = err (unavailable_codec (uuid_to_string u))

  unfoldable pub get_codec_by_uuid : Bytes → Result CodecError Codec
  unfolding codec_or_unavailable
  get_codec_by_uuid u = codec_or_unavailable u (from_uuid u)
