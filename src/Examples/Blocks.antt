-- ===== src/Examples/Blocks.antt =====
-- One encrypted block of two bytes, encoded, written, read and decoded.
use cy.Common.{ℕ, ◌^◌, ◌<◌, ◌≤◌, ◌≡◌, refl, ok, some, pos, [], ◌∷◌, ◌++◌, arith}
use cy.Bytes.{Bytes, IsBytes, to_le_bytes, from_le_bytes, bytes_eq}
use cy.Codec.{CodecId, uuid, uuid_zstd, get_codec, get_codec_by_uuid, from_uuid, zstd_codec}
use cy.Crypto.{encrypt, decrypt}
use cy.Block
use cy.Block.{
  BlockHeader, data_block, IsHeader, body_fields, to_u16, from_u16, validate, is_encrypted,
}
use cy.Block.Laws.{read-write_header}
use cy.Block.Accepted.{sized, read_accepts, write-read}
use cy.Block.Payload.{encode_block, decode_block}
use cy.Block.Payload.Laws.{decode-encode, blake3-decode, encode_block-IsHeader}
use cy.Reader.{read_block_at}
use cy.Writer.Encoded.{Describes, read_block_at-encode_block}
use cy.Examples.{sample, sample-IsHashes, sample-IsLossless, sample-IsAead, nonce, key}

abbrev input : Bytes
input = 7 ∷ 8 ∷ []

abbrev payload : Bytes
payload = nonce ++ 32 ∷ 1 ∷ 7 ∷ 8 ∷ []

abbrev header : BlockHeader
header = record {
  header_version = 1;
  block_type = data_block;
  flags = 1;
  codec_uuid = uuid_zstd;
  file_id = 3;
  file_offset = 4096;
  orig_size = 2;
  comp_size = 16;
  content_hash = to_le_bytes 32 2055;
}

encoded :
    encode_block sample data_block 3 4096 input CodecId.zstd (pos 3) (some key) nonce
    ≡ ok (header, payload)
unfolding encode_block encrypt get_codec_by_uuid get_codec zstd_codec from_uuid uuid bytes_eq
    to_le_bytes from_le_bytes
encoded = refl

decode-encode_example : decode_block sample header payload (some key) ≡ ok input
decode-encode_example =
    decode-encode sample sample-IsLossless sample-IsAead data_block 3 4096 input CodecId.zstd
      (pos 3) (some key) nonce header payload refl encoded

decoded : decode_block sample header payload (some key) ≡ ok input
unfolding decode_block is_encrypted decrypt get_codec_by_uuid get_codec zstd_codec from_uuid uuid
    bytes_eq to_le_bytes from_le_bytes
decoded = refl

blake3-decode_example : sample.blake3 input ≡ header.content_hash
blake3-decode_example = blake3-decode sample header payload (some key) input decoded

header-IsHeader : IsHeader header
header-IsHeader =
    encode_block-IsHeader sample sample-IsHashes data_block 3 4096 input CodecId.zstd (pos 3)
      (some key) nonce header payload (omega arith) (omega arith) encoded

abbrev written : Bytes
written = Block.write sample header ++ payload

read_back : Block.read sample written ≡ ok (header, payload)
read_back = read-write_header sample header header-IsHeader sample-IsHashes payload

read-write_header_example :
    Block.read sample (Block.write sample header ++ payload) ≡ ok (header, payload)
read-write_header_example = read-write_header sample header header-IsHeader sample-IsHashes payload

written-IsBytes : IsBytes written
unfolding Block.write body_fields to_le_bytes to_u16 from_le_bytes
written-IsBytes = omega arith

read_accepts_example :
    (size : ℕ) × (84 ≤ size)
    × (size < 2 ^ 16)
    × (header.header_version ≡ 1)
    × IsHeader header
    × (sized sample size header ++ payload ≡ written)
read_accepts_example = read_accepts sample written header payload written-IsBytes read_back

write-read_example : Block.write sample header ++ payload ≡ written
unfolding Block.write body_fields to_le_bytes to_u16 from_le_bytes
write-read_example = write-read sample written header payload written-IsBytes refl read_back

read_block_at-encode_block_example :
    (read_block_at sample (key ++ ((Block.write sample header ++ payload) ++ input)) 32
      ≡ ok (header, payload))
    × (decode_block sample header payload (some key) ≡ ok input)
    × Describes sample data_block 3 4096 input CodecId.zstd (some key) payload header
read_block_at-encode_block_example =
    read_block_at-encode_block sample sample-IsHashes sample-IsLossless sample-IsAead key input
      data_block 3 4096 input CodecId.zstd (pos 3) (some key) nonce header payload refl
      (omega arith) (omega arith) (omega arith) (omega arith) encoded
