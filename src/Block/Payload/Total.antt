-- ===== src/Block/Payload/Total.antt =====
-- `encode_block` of src/block.rs fails only where a compressor or the cipher does.
use cy.Common.{ℕ, ◌≡◌, refl, subst, ℤ, Option, none, some, ok, ok_injective}
use cy.Bytes.{Bytes}
use cy.Libs.{Libs, IsTotal}
use cy.Codec.{
  CodecId, Codec, get_codec, brotli_quality, none_codec, zstd_codec, lz4_codec, brotli_codec,
  lzma_codec,
}
use cy.Codec.Laws.{get_codec_total, get_codec_by_uuid-uuid}
use cy.Crypto.{encrypt}
use cy.Block.{BlockHeader, BlockType}
use cy.Block.Payload.{seal, encode_block}

-- A codec that compresses everything.
abbrev Compresses : Codec → Type 0
Compresses k = (d : Bytes) (level : ℤ) → (e : Bytes) × (k.compress d level ≡ ok e)

module _ (L : Libs) (total : IsTotal L) where
  get_codec-Compresses : (c : CodecId) (k : Codec) → get_codec L c ≡ ok k → Compresses k
  unfolding get_codec none_codec zstd_codec lz4_codec brotli_codec lzma_codec
  get_codec-Compresses CodecId.none k g = subst Compresses (ok_injective g) (λ d level. (d, refl))
  get_codec-Compresses CodecId.zstd k g =
      subst Compresses (ok_injective g)
        (λ d level. let (e, h) = total.zstd_total d level in rw h (_, refl))
  get_codec-Compresses CodecId.lz4 k g =
      subst Compresses (ok_injective g) (λ d level. (L.lz4_compress d, refl))
  get_codec-Compresses CodecId.brotli k g =
      subst Compresses (ok_injective g)
        (λ d level. let (e, h) = total.brotli_total d (brotli_quality level) in rw h (_, refl))
  get_codec-Compresses CodecId.lzma k g =
      subst Compresses (ok_injective g)
        (λ d level. let (e, h) = total.lzma_total d in rw h (_, refl))

  seal_total :
      (key : Option Bytes) (nonce d : Bytes) → (r : Bytes × ℕ) × (seal L key nonce d ≡ ok r)
  unfolding seal encrypt
  seal_total none nonce d = ((d, 0), refl)
  seal_total (some key) nonce d = let (e, h) = total.aes_total key nonce d in rw h (_, refl)

  pub encode_block_total :
      (t : BlockType) (file_id file_offset : ℕ) (input : Bytes) (codec : CodecId) (level : ℤ)
      (key : Option Bytes) (nonce : Bytes)
      → (r : BlockHeader × Bytes) × (encode_block L t file_id file_offset input codec level key
            nonce
          ≡ ok r)
  unfolding encode_block
  encode_block_total t file_id file_offset input codec level key nonce =
      let (k, found, _) = get_codec_total L codec in
      let (c, compressed) = get_codec-Compresses codec k found input level in
      let ((p, f), sealed) = seal_total key nonce c in
      rw (get_codec_by_uuid-uuid L codec, found, compressed, sealed) (_, refl)
