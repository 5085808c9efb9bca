-- ===== src/Block/Payload/Laws.antt =====
-- `decode_block` undoes `encode_block`, and never returns data of another hash (src/block.rs).
use cy.Common.{
  ℕ, ◌%◌, ◌^◌, ◌<◌, ◌≡◌, refl, sym, ap, ◌∙◌, subst, ℤ, Bool, true, false, Option, none, some, ok,
  arith, length, >>=-eq-ok, map_err, map_err-eq-ok, ok_injective,
}
use cy.Bytes.{Bytes, IsBytes, bytes_eq}
use cy.Bytes.Laws.{bytes_eq_refl, bytes_eq→eq}
use cy.Libs.{Libs, IsHashes, IsLossless, IsAead}
use cy.Io.{require}
use cy.Codec.{CodecId, Codec, uuid, get_codec_by_uuid}
use cy.Codec.Laws.{decompress-compress, get_codec_by_uuid-uuid}
use cy.Crypto.{encrypt}
use cy.Crypto.Laws.{decrypt-encrypt}
use cy.Block.{BlockHeader, BlockType, IsHeader, is_encrypted}
use cy.Block.Payload.{seal, unseal, encode_block, decode_block}

-- The header that `encode_block` builds, given the flags and the payload.
abbrev pub header_for : BlockType → ℕ → ℕ → Bytes → Bytes → CodecId → ℕ → Bytes → BlockHeader
header_for block_type file_id file_offset input hash codec flags payload = record {
  header_version = 1;
  block_type = block_type;
  flags = flags;
  codec_uuid = uuid codec;
  file_id = file_id;
  file_offset = file_offset;
  orig_size = length input % 2 ^ 32;
  comp_size = length payload % 2 ^ 32;
  content_hash = hash;
}

module _ (L : Libs) (block_type : BlockType) (file_id file_offset : ℕ) (input : Bytes)
    (codec : CodecId) (level : ℤ) (key : Option Bytes) (nonce : Bytes) (h : BlockHeader)
    (payload : Bytes) where
  -- What a successful `encode_block` has done.
  pub record Encoded : Type 0 where
    pub compressed : Bytes
    pub flags : ℕ
    pub codec_impl : Codec
    pub found : get_codec_by_uuid L (uuid codec) ≡ ok codec_impl
    pub compressed_by : codec_impl.compress input level ≡ ok compressed
    pub sealed : seal L key nonce compressed ≡ ok (payload, flags)
    pub header :
        header_for block_type file_id file_offset input (L.blake3 input) codec flags payload ≡ h

  pub encode_block-eq-ok :
      encode_block L block_type file_id file_offset input codec level key nonce ≡ ok (h, payload)
      → Encoded
  unfolding encode_block
  encode_block-eq-ok e =
      let (k, found, e1) = >>=-eq-ok (get_codec_by_uuid L (uuid codec)) _ e in
      let (c, compressed_by, e2) = >>=-eq-ok (k.compress input level) _ e1 in
      let ((p, f), sealed, e3) = >>=-eq-ok (seal L key nonce c) _ e2 in
      let q = ok_injective e3 in
      let same : p ≡ payload = ap (λ x. x.1) q in
      let make : Bytes → BlockHeader =
        header_for block_type file_id file_offset input (L.blake3 input) codec f in
      record {
        compressed = c;
        flags = f;
        codec_impl = k;
        found = found;
        compressed_by = compressed_by;
        sealed = sealed ∙ ap (λ x. ok (x, f)) same;
        header = ap make (sym same) ∙ ap (λ x. x.0) q;
      }

require-eq-ok : {E : Type 0} (b : Bool) (e : E) {u : Unit {0}} → require b e ≡ ok u → b ≡ true
require-eq-ok true e h = refl
require-eq-ok false e h = cc

length-uuid : (c : CodecId) → length (uuid c) ≡ 16
unfolding uuid
length-uuid CodecId.none = refl
length-uuid _ = refl

uuid-IsBytes : (c : CodecId) → IsBytes (uuid c)
unfolding uuid
uuid-IsBytes CodecId.none = omega arith
uuid-IsBytes _ = omega arith

module _ (L : Libs) where
  seal-flags :
      (key : Option Bytes) (nonce compressed payload : Bytes) (flags : ℕ)
      → seal L key nonce compressed ≡ ok (payload, flags)
      → flags < 2 ^ 16
  unfolding seal
  seal-flags none nonce compressed payload flags e = omega (arith, ap (λ x. x.1) (ok_injective e))
  seal-flags (some key) nonce compressed payload flags e =
      let (s, sealed, e') = >>=-eq-ok (map_err _ (encrypt L key nonce compressed)) _ e in
      omega (arith, ap (λ x. x.1) (ok_injective e'))

  unseal-seal :
      IsAead L
      → (key : Option Bytes) (nonce compressed payload : Bytes) (flags : ℕ) (h : BlockHeader)
      → length nonce ≡ 12
      → seal L key nonce compressed ≡ ok (payload, flags)
      → h.flags ≡ flags
      → unseal L (is_encrypted h) key payload ≡ ok compressed
  unfolding seal unseal is_encrypted
  unseal-seal aead none nonce compressed payload flags h hn e f =
      let q = ok_injective e in rw (f, ← ap (λ x. x.1) q, ap (λ x. x.0) q)
  unseal-seal aead (some key) nonce compressed payload flags h hn e f =
      let (s, sealed, e') = >>=-eq-ok (map_err _ (encrypt L key nonce compressed)) _ e in
      let q = ok_injective e' in
      rw (
        f,
        ← ap (λ x. x.1) q,
        ← ap (λ x. x.0) q,
        decrypt-encrypt L aead key nonce compressed s hn (map_err-eq-ok _ _ sealed),
      )

  decode_with :
      (h : BlockHeader) (payload : Bytes) (key : Option Bytes) (compressed input : Bytes)
      (k : Codec)
      → unseal L (is_encrypted h) key payload ≡ ok compressed
      → get_codec_by_uuid L h.codec_uuid ≡ ok k
      → k.decompress compressed ≡ ok input
      → L.blake3 input ≡ h.content_hash
      → decode_block L h payload key ≡ ok input
  unfolding decode_block
  decode_with h payload key compressed input k opened found out same =
      rw (opened, found, out, same, bytes_eq_refl h.content_hash)

  -- With lossless compressors and AES-GCM's own law: a block that `encode_block` produced, with a
  -- key and a 12-byte nonce or without a key, is decoded under the same key to the input.
  pub decode-encode :
      IsLossless L
      → IsAead L
      → (block_type : BlockType) (file_id file_offset : ℕ) (input : Bytes) (codec : CodecId)
        (level : ℤ) (key : Option Bytes) (nonce : Bytes) (h : BlockHeader) (payload : Bytes)
      → length nonce ≡ 12
      → encode_block L block_type file_id file_offset input codec level key nonce ≡ ok (h, payload)
      → decode_block L h payload key ≡ ok input
  decode-encode ll aead block_type file_id file_offset input codec level key nonce h payload hn e =
      let r =
        encode_block-eq-ok L block_type file_id file_offset input codec level key nonce h payload
          e in
      decode_with h payload key r.compressed input r.codec_impl
        (unseal-seal aead key nonce r.compressed payload r.flags h hn r.sealed
          (ap (λ x. x.flags) (sym r.header)))
        (ap (λ x. get_codec_by_uuid L x.codec_uuid) (sym r.header) ∙ r.found)
        (decompress-compress L ll codec r.codec_impl r.codec_impl input r.compressed level
          (sym (get_codec_by_uuid-uuid L codec) ∙ r.found) r.found r.compressed_by)
        (ap (λ x. x.content_hash) r.header)

  -- Whatever block is decoded, with whatever key: the data returned has the hash that the header
  -- names.
  pub blake3-decode :
      (h : BlockHeader) (payload : Bytes) (key : Option Bytes) (out : Bytes)
      → decode_block L h payload key ≡ ok out
      → L.blake3 out ≡ h.content_hash
  unfolding decode_block
  blake3-decode h payload key out e =
      let (c, _, e1) = >>=-eq-ok (unseal L (is_encrypted h) key payload) _ e in
      let (k, _, e2) = >>=-eq-ok (get_codec_by_uuid L h.codec_uuid) _ e1 in
      let (d, _, e3) = >>=-eq-ok (k.decompress c) _ e2 in
      let (u, checked, e4) = >>=-eq-ok (require (bytes_eq (L.blake3 d) h.content_hash) _) _ e3 in
      rw (← ok_injective e4) (bytes_eq→eq _ _ (require-eq-ok _ _ checked))

  -- With 32-byte hashes: for a file number and a file offset in the ranges of their types, the
  -- header of an encoded block has all its values in the ranges of its fields.
  pub encode_block-IsHeader :
      IsHashes L
      → (block_type : BlockType) (file_id file_offset : ℕ) (input : Bytes) (codec : CodecId)
        (level : ℤ) (key : Option Bytes) (nonce : Bytes) (h : BlockHeader) (payload : Bytes)
      → file_id < 2 ^ 32
      → file_offset < 2 ^ 64
      → encode_block L block_type file_id file_offset input codec level key nonce ≡ ok (h, payload)
      → IsHeader h
  encode_block-IsHeader hashes block_type file_id file_offset input codec level key nonce h payload
        fi fo e =
      let r =
        encode_block-eq-ok L block_type file_id file_offset input codec level key nonce h payload
          e in
      subst IsHeader r.header (record {
        flags_u16 = seal-flags key nonce r.compressed payload r.flags r.sealed;
        uuid_width = length-uuid codec;
        uuid_bytes = uuid-IsBytes codec;
        file_id_u32 = fi;
        file_offset_u64 = fo;
        orig_size_u32 = omega arith;
        comp_size_u32 = omega arith;
        hash_width = hashes.length-blake3 input;
        hash_bytes = hashes.blake3-IsBytes input;
      })
