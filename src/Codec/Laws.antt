-- ===== src/Codec/Laws.antt =====
-- Codec identities are in one-to-one correspondence with their UUIDs and names, and the factory gives
-- the codec that a UUID names (src/codec/mod.rs).
use cy.Common.{
  ◌≡◌, refl, sym, ap, ◌∙◌, subst, ◌↔◌, ◌≢◌, ◌⊎◌, inl, inr, some, ℤ, Text, codes, to_lowercase, ok,
  err, arith, map_err-eq-ok, ok_injective, Option-cases,
}
use cy.Bytes.{Bytes, bytes_eq}
use cy.Bytes.Laws.{bytes_eq→eq}
use cy.Errors.{unavailable_codec}
use cy.Libs.{Libs, IsLossless}
use cy.Codec.{
  CodecId, uuid, from_uuid, name, from_name, uuid_to_string, Codec, get_codec, get_codec_by_uuid,
  none_codec, zstd_codec, lz4_codec, brotli_codec, lzma_codec, uuid_none, uuid_zstd, uuid_lz4,
  uuid_brotli, uuid_lzma,
}

from_uuid-uuid : (c : CodecId) → from_uuid (uuid c) ≡ some c
unfolding from_uuid uuid bytes_eq
from_uuid-uuid CodecId.none = refl
from_uuid-uuid _ = refl

uuid-from_uuid : (u : Bytes) (c : CodecId) → from_uuid u ≡ some c → uuid c ≡ u
unfolding from_uuid uuid
uuid-from_uuid u c h = ground (
  arith,
  bytes_eq→eq u uuid_none,
  bytes_eq→eq u uuid_zstd,
  bytes_eq→eq u uuid_lz4,
  bytes_eq→eq u uuid_brotli,
  bytes_eq→eq u uuid_lzma,
)

-- A UUID resolves to a codec exactly when it is that codec's UUID.
pub from_uuid_iff : (u : Bytes) (c : CodecId) → (from_uuid u ≡ some c) ↔ (uuid c ≡ u)
from_uuid_iff u c = (uuid-from_uuid u c, λ e. rw (← e) (from_uuid-uuid c))

from_name-name : (s : Text) (c : CodecId) → to_lowercase s ≡ name c → from_name s ≡ some c
unfolding from_name name bytes_eq
from_name-name s CodecId.none h = rw h
from_name-name s _ h = rw h

name-from_name : (s : Text) (c : CodecId) → from_name s ≡ some c → to_lowercase s ≡ name c
unfolding from_name name
name-from_name s c h = ground (
  arith,
  bytes_eq→eq (to_lowercase s) (codes "none"),
  bytes_eq→eq (to_lowercase s) (codes "zstd"),
  bytes_eq→eq (to_lowercase s) (codes "lz4"),
  bytes_eq→eq (to_lowercase s) (codes "brotli"),
  bytes_eq→eq (to_lowercase s) (codes "lzma"),
)

-- A name is accepted as a codec's exactly when its lower case is the codec's name.
pub from_name_iff : (s : Text) (c : CodecId) → (from_name s ≡ some c) ↔ (to_lowercase s ≡ name c)
from_name_iff s c = (name-from_name s c, from_name-name s c)

-- `decompress` undoes `compress`.
abbrev IsInverse : Codec → Type 0
IsInverse k = (d e : Bytes) (level : ℤ) → k.compress d level ≡ ok e → k.decompress e ≡ ok d

module _ (L : Libs) where
  -- The factory never fails for a codec of the enum, and gives the codec with that identity.
  pub get_codec_total : (c : CodecId) → (k : Codec) × (get_codec L c ≡ ok k) × (k.codec_id ≡ c)
  unfolding get_codec
  get_codec_total CodecId.none = (_, refl, refl)
  get_codec_total _ = (_, refl, refl)

  pub get_codec_by_uuid-uuid : (c : CodecId) → get_codec_by_uuid L (uuid c) ≡ get_codec L c
  unfolding get_codec_by_uuid
  get_codec_by_uuid-uuid c = rw (from_uuid-uuid c)

  -- By UUID, the factory gives the codec of exactly that UUID, and for a UUID of no codec it gives
  -- the error that prints the UUID: never another codec.
  pub get_codec_by_uuid_cases :
      (u : Bytes)
      → ((k : Codec) × (get_codec_by_uuid L u ≡ ok k) × (uuid k.codec_id ≡ u))
        ⊎ ((get_codec_by_uuid L u ≡ err (unavailable_codec (uuid_to_string u)))
            × ((c : CodecId) → uuid c ≢ u))
  unfolding get_codec_by_uuid
  get_codec_by_uuid_cases u = elim (Option-cases (from_uuid u)) [
    | inl e ↦ inr (rw e, λ c q. cc (e, from_uuid-uuid c, ap from_uuid q))
    | inr (c, e) ↦
        let (k, g, i) = get_codec_total c in inl (k, rw e g, ap uuid i ∙ uuid-from_uuid u c e)
  ]

  module _ (ll : IsLossless L) where
    none-IsInverse : IsInverse none_codec
    unfolding none_codec
    none-IsInverse d e level h = sym h

    zstd-IsInverse : IsInverse (zstd_codec L)
    unfolding zstd_codec
    zstd-IsInverse d e level h = rw (ll.zstd_back d e level (map_err-eq-ok _ _ h))

    lz4-IsInverse : IsInverse (lz4_codec L)
    unfolding lz4_codec
    lz4-IsInverse d e level h = rw (← ok_injective h, ll.lz4_back d)

    brotli-IsInverse : IsInverse (brotli_codec L)
    unfolding brotli_codec
    brotli-IsInverse d e level h = rw (ll.brotli_back d e _ (map_err-eq-ok _ _ h))

    lzma-IsInverse : IsInverse (lzma_codec L)
    unfolding lzma_codec
    lzma-IsInverse d e level h = rw (ll.lzma_back d e (map_err-eq-ok _ _ h))

    get_codec-IsInverse : (c : CodecId) (k : Codec) → get_codec L c ≡ ok k → IsInverse k
    unfolding get_codec
    get_codec-IsInverse CodecId.none k g = subst IsInverse (ok_injective g) none-IsInverse
    get_codec-IsInverse CodecId.zstd k g = subst IsInverse (ok_injective g) zstd-IsInverse
    get_codec-IsInverse CodecId.lz4 k g = subst IsInverse (ok_injective g) lz4-IsInverse
    get_codec-IsInverse CodecId.brotli k g = subst IsInverse (ok_injective g) brotli-IsInverse
    get_codec-IsInverse CodecId.lzma k g = subst IsInverse (ok_injective g) lzma-IsInverse

  -- Where the compressors are lossless: what the codec of an identity compresses, at any level, the
  -- codec that the factory finds by that identity's UUID decompresses to the input.
  pub decompress-compress :
      IsLossless L
      → (c : CodecId) (k k' : Codec) (d e : Bytes) (level : ℤ) → get_codec L c ≡ ok k
      → get_codec_by_uuid L (uuid c) ≡ ok k'
      → k.compress d level ≡ ok e
      → k'.decompress e ≡ ok d
  decompress-compress ll c k k' d e level g g' h =
      let same : k ≡ k' = ok_injective (sym g ∙ sym (get_codec_by_uuid-uuid c) ∙ g') in
      rw (← same) (get_codec-IsInverse ll c k g d e level h)
