-- ===== src/Superblock/Parts.antt =====
-- The parts of a written superblock of src/superblock.rs, and the parse of a buffer from the values at
-- its fields.
use cy.Common.{
  ℕ, ◌+◌, ◌-◌, ◌*◌, ◌≤◌, ◌≡◌, refl, sym, ap, ◌∙◌, ◌↔◌, some, List, [], ◌∷◌, ◌++◌, append_assoc,
  append-nil, ok, arith, ==-refl, le→leb, length, take, drop, replicate, All, length-append,
  take-append_exact, drop-append_exact, drop-drop, inl, inr, Option-cases,
}
use cy.Bytes.{Bytes, to_le_bytes, from_le_bytes, slice}
use cy.Bytes.Laws.{length-to_le_bytes, bytes_eq_refl}
use cy.Bytes.Layout.{concat, concat-append}
use cy.Libs.{Libs}
use cy.Codec.{CodecId, from_uuid}
use cy.Superblock.{Superblock, covered_fields, codec_uuids, check_codecs, parse, magic_bytes}

-- The UUIDs that this build has a codec for.
abbrev pub IsKnown : Bytes → Type 0
IsKnown u = (c : CodecId) × (from_uuid u ≡ some c)

pub check_codecs-known : (us : List Bytes) → All IsKnown us → check_codecs us ≡ ok tt
unfolding check_codecs
check_codecs-known [] h = refl
check_codecs-known (u ∷ us) ((c, e), h) = rw (e, check_codecs) (check_codecs-known us h)

IsKnown-check_codecs : (us : List Bytes) → check_codecs us ≡ ok tt → All IsKnown us
unfolding check_codecs
IsKnown-check_codecs [] h = tt
IsKnown-check_codecs (u ∷ us) h = elim (Option-cases (from_uuid u)) [
  | inl e ↦ cc (e, h)
  | inr (c, e) ↦ ((c, e), IsKnown-check_codecs us (rw (e, check_codecs) at h))
]

-- The check of the required codecs passes exactly if this build has a codec for every listed UUID.
pub check_codecs_iff : (us : List Bytes) → (check_codecs us ≡ ok tt) ↔ All IsKnown us
check_codecs_iff us = (IsKnown-check_codecs us, check_codecs-known us)

-- The UUIDs of the list, read one by one at their offsets.
pub codec_uuids-concat :
    (us : List Bytes) (i : ℕ) (buf rest : Bytes)
    → All (λ u. length u ≡ 16) us
    → drop (46 + i * 16) buf ≡ concat us ++ rest
    → codec_uuids (length us) i buf ≡ us
unfolding codec_uuids
codec_uuids-concat [] i buf rest h e = refl
codec_uuids-concat (u ∷ us) i buf rest (hu, h) e =
    let w : 46 + i * 16 + 16 - (46 + i * 16) ≡ 16 = omega arith in
    let next : 46 + (i + 1) * 16 ≡ 46 + i * 16 + 16 = omega arith in
    let e' : drop (46 + i * 16) buf ≡ u ++ (concat us ++ rest) =
      e ∙ append_assoc u (concat us) rest in
    let tail : drop (46 + (i + 1) * 16) buf ≡ concat us ++ rest =
      rw (next, ← drop-drop (46 + i * 16) 16 buf, e')
        (drop-append_exact u (concat us ++ rest) 16 hu) in
    rw (
      w,
      e',
      take-append_exact u (concat us ++ rest) 16 hu,
      codec_uuids-concat us (i + 1) buf rest h tail,
    )

pub length-concat_uuids :
    (us : List Bytes) → All (λ u. length u ≡ 16) us → length (concat us) ≡ length us * 16
length-concat_uuids [] h = refl
length-concat_uuids (u ∷ us) (hu, h) =
    omega (arith, length-append u (concat us), length-concat_uuids us h, hu)

-- The parse of a buffer, from the values at its fields.
pub parse_with :
    (L : Libs) (buf u : Bytes) (us : List Bytes) (v f o s n : ℕ)
    → slice 0 4 buf ≡ magic_bytes
    → from_le_bytes (slice 4 8 buf) ≡ v
    → 3 ≤ v
    → slice 8 24 buf ≡ u
    → from_le_bytes (slice 24 28 buf) ≡ f
    → from_le_bytes (slice 28 36 buf) ≡ o
    → from_le_bytes (slice 36 44 buf) ≡ s
    → from_le_bytes (slice 44 46 buf) ≡ n
    → n ≤ 12
    → codec_uuids n 0 buf ≡ us
    → All IsKnown us
    → from_le_bytes (slice (46 + n * 16) (46 + n * 16 + 4) buf) ≡ L.crc32 (take (46 + n * 16) buf)
    → parse L buf
      ≡ ok (record {
        magic = magic_bytes;
        format_version = v;
        archive_uuid = u;
        flags = f;
        index_offset = o;
        index_size = s;
        required_codec_uuids = us;
      })
unfolding parse
parse_with L buf u us v f o s n em ev hv eu ef eo es en room eus known ec = rw (
  em,
  bytes_eq_refl magic_bytes,
  ev,
  le→leb 3 v hv,
  en,
  le→leb (46 + n * 16 + 4) 256 (omega arith),
  ec,
  ==-refl (L.crc32 (take (46 + n * 16) buf)),
  eus,
  check_codecs-known us known,
  eu,
  ef,
  eo,
  es,
)

module _ (L : Libs) (sb : Superblock) where
  abbrev pub uuids : List Bytes
  uuids = sb.required_codec_uuids

  unfoldable pub head_fields : List Bytes
  head_fields =
      sb.magic
      ∷ to_le_bytes 4 sb.format_version
      ∷ sb.archive_uuid
      ∷ to_le_bytes 4 sb.flags
      ∷ to_le_bytes 8 sb.index_offset
      ∷ to_le_bytes 8 sb.index_size
      ∷ to_le_bytes 2 (length uuids)
      ∷ []

  unfoldable pub covered : Bytes
  covered = concat (covered_fields sb)

  unfoldable pub crc_field : Bytes
  crc_field = to_le_bytes 4 (L.crc32 covered)

  unfoldable pub padding : Bytes
  padding = replicate (256 - length (covered ++ crc_field)) 0

  unfoldable pub block : Bytes
  block = (covered ++ crc_field) ++ padding

  unfoldable pub tail_field : Bytes
  tail_field = concat uuids ++ (crc_field ++ padding)

  unfoldable pub all_fields : List Bytes
  all_fields = head_fields ++ tail_field ∷ []

  pub covered-split : covered ≡ concat head_fields ++ concat uuids
  unfolding covered covered_fields head_fields
  covered-split = concat-append head_fields uuids

  pub block-covered : block ≡ covered ++ (crc_field ++ padding)
  unfolding block
  block-covered = append_assoc covered crc_field padding

  pub block-split : block ≡ concat head_fields ++ tail_field
  unfolding tail_field
  block-split =
      block-covered
      ∙ rw covered-split (append_assoc (concat head_fields) (concat uuids) (crc_field ++ padding))

  pub block-all : block ≡ concat all_fields
  unfolding all_fields
  block-all =
      block-split
      ∙ sym (
          concat-append head_fields (tail_field ∷ [])
          ∙ ap (λ x. concat head_fields ++ x) (append-nil tail_field))

  pub length-crc : length crc_field ≡ 4
  unfolding crc_field
  length-crc = length-to_le_bytes 4 _

abbrev pub head_widths : List ℕ
head_widths = 4 ∷ 4 ∷ 16 ∷ 4 ∷ 8 ∷ 8 ∷ 2 ∷ []
