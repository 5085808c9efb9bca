-- ===== src/Superblock/Laws.antt =====
-- `Superblock::write` and `Superblock::read` of src/superblock.rs: sizes, the round trip, and what is
-- accepted.
use cy.Common.{
  some_injective, ℕ, zero, suc, ◌+◌, ◌-◌, ◌*◌, ◌^◌, ◌<◌, ◌≤◌, ◌≡◌, refl, sym, ap, ◌∙◌, ◌⊎◌, false,
  none, some, List, [], ◌∷◌, ◌++◌, ok, arith, ==_iff, ◌==◌, leb, le→leb, leb→le, length, take, drop,
  All, length-append, length-replicate, take-append_exact, drop-append_exact, >>=-eq-ok,
  ok_injective, Bool-cases, inl, inr,
}
use cy.Bytes.{Bytes, to_le_bytes, from_le_bytes, slice, bytes_eq}
use cy.Bytes.Laws.{length-to_le_bytes, from_le_bytes-to_le_bytes, bytes_eq→eq}
use cy.Bytes.Layout.{concat, total, Fits, field_at, width_at, slice-concat, length-concat}
use cy.Libs.{Libs, IsHashes}
use cy.Io.Laws.{read_exact-append, require-then}
use cy.Superblock.Parts.{
  IsKnown, check_codecs_iff, head_fields, covered, crc_field, padding, block, tail_field,
  all_fields, covered-split, block-covered, block-split, block-all, length-crc, codec_uuids-concat,
  length-concat_uuids, parse_with, head_widths,
}
use cy.Superblock.{
  Superblock, HasWidths, IsSuperblock, pad, codec_uuids, check_codecs, write, parse, read,
  magic_bytes,
}

module _ (L : Libs) (sb : Superblock) (valid : HasWidths sb) where
  length-head : length (concat (head_fields L sb)) ≡ 46
  unfolding head_fields
  length-head =
      length-concat head_widths (head_fields L sb)
        (omega (arith, length-to_le_bytes, valid.archive_width, valid.magic_width))

  length-covered : length (covered L sb) ≡ 46 + length sb.required_codec_uuids * 16
  length-covered = rw covered-split (
      omega (
        arith,
        length-append (concat (head_fields L sb)) (concat sb.required_codec_uuids),
        length-head,
        length-concat_uuids sb.required_codec_uuids valid.codecs_width,
      ))

  length-body : length (covered L sb ++ crc_field L sb) ≡ 50 + length sb.required_codec_uuids * 16
  length-body =
      omega (arith, length-append (covered L sb) (crc_field L sb), length-covered, length-crc L sb)

  write_fits : length sb.required_codec_uuids ≤ 12 → write L sb ≡ some (block L sb)
  unfolding write pad block padding crc_field covered
  write_fits h =
      rw (le→leb (length (covered L sb ++ crc_field L sb)) 256 (omega (arith, length-body)))

  write_too_many : 12 < length sb.required_codec_uuids → write L sb ≡ none
  unfolding write pad crc_field covered
  write_too_many h =
      let long : leb (length (covered L sb ++ crc_field L sb)) 256 ≡ false =
        ground (arith, length-body) in
      rw long

  length-block : length sb.required_codec_uuids ≤ 12 → length (block L sb) ≡ 256
  unfolding block padding
  length-block h =
      let zeros : length (padding L sb) ≡ 256 - length (covered L sb ++ crc_field L sb) =
        length-replicate {A = ℕ} (256 - length (covered L sb ++ crc_field L sb)) 0 in
      omega
        (arith, length-append (covered L sb ++ crc_field L sb) (padding L sb), length-body, zeros)

  widths : List ℕ
  widths = 4 ∷ 4 ∷ 16 ∷ 4 ∷ 8 ∷ 8 ∷ 2 ∷ length (tail_field L sb) ∷ []

  all-Fits : Fits widths (all_fields L sb)
  unfolding head_fields all_fields widths
  all-Fits = omega (arith, length-to_le_bytes, valid.archive_width, valid.magic_width)

  field-block :
      (k : ℕ)
      → take (width_at k widths) (drop (total (take k widths)) (block L sb))
        ≡ field_at k (all_fields L sb)
  field-block k = rw block-all (slice-concat widths (all_fields L sb) k all-Fits)

  field_back :
      (k w v : ℕ)
      → field_at k (all_fields L sb) ≡ to_le_bytes w v
      → v < 256 ^ w
      → from_le_bytes (take (width_at k widths) (drop (total (take k widths)) (block L sb))) ≡ v
  field_back k w v e lt = rw (field-block k, e) (from_le_bytes-to_le_bytes w v lt)

  tail-block : drop 46 (block L sb) ≡ tail_field L sb
  tail-block =
      rw block-split
        (drop-append_exact (concat (head_fields L sb)) (tail_field L sb) 46 length-head)

  uuids-block :
      codec_uuids (length sb.required_codec_uuids) 0 (block L sb) ≡ sb.required_codec_uuids
  unfolding tail_field
  uuids-block =
      codec_uuids-concat sb.required_codec_uuids 0 (block L sb) (crc_field L sb ++ padding L sb)
        valid.codecs_width tail-block

  crc-block :
      (e : ℕ)
      → e ≡ 46 + length sb.required_codec_uuids * 16
      → L.crc32 (covered L sb) < 2 ^ 32
      → from_le_bytes (slice e (e + 4) (block L sb)) ≡ L.crc32 (take e (block L sb))
  unfolding crc_field
  crc-block e end lt =
      let w : e + 4 - e ≡ 4 = omega arith in
      let size : length (covered L sb) ≡ e = length-covered ∙ sym end in
      rw
        (
          w,
          block-covered,
          drop-append_exact (covered L sb) (crc_field L sb ++ padding L sb) e size,
          take-append_exact (covered L sb) (crc_field L sb ++ padding L sb) e size,
          take-append_exact (crc_field L sb) (padding L sb) 4 (length-crc L sb),
        )
        (from_le_bytes-to_le_bytes 4 (L.crc32 (covered L sb)) lt)

pub IsSuperblock-HasWidths : (sb : Superblock) → IsSuperblock sb → HasWidths sb
IsSuperblock-HasWidths sb valid = record {
  magic_width = ap (length {A = ℕ}) valid.magic_const;
  archive_width = valid.uuid_width;
  codecs_width = valid.codec_widths;
}

module _ (L : Libs) (sb : Superblock) (valid : IsSuperblock sb) (hashes : IsHashes L)
    (known : All IsKnown sb.required_codec_uuids) (room : length sb.required_codec_uuids ≤ 12) where
  abbrev wide : HasWidths sb
  wide = IsSuperblock-HasWidths sb valid

  parse-block : parse L (block L sb) ≡ ok sb
  unfolding all_fields head_fields widths
  parse-block =
      parse_with L (block L sb) sb.archive_uuid sb.required_codec_uuids sb.format_version sb.flags
        sb.index_offset sb.index_size (length sb.required_codec_uuids)
        (field-block L sb wide 0 ∙ valid.magic_const)
        (field_back L sb wide 1 4 sb.format_version refl valid.version_u32) valid.version_min
        (field-block L sb wide 2) (field_back L sb wide 3 4 sb.flags refl valid.flags_u32)
        (field_back L sb wide 4 8 sb.index_offset refl valid.index_offset_u64)
        (field_back L sb wide 5 8 sb.index_size refl valid.index_size_u64)
        (field_back L sb wide 6 2 (length sb.required_codec_uuids) refl (omega arith)) room
        (uuids-block L sb wide) known
        (crc-block L sb wide (46 + length sb.required_codec_uuids * 16) refl (hashes.crc32-lt _))
      ∙ ap (λ m. ok (record sb { magic = m })) (sym valid.magic_const)

length-codec_uuids : (n i : ℕ) (buf : Bytes) → length (codec_uuids n i buf) ≡ n
unfolding codec_uuids
length-codec_uuids zero i buf = refl
length-codec_uuids (suc n) i buf = omega (arith, length-codec_uuids n (i + 1) buf)

-- A superblock with a magic of 4 bytes and UUIDs of 16 is written as exactly 256 bytes if it
-- requires at most 12 codecs, and writing it panics if it requires more.
pub write_cases :
    (L : Libs) (sb : Superblock)
    → HasWidths sb
    → ((bs : Bytes) × (write L sb ≡ some bs)
        × (length bs ≡ 256)
        × (length sb.required_codec_uuids ≤ 12))
      ⊎ ((write L sb ≡ none) × (12 < length sb.required_codec_uuids))
write_cases L sb valid = elim (Bool-cases (leb (length sb.required_codec_uuids) 12)) [
  | inl few ↦
      let room = leb→le _ 12 few in
      inl (block L sb, write_fits L sb valid room, length-block L sb valid room, room)
  | inr many ↦
      let crowd : 12 < length sb.required_codec_uuids = ground arith in
      inr (write_too_many L sb valid crowd, crowd)
]

-- With a checksum of 32 bits: a superblock of valid field values, whose required codecs this build
-- knows, written without a panic in front of anything, is read back whole, and what stands behind
-- its 256 bytes is left to read. Every version from 3 on is accepted.
pub read-write_superblock :
    (L : Libs) (sb : Superblock) (bs rest : Bytes)
    → IsHashes L
    → IsSuperblock sb
    → All IsKnown sb.required_codec_uuids
    → write L sb ≡ some bs
    → read L (bs ++ rest) ≡ ok (sb, rest)
unfolding read
read-write_superblock L sb bs rest hashes valid known e =
    elim (write_cases L sb (IsSuperblock-HasWidths sb valid)) [
      | inl (bs', e', size, room) ↦
          let same : bs' ≡ bs = some_injective (sym e' ∙ e) in
          let is_block : bs ≡ block L sb =
            some_injective (sym e ∙ write_fits L sb (IsSuperblock-HasWidths sb valid) room) in
          rw (
            read_exact-append 256 bs rest (rw (← same) size),
            is_block,
            parse-block L sb valid hashes known room,
          )
      | inr (e', _) ↦ cc (e, e')
    ]

-- Whatever 256 bytes are accepted as a superblock: they start with the magic, the version is at
-- least 3, at most 12 codecs are required, this build knows each, and the checksum behind the list
-- is that of what stands before it.
pub parse_accepts :
    (L : Libs) (buf : Bytes) (sb : Superblock)
    → parse L buf ≡ ok sb
    → (slice 0 4 buf ≡ magic_bytes)
      × (3 ≤ sb.format_version)
      × (length sb.required_codec_uuids ≤ 12)
      × All IsKnown sb.required_codec_uuids
      × (from_le_bytes (
            slice
              (46 + length sb.required_codec_uuids * 16)
              (46 + length sb.required_codec_uuids * 16 + 4)
              buf)
          ≡ L.crc32 (take (46 + length sb.required_codec_uuids * 16) buf))
unfolding parse
parse_accepts L buf sb e =
    let (magic, e1) = require-then (bytes_eq (slice 0 4 buf) magic_bytes) _ _ e in
    let (version, e2) = require-then (leb 3 (from_le_bytes (slice 4 8 buf))) _ _ e1 in
    let (room, e3) = require-then (leb (46 + count * 16 + 4) 256) _ _ e2 in
    let (crc, e4) = require-then (L.crc32 (take (46 + count * 16) buf) == stored) _ _ e3 in
    let (u, known, e5) = >>=-eq-ok (check_codecs (codec_uuids count 0 buf)) _ e4 in
    let size : count ≡ length sb.required_codec_uuids =
      sym (length-codec_uuids count 0 buf)
      ∙ ap (λ x. length x.required_codec_uuids) (ok_injective e5) in
    (
      bytes_eq→eq _ _ magic,
      rw (← ap (λ x. x.format_version) (ok_injective e5)) (leb→le 3 _ version),
      omega (arith, leb→le (46 + count * 16 + 4) 256 room, size),
      rw (← ap (λ x. x.required_codec_uuids) (ok_injective e5)) ((check_codecs_iff _).0 known),
      rw (← size) (sym ((==_iff _ _).0 crc)),
    )
  where
    count : ℕ
    count = from_le_bytes (slice 44 46 buf)

    stored : ℕ
    stored = from_le_bytes (slice (46 + count * 16) (46 + count * 16 + 4) buf)
