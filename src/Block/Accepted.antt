-- ===== src/Block/Accepted.antt =====
-- What `BlockHeader::read` of src/block.rs accepts: valid field values, and no byte that `write`
-- would not have written, but for a larger header size.
use cy.Common.{
  ℕ, ◌+◌, ◌-◌, ◌^◌, ◌<◌, ◌≤◌, ◌≡◌, refl, sym, ap, ◌∙◌, subst, List, [], ◌∷◌, ◌++◌, ok, arith,
  length, take, drop, length-append, length-take, take-append-drop, take-append_exact, All-take,
  All-drop, >>=-eq-ok, ok_injective,
}
use cy.Bytes.{Bytes, IsByte, IsBytes, to_le_bytes, from_le_bytes, slice}
use cy.Bytes.Laws.{to_le_bytes-from_le_bytes, from_le_bytes-lt}
use cy.Bytes.Layout.{concat, cut, concat-cut, length-slice}
use cy.Libs.{Libs}
use cy.Io.{read_exact}
use cy.Io.Laws.{read_exact-eq-ok, read_exact-more}
use cy.Block.{
  BlockHeader, BlockType, IsHeader, block_magic, block_header_version, body_fields, to_u16, write,
  validate, parse, read,
}
use cy.Block.Laws.{widths, body_widths, concat-snoc, validate-eq-ok}

-- The layout of a header that says it is `size` bytes long: the fields, and the checksum over them.
abbrev pub sized_fields : ℕ → BlockHeader → List Bytes
sized_fields size h =
    to_le_bytes 4 block_magic
    ∷ to_le_bytes 2 block_header_version
    ∷ to_le_bytes 2 size
    ∷ to_le_bytes 2 (to_u16 h.block_type)
    ∷ to_le_bytes 2 h.flags
    ∷ h.codec_uuid
    ∷ to_le_bytes 4 h.file_id
    ∷ to_le_bytes 8 h.file_offset
    ∷ to_le_bytes 4 h.orig_size
    ∷ to_le_bytes 4 h.comp_size
    ∷ h.content_hash
    ∷ []

abbrev pub sized : Libs → ℕ → BlockHeader → Bytes
sized L size h =
    concat (sized_fields size h) ++ to_le_bytes 4 (L.crc32 (concat (sized_fields size h)))

-- `write` writes the layout with the size 84.
sized-write : (L : Libs) (h : BlockHeader) → sized L 84 h ≡ write L h
unfolding write body_fields
sized-write L h = refl

module _ (L : Libs) (buf : Bytes) where
  abbrev field : ℕ → ℕ → ℕ
  field i j = from_le_bytes (slice i j buf)

  -- The header that `parse` makes of a buffer with block type `t`.
  abbrev header_of : BlockType → BlockHeader
  header_of t = record {
    header_version = field 4 6;
    block_type = t;
    flags = field 10 12;
    codec_uuid = slice 12 28 buf;
    file_id = field 28 32;
    file_offset = field 32 40;
    orig_size = field 40 44;
    comp_size = field 44 48;
    content_hash = slice 48 80 buf;
  }

  parse-eq-ok :
      (h : BlockHeader)
      → parse L buf ≡ ok h
      → (t : BlockType) × (validate
            (L.crc32 (take 80 buf))
            (field 80 84)
            (field 0 4)
            (field 4 6)
            (field 6 8)
            (field 8 10)
          ≡ ok t)
        × (header_of t ≡ h)
  unfolding parse
  parse-eq-ok h e = let (t, v, k) = >>=-eq-ok (validate _ _ _ _ _ _) _ e in (t, v, ok_injective k)

  module _ (bytes : IsBytes buf) (long : length buf ≡ 84) where
    slice-IsBytes : (i j : ℕ) → IsBytes (slice i j buf)
    slice-IsBytes i j = All-take IsByte (j - i) (drop i buf) (All-drop IsByte i buf bytes)

    width : (i j : ℕ) → i ≤ j → j ≤ 84 → length (slice i j buf) ≡ j - i
    width i j h k = length-slice i j buf h (omega arith)

    field-lt : (w i j : ℕ) → i + w ≡ j → j ≤ 84 → field i j < 256 ^ w
    field-lt w i j e k =
        from_le_bytes-lt w (slice i j buf) (slice-IsBytes i j) (omega (arith, width i j))

    field_bytes : (w i j : ℕ) → i + w ≡ j → j ≤ 84 → to_le_bytes w (field i j) ≡ slice i j buf
    field_bytes w i j e k =
        to_le_bytes-from_le_bytes w (slice i j buf) (slice-IsBytes i j) (omega (arith, width i j))

    header_of-IsHeader : (t : BlockType) → IsHeader (header_of t)
    header_of-IsHeader t = record {
      flags_u16 = field-lt 2 10 12 refl (omega arith);
      uuid_width = width 12 28 (omega arith) (omega arith);
      uuid_bytes = slice-IsBytes 12 28;
      file_id_u32 = field-lt 4 28 32 refl (omega arith);
      file_offset_u64 = field-lt 8 32 40 refl (omega arith);
      orig_size_u32 = field-lt 4 40 44 refl (omega arith);
      comp_size_u32 = field-lt 4 44 48 refl (omega arith);
      hash_width = width 48 80 (omega arith) (omega arith);
      hash_bytes = slice-IsBytes 48 80;
    }

    -- Every header that is read from 84 bytes has field values in the ranges of their types.
    pub parse-IsHeader : (h : BlockHeader) → parse L buf ≡ ok h → IsHeader h
    parse-IsHeader h e = let (t, v, k) = parse-eq-ok h e in subst IsHeader k (header_of-IsHeader t)

    sized_fields-cut :
        (t : BlockType)
        → field 0 4 ≡ 0x424c434b
        → field 4 6 ≡ 1
        → field 8 10 ≡ to_u16 t
        → sized_fields (field 6 8) (header_of t) ≡ cut 0 body_widths buf
    sized_fields-cut t magic version type = cc (
      ap (to_le_bytes 4) magic,
      ap (to_le_bytes 2) version,
      ap (to_le_bytes 2) type,
      field_bytes 4 0 4 refl (omega arith),
      field_bytes 2 4 6 refl (omega arith),
      field_bytes 2 6 8 refl (omega arith),
      field_bytes 2 8 10 refl (omega arith),
      field_bytes 2 10 12 refl (omega arith),
      field_bytes 4 28 32 refl (omega arith),
      field_bytes 8 32 40 refl (omega arith),
      field_bytes 4 40 44 refl (omega arith),
      field_bytes 4 44 48 refl (omega arith),
    )

    module _ (fields : List Bytes) (e : fields ≡ cut 0 body_widths buf) where
      body-append : concat fields ++ slice 80 84 buf ≡ buf
      body-append =
          rw (e, ← concat-snoc (cut 0 body_widths buf) (slice 80 84 buf))
            (concat-cut 0 widths buf long)

      body-take : concat fields ≡ take 80 buf
      body-take =
          let body : Bytes = concat fields in
          let size : length body ≡ 80 = omega (
            arith,
            ap (length {A = ℕ}) body-append,
            length-append body (slice 80 84 buf),
            width 80 84 (omega arith) (omega arith),
          ) in
          sym (take-append_exact body (slice 80 84 buf) 80 size) ∙ ap (take 80) body-append

      -- The fields and their checksum are the whole buffer.
      body-crc :
          field 80 84 ≡ L.crc32 (take 80 buf)
          → concat fields ++ to_le_bytes 4 (L.crc32 (concat fields)) ≡ buf
      body-crc c =
          rw (body-take, ← c, field_bytes 4 80 84 refl (omega arith), ← body-take) body-append

    -- A buffer that is read as a header is laid out as one of the size that stands in it.
    pub sized-parse :
        (h : BlockHeader)
        → parse L buf ≡ ok h
        → (84 ≤ field 6 8) × (h.header_version ≡ 1) × (sized L (field 6 8) h ≡ buf)
    sized-parse h e =
        let (t, v, k) = parse-eq-ok h e in
        let (crc, magic, version, size, type) = validate-eq-ok _ _ _ _ _ _ t v in
        let fields = sized_fields (field 6 8) (header_of t) in
        (
          size,
          ap (λ x. x.header_version) (sym k) ∙ version,
          rw (← k) (body-crc fields (sized_fields-cut t magic version type) crc),
        )

    pub field_size-lt : field 6 8 < 2 ^ 16
    field_size-lt = field-lt 2 6 8 refl (omega arith)

pub read-eq-ok :
    (L : Libs) (r : Bytes) (h : BlockHeader) (rest : Bytes)
    → read L r ≡ ok (h, rest)
    → (84 ≤ length r) × (parse L (take 84 r) ≡ ok h) × (drop 84 r ≡ rest)
unfolding read
read-eq-ok L r h rest e =
    let ((buf, left), took, e') = >>=-eq-ok (read_exact 84 r) _ e in
    let (h', parsed, e'') = >>=-eq-ok (parse L buf) _ e' in
    let (long, front, back) = read_exact-eq-ok 84 r buf left took in
    let p = ok_injective e'' in
    (long, rw front (parsed ∙ ap ok (ap (λ q. q.0) p)), back ∙ ap (λ q. q.1) p)

-- Whatever bytes `read` accepts as a header, they are one, laid out field by field: the magic,
-- version 1, a header size of at least 84, the other fields with the values that `read` returns,
-- each in the range of its type, and the checksum over these 80 bytes; and what stands behind the
-- 84 bytes is left to read, whatever the header size says.
pub read_accepts :
    (L : Libs) (r : Bytes) (h : BlockHeader) (rest : Bytes)
    → IsBytes r
    → read L r ≡ ok (h, rest)
    → (size : ℕ) × (84 ≤ size)
      × (size < 2 ^ 16)
      × (h.header_version ≡ 1)
      × IsHeader h
      × (sized L size h ++ rest ≡ r)
read_accepts L r h rest bytes e =
    let (long, parsed, back) = read-eq-ok L r h rest e in
    let n : length (take 84 r) ≡ 84 = omega (arith, length-take 84 r) in
    let front = All-take IsByte 84 r bytes in
    let (size, version, whole) = sized-parse L (take 84 r) front n h parsed in
    (
      from_le_bytes (slice 6 8 (take 84 r)),
      size,
      field_size-lt L (take 84 r) front n,
      version,
      parse-IsHeader L (take 84 r) front n h parsed,
      rw (whole, ← back) (take-append-drop 84 r),
    )

-- If `read` accepts a sequence of bytes and the header size that stands in it is 84, the consumed
-- bytes are those that `write` writes for the header: nothing of them is ignored.
pub write-read :
    (L : Libs) (r : Bytes) (h : BlockHeader) (rest : Bytes)
    → IsBytes r
    → from_le_bytes (slice 6 8 (take 84 r)) ≡ 84
    → read L r ≡ ok (h, rest)
    → write L h ++ rest ≡ r
write-read L r h rest bytes s e =
    let (long, parsed, back) = read-eq-ok L r h rest e in
    let n : length (take 84 r) ≡ 84 = omega (arith, length-take 84 r) in
    let (_, _, whole) = sized-parse L (take 84 r) (All-take IsByte 84 r bytes) n h parsed in
    let write_r : write L h ≡ take 84 r =
      sym (sized-write L h) ∙ ap (λ n. sized L n h) (sym s) ∙ whole in
    rw (write_r, ← back) (take-append-drop 84 r)

-- More bytes behind a header that is read stay unread.
pub read-more :
    (L : Libs) (r more : Bytes) (h : BlockHeader) (rest : Bytes)
    → read L r ≡ ok (h, rest)
    → read L (r ++ more) ≡ ok (h, rest ++ more)
unfolding read
read-more L r more h rest e =
    let ((buf, left), took, e') = >>=-eq-ok (read_exact 84 r) _ e in
    let (h', parsed, e'') = >>=-eq-ok (parse L buf) _ e' in
    let p = ok_injective e'' in
    rw (read_exact-more 84 r more buf left took, parsed, ap (λ q. q.0) p, ap (λ q. q.1) p)
