-- ===== src/Reader/ReadAt.antt =====
-- `read_at` of src/io_stream/mod.rs against `unpack_file`.
use cy.Common.{
  ℕ, ◌+◌, ◌-◌, ◌≤◌, ◌≡◌, ◌≢◌, refl, sym, ap, ◌∙◌, Option, some, List, [], ◌∷◌, ◌++◌, append-nil,
  append_assoc, true, ◌||◌, ok, >>=-eq-ok, ok_injective, inl, inr, Bool-cases, ltb, leb, leb→le,
  ◌==◌, ==_iff, arith, length, take, drop, min, length-append, length-take, length-drop,
  take-append, drop-append, take-all, drop-all, take-min, if◌then◌else◌,
}
use cy.Bytes.{Bytes, slice}
use cy.Libs.{Libs}
use cy.Index.{BlockRef, FileIndexRecord}
use cy.Reader.{
  SixCyReader, decompress_ref, read_refs, find_record, unpack_file, read_at_loop, read_at,
}

-- What a window of `size` bytes at `offset` shows.
abbrev window : ℕ → ℕ → Bytes → Bytes
window offset size xs = take size (drop offset xs)

-- A full window sees nothing of what follows.
window-full :
    (offset size : ℕ) (xs ys : Bytes)
    → length (window offset size xs) ≡ size
    → window offset size (xs ++ ys) ≡ window offset size xs
window-full offset size xs ys h =
    let a : Bytes = drop offset xs in
    let m : ℕ = size - length a in
    let none_left : m ≡ 0 = omega (arith, length-take size a, h) in
    rw
      (
        drop-append offset (offset - length xs) xs ys refl,
        take-append size m a (drop (offset - length xs) ys) refl,
        none_left,
      )
      (append-nil (take size a))

-- A window that ends in the next block takes on its part of it.
window-next :
    (offset size : ℕ) (xs block : Bytes) (start : ℕ)
    → start ≡ offset - length xs
    → length (window offset size xs) ≢ size
    → window offset size (xs ++ block)
      ≡ window offset size xs
        ++ slice start
            (start + min (size - length (window offset size xs)) (length block - start))
            block
window-next offset size xs block start e k =
    let a : Bytes = drop offset xs in
    let b : Bytes = drop start block in
    let w : ℕ = length (take size a) in
    let m : ℕ = min (size - w) (length block - start) in
    let same : size - length a ≡ size - w = omega (arith, length-take size a) in
    let cut : start + m - start ≡ m = omega arith in
    rw (
      drop-append offset start xs block e,
      take-append size (size - w) a b (sym same),
      cut,
      take-min (size - w) m b (omega (arith, length-drop start block)),
    )

window-skip : (offset size : ℕ) (xs : Bytes) → length xs ≤ offset → window offset size xs ≡ []
window-skip offset size xs h = rw (drop-all offset xs h) (take-all size [] (omega arith))

start_lem : (pos offset : ℕ) → (if ltb pos offset then offset - pos else 0) ≡ offset - pos
start_lem pos offset = ground arith

-- What a round of the loop has copied afterwards, where the buffer was not full.
copied_next :
    (offset size : ℕ) (before block : Bytes) (start : ℕ)
    → start ≡ offset - length before
    → length (window offset size before) ≢ size
    → (if leb (length before + length block) offset
        then window offset size before
        else window offset size before
          ++ slice start
              (start + min (size - length (window offset size before)) (length block - start))
              block)
      ≡ window offset size (before ++ block)
copied_next offset size before block start e short =
    elim (Bool-cases (leb (length before + length block) offset)) [
      | inl skipped ↦
          let skip = leb→le (length before + length block) offset skipped in
          rw (
            skipped,
            window-skip offset size before (omega arith),
            window-skip offset size (before ++ block) (omega (arith, length-append before block)),
          )
      | inr here ↦ rw (here, ← window-next offset size before block start e short)
    ]

module _ (L : Libs) (file : Bytes) (key : Option Bytes) (offset size : ℕ) where
  read_refs-prefix :
      (refs : List BlockRef) (out all : Bytes)
      → read_refs L file key refs out ≡ ok all
      → (more : Bytes) × (out ++ more ≡ all)
  unfolding read_refs
  read_refs-prefix [] out all e = ([], append-nil out ∙ ok_injective e)
  read_refs-prefix (br ∷ brs) out all e =
      let (block, _, e') = >>=-eq-ok (decompress_ref L file key br) _ e in
      let (more, same) = read_refs-prefix brs (out ++ block) all e' in
      (block ++ more, sym (append_assoc out block more) ∙ same)

  read_at_loop_lem :
      (refs : List BlockRef) (before all : Bytes)
      → read_refs L file key refs before ≡ ok all
      → read_at_loop L file key offset size refs (length before) (window offset size before)
        ≡ ok (window offset size all)
  unfolding read_refs read_at_loop
  read_at_loop_lem [] before all e = ap (λ xs. ok (window offset size xs)) (ok_injective e)
  read_at_loop_lem (br ∷ brs) before all e =
      let (block, got, e') = >>=-eq-ok (decompress_ref L file key br) _ e in
      let shown : Bytes = window offset size before in
      elim (Bool-cases (length shown == size)) [
        | inl full ↦
            let (more, same) = read_refs-prefix (br ∷ brs) before all e in
            rw (full, ← same)
              (ap ok
                (sym (window-full offset size before more ((==_iff (length shown) size).0 full))))
        | inr short ↦
            rw
              (
                short,
                got,
                start_lem (length before) offset,
                copied_next offset size before block (offset - length before) refl
                    (λ c. cc (short, (==_iff (length shown) size).1 c)),
                ← length-append before block,
              )
              (read_at_loop_lem brs (before ++ block) all e')
      ]

window-nothing :
    (offset size n : ℕ) (xs : Bytes)
    → n ≡ length xs
    → (leb n offset || size == 0) ≡ true
    → window offset size xs ≡ []
window-nothing offset size n xs e h = elim (Bool-cases (leb n offset)) [
  | inl past ↦ window-skip offset size xs (omega (arith, leb→le n offset past))
  | inr before ↦ let z : size ≡ 0 = (==_iff size 0).0 (rw before at h) in rw z
]

-- For every file that `unpack_file` gives in full, whose record has its size: `read_at` into a
-- buffer of `size` bytes at any offset succeeds, and copies the part of the file that the window
-- shows, as much of it as there is.
pub read_at-unpack_file :
    (L : Libs) (r : SixCyReader) (file_id offset size : ℕ) (rec : FileIndexRecord) (all : Bytes)
    → find_record file_id r.index.records ≡ some rec
    → rec.original_size ≡ length all
    → unpack_file L r file_id ≡ ok all
    → read_at L r file_id offset size ≡ ok (take size (drop offset all))
unfolding unpack_file read_at
read_at-unpack_file L r file_id offset size rec all found sized e =
    elim (Bool-cases (leb rec.original_size offset || size == 0)) [
      | inl nothing ↦
          rw (found, nothing)
            (ap ok (sym (window-nothing offset size rec.original_size all sized nothing)))
      | inr some_bytes ↦
          rw (found, some_bytes)
            (ap (read_at_loop L r.reader r.decryption_key offset size rec.block_refs 0)
                (sym (window-skip offset size [] (omega arith)))
              ∙ read_at_loop_lem L r.reader r.decryption_key offset size rec.block_refs [] all
                  (rw found at e))
    ]
