-- ===== src/Writer/Session.antt =====
-- A solid session of src/io_stream/mod.rs: what the calls of `add_file` leave pending, and the records
-- that a flush completes.
use cy.Common.{
  ℕ, ◌+◌, ◌%◌, ◌^◌, ◌≤◌, ◌<◌, ◌≡◌, refl, sym, ap, ◌∙◌, some, List, [], ◌∷◌, ◌++◌, append_assoc,
  append-nil, ok, true, false, ◌==◌, arith, length, All, length-append, All-append,
}
use cy.Bytes.{Bytes}
use cy.Bytes.Layout.{concat}
use cy.Libs.{Libs}
use cy.Codec.{CodecId}
use cy.Index.{FileIndexRecord}
use cy.Writer.{Host, SolidRange, SixCyWriter, update_first, attach_range, attach_ranges, then_on}
use cy.Writer.Files.{new_record, push_record, add_solid, add_file}
use cy.Writer.Packing.{Input, contents_of, add_files, add_file_solid}

-- The records of a session's files, numbered from `i` on.
abbrev pub session_records : ℕ → List Input → List FileIndexRecord
session_records i [] = []
session_records i (f ∷ fs) = new_record i f.name f.contents ∷ session_records (i + 1) fs

module _ (L : Libs) where
  -- Their ranges, from an offset in the buffer on.
  abbrev pub session_ranges : ℕ → ℕ → List Input → List SolidRange
  session_ranges i off [] = []
  session_ranges i off (f ∷ fs) =
      record {
        file_id = i;
        intra_offset = off;
        intra_length = length f.contents;
        content_hash = L.blake3 f.contents;
      }
      ∷ session_ranges (i + 1) (off + length f.contents) fs

  -- The state with these records, ranges and buffer.
  abbrev pub pending : SixCyWriter → List FileIndexRecord → List SolidRange → Bytes → SixCyWriter
  pending w records ranges buffer = record w {
    index = record w.index { records = records };
    solid_file_ranges = ranges;
    solid_buffer = buffer;
  }

  -- The state after the calls of `add_file` for the files.
  abbrev pub pushed : List Input → SixCyWriter → SixCyWriter
  pushed fs w =
      pending w (w.index.records ++ session_records (length w.index.records) fs)
        (w.solid_file_ranges ++ session_ranges (length w.index.records) (length w.solid_buffer) fs)
        (w.solid_buffer ++ concat (contents_of fs))

  pushed_nil : (w : SixCyWriter) → w ≡ pushed [] w
  pushed_nil w = λ i.
      pending w (sym (append-nil w.index.records) i) (sym (append-nil w.solid_file_ranges) i)
        (sym (append-nil w.solid_buffer) i)

  pushed_cons :
      (H : Host) (f : Input) (fs : List Input) (w : SixCyWriter)
      → pushed fs (add_solid L H (length w.index.records) f.name f.contents w) ≡ pushed (f ∷ fs) w
  unfolding add_solid push_record
  pushed_cons H f fs w =
      let rs = w.index.records in
      let n : ℕ = length rs in
      let r : FileIndexRecord = new_record n f.name f.contents in
      let b : Bytes = w.solid_buffer in
      let range : SolidRange = record {
        file_id = n;
        intra_offset = length b;
        intra_length = length f.contents;
        content_hash = L.blake3 f.contents;
      } in
      let count : length (rs ++ r ∷ []) ≡ n + 1 = omega (arith, length-append rs (r ∷ [])) in
      let size : length (b ++ f.contents) ≡ length b + length f.contents =
        length-append b f.contents in
      let p : (rs ++ r ∷ []) ++ session_records (length (rs ++ r ∷ [])) fs
          ≡ rs ++ r ∷ session_records (n + 1) fs =
        rw count (append_assoc rs (r ∷ []) (session_records (n + 1) fs)) in
      let q : (w.solid_file_ranges ++ range ∷ [])
            ++ session_ranges (length (rs ++ r ∷ [])) (length (b ++ f.contents)) fs
          ≡ w.solid_file_ranges
            ++ range ∷ session_ranges (n + 1) (length b + length f.contents) fs =
        rw (count, size)
          (append_assoc w.solid_file_ranges (range ∷ [])
            (session_ranges (n + 1) (length b + length f.contents) fs)) in
      let s : (b ++ f.contents) ++ concat (contents_of fs)
          ≡ b ++ (f.contents ++ concat (contents_of fs)) =
        append_assoc b f.contents (concat (contents_of fs)) in
      λ i. pending w (p i) (q i) (s i)

  pub add_files_solid :
      (H : Host) (fs : List Input) (w : SixCyWriter) (c : CodecId)
      → w.solid_codec ≡ some c
      → length w.index.records + length fs ≤ 2 ^ 32
      → add_files L H fs w ≡ (ok tt, pushed fs w)
  unfolding add_files add_solid push_record
  add_files_solid H [] w c solid few = ap (λ x. (ok tt, x)) (pushed_nil w)
  add_files_solid H (f ∷ fs) w c solid few =
      let w1 : SixCyWriter = add_solid L H (length w.index.records) f.name f.contents w in
      let id : length w.index.records % 2 ^ 32 ≡ length w.index.records = omega arith in
      let one : add_file L H f.name f.contents f.codec w ≡ (ok tt, w1) =
        add_file_solid L H f.name f.contents f.codec c w solid
        ∙ ap (λ n. (ok tt, add_solid L H n f.name f.contents w)) id in
      let rest : add_files L H fs w1 ≡ (ok tt, pushed fs w1) = add_files_solid H fs w1 c solid (
        omega (
          arith,
          length-append w.index.records
              (new_record (length w.index.records) f.name f.contents ∷ []),
        )) in
      ap (λ r. then_on r (λ _ w'. add_files L H fs w')) one
      ∙ rest
      ∙ ap (λ x. (ok tt, x)) (pushed_cons H f fs w)

  -- The records of the session, each with its reference.
  abbrev pub attached : ℕ → ℕ → ℕ → ℕ → List Input → List FileIndexRecord
  attached at len i off [] = []
  attached at len i off (f ∷ fs) =
      attach_range at len
        (record {
          file_id = i;
          intra_offset = off;
          intra_length = length f.contents;
          content_hash = L.blake3 f.contents;
        })
        (new_record i f.name f.contents)
      ∷ attached at len (i + 1) (off + length f.contents) fs

update_first_lem :
    (i : ℕ) (change : FileIndexRecord → FileIndexRecord) (old rest : List FileIndexRecord)
    (r : FileIndexRecord)
    → All (λ q. q.id < i) old
    → r.id ≡ i
    → update_first i change (old ++ r ∷ rest) ≡ old ++ change r ∷ rest
unfolding update_first
update_first_lem i change [] rest r all e =
    let hit : (r.id == i) ≡ true = ground arith in rw hit refl
update_first_lem i change (q ∷ old) rest r all e =
    let lt : q.id < i = all.0 in
    let miss : (q.id == i) ≡ false = ground arith in
    rw (miss, update_first_lem i change old rest r all.1 e) refl

below_next :
    (i : ℕ) (rs : List FileIndexRecord) → All (λ q. q.id < i) rs → All (λ q. q.id < i + 1) rs
below_next i [] h = tt
below_next i (r ∷ rs) h = (let lt : r.id < i = h.0 in omega arith, below_next i rs h.1)

module _ (L : Libs) (at len : ℕ) where
  -- A flush gives every record of the session its reference, and leaves the others alone.
  pub attach_ranges_lem :
      (i off : ℕ) (fs : List Input) (old : List FileIndexRecord)
      → All (λ q. q.id < i) old
      → attach_ranges at len (session_ranges L i off fs) (old ++ session_records i fs)
        ≡ old ++ attached L at len i off fs
  unfolding attach_ranges
  attach_ranges_lem i off [] old below = refl
  attach_ranges_lem i off (f ∷ fs) old below =
      let range : SolidRange = record {
        file_id = i;
        intra_offset = off;
        intra_length = length f.contents;
        content_hash = L.blake3 f.contents;
      } in
      let r : FileIndexRecord = new_record i f.name f.contents in
      let r' : FileIndexRecord = attach_range at len range r in
      let rest : List FileIndexRecord = session_records (i + 1) fs in
      let done_old : All (λ q. q.id < i + 1) (old ++ r' ∷ []) =
        All-append (λ q. q.id < i + 1) old (r' ∷ []) (below_next i old below)
          ((unfold attach_range new_record in omega arith), tt) in
      let ss : List SolidRange = session_ranges L (i + 1) (off + length f.contents) fs in
      ap (attach_ranges at len ss) (
        update_first_lem i (attach_range at len range) old rest r below (unfold new_record in refl)
        ∙ sym (append_assoc old (r' ∷ []) rest))
      ∙ attach_ranges_lem (i + 1) (off + length f.contents) fs (old ++ r' ∷ []) done_old
      ∙ append_assoc old (r' ∷ []) (attached L at len (i + 1) (off + length f.contents) fs)
