-- ===== src/Writer/Solid.antt =====
-- A whole solid session of src/io_stream/mod.rs keeps the invariant of an archive in writing.
use cy.Common.{
  ℕ, ◌+◌, ◌^◌, ◌≤◌, ◌<◌, ◌≡◌, refl, sym, ap, ◌∙◌, subst, Option, none, some, List, [], ◌∷◌, ◌++◌,
  append-nil, Result, ok, false, Result-cases, inl, inr, leb, arith, length, All, length-append,
}
use cy.Bytes.{Bytes}
use cy.Bytes.Layout.{concat}
use cy.Errors.{IoError}
use cy.Libs.{Libs, IsHashes, IsLossless, IsAead}
use cy.Codec.{CodecId}
use cy.Block
use cy.Block.{BlockHeader, solid_block, file_id_shared, block_header_version}
use cy.Block.Payload.{encode_block}
use cy.Index.{FileIndexRecord}
use cy.Reader.{read_block_at}
use cy.Reader.Stable.{Keeps, append-Keeps}
use cy.Superblock.{add_required_codec}
use cy.Superblock.Required.{add_required_codec-IsBuilt, add_required_codec-flags}
use cy.Writer.{
  Host, SixCyWriter, write_block, store_solid, compress_solid, flush_codec, flush_solid_session,
  then_on, start_solid_session,
}
use cy.Writer.Blocks.{block_bytes, write_block-AtEnd, encode-read}
use cy.Writer.Stored.{IsSound-Keeps}
use cy.Writer.Archive.{Archive, Filed, Filed-Keeps, Filed-length}
use cy.Writer.Packing.{Input, contents_of, add_files}
use cy.Writer.Session.{
  session_records, session_ranges, pending, pushed, add_files_solid, attached, attach_ranges_lem,
}
use cy.Writer.Slices.{attached-Filed}

-- A session for a codec: its start, its files, and its flush.
unfoldable pub session :
    Libs → Host → CodecId → List Input → SixCyWriter → Result IoError (Unit {0}) × SixCyWriter
session L H codec fs w =
    then_on (start_solid_session L H codec w)
      (λ _ w1. then_on (add_files L H fs w1) (λ _ w2. flush_solid_session L H w2))

module _ (L : Libs) (key : Option Bytes) where
  Filed-append :
      (file : Bytes) (i j : ℕ) (rs qs : List FileIndexRecord) (ds es : List Bytes)
      → Filed L key file i rs ds
      → j ≡ i + length rs
      → Filed L key file j qs es
      → Filed L key file i (rs ++ qs) (ds ++ es)
  Filed-append file i j [] qs [] es h at k =
      let e : j ≡ i = omega arith in subst (λ n. Filed L key file n qs es) e k
  Filed-append file i j [] qs (d ∷ ds) es h at k = elim h [ ]
  Filed-append file i j (r ∷ rs) qs [] es h at k = elim h [ ]
  Filed-append file i j (r ∷ rs) qs (d ∷ ds) es (id, size, reads, h) at k =
      (id, size, reads, Filed-append file (i + 1) j rs qs ds es h (omega arith) k)

  Filed-below :
      (file : Bytes) (i n : ℕ) (rs : List FileIndexRecord) (ds : List Bytes)
      → Filed L key file i rs ds
      → i + length rs ≤ n
      → All (λ q. q.id < n) rs
  Filed-below file i n [] [] h le = tt
  Filed-below file i n [] (d ∷ ds) h le = elim h [ ]
  Filed-below file i n (r ∷ rs) [] h le = elim h [ ]
  Filed-below file i n (r ∷ rs) (d ∷ ds) (id, size, reads, h) le =
      (omega arith, Filed-below file (i + 1) n rs ds h (omega arith))

-- The state that a flush compresses, when the session of `fs` was started in `w`.
abbrev ready : Libs → CodecId → List Input → SixCyWriter → SixCyWriter
ready L codec fs w =
    pending L (record w { solid_codec = none; superblock = add_required_codec codec w.superblock })
      (w.index.records ++ session_records (length w.index.records) fs)
      (session_ranges L (length w.index.records) 0 fs) (concat (contents_of fs))

-- The state of the session before its flush, given that nothing else was pending.
abbrev collected : Libs → CodecId → List Input → SixCyWriter → SixCyWriter
collected L codec fs w =
    pending L (record w { solid_codec = some codec })
      (w.index.records ++ session_records (length w.index.records) fs)
      (session_ranges L (length w.index.records) 0 fs) (concat (contents_of fs))

module _ (L : Libs) (hashes : IsHashes L) (lossless : IsLossless L) (aead : IsAead L) (H : Host)
    (nonces : (n : ℕ) → length (H.nonce n) ≡ 12) (key : Option Bytes) (P : Bytes → Type 0) where
  store_solid-Archive :
      (n : ℕ) (files : List Bytes) (codec : CodecId) (fs : List Input) (w : SixCyWriter)
      (h : BlockHeader) (p : Bytes)
      → Archive L key P n files w
      → All (λ f. 1 ≤ length f.contents) fs
      → encode_block L solid_block file_id_shared 0
          (concat (contents_of fs))
          codec
          w.compression_level
          w.encryption_key
          (H.nonce w.drawn)
        ≡ ok (h, p)
      → length (write_block L h p w.writer).bytes < 2 ^ 32
      → Archive L key P n (files ++ contents_of fs) (store_solid L H h p (ready L codec fs w))
  unfolding store_solid
  store_solid-Archive n files codec fs w h p a full e small =
      let file : Bytes = (write_block L h p w.writer).bytes in
      let k : ℕ = length w.index.records in
      let at : ℕ = w.writer.pos in
      let (bytes, end) = write_block-AtEnd L h p w.writer a.store.at_end in
      let longer : length file ≡ length w.writer.bytes + length (block_bytes L h p) =
        ap (length {A = ℕ}) bytes ∙ length-append w.writer.bytes (block_bytes L h p) in
      let size : length p < 2 ^ 32 = omega (arith, length-append (Block.write L h) p) in
      let past : 256 ≤ length w.writer.bytes = a.store.past in
      let keyed : encode_block L solid_block file_id_shared 0 (concat (contents_of fs)) codec
            w.compression_level key (H.nonce w.drawn)
          ≡ ok (h, p) =
        ap
          (λ o.
            encode_block L solid_block file_id_shared 0 (concat (contents_of fs)) codec
              w.compression_level o (H.nonce w.drawn))
          (sym a.store.keyed)
        ∙ e in
      let (found, decoded) =
        encode-read L hashes lossless aead w.writer.bytes solid_block file_id_shared 0
          (concat (contents_of fs)) codec w.compression_level key (H.nonce w.drawn) h p
          (nonces w.drawn) (omega arith) (omega arith) keyed size in
      let there : read_block_at L file at
          ≡ ok (record h { header_version = block_header_version }, p) =
        rw (bytes, a.store.at_end) found in
      let keeps : Keeps L key w.writer.bytes file =
        rw bytes (append-Keeps L key w.writer.bytes (block_bytes L h p)) in
      let new : Filed L key file k (attached L at (length p) k 0 fs) (contents_of fs) =
        attached-Filed L file key at (length p) (record h { header_version = block_header_version })
          p (concat (contents_of fs)) there decoded (omega (arith, a.store.at_end)) k 0 [] fs refl
          full refl in
      let old : Filed L key file 0 w.index.records files =
        Filed-Keeps L key w.writer.bytes file 0 w.index.records files keeps a.filed in
      record {
        store = record {
          at_end = end;
          past = omega arith;
          keyed = a.store.keyed;
          sound = IsSound-Keeps L key P w.writer.bytes file w.block_dedup keeps a.store.sound;
        };
        idle = refl;
        split = a.split;
        no_buffer = refl;
        no_ranges = refl;
        built = add_required_codec-IsBuilt codec w.superblock a.built;
        plain = add_required_codec-flags codec w.superblock ∙ a.plain;
        filed =
            rw
              (attach_ranges_lem L at (length p) k 0 fs w.index.records
                (Filed-below L key w.writer.bytes 0 k w.index.records files a.filed (omega arith)))
              (Filed-append L key file 0 k w.index.records (attached L at (length p) k 0 fs) files
                (contents_of fs) old (omega arith) new);
      }

module _ (L : Libs) (H : Host) (key : Option Bytes) (P : Bytes → Type 0) where
  pub session_lem :
      (n : ℕ) (files : List Bytes) (codec : CodecId) (fs : List Input) (w : SixCyWriter)
      → Archive L key P n files w
      → length files + length fs ≤ 2 ^ 32
      → session L H codec fs w ≡ flush_codec L H (some codec) (collected L codec fs w)
  unfolding session start_solid_session flush_solid_session
  session_lem n files codec fs w a few =
      let w1 : SixCyWriter = record w { solid_codec = some codec } in
      let k : ℕ = length w.index.records in
      let counted : k ≡ length files =
        Filed-length L key w.writer.bytes 0 w.index.records files a.filed in
      let started : start_solid_session L H codec w ≡ (ok tt, w1) =
        ap (λ r. then_on r (λ _ w'. (ok tt, record w' { solid_codec = some codec })))
          (flush_idle_lem w a.idle) in
      let filled : add_files L H fs w1 ≡ (ok tt, pushed L fs w1) =
        add_files_solid L H fs w1 codec refl (omega arith) in
      let clean : pushed L fs w1 ≡ collected L codec fs w = λ i.
        pending L w1 (w.index.records ++ session_records k fs)
          (a.no_ranges i ++ session_ranges L k (length (a.no_buffer i)) fs)
          (a.no_buffer i ++ concat (contents_of fs)) in
      ap
        (λ r.
          then_on r (λ _ w2. then_on (add_files L H fs w2) (λ _ w3. flush_solid_session L H w3)))
        started
      ∙ ap (λ r. then_on r (λ _ w3. flush_solid_session L H w3)) filled
      ∙ ap (λ x. flush_solid_session L H x) clean
    where
      flush_idle_lem :
          (v : SixCyWriter) → v.solid_codec ≡ none → flush_solid_session L H v ≡ (ok tt, v)
      flush_idle_lem v q = ap (λ o. flush_codec L H o v) q ∙ (unfold flush_codec in refl)

module _ (L : Libs) (hashes : IsHashes L) (lossless : IsLossless L) (aead : IsAead L) (H : Host)
    (nonces : (n : ℕ) → length (H.nonce n) ≡ 12) (key : Option Bytes) (P : Bytes → Type 0) where
  compress_solid-Archive :
      (n : ℕ) (files : List Bytes) (codec : CodecId) (fs : List Input) (w : SixCyWriter)
      → Archive L key P n files w
      → All (λ f. 1 ≤ length f.contents) fs
      → (compress_solid L H codec (ready L codec fs w)).0 ≡ ok tt
      → length (compress_solid L H codec (ready L codec fs w)).1.writer.bytes < 2 ^ 32
      → Archive L key P n
          (files ++ contents_of fs)
          (compress_solid L H codec (ready L codec fs w)).1
  unfolding compress_solid
  compress_solid-Archive n files codec fs w a full =
      elim (Result-cases (
        encode_block L solid_block file_id_shared 0 (concat (contents_of fs)) codec
          w.compression_level w.encryption_key (H.nonce w.drawn))) [
            | inr (x, e) ↦ rw (e, compress_solid) (λ q small. cc q)
            | inl ((h, p), e) ↦
                rw (e, compress_solid)
                  (λ q small.
                    store_solid-Archive L hashes lossless aead H nonces key P n files codec fs w h p
                      a full e (unfold store_solid in small))
          ]

  flush-Archive :
      (n : ℕ) (files : List Bytes) (codec : CodecId) (fs : List Input) (w : SixCyWriter)
      → Archive L key P n files w
      → All (λ f. 1 ≤ length f.contents) fs
      → (flush_codec L H (some codec) (collected L codec fs w)).0 ≡ ok tt
      → length (flush_codec L H (some codec) (collected L codec fs w)).1.writer.bytes < 2 ^ 32
      → Archive L key P n
          (files ++ contents_of fs)
          (flush_codec L H (some codec) (collected L codec fs w)).1
  unfolding flush_codec
  flush-Archive n files codec [] w a full = λ q small. record {
    store = record {
      at_end = a.store.at_end;
      past = a.store.past;
      keyed = a.store.keyed;
      sound = a.store.sound;
    };
    idle = refl;
    split = a.split;
    no_buffer = refl;
    no_ranges = refl;
    built = a.built;
    plain = a.plain;
    filed = rw (append-nil w.index.records, append-nil files) a.filed;
  }
  flush-Archive n files codec (f ∷ fs) w a full =
      let pos : 1 ≤ length f.contents = full.0 in
      let some_bytes : leb (length (f.contents ++ concat (contents_of fs))) 0 ≡ false =
        ground (arith, length-append f.contents (concat (contents_of fs))) in
      rw some_bytes (compress_solid-Archive n files codec (f ∷ fs) w a full)

  pub session-Archive :
      (n : ℕ) (files : List Bytes) (codec : CodecId) (fs : List Input) (w : SixCyWriter)
      → Archive L key P n files w
      → All (λ f. 1 ≤ length f.contents) fs
      → length files + length fs ≤ 2 ^ 32
      → (session L H codec fs w).0 ≡ ok tt
      → length (session L H codec fs w).1.writer.bytes < 2 ^ 32
      → Archive L key P n (files ++ contents_of fs) (session L H codec fs w).1
  session-Archive n files codec fs w a full few =
      rw (session_lem L H key P n files codec fs w a few) (flush-Archive n files codec fs w a full)
