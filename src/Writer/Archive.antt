-- ===== src/Writer/Archive.antt =====
-- The invariant of an archive in writing (src/io_stream/mod.rs), outside solid mode: every file that was
-- added can be read back from what is written, by the references of its record.
use cy.Common.{
  ℕ, zero, suc, ◌+◌, ◌^◌, ◌≤◌, ◌<◌, ◌≡◌, refl, sym, ap, ◌∙◌, subst, Option, none, some, List, [],
  ◌∷◌, ◌++◌, ok, false, true, ◌==◌, some_injective, Result-cases, inl, inr, arith, length, All,
  Text, get_elem?,
}
use cy.Bytes.{Bytes}
use cy.Bytes.Layout.{concat}
use cy.Libs.{Libs, IsHashes, IsLossless, IsAead}
use cy.Codec.{CodecId}
use cy.Index.{FileIndexRecord}
use cy.Reader.{find_record, read_refs}
use cy.Reader.Stable.{Keeps, Reads, Keeps-Reads}
use cy.Superblock.{add_required_codec}
use cy.Superblock.Required.{IsBuilt, add_required_codec-IsBuilt, add_required_codec-flags}
use cy.Writer.{Host, SixCyWriter}
use cy.Writer.Files.{chunks, add_chunks, new_record, push_record, finish_file, add_normal}
use cy.Writer.Stored.{Store, Step, Good}
use cy.Writer.Adding.{concat-chunks, add_chunks-Good}

-- The state in which `add_file` starts on the chunks.
abbrev pub declared : CodecId → SixCyWriter → SixCyWriter
declared codec w = record w { superblock = add_required_codec codec w.superblock }

module _ (L : Libs) (key : Option Bytes) where
  -- The records have the numbers from `i` on, and their references hold the files.
  abbrev pub Filed : Bytes → ℕ → List FileIndexRecord → List Bytes → Type 0
  Filed file i [] [] = Unit {0}
  Filed file i [] (d ∷ ds) = ⊥
  Filed file i (r ∷ rs) [] = ⊥
  Filed file i (r ∷ rs) (d ∷ ds) =
      (r.id ≡ i)
      × (r.original_size ≡ length d)
      × Reads L key file r.block_refs d
      × Filed file (i + 1) rs ds

  pub Filed-Keeps :
      (file file' : Bytes) (i : ℕ) (rs : List FileIndexRecord) (ds : List Bytes)
      → Keeps L key file file'
      → Filed file i rs ds
      → Filed file' i rs ds
  Filed-Keeps file file' i [] [] keeps h = tt
  Filed-Keeps file file' i [] (d ∷ ds) keeps h = elim h [ ]
  Filed-Keeps file file' i (r ∷ rs) [] keeps h = elim h [ ]
  Filed-Keeps file file' i (r ∷ rs) (d ∷ ds) keeps (id, size, reads, h) = (
    id,
    size,
    Keeps-Reads L key file file' r.block_refs d keeps reads,
    Filed-Keeps file file' (i + 1) rs ds keeps h,
  )

  pub Filed-length :
      (file : Bytes) (i : ℕ) (rs : List FileIndexRecord) (ds : List Bytes)
      → Filed file i rs ds
      → length rs ≡ length ds
  Filed-length file i [] [] h = refl
  Filed-length file i [] (d ∷ ds) h = elim h [ ]
  Filed-length file i (r ∷ rs) [] h = elim h [ ]
  Filed-length file i (r ∷ rs) (d ∷ ds) (_, _, _, h) = ap suc (Filed-length file (i + 1) rs ds h)

  Filed-snoc :
      (file : Bytes) (i : ℕ) (rs : List FileIndexRecord) (ds : List Bytes) (r : FileIndexRecord)
      (d : Bytes)
      → Filed file i rs ds
      → r.id ≡ i + length rs
      → r.original_size ≡ length d
      → Reads L key file r.block_refs d
      → Filed file i (rs ++ r ∷ []) (ds ++ d ∷ [])
  Filed-snoc file i [] [] r d h id size reads = (omega arith, size, reads, tt)
  Filed-snoc file i [] (x ∷ ds) r d h id size reads = elim h [ ]
  Filed-snoc file i (q ∷ rs) [] r d h id size reads = elim h [ ]
  Filed-snoc file i (q ∷ rs) (x ∷ ds) r d (qid, qsize, qreads, h) id size reads =
      (qid, qsize, qreads, Filed-snoc file (i + 1) rs ds r d h (omega arith) size reads)

  -- The record that is found by a file's number.
  pub Filed-find_record :
      (file : Bytes) (i j n : ℕ) (rs : List FileIndexRecord) (ds : List Bytes) (d : Bytes)
      → j ≡ i + n
      → Filed file i rs ds
      → get_elem? ds n ≡ some d
      → (r : FileIndexRecord) × (find_record j rs ≡ some r)
        × (r.original_size ≡ length d)
        × Reads L key file r.block_refs d
  unfolding find_record
  Filed-find_record file i j n [] [] d at h e = cc
  Filed-find_record file i j n [] (x ∷ ds) d at h e = elim h [ ]
  Filed-find_record file i j n (r ∷ rs) [] d at h e = elim h [ ]
  Filed-find_record file i j zero (r ∷ rs) (x ∷ ds) d at (id, size, reads, h) e =
      let hit : (r.id == j) ≡ true = ground arith in
      let same : x ≡ d = some_injective e in
      (
        r,
        rw hit refl,
        size ∙ ap (length {A = ℕ}) same,
        subst (Reads L key file r.block_refs) same reads,
      )
  Filed-find_record file i j (suc n) (r ∷ rs) (x ∷ ds) d at (id, size, reads, h) e =
      let miss : (r.id == j) ≡ false = ground arith in
      let (q, found, size', reads') =
        Filed-find_record file (i + 1) j n rs ds d (omega arith) h e in
      (q, rw miss found, size', reads')

  pub record Archive (P : Bytes → Type 0) (n : ℕ) (files : List Bytes) (w : SixCyWriter)
      : Type 0 where
    pub store : Store L key P w
    pub idle : w.solid_codec ≡ none
    pub split : w.chunk_size ≡ n
    pub no_buffer : w.solid_buffer ≡ []
    pub no_ranges : w.solid_file_ranges ≡ []
    pub built : IsBuilt w.superblock
    pub plain : w.superblock.flags ≡ 0
    pub filed : Filed w.writer.bytes 0 w.index.records files

module _ (L : Libs) (hashes : IsHashes L) (lossless : IsLossless L) (aead : IsAead L) (H : Host)
    (nonces : (n : ℕ) → length (H.nonce n) ≡ 12) (key : Option Bytes) (P : Bytes → Type 0)
    (free : (a b : Bytes) → P a → P b → L.blake3 a ≡ L.blake3 b → a ≡ b) where
  finish_file-Archive :
      (n : ℕ) (files : List Bytes) (w w' : SixCyWriter) (name : Text) (d : Bytes) (codec : CodecId)
      (rec : FileIndexRecord)
      → Archive L key P n files w
      → Step L key P (declared codec w) w' (new_record (length w.index.records) name d) rec d
      → Archive L key P n (files ++ d ∷ []) (finish_file L H (length w.index.records) rec w')
  unfolding finish_file push_record new_record
  finish_file-Archive n files w w' name d codec rec a s = record {
    store = record {
      at_end = s.store.at_end;
      past = s.store.past;
      keyed = s.store.keyed;
      sound = s.store.sound;
    };
    idle = s.same.same_codec ∙ a.idle;
    split = s.same.same_size ∙ a.split;
    no_buffer = s.same.same_buffer ∙ a.no_buffer;
    no_ranges = s.same.same_ranges ∙ a.no_ranges;
    built =
        subst IsBuilt (sym s.same.same_superblock)
          (add_required_codec-IsBuilt codec w.superblock a.built);
    plain =
        ap (λ sb. sb.flags) s.same.same_superblock
        ∙ add_required_codec-flags codec w.superblock
        ∙ a.plain;
    filed =
        subst (λ i. Filed L key w'.writer.bytes 0 (i.records ++ rec ∷ []) (files ++ d ∷ []))
          (sym s.same.same_index)
          (Filed-snoc L key w'.writer.bytes 0 w.index.records files rec d
            (Filed-Keeps L key w.writer.bytes w'.writer.bytes 0 w.index.records files s.keeps
              a.filed)
            (let number : rec.id ≡ length w.index.records = s.same_id in omega arith) s.same_size
            s.reads);
  }

  Reads-nil : (file : Bytes) → Reads L key file [] []
  unfolding Reads read_refs
  Reads-nil file = (tt, refl)

  declared-Store :
      (codec : CodecId) (w : SixCyWriter) → Store L key P w → Store L key P (declared codec w)
  declared-Store codec w s = record {
    at_end = s.at_end;
    past = s.past;
    keyed = s.keyed;
    sound = s.sound;
  }

  pub add_normal-Archive :
      (n : ℕ) (files : List Bytes) (w : SixCyWriter) (name : Text) (d : Bytes) (codec : CodecId)
      → Archive L key P n files w
      → 1 ≤ n
      → All P (chunks n d)
      → length files < 2 ^ 32
      → (add_normal L H (length w.index.records) name d codec w).0 ≡ ok tt
      → length (add_normal L H (length w.index.records) name d codec w).1.writer.bytes < 2 ^ 32
      → Archive L key P n
          (files ++ d ∷ [])
          (add_normal L H (length w.index.records) name d codec w).1
  unfolding add_normal Good
  add_normal-Archive n files w name d codec a pos pcs few =
      let id : ℕ = length w.index.records in
      let rec0 : FileIndexRecord = new_record id name d in
      let pieces : List Bytes = chunks w.chunk_size d in
      let r1 = add_chunks L H id codec 0 pieces rec0 (declared codec w) in
      let counted : id ≡ length files =
        Filed-length L key w.writer.bytes 0 w.index.records files a.filed in
      let size : w.chunk_size ≡ n = a.split in
      let whole : concat pieces ≡ d = concat-chunks w.chunk_size d (omega arith) in
      let good =
        add_chunks-Good L hashes lossless aead H nonces key P free (declared codec w) id 0 codec
          pieces rec0 [] (declared-Store codec w a.store)
          (unfold new_record in Reads-nil w.writer.bytes)
          (subst (λ m. All P (chunks m d)) (sym size) pcs) (omega arith) in
      elim (Result-cases r1.0) [
        | inr (x, q) ↦ rw (q, add_normal) (λ e small. cc e)
        | inl (rec, q) ↦
            rw (q, add_normal)
              (λ e small. finish_file-Archive n files w r1.1 name d codec rec a (
                subst (Step L key P (declared codec w) r1.1 rec0 rec) whole
                  (good rec q (unfold finish_file push_record in small))))
      ]
