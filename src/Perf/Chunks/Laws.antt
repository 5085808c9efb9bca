-- ===== src/Perf/Chunks/Laws.antt =====
-- The two builds of `compress_chunks_parallel` agree, and its chunks decompress to the input
-- (src/perf.rs).
use cy.Common.{
  ℕ, ◌+◌, ℤ, ◌≡◌, refl, sym, ap, ◌∙◌, subst, List, [], ◌∷◌, ◌++◌, append-nil, append_assoc, Result,
  ok, err, ◌>>=◌, Result-cases, ◌⊎◌, inl, inr, arith, >>=-eq-ok, ok_injective, length,
}
use cy.Bytes.{Bytes}
use cy.Errors.{CodecError}
use cy.Libs.{Libs, IsLossless}
use cy.Codec.{CodecId, Codec, get_codec}
use cy.Codec.Laws.{decompress-compress, get_codec_by_uuid-uuid}
use cy.Perf.Chunks.{
  CompressedChunk, compress_chunk, compress_chunk_alone, compress_sequential, compress_each,
  surface, compress_parallel,
}

-- The results put behind those that are there, where there was no error.
prefix :
    List CompressedChunk
    → Result CodecError (List CompressedChunk)
    → Result CodecError (List CompressedChunk)
prefix out r = do rest ← r; ok (out ++ rest)

prefix_nil : (r : Result CodecError (List CompressedChunk)) → prefix [] r ≡ r
unfolding prefix
prefix_nil (ok cs) = refl
prefix_nil (err e) = refl

prefix_ok : (out cs : List CompressedChunk) → prefix out (ok cs) ≡ ok (out ++ cs)
unfolding prefix
prefix_ok out cs = refl

prefix_cons :
    (out : List CompressedChunk) (c : CompressedChunk)
    (r : Result CodecError (List CompressedChunk))
    → prefix (out ++ c ∷ []) r ≡ ((r >>= λ rest. ok (c ∷ rest)) >>= λ rest. ok (out ++ rest))
unfolding prefix
prefix_cons out c (ok cs) = ap ok (append_assoc out (c ∷ []) cs)
prefix_cons out c (err e) = refl

-- The closures of the two builds do the same.
compress_chunk_alone-eq :
    (L : Libs) (codec : CodecId) (level : ℤ) (i : ℕ) (chunk : Bytes)
    → compress_chunk_alone L codec level i chunk ≡ compress_chunk L codec level i chunk
unfolding compress_chunk_alone compress_chunk
compress_chunk_alone-eq L codec level i chunk = refl

module _ (L : Libs) (codec : CodecId) (level : ℤ) where
  surface-compress_each :
      (i : ℕ) (chunks : List Bytes) (out : List CompressedChunk)
      → surface L codec level (compress_each L codec level i chunks) out
        ≡ prefix out (compress_sequential L codec level i chunks)
  unfolding surface compress_each compress_sequential prefix
  surface-compress_each i [] out = ap ok (sym (append-nil out))
  surface-compress_each i (chunk ∷ chunks) out =
      elim (Result-cases (compress_chunk L codec level i chunk)) [
        | inr (e, h) ↦ rw (compress_chunk_alone-eq L codec level i chunk, h)
        | inl (c, h) ↦
            rw
              (
                compress_chunk_alone-eq L codec level i chunk,
                h,
                surface-compress_each (i + 1) chunks (out ++ c ∷ []),
              )
              (prefix_cons out c (compress_sequential L codec level (i + 1) chunks))
      ]

  -- All chunks were compressed, from the number `i` on.
  abbrev pub AllCompressed : ℕ → List Bytes → Result CodecError (List CompressedChunk) → Type 0
  AllCompressed i chunks r = (cs : List CompressedChunk) × (r ≡ ok cs) × (length cs ≡ length chunks)

  -- The result is the error of a chunk before which all chunks were compressed.
  pub record FirstError (i : ℕ) (chunks : List Bytes) (r : Result CodecError (List CompressedChunk))
      : Type 0 where
    pub before : List Bytes
    pub chunk : Bytes
    pub after : List Bytes
    pub done : List CompressedChunk
    pub error : CodecError
    pub parts : before ++ chunk ∷ after ≡ chunks
    pub well : surface L codec level (compress_each L codec level i before) [] ≡ ok done
    pub fails : compress_chunk L codec level (i + length before) chunk ≡ err error
    pub result : r ≡ err error

  sequential_cases :
      (i : ℕ) (chunks : List Bytes)
      → AllCompressed i chunks (compress_sequential L codec level i chunks)
        ⊎ FirstError i chunks (compress_sequential L codec level i chunks)
  unfolding compress_sequential surface compress_each
  sequential_cases i [] = inl ([], refl, refl)
  sequential_cases i (chunk ∷ chunks) =
      let alone = compress_chunk_alone-eq L codec level i chunk in
      elim (Result-cases (compress_chunk L codec level i chunk)) [
        | inr (e, h) ↦ inr (record {
          before = [];
          chunk = chunk;
          after = chunks;
          done = [];
          error = e;
          parts = refl;
          well = refl;
          fails = ap (λ n. compress_chunk L codec level n chunk) (omega arith) ∙ h;
          result = rw (alone, h) refl;
        })
        | inl (c, h) ↦ elim (sequential_cases (i + 1) chunks) [
          | inl (cs, all, size) ↦ inl (c ∷ cs, rw (alone, h, all) refl, omega arith)
          | inr f ↦ inr (record {
            before = chunk ∷ f.before;
            chunk = f.chunk;
            after = f.after;
            done = c ∷ f.done;
            error = f.error;
            parts = ap (λ l. chunk ∷ l) f.parts;
            well = rw h (
                surface-compress_each (i + 1) f.before (c ∷ [])
                ∙ ap (prefix (c ∷ []))
                    (sym (surface-compress_each (i + 1) f.before [] ∙ prefix_nil _) ∙ f.well)
                ∙ prefix_ok (c ∷ []) f.done);
            fails = ap (λ n. compress_chunk L codec level n f.chunk) (omega arith) ∙ f.fails;
            result = rw (alone, h, f.result) refl;
          })
        ]
      ]

  -- The parallel build and the sequential build of `compress_chunks_parallel`, each with its own
  -- closure, return the same; and this is either one result for each chunk, or the error of a chunk
  -- with its own number before which all chunks are compressed, whatever comes behind it.
  pub parallel-eq-sequential :
      (chunks : List Bytes)
      → (compress_parallel L codec level chunks ≡ compress_sequential L codec level 0 chunks)
        × (AllCompressed 0 chunks (compress_parallel L codec level chunks)
            ⊎ FirstError 0 chunks (compress_parallel L codec level chunks))
  unfolding compress_parallel
  parallel-eq-sequential chunks =
      let same =
        surface-compress_each 0 chunks []
        ∙ prefix_nil (compress_sequential L codec level 0 chunks) in
      (same, rw same (sequential_cases 0 chunks))

-- The results describe the chunks in order: number, hash, size, and a payload that the codec of this
-- identity decompresses to the chunk.
abbrev pub Describe : Libs → Codec → ℕ → List Bytes → List CompressedChunk → Type 0
Describe L k i [] [] = Unit {0}
Describe L k i [] (c ∷ cs) = ⊥
Describe L k i (chunk ∷ chunks) [] = ⊥
Describe L k i (chunk ∷ chunks) (c ∷ cs) =
    (c.chunk_index ≡ i)
    × (c.content_hash ≡ L.blake3 chunk)
    × (c.orig_size ≡ length chunk)
    × (k.decompress c.payload ≡ ok chunk)
    × Describe L k (i + 1) chunks cs

module _ (L : Libs) (lossless : IsLossless L) (codec : CodecId) (k : Codec) (level : ℤ)
    (found : get_codec L codec ≡ ok k) where
  compress_chunk-describes :
      (i : ℕ) (chunk : Bytes) (c : CompressedChunk)
      → compress_chunk L codec level i chunk ≡ ok c
      → (c.chunk_index ≡ i)
        × (c.content_hash ≡ L.blake3 chunk)
        × (c.orig_size ≡ length chunk)
        × (k.decompress c.payload ≡ ok chunk)
  unfolding compress_chunk
  compress_chunk-describes i chunk c h =
      let (k', g, h1) = >>=-eq-ok (get_codec L codec) _ h in
      let (p, packed, h2) = >>=-eq-ok (k'.compress chunk level) _ h1 in
      let made = ok_injective h2 in
      let back =
        decompress-compress L lossless codec k' k chunk p level g
          (get_codec_by_uuid-uuid L codec ∙ found) packed in
      rw (← made) (refl, refl, refl, back)

  compress_sequential-Describe :
      (i : ℕ) (chunks : List Bytes) (cs : List CompressedChunk)
      → compress_sequential L codec level i chunks ≡ ok cs
      → Describe L k i chunks cs
  unfolding compress_sequential
  compress_sequential-Describe i [] [] h = tt
  compress_sequential-Describe i [] (c ∷ cs) h = cc
  compress_sequential-Describe i (chunk ∷ chunks) cs h =
      let (c, one, h1) = >>=-eq-ok (compress_chunk_alone L codec level i chunk) _ h in
      let (rest, more, h2) = >>=-eq-ok (compress_sequential L codec level (i + 1) chunks) _ h1 in
      subst (Describe L k i (chunk ∷ chunks)) (ok_injective h2) (
        let (index, hash, size, back) =
          compress_chunk-describes i chunk c
            (sym (compress_chunk_alone-eq L codec level i chunk) ∙ one) in
        (index, hash, size, back, compress_sequential-Describe (i + 1) chunks rest more))

  -- With lossless compressors: a successful `compress_chunks_parallel` gives one result for each
  -- chunk, in order, with its number, hash and size, and the codec decompresses each payload to its
  -- chunk.
  pub compress_parallel_lem :
      (chunks : List Bytes) (cs : List CompressedChunk)
      → compress_parallel L codec level chunks ≡ ok cs
      → Describe L k 0 chunks cs
  compress_parallel_lem chunks cs h =
      compress_sequential-Describe 0 chunks cs
        (sym (parallel-eq-sequential L codec level chunks).0 ∙ h)
