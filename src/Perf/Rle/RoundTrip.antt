-- ===== src/Perf/Rle/RoundTrip.antt =====
-- `rle_decode` gives back what `rle_encode` was given (src/perf.rs).
use cy.Common.{
  ℕ, zero, suc, ◌+◌, ◌-◌, ◌*◌, ◌≤◌, ◌≡◌, refl, ap, ◌∙◌, true, false, some, [], ◌∷◌, ◌++◌, arith,
  inl, inr, Bool-cases, ◌==◌, ltb, leb, leb→le, append_assoc, append-nil, length, take, drop,
  replicate, done, length-append, length-take, length-drop, take-append-drop, take-append_exact,
  drop-append_exact,
}
use cy.Bytes.{Bytes, to_le_bytes, from_le_bytes}
use cy.Bytes.Laws.{length-to_le_bytes, from_le_bytes-to_le_bytes}
use cy.Perf.Rle.{
  run_length, peek_length, lit_length, next_frame, encode_loop, rle_encode, expand, read_frame,
  decode_loop, rle_decode,
}

-- A run that starts with `n` copies of `b` goes on for `k` more.
record IsRun (b n k : ℕ) (xs : Bytes) : Type 0 where
  counted : run_length b n xs ≡ n + k
  inside : k ≤ length xs
  small : n + k ≤ 65535
  same : take k xs ≡ replicate k b

run_length_lem : (b n : ℕ) (xs : Bytes) → n ≤ 65535 → (k : ℕ) × IsRun b n k xs
unfolding run_length
run_length_lem b n [] h =
    (0, record { counted = omega arith; inside = omega arith; small = omega arith; same = refl })
run_length_lem b n (x ∷ xs) h = elim (Bool-cases (x == b)) [
  | inr other ↦ (
    0,
    record {
      counted = rw other (omega arith);
      inside = omega arith;
      small = omega arith;
      same = refl;
    },
  )
  | inl same ↦ elim (Bool-cases (ltb n 65535)) [
    | inr full ↦ (
      0,
      record {
        counted = rw (same, full) (omega arith);
        inside = omega arith;
        small = omega arith;
        same = refl;
      },
    )
    | inl more ↦
        let (k, r) = run_length_lem b (suc n) xs (ground arith) in
        (
          suc k,
          record {
            counted = rw (same, more) (omega (arith, r.counted));
            inside = omega (arith, r.inside);
            small = omega (arith, r.small);
            same = ground (arith, r.same);
          },
        )
  ]
]

run_length-grows : (b n : ℕ) (xs : Bytes) → n ≤ run_length b n xs
unfolding run_length
run_length-grows b n [] = omega arith
run_length-grows b n (x ∷ xs) = ground (arith, run_length-grows b (suc n) xs)

-- Peeking sees four of a kind exactly if the run is that long.
peek_length-run_length :
    (b n : ℕ) (xs : Bytes) → n ≤ 4 → leb 4 (peek_length b n xs) ≡ leb 4 (run_length b n xs)
unfolding peek_length run_length
peek_length-run_length b n [] h = refl
peek_length-run_length b n (x ∷ xs) h =
    ground (arith, peek_length-run_length b (suc n) xs, run_length-grows b (suc n) xs)

lit_length-cases :
    (n : ℕ) (xs : Bytes)
    → n ≤ 65535
    → (k : ℕ) × (lit_length n xs ≡ n + k) × (k ≤ length xs) × (n + k ≤ 65535)
unfolding lit_length
lit_length-cases n [] h = (0, omega arith, omega arith, omega arith)
lit_length-cases n (x ∷ xs) h = elim (Bool-cases (ltb n 65535)) [
  | inr full ↦ (0, rw full (omega arith), omega arith, omega arith)
  | inl more ↦ elim (Bool-cases (leb 4 (peek_length x 0 (x ∷ xs)))) [
    | inl run ↦ (0, rw (more, run) (omega arith), omega arith, omega arith)
    | inr short ↦
        let (k, count, inside, small) = lit_length-cases (suc n) xs (ground arith) in
        (suc k, rw (more, short) (omega (arith, count)), omega arith, omega arith)
  ]
]

-- Where no run of four starts, the literal has a byte at least.
lit_length-pos :
    (x : ℕ) (xs : Bytes) → leb 4 (run_length x 1 xs) ≡ false → 1 ≤ lit_length 0 (x ∷ xs)
unfolding lit_length
lit_length-pos x xs h =
    let (k, count, inside, small) = lit_length-cases 1 xs (omega arith) in
    let short : leb 4 (peek_length x 0 (x ∷ xs)) ≡ false =
      rw peek_first (peek_length-run_length x 1 xs (omega arith) ∙ h) in
    rw short (omega (arith, count))
  where
    peek_first : peek_length x 0 (x ∷ xs) ≡ peek_length x 1 xs
    peek_first = unfold peek_length in ground arith

-- A frame over the first `n` bytes of `input`: it is not longer than 4 * n, and the decoder makes of it
-- these bytes, whatever follows.
record IsFrame (input frame : Bytes) (n : ℕ) : Type 0 where
  pos : 1 ≤ n
  inside : n ≤ length input
  long : 4 ≤ length frame
  short : length frame ≤ 4 * n
  decodes :
      (fuel : ℕ) (rest out : Bytes)
      → decode_loop (suc fuel) (frame ++ rest) out ≡ decode_loop fuel rest (out ++ take n input)

count_back :
    (n : ℕ) (rest : Bytes)
    → n ≤ 65535
    → (ltb (length (to_le_bytes 2 n ++ rest)) 2 ≡ false)
      × (from_le_bytes (take 2 (to_le_bytes 2 n ++ rest)) ≡ n)
      × (drop 2 (to_le_bytes 2 n ++ rest) ≡ rest)
count_back n rest h =
    let w = length-to_le_bytes 2 n in
    (
      ground (arith, length-append (to_le_bytes 2 n) rest, w),
      rw (take-append_exact (to_le_bytes 2 n) rest 2 w)
          (from_le_bytes-to_le_bytes 2 n (omega arith)),
      drop-append_exact (to_le_bytes 2 n) rest 2 w,
    )

read_run :
    (n byte : ℕ) (rest : Bytes)
    → n ≤ 65535
    → read_frame 1 (to_le_bytes 2 n ++ byte ∷ rest) ≡ some (replicate n byte, rest)
unfolding read_frame expand
read_run n byte rest h =
    let (enough, count, after) = count_back n (byte ∷ rest) h in rw (enough, after, count)

read_lit :
    (lit rest : Bytes)
    → length lit ≤ 65535
    → read_frame 0 (to_le_bytes 2 (length lit) ++ (lit ++ rest)) ≡ some (lit, rest)
unfolding read_frame expand
read_lit lit rest h =
    let (enough, count, after) = count_back (length lit) (lit ++ rest) h in
    let fits : ltb (length (lit ++ rest)) (length lit) ≡ false =
      ground (arith, length-append lit rest) in
    rw (
      enough,
      count,
      after,
      fits,
      take-append_exact lit rest (length lit) refl,
      drop-append_exact lit rest (length lit) refl,
    )

decode_step :
    (fuel t : ℕ) (rest out : Bytes) {piece after : Bytes}
    → read_frame t rest ≡ some (piece, after)
    → decode_loop (suc fuel) (t ∷ rest) out ≡ decode_loop fuel after (out ++ piece)
unfolding decode_loop
decode_step fuel t rest out e = rw (e, decode_loop)

take_run :
    (x : ℕ) (xs : Bytes) → take (run_length x 1 xs) (x ∷ xs) ≡ replicate (run_length x 1 xs) x
take_run x xs =
    let (k, r) = run_length_lem x 1 xs (omega arith) in
    let e : run_length x 1 xs ≡ suc k = omega (arith, r.counted) in rw (e, r.same)

run-IsFrame :
    (x : ℕ) (xs : Bytes)
    → leb 4 (run_length x 1 xs) ≡ true
    → IsFrame (x ∷ xs) (0x01 ∷ (to_le_bytes 2 (run_length x 1 xs) ++ x ∷ [])) (run_length x 1 xs)
run-IsFrame x xs h =
    let (k, r) = run_length_lem x 1 xs (omega arith) in
    let width = length-to_le_bytes 2 (run_length x 1 xs) in
    let size = length-append (to_le_bytes 2 (run_length x 1 xs)) (x ∷ []) in
    let many : 4 ≤ run_length x 1 xs = leb→le 4 _ h in
    record {
      pos = omega arith;
      inside = omega (arith, r.counted, r.inside);
      long = omega arith;
      short = omega arith;
      decodes = λ fuel rest out.
          rw (take_run x xs, append_assoc (to_le_bytes 2 (run_length x 1 xs)) (x ∷ []) rest)
            (decode_step fuel 1 _ out
              (read_run (run_length x 1 xs) x rest (omega (arith, r.counted, r.small))));
    }

lit_back :
    (n : ℕ) (lit rest : Bytes)
    → length lit ≡ n
    → n ≤ 65535
    → read_frame 0 (to_le_bytes 2 n ++ (lit ++ rest)) ≡ some (lit, rest)
lit_back n lit rest e h = rw (← e) (read_lit lit rest (omega arith))

lit-IsFrame :
    (x : ℕ) (xs : Bytes)
    → leb 4 (run_length x 1 xs) ≡ false
    → IsFrame
        (x ∷ xs)
        (0x00 ∷ (to_le_bytes 2 (lit_length 0 (x ∷ xs)) ++ take (lit_length 0 (x ∷ xs)) (x ∷ xs)))
        (lit_length 0 (x ∷ xs))
lit-IsFrame x xs h =
    let (k, count, inside, small) = lit_length-cases 0 (x ∷ xs) (omega arith) in
    let n : ℕ = lit_length 0 (x ∷ xs) in
    let lit : Bytes = take n (x ∷ xs) in
    let size : length lit ≡ n = omega (arith, length-take n (x ∷ xs), count) in
    let width = length-to_le_bytes 2 n in
    let sum = length-append (to_le_bytes 2 n) lit in
    let some_byte = lit_length-pos x xs h in
    record {
      pos = some_byte;
      inside = omega (arith, count);
      long = omega arith;
      short = omega arith;
      decodes = λ fuel rest out.
          rw (append_assoc (to_le_bytes 2 n) lit rest)
            (decode_step fuel 0 _ out (lit_back n lit rest size (omega (arith, count))));
    }

next_frame-IsFrame : (x : ℕ) (xs : Bytes) → IsFrame (x ∷ xs) (next_frame x xs).0 (next_frame x xs).1
unfolding next_frame
next_frame-IsFrame x xs = elim (Bool-cases (leb 4 (run_length x 1 xs))) [
  | inl run ↦ rw run (run-IsFrame x xs run)
  | inr lit ↦ rw lit (lit-IsFrame x xs lit)
]

-- What the outer loop appends for `input`.
record IsEncoding (fuel : ℕ) (input enc : Bytes) : Type 0 where
  encodes : (out : Bytes) → encode_loop fuel input out ≡ done (out ++ enc)
  decodes :
      (g : ℕ) (out : Bytes) → length enc ≤ g → decode_loop g enc out ≡ done (some (out ++ input))
  bound : length enc ≤ 4 * length input

decode_frame :
    (g : ℕ) (input frame enc : Bytes) (n fuel : ℕ) (out : Bytes)
    → IsFrame input frame n
    → IsEncoding fuel (drop n input) enc
    → length (frame ++ enc) ≤ g
    → decode_loop g (frame ++ enc) out ≡ done (some (out ++ input))
decode_frame zero input frame enc n fuel out f r h =
    absurd (omega (arith, f.long, length-append frame enc))
decode_frame (suc g) input frame enc n fuel out f r h =
    f.decodes g enc out
    ∙ r.decodes g (out ++ take n input) (omega (arith, f.long, length-append frame enc))
    ∙ ap (λ t. done (some t))
        (append_assoc out (take n input) (drop n input)
          ∙ ap (λ t. out ++ t) (take-append-drop n input))

encode_loop-IsEncoding :
    (fuel : ℕ) (input : Bytes) → length input ≤ fuel → (enc : Bytes) × IsEncoding fuel input enc
unfolding encode_loop decode_loop
encode_loop-IsEncoding fuel [] h = (
  [],
  record {
    encodes = λ out. rw append-nil;
    decodes = λ g out _. rw append-nil;
    bound = omega arith;
  },
)
encode_loop-IsEncoding zero (x ∷ xs) h = absurd (omega arith)
encode_loop-IsEncoding (suc fuel) (x ∷ xs) h =
    let f = next_frame-IsFrame x xs in
    let frame : Bytes = (next_frame x xs).0 in
    let n : ℕ = (next_frame x xs).1 in
    let left : length (drop n (x ∷ xs)) ≡ length (x ∷ xs) - n = length-drop n (x ∷ xs) in
    let (enc, r) = encode_loop-IsEncoding fuel (drop n (x ∷ xs)) (omega (arith, f.pos)) in
    let size = length-append frame enc in
    (
      frame ++ enc,
      record {
        encodes = λ out. r.encodes (out ++ frame) ∙ ap done (append_assoc out frame enc);
        decodes = λ g out enough. decode_frame g (x ∷ xs) frame enc n fuel out f r enough;
        bound = omega (arith, f.short, r.bound, f.inside);
      },
    )

-- Encoding ends on every input, and decoding its result ends and gives back the input. The encoding
-- is at most four times as long as the input.
pub rle_roundtrip :
    (input : Bytes)
    → (enc : Bytes) × (rle_encode input ≡ done enc)
      × (rle_decode enc ≡ done (some input))
      × (length enc ≤ 4 * length input)
unfolding rle_encode rle_decode
rle_roundtrip input =
    let (enc, r) = encode_loop-IsEncoding (length input) input (omega arith) in
    (enc, r.encodes [], r.decodes (length enc) [] (omega arith), r.bound)
