-- ===== src/Perf/Rle.antt =====
-- `rle_encode` and `rle_decode` of src/perf.rs. An index `i` into the data is modelled by what stands
-- from `i` on. Each loop runs on fuel; `out_of_fuel` is no value of the code.
pub mod RoundTrip
pub mod Total
mod Tests
use cy.Common.{
  ℕ, zero, suc, Option, none, some, List, [], ◌∷◌, ◌++◌, ◌&&◌, not, ◌==◌, ltb, leb, if◌then◌else◌,
  length, take, drop, replicate, Run, done, out_of_fuel,
}
use cy.Bytes.{Bytes, to_le_bytes, from_le_bytes}

-- The `while` that detects a run of `b`: `n` is `run_len`, the list what it has not reached.
unfoldable pub run_length : ℕ → ℕ → Bytes → ℕ
run_length b n [] = n
run_length b n (x ∷ xs) = if x == b && ltb n 65535 then run_length b (suc n) xs else n

-- The `while` that peeks for a run of four.
unfoldable pub peek_length : ℕ → ℕ → Bytes → ℕ
peek_length b n [] = n
peek_length b n (x ∷ xs) = if x == b && ltb n 4 then peek_length b (suc n) xs else n

-- The `while` that accumulates literal bytes: `n` is `lit_len`.
unfoldable pub lit_length : ℕ → Bytes → ℕ
lit_length n [] = n
lit_length n (x ∷ xs) =
    if not (ltb n 65535)
    then n
    else if leb 4 (peek_length x 0 (x ∷ xs))
    then n
    else lit_length (suc n) xs

-- One round of the outer loop at the byte `x`: the frame that is pushed, and how far `i` moves.
unfoldable pub next_frame : ℕ → Bytes → Bytes × ℕ
next_frame x xs =
    let run_len = run_length x 1 xs in
    let lit_len = lit_length 0 (x ∷ xs) in
    if leb 4 run_len
    then (0x01 ∷ (to_le_bytes 2 run_len ++ x ∷ []), run_len)
    else (0x00 ∷ (to_le_bytes 2 lit_len ++ take lit_len (x ∷ xs)), lit_len)

unfoldable pub encode_loop : ℕ → Bytes → Bytes → Run Bytes
encode_loop fuel [] out = done out
encode_loop zero (x ∷ xs) out = out_of_fuel
encode_loop (suc fuel) (x ∷ xs) out =
    let (frame, n) = next_frame x xs in encode_loop fuel (drop n (x ∷ xs)) (out ++ frame)

-- Every frame takes a byte at least, so as many rounds as bytes are enough.
unfoldable pub rle_encode : Bytes → Run Bytes
rle_encode input = encode_loop (length input) input []

-- The `match frame_type`, behind the count: the bytes that are appended, and what is left.
unfoldable pub expand : ℕ → ℕ → Bytes → Option (Bytes × Bytes)
expand frame_type count rest =
    if frame_type == 0x00
    then (if ltb (length rest) count then none else some (take count rest, drop count rest))
    else if frame_type == 0x01
    then elim rest [ [] ↦ none | byte ∷ after ↦ some (replicate count byte, after) ]
    else none

-- One frame behind its type byte.
unfoldable pub read_frame : ℕ → Bytes → Option (Bytes × Bytes)
read_frame frame_type rest =
    if ltb (length rest) 2
    then none
    else expand frame_type (from_le_bytes (take 2 rest)) (drop 2 rest)

unfoldable pub decode_loop : ℕ → Bytes → Bytes → Run (Option Bytes)
decode_loop fuel [] out = done (some out)
decode_loop zero (t ∷ rest) out = out_of_fuel
decode_loop (suc fuel) (t ∷ rest) out = elim (read_frame t rest) [
  | none ↦ done none
  | some (piece, after) ↦ decode_loop fuel after (out ++ piece)
]

unfoldable pub rle_decode : Bytes → Run (Option Bytes)
rle_decode input = decode_loop (length input) input []
