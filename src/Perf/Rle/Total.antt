-- ===== src/Perf/Rle/Total.antt =====
-- `rle_decode` of src/perf.rs ends on every input, well formed or not.
use cy.Common.{
  ℕ, zero, suc, ◌≤◌, ◌≡◌, refl, Option, none, some, [], ◌∷◌, ◌++◌, inl, inr, arith, Option-cases,
  length, take, drop, length-drop, done,
}
use cy.Bytes.{Bytes, from_le_bytes}
use cy.Perf.Rle.{expand, read_frame, decode_loop, rle_decode}

expand_shrinks :
    (t count : ℕ) (rest : Bytes) {piece after : Bytes}
    → expand t count rest ≡ some (piece, after)
    → length after ≤ length rest
unfolding expand
expand_shrinks t count [] h = ground (arith, length-drop {A = ℕ} count [])
expand_shrinks t count (b ∷ bs) h = ground (arith, length-drop count (b ∷ bs))

read_frame_shrinks :
    (t : ℕ) (rest : Bytes) {piece after : Bytes}
    → read_frame t rest ≡ some (piece, after)
    → length after ≤ length rest
unfolding read_frame
read_frame_shrinks t rest h = ground (
  arith,
  length-drop 2 rest,
  expand_shrinks t (from_le_bytes (take 2 rest)) (drop 2 rest) (piece_of h),
)
  where
    piece_of :
        {piece after : Bytes}
        → read_frame t rest ≡ some (piece, after)
        → expand t (from_le_bytes (take 2 rest)) (drop 2 rest) ≡ some (piece, after)
    piece_of h = ground arith

decode_loop_total :
    (fuel : ℕ) (input out : Bytes)
    → length input ≤ fuel
    → (r : Option Bytes) × (decode_loop fuel input out ≡ done r)
unfolding decode_loop
decode_loop_total fuel [] out h = (some out, refl)
decode_loop_total zero (t ∷ rest) out h = absurd (omega arith)
decode_loop_total (suc fuel) (t ∷ rest) out h = elim (Option-cases (read_frame t rest)) [
  | inl e ↦ (none, rw (e, decode_loop))
  | inr ((piece, after), e) ↦
      rw (e, decode_loop)
        (decode_loop_total fuel after (out ++ piece) (omega (arith, read_frame_shrinks t rest e)))
]

-- Decoding ends on every input, well formed or not, with data or with `None`: the fuel that
-- `rle_decode` takes is enough.
pub rle_decode_total : (input : Bytes) → (r : Option Bytes) × (rle_decode input ≡ done r)
unfolding rle_decode
rle_decode_total input = decode_loop_total (length input) input [] (omega arith)
