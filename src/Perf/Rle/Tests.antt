-- ===== src/Perf/Rle/Tests.antt =====
-- Runs of the filter, after the tests of src/perf.rs.
use cy.Common.{◌≡◌, refl, [], ◌∷◌, some, done}
use cy.Bytes.{to_le_bytes, from_le_bytes}
use cy.Perf.Rle.{
  rle_encode, encode_loop, next_frame, run_length, lit_length, peek_length, rle_decode, decode_loop,
  read_frame, expand,
}

encode_mixed :
    rle_encode (7 ∷ 9 ∷ 9 ∷ 9 ∷ 9 ∷ 9 ∷ 5 ∷ [])
    ≡ done (0 ∷ 1 ∷ 0 ∷ 7 ∷ 1 ∷ 5 ∷ 0 ∷ 9 ∷ 0 ∷ 1 ∷ 0 ∷ 5 ∷ [])
unfolding rle_encode encode_loop next_frame run_length lit_length peek_length to_le_bytes
encode_mixed = refl

decode_mixed :
    rle_decode (0 ∷ 1 ∷ 0 ∷ 7 ∷ 1 ∷ 5 ∷ 0 ∷ 9 ∷ []) ≡ done (some (7 ∷ 9 ∷ 9 ∷ 9 ∷ 9 ∷ 9 ∷ []))
unfolding rle_decode decode_loop read_frame expand from_le_bytes
decode_mixed = refl
