-- ===== src/Bytes/Laws.antt =====
-- Laws of the little-endian fields and of `==` on byte arrays.
use cy.Common.{
  ℕ, zero, suc, ◌+◌, ◌*◌, ◌/◌, ◌%◌, ◌^◌, ◌<◌, ◌≡◌, refl, ◌↔◌, [], ◌∷◌, true, arith, length,
}
use cy.Bytes.{IsBytes, Bytes, to_le_bytes, from_le_bytes, bytes_eq}
use native.Mathlib.Nat.{pow-suc}

pub length-to_le_bytes : (w v : ℕ) → length (to_le_bytes w v) ≡ w
unfolding to_le_bytes
length-to_le_bytes zero v = refl
length-to_le_bytes (suc w) v = omega (arith, length-to_le_bytes w (v / 256))

pub to_le_bytes-IsBytes : (w v : ℕ) → IsBytes (to_le_bytes w v)
unfolding to_le_bytes
to_le_bytes-IsBytes zero v = tt
to_le_bytes-IsBytes (suc w) v = (omega arith, to_le_bytes-IsBytes w (v / 256))

pub from_le_bytes-to_le_bytes : (w v : ℕ) → v < 256 ^ w → from_le_bytes (to_le_bytes w v) ≡ v
unfolding to_le_bytes from_le_bytes
from_le_bytes-to_le_bytes zero v h = omega arith
from_le_bytes-to_le_bytes (suc w) v h =
    omega (arith, from_le_bytes-to_le_bytes w (v / 256) (omega (arith, pow-suc 256 w)))

pub to_le_bytes-from_le_bytes :
    (w : ℕ) (bs : Bytes) → IsBytes bs → length bs ≡ w → to_le_bytes w (from_le_bytes bs) ≡ bs
unfolding to_le_bytes from_le_bytes
to_le_bytes-from_le_bytes zero [] h e = refl
to_le_bytes-from_le_bytes zero (b ∷ bs) h e = absurd (omega arith)
to_le_bytes-from_le_bytes (suc w) [] h e = absurd (omega arith)
to_le_bytes-from_le_bytes (suc w) (b ∷ bs) h e =
    let hb : b < 256 = h.0 in
    let low : (b + 256 * from_le_bytes bs) % 256 ≡ b = omega arith in
    let high : (b + 256 * from_le_bytes bs) / 256 ≡ from_le_bytes bs = omega arith in
    rw (low, high, to_le_bytes-from_le_bytes w bs h.1 (omega arith))

pub from_le_bytes-lt :
    (w : ℕ) (bs : Bytes) → IsBytes bs → length bs ≡ w → from_le_bytes bs < 256 ^ w
unfolding from_le_bytes
from_le_bytes-lt zero [] h e = omega arith
from_le_bytes-lt zero (b ∷ bs) h e = absurd (omega arith)
from_le_bytes-lt (suc w) [] h e = absurd (omega arith)
from_le_bytes-lt (suc w) (b ∷ bs) h e =
    let hb : b < 256 = h.0 in omega (arith, pow-suc 256 w, from_le_bytes-lt w bs h.1 (omega arith))

pub bytes_eq_refl : (as' : Bytes) → bytes_eq as' as' ≡ true
unfolding bytes_eq
bytes_eq_refl [] = refl
bytes_eq_refl (a ∷ as') = ground (arith, bytes_eq_refl as')

pub bytes_eq→eq : (as' bs : Bytes) → bytes_eq as' bs ≡ true → as' ≡ bs
unfolding bytes_eq
bytes_eq→eq [] [] h = refl
bytes_eq→eq [] (b ∷ bs) h = cc
bytes_eq→eq (a ∷ as') [] h = cc
bytes_eq→eq (a ∷ as') (b ∷ bs) h = ground (arith, bytes_eq→eq as' bs)

pub bytes_eq_iff : (as' bs : Bytes) → (bytes_eq as' bs ≡ true) ↔ (as' ≡ bs)
bytes_eq_iff as' bs = (bytes_eq→eq as' bs, λ e. rw e (bytes_eq_refl bs))
