-- ===== src/Io/Laws.antt =====
-- What a successful `read_exact` returns, and that more input behind it changes nothing.
use cy.Common.{
  ℕ, ◌≤◌, ◌≡◌, refl, Bool, true, false, Result, ◌>>◌, ap, ◌++◌, inl, inr, ok, arith, leb, le→leb,
  leb→le, Bool-cases, length, take, drop, length-append, take-append_le, drop-append_le,
  take-append_exact, drop-append_exact, ok_injective,
}
use cy.Bytes.{Bytes}
use cy.Io.{require, read_exact}

pub read_exact-long : (n : ℕ) (r : Bytes) → n ≤ length r → read_exact n r ≡ ok (take n r, drop n r)
unfolding read_exact
read_exact-long n r h = rw (le→leb n (length r) h)

pub read_exact-eq-ok :
    (n : ℕ) (r buf rest : Bytes)
    → read_exact n r ≡ ok (buf, rest)
    → (n ≤ length r) × (take n r ≡ buf) × (drop n r ≡ rest)
unfolding read_exact
read_exact-eq-ok n r buf rest e = elim (Bool-cases (leb n (length r))) [
  | inl long ↦
      let p = ok_injective (rw long at e) in
      (leb→le n (length r) long, ap (λ q. q.0) p, ap (λ q. q.1) p)
  | inr short ↦ cc (e, short)
]

-- Reading exactly the front.
pub read_exact-append :
    (n : ℕ) (buf rest : Bytes) → length buf ≡ n → read_exact n (buf ++ rest) ≡ ok (buf, rest)
read_exact-append n buf rest h = rw (
  read_exact-long n (buf ++ rest) (omega (arith, length-append buf rest)),
  take-append_exact buf rest n h,
  drop-append_exact buf rest n h,
)

-- More bytes behind the reader's end stay unread.
pub read_exact-more :
    (n : ℕ) (r more buf rest : Bytes)
    → read_exact n r ≡ ok (buf, rest)
    → read_exact n (r ++ more) ≡ ok (buf, rest ++ more)
read_exact-more n r more buf rest e =
    let (long, front, back) = read_exact-eq-ok n r buf rest e in
    rw (
      read_exact-long n (r ++ more) (omega (arith, length-append r more)),
      take-append_le n r more long,
      drop-append_le n r more long,
      front,
      back,
    )

-- A check that was passed, and the rest of the block.
pub require-then :
    {E A : Type 0} (b : Bool) (e : E) (k : Result E A) {a : A}
    → (require b e >> k) ≡ ok a
    → (b ≡ true) × (k ≡ ok a)
require-then true e k h = (refl, h)
require-then false e k h = cc
