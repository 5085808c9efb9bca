-- ===== src/Recovery/Salvage/Sorting.antt =====
-- `sort_by_key` of src/recovery/scanner.rs on the blocks of a file: the result is in order, and blocks of
-- the same offset keep their order.
use cy.Common.{
  ℕ, ◌≤◌, ◌≡◌, refl, ap, ◌∙◌, false, List, [], ◌∷◌, leb, ◌==◌, Bool-cases, inl, inr, arith, All,
  if◌then◌else◌,
}
use cy.Recovery.{ScannedBlock}
use cy.Recovery.Extract.{offset_of, insert_block, sort_blocks}
use cy.Recovery.Salvage.{at_offset, InOrder}

All-le :
    (a b : ℕ) (sbs : List ScannedBlock)
    → a ≤ b
    → All (λ x. b ≤ offset_of x.header) sbs
    → All (λ x. a ≤ offset_of x.header) sbs
All-le a b [] h all = tt
All-le a b (x ∷ xs) h all =
    (let e : b ≤ offset_of x.header = all.0 in omega arith, All-le a b xs h all.1)

All-insert_block :
    (a : ℕ) (sb : ScannedBlock) (sbs : List ScannedBlock)
    → a ≤ offset_of sb.header
    → All (λ x. a ≤ offset_of x.header) sbs
    → All (λ x. a ≤ offset_of x.header) (insert_block sb sbs)
unfolding insert_block
All-insert_block a sb [] h all = (h, tt)
All-insert_block a sb (x ∷ xs) h all =
    elim (Bool-cases (leb (offset_of sb.header) (offset_of x.header))) [
      | inl first ↦ rw first (h, all)
      | inr later ↦ rw later (all.0, All-insert_block a sb xs h all.1)
    ]

insert_block-InOrder :
    (sb : ScannedBlock) (sbs : List ScannedBlock) → InOrder sbs → InOrder (insert_block sb sbs)
unfolding insert_block
insert_block-InOrder sb [] sorted = (tt, tt)
insert_block-InOrder sb (x ∷ xs) sorted =
    elim (Bool-cases (leb (offset_of sb.header) (offset_of x.header))) [
      | inl first ↦
          let below : offset_of sb.header ≤ offset_of x.header = ground arith in
          rw first
            ((below, All-le (offset_of sb.header) (offset_of x.header) xs below sorted.0), sorted)
      | inr later ↦
          let above : offset_of x.header ≤ offset_of sb.header = ground arith in
          rw later (
            All-insert_block (offset_of x.header) sb xs above sorted.0,
            insert_block-InOrder sb xs sorted.1,
          )
    ]

pub sort_blocks-InOrder : (sbs : List ScannedBlock) → InOrder (sort_blocks sbs)
unfolding sort_blocks
sort_blocks-InOrder [] = tt
sort_blocks-InOrder (sb ∷ sbs) = insert_block-InOrder sb (sort_blocks sbs) (sort_blocks-InOrder sbs)

-- Two blocks of different offsets can be swapped.
at_offset-swap :
    (k : ℕ) (sb x : ScannedBlock) (xs : List ScannedBlock)
    → leb (offset_of sb.header) (offset_of x.header) ≡ false
    → at_offset k (x ∷ sb ∷ xs) ≡ at_offset k (sb ∷ x ∷ xs)
at_offset-swap k sb x xs later = ground arith

at_offset-cons :
    (k : ℕ) (x : ScannedBlock) (xs ys : List ScannedBlock)
    → at_offset k xs ≡ at_offset k ys
    → at_offset k (x ∷ xs) ≡ at_offset k (x ∷ ys)
at_offset-cons k x xs ys h = ap (λ l. if offset_of x.header == k then x ∷ l else l) h

at_offset-insert_block :
    (k : ℕ) (sb : ScannedBlock) (sbs : List ScannedBlock)
    → at_offset k (insert_block sb sbs) ≡ at_offset k (sb ∷ sbs)
unfolding insert_block
at_offset-insert_block k sb [] = refl
at_offset-insert_block k sb (x ∷ xs) =
    elim (Bool-cases (leb (offset_of sb.header) (offset_of x.header))) [
      | inl first ↦ rw first refl
      | inr later ↦ rw later (
          at_offset-cons k x (insert_block sb xs) (sb ∷ xs) (at_offset-insert_block k sb xs)
          ∙ at_offset-swap k sb x xs later)
    ]

pub at_offset-sort_blocks :
    (k : ℕ) (sbs : List ScannedBlock) → at_offset k (sort_blocks sbs) ≡ at_offset k sbs
unfolding sort_blocks
at_offset-sort_blocks k [] = refl
at_offset-sort_blocks k (sb ∷ sbs) =
    at_offset-insert_block k sb (sort_blocks sbs)
    ∙ at_offset-cons k sb (sort_blocks sbs) sbs (at_offset-sort_blocks k sbs)
