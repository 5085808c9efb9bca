-- ===== src/Perf/WriteBuffer/Laws.antt =====
-- `WriteBuffer` refines a plain writer: behind it every byte arrives once and in order.
use cy.Common.{
  ℕ, ◌+◌, ◌<◌, ◌≡◌, refl, sym, ap, ◌∙◌, List, [], ◌∷◌, ◌++◌, append_assoc, append-nil, inl, inr,
  Bool-cases, leb, arith, length, length-append, max,
}
use cy.Bytes.{Bytes}
use cy.Bytes.Layout.{concat}
use cy.Perf.WriteBuffer.{WriteBuffer, new, write, flush, write_each}

-- What a plain writer would hold.
abbrev pub contents : WriteBuffer → Bytes
contents w = w.inner ++ w.buf

-- The buffer is shorter than the capacity, or empty.
abbrev pub IsBuffer : WriteBuffer → Type 0
IsBuffer w = length w.buf < max w.capacity 1

record Wrote (w w' : WriteBuffer) (bytes : Bytes) : Type 0 where
  arrived : contents w' ≡ contents w ++ bytes
  within : IsBuffer w'
  counted : w'.bytes_written ≡ w.bytes_written + length bytes
  same_capacity : w'.capacity ≡ w.capacity

write-Wrote : (w : WriteBuffer) (bytes : Bytes) → Wrote w (write w bytes).0 bytes
unfolding write
write-Wrote w bytes = elim (Bool-cases (leb w.capacity (length bytes))) [
  | inl large ↦ rw large (record {
    arrived = append-nil _;
    within = omega arith;
    counted = refl;
    same_capacity = refl;
  })
  | inr small ↦ elim (Bool-cases (leb w.capacity (length (w.buf ++ bytes)))) [
    | inl full ↦
        rw (small, full)
          (record {
            arrived = append-nil _ ∙ sym (append_assoc w.inner w.buf bytes);
            within = omega arith;
            counted = refl;
            same_capacity = refl;
          })
    | inr room ↦
        rw (small, room)
          (record {
            arrived = sym (append_assoc w.inner w.buf bytes);
            within = ground arith;
            counted = refl;
            same_capacity = refl;
          })
  ]
]

-- Every `write` takes all of its bytes: they stand behind what was written before, across the inner
-- writer and the buffer, the counter grows by their number, and the buffer stays below its
-- capacity.
pub write_lem :
    (w : WriteBuffer) (bytes : Bytes)
    → (contents (write w bytes).0 ≡ contents w ++ bytes)
      × IsBuffer (write w bytes).0
      × ((write w bytes).0.bytes_written ≡ w.bytes_written + length bytes)
      × ((write w bytes).1 ≡ length bytes)
write_lem w bytes =
    let r = write-Wrote w bytes in (r.arrived, r.within, r.counted, unfold write in refl)

empty_of : (b : Bytes) → length b ≡ 0 → b ≡ []
empty_of [] h = refl
empty_of (x ∷ b) h = absurd (omega arith)

flush_contents : (w : WriteBuffer) → ((flush w).inner ≡ contents w) × ((flush w).buf ≡ [])
unfolding flush
flush_contents w = elim (Bool-cases (leb 1 (length w.buf))) [
  | inl full ↦ rw full (refl, refl)
  | inr empty ↦
      let none_left : w.buf ≡ [] = empty_of w.buf (ground arith) in
      rw empty (sym (ap (λ t. w.inner ++ t) none_left ∙ append-nil w.inner), none_left)
]

write_each-contents :
    (w : WriteBuffer) (bs : List Bytes)
    → (contents (write_each w bs) ≡ contents w ++ concat bs)
      × ((write_each w bs).bytes_written ≡ w.bytes_written + length (concat bs))
unfolding write_each
write_each-contents w [] = (sym (append-nil _), omega arith)
write_each-contents w (b ∷ bs) =
    let r = write-Wrote w b in
    let (arrived, counted) = write_each-contents (write w b).0 bs in
    (
      arrived ∙ ap (λ t. t ++ concat bs) r.arrived ∙ append_assoc (contents w) b (concat bs),
      omega (arith, counted, r.counted, length-append b (concat bs)),
    )

-- Whatever is written in whatever pieces through a buffer of whatever capacity: after a `flush` the
-- inner writer holds exactly these bytes in order, the buffer is empty, and the counter was their
-- number.
pub flush-write_each :
    (capacity : ℕ) (bs : List Bytes)
    → ((flush (write_each (new [] capacity) bs)).inner ≡ concat bs)
      × ((flush (write_each (new [] capacity) bs)).buf ≡ [])
      × ((write_each (new [] capacity) bs).bytes_written ≡ length (concat bs))
flush-write_each capacity bs =
    let (arrived, counted) = write_each-contents (new [] capacity) bs in
    let (all, empty) = flush_contents (write_each (new [] capacity) bs) in
    (all ∙ arrived ∙ (unfold new in refl), empty, counted ∙ (unfold new in omega arith))
