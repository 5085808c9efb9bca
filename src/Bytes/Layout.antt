-- ===== src/Bytes/Layout.antt =====
-- A buffer as a row of fields of given widths: a field that is written behind others is the slice at
-- its offset, and the slices of a buffer, put together, are the buffer.
use cy.Common.{
  ℕ, zero, suc, ◌+◌, ◌-◌, ◌≤◌, ◌≡◌, refl, sym, List, [], ◌∷◌, ◌++◌, arith, length, take, drop,
  length-append, take-append-drop, take-append_exact, drop-append_ge, length-take, length-drop,
  append_assoc, drop-drop, drop-all,
}
use cy.Bytes.{Bytes, slice}

-- The bytes of the fields, in order.
abbrev pub concat : List Bytes → Bytes
concat [] = []
concat (f ∷ fs) = f ++ concat fs

abbrev pub total : List ℕ → ℕ
total [] = 0
total (w ∷ ws) = w + total ws

-- The fields have the widths.
abbrev pub Fits : List ℕ → List Bytes → Type 0
Fits [] [] = Unit {0}
Fits [] (f ∷ fs) = ⊥
Fits (w ∷ ws) [] = ⊥
Fits (w ∷ ws) (f ∷ fs) = (length f ≡ w) × Fits ws fs

-- Field number `k`.
abbrev pub field_at : ℕ → List Bytes → Bytes
field_at k [] = []
field_at zero (f ∷ fs) = f
field_at (suc k) (f ∷ fs) = field_at k fs

-- The width of field `k`.
abbrev pub width_at : ℕ → List ℕ → ℕ
width_at k [] = 0
width_at zero (w ∷ ws) = w
width_at (suc k) (w ∷ ws) = width_at k ws

pub length-concat : (ws : List ℕ) (fs : List Bytes) → Fits ws fs → length (concat fs) ≡ total ws
length-concat [] [] h = refl
length-concat [] (f ∷ fs) h = elim h [ ]
length-concat (w ∷ ws) [] h = elim h [ ]
length-concat (w ∷ ws) (f ∷ fs) h =
    let e : length f ≡ w = h.0 in
    omega (arith, length-append f (concat fs), length-concat ws fs h.1)

-- The slice at a field's offset is the field.
pub slice-concat :
    (ws : List ℕ) (fs : List Bytes) (k : ℕ)
    → Fits ws fs
    → take (width_at k ws) (drop (total (take k ws)) (concat fs)) ≡ field_at k fs
slice-concat [] [] zero h = refl
slice-concat [] [] (suc k) h = refl
slice-concat [] (f ∷ fs) k h = elim h [ ]
slice-concat (w ∷ ws) [] k h = elim h [ ]
slice-concat (w ∷ ws) (f ∷ fs) zero h = take-append_exact f (concat fs) w h.0
slice-concat (w ∷ ws) (f ∷ fs) (suc k) h =
    let e : length f ≡ w = h.0 in
    let past =
      drop-append_ge (w + total (take k ws)) (total (take k ws)) f (concat fs) (omega arith) in
    rw past (slice-concat ws fs k h.1)

-- All slices of a buffer, from offset `o` on.
abbrev pub cut : ℕ → List ℕ → Bytes → List Bytes
cut o [] buf = []
cut o (w ∷ ws) buf = slice o (o + w) buf ∷ cut (o + w) ws buf

pub concat-cut :
    (o : ℕ) (ws : List ℕ) (buf : Bytes)
    → length buf ≡ o + total ws
    → concat (cut o ws buf) ≡ drop o buf
concat-cut o [] buf h = sym (drop-all o buf (omega arith))
concat-cut o (w ∷ ws) buf h =
    let e : o + w - o ≡ w = omega arith in
    rw (e, concat-cut (o + w) ws buf (omega arith), ← drop-drop o w buf)
      (take-append-drop w (drop o buf))

pub length-slice : (i j : ℕ) (buf : Bytes) → i ≤ j → j ≤ length buf → length (slice i j buf) ≡ j - i
length-slice i j buf h k = omega (arith, length-take (j - i) (drop i buf), length-drop i buf)

pub concat-append : (fs gs : List Bytes) → concat (fs ++ gs) ≡ concat fs ++ concat gs
concat-append [] gs = refl
concat-append (f ∷ fs) gs = rw (concat-append fs gs) (sym (append_assoc f (concat fs) (concat gs)))
