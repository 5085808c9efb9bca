-- ===== src/Commands/Readable.antt =====
-- An archive of which `optimize` of src/main.rs can read every file.
use cy.Common.{
  ℕ, zero, suc, ◌+◌, ◌≡◌, refl, sym, ap, ◌∙◌, subst, false, Option, some, List, [], ◌∷◌, Text, ok,
  length, get_elem?, All, some_injective, arith,
}
use cy.Bytes.{Bytes}
use cy.Libs.{Libs}
use cy.Index.{FileIndexRecord, Json}
use cy.Writer.{Host}
use cy.Writer.Files.{chunks}
use cy.Writer.Archive.{Filed}
use cy.Writer.Labels.{names}
use cy.Archive.{Archive, FileInfo, info_of, infos, read_file_by_id}
use cy.Archive.Reopened.{listed}
use cy.Commands.{or_default, read_all}
use cy.Commands.Adding.{names_in, contents_in, Suits}

-- The files of an archive as they are read.
pub listed-read_all :
    (L : Libs) (H : Host) (J : Json) (disk : Text → Option Bytes) (src : Archive)
    (fs : List FileInfo)
    → names_in (read_all L H J disk src fs) ≡ listed fs
unfolding read_all
listed-read_all L H J disk src [] = refl
listed-read_all L H J disk src (f ∷ fs) = ap (λ l. f.name ∷ l) (listed-read_all L H J disk src fs)

-- Every file can be read, in chunks that satisfy `P`.
abbrev pub IsReadable : Libs → (Bytes → Type 0) → ℕ → Archive → List FileInfo → Type 0
IsReadable L P n src fs =
    All (λ f. (d : Bytes) × (read_file_by_id L src f.id ≡ ok d) × All P (chunks n d)) fs

pub read_all_at :
    (L : Libs) (H : Host) (J : Json) (disk : Text → Option Bytes) (P : Bytes → Type 0) (size : ℕ)
    (src : Archive) (fs : List FileInfo) (n : ℕ) (info : FileInfo)
    → IsReadable L P size src fs
    → get_elem? fs n ≡ some info
    → (d : Bytes) × (read_file_by_id L src info.id ≡ ok d)
      × (get_elem? (names_in (read_all L H J disk src fs)) n ≡ some info.name)
      × (get_elem? (contents_in (read_all L H J disk src fs)) n ≡ some d)
unfolding read_all
read_all_at L H J disk P size src [] n info h at = cc at
read_all_at L H J disk P size src (f ∷ fs) zero info h at =
    let same : f ≡ info = some_injective at in
    let (d, read, cut) = h.0 in
    (
      d,
      subst (λ i. read_file_by_id L src i.id ≡ ok d) same read,
      ap (λ i. some i.name) same,
      ap (λ r. some (or_default r)) read,
    )
read_all_at L H J disk P size src (f ∷ fs) (suc n) info h at =
    read_all_at L H J disk P size src fs n info h.1 at

pub read_all-Suits :
    (L : Libs) (H : Host) (J : Json) (disk : Text → Option Bytes) (P : Bytes → Type 0) (size : ℕ)
    (src : Archive) (fs : List FileInfo)
    → IsReadable L P size src fs
    → All (λ f. Suits P size false f.1) (read_all L H J disk src fs)
unfolding read_all
read_all-Suits L H J disk P size src [] h = tt
read_all-Suits L H J disk P size src (f ∷ fs) h =
    let (d, read, cut) = h.0 in
    (
      subst (λ r. All P (chunks size (or_default r))) (sym read) cut,
      read_all-Suits L H J disk P size src fs h.1,
    )

pub length-read_all :
    (L : Libs) (H : Host) (J : Json) (disk : Text → Option Bytes) (src : Archive)
    (fs : List FileInfo)
    → length (read_all L H J disk src fs) ≡ length fs
unfolding read_all
length-read_all L H J disk src [] = refl
length-read_all L H J disk src (f ∷ fs) = omega (arith, length-read_all L H J disk src fs)

-- The files of an opened archive, from the number `i` on.
pub Filed-IsReadable :
    (L : Libs) (P : Bytes → Type 0) (size : ℕ) (key : Option Bytes) (file : Bytes) (a : Archive)
    (i : ℕ) (rs : List FileIndexRecord) (ds : List Bytes)
    → Filed L key file i rs ds
    → ((n : ℕ) (d : Bytes) → get_elem? ds n ≡ some d → read_file_by_id L a (i + n) ≡ ok d)
    → All (λ d. All P (chunks size d)) ds
    → IsReadable L P size a (infos rs)
unfolding info_of
Filed-IsReadable L P size key file a i [] ds f reads cut = tt
Filed-IsReadable L P size key file a i (r ∷ rs) [] f reads cut = elim f [ ]
Filed-IsReadable L P size key file a i (r ∷ rs) (d ∷ ds) (id, _, _, f) reads cut = (
  (d, ap (read_file_by_id L a) (let e : r.id ≡ i + 0 = omega arith in e) ∙ reads 0 d refl, cut.0),
  Filed-IsReadable L P size key file a (i + 1) rs ds f
      (λ n d' at.
        ap (read_file_by_id L a) (let e : i + 1 + n ≡ i + suc n = omega arith in e)
        ∙ reads (suc n) d' at)
      cut.1,
)

-- The entry of a file that has a name.
pub named_at :
    (rs : List FileIndexRecord) (n : ℕ) (name : Text)
    → get_elem? (names rs) n ≡ some name
    → (info : FileInfo) × (get_elem? (infos rs) n ≡ some info) × (info.name ≡ name)
unfolding info_of
named_at [] n name at = cc at
named_at (r ∷ rs) zero name at = (info_of r, refl, some_injective at)
named_at (r ∷ rs) (suc n) name at = named_at rs n name at

-- What is read of an opened archive.
pub Filed-read_all :
    (L : Libs) (H : Host) (J : Json) (disk : Text → Option Bytes) (key : Option Bytes)
    (file : Bytes) (a : Archive) (i : ℕ) (rs : List FileIndexRecord) (ds : List Bytes)
    → Filed L key file i rs ds
    → ((n : ℕ) (d : Bytes) → get_elem? ds n ≡ some d → read_file_by_id L a (i + n) ≡ ok d)
    → contents_in (read_all L H J disk a (infos rs)) ≡ ds
unfolding read_all info_of
Filed-read_all L H J disk key file a i [] [] f reads = refl
Filed-read_all L H J disk key file a i [] (d ∷ ds) f reads = elim f [ ]
Filed-read_all L H J disk key file a i (r ∷ rs) [] f reads = elim f [ ]
Filed-read_all L H J disk key file a i (r ∷ rs) (d ∷ ds) (id, _, _, f) reads =
    let first : read_file_by_id L a r.id ≡ ok d =
      ap (read_file_by_id L a) (let e : r.id ≡ i + 0 = omega arith in e) ∙ reads 0 d refl in
    let rest = Filed-read_all L H J disk key file a (i + 1) rs ds f (λ n d' at.
      ap (read_file_by_id L a) (let e : i + 1 + n ≡ i + suc n = omega arith in e)
      ∙ reads (suc n) d' at) in
    ap (λ r. or_default r ∷ contents_in (read_all L H J disk a (infos rs))) first
    ∙ ap (λ l. d ∷ l) rest

-- Names and contents are all there is to named files.
pub same_files :
    (xs ys : List (Text × Bytes))
    → names_in xs ≡ names_in ys
    → contents_in xs ≡ contents_in ys
    → xs ≡ ys
same_files [] [] p q = refl
same_files [] (y ∷ ys) p q = cc p
same_files (x ∷ xs) [] p q = cc p
same_files (x ∷ xs) (y ∷ ys) p q =
    let name : x.0 ≡ y.0 = cc p in
    let contents : x.1 ≡ y.1 = cc q in
    let rest : xs ≡ ys = same_files xs ys (cc p) (cc q) in
    ap (λ n. (n, x.1) ∷ xs) name ∙ ap (λ c. (y.0, c) ∷ xs) contents ∙ ap (λ l. y ∷ l) rest
