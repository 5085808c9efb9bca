-- ===== src/Commands/Adding.antt =====
-- How the commands of src/main.rs fill a new archive: as the batches that the archive facade takes.
use cy.Common.{
  ℕ, ok_injective, ◌≡◌, ◌≤◌, refl, sym, ap, ◌∙◌, Bool, true, false, Option, some, List, [], ◌∷◌,
  append-nil, Text, Result, ok, err, length, All, arith,
}
use cy.Bytes.{Bytes, bytes_eq}
use cy.Errors.{IoError}
use cy.Libs.{Libs}
use cy.Codec.{CodecId}
use cy.Index.{Json}
use cy.Writer.{Host, SixCyWriter, start_solid_session}
use cy.Writer.Files
use cy.Writer.Files.{chunks}
use cy.Writer.Packing.{Input, contents_of}
use cy.Writer.Batches.{Batch, single, solid, all_contents}
use cy.Writer.Labels.{names_of, all_names}
use cy.Writer.Packed.{IsPackable}
use cy.Archive.{Archive, Folder, and_then, add_file, add_file_with_codec, begin_solid, end_solid}
use cy.Archive.Filling.{open_for, add_each, fill_batch, fill, lifted}
use cy.Archive.RoundTrip.{put_all}
use cy.Commands.{disk_with, finished, add_inputs, pack_inputs, add_all}

-- Named files as what the writer is given.
abbrev pub given : CodecId → List (Text × Bytes) → List Input
given codec [] = []
given codec (f ∷ fs) = record { name = f.0; contents = f.1; codec = codec } ∷ given codec fs

abbrev pub each : List Input → List Batch
each [] = []
each (f ∷ fs) = single f ∷ each fs

-- One solid session, or single files.
abbrev pub batches : Bool → CodecId → List (Text × Bytes) → List Batch
batches true codec files = solid codec (given codec files) ∷ []
batches false codec files = each (given codec files)

abbrev pub names_in : List (Text × Bytes) → List Text
names_in [] = []
names_in (f ∷ fs) = f.0 ∷ names_in fs

abbrev pub contents_in : List (Text × Bytes) → List Bytes
contents_in [] = []
contents_in (f ∷ fs) = f.1 ∷ contents_in fs

names_of-given :
    (c : CodecId) (files : List (Text × Bytes)) → names_of (given c files) ≡ names_in files
names_of-given c [] = refl
names_of-given c (f ∷ fs) = ap (λ l. f.0 ∷ l) (names_of-given c fs)

contents_of-given :
    (c : CodecId) (files : List (Text × Bytes)) → contents_of (given c files) ≡ contents_in files
contents_of-given c [] = refl
contents_of-given c (f ∷ fs) = ap (λ l. f.1 ∷ l) (contents_of-given c fs)

pub all_names-batches :
    (s : Bool) (c : CodecId) (files : List (Text × Bytes))
    → all_names (batches s c files) ≡ names_in files
all_names-batches true c files = append-nil (names_of (given c files)) ∙ names_of-given c files
all_names-batches false c [] = refl
all_names-batches false c (f ∷ fs) = ap (λ l. f.0 ∷ l) (all_names-batches false c fs)

pub all_contents-batches :
    (s : Bool) (c : CodecId) (files : List (Text × Bytes))
    → all_contents (batches s c files) ≡ contents_in files
all_contents-batches true c files =
    append-nil (contents_of (given c files)) ∙ contents_of-given c files
all_contents-batches false c [] = refl
all_contents-batches false c (f ∷ fs) = ap (λ l. f.1 ∷ l) (all_contents-batches false c fs)

pub length-contents_in : (files : List (Text × Bytes)) → length (contents_in files) ≡ length files
length-contents_in [] = refl
length-contents_in (f ∷ fs) = omega (arith, length-contents_in fs)

-- What a file's contents have to be: in a solid session not empty, else in chunks that satisfy `P`.
abbrev pub Suits : (Bytes → Type 0) → ℕ → Bool → Bytes → Type 0
Suits P n true d = 1 ≤ length d
Suits P n false d = All P (chunks n d)

given-Suits :
    (P : Bytes → Type 0) (n : ℕ) (c : CodecId) (files : List (Text × Bytes))
    → All (λ f. Suits P n true f.1) files
    → All (λ f. 1 ≤ length f.contents) (given c files)
given-Suits P n c [] h = tt
given-Suits P n c (f ∷ fs) h = (h.0, given-Suits P n c fs h.1)

pub batches-IsPackable :
    (P : Bytes → Type 0) (n : ℕ) (s : Bool) (c : CodecId) (files : List (Text × Bytes))
    → All (λ f. Suits P n s f.1) files
    → All (IsPackable P n) (batches s c files)
batches-IsPackable P n true c files h = (given-Suits P n c files h, tt)
batches-IsPackable P n false c [] h = tt
batches-IsPackable P n false c (f ∷ fs) h = (h.0, batches-IsPackable P n false c fs h.1)

-- A run that gave an archive went well, step by step.
pub finished-ok :
    (r : Result IoError (Unit {0}) × Archive) (f : Archive → Result IoError (Unit {0}) × Archive)
    (a : Archive)
    → finished (and_then r f) ≡ ok a
    → (r ≡ (ok tt, r.1)) × (f r.1 ≡ (ok tt, a))
finished-ok (err e, b) f a h = cc h
finished-ok (ok u, b) f a h = (refl, both (f b) h)
  where
    both : (q : Result IoError (Unit {0}) × Archive) → finished q ≡ ok a → q ≡ (ok tt, a)
    both (ok u, c) h = ap (λ x. (ok tt, x)) (ok_injective h)
    both (err e, c) h = cc h

-- The paths stand on the disk, with the names that are given to their files, and none is that of the new
-- archive.
abbrev pub Stands :
    (Text → Option Bytes) → Text → (Text → Option Text) → List Text → List (Text × Bytes) → Type 0
Stands disk path file_name [] [] = Unit {0}
Stands disk path file_name [] (f ∷ fs) = ⊥
Stands disk path file_name (p ∷ ps) [] = ⊥
Stands disk path file_name (p ∷ ps) (f ∷ fs) =
    (bytes_eq p path ≡ false)
    × (file_name p ≡ some f.0)
    × (disk p ≡ some f.1)
    × Stands disk path file_name ps fs

module _ (L : Libs) (H : Host) (J : Json) (disk : Text → Option Bytes) (path : Text)
    (codec : CodecId) where
  pub same_next :
      (r : Result IoError (Unit {0}) × SixCyWriter)
      (f g : Archive → Result IoError (Unit {0}) × Archive)
      → ((w : SixCyWriter) → f (open_for path codec w) ≡ g (open_for path codec w))
      → and_then (lifted L H path codec r) f ≡ and_then (lifted L H path codec r) g
  same_next (ok u, w) f g h = h w
  same_next (err e, w) f g h = refl

  and_then-last : (r : Result IoError (Unit {0}) × Archive) → and_then r (λ a. (ok tt, a)) ≡ r
  and_then-last (ok u, a) = refl
  and_then-last (err e, a) = refl

  pub add_all-fill :
      (files : List (Text × Bytes)) (w : SixCyWriter)
      → add_all L H J disk files (open_for path codec w)
        ≡ fill L H (batches false codec files) (open_for path codec w)
  unfolding add_all fill fill_batch add_file add_file_with_codec
  add_all-fill [] w = refl
  add_all-fill (f ∷ fs) w =
      same_next (Files.add_file L H f.0 f.1 codec w) _ _ (λ v. add_all-fill fs v)

  add_inputs-each :
      (file_name : Text → Option Text) (ps : List Text) (files : List (Text × Bytes))
      (w : SixCyWriter)
      → Stands disk path file_name ps files
      → add_inputs L H J disk file_name ps (open_for path codec w)
        ≡ add_each L H (given codec files) (open_for path codec w)
  unfolding add_inputs add_each disk_with add_file add_file_with_codec
  add_inputs-each file_name [] [] w s = refl
  add_inputs-each file_name [] (f ∷ fs) w s = elim s [ ]
  add_inputs-each file_name (p ∷ ps) [] w s = elim s [ ]
  add_inputs-each file_name (p ∷ ps) (f ∷ fs) w (other, named, there, s) =
      rw (other, named, there)
        (same_next (Files.add_file L H f.0 f.1 codec w) _ _
          (λ v. add_inputs-each file_name ps fs v s))

  each-fill :
      (fs : List (Text × Bytes)) (w : SixCyWriter)
      → add_each L H (given codec fs) (open_for path codec w)
        ≡ fill L H (each (given codec fs)) (open_for path codec w)
  unfolding add_each fill fill_batch add_file_with_codec
  each-fill [] w = refl
  each-fill (f ∷ fs) w = same_next (Files.add_file L H f.0 f.1 codec w) _ _ (λ v. each-fill fs v)

  pub pack_inputs-fill :
      (file_name : Text → Option Text) (s : Bool) (ps : List Text) (files : List (Text × Bytes))
      (w : SixCyWriter)
      → Stands disk path file_name ps files
      → pack_inputs L H J disk file_name s codec ps (open_for path codec w)
        ≡ fill L H (batches s codec files) (open_for path codec w)
  unfolding pack_inputs fill fill_batch begin_solid
  pack_inputs-fill file_name true ps files w s =
      same_next (start_solid_session L H codec w) _ _
        (λ v. ap (λ r. and_then r (λ a. end_solid L H a)) (add_inputs-each file_name ps files v s))
      ∙ sym
          (and_then-last (fill_batch L H (solid codec (given codec files)) (open_for path codec w)))
  pack_inputs-fill file_name false ps files w s =
      and_then-last (add_inputs L H J disk file_name ps (open_for path codec w))
      ∙ add_inputs-each file_name ps files w s
      ∙ each-fill files w

-- What is created in a folder: each file's contents under its name, in order.
abbrev pub put_files : (F : Folder) → Text → List (Text × Bytes) → F.State → F.State
put_files F dest [] s = s
put_files F dest (f ∷ fs) s = put_files F dest fs (F.create_file (F.join dest f.0) f.1 s).1

pub put_all-put_files :
    (F : Folder) (dest : Text) (files : List (Text × Bytes)) (s : F.State)
    → put_all F dest (names_in files) (contents_in files) s ≡ put_files F dest files s
put_all-put_files F dest [] s = refl
put_all-put_files F dest (f ∷ fs) s =
    put_all-put_files F dest fs (F.create_file (F.join dest f.0) f.1 s).1
