-- ===== src/Archive/Filling.antt =====
-- An archive of src/archive.rs that is filled through the facade is what the writer packs.
use cy.Common.{◌≡◌, refl, ◌∙◌, ap, List, [], ◌∷◌, Text, Result, ok, err}
use cy.Errors.{IoError}
use cy.Libs.{Libs}
use cy.Codec.{CodecId}
use cy.Index.{Json}
use cy.Writer.{Host, SixCyWriter, then_on, start_solid_session, flush_solid_session}
use cy.Writer.Files
use cy.Writer.Finish
use cy.Writer.Packing.{Input, add_files}
use cy.Writer.Solid.{session}
use cy.Writer.Batches.{Batch, single, solid, pack_batch, pack}
use cy.Archive.{Archive, writing, and_then, add_file_with_codec, begin_solid, end_solid, finalize}

-- The archive in writing at a path.
abbrev pub open_for : Text → CodecId → SixCyWriter → Archive
open_for path codec w = record { path = path; mode = writing w codec }

module _ (L : Libs) (H : Host) where
  -- Files, one after the other, up to the first that fails.
  unfoldable pub add_each : List Input → Archive → Result IoError (Unit {0}) × Archive
  add_each [] a = (ok tt, a)
  add_each (f ∷ fs) a =
      and_then (add_file_with_codec L H f.name f.contents f.codec a) (λ a'. add_each fs a')

  -- A single file, or a solid session.
  unfoldable pub fill_batch : Batch → Archive → Result IoError (Unit {0}) × Archive
  fill_batch (single f) a = add_file_with_codec L H f.name f.contents f.codec a
  fill_batch (solid c fs) a =
      and_then (begin_solid L H c a) (λ a1. and_then (add_each fs a1) (λ a2. end_solid L H a2))

  unfoldable pub fill : List Batch → Archive → Result IoError (Unit {0}) × Archive
  fill [] a = (ok tt, a)
  fill (b ∷ bs) a = and_then (fill_batch b a) (λ a'. fill bs a')

  module _ (path : Text) (codec : CodecId) where
    abbrev pub lifted :
        Result IoError (Unit {0}) × SixCyWriter → Result IoError (Unit {0}) × Archive
    lifted r = (r.0, open_for path codec r.1)

    pub and_then-lifted :
        (r : Result IoError (Unit {0}) × SixCyWriter)
        (f : Archive → Result IoError (Unit {0}) × Archive)
        (g : SixCyWriter → Result IoError (Unit {0}) × SixCyWriter)
        → ((v : SixCyWriter) → f (open_for path codec v) ≡ lifted (g v))
        → and_then (lifted r) f ≡ lifted (then_on r (λ _ v. g v))
    and_then-lifted (ok u, v) f g h = h v
    and_then-lifted (err e, v) f g h = refl

    pub add_each-lifted :
        (fs : List Input) (w : SixCyWriter)
        → add_each fs (open_for path codec w) ≡ lifted (add_files L H fs w)
    unfolding add_each add_files add_file_with_codec
    add_each-lifted [] w = refl
    add_each-lifted (f ∷ fs) w =
        and_then-lifted (Files.add_file L H f.name f.contents f.codec w) (λ a. add_each fs a)
          (λ v. add_files L H fs v) (λ v. add_each-lifted fs v)

    fill_batch-lifted :
        (b : Batch) (w : SixCyWriter)
        → fill_batch b (open_for path codec w) ≡ lifted (pack_batch L H b w)
    unfolding fill_batch pack_batch add_file_with_codec begin_solid end_solid session
    fill_batch-lifted (single f) w = refl
    fill_batch-lifted (solid c fs) w = and_then-lifted (start_solid_session L H c w) _ _ (λ v.
        ap (λ r. and_then r (λ a. end_solid L H a)) (add_each-lifted fs v)
        ∙ and_then-lifted (add_files L H fs v) _ (λ u. flush_solid_session L H u) (λ u. refl))

    -- Filling an archive through the facade packs the same batches.
    pub fill-lifted :
        (bs : List Batch) (w : SixCyWriter)
        → fill bs (open_for path codec w) ≡ lifted (pack L H bs w)
    unfolding fill pack
    fill-lifted [] w = refl
    fill-lifted (b ∷ bs) w =
        ap (λ r. and_then r (λ a. fill bs a)) (fill_batch-lifted b w)
        ∙ and_then-lifted (pack_batch L H b w) _ (λ v. pack L H bs v) (λ v. fill-lifted bs v)

    pub finalize-lifted :
        (J : Json) (w : SixCyWriter)
        → finalize L H J (open_for path codec w) ≡ lifted (Finish.finalize L J H w)
    unfolding finalize
    finalize-lifted J w = refl
