-- ===== src/Writer/Labels.antt =====
-- The writer of src/io_stream/mod.rs keeps the names of files in the order in which they were added, and
-- the UUID of the archive.
use cy.Common.{
  ℕ, ◌≡◌, refl, sym, ap, ◌∙◌, List, [], ◌∷◌, ◌++◌, append_assoc, append-nil, Text, Result, ok, err,
  ◌==◌, Bool-cases, inl, inr,
}
use cy.Errors.{IoError}
use cy.Codec.{CodecId, codec_eq, uuid}
use cy.Superblock.{Superblock, contains, add_required_codec}
use cy.Index.{FileIndexRecord}
use cy.Writer.{SixCyWriter, SolidRange, update_first, attach_range, attach_ranges, then_on}
use cy.Writer.Packing.{Input}
use cy.Writer.Batches.{Batch, single, solid}

abbrev pub names : List FileIndexRecord → List Text
names [] = []
names (r ∷ rs) = r.name ∷ names rs

abbrev pub names_of : List Input → List Text
names_of [] = []
names_of (f ∷ fs) = f.name ∷ names_of fs

abbrev pub batch_names : Batch → List Text
batch_names (single f) = f.name ∷ []
batch_names (solid c fs) = names_of fs

abbrev pub all_names : List Batch → List Text
all_names [] = []
all_names (b ∷ bs) = batch_names b ++ all_names bs

pub names-snoc :
    (rs : List FileIndexRecord) (r : FileIndexRecord)
    → names (rs ++ r ∷ []) ≡ names rs ++ r.name ∷ []
names-snoc [] r = refl
names-snoc (q ∷ rs) r = ap (λ l. q.name ∷ l) (names-snoc rs r)

-- The second state has these names more, and the same UUID.
pub record Labels (ns : List Text) (w w' : SixCyWriter) : Type 0 where
  pub named : names w'.index.records ≡ names w.index.records ++ ns
  pub same_uuid : w'.superblock.archive_uuid ≡ w.superblock.archive_uuid

pub Labels-refl : (w : SixCyWriter) → Labels [] w w
Labels-refl w = record { named = sym (append-nil (names w.index.records)); same_uuid = refl }

pub Labels-trans :
    (ns ms : List Text) (a b c : SixCyWriter)
    → Labels ns a b
    → Labels ms b c
    → Labels (ns ++ ms) a c
Labels-trans ns ms a b c g h = record {
  named = h.named ∙ ap (λ l. l ++ ms) g.named ∙ append_assoc (names a.index.records) ns ms;
  same_uuid = h.same_uuid ∙ g.same_uuid;
}

-- A success of both steps.
pub then_on-Labels :
    (ns ms : List Text) (w : SixCyWriter) (r : Result IoError (Unit {0}) × SixCyWriter)
    (next : SixCyWriter → Result IoError (Unit {0}) × SixCyWriter)
    → (r.0 ≡ ok tt → Labels ns w r.1)
    → ((v : SixCyWriter) → (next v).0 ≡ ok tt → Labels ms v (next v).1)
    → (then_on r (λ _ v. next v)).0 ≡ ok tt
    → Labels (ns ++ ms) w (then_on r (λ _ v. next v)).1
then_on-Labels ns ms w (ok u, v) next g h e = Labels-trans ns ms w v (next v).1 (g refl) (h v e)
then_on-Labels ns ms w (err x, v) next g h e = cc e

pub add_required_codec-uuid :
    (c : CodecId) (sb : Superblock) → (add_required_codec c sb).archive_uuid ≡ sb.archive_uuid
unfolding add_required_codec
add_required_codec-uuid c sb = elim (Bool-cases (codec_eq c CodecId.none)) [
  | inl plain ↦ rw plain refl
  | inr coded ↦ elim (Bool-cases (contains sb.required_codec_uuids (uuid c))) [
    | inl old ↦ rw (coded, old) refl
    | inr new ↦ rw (coded, new) refl
  ]
]

-- A chunk leaves records, UUID and name.
pub record Same (rec : FileIndexRecord) (w : SixCyWriter)
    (r : Result IoError FileIndexRecord × SixCyWriter) : Type 0 where
  pub records : r.1.index.records ≡ w.index.records
  pub same_uuid : r.1.superblock.archive_uuid ≡ w.superblock.archive_uuid
  pub same_name : (rec' : FileIndexRecord) → r.0 ≡ ok rec' → rec'.name ≡ rec.name

pub names-update_first :
    (id offset len : ℕ) (s : SolidRange) (rs : List FileIndexRecord)
    → names (update_first id (attach_range offset len s) rs) ≡ names rs
unfolding update_first attach_range
names-update_first id offset len s [] = refl
names-update_first id offset len s (r ∷ rs) = elim (Bool-cases (r.id == id)) [
  | inl hit ↦ rw hit refl
  | inr miss ↦ rw miss (ap (λ l. r.name ∷ l) (names-update_first id offset len s rs))
]

pub names-attach_ranges :
    (offset len : ℕ) (ss : List SolidRange) (rs : List FileIndexRecord)
    → names (attach_ranges offset len ss rs) ≡ names rs
unfolding attach_ranges
names-attach_ranges offset len [] rs = refl
names-attach_ranges offset len (s ∷ ss) rs =
    names-attach_ranges offset len ss _ ∙ names-update_first s.file_id offset len s rs
