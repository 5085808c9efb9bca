-- ===== src/Examples/Serial.antt =====
-- A stand-in for `serde_json`: values as number sequences, every list behind its length.
use cy.Common.{
  ℕ, zero, suc, ◌≡◌, refl, ap, ◌∙◌, Option, none, some, List, [], ◌∷◌, ◌++◌, append_assoc,
  append-nil, Text, Result, ok, err, length, ok_injective, sym,
}
use cy.Bytes.{Bytes}
use cy.Index.{BlockRef, FileIndexRecord, FileIndex, Json, IsJson, IsWritable}

-- A format with its law.
pub record Format (A : Type 0) : Type 1 where
  put : A → Bytes
  get : Bytes → Option (A × Bytes)
  get-put : (a : A) (rest : Bytes) → get (put a ++ rest) ≡ some (a, rest)

abbrev get_number : Bytes → Option (ℕ × Bytes)
get_number [] = none
get_number (x ∷ xs) = some (x, xs)

abbrev number : Format ℕ
number = record { put = λ n. n ∷ []; get = get_number; get-put = λ n rest. refl }

module _ {A : Type 0} where
  abbrev then_get : {B : Type 0} → Option (A × Bytes) → (A → Bytes → Option B) → Option B
  then_get none f = none
  then_get (some (a, rest)) f = f a rest

module _ {A B : Type 0} (F : Format A) (G : Format B) where
  abbrev pair : Format (A × B)
  pair = record {
    put = λ (a, b). F.put a ++ G.put b;
    get = λ r. then_get (F.get r) (λ a r1. then_get (G.get r1) (λ b r2. some ((a, b), r2)));
    get-put = λ (a, b) rest.
        rw
          (
            append_assoc (F.put a) (G.put b) rest,
            F.get-put a (G.put b ++ rest),
            then_get,
            G.get-put b rest,
          )
          refl;
  }

module _ {A B : Type 0} (F : Format A) where
  -- The format of a type that has the parts of another.
  abbrev via : (to : B → A) (from : A → B) → ((b : B) → from (to b) ≡ b) → Format B
  via to from back = record {
    put = λ b. F.put (to b);
    get = λ r. then_get (F.get r) (λ a r1. some (from a, r1));
    get-put = λ b rest. rw (F.get-put (to b) rest, then_get, back b) refl;
  }

module _ {A : Type 0} (F : Format A) where
  abbrev put_each : List A → Bytes
  put_each [] = []
  put_each (x ∷ xs) = F.put x ++ put_each xs

  abbrev get_each : ℕ → Bytes → Option (List A × Bytes)
  get_each zero r = some ([], r)
  get_each (suc n) r =
      then_get (F.get r) (λ x r1. then_get (get_each n r1) (λ xs r2. some (x ∷ xs, r2)))

  pub get_each-put_each :
      (xs : List A) (rest : Bytes) → get_each (length xs) (put_each xs ++ rest) ≡ some (xs, rest)
  get_each-put_each [] rest = refl
  get_each-put_each (x ∷ xs) rest =
      rw
        (
          append_assoc (F.put x) (put_each xs) rest,
          F.get-put x (put_each xs ++ rest),
          then_get,
          get_each-put_each xs rest,
        )
        refl

  abbrev get_list : Bytes → Option (List A × Bytes)
  get_list [] = none
  get_list (n ∷ r) = get_each n r

  abbrev list : Format (List A)
  list = record { put = λ xs. length xs ∷ put_each xs; get = get_list; get-put = get_each-put_each }

abbrev numbers : Format (List ℕ)
numbers = list number

abbrev block_ref : Format BlockRef
block_ref =
    via (pair numbers (pair number (pair number number)))
      (λ br. (br.content_hash, (br.archive_offset, (br.intra_offset, br.intra_length))))
      (λ (h, (a, (o, l))). record {
        content_hash = h;
        archive_offset = a;
        intra_offset = o;
        intra_length = l;
      })
      (λ br. refl)

abbrev file_record : Format FileIndexRecord
file_record =
    via
      (pair number (
        pair number (
          pair numbers
            (pair (list block_ref) (pair number (pair number (list (pair numbers numbers))))))))
      (λ r. (
        r.id,
        (r.parent_id, (r.name, (r.block_refs, (r.original_size, (r.compressed_size, r.metadata))))),
      ))
      (λ (i, (p, (n, (b, (o, (c, m)))))). record {
        id = i;
        parent_id = p;
        name = n;
        block_refs = b;
        original_size = o;
        compressed_size = c;
        metadata = m;
      })
      (λ r. refl)

abbrev index : Format FileIndex
index =
    via (pair (list file_record) numbers) (λ i. (i.records, i.root_hash))
      (λ (r, h). record { records = r; root_hash = h }) (λ i. refl)

abbrev read_index : Option (FileIndex × Bytes) → Result Text FileIndex
read_index none = err []
read_index (some (i, rest)) = ok i

abbrev pub json : Json
json = record {
  index_to_vec = λ i. ok (index.put i);
  index_from_slice = λ b. read_index (index.get b);
  recovery_to_vec = λ m. ok (9 ∷ []);
}

pub json-IsJson : IsJson json
json-IsJson = record {
  index_back = λ i b e.
      let whole : index.get (index.put i) ≡ some (i, []) =
        ap index.get (sym (append-nil (index.put i))) ∙ index.get-put i [] in
      rw (← ok_injective e, whole) refl;
}

pub json-IsWritable : IsWritable json
json-IsWritable = record {
  index_total = λ i. (index.put i, refl);
  recovery_total = λ m. (9 ∷ [], refl);
}
