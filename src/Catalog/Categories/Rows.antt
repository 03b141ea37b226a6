-- ===== src/Catalog/Categories/Rows.antt =====
-- What one row adds to the resolutions: it is resolved, and to which category.
use mathlib.Core.Path.{subst}
use excelflow.Prelude.{
  if_keeps, ℕ, ◌≡◌, refl, inl, inr, Option-cases, Bool, true, false, not, ◌&&◌, ◌||◌, List, [], ◌∷◌,
  map, Option, none, some, String, arith, str_eq, eq_iff, eq_refl, all_by, holds, is_some, length,
  ◌==◌,
}
use excelflow.Products.{value_error, get, ok, ◌>>=◌, >>=-returns, ok_inj}
use excelflow.Sorting.{sorted, text_leb}
use excelflow.Catalog.{Result, Names, MappingCandidate, require, owners_of, is_only, key}
use excelflow.Catalog.Owners.{both}
use excelflow.Catalog.Categories.{
  with_row_number, Category, resolved, manual_review, unresolved, CategoryMatch, Resolution,
  is_blank, or_none, Directory, candidates_of, best_by_id, suggested, resolve_id, invalid_row,
  resolve_name, resolve_unknown, resolve_row, resolve_rows, Row, id_text, cell_text, resolved_row,
  exact, fuzzy_suggestion, ambiguous,
}

abbrev pub Label : Type 0
Label = ℕ × Option String × Option String

abbrev pub label_of : Resolution → Label
label_of r = (r.excel_row, r.raw_category_id, r.raw_category)

-- What the categories say: an entry of this id and name, that none bears a text, or only one does.
pub record Facts : Type 0 where
  pub is_entry : String → String → Bool
  pub has_none : String → Bool
  pub is_sole : String → String → Bool

module _ (facts : Facts) where
  -- The name is blank, or no category bears it, or only that one does.
  abbrev pub agrees : Option String → String → Bool
  agrees none id = true
  agrees (some name) id = facts.has_none name || facts.is_sole name id

  -- The category of a row is the one of its id, with which its name agrees, or without an id the only
  -- one that bears the name.
  abbrev pub is_chosen : Option String → Option String → String → Bool
  is_chosen (some raw_id) raw_name id = str_eq raw_id id && agrees raw_name id
  is_chosen none none id = false
  is_chosen none (some raw_name) id = facts.is_sole raw_name id

  abbrev pub is_sound : Resolution → Bool
  is_sound r = elim r.status [
    | resolved ↦
        holds
          (λ id.
            holds (λ name. facts.is_entry id name) r.category_name
            && is_chosen r.raw_category_id r.raw_category id)
          r.category_id
    | manual_review ↦ not (is_some r.category_id) && not (is_some r.category_name)
    | unresolved ↦ not (is_some r.category_id) && not (is_some r.category_name)
  ]

module _ (names : Names) (d : Directory names) where
  open names use {Value, full_score, extract, extract-known}

  -- what the directory says
  abbrev pub indexed : Facts
  indexed = record {
    is_entry = λ id name.
        holds (λ (c : Category). str_eq c.category_id id && str_eq c.name name) (get id d.by_id);
    has_none = λ name. length (owners_of (key names name) d.owners) == 0;
    is_sole = λ name id. is_only id (owners_of (key names name) d.owners);
  }

  -- the numbers, the ids and the names that the rows show
  abbrev pub labels : String → Option String → List ℕ → List (Row names) → List Label
  labels source_field id_field numbers [] = []
  labels source_field id_field [] (row ∷ rows) = []
  labels source_field id_field (n ∷ numbers) (row ∷ rows) =
      (n, or_none (id_text names id_field row), or_none (cell_text names source_field row))
      ∷ labels source_field id_field numbers rows

  record IsRow (n : ℕ) (raw_id raw_name : String) (r : Resolution) : Type 0 where
    label : label_of r ≡ (n, or_none raw_id, or_none raw_name)
    sound : is_sound indexed r ≡ true

  suggested-IsRow :
      (n : ℕ) (raw_name : String) (m : CategoryMatch) (cs : List MappingCandidate)
      → is_blank raw_name ≡ false
      → IsRow n "" raw_name (suggested names d n raw_name m cs)
  suggested-IsRow n raw_name m [] h = ground arith
  suggested-IsRow n raw_name m (c ∷ cs) h = ground arith

  -- Every entry has its key as its id.
  module _
      (keyed : (id : String)
        → holds (λ (c : Category). not (str_eq c.category_id id)) (get id d.by_id) ≡ false) where
    resolve_id-IsRow :
        (n : ℕ) (raw_id raw_name : String) (c : Category) {r : Resolution}
        → is_blank raw_id ≡ false
        → get raw_id d.by_id ≡ some c
        → resolve_id names d n raw_id raw_name c ≡ ok r
        → IsRow n raw_id raw_name r
    unfolding resolve_id
    resolve_id-IsRow n raw_id raw_name c {r} b found h =
        ground (arith, eq_iff c.category_id raw_id, eq_refl raw_id, eq_refl c.name, keyed raw_id)

    exact-IsRow :
        (n : ℕ) (raw_name id : String) (c : Category)
        → is_blank raw_name ≡ false
        → owners_of (key names raw_name) d.owners ≡ id ∷ []
        → require id d.by_id ≡ ok c
        → IsRow n "" raw_name (resolved_row names n none (some raw_name) exact c)
    exact-IsRow n raw_name id c b o found =
        ground (arith, eq_iff c.category_id id, eq_refl id, eq_refl c.name, keyed id)

    invalid-IsRow :
        (n : ℕ) (raw_id raw_name : String) (cs : List MappingCandidate)
        → is_blank raw_id ≡ false
        → is_blank raw_name ≡ false
        → IsRow n raw_id raw_name (invalid_row names d n raw_id raw_name cs)
    unfolding invalid_row
    invalid-IsRow n raw_id raw_name [] a b = ground arith
    invalid-IsRow n raw_id raw_name (c ∷ cs) a b = ground arith

    resolve_name-IsRow :
        (n : ℕ) (raw_name : String) (owners : List String) {r : Resolution}
        → is_blank raw_name ≡ false
        → owners_of (key names raw_name) d.owners ≡ owners
        → resolve_name names d n raw_name owners ≡ ok r
        → IsRow n "" raw_name r
    unfolding resolve_name
    resolve_name-IsRow n raw_name [] {r} b o h =
        let (best, made, e) = >>=-returns (best_by_id names d _ []) _ h in
        subst (IsRow n "" raw_name) (ok_inj e) (suggested-IsRow n raw_name fuzzy_suggestion _ b)
    resolve_name-IsRow n raw_name (id ∷ []) {r} b o h =
        let (c, made, e) = >>=-returns (require id d.by_id) _ h in
        subst (IsRow n "" raw_name) (ok_inj e) (exact-IsRow n raw_name id c b o made)
    resolve_name-IsRow n raw_name (x ∷ y ∷ ids) {r} b o h =
        let (cs, made, e) =
          >>=-returns (candidates_of names d full_score (λ id. raw_name) (x ∷ y ∷ ids)) _ h in
        subst (IsRow n "" raw_name) (ok_inj e) (suggested-IsRow n raw_name ambiguous _ b)

    resolve_invalid-IsRow :
        (n : ℕ) (raw_id raw_name : String) (owners : List String) {r : Resolution}
        → is_blank raw_id ≡ false
        → is_blank raw_name ≡ false
        → (candidates_of names d full_score (λ id. raw_name) owners >>= λ cs.
            ok (invalid_row names d n raw_id raw_name cs))
          ≡ ok r
        → IsRow n raw_id raw_name r
    resolve_invalid-IsRow n raw_id raw_name owners {r} a b h =
        let (cs, made, e) =
          >>=-returns (candidates_of names d full_score (λ id. raw_name) owners)
            (λ cs. ok (invalid_row names d n raw_id raw_name cs)) h in
        subst (IsRow n raw_id raw_name) (ok_inj e) (invalid-IsRow n raw_id raw_name cs a b)

    resolve_unknown-IsRow :
        (n : ℕ) (raw_id raw_name : String) {r : Resolution}
        → resolve_unknown names d n raw_id raw_name ≡ ok r
        → IsRow n raw_id raw_name r
    unfolding resolve_unknown
    resolve_unknown-IsRow n raw_id raw_name {r} h =
        let owners = owners_of (key names raw_name) d.owners in
        ground (
          arith,
          eq_iff raw_id "",
          resolve_name-IsRow n raw_name owners {r = r},
          resolve_invalid-IsRow n raw_id raw_name (sorted text_leb owners) {r = r},
        )

    resolve_row-IsRow :
        (n : ℕ) (raw_id raw_name : String) {r : Resolution}
        → resolve_row names d n raw_id raw_name ≡ ok r
        → IsRow n raw_id raw_name r
    unfolding resolve_row
    resolve_row-IsRow n raw_id raw_name {r} h = elim (Option-cases (get raw_id d.by_id)) [
      | inl missing ↦ resolve_unknown-IsRow n raw_id raw_name (ground arith)
      | inr (c, found) ↦ ground (
        arith,
        resolve_unknown-IsRow n raw_id raw_name {r = r},
        resolve_id-IsRow n raw_id raw_name c {r = r},
      )
    ]

    numbered :
        (n : ℕ) (m : Result Resolution) {r : Resolution}
        → with_row_number names d n m ≡ ok r
        → m ≡ ok r
    numbered n m {r} h =
        if_keeps (λ (x : Result Resolution). x ≡ ok r → m ≡ ok r) (n == 0)
          (λ zero e. let (a, made, refused) = >>=-returns m (λ a. value_error) e in absurd cc)
          (λ positive e. e) h

    pub record AreRows (source_field : String) (id_field : Option String) (numbers : List ℕ)
        (rows : List (Row names)) (rs : List Resolution) : Type 0 where
      pub labelled : map label_of rs ≡ labels source_field id_field numbers rows
      pub sound : all_by (is_sound indexed) rs ≡ true

    pub resolve_rows-AreRows :
        (source_field : String) (id_field : Option String) (numbers : List ℕ)
        (rows : List (Row names)) {rs : List Resolution}
        → resolve_rows names d source_field id_field numbers rows ≡ ok rs
        → AreRows source_field id_field numbers rows rs
    unfolding resolve_rows
    resolve_rows-AreRows source_field id_field numbers [] {rs} h =
        subst (AreRows source_field id_field numbers []) (ok_inj h)
          (record { labelled = refl; sound = refl })
    resolve_rows-AreRows source_field id_field (n ∷ numbers) (row ∷ rows) {rs} h =
        let (r, made, more) =
          >>=-returns
            (with_row_number names d n (
              resolve_row names d n (id_text names id_field row)
                (cell_text names source_field row)))
            _ h in
        let (rest, remade, e) =
          >>=-returns (resolve_rows names d source_field id_field numbers rows) _ more in
        let one =
          resolve_row-IsRow n (id_text names id_field row) (cell_text names source_field row)
            (numbered n _ made) in
        let steps = resolve_rows-AreRows source_field id_field numbers rows remade in
        subst (AreRows source_field id_field (n ∷ numbers) (row ∷ rows)) (ok_inj e) (record {
          labelled = λ i. one.label i ∷ steps.labelled i;
          sound = both one.sound steps.sound;
        })
    resolve_rows-AreRows source_field id_field [] (row ∷ rows) {rs} h = cc
