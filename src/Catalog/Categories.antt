-- ===== src/Catalog/Categories.antt =====
-- src/excel_auditor/product_workflow/category.py: `resolve_categories`, from the rows of a sheet to
-- the active categories of a catalogue.
pub mod Rows
pub mod Success
pub mod Guarantees
use excelflow.Prelude.{
  ℕ, ◌+◌, Bool, true, false, not, ◌&&◌, ◌||◌, List, [], ◌∷◌, ◌++◌, map, Option, none, some, String,
  str_eq, leb, length, ◌==◌, holds, filter_by, is_some, take, if◌then◌else◌,
}
use excelflow.Products.{Dict, get, index_by, Result, ok, value_error, key_error, ◌>>=◌}
use excelflow.Sorting.{sorted, text_leb}
use excelflow.Catalog.{
  Names, MappingCandidate, rank_leb, keep_best, require, Owner, add_once, owners_of, tokens,
  is_only, have_unique_ids, normalize_header, key, name_index,
}

-- The members of `CategoryDefinition` that are read.
pub record Category : Type 0 where
  pub category_id : String
  pub name : String
  pub path : List String
  pub aliases : List String
  pub active : Bool

pub data CategoryStatus : Type 0 where
  resolved manual_review unresolved : CategoryStatus

-- `id_match` is the source's "id".
pub data CategoryMatch : Type 0 where
  id_match exact confirmed fuzzy_suggestion missing ambiguous id_name_conflict invalid_id :
      CategoryMatch

pub record Resolution : Type 0 where
  pub excel_row : ℕ
  pub raw_category_id : Option String
  pub raw_category : Option String
  pub category_id : Option String
  pub category_name : Option String
  pub status : CategoryStatus
  pub match_type : CategoryMatch
  pub confidence : Option ℕ
  pub candidates : List MappingCandidate

-- a text that is not true as a condition
abbrev pub is_blank : String → Bool
is_blank text = str_eq text ""

-- `text or None`
abbrev pub or_none : String → Option String
or_none text = if is_blank text then none else some text

abbrev pub names_of : Category → List String
names_of c = c.name ∷ (c.aliases ++ c.path)

abbrev pub active_only : List Category → List Category
active_only categories = filter_by (λ (c : Category). c.active) categories

-- `first_excel_row + offset` for each row
abbrev pub numbers_from : {A : Type 0} → ℕ → List A → List ℕ
numbers_from n [] = []
numbers_from n (x ∷ xs) = n ∷ numbers_from (n + 1) xs

-- the number of each row in the workbook
abbrev pub row_numbers : {A : Type 0} → Option (List ℕ) → ℕ → List A → List ℕ
row_numbers none first rows = numbers_from first rows
row_numbers (some numbers) first rows = numbers

abbrev pub are_aligned : {A : Type 0} → Option (List ℕ) → List A → Bool
are_aligned none rows = true
are_aligned (some numbers) rows = length numbers == length rows

module _ (names : Names) where
  open names use {Value, full_score, extract}

  abbrev pub Row : Type 0
  Row = Dict (Option Value)

  -- `normalize_header(row.get(field))`
  abbrev pub cell_text : String → Row → String
  cell_text field row = normalize_header names (elim (get field row) [ none ↦ none | some v ↦ v ])

  -- `raw_id`
  abbrev pub id_text : Option String → Row → String
  id_text none row = ""
  id_text (some field) row = if is_blank field then "" else cell_text field row

  -- what the function has built before it turns to the rows
  pub record Directory : Type 0 where
    pub by_id : Dict Category
    pub owners : List Owner
    pub fuzzy_threshold : ℕ
    pub score_margin : ℕ

  -- a resolution without a category
  abbrev pub open_row :
      ℕ → Option String → Option String → CategoryStatus → CategoryMatch → Resolution
  open_row n raw_id raw_name status match_type = record {
    excel_row = n;
    raw_category_id = raw_id;
    raw_category = raw_name;
    category_id = none;
    category_name = none;
    status = status;
    match_type = match_type;
    confidence = none;
    candidates = [];
  }

  abbrev pub resolved_row :
      ℕ → Option String → Option String → CategoryMatch → Category → Resolution
  resolved_row n raw_id raw_name match_type c =
      record (open_row n raw_id raw_name resolved match_type) {
        category_id = some c.category_id;
        category_name = some c.name;
        confidence = some full_score;
      }

  module _ (directory : Directory) where
    unfoldable pub candidate : ℕ → String → String → Result MappingCandidate
    candidate score shown owner = do
      category ← require owner directory.by_id
      ok (record {
        field_id = owner;
        title = category.name;
        confidence = score;
        match_value = shown;
      })

    -- the categories of some ids, as candidates of that score
    unfoldable pub candidates_of :
        ℕ → (String → String) → List String → Result (List MappingCandidate)
    candidates_of score shown [] = ok []
    candidates_of score shown (owner ∷ rest) = do
      c ← candidate score (shown owner) owner
      cs ← candidates_of score shown rest
      ok (c ∷ cs)

    abbrev pub keep_all : List MappingCandidate → List MappingCandidate → List MappingCandidate
    keep_all [] best = best
    keep_all (c ∷ cs) best = keep_all cs (keep_best c best)

    -- the loop over the choices that rapidfuzz returns
    unfoldable pub best_by_id :
        List (String × ℕ) → List MappingCandidate → Result (List MappingCandidate)
    best_by_id [] best = ok best
    best_by_id ((choice, score) ∷ rest) best = do
      cs ← candidates_of score (λ owner. choice) (owners_of choice directory.owners)
      best_by_id rest (keep_all cs best)

    -- candidates whose score is close to the best one
    abbrev pub near_top : List MappingCandidate → List MappingCandidate
    near_top [] = []
    near_top (c ∷ cs) =
        filter_by
          (λ (d : MappingCandidate). leb c.confidence (d.confidence + directory.score_margin))
          (c ∷ cs)

    abbrev pub suggested : ℕ → String → CategoryMatch → List MappingCandidate → Resolution
    suggested n raw_name match_type [] = open_row n none (some raw_name) unresolved missing
    suggested n raw_name match_type (c ∷ cs) =
        record (open_row n none (some raw_name) manual_review match_type) {
          confidence = some c.confidence;
          candidates = c ∷ cs;
        }

    -- a row whose id is that of an active category
    unfoldable pub resolve_id : ℕ → String → String → Category → Result Resolution
    resolve_id n raw_id raw_name category =
        let name_owners =
          if is_blank raw_name then [] else owners_of (key names raw_name) directory.owners in
        if not (length name_owners == 0) && not (is_only raw_id name_owners)
        then (candidates_of full_score (λ id. if str_eq id raw_id then raw_id else raw_name)
              (sorted text_leb (add_once raw_id name_owners))
            >>= λ cs.
                ok
                  (record (open_row n (some raw_id) (or_none raw_name) manual_review
                    id_name_conflict) { confidence = some full_score; candidates = cs }))
        else ok (resolved_row n (some raw_id) (or_none raw_name) id_match category)

    -- a row with a name and an id that no active category has
    unfoldable pub invalid_row : ℕ → String → String → List MappingCandidate → Resolution
    invalid_row n raw_id raw_name [] =
        open_row n (some raw_id) (some raw_name) unresolved invalid_id
    invalid_row n raw_id raw_name (c ∷ cs) =
        record (open_row n (some raw_id) (some raw_name) manual_review invalid_id) {
          confidence = some full_score;
          candidates = c ∷ cs;
        }

    -- a row with a name only, and the categories that bear it
    unfoldable pub resolve_name : ℕ → String → List String → Result Resolution
    resolve_name n raw_name [] = do
      best ←
          best_by_id
            (extract (key names raw_name) (tokens directory.owners) directory.fuzzy_threshold 12) []
      ok (suggested n raw_name fuzzy_suggestion (take 3 (near_top (sorted rank_leb best))))
    resolve_name n raw_name (id ∷ []) = do
      category ← require id directory.by_id
      ok (resolved_row n none (some raw_name) exact category)
    resolve_name n raw_name (a ∷ b ∷ ids) = do
      cs ← candidates_of full_score (λ id. raw_name) (a ∷ b ∷ ids)
      ok (suggested n raw_name ambiguous (take 3 (sorted rank_leb cs)))

    -- a row whose id is not that of an active category
    unfoldable pub resolve_unknown : ℕ → String → String → Result Resolution
    resolve_unknown n raw_id raw_name =
        let owners = owners_of (key names raw_name) directory.owners in
        if is_blank raw_name
        then ok (
            open_row n (or_none raw_id) none unresolved
              (if is_blank raw_id then missing else invalid_id))
        else if is_blank raw_id
        then resolve_name n raw_name owners
        else candidates_of full_score (λ id. raw_name) (sorted text_leb owners) >>= λ cs.
            ok (invalid_row n raw_id raw_name cs)

    -- the body of the loop over the rows
    unfoldable pub resolve_row : ℕ → String → String → Result Resolution
    resolve_row n raw_id raw_name =
        elim (if is_blank raw_id then none else get raw_id directory.by_id) [
          | some category ↦ resolve_id n raw_id raw_name category
          | none ↦ resolve_unknown n raw_id raw_name
        ]

    -- `CategoryResolution` with its row number, which a ValidationError refuses where it is 0
    abbrev pub with_row_number : ℕ → Result Resolution → Result Resolution
    with_row_number n made = if n == 0 then (made >>= λ r. value_error) else made

    -- The last clause is the IndexError of `excel_rows[offset]`.
    unfoldable pub resolve_rows :
        String → Option String → List ℕ → List Row → Result (List Resolution)
    resolve_rows source_field id_field numbers [] = ok []
    resolve_rows source_field id_field (n ∷ numbers) (row ∷ rows) = do
      r ← with_row_number n (resolve_row n (id_text id_field row) (cell_text source_field row))
      rs ← resolve_rows source_field id_field numbers rows
      ok (r ∷ rs)
    resolve_rows source_field id_field [] (row ∷ rows) = key_error

  -- As the ids are distinct, `by_id.values()` are the active categories in their order.
  abbrev pub directory_of : List Category → ℕ → ℕ → Directory
  directory_of categories fuzzy_threshold score_margin = record {
    by_id = index_by (λ (c : Category). c.category_id) (active_only categories) [];
    owners =
        name_index names (λ (c : Category). c.category_id) names_of (active_only categories) [];
    fuzzy_threshold = fuzzy_threshold;
    score_margin = score_margin;
  }

  unfoldable pub resolve_categories :
      List Row
      → List Category
      → String
      → Option String
      → ℕ
      → Option (List ℕ)
      → ℕ
      → ℕ
      → Result (List Resolution)
  resolve_categories rows categories source_field id_field first excel_rows threshold margin =
      if not (are_aligned excel_rows rows)
      then value_error
      else if have_unique_ids (λ (c : Category). c.category_id) (active_only categories)
      then resolve_rows (directory_of categories threshold margin) source_field id_field
          (row_numbers excel_rows first rows) rows
      else value_error
