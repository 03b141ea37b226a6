-- ===== src/Catalog/Headers.antt =====
-- src/excel_auditor/product_workflow/mapping.py: `map_product_headers`, from the headers of a sheet
-- to the fields of a catalogue. The loop over the headers carries the fields that are accepted.
pub mod Steps
pub mod Success
pub mod Guarantees
use excelflow.Prelude.{
  ℕ, ◌+◌, ◌*◌, max, Bool, true, false, not, ◌||◌, List, [], ◌∷◌, ◌++◌, Option, none, some, String,
  str_eq, ltb, ◌==◌, length, any_by, holds, is_some, take, if◌then◌else◌,
}
use excelflow.Products.{member, Dict, get, index_by, Result, ok, value_error, key_error, ◌>>=◌}
use excelflow.Sorting.{sorted, text_leb}
use excelflow.Catalog.{
  have_unique_ids, Names, MappingCandidate, rank_leb, keep_best, require, Owner, owners_of, tokens,
  normalize_header, key, name_index, add_once,
}

-- The members of `CatalogFieldDefinition` that are read.
pub record CatalogField : Type 0 where
  pub field_id : String
  pub title : String
  pub aliases : List String
  pub attribute_id : Option String

pub data MatchType : Type 0 where
  exact confirmed_alias fuzzy_suggestion unmapped duplicate : MatchType

-- `no_field` is the source's "unmapped".
pub data Status : Type 0 where
  accepted manual_review no_field : Status

abbrev pub is_accepted : Status → Bool
is_accepted accepted = true
is_accepted _ = false

pub record FieldMapping : Type 0 where
  pub physical_column : ℕ
  pub raw_header : String
  pub normalized_header : String
  pub field_id : Option String
  pub match_type : MatchType
  pub status : Status
  pub confidence : Option ℕ
  pub candidates : List MappingCandidate

-- `values` of the first loop
abbrev pub names_of : CatalogField → List String
names_of f =
    f.field_id ∷ f.title ∷ (f.aliases ++ elim f.attribute_id [ none ↦ [] | some id ↦ id ∷ [] ])

module _ (names : Names) where
  open names use {Value, text_of, casefold, full_score, extract}

  -- `token_display.setdefault(token, value)`, in the loop over the fields and their names
  unfoldable pub display_names : List String → Dict String → Dict String
  display_names [] d = d
  display_names (v ∷ vs) d =
      display_names vs (if is_some (get (key names v) d) then d else (key names v, v) ∷ d)

  unfoldable pub token_display : List CatalogField → Dict String → Dict String
  token_display [] d = d
  token_display (f ∷ fs) d = token_display fs (display_names (names_of f) d)

  -- the loop over `confirmed_aliases`
  unfoldable pub confirm :
      Dict CatalogField → List (String × String) → Dict String → Result (Dict String)
  confirm by_id [] confirmed = ok confirmed
  confirm by_id ((alias, id) ∷ rest) confirmed =
      if not (is_some (get id by_id))
        || holds (λ owner. not (str_eq owner id)) (get (key names alias) confirmed)
      then value_error
      else confirm by_id rest ((key names alias, id) ∷ confirmed)

  -- what the function has built before it turns to the headers
  pub record Targets : Type 0 where
    pub by_id : Dict CatalogField
    pub owners : List Owner
    pub display : Dict String
    pub confirmed : Dict String
    pub forced : List ℕ
    pub fuzzy_threshold : ℕ
    pub max_candidates : ℕ

  unfoldable pub blank : ℕ → Value → FieldMapping
  blank column raw = record {
    physical_column = column;
    raw_header = text_of raw;
    normalized_header = normalize_header names (some raw);
    field_id = none;
    match_type = unmapped;
    status = no_field;
    confidence = none;
    candidates = [];
  }

  module _ (targets : Targets) where
    unfoldable pub candidate : ℕ → String → String → Result MappingCandidate
    candidate score shown owner = do
      field ← require owner targets.by_id
      ok (record { field_id = owner; title = field.title; confidence = score; match_value = shown })

    -- the owners of one text, as candidates of that score
    unfoldable pub candidates_of : ℕ → String → List String → Result (List MappingCandidate)
    candidates_of score shown [] = ok []
    candidates_of score shown (owner ∷ rest) = do
      c ← candidate score shown owner
      cs ← candidates_of score shown rest
      ok (c ∷ cs)

    abbrev pub keep_all : List MappingCandidate → List MappingCandidate → List MappingCandidate
    keep_all [] best = best
    keep_all (c ∷ cs) best = keep_all cs (keep_best c best)

    -- the loop over the choices that rapidfuzz returns
    unfoldable pub best_by_field :
        List (String × ℕ) → List MappingCandidate → Result (List MappingCandidate)
    best_by_field [] best = ok best
    best_by_field ((choice, score) ∷ rest) best = do
      shown ← require choice targets.display
      cs ← candidates_of score shown (owners_of choice targets.owners)
      best_by_field rest (keep_all cs best)

    unfoldable pub best_matches : String → Result (List MappingCandidate)
    unfolding best_by_field
    best_matches token =
        best_by_field
          (extract token (tokens targets.owners) targets.fuzzy_threshold
            (max (targets.max_candidates * 3) targets.max_candidates))
          []

    unfoldable pub ranked : List MappingCandidate → List MappingCandidate
    ranked best = take targets.max_candidates (sorted rank_leb best)

    unfoldable pub suggestion : ℕ → Value → List MappingCandidate → FieldMapping
    suggestion column raw [] = blank column raw
    suggestion column raw (c ∷ cs) = record (blank column raw) {
      match_type = fuzzy_suggestion;
      status = manual_review;
      confidence = some c.confidence;
      candidates = c ∷ cs;
    }

    -- the owners that a header has: the confirmed field, or those of its text
    unfoldable pub header_owners : String → List String
    header_owners token = elim (get token targets.confirmed) [
      | some id ↦ id ∷ []
      | none ↦ owners_of token targets.owners
    ]

    unfoldable pub mapped :
        MatchType → ℕ → Value → String → List String → FieldMapping × List String
    mapped match_type column raw id taken =
        if member id taken
        then (
          record (blank column raw) {
            field_id = some id;
            match_type = duplicate;
            status = manual_review;
            confidence = some full_score;
          },
          taken,
        )
        else (
          record (blank column raw) {
            field_id = some id;
            match_type = match_type;
            status = accepted;
            confidence = some full_score;
          },
          id ∷ taken,
        )

    unfoldable pub map_owned :
        ℕ → Value → String → List String → List String → Result (FieldMapping × List String)
    map_owned column raw token [] taken = do
      best ← best_matches token
      ok (suggestion column raw (ranked best), taken)
    map_owned column raw token (id ∷ []) taken = ok (
        mapped (if is_some (get token targets.confirmed) then confirmed_alias else exact) column raw
          id taken)
    map_owned column raw token (a ∷ b ∷ ids) taken = do
      cs ←
          candidates_of full_score (normalize_header names (some raw))
            (sorted text_leb (a ∷ b ∷ ids))
      ok (
        record (blank column raw) {
          match_type = exact;
          status = manual_review;
          confidence = some full_score;
          candidates = cs;
        },
        taken,
      )

    unfoldable pub map_header : ℕ → Value → List String → Result (FieldMapping × List String)
    map_header column raw taken =
        let token = casefold (normalize_header names (some raw)) in
        if any_by (λ c. c == column) targets.forced
        then ok (blank column raw, taken)
        else map_owned column raw token (header_owners token) taken

    unfoldable pub map_headers : ℕ → List Value → List String → Result (List FieldMapping)
    map_headers column [] taken = ok []
    map_headers column (raw ∷ raws) taken = do
      (mapping, taken') ← map_header column raw taken
      rest ← map_headers (column + 1) raws taken'
      ok (mapping ∷ rest)

  abbrev pub targets_of : List CatalogField → Dict String → List ℕ → ℕ → ℕ → Targets
  targets_of fields confirmed forced fuzzy_threshold max_candidates = record {
    by_id = index_by (λ (f : CatalogField). f.field_id) fields [];
    owners = name_index names (λ (f : CatalogField). f.field_id) names_of fields [];
    display = token_display fields [];
    confirmed = confirmed;
    forced = forced;
    fuzzy_threshold = fuzzy_threshold;
    max_candidates = max_candidates;
  }

  unfoldable pub map_product_headers :
      List Value
      → List CatalogField
      → List (String × String)
      → List ℕ
      → ℕ
      → ℕ
      → Result (List FieldMapping)
  map_product_headers headers fields aliases forced fuzzy_threshold max_candidates =
      if have_unique_ids (λ (f : CatalogField). f.field_id) fields
      then (confirm (index_by (λ (f : CatalogField). f.field_id) fields []) aliases []
          >>= λ confirmed.
              map_headers (targets_of fields confirmed forced fuzzy_threshold max_candidates) 1
                headers [])
      else value_error
