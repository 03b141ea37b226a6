-- ===== src/Audit/Headers.antt =====
-- src/excel_auditor/engine.py: `map_headers`, from the header row of a sheet to its columns.
pub mod Guarantees
use excelflow.Prelude.{
  ℕ, ◌+◌, Bool, true, false, ◌&&◌, not, List, [], ◌∷◌, map, Option, none, some, String, str_eq, ltb,
  count_by, holds, is_some, if◌then◌else◌,
}
use excelflow.Products.{Dict, get}
use excelflow.Catalog.{Names, normalize_header}

-- `alias` is the source's "confirmed_alias", `fuzzy` its "fuzzy_suggestion".
pub data HeaderMatch : Type 0 where
  canonical exact_title alias fuzzy unmatched ambiguous_match : HeaderMatch

pub data HeaderStatus : Type 0 where
  matched duplicate ambiguous extra : HeaderStatus

pub record HeaderMapping : Type 0 where
  pub physical_column : ℕ
  pub raw_header : String
  pub normalized_header : String
  pub canonical_field : Option String
  pub match_type : HeaderMatch
  pub confidence : Option ℕ
  pub status : HeaderStatus

-- The members of `ColumnRule` that are read.
pub record Column : Type 0 where
  pub name : String
  pub title : String
  pub aliases : List String

-- `d.setdefault(key, value)`
abbrev pub set_default : {V : Type 0} → String → V → Dict V → Dict V
set_default key v d = if is_some (get key d) then d else (key, v) ∷ d

abbrev pub is_matched : HeaderStatus → Bool
is_matched matched = true
is_matched _ = false

-- `mapping.status == "matched" and mapping.canonical_field`, for the field c
abbrev pub is_matched_to : String → HeaderMapping → Bool
is_matched_to c m =
    is_matched m.status && holds (λ f. not (str_eq f "") && str_eq f c) m.canonical_field

-- the field has several matched columns
abbrev pub is_semantic_duplicate : List HeaderMapping → HeaderMapping → Bool
is_semantic_duplicate ms m =
    holds (λ c. is_matched_to c m && ltb 1 (count_by (is_matched_to c) ms)) m.canonical_field

abbrev pub without_duplicates : List HeaderMapping → List HeaderMapping
without_duplicates ms =
    map (λ m. if is_semantic_duplicate ms m then record m { status = duplicate } else m) ms

-- `canonical_columns`: a later column replaces an earlier one of its field.
unfoldable pub columns_of : List HeaderMapping → Dict ℕ → Dict ℕ
columns_of [] d = d
columns_of (m ∷ ms) d = columns_of ms (elim m.canonical_field [
  | none ↦ d
  | some c ↦ if is_matched_to c m then (c, m.physical_column) ∷ d else d
])

module _ (names : Names) where
  open names use {Value, of_text, text_of, full_score}

  abbrev pub normalized : String → String
  normalized text = normalize_header names (some (of_text text))

  unfoldable pub add_aliases :
      String → List String → Dict (String × HeaderMatch) → Dict (String × HeaderMatch)
  add_aliases name [] d = d
  add_aliases name (a ∷ rest) d = add_aliases name rest (set_default (normalized a) (name, alias) d)

  -- `exact`
  unfoldable pub exact_names :
      List Column → Dict (String × HeaderMatch) → Dict (String × HeaderMatch)
  exact_names [] d = d
  exact_names (c ∷ cs) d = exact_names cs (
      add_aliases c.name c.aliases (
        set_default (normalized c.title) (c.name, exact_title)
          (set_default (normalized c.name) (c.name, canonical) d)))

  -- The rows of the header, with None for an empty cell; `extract_one` is rapidfuzz's choice of a
  -- title, with its score and the name of its column.
  module _ (columns : List Column) (extract_one : String → Option (ℕ × String))
      (values : List (Option Value)) where
    abbrev pub normalized_values : List String
    normalized_values = map (normalize_header names) values

    abbrev pub is_repeated : String → Bool
    is_repeated n = not (str_eq n "") && ltb 1 (count_by (λ v. str_eq v n) normalized_values)

    abbrev pub raw_text : Option Value → String
    raw_text none = ""
    raw_text (some v) = text_of v

    unfoldable pub map_header : ℕ → Option Value → HeaderMapping
    map_header index raw =
        let n = normalize_header names raw in
        let extra_mapping : HeaderMapping = record {
          physical_column = index;
          raw_header = raw_text raw;
          normalized_header = n;
          canonical_field = none;
          match_type = unmatched;
          confidence = none;
          status = extra;
        } in
        if is_repeated n
        then record extra_mapping { match_type = ambiguous_match; status = duplicate }
        else elim (get n (exact_names columns [])) [
          | some (field, match_type) ↦ record extra_mapping {
            canonical_field = some field;
            match_type = match_type;
            confidence = some full_score;
            status = matched;
          }
          | none ↦ if str_eq n "" then extra_mapping else elim (extract_one n) [
            | none ↦ extra_mapping
            | some (score, field) ↦ record extra_mapping {
              canonical_field = some field;
              match_type = fuzzy;
              confidence = some score;
              status = ambiguous;
            }
          ]
        ]

    unfoldable pub map_all : ℕ → List (Option Value) → List HeaderMapping
    map_all index [] = []
    map_all index (raw ∷ raws) = map_header index raw ∷ map_all (index + 1) raws

    unfoldable pub map_headers : List HeaderMapping × Dict ℕ
    map_headers =
        let mappings = without_duplicates (map_all 1 values) in (mappings, columns_of mappings [])
