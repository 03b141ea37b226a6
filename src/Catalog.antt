-- ===== src/Catalog.antt =====
-- What src/excel_auditor/product_workflow/mapping.py and category.py share: texts that are compared
-- after normalisation, the index from such a text to the ids that own it, and ranked candidates.
pub mod Owners
pub mod Bearers
pub mod Headers
pub mod Categories
use excelflow.Prelude.{
  ℕ, Bool, true, false, List, [], ◌∷◌, ◌++◌, Option, none, some, String, ltb, str_eq, ◌≡◌, all_by,
  any_by, length, ◌==◌, if◌then◌else◌,
}
use excelflow.Products.{member, Dict, get, Result, ok, key_error}
use excelflow.Sorting.{text_leb}

-- What the modules take from unicodedata, `str` and rapidfuzz. Scores are counted in units of which
-- 100 has `full_score`.
pub record Names : Type 1 where
  pub Value : Type 0
  pub of_text : String → Value
  -- `str(value)`
  pub text_of : Value → String
  -- Unicode normalisation, and single blanks for runs of white space
  pub tidy : String → String
  pub casefold : String → String
  pub full_score : ℕ
  -- `process.extract(query, choices, scorer=fuzz.ratio, score_cutoff=…, limit=…)`: pairs of a choice
  -- and its score
  pub extract : String → List String → ℕ → ℕ → List (String × ℕ)
  pub extract-known :
      (query : String) (choices : List String) (cutoff limit : ℕ)
      → all_by (λ r. member r.0 choices) (extract query choices cutoff limit) ≡ true

pub record MappingCandidate : Type 0 where
  pub field_id : String
  pub title : String
  pub confidence : ℕ
  pub match_value : String

-- the order by `(-item.confidence, item.field_id)`
abbrev pub rank_leb : MappingCandidate → MappingCandidate → Bool
rank_leb a b =
    if ltb b.confidence a.confidence
    then true
    else if ltb a.confidence b.confidence
    then false
    else text_leb a.field_id b.field_id

-- The best candidate of each id, in the order in which the ids came: an entry is replaced by a
-- better one.
pub keep_best : MappingCandidate → List MappingCandidate → List MappingCandidate
keep_best c [] = c ∷ []
keep_best c (b ∷ bs) =
    if str_eq b.field_id c.field_id
    then if ltb b.confidence c.confidence then c ∷ bs else b ∷ bs
    else b ∷ keep_best c bs

-- `d[key]` of a `dict`
abbrev pub require : {V : Type 0} → String → Dict V → Result V
require key d = elim (get key d) [ none ↦ key_error | some v ↦ ok v ]

-- a set of texts with one more
abbrev pub add_once : String → List String → List String
add_once id ids = if member id ids then ids else ids ++ id ∷ []

-- an entry of a `dict` from texts to sets of ids
pub record Owner : Type 0 where
  pub token : String
  pub ids : List String

-- `owners[token].add(id)` on a `defaultdict(set)`; the entries stand in the order of insertion
unfoldable pub add_owner : String → String → List Owner → List Owner
add_owner token id [] = record { token = token; ids = id ∷ [] } ∷ []
add_owner token id (o ∷ os) =
    if str_eq o.token token
    then record o { ids = add_once id o.ids } ∷ os
    else o ∷ add_owner token id os

-- `owners.get(token, set())`
unfoldable pub owners_of : String → List Owner → List String
owners_of token [] = []
owners_of token (o ∷ os) = if str_eq o.token token then o.ids else owners_of token os

-- `list(owners)`
abbrev pub tokens : List Owner → List String
tokens [] = []
tokens (o ∷ os) = o.token ∷ tokens os

-- the keys of `{id_of(x): x for x in xs}`
abbrev pub distinct_ids : {A : Type 0} → (A → String) → List A → List String → List String
distinct_ids id_of [] ids = ids
distinct_ids id_of (x ∷ xs) ids = distinct_ids id_of xs (add_once (id_of x) ids)

-- the dictionary has as many entries as there are items
abbrev pub have_unique_ids : {A : Type 0} → (A → String) → List A → Bool
have_unique_ids id_of xs = length (distinct_ids id_of xs []) == length xs

-- the set has just this text
abbrev pub is_only : String → List String → Bool
is_only id [] = false
is_only id (x ∷ []) = str_eq x id
is_only id (x ∷ y ∷ xs) = false

module _ (names : Names) where
  open names use {Value, of_text, text_of, tidy, casefold}

  -- `normalize_header` of models.py
  unfoldable pub normalize_header : Option Value → String
  normalize_header none = tidy ""
  normalize_header (some v) = tidy (text_of v)

  -- `_key`
  unfoldable pub key : String → String
  unfolding normalize_header
  key text = casefold (normalize_header (some (of_text text)))

  -- the loop over the names of one item
  unfoldable pub add_names : String → List String → List Owner → List Owner
  add_names id [] os = os
  add_names id (v ∷ vs) os = add_names id vs (add_owner (key v) id os)

  module _ {A : Type 0} (id_of : A → String) (names_of : A → List String) where
    -- the index of the names of all items
    unfoldable pub name_index : List A → List Owner → List Owner
    name_index [] os = os
    name_index (x ∷ xs) os = name_index xs (add_names (id_of x) (names_of x) os)

    -- the item has a name of this normalised text
    abbrev pub has_name : String → A → Bool
    has_name token x = any_by (λ v. str_eq (key v) token) (names_of x)
