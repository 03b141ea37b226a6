-- ===== src/Catalog/Headers/Guarantees.antt =====
-- What `map_product_headers` promises of its result.
use excelflow.Prelude.{
  ℕ, ◌≤◌, ◌≡◌, refl, sym, ◌∙◌, Bool, true, false, not, ◌||◌, List, [], map, Option, none, some,
  String, arith, str_eq, all_by, all_by_imp, count_by, holds,
}
use excelflow.Products.{if_ok, Dict, get, index_by, ok, is_ok-result}
use excelflow.Products.Reconciling.Indexing.{is_some-index_by}
use excelflow.Catalog.{have_unique_ids, is_only, Names}
use excelflow.Catalog.Bearers.{is_sole_bearer, sole_bearer, owned-any}
use excelflow.Catalog.Headers.{
  CatalogField, FieldMapping, is_accepted, names_of, Targets, header_owners, map_headers,
  targets_of, map_product_headers, confirm,
}
use excelflow.Catalog.Headers.Steps.{gives, label_of, labels, owned, AreSteps, map_headers-AreSteps}
use excelflow.Catalog.Headers.Success.{IsComplete, tokens-display, is_ok-map_headers}

has_owner :
    (accepted : Bool) (p q : String → Bool) (id : Option String)
    → ((x : String) → p x ≡ true → q x ≡ true)
    → (not accepted || holds p id) ≡ true
    → (not accepted || holds q id) ≡ true
has_owner false p q id imp h = refl
has_owner true p q none imp h = cc
has_owner true p q (some x) imp h = imp x h

module _ (names : Names) (fields : List CatalogField) where
  open names use {Value, casefold}

  abbrev is_sole : String → String → Bool
  is_sole token id =
      is_sole_bearer names (λ (f : CatalogField). f.field_id) names_of fields token id

  -- the confirmed field of a text, or its only bearer
  abbrev is_target : Dict String → String → String → Bool
  is_target confirmed token id = elim (get token confirmed) [
    | some confirmed_id ↦ str_eq confirmed_id id
    | none ↦ is_sole token id
  ]

  abbrev pub has_target : Dict String → FieldMapping → Bool
  has_target confirmed m =
      not (is_accepted m.status)
      || holds (λ id. is_target confirmed (casefold m.normalized_header) id) m.field_id

  module _ (confirmed : Dict String) (forced : List ℕ) (fuzzy_threshold max_candidates : ℕ) where
    abbrev targets : Targets names
    targets = targets_of names fields confirmed forced fuzzy_threshold max_candidates

    only_owner-is_target :
        (token id : String)
        → is_only id (header_owners names targets token) ≡ true
        → is_target confirmed token id ≡ true
    unfolding header_owners
    only_owner-is_target token id h =
        ground
          (arith, sole_bearer names (λ (f : CatalogField). f.field_id) names_of fields token id)

    targets-IsComplete : IsComplete names targets
    unfolding get
    targets-IsComplete = record {
      owners_known = λ token id e.
          is_some-index_by (λ (f : CatalogField). f.field_id) id fields []
            (ground (
              arith,
              owned-any names (λ (f : CatalogField). f.field_id) names_of fields token id e,
            ));
      choices_shown = λ k e. sym (tokens-display names k fields [] [] refl) ∙ e;
    }

    has_targets :
        (rs : List FieldMapping)
        → all_by (owned names targets) rs ≡ true
        → all_by (has_target confirmed) rs ≡ true
    has_targets rs h =
        all_by_imp (owned names targets) (has_target confirmed)
          (λ m e.
            has_owner (is_accepted m.status)
              (λ id. is_only id (header_owners names targets (casefold m.normalized_header)))
              (is_target confirmed (casefold m.normalized_header)) m.field_id
              (only_owner-is_target (casefold m.normalized_header)) e)
          rs h

  module _ (aliases : List (String × String)) (forced : List ℕ) (fuzzy_threshold max_candidates : ℕ)
      (confirmed : Dict String) where
    -- Where the ids of the fields are distinct and the confirmed aliases are consistent,
    -- `map_product_headers` returns one mapping for each header, in their order, with the number of
    -- its column, its text and its normalised text; and it gives no field to two columns.
    pub map_product_headers-maps_all :
        (headers : List Value)
        → have_unique_ids (λ (f : CatalogField). f.field_id) fields ≡ true
        → confirm names (index_by (λ (f : CatalogField). f.field_id) fields []) aliases []
          ≡ ok confirmed
        → (rs : List FieldMapping) × (map_product_headers names headers fields aliases forced
              fuzzy_threshold max_candidates
            ≡ ok rs)
          × (map label_of rs ≡ labels names 1 headers)
          × ((id : String) → count_by (gives id) rs ≤ 1)
    unfolding map_product_headers
    map_product_headers-maps_all headers unique consistent =
        let t = targets confirmed forced fuzzy_threshold max_candidates in
        let (rs, made) = is_ok-result (map_headers names t 1 headers []) (
          is_ok-map_headers names t
            (targets-IsComplete confirmed forced fuzzy_threshold max_candidates) 1 headers []) in
        let steps : (id : String) → AreSteps names t 1 headers [] id rs =
          λ id. map_headers-AreSteps names t 1 headers [] id made in
        (
          rs,
          rw (unique, consistent) made,
          (steps "").labelled,
          λ id. ground (arith, (steps id).counted),
        )

    -- Where `map_product_headers` returns mappings and the confirmed aliases are consistent, the
    -- field of an accepted mapping is the one that is confirmed for the header's normalised text or,
    -- without a confirmed one, the only field that bears this text as its id, its title, an alias or
    -- the id of its attribute.
    pub map_product_headers-accepts_targets :
        (headers : List Value) {rs : List FieldMapping}
        → confirm names (index_by (λ (f : CatalogField). f.field_id) fields []) aliases []
          ≡ ok confirmed
        → map_product_headers names headers fields aliases forced fuzzy_threshold max_candidates
          ≡ ok rs
        → all_by (has_target confirmed) rs ≡ true
    unfolding map_product_headers
    map_product_headers-accepts_targets headers {rs} consistent h =
        let t = targets confirmed forced fuzzy_threshold max_candidates in
        let made : map_headers names t 1 headers [] ≡ ok rs =
          rw consistent at
            (if_ok (have_unique_ids (λ (f : CatalogField). f.field_id) fields) _ h) in
        has_targets confirmed forced fuzzy_threshold max_candidates rs
          (map_headers-AreSteps names t 1 headers [] "" made).have_owners
