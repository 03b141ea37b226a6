-- ===== src/Catalog/Headers/Success.antt =====
-- `map_product_headers` meets no missing key: every owner is a field, and every text has a display.
use excelflow.Prelude.{
  ℕ, ◌+◌, ◌≡◌, refl, ◌∙◌, Bool, true, ◌||◌, List, [], ◌∷◌, Option, none, some, String, arith,
  str_eq, eq_iff, any_by, all_by, is_some, if_keeps, ◌==◌, max, ◌*◌,
}
use excelflow.Products.{member, Dict, get, Result, ok, ◌>>=◌, is_ok, is_ok->>=}
use excelflow.Sorting.{sorted, text_leb, all_by-sorted}
use excelflow.Catalog.{
  Names, MappingCandidate, require, Owner, add_owner, owners_of, tokens, normalize_header, key,
  add_names, name_index,
}
use excelflow.Catalog.Owners.{all_members}
use excelflow.Catalog.Headers.{
  CatalogField, FieldMapping, names_of, Targets, display_names, token_display, candidate,
  candidates_of, best_by_field, best_matches, suggestion, ranked, header_owners, map_owned,
  map_header, map_headers, keep_all,
}

member-tokens-add_owner :
    (k token id : String) (os : List Owner)
    → member k (tokens (add_owner token id os)) ≡ (str_eq token k || member k (tokens os))
unfolding add_owner
member-tokens-add_owner k token id [] = refl
member-tokens-add_owner k token id (o ∷ os) =
    ground (arith, eq_iff o.token token, member-tokens-add_owner k token id os)

module _ (names : Names) where
  open names use {Value, casefold, full_score, extract, extract-known}

  -- Both dictionaries have the keys of all names.
  member-tokens-add_names :
      (k id : String) (vs : List String) (os : List Owner)
      → member k (tokens (add_names names id vs os))
        ≡ (any_by (λ v. str_eq (key names v) k) vs || member k (tokens os))
  unfolding add_names
  member-tokens-add_names k id [] os = refl
  member-tokens-add_names k id (v ∷ vs) os = ground (
    arith,
    member-tokens-add_names k id vs (add_owner (key names v) id os),
    member-tokens-add_owner k (key names v) id os,
  )

  is_some-display_names :
      (k : String) (vs : List String) (d : Dict String)
      → is_some (get k (display_names names vs d))
        ≡ (any_by (λ v. str_eq (key names v) k) vs || is_some (get k d))
  unfolding display_names get
  is_some-display_names k [] d = refl
  is_some-display_names k (v ∷ vs) d = ground (
    arith,
    eq_iff (key names v) k,
    is_some-display_names k vs d,
    is_some-display_names k vs ((key names v, v) ∷ d),
  )

  pub tokens-display :
      (k : String) (fs : List CatalogField) (os : List Owner) (d : Dict String)
      → member k (tokens os) ≡ is_some (get k d)
      → member k (tokens (name_index names (λ (f : CatalogField). f.field_id) names_of fs os))
        ≡ is_some (get k (token_display names fs d))
  unfolding name_index token_display
  tokens-display k [] os d h = h
  tokens-display k (f ∷ fs) os d h =
      tokens-display k fs (add_names names f.field_id (names_of f) os)
        (display_names names (names_of f) d)
        (ground (
          arith,
          member-tokens-add_names k f.field_id (names_of f) os,
          is_some-display_names k (names_of f) d,
        ))

  module _ (t : Targets names) where
    abbrev known : String → Bool
    known id = is_some (get id t.by_id)

    pub record IsComplete : Type 0 where
      pub owners_known :
          (token id : String) → member id (owners_of token t.owners) ≡ true → known id ≡ true
      pub choices_shown :
          (k : String) → member k (tokens t.owners) ≡ true → is_some (get k t.display) ≡ true

    is_ok-candidates_of :
        (score : ℕ) (shown : String) (ids : List String)
        → all_by known ids ≡ true
        → is_ok (candidates_of names t score shown ids) ≡ true
    unfolding candidates_of candidate
    is_ok-candidates_of score shown [] h = refl
    is_ok-candidates_of score shown (id ∷ ids) h =
        is_ok->>= (candidate names t score shown id)
          (λ c. candidates_of names t score shown ids >>= λ cs. ok (c ∷ cs)) (ground arith)
          (λ c.
            is_ok->>= (candidates_of names t score shown ids) (λ cs. ok (c ∷ cs))
              (is_ok-candidates_of score shown ids (ground arith)) (λ cs. refl))

    module _ (complete : IsComplete) where
      is_ok-best_by_field :
          (choices : List (String × ℕ)) (best : List MappingCandidate)
          → all_by (λ r. member r.0 (tokens t.owners)) choices ≡ true
          → is_ok (best_by_field names t choices best) ≡ true
      unfolding best_by_field
      is_ok-best_by_field [] best h = refl
      is_ok-best_by_field ((choice, score) ∷ rest) best h =
          is_ok->>= (require choice t.display)
            (λ shown. candidates_of names t score shown (owners_of choice t.owners) >>= λ cs.
              best_by_field names t rest (keep_all names t cs best))
            (ground (arith, complete.choices_shown choice))
            (λ shown.
              is_ok->>= (candidates_of names t score shown (owners_of choice t.owners))
                (λ cs. best_by_field names t rest (keep_all names t cs best))
                (is_ok-candidates_of score shown (owners_of choice t.owners)
                  (all_members known (owners_of choice t.owners) (complete.owners_known choice)))
                (λ cs. is_ok-best_by_field rest (keep_all names t cs best) (ground arith)))

      is_ok-map_owned :
          (column : ℕ) (raw : Value) (token : String) (owners taken : List String)
          → all_by known owners ≡ true
          → is_ok (map_owned names t column raw token owners taken) ≡ true
      unfolding map_owned best_matches
      is_ok-map_owned column raw token [] taken h =
          is_ok->>= (best_matches names t token)
            (λ best. ok (suggestion names t column raw (ranked names t best), taken))
            (is_ok-best_by_field
              (extract token (tokens t.owners) t.fuzzy_threshold
                (max (t.max_candidates * 3) t.max_candidates))
              []
              (extract-known token (tokens t.owners) t.fuzzy_threshold
                (max (t.max_candidates * 3) t.max_candidates)))
            (λ best. refl)
      is_ok-map_owned column raw token (id ∷ []) taken h = refl
      is_ok-map_owned column raw token (a ∷ b ∷ ids) taken h =
          is_ok->>=
            (candidates_of names t full_score (normalize_header names (some raw))
              (sorted text_leb (a ∷ b ∷ ids)))
            _
            (is_ok-candidates_of full_score (normalize_header names (some raw))
              (sorted text_leb (a ∷ b ∷ ids)) (all_by-sorted text_leb known (a ∷ b ∷ ids) ∙ h))
            (λ cs. refl)

      is_ok-confirmed :
          (column : ℕ) (raw : Value) (token : String) (found : Option String) (taken : List String)
          → is_ok (
              map_owned names t column raw token
                (elim found [ some id ↦ id ∷ [] | none ↦ owners_of token t.owners ])
                taken)
            ≡ true
      unfolding map_owned
      is_ok-confirmed column raw token (some id) taken = refl
      is_ok-confirmed column raw token none taken =
          is_ok-map_owned column raw token (owners_of token t.owners) taken
            (all_members known (owners_of token t.owners) (complete.owners_known token))

      is_ok-map_header :
          (column : ℕ) (raw : Value) (taken : List String)
          → is_ok (map_header names t column raw taken) ≡ true
      unfolding map_header header_owners
      is_ok-map_header column raw taken =
          let token = casefold (normalize_header names (some raw)) in
          if_keeps (λ (r : Result (FieldMapping × List String)). is_ok r ≡ true)
            (any_by (λ c. c == column) t.forced) (λ h. refl)
            (λ h. is_ok-confirmed column raw token (get token t.confirmed) taken)

      pub is_ok-map_headers :
          (column : ℕ) (raws : List Value) (taken : List String)
          → is_ok (map_headers names t column raws taken) ≡ true
      unfolding map_headers
      is_ok-map_headers column [] taken = refl
      is_ok-map_headers column (raw ∷ raws) taken =
          is_ok->>= (map_header names t column raw taken)
            (λ p. map_headers names t (column + 1) raws p.1 >>= λ rest. ok (p.0 ∷ rest))
            (is_ok-map_header column raw taken)
            (λ p.
              is_ok->>= (map_headers names t (column + 1) raws p.1) (λ rest. ok (p.0 ∷ rest))
                (is_ok-map_headers (column + 1) raws p.1) (λ rest. refl))
