-- ===== src/Catalog/Categories/Success.antt =====
-- `resolve_categories` meets no missing key: every owner of a name is an active category.
use excelflow.Prelude.{
  leb, ℕ, ◌≡◌, refl, ◌∙◌, inl, inr, Option-cases, Bool, true, not, ◌&&◌, List, [], ◌∷◌, Option,
  none, some, String, arith, all_by, all_by-append, is_some, if◌then◌else◌, if_keeps, length, ◌==◌,
}
use excelflow.Products.{member, get, Result, ok, ◌>>=◌, is_ok, is_ok->>=}
use excelflow.Sorting.{sorted, text_leb, all_by-sorted}
use excelflow.Catalog.{Names, MappingCandidate, require, add_once, owners_of, tokens, is_only, key}
use excelflow.Catalog.Owners.{all_members}
use excelflow.Catalog.Categories.{
  with_row_number, Category, Resolution, is_blank, Directory, Row, resolved_row, candidate,
  candidates_of, keep_all, best_by_id, resolve_id, invalid_row, resolve_name, resolve_unknown,
  resolve_row, resolve_rows, id_text, cell_text, exact,
}

module _ (names : Names) (d : Directory names) where
  open names use {full_score, extract}

  abbrev known : String → Bool
  known id = is_some (get id d.by_id)

  is_ok-candidates_of :
      (score : ℕ) (shown : String → String) (ids : List String)
      → all_by known ids ≡ true
      → is_ok (candidates_of names d score shown ids) ≡ true
  unfolding candidates_of candidate
  is_ok-candidates_of score shown [] h = refl
  is_ok-candidates_of score shown (id ∷ ids) h =
      is_ok->>= (candidate names d score (shown id) id)
        (λ c. candidates_of names d score shown ids >>= λ cs. ok (c ∷ cs)) (ground arith)
        (λ c.
          is_ok->>= (candidates_of names d score shown ids) (λ cs. ok (c ∷ cs))
            (is_ok-candidates_of score shown ids (ground arith)) (λ cs. refl))

  known-add_once :
      (id : String) (ids : List String)
      → known id ≡ true
      → all_by known ids ≡ true
      → all_by known (add_once id ids) ≡ true
  known-add_once id ids a h = ground (arith, all_by-append known ids (id ∷ []))

  module _
      (owners_known : (token id : String)
        → member id (owners_of token d.owners) ≡ true
        → known id ≡ true) where
    all_known : (token : String) → all_by known (owners_of token d.owners) ≡ true
    all_known token = all_members known (owners_of token d.owners) (owners_known token)

    is_ok-best_by_id :
        (choices : List (String × ℕ)) (best : List MappingCandidate)
        → is_ok (best_by_id names d choices best) ≡ true
    unfolding best_by_id
    is_ok-best_by_id [] best = refl
    is_ok-best_by_id ((choice, score) ∷ rest) best =
        is_ok->>= (candidates_of names d score (λ owner. choice) (owners_of choice d.owners))
          (λ cs. best_by_id names d rest (keep_all names d cs best))
          (is_ok-candidates_of score (λ owner. choice) (owners_of choice d.owners)
            (all_known choice))
          (λ cs. is_ok-best_by_id rest (keep_all names d cs best))

    is_ok-resolve_id :
        (n : ℕ) (raw_id raw_name : String) (c : Category)
        → get raw_id d.by_id ≡ some c
        → is_ok (resolve_id names d n raw_id raw_name c) ≡ true
    unfolding resolve_id
    is_ok-resolve_id n raw_id raw_name c found =
        let owners = if is_blank raw_name then [] else owners_of (key names raw_name) d.owners in
        if_keeps (λ (r : Result Resolution). is_ok r ≡ true)
          (not (length owners == 0) && not (is_only raw_id owners))
          (λ h.
            is_ok->>= (candidates_of names d full_score _ _) _
              (is_ok-candidates_of full_score _ (sorted text_leb (add_once raw_id owners)) (
                all_by-sorted text_leb known (add_once raw_id owners)
                ∙ known-add_once raw_id owners (ground arith) (
                    if_keeps (λ ids. all_by known ids ≡ true) (is_blank raw_name) (λ b. refl)
                      (λ b. all_known (key names raw_name)))))
              (λ cs. refl))
          (λ h. refl)

    is_ok-resolve_name :
        (n : ℕ) (raw_name : String) (owners : List String)
        → all_by known owners ≡ true
        → is_ok (resolve_name names d n raw_name owners) ≡ true
    unfolding resolve_name
    is_ok-resolve_name n raw_name [] h =
        is_ok->>= (best_by_id names d _ []) _
          (is_ok-best_by_id (extract (key names raw_name) (tokens d.owners) d.fuzzy_threshold 12)
            [])
          (λ best. refl)
    is_ok-resolve_name n raw_name (id ∷ []) h =
        is_ok->>= (require id d.by_id) (λ c. ok (resolved_row names n none (some raw_name) exact c))
          (ground arith) (λ c. refl)
    is_ok-resolve_name n raw_name (x ∷ y ∷ ids) h =
        is_ok->>= (candidates_of names d full_score (λ id. raw_name) (x ∷ y ∷ ids)) _
          (is_ok-candidates_of full_score (λ id. raw_name) (x ∷ y ∷ ids) h) (λ cs. refl)

    is_ok-invalid :
        (n : ℕ) (raw_id raw_name : String) (owners : List String)
        → all_by known owners ≡ true
        → is_ok (
            candidates_of names d full_score (λ id. raw_name) (sorted text_leb owners) >>= λ cs.
            ok (invalid_row names d n raw_id raw_name cs))
          ≡ true
    is_ok-invalid n raw_id raw_name owners h =
        is_ok->>= (candidates_of names d full_score (λ id. raw_name) (sorted text_leb owners))
          (λ cs. ok (invalid_row names d n raw_id raw_name cs))
          (is_ok-candidates_of full_score (λ id. raw_name) (sorted text_leb owners)
            (all_by-sorted text_leb known owners ∙ h))
          (λ cs. refl)

    is_ok-resolve_unknown :
        (n : ℕ) (raw_id raw_name : String)
        → is_ok (resolve_unknown names d n raw_id raw_name) ≡ true
    unfolding resolve_unknown
    is_ok-resolve_unknown n raw_id raw_name =
        let owners = owners_of (key names raw_name) d.owners in
        ground (
          arith,
          all_known (key names raw_name),
          is_ok-resolve_name n raw_name owners,
          is_ok-invalid n raw_id raw_name owners,
        )

    is_ok-resolve_row :
        (n : ℕ) (raw_id raw_name : String) → is_ok (resolve_row names d n raw_id raw_name) ≡ true
    unfolding resolve_row
    is_ok-resolve_row n raw_id raw_name = elim (Option-cases (get raw_id d.by_id)) [
      | inl missing ↦ ground (arith, is_ok-resolve_unknown n raw_id raw_name)
      | inr (c, found) ↦ ground (
        arith,
        is_ok-resolve_unknown n raw_id raw_name,
        is_ok-resolve_id n raw_id raw_name c found,
      )
    ]

    pub is_ok-resolve_rows :
        (source_field : String) (id_field : Option String) (numbers : List ℕ)
        (rows : List (Row names))
        → (length numbers == length rows) ≡ true
        → all_by (λ n. leb 1 n) numbers ≡ true
        → is_ok (resolve_rows names d source_field id_field numbers rows) ≡ true
    unfolding resolve_rows
    is_ok-resolve_rows source_field id_field numbers [] h positive = refl
    is_ok-resolve_rows source_field id_field (n ∷ numbers) (row ∷ rows) h positive =
        is_ok->>=
          (with_row_number names d n
            (resolve_row names d n (id_text names id_field row) (cell_text names source_field row)))
          (λ r. resolve_rows names d source_field id_field numbers rows >>= λ rs. ok (r ∷ rs))
          (ground (
            arith,
            is_ok-resolve_row n (id_text names id_field row) (cell_text names source_field row),
          ))
          (λ r.
            is_ok->>= (resolve_rows names d source_field id_field numbers rows) (λ rs. ok (r ∷ rs))
              (is_ok-resolve_rows source_field id_field numbers rows (ground arith) (ground arith))
              (λ rs. refl))
    is_ok-resolve_rows source_field id_field [] (row ∷ rows) h positive = ground arith
