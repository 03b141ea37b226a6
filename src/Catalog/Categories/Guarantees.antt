-- ===== src/Catalog/Categories/Guarantees.antt =====
-- What `resolve_categories` promises of its result.
use excelflow.Prelude.{
  leb, ℕ, ◌+◌, ◌≡◌, refl, Bool, true, false, not, ◌&&◌, ◌||◌, List, [], ◌∷◌, map, Option, none,
  some, String, arith, str_eq, any_by, all_by, all_by_imp, holds, length, ◌==◌,
}
use excelflow.Products.{Dict, get, index_by, ok, is_ok-result, if_ok, else_ok}
use excelflow.Products.Reconciling.Indexing.{is_some-index_by}
use excelflow.Catalog.{Names, have_unique_ids, key}
use excelflow.Catalog.Bearers.{
  is_sole_bearer, has_no_bearer, sole_bearer, unowned-has_no_bearer, owned-any,
}
use excelflow.Catalog.Categories.{
  Category, Resolution, names_of, active_only, numbers_from, row_numbers, are_aligned, Row,
  Directory, directory_of, resolve_rows, resolve_categories,
}
use excelflow.Catalog.Categories.Rows.{
  Facts, is_sound, is_chosen, agrees, indexed, labels, label_of, resolve_rows-AreRows,
}
use excelflow.Catalog.Categories.Success.{is_ok-resolve_rows}

-- An entry of an index is an item with its key.
entry-any :
    {A : Type 0} (key : A → String) (k : String) (q : A → Bool) (xs : List A) (d : Dict A)
    → holds q (get k (index_by key xs d)) ≡ true
    → any_by (λ x. str_eq (key x) k && q x) xs || holds q (get k d) ≡ true
unfolding index_by get
entry-any key k q [] d h = h
entry-any key k q (x ∷ xs) d h = ground (arith, entry-any key k q xs ((key x, x) ∷ d))

keyed-index_by :
    {A : Type 0} (key : A → String) (k : String) (xs : List A) (d : Dict A)
    → holds (λ x. not (str_eq (key x) k)) (get k d) ≡ false
    → holds (λ x. not (str_eq (key x) k)) (get k (index_by key xs d)) ≡ false
unfolding index_by get
keyed-index_by key k [] d h = h
keyed-index_by key k (x ∷ xs) d h = ground (arith, keyed-index_by key k xs ((key x, x) ∷ d))

length-numbers_from : {A : Type 0} (n : ℕ) (xs : List A) → length (numbers_from n xs) ≡ length xs
length-numbers_from n [] = refl
length-numbers_from n (x ∷ xs) = ground (arith, length-numbers_from (n + 1) xs)

length-row_numbers :
    {A : Type 0} (excel_rows : Option (List ℕ)) (first : ℕ) (rows : List A)
    → are_aligned excel_rows rows ≡ true
    → (length (row_numbers excel_rows first rows) == length rows) ≡ true
length-row_numbers none first rows h = ground (arith, length-numbers_from first rows)
length-row_numbers (some numbers) first rows h = h

-- Facts that imply others, on each text and id.
record Implies (f g : Facts) : Type 0 where
  entry : (id name : String) → f.is_entry id name ≡ true → g.is_entry id name ≡ true
  none_has : (name : String) → f.has_none name ≡ true → g.has_none name ≡ true
  sole : (name id : String) → f.is_sole name id ≡ true → g.is_sole name id ≡ true

module _ {f g : Facts} (imp : Implies f g) where
  agrees_imp :
      (name : Option String) (id : String) → agrees f name id ≡ true → agrees g name id ≡ true
  agrees_imp none id h = refl
  agrees_imp (some name) id h = ground (arith, imp.none_has name, imp.sole name id)

  is_chosen_imp :
      (raw_id name : Option String) (id : String)
      → is_chosen f raw_id name id ≡ true
      → is_chosen g raw_id name id ≡ true
  is_chosen_imp (some raw_id) name id h = ground (arith, agrees_imp name id)
  is_chosen_imp none none id h = cc
  is_chosen_imp none (some name) id h = imp.sole name id h

  is_resolved_imp :
      (raw_id raw_name id name : Option String)
      → holds (λ id. holds (λ n. f.is_entry id n) name && is_chosen f raw_id raw_name id) id ≡ true
      → holds (λ id. holds (λ n. g.is_entry id n) name && is_chosen g raw_id raw_name id) id ≡ true
  is_resolved_imp raw_id raw_name none name h = cc
  is_resolved_imp raw_id raw_name (some id) none h = cc
  is_resolved_imp raw_id raw_name (some id) (some name) h =
      ground (arith, imp.entry id name, is_chosen_imp raw_id raw_name id)

  is_sound_imp : (r : Resolution) → is_sound f r ≡ true → is_sound g r ≡ true
  is_sound_imp r h =
      ground (arith, is_resolved_imp r.raw_category_id r.raw_category r.category_id r.category_name)

module _ (names : Names) (categories : List Category) where
  abbrev actives : List Category
  actives = active_only categories

  -- What the active categories say: one of them has this id and name, none bears the normalised text
  -- as its name, an alias or a part of its path, or only the one of that id does.
  abbrev pub facts : Facts
  facts = record {
    is_entry =
        λ id name. any_by (λ (c : Category). str_eq c.category_id id && str_eq c.name name) actives;
    has_none = λ name.
        has_no_bearer names (λ (c : Category). c.category_id) names_of actives (key names name);
    is_sole = λ name id.
        is_sole_bearer names (λ (c : Category). c.category_id) names_of actives (key names name) id;
  }

  module _ (threshold margin : ℕ) where
    abbrev directory : Directory names
    directory = directory_of names categories threshold margin

    indexed-Implies : Implies (indexed names directory) facts
    unfolding get
    indexed-Implies = record {
      entry = λ id name h. ground (
        arith,
        entry-any (λ (c : Category). c.category_id) id
            (λ c. str_eq c.category_id id && str_eq c.name name) actives [] h,
      );
      none_has = λ name h.
          unowned-has_no_bearer names (λ (c : Category). c.category_id) names_of actives
            (key names name) h;
      sole = λ name id h.
          sole_bearer names (λ (c : Category). c.category_id) names_of actives (key names name) id
            h;
    }

  module _ (source_field : String) (id_field : Option String) (first : ℕ)
      (excel_rows : Option (List ℕ)) (threshold margin : ℕ) where
    keyed :
        (id : String)
        → holds
            (λ (c : Category). not (str_eq c.category_id id))
            (get id (directory threshold margin).by_id)
          ≡ false
    unfolding get
    keyed id = keyed-index_by (λ (c : Category). c.category_id) id actives [] refl

    -- Where the given row numbers are as many as the rows, the numbers of the rows are at least 1 and
    -- the ids of the active categories are distinct, `resolve_categories` returns one resolution for each row, in their order, with the
    -- number of the row, its normalised id and its normalised name, where they are not blank.
    pub resolve_categories-resolves_all :
        (rows : List (Row names))
        → are_aligned excel_rows rows ≡ true
        → all_by (λ n. leb 1 n) (row_numbers excel_rows first rows) ≡ true
        → have_unique_ids (λ (c : Category). c.category_id) actives ≡ true
        → (rs : List Resolution) × (resolve_categories names rows categories source_field id_field
              first excel_rows threshold margin
            ≡ ok rs)
          × (map label_of rs
              ≡ labels names
                  (directory threshold margin)
                  source_field
                  id_field
                  (row_numbers excel_rows first rows)
                  rows)
    unfolding resolve_categories
    resolve_categories-resolves_all rows aligned positive unique =
        let d = directory threshold margin in
        let numbers = row_numbers excel_rows first rows in
        let (rs, made) = is_ok-result (resolve_rows names d source_field id_field numbers rows) (
          is_ok-resolve_rows names d
            (λ token id e.
              is_some-index_by (λ (c : Category). c.category_id) id actives []
                (ground (
                  arith,
                  owned-any names (λ (c : Category). c.category_id) names_of actives token id e,
                )))
            source_field id_field numbers rows (length-row_numbers excel_rows first rows aligned)
            positive) in
        (
          rs,
          rw (aligned, unique) made,
          (resolve_rows-AreRows names d keyed source_field id_field numbers rows made).labelled,
        )

    -- Where `resolve_categories` returns resolutions, a resolved row has the id and the name of an
    -- active category: of the one whose id the row shows, with which the name in the row agrees (it is
    -- blank, or no active category bears it, or only this one does), or, where the row shows no id, of
    -- the only active category that bears the name. A row that is not resolved has no category.
    pub resolve_categories-is_sound :
        (rows : List (Row names)) {rs : List Resolution}
        → resolve_categories names rows categories source_field id_field first excel_rows threshold
            margin
          ≡ ok rs
        → all_by (is_sound facts) rs ≡ true
    unfolding resolve_categories
    resolve_categories-is_sound rows {rs} h =
        let d = directory threshold margin in
        let numbers = row_numbers excel_rows first rows in
        let made : resolve_rows names d source_field id_field numbers rows ≡ ok rs =
          if_ok (have_unique_ids (λ (c : Category). c.category_id) actives) _
            (else_ok (not (are_aligned excel_rows rows)) _ h) in
        all_by_imp (is_sound (indexed names d)) (is_sound facts)
          (is_sound_imp (indexed-Implies threshold margin)) rs
          (resolve_rows-AreRows names d keyed source_field id_field numbers rows made).sound
