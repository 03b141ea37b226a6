-- ===== src/Products/Reconciling/Indexing.antt =====
-- Dictionaries that a comprehension builds from records.
use excelflow.Prelude.{
  ◌≤◌, ◌≡◌, refl, Bool, true, false, ◌&&◌, ◌||◌, List, [], ◌∷◌, String, arith, str_eq, any_by,
  all_by, count_by, holds, is_some, not,
}
use excelflow.Products.{index_by, Dict, get}

module _ {A : Type 0} (key : A → String) (k : String) where
  get-index_by_absent :
      (xs : List A) (d : Dict A)
      → count_by (λ x. str_eq (key x) k) xs ≡ 0
      → get k (index_by key xs d) ≡ get k d
  unfolding index_by get
  get-index_by_absent [] d h = refl
  get-index_by_absent (x ∷ xs) d h = ground (arith, get-index_by_absent xs ((key x, x) ∷ d))

  -- Where one item at most has the key, the entry is that item.
  pub holds-get-index_by :
      (q : A → Bool) (xs : List A) (d : Dict A)
      → count_by (λ x. str_eq (key x) k) xs ≤ 1
      → any_by (λ x. str_eq (key x) k && q x) xs ≡ true
      → holds q (get k (index_by key xs d)) ≡ true
  unfolding index_by get
  holds-get-index_by q [] d c h = cc
  holds-get-index_by q (x ∷ xs) d c h = ground (
    arith,
    get-index_by_absent xs ((key x, x) ∷ d),
    any_absent xs,
    holds-get-index_by q xs ((key x, x) ∷ d),
  )
    where
      any_absent :
          (ys : List A)
          → count_by (λ y. str_eq (key y) k) ys ≡ 0
          → any_by (λ y. str_eq (key y) k && q y) ys ≡ false
      any_absent [] e = refl
      any_absent (y ∷ ys) e = ground (arith, any_absent ys)

  -- An entry is one of the items, with its key.
  pub get-index_by :
      (q : A → Bool) (xs : List A) (d : Dict A)
      → all_by q xs ≡ true
      → holds (λ x. not (str_eq (key x) k && q x)) (get k d) ≡ false
      → holds (λ x. not (str_eq (key x) k && q x)) (get k (index_by key xs d)) ≡ false
  unfolding index_by get
  get-index_by q [] d h e = e
  get-index_by q (x ∷ xs) d h e = ground (arith, get-index_by q xs ((key x, x) ∷ d))

  -- There is an entry for the key of each item.
  pub is_some-index_by :
      (xs : List A) (d : Dict A)
      → any_by (λ x. str_eq (key x) k) xs || is_some (get k d) ≡ true
      → is_some (get k (index_by key xs d)) ≡ true
  unfolding index_by get
  is_some-index_by [] d h = h
  is_some-index_by (x ∷ xs) d h = ground (arith, is_some-index_by xs ((key x, x) ∷ d))
