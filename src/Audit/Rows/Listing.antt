-- ===== src/Audit/Rows/Listing.antt =====
-- src/excel_auditor/engine.py: a duplicate key lists every row that bears it.
use excelflow.Prelude.{
  ◌∙◌, ◌≡◌, inl, inr, ℕ, ◌+◌, ◌==◌, ◌||◌, ◌&&◌, Bool, true, List, [], ◌∷◌, is_some, holds, leb,
  any_by, any_by-append, count_by, find_by, Bool-cases, Option-cases, arith,
}
use excelflow.Audit.{Engine}
use excelflow.Audit.Keys.{Key, same_key, IsEquality, same_key_class}
use excelflow.Audit.Keys.Collecting.{
  bears, bears_same, bit, find_by_agree, find-store, store, store-new, store-old, store_all,
}
use excelflow.Audit.Rows.{Kept, Rows, Region, extend, mark_rows}
use excelflow.Audit.Rows.Guarantees.{is_duplicate, any_by-extend}

module _ (engine : Engine) where
  module _ (region : Region engine) where
    -- the rows that are listed with a duplicate key
    abbrev pub lists : Key engine → ℕ → Rows engine → Bool
    lists k n duplicates =
        any_by (λ (d : Key engine × List ℕ). same_key engine d.0 k && any_by (λ m. m == n) d.1)
          duplicates

  module _ (laws : IsEquality engine) (region : Region engine) (k : Key engine) (n : ℕ) where
    lists-extend :
        (key : Key engine) (rows : List ℕ) (duplicates : Rows engine)
        → lists region k n (extend engine key rows duplicates)
          ≡ (lists region k n duplicates || (same_key engine key k && any_by (λ m. m == n) rows))
    unfolding extend
    lists-extend key rows [] = ground arith
    lists-extend key rows ((j, ns) ∷ rest) = elim (Bool-cases (same_key engine j key)) [
      | inl same ↦
          ground
            (arith, same_key_class engine laws j key k same, any_by-append (λ m. m == n) ns rows)
      | inr other ↦ ground (arith, lists-extend key rows rest)
    ]

    abbrev of_row : Key engine × Kept engine → Bool
    of_row e = e.1.0 == n

    lists-store :
        (key : Key engine) (x : Kept engine) (c : List (Key engine × Kept engine) × Rows engine)
        → lists region k n (store engine (mark_rows engine) key x c).1 ≡ (
            lists region k n c.1
            || (same_key engine key k
                && holds (λ e. of_row e || x.0 == n) (find_by (bears engine k) c.0)))
    lists-store key x c = elim (Option-cases (find_by (bears engine key) c.0)) [
      | inl absent ↦
          rw (store-new engine (mark_rows engine) key x c absent)
            (elim (Bool-cases (same_key engine key k)) [
              | inl same ↦
                  let agree =
                    find_by_agree (bears engine key) (bears engine k)
                      (λ e'. bears_same engine laws key k e' same) c.0 in
                  ground arith
              | inr other ↦ ground arith
            ])
      | inr (e, found) ↦
          rw (store-old engine (mark_rows engine) key x c e found)
            (elim (Bool-cases (same_key engine key k)) [
              | inl same ↦
                  let agree =
                    find_by_agree (bears engine key) (bears engine k)
                      (λ e'. bears_same engine laws key k e' same) c.0 in
                  ground (arith, lists-extend key (e.1.0 ∷ x.0 ∷ []) c.1)
              | inr other ↦ ground (arith, lists-extend key (e.1.0 ∷ x.0 ∷ []) c.1)
            ])
    ]

    count_of_row :
        (xs : List (Key engine × Kept engine))
        → any_by (λ x. bears engine k x && of_row x) xs ≡ true
        → leb 1 (count_by (bears engine k) xs) ≡ true
    count_of_row [] h = cc
    count_of_row (x ∷ xs) h = ground (arith, count_of_row xs)

    -- A duplicate lists every row of its key.
    pub lists-store_all :
        (xs : List (Key engine × Kept engine)) (c : List (Key engine × Kept engine) × Rows engine)
        → lists region k n (store_all engine (mark_rows engine) xs c).1 ≡ (
            lists region k n c.1
            || (leb 2 (bit (is_some (find_by (bears engine k) c.0)) + count_by (bears engine k) xs)
                && (holds of_row (find_by (bears engine k) c.0)
                    || any_by (λ x. bears engine k x && of_row x) xs)))
    unfolding store_all
    lists-store_all [] c = ground arith
    lists-store_all (x ∷ xs) c =
        let stored = lists-store x.0 x.1 c in
        let found =
          find-store engine laws (mark_rows engine) (is_duplicate engine)
            (λ k key a b d. any_by-extend engine laws k key (a.0 ∷ b.0 ∷ []) d) k x.0 x.1 c in
        lists-store_all xs (store engine (mark_rows engine) x.0 x.1 c)
        ∙ (elim (Bool-cases (bears engine k x)) [
          | inl borne ↦ elim (Option-cases (find_by (bears engine k) c.0)) [
            | inl absent ↦ ground arith
            | inr (e, first) ↦ ground (arith, count_of_row xs)
          ]
          | inr other ↦ ground arith
        ])
