-- ===== src/Products/Reconciling/Summary.antt =====
-- `reconcile_products` as a whole: it does not fail for a sound threshold, and its rows account for
-- every record of both sides.
use mathlib.Core.List.{map-append}
use mathlib.Core.Path.{subst, ap₂}
use excelflow.Prelude.{
  ℕ, ◌≤◌, ◌≡◌, refl, ◌∙◌, inl, inr, Bool, true, false, ◌&&◌, not, List, [], ◌∷◌, ◌++◌, map, none,
  some, String, arith, str_eq, eq_iff, eq_refl, any_by, all_by, count_by, holds, filter_by, ◌==◌,
  Bool-cases, all_by_imp, any_by_imp, any_by-append,
}
use excelflow.Products.{ok, Cells, get, MerchantRecord, PlatformRecord, ProductMatch}
use excelflow.Products.Matching.{Matching, level, name_score, tie_break_score, match_products}
use excelflow.Products.Matching.Scores.{is_justified, origin, cand_of}
use excelflow.Products.Matching.Guarantees.{matches-is_justified, decisions-le}
use excelflow.Products.Merging.{Issue, OutputRecord}
use excelflow.Products.Reconciling.{
  merchant_rows, platform_row, left_over, ReconciliationResult, reconcile_matched,
  reconcile_products, summary,
}
use excelflow.Products.Reconciling.Indexing.{holds-get-index_by}
use excelflow.Products.Reconciling.Kept.{
  Source, source_of, merchant_source, shows_platform, by_merchant, by_id, has_platform,
  has_merchant, AreRows, merchant_rows-AreRows, matched_merchant,
}

module _ (cells : Cells) (ms : List (MerchantRecord cells)) (ps : List (PlatformRecord cells)) where
  -- the rows of the left-over platform records
  left_sources :
      (qs : List (PlatformRecord cells))
      → map (source_of cells) (map (platform_row cells) qs)
        ≡ map {B = Source cells} (λ q. (none, none)) qs
  unfolding platform_row
  left_sources [] = refl
  left_sources (q ∷ qs) = λ i. (none, none) ∷ left_sources qs i

  -- a platform record that is left over has its own row
  left_shown :
      (taken : PlatformRecord cells → Bool) (q : PlatformRecord cells)
      (qs : List (PlatformRecord cells))
      → taken q ≡ false
      → any_by (λ p. str_eq p.record_id q.record_id) qs ≡ true
      → ((p : PlatformRecord cells) → str_eq p.record_id q.record_id ≡ true → taken p ≡ taken q)
      → any_by
          (shows_platform cells q.record_id)
          (map (platform_row cells) (filter_by (λ p. not (taken p)) qs))
        ≡ true
  unfolding platform_row
  left_shown taken q [] free there same = cc
  left_shown taken q (p ∷ qs) free there same = ground (arith, same p, left_shown taken q qs free)

  module _ (threshold : ℕ) (matching : Matching cells)
      (matched : match_products cells ms ps (level threshold) ≡ some matching) where
    known_platforms : all_by (has_platform cells ms ps matching) matching.matches ≡ true
    known_platforms =
        all_by_imp (is_justified cells threshold ps ms) (has_platform cells ms ps matching)
          (λ x h. justified_platform x ms h) matching.matches
          (matches-is_justified cells threshold ms ps matched)
      where
        justified_platform :
            (x : ProductMatch cells) (xs : List (MerchantRecord cells))
            → is_justified cells threshold ps xs x ≡ true
            → has_platform cells ms ps matching x ≡ true
        justified_platform x [] h = cc
        justified_platform x (m ∷ xs) h = ground (
          arith,
          justified_platform x xs,
          any_by_imp
              (λ (p : PlatformRecord cells).
                str_eq p.record_id x.platform_record_id
                && (x.score == name_score cells m p
                    && x.tie_break_score == tie_break_score cells m p))
              (λ p. str_eq p.record_id x.platform_record_id) (λ p e. ground arith) ps,
        )

    known_merchants : all_by (has_merchant cells ms ps matching) matching.matches ≡ true
    known_merchants =
        all_by_imp (is_justified cells threshold ps ms) (has_merchant cells ms ps matching)
          (λ x h.
            any_by_imp
              (λ m.
                str_eq m.record_id x.merchant_record_id
                && origin cells threshold ps m (cand_of cells threshold ps x))
              (λ m. str_eq m.record_id x.merchant_record_id) (λ m e. ground arith) ms h)
          matching.matches (matches-is_justified cells threshold ms ps matched)

    abbrev rows_of : List (OutputRecord cells) → List (OutputRecord cells)
    rows_of rows = rows ++ map (platform_row cells) (left_over cells matching ps)

    single_match :
        (id : String)
        → count_by (λ m. str_eq m.record_id id) ms ≤ 1
        → count_by (λ x. str_eq x.merchant_record_id id) matching.matches ≤ 1
    single_match id one = omega (arith, decisions-le cells threshold ms ps matched id)

    row_shown :
        (rows : List (OutputRecord cells)) (q : PlatformRecord cells)
        → ((id : String) → count_by (λ m. str_eq m.record_id id) ms ≤ 1)
        → AreRows cells ms ps matching q.record_id ms rows
        → any_by (λ p. str_eq p.record_id q.record_id) ps ≡ true
        → any_by (shows_platform cells q.record_id) (rows_of rows) ≡ true
    row_shown rows q unique made there =
        let taken = λ (p : PlatformRecord cells).
          any_by (λ x. str_eq x.platform_record_id p.record_id) matching.matches in
        any_by-append (shows_platform cells q.record_id) rows
          (map (platform_row cells) (left_over cells matching ps))
        ∙ elim (Bool-cases (taken q)) [
          | inl yes_taken ↦
              rw
                (made.shown (
                  any_by_imp
                    (λ m.
                      any_by
                        (λ x.
                          str_eq x.merchant_record_id m.record_id
                          && str_eq x.platform_record_id q.record_id)
                        matching.matches)
                    (λ m.
                      holds (λ x. str_eq x.platform_record_id q.record_id)
                        (get m.record_id (by_merchant cells ms ps matching)))
                    (λ m hit.
                      holds-get-index_by (λ (x : ProductMatch cells). x.merchant_record_id)
                        m.record_id (λ x. str_eq x.platform_record_id q.record_id) matching.matches
                        [] (single_match m.record_id (unique m.record_id)) hit)
                    ms
                    (matched_merchant cells ms ps matching q.record_id matching.matches
                      known_merchants yes_taken)))
                refl
          | inr free ↦
              rw
                (left_shown taken q ps free there
                  (λ p same. ground (arith, eq_iff p.record_id q.record_id)))
                (ground arith)
        ]

    every :
        (f : PlatformRecord cells → Bool) (qs : List (PlatformRecord cells))
        → ((q : PlatformRecord cells)
            → any_by (λ p. str_eq p.record_id q.record_id) qs ≡ true
            → f q ≡ true)
        → all_by f qs ≡ true
    every f [] h = refl
    every f (q ∷ qs) h =
        ground (arith, h q, eq_refl q.record_id, every f qs (λ x e. h x (ground arith)))

    reconciled :
        (extension_fields : List String) (rows : List (OutputRecord cells))
        (issues : List (Issue cells))
        → merchant_rows cells matching
            (by_merchant cells ms ps matching)
            (by_id cells ms ps matching)
            ms
          ≡ ok (rows, issues)
        → reconcile_products cells ms ps extension_fields (level threshold) true
          ≡ ok (summary cells ms ps extension_fields matching rows issues)
    unfolding reconcile_products reconcile_matched
    reconciled extension_fields rows issues made = rw (matched, made) refl

    -- With a threshold in range the reconciliation succeeds. Its rows are one for each merchant
    -- record, with its sheet and row, in the order of the records, and then one without a source for
    -- each platform record that no match has taken.
    pub reconcile_products-rows :
        (extension_fields : List String)
        → (r : ReconciliationResult cells) × (reconcile_products cells ms ps extension_fields
              (level threshold)
              true
            ≡ ok r)
          × (map (source_of cells) r.output_records
              ≡ map (merchant_source cells) ms
                ++ map {B = Source cells} (λ q. (none, none)) (left_over cells matching ps))
    reconcile_products-rows extension_fields =
        let (rows, issues, made, are_rows) =
          merchant_rows-AreRows cells ms ps matching "" ms known_platforms in
        (
          summary cells ms ps extension_fields matching rows issues,
          reconciled extension_fields rows issues made,
          map-append (source_of cells) rows (map (platform_row cells) (left_over cells matching ps))
              ∙ ap₂ ◌++◌ are_rows.sources (left_sources (left_over cells matching ps)),
        )

    -- Where the merchant records have different ids, every platform record is shown in some row.
    pub reconcile_products_shows :
        (extension_fields : List String) {r : ReconciliationResult cells}
        → ((id : String) → count_by (λ m. str_eq m.record_id id) ms ≤ 1)
        → reconcile_products cells ms ps extension_fields (level threshold) true ≡ ok r
        → all_by (λ p. any_by (shows_platform cells p.record_id) r.output_records) ps ≡ true
    reconcile_products_shows extension_fields {r} unique h = every _ ps λ q there.
        let (rows, issues, made, are_rows) =
          merchant_rows-AreRows cells ms ps matching q.record_id ms known_platforms in
        subst (λ x. any_by (shows_platform cells q.record_id) x ≡ true) (output_of rows issues made)
          (row_shown rows q unique are_rows there)
      where
        output_of :
            (rows : List (OutputRecord cells)) (issues : List (Issue cells))
            → merchant_rows cells matching
                (by_merchant cells ms ps matching)
                (by_id cells ms ps matching)
                ms
              ≡ ok (rows, issues)
            → rows_of rows ≡ r.output_records
        output_of rows issues made = cc (reconciled extension_fields rows issues made)
