-- ===== src/Products/Reconciling/Kept.antt =====
-- Nothing is lost: every record of either side has its row in the summary.
use excelflow.Prelude.{
  ℕ, ◌≡◌, refl, inl, inr, Bool, true, ◌&&◌, List, [], ◌∷◌, ◌++◌, map, Option, some, String, arith,
  str_eq, eq_iff, any_by, all_by, holds, Option-cases, Bool-cases, any_by_imp,
}
use excelflow.Products.{
  ok, index_by, Cells, Dict, get, member, MerchantRecord, PlatformRecord, ProductMatch,
}
use excelflow.Products.Matching.{Matching}
use excelflow.Products.Merging.{Issue, OutputRecord, RowStatus, merchant_only}
use excelflow.Products.Reconciling.{merchant_row, merchant_rows, paired, alone, unmatched_merchant}
use excelflow.Products.Reconciling.Indexing.{get-index_by, is_some-index_by}

module _ (cells : Cells) where
  abbrev pub Source : Type 0
  Source = Option String × Option ℕ

  -- where a row comes from in the merchant's workbook
  abbrev pub source_of : OutputRecord cells → Source
  source_of o = (o.source_sheet, o.source_row)

  abbrev pub merchant_source : MerchantRecord cells → Source
  merchant_source m = (some m.source_sheet, some m.source_row)

  abbrev pub shows_platform : String → OutputRecord cells → Bool
  shows_platform id o = holds (λ p. str_eq p id) o.platform_record_id

  module _ (ms : List (MerchantRecord cells)) (ps : List (PlatformRecord cells))
      (matching : Matching cells) where
    abbrev pub by_merchant : Dict (ProductMatch cells)
    by_merchant = index_by (λ x. x.merchant_record_id) matching.matches []

    abbrev pub by_id : Dict (PlatformRecord cells)
    by_id = index_by (λ p. p.record_id) ps []

    -- the platform record of a match is among those of the run
    abbrev pub has_platform : ProductMatch cells → Bool
    has_platform x = any_by (λ p. str_eq p.record_id x.platform_record_id) ps

    abbrev pub has_merchant : ProductMatch cells → Bool
    has_merchant x = any_by (λ m. str_eq m.record_id x.merchant_record_id) ms

    pub record IsRow (id : String) (m : MerchantRecord cells) (row : OutputRecord cells)
        : Type 0 where
      pub source : source_of row ≡ merchant_source m
      pub shown :
          holds (λ x. str_eq x.platform_record_id id) (get m.record_id by_merchant) ≡ true
          → shows_platform id row ≡ true

    found_platform :
        (x : ProductMatch cells) (m : MerchantRecord cells)
        → all_by has_platform matching.matches ≡ true
        → get m.record_id by_merchant ≡ some x
        → (p : PlatformRecord cells) × (get x.platform_record_id by_id ≡ some p)
          × (p.record_id ≡ x.platform_record_id)
    found_platform x m known found = elim (Option-cases (get x.platform_record_id by_id)) [
      | inl missing ↦ ground (
        arith,
        get-index_by (λ (y : ProductMatch cells). y.merchant_record_id) m.record_id has_platform
            matching.matches [] known (unfold get in refl),
        is_some-index_by (λ (p : PlatformRecord cells). p.record_id) x.platform_record_id ps [],
      )
      | inr (p, there) ↦ (
        p,
        there,
        ground (
          arith,
          eq_iff p.record_id x.platform_record_id,
          get-index_by (λ (q : PlatformRecord cells). q.record_id) x.platform_record_id (λ q. true)
              ps [] (all_true ps) (unfold get in refl),
        ),
      )
    ]
      where
        all_true : (qs : List (PlatformRecord cells)) → all_by (λ q. true) qs ≡ true
        all_true [] = refl
        all_true (q ∷ qs) = all_true qs

    merchant_row-IsRow :
        (id : String) (m : MerchantRecord cells)
        → all_by has_platform matching.matches ≡ true
        → (row : OutputRecord cells) × (issues : List (Issue cells)) × (merchant_row cells matching
              by_merchant by_id m
            ≡ ok (row, issues))
          × IsRow id m row
    unfolding merchant_row alone paired
    merchant_row-IsRow id m known = elim (Option-cases (get m.record_id by_merchant)) [
      | inl none_found ↦ elim (Bool-cases (member m.record_id matching.ambiguous)) [
        | inl e ↦ (
          alone cells RowStatus.ambiguous m,
          [],
          rw (none_found, merchant_row, e) refl,
          record { source = refl; shown = λ h. ground arith },
        )
        | inr e ↦ (
          alone cells merchant_only m,
          unmatched_merchant cells m ∷ [],
          rw (none_found, merchant_row, e) refl,
          record { source = refl; shown = λ h. ground arith },
        )
      ]
      | inr (x, found) ↦
          let (p, there, same) = found_platform x m known found in
          (
            (paired cells m p x.score).0,
            (paired cells m p x.score).1,
            rw (found, merchant_row, there) refl,
            record { source = refl; shown = λ h. ground arith },
          )
    ]

    -- what the loop makes of the merchants: a row each, in their order
    pub record AreRows (id : String) (xs : List (MerchantRecord cells))
        (rows : List (OutputRecord cells)) : Type 0 where
      pub sources : map source_of rows ≡ map merchant_source xs
      pub shown :
          any_by (λ m. holds (λ x. str_eq x.platform_record_id id) (get m.record_id by_merchant)) xs
            ≡ true
          → any_by (shows_platform id) rows ≡ true

    pub merchant_rows-AreRows :
        (id : String) (xs : List (MerchantRecord cells))
        → all_by has_platform matching.matches ≡ true
        → (rows : List (OutputRecord cells)) × (issues : List (Issue cells)) × (merchant_rows cells
              matching by_merchant by_id xs
            ≡ ok (rows, issues))
          × AreRows id xs rows
    unfolding merchant_rows
    merchant_rows-AreRows id [] known = ([], [], refl, record { sources = refl; shown = λ h. cc })
    merchant_rows-AreRows id (m ∷ xs) known =
        let (row, row_issues, made, is_row) = merchant_row-IsRow id m known in
        let (rows, issues, all_made, are_rows) = merchant_rows-AreRows id xs known in
        (
          row ∷ rows,
          row_issues ++ issues,
          rw (made, all_made) refl,
          record {
            sources = λ i. is_row.source i ∷ are_rows.sources i;
            shown = λ h. ground (arith, is_row.shown, are_rows.shown);
          },
        )

    -- A match of a platform product shows in the dictionary of its merchant.
    pub matched_merchant :
        (id : String) (xs : List (ProductMatch cells))
        → all_by has_merchant xs ≡ true
        → any_by (λ x. str_eq x.platform_record_id id) xs ≡ true
        → any_by
            (λ m.
              any_by
                (λ x. str_eq x.merchant_record_id m.record_id && str_eq x.platform_record_id id)
                xs)
            ms
          ≡ true
    matched_merchant id [] h e = cc
    matched_merchant id (x ∷ xs) h e = elim (Bool-cases (str_eq x.platform_record_id id)) [
      | inl hit ↦
          any_by_imp (λ m. str_eq m.record_id x.merchant_record_id)
            (λ m.
              any_by
                (λ y. str_eq y.merchant_record_id m.record_id && str_eq y.platform_record_id id)
                (x ∷ xs))
            (λ m same. ground (
              arith,
              eq_iff m.record_id x.merchant_record_id,
              eq_iff x.merchant_record_id m.record_id,
            ))
            ms (ground arith)
      | inr miss ↦
          any_by_imp
            (λ m.
              any_by
                (λ y. str_eq y.merchant_record_id m.record_id && str_eq y.platform_record_id id) xs)
            (λ m.
              any_by
                (λ y. str_eq y.merchant_record_id m.record_id && str_eq y.platform_record_id id)
                (x ∷ xs))
            (λ m found. ground arith) ms (matched_merchant id xs (ground arith) (ground arith))
    ]
