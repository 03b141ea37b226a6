-- ===== src/Audit/Rows/Guarantees.antt =====
-- src/excel_auditor/engine.py: which rows of a worksheet take part in the pairing.
use excelflow.Prelude.{
  find_by-none, ◌∙◌, ◌≡◌, refl, sym, ap, ℕ, ◌==◌, ◌||◌, Bool, List, [], ◌∷◌, ◌++◌, map, Option,
  none, leb, any_by, count_by, find_by, Bool-cases, inl, inr, arith, if◌then◌else◌,
}
use mathlib.Core.Path.{subst}
use excelflow.Audit.{Engine, Report}
use excelflow.Audit.Keys.{Key, same_key, IsEquality, same_key_class}
use excelflow.Audit.Keys.Collecting.{
  bears, IsDict, pop_all, pop_all-IsDict, find-pop_all, store_all, store_all-append,
  store_all-IsDict, find-store_all, held-store_all,
}
use excelflow.Audit.Rows.{
  Row, Kept, Rows, Region, Reading, RowKey, has_formula, skipped, invalid, keyed, record_of,
  row_key, extend, mark_rows, is_left_out, take_key, read_row, read_rows, drop_duplicates,
  read_sheet, unread, region_rows,
}

module _ (engine : Engine) where
  module _ (region : Region engine) where
    abbrev with_key : Row engine → RowKey engine → List (Key engine × Kept engine)
    with_key row (keyed key) = (key, (row.0, record_of engine region.columns row.1)) ∷ []
    with_key row _ = []

    -- a row that the loop does not pass over and that has a key
    unfoldable pub keyed_row : Row engine → List (Key engine × Kept engine)
    keyed_row row =
        if is_left_out engine region row
        then []
        else with_key row (row_key engine region row.0 (record_of engine region.columns row.1))

    unfoldable pub keyed_rows : List (Row engine) → List (Key engine × Kept engine)
    keyed_rows [] = []
    keyed_rows (row ∷ rows) = keyed_row row ++ keyed_rows rows

    -- the rows of the region that have a key
    abbrev pub keyed_entries : List (Row engine) → List (Key engine × Kept engine)
    keyed_entries rows = keyed_rows (region_rows engine region rows)

    records-take_key :
        (row : ℕ) (values : List (Option engine.Value)) (key : RowKey engine) (r : Reading engine)
        → (take_key engine region row (record_of engine region.columns values) key r).records
          ≡ store_all engine (mark_rows engine) (with_key (row, values) key) r.records
    unfolding store_all
    records-take_key row values (has_formula rules) r = refl
    records-take_key row values skipped r = refl
    records-take_key row values invalid r = refl
    records-take_key row values (keyed key) r = refl

    records-read_row :
        (row : Row engine) (r : Reading engine)
        → (read_row engine region row r).records
          ≡ store_all engine (mark_rows engine) (keyed_row row) r.records
    unfolding read_row keyed_row store_all
    records-read_row (row, values) r = elim (Bool-cases (is_left_out engine region (row, values))) [
      | inl out ↦ rw out refl
      | inr read ↦ rw read (
          records-take_key row values
            (row_key engine region row (record_of engine region.columns values))
            (record r { target_rows = r.target_rows ++ row ∷ [] }))
    ]

    pub records-read_rows :
        (rows : List (Row engine)) (r : Reading engine)
        → (read_rows engine region rows r).records
          ≡ store_all engine (mark_rows engine) (keyed_rows rows) r.records
    unfolding read_rows keyed_rows store_all
    records-read_rows [] r = refl
    records-read_rows (row ∷ rows) r =
        records-read_rows rows (read_row engine region row r)
        ∙ ap (store_all engine (mark_rows engine) (keyed_rows rows)) (records-read_row row r)
        ∙ sym
            (store_all-append engine (mark_rows engine) (keyed_row row) (keyed_rows rows) r.records)

    records-drop_duplicates :
        (duplicates : Rows engine) (records : List (Key engine × Kept engine))
        (report : Report engine)
        → (drop_duplicates engine region duplicates records report).0
          ≡ pop_all engine (map (λ (d : Key engine × List ℕ). d.0) duplicates) records
    unfolding drop_duplicates pop_all
    records-drop_duplicates [] records report = refl
    records-drop_duplicates (d ∷ duplicates) records report = records-drop_duplicates duplicates _ _

  -- `key in excel_duplicates`
  abbrev pub is_duplicate : Key engine → Rows engine → Bool
  is_duplicate k duplicates = any_by (λ (d : Key engine × List ℕ). same_key engine d.0 k) duplicates

  module _ (laws : IsEquality engine) where
    pub any_by-extend :
        (k key : Key engine) (rows : List ℕ) (duplicates : Rows engine)
        → is_duplicate k (extend engine key rows duplicates)
          ≡ (is_duplicate k duplicates || same_key engine key k)
    unfolding extend
    any_by-extend k key rows [] = ground arith
    any_by-extend k key rows ((j, ns) ∷ rest) = elim (Bool-cases (same_key engine j key)) [
      | inl same ↦ ground (arith, same_key_class engine laws j key k same)
      | inr other ↦ ground (arith, any_by-extend k key rows rest)
    ]

    any_by-keys :
        (k : Key engine) (duplicates : Rows engine)
        → any_by (λ j. same_key engine j k) (map (λ (d : Key engine × List ℕ). d.0) duplicates)
          ≡ is_duplicate k duplicates
    any_by-keys k [] = refl
    any_by-keys k (d ∷ duplicates) = ground (arith, any_by-keys k duplicates)

    module _ (region : Region engine) (xs : List (Key engine × Kept engine)) where
      abbrev stored : List (Key engine × Kept engine) × Rows engine
      stored = store_all engine (mark_rows engine) xs ([], [])

      -- The keys of several rows are the duplicates.
      pub is_duplicate-stored :
          (k : Key engine) → is_duplicate k stored.1 ≡ leb 2 (count_by (bears engine k) xs)
      is_duplicate-stored k =
          held-store_all engine laws (mark_rows engine) is_duplicate
            (λ k key a b d. any_by-extend k key (a.0 ∷ b.0 ∷ []) d) k xs ([], [])
          ∙ ground arith

      find-dropped :
          (k : Key engine) (report : Report engine)
          → find_by (bears engine k) (drop_duplicates engine region stored.1 stored.0 report).0
            ≡ (if count_by (bears engine k) xs == 1 then find_by (bears engine k) xs else none)
      find-dropped k report =
          ap (find_by (bears engine k)) (records-drop_duplicates region stored.1 stored.0 report)
          ∙ find-pop_all engine laws (map (λ (d : Key engine × List ℕ). d.0) stored.1) stored.0 k
          ∙ ground (
            arith,
            any_by-keys k stored.1,
            is_duplicate-stored k,
            find_by-none (bears engine k) xs,
            find-store_all engine laws (mark_rows engine) is_duplicate
                (λ k key a b d. any_by-extend k key (a.0 ∷ b.0 ∷ []) d) k xs ([], []),
          )

      -- A dropped dictionary has one entry of a key.
      dropped-IsDict :
          (report : Report engine)
          → IsDict engine (drop_duplicates engine region stored.1 stored.0 report).0
      dropped-IsDict report =
          subst (IsDict engine) (sym (records-drop_duplicates region stored.1 stored.0 report)) (
            pop_all-IsDict engine laws (map (λ (d : Key engine × List ℕ). d.0) stored.1) stored.0 (
              store_all-IsDict engine laws (mark_rows engine) is_duplicate
                (λ k key a b d. any_by-extend k key (a.0 ∷ b.0 ∷ []) d) xs ([], []) (λ k. refl)))

    module _ (region : Region engine) (rows : List (Row engine)) (report : Report engine) where
      abbrev read : Reading engine
      read = read_rows engine region (region_rows engine region rows) (unread engine region report)

      reads :
          read.records ≡ store_all engine (mark_rows engine) (keyed_entries region rows) ([], [])
      reads =
          records-read_rows region (region_rows engine region rows) (unread engine region report)

      -- A key has an entry after both loops exactly if one row and no more bears it, and then it is the
      -- entry of this row.
      pub read_sheet-find :
          (k : Key engine)
          → find_by (bears engine k) (read_sheet engine region rows report).0 ≡ (
              if count_by (bears engine k) (keyed_entries region rows) == 1
              then find_by (bears engine k) (keyed_entries region rows)
              else none)
      unfolding read_sheet
      read_sheet-find k =
          ap
            (λ (c : List (Key engine × Kept engine) × Rows engine).
              find_by (bears engine k) (drop_duplicates engine region c.1 c.0 read.report).0)
            reads
          ∙ find-dropped region (keyed_entries region rows) k read.report

      pub read_sheet-IsDict : IsDict engine (read_sheet engine region rows report).0
      unfolding read_sheet
      read_sheet-IsDict =
          subst
            (λ (c : List (Key engine × Kept engine) × Rows engine).
              IsDict engine (drop_duplicates engine region c.1 c.0 read.report).0)
            (sym reads) (dropped-IsDict region (keyed_entries region rows) read.report)

      -- The duplicates are the keys of several rows.
      pub read_sheet-duplicates :
          (k : Key engine)
          → is_duplicate k (read_sheet engine region rows report).1
            ≡ leb 2 (count_by (bears engine k) (keyed_entries region rows))
      unfolding read_sheet
      read_sheet-duplicates k =
          ap (λ (c : List (Key engine × Kept engine) × Rows engine). is_duplicate k c.1) reads
          ∙ is_duplicate-stored region (keyed_entries region rows) k
