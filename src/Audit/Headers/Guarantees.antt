-- ===== src/Audit/Headers/Guarantees.antt =====
-- What `map_headers` promises of the columns that it finds.
use excelflow.Prelude.{
  ℕ, ◌+◌, ◌≤◌, ◌≡◌, refl, ap, ◌∙◌, Bool, false, ◌&&◌, ◌||◌, not, List, [], ◌∷◌, map, Option, String,
  str_eq, eq_iff, ltb, count_by, holds, is_some, arith, Option-cases, Bool-cases, inl, inr, eq_refl,
  ◌==◌, if◌then◌else◌,
}
use excelflow.Products.{Dict, get}
use excelflow.Catalog.{Names, normalize_header}
use excelflow.Audit.Headers.{
  HeaderMapping, Column, duplicate, is_matched_to, is_semantic_duplicate, without_duplicates,
  columns_of, exact_names, is_repeated, map_header, map_all, map_headers,
}

-- A mapping that stays matched is one whose field has no other.
matched-without_duplicate :
    (c : String) (ms : List HeaderMapping) (m : HeaderMapping)
    → is_matched_to c (if is_semantic_duplicate ms m then record m { status = duplicate } else m)
      ≡ (is_matched_to c m && not (ltb 1 (count_by (is_matched_to c) ms)))
matched-without_duplicate c ms m = elim (Option-cases m.canonical_field) [
  | inl no_field ↦ ground arith
  | inr (f, field) ↦ elim (Bool-cases (str_eq f c)) [
    | inl same ↦
        let counts : count_by (is_matched_to f) ms ≡ count_by (is_matched_to c) ms =
          ap (λ k. count_by (is_matched_to k) ms) ((eq_iff f c).0 same) in
        ground (arith, counts, eq_iff f c, eq_refl f)
    | inr other ↦ ground (arith, eq_refl f)
  ]
]

count-without_duplicates :
    (c : String) (ms xs : List HeaderMapping)
    → count_by
        (is_matched_to c)
        (map (λ m. if is_semantic_duplicate ms m then record m { status = duplicate } else m) xs)
      ≡ (if ltb 1 (count_by (is_matched_to c) ms) then 0 else count_by (is_matched_to c) xs)
count-without_duplicates c ms [] = ground arith
count-without_duplicates c ms (m ∷ xs) =
    ground (arith, matched-without_duplicate c ms m, count-without_duplicates c ms xs)

get-columns_of :
    (c : String) (ms : List HeaderMapping) (d : Dict ℕ)
    → is_some (get c (columns_of ms d))
      ≡ (ltb 0 (count_by (is_matched_to c) ms) || is_some (get c d))
unfolding columns_of get
get-columns_of c [] d = refl
get-columns_of c (m ∷ ms) d = elim (Option-cases m.canonical_field) [
  | inl no_field ↦ ground (arith, get-columns_of c ms d)
  | inr (f, field) ↦ ground (
    arith,
    eq_iff f c,
    eq_refl f,
    get-columns_of c ms d,
    get-columns_of c ms ((f, m.physical_column) ∷ d),
  )
]

module _ (names : Names) (columns : List Column) (extract_one : String → Option (ℕ × String))
    (values : List (Option names.Value)) where
  -- The header is not repeated, and it is a name, a title or an alias whose first bearer is the field.
  abbrev pub resolves : String → Option names.Value → Bool
  resolves c raw =
      not (is_repeated names columns extract_one values (normalize_header names raw))
      && holds (λ e. str_eq e.0 c) (get (normalize_header names raw) (exact_names names columns []))

  matched-map_header :
      (c : String) (index : ℕ) (raw : Option names.Value)
      → str_eq c "" ≡ false
      → is_matched_to c (map_header names columns extract_one values index raw) ≡ resolves c raw
  unfolding map_header
  matched-map_header c index raw blank =
      let n = normalize_header names raw in
      elim (Option-cases (get n (exact_names names columns []))) [
        | inl unknown ↦ elim (Option-cases (extract_one n)) [
          | inl nothing ↦ ground arith
          | inr (found, e) ↦ ground arith
        ]
        | inr (entry, known) ↦ ground (arith, eq_iff entry.0 c)
      ]

  count-map_all :
      (c : String) (index : ℕ) (raws : List (Option names.Value))
      → str_eq c "" ≡ false
      → count_by (is_matched_to c) (map_all names columns extract_one values index raws)
        ≡ count_by (resolves c) raws
  unfolding map_all
  count-map_all c index [] blank = refl
  count-map_all c index (raw ∷ raws) blank =
      ground (arith, matched-map_header c index raw blank, count-map_all c (index + 1) raws blank)

  -- A field has a column exactly if one header and no more is a name of it that is not repeated; and
  -- one mapping at most is matched to it. So a field with two columns gets neither.
  pub map_headers-once :
      (c : String)
      → str_eq c "" ≡ false
      → let (mappings, found) = map_headers names columns extract_one values in
        (is_some (get c found) ≡ (count_by (resolves c) values == 1))
        × (count_by (is_matched_to c) mappings ≤ 1)
  unfolding map_headers get
  map_headers-once c blank =
      let ms = map_all names columns extract_one values 1 values in
      let all = count-map_all c 1 values blank in
      let kept = count-without_duplicates c ms ms in
      (
        get-columns_of c (without_duplicates ms) [] ∙ ground (arith, all, kept),
        ground (arith, all, kept),
      )
