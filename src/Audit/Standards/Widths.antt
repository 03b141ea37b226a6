-- ===== src/Audit/Standards/Widths.antt =====
-- src/excel_auditor/engine.py: a part of a key, which is shorter, is the key of no record.
use excelflow.Prelude.{
  ◌≡◌, refl, ℕ, ◌+◌, ◌==◌, ◌||◌, ◌&&◌, not, Bool, true, false, List, [], ◌∷◌, Option, none, some,
  ltb, length, any_by, all_by, all_by-append, Bool-cases, Option-cases, inl, inr, arith,
  if◌then◌else◌,
}
use excelflow.Audit.{FieldType, Engine, ColumnRule, Parsing}
use excelflow.Audit.Keys.{
  Key, same_key, KeyRules, EmptyKeyAction, report_invalid, skip_row, use_row_number, with_field,
  key_value, parse_row_number, fields_key, key_of,
}
use excelflow.Audit.Keys.Collecting.{bears}
use excelflow.Audit.Matched.{value_of}
use excelflow.Audit.Standards.{
  Entry, accepted, without_key, row_number_of, standing, with_standing, rejected_key,
  keyed_standards, rejected_keys,
}

abbrev reports : EmptyKeyAction → Bool
reports report_invalid = true
reports _ = false

module _ (engine : Engine) where
  length-same_key : (a b : Key engine) → same_key engine a b ≡ true → length a ≡ length b
  unfolding same_key
  length-same_key [] [] h = refl
  length-same_key [] (y ∷ b) h = absurd (ground arith)
  length-same_key (x ∷ a) [] h = absurd (ground arith)
  length-same_key ((s, v) ∷ a) ((t, w) ∷ b) h = ground (arith, length-same_key a b)

  -- A valid key has the width, and a part of one is shorter.
  abbrev fits : ℕ → Key engine × Bool → Bool
  fits n k = if k.1 then length k.0 == n else ltb (length k.0) n

  fits-with_field :
      (n : ℕ) (type : FieldType) (o : Option engine.Value) (k : Key engine × Bool)
      → fits n k ≡ true
      → fits (ℕ.suc n) (with_field engine type o k) ≡ true
  fits-with_field n type none k h = ground arith
  fits-with_field n type (some v) (rest, true) h = ground arith
  fits-with_field n type (some v) (rest, false) h = ground arith

  module _ (parsing : Parsing engine) (rules : KeyRules engine) where
    width : ℕ
    width = if rules.by_row_number then 1 else length rules.primary_key

    module _ (entry : Entry engine) where
      fits-fields_key :
          (fields : List (ColumnRule engine))
          → fits (length fields) (fields_key engine parsing.parse_value entry fields) ≡ true
      unfolding fields_key
      fits-fields_key [] = refl
      fits-fields_key (rule ∷ fields) =
          fits-with_field (length fields) rule.type
            (key_value engine (parsing.parse_value (value_of engine rule.name entry) rule))
            (fields_key engine parsing.parse_value entry fields) (fits-fields_key fields)

      fits-key_of :
          (row : Option engine.Value)
          → fits width (key_of engine parsing.parse_value entry rules row) ≡ true
      unfolding key_of width
      fits-key_of row = elim (Bool-cases rules.by_row_number) [
        | inl by_row ↦ elim (Option-cases (parse_row_number engine row)) [
          | inl absent ↦ rw (by_row, absent) refl
          | inr (n, found) ↦ rw (by_row, found) refl
        ]
        | inr by_fields ↦ rw by_fields (fits-fields_key rules.primary_key)
      ]

      -- where the action reports, keys have the width and what is rejected is shorter; elsewhere
      -- nothing is rejected
      rejected_fits :
          (a : EmptyKeyAction) (ordinal : ℕ) (k : Key engine × Bool)
          → fits width k ≡ true
          → all_by
              (λ j. reports a && ltb (length j) width)
              (rejected_key engine
                (if k.1 then accepted k.0 else without_key engine parsing rules a ordinal k.0))
            ≡ true
      rejected_fits a ordinal (key, true) h = refl
      rejected_fits report_invalid ordinal (key, false) h = ground arith
      rejected_fits skip_row ordinal (key, false) h = refl
      rejected_fits use_row_number ordinal (key, false) h = refl

      accepted_fits :
          (a : EmptyKeyAction) (ordinal : ℕ) (k : Key engine × Bool)
          → fits width k ≡ true
          → all_by
              (λ (e : Key engine × Entry engine). not (reports a) || length e.0 == width)
              (with_standing engine entry
                (if k.1 then accepted k.0 else without_key engine parsing rules a ordinal k.0))
            ≡ true
      accepted_fits a ordinal (key, true) h = ground arith
      accepted_fits report_invalid ordinal (key, false) h = refl
      accepted_fits skip_row ordinal (key, false) h = refl
      accepted_fits use_row_number ordinal (key, false) h = refl

    abbrev is_wide : Key engine × Entry engine → Bool
    is_wide e = not (reports rules.empty_action) || length e.0 == width

    abbrev is_short : Key engine → Bool
    is_short j = reports rules.empty_action && ltb (length j) width

    all_wide :
        (ordinal : ℕ) (entries : List (Entry engine))
        → all_by is_wide (keyed_standards engine parsing rules ordinal entries) ≡ true
    unfolding keyed_standards standing
    all_wide ordinal [] = refl
    all_wide ordinal (entry ∷ entries) =
        let k =
          key_of engine parsing.parse_value entry rules
            (row_number_of engine parsing rules ordinal entry) in
        ground (
          arith,
          all_by-append is_wide
              (with_standing engine entry (standing engine parsing rules ordinal entry))
              (keyed_standards engine parsing rules (ordinal + 1) entries),
          accepted_fits entry rules.empty_action ordinal k
              (fits-key_of entry (row_number_of engine parsing rules ordinal entry)),
          all_wide (ordinal + 1) entries,
        )

    all_short :
        (ordinal : ℕ) (entries : List (Entry engine))
        → all_by is_short (rejected_keys engine parsing rules ordinal entries) ≡ true
    unfolding rejected_keys standing
    all_short ordinal [] = refl
    all_short ordinal (entry ∷ entries) =
        let k =
          key_of engine parsing.parse_value entry rules
            (row_number_of engine parsing rules ordinal entry) in
        ground (
          arith,
          all_by-append is_short (rejected_key engine (standing engine parsing rules ordinal entry))
              (rejected_keys engine parsing rules (ordinal + 1) entries),
          rejected_fits entry rules.empty_action ordinal k
              (fits-key_of entry (row_number_of engine parsing rules ordinal entry)),
          all_short (ordinal + 1) entries,
        )

    wide_key :
        (k : Key engine) (xs : List (Key engine × Entry engine))
        → all_by is_wide xs ≡ true
        → any_by (bears engine k) xs ≡ true
        → (not (reports rules.empty_action) || length k == width) ≡ true
    wide_key k [] wide h = absurd (ground arith)
    wide_key k (x ∷ xs) wide h = elim (Bool-cases (bears engine k x)) [
      | inl here ↦ ground (arith, length-same_key x.0 k here)
      | inr there ↦ ground (arith, wide_key k xs)
    ]

    short_apart :
        (k : Key engine) (js : List (Key engine))
        → all_by is_short js ≡ true
        → (not (reports rules.empty_action) || length k == width) ≡ true
        → any_by (λ j. same_key engine j k) js ≡ false
    short_apart k [] short wide = refl
    short_apart k (j ∷ js) short wide = elim (Bool-cases (same_key engine j k)) [
      | inl same ↦ ground (arith, length-same_key j k same)
      | inr other ↦ ground (arith, short_apart k js)
    ]

    -- No record has a key that was rejected.
    pub rejected_apart :
        (ordinal : ℕ) (entries : List (Entry engine)) (k : Key engine)
        → any_by (bears engine k) (keyed_standards engine parsing rules ordinal entries) ≡ true
        → any_by (λ j. same_key engine j k) (rejected_keys engine parsing rules ordinal entries)
          ≡ false
    rejected_apart ordinal entries k h =
        short_apart k (rejected_keys engine parsing rules ordinal entries)
          (all_short ordinal entries)
          (wide_key k (keyed_standards engine parsing rules ordinal entries)
            (all_wide ordinal entries) h)
