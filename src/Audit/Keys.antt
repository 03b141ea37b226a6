-- ===== src/Audit/Keys.antt =====
-- src/excel_auditor/engine.py and normalization.py: the key of a record, by which the rows of a workbook
-- and the records of the standard are paired.
pub mod Collecting
use excelflow.Prelude.{
  refl, sym, ◌∙◌, ◌≡◌, ℕ, Bool, true, false, ◌&&◌, not, List, [], ◌∷◌, Option, none, some, String,
  str_eq, leb, arith, eq_iff, eq_refl, ap, if◌then◌else◌,
}
use excelflow.Products.{Dict}
use excelflow.Audit.{
  FieldType, string, integer, decimal, date, datetime, boolean, enum, phone, id_code, postal_code,
  set, json, fuzzy_string, Engine, ColumnRule, ParsedValue,
}
use excelflow.Audit.Values.{safe_value}
use excelflow.Audit.Matched.{value_of, is_missing}

-- `FieldType.value`
unfoldable pub type_value : FieldType → String
type_value string = "string"
type_value integer = "integer"
type_value decimal = "decimal"
type_value date = "date"
type_value datetime = "datetime"
type_value boolean = "boolean"
type_value enum = "enum"
type_value phone = "phone"
type_value id_code = "id_code"
type_value postal_code = "postal_code"
type_value set = "set"
type_value json = "json"
type_value fuzzy_string = "fuzzy_string"

pub data EmptyKeyAction : Type 0 where
  report_invalid skip_row use_row_number : EmptyKeyAction

module _ (engine : Engine) where
  open engine use {Value, same_value, of_number, integer_of}

  -- a tuple of pairs; a pair says where its value comes from
  abbrev pub Key : Type 0
  Key = List (String × Value)

  -- `==` of two keys
  unfoldable pub same_key : Key → Key → Bool
  same_key [] [] = true
  same_key ((s, v) ∷ a) ((t, w) ∷ b) = str_eq s t && (same_value v w && same_key a b)
  same_key _ _ = false

  -- The members of `SheetRule` that make a key; `primary_key` has the rules of the fields it names,
  -- which `validate_sheet` requires to exist.
  pub record KeyRules : Type 0 where
    pub by_row_number : Bool
    pub row_number_field : String
    pub primary_key : List (ColumnRule engine)
    pub empty_action : EmptyKeyAction

  unfoldable pub parse_row_number : Option Value → Option ℕ
  parse_row_number none = none
  parse_row_number (some v) = elim (integer_of v) [
    | none ↦ none
    | some n ↦ if leb 1 n && leb n 1048576 then some n else none
  ]

  -- the value that a field adds to the key
  abbrev pub key_value : ParsedValue engine → Option Value
  key_value parsed =
      if parsed.valid && not (is_missing engine parsed.normalized) then parsed.normalized else none

  -- one round of the loop over the fields of a key, before what the later rounds give
  abbrev pub with_field : FieldType → Option Value → Key × Bool → Key × Bool
  with_field type none later = ([], false)
  with_field type (some v) (rest, valid) = ((type_value type, v) ∷ rest, valid)

  module _ (parse : Option Value → ColumnRule engine → ParsedValue engine)
      (entry : Dict (Option Value)) where
    -- the loop over the fields of the key, which stops at the first without a value
    unfoldable pub fields_key : List (ColumnRule engine) → Key × Bool
    fields_key [] = ([], true)
    fields_key (rule ∷ rules) =
        with_field rule.type (key_value (parse (value_of engine rule.name entry) rule))
          (fields_key rules)

    -- `_key`
    unfoldable pub key_of : KeyRules → Option Value → Key × Bool
    key_of rules row_number =
        if rules.by_row_number
        then elim (parse_row_number row_number) [
          | none ↦ ([], false)
          | some n ↦ (("row_number", of_number n) ∷ [], true)
        ]
        else fields_key rules.primary_key

  -- `(("row_number_fallback", ordinal),)`
  abbrev pub fallback_key : ℕ → Key
  fallback_key ordinal = ("row_number_fallback", of_number ordinal) ∷ []

  abbrev zip_key : List (ColumnRule engine) → Key → Dict (Option Value)
  zip_key (rule ∷ rules) ((tag, v) ∷ key) =
      (rule.name, safe_value engine (some v) rule) ∷ zip_key rules key
  zip_key _ _ = []

  -- `_business_key`; a key in the mode of row numbers has one pair.
  unfoldable pub business_key : KeyRules → Key → Dict (Option Value)
  business_key rules [] = []
  business_key rules ((tag, v) ∷ key) =
      if rules.by_row_number
      then (rules.row_number_field, some v) ∷ []
      else zip_key rules.primary_key ((tag, v) ∷ key)

  -- what Python's `==` is for the values of a key: reflexive, and equal values equal the same values
  pub record IsEquality : Type 0 where
    pub same_refl : (v : Value) → same_value v v ≡ true
    pub same_class : (v w u : Value) → same_value v w ≡ true → same_value v u ≡ same_value w u

  module _ (laws : IsEquality) where
    open laws use {same_refl, same_class}

    pub same_key_refl : (k : Key) → same_key k k ≡ true
    unfolding same_key
    same_key_refl [] = refl
    same_key_refl ((s, v) ∷ k) = ground (arith, eq_refl s, same_refl v, same_key_refl k)

    str_class : (s t u : String) → str_eq s t ≡ true → str_eq s u ≡ str_eq t u
    str_class s t u h = ap (λ x. str_eq x u) ((eq_iff s t).0 h)

    -- Equal keys equal the same keys.
    pub same_key_class : (a b c : Key) → same_key a b ≡ true → same_key a c ≡ same_key b c
    unfolding same_key
    same_key_class [] [] c h = refl
    same_key_class [] (y ∷ b) c h = absurd (ground arith)
    same_key_class (x ∷ a) [] c h = absurd (ground arith)
    same_key_class ((s, v) ∷ a) ((t, w) ∷ b) [] h = refl
    same_key_class ((s, v) ∷ a) ((t, w) ∷ b) ((r, u) ∷ c) h =
        ground (arith, str_class s t r, same_class v w u, same_key_class a b c)

    pub same_key_sym : (a b : Key) → same_key a b ≡ same_key b a
    same_key_sym a b =
        ground (arith, same_key_class a b a, same_key_class b a b, same_key_refl a, same_key_refl b)
