-- ===== src/Products.antt =====
-- src/excel_auditor/product_workflow/merchant_models.py and fixed_template.py: the records of a
-- product reconciliation, and the text and number routines that it relies on.
pub mod Template
pub mod Matching
pub mod Merging
pub mod Reconciling
use excelflow.Prelude.{
  refl, ℕ, ◌≤◌, ◌≡◌, Bool, true, false, List, [], ◌∷◌, Option, none, some, String, str_eq, find_by,
  any_by, count_by, holds, if◌then◌else◌,
}

-- What the package takes from unicodedata, re, decimal, datetime and rapidfuzz, for the cell values
-- of one run. Scores of `fuzz.WRatio` lie between 0 and 100: they are counted in units of which 100
-- has `full_score`.
pub record Cells : Type 1 where
  pub Value : Type 0
  pub Number : Type 0
  pub is_string : Value → Bool
  -- `normalize_text` of a value; of None it is the empty text
  pub value_text : Value → String
  pub casefold : String → String
  -- `normalize_product_name`'s substitution
  pub strip_name : String → String
  pub wratio : String → String → ℕ
  pub full_score : ℕ
  pub wratio-le : (a b : String) → wratio a b ≤ full_score
  pub decimal_value : Value → Option Number
  pub same_number : Number → Number → Bool
  -- the value where it is a bool, and the `isoformat` where it is a date
  pub bool_value : Value → Option Bool
  pub iso_date : Value → Option String

-- a `dict` with text keys, newest entry first
abbrev pub Dict : Type 0 → Type 0
Dict V = List (String × V)

unfoldable pub get : {V : Type 0} → String → Dict V → Option V
get key [] = none
get key ((k, v) ∷ rest) = if str_eq k key then some v else get key rest

-- `value in set`
abbrev pub member : String → List String → Bool
member x xs = any_by (λ y. str_eq y x) xs

-- a result, or the exception that is raised
pub data Result (A : Type 0) : Type 0 where
  ok : A → Result A
  value_error key_error : Result A

infixl 5 ◌>>=◌
abbrev pub ◌>>=◌ : {A B : Type 0} → Result A → (A → Result B) → Result B
ok a >>= f = f a
value_error >>= f = value_error
key_error >>= f = key_error

abbrev pub is_ok : {A : Type 0} → Result A → Bool
is_ok (ok a) = true
is_ok _ = false

pub ok_inj : {A : Type 0} {a b : A} → ok a ≡ ok b → a ≡ b
ok_inj h = cc

pub is_ok-result : {A : Type 0} (m : Result A) → is_ok m ≡ true → (a : A) × (m ≡ ok a)
is_ok-result (ok a) h = (a, refl)
is_ok-result value_error h = cc
is_ok-result key_error h = cc

pub else_ok :
    {A : Type 0} (b : Bool) (m : Result A) {a : A}
    → (if b then value_error else m) ≡ ok a
    → m ≡ ok a
else_ok true m h = cc
else_ok false m h = h

pub if_ok :
    {A : Type 0} (b : Bool) (m : Result A) {a : A}
    → (if b then m else value_error) ≡ ok a
    → m ≡ ok a
if_ok true m h = h
if_ok false m h = cc

-- A bind succeeds where both parts do.
pub is_ok->>= :
    {A B : Type 0} (m : Result A) (f : A → Result B)
    → is_ok m ≡ true
    → ((a : A) → is_ok (f a) ≡ true)
    → is_ok (m >>= f) ≡ true
is_ok->>= (ok a) f h g = g a
is_ok->>= value_error f h g = cc
is_ok->>= key_error f h g = cc

-- Where a chain returns something, its first step did, and then the rest of it.
pub >>=-returns :
    {A B : Type 0} {out : B} (step : Result A) (next : A → Result B)
    → (step >>= next) ≡ ok out
    → (mid : A) × (step ≡ ok mid) × (next mid ≡ ok out)
>>=-returns value_error next e = cc
>>=-returns key_error next e = cc
>>=-returns (ok mid) next e = (mid, refl, e)

-- `{key(x): x for x in xs}`: a later item replaces an earlier one of its key.
unfoldable pub index_by : {A : Type 0} → (A → String) → List A → Dict A → Dict A
index_by key [] d = d
index_by key (x ∷ xs) d = index_by key xs ((key x, x) ∷ d)

module _ (cells : Cells) where
  open cells use {Value}

  -- the values of a record by field; a value may be None
  abbrev pub Fields : Type 0
  Fields = Dict (Option Value)

  -- `fixed.get(field_id)`
  unfoldable pub field : String → Fields → Option Value
  field id fields = elim (get id fields) [ none ↦ none | some v ↦ v ]

  pub record MerchantRecord : Type 0 where
    pub record_id : String
    pub source_sheet : String
    pub source_row : ℕ
    pub fixed : Fields

  pub record PlatformRecord : Type 0 where
    pub record_id : String
    pub fixed : Fields
    pub extras : Fields

  pub record ProductMatch : Type 0 where
    pub merchant_record_id : String
    pub platform_record_id : String
    pub score : ℕ
    pub tie_break_score : ℕ
