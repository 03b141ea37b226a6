-- ===== src/Sql/Rows.antt =====
-- What an UPDATE does to a list of rows, and to the row of a key.
use excelflow.Prelude.{
  ◌+◌, ◌≤◌, ◌≡◌, refl, Bool, true, false, ◌&&◌, List, [], ◌∷◌, Option, none, some, String, arith,
  str_eq, eq_iff, eq_refl, inl, inr, Bool-cases, All, count_by, filter_by, find_by, holds,
  if◌then◌else◌,
}

abbrev pub update_rows : {Row : Type 0} → (Row → Bool) → (Row → Row) → List Row → List Row
update_rows p f [] = []
update_rows p f (r ∷ rs) = (if p r then f r else r) ∷ update_rows p f rs

-- The row after an UPDATE of it under a test.
abbrev pub revise : {Row : Type 0} → (Row → Bool) → (Row → Row) → Option Row → Option Row
revise test f none = none
revise test f (some r) = some (if test r then f r else r)

-- The row of a key among the selected rows.
abbrev pub keep_if : {Row : Type 0} → (Row → Bool) → Option Row → Option Row
keep_if test none = none
keep_if test (some r) = if test r then some r else none

module _ {Row : Type 0} (id_of : Row → String) where
  -- `WHERE id = key AND test`
  abbrev pub by_key : String → (Row → Bool) → Row → Bool
  by_key key test r = str_eq (id_of r) key && test r

  abbrev pub find_key : String → List Row → Option Row
  find_key key rs = find_by (λ r. str_eq (id_of r) key) rs

  abbrev pub Absent : String → List Row → Type 0
  Absent key rs = All (λ r. str_eq (id_of r) key ≡ false) rs

  abbrev pub UniqueKeys : List Row → Type 0
  UniqueKeys [] = Unit
  UniqueKeys (r ∷ rs) = Absent (id_of r) rs × UniqueKeys rs

  abbrev pub KeepsKey : (Row → Row) → Type 0
  KeepsKey f = (r : Row) → id_of (f r) ≡ id_of r

  pub find_key-id :
      (key : String) (rs : List Row) (r : Row)
      → find_key key rs ≡ some r
      → str_eq (id_of r) key ≡ true
  find_key-id key [] r h = cc
  find_key-id key (x ∷ rs) r h = ground (arith, find_key-id key rs r)

  pub find-select_key :
      (key : String) (rs : List Row)
      → find_by (λ r. true) (filter_by (by_key key (λ r. true)) rs) ≡ find_key key rs
  find-select_key key [] = refl
  find-select_key key (r ∷ rs) = ground (arith, find-select_key key rs)

  module _ (key : String) (test : Row → Bool) (f : Row → Row) (keeps : KeepsKey f) where
    -- An UPDATE by key revises the row of that key and leaves the others.
    pub find-update :
        (j : String) (rs : List Row)
        → find_key j (update_rows (by_key key test) f rs)
          ≡ (if str_eq j key then revise test f (find_key j rs) else find_key j rs)
    find-update j [] = ground arith
    find-update j (r ∷ rs) = ground (
      arith,
      keeps r,
      eq_iff (id_of r) key,
      eq_iff (id_of r) j,
      eq_iff (id_of (f r)) j,
      eq_iff j key,
      find-update j rs,
    )

    Absent-update :
        (j : String) (rs : List Row) → Absent j rs → Absent j (update_rows (by_key key test) f rs)
    Absent-update j [] h = tt
    Absent-update j (r ∷ rs) h = ground (arith, keeps r, Absent-update j rs h.1)

    pub UniqueKeys-update :
        (rs : List Row) → UniqueKeys rs → UniqueKeys (update_rows (by_key key test) f rs)
    UniqueKeys-update [] h = tt
    UniqueKeys-update (r ∷ rs) h =
        ground (arith, keeps r, Absent-update (id_of r) rs h.0, UniqueKeys-update rs h.1)

  module _ (key : String) (test : Row → Bool) where
    count-Absent : (rs : List Row) → Absent key rs → count_by (by_key key test) rs ≡ 0
    count-Absent [] h = refl
    count-Absent (r ∷ rs) h = ground (arith, count-Absent rs h.1)

    -- With a primary key the row count of an UPDATE by key is 1 or 0.
    pub count-by_key :
        (rs : List Row)
        → UniqueKeys rs
        → count_by (by_key key test) rs ≡ (if holds test (find_key key rs) then 1 else 0)
    count-by_key [] h = refl
    count-by_key (r ∷ rs) h = elim (Bool-cases (str_eq (id_of r) key)) [
      | inl e ↦ ground (arith, eq_iff (id_of r) key, count-Absent rs)
      | inr e ↦ ground (arith, count-by_key rs h.1)
    ]

  pub find-Absent : (key : String) (rs : List Row) → Absent key rs → find_key key rs ≡ none
  find-Absent key [] h = refl
  find-Absent key (r ∷ rs) h = ground (arith, find-Absent key rs h.1)

  Absent-filter :
      (key : String) (test : Row → Bool) (rs : List Row)
      → Absent key rs
      → Absent key (filter_by test rs)
  Absent-filter key test [] h = tt
  Absent-filter key test (r ∷ rs) h = ground (arith, Absent-filter key test rs h.1)

  pub find-filter :
      (key : String) (test : Row → Bool) (rs : List Row)
      → UniqueKeys rs
      → find_key key (filter_by test rs) ≡ keep_if test (find_key key rs)
  find-filter key test [] u = refl
  find-filter key test (r ∷ rs) u = elim (Bool-cases (str_eq (id_of r) key)) [
    | inl e ↦ ground (
      arith,
      eq_iff (id_of r) key,
      find-Absent key (filter_by test rs),
      Absent-filter key test rs,
    )
    | inr e ↦ ground (arith, find-filter key test rs u.1)
  ]

  -- `r` is the row of its key in `rs`, and passes the test.
  abbrev pub IsLocated : (Row → Bool) → List Row → Row → Type 0
  IsLocated test rs r = (find_key (id_of r) rs ≡ some r) × (test r ≡ true)

  IsLocated-cons :
      (test : Row → Bool) (r : Row) (rs picked : List Row)
      → Absent (id_of r) picked
      → All (IsLocated test rs) picked
      → All (IsLocated test (r ∷ rs)) picked
  IsLocated-cons test r rs [] a h = tt
  IsLocated-cons test r rs (s ∷ picked) a h = ground (
    arith,
    eq_iff (id_of r) (id_of s),
    eq_iff (id_of s) (id_of r),
    IsLocated-cons test r rs picked a.1 h.1,
  )

  -- A query by a test finds rows at their keys, which pass the test.
  pub filter-IsLocated :
      (test : Row → Bool) (rs : List Row)
      → UniqueKeys rs
      → All (IsLocated test rs) (filter_by test rs)
  filter-IsLocated test [] u = tt
  filter-IsLocated test (r ∷ rs) u = elim (Bool-cases (test r)) [
    | inl e ↦ ground (
      arith,
      eq_refl (id_of r),
      Absent-filter (id_of r) test rs u.0,
      IsLocated-cons test r rs (filter_by test rs),
      filter-IsLocated test rs u.1,
    )
    | inr e ↦ ground (
      arith,
      Absent-filter (id_of r) test rs u.0,
      IsLocated-cons test r rs (filter_by test rs),
      filter-IsLocated test rs u.1,
    )
  ]

  pub UniqueKeys-filter :
      (test : Row → Bool) (rs : List Row) → UniqueKeys rs → UniqueKeys (filter_by test rs)
  UniqueKeys-filter test [] u = tt
  UniqueKeys-filter test (r ∷ rs) u =
      ground (arith, UniqueKeys-filter test rs u.1, Absent-filter (id_of r) test rs u.0)

  select-Absent :
      (key : String) (test : Row → Bool) (rs : List Row)
      → Absent key rs
      → find_by (λ r. true) (filter_by (by_key key test) rs) ≡ none
  select-Absent key test [] h = refl
  select-Absent key test (r ∷ rs) h = ground (arith, select-Absent key test rs h.1)

  pub find-select :
      (key : String) (test : Row → Bool) (rs : List Row)
      → UniqueKeys rs
      → find_by (λ r. true) (filter_by (by_key key test) rs) ≡ keep_if test (find_key key rs)
  find-select key test [] u = refl
  find-select key test (r ∷ rs) u = elim (Bool-cases (str_eq (id_of r) key)) [
    | inl e ↦ ground (arith, eq_iff (id_of r) key, select-Absent key test rs)
    | inr e ↦ ground (arith, find-select key test rs u.1)
  ]

  update-Absent :
      (key : String) (test : Row → Bool) (f : Row → Row) (rs : List Row)
      → Absent key rs
      → update_rows (by_key key test) f rs ≡ rs
  update-Absent key test f [] h = refl
  update-Absent key test f (r ∷ rs) h = ground (arith, update-Absent key test f rs h.1)

  -- An UPDATE by key adds at most one row to the answer of any query.
  pub count-update-le :
      (key : String) (test : Row → Bool) (f : Row → Row) (p q : Row → Bool) (rs : List Row)
      → UniqueKeys rs
      → count_by q (filter_by p (update_rows (by_key key test) f rs))
        ≤ count_by q (filter_by p rs) + 1
  count-update-le key test f p q [] u = omega arith
  count-update-le key test f p q (r ∷ rs) u = elim (Bool-cases (str_eq (id_of r) key)) [
    | inl e ↦ ground (arith, eq_iff (id_of r) key, update-Absent key test f rs)
    | inr e ↦ ground (arith, count-update-le key test f p q rs u.1)
  ]
