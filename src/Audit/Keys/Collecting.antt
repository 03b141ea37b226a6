-- ===== src/Audit/Keys/Collecting.antt =====
-- src/excel_auditor/engine.py: the dictionaries of `_compare_records` from keys to records, in the order of
-- insertion. A key that comes again is marked, and the marked keys are popped at the end.
use excelflow.Prelude.{
  refl, ◌∙◌, ◌≡◌, ap, ℕ, ◌+◌, leb, Bool, true, false, ◌&&◌, ◌||◌, not, List, [], ◌∷◌, ◌++◌, Option,
  none, some, is_some, find_by, filter_by, count_by, any_by, Bool-cases, Option-cases, inl, inr,
  arith, if◌then◌else◌,
}
use excelflow.Audit.{Engine}
use excelflow.Audit.Keys.{Key, same_key, IsEquality, same_key_class, same_key_sym}

-- the first of two optional values that is there
abbrev pub or_else : {A : Type 0} → Option A → Option A → Option A
or_else none o = o
or_else (some a) o = some a

abbrev pub bit : Bool → ℕ
bit true = 1
bit false = 0

module _ {A : Type 0} where
  find_by-append :
      (p : A → Bool) (xs ys : List A) → find_by p (xs ++ ys) ≡ or_else (find_by p xs) (find_by p ys)
  find_by-append p [] ys = refl
  find_by-append p (x ∷ xs) ys = ground (arith, find_by-append p xs ys)

  count_by-append :
      (p : A → Bool) (x : A) (xs : List A)
      → count_by p (xs ++ x ∷ []) ≡ (if p x then ℕ.suc (count_by p xs) else count_by p xs)
  count_by-append p x [] = refl
  count_by-append p x (y ∷ ys) = ground (arith, count_by-append p x ys)

  pub find_by_agree :
      (p q : A → Bool) → ((x : A) → p x ≡ q x) → (xs : List A) → find_by p xs ≡ find_by q xs
  find_by_agree p q h [] = refl
  find_by_agree p q h (x ∷ xs) = ground (arith, h x, find_by_agree p q h xs)

module _ (engine : Engine) where
  module _ {X : Type 0} where
    -- the entry is one of the key
    abbrev pub bears : Key engine → Key engine × X → Bool
    bears k e = same_key engine e.0 k

    -- `records.pop(key, None)`
    abbrev pub pop : Key engine → List (Key engine × X) → List (Key engine × X)
    pop key records = filter_by (λ e. not (bears key e)) records

    -- each key has at most one entry
    abbrev pub IsDict : List (Key engine × X) → Type 0
    IsDict records =
        (k : Key engine) → count_by (bears k) records ≡ bit (is_some (find_by (bears k) records))

    -- What is left once the keys of a list are popped.
    unfoldable pub pop_all : List (Key engine) → List (Key engine × X) → List (Key engine × X)
    pop_all [] records = records
    pop_all (key ∷ keys) records = pop_all keys (pop key records)

  module _ {X D : Type 0} (mark : Key engine → X → X → D → D) where
    -- `records[key] = x`, or the mark of a key that is there
    unfoldable pub store : Key engine → X → List (Key engine × X) × D → List (Key engine × X) × D
    store key x c = elim (find_by (bears key) c.0) [
      | none ↦ (c.0 ++ (key, x) ∷ [], c.1)
      | some e ↦ (c.0, mark key e.1 x c.1)
    ]

    pub store-new :
        (key : Key engine) (x : X) (c : List (Key engine × X) × D)
        → find_by (bears key) c.0 ≡ none
        → store key x c ≡ (c.0 ++ (key, x) ∷ [], c.1)
    unfolding store
    store-new key x c absent =
        ap
          (λ (o : Option (Key engine × X)).
            let r : List (Key engine × X) × D = elim o [
              | none ↦ (c.0 ++ (key, x) ∷ [], c.1)
              | some e ↦ (c.0, mark key e.1 x c.1)
            ] in
            r)
          absent

    pub store-old :
        (key : Key engine) (x : X) (c : List (Key engine × X) × D) (e : Key engine × X)
        → find_by (bears key) c.0 ≡ some e
        → store key x c ≡ (c.0, mark key e.1 x c.1)
    unfolding store
    store-old key x c e found =
        ap
          (λ (o : Option (Key engine × X)).
            let r : List (Key engine × X) × D = elim o [
              | none ↦ (c.0 ++ (key, x) ∷ [], c.1)
              | some e ↦ (c.0, mark key e.1 x c.1)
            ] in
            r)
          found

    -- the entries of a list, one after another
    unfoldable pub store_all :
        List (Key engine × X) → List (Key engine × X) × D → List (Key engine × X) × D
    store_all [] c = c
    store_all (e ∷ es) c = store_all es (store e.0 e.1 c)

    pub store_all-append :
        (xs ys : List (Key engine × X)) (c : List (Key engine × X) × D)
        → store_all (xs ++ ys) c ≡ store_all ys (store_all xs c)
    unfolding store_all
    store_all-append [] ys c = refl
    store_all-append (x ∷ xs) ys c = store_all-append xs ys (store x.0 x.1 c)

  module _ (laws : IsEquality engine) where
    -- Two equal keys are borne by the same entries.
    pub bears_same :
        {X : Type 0} (a b : Key engine) (e : Key engine × X)
        → same_key engine a b ≡ true
        → bears {X = X} a e ≡ bears {X = X} b e
    bears_same a b e h =
        same_key_sym engine laws e.0 a
        ∙ same_key_class engine laws a b e.0 h
        ∙ same_key_sym engine laws b e.0

    module _ {X : Type 0} where
      find-pop :
          (key k : Key engine) (records : List (Key engine × X))
          → find_by (bears k) (pop key records)
            ≡ (if same_key engine key k then none else find_by (bears k) records)
      find-pop key k [] = ground arith
      find-pop key k (e ∷ es) = elim (Bool-cases (same_key engine key k)) [
        | inl same ↦ ground (arith, find-pop key k es, bears_same key k e same)
        | inr other ↦ elim (Bool-cases (bears key e)) [
          | inl here ↦ ground (arith, find-pop key k es, same_key_class engine laws e.0 key k here)
          | inr there ↦ ground (arith, find-pop key k es)
        ]
      ]

      count-pop :
          (key k : Key engine) (records : List (Key engine × X))
          → count_by (bears k) (pop key records)
            ≡ (if same_key engine key k then 0 else count_by (bears k) records)
      count-pop key k [] = ground arith
      count-pop key k (e ∷ es) = elim (Bool-cases (same_key engine key k)) [
        | inl same ↦ ground (arith, count-pop key k es, bears_same key k e same)
        | inr other ↦ elim (Bool-cases (bears key e)) [
          | inl here ↦ ground (arith, count-pop key k es, same_key_class engine laws e.0 key k here)
          | inr there ↦ ground (arith, count-pop key k es)
        ]
      ]

      pub pop-IsDict :
          (key : Key engine) (records : List (Key engine × X))
          → IsDict records
          → IsDict (pop key records)
      pop-IsDict key records dict k =
          ground (arith, count-pop key k records, find-pop key k records, dict k)

      pub pop_all-IsDict :
          (keys : List (Key engine)) (records : List (Key engine × X))
          → IsDict records
          → IsDict (pop_all keys records)
      unfolding pop_all
      pop_all-IsDict [] records dict = dict
      pop_all-IsDict (key ∷ keys) records dict =
          pop_all-IsDict keys (pop key records) (pop-IsDict key records dict)

      pub find-pop_all :
          (keys : List (Key engine)) (records : List (Key engine × X)) (k : Key engine)
          → find_by (bears k) (pop_all keys records)
            ≡ (if any_by (λ j. same_key engine j k) keys then none else find_by (bears k) records)
      unfolding pop_all
      find-pop_all [] records k = refl
      find-pop_all (key ∷ keys) records k =
          find-pop_all keys (pop key records) k ∙ ground (arith, find-pop key k records)

    module _ {X D : Type 0} (mark : Key engine → X → X → D → D) (held : Key engine → D → Bool)
        (held-mark : (k key : Key engine) (a b : X) (d : D)
          → held k (mark key a b d) ≡ (held k d || same_key engine key k)) where
      pub find-store :
          (k key : Key engine) (x : X) (c : List (Key engine × X) × D)
          → find_by (bears k) (store mark key x c).0
            ≡ or_else
                (find_by (bears k) c.0)
                (if same_key engine key k then some (key, x) else none)
      unfolding store
      find-store k key x c = elim (Option-cases (find_by (bears key) c.0)) [
        | inl absent ↦
            ap (λ (c' : List (Key engine × X) × D). find_by (bears k) c'.0)
              (store-new mark key x c absent)
            ∙ find_by-append (bears k) c.0 ((key, x) ∷ [])
        | inr (e, found) ↦ elim (Bool-cases (same_key engine key k)) [
          | inl same ↦
              let agree =
                find_by_agree (bears key) (bears k) (λ e'. bears_same key k e' same) c.0 in
              ground arith
          | inr other ↦ ground arith
        ]
      ]

      pub store-IsDict :
          (key : Key engine) (x : X) (c : List (Key engine × X) × D)
          → IsDict c.0
          → IsDict (store mark key x c).0
      unfolding store
      store-IsDict key x c dict k = elim (Option-cases (find_by (bears key) c.0)) [
        | inl absent ↦ elim (Bool-cases (same_key engine key k)) [
          | inl same ↦
              let agree =
                find_by_agree (bears key) (bears k) (λ e'. bears_same key k e' same) c.0 in
              rw (store-new mark key x c absent) (
                ground (
                  arith,
                  dict k,
                  count_by-append (bears k) (key, x) c.0,
                  find_by-append (bears k) c.0 ((key, x) ∷ []),
                ))
          | inr other ↦ rw (store-new mark key x c absent) (
              ground (
                arith,
                dict k,
                count_by-append (bears k) (key, x) c.0,
                find_by-append (bears k) c.0 ((key, x) ∷ []),
              ))
        ]
        | inr (e, found) ↦ rw (store-old mark key x c e found) (dict k)
      ]

      -- A key is marked if it was, or if it comes and is there.
      pub held-store :
          (k key : Key engine) (x : X) (c : List (Key engine × X) × D)
          → held k (store mark key x c).1
            ≡ (held k c.1 || (same_key engine key k && is_some (find_by (bears k) c.0)))
      unfolding store
      held-store k key x c = elim (Option-cases (find_by (bears key) c.0)) [
        | inl absent ↦ elim (Bool-cases (same_key engine key k)) [
          | inl same ↦
              let agree =
                find_by_agree (bears key) (bears k) (λ e'. bears_same key k e' same) c.0 in
              ground arith
          | inr other ↦ ground arith
        ]
        | inr (e, found) ↦ elim (Bool-cases (same_key engine key k)) [
          | inl same ↦
              let agree =
                find_by_agree (bears key) (bears k) (λ e'. bears_same key k e' same) c.0 in
              ground (arith, held-mark k key e.1 x c.1)
          | inr other ↦ ground (arith, held-mark k key e.1 x c.1)
        ]
      ]

      pub store_all-IsDict :
          (xs : List (Key engine × X)) (c : List (Key engine × X) × D)
          → IsDict c.0
          → IsDict (store_all mark xs c).0
      unfolding store_all
      store_all-IsDict [] c dict = dict
      store_all-IsDict (x ∷ xs) c dict =
          store_all-IsDict xs (store mark x.0 x.1 c) (store-IsDict x.0 x.1 c dict)

      -- A dictionary has the first entry of each key.
      pub find-store_all :
          (k : Key engine) (xs : List (Key engine × X)) (c : List (Key engine × X) × D)
          → find_by (bears k) (store_all mark xs c).0
            ≡ or_else (find_by (bears k) c.0) (find_by (bears k) xs)
      unfolding store_all
      find-store_all k [] c = ground arith
      find-store_all k (x ∷ xs) c =
          find-store_all k xs (store mark x.0 x.1 c) ∙ ground (arith, find-store k x.0 x.1 c)

      -- The marked keys are those that come several times.
      pub held-store_all :
          (k : Key engine) (xs : List (Key engine × X)) (c : List (Key engine × X) × D)
          → held k (store_all mark xs c).1
            ≡ (held k c.1 || leb 2 (bit (is_some (find_by (bears k) c.0)) + count_by (bears k) xs))
      unfolding store_all
      held-store_all k [] c = ground arith
      held-store_all k (x ∷ xs) c =
          held-store_all k xs (store mark x.0 x.1 c)
          ∙ ground (arith, find-store k x.0 x.1 c, held-store k x.0 x.1 c)
