-- ===== src/Audit/Partitions/Indexes.antt =====
-- src/excel_auditor/partitioned_join.py: the keys at the positions that a join of the parts gives.
use excelflow.Prelude.{
  ◌∙◌, ◌≡◌, refl, ap, ℕ, zero, suc, ◌+◌, Bool, true, false, not, List, [], ◌∷◌, ◌++◌, map, some,
  String, length, length-filter_by, ltb, str_eq, holds, is_some, any_by, count_by, count_by-append,
  filter_by, Bool-cases, Option-cases, inl, inr, arith, if◌then◌else◌,
}
use mathlib.Core.List.{Memᴰ}
use mathlib.Core.List.Memᴰ.{head, tail}
use excelflow.Audit.Keys.Collecting.{bit}
use excelflow.Spill.{get_elem?}
use excelflow.Audit.Partitions.{Frames, at_indexes}
use excelflow.Audit.Partitions.Guarantees.{numbered}

-- The rows of one text, as pairs of their numbers.
unfoldable pub pairs : List (String × ℕ) → List (String × ℕ) → List (ℕ × ℕ)
pairs [] right = []
pairs (e ∷ left) right =
    map (λ (f : String × ℕ). (e.1, f.1)) (filter_by (λ (f : String × ℕ). str_eq f.0 e.0) right)
    ++ pairs left right

abbrev pub is_bearing : List (String × ℕ) → String × ℕ → Bool
is_bearing rows e = any_by (λ (f : String × ℕ). str_eq f.0 e.0) rows

-- The numbers of the left rows whose text no right row has.
abbrev pub alone : List (String × ℕ) → List (String × ℕ) → List ℕ
alone left right = map (λ (e : String × ℕ). e.1) (filter_by (λ e. not (is_bearing right e)) left)

-- what polars documents: the joins list these rows, in some order
pub record IsJoining {K : Type 0} (frames : Frames K) : Type 0 where
  pub anti-alone :
      (p : ℕ → Bool) (left right : List (String × ℕ))
      → count_by p (frames.anti_join left right) ≡ count_by p (alone left right)
  pub inner-pairs :
      (p : ℕ × ℕ → Bool) (left right : List (String × ℕ))
      → count_by p (frames.inner_join left right) ≡ count_by p (pairs left right)

module _ {A : Type 0} where
  get_elem?-lt : (xs : List A) (i : ℕ) → ltb i (length xs) ≡ true → is_some (get_elem? xs i) ≡ true
  unfolding get_elem?
  get_elem?-lt [] i h = absurd (ground arith)
  get_elem?-lt (x ∷ xs) zero h = refl
  get_elem?-lt (x ∷ xs) (suc i) h = get_elem?-lt xs i (ground arith)

  at_indexes-cons :
      (xs : List A) (i : ℕ) (is : List ℕ) (x : A) (ys : List A)
      → get_elem? xs i ≡ some x
      → at_indexes xs is ≡ some ys
      → at_indexes xs (i ∷ is) ≡ some (x ∷ ys)
  unfolding at_indexes
  at_indexes-cons xs i is x ys found given = ground arith

  -- Positions in range give their items.
  pub at_indexes_lem :
      (xs : List A) (is : List ℕ)
      → count_by (λ i. not (ltb i (length xs))) is ≡ 0
      → (ys : List A) × (at_indexes xs is ≡ some ys)
        × ((q : A → Bool) → count_by q ys ≡ count_by (λ i. holds q (get_elem? xs i)) is)
  unfolding at_indexes
  at_indexes_lem xs [] h = ([], refl, λ q. refl)
  at_indexes_lem xs (i ∷ is) h = elim (Bool-cases (ltb i (length xs))) [
    | inr out ↦ absurd (ground arith)
    | inl inside ↦ elim (Option-cases (get_elem? xs i)) [
      | inl absent ↦ absurd (ground (arith, get_elem?-lt xs i inside))
      | inr (x, found) ↦
          let (ys, given, counts) = at_indexes_lem xs is (ground arith) in
          (x ∷ ys, at_indexes-cons xs i is x ys found given, λ q. ground (arith, counts q))
    ]
  ]

any_by_count :
    {A : Type 0} (p : A → Bool) (xs : List A) (b : Bool) → count_by p xs ≡ bit b → any_by p xs ≡ b
any_by_count p [] b h = ground arith
any_by_count p (x ∷ xs) true h = elim (Bool-cases (p x)) [
  | inl here ↦ ground arith
  | inr there ↦ ground (arith, any_by_count p xs true)
]
any_by_count p (x ∷ xs) false h = elim (Bool-cases (p x)) [
  | inl here ↦ absurd (ground arith)
  | inr there ↦ ground (arith, any_by_count p xs false)
]

-- how many rows have the text of a key
abbrev pub bearing : {K : Type 0} → Frames K → List (String × ℕ) → K → ℕ
bearing frames right k = count_by (λ (f : String × ℕ). str_eq f.0 (frames.stable_key k)) right

module _ {K : Type 0} (frames : Frames K) (batch_size : ℕ) (right : List (String × ℕ))
    (has : K → Bool) (p : ℕ → Bool) (q : K → Bool) where
  abbrev rows_from : ℕ → List K → List (String × ℕ)
  rows_from n keys = numbered frames batch_size n keys

  -- the test of the position of a key is the test of the key
  abbrev Agrees : ℕ → List K → Type 0
  Agrees n keys = (i : ℕ) (k : K) → get_elem? keys i ≡ some k → p (n + i) ≡ q k

  Agrees-head : (n : ℕ) (k : K) (keys : List K) → Agrees n (k ∷ keys) → p n ≡ q k
  unfolding get_elem?
  Agrees-head n k keys agree = ap p (omega arith) ∙ agree 0 k refl

  Agrees-tail : (n : ℕ) (k : K) (keys : List K) → Agrees n (k ∷ keys) → Agrees (n + 1) keys
  unfolding get_elem?
  Agrees-tail n k keys agree i j found = ap p (omega arith) ∙ agree (suc i) j found

  count_by-firsts :
      (n : ℕ) (rows : List (String × ℕ))
      → count_by (λ (pair : ℕ × ℕ). p pair.0) (map (λ (f : String × ℕ). (n, f.1)) rows)
        ≡ (if p n then length rows else 0)
  count_by-firsts n [] = ground arith
  count_by-firsts n (f ∷ rows) = ground (arith, count_by-firsts n rows)

  pub count_by-alone :
      (n : ℕ) (keys : List K)
      → ((k : K) → Memᴰ k keys → bearing frames right k ≡ bit (has k))
      → Agrees n keys
      → count_by p (alone (rows_from n keys) right) ≡ count_by q (filter_by (λ k. not (has k)) keys)
  unfolding numbered
  count_by-alone n [] borne agree = refl
  count_by-alone n (k ∷ keys) borne agree =
      let later =
        count_by-alone (n + 1) keys (λ j m. borne j (tail m)) (Agrees-tail n k keys agree) in
      let tested = Agrees-head n k keys agree in
      let present =
        any_by_count (λ (f : String × ℕ). str_eq f.0 (frames.stable_key k)) right (has k)
          (borne k (head refl)) in
      elim (Bool-cases (has k)) [ inl found ↦ ground arith | inr absent ↦ ground arith ]

  pub count_by-pairs :
      (n : ℕ) (keys : List K)
      → ((k : K) → Memᴰ k keys → bearing frames right k ≡ bit (has k))
      → Agrees n keys
      → count_by (λ (pair : ℕ × ℕ). p pair.0) (pairs (rows_from n keys) right)
        ≡ count_by q (filter_by has keys)
  unfolding numbered pairs
  count_by-pairs n [] borne agree = refl
  count_by-pairs n (k ∷ keys) borne agree =
      let later =
        count_by-pairs (n + 1) keys (λ j m. borne j (tail m)) (Agrees-tail n k keys agree) in
      let tested = Agrees-head n k keys agree in
      let bearers = filter_by (λ (f : String × ℕ). str_eq f.0 (frames.stable_key k)) right in
      let firsts = count_by-firsts n bearers in
      let borne_by =
        length-filter_by (λ (f : String × ℕ). str_eq f.0 (frames.stable_key k)) right in
      let split =
        count_by-append (λ (pair : ℕ × ℕ). p pair.0) (map (λ (f : String × ℕ). (n, f.1)) bearers)
          (pairs (rows_from (n + 1) keys) right) in
      let once = borne k (head refl) in
      elim (Bool-cases (has k)) [ inl found ↦ ground arith | inr absent ↦ ground arith ]
