-- ===== src/Sorting.antt =====
-- Python's `sorted` and `list.sort`: a stable sort by a test that says which of two may come first.
use Prim.Native.Nat.{Ordering}
use Prim.Native.String.{compare}
use excelflow.Prelude.{
  ◌≡◌, refl, Bool, true, false, List, [], ◌∷◌, String, arith, count_by, all_by, if◌then◌else◌,
}

-- `a <= b` of two texts
abbrev pub text_leb : String → String → Bool
text_leb a b = elim (compare a b) [ Ordering.gt ↦ false | _ ↦ true ]

module _ {A : Type 0} (may_precede : A → A → Bool) where
  insert : A → List A → List A
  insert x [] = x ∷ []
  insert x (y ∷ ys) = if may_precede x y then x ∷ y ∷ ys else y ∷ insert x ys

  unfoldable pub sorted : List A → List A
  unfolding insert
  sorted [] = []
  sorted (x ∷ xs) = insert x (sorted xs)

  count_by-insert :
      (p : A → Bool) (x : A) (xs : List A) → count_by p (insert x xs) ≡ count_by p (x ∷ xs)
  unfolding insert
  count_by-insert p x [] = refl
  count_by-insert p x (y ∷ ys) = ground (arith, count_by-insert p x ys)

  -- A sort keeps every item, as often as it was there.
  pub count_by-sorted : (p : A → Bool) (xs : List A) → count_by p (sorted xs) ≡ count_by p xs
  unfolding sorted
  count_by-sorted p [] = refl
  count_by-sorted p (x ∷ xs) = ground (arith, count_by-insert p x (sorted xs), count_by-sorted p xs)

  all_by-insert : (p : A → Bool) (x : A) (xs : List A) → all_by p (insert x xs) ≡ all_by p (x ∷ xs)
  unfolding insert
  all_by-insert p x [] = refl
  all_by-insert p x (y ∷ ys) = ground (arith, all_by-insert p x ys)

  pub all_by-sorted : (p : A → Bool) (xs : List A) → all_by p (sorted xs) ≡ all_by p xs
  unfolding sorted
  all_by-sorted p [] = refl
  all_by-sorted p (x ∷ xs) = ground (arith, all_by-insert p x (sorted xs), all_by-sorted p xs)
