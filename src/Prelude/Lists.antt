-- ===== src/Prelude/Lists.antt =====
-- Lists measured by native numbers, and searches by a Boolean test.
use Prim.Native.Nat.{ℕ, suc, ◌+◌}
use mathlib.Core.Path.{◌≡◌, refl, ap, ◌∙◌}
use mathlib.Core.Bool.{Bool, true, false, ◌||◌, ◌&&◌}
use mathlib.Core.Option.{Option, none, some}
use mathlib.Core.List.{List, [], ◌∷◌, ◌++◌}
use native.Mathlib.Omega.{arith}
use excelflow.Prelude.Tests.{if◌then◌else◌}

module _ {ℓ} {A : Type ℓ} where
  abbrev pub length : List A → ℕ
  length [] = 0
  length (x ∷ xs) = suc (length xs)

  pub length-append : (xs ys : List A) → length (xs ++ ys) ≡ length xs + length ys
  length-append [] ys = omega arith
  length-append (x ∷ xs) ys = omega (arith, length-append xs ys)

  -- `[x for x in xs if p(x)]`
  abbrev pub filter_by : (A → Bool) → List A → List A
  filter_by p [] = []
  filter_by p (x ∷ xs) = if p x then x ∷ filter_by p xs else filter_by p xs

  -- `next((x for x in xs if p(x)), None)`
  abbrev pub find_by : (A → Bool) → List A → Option A
  find_by p [] = none
  find_by p (x ∷ xs) = if p x then some x else find_by p xs

  abbrev pub count_by : (A → Bool) → List A → ℕ
  count_by p [] = 0
  count_by p (x ∷ xs) = if p x then suc (count_by p xs) else count_by p xs

  abbrev pub any_by : (A → Bool) → List A → Bool
  any_by p [] = false
  any_by p (x ∷ xs) = p x || any_by p xs

  abbrev pub all_by : (A → Bool) → List A → Bool
  all_by p [] = true
  all_by p (x ∷ xs) = p x && all_by p xs

  pub length-filter_by : (p : A → Bool) (xs : List A) → length (filter_by p xs) ≡ count_by p xs
  length-filter_by p [] = refl
  length-filter_by p (x ∷ xs) = ground (arith, length-filter_by p xs)

  pub find_by-none : (p : A → Bool) (xs : List A) → count_by p xs ≡ 0 → find_by p xs ≡ none
  find_by-none p [] h = refl
  find_by-none p (x ∷ xs) h = ground (arith, find_by-none p xs)

-- A predicate of every element computes to a tuple.
abbrev pub All {ℓ κ} : {A : Type ℓ} → (A → Type κ) → List A → Type κ
All P [] = Unit
All P (x ∷ xs) = P x × All P xs

-- The searches meet `++`, and one test implies another.
module _ {ℓ} {A : Type ℓ} (p : A → Bool) where
  pub count_by-append : (xs ys : List A) → count_by p (xs ++ ys) ≡ count_by p xs + count_by p ys
  count_by-append [] ys = omega arith
  count_by-append (x ∷ xs) ys = ground (arith, count_by-append xs ys)

  pub any_by-append : (xs ys : List A) → any_by p (xs ++ ys) ≡ (any_by p xs || any_by p ys)
  any_by-append [] ys = refl
  any_by-append (x ∷ xs) ys = ground (arith, any_by-append xs ys)

  pub all_by-append : (xs ys : List A) → all_by p (xs ++ ys) ≡ (all_by p xs && all_by p ys)
  all_by-append [] ys = refl
  all_by-append (x ∷ xs) ys = ground (arith, all_by-append xs ys)

  pub all_by-filter_by :
      (q : A → Bool) (xs : List A) → all_by p xs ≡ true → all_by p (filter_by q xs) ≡ true
  all_by-filter_by q [] h = refl
  all_by-filter_by q (x ∷ xs) h = ground (arith, all_by-filter_by q xs)

  pub all_by_imp :
      (q : A → Bool)
      → ((x : A) → p x ≡ true → q x ≡ true)
      → (xs : List A) → all_by p xs ≡ true
      → all_by q xs ≡ true
  all_by_imp q imp [] h = refl
  all_by_imp q imp (x ∷ xs) h = ground (arith, imp x, all_by_imp q imp xs)

  -- What a filter keeps passes its test.
  pub filter_by_head :
      (xs : List A) {x : A} {rest : List A} → filter_by p xs ≡ x ∷ rest → p x ≡ true
  filter_by_head [] h = cc
  filter_by_head (y ∷ ys) {x} {rest} h = ground (arith, filter_by_head ys {x = x} {rest = rest})

  -- What a filter keeps none of fails its test.
  pub filter_by-nil :
      (q : A → Bool)
      → ((x : A) → p x ≡ false → q x ≡ true)
      → (xs : List A) → filter_by p xs ≡ []
      → all_by q xs ≡ true
  filter_by-nil q imp [] h = refl
  filter_by-nil q imp (x ∷ xs) h = ground (arith, imp x, filter_by-nil q imp xs)

  pub any_by_imp :
      (q : A → Bool)
      → ((x : A) → p x ≡ true → q x ≡ true)
      → (xs : List A) → any_by p xs ≡ true
      → any_by q xs ≡ true
  any_by_imp q imp [] h = cc
  any_by_imp q imp (x ∷ xs) h = ground (arith, imp x, any_by_imp q imp xs)

pub take {ℓ} : {A : Type ℓ} → ℕ → List A → List A
take ℕ.zero xs = []
take (suc n) [] = []
take (suc n) (x ∷ xs) = x ∷ take n xs

pub all_by-take {ℓ} :
    {A : Type ℓ} (p : A → Bool) (n : ℕ) (xs : List A)
    → all_by p xs ≡ true
    → all_by p (take n xs) ≡ true
unfolding take
all_by-take p ℕ.zero xs h = refl
all_by-take p (suc n) [] h = refl
all_by-take p (suc n) (x ∷ xs) h = ground (arith, all_by-take p n xs)

pub all_by-filter_self {ℓ} :
    {A : Type ℓ} (p : A → Bool) (xs : List A) → all_by p (filter_by p xs) ≡ true
all_by-filter_self p [] = refl
all_by-filter_self p (x ∷ xs) = ground (arith, all_by-filter_self p xs)

unfoldable pub drop {ℓ} : {A : Type ℓ} → ℕ → List A → List A
drop ℕ.zero xs = xs
drop (suc n) [] = []
drop (suc n) (x ∷ xs) = drop n xs

pub take_all {ℓ} : {A : Type ℓ} (xs : List A) → take (length xs) xs ≡ xs
unfolding take
take_all [] = refl
take_all (x ∷ xs) = ap (λ r. x ∷ r) (take_all xs)

drop_nil {ℓ} : {A : Type ℓ} (n : ℕ) → drop {A = A} n [] ≡ []
unfolding drop
drop_nil ℕ.zero = refl
drop_nil (suc n) = refl

pub drop_all {ℓ} : {A : Type ℓ} (n : ℕ) (xs : List A) → drop (length xs + n) xs ≡ []
unfolding drop
drop_all n [] = drop_nil (0 + n)
drop_all n (x ∷ xs) =
    ap (λ k. drop k (x ∷ xs)) {x = suc (length xs) + n} {y = suc (length xs + n)} (omega arith)
    ∙ drop_all n xs

pub drop-append {ℓ} :
    {A : Type ℓ} (xs ys : List A) (k : ℕ) → drop (length xs + k) (xs ++ ys) ≡ drop k ys
unfolding drop
drop-append [] ys k = ap (λ n. drop n ys) (omega arith)
drop-append (x ∷ xs) ys k =
    ap (λ n. drop n (x ∷ xs ++ ys)) {x = suc (length xs) + k} {y = suc (length xs + k)}
      (omega arith)
    ∙ drop-append xs ys k

pub drop_none {ℓ} : {A : Type ℓ} (xs : List A) → drop 0 xs ≡ xs
unfolding drop
drop_none xs = refl
