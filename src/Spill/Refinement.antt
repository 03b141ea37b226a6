-- ===== src/Spill/Refinement.antt =====
-- A sequence that is filled and then read is the list of its items.
use excelflow.Prelude.{
  ℕ, ◌+◌, ◌≡◌, refl, ap, sym, ◌∙◌, ◌⊎◌, List, [], ◌∷◌, ◌++◌, Option, none, some, arith, length,
  take_all, drop_all, drop-append, drop_none, length-append, drop,
}
use mathlib.Core.Option
use mathlib.Core.Path.{ap₂, subst}
use mathlib.Core.List.{append-nil, append_assoc}
use excelflow.Spill.{
  Pickle, get_elem?, SpilledObjects, write, spill, spill_all, fetch, SpillableSequence, append,
  extend, get_item, len, sequence,
}

module _ {T : Type 0} (pickle : Pickle T) where
  open pickle use {Byte, dump, load}

  -- what pickle documents: an item that was dumped is loaded, whatever follows it
  abbrev pub IsRoundTrip : Type 0
  IsRoundTrip = (x : T) (rest : List Byte) → load (dump x ++ rest) ≡ some (x, rest)

  -- the bytes and the offsets of items, from a place on
  abbrev bytes_of : List T → List Byte
  bytes_of [] = []
  bytes_of (x ∷ xs) = dump x ++ bytes_of xs

  abbrev offsets_of : ℕ → List T → List ℕ
  offsets_of start [] = []
  offsets_of start (x ∷ xs) = start ∷ offsets_of (start + length (dump x)) xs

  -- a file that holds exactly these items, at its end
  abbrev pub filled : List T → SpilledObjects pickle
  filled xs = record {
    contents = bytes_of xs;
    position = length (bytes_of xs);
    offsets = offsets_of 0 xs;
  }

  bytes_of-append : (xs : List T) (x : T) → bytes_of (xs ++ x ∷ []) ≡ bytes_of xs ++ dump x
  bytes_of-append [] x = append-nil (dump x)
  bytes_of-append (y ∷ xs) x =
      ap (λ r. dump y ++ r) (bytes_of-append xs x)
      ∙ sym (append_assoc (dump y) (bytes_of xs) (dump x))

  offsets_of-append :
      (n : ℕ) (xs : List T) (x : T)
      → offsets_of n (xs ++ x ∷ []) ≡ offsets_of n xs ++ (n + length (bytes_of xs)) ∷ []
  offsets_of-append n [] x = ap (λ k. k ∷ []) (omega arith)
  offsets_of-append n (y ∷ xs) x =
      ap (λ r. n ∷ r)
        (offsets_of-append (n + length (dump y)) xs x
          ∙ ap (λ k. offsets_of (n + length (dump y)) xs ++ k ∷ [])
              (omega (arith, length-append (dump y) (bytes_of xs))))

  write_end : (bytes xs : List Byte) → write pickle bytes (length xs) xs ≡ xs ++ bytes
  unfolding write
  write_end bytes xs = rw (take_all xs, drop_all (length bytes) xs, append-nil bytes) refl

  offsets_of-end :
      (xs : List T) (x : T)
      → offsets_of 0 (xs ++ x ∷ []) ≡ offsets_of 0 xs ++ length (bytes_of xs) ∷ []
  offsets_of-end xs x = offsets_of-append 0 xs x ∙ ap (λ k. offsets_of 0 xs ++ k ∷ []) (omega arith)

  spill-filled : (x : T) (xs : List T) → spill pickle x (filled xs) ≡ filled (xs ++ x ∷ [])
  unfolding spill
  spill-filled x xs =
      rw
        (
          write_end (dump x) (bytes_of xs),
          bytes_of-append xs x,
          offsets_of-end xs x,
          length-append (bytes_of xs) (dump x),
        )
        refl

  spill_all-filled : (ys xs : List T) → spill_all pickle ys (filled xs) ≡ filled (xs ++ ys)
  unfolding spill_all
  spill_all-filled [] xs = ap filled (sym (append-nil xs))
  spill_all-filled (y ∷ ys) xs =
      ap (spill_all pickle ys) (spill-filled y xs)
      ∙ spill_all-filled ys (xs ++ y ∷ [])
      ∙ ap filled (append_assoc xs (y ∷ []) ys)

  abbrev loaded : List Byte → Option ℕ → Option T
  loaded contents none = none
  loaded contents (some offset) = Option.map (λ r. r.0) (load (drop offset contents))

  loaded-offsets_of :
      (trip : IsRoundTrip) (before : List Byte) (xs : List T) (i : ℕ)
      → loaded (before ++ bytes_of xs) (get_elem? (offsets_of (length before) xs) i)
        ≡ get_elem? xs i
  unfolding get_elem?
  loaded-offsets_of trip before [] i = refl
  loaded-offsets_of trip before (x ∷ xs) ℕ.zero =
      ap (λ n. loaded (before ++ (dump x ++ bytes_of xs)) (some n)) (omega arith)
      ∙ ap (λ r. Option.map (λ p. p.0) (load r))
          (drop-append before (dump x ++ bytes_of xs) 0 ∙ drop_none (dump x ++ bytes_of xs))
      ∙ ap (Option.map (λ p. p.0)) (trip x (bytes_of xs))
  loaded-offsets_of trip before (x ∷ xs) (ℕ.suc i) =
      ap₂ (λ c n. loaded c (get_elem? (offsets_of n xs) i))
        (sym (append_assoc before (dump x) (bytes_of xs))) (sym (length-append before (dump x)))
      ∙ loaded-offsets_of trip (before ++ dump x) xs i

  fetch-filled :
      (trip : IsRoundTrip) (xs : List T) (i : ℕ)
      → Option.map (λ r. r.0) (fetch pickle i (filled xs)) ≡ get_elem? xs i
  unfolding fetch
  fetch-filled trip xs i = ground (arith, loaded-offsets_of trip [] xs i)

  -- the items of a sequence: in memory, or in the file
  abbrev pub IsSequence : List T → SpillableSequence pickle → Type 0
  IsSequence xs s = ((s.spilled ≡ none) × (s.items ≡ xs)) ⊎ (s.spilled ≡ some (filled xs))

  append-IsSequence :
      (x : T) (xs : List T) (s : SpillableSequence pickle)
      → IsSequence xs s
      → IsSequence (xs ++ x ∷ []) (append pickle x s)
  unfolding append
  append-IsSequence x xs s h = ground (arith, spill-filled x xs, spill_all-filled xs [])

  extend-IsSequence :
      (ys xs : List T) (s : SpillableSequence pickle)
      → IsSequence xs s
      → IsSequence (xs ++ ys) (extend pickle ys s)
  unfolding extend
  extend-IsSequence [] xs s h = subst (λ zs. IsSequence zs s) (sym (append-nil xs)) h
  extend-IsSequence (y ∷ ys) xs s h =
      subst (λ zs. IsSequence zs (extend pickle ys (append pickle y s)))
        (append_assoc xs (y ∷ []) ys)
        (extend-IsSequence ys (xs ++ y ∷ []) (append pickle y s) (append-IsSequence y xs s h))

  new-IsSequence :
      (n : ℕ) {s : SpillableSequence pickle} → sequence pickle n ≡ some s → IsSequence [] s
  unfolding sequence
  new-IsSequence n {s} h = ground arith

  length-offsets_of : (n : ℕ) (xs : List T) → length (offsets_of n xs) ≡ length xs
  length-offsets_of n [] = refl
  length-offsets_of n (x ∷ xs) = ap ℕ.suc (length-offsets_of (n + length (dump x)) xs)

  read-IsSequence :
      (trip : IsRoundTrip) (xs : List T) (s : SpillableSequence pickle) (i : ℕ)
      → IsSequence xs s
      → (Option.map (λ r. r.0) (get_item pickle i s) ≡ get_elem? xs i) × (len pickle s ≡ length xs)
  unfolding get_item len
  read-IsSequence trip xs s i h = ground (arith, fetch-filled trip xs i, length-offsets_of 0 xs)

  -- A sequence that is new, filled with any items and then read has their number and, at every
  -- index, the item of the list or the IndexError, whether it has moved to the file or not. What
  -- pickle dumps it must load.
  pub sequence_refines :
      (trip : IsRoundTrip) (n : ℕ) (xs : List T) (i : ℕ) {s : SpillableSequence pickle}
      → sequence pickle n ≡ some s
      → (Option.map (λ r. r.0) (get_item pickle i (extend pickle xs s)) ≡ get_elem? xs i)
        × (len pickle (extend pickle xs s) ≡ length xs)
  sequence_refines trip n xs i {s} made =
      read-IsSequence trip xs (extend pickle xs s) i
        (extend-IsSequence xs [] s (new-IsSequence n made))
