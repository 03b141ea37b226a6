-- ===== src/Spill.antt =====
-- src/excel_auditor/spill.py: a sequence that moves its items to a temporary file when there are too
-- many. The file is its bytes and one position, which reading and writing share.
pub mod Refinement
use excelflow.Prelude.{
  ℕ, ◌+◌, ◌-◌, Bool, true, false, List, [], ◌∷◌, ◌++◌, Option, none, some, leb, length, take, drop,
  if◌then◌else◌,
}

-- pickle, of the items of one sequence: what `dump` writes, and what `load` reads at a place of the
-- file, with the bytes behind it
pub record Pickle (T : Type 0) : Type 1 where
  pub Byte : Type 0
  pub dump : T → List Byte
  pub load : List Byte → Option (T × List Byte)

-- `xs[i]` of an index that is not negative; `none` is the IndexError
unfoldable pub get_elem? {ℓ} : {A : Type ℓ} → List A → ℕ → Option A
get_elem? [] i = none
get_elem? (x ∷ xs) ℕ.zero = some x
get_elem? (x ∷ xs) (ℕ.suc i) = get_elem? xs i

module _ {T : Type 0} (pickle : Pickle T) where
  open pickle use {Byte, dump, load}

  -- `_SpilledObjects`
  pub record SpilledObjects : Type 0 where
    pub contents : List Byte
    pub position : ℕ
    pub offsets : List ℕ

  abbrev pub empty : SpilledObjects
  empty = record { contents = []; position = 0; offsets = [] }

  -- a write at the position: it replaces what stands there
  pub write : List Byte → ℕ → List Byte → List Byte
  write bytes position contents =
      take position contents ++ (bytes ++ drop (position + length bytes) contents)

  pub spill : T → SpilledObjects → SpilledObjects
  spill item f = record {
    contents = write (dump item) f.position f.contents;
    position = f.position + length (dump item);
    offsets = f.offsets ++ f.position ∷ [];
  }

  -- the item of an index, and the file behind it
  pub fetch : ℕ → SpilledObjects → Option (T × SpilledObjects)
  fetch index f = elim (get_elem? f.offsets index) [
    | none ↦ none
    | some offset ↦ elim (load (drop offset f.contents)) [
      | none ↦ none
      | some (item, rest) ↦ some (item, record f { position = length f.contents - length rest })
    ]
  ]

  pub spill_all : List T → SpilledObjects → SpilledObjects
  spill_all [] f = f
  spill_all (item ∷ items) f = spill_all items (spill item f)

  -- `SpillableSequence`, without an `on_append`
  pub record SpillableSequence : Type 0 where
    pub spill_after_items : ℕ
    pub items : List T
    pub spilled : Option SpilledObjects

  -- `SpillableSequence(n)`; `none` is the ValueError
  unfoldable pub sequence : ℕ → Option SpillableSequence
  sequence n =
      if leb 1 n then some (record { spill_after_items = n; items = []; spilled = none }) else none

  pub append : T → SpillableSequence → SpillableSequence
  append item s = elim s.spilled [
    | some f ↦ record s { spilled = some (spill item f) }
    | none ↦
        if leb s.spill_after_items (length s.items)
        then record s { items = []; spilled = some (spill item (spill_all s.items empty)) }
        else record s { items = s.items ++ item ∷ [] }
  ]

  pub extend : List T → SpillableSequence → SpillableSequence
  extend [] s = s
  extend (item ∷ items) s = extend items (append item s)

  -- `s[index]`, and the sequence behind it
  pub get_item : ℕ → SpillableSequence → Option (T × SpillableSequence)
  get_item index s = elim s.spilled [
    | none ↦ elim (get_elem? s.items index) [ none ↦ none | some item ↦ some (item, s) ]
    | some f ↦ elim (fetch index f) [
      | none ↦ none
      | some (item, f') ↦ some (item, record s { spilled = some f' })
    ]
  ]

  -- `len(s)`
  pub len : SpillableSequence → ℕ
  len s = elim s.spilled [ none ↦ length s.items | some f ↦ length f.offsets ]
