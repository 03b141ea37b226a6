-- ===== src/Audit/Standards/Guarantees.antt =====
-- src/excel_auditor/engine.py: which records of the standard take part in the pairing.
use mathlib.Core.Path.{subst}
use excelflow.Prelude.{
  find_by-none, ◌∙◌, ◌≡◌, refl, sym, ap, ℕ, ◌+◌, ◌==◌, ◌||◌, ◌&&◌, Bool, true, false, List, [], ◌∷◌,
  ◌++◌, none, is_some, leb, any_by, any_by-append, count_by, find_by, Bool-cases, inl, inr, arith,
  if◌then◌else◌,
}
use excelflow.Audit.{Engine, Parsing, Report}
use excelflow.Audit.Keys.{Key, same_key, IsEquality, same_key_class, same_key_sym, KeyRules}
use excelflow.Audit.Keys.Collecting.{
  bears, bit, or_else, IsDict, find-store, held-store, store-IsDict, pop_all, pop_all-IsDict,
  find-pop_all,
}
use excelflow.Audit.Standards.Widths.{rejected_apart}
use excelflow.Audit.Standards.{
  Entry, Standing, passed, rejected, accepted, add_key, mark_key, standing, Standards,
  take_standing, with_standing, rejected_key, keyed_standards, rejected_keys, read_standards,
  drop_standards, read_standard_in_memory,
}

module _ (engine : Engine) where
  -- `key in standard_duplicates`, where the empty key counts as one
  abbrev held : Key engine → List (Key engine) → Bool
  held k keys = any_by (λ j. same_key engine j k) keys || same_key engine [] k

  module _ (laws : IsEquality engine) where
    any_by-same :
        (key k : Key engine) (keys : List (Key engine))
        → same_key engine key k ≡ true
        → any_by (λ j. same_key engine j key) keys ≡ any_by (λ j. same_key engine j k) keys
    any_by-same key k [] h = refl
    any_by-same key k (j ∷ keys) h = ground (
      arith,
      same_key_class engine laws key k j h,
      same_key_sym engine laws j key,
      same_key_sym engine laws j k,
      any_by-same key k keys h,
    )

    held-add_key :
        (k key : Key engine) (keys : List (Key engine))
        → held k (add_key engine key keys) ≡ (held k keys || same_key engine key k)
    unfolding add_key
    held-add_key k [] keys = ground arith
    held-add_key k (p ∷ key) keys =
        elim (Bool-cases (any_by (λ j. same_key engine j (p ∷ key)) keys)) [
          | inl there ↦ elim (Bool-cases (same_key engine (p ∷ key) k)) [
            | inl same ↦ ground (arith, any_by-same (p ∷ key) k keys same)
            | inr other ↦ ground arith
          ]
          | inr absent ↦
              ground (arith, any_by-append (λ j. same_key engine j k) keys ((p ∷ key) ∷ []))
        ]

    module _ (parsing : Parsing engine) (rules : KeyRules engine) where
      -- the first entry of a key, and the marks, after one record
      find-take :
          (k : Key engine) (entry : Entry engine) (s : Standing engine)
          (c : Standards engine parsing rules)
          → find_by (bears engine k) (take_standing engine parsing rules entry s c).0
            ≡ or_else
                (find_by (bears engine k) c.0)
                (find_by (bears engine k) (with_standing engine entry s))
      find-take k entry passed c = ground arith
      find-take k entry (rejected key) c = ground arith
      find-take k entry (accepted key) c =
          find-store engine laws (mark_key engine) held (λ k key a b d. held-add_key k key d) k key
            entry c

      take-IsDict :
          (entry : Entry engine) (s : Standing engine) (c : Standards engine parsing rules)
          → IsDict engine c.0
          → IsDict engine (take_standing engine parsing rules entry s c).0
      take-IsDict entry passed c dict = dict
      take-IsDict entry (rejected key) c dict = dict
      take-IsDict entry (accepted key) c dict =
          store-IsDict engine laws (mark_key engine) held (λ k key a b d. held-add_key k key d) key
            entry c dict

      held-take :
          (k : Key engine) (entry : Entry engine) (s : Standing engine)
          (c : Standards engine parsing rules)
          → held k (take_standing engine parsing rules entry s c).1 ≡ (
              held k c.1
              || ((is_some (find_by (bears engine k) c.0)
                    && any_by (bears engine k) (with_standing engine entry s))
                  || any_by (λ j. same_key engine j k) (rejected_key engine s)))
      held-take k entry passed c = ground arith
      held-take k entry (rejected key) c = ground (arith, held-add_key k key c.1)
      held-take k entry (accepted key) c =
          held-store engine laws (mark_key engine) held (λ k key a b d. held-add_key k key d) k key
            entry c
          ∙ ground arith

      find_step :
          (k : Key engine) (entry : Entry engine) (s : Standing engine)
          (c : Standards engine parsing rules) (rest : List (Key engine × Entry engine))
          → or_else
              (find_by (bears engine k) (take_standing engine parsing rules entry s c).0)
              (find_by (bears engine k) rest)
            ≡ or_else
                (find_by (bears engine k) c.0)
                (find_by (bears engine k) (with_standing engine entry s ++ rest))
      find_step k entry passed c rest = refl
      find_step k entry (rejected key) c rest = refl
      find_step k entry (accepted key) c rest = ground (arith, find-take k entry (accepted key) c)

      held_step :
          (k : Key engine) (entry : Entry engine) (s : Standing engine)
          (c : Standards engine parsing rules) (rest : List (Key engine × Entry engine))
          (others : List (Key engine))
          → (held k (take_standing engine parsing rules entry s c).1
              || (leb 2 (
                    bit (
                      is_some
                        (find_by (bears engine k) (take_standing engine parsing rules entry s c).0))
                    + count_by (bears engine k) rest)
                  || any_by (λ j. same_key engine j k) others))
            ≡ (held k c.1
                || (leb 2 (
                      bit (is_some (find_by (bears engine k) c.0))
                      + count_by (bears engine k) (with_standing engine entry s ++ rest))
                    || any_by (λ j. same_key engine j k) (rejected_key engine s ++ others)))
      held_step k entry passed c rest others = refl
      held_step k entry (rejected key) c rest others =
          ground (arith, held-take k entry (rejected key) c)
      held_step k entry (accepted key) c rest others =
          ground (arith, held-take k entry (accepted key) c, find-take k entry (accepted key) c)

      find-read :
          (k : Key engine) (ordinal : ℕ) (entries : List (Entry engine))
          (c : Standards engine parsing rules)
          → find_by (bears engine k) (read_standards engine parsing rules ordinal entries c).0
            ≡ or_else
                (find_by (bears engine k) c.0)
                (find_by (bears engine k) (keyed_standards engine parsing rules ordinal entries))
      unfolding read_standards keyed_standards
      find-read k ordinal [] c = ground arith
      find-read k ordinal (entry ∷ entries) c =
          find-read k (ordinal + 1) entries (
            take_standing engine parsing rules entry (standing engine parsing rules ordinal entry)
              c)
          ∙ find_step k entry (standing engine parsing rules ordinal entry) c
              (keyed_standards engine parsing rules (ordinal + 1) entries)

      read-IsDict :
          (ordinal : ℕ) (entries : List (Entry engine)) (c : Standards engine parsing rules)
          → IsDict engine c.0
          → IsDict engine (read_standards engine parsing rules ordinal entries c).0
      unfolding read_standards
      read-IsDict ordinal [] c dict = dict
      read-IsDict ordinal (entry ∷ entries) c dict =
          read-IsDict (ordinal + 1) entries
            (take_standing engine parsing rules entry (standing engine parsing rules ordinal entry)
              c)
            (take-IsDict entry (standing engine parsing rules ordinal entry) c dict)

      held-read :
          (k : Key engine) (ordinal : ℕ) (entries : List (Entry engine))
          (c : Standards engine parsing rules)
          → held k (read_standards engine parsing rules ordinal entries c).1 ≡ (
              held k c.1
              || (leb 2 (
                    bit (is_some (find_by (bears engine k) c.0))
                    + count_by
                        (bears engine k)
                        (keyed_standards engine parsing rules ordinal entries))
                  || any_by
                      (λ j. same_key engine j k)
                      (rejected_keys engine parsing rules ordinal entries)))
      unfolding read_standards keyed_standards rejected_keys
      held-read k ordinal [] c = ground arith
      held-read k ordinal (entry ∷ entries) c =
          held-read k (ordinal + 1) entries (
            take_standing engine parsing rules entry (standing engine parsing rules ordinal entry)
              c)
          ∙ held_step k entry (standing engine parsing rules ordinal entry) c
              (keyed_standards engine parsing rules (ordinal + 1) entries)
              (rejected_keys engine parsing rules (ordinal + 1) entries)

      records-drop :
          (keys : List (Key engine)) (records : List (Key engine × Entry engine))
          (report : Report engine)
          → (drop_standards engine parsing rules keys records report).0
            ≡ pop_all engine keys records
      unfolding drop_standards pop_all
      records-drop [] records report = refl
      records-drop (key ∷ keys) records report = records-drop keys _ _

      any_by_once :
          (k : Key engine) (xs : List (Key engine × Entry engine))
          → count_by (bears engine k) xs ≡ 1
          → any_by (bears engine k) xs ≡ true
      any_by_once k [] h = absurd (omega arith)
      any_by_once k (x ∷ xs) h = ground (arith, any_by_once k xs)

      -- A key that is not empty has a record after both loops exactly if one record of the standard and no
      -- more bears it, and then it is this record.
      pub read_standard_in_memory-find :
          (entries : List (Entry engine)) (report : Report engine) (k : Key engine)
          → same_key engine [] k ≡ false
          → find_by (bears engine k) (read_standard_in_memory engine parsing rules entries report).0
            ≡ (if count_by (bears engine k) (keyed_standards engine parsing rules 1 entries) == 1
                then find_by (bears engine k) (keyed_standards engine parsing rules 1 entries)
                else none)
      unfolding read_standard_in_memory
      read_standard_in_memory-find entries report k proper =
          let c = read_standards engine parsing rules 1 entries ([], []) in
          let xs = keyed_standards engine parsing rules 1 entries in
          ap (find_by (bears engine k)) (records-drop c.1 c.0 report)
          ∙ find-pop_all engine laws c.1 c.0 k
          ∙ ground (
            arith,
            held-read k 1 entries ([], []),
            find-read k 1 entries ([], []),
            find_by-none (bears engine k) xs,
            any_by_once k xs,
            rejected_apart engine parsing rules 1 entries k,
          )

      pub read_standard_in_memory-IsDict :
          (entries : List (Entry engine)) (report : Report engine)
          → IsDict engine (read_standard_in_memory engine parsing rules entries report).0
      unfolding read_standard_in_memory
      read_standard_in_memory-IsDict entries report =
          let c = read_standards engine parsing rules 1 entries ([], []) in
          subst (IsDict engine) (sym (records-drop c.1 c.0 report))
            (pop_all-IsDict engine laws c.1 c.0 (read-IsDict 1 entries ([], []) (λ k. refl)))
