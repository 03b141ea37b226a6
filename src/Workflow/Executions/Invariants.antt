-- ===== src/Workflow/Executions/Invariants.antt =====
-- What holds of an execution through every history of the service.
use excelflow.Prelude.{
  ℕ, ◌≡◌, refl, sym, ap, ◌∙◌, Bool, false, Option, some, List, [], ◌∷◌, String, All,
}
use excelflow.Workflow.{Execution, Schema, Database, same_text}
use mathlib.Core.Path.{subst}
use excelflow.Workflow.Capacity.{Limits}
use excelflow.Workflow.Leasing.{Service, Failure}
use excelflow.Workflow.Executions.{finish, heartbeat}
use excelflow.Workflow.Executions.Effects.{row, object, IsKeyed}
use excelflow.Workflow.Executions.Finishing.{is_live, report_refused}
use excelflow.Workflow.Executions.Steps.{
  IsConsistent, IsFinal, IsFresh, next-IsConsistent, next-IsFinal, next-IsFresh,
}
use excelflow.Workflow.Executions.Histories.{
  Timed, perform, run, perform-IsKeyed, next, row-perform,
}

module _ (service : Service) (limits : Limits) (s : Schema) where
  run-row :
      {P : Execution → Type 0} (Q : Timed → Type 0)
      → ((db : Database s) (key : IsKeyed s db) (j : String) (t : Timed) (e : Execution)
          → Q t
          → P e
          → P (next service limits s db key j t.now t.event e))
      → (es : List Timed) (db : Database s) (j : String) (e : Execution) → IsKeyed s db
      → row s j db ≡ some e
      → All Q es
      → P e
      → (e' : Execution) × (row s j (run service limits s es db) ≡ some e')
        × P e'
        × IsKeyed s (run service limits s es db)
  unfolding run
  run-row Q keep [] db j e key found q p = (e, found, p, key)
  run-row Q keep (t ∷ es) db j e key found q p =
      run-row Q keep es (perform service limits s t.now t.event db) j
        (next service limits s db key j t.now t.event e)
        (perform-IsKeyed service limits s t.now t.event db key)
        (row-perform service limits s db key j t.now t.event e found) q.1 (keep db key j t e q.0 p)

  not_live :
      (db : Database s) (key : IsKeyed s db) (now : ℕ) (held : Execution) (mine : String)
      (e : Execution)
      → same_text e.token (some mine) ≡ false
      → held.token ≡ some mine
      → row s held.id db ≡ some e
      → is_live service now s db key held ≡ false
  not_live db key now held mine e other same there = rw (there, same, other)

  abbrev Anything : Timed → Type 0
  Anything t = Unit

  All-Anything : (es : List Timed) → All Anything es
  All-Anything [] = tt
  All-Anything (t ∷ es) = (tt, All-Anything es)

  module _ (db : Database s) (key : IsKeyed s db) (j : String) {e : Execution}
      (found : row s j db ≡ some e) where
    -- With ids as primary keys: an execution that has a lease and a token if it runs, and no more
    -- attempts than the limit, keeps to this through any history.
    pub run-IsConsistent :
        (es : List Timed)
        → IsConsistent service e
        → (e' : Execution) × (row s j (run service limits s es db) ≡ some e')
          × IsConsistent service e'
    run-IsConsistent es v =
        let (e', there, sound, _) =
          run-row {P = IsConsistent service} Anything
            (λ d k i t x q p. next-IsConsistent service limits s d k i t.now t.event x p) es db j e
            key found (All-Anything es) v in
        (e', there, sound)

    -- With ids as primary keys: an execution that succeeded, failed or was superseded is never
    -- changed again.
    pub run-IsFinal :
        (es : List Timed) → IsFinal e.status → row s j (run service limits s es db) ≡ some e
    run-IsFinal es v =
        let (e', there, (same, _), _) =
          run-row {P = λ x. (x ≡ e) × IsFinal x.status} Anything
            (λ d k i t x q p. final_step d k i t x p) es db j e key found (All-Anything es)
            (refl, v) in
        there ∙ ap some same
      where
        final_step :
            (d : Database s) (k : IsKeyed s d) (i : String) (t : Timed) (x : Execution)
            → (x ≡ e) × IsFinal x.status
            → (next service limits s d k i t.now t.event x ≡ e)
              × IsFinal (next service limits s d k i t.now t.event x).status
        final_step d k i t x p =
            let same = next-IsFinal service limits s d k i t.now t.event x p.1 in
            (same ∙ p.0, subst (λ y. IsFinal y.status) (sym same) p.1)

    -- With ids as primary keys: a worker that lost its lease is fenced: once the row has another
    -- token, and as long as no claim draws the old token again, whatever happens in between, its
    -- heartbeat is refused and its report changes no execution and no object.
    pub fenced :
        (mine : String) (es : List Timed) (now : ℕ) (held : Execution) (error : Option Failure)
        (retryable : Bool) (i o : String)
        → same_text e.token (some mine) ≡ false
        → All (IsFresh mine) es
        → held.id ≡ j
        → held.token ≡ some mine
        → let later = run service limits s es db in
          let ended = finish service now s held error retryable later in
          ((heartbeat service now s held later).0 ≡ false)
          × (row s i ended ≡ row s i later)
          × (object s o ended ≡ object s o later)
    fenced mine es now held error retryable i o other fresh same_id same_token =
        let (e', there, token, keyed) =
          run-row {P = λ x. same_text x.token (some mine) ≡ false} (IsFresh mine)
            (λ d k n t x q p. next-IsFresh service limits s d k n t.now mine t.event x q p) es db j
            e key found fresh other in
        report_refused service now s (run service limits s es db) keyed held error retryable i o (
          not_live (run service limits s es db) keyed now held mine e' token same_token
            (rw same_id there))
