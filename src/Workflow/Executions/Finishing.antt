-- ===== src/Workflow/Executions/Finishing.antt =====
-- `finish` on every branch: only the holder of a live lease ends an execution, and only an execution
-- that is not tried again takes its object down.
use excelflow.Prelude.{
  ℕ, ◌≡◌, refl, ◌∙◌, Bool, false, ◌&&◌, Option, String, arith, str_eq, eq_iff, holds, if◌then◌else◌,
}
use excelflow.Sql.Rows.{revise}
use excelflow.Workflow.{Execution, Schema, Database}
use excelflow.Workflow.Leasing.{
  Service, Failure, leased_to, finished, gives_up, failure_code, failure_message,
}
use excelflow.Workflow.Executions.{set, finish, heartbeat}
use excelflow.Workflow.Executions.Effects.{
  row, object, IsKeyed, row-set, set-IsKeyed, changed-set, executions-fail_object,
  object-fail_object, fail_object-IsKeyed, fail_if_busy, heartbeat-result,
}

module _ (service : Service) (now : ℕ) (s : Schema) (db : Database s) (key : IsKeyed s db)
    (held : Execution) where
  -- the lease of `held` is the row's, and has not ended
  abbrev pub is_live : Bool
  is_live = holds (leased_to service now held.token) (row s held.id db)

  module _ (error : Option Failure) (retryable : Bool) where
    abbrev ended : Database s
    ended =
        (set s held.id (leased_to service now held.token)
          (finished service now held error retryable) db).0

    pub row-finish :
        (j : String)
        → row s j (finish service now s held error retryable db) ≡ (
            if str_eq j held.id
            then revise
                (leased_to service now held.token)
                (finished service now held error retryable)
                (row s j db)
            else row s j db)
    unfolding finish
    row-finish j = ground (
      arith,
      row-set service now s db key held.id (leased_to service now held.token)
          (finished service now held error retryable) (λ e. refl) j,
      executions-fail_object service now s ended
          (set-IsKeyed service now s db key held.id (leased_to service now held.token)
            (finished service now held error retryable) (λ e. refl))
          held (failure_code error) (failure_message error),
    )

    pub object-finish :
        (j : String)
        → object s j (finish service now s held error retryable db) ≡ (
            if is_live && (gives_up service now held error retryable && str_eq j held.object_id)
            then fail_if_busy service now s db key held
                (failure_code error)
                (failure_message error)
                (object s j db)
            else object s j db)
    unfolding finish
    object-finish j = ground (
      arith,
      changed-set service now s db key held.id (leased_to service now held.token)
          (finished service now held error retryable),
      object-fail_object service now s ended
          (set-IsKeyed service now s db key held.id (leased_to service now held.token)
            (finished service now held error retryable) (λ e. refl))
          held (failure_code error) (failure_message error) j,
    )

    pub finish-IsKeyed : IsKeyed s (finish service now s held error retryable db)
    unfolding finish
    finish-IsKeyed = ground (
      arith,
      set-IsKeyed service now s db key held.id (leased_to service now held.token)
          (finished service now held error retryable) (λ e. refl),
      fail_object-IsKeyed service now s ended
          (set-IsKeyed service now s db key held.id (leased_to service now held.token)
            (finished service now held error retryable) (λ e. refl))
          held (failure_code error) (failure_message error),
    )

    -- With ids as primary keys: on every branch of `finish`: the execution is ended only under the
    -- live lease of its report, and then its object fails with it exactly if the execution is not
    -- tried again, and the object is still busy at its revision. No other row changes.
    pub finish-outcome :
        (i o : String)
        → let ended = finish service now s held error retryable db in
          (row s i ended ≡ (
            if str_eq i held.id
            then revise
                (leased_to service now held.token)
                (finished service now held error retryable)
                (row s i db)
            else row s i db))
          × (object s o ended ≡ (
              if is_live && (gives_up service now held error retryable && str_eq o held.object_id)
              then fail_if_busy service now s db key held
                  (failure_code error)
                  (failure_message error)
                  (object s o db)
              else object s o db))
    finish-outcome i o = (row-finish i, object-finish o)

    -- A report without a live lease is refused and changes nothing.
    pub report_refused :
        (i o : String)
        → is_live ≡ false
        → ((heartbeat service now s held db).0 ≡ false)
          × (row s i (finish service now s held error retryable db) ≡ row s i db)
          × (object s o (finish service now s held error retryable db) ≡ object s o db)
    report_refused i o stale = (
      heartbeat-result service now s db key held ∙ stale,
      ground (arith, eq_iff i held.id, row-finish i),
      ground (arith, object-finish o),
    )
