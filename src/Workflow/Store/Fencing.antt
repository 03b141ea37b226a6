-- ===== src/Workflow/Store/Fencing.antt =====
-- src/excel_auditor/workflow/repository.py: when the fence of `WorkflowStore` refuses to write.
use excelflow.Prelude.{
  ◌≢◌, ◌≤◌, ℕ, ◌≡◌, refl, ap, Bool, true, false, Option, none, some, String, eq_iff, holds, arith,
}
use excelflow.Sql.{lookup, HasPrimaryKey}
use excelflow.Workflow.{
  Execution, Object, ObjectStatus, Kind, Payload, Schema, Database, ExecutionStatus, pending,
  queued, running, succeeded, superseded, is_running, same_text,
}
use excelflow.Workflow.Store.{Store, execution_expired, raised, then_, is_held, save, create}
use excelflow.Workflow.Store.Rows.{fence_refused}

module _ (store : Store) (s : Schema) where
  -- The row under which a worker may no longer write: there is none, it has another token or none, it
  -- does not run, or it has no lease or one that has ended.
  pub data IsLost (now : ℕ) (token : String) : Option Execution → Type 0 where
    absent : IsLost now token none
    other_token : {e : Execution} → e.token ≢ some token → IsLost now token (some e)
    idle : {e : Execution} → e.status ≢ running → IsLost now token (some e)
    unleased : {e : Execution} → e.lease_until ≡ none → IsLost now token (some e)
    ended :
        {e : Execution} {until : ℕ}
        → e.lease_until ≡ some until
        → until ≤ now
        → IsLost now token (some e)

  same_text-eq :
      (t : Option String) (token : String) → same_text t (some token) ≡ true → t ≡ some token
  same_text-eq none token h = cc
  same_text-eq (some a) token h = ap some ((eq_iff a token).0 h)

  is_running-eq : (status : ExecutionStatus) → is_running status ≡ true → status ≡ running
  is_running-eq running h = refl
  is_running-eq pending h = cc
  is_running-eq queued h = cc
  is_running-eq succeeded h = cc
  is_running-eq ExecutionStatus.failed h = cc
  is_running-eq superseded h = cc

  refuted : (b : Bool) → (b ≡ true → ⊥) → b ≡ false
  refuted true h = absurd (h refl)
  refuted false h = refl

  is_held-IsLost :
      (now : ℕ) (token : String) (o : Option Execution)
      → IsLost now token o
      → holds (is_held store now token) o ≡ false
  is_held-IsLost now token none lost = refl
  is_held-IsLost now token (some e) (other_token differs) = ground (
    arith,
    refuted (same_text e.token (some token)) (λ h. differs (same_text-eq e.token token h)),
  )
  is_held-IsLost now token (some e) (idle stopped) =
      ground (arith, refuted (is_running e.status) (λ h. stopped (is_running-eq e.status h)))
  is_held-IsLost now token (some e) (unleased gone) = ground (arith, gone)
  is_held-IsLost now token (some e) (ended found past) = ground (arith, found, past)

  -- With ids as primary keys: a store that runs for an execution whose row is gone, no longer has its
  -- token, does not run, or has no lease that lasts, can neither save nor create an object.
  pub save_refused :
      (now : ℕ) (id token : String) (db : Database s)
      → HasPrimaryKey Execution.id s.executions db.executions
      → store.execution ≡ some (id, token)
      → IsLost now token (lookup Execution.id s.executions id db.executions)
      → ((obj : Object) → save store now s obj db ≡ raised execution_expired)
        × ((tenant : String) (kind : Kind) (payload : Payload) (status : ObjectStatus)
              (object_id : Option String)
            → create store now s tenant kind payload status object_id db ≡ raised execution_expired)
  unfolding save create
  save_refused now id token db keyed runs lost =
      let refused =
        fence_refused store now s id token db keyed runs (is_held-IsLost now token _ lost) in
      (λ obj. ap (then_ _) refused, λ tenant kind payload status object_id. ap (then_ _) refused)
