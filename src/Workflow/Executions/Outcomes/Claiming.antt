-- ===== src/Workflow/Executions/Outcomes/Claiming.antt =====
-- src/excel_auditor/workflow/execution.py: what `claim` gives and makes of the rows.
use excelflow.Prelude.{
  ℕ, ◌+◌, ◌≤◌, ◌<◌, ◌≡◌, refl, sym, inl, inr, Bool, true, false, ◌&&◌, not, Option, none, some,
  String, arith, str_eq, ◌==◌, leb, holds, if_keeps, Bool-cases, if◌then◌else◌,
}
use mathlib.Core.Path.{subst}
use excelflow.Workflow.{
  Execution, Object, Schema, Database, pending, running, superseded, is_waiting,
}
use excelflow.Workflow.Capacity.{Limits}
use excelflow.Workflow.Leasing.{Service, busy_status, expected_status, claimed, claimable}
use excelflow.Workflow.Executions.{claim}
use excelflow.Workflow.Executions.Effects.{row, object, IsKeyed}
use excelflow.Workflow.Executions.Claims.{fits, outcome, blocked, claim-outcome, retire}

module _ (service : Service) (now : ℕ) (token worker : String) where
  -- an execution under a new lease
  abbrev pub under_lease : Execution → Execution
  under_lease e = record e {
    status = running;
    token = some token;
    worker = some worker;
    attempts = e.attempts + 1;
    lease_until = some (now + service.lease_seconds);
    updated_at = now;
    started_at = some now;
  }

  -- What a claim gives and makes of the row of an execution, whose object may be blocked: a waiting
  -- execution whose object is blocked is put off; one that is due and has attempts left is taken, under
  -- the token and for the seconds of a lease, where its object is at its revision and in the status of
  -- its operation, and superseded where it is not; any other stays.
  pub data IsClaimed (o : Option Object) (blocked : Bool) (e : Execution)
      : Option Execution × Execution → Type 0 where
    not_waiting : is_waiting e.status ≡ false → IsClaimed o blocked e (none, e)
    put_off :
        is_waiting e.status ≡ true
        → blocked ≡ true
        → IsClaimed o blocked e
            (none, record e { status = pending; lease_until = none; available_at = now + 5 })
    not_due :
        is_waiting e.status ≡ true
        → blocked ≡ false
        → now < e.available_at
        → IsClaimed o blocked e (none, e)
    spent :
        is_waiting e.status ≡ true
        → blocked ≡ false
        → service.max_attempts ≤ e.attempts
        → IsClaimed o blocked e (none, e)
    taken :
        {obj : Object}
        → is_waiting e.status ≡ true
        → blocked ≡ false
        → e.available_at ≤ now
        → e.attempts < service.max_attempts
        → o ≡ some obj
        → str_eq obj.tenant_id e.tenant_id ≡ true
        → obj.revision ≡ e.revision
        → busy_status (expected_status e.operation) obj.status ≡ true
        → IsClaimed o blocked e (some (under_lease e), under_lease e)
    replaced :
        is_waiting e.status ≡ true
        → blocked ≡ false
        → e.available_at ≤ now
        → e.attempts < service.max_attempts
        → holds
            (λ obj.
              str_eq obj.tenant_id e.tenant_id
              && (obj.revision == e.revision
                  && busy_status (expected_status e.operation) obj.status))
            o
          ≡ false
        → IsClaimed o blocked e (
          none,
          record e {
            status = superseded;
            token = some token;
            worker = some worker;
            attempts = e.attempts + 1;
            lease_until = none;
            updated_at = now;
            started_at = some now;
          },
        )

  IsClaimed-fits :
      (o : Option Object) (blocked : Bool) (e : Execution)
      → is_waiting e.status ≡ true
      → blocked ≡ false
      → e.available_at ≤ now
      → e.attempts < service.max_attempts
      → IsClaimed o blocked e (
          if holds (fits e) o
          then (some (claimed service now token worker e), claimed service now token worker e)
          else (none, retire (claimed service now token worker e)))
  IsClaimed-fits none blocked e waits free due left = replaced waits free due left refl
  IsClaimed-fits (some obj) blocked e waits free due left =
      if_keeps (IsClaimed (some obj) blocked e) (fits e obj)
        (λ fit. taken waits free due left refl (ground arith) (ground arith) (ground arith))
        (λ unfit. replaced waits free due left unfit)

  outcome-IsClaimed :
      (o : Option Object) (blocked : Bool) (e : Execution)
      → IsClaimed o blocked e (outcome service now token worker o blocked e)
  outcome-IsClaimed o blocked e =
      if_keeps (IsClaimed o blocked e) (not (is_waiting e.status)) (λ h. not_waiting (ground arith))
        (λ waits.
          if_keeps (IsClaimed o blocked e) blocked (λ h. put_off (ground arith) h)
            (λ free.
              if_keeps (IsClaimed o blocked e) (not (claimable service now e))
                (λ h. elim (Bool-cases (leb e.available_at now)) [
                  | inr early ↦ not_due (ground arith) free (ground arith)
                  | inl due ↦ spent (ground arith) free (ground (arith, h, waits, due))
                ])
                (λ h.
                  IsClaimed-fits o blocked e (ground arith) free (ground arith) (ground arith))))

  -- With ids as primary keys: the result of `claim` and the new row of the execution are those of
  -- `IsClaimed`, and every other row and every object stay as they are.
  pub claim-IsClaimed :
      (s : Schema) (limits : Limits) (db : Database s) (key : IsKeyed s db) (id j : String)
      {e : Execution}
      → row s id db ≡ some e
      → let (result, db') = claim service now s limits id token worker db in
        (e' : Execution) × IsClaimed
          (object s e.object_id db)
          (blocked service now s limits token worker db key e)
          e
          (result, e')
        × (row s j db' ≡ (if str_eq j id then some e' else row s j db))
        × (db'.objects ≡ db.objects)
  claim-IsClaimed s limits db key id j {e} found =
      let o = object s e.object_id db in
      let b = blocked service now s limits token worker db key e in
      let (given, rows, objects) =
        claim-outcome service now s limits token worker db key id j found in
      (
        (outcome service now token worker o b e).1,
        subst (λ r. IsClaimed o b e (r, (outcome service now token worker o b e).1)) (sym given)
            (outcome-IsClaimed o b e),
        rows,
        objects,
      )
