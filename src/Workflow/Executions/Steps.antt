-- ===== src/Workflow/Executions/Steps.antt =====
-- What one event of the execution service keeps of a row.
use excelflow.Prelude.{
  ℕ, ◌≤◌, ◌≡◌, refl, ◌⊎◌, Bool, true, false, Option, none, some, String, arith, str_eq, is_some,
  ◌&&◌, not, holds, if_keeps,
}
use excelflow.Workflow.{
  Execution, Object, Schema, Database, ExecutionStatus, running, succeeded, superseded, same_text,
  is_waiting,
}
use excelflow.Workflow.Capacity.{Limits}
use excelflow.Workflow.Leasing.{
  Service, Failure, claimable, claimed, leased_to, final_status, finished, lost, still_queued,
  offerable,
}
use excelflow.Workflow.Executions.Effects.{IsKeyed}
use excelflow.Workflow.Executions.Claims.{outcome, fits}
use excelflow.Workflow.Executions.Recovery.{restore}
use excelflow.Workflow.Executions.Histories.{
  Event, claims, heartbeats, finishes, recovers, prolongs, offers, Timed, next,
}

-- A lease and a token while it runs, and no more attempts than allowed.
pub record IsConsistent (service : Service) (e : Execution) : Type 0 where
  pub leased : e.status ≡ running → is_some e.lease_until ≡ true
  pub tokened : e.status ≡ running → is_some e.token ≡ true
  pub capped : e.attempts ≤ service.max_attempts

abbrev pub IsFinal : ExecutionStatus → Type 0
IsFinal status = (status ≡ succeeded) ⊎ (status ≡ ExecutionStatus.failed) ⊎ (status ≡ superseded)

-- no claim of the event draws this token
abbrev pub IsFresh : String → Timed → Type 0
IsFresh mine e = elim e.event [ claims id token worker ↦ str_eq token mine ≡ false | _ ↦ Unit ]

module _ (service : Service) (now : ℕ) where
  claimed-IsConsistent :
      (token worker : String) (e : Execution)
      → claimable service now e ≡ true
      → IsConsistent service (claimed service now token worker e)
  claimed-IsConsistent token worker e h = record {
    leased = λ r. refl;
    tokened = λ r. refl;
    capped = ground arith;
  }

  finished_stops :
      (row : Execution) (error : Option Failure) (retryable : Bool)
      → final_status service now row error retryable ≡ running
      → false ≡ true
  finished_stops row none retryable h = cc
  finished_stops row (some error) retryable h = ground arith

  finished-IsConsistent :
      (row : Execution) (error : Option Failure) (retryable : Bool) (e : Execution)
      → IsConsistent service e
      → IsConsistent service (finished service now row error retryable e)
  finished-IsConsistent row error retryable e v = record {
    leased = λ r. cc (finished_stops row error retryable r);
    tokened = λ r. cc (finished_stops row error retryable r);
    capped = v.capped;
  }

  restore-IsConsistent :
      (e : Execution) → IsConsistent service e → IsConsistent service (restore service now e)
  restore-IsConsistent e v = record {
    leased = λ r. ground arith;
    tokened = λ r. ground arith;
    capped = v.capped;
  }

  outcome-IsConsistent :
      (token worker : String) (o : Option Object) (waits : Bool) (e : Execution)
      → IsConsistent service e
      → IsConsistent service (outcome service now token worker o waits e).1
  outcome-IsConsistent token worker o waits e v =
      let P = λ (r : Option Execution × Execution). IsConsistent service r.1 in
      if_keeps P (not (is_waiting e.status)) (λ h. v)
        λ h.
          if_keeps P waits (λ h. record { leased = λ r. cc; tokened = λ r. cc; capped = v.capped })
            λ h.
              if_keeps P (not (claimable service now e)) (λ h. v)
                λ may.
                  if_keeps P (holds (fits e) o)
                    (λ h. claimed-IsConsistent token worker e (ground arith))
                    (λ h. record {
                      leased = λ r. cc;
                      tokened = λ r. cc;
                      capped = (claimed-IsConsistent token worker e (ground arith)).capped;
                    })

module _ (service : Service) (limits : Limits) (s : Schema) (db : Database s) (key : IsKeyed s db)
    (j : String) (now : ℕ) where
  pub next-IsConsistent :
      (event : Event) (e : Execution)
      → IsConsistent service e
      → IsConsistent service (next service limits s db key j now event e)
  next-IsConsistent (claims id token worker) e v =
      if_keeps (IsConsistent service) (str_eq j id)
        (λ h. outcome-IsConsistent service now token worker _ _ e v) (λ h. v)
  next-IsConsistent (heartbeats held) e v =
      if_keeps (IsConsistent service) (str_eq j held.id && leased_to service now held.token e)
        (λ h. record { leased = λ r. refl; tokened = v.tokened; capped = v.capped }) (λ h. v)
  next-IsConsistent (finishes held error retryable) e v =
      if_keeps (IsConsistent service) (str_eq j held.id && leased_to service now held.token e)
        (λ h. finished-IsConsistent service now held error retryable e v) (λ h. v)
  next-IsConsistent (prolongs read) e v =
      if_keeps (IsConsistent service) (str_eq j read.id && still_queued service now read e)
        (λ h. record { leased = λ r. refl; tokened = v.tokened; capped = v.capped }) (λ h. v)
  next-IsConsistent (offers read waits) e v =
      if_keeps (IsConsistent service) (str_eq j read.id && offerable service now read e)
        (λ h. record { leased = λ r. cc; tokened = λ r. cc; capped = v.capped }) (λ h. v)
  next-IsConsistent recovers e v =
      if_keeps (IsConsistent service) (lost service now e)
        (λ h. restore-IsConsistent service now e v) (λ h. v)

  pub next-IsFinal :
      (event : Event) (e : Execution)
      → IsFinal e.status
      → next service limits s db key j now event e ≡ e
  next-IsFinal event e v = ground arith

  pub next-IsFresh :
      (mine : String) (event : Event) (e : Execution)
      → IsFresh mine (record { now = now; event = event })
      → same_text e.token (some mine) ≡ false
      → same_text (next service limits s db key j now event e).token (some mine) ≡ false
  next-IsFresh mine event e f v = ground arith
