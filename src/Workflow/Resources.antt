-- ===== src/Workflow/Resources.antt =====
-- src/excel_auditor/workflow/capacity.py: `ResourceLease`, the slots of a shared resource. Its
-- background thread calls `heartbeat` until it is stopped or has lost the lease.
pub mod Slots
use excelflow.Prelude.{
  ℕ, ◌+◌, Bool, true, false, ◌&&◌, not, Option, none, some, String, ltb, leb, str_eq, length, ◌==◌,
  if◌then◌else◌,
}
use excelflow.Workflow.{ResourceLease, Schema, Database}
use excelflow.Workflow.Capacity.{Limits, runs, active_count, leases_of}

-- The attributes of a `ResourceLease` object.
pub record Slot : Type 0 where
  pub resource : String
  pub maximum : ℕ
  pub seconds : ℕ
  pub token : String

-- `acquired`, or the error of a full server or of a full resource, whose transaction is rolled back
pub data Acquired (A : Type 0) : Type 0 where
  acquired : A → Acquired A
  server_busy slots_full : Acquired A

abbrev pub is_interactive : Slot → Bool
is_interactive slot = str_eq slot.resource "interactive"

module _ (s : Schema) where
  -- `delete(resource_leases).where(...)`
  abbrev pub release : (ResourceLease → Bool) → Database s → Database s
  release p db = record db { resource_leases = s.resource_leases.delete p db.resource_leases }

  abbrev pub lease_of : ℕ → Slot → ResourceLease
  lease_of now slot = record {
    token = slot.token;
    resource = slot.resource;
    expires_at = now + slot.seconds;
  }

  unfoldable pub acquire : Limits → ℕ → Slot → Database s → Acquired (Database s)
  acquire limits now slot db =
      let db' = release (λ l. leb l.expires_at now) db in
      let count = leases_of s db' slot.resource (λ l. true) in
      let running = active_count s db' (runs now) (λ o. true) in
      if is_interactive slot && leb limits.max_running (count + running)
      then server_busy
      else if leb slot.maximum count
      then slots_full
      else acquired (record db' {
        resource_leases = s.resource_leases.insert (lease_of now slot) db'.resource_leases;
      })

  -- One round of `_heartbeat`: whether the lease is still there, and its renewal.
  pub heartbeat : ℕ → Slot → Database s → Bool × Database s
  heartbeat now slot db =
      let (rows, changed) =
        s.resource_leases.update (λ l. str_eq l.token slot.token && ltb now l.expires_at)
          (λ l. record l { expires_at = now + slot.seconds }) db.resource_leases in
      (changed == 1, record db { resource_leases = rows })

  pub close : Slot → Database s → Database s
  close slot db = release (λ l. str_eq l.token slot.token) db
