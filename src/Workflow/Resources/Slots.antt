-- ===== src/Workflow/Resources/Slots.antt =====
-- How many slots a resource has out.
use excelflow.Prelude.{
  ℕ, ◌+◌, ◌≤◌, ◌<◌, ◌≡◌, refl, Bool, true, ◌&&◌, not, List, [], ◌∷◌, String, arith, leb, str_eq,
  length, eq_iff, eq_refl, filter_by, count_by,
}
use mathlib.Core.Path.{subst}
use excelflow.Workflow.{ResourceLease, Schema, Database}
use excelflow.Workflow.Capacity.{Limits, runs, active_count, leases_of, is_active}
use excelflow.Workflow.Resources.{Slot, acquired, acquire, close, release, lease_of}

length-filter_by :
    {A : Type 0} (p : A → Bool) (xs : List A) → length (filter_by p xs) ≡ count_by p xs
length-filter_by p [] = refl
length-filter_by p (x ∷ xs) = ground (arith, length-filter_by p xs)

count-filter_by :
    {A : Type 0} (p q : A → Bool) (xs : List A)
    → count_by p (filter_by q xs) ≡ count_by (λ x. q x && p x) xs
count-filter_by p q [] = refl
count-filter_by p q (x ∷ xs) = ground (arith, count-filter_by p q xs)

count-unless :
    {A : Type 0} (q p : A → Bool) (xs : List A)
    → count_by q xs ≡ 0
    → count_by (λ x. not (q x) && p x) xs ≡ count_by p xs
count-unless q p [] h = refl
count-unless q p (x ∷ xs) h = ground (arith, count-unless q p xs)

count_both-le :
    {A : Type 0} (q p : A → Bool) (xs : List A) → count_by (λ x. q x && p x) xs ≤ count_by p xs
count_both-le q p [] = omega arith
count_both-le q p (x ∷ xs) = ground (arith, count_both-le q p xs)

module _ (s : Schema) where
  -- the leases that pass a test
  abbrev pub slots : (ResourceLease → Bool) → Database s → ℕ
  slots p db = count_by p (s.resource_leases.rows db.resource_leases)

  leases_of-slots :
      (resource : String) (p : ResourceLease → Bool) (db : Database s)
      → leases_of s db resource p ≡ slots (λ l. str_eq l.resource resource && p l) db
  unfolding leases_of
  leases_of-slots resource p db = rw (s.resource_leases.select_lem) (
      length-filter_by (λ (l : ResourceLease). str_eq l.resource resource && p l)
        (s.resource_leases.rows db.resource_leases))

  slots-release :
      (p q : ResourceLease → Bool) (db : Database s)
      → slots p (release s q db) ≡ slots (λ l. not (q l) && p l) db
  slots-release p q db = rw (s.resource_leases.rows-delete) (
      count-filter_by p (λ (l : ResourceLease). not (q l))
        (s.resource_leases.rows db.resource_leases))

  -- the tables after the leases that have ended are deleted
  abbrev pub swept : ℕ → Database s → Database s
  swept now db = release s (λ l. leb l.expires_at now) db

  abbrev taken : ℕ → Slot → Database s → Database s
  taken now slot db = record (swept now db) {
    resource_leases = s.resource_leases.insert (lease_of s now slot) (swept now db).resource_leases;
  }

  active_count-taken :
      (now : ℕ) (slot : Slot) (db : Database s)
      → active_count s (taken now slot db) (runs now) (λ o. true)
        ≡ active_count s (swept now db) (runs now) (λ o. true)
  unfolding active_count is_active
  active_count-taken now slot db = refl

  leases_of-taken :
      (now : ℕ) (slot : Slot) (db : Database s)
      → leases_of s (taken now slot db) slot.resource (λ l. true)
        ≡ leases_of s (swept now db) slot.resource (λ l. true) + 1
  leases_of-taken now slot db = ground (
    arith,
    eq_refl slot.resource,
    leases_of-slots slot.resource (λ l. true) (taken now slot db),
    leases_of-slots slot.resource (λ l. true) (swept now db),
    s.resource_leases.count-insert (λ l. str_eq l.resource slot.resource && true)
        (lease_of s now slot) (swept now db).resource_leases,
  )

  module _ (limits : Limits) (now : ℕ) (slot : Slot) (db : Database s) {db' : Database s}
      (granted : acquire s limits now slot db ≡ acquired db') where
    granted_under :
        (leases_of s (swept now db) slot.resource (λ l. true) < slot.maximum)
        × (taken now slot db ≡ db')
    unfolding acquire
    granted_under = ground arith

    -- A slot is granted only within the resource's maximum, itself included.
    pub acquire-le_maximum : leases_of s db' slot.resource (λ l. true) ≤ slot.maximum
    acquire-le_maximum =
        let (under, same) = granted_under in
        subst (λ d. leases_of s d slot.resource (λ l. true) ≤ slot.maximum) same
          (omega (arith, under, leases_of-taken now slot db))

    granted_under_running :
        slot.resource ≡ "interactive"
        → leases_of s (swept now db) slot.resource (λ l. true)
            + active_count s (swept now db) (runs now) (λ o. true)
          < limits.max_running
    unfolding acquire
    granted_under_running h = ground (arith, eq_iff slot.resource "interactive")

    -- An interactive slot is granted only while it and the running executions, counted together,
    -- stay within the limit that claims keep to.
    pub acquire-le_running :
        slot.resource ≡ "interactive"
        → leases_of s db' slot.resource (λ l. true) + active_count s db' (runs now) (λ o. true)
          ≤ limits.max_running
    acquire-le_running h =
        subst
          (λ d.
            leases_of s d slot.resource (λ l. true) + active_count s d (runs now) (λ o. true)
            ≤ limits.max_running)
          granted_under.1
          (omega (
            arith,
            granted_under_running h,
            leases_of-taken now slot db,
            active_count-taken now slot db,
          ))

    close-taken :
        (p : ResourceLease → Bool)
        → slots (λ l. str_eq l.token slot.token) db ≡ 0
        → slots p (close s slot (taken now slot db)) ≡ slots p (swept now db)
    unfolding close
    close-taken p fresh = ground (
      arith,
      eq_refl slot.token,
      slots-release p (λ l. str_eq l.token slot.token) (taken now slot db),
      s.resource_leases.count-insert (λ l. not (str_eq l.token slot.token) && p l)
          (lease_of s now slot) (swept now db).resource_leases,
      slots-release (λ l. str_eq l.token slot.token) (λ l. leb l.expires_at now) db,
      count_both-le (λ (l : ResourceLease). not (leb l.expires_at now))
          (λ l. str_eq l.token slot.token) (s.resource_leases.rows db.resource_leases),
      count-unless (λ (l : ResourceLease). str_eq l.token slot.token) p
          (s.resource_leases.rows (swept now db).resource_leases),
    )

    -- Closing gives back exactly the slot that was acquired: where no lease had its token, every
    -- resource then has as many leases under any test as if only the ended ones had been deleted.
    pub acquire-close :
        (resource : String) (p : ResourceLease → Bool)
        → slots (λ l. str_eq l.token slot.token) db ≡ 0
        → leases_of s (close s slot db') resource p ≡ leases_of s (swept now db) resource p
    acquire-close resource p fresh =
        subst (λ d. leases_of s (close s slot d) resource p ≡ leases_of s (swept now db) resource p)
          granted_under.1
          (ground (
            arith,
            leases_of-slots resource p (close s slot (taken now slot db)),
            leases_of-slots resource p (swept now db),
            close-taken (λ l. str_eq l.resource resource && p l) fresh,
          ))
