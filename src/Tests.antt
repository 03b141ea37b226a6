-- ===== src/Tests.antt =====
-- Runs of the modelled code on concrete tables and records.
mod Worker
mod Executions
mod Products
mod Audit
mod Pairing
mod Catalog
mod Store
mod Spill
mod Auth
mod Records
