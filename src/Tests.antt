-- ===== src/Tests.antt =====
-- The gates on concrete evidence, and the theorems at such inputs.
mod Ids
mod Fixture
mod Ledger
mod Summary
mod Aggregate
mod Privacy
mod Trials
mod Harness
mod Scenarios
mod Owned
