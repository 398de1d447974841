-- ===== src/FlashSale.antt =====
-- scripts/run-flash-sale-baseline.py: finite flash-sale cohorts and the evidence that they leave.
pub mod Ids
pub mod Fixture
pub mod Evidence
pub mod Witness
pub mod Ledger
pub mod Durable
pub mod Summary
pub mod Aggregate
pub mod Privacy
pub mod Owned
