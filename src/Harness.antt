-- ===== src/Harness.antt =====
-- scripts/verify-compose.py and scripts/verify-observability.py: what they do to a stack that they own.
pub mod World
pub mod Exec
pub mod Values
pub mod Script
pub mod Answers
pub mod Keeps
pub mod Own
pub mod Rights
pub mod Scenario
pub mod Compose
pub mod Observability
