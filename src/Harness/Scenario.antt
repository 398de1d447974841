-- ===== src/Harness/Scenario.antt =====
-- The acceptance scenarios of scripts/verify-compose.py, one module each.
pub mod LoginAttempts
pub mod SessionAuthentication
pub mod SessionIssuer
pub mod LoginCode
pub mod Logout
pub mod LoginAccounts
pub mod BlogReader
pub mod UserProfile
pub mod VoucherQuery
pub mod FollowerPublication
pub mod FollowCommand
pub mod FollowQuery
pub mod ShopType
pub mod CheckIn
pub mod Restores
pub mod GivesBack
pub mod Confinement
