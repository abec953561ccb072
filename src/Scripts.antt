-- ===== src/Scripts.antt =====
-- The command-line scripts under scripts/.
pub mod Retry
pub mod Format
pub mod VerifyGoal
pub mod Audit
pub mod EnvFile
pub mod Secrets
pub mod Calls
pub mod CtFlow
pub mod Receipt
pub mod Paths
pub mod ContentType
pub mod Server
pub mod Bench
