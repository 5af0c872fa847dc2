-- ===== src/Validate.antt =====
-- The deployment checks: tools/pkg/validate and the command tools/cmd/verify-deploy, which runs them
-- and prints the report.
pub mod Report
pub mod EnvFile
pub mod Funds
pub mod Checks
pub mod Command
mod Tests
