-- ===== src/Commands.antt =====
-- The commands of tools/cmd and go/cmd that put the parts together.
mod Tests
pub mod Audit
pub mod Deploy
pub mod RegisterExtension
pub mod QueryTee
pub mod RegisterTee
pub mod Start
