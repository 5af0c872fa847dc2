-- ===== src/Setup.antt =====
-- What is set up on the chain for an extension: tools/pkg/fccutils/extension.go, governance.go with the
-- command tools/cmd/set-governance, and the versions of registration.go's `AddTeeVersion` with the
-- command tools/cmd/allow-tee-version.
pub mod Version
pub mod Governance
pub mod Extend
pub mod Commands
mod Tests
