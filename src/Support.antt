-- ===== src/Support.antt =====
-- What the commands share: tools/pkg/support/support.go, the decoding of reverts of
-- tools/pkg/fccutils/revert.go and diag.go, and the keys and ports that come from the environment.
pub mod Revert
pub mod Tx
pub mod Addresses
pub mod Keys
mod Tests
