-- ===== src/Instructions.antt =====
-- Instructions to the extension: tools/pkg/utils/instructions.go, and the end-to-end test of
-- tools/cmd/run-test/main.go.
pub mod Send
pub mod Verify
mod Tests
