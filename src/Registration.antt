-- ===== src/Registration.antt =====
-- The registration of a TEE machine: tools/pkg/fccutils/registration.go, policy_consistency.go and the
-- polling of tee_calls.go. Availability has the check of
-- `GetFTDCAvailabilityCheckResult`, and Promotion what the step that promotes a machine attains.
pub mod Policy
pub mod Polling
pub mod Chain
pub mod Node
pub mod Grows
pub mod Resume
pub mod Gate
pub mod Safety
pub mod Info
pub mod Availability
pub mod Promotion
mod Tests
