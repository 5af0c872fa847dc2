-- ===== src/Validate/Checks/Laws.antt =====
-- What holds of the checks.
pub mod Forms
pub mod DeployForms
pub mod Agreement
pub mod Written
pub use Forms.*
pub use DeployForms.*
pub use Agreement.*
