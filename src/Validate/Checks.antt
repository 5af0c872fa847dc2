-- ===== src/Validate/Checks.antt =====
-- The checks of tools/pkg/validate/checks.go, by deployment step. A check is a function that gives
-- its result; a `Register…Checks` function appends the results to the report in the source's order.
mod Common
pub mod Deploy
pub mod Register
pub mod Services
pub mod TeeVersion
pub mod TeeMachine
pub mod Test
mod Shape
pub mod Laws
unfoldable pub use Common.*
pub use Shape.*
