-- ===== src/Extension/Locking.antt =====
-- Concurrent requests of extension.go: `net/http` runs each handler in a goroutine of its own, and
-- the RWMutex `mu` guards the fields of `Extension`. Every statement between Lock and Unlock, and
-- every field that `stateHandler` reads, is a step of its own, so all interleavings are covered.
pub mod Steps
pub mod Invariant
pub mod Theorems
pub mod Own
pub mod Unique
pub use Steps.*
pub use Theorems.*
