-- ===== src/Extension/Laws.antt =====
-- What the handlers do to the server's state and what they answer, against an abstract view of an
-- action: the effect that it asks for.
pub mod Effects
pub mod Replies
pub mod Runs
pub mod Farewells
pub use Effects.*
pub use Replies.*
pub use Runs.*
pub use Farewells.*
