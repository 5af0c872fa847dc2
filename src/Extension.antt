-- ===== src/Extension.antt =====
-- The Go extension server: go/internal/extension/extension.go and utils.go, go/internal/config and
-- go/pkg/types. A method on `*Extension` returns the new record beside its result. What the handlers
-- call outside the repository (the action and its fixed data, JSON and ABI codecs, hashing) is the
-- record `Codec`. A Go `int` is its 64-bit pattern.
mod Types
mod Handlers
pub mod Laws
pub mod Locking
mod Tests
pub use Types.*
unfoldable pub use Handlers.*
