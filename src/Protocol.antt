-- ===== src/Protocol.antt =====
-- The wire contract: pkg/protocol.
mod Enums
pub mod Errors
mod Models
mod Messages
pub mod Transitions
pub mod Iso8601
pub mod Validation
unfoldable pub use Enums.*
unfoldable pub use Models.*
unfoldable pub use Messages.*
