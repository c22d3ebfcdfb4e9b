-- ===== src/Protocol.antt =====
-- core/src/protocol.rs: the payloads inside a blob.
mod Payloads
mod Parse
unfoldable pub use Payloads.*
unfoldable pub use Parse.*
pub mod Roundtrip
