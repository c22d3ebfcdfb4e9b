-- ===== src/Crypto.antt =====
-- core/src/crypto.rs: identities, the padding of a blob, and its sealing and opening.
-- The curve, hash, cipher, compressor and hex libraries are the parameter `Primitives`.
mod Padding
mod Keys
mod Blob
pub mod Lengths
pub mod Layout
pub mod Laws
pub mod Sealing
pub mod RoundTrip
unfoldable pub use Padding.*
unfoldable pub use Keys.*
unfoldable pub use Blob.*
