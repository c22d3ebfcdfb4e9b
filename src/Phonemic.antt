-- ===== src/Phonemic.antt =====
-- core/src/phonemic.rs: the `@p` spelling of a public key.
mod Tables
mod Spelling
pub mod Syllables
pub mod RoundTrip
unfoldable pub use Tables.*
unfoldable pub use Spelling.*
