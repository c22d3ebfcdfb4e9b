-- ===== src/App.antt =====
-- core/src/app.rs
mod State
mod Guards
mod Urls
mod Conversation
mod Outbox
mod Loads
mod User
mod Auth
mod Polling
mod Ingest
mod Update
mod View
pub mod Frames
pub mod Latch
pub mod Batching
pub mod Alignment
pub mod History
pub mod Retry
pub mod Fate
pub mod Drain
pub mod Rows
pub mod Receipts
pub mod Stopping
pub mod Profiles
pub mod Reach
pub mod Tidy
pub mod Exhaust
pub mod Delivery
pub mod Advance
pub mod Cursor
pub mod Broadcast
pub mod LoadOrder
pub mod Dedup
pub mod Acks
pub mod Senders
pub mod Startup
pub mod Blocking
pub mod Generations
pub mod Storage
pub mod Requests
unfoldable pub use State.*
unfoldable pub use Guards.*
unfoldable pub use Urls.*
unfoldable pub use Conversation.*
unfoldable pub use Outbox.*
unfoldable pub use Loads.*
unfoldable pub use User.*
unfoldable pub use Auth.*
unfoldable pub use Polling.*
unfoldable pub use Ingest.*
unfoldable pub use Update.*
unfoldable pub use View.*
