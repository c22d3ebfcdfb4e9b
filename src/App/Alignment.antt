-- ===== src/App/Alignment.antt =====
-- The batch in flight is the head of the outbox, so that a result pops what was sent.
pub mod Queue
pub mod Send
pub mod Actions
pub mod Page
pub mod Updates
