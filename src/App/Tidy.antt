-- ===== src/App/Tidy.antt =====
-- The stored conversations and contacts stay in good order.
pub mod Maps
pub mod Histories
pub mod Page
pub mod Poll
pub mod Updates
pub mod Sizes
