-- ===== src/App/Fate.antt =====
-- What becomes of the items of the outbox.
pub mod Lists
pub mod Sends
pub mod Growth
pub mod Updates
