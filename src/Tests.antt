-- ===== src/Tests.antt =====
-- Runs of the theorems at concrete inputs.
mod Setup
mod Send
mod Relay
mod Data
mod State
mod Page
mod Shell
mod Crypto
mod Ingest
mod Codecs
mod Storage
