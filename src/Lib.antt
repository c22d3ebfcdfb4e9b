-- ===== src/Lib.antt =====
-- Skrepka: the core of an end-to-end encrypted messenger, the Rust crate under core/.
--
-- The core is one state machine. The shell hands it events, `update` changes the `Model` and returns
-- commands, and the shell performs them (storage, HTTP, timers) and hands their results back as
-- events. A user's message becomes an item of the outbox; the send loop encrypts the items for the
-- first recipient, posts them to the relay and, on an answer, pops them, charges them or backs off.
-- The poll loop fetches pages of encrypted blobs, decrypts and reads them, and files texts, acks and
-- profiles into the model. Every request carries a generation, so that a late answer can be told
-- from the one awaited. A failed read of storage latches the model, after which it must not write.
--
-- The files and the code they are about:
--   Base and below: lists, integers, text, results, and the ordered map of `BTreeMap`.
--   Crypto (Padding, Keys, Blob): core/src/crypto.rs. `Keys` has the identities and the signed
--     challenge, `Blob` has `encrypt` and `decrypt`, `Padding` has `padded_len`.
--   Phonemic (Tables, Spelling): core/src/phonemic.rs, the @p names of keys.
--   Domain: core/src/model.rs, the stored records, the outbox item and its expiry, the labels.
--   Protocol (Payloads, Parse): core/src/protocol.rs, the payloads as JSON values.
--   App: core/src/app.rs. `State` has the events, commands and the `Model` with the fields of the
--     source; `Guards` the small methods and the guarded writes; `Urls` the relay's address;
--     `Conversation` the ordered histories; `Loads` the startup; `User` (Navigation, Helpers,
--     Sending) the user's actions; `Auth`, `Polling` and `Outbox` (Numbers, Batch) the three network
--     loops; `Ingest` (Fold, Events, Acks) the reading of a page; `Update` the dispatch. A handler
--     `Event::X` is the function `on_x`, from a model to the new model and the list of its commands.
--     `View` is `view` with the types of model.rs that it fills.
--   Ffi: core/src/ffi.rs, what the shell calls.
--   App/Latch, Alignment, Batching, Retry, Generations, Startup, LoadOrder, Blocking, Dedup,
--     Senders, Acks, History, Frames, Fate (what becomes of the items of the outbox), Drain (the
--     send loop against a relay that takes every batch), Exhaust (the same loop without a relay),
--     Stopping (why a round takes no more), Broadcast (a saved profile), Cursor and Advance (when
--     the cursor is written and how far it moves), Delivery (from one user's outbox to another's
--     page), Tidy (the order and the sizes of the maps), Reach (the models that the core comes to),
--     Profiles, Receipts, Rows (the list of conversations), Storage (what the writes leave on disk,
--     and what a restart reads back), Requests (where the requests go and what they carry),
--     Crypto/Lengths, Laws, Layout, Sealing and RoundTrip, Protocol/Roundtrip, Phonemic/Syllables
--     and RoundTrip: the proofs, by what they are about.
--   Tests: a toy set of libraries, and runs of the theorems at concrete inputs.
--
-- Conventions. Text is a list of code points, and bytes a list of numbers. A machine integer keeps
-- its wrap or its saturation. A `HashSet` is a list without repetitions, with the order of its
-- iteration as a parameter; a `BTreeMap` is a list in the order of its keys. `Command::all` and
-- `and` are the concatenation of lists of commands. The crates that the core calls are arguments:
-- `Primitives` (curves, hash, cipher, compression, hex) and `Env` (JSON, URLs, base64, lowercase
-- letters outside ASCII, the order of a `HashSet`). The clock, the random bytes and the fresh id of
-- one call are the argument `World`, with one reading of the clock for each place that reads it, so
-- that two readings of one call may differ. `partition_point` is modelled as the first position
-- where its test fails. The decimal printer has fuel for twenty digits, as a `u64` needs no more.
--
-- `Crypto/Laws` states what is asked of the libraries for sealed messages to be opened. The bridge of
-- the crux crate is a parameter of Ffi, which does not say how it runs `update`.
--
-- In `App/Storage` the shell is taken to do the writes in the order of the commands, each with
-- success, and to answer the reads of a startup from what was written. The codecs of serde_json are
-- asked to read back what they wrote. The sets of known ids are left out of the comparison, since
-- they are rebuilt from the conversations in memory.
--
-- Not modelled: lib.rs and bin/codegen.rs, which are glue; the wiping of secrets from memory; the
-- shell under apple/ and the relay.
pub mod Base
pub mod Crypto
pub mod Phonemic
pub mod Domain
pub mod Protocol
pub mod App
pub mod Ffi
pub mod Tests
