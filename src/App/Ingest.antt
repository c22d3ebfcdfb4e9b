-- ===== src/App/Ingest.antt =====
-- `ingest_poll`: a poll page decrypted and folded into the model.
mod Fold
mod Events
mod Acks
use skrepka.Base.{
  ℕ, zero, suc, ◌+◌, ◌-◌, ◌*◌, ◌/◌, Bool, true, false, ◌&&◌, ◌||◌, not, Option, none, some, List,
  [], ◌∷◌, ◌++◌, Text, codes, text_len, same_text, length, take, leb, ltb, ◌==◌, if◌then◌else◌,
  Result, ok, err, ℤ, pos, leb_ℤ, ltb_ℤ, min_ℤ, max_ℤ, saturating_add,
}
use skrepka.Base.Map
use skrepka.Base.Map.{Map}
use skrepka.Crypto.{Identity, decrypt, max_blob_len}
use skrepka.Domain.{Contact, new_contact, StoredMessage, new_item, profile_item, OutboxItem}
use skrepka.Protocol.{
  Payload, text, delivery_ack, profile, ParsedPayload, parse_payload, serialize_payload,
  max_ack_ids,
}
use skrepka.App.State.{
  Model, Step, Env, World, Cmd, emit, start_flush, IdSet, PollResp, max_contacts, page_cursor_at,
  page_start, page_acks_at,
}
use skrepka.App.Guards.{
  identity, persist_messages, persist_seen_ids, persist_contacts, persist_outbox, fail, or_empty,
}
use skrepka.App.Outbox.{and_then}
use skrepka.App.Conversation.{set_insert, contains, extend, ids_of, insert_sorted, trim_history}
use skrepka.App.User.{is_blocked, is_some, own_payload}
unfoldable pub use Fold.*
unfoldable pub use Events.*
unfoldable pub use Acks.*

unfoldable pub persist_touched : Env → List Text → Model → Step
unfolding persist_messages
persist_touched env [] m = (m, [])
persist_touched env (peer ∷ peers) m =
    and_then (persist_messages env peer m) (persist_touched env peers)

abbrev pub when : Bool → (Model → Step) → Model → Step
when true f m = f m
when false f m = (m, [])

-- `touched_convos.is_empty()`
abbrev pub any_touched : IdSet → Bool
any_touched [] = false
any_touched (x ∷ xs) = true

unfoldable pub persist_page : Env → PageFold → Step
unfolding persist_seen_ids persist_contacts persist_outbox
persist_page env g =
    and_then
      (and_then
        (and_then
          (and_then (persist_touched env (env.hash_order g.touched) g.model)
            (when (any_touched g.touched) (persist_seen_ids env)))
          (when g.contacts_dirty (persist_contacts env)))
        (when g.outbox_dirty (persist_outbox env)))
      (λ m. (m, emit start_flush ∷ []))

abbrev no_events : List Text → Bool
no_events [] = true
no_events (ev ∷ evs) = false

abbrev pub open_page : Model → PageFold
open_page m = record {
  model = m;
  touched = [];
  contacts_dirty = false;
  outbox_dirty = false;
  ack_targets = [];
  pending_acks = [];
  budget = max_poll_total_bytes;
  events_processed = 0;
  events_stored = 0;
}

module _ (env : Env) (w : World) where
  -- The cursor that a page moves the model to.
  unfoldable pub adopt_cursor : PollResp → Model → Model
  adopt_cursor page m =
      let clamped = min_ℤ page.cursor (saturating_add (w.now page_cursor_at) (pos 60_000)) in
      if not (no_events page.events) && ltb_ℤ m.cursor clamped
      then record m { cursor = clamped }
      else m

  -- The loop, the deferred acks and the acks queued.
  unfoldable pub fold_page : Identity → ℤ → PollResp → Model → PageFold
  fold_page id prev_cursor page m =
      let read = ingest_events env (w.now page_start) prev_cursor id page.events (open_page m) in
      let acked = apply_acks (w.now page_start) read.pending_acks read in
      queue_acks env (w.now page_acks_at) acked.ack_targets acked

  unfoldable pub ingest_poll : PollResp → Model → Step
  ingest_poll page m =
      let advanced = adopt_cursor page m in
      if m.kv_load_failed then (m, []) else elim (identity env advanced) [
        | none ↦ (advanced, [])
        | some id ↦ persist_page env (fold_page id m.cursor page advanced)
      ]
