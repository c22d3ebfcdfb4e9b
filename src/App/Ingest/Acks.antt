-- ===== src/App/Ingest/Acks.antt =====
-- The acks received, applied after the loop, and the acks owed, queued.
use skrepka.Base.{
  Bool, true, false, Option, none, some, List, [], ◌∷◌, ◌++◌, Text, if◌then◌else◌, ℤ, ltb_ℤ, min_ℤ,
}
use skrepka.Base.Map
use skrepka.Base.Map.{Map}
use skrepka.Domain.{Contact, new_item, OutboxItem}
use skrepka.Protocol.{delivery_ack, serialize_payload, max_ack_ids}
use skrepka.App.State.{Env}
use skrepka.App.Conversation.{set_insert}
use skrepka.App.Ingest.Fold.{PageFold, PendingAck, chunks, mark_delivered, marks_any}

module _ (now : ℤ) where
  abbrev pub is_stale : PendingAck → Option Contact → Bool
  is_stale pending none = false
  is_stale pending (some c) = ltb_ℤ pending.ts c.last_ack_ts

  unfoldable pub mark_contact : Text → PendingAck → PageFold → PageFold
  mark_contact sender pending g = elim (Map.get sender g.model.contacts) [
    | none ↦ g
    | some c ↦ record g {
      model = record (g.model) {
        contacts =
            Map.insert sender (record c { last_ack_ts = min_ℤ pending.ts now }) g.model.contacts;
      };
      contacts_dirty = true;
    }
  ]

  unfoldable pub mark_messages : Text → PendingAck → PageFold → PageFold
  mark_messages sender pending g = elim (Map.get sender g.model.messages) [
    | none ↦ g
    | some convo ↦ record g {
      model = record (g.model) {
        messages = Map.insert sender (mark_delivered pending.ids convo) g.model.messages;
      };
      touched = if marks_any pending.ids convo then set_insert sender g.touched else g.touched;
    }
  ]

  unfoldable pub apply_ack : Text → PendingAck → PageFold → PageFold
  apply_ack sender pending g =
      if is_stale pending (Map.get sender g.model.contacts)
      then g
      else mark_messages sender pending (mark_contact sender pending g)

  unfoldable pub apply_acks : Map PendingAck → PageFold → PageFold
  apply_acks [] g = g
  apply_acks ((sender, pending) ∷ rest) g = apply_acks rest (apply_ack sender pending g)

-- The acks owed to one sender, in chunks.
unfoldable pub ack_items : Env → ℤ → Text → List (List Text) → List OutboxItem
unfolding new_item
ack_items env ack_ts sender [] = []
ack_items env ack_ts sender (batch ∷ batches) =
    new_item sender (serialize_payload env.render_json (delivery_ack batch) ack_ts)
    ∷ ack_items env ack_ts sender batches

unfoldable pub queue_acks : Env → ℤ → Map (List Text) → PageFold → PageFold
queue_acks env ack_ts [] g = g
queue_acks env ack_ts ((sender, ids) ∷ rest) g = queue_acks env ack_ts rest (record g {
  model = record (g.model) {
    outbox = g.model.outbox ++ ack_items env ack_ts sender (chunks max_ack_ids ids);
  };
  outbox_dirty = true;
})
