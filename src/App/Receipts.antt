-- ===== src/App/Receipts.antt =====
-- What an ack marks.
use skrepka.Base.{
  ◌≡◌, refl, ◌≢◌, inl, inr, false, ◌&&◌, ◌||◌, some, List, [], ◌∷◌, arith, Text, ℤ, same_text_ne,
  Option-cases,
}
use skrepka.Base.Map
use skrepka.Base.Map.{get-insert}
use skrepka.Domain.{StoredMessage}
use skrepka.App.State.{IdSet}
use skrepka.App.Guards.{or_empty}
use skrepka.App.Conversation.{contains}
use skrepka.App.Ingest.{
  PageFold, PendingAck, apply_ack, mark_messages, mark_contact, mark_delivered, is_stale,
}

-- The messages of a conversation after an ack: each as it was, and delivered if it was or if it is
-- our own and its id is among those of the ack.
abbrev pub Marked : IdSet → List StoredMessage → List StoredMessage → Type 0
Marked ids [] after = after ≡ []
Marked ids (m ∷ ms) [] = ⊥
Marked ids (m ∷ ms) (n ∷ ns) =
    (n ≡ record m { delivered = m.delivered || (m.outgoing && contains m.id ids) })
    × Marked ids ms ns

mark_delivered-Marked :
    (ids : IdSet) (ms : List StoredMessage) → Marked ids ms (mark_delivered ids ms)
unfolding mark_delivered
mark_delivered-Marked ids [] = refl
mark_delivered-Marked ids (m ∷ ms) = (ground arith, mark_delivered-Marked ids ms)

-- An ack that is not stale marks the messages that the user sent to its sender and that it names,
-- and no others: the conversations with everybody else stay as they were.
pub apply_ack-Marked :
    (now : ℤ) (sender other : Text) (pending : PendingAck) (g : PageFold)
    → is_stale now pending (Map.get sender g.model.contacts) ≡ false
    → sender ≢ other
    → let after = (apply_ack now sender pending g).model.messages in
      Marked pending.ids
        (or_empty (Map.get sender g.model.messages))
        (or_empty (Map.get sender after))
      × (Map.get other after ≡ Map.get other g.model.messages)
unfolding apply_ack mark_messages mark_contact
apply_ack-Marked now sender other pending g fresh apart =
    let after = (apply_ack now sender pending g).model.messages in
    let before = g.model.messages in
    elim (Option-cases (Map.get sender before)) [
      | inl nothing ↦
          let same : after ≡ before = ground (arith, fresh, nothing) in
          rw (same, nothing) (refl, refl)
      | inr (convo, found) ↦
          let marked = mark_delivered pending.ids convo in
          let new : after ≡ Map.insert sender marked before = ground (arith, fresh, found) in
          let mine : Map.get sender (Map.insert sender marked before) ≡ some marked =
            ground (arith, get-insert sender sender marked before) in
          let theirs : Map.get other (Map.insert sender marked before) ≡ Map.get other before =
            ground (arith, get-insert other sender marked before, same_text_ne apart) in
          rw (new, mine, found) (mark_delivered-Marked pending.ids convo, theirs)
    ]
