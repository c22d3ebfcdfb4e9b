-- ===== src/App/User/Sending.antt =====
-- `send_text`
use skrepka.Base.{
  true, false, ◌&&◌, not, none, some, [], ◌∷◌, ◌++◌, Text, codes, text_len, leb, ltb, if◌then◌else◌,
}
use skrepka.Base.Map
use skrepka.Base.Map.{Map}
use skrepka.Domain.{new_contact, new_item, profile_item}
use skrepka.Phonemic.{trim}
use skrepka.Protocol.{text, serialize_payload, max_body_len}
use skrepka.App.State.{
  Model, Step, Env, World, render, emit, start_flush, max_contacts, send_text_at,
}
use skrepka.App.Guards.{persist_contacts, persist_outbox, persist_messages, fail, or_empty}
use skrepka.App.Outbox.{and_then}
use skrepka.App.Conversation.{insert_sorted, trim_history}
use skrepka.App.User.Navigation.{clear_error}
use skrepka.App.User.Helpers.{is_some, is_blocked, is_empty, own_payload}

module _ (env : Env) (w : World) where
  -- `send_text` once its checks have passed.
  unfoldable pub post_text : Text → Text → Model → Step
  unfolding new_item persist_messages persist_contacts persist_outbox
  post_text peer body m =
      let ts = w.now send_text_at in
      let was_new = not (is_some (Map.get peer m.contacts)) in
      let convo = trim_history (
        insert_sorted (or_empty (Map.get peer m.messages))
          (record { id = w.uuid; body = body; ts = ts; outgoing = true; delivered = false })) in
      let text_json = serialize_payload env.render_json (text w.uuid body) ts in
      let profile_json = serialize_payload env.render_json (own_payload m.profile) ts in
      and_then
        (and_then
          (and_then
            (persist_messages env peer (record m {
              compose = [];
              messages = Map.insert peer convo m.messages;
              contacts =
                  if was_new
                  then Map.insert peer (new_contact peer [] ts) m.contacts
                  else m.contacts;
              outbox =
                  m.outbox
                  ++ (new_item peer text_json
                      ∷ (if was_new then profile_item peer profile_json ∷ [] else []));
            }))
            (persist_contacts env))
          (persist_outbox env))
        (λ m'. (m', emit start_flush ∷ render ∷ []))

  -- `send_text` with a chat open.
  unfoldable pub send_text_to : Text → Model → Step
  send_text_to peer m =
      let cleared = clear_error m in
      let body = trim m.compose in
      if is_blocked (Map.get peer m.contacts)
      then (fail (codes "cannot send to a blocked contact") cleared, render ∷ [])
      else if is_empty body
      then (cleared, render ∷ [])
      else if ltb max_body_len (text_len body)
      then (fail (codes "message too long") cleared, render ∷ [])
      else if not (is_some (Map.get peer m.contacts)) && leb max_contacts (Map.size m.contacts)
      then (fail (codes "contact list is full") cleared, render ∷ [])
      else post_text peer body cleared

  -- `fn send_text`
  unfoldable pub on_send_text : Model → Step
  on_send_text m = elim m.active_peer [ none ↦ (m, render ∷ []) | some peer ↦ send_text_to peer m ]
