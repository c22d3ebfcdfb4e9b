-- ===== src/App/User.antt =====
-- Navigation and the user's actions.
mod Navigation
mod Helpers
mod Sending
use skrepka.Base.{
  ℕ, zero, suc, Bool, true, false, ◌&&◌, not, Option, none, some, List, [], ◌∷◌, ◌++◌, Text, codes,
  same_text, text_len, length, drop, leb, ltb, if◌then◌else◌, Result, ok, err, ℤ, pos,
}
use skrepka.Base.Map
use skrepka.Base.Map.{Map}
use skrepka.Domain.{
  Contact, new_contact, OutboxItem, new_item, profile_item, is_profile, OwnProfile,
}
use skrepka.Phonemic.{try_parse_pubkey, trim}
use skrepka.Protocol.{
  Payload, text, profile, serialize_payload, max_body_len, max_display_name_len, max_bio_len,
  max_photo_len,
}
use skrepka.App.State.{
  Model, Step, Env, World, Cmd, render, kv_set, kv_delete, emit, Event, saved, connect, start_flush,
  Page, conversations, chat, add_contact_page, settings_page, edit_profile, offline, k_settings,
  k_cursor, max_contacts, add_contact_at, save_profile_at, send_text_at, Codec,
}
use skrepka.App.Guards.{
  refuse_write, abandon_poll, abandon_flush, detach_in_flight, in_flight_count, persist_contacts,
  persist_profile, persist_outbox, persist_messages, persist_seen_ids, fail, k_messages, or_empty,
}
use skrepka.App.Urls.{normalize_server_url}
use skrepka.App.Outbox.{and_then, and_render}
use skrepka.App.Conversation.{insert_sorted, trim_history}
use skrepka.Domain.{StoredMessage}
unfoldable pub use Navigation.*
unfoldable pub use Helpers.*
unfoldable pub use Sending.*

module _ (env : Env) (w : World) where
  unfoldable pub on_set_server_url : Text → Model → Step
  unfolding abandon_poll abandon_flush refuse_write
  on_set_server_url input m = elim (normalize_server_url env input) [
    | none ↦ (fail (codes "server URL must be an http(s) address") m, render ∷ [])
    | some url ↦
        let moved = record m {
          error = none;
          settings = record { server_url = url };
          token = none;
          conn = offline;
          send_batch_budget = none;
          cursor = pos 0;
        } in
        let reset = record (abandon_flush (abandon_poll moved)) {
          flush_paused_until = pos 0;
          send_retries = 0;
          poll_retries = 0;
        } in
        let (m', refused) = refuse_write reset in
        (
          m',
          (if refused
                then []
                else kv_set k_settings (env.settings_json.encode m'.settings) saved
                  ∷ kv_set k_cursor (env.cursor_json.encode (pos 0)) saved
                  ∷ [])
              ++ (emit connect ∷ render ∷ []),
        )
  ]

  unfoldable pub on_add_contact : Text → Text → Model → Step
  unfolding persist_contacts
  on_add_contact input nickname m =
      let cleared = clear_error m in
      if ltb max_display_name_len (text_len nickname)
      then (fail (codes "nickname too long") cleared, render ∷ [])
      else elim (try_parse_pubkey env.prims env.wide input) [
        | none ↦ (fail (codes "invalid public key") cleared, render ∷ [])
        | some hex ↦
            if same_text hex m.my_pubkey
            then (fail (codes "that's your own key") cleared, render ∷ [])
            else and_render (
                persist_contacts env (record cleared {
                  contacts = upsert hex nickname (w.now add_contact_at) m.contacts;
                  page = conversations;
                }))
      ]

  unfoldable pub on_set_blocked : Text → Bool → Model → Step
  unfolding detach_in_flight persist_contacts persist_outbox
  on_set_blocked peer blocked m =
      let flagged = record m { contacts = set_flag peer blocked m.contacts; error = none } in
      if blocked
      then and_render (
          and_then
            (persist_contacts env (
              detach_in_flight peer
                (record flagged { outbox = retain_others peer flagged.outbox })))
            (persist_outbox env))
      else and_render (persist_contacts env flagged)

  -- The open chat with a deleted peer is closed.
  abbrev pub leave_chat : Text → Model → Model
  leave_chat peer m = elim m.active_peer [
    | none ↦ m
    | some active ↦
        if same_text active peer then record m { active_peer = none; page = conversations } else m
  ]

  unfoldable pub on_delete_contact : Text → Model → Step
  unfolding detach_in_flight persist_contacts k_messages persist_outbox persist_seen_ids
  on_delete_contact peer m =
      let forgotten = record m {
        contacts = Map.remove peer m.contacts;
        messages = Map.remove peer m.messages;
        seen_ids = Map.remove peer m.seen_ids;
        outbox = retain_others peer m.outbox;
      } in
      let left = clear_error (leave_chat peer (detach_in_flight peer forgotten)) in
      and_render (
        and_then
          (and_then
            (and_then (persist_contacts env left)
              (λ m'. (m', kv_delete (k_messages peer) saved ∷ [])))
            (persist_outbox env))
          (persist_seen_ids env))

  unfoldable pub on_save_profile : Text → Text → Option Text → Model → Step
  unfolding in_flight_count persist_profile persist_outbox
  on_save_profile display_name bio photo m =
      let cleared = clear_error m in
      let own : OwnProfile = record { display_name = display_name; bio = bio; photo = photo } in
      let payload_json =
        serialize_payload env.render_json (own_payload own) (w.now save_profile_at) in
      if ltb max_display_name_len (length display_name)
      then (fail (codes "display name too long") cleared, render ∷ [])
      else if ltb max_bio_len (length bio)
      then (fail (codes "bio too long") cleared, render ∷ [])
      else if too_large photo
      then (fail (codes "photo too large") cleared, render ∷ [])
      else if not_base64 env.is_base64 photo
      then (fail (codes "photo is not valid base64") cleared, render ∷ [])
      else and_then
          (and_then
            (persist_profile env (record cleared {
              profile = own;
              page = conversations;
              outbox =
                  broadcast (in_flight_count m) payload_json (unblocked (Map.values m.contacts))
                    m.outbox;
            }))
            (persist_outbox env))
          (λ m'. (m', emit start_flush ∷ render ∷ []))
