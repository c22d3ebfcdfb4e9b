-- ===== src/App/Latch/Actions.antt =====
-- The user's actions under the latch.
use skrepka.Base.{◌≡◌, Bool, true, Option, [], ◌∷◌, arith, Text}
use skrepka.App.State.{Model, Env, World, render, saved, kv_delete}
use skrepka.App.Guards.{
  persist_contacts, persist_outbox, persist_profile, persist_messages, persist_seen_ids, k_messages,
}
use skrepka.App.User.{
  on_set_server_url, on_add_contact, on_set_blocked, on_delete_contact, on_save_profile,
  on_send_text, send_text_to, post_text,
}
use skrepka.App.Latch.{Latched}

module _ (env : Env) (w : World) where
  pub on_set_server_url-Latched :
      (url : Text) (m : Model) → m.kv_load_failed ≡ true → Latched (on_set_server_url env w url m)
  unfolding on_set_server_url
  on_set_server_url-Latched url m h = ground arith

  pub on_add_contact-Latched :
      (input nickname : Text) (m : Model)
      → m.kv_load_failed ≡ true
      → Latched (on_add_contact env w input nickname m)
  unfolding on_add_contact persist_contacts
  on_add_contact-Latched input nickname m h = ground arith

  pub on_set_blocked-Latched :
      (peer : Text) (blocked : Bool) (m : Model)
      → m.kv_load_failed ≡ true
      → Latched (on_set_blocked env w peer blocked m)
  unfolding on_set_blocked persist_contacts persist_outbox
  on_set_blocked-Latched peer blocked m h = ground arith

  pub on_save_profile-Latched :
      (name bio : Text) (photo : Option Text) (m : Model)
      → m.kv_load_failed ≡ true
      → Latched (on_save_profile env w name bio photo m)
  unfolding on_save_profile persist_profile persist_outbox
  on_save_profile-Latched name bio photo m h = ground arith

  pub on_send_text-Latched : (m : Model) → m.kv_load_failed ≡ true → Latched (on_send_text env w m)
  unfolding on_send_text send_text_to post_text persist_messages persist_contacts persist_outbox
  on_send_text-Latched m h = ground arith

  -- Under the latch the deletion of a contact deletes its stored conversation, and writes nothing
  -- else.
  pub on_delete_contact_commands :
      (peer : Text) (m : Model)
      → m.kv_load_failed ≡ true
      → (on_delete_contact env w peer m).1 ≡ kv_delete (k_messages peer) saved ∷ render ∷ []
  unfolding on_delete_contact persist_contacts persist_outbox persist_seen_ids
  on_delete_contact_commands peer m h = ground arith
