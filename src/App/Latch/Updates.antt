-- ===== src/App/Latch/Updates.antt =====
-- Every event under the latch.
use skrepka.Base.{◌≡◌, refl, Bool, true, false, List, [], ◌∷◌, arith, Text, ok, err}
use skrepka.App.State.{
  Model, Env, World, Event, identity_loaded, send_text, add_contact, set_blocked, delete_contact,
  save_profile, set_server_url, loaded_settings, loaded_contacts, saved, saved_cursor, authenticate,
  poll, start_flush, flush_watchdog, challenge_result, verify_result, poll_result, send_result,
  KvData,
}
use skrepka.App.Guards.{startup_done, backoff_poll}
use skrepka.App.Loads.{
  on_loaded_settings, on_loaded_profile, on_loaded_contacts, on_loaded_cursor, on_loaded_outbox,
  on_loaded_seen_ids, on_loaded_messages, on_saved, on_saved_cursor, load_conversations,
}
use skrepka.App.User.{on_show_conversations, show_page, on_open_chat, on_back, on_compose_changed}
use skrepka.App.Auth.{on_connect, on_auth_watchdog}
use skrepka.App.Polling.{on_poll_watchdog}
use skrepka.App.Update.{update}
use skrepka.App.Latch.{Latched, NoWrites, NoWrites-append, startup_done-Latched}
use skrepka.App.Latch.Send.{
  flush_next-Latched, on_send_result-Latched, on_flush_watchdog-Latched, on_poll_result-Latched,
  on_poll-Latched, on_authenticate-Latched, on_challenge_result-Latched, on_verify_result-Latched,
}
use skrepka.App.Latch.Actions.{
  on_set_server_url-Latched, on_add_contact-Latched, on_set_blocked-Latched,
  on_save_profile-Latched, on_send_text-Latched,
}

-- The events but the one that starts a new round of loads and the one that deletes a contact.
abbrev pub is_guarded : Event → Bool
is_guarded (identity_loaded sk) = false
is_guarded (delete_contact peer) = false
is_guarded _ = true

load_conversations-NoWrites : (peers : List Text) → NoWrites (load_conversations peers)
unfolding load_conversations
load_conversations-NoWrites [] = tt
load_conversations-NoWrites (p ∷ ps) = (refl, load_conversations-NoWrites ps)

module _ (env : Env) where
  on_loaded_contacts-Latched :
      (res : KvData) (m : Model) → m.kv_load_failed ≡ true → Latched (on_loaded_contacts env res m)
  unfolding on_loaded_contacts
  on_loaded_contacts-Latched res m h =
      grind (arith, startup_done-Latched m h, NoWrites-append, load_conversations-NoWrites)

  on_loaded_settings-Latched :
      (res : KvData) (m : Model) → m.kv_load_failed ≡ true → Latched (on_loaded_settings env res m)
  unfolding on_loaded_settings startup_done
  on_loaded_settings-Latched res m h = ground arith

-- Under the latch no event writes to storage or lifts it, but for a new round of loads and the
-- deletion of a contact, of which nothing is said.
pub update-Latched :
    (env : Env) (w : World) (e : Event) (m : Model)
    → m.kv_load_failed ≡ true
    → is_guarded e ≡ true
    → Latched (update env w e m)
unfolding update on_show_conversations show_page on_open_chat on_back on_compose_changed on_connect
    on_saved on_saved_cursor on_poll_watchdog on_auth_watchdog backoff_poll on_loaded_profile
    on_loaded_cursor on_loaded_outbox on_loaded_seen_ids on_loaded_messages startup_done
update-Latched env w (identity_loaded sk) m h g = cc
update-Latched env w (delete_contact peer) m h g = cc
update-Latched env w (set_server_url url) m h g = on_set_server_url-Latched env w url m h
update-Latched env w (add_contact input nickname) m h g =
    on_add_contact-Latched env w input nickname m h
update-Latched env w (set_blocked peer blocked) m h g =
    on_set_blocked-Latched env w peer blocked m h
update-Latched env w (save_profile name bio photo) m h g =
    on_save_profile-Latched env w name bio photo m h
update-Latched env w send_text m h g = on_send_text-Latched env w m h
update-Latched env w (loaded_settings res) m h g = on_loaded_settings-Latched env res m h
update-Latched env w (loaded_contacts res) m h g = on_loaded_contacts-Latched env res m h
update-Latched env w authenticate m h g = on_authenticate-Latched env m h
update-Latched env w poll m h g = on_poll-Latched env m h
update-Latched env w start_flush m h g = flush_next-Latched env w m h
update-Latched env w (flush_watchdog gen) m h g = on_flush_watchdog-Latched env w gen m h
update-Latched env w (challenge_result gen res) m h g = on_challenge_result-Latched env gen res m h
update-Latched env w (verify_result gen res) m h g = on_verify_result-Latched env gen res m h
update-Latched env w (poll_result gen res) m h g = on_poll_result-Latched env w gen res m h
update-Latched env w (send_result gen res) m h g = on_send_result-Latched env w gen res m h
update-Latched env w (saved (ok r)) m h g = ground arith
update-Latched env w (saved (err e)) m h g = ground arith
update-Latched env w (saved_cursor (ok r)) m h g = ground arith
update-Latched env w (saved_cursor (err e)) m h g = ground arith
update-Latched env w _ m h g = ground arith
