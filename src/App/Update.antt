-- ===== src/App/Update.antt =====
-- `update`: the handler of each event.
use skrepka.App.State.{
  Model, Step, Env, World, Event, identity_loaded, show_conversations, show_settings,
  show_add_contact, show_edit_profile, back, open_chat, compose_changed, send_text, add_contact,
  set_blocked, delete_contact, save_profile, set_server_url, connect, loaded_settings,
  loaded_profile, loaded_contacts, loaded_cursor, loaded_outbox, loaded_seen_ids, loaded_messages,
  saved, saved_cursor, authenticate, poll, start_flush, poll_watchdog, flush_watchdog,
  auth_watchdog, challenge_result, verify_result, poll_result, send_result, settings_page,
  add_contact_page, edit_profile,
}
use skrepka.App.Loads.{
  on_identity_loaded, on_loaded_settings, on_loaded_profile, on_loaded_contacts, on_loaded_cursor,
  on_loaded_outbox, on_loaded_seen_ids, on_loaded_messages, on_saved, on_saved_cursor,
}
use skrepka.App.User.{
  on_show_conversations, show_page, on_open_chat, on_back, on_compose_changed, on_send_text,
  on_add_contact, on_set_blocked, on_delete_contact, on_save_profile, on_set_server_url,
}
use skrepka.App.Auth.{
  on_connect, on_authenticate, on_challenge_result, on_verify_result, on_auth_watchdog,
}
use skrepka.App.Polling.{on_poll, on_poll_watchdog, on_poll_result}
use skrepka.App.Outbox.{flush_next, on_flush_watchdog, on_send_result}

unfoldable pub update : Env → World → Event → Model → Step
update env w (identity_loaded sk) m = on_identity_loaded env sk m
update env w show_conversations m = on_show_conversations m
update env w show_settings m = show_page settings_page m
update env w show_add_contact m = show_page add_contact_page m
update env w show_edit_profile m = show_page edit_profile m
update env w back m = on_back m
update env w (open_chat peer) m = on_open_chat peer m
update env w (compose_changed s) m = on_compose_changed s m
update env w send_text m = on_send_text env w m
update env w (add_contact input nickname) m = on_add_contact env w input nickname m
update env w (set_blocked peer blocked) m = on_set_blocked env w peer blocked m
update env w (delete_contact peer) m = on_delete_contact env w peer m
update env w (save_profile name bio photo) m = on_save_profile env w name bio photo m
update env w (set_server_url url) m = on_set_server_url env w url m
update env w connect m = on_connect m
update env w (loaded_settings res) m = on_loaded_settings env res m
update env w (loaded_profile res) m = on_loaded_profile env res m
update env w (loaded_contacts res) m = on_loaded_contacts env res m
update env w (loaded_cursor res) m = on_loaded_cursor env res m
update env w (loaded_outbox res) m = on_loaded_outbox env res m
update env w (loaded_seen_ids res) m = on_loaded_seen_ids env res m
update env w (loaded_messages peer res) m = on_loaded_messages env peer res m
update env w (saved res) m = on_saved res m
update env w (saved_cursor res) m = on_saved_cursor res m
update env w authenticate m = on_authenticate env m
update env w poll m = on_poll env m
update env w start_flush m = flush_next env w m
update env w (poll_watchdog gen) m = on_poll_watchdog gen m
update env w (flush_watchdog gen) m = on_flush_watchdog env w gen m
update env w (auth_watchdog gen) m = on_auth_watchdog gen m
update env w (challenge_result gen res) m = on_challenge_result env gen res m
update env w (verify_result gen res) m = on_verify_result env gen res m
update env w (poll_result gen res) m = on_poll_result env w gen res m
update env w (send_result gen res) m = on_send_result env w gen res m
