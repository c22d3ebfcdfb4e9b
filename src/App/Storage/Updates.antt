-- ===== src/App/Storage/Updates.antt =====
-- Every event leaves in storage what it leaves in the model.
use skrepka.Base.{◌≡◌, Bool, true, false, arith, ok, err}
use skrepka.App.State.{
  Model, Env, World, Event, identity_loaded, send_text, add_contact, set_blocked, delete_contact,
  save_profile, set_server_url, loaded_settings, loaded_profile, loaded_contacts, loaded_cursor,
  loaded_outbox, loaded_seen_ids, loaded_messages, saved, saved_cursor, start_flush, flush_watchdog,
  challenge_result, verify_result, poll_result, send_result,
}
use skrepka.App.Guards.{backoff_poll, abandon_poll, abandon_auth, schedule_reconnect}
use skrepka.App.Loads.{on_saved, on_saved_cursor}
use skrepka.App.User.{on_show_conversations, show_page, on_open_chat, on_back, on_compose_changed}
use skrepka.App.Auth.{
  on_connect, on_auth_watchdog, on_authenticate, begin_auth, unbuilt_auth, on_challenge_result,
  challenge_answered, answer_challenge, on_verify_result, verify_answered,
}
use skrepka.App.Polling.{on_poll_watchdog, on_poll, issue_poll}
use skrepka.App.Update.{update}
use skrepka.App.Storage.{Disk, clean, Saved, KeepsData, performed, quiet-Saved}
use skrepka.App.Storage.Launch.{flush_next-Saved}
use skrepka.App.Storage.Sends.{on_send_result-Saved, on_flush_watchdog-Saved}
use skrepka.App.Storage.Poll.{on_poll_result-Saved}
use skrepka.App.Storage.Actions.{
  on_add_contact-Saved, on_set_server_url-Saved, on_set_blocked-Saved, on_save_profile-Saved,
}
use skrepka.App.Storage.Talks.{on_send_text-Saved, on_delete_contact-Saved}

-- The events but those of a startup.
abbrev pub is_running : Event → Bool
is_running (identity_loaded sk) = false
is_running (loaded_settings res) = false
is_running (loaded_profile res) = false
is_running (loaded_contacts res) = false
is_running (loaded_cursor res) = false
is_running (loaded_outbox res) = false
is_running (loaded_seen_ids res) = false
is_running (loaded_messages peer res) = false
is_running _ = true

-- Storage was readable, and holds the settings, the profile, the contacts, the cursor, the outbox and
-- every conversation of the model.
abbrev pub IsStored : Env → Disk → Model → Type 0
IsStored env d m = Saved env d m clean

-- Once the core has started from storage that it could read, every event but those of a startup
-- leaves storage, once its writes are done in the order of its commands, with the settings, the
-- profile, the contacts, the cursor, the outbox and the conversations of the model that it leaves, if
-- storage had those of the model before and the codecs read back what they wrote.
pub update-IsStored :
    (env : Env) (w : World) (e : Event) (d : Disk) (m : Model)
    → KeepsData env
    → is_running e ≡ true
    → IsStored env d m
    → IsStored env (performed (update env w e m).1 d) (update env w e m).0
unfolding update on_show_conversations show_page on_open_chat on_back on_compose_changed on_connect
    on_saved on_saved_cursor on_poll_watchdog on_auth_watchdog backoff_poll on_authenticate
    begin_auth unbuilt_auth schedule_reconnect on_poll issue_poll abandon_poll abandon_auth
    on_challenge_result challenge_answered answer_challenge on_verify_result verify_answered
update-IsStored env w (identity_loaded sk) d m k r h = cc
update-IsStored env w (loaded_settings res) d m k r h = cc
update-IsStored env w (loaded_profile res) d m k r h = cc
update-IsStored env w (loaded_contacts res) d m k r h = cc
update-IsStored env w (loaded_cursor res) d m k r h = cc
update-IsStored env w (loaded_outbox res) d m k r h = cc
update-IsStored env w (loaded_seen_ids res) d m k r h = cc
update-IsStored env w (loaded_messages peer res) d m k r h = cc
update-IsStored env w (set_server_url url) d m k r h = on_set_server_url-Saved env k d m h w url
update-IsStored env w (add_contact input nickname) d m k r h =
    on_add_contact-Saved env k d m h w input nickname
update-IsStored env w (set_blocked peer blocked) d m k r h =
    on_set_blocked-Saved env k d m h w peer blocked
update-IsStored env w (delete_contact peer) d m k r h = on_delete_contact-Saved env k d m h w peer
update-IsStored env w (save_profile name bio photo) d m k r h =
    on_save_profile-Saved env k d m h w name bio photo
update-IsStored env w send_text d m k r h = on_send_text-Saved env k d m h w
update-IsStored env w start_flush d m k r h = flush_next-Saved env w k d m h
update-IsStored env w (flush_watchdog gen) d m k r h = on_flush_watchdog-Saved env w k d gen m h
update-IsStored env w (send_result gen res) d m k r h = on_send_result-Saved env w k d gen res m h
update-IsStored env w (poll_result gen res) d m k r h = on_poll_result-Saved env k w d gen res m h
update-IsStored env w (challenge_result gen (ok resp)) d m k r h =
    quiet-Saved env d m (update env w (challenge_result gen (ok resp)) m) clean (ground arith)
      (ground arith) h
update-IsStored env w (challenge_result gen (err e)) d m k r h =
    quiet-Saved env d m (update env w (challenge_result gen (err e)) m) clean (ground arith)
      (ground arith) h
update-IsStored env w (verify_result gen (ok resp)) d m k r h =
    quiet-Saved env d m (update env w (verify_result gen (ok resp)) m) clean (ground arith)
      (ground arith) h
update-IsStored env w (verify_result gen (err e)) d m k r h =
    quiet-Saved env d m (update env w (verify_result gen (err e)) m) clean (ground arith)
      (ground arith) h
update-IsStored env w (saved (ok res)) d m k r h =
    quiet-Saved env d m (update env w (saved (ok res)) m) clean (ground arith) (ground arith) h
update-IsStored env w (saved (err e)) d m k r h =
    quiet-Saved env d m (update env w (saved (err e)) m) clean (ground arith) (ground arith) h
update-IsStored env w (saved_cursor (ok res)) d m k r h =
    quiet-Saved env d m (update env w (saved_cursor (ok res)) m) clean (ground arith) (ground arith)
      h
update-IsStored env w (saved_cursor (err e)) d m k r h =
    quiet-Saved env d m (update env w (saved_cursor (err e)) m) clean (ground arith) (ground arith)
      h
update-IsStored env w e d m k r h =
    quiet-Saved env d m (update env w e m) clean (ground arith) (ground arith) h
