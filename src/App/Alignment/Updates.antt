-- ===== src/App/Alignment/Updates.antt =====
-- Every event keeps the batch in flight at the head of the outbox.
use skrepka.Base.{ℕ, ◌≡◌, Bool, true, false, arith, ok, err, not}
use skrepka.App.State.{
  Model, Env, World, Event, send_text, set_blocked, delete_contact, save_profile, set_server_url,
  loaded_outbox, saved, saved_cursor, start_flush, flush_watchdog, challenge_result, verify_result,
  poll_result, send_result, KvData, HttpResult,
}
use skrepka.App.Guards.{startup_done, startup_load_done, backoff_poll, abandon_poll, abandon_auth}
use skrepka.App.Loads.{
  on_identity_loaded, on_loaded_settings, on_loaded_profile, on_loaded_contacts, on_loaded_cursor,
  on_loaded_outbox, on_loaded_seen_ids, on_loaded_messages, on_saved, on_saved_cursor,
}
use skrepka.App.User.{
  on_show_conversations, show_page, on_open_chat, on_back, on_compose_changed, on_add_contact,
}
use skrepka.App.Auth.{
  on_connect, on_auth_watchdog, on_authenticate, begin_auth, unbuilt_auth, on_challenge_result,
  challenge_answered, answer_challenge, on_verify_result, verify_answered,
}
use skrepka.App.Polling.{on_poll_watchdog, on_poll, issue_poll}
use skrepka.App.Update.{update}
use skrepka.App.Guards.{schedule_reconnect, persist_contacts}
use skrepka.App.Alignment.Queue.{IsAligned}
use skrepka.App.Alignment.Send.{
  flush_next-IsAligned, on_send_result-IsAligned, on_flush_watchdog-IsAligned,
}
use skrepka.App.Alignment.Page.{on_poll_result-IsAligned}
use skrepka.App.Alignment.Actions.{
  on_set_server_url-IsAligned, on_set_blocked-IsAligned, on_delete_contact-IsAligned,
  on_save_profile-IsAligned, on_send_text-IsAligned,
}

-- The stored outbox is read at the start, when nothing is in flight.
abbrev pub is_timely : Event → Model → Bool
is_timely (loaded_outbox res) m = not m.flushing
is_timely _ m = true

module _ (env : Env) where
  on_challenge_result-IsAligned :
      (gen : ℕ) (res : HttpResult) (m : Model)
      → IsAligned m
      → IsAligned (on_challenge_result env gen res m).0
  unfolding on_challenge_result challenge_answered answer_challenge unbuilt_auth schedule_reconnect
  on_challenge_result-IsAligned gen (ok resp) m h = ground arith
  on_challenge_result-IsAligned gen (err e) m h = ground arith

  on_verify_result-IsAligned :
      (gen : ℕ) (res : HttpResult) (m : Model)
      → IsAligned m
      → IsAligned (on_verify_result env gen res m).0
  unfolding on_verify_result verify_answered schedule_reconnect
  on_verify_result-IsAligned gen (ok resp) m h = ground arith
  on_verify_result-IsAligned gen (err e) m h = ground arith

  on_loaded_outbox-IsAligned :
      (res : KvData) (m : Model)
      → m.flushing ≡ false
      → IsAligned m
      → IsAligned (on_loaded_outbox env res m).0
  unfolding on_loaded_outbox startup_done startup_load_done
  on_loaded_outbox-IsAligned res m off h = ground arith

-- Every event keeps the batch in flight at the head of the outbox, one recipient's and of at most
-- a hundred items, and nothing in flight without the guard; the stored outbox must not arrive
-- during a send.
pub update-IsAligned :
    (env : Env) (w : World) (e : Event) (m : Model)
    → is_timely e m ≡ true
    → IsAligned m
    → IsAligned (update env w e m).0
unfolding update on_show_conversations show_page on_open_chat on_back on_compose_changed on_connect
    on_saved on_saved_cursor on_poll_watchdog on_auth_watchdog backoff_poll on_loaded_profile
    on_loaded_cursor on_loaded_seen_ids on_loaded_messages startup_done startup_load_done
    on_identity_loaded on_loaded_settings on_loaded_contacts on_add_contact persist_contacts
    on_authenticate begin_auth unbuilt_auth schedule_reconnect on_poll issue_poll abandon_poll
    abandon_auth
update-IsAligned env w (set_server_url url) m t h = on_set_server_url-IsAligned env w url m h
update-IsAligned env w (set_blocked peer blocked) m t h =
    on_set_blocked-IsAligned env w peer blocked m h
update-IsAligned env w (delete_contact peer) m t h = on_delete_contact-IsAligned env w peer m h
update-IsAligned env w (save_profile name bio photo) m t h =
    on_save_profile-IsAligned env w name bio photo m h
update-IsAligned env w send_text m t h = on_send_text-IsAligned env w m h
update-IsAligned env w start_flush m t h = flush_next-IsAligned env w m h
update-IsAligned env w (flush_watchdog gen) m t h = on_flush_watchdog-IsAligned env w gen m h
update-IsAligned env w (challenge_result gen res) m t h =
    on_challenge_result-IsAligned env gen res m h
update-IsAligned env w (verify_result gen res) m t h = on_verify_result-IsAligned env gen res m h
update-IsAligned env w (poll_result gen res) m t h = on_poll_result-IsAligned env w gen res m h
update-IsAligned env w (send_result gen res) m t h = on_send_result-IsAligned env w gen res m h
update-IsAligned env w (loaded_outbox res) m t h =
    on_loaded_outbox-IsAligned env res m (ground arith) h
update-IsAligned env w (saved (ok r)) m t h = ground arith
update-IsAligned env w (saved (err e)) m t h = ground arith
update-IsAligned env w (saved_cursor (ok r)) m t h = ground arith
update-IsAligned env w (saved_cursor (err e)) m t h = ground arith
update-IsAligned env w _ m t h = ground arith
