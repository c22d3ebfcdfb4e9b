-- ===== src/App/Requests/Updates.antt =====
-- Every request is current.
use skrepka.Base.{
  ℕ, ◌≡◌, refl, ◌⊎◌, inl, inr, Bool, true, false, List, [], ◌∷◌, ◌++◌, arith, Text, ok, err,
  Option-cases, Option, none, ℤ,
}
use skrepka.App.State.{
  Model, Env, World, Event, Cmd, render, kv_get, kv_set, kv_delete, http_post, notify_after, emit,
  authenticate, KvData, send_text, add_contact, set_blocked, delete_contact, save_profile,
  set_server_url, saved, saved_cursor, start_flush, flush_watchdog, challenge_result, verify_result,
  poll_result, send_result, HttpResult, Response, loaded_contacts, loaded_settings, loaded_profile,
  loaded_cursor, loaded_outbox, loaded_seen_ids,
}
use skrepka.App.Guards.{
  backoff_poll, schedule_reconnect, startup_done, persist_contacts, persist_outbox, persist_profile,
  persist_messages, persist_seen_ids, detach_in_flight,
}
use skrepka.Base.Map
use skrepka.Domain.{Contact}
use skrepka.App.Loads.{
  Load, value, absent, failed, parse_kv, collect_contacts, load_conversations, on_identity_loaded,
  on_loaded_settings, on_loaded_profile, on_loaded_contacts, on_loaded_cursor, on_loaded_outbox,
  on_loaded_seen_ids, on_loaded_messages, on_saved, on_saved_cursor,
}
use skrepka.App.User.{
  on_show_conversations, show_page, on_open_chat, on_back, on_compose_changed, on_add_contact,
  on_set_server_url, on_set_blocked, on_delete_contact, on_save_profile, on_send_text, send_text_to,
  post_text,
}
use skrepka.App.Outbox.{and_then}
use skrepka.App.Auth.{
  on_connect, on_auth_watchdog, on_authenticate, begin_auth, unbuilt_auth, on_challenge_result,
  challenge_answered, answer_challenge, on_verify_result, verify_answered,
}
use skrepka.App.Polling.{
  on_poll_watchdog, on_poll, issue_poll, on_poll_result, poll_answered, take_page, chain_poll,
}
use skrepka.App.Ingest.{ingest_poll}
use skrepka.App.Cursor.{any_asks, ingest_poll_quiet}
use skrepka.App.Update.{update}
use skrepka.App.Requests.{
  AllCurrent, AllCurrent-append, Posts, and_then-Posts, flush_next-Posts, on_send_result-Posts,
  on_flush_watchdog-Posts,
}

-- Commands that only write, redraw or start the send loop.
asks-AllCurrent : (m : Model) (cs : List Cmd) → any_asks cs ≡ false → AllCurrent m cs
asks-AllCurrent m [] h = tt
asks-AllCurrent m (http_post url token body f ∷ cs) h = cc
asks-AllCurrent m (render ∷ cs) h = (tt, asks-AllCurrent m cs h)
asks-AllCurrent m (kv_get k f ∷ cs) h = cc
asks-AllCurrent m (kv_set k v f ∷ cs) h = (tt, asks-AllCurrent m cs h)
asks-AllCurrent m (kv_delete k f ∷ cs) h = (tt, asks-AllCurrent m cs h)
asks-AllCurrent m (notify_after ms e ∷ cs) h = cc
asks-AllCurrent m (emit e ∷ cs) h = (tt, asks-AllCurrent m cs (ground arith))

load_conversations-AllCurrent :
    (m : Model) (peers : List Text) → AllCurrent m (load_conversations peers)
unfolding load_conversations
load_conversations-AllCurrent m [] = tt
load_conversations-AllCurrent m (p ∷ ps) = (tt, load_conversations-AllCurrent m ps)

module _ (env : Env) (w : World) where
  startup_done_quiet : (m n : Model) → AllCurrent n (startup_done m).1
  unfolding startup_done
  startup_done_quiet m n = ground arith

  on_loaded_contacts-Posts : (res : KvData) (m : Model) → Posts (on_loaded_contacts env res m)
  unfolding on_loaded_contacts
  on_loaded_contacts-Posts res m = go (parse_kv env.contacts_json res) refl
    where
      go :
          (l : Load (List Contact))
          → parse_kv env.contacts_json res ≡ l
          → Posts (on_loaded_contacts env res m)
      go (value list) e =
          let n = (on_loaded_contacts env res m).0 in
          let step : (on_loaded_contacts env res m).1
              ≡ (startup_done m).1
                ++ (load_conversations (Map.keys (collect_contacts [] list)) ++ (render ∷ [])) =
            ground (arith, e) in
          rw step (
            AllCurrent-append n (startup_done m).1 _ (startup_done_quiet m n) (
              AllCurrent-append n (load_conversations (Map.keys (collect_contacts [] list)))
                (render ∷ [])
                (load_conversations-AllCurrent n (Map.keys (collect_contacts [] list))) (tt, tt)))
      go absent e =
          let n = (on_loaded_contacts env res m).0 in
          let step : (on_loaded_contacts env res m).1 ≡ (startup_done m).1 ++ (render ∷ []) =
            ground (arith, e) in
          rw step
            (AllCurrent-append n (startup_done m).1 (render ∷ []) (startup_done_quiet m n) (tt, tt))
      go failed e =
          let n = (on_loaded_contacts env res m).0 in
          let step : (on_loaded_contacts env res m).1 ≡ (startup_done m).1 ++ (render ∷ []) =
            ground (arith, e) in
          rw step
            (AllCurrent-append n (startup_done m).1 (render ∷ []) (startup_done_quiet m n) (tt, tt))

  chain_poll-Posts : (old : ℤ) (m : Model) → Posts (chain_poll env w old m)
  unfolding chain_poll
  chain_poll-Posts old m = ground arith

  take_page-Posts : (resp : Response) (m : Model) → Posts (take_page env w resp m)
  unfolding take_page backoff_poll
  take_page-Posts resp m =
      let after = take_page env w resp m in
      elim (Option-cases (env.decode_poll resp.body)) [
        | inl junk ↦ ground (arith, junk)
        | inr (page, read) ↦
            let s = ingest_poll env w page m in
            let either : AllCurrent after.0 after.1
                ⊎ (after ≡ and_then s (chain_poll env w m.cursor)) =
              ground (arith, read) in
            elim either [
              | inl quiet ↦ quiet
              | inr runs ↦ rw runs (
                  and_then-Posts s (chain_poll env w m.cursor)
                    (λ n. asks-AllCurrent n s.1 (ingest_poll_quiet env w page m))
                    (chain_poll-Posts m.cursor s.0))
            ]
      ]

  on_poll_result-Posts :
      (gen : ℕ) (res : HttpResult) (m : Model) → Posts (on_poll_result env w gen res m)
  unfolding on_poll_result poll_answered backoff_poll
  on_poll_result-Posts gen (err e) m = ground arith
  on_poll_result-Posts gen (ok resp) m =
      ground (arith, take_page-Posts resp (record m { polling = false; poll_retries = 0 }))

  on_authenticate-Posts : (m : Model) → Posts (on_authenticate env m)
  unfolding on_authenticate begin_auth unbuilt_auth schedule_reconnect
  on_authenticate-Posts m = ground arith

  on_challenge_result-Posts :
      (gen : ℕ) (res : HttpResult) (m : Model) → Posts (on_challenge_result env gen res m)
  unfolding on_challenge_result challenge_answered answer_challenge unbuilt_auth schedule_reconnect
  on_challenge_result-Posts gen (ok resp) m = ground arith
  on_challenge_result-Posts gen (err e) m = ground arith

  actions_quiet :
      (m : Model) (a b : Text) (photo : Option Text) (blocked : Bool)
      → Posts (on_add_contact env w a b m)
        × Posts (on_set_server_url env w a m)
        × Posts (on_set_blocked env w a blocked m)
        × Posts (on_delete_contact env w a m)
        × Posts (on_save_profile env w a b photo m)
        × Posts (on_send_text env w m)
  unfolding on_add_contact on_set_server_url on_set_blocked on_delete_contact on_save_profile
      on_send_text send_text_to post_text persist_contacts persist_outbox persist_profile
      persist_messages persist_seen_ids detach_in_flight
  actions_quiet m a b photo blocked =
      (ground arith, ground arith, ground arith, ground arith, ground arith, ground arith)

  reads_quiet :
      (res : KvData) (m : Model)
      → Posts (on_loaded_settings env res m)
        × Posts (on_loaded_profile env res m)
        × Posts (on_loaded_cursor env res m)
        × Posts (on_loaded_outbox env res m)
        × Posts (on_loaded_seen_ids env res m)
  unfolding on_loaded_settings on_loaded_profile on_loaded_cursor on_loaded_outbox
      on_loaded_seen_ids startup_done
  reads_quiet res m = (ground arith, ground arith, ground arith, ground arith, ground arith)

-- Whatever happens, every request that the core makes goes to the relay of its settings, carries the
-- token of the model, or none for a leg of a sign-in, is made under the guard of its loop, and is
-- answered under the generation that the model then has; a poll carries the cursor of the model, and
-- a batch has as many envelopes as the model has items in flight.
pub update-Posts : (env : Env) (w : World) (e : Event) (m : Model) → Posts (update env w e m)
unfolding update on_show_conversations show_page on_open_chat on_back on_compose_changed on_connect
    on_saved on_saved_cursor on_poll_watchdog on_auth_watchdog backoff_poll on_identity_loaded
    on_loaded_messages on_poll issue_poll on_verify_result verify_answered schedule_reconnect
update-Posts env w send_text m = (actions_quiet env w m [] [] none true).5
update-Posts env w (add_contact input nickname) m =
    (actions_quiet env w m input nickname none true).0
update-Posts env w (set_server_url url) m = (actions_quiet env w m url [] none true).1
update-Posts env w (set_blocked peer blocked) m = (actions_quiet env w m peer [] none blocked).2
update-Posts env w (delete_contact peer) m = (actions_quiet env w m peer [] none true).3
update-Posts env w (save_profile name bio photo) m = (actions_quiet env w m name bio photo true).4
update-Posts env w (loaded_settings res) m = (reads_quiet env w res m).0
update-Posts env w (loaded_profile res) m = (reads_quiet env w res m).1
update-Posts env w (loaded_contacts res) m = on_loaded_contacts-Posts env w res m
update-Posts env w (loaded_cursor res) m = (reads_quiet env w res m).2
update-Posts env w (loaded_outbox res) m = (reads_quiet env w res m).3
update-Posts env w (loaded_seen_ids res) m = (reads_quiet env w res m).4
update-Posts env w authenticate m = on_authenticate-Posts env w m
update-Posts env w start_flush m = flush_next-Posts env w m
update-Posts env w (flush_watchdog gen) m = on_flush_watchdog-Posts env w gen m
update-Posts env w (challenge_result gen res) m = on_challenge_result-Posts env w gen res m
update-Posts env w (verify_result gen (ok resp)) m = ground arith
update-Posts env w (verify_result gen (err e)) m = ground arith
update-Posts env w (poll_result gen res) m = on_poll_result-Posts env w gen res m
update-Posts env w (send_result gen res) m = on_send_result-Posts env w gen res m
update-Posts env w (saved (ok r)) m = ground arith
update-Posts env w (saved (err e)) m = ground arith
update-Posts env w (saved_cursor (ok r)) m = ground arith
update-Posts env w (saved_cursor (err e)) m = ground arith
update-Posts env w _ m = ground arith
