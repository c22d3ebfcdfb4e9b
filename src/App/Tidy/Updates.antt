-- ===== src/App/Tidy/Updates.antt =====
-- Every event leaves the conversations and the contacts in good order.
use skrepka.Base.{
  ◌≡◌, refl, ◌⊎◌, inl, inr, Bool, true, false, none, List, [], arith, Text, ok, err, Option-cases,
}
use skrepka.Base.Map
use skrepka.Phonemic.{trim, try_parse_pubkey}
use skrepka.Domain.{Contact, StoredMessage, new_contact}
use skrepka.App.State.{
  Model, Env, World, Event, send_text, add_contact, set_blocked, delete_contact, loaded_contacts,
  loaded_messages, saved, saved_cursor, start_flush, flush_watchdog, challenge_result,
  verify_result, poll_result, send_result, KvData, send_text_at, add_contact_at,
}
use skrepka.App.Guards.{
  startup_done, startup_load_done, backoff_poll, abandon_poll, abandon_auth, abandon_flush,
  schedule_reconnect, persist_contacts, persist_messages, persist_outbox, persist_seen_ids,
  persist_profile, detach_in_flight, or_empty,
}
use skrepka.App.Conversation.{insert_sorted, trim_history}
use skrepka.App.Loads.{
  Load, value, absent, failed, parse_kv, collect_contacts, join_history, on_identity_loaded,
  on_loaded_settings, on_loaded_profile, on_loaded_contacts, on_loaded_cursor, on_loaded_outbox,
  on_loaded_seen_ids, on_loaded_messages, on_saved, on_saved_cursor,
}
use skrepka.App.User.{
  on_show_conversations, show_page, on_open_chat, on_back, on_compose_changed, on_add_contact,
  on_set_server_url, on_set_blocked, on_delete_contact, on_save_profile, on_send_text, send_text_to,
  post_text, upsert, set_flag,
}
use skrepka.App.Auth.{
  on_connect, on_auth_watchdog, on_authenticate, begin_auth, unbuilt_auth, on_challenge_result,
  challenge_answered, answer_challenge, on_verify_result, verify_answered,
}
use skrepka.App.Polling.{on_poll_watchdog, on_poll, issue_poll}
use skrepka.App.Frames.{Frame, flush_next-Frame, on_send_result-Frame, on_flush_watchdog-Frame}
use skrepka.App.Update.{update}
use skrepka.App.Tidy.Histories.{
  IsGood, AreGood-insert, AreGood-remove, AreGood-get, AreNamed-insert, AreNamed-remove,
  filed-IsGood, join_history-AreGood, collect_contacts-AreNamed, upsert-AreNamed, set_flag-AreNamed,
}
use skrepka.App.Tidy.Page.{
  IsTidy, SameMaps, SameMaps-IsTidy, ingest_payload-IsTidy, mark_contact-IsTidy,
  mark_messages-IsTidy,
}
use skrepka.App.Tidy.Poll.{IsKept, on_poll_result-keeps}

IsTidy-IsKept : (env : Env) → IsKept env IsTidy
IsTidy-IsKept env = record {
  same = SameMaps-IsTidy;
  payload = ingest_payload-IsTidy env;
  contact = mark_contact-IsTidy env;
  messages = mark_messages-IsTidy env;
}

abbrev pub IsGoodLoad : Load (List StoredMessage) → Type 0
IsGoodLoad (value list) = IsGood list
IsGoodLoad absent = Unit
IsGoodLoad failed = Unit

-- A conversation that comes from storage is good; nothing is asked of another event.
abbrev pub IsSound : Env → Event → Type 0
IsSound env (loaded_messages peer res) = IsGoodLoad (parse_kv env.messages_json res)
IsSound env _ = Unit

Frame-IsTidy : (m n : Model) → Frame m n → IsTidy m → IsTidy n
Frame-IsTidy m n f h =
    SameMaps-IsTidy m n (record { messages = f.messages; contacts = f.contacts }) h

module _ (env : Env) (w : World) where
  post_text-IsTidy :
      (peer body : Text) (m : Model) → IsTidy m → IsTidy (post_text env w peer body m).0
  unfolding post_text persist_outbox persist_contacts persist_messages
  post_text-IsTidy peer body m h =
      let after = (post_text env w peer body m).0 in
      let said : StoredMessage = record {
        id = w.uuid;
        body = body;
        ts = w.now send_text_at;
        outgoing = true;
        delivered = false;
      } in
      let convo = or_empty (Map.get peer m.messages) in
      let filed = trim_history (insert_sorted convo said) in
      let talks : after.messages ≡ Map.insert peer filed m.messages = ground arith in
      let met = new_contact peer [] (w.now send_text_at) in
      let people : (after.contacts ≡ m.contacts)
          ⊎ (after.contacts ≡ Map.insert peer met m.contacts) =
        ground arith in
      record {
        talks = rw talks (
            AreGood-insert peer filed m.messages
              (filed-IsGood convo said (AreGood-get peer m.messages h.talks)) h.talks);
        people = elim people [
          | inl same ↦ rw same h.people
          | inr new ↦
              rw new (AreNamed-insert peer met m.contacts (unfold new_contact in refl) h.people)
        ];
      }

  on_send_text-IsTidy : (m : Model) → IsTidy m → IsTidy (on_send_text env w m).0
  unfolding on_send_text send_text_to
  on_send_text-IsTidy m h =
      let after = (on_send_text env w m).0 in
      elim (Option-cases m.active_peer) [
        | inl nobody ↦ SameMaps-IsTidy m after (ground (arith, nobody)) h
        | inr (peer, talking) ↦
            let cleared = record m { error = none } in
            let start = SameMaps-IsTidy m cleared (record { messages = refl; contacts = refl }) h in
            let either : SameMaps m after
                ⊎ (after ≡ (post_text env w peer (trim m.compose) cleared).0) =
              ground (arith, talking) in
            elim either [
              | inl same ↦ SameMaps-IsTidy m after same h
              | inr posts ↦ rw posts (post_text-IsTidy peer (trim m.compose) cleared start)
            ]
      ]

  on_add_contact-IsTidy :
      (input nickname : Text) (m : Model)
      → IsTidy m
      → IsTidy (on_add_contact env w input nickname m).0
  unfolding on_add_contact persist_contacts
  on_add_contact-IsTidy input nickname m h =
      let after = (on_add_contact env w input nickname m).0 in
      let talks : after.messages ≡ m.messages = ground arith in
      elim (Option-cases (try_parse_pubkey env.prims env.wide input)) [
        | inl bad ↦ SameMaps-IsTidy m after (ground (arith, bad)) h
        | inr (hex, parsed) ↦
            let added = upsert hex nickname (w.now add_contact_at) m.contacts in
            let either : (after.contacts ≡ m.contacts) ⊎ (after.contacts ≡ added) =
              ground (arith, parsed) in
            record {
              talks = rw talks h.talks;
              people = elim either [
                | inl same ↦ rw same h.people
                | inr new ↦
                    rw new (upsert-AreNamed hex nickname (w.now add_contact_at) m.contacts h.people)
              ];
            }
      ]

  on_set_blocked-IsTidy :
      (peer : Text) (blocked : Bool) (m : Model)
      → IsTidy m
      → IsTidy (on_set_blocked env w peer blocked m).0
  unfolding on_set_blocked detach_in_flight persist_outbox persist_contacts
  on_set_blocked-IsTidy peer blocked m h =
      let after = (on_set_blocked env w peer blocked m).0 in
      let talks : after.messages ≡ m.messages = ground arith in
      let people : after.contacts ≡ set_flag peer blocked m.contacts = ground arith in
      record {
        talks = rw talks h.talks;
        people = rw people (set_flag-AreNamed peer blocked m.contacts h.people);
      }

  on_delete_contact-IsTidy :
      (peer : Text) (m : Model) → IsTidy m → IsTidy (on_delete_contact env w peer m).0
  unfolding on_delete_contact detach_in_flight persist_outbox persist_contacts persist_seen_ids
  on_delete_contact-IsTidy peer m h =
      let after = (on_delete_contact env w peer m).0 in
      let talks : after.messages ≡ Map.remove peer m.messages = ground arith in
      let people : after.contacts ≡ Map.remove peer m.contacts = ground arith in
      record {
        talks = rw talks (AreGood-remove peer m.messages h.talks);
        people = rw people (AreNamed-remove peer m.contacts h.people);
      }

  on_loaded_contacts-IsTidy :
      (res : KvData) (m : Model) → IsTidy m → IsTidy (on_loaded_contacts env res m).0
  unfolding on_loaded_contacts startup_done startup_load_done
  on_loaded_contacts-IsTidy res m h = go (parse_kv env.contacts_json res) refl
    where
      go :
          (l : Load (List Contact))
          → parse_kv env.contacts_json res ≡ l
          → IsTidy (on_loaded_contacts env res m).0
      go (value list) e =
          let after = (on_loaded_contacts env res m).0 in
          let talks : after.messages ≡ m.messages = ground (arith, e) in
          let people : after.contacts ≡ collect_contacts [] list = ground (arith, e) in
          record {
            talks = rw talks h.talks;
            people = rw people (collect_contacts-AreNamed [] list (tt, tt));
          }
      go absent e = SameMaps-IsTidy m _ (ground (arith, e)) h
      go failed e = SameMaps-IsTidy m _ (ground (arith, e)) h

  on_loaded_messages-IsTidy :
      (peer : Text) (res : KvData) (m : Model)
      → IsGoodLoad (parse_kv env.messages_json res)
      → IsTidy m
      → IsTidy (on_loaded_messages env peer res m).0
  unfolding on_loaded_messages
  on_loaded_messages-IsTidy peer res m s h = go (parse_kv env.messages_json res) refl
    where
      go :
          (l : Load (List StoredMessage))
          → parse_kv env.messages_json res ≡ l
          → IsTidy (on_loaded_messages env peer res m).0
      go (value list) e =
          let after = (on_loaded_messages env peer res m).0 in
          let good : IsGood list = rw e at s in
          let talks : after.messages ≡ join_history env peer list m.messages = ground (arith, e) in
          let people : after.contacts ≡ m.contacts = ground (arith, e) in
          record {
            talks = rw talks (join_history-AreGood env peer list m.messages good h.talks);
            people = rw people h.people;
          }
      go absent e = SameMaps-IsTidy m _ (ground (arith, e)) h
      go failed e = SameMaps-IsTidy m _ (ground (arith, e)) h

-- Every event leaves each conversation in the order of its times and with at most a thousand
-- messages, each contact under its own key, and the keys of both maps going up, if a conversation
-- that it brings from storage is in order and within the cap.
pub update-IsTidy :
    (env : Env) (w : World) (e : Event) (m : Model)
    → IsSound env e
    → IsTidy m
    → IsTidy (update env w e m).0
unfolding update on_show_conversations show_page on_open_chat on_back on_compose_changed on_connect
    on_saved on_saved_cursor on_poll_watchdog on_auth_watchdog backoff_poll on_loaded_profile
    on_loaded_cursor on_loaded_seen_ids on_loaded_outbox startup_done startup_load_done
    on_identity_loaded on_loaded_settings on_authenticate begin_auth unbuilt_auth schedule_reconnect
    on_poll issue_poll abandon_poll abandon_auth on_set_server_url abandon_flush on_save_profile
    persist_profile persist_outbox on_challenge_result challenge_answered answer_challenge
    on_verify_result verify_answered
update-IsTidy env w (loaded_contacts res) m s h = on_loaded_contacts-IsTidy env w res m h
update-IsTidy env w (loaded_messages peer res) m s h =
    on_loaded_messages-IsTidy env w peer res m s h
update-IsTidy env w (add_contact input nickname) m s h =
    on_add_contact-IsTidy env w input nickname m h
update-IsTidy env w (set_blocked peer blocked) m s h = on_set_blocked-IsTidy env w peer blocked m h
update-IsTidy env w (delete_contact peer) m s h = on_delete_contact-IsTidy env w peer m h
update-IsTidy env w send_text m s h = on_send_text-IsTidy env w m h
update-IsTidy env w start_flush m s h = Frame-IsTidy m _ (flush_next-Frame env w m) h
update-IsTidy env w (flush_watchdog gen) m s h =
    Frame-IsTidy m _ (on_flush_watchdog-Frame env w gen m) h
update-IsTidy env w (send_result gen res) m s h =
    Frame-IsTidy m _ (on_send_result-Frame env w gen res m) h
update-IsTidy env w (poll_result gen res) m s h =
    on_poll_result-keeps env IsTidy (IsTidy-IsKept env) w gen res m h
update-IsTidy env w (challenge_result gen (ok resp)) m s h = SameMaps-IsTidy m _ (ground arith) h
update-IsTidy env w (challenge_result gen (err e)) m s h = SameMaps-IsTidy m _ (ground arith) h
update-IsTidy env w (verify_result gen (ok resp)) m s h = SameMaps-IsTidy m _ (ground arith) h
update-IsTidy env w (verify_result gen (err e)) m s h = SameMaps-IsTidy m _ (ground arith) h
update-IsTidy env w (saved (ok r)) m s h = SameMaps-IsTidy m _ (ground arith) h
update-IsTidy env w (saved (err e)) m s h = SameMaps-IsTidy m _ (ground arith) h
update-IsTidy env w (saved_cursor (ok r)) m s h = SameMaps-IsTidy m _ (ground arith) h
update-IsTidy env w (saved_cursor (err e)) m s h = SameMaps-IsTidy m _ (ground arith) h
update-IsTidy env w _ m s h = SameMaps-IsTidy m _ (ground arith) h
