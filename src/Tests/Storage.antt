-- ===== src/Tests/Storage.antt =====
-- Runs over storage.
use skrepka.Base.{
  ◌≡◌, refl, none, some, List, [], ◌∷◌, ◌++◌, codes, text_dec, ℕ_discrete, ok, Text, if◌then◌else◌,
  true, arith,
}
use skrepka.Base.Map
use skrepka.Crypto.{Identity, from_secret_bytes}
use skrepka.Phonemic.{trim}
use skrepka.Domain.{default_settings, default_server_url}
use skrepka.App.{
  Env, World, Event, Model, default_model, send_text, set_blocked, update, or_empty, is_some,
  normalize_server_url, trim_end_matches, on_send_text, send_text_to, post_text, persist_messages,
  persist_contacts, persist_outbox, on_set_blocked, detach_in_flight,
}
use skrepka.App.Tidy.Page.{IsTidy}
use skrepka.App.Storage.{Disk, KeepsData, SameParts, performed}
use skrepka.App.Storage.Updates.{IsStored, update-IsStored}
use skrepka.App.Storage.Answers.{startup}
use skrepka.App.Storage.Restart.{history, history_restores}
use skrepka.Tests.Setup.{toy_env, noon, key}
use skrepka.Tests.Codecs.{
  codec_of, codec_of-IsLossless, list_form, list_form-IsForm, int_form, int_form-IsForm,
  settings_form, settings_form-IsForm, profile_form, profile_form-IsForm, contact_form,
  contact_form-IsForm, message_form, message_form-IsForm, item_form, item_form-IsForm,
}

-- The toy libraries, with storage that keeps what is written.
abbrev storing_env : Env
storing_env = record toy_env {
  settings_json = codec_of settings_form;
  profile_json = codec_of profile_form;
  contacts_json = codec_of (list_form contact_form);
  cursor_json = codec_of int_form;
  outbox_json = codec_of (list_form item_form);
  messages_json = codec_of (list_form message_form);
}

storing_env-KeepsData : KeepsData storing_env
storing_env-KeepsData = record {
  settings = codec_of-IsLossless _ settings_form-IsForm;
  profile = codec_of-IsLossless _ profile_form-IsForm;
  contacts = codec_of-IsLossless _ (list_form-IsForm _ contact_form-IsForm);
  cursor = codec_of-IsLossless _ int_form-IsForm;
  outbox = codec_of-IsLossless _ (list_form-IsForm _ item_form-IsForm);
  messages = codec_of-IsLossless _ (list_form-IsForm _ message_form-IsForm);
  hash_order = λ set id there. there;
}

abbrev nothing_stored : Disk
nothing_stored = λ k. none

-- A new user, with a chat open and a message typed.
abbrev typing : Model
typing = record default_model {
  secret_key = some (key 1 ++ key 1);
  my_pubkey = key 1;
  active_peer = some (key 2);
  compose = codes "hi";
}

typing-IsStored : IsStored storing_env nothing_stored typing
unfolding Map.get
typing-IsStored = record {
  readable = refl;
  settings = refl;
  profile = refl;
  contacts = refl;
  cursor = refl;
  outbox = refl;
  talks = λ peer. refl;
}

-- The message is sent.
update-IsStored_example :
    IsStored storing_env
      (performed (update storing_env noon send_text typing).1 nothing_stored)
      (update storing_env noon send_text typing).0
update-IsStored_example =
    update-IsStored storing_env noon send_text nothing_stored typing storing_env-KeepsData refl
      typing-IsStored

typing-IsTidy : IsTidy typing
typing-IsTidy = record { talks = (tt, tt); people = (tt, tt) }

own_key : (id : Identity) × (from_secret_bytes storing_env.prims (key 1 ++ key 1) ≡ ok id)
unfolding from_secret_bytes text_dec
own_key = (_, refl)

default_url : normalize_server_url storing_env default_server_url ≡ some default_server_url
unfolding normalize_server_url trim trim_end_matches codes text_dec ℕ_discrete
default_url = refl

-- The message is sent and the contact that it made is blocked; then the core is started again.
abbrev evening : List (World × Event)
evening = (noon, send_text) ∷ (noon, set_blocked (key 2) true) ∷ []

evening_settings : (history storing_env evening typing).0.settings ≡ default_settings
unfolding update on_send_text send_text_to post_text persist_messages persist_contacts
    persist_outbox on_set_blocked detach_in_flight
evening_settings = ground arith

evening_url :
    normalize_server_url storing_env (history storing_env evening typing).0.settings.server_url
    ≡ some (history storing_env evening typing).0.settings.server_url
evening_url = rw evening_settings default_url

history_restores_example :
    let s = history storing_env evening typing in
    let n = startup storing_env noon (key 1 ++ key 1) (performed s.1 nothing_stored) in
    SameParts s.0 (record n { messages = s.0.messages })
    × ((peer : Text)
        → or_empty (Map.get peer n.messages) ≡ (
            if is_some (Map.get peer s.0.contacts)
            then or_empty (Map.get peer s.0.messages)
            else []))
history_restores_example =
    history_restores storing_env storing_env-KeepsData evening nothing_stored typing noon
      (key 1 ++ key 1) (refl, (refl, tt)) typing-IsTidy typing-IsStored own_key.1 evening_url
