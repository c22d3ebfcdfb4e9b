-- ===== src/App/Storage/Restart.antt =====
-- What a restart reads back of a core that has run.
use skrepka.Base.{◌≡◌, true, some, List, [], ◌∷◌, Bytes, Text, ok, if◌then◌else◌}
use skrepka.Base.Map
use skrepka.Base.Map.{Map, get-insert}
use skrepka.Crypto.{Identity, from_secret_bytes}
use skrepka.App.State.{Model, Step, Env, World, Event, loaded_messages}
use skrepka.App.Guards.{or_empty}
use skrepka.App.Urls.{normalize_server_url}
use skrepka.App.Outbox.{and_then}
use skrepka.App.User.{is_some}
use skrepka.App.Update.{update}
use skrepka.App.Tidy.Page.{IsTidy}
use skrepka.App.Tidy.Updates.{update-IsTidy, IsSound}
use skrepka.App.Storage.{Disk, clean, SameParts, KeepsData, performed, and_then-Saved}
use skrepka.App.Storage.Updates.{IsStored, is_running, update-IsStored}
use skrepka.App.Storage.Answers.{startup}
use skrepka.App.Storage.Startup.{startup_restores}

-- Events one after another, each in a world of its own.
abbrev pub history : Env → List (World × Event) → Model → Step
history env [] m = (m, [])
history env ((w, e) ∷ later) m = and_then (update env w e m) (history env later)

abbrev pub AllRunning : List (World × Event) → Type 0
AllRunning [] = Unit
AllRunning ((w, e) ∷ later) = (is_running e ≡ true) × AllRunning later

running-IsSound : (env : Env) (e : Event) → is_running e ≡ true → IsSound env e
running-IsSound env (loaded_messages peer res) r = cc
running-IsSound env _ r = tt

module _ (env : Env) (codec : KeepsData env) where
  history-IsStored :
      (events : List (World × Event)) (d : Disk) (m : Model)
      → AllRunning events
      → IsStored env d m
      → IsStored env (performed (history env events m).1 d) (history env events m).0
  history-IsStored [] d m all h = h
  history-IsStored ((w, e) ∷ later) d m all h =
      and_then-Saved env d (update env w e m) (history env later) clean clean
        (update-IsStored env w e d m codec all.0 h)
        (λ disk n k. history-IsStored later disk n all.1 k)

  history-IsTidy :
      (events : List (World × Event)) (m : Model)
      → AllRunning events
      → IsTidy m
      → IsTidy (history env events m).0
  history-IsTidy [] m all h = h
  history-IsTidy ((w, e) ∷ later) m all h =
      history-IsTidy later (update env w e m).0 all.1
        (update-IsTidy env w e m (running-IsSound env e all.0) h)

  -- Take a core whose model is stored and whose storage could be read, and let any events come to it
  -- but those of a startup (the identity, and the answers to the reads). If it is then stopped and a
  -- new one is given the same key over the storage that its writes have left, the new one comes, once
  -- its reads are answered, to the settings, the profile, the contacts, the cursor and the outbox of
  -- the old one, to its conversation with each contact and to no other, and it may write. The contacts
  -- of the first model stand under their keys in order and its conversations are in order, the codecs
  -- read back what they wrote, and the server's address at the end is one that its check leaves as it
  -- is.
  pub history_restores :
      (events : List (World × Event)) (d : Disk) (m : Model) (w : World) (sk : Bytes)
      {id : Identity}
      → AllRunning events
      → IsTidy m
      → IsStored env d m
      → from_secret_bytes env.prims sk ≡ ok id
      → normalize_server_url env (history env events m).0.settings.server_url
        ≡ some (history env events m).0.settings.server_url
      → let s = history env events m in
        let n = startup env w sk (performed s.1 d) in
        SameParts s.0 (record n { messages = s.0.messages })
        × ((peer : Text)
            → or_empty (Map.get peer n.messages) ≡ (
                if is_some (Map.get peer s.0.contacts)
                then or_empty (Map.get peer s.0.messages)
                else []))
  history_restores events d m w sk all tidy h own url =
      startup_restores env w sk (performed (history env events m).1 d) (history env events m).0 own
        (history-IsTidy events m all tidy).people url (history-IsStored events d m all h)
