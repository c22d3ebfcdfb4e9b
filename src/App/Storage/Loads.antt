-- ===== src/App/Storage/Loads.antt =====
-- What the reads of a startup bring back.
use skrepka.Base.{
  ℕ, ◌-◌, ◌≡◌, refl, ◌⊎◌, inl, inr, false, Option, none, some, List, [], ◌∷◌, ◌++◌, arith, Bytes, ℤ,
  ok, ◌==◌, if◌then◌else◌,
}
use skrepka.Base.Map
use skrepka.Base.Map.{Map}
use skrepka.Domain.{Settings, OwnProfile, Contact, OutboxItem}
use skrepka.App.State.{Model, Env, Codec, Cmd, IdSet, connect, emit, render}
use skrepka.App.Guards.{startup_done, startup_load_done}
use skrepka.App.Urls.{normalize_server_url}
use skrepka.App.Loads.{
  Load, value, absent, failed, parse_kv, collect_contacts, load_conversations, on_loaded_settings,
  on_loaded_profile, on_loaded_contacts, on_loaded_cursor, on_loaded_outbox, on_loaded_seen_ids,
}
use skrepka.App.Tidy.Histories.{AreNamed}
use skrepka.App.Storage.{Holds}
use skrepka.App.Storage.Contacts.{collect_contacts-values}

-- A read of what storage holds.
pub load_cases :
    {A : Type 0} (codec : Codec A) (blank : A) (stored : Option Bytes) (a : A)
    → Holds codec blank stored a
    → ((parse_kv codec (ok stored) ≡ absent) × (a ≡ blank)) ⊎ (parse_kv codec (ok stored) ≡ value a)
unfolding parse_kv
load_cases codec blank none a h = inl (refl, h)
load_cases codec blank (some bytes) a h = inr (ground (arith, h))

values_empty : (people : Map Contact) → Map.values people ≡ [] → people ≡ []
values_empty [] h = refl
values_empty ((k, c) ∷ people) h = cc

-- The connection that follows the last of the reads.
abbrev pub last_connects : ℕ → List Cmd
last_connects pending = if pending - 1 == 0 then emit connect ∷ [] else []

-- A read of a startup over storage that could be read until then.
module _ (env : Env) (m : Model) (readable : m.kv_load_failed ≡ false)
    (pending : (m.loads_pending == 0) ≡ false) where
  pub on_loaded_settings-Holds :
      (stored : Option Bytes) (s : Settings)
      → Holds env.settings_json m.settings stored s
      → normalize_server_url env s.server_url ≡ some s.server_url
      → on_loaded_settings env (ok stored) m ≡ (
        record m { settings = s; loads_pending = m.loads_pending - 1 },
        last_connects m.loads_pending ++ (render ∷ []),
      )
  unfolding on_loaded_settings startup_done startup_load_done
  on_loaded_settings-Holds stored s h n =
      elim (load_cases env.settings_json m.settings stored s h) [
        | inl (e, blank) ↦ ground (arith, e, blank)
        | inr e ↦ ground (arith, e, n)
      ]

  pub on_loaded_profile-Holds :
      (stored : Option Bytes) (p : OwnProfile)
      → Holds env.profile_json m.profile stored p
      → on_loaded_profile env (ok stored) m ≡ (
        record m { profile = p; loads_pending = m.loads_pending - 1 },
        last_connects m.loads_pending ++ (render ∷ []),
      )
  unfolding on_loaded_profile startup_done startup_load_done
  on_loaded_profile-Holds stored p h = elim (load_cases env.profile_json m.profile stored p h) [
    | inl (e, blank) ↦ ground (arith, e, blank)
    | inr e ↦ ground (arith, e)
  ]

  pub on_loaded_cursor-Holds :
      (stored : Option Bytes) (c : ℤ)
      → Holds env.cursor_json m.cursor stored c
      → on_loaded_cursor env (ok stored) m ≡ (
        record m { cursor = c; loads_pending = m.loads_pending - 1 },
        last_connects m.loads_pending ++ (render ∷ []),
      )
  unfolding on_loaded_cursor startup_done startup_load_done
  on_loaded_cursor-Holds stored c h = elim (load_cases env.cursor_json m.cursor stored c h) [
    | inl (e, blank) ↦ ground (arith, e, blank)
    | inr e ↦ ground (arith, e)
  ]

  pub on_loaded_outbox-Holds :
      (stored : Option Bytes) (items : List OutboxItem)
      → Holds env.outbox_json m.outbox stored items
      → on_loaded_outbox env (ok stored) m ≡ (
        record m { outbox = items; loads_pending = m.loads_pending - 1 },
        last_connects m.loads_pending ++ (render ∷ []),
      )
  unfolding on_loaded_outbox startup_done startup_load_done
  on_loaded_outbox-Holds stored items h =
      elim (load_cases env.outbox_json m.outbox stored items h) [
        | inl (e, blank) ↦ ground (arith, e, blank)
        | inr e ↦ ground (arith, e)
      ]

  -- Whatever the sets of ids are read as, nothing else changes.
  pub on_loaded_seen_ids_ok :
      (stored : Option Bytes)
      → (ids : Map IdSet) × (on_loaded_seen_ids env (ok stored) m ≡ (
        record m { seen_ids = ids; loads_pending = m.loads_pending - 1 },
        last_connects m.loads_pending ++ (render ∷ []),
      ))
  unfolding on_loaded_seen_ids startup_done startup_load_done
  on_loaded_seen_ids_ok stored = go (parse_kv env.seen_ids_json (ok stored)) refl
    where
      go :
          (l : Load (Map IdSet))
          → parse_kv env.seen_ids_json (ok stored) ≡ l
          → (ids : Map IdSet) × (on_loaded_seen_ids env (ok stored) m ≡ (
            record m { seen_ids = ids; loads_pending = m.loads_pending - 1 },
            last_connects m.loads_pending ++ (render ∷ []),
          ))
      go (value ids) e = (ids, ground (arith, e))
      go absent e = (m.seen_ids, ground (arith, e))
      go failed e = ([], ground (arith, e))

  pub on_loaded_contacts-Holds :
      (stored : Option Bytes) (people : Map Contact)
      → m.contacts ≡ []
      → AreNamed people
      → Holds env.contacts_json [] stored (Map.values people)
      → on_loaded_contacts env (ok stored) m ≡ (
        record m { contacts = people; loads_pending = m.loads_pending - 1 },
        last_connects m.loads_pending ++ (load_conversations (Map.keys people) ++ (render ∷ [])),
      )
  unfolding on_loaded_contacts startup_done startup_load_done load_conversations
  on_loaded_contacts-Holds stored people e named h =
      elim (load_cases env.contacts_json [] stored (Map.values people) h) [
        | inl (gone, blank) ↦
            let nobody : people ≡ [] = values_empty people blank in
            rw nobody (ground (arith, gone, e))
        | inr read ↦
            let back : collect_contacts [] (Map.values people) ≡ people =
              collect_contacts-values people named.0 named.1 in
            ground (arith, read, back)
      ]
