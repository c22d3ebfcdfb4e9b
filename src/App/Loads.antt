-- ===== src/App/Loads.antt =====
-- `IdentityLoaded`, the startup loads, and the results of writes.
use skrepka.Base.{true, false, Option, none, some, List, [], ◌∷◌, ◌++◌, Bytes, Text, codes, ok, err}
use skrepka.Base.Map
use skrepka.Base.Map.{Map}
use skrepka.Crypto.{from_secret_bytes, public_key_hex}
use skrepka.Domain.{Contact, StoredMessage, default_server_url}
use skrepka.App.State.{
  Model, Step, Env, Codec, Cmd, render, kv_get, emit, KvData, IdSet, conversations, poll,
  loaded_settings, loaded_profile, loaded_contacts, loaded_cursor, loaded_outbox, loaded_seen_ids,
  loaded_messages, k_settings, k_profile, k_contacts, k_cursor, k_outbox, k_seen_ids, startup_loads,
}
use skrepka.App.Guards.{startup_done, backoff_poll, fail, k_messages}
use skrepka.App.Outbox.{and_render}
use skrepka.App.Urls.{normalize_server_url}
use skrepka.App.Conversation.{extend, ids_of, merge_history}

-- What `parse_kv` makes of a read: a value, an absent key, or a failed read.
pub data Load (A : Type 0) : Type 0 where
  value : A → Load A
  absent : Load A
  failed : Load A

unfoldable pub parse_kv : {A : Type 0} → Codec A → KvData → Load A
parse_kv codec (ok (some bytes)) = elim (codec.decode bytes) [ some a ↦ value a | none ↦ failed ]
parse_kv codec (ok none) = absent
parse_kv codec (err e) = failed

-- The arm for a read that failed.
abbrev pub distrust : Text → Model → Model
distrust message m = fail message (record m { kv_load_failed = true })

-- `list.into_iter().map(|c| (c.pubkey.clone(), c)).collect()`: a later contact replaces an
-- earlier one with its key.
unfoldable pub collect_contacts : Map Contact → List Contact → Map Contact
collect_contacts m [] = m
collect_contacts m (c ∷ cs) = collect_contacts (Map.insert c.pubkey c m) cs

unfoldable pub load_conversations : List Text → List Cmd
unfolding k_messages
load_conversations [] = []
load_conversations (peer ∷ peers) =
    kv_get (k_messages peer) (loaded_messages peer) ∷ load_conversations peers

abbrev pub or_default : Option Text → Text
or_default none = default_server_url
or_default (some url) = url

module _ (env : Env) where
  unfoldable pub on_identity_loaded : Bytes → Model → Step
  on_identity_loaded sk m = elim (from_secret_bytes env.prims sk) [
    | err e ↦ (fail (codes "invalid identity key") m, render ∷ [])
    | ok id ↦ (
      record m {
        secret_key = some sk;
        my_pubkey = public_key_hex env.prims id;
        page = conversations;
        loads_pending = startup_loads;
        kv_load_failed = false;
      },
      kv_get k_settings loaded_settings
          ∷ kv_get k_profile loaded_profile
          ∷ kv_get k_contacts loaded_contacts
          ∷ kv_get k_cursor loaded_cursor
          ∷ kv_get k_outbox loaded_outbox
          ∷ kv_get k_seen_ids loaded_seen_ids
          ∷ render
          ∷ [],
    )
  ]

  unfoldable pub on_loaded_settings : KvData → Model → Step
  on_loaded_settings res m = and_render (
      startup_done (elim (parse_kv env.settings_json res) [
        | value s ↦ record m {
          settings = record { server_url = or_default (normalize_server_url env s.server_url) };
        }
        | absent ↦ m
        | failed ↦ distrust (codes "could not read settings from storage") m
      ]))

  unfoldable pub on_loaded_profile : KvData → Model → Step
  on_loaded_profile res m = and_render (
      startup_done (elim (parse_kv env.profile_json res) [
        | value p ↦ record m { profile = p }
        | absent ↦ m
        | failed ↦ distrust (codes "could not read profile from storage") m
      ]))

  unfoldable pub on_loaded_contacts : KvData → Model → Step
  on_loaded_contacts res m =
      let (m', cmds) = startup_done m in
      elim (parse_kv env.contacts_json res) [
        | value list ↦
            let contacts = collect_contacts [] list in
            (
              record m' { contacts = contacts },
              cmds ++ (load_conversations (Map.keys contacts) ++ (render ∷ [])),
            )
        | absent ↦ (m', cmds ++ (render ∷ []))
        | failed ↦
            (distrust (codes "could not read contacts from storage") m', cmds ++ (render ∷ []))
      ]

  unfoldable pub on_loaded_cursor : KvData → Model → Step
  on_loaded_cursor res m = and_render (
      startup_done (elim (parse_kv env.cursor_json res) [
        | value c ↦ record m { cursor = c }
        | absent ↦ m
        | failed ↦ distrust (codes "could not read cursor from storage") m
      ]))

  unfoldable pub on_loaded_outbox : KvData → Model → Step
  on_loaded_outbox res m = and_render (
      startup_done (elim (parse_kv env.outbox_json res) [
        | value list ↦ record m { outbox = list }
        | absent ↦ m
        | failed ↦ distrust (codes "could not read outbox from storage") m
      ]))

  unfoldable pub on_loaded_seen_ids : KvData → Model → Step
  on_loaded_seen_ids res m = and_render (
      startup_done (elim (parse_kv env.seen_ids_json res) [
        | value ids ↦ record m { seen_ids = ids }
        | absent ↦ m
        | failed ↦ record m { seen_ids = [] }
      ]))

  -- `if let Some(id_set) = model.seen_ids.get_mut(&peer) { id_set.extend(…) }`
  unfoldable pub remember : Text → List StoredMessage → Map IdSet → Map IdSet
  remember peer list seen = elim (Map.get peer seen) [
    | none ↦ seen
    | some set ↦ Map.insert peer (extend (ids_of list) set) seen
  ]

  unfoldable pub join_history :
      Text → List StoredMessage → Map (List StoredMessage) → Map (List StoredMessage)
  join_history peer list messages = elim (Map.get peer messages) [
    | none ↦ Map.insert peer list messages
    | some existing ↦ Map.insert peer (merge_history existing list) messages
  ]

  unfoldable pub on_loaded_messages : Text → KvData → Model → Step
  on_loaded_messages peer res m = and_render (elim (parse_kv env.messages_json res) [
    | value list ↦ (
      record m {
        seen_ids = remember peer list m.seen_ids;
        messages = join_history peer list m.messages;
      },
      [],
    )
    | absent ↦ (m, [])
    | failed ↦ (distrust (codes "could not read messages from storage") m, [])
  ])

unfoldable pub on_saved : KvData → Model → Step
on_saved (ok r) m = (m, [])
on_saved (err e) m = (fail (codes "could not save data: " ++ e) m, render ∷ [])

unfoldable pub on_saved_cursor : KvData → Model → Step
on_saved_cursor (ok r) m = (m, emit poll ∷ [])
on_saved_cursor (err e) m = backoff_poll (fail (codes "could not save data: " ++ e) m)
