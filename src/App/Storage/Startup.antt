-- ===== src/App/Storage/Startup.antt =====
-- A startup reads back what is stored.
use mathlib.Core.List.{append-nil}
use skrepka.Base.{
  ◌≡◌, refl, ap, ◌∙◌, inl, inr, some, List, [], ◌∷◌, ◌++◌, arith, Bytes, Text, ok, if◌then◌else◌,
  Bool-cases,
}
use skrepka.Base.Map
use skrepka.Base.Map.{Map, get-insert}
use skrepka.Crypto.{Identity, from_secret_bytes, public_key_hex}
use skrepka.App.State.{
  Model, Step, Env, World, Event, Cmd, render, kv_get, emit, connect, default_model,
  identity_loaded, IdSet, k_settings, k_profile, k_contacts, k_cursor, k_outbox, k_seen_ids,
  loaded_settings, loaded_profile, loaded_contacts, loaded_cursor, loaded_outbox, loaded_seen_ids,
}
use skrepka.App.Guards.{or_empty}
use skrepka.App.Urls.{normalize_server_url}
use skrepka.App.Loads.{load_conversations, on_identity_loaded}
use skrepka.App.User.{is_some}
use skrepka.App.Update.{update}
use skrepka.App.Tidy.Histories.{AreNamed}
use skrepka.App.Storage.{Disk, SameParts}
use skrepka.App.Storage.Contacts.{keys-Distinct, contains-keys}
use skrepka.App.Storage.Loads.{
  on_loaded_settings-Holds, on_loaded_profile-Holds, on_loaded_contacts-Holds,
  on_loaded_cursor-Holds, on_loaded_outbox-Holds, on_loaded_seen_ids_ok,
}
use skrepka.App.Storage.Updates.{IsStored}
use skrepka.App.Storage.Answers.{
  reads, run, startup, talk_events, reads-append, reads-load_conversations, run_cons, run_talks,
}

-- The answers to the first reads.
abbrev first_events : Disk → List Event
first_events d =
    loaded_settings (ok (d k_settings))
    ∷ loaded_profile (ok (d k_profile))
    ∷ loaded_contacts (ok (d k_contacts))
    ∷ loaded_cursor (ok (d k_cursor))
    ∷ loaded_outbox (ok (d k_outbox))
    ∷ loaded_seen_ids (ok (d k_seen_ids))
    ∷ []

-- A model that has its key and waits for the six reads.
abbrev waiting : Env → Bytes → Identity → Model
waiting env sk id = record default_model {
  secret_key = some sk;
  my_pubkey = public_key_hex env.prims id;
  loads_pending = 6;
}

-- The model after the six reads.
abbrev restored : Env → Bytes → Identity → Model → Map IdSet → Model
restored env sk id m ids = record (waiting env sk id) {
  settings = m.settings;
  profile = m.profile;
  contacts = m.contacts;
  cursor = m.cursor;
  outbox = m.outbox;
  seen_ids = ids;
  loads_pending = 0;
}

module _ (env : Env) (w : World) (sk : Bytes) (id : Identity) (d : Disk) (m : Model)
    (h : IsStored env d m) (named : AreNamed m.contacts)
    (url : normalize_server_url env m.settings.server_url ≡ some m.settings.server_url) where
  first_answers :
      (ids : Map IdSet) × (cs : List Cmd) × (run env w (first_events d) (waiting env sk id)
        ≡ (restored env sk id m ids, cs))
      × (reads d cs ≡ talk_events d (Map.keys m.contacts))
  unfolding update
  first_answers =
      let m0 = waiting env sk id in
      let m1 = record m0 { settings = m.settings; loads_pending = 5 } in
      let m2 = record m1 { profile = m.profile; loads_pending = 4 } in
      let m3 = record m2 { contacts = m.contacts; loads_pending = 3 } in
      let m4 = record m3 { cursor = m.cursor; loads_pending = 2 } in
      let m5 = record m4 { outbox = m.outbox; loads_pending = 1 } in
      let (ids, last) = on_loaded_seen_ids_ok env m5 refl refl (d k_seen_ids) in
      let m6 = record m5 { seen_ids = ids; loads_pending = 0 } in
      let talks = load_conversations (Map.keys m.contacts) ++ (render ∷ []) in
      let es6 : List Event = loaded_seen_ids (ok (d k_seen_ids)) ∷ [] in
      let es5 : List Event = loaded_outbox (ok (d k_outbox)) ∷ es6 in
      let es4 : List Event = loaded_cursor (ok (d k_cursor)) ∷ es5 in
      let es3 : List Event = loaded_contacts (ok (d k_contacts)) ∷ es4 in
      let es2 : List Event = loaded_profile (ok (d k_profile)) ∷ es3 in
      let e6 =
        run_cons env w (loaded_seen_ids (ok (d k_seen_ids))) [] m5 m6 m6
          (emit connect ∷ render ∷ []) [] last refl in
      let e5 =
        run_cons env w (loaded_outbox (ok (d k_outbox))) es6 m4 m5 m6 (render ∷ []) _
          (on_loaded_outbox-Holds env m4 refl refl (d k_outbox) m.outbox h.outbox) e6 in
      let e4 =
        run_cons env w (loaded_cursor (ok (d k_cursor))) es5 m3 m4 m6 (render ∷ []) _
          (on_loaded_cursor-Holds env m3 refl refl (d k_cursor) m.cursor h.cursor) e5 in
      let e3 =
        run_cons env w (loaded_contacts (ok (d k_contacts))) es4 m2 m3 m6 talks _
          (on_loaded_contacts-Holds env m2 refl refl (d k_contacts) m.contacts refl named
            h.contacts)
          e4 in
      let e2 =
        run_cons env w (loaded_profile (ok (d k_profile))) es3 m1 m2 m6 (render ∷ []) _
          (on_loaded_profile-Holds env m1 refl refl (d k_profile) m.profile h.profile) e3 in
      let e1 =
        run_cons env w (loaded_settings (ok (d k_settings))) es2 m0 m1 m6 (render ∷ []) _
          (on_loaded_settings-Holds env m0 refl refl (d k_settings) m.settings h.settings url) e2 in
      let rest = (render ∷ []) ++ ((render ∷ []) ++ ((emit connect ∷ render ∷ []) ++ [])) in
      let back : reads d (talks ++ rest) ≡ talk_events d (Map.keys m.contacts) =
        reads-append d talks rest
        ∙ (append-nil (reads d talks)
            ∙ reads-load_conversations d (Map.keys m.contacts) (render ∷ []) refl) in
      (ids, (render ∷ []) ++ ((render ∷ []) ++ (talks ++ rest)), e1, back)

on_identity_loaded_asks :
    (env : Env) (w : World) (sk : Bytes) (id : Identity) (d : Disk)
    → from_secret_bytes env.prims sk ≡ ok id
    → (asks : List Cmd) × (update env w (identity_loaded sk) default_model
        ≡ (waiting env sk id, asks))
      × (reads d asks ≡ first_events d)
unfolding update on_identity_loaded
on_identity_loaded_asks env w sk id d own = (
  kv_get k_settings loaded_settings
      ∷ kv_get k_profile loaded_profile
      ∷ kv_get k_contacts loaded_contacts
      ∷ kv_get k_cursor loaded_cursor
      ∷ kv_get k_outbox loaded_outbox
      ∷ kv_get k_seen_ids loaded_seen_ids
      ∷ render
      ∷ [],
  ground (arith, own),
  refl,
)

-- The two waves of a startup.
startup_waves :
    (env : Env) (w : World) (sk : Bytes) (d : Disk) {a b : Model} {asks cs : List Cmd}
    {es fs : List Event}
    → update env w (identity_loaded sk) default_model ≡ (a, asks)
    → reads d asks ≡ es
    → run env w es a ≡ (b, cs)
    → reads d cs ≡ fs
    → startup env w sk d ≡ (run env w fs b).0
startup_waves env w sk d {a = a} {b = b} asked first told back =
    ap
      (λ (s : Step).
        let told = run env w (reads d s.1) s.0 in (run env w (reads d told.1) told.0).0)
      asked
    ∙ (ap (λ (es : List Event). let told = run env w es a in (run env w (reads d told.1) told.0).0)
          first
        ∙ (ap (λ (s : Step). (run env w (reads d s.1) s.0).0) told
            ∙ ap (λ (es : List Event). (run env w es b).0) back))

-- A new core that is given the same key over storage that holds a model comes, once its reads are
-- answered, to the parts of that model that are stored, and to the conversations with its contacts.
pub startup_restores :
    (env : Env) (w : World) (sk : Bytes) {id : Identity} (d : Disk) (m : Model)
    → from_secret_bytes env.prims sk ≡ ok id
    → AreNamed m.contacts
    → normalize_server_url env m.settings.server_url ≡ some m.settings.server_url
    → IsStored env d m
    → let n = startup env w sk d in
      SameParts m (record n { messages = m.messages })
      × ((peer : Text)
          → or_empty (Map.get peer n.messages) ≡ (
              if is_some (Map.get peer m.contacts) then or_empty (Map.get peer m.messages) else []))
startup_restores env w sk {id = id} d m own named url h =
    let (ids, cs, told, back) = first_answers env w sk id d m h named url in
    let (asks, asked, first) = on_identity_loaded_asks env w sk id d own in
    let (same, talks, others) =
      run_talks env w d m.messages (Map.keys m.contacts) (restored env sk id m ids)
        (keys-Distinct m.contacts named.1) (λ p there. unfold Map.get in refl) h.talks in
    rw (startup_waves env w sk d asked first told back) (
      ground (arith, same, h.readable),
      λ peer. elim (Bool-cases (is_some (Map.get peer m.contacts))) [
        | inl known ↦ rw known (talks peer (contains-keys peer m.contacts ∙ known))
        | inr stranger ↦
            rw stranger
              (others peer (contains-keys peer m.contacts ∙ stranger) ∙ unfold Map.get in refl)
      ],
    )
