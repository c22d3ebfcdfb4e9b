-- ===== src/App/Storage/Actions.antt =====
-- The user's actions on the settings, the profile and the contacts write what they change.
use skrepka.Base.{
  ◌≡◌, refl, ◌⊎◌, inl, inr, Bool, true, false, Option, none, some, [], ◌∷◌, arith, Text, pos,
  Option-cases, codes, text_dec, ℕ_discrete,
}
use skrepka.Base.Map
use skrepka.Base.Map.{Map, get-insert, get-remove}
use skrepka.Phonemic.{try_parse_pubkey}
use skrepka.App.State.{
  Model, Env, World, render, emit, start_flush, add_contact_at, save_profile_at, conversations,
  k_settings, k_cursor,
}
use skrepka.App.Guards.{
  persist_contacts, persist_outbox, persist_profile, in_flight_count, detach_in_flight, k_messages,
}
use skrepka.App.Urls.{normalize_server_url}
use skrepka.App.Outbox.{and_then, and_render}
use skrepka.App.User.{
  on_set_server_url, on_add_contact, on_set_blocked, on_save_profile, upsert, set_flag,
  retain_others, broadcast, unblocked, own_payload,
}
use skrepka.Domain.{OwnProfile}
use skrepka.Protocol.{serialize_payload}
use skrepka.App.Latch.{NoWrites}
use skrepka.App.Storage.{
  Disk, clean, Saved, KeepsData, SameParts, Changes, Changes-Saved, performed, put, and_then-Saved,
  after-Saved, quiet-Saved,
}
use skrepka.App.Storage.Writes.{persist_contacts-Saved, persist_outbox-Saved, persist_profile-Saved}

module _ (env : Env) (codec : KeepsData env) (d : Disk) (m : Model) (h : Saved env d m clean) where
  -- The write of the contacts, and what follows.
  people_written :
      (n : Model)
      → Changes (record clean { contacts = true }) m n
      → Saved env
          (performed (and_render (persist_contacts env n)).1 d)
          (and_render (persist_contacts env n)).0
          clean
  people_written n c =
      after-Saved env d (persist_contacts env n) (and_render (persist_contacts env n)) (render ∷ [])
        clean refl (refl, tt) (ground arith)
        (persist_contacts-Saved env d n _ (Changes-Saved env d m n _ c h) codec.contacts)

  module _ (w : World) where
    pub on_add_contact-Saved :
        (input nickname : Text)
        → let s = on_add_contact env w input nickname m in Saved env (performed s.1 d) s.0 clean
    unfolding on_add_contact
    on_add_contact-Saved input nickname =
        let after = on_add_contact env w input nickname m in
        elim (Option-cases (try_parse_pubkey env.prims env.wide input)) [
          | inl junk ↦
              quiet-Saved env d m after clean (ground (arith, junk)) (ground (arith, junk)) h
          | inr (hex, read) ↦
              let n = record m {
                error = none;
                contacts = upsert hex nickname (w.now add_contact_at) m.contacts;
                page = conversations;
              } in
              let either : (NoWrites after.1 × SameParts m after.0)
                  ⊎ (after ≡ and_render (persist_contacts env n)) =
                ground (arith, read) in
              elim either [
                | inl (quiet, same) ↦ quiet-Saved env d m after clean quiet same h
                | inr runs ↦ rw runs (people_written n (ground arith))
              ]
        ]

    pub on_set_server_url-Saved :
        (input : Text)
        → let s = on_set_server_url env w input m in Saved env (performed s.1 d) s.0 clean
    unfolding on_set_server_url k_messages codes text_dec ℕ_discrete
    on_set_server_url-Saved input =
        let after = on_set_server_url env w input m in
        elim (Option-cases (normalize_server_url env input)) [
          | inl junk ↦
              quiet-Saved env d m after clean (ground (arith, junk)) (ground (arith, junk)) h
          | inr (url, good) ↦
              let wrote : performed after.1 d
                  ≡ put k_cursor (some (env.cursor_json.encode (pos 0)))
                      (put k_settings (some (env.settings_json.encode after.0.settings)) d) =
                ground (arith, good, h.readable) in
              let c : Changes (record clean { settings = true; cursor = some m.cursor }) m after.0 =
                ground (arith, good) in
              let moved : after.0.cursor ≡ pos 0 = ground (arith, good) in
              rw wrote (record {
                readable = rw c.kv_load_failed h.readable;
                settings = codec.settings.decode-encode after.0.settings;
                profile = rw c.profile h.profile;
                contacts = rw c.contacts h.contacts;
                cursor = rw moved (codec.cursor.decode-encode (pos 0));
                outbox = rw c.outbox h.outbox;
                talks = λ p. rw (c.talks p) (h.talks p);
              })
        ]

    pub on_set_blocked-Saved :
        (peer : Text) (blocked : Bool)
        → let s = on_set_blocked env w peer blocked m in Saved env (performed s.1 d) s.0 clean
    unfolding on_set_blocked detach_in_flight
    on_set_blocked-Saved peer false =
        people_written (record m { contacts = set_flag peer false m.contacts; error = none })
          (ground arith)
    on_set_blocked-Saved peer true =
        let n = detach_in_flight peer (record m {
          contacts = set_flag peer true m.contacts;
          error = none;
          outbox = retain_others peer m.outbox;
        }) in
        let both = record clean { contacts = true; outbox = true } in
        let mail = record clean { outbox = true } in
        let people = persist_contacts env n in
        let c : Changes both m n = ground arith in
        after-Saved env d (and_then people (persist_outbox env))
          (and_render (and_then people (persist_outbox env))) (render ∷ []) clean refl (refl, tt)
          (ground arith)
          (and_then-Saved env d people (persist_outbox env) mail clean
            (persist_contacts-Saved env d n both (Changes-Saved env d m n both c h) codec.contacts)
            (λ e k g. persist_outbox-Saved env e k mail g codec.outbox))

    pub on_save_profile-Saved :
        (name bio : Text) (photo : Option Text)
        → let s = on_save_profile env w name bio photo m in Saved env (performed s.1 d) s.0 clean
    unfolding on_save_profile
    on_save_profile-Saved name bio photo =
        let after = on_save_profile env w name bio photo m in
        let own : OwnProfile = record { display_name = name; bio = bio; photo = photo } in
        let n = record m {
          error = none;
          profile = own;
          page = conversations;
          outbox =
              broadcast (in_flight_count m)
                (serialize_payload env.render_json (own_payload own) (w.now save_profile_at))
                (unblocked (Map.values m.contacts)) m.outbox;
        } in
        let both = record clean { profile = true; outbox = true } in
        let mail = record clean { outbox = true } in
        let c : Changes both m n = ground arith in
        let mine = persist_profile env n in
        let all = and_then mine (persist_outbox env) in
        let either : (NoWrites after.1 × SameParts m after.0)
            ⊎ (after ≡ and_then all (λ k. (k, emit start_flush ∷ render ∷ []))) =
          ground arith in
        elim either [
          | inl (quiet, same) ↦ quiet-Saved env d m after clean quiet same h
          | inr runs ↦ rw runs (
              after-Saved env d all (and_then all (λ k. (k, emit start_flush ∷ render ∷ [])))
                (emit start_flush ∷ render ∷ []) clean refl (refl, (refl, tt)) (ground arith)
                (and_then-Saved env d mine (persist_outbox env) mail clean
                  (persist_profile-Saved env d n both (Changes-Saved env d m n both c h)
                    codec.profile)
                  (λ e k g. persist_outbox-Saved env e k mail g codec.outbox)))
        ]
