-- ===== src/App/Storage/Writes.antt =====
-- The writes of the core bring storage up to date.
use skrepka.Base.{
  ◌≡◌, refl, false, ◌&&◌, not, [], ◌∷◌, ◌++◌, arith, Text, same_text, same_text_refl, codes,
  text_dec, ℕ_discrete, inl, inr, Bool-cases,
}
use skrepka.Base.Map
use skrepka.App.State.{
  Model, Env, Codec, kv_set, saved, k_profile, k_contacts, k_outbox, k_seen_ids,
}
use skrepka.App.Guards.{
  persist, persist_contacts, persist_profile, persist_outbox, persist_messages, persist_seen_ids,
  k_messages, or_empty,
}
use skrepka.App.Storage.{Disk, Stale, Saved, IsLossless, performed}

pub same_text-append : (k a b : Text) → same_text (k ++ a) (k ++ b) ≡ same_text a b
same_text-append [] a b = refl
same_text-append (c ∷ k) a b = ground (arith, same_text-append k a b)

pub k_messages_eq : (p q : Text) → same_text (k_messages p) (k_messages q) ≡ same_text p q
unfolding k_messages
k_messages_eq p q = same_text-append (codes "messages:") p q

-- A write with readable storage.
pub persist_readable :
    {A : Type 0} (key : Text) (codec : Codec A) (value : A) (m : Model)
    → m.kv_load_failed ≡ false
    → persist key codec value m ≡ (m, kv_set key (codec.encode value) saved ∷ [])
unfolding persist
persist_readable key codec value m h = rw h refl

module _ (env : Env) (d : Disk) (m : Model) (x : Stale) (h : Saved env d m x) where
  pub persist_contacts-Saved :
      IsLossless env.contacts_json
      → Saved env
          (performed (persist_contacts env m).1 d)
          (persist_contacts env m).0
          (record x { contacts = false })
  unfolding persist_contacts k_messages codes text_dec ℕ_discrete
  persist_contacts-Saved l =
      rw (persist_readable k_contacts env.contacts_json (Map.values m.contacts) m h.readable)
        (record {
          readable = h.readable;
          settings = h.settings;
          profile = h.profile;
          contacts = l.decode-encode (Map.values m.contacts);
          cursor = h.cursor;
          outbox = h.outbox;
          talks = h.talks;
        })

  pub persist_profile-Saved :
      IsLossless env.profile_json
      → Saved env
          (performed (persist_profile env m).1 d)
          (persist_profile env m).0
          (record x { profile = false })
  unfolding persist_profile k_messages codes text_dec ℕ_discrete
  persist_profile-Saved l =
      rw (persist_readable k_profile env.profile_json m.profile m h.readable) (record {
        readable = h.readable;
        settings = h.settings;
        profile = l.decode-encode m.profile;
        contacts = h.contacts;
        cursor = h.cursor;
        outbox = h.outbox;
        talks = h.talks;
      })

  pub persist_outbox-Saved :
      IsLossless env.outbox_json
      → Saved env
          (performed (persist_outbox env m).1 d)
          (persist_outbox env m).0
          (record x { outbox = false })
  unfolding persist_outbox k_messages codes text_dec ℕ_discrete
  persist_outbox-Saved l =
      rw (persist_readable k_outbox env.outbox_json m.outbox m h.readable) (record {
        readable = h.readable;
        settings = h.settings;
        profile = h.profile;
        contacts = h.contacts;
        cursor = h.cursor;
        outbox = l.decode-encode m.outbox;
        talks = h.talks;
      })

  -- The sets of ids are none of the parts that storage is compared on.
  pub persist_seen_ids-Saved :
      Saved env (performed (persist_seen_ids env m).1 d) (persist_seen_ids env m).0 x
  unfolding persist_seen_ids k_messages codes text_dec ℕ_discrete
  persist_seen_ids-Saved =
      rw (persist_readable k_seen_ids env.seen_ids_json m.seen_ids m h.readable) (record {
        readable = h.readable;
        settings = h.settings;
        profile = h.profile;
        contacts = h.contacts;
        cursor = h.cursor;
        outbox = h.outbox;
        talks = h.talks;
      })

  pub persist_messages-Saved :
      (peer : Text)
      → IsLossless env.messages_json
      → Saved env
          (performed (persist_messages env peer m).1 d)
          (persist_messages env peer m).0
          (record x { talks = λ p. not (same_text peer p) && x.talks p })
  unfolding persist_messages
  persist_messages-Saved peer l =
      rw
        (persist_readable (k_messages peer) env.messages_json (or_empty (Map.get peer m.messages)) m
          h.readable)
        (record {
          readable = h.readable;
          settings = unfold k_messages codes text_dec ℕ_discrete in h.settings;
          profile = unfold k_messages codes text_dec ℕ_discrete in h.profile;
          contacts = unfold k_messages codes text_dec ℕ_discrete in h.contacts;
          cursor = unfold k_messages codes text_dec ℕ_discrete in h.cursor;
          outbox = unfold k_messages codes text_dec ℕ_discrete in h.outbox;
          talks = λ p. elim (Bool-cases (same_text peer p)) [
            | inl mine ↦
                let e : peer ≡ p = ground arith in
                rw (mine, ← e, k_messages_eq peer peer, same_text_refl peer)
                  (l.decode-encode (or_empty (Map.get peer m.messages)))
            | inr other ↦ rw (other, k_messages_eq peer p, other) (h.talks p)
          ];
        })
