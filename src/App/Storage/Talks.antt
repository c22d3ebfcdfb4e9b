-- ===== src/App/Storage/Talks.antt =====
-- Sending a text and deleting a contact write the conversation and what goes with it.
use skrepka.Base.{
  ◌≡◌, refl, ◌⊎◌, inl, inr, true, false, not, none, List, [], ◌∷◌, ◌++◌, arith, Text, same_text,
  same_text_refl, if◌then◌else◌, Option-cases, Bool-cases, codes, text_dec, ℕ_discrete,
}
use skrepka.Base.Map
use skrepka.Base.Map.{Map, get-insert, get-remove}
use skrepka.Phonemic.{trim}
use skrepka.App.State.{Model, Env, World, render, emit, kv_delete, saved, start_flush, send_text_at}
use skrepka.App.Guards.{
  persist_contacts, persist_outbox, persist_messages, persist_seen_ids, detach_in_flight,
  k_messages, or_empty,
}
use skrepka.App.Conversation.{insert_sorted, trim_history}
use skrepka.App.Outbox.{and_then}
use skrepka.App.User.{
  on_delete_contact, on_send_text, send_text_to, post_text, retain_others, own_payload, is_some,
  leave_chat, clear_error,
}
use skrepka.Domain.{StoredMessage, new_contact, new_item, profile_item}
use skrepka.Protocol.{serialize_payload, text}
use skrepka.App.Latch.{NoWrites}
use skrepka.App.Storage.{
  Disk, Stale, Unless, clean, Saved, performed-append, KeepsData, SameParts, SameParts-Saved,
  Changes, Changes-Saved, performed, put, more_talks, and_then-Saved, after-Saved, quiet-Saved,
}
use skrepka.App.Storage.Writes.{
  persist_contacts-Saved, persist_outbox-Saved, persist_seen_ids-Saved, persist_messages-Saved,
  k_messages_eq,
}

-- Only one conversation differs.
insert_talk :
    (peer : Text) (convo : List StoredMessage) (messages : Map (List StoredMessage)) (p : Text)
    → Unless
        (same_text peer p)
        (or_empty (Map.get p (Map.insert peer convo messages)) ≡ or_empty (Map.get p messages))
insert_talk peer convo messages p = elim (Bool-cases (same_text peer p)) [
  | inl mine ↦ rw mine tt
  | inr other ↦ rw (other, get-insert p peer convo messages, other) refl
]

remove_talk :
    (peer : Text) (messages : Map (List StoredMessage)) (p : Text)
    → Unless
        (same_text peer p)
        (or_empty (Map.get p (Map.remove peer messages)) ≡ or_empty (Map.get p messages))
remove_talk peer messages p = elim (Bool-cases (same_text peer p)) [
  | inl mine ↦ rw mine tt
  | inr other ↦ rw (other, get-remove p peer messages, other) refl
]

persist_contacts_messages :
    (env : Env) (m : Model) → (persist_contacts env m).0.messages ≡ m.messages
unfolding persist_contacts
persist_contacts_messages env m = ground arith

-- The deletion of the conversation with a peer of whom the model has none.
forgotten :
    (env : Env) (x : Stale) (d : Disk) (m : Model) (peer : Text)
    → Map.get peer m.messages ≡ none
    → Saved env d m (record x { talks = λ p. same_text peer p })
    → Saved env (put (k_messages peer) none d) m (record x { talks = λ p. false })
forgotten env x d m peer gone h = record {
  readable = h.readable;
  settings = unfold k_messages codes text_dec ℕ_discrete in h.settings;
  profile = unfold k_messages codes text_dec ℕ_discrete in h.profile;
  contacts = unfold k_messages codes text_dec ℕ_discrete in h.contacts;
  cursor = unfold k_messages codes text_dec ℕ_discrete in h.cursor;
  outbox = unfold k_messages codes text_dec ℕ_discrete in h.outbox;
  talks = λ p. elim (Bool-cases (same_text peer p)) [
    | inl mine ↦
        let e : peer ≡ p = ground arith in
        rw (← e, k_messages_eq peer peer, same_text_refl peer, gone) refl
    | inr other ↦ rw (k_messages_eq peer p, other) (rw other at (h.talks p))
  ];
}

module _ (env : Env) (codec : KeepsData env) (d : Disk) (m : Model) (h : Saved env d m clean)
    (w : World) where
  post_text-Saved :
      (peer body : Text)
      → let s = post_text env w peer body m in Saved env (performed s.1 d) s.0 clean
  unfolding post_text
  post_text-Saved peer body =
      let ts = w.now send_text_at in
      let was_new = not (is_some (Map.get peer m.contacts)) in
      let convo = trim_history (
        insert_sorted (or_empty (Map.get peer m.messages))
          (record { id = w.uuid; body = body; ts = ts; outgoing = true; delivered = false })) in
      let text_json = serialize_payload env.render_json (text w.uuid body) ts in
      let profile_json = serialize_payload env.render_json (own_payload m.profile) ts in
      let n = record m {
        compose = [];
        messages = Map.insert peer convo m.messages;
        contacts =
            if was_new then Map.insert peer (new_contact peer [] ts) m.contacts else m.contacts;
        outbox =
            m.outbox
            ++ (new_item peer text_json
                ∷ (if was_new then profile_item peer profile_json ∷ [] else []));
      } in
      let mail = record clean { outbox = true } in
      let both = record clean { contacts = true; outbox = true } in
      let all = record both { talks = λ p. same_text peer p } in
      let talk = persist_messages env peer n in
      let people = and_then talk (persist_contacts env) in
      let sent = and_then people (persist_outbox env) in
      let c : Changes all m n = record {
        kv_load_failed = refl;
        settings = refl;
        profile = refl;
        contacts = tt;
        cursor = refl;
        outbox = tt;
        talks = insert_talk peer convo m.messages;
      } in
      let a =
        persist_messages-Saved env d n all (Changes-Saved env d m n all c h) peer codec.messages in
      let settled =
        more_talks env (performed talk.1 d) talk.0 _ (λ p. false) (λ p e. ground arith) a in
      let b =
        and_then-Saved env d talk (persist_contacts env) both mail settled
          (λ e k g. persist_contacts-Saved env e k both g codec.contacts) in
      after-Saved env d sent (post_text env w peer body m) (emit start_flush ∷ render ∷ []) clean
        refl (refl, (refl, tt)) (ground arith)
        (and_then-Saved env d people (persist_outbox env) mail clean b
          (λ e k g. persist_outbox-Saved env e k mail g codec.outbox))

  pub on_delete_contact-Saved :
      (peer : Text)
      → let s = on_delete_contact env w peer m in Saved env (performed s.1 d) s.0 clean
  unfolding on_delete_contact detach_in_flight
  on_delete_contact-Saved peer =
      let left = clear_error (
        leave_chat env w peer (
          detach_in_flight peer (record m {
            contacts = Map.remove peer m.contacts;
            messages = Map.remove peer m.messages;
            seen_ids = Map.remove peer m.seen_ids;
            outbox = retain_others peer m.outbox;
          }))) in
      let mail = record clean { outbox = true } in
      let talk = record mail { talks = λ p. same_text peer p } in
      let all = record talk { contacts = true } in
      let people = persist_contacts env left in
      let forgot = and_then people (λ k. (k, kv_delete (k_messages peer) saved ∷ [])) in
      let sent = and_then forgot (persist_outbox env) in
      let whole = and_then sent (persist_seen_ids env) in
      let parts : SameParts
          (record m {
            contacts = Map.remove peer m.contacts;
            messages = Map.remove peer m.messages;
            outbox = retain_others peer m.outbox;
          })
          left =
        ground arith in
      let c : Changes all m left = record {
        kv_load_failed = parts.kv_load_failed;
        settings = parts.settings;
        profile = parts.profile;
        contacts = tt;
        cursor = parts.cursor;
        outbox = tt;
        talks = rw parts.messages (remove_talk peer m.messages);
      } in
      let a =
        persist_contacts-Saved env d left all (Changes-Saved env d m left all c h) codec.contacts in
      let gone : Map.get peer people.0.messages ≡ none =
        rw
          (
            persist_contacts_messages env left,
            parts.messages,
            get-remove peer peer m.messages,
            same_text_refl peer,
          )
          refl in
      let b : Saved env (performed forgot.1 d) forgot.0 mail =
        rw (performed-append people.1 (kv_delete (k_messages peer) saved ∷ []) d)
          (forgotten env mail (performed people.1 d) people.0 peer gone a) in
      let f =
        and_then-Saved env d forgot (persist_outbox env) mail clean b
          (λ e k g. persist_outbox-Saved env e k mail g codec.outbox) in
      after-Saved env d whole (on_delete_contact env w peer m) (render ∷ []) clean refl (refl, tt)
        (ground arith)
        (and_then-Saved env d sent (persist_seen_ids env) clean clean f
          (λ e k g. persist_seen_ids-Saved env e k clean g))

module _ (env : Env) (codec : KeepsData env) (d : Disk) (m : Model) (h : Saved env d m clean)
    (w : World) where
  pub on_send_text-Saved : let s = on_send_text env w m in Saved env (performed s.1 d) s.0 clean
  unfolding on_send_text send_text_to
  on_send_text-Saved =
      let after = on_send_text env w m in
      elim (Option-cases m.active_peer) [
        | inl nobody ↦
            quiet-Saved env d m after clean (ground (arith, nobody)) (ground (arith, nobody)) h
        | inr (peer, talking) ↦
            let cleared = record m { error = none } in
            let either : (NoWrites after.1 × SameParts m after.0)
                ⊎ (after ≡ post_text env w peer (trim m.compose) cleared) =
              ground (arith, talking) in
            elim either [
              | inl (quiet, same) ↦ quiet-Saved env d m after clean quiet same h
              | inr runs ↦ rw runs (
                  post_text-Saved env codec d cleared
                    (SameParts-Saved env d m cleared clean (ground arith) h) w peer
                    (trim m.compose))
            ]
      ]
