-- ===== src/App/Tidy/Page.antt =====
-- A page leaves the conversations and the contacts in good order.
use skrepka.Base.{◌≡◌, refl, ◌⊎◌, inl, inr, false, Option, [], arith, Text, ℤ, min_ℤ, Option-cases}
use skrepka.Base.Map
use skrepka.Base.Map.{Map}
use skrepka.Domain.{new_contact}
use skrepka.Protocol.{Payload, text, delivery_ack, profile}
use skrepka.App.State.{Model, Env}
use skrepka.App.Guards.{or_empty}
use skrepka.App.Conversation.{insert_sorted, trim_history}
use skrepka.App.Ingest.{
  PageFold, PendingAck, welcome, file_text, ingest_text, ingest_ack, ingest_profile, ingest_payload,
  mark_contact, mark_messages, mark_delivered, update_profile,
}
use skrepka.App.Tidy.Histories.{
  AreGood, AreNamed, AreGood-insert, AreGood-get, AreNamed-insert, AreNamed-get, filed-IsGood,
  mark_delivered-IsGood,
}

-- Every conversation is in the order of its times and has at most a thousand messages, every contact
-- stands under its own key, and the keys of both maps go up.
pub record IsTidy (m : Model) : Type 0 where
  pub talks : AreGood m.messages
  pub people : AreNamed m.contacts

-- A step that leaves both maps.
pub record SameMaps (m n : Model) : Type 0 where
  pub messages : n.messages ≡ m.messages
  pub contacts : n.contacts ≡ m.contacts

pub SameMaps-IsTidy : (m n : Model) → SameMaps m n → IsTidy m → IsTidy n
SameMaps-IsTidy m n s h = record { talks = rw s.messages h.talks; people = rw s.contacts h.people }

module _ (env : Env) (now : ℤ) where
  welcome-IsTidy :
      (sender : Text) (ts : ℤ) (g : PageFold)
      → IsTidy g.model
      → IsTidy (welcome env now sender ts g).model
  unfolding welcome new_contact
  welcome-IsTidy sender ts g h = record {
    talks = h.talks;
    people = AreNamed-insert sender (new_contact sender [] ts) g.model.contacts refl h.people;
  }

  file_text-IsTidy :
      (sender : Text) (ts : ℤ) (msg_id body : Text) (g : PageFold)
      → IsTidy g.model
      → IsTidy (file_text env now sender ts msg_id body g).model
  unfolding file_text
  file_text-IsTidy sender ts msg_id body g h =
      let after = (file_text env now sender ts msg_id body g).model in
      let convo = or_empty (Map.get sender g.model.messages) in
      let filed = trim_history (
        insert_sorted convo
          (record { id = msg_id; body = body; ts = ts; outgoing = false; delivered = false })) in
      let good = AreGood-get sender g.model.messages h.talks in
      let either : (after.messages ≡ Map.insert sender convo g.model.messages)
          ⊎ (after.messages ≡ Map.insert sender filed g.model.messages) =
        ground arith in
      record {
        talks = elim either [
          | inl known ↦ rw known (AreGood-insert sender convo g.model.messages good h.talks)
          | inr fresh ↦
              rw fresh
                (AreGood-insert sender filed g.model.messages (filed-IsGood convo _ good) h.talks)
        ];
        people = let same : after.contacts ≡ g.model.contacts = ground arith in rw same h.people;
      }

  ingest_text-IsTidy :
      (sender : Text) (ts : ℤ) (msg_id body : Text) (g : PageFold)
      → IsTidy g.model
      → IsTidy (ingest_text env now sender ts msg_id body g).model
  unfolding ingest_text
  ingest_text-IsTidy sender ts msg_id body g h =
      let after = ingest_text env now sender ts msg_id body g in
      let cases : (after ≡ g)
          ⊎ ((after ≡ file_text env now sender ts msg_id body g)
              ⊎ (after ≡ file_text env now sender ts msg_id body (welcome env now sender ts g))) =
        ground arith in
      elim cases [
        | inl full ↦ rw full h
        | inr (inl known) ↦ rw known (file_text-IsTidy sender ts msg_id body g h)
        | inr (inr new) ↦ rw new (
            file_text-IsTidy sender ts msg_id body (welcome env now sender ts g)
              (welcome-IsTidy sender ts g h))
      ]

  ingest_profile-IsTidy :
      (sender : Text) (ts : ℤ) (name bio photo : Option Text) (g : PageFold)
      → IsTidy g.model
      → IsTidy (ingest_profile env now sender ts name bio photo g).model
  unfolding ingest_profile
  ingest_profile-IsTidy sender ts name bio photo g h =
      elim (Option-cases (Map.get sender g.model.contacts)) [
        | inl nobody ↦
            let e : ingest_profile env now sender ts name bio photo g ≡ g =
              ground (arith, nobody) in
            rw e h
        | inr (c, found) ↦
            let after = (ingest_profile env now sender ts name bio photo g).model in
            let told = update_profile env now ts name bio photo c in
            let talks : after.messages ≡ g.model.messages = ground (arith, found) in
            let either : (after.contacts ≡ g.model.contacts)
                ⊎ (after.contacts ≡ Map.insert sender told g.model.contacts) =
              ground (arith, found) in
            record {
              talks = rw talks h.talks;
              people = elim either [
                | inl old ↦ rw old h.people
                | inr new ↦ rw new (
                    AreNamed-insert sender told g.model.contacts
                      (AreNamed-get sender g.model.contacts h.people found) h.people)
              ];
            }
      ]

  pub ingest_payload-IsTidy :
      (sender : Text) (ts : ℤ) (p : Payload) (g : PageFold)
      → IsTidy g.model
      → IsTidy (ingest_payload env now sender ts p g).model
  unfolding ingest_payload ingest_ack
  ingest_payload-IsTidy sender ts (text msg_id body) g h =
      ingest_text-IsTidy sender ts msg_id body g h
  ingest_payload-IsTidy sender ts (delivery_ack ids) g h = record {
    talks = h.talks;
    people = h.people;
  }
  ingest_payload-IsTidy sender ts (profile name bio photo) g h =
      ingest_profile-IsTidy sender ts name bio photo g h

  pub mark_contact-IsTidy :
      (sender : Text) (pending : PendingAck) (g : PageFold)
      → IsTidy g.model
      → IsTidy (mark_contact now sender pending g).model
  unfolding mark_contact
  mark_contact-IsTidy sender pending g h = elim (Option-cases (Map.get sender g.model.contacts)) [
    | inl nobody ↦ let e : mark_contact now sender pending g ≡ g = ground (arith, nobody) in rw e h
    | inr (c, found) ↦
        let after = (mark_contact now sender pending g).model in
        let marked = record c { last_ack_ts = min_ℤ pending.ts now } in
        let talks : after.messages ≡ g.model.messages = ground (arith, found) in
        let people : after.contacts ≡ Map.insert sender marked g.model.contacts =
          ground (arith, found) in
        record {
          talks = rw talks h.talks;
          people = rw people (
              AreNamed-insert sender marked g.model.contacts
                (AreNamed-get sender g.model.contacts h.people found) h.people);
        }
  ]

  pub mark_messages-IsTidy :
      (sender : Text) (pending : PendingAck) (g : PageFold)
      → IsTidy g.model
      → IsTidy (mark_messages now sender pending g).model
  unfolding mark_messages
  mark_messages-IsTidy sender pending g h = elim (Option-cases (Map.get sender g.model.messages)) [
    | inl nothing ↦
        let e : mark_messages now sender pending g ≡ g = ground (arith, nothing) in rw e h
    | inr (convo, found) ↦
        let after = (mark_messages now sender pending g).model in
        let marked = mark_delivered pending.ids convo in
        let people : after.contacts ≡ g.model.contacts = ground (arith, found) in
        let talks : after.messages ≡ Map.insert sender marked g.model.messages =
          ground (arith, found) in
        let good = AreGood-get sender g.model.messages h.talks in
        record {
          talks = rw talks (
              AreGood-insert sender marked g.model.messages
                (mark_delivered-IsGood pending.ids convo (rw found at good)) h.talks);
          people = rw people h.people;
        }
  ]
