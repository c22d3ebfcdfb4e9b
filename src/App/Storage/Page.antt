-- ===== src/App/Storage/Page.antt =====
-- The steps of a poll page mark what they change as still to be written.
use skrepka.Base.{
  ◌≡◌, refl, ◌⊎◌, inl, inr, true, false, Option, arith, Text, ℤ, Option-cases, Bool-cases,
}
use skrepka.Base.Map
use skrepka.Base.Map.{Map, get-insert}
use skrepka.Protocol.{Payload, text, delivery_ack, profile}
use skrepka.App.State.{Env}
use skrepka.App.Guards.{or_empty}
use skrepka.App.Conversation.{set_insert, insert_sorted, trim_history}
use skrepka.App.Ingest.{
  PageFold, PendingAck, welcome, file_text, ingest_text, ingest_ack, ingest_profile, ingest_payload,
  mark_contact, mark_messages, mark_delivered, marks_any,
}
use skrepka.App.Storage.{Disk}
use skrepka.App.Storage.Marks.{
  mark_none, touched_talk, same_talk, Follows, SameFold, SameFold-Follows, people-Follows,
  Talks-Follows,
}

module _ (env : Env) (d : Disk) (old now : ℤ) where
  welcome-Follows :
      (sender : Text) (ts : ℤ) (g : PageFold)
      → Follows env d old g
      → Follows env d old (welcome env now sender ts g)
  unfolding welcome
  welcome-Follows sender ts g h = record {
    readable = h.readable;
    settings = h.settings;
    profile = h.profile;
    contacts = tt;
    cursor = h.cursor;
    outbox = tt;
    talks = h.talks;
  }

  file_text-Follows :
      (sender : Text) (ts : ℤ) (msg_id body : Text) (g : PageFold)
      → Follows env d old g
      → Follows env d old (file_text env now sender ts msg_id body g)
  unfolding file_text
  file_text-Follows sender ts msg_id body g h =
      let f = file_text env now sender ts msg_id body g in
      let convo = or_empty (Map.get sender g.model.messages) in
      let filed = trim_history (
        insert_sorted convo
          (record { id = msg_id; body = body; ts = ts; outgoing = false; delivered = false })) in
      let either : ((f.model.messages ≡ Map.insert sender convo g.model.messages)
            × (f.touched ≡ g.touched))
          ⊎ ((f.model.messages ≡ Map.insert sender filed g.model.messages)
              × (f.touched ≡ set_insert sender g.touched)) =
        ground arith in
      Talks-Follows env d old g f (ground arith)
        (elim either [
          | inl (known, same) ↦
              rw (known, same)
                (same_talk env d old sender convo g.touched g.model.messages refl h.talks)
          | inr (fresh, marked) ↦
              rw (fresh, marked)
                (touched_talk env d old sender filed g.touched g.model.messages h.talks)
        ])
        h

  ingest_text-Follows :
      (sender : Text) (ts : ℤ) (msg_id body : Text) (g : PageFold)
      → Follows env d old g
      → Follows env d old (ingest_text env now sender ts msg_id body g)
  unfolding ingest_text
  ingest_text-Follows sender ts msg_id body g h =
      let after = ingest_text env now sender ts msg_id body g in
      let cases : (after ≡ g)
          ⊎ ((after ≡ file_text env now sender ts msg_id body g)
              ⊎ (after ≡ file_text env now sender ts msg_id body (welcome env now sender ts g))) =
        ground arith in
      elim cases [
        | inl full ↦ rw full h
        | inr (inl known) ↦ rw known (file_text-Follows sender ts msg_id body g h)
        | inr (inr new) ↦ rw new (
            file_text-Follows sender ts msg_id body (welcome env now sender ts g)
              (welcome-Follows sender ts g h))
      ]

  ingest_profile-Follows :
      (sender : Text) (ts : ℤ) (name bio photo : Option Text) (g : PageFold)
      → Follows env d old g
      → Follows env d old (ingest_profile env now sender ts name bio photo g)
  unfolding ingest_profile
  ingest_profile-Follows sender ts name bio photo g h =
      let f = ingest_profile env now sender ts name bio photo g in
      let either : (f ≡ g)
          ⊎ ((f.contacts_dirty ≡ true)
              × SameFold env d old g (record f {
                model = record (f.model) { contacts = g.model.contacts };
                contacts_dirty = g.contacts_dirty;
              })) =
        ground arith in
      elim either [
        | inl old ↦ rw old h
        | inr (dirty, same) ↦ people-Follows env d old g f same dirty h
      ]

  pub ingest_payload-Follows :
      (sender : Text) (ts : ℤ) (p : Payload) (g : PageFold)
      → Follows env d old g
      → Follows env d old (ingest_payload env now sender ts p g)
  unfolding ingest_payload ingest_ack
  ingest_payload-Follows sender ts (text msg_id body) g h =
      ingest_text-Follows sender ts msg_id body g h
  ingest_payload-Follows sender ts (delivery_ack ids) g h =
      SameFold-Follows env d old g (ingest_ack env now sender ts ids g) (ground arith) h
  ingest_payload-Follows sender ts (profile name bio photo) g h =
      ingest_profile-Follows sender ts name bio photo g h

  pub mark_contact-Follows :
      (sender : Text) (pending : PendingAck) (g : PageFold)
      → Follows env d old g
      → Follows env d old (mark_contact now sender pending g)
  unfolding mark_contact
  mark_contact-Follows sender pending g h =
      let f = mark_contact now sender pending g in
      let either : (f ≡ g)
          ⊎ ((f.contacts_dirty ≡ true)
              × SameFold env d old g (record f {
                model = record (f.model) { contacts = g.model.contacts };
                contacts_dirty = g.contacts_dirty;
              })) =
        ground arith in
      elim either [
        | inl old ↦ rw old h
        | inr (dirty, same) ↦ people-Follows env d old g f same dirty h
      ]

  pub mark_messages-Follows :
      (sender : Text) (pending : PendingAck) (g : PageFold)
      → Follows env d old g
      → Follows env d old (mark_messages now sender pending g)
  unfolding mark_messages
  mark_messages-Follows sender pending g h = elim (Option-cases (Map.get sender g.model.messages)) [
    | inl nothing ↦
        let e : mark_messages now sender pending g ≡ g = ground (arith, nothing) in rw e h
    | inr (convo, found) ↦
        let f = mark_messages now sender pending g in
        let marked = mark_delivered pending.ids convo in
        let talks : f.model.messages ≡ Map.insert sender marked g.model.messages =
          ground (arith, found) in
        Talks-Follows env d old g f (ground (arith, found))
          (elim (Bool-cases (marks_any pending.ids convo)) [
            | inl some_new ↦
                let touched : f.touched ≡ set_insert sender g.touched = ground (arith, found) in
                rw (talks, touched)
                  (touched_talk env d old sender marked g.touched g.model.messages h.talks)
            | inr no_new ↦
                let touched : f.touched ≡ g.touched = ground (arith, found) in
                let same : or_empty (Map.get sender g.model.messages) ≡ marked =
                  ground (arith, found, mark_none pending.ids convo no_new) in
                rw (talks, touched)
                  (same_talk env d old sender marked g.touched g.model.messages same h.talks)
          ])
          h
  ]
