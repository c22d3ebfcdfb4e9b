-- ===== src/App/Ingest/Events.antt =====
-- The loop of `ingest_poll` over the events of a page.
use skrepka.Base.{
  suc, ◌-◌, ◌*◌, ◌/◌, Bool, true, false, Option, none, some, List, [], ◌∷◌, ◌++◌, Text, codes,
  text_len, same_text, leb, ltb, ◌==◌, if◌then◌else◌, ok, err, ℤ, pos, leb_ℤ, ltb_ℤ, min_ℤ, max_ℤ,
  saturating_add,
}
use skrepka.Base.Map
use skrepka.Base.Map.{Map}
use skrepka.Crypto.{Identity, decrypt, max_blob_len}
use skrepka.Domain.{Contact, new_contact, profile_item}
use skrepka.Protocol.{
  Payload, text, delivery_ack, profile, ParsedPayload, parse_payload, serialize_payload,
}
use skrepka.App.State.{Model, Env, max_contacts}
use skrepka.App.Guards.{fail, or_empty}
use skrepka.App.Conversation.{set_insert, contains, extend, insert_sorted, trim_history}
use skrepka.App.User.{is_blocked, is_some, own_payload}
use skrepka.App.Ingest.Fold.{
  PageFold, pending_of, keep_or, keep_photo, cap_ids, seeded, max_future_skew_ms, max_poll_events,
}

module _ (env : Env) (now : ℤ) where
  -- The contact made for a stranger who writes, and our profile queued for them.
  unfoldable pub welcome : Text → ℤ → PageFold → PageFold
  welcome sender ts g = record g {
    model = record m {
      contacts = Map.insert sender (new_contact sender [] ts) m.contacts;
      outbox =
          m.outbox
          ++ (profile_item sender (serialize_payload env.render_json (own_payload m.profile) ts)
              ∷ []);
    };
    contacts_dirty = true;
    outbox_dirty = true;
  }
    where
      m : Model
      m = g.model

  -- A text from a contact: the dedup, the insertion and the ack owed.
  unfoldable pub file_text : Text → ℤ → Text → Text → PageFold → PageFold
  file_text sender ts msg_id body g =
      let m = g.model in
      let convo = or_empty (Map.get sender m.messages) in
      let loaded = or_empty (Map.get sender m.seen_ids) in
      let known_ids = seeded convo loaded in
      let filed =
        insert_sorted convo
          (record { id = msg_id; body = body; ts = ts; outgoing = false; delivered = false }) in
      if contains msg_id known_ids
      then record g {
        model = record m {
          messages = Map.insert sender convo m.messages;
          seen_ids = Map.insert sender known_ids m.seen_ids;
        };
      }
      else record g {
        model = record m {
          messages = Map.insert sender (trim_history filed) m.messages;
          seen_ids =
              Map.insert sender (cap_ids env.hash_order filed (set_insert msg_id known_ids))
                m.seen_ids;
        };
        touched = set_insert sender g.touched;
        ack_targets =
            Map.insert sender (or_empty (Map.get sender g.ack_targets) ++ (msg_id ∷ []))
              g.ack_targets;
      }

  unfoldable pub ingest_text : Text → ℤ → Text → Text → PageFold → PageFold
  ingest_text sender ts msg_id body g =
      if is_some (Map.get sender g.model.contacts)
      then file_text sender ts msg_id body g
      else if leb max_contacts (Map.size g.model.contacts)
      then g
      else file_text sender ts msg_id body (welcome sender ts g)

  unfoldable pub ingest_ack : Text → ℤ → List Text → PageFold → PageFold
  ingest_ack sender ts ack_ids g =
      let old = pending_of (Map.get sender g.pending_acks) in
      record g {
        pending_acks =
            Map.insert sender
              (record { ts = if ltb_ℤ old.ts ts then ts else old.ts; ids = extend ack_ids old.ids })
              g.pending_acks;
      }

  abbrev pub update_profile : ℤ → Option Text → Option Text → Option Text → Contact → Contact
  update_profile ts display_name bio photo c = record c {
    display_name = keep_or c.display_name display_name;
    bio = keep_or c.bio bio;
    photo = keep_photo c.photo photo;
    last_profile_ts = min_ℤ ts now;
  }

  unfoldable pub ingest_profile :
      Text → ℤ → Option Text → Option Text → Option Text → PageFold → PageFold
  ingest_profile sender ts display_name bio photo g = elim (Map.get sender g.model.contacts) [
    | none ↦ g
    | some c ↦
        if leb_ℤ c.last_profile_ts ts
        then record g {
          model = record (g.model) {
            contacts =
                Map.insert sender (update_profile ts display_name bio photo c) g.model.contacts;
          };
          contacts_dirty = true;
        }
        else g
  ]

  unfoldable pub ingest_payload : Text → ℤ → Payload → PageFold → PageFold
  ingest_payload sender ts (text msg_id body) g = ingest_text sender ts msg_id body g
  ingest_payload sender ts (delivery_ack ack_ids) g = ingest_ack sender ts ack_ids g
  ingest_payload sender ts (profile display_name bio photo) g =
      ingest_profile sender ts display_name bio photo g

  -- The bounds on the `ts` that a sender chose.
  abbrev pub bounded_ts : ℤ → ℤ
  bounded_ts ts = min_ℤ (max_ℤ ts (pos 0)) (saturating_add now max_future_skew_ms)

  -- A payload that was decrypted and parsed.
  unfoldable pub ingest_parsed : Text → ParsedPayload → PageFold → PageFold
  ingest_parsed sender parsed g =
      let counted = record g { events_stored = suc g.events_stored } in
      if same_text sender g.model.my_pubkey
      then counted
      else if is_blocked (Map.get sender g.model.contacts)
      then counted
      else ingest_payload sender (bounded_ts parsed.ts) parsed.payload counted

  -- From the hex decoding of a blob on; a blob that fails at any step is dropped.
  unfoldable pub ingest_blob : Identity → Text → PageFold → PageFold
  ingest_blob id encrypted_blob g = elim (env.prims.hex_decode encrypted_blob) [
    | none ↦ g
    | some blob ↦ elim (decrypt env.prims id blob) [
      | err e ↦ g
      | ok dec ↦ elim (parse_payload env.is_base64 env.from_slice dec.plaintext) [
        | none ↦ g
        | some parsed ↦ ingest_parsed dec.sender_hex parsed g
      ]
    ]
  ]

  -- The `break` of an exhausted page.
  abbrev pub exhausted : ℤ → Text → PageFold → PageFold
  exhausted prev_cursor message g =
      let m = fail message g.model in
      record g { model = if g.events_stored == 0 then record m { cursor = prev_cursor } else m }

  -- One round of the loop over the events, and whether the loop goes on.
  unfoldable pub ingest_event : ℤ → Identity → Text → PageFold → PageFold × Bool
  ingest_event prev_cursor id encrypted_blob g =
      let size = text_len encrypted_blob in
      let counted = record g { events_processed = suc g.events_processed } in
      if ltb (max_blob_len * 2) size
      then (g, true)
      else if leb max_poll_events g.events_processed
      then (exhausted prev_cursor (codes "relay sent too many poll events") g, false)
      else if ltb g.budget (size / 2)
      then (exhausted prev_cursor (codes "relay sent an oversized poll page") counted, false)
      else (ingest_blob id encrypted_blob (record counted { budget = g.budget - size / 2 }), true)

  unfoldable pub ingest_events : ℤ → Identity → List Text → PageFold → PageFold
  ingest_events prev_cursor id [] g = g
  ingest_events prev_cursor id (ev ∷ evs) g =
      let (g', more) = ingest_event prev_cursor id ev g in
      elim more [ true ↦ ingest_events prev_cursor id evs g' | false ↦ g' ]
