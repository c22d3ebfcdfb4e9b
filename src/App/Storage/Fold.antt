-- ===== src/App/Storage/Fold.antt =====
-- The loops of a poll page mark what they change as still to be written.
use skrepka.Base.{suc, ◌-◌, ◌/◌, ◌≡◌, ◌⊎◌, inl, inr, List, [], ◌∷◌, arith, Text, text_len, ℤ}
use skrepka.Base.Map.{Map}
use skrepka.Crypto.{Identity}
use skrepka.Protocol.{ParsedPayload}
use skrepka.App.State.{Env}
use skrepka.App.Ingest.{
  PageFold, PendingAck, ingest_parsed, ingest_payload, ingest_blob, ingest_event, ingest_events,
  bounded_ts, mark_contact, mark_messages, apply_ack, apply_acks, queue_acks,
}
use skrepka.App.Fate.Growth.{ingest_blob_cases}
use skrepka.App.Storage.{Disk}
use skrepka.App.Storage.Marks.{Follows, SameFold, SameFold-Follows}
use skrepka.App.Storage.Page.{ingest_payload-Follows, mark_contact-Follows, mark_messages-Follows}

module _ (env : Env) (d : Disk) (old now : ℤ) where
  -- A branch that leaves the state of the page, or does what another step does.
  either-Follows :
      (g f k : PageFold)
      → (k ≡ g) ⊎ (k ≡ f)
      → Follows env d old g
      → Follows env d old f
      → Follows env d old k
  either-Follows g f k (inl e) h t = rw e h
  either-Follows g f k (inr e) h t = rw e t

  ingest_parsed-Follows :
      (sender : Text) (parsed : ParsedPayload) (g : PageFold)
      → Follows env d old g
      → Follows env d old (ingest_parsed env now sender parsed g)
  unfolding ingest_parsed
  ingest_parsed-Follows sender parsed g h =
      let counted = record g { events_stored = suc g.events_stored } in
      let start = SameFold-Follows env d old g counted (ground arith) h in
      either-Follows counted
        (ingest_payload env now sender (bounded_ts env now parsed.ts) parsed.payload counted)
        (ingest_parsed env now sender parsed g) (ground arith) start
        (ingest_payload-Follows env d old now sender (bounded_ts env now parsed.ts) parsed.payload
          counted start)

  ingest_blob-Follows :
      (id : Identity) (blob : Text) (g : PageFold)
      → Follows env d old g
      → Follows env d old (ingest_blob env now id blob g)
  ingest_blob-Follows id blob g h = elim (ingest_blob_cases env now id blob g) [
    | inl e ↦ rw e h
    | inr (dec, parsed, e) ↦ rw e (ingest_parsed-Follows dec.sender_hex parsed g h)
  ]

  ingest_event-Follows :
      (prev : ℤ) (id : Identity) (blob : Text) (g : PageFold)
      → Follows env d old g
      → Follows env d old (ingest_event env now prev id blob g).0
  unfolding ingest_event
  ingest_event-Follows prev id blob g h =
      let counted = record g {
        events_processed = suc g.events_processed;
        budget = g.budget - text_len blob / 2;
      } in
      let after = (ingest_event env now prev id blob g).0 in
      let either : SameFold env d old g after ⊎ (after ≡ ingest_blob env now id blob counted) =
        ground arith in
      elim either [
        | inl same ↦ SameFold-Follows env d old g after same h
        | inr read ↦ rw read (
            ingest_blob-Follows id blob counted
              (SameFold-Follows env d old g counted (ground arith) h))
      ]

  pub ingest_events-Follows :
      (prev : ℤ) (id : Identity) (evs : List Text) (g : PageFold)
      → Follows env d old g
      → Follows env d old (ingest_events env now prev id evs g)
  unfolding ingest_events
  ingest_events-Follows prev id [] g h = h
  ingest_events-Follows prev id (ev ∷ evs) g h =
      let next = (ingest_event env now prev id ev g).0 in
      let one = ingest_event-Follows prev id ev g h in
      either-Follows next (ingest_events env now prev id evs next)
        (ingest_events env now prev id (ev ∷ evs) g) (ground arith) one
        (ingest_events-Follows prev id evs next one)

  pub apply_acks-Follows :
      (acks : Map PendingAck) (g : PageFold)
      → Follows env d old g
      → Follows env d old (apply_acks now acks g)
  unfolding apply_acks apply_ack
  apply_acks-Follows [] g h = h
  apply_acks-Follows ((sender, pending) ∷ later) g h =
      let one : Follows env d old (apply_ack now sender pending g) =
        either-Follows g (mark_messages now sender pending (mark_contact now sender pending g))
          (apply_ack now sender pending g) (ground arith) h
          (mark_messages-Follows env d old now sender pending (mark_contact now sender pending g)
            (mark_contact-Follows env d old now sender pending g h)) in
      apply_acks-Follows later (apply_ack now sender pending g) one

  pub queue_acks-Follows :
      (acks : Map (List Text)) (g : PageFold)
      → Follows env d old g
      → Follows env d old (queue_acks env now acks g)
  unfolding queue_acks
  queue_acks-Follows [] g h = h
  queue_acks-Follows ((sender, ids) ∷ later) g h = queue_acks-Follows later _ (record {
    readable = h.readable;
    settings = h.settings;
    profile = h.profile;
    contacts = h.contacts;
    cursor = h.cursor;
    outbox = tt;
    talks = h.talks;
  })
