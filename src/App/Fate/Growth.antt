-- ===== src/App/Fate/Growth.antt =====
-- A poll page only adds to the outbox.
use mathlib.Core.List.{append_assoc, append-nil}
use skrepka.Base.{
  ℕ, ◌≡◌, refl, sym, ◌∙◌, ◌⊎◌, inl, inr, false, List, [], ◌∷◌, ◌++◌, arith, Text, ℤ, ok, err,
  Option-cases, Result-cases, suc, ◌-◌, ◌/◌, text_len,
}
use skrepka.Base.Map.{Map}
use skrepka.Crypto.{Identity, decrypt, Decrypted}
use skrepka.Domain.{OutboxItem}
use skrepka.Protocol.{Payload, text, delivery_ack, profile, ParsedPayload, parse_payload}
use skrepka.App.State.{Model, Env, World, PollResp, Response, HttpResult, page_start, page_acks_at}
use skrepka.App.Guards.{
  persist_contacts, persist_outbox, persist_seen_ids, persist_messages, backoff_poll, identity,
}
use skrepka.App.Ingest.{
  PageFold, PendingAck, welcome, file_text, ingest_text, ingest_ack, ingest_profile, ingest_payload,
  ingest_parsed, ingest_blob, ingest_event, ingest_events, mark_contact, mark_messages, apply_ack,
  apply_acks, queue_acks, bounded_ts, persist_touched, persist_page, adopt_cursor, fold_page,
  ingest_poll, open_page,
}
use skrepka.App.Polling.{take_page, poll_answered, on_poll_result, chain_poll}

-- The second outbox is the first with items behind it.
abbrev pub Grows : List OutboxItem → List OutboxItem → Type 0
Grows xs ys = (more : List OutboxItem) × (ys ≡ xs ++ more)

pub Grows-eq : (xs ys : List OutboxItem) → ys ≡ xs → Grows xs ys
Grows-eq xs ys e = ([], e ∙ sym (append-nil xs))

Grows-trans : (xs ys zs : List OutboxItem) → Grows xs ys → Grows ys zs → Grows xs zs
Grows-trans xs ys zs (a, e) (b, f) = (a ++ b, rw (f, e) (append_assoc xs a b))

-- A branch that leaves the outbox, or does what another step does.
pub Grows-either : (xs ys zs : List OutboxItem) → (zs ≡ xs) ⊎ (zs ≡ ys) → Grows xs ys → Grows xs zs
Grows-either xs ys zs (inl e) g = Grows-eq xs zs e
Grows-either xs ys zs (inr e) g = rw e g

module _ (env : Env) (now : ℤ) where
  file_text_outbox :
      (sender : Text) (ts : ℤ) (msg_id body : Text) (g : PageFold)
      → (file_text env now sender ts msg_id body g).model.outbox ≡ g.model.outbox
  unfolding file_text
  file_text_outbox sender ts msg_id body g = ground arith

  ingest_text-Grows :
      (sender : Text) (ts : ℤ) (msg_id body : Text) (g : PageFold)
      → Grows g.model.outbox (ingest_text env now sender ts msg_id body g).model.outbox
  unfolding ingest_text
  ingest_text-Grows sender ts msg_id body g =
      Grows-either g.model.outbox (welcome env now sender ts g).model.outbox _
        (ground (
          arith,
          file_text_outbox sender ts msg_id body g,
          file_text_outbox sender ts msg_id body (welcome env now sender ts g),
        ))
        (unfold welcome in (_, refl))

  ingest_payload-Grows :
      (sender : Text) (ts : ℤ) (p : Payload) (g : PageFold)
      → Grows g.model.outbox (ingest_payload env now sender ts p g).model.outbox
  unfolding ingest_payload ingest_ack ingest_profile
  ingest_payload-Grows sender ts (text msg_id body) g = ingest_text-Grows sender ts msg_id body g
  ingest_payload-Grows sender ts (delivery_ack ids) g = Grows-eq _ _ refl
  ingest_payload-Grows sender ts (profile name bio photo) g = Grows-eq _ _ (ground arith)

  ingest_parsed-Grows :
      (sender : Text) (parsed : ParsedPayload) (g : PageFold)
      → Grows g.model.outbox (ingest_parsed env now sender parsed g).model.outbox
  unfolding ingest_parsed
  ingest_parsed-Grows sender parsed g = Grows-either _ _ _ (ground arith) (
      ingest_payload-Grows sender (bounded_ts env now parsed.ts) parsed.payload
        (record g { events_stored = suc g.events_stored }))

  -- A blob is dropped, or ends in a payload.
  pub ingest_blob_cases :
      (id : Identity) (blob : Text) (g : PageFold)
      → (ingest_blob env now id blob g ≡ g)
        ⊎ ((dec : Decrypted) × (parsed : ParsedPayload) × (ingest_blob env now id blob g
              ≡ ingest_parsed env now dec.sender_hex parsed g))
  unfolding ingest_blob
  ingest_blob_cases id blob g = elim (Option-cases (env.prims.hex_decode blob)) [
    | inl bad ↦ inl (ground arith)
    | inr (bytes, good) ↦ elim (Result-cases (decrypt env.prims id bytes)) [
      | inl (e, shut) ↦ inl (ground arith)
      | inr (dec, opened) ↦
          elim (Option-cases (parse_payload env.is_base64 env.from_slice dec.plaintext)) [
            | inl junk ↦ inl (ground arith)
            | inr (parsed, read) ↦ inr (dec, parsed, ground arith)
          ]
    ]
  ]

  ingest_blob-Grows :
      (id : Identity) (blob : Text) (g : PageFold)
      → Grows g.model.outbox (ingest_blob env now id blob g).model.outbox
  ingest_blob-Grows id blob g = elim (ingest_blob_cases id blob g) [
    | inl e ↦ rw e (Grows-eq _ _ refl)
    | inr (dec, parsed, e) ↦ rw e (ingest_parsed-Grows dec.sender_hex parsed g)
  ]

  ingest_event-Grows :
      (prev : ℤ) (id : Identity) (blob : Text) (g : PageFold)
      → Grows g.model.outbox (ingest_event env now prev id blob g).0.model.outbox
  unfolding ingest_event
  ingest_event-Grows prev id blob g = Grows-either _ _ _ (ground arith) (
      ingest_blob-Grows id blob (record g {
        events_processed = suc g.events_processed;
        budget = g.budget - text_len blob / 2;
      }))

  ingest_events-Grows :
      (prev : ℤ) (id : Identity) (evs : List Text) (g : PageFold)
      → Grows g.model.outbox (ingest_events env now prev id evs g).model.outbox
  unfolding ingest_events
  ingest_events-Grows prev id [] g = Grows-eq _ _ refl
  ingest_events-Grows prev id (ev ∷ evs) g =
      let one = ingest_event-Grows prev id ev g in
      let next = (ingest_event env now prev id ev g).0 in
      Grows-trans g.model.outbox next.model.outbox _ one (
        Grows-either next.model.outbox (ingest_events env now prev id evs next).model.outbox _
          (ground arith) (ingest_events-Grows prev id evs next))

  apply_acks_outbox :
      (acks : Map PendingAck) (g : PageFold) → (apply_acks now acks g).model.outbox ≡ g.model.outbox
  unfolding apply_acks apply_ack mark_contact mark_messages
  apply_acks_outbox [] g = refl
  apply_acks_outbox ((sender, pending) ∷ rest) g =
      let one : (apply_ack now sender pending g).model.outbox ≡ g.model.outbox = ground arith in
      apply_acks_outbox rest (apply_ack now sender pending g) ∙ one

  queue_acks-Grows :
      (acks : Map (List Text)) (g : PageFold)
      → Grows g.model.outbox (queue_acks env now acks g).model.outbox
  unfolding queue_acks
  queue_acks-Grows [] g = Grows-eq _ _ refl
  queue_acks-Grows ((sender, ids) ∷ rest) g =
      Grows-trans g.model.outbox _ _ (_, refl) (queue_acks-Grows rest _)

  persist_touched_outbox :
      (peers : List Text) (m : Model) → (persist_touched env peers m).0.outbox ≡ m.outbox
  unfolding persist_touched persist_messages
  persist_touched_outbox [] m = refl
  persist_touched_outbox (peer ∷ peers) m =
      let one : (persist_messages env peer m).0.outbox ≡ m.outbox = ground arith in
      persist_touched_outbox peers (persist_messages env peer m).0 ∙ one

module _ (env : Env) (w : World) where
  adopt_cursor_outbox :
      (page : PollResp) (m : Model) → (adopt_cursor env w page m).outbox ≡ m.outbox
  unfolding adopt_cursor
  adopt_cursor_outbox page m = ground arith

  persist_page_outbox : (g : PageFold) → (persist_page env g).0.outbox ≡ g.model.outbox
  unfolding persist_page persist_seen_ids persist_contacts persist_outbox
  persist_page_outbox g =
      ground
        (arith, persist_touched_outbox env (w.now page_start) (env.hash_order g.touched) g.model)

  fold_page-Grows :
      (id : Identity) (prev : ℤ) (page : PollResp) (m : Model)
      → Grows m.outbox (fold_page env w id prev page m).model.outbox
  unfolding fold_page
  fold_page-Grows id prev page m =
      let read = ingest_events env (w.now page_start) prev id page.events (open_page m) in
      let acked = apply_acks (w.now page_start) read.pending_acks read in
      Grows-trans m.outbox acked.model.outbox _
        (rw (apply_acks_outbox env (w.now page_start) read.pending_acks read)
          (ingest_events-Grows env (w.now page_start) prev id page.events (open_page m)))
        (queue_acks-Grows env (w.now page_acks_at) acked.ack_targets acked)

  pub ingest_poll-Grows :
      (page : PollResp) (m : Model) → Grows m.outbox (ingest_poll env w page m).0.outbox
  unfolding ingest_poll
  ingest_poll-Grows page m = elim (Option-cases (identity env (adopt_cursor env w page m))) [
    | inl nobody ↦ Grows-eq _ _ (ground (arith, adopt_cursor_outbox page m))
    | inr (id, mine) ↦
        Grows-either m.outbox _ _
          (ground (
            arith,
            adopt_cursor_outbox page m,
            persist_page_outbox (fold_page env w id m.cursor page (adopt_cursor env w page m)),
          ))
          (rw (adopt_cursor_outbox page m) at
            (fold_page-Grows id m.cursor page (adopt_cursor env w page m)))
  ]

  take_page-Grows : (resp : Response) (m : Model) → Grows m.outbox (take_page env w resp m).0.outbox
  unfolding take_page backoff_poll chain_poll
  take_page-Grows resp m = elim (Option-cases (env.decode_poll resp.body)) [
    | inl junk ↦ Grows-eq _ _ (ground arith)
    | inr (page, read) ↦
        Grows-either m.outbox (ingest_poll env w page m).0.outbox _ (ground arith)
          (ingest_poll-Grows page m)
  ]

  pub on_poll_result-Grows :
      (gen : ℕ) (res : HttpResult) (m : Model)
      → Grows m.outbox (on_poll_result env w gen res m).0.outbox
  unfolding on_poll_result poll_answered backoff_poll
  on_poll_result-Grows gen (err e) m = Grows-eq _ _ (ground arith)
  on_poll_result-Grows gen (ok resp) m =
      Grows-either m.outbox
        (take_page env w resp (record m { polling = false; poll_retries = 0 })).0.outbox _
        (ground arith) (take_page-Grows resp (record m { polling = false; poll_retries = 0 }))
