-- ===== src/App/Advance.antt =====
-- How far a page moves the cursor.
use skrepka.Base.{
  ℕ, ◌-◌, ◌/◌, suc, ◌≡◌, refl, ◌∙◌, ◌⊎◌, inl, inr, false, List, [], ◌∷◌, arith, Text, text_len, ℤ,
  pos, ◌≤ℤ◌, max_ℤ, saturating_add, ok, err, Option-cases,
}
use skrepka.Base.Map.{Map}
use skrepka.Crypto.{Identity}
use skrepka.Protocol.{Payload, text, delivery_ack, profile, ParsedPayload}
use skrepka.App.State.{
  Model, Env, World, PollResp, Response, HttpResult, page_start, page_acks_at, page_cursor_at,
}
use skrepka.App.Guards.{
  persist_contacts, persist_outbox, persist_seen_ids, persist_messages, backoff_poll, identity,
}
use skrepka.App.Ingest.{
  PageFold, PendingAck, welcome, file_text, ingest_text, ingest_ack, ingest_profile, ingest_payload,
  ingest_parsed, ingest_blob, ingest_event, ingest_events, mark_contact, mark_messages, apply_ack,
  apply_acks, queue_acks, bounded_ts, persist_touched, persist_page, adopt_cursor, fold_page,
  ingest_poll, open_page,
}
use skrepka.App.Polling.{take_page, poll_answered, on_poll_result, chain_poll}
use skrepka.App.Fate.Growth.{ingest_blob_cases}

-- From the old cursor up to the clock and a minute.
abbrev pub Within : World → ℤ → ℤ → Type 0
Within w old new =
    (old ≤ℤ new) × (new ≤ℤ max_ℤ old (saturating_add (w.now page_cursor_at) (pos 60_000)))

max_ℤ_left : (a b : ℤ) → (a ≤ℤ a) × (a ≤ℤ max_ℤ a b)
max_ℤ_left a b = ground arith

Within-refl : (w : World) (old new : ℤ) → new ≡ old → Within w old new
Within-refl w old new e = rw e (max_ℤ_left old (saturating_add (w.now page_cursor_at) (pos 60_000)))

module _ (env : Env) (now : ℤ) where
  ingest_payload_cursor :
      (sender : Text) (ts : ℤ) (p : Payload) (g : PageFold)
      → (ingest_payload env now sender ts p g).model.cursor ≡ g.model.cursor
  unfolding ingest_payload ingest_text ingest_ack ingest_profile welcome file_text
  ingest_payload_cursor sender ts (text msg_id body) g = ground arith
  ingest_payload_cursor sender ts (delivery_ack ids) g = refl
  ingest_payload_cursor sender ts (profile name bio photo) g = ground arith

  ingest_parsed_cursor :
      (sender : Text) (parsed : ParsedPayload) (g : PageFold)
      → (ingest_parsed env now sender parsed g).model.cursor ≡ g.model.cursor
  unfolding ingest_parsed
  ingest_parsed_cursor sender parsed g = ground (
    arith,
    ingest_payload_cursor sender (bounded_ts env now parsed.ts) parsed.payload
        (record g { events_stored = suc g.events_stored }),
  )

  ingest_blob_cursor :
      (id : Identity) (blob : Text) (g : PageFold)
      → (ingest_blob env now id blob g).model.cursor ≡ g.model.cursor
  ingest_blob_cursor id blob g = elim (ingest_blob_cases env now id blob g) [
    | inl e ↦ rw e refl
    | inr (dec, parsed, e) ↦ rw e (ingest_parsed_cursor dec.sender_hex parsed g)
  ]

  ingest_event_cursor :
      (prev : ℤ) (id : Identity) (blob : Text) (g : PageFold)
      → let n = (ingest_event env now prev id blob g).0.model in
        (n.cursor ≡ g.model.cursor) ⊎ (n.cursor ≡ prev)
  unfolding ingest_event
  ingest_event_cursor prev id blob g = ground (
    arith,
    ingest_blob_cursor id blob (record g {
      events_processed = suc g.events_processed;
      budget = g.budget - text_len blob / 2;
    }),
  )

  ingest_events_cursor :
      (prev : ℤ) (id : Identity) (evs : List Text) (g : PageFold)
      → let n = (ingest_events env now prev id evs g).model in
        (n.cursor ≡ g.model.cursor) ⊎ (n.cursor ≡ prev)
  unfolding ingest_events
  ingest_events_cursor prev id [] g = inl refl
  ingest_events_cursor prev id (ev ∷ evs) g =
      let next = (ingest_event env now prev id ev g).0 in
      ground (arith, ingest_event_cursor prev id ev g, ingest_events_cursor prev id evs next)

  apply_acks_cursor :
      (acks : Map PendingAck) (g : PageFold) → (apply_acks now acks g).model.cursor ≡ g.model.cursor
  unfolding apply_acks apply_ack mark_contact mark_messages
  apply_acks_cursor [] g = refl
  apply_acks_cursor ((sender, pending) ∷ later) g =
      let one : (apply_ack now sender pending g).model.cursor ≡ g.model.cursor = ground arith in
      apply_acks_cursor later (apply_ack now sender pending g) ∙ one

  queue_acks_cursor :
      (acks : Map (List Text)) (g : PageFold)
      → (queue_acks env now acks g).model.cursor ≡ g.model.cursor
  unfolding queue_acks
  queue_acks_cursor [] g = refl
  queue_acks_cursor ((sender, ids) ∷ later) g = queue_acks_cursor later _

  persist_touched_cursor :
      (peers : List Text) (m : Model) → (persist_touched env peers m).0.cursor ≡ m.cursor
  unfolding persist_touched persist_messages
  persist_touched_cursor [] m = refl
  persist_touched_cursor (peer ∷ peers) m =
      let one : (persist_messages env peer m).0.cursor ≡ m.cursor = ground arith in
      persist_touched_cursor peers (persist_messages env peer m).0 ∙ one

module _ (env : Env) (w : World) where
  persist_page_cursor : (g : PageFold) → (persist_page env g).0.cursor ≡ g.model.cursor
  unfolding persist_page persist_seen_ids persist_contacts persist_outbox
  persist_page_cursor g =
      ground
        (arith, persist_touched_cursor env (w.now page_start) (env.hash_order g.touched) g.model)

  fold_page_cursor :
      (id : Identity) (prev : ℤ) (page : PollResp) (m : Model)
      → let n = (fold_page env w id prev page m).model in (n.cursor ≡ m.cursor) ⊎ (n.cursor ≡ prev)
  unfolding fold_page
  fold_page_cursor id prev page m =
      let read = ingest_events env (w.now page_start) prev id page.events (open_page m) in
      let acked = apply_acks (w.now page_start) read.pending_acks read in
      let kept =
        queue_acks_cursor env (w.now page_acks_at) acked.ack_targets acked
        ∙ apply_acks_cursor env (w.now page_start) read.pending_acks read in
      elim (ingest_events_cursor env (w.now page_start) prev id page.events (open_page m)) [
        | inl stays ↦ inl (kept ∙ stays)
        | inr back ↦ inr (kept ∙ back)
      ]

  -- The cursor of the model after a page.
  ingest_poll_cursor :
      (page : PollResp) (m : Model)
      → let n = (ingest_poll env w page m).0 in
        (n.cursor ≡ m.cursor) ⊎ (n.cursor ≡ (adopt_cursor env w page m).cursor)
  unfolding ingest_poll
  ingest_poll_cursor page m =
      let adopted = adopt_cursor env w page m in
      elim (Option-cases (identity env adopted)) [
        | inl nobody ↦ ground (arith, nobody)
        | inr (id, mine) ↦ ground (
          arith,
          mine,
          persist_page_cursor (fold_page env w id m.cursor page adopted),
          fold_page_cursor id m.cursor page adopted,
        )
      ]

  adopt_cursor-Within :
      (page : PollResp) (m : Model) → Within w m.cursor (adopt_cursor env w page m).cursor
  unfolding adopt_cursor
  adopt_cursor-Within page m = ground arith

  ingest_poll-Within :
      (page : PollResp) (m : Model) → Within w m.cursor (ingest_poll env w page m).0.cursor
  ingest_poll-Within page m = elim (ingest_poll_cursor page m) [
    | inl stays ↦ Within-refl w m.cursor _ stays
    | inr moves ↦ rw moves (adopt_cursor-Within page m)
  ]

  take_page-Within :
      (resp : Response) (m : Model) → Within w m.cursor (take_page env w resp m).0.cursor
  unfolding take_page backoff_poll chain_poll
  take_page-Within resp m = elim (Option-cases (env.decode_poll resp.body)) [
    | inl junk ↦ Within-refl w m.cursor _ (ground (arith, junk))
    | inr (page, read) ↦
        let either : ((take_page env w resp m).0.cursor ≡ m.cursor)
            ⊎ ((take_page env w resp m).0.cursor ≡ (ingest_poll env w page m).0.cursor) =
          ground (arith, read) in
        elim either [
          | inl stays ↦ Within-refl w m.cursor _ stays
          | inr runs ↦ rw runs (ingest_poll-Within page m)
        ]
  ]

-- Whatever the relay answers to a poll, the cursor does not go back, and it does not go beyond both
-- its old place and a minute after the clock.
pub on_poll_result-Within :
    (env : Env) (w : World) (gen : ℕ) (res : HttpResult) (m : Model)
    → Within w m.cursor (on_poll_result env w gen res m).0.cursor
unfolding on_poll_result poll_answered backoff_poll
on_poll_result-Within env w gen (err e) m = Within-refl w m.cursor _ (ground arith)
on_poll_result-Within env w gen (ok resp) m =
    let landed = record m { polling = false; poll_retries = 0 } in
    let either : ((on_poll_result env w gen (ok resp) m).0.cursor ≡ m.cursor)
        ⊎ ((on_poll_result env w gen (ok resp) m).0.cursor
            ≡ (take_page env w resp landed).0.cursor) =
      ground arith in
    elim either [
      | inl stays ↦ Within-refl w m.cursor _ stays
      | inr runs ↦ rw runs (take_page-Within env w resp landed)
    ]
