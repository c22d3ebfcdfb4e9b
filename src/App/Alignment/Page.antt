-- ===== src/App/Alignment/Page.antt =====
-- A poll page keeps the batch in flight at the head of the outbox.
use skrepka.Base.{ℕ, List, [], ◌∷◌, arith, Text, ℤ, ok, err}
use skrepka.Base.Map.{Map}
use skrepka.Crypto.{Identity}
use skrepka.Protocol.{Payload, text, delivery_ack, profile}
use skrepka.App.State.{Model, Env, World, PollResp, Response, HttpResult, page_start}
use skrepka.App.Guards.{
  persist_contacts, persist_outbox, persist_seen_ids, persist_messages, backoff_poll,
}
use skrepka.App.Ingest.{
  PageFold, PendingAck, welcome, file_text, ingest_text, ingest_ack, ingest_profile, ingest_payload,
  ingest_parsed, ingest_blob, ingest_event, ingest_events, mark_contact, mark_messages, apply_ack,
  apply_acks, queue_acks, persist_touched, persist_page, adopt_cursor, fold_page, ingest_poll,
}
use skrepka.App.Polling.{take_page, poll_answered, on_poll_result, chain_poll}
use skrepka.App.Alignment.Queue.{IsAligned, Carried-append}

module _ (env : Env) (now : ℤ) where
  welcome-IsAligned :
      (sender : Text) (ts : ℤ) (g : PageFold)
      → IsAligned g.model
      → IsAligned (welcome env now sender ts g).model
  unfolding welcome
  welcome-IsAligned sender ts g h = record {
    idle = h.idle;
    carried = Carried-append g.model.in_flight g.model.outbox _ h.carried;
  }

  file_text-IsAligned :
      (sender : Text) (ts : ℤ) (msg_id body : Text) (g : PageFold)
      → IsAligned g.model
      → IsAligned (file_text env now sender ts msg_id body g).model
  unfolding file_text
  file_text-IsAligned sender ts msg_id body g h = ground arith

  ingest_text-IsAligned :
      (sender : Text) (ts : ℤ) (msg_id body : Text) (g : PageFold)
      → IsAligned g.model
      → IsAligned (ingest_text env now sender ts msg_id body g).model
  unfolding ingest_text
  ingest_text-IsAligned sender ts msg_id body g h =
      grind (arith, welcome-IsAligned, file_text-IsAligned)

  ingest_payload-IsAligned :
      (sender : Text) (ts : ℤ) (p : Payload) (g : PageFold)
      → IsAligned g.model
      → IsAligned (ingest_payload env now sender ts p g).model
  unfolding ingest_payload ingest_ack ingest_profile
  ingest_payload-IsAligned sender ts (text msg_id body) g h =
      ingest_text-IsAligned sender ts msg_id body g h
  ingest_payload-IsAligned sender ts (delivery_ack ids) g h = ground arith
  ingest_payload-IsAligned sender ts (profile name bio photo) g h = ground arith

  ingest_blob-IsAligned :
      (id : Identity) (blob : Text) (g : PageFold)
      → IsAligned g.model
      → IsAligned (ingest_blob env now id blob g).model
  unfolding ingest_blob ingest_parsed
  ingest_blob-IsAligned id blob g h = grind (arith, ingest_payload-IsAligned)

  ingest_event-IsAligned :
      (prev : ℤ) (id : Identity) (blob : Text) (g : PageFold)
      → IsAligned g.model
      → IsAligned (ingest_event env now prev id blob g).0.model
  unfolding ingest_event
  ingest_event-IsAligned prev id blob g h = grind (arith, ingest_blob-IsAligned)

  pub ingest_events-IsAligned :
      (prev : ℤ) (id : Identity) (evs : List Text) (g : PageFold)
      → IsAligned g.model
      → IsAligned (ingest_events env now prev id evs g).model
  unfolding ingest_events
  ingest_events-IsAligned prev id [] g h = h
  ingest_events-IsAligned prev id (ev ∷ evs) g h =
      grind (arith, ingest_event-IsAligned prev id ev g h, ingest_events-IsAligned prev id evs)

  apply_acks-IsAligned :
      (acks : Map PendingAck) (g : PageFold)
      → IsAligned g.model
      → IsAligned (apply_acks now acks g).model
  unfolding apply_acks apply_ack mark_contact mark_messages
  apply_acks-IsAligned [] g h = h
  apply_acks-IsAligned ((sender, pending) ∷ rest) g h =
      apply_acks-IsAligned rest (apply_ack now sender pending g) (ground arith)

  queue_acks-IsAligned :
      (acks : Map (List Text)) (g : PageFold)
      → IsAligned g.model
      → IsAligned (queue_acks env now acks g).model
  unfolding queue_acks
  queue_acks-IsAligned [] g h = h
  queue_acks-IsAligned ((sender, ids) ∷ rest) g h = queue_acks-IsAligned rest _ (record {
    idle = h.idle;
    carried = Carried-append g.model.in_flight g.model.outbox _ h.carried;
  })

  persist_touched-IsAligned :
      (peers : List Text) (m : Model) → IsAligned m → IsAligned (persist_touched env peers m).0
  unfolding persist_touched persist_messages
  persist_touched-IsAligned [] m h = h
  persist_touched-IsAligned (peer ∷ peers) m h =
      persist_touched-IsAligned peers (persist_messages env peer m).0 (ground arith)

module _ (env : Env) (w : World) where
  persist_page-IsAligned : (g : PageFold) → IsAligned g.model → IsAligned (persist_page env g).0
  unfolding persist_page persist_seen_ids persist_contacts persist_outbox
  persist_page-IsAligned g h =
      ground (
        arith,
        persist_touched-IsAligned env (w.now page_start) (env.hash_order g.touched) g.model h,
      )

  ingest_poll-IsAligned :
      (page : PollResp) (m : Model) → IsAligned m → IsAligned (ingest_poll env w page m).0
  unfolding ingest_poll adopt_cursor fold_page
  ingest_poll-IsAligned page m h = grind (
    arith, persist_page-IsAligned, queue_acks-IsAligned, apply_acks-IsAligned,
    ingest_events-IsAligned,
  )

  take_page-IsAligned :
      (resp : Response) (m : Model) → IsAligned m → IsAligned (take_page env w resp m).0
  unfolding take_page backoff_poll chain_poll
  take_page-IsAligned resp m h = grind (arith, ingest_poll-IsAligned)

  pub on_poll_result-IsAligned :
      (gen : ℕ) (res : HttpResult) (m : Model)
      → IsAligned m
      → IsAligned (on_poll_result env w gen res m).0
  unfolding on_poll_result poll_answered backoff_poll
  on_poll_result-IsAligned gen (err e) m h = ground arith
  on_poll_result-IsAligned gen (ok resp) m h = grind (arith, take_page-IsAligned)
