-- ===== src/App/Tidy/Poll.antt =====
-- What the steps of a page keep, the answer to a poll keeps.
use skrepka.Base.{
  ℕ, suc, ◌-◌, ◌/◌, ◌≡◌, refl, ◌⊎◌, inl, inr, false, List, [], ◌∷◌, arith, Text, text_len, ℤ, ok,
  err, Option-cases,
}
use skrepka.Base.Map.{Map}
use skrepka.Crypto.{Identity}
use skrepka.Protocol.{Payload, ParsedPayload}
use skrepka.App.State.{Model, Env, World, PollResp, Response, HttpResult, page_start, page_acks_at}
use skrepka.App.Guards.{
  persist_contacts, persist_outbox, persist_seen_ids, persist_messages, backoff_poll, identity,
}
use skrepka.App.Ingest.{
  PageFold, PendingAck, ingest_payload, ingest_parsed, ingest_blob, ingest_event, ingest_events,
  mark_contact, mark_messages, apply_ack, apply_acks, queue_acks, bounded_ts, persist_touched,
  persist_page, adopt_cursor, fold_page, ingest_poll, open_page,
}
use skrepka.App.Polling.{take_page, poll_answered, on_poll_result, chain_poll}
use skrepka.App.Fate.Growth.{ingest_blob_cases}
use skrepka.App.Tidy.Page.{SameMaps}

-- A branch that leaves the state, or does what another step does.
either-keeps : (P : Model → Type 0) (m n k : Model) → (k ≡ m) ⊎ (k ≡ n) → P m → P n → P k
either-keeps P m n k (inl e) h g = rw e h
either-keeps P m n k (inr e) h g = rw e g

-- A predicate that the steps of a page keep: it is about the two maps only, and holds after a payload
-- and after an ack if it holds before.
pub record IsKept (env : Env) (P : Model → Type 0) : Type 0 where
  pub same : (m n : Model) → SameMaps m n → P m → P n
  pub payload :
      (now : ℤ) (sender : Text) (ts : ℤ) (p : Payload) (g : PageFold)
      → P g.model
      → P (ingest_payload env now sender ts p g).model
  pub contact :
      (now : ℤ) (sender : Text) (pending : PendingAck) (g : PageFold)
      → P g.model
      → P (mark_contact now sender pending g).model
  pub messages :
      (now : ℤ) (sender : Text) (pending : PendingAck) (g : PageFold)
      → P g.model
      → P (mark_messages now sender pending g).model

module _ (env : Env) (P : Model → Type 0) (rule : IsKept env P) (now : ℤ) where
  ingest_parsed-keeps :
      (sender : Text) (parsed : ParsedPayload) (g : PageFold)
      → P g.model
      → P (ingest_parsed env now sender parsed g).model
  unfolding ingest_parsed
  ingest_parsed-keeps sender parsed g h =
      let counted = record g { events_stored = suc g.events_stored } in
      let read =
        ingest_payload env now sender (bounded_ts env now parsed.ts) parsed.payload counted in
      either-keeps P g.model read.model _ (ground arith) h
        (rule.payload now sender (bounded_ts env now parsed.ts) parsed.payload counted h)

  ingest_blob-keeps :
      (id : Identity) (blob : Text) (g : PageFold)
      → P g.model
      → P (ingest_blob env now id blob g).model
  ingest_blob-keeps id blob g h = elim (ingest_blob_cases env now id blob g) [
    | inl e ↦ rw e h
    | inr (dec, parsed, e) ↦ rw e (ingest_parsed-keeps dec.sender_hex parsed g h)
  ]

  ingest_event-keeps :
      (prev : ℤ) (id : Identity) (blob : Text) (g : PageFold)
      → P g.model
      → P (ingest_event env now prev id blob g).0.model
  unfolding ingest_event
  ingest_event-keeps prev id blob g h =
      let counted = record g {
        events_processed = suc g.events_processed;
        budget = g.budget - text_len blob / 2;
      } in
      let after = (ingest_event env now prev id blob g).0.model in
      let either : SameMaps g.model after ⊎ (after ≡ (ingest_blob env now id blob counted).model) =
        ground arith in
      elim either [
        | inl same ↦ rule.same g.model after same h
        | inr read ↦ rw read (ingest_blob-keeps id blob counted h)
      ]

  ingest_events-keeps :
      (prev : ℤ) (id : Identity) (evs : List Text) (g : PageFold)
      → P g.model
      → P (ingest_events env now prev id evs g).model
  unfolding ingest_events
  ingest_events-keeps prev id [] g h = h
  ingest_events-keeps prev id (ev ∷ evs) g h =
      let next = (ingest_event env now prev id ev g).0 in
      let one = ingest_event-keeps prev id ev g h in
      either-keeps P next.model (ingest_events env now prev id evs next).model _ (ground arith) one
        (ingest_events-keeps prev id evs next one)

  apply_acks-keeps :
      (acks : Map PendingAck) (g : PageFold) → P g.model → P (apply_acks now acks g).model
  unfolding apply_acks apply_ack
  apply_acks-keeps [] g h = h
  apply_acks-keeps ((sender, pending) ∷ later) g h =
      let one : P (apply_ack now sender pending g).model =
        either-keeps P g.model
          (mark_messages now sender pending (mark_contact now sender pending g)).model _
          (ground arith) h
          (rule.messages now sender pending (mark_contact now sender pending g)
            (rule.contact now sender pending g h)) in
      apply_acks-keeps later (apply_ack now sender pending g) one

  queue_acks-SameMaps :
      (acks : Map (List Text)) (g : PageFold) → SameMaps g.model (queue_acks env now acks g).model
  unfolding queue_acks
  queue_acks-SameMaps [] g = record { messages = refl; contacts = refl }
  queue_acks-SameMaps ((sender, ids) ∷ later) g =
      let s = queue_acks-SameMaps later _ in record { messages = s.messages; contacts = s.contacts }

  persist_touched-SameMaps :
      (peers : List Text) (m : Model) → SameMaps m (persist_touched env peers m).0
  unfolding persist_touched persist_messages
  persist_touched-SameMaps [] m = record { messages = refl; contacts = refl }
  persist_touched-SameMaps (peer ∷ peers) m =
      ground (arith, persist_touched-SameMaps peers (persist_messages env peer m).0)

module _ (env : Env) (P : Model → Type 0) (rule : IsKept env P) (w : World) where
  persist_page-SameMaps : (g : PageFold) → SameMaps g.model (persist_page env g).0
  unfolding persist_page persist_seen_ids persist_contacts persist_outbox
  persist_page-SameMaps g = ground (
    arith,
    persist_touched-SameMaps env P rule (w.now page_start) (env.hash_order g.touched) g.model,
  )

  adopt_cursor-SameMaps : (page : PollResp) (m : Model) → SameMaps m (adopt_cursor env w page m)
  unfolding adopt_cursor
  adopt_cursor-SameMaps page m = ground arith

  fold_page-keeps :
      (id : Identity) (prev : ℤ) (page : PollResp) (m : Model)
      → P m
      → P (fold_page env w id prev page m).model
  unfolding fold_page
  fold_page-keeps id prev page m h =
      let read = ingest_events env (w.now page_start) prev id page.events (open_page m) in
      let acked = apply_acks (w.now page_start) read.pending_acks read in
      rule.same acked.model _
        (queue_acks-SameMaps env P rule (w.now page_acks_at) acked.ack_targets acked)
        (apply_acks-keeps env P rule (w.now page_start) read.pending_acks read
          (ingest_events-keeps env P rule (w.now page_start) prev id page.events (open_page m) h))

  ingest_poll-keeps : (page : PollResp) (m : Model) → P m → P (ingest_poll env w page m).0
  unfolding ingest_poll
  ingest_poll-keeps page m h =
      let adopted = adopt_cursor env w page m in
      let start = rule.same m adopted (adopt_cursor-SameMaps page m) h in
      elim (Option-cases (identity env adopted)) [
        | inl nobody ↦
            either-keeps P m adopted (ingest_poll env w page m).0 (ground (arith, nobody)) h start
        | inr (id, mine) ↦
            let g = fold_page env w id m.cursor page adopted in
            either-keeps P m (persist_page env g).0 (ingest_poll env w page m).0
              (ground (arith, mine)) h
              (rule.same g.model _ (persist_page-SameMaps g)
                (fold_page-keeps id m.cursor page adopted start))
      ]

  take_page-keeps : (resp : Response) (m : Model) → P m → P (take_page env w resp m).0
  unfolding take_page backoff_poll chain_poll
  take_page-keeps resp m h =
      let after = (take_page env w resp m).0 in
      elim (Option-cases (env.decode_poll resp.body)) [
        | inl junk ↦ rule.same m after (ground (arith, junk)) h
        | inr (page, read) ↦
            let either : SameMaps m after ⊎ (after ≡ (ingest_poll env w page m).0) =
              ground (arith, read) in
            elim either [
              | inl same ↦ rule.same m after same h
              | inr runs ↦ rw runs (ingest_poll-keeps page m h)
            ]
      ]

  pub on_poll_result-keeps :
      (gen : ℕ) (res : HttpResult) (m : Model) → P m → P (on_poll_result env w gen res m).0
  unfolding on_poll_result poll_answered backoff_poll
  on_poll_result-keeps gen (err e) m h = rule.same m _ (ground arith) h
  on_poll_result-keeps gen (ok resp) m h =
      let landed = record m { polling = false; poll_retries = 0 } in
      let after = (on_poll_result env w gen (ok resp) m).0 in
      let either : SameMaps m after ⊎ (after ≡ (take_page env w resp landed).0) = ground arith in
      elim either [
        | inl same ↦ rule.same m after same h
        | inr runs ↦ rw runs (
            take_page-keeps resp landed
              (rule.same m landed (record { messages = refl; contacts = refl }) h))
      ]
