-- ===== src/App/Storage/Poll.antt =====
-- The answer to a poll writes all that its page changed.
use skrepka.Base.{
  ℕ, ◌≡◌, refl, ◌⊎◌, inl, inr, Bool, true, false, some, List, [], ◌∷◌, arith, Text, ℤ, ok, err,
  Option-cases, Bool-cases, not, ◌&&◌, same_text, codes, text_dec, ℕ_discrete,
}
use skrepka.Crypto.{Identity}
use skrepka.App.State.{
  Model, Env, World, PollResp, Response, HttpResult, page_start, page_acks_at, emit, start_flush,
  k_cursor,
}
use skrepka.App.Guards.{
  persist_contacts, persist_outbox, persist_seen_ids, persist_messages, backoff_poll, identity,
  k_messages,
}
use skrepka.App.Conversation.{contains}
use skrepka.App.Outbox.{and_then}
use skrepka.App.Ingest.{
  PageFold, persist_touched, persist_page, ingest_events, apply_acks, adopt_cursor, fold_page,
  ingest_poll, open_page, when, any_touched,
}
use skrepka.App.Polling.{take_page, poll_answered, on_poll_result, chain_poll, same_cursor}
use skrepka.App.Cursor.{same_cursor-eq}
use skrepka.App.Latch.{NoWrites}
use skrepka.App.Storage.{
  Disk, Stale, clean, Saved, KeepsData, SameParts, SameParts-Saved, performed, put, more_talks,
  and_then-Saved, after-Saved, quiet-Saved,
}
use skrepka.App.Storage.Writes.{
  persist_contacts-Saved, persist_outbox-Saved, persist_seen_ids-Saved, persist_messages-Saved,
}
use skrepka.App.Storage.Marks.{Follows, owed}
use skrepka.App.Storage.Fold.{ingest_events-Follows, apply_acks-Follows, queue_acks-Follows}

-- What is left to write after a page: the cursor.
abbrev but_cursor : ℤ → Stale
but_cursor old = record clean { cursor = some old }

module _ (env : Env) (codec : KeepsData env) where
  persist_touched-Saved :
      (peers : List Text) (d : Disk) (m : Model) (x : Stale)
      → ((p : Text) → contains p peers ≡ false → x.talks p ≡ false)
      → Saved env d m x
      → Saved env
          (performed (persist_touched env peers m).1 d)
          (persist_touched env peers m).0
          (record x { talks = λ p. false })
  unfolding persist_touched contains
  persist_touched-Saved [] d m x all h = more_talks env d m x (λ p. false) (λ p e. all p refl) h
  persist_touched-Saved (peer ∷ peers) d m x all h =
      let y = record x { talks = λ p. not (same_text peer p) && x.talks p } in
      and_then-Saved env d (persist_messages env peer m) (persist_touched env peers) y
        (record x { talks = λ p. false }) (persist_messages-Saved env d m x h peer codec.messages)
        (λ e n k. persist_touched-Saved peers e n y (λ p gone. ground (arith, all p)) k)

  -- What is written if it is owed.
  when_contacts :
      (due : Bool) (d : Disk) (m : Model) (x : Stale)
      → Saved env d m (record x { contacts = due })
      → Saved env
          (performed (when due (persist_contacts env) m).1 d)
          (when due (persist_contacts env) m).0
          (record x { contacts = false })
  when_contacts true d m x h =
      persist_contacts-Saved env d m (record x { contacts = true }) h codec.contacts
  when_contacts false d m x h = h

  when_outbox :
      (due : Bool) (d : Disk) (m : Model) (x : Stale)
      → Saved env d m (record x { outbox = due })
      → Saved env
          (performed (when due (persist_outbox env) m).1 d)
          (when due (persist_outbox env) m).0
          (record x { outbox = false })
  when_outbox true d m x h =
      persist_outbox-Saved env d m (record x { outbox = true }) h codec.outbox
  when_outbox false d m x h = h

  when_seen_ids :
      (due : Bool) (d : Disk) (m : Model) (x : Stale)
      → Saved env d m x
      → Saved env
          (performed (when due (persist_seen_ids env) m).1 d)
          (when due (persist_seen_ids env) m).0
          x
  when_seen_ids true d m x h = persist_seen_ids-Saved env d m x h
  when_seen_ids false d m x h = h

  persist_page-Saved :
      (d : Disk) (old : ℤ) (g : PageFold)
      → Follows env d old g
      → Saved env (performed (persist_page env g).1 d) (persist_page env g).0 (but_cursor old)
  unfolding persist_page
  persist_page-Saved d old g h =
      let order = env.hash_order g.touched in
      let talks = persist_touched env order g.model in
      let ids = and_then talks (when (any_touched g.touched) (persist_seen_ids env)) in
      let people = and_then ids (when g.contacts_dirty (persist_contacts env)) in
      let mail = and_then people (when g.outbox_dirty (persist_outbox env)) in
      let x1 = record (owed old g) { talks = λ p. false } in
      let x2 = record x1 { contacts = false } in
      let all : (p : Text) → contains p order ≡ false → contains p g.touched ≡ false = λ p e.
        elim (Bool-cases (contains p g.touched)) [
          | inl there ↦ cc (codec.hash_order g.touched p there)
          | inr gone ↦ gone
        ] in
      let a = persist_touched-Saved order d g.model (owed old g) all h in
      let b =
        and_then-Saved env d talks (when (any_touched g.touched) (persist_seen_ids env)) x1 x1 a
          (λ e n k. when_seen_ids (any_touched g.touched) e n x1 k) in
      let c =
        and_then-Saved env d ids (when g.contacts_dirty (persist_contacts env)) x1 x2 b
          (λ e n k. when_contacts g.contacts_dirty e n x1 k) in
      let f =
        and_then-Saved env d people (when g.outbox_dirty (persist_outbox env)) x2 (but_cursor old) c
          (λ e n k. when_outbox g.outbox_dirty e n x2 k) in
      after-Saved env d mail (and_then mail (λ m. (m, emit start_flush ∷ [])))
        (emit start_flush ∷ []) (but_cursor old) refl (refl, tt) (ground arith) f

module _ (env : Env) (codec : KeepsData env) (w : World) where
  fold_page-Follows :
      (d : Disk) (old : ℤ) (id : Identity) (prev : ℤ) (page : PollResp) (m : Model)
      → Saved env d m (but_cursor old)
      → Follows env d old (fold_page env w id prev page m)
  unfolding fold_page
  fold_page-Follows d old id prev page m h =
      let start = w.now page_start in
      let read = ingest_events env start prev id page.events (open_page m) in
      let acked = apply_acks start read.pending_acks read in
      queue_acks-Follows env d old (w.now page_acks_at) acked.ack_targets acked (
        apply_acks-Follows env d old start read.pending_acks read (
          ingest_events-Follows env d old start prev id page.events (open_page m) (record {
            readable = h.readable;
            settings = h.settings;
            profile = h.profile;
            contacts = h.contacts;
            cursor = h.cursor;
            outbox = h.outbox;
            talks = unfold contains in h.talks;
          })))

  adopt_cursor-Saved :
      (d : Disk) (page : PollResp) (m : Model)
      → Saved env d m clean
      → Saved env d (adopt_cursor env w page m) (but_cursor m.cursor)
  unfolding adopt_cursor
  adopt_cursor-Saved d page m h =
      let n = adopt_cursor env w page m in
      let s : SameParts m (record n { cursor = m.cursor }) = ground arith in
      record {
        readable = rw s.kv_load_failed h.readable;
        settings = rw s.settings h.settings;
        profile = rw s.profile h.profile;
        contacts = rw s.contacts h.contacts;
        cursor = h.cursor;
        outbox = rw s.outbox h.outbox;
        talks = rw s.messages h.talks;
      }

  ingest_poll-Saved :
      (d : Disk) (page : PollResp) (m : Model)
      → Saved env d m clean
      → Saved env
          (performed (ingest_poll env w page m).1 d)
          (ingest_poll env w page m).0
          (but_cursor m.cursor)
  unfolding ingest_poll
  ingest_poll-Saved d page m h =
      let adopted = adopt_cursor env w page m in
      let start = adopt_cursor-Saved d page m h in
      let after = ingest_poll env w page m in
      elim (Option-cases (identity env adopted)) [
        | inl nobody ↦
            let step : after ≡ (adopted, []) = ground (arith, nobody, h.readable) in rw step start
        | inr (id, mine) ↦
            let step : after ≡ persist_page env (fold_page env w id m.cursor page adopted) =
              ground (arith, mine, h.readable) in
            rw step (
              persist_page-Saved env codec d m.cursor (fold_page env w id m.cursor page adopted)
                (fold_page-Follows d m.cursor id m.cursor page adopted start))
      ]

  -- The write of the new cursor.
  cursor_written :
      {old : ℤ} (d : Disk) (m : Model)
      → Saved env d m (but_cursor old)
      → Saved env (put k_cursor (some (env.cursor_json.encode m.cursor)) d) m clean
  unfolding k_messages codes text_dec ℕ_discrete
  cursor_written d m h = record {
    readable = h.readable;
    settings = h.settings;
    profile = h.profile;
    contacts = h.contacts;
    cursor = codec.cursor.decode-encode m.cursor;
    outbox = h.outbox;
    talks = h.talks;
  }

  chain_poll-Saved :
      (old : ℤ) (d : Disk) (m : Model)
      → Saved env d m (but_cursor old)
      → Saved env (performed (chain_poll env w old m).1 d) (chain_poll env w old m).0 clean
  unfolding chain_poll
  chain_poll-Saved old d m h = elim (Bool-cases (same_cursor m.cursor old)) [
    | inl same ↦ rw same (record {
      readable = h.readable;
      settings = h.settings;
      profile = h.profile;
      contacts = h.contacts;
      cursor = rw (same_cursor-eq m.cursor old same) h.cursor;
      outbox = h.outbox;
      talks = h.talks;
    })
    | inr moved ↦ rw moved (cursor_written d m h)
  ]

  take_page-Saved :
      (d : Disk) (resp : Response) (m : Model)
      → Saved env d m clean
      → Saved env (performed (take_page env w resp m).1 d) (take_page env w resp m).0 clean
  unfolding take_page backoff_poll
  take_page-Saved d resp m h =
      let after = take_page env w resp m in
      elim (Option-cases (env.decode_poll resp.body)) [
        | inl junk ↦ quiet-Saved env d m after clean (ground (arith, junk)) (ground (arith, junk)) h
        | inr (page, read) ↦
            let either : (NoWrites after.1 × SameParts m after.0)
                ⊎ (after ≡ and_then (ingest_poll env w page m) (chain_poll env w m.cursor)) =
              ground (arith, read, h.readable) in
            elim either [
              | inl (quiet, same) ↦ quiet-Saved env d m after clean quiet same h
              | inr runs ↦ rw runs (
                  and_then-Saved env d (ingest_poll env w page m) (chain_poll env w m.cursor)
                    (but_cursor m.cursor) clean (ingest_poll-Saved d page m h)
                    (chain_poll-Saved m.cursor))
            ]
      ]

  pub on_poll_result-Saved :
      (d : Disk) (gen : ℕ) (res : HttpResult) (m : Model)
      → Saved env d m clean
      → Saved env
          (performed (on_poll_result env w gen res m).1 d)
          (on_poll_result env w gen res m).0
          clean
  unfolding on_poll_result poll_answered backoff_poll
  on_poll_result-Saved d gen (err e) m h =
      quiet-Saved env d m (on_poll_result env w gen (err e) m) clean (ground arith) (ground arith) h
  on_poll_result-Saved d gen (ok resp) m h =
      let landed = record m { polling = false; poll_retries = 0 } in
      let after = on_poll_result env w gen (ok resp) m in
      let either : (NoWrites after.1 × SameParts m after.0)
          ⊎ (after ≡ take_page env w resp landed) =
        ground arith in
      elim either [
        | inl (quiet, same) ↦ quiet-Saved env d m after clean quiet same h
        | inr runs ↦
            rw runs (
              take_page-Saved d resp landed (SameParts-Saved env d m landed clean (ground arith) h))
      ]
