-- ===== src/App/Cursor.antt =====
-- The cursor of the poll, which acknowledges a page, and when it goes to the relay.
use skrepka.Base.{
  ◌≡◌, refl, ap, ◌⊎◌, inl, inr, Bool, true, false, ◌||◌, List, [], ◌∷◌, ◌++◌, arith, Text, ℤ, pos,
  negsuc, ok, err, ℕ, Option-cases, Bool-cases,
}
use skrepka.App.State.{
  Model, Step, Env, World, Cmd, emit, kv_set, notify_after, render, poll, start_flush, saved_cursor,
  PollResp, Response, HttpResult, watchdog_ms, k_cursor, kv_delete,
}
use skrepka.App.Guards.{
  persist_contacts, persist_outbox, persist_seen_ids, persist_messages, backoff_poll, identity,
}
use skrepka.App.Ingest.{
  PageFold, persist_touched, persist_page, adopt_cursor, fold_page, ingest_poll, when, any_touched,
}
use skrepka.App.Outbox.{and_then}
use skrepka.App.Polling.{take_page, poll_answered, on_poll_result, chain_poll, same_cursor}

-- Whether a command is any but a write to storage, a redraw or the start of the send loop, whose
-- requests do not carry the cursor.
abbrev pub asks : Cmd → Bool
asks (kv_set k v f) = false
asks (kv_delete k f) = false
asks render = false
asks (emit start_flush) = false
asks _ = true

abbrev pub any_asks : List Cmd → Bool
any_asks [] = false
any_asks (c ∷ cs) = asks c || any_asks cs

any_asks-append :
    (cs ds : List Cmd) → any_asks cs ≡ false → any_asks ds ≡ false → any_asks (cs ++ ds) ≡ false
any_asks-append [] ds a b = b
any_asks-append (c ∷ cs) ds a b = ground (arith, any_asks-append cs ds)

and_then-asks :
    (s : Step) (f : Model → Step)
    → any_asks s.1 ≡ false
    → any_asks (f s.0).1 ≡ false
    → any_asks (and_then s f).1 ≡ false
and_then-asks s f a b = any_asks-append s.1 (f s.0).1 a b

pub same_cursor-eq : (a b : ℤ) → same_cursor a b ≡ true → a ≡ b
same_cursor-eq (pos a) (pos b) h = ap pos (ground arith)
same_cursor-eq (pos a) (negsuc b) h = ground arith
same_cursor-eq (negsuc a) (pos b) h = ground arith
same_cursor-eq (negsuc a) (negsuc b) h = ap negsuc (ground arith)

module _ (env : Env) where
  writes_quiet :
      (m : Model) (peer : Text)
      → (any_asks (persist_contacts env m).1 ≡ false)
        × (any_asks (persist_outbox env m).1 ≡ false)
        × (any_asks (persist_seen_ids env m).1 ≡ false)
        × (any_asks (persist_messages env peer m).1 ≡ false)
  unfolding persist_contacts persist_outbox persist_seen_ids persist_messages
  writes_quiet m peer = ground arith

  when-asks :
      (b : Bool) (f : Model → Step) (m : Model)
      → any_asks (f m).1 ≡ false
      → any_asks (when b f m).1 ≡ false
  when-asks true f m q = q
  when-asks false f m q = refl

  persist_touched_quiet :
      (peers : List Text) (m : Model) → any_asks (persist_touched env peers m).1 ≡ false
  unfolding persist_touched
  persist_touched_quiet [] m = refl
  persist_touched_quiet (peer ∷ peers) m =
      and_then-asks (persist_messages env peer m) (persist_touched env peers)
        (writes_quiet m peer).3 (persist_touched_quiet peers (persist_messages env peer m).0)

  persist_page_quiet : (g : PageFold) → any_asks (persist_page env g).1 ≡ false
  unfolding persist_page
  persist_page_quiet g =
      let talks = persist_touched env (env.hash_order g.touched) g.model in
      let ids = and_then talks (when (any_touched g.touched) (persist_seen_ids env)) in
      let people = and_then ids (when g.contacts_dirty (persist_contacts env)) in
      let mail = and_then people (when g.outbox_dirty (persist_outbox env)) in
      let a = persist_touched_quiet (env.hash_order g.touched) g.model in
      let b = and_then-asks talks (when (any_touched g.touched) (persist_seen_ids env)) a (
        when-asks (any_touched g.touched) (persist_seen_ids env) talks.0
          (writes_quiet talks.0 []).2) in
      let c =
        and_then-asks ids (when g.contacts_dirty (persist_contacts env)) b
          (when-asks g.contacts_dirty (persist_contacts env) ids.0 (writes_quiet ids.0 []).0) in
      let d =
        and_then-asks people (when g.outbox_dirty (persist_outbox env)) c
          (when-asks g.outbox_dirty (persist_outbox env) people.0 (writes_quiet people.0 []).1) in
      and_then-asks mail (λ m. (m, emit start_flush ∷ [])) d refl

-- What a step does about the cursor: it leaves it, or it writes the new one, behind nothing but other
-- writes, redraws and starts of the send loop, and sets a timer.
abbrev pub Waits : Env → ℤ → Step → Type 0
Waits env old s =
    (s.0.cursor ≡ old)
    ⊎ ((writes : List Cmd) × (any_asks writes ≡ false)
        × (s.1
            ≡ writes
              ++ (kv_set k_cursor (env.cursor_json.encode s.0.cursor) saved_cursor
                  ∷ notify_after watchdog_ms poll
                  ∷ render
                  ∷ [])))

module _ (env : Env) (w : World) where
  pub ingest_poll_quiet :
      (page : PollResp) (m : Model) → any_asks (ingest_poll env w page m).1 ≡ false
  unfolding ingest_poll
  ingest_poll_quiet page m = elim (Option-cases (identity env (adopt_cursor env w page m))) [
    | inl nobody ↦ ground (arith, nobody)
    | inr (id, mine) ↦ ground (
      arith,
      mine,
      persist_page_quiet env (fold_page env w id m.cursor page (adopt_cursor env w page m)),
    )
  ]

  chain-Waits :
      (s : Step) (old : ℤ)
      → any_asks s.1 ≡ false
      → Waits env old (and_then s (chain_poll env w old))
  unfolding chain_poll
  chain-Waits s old q = elim (Bool-cases (same_cursor s.0.cursor old)) [
    | inl same ↦ inl (same_cursor-eq s.0.cursor old same)
    | inr moved ↦ inr (s.1, q, rw moved refl)
  ]

  take_page-Waits : (resp : Response) (m : Model) → Waits env m.cursor (take_page env w resp m)
  unfolding take_page backoff_poll
  take_page-Waits resp m = elim (Option-cases (env.decode_poll resp.body)) [
    | inl junk ↦ inl (ground (arith, junk))
    | inr (page, read) ↦
        let either : ((take_page env w resp m).0.cursor ≡ m.cursor)
            ⊎ (take_page env w resp m
                ≡ and_then (ingest_poll env w page m) (chain_poll env w m.cursor)) =
          ground (arith, read) in
        elim either [
          | inl stays ↦ inl stays
          | inr runs ↦
              rw runs (chain-Waits (ingest_poll env w page m) m.cursor (ingest_poll_quiet page m))
        ]
  ]

-- The answer to a poll leaves the cursor as it was, or its commands are some that only write to
-- storage, redraw or start the send loop, and behind them the write of the new cursor, the
-- watchdog, and the redraw: no other event, request or timer goes out with them.
pub on_poll_result-Waits :
    (env : Env) (w : World) (gen : ℕ) (res : HttpResult) (m : Model)
    → Waits env m.cursor (on_poll_result env w gen res m)
unfolding on_poll_result poll_answered backoff_poll
on_poll_result-Waits env w gen (err e) m = inl (ground arith)
on_poll_result-Waits env w gen (ok resp) m =
    let landed = record m { polling = false; poll_retries = 0 } in
    let either : ((on_poll_result env w gen (ok resp) m).0.cursor ≡ m.cursor)
        ⊎ (on_poll_result env w gen (ok resp) m ≡ take_page env w resp landed) =
      ground arith in
    elim either [ inl stays ↦ inl stays | inr runs ↦ rw runs (take_page-Waits env w resp landed) ]
