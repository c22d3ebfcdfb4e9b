-- ===== src/App/Requests.antt =====
-- The requests of the core: where they go, and what they carry.
pub mod Updates
use skrepka.Base.{
  ℕ, ◌≡◌, refl, ◌⊎◌, inl, inr, Bool, true, false, ◌&&◌, ◌||◌, not, leb, ltb, ◌==◌, ◌/◌, Option,
  none, some, List, [], ◌∷◌, ◌++◌, arith, Option-cases, Bool-cases, Text, length, codes, drop, ok,
  err, if◌then◌else◌,
}
use skrepka.App.State.{
  Model, Step, Env, World, Event, Cmd, render, kv_get, kv_set, kv_delete, http_post, notify_after,
  emit, Body, challenge_req, verify_req, poll_req, send_batch, challenge_result, verify_result,
  poll_result, send_result, HttpResult, Response, InFlight, retry_at,
}
use skrepka.App.Guards.{persist_outbox, fail, identity}
use skrepka.App.Outbox.{
  and_then, and_render, flush_next, flush_from, launch, retry_batch, send_answered, on_send_result,
  on_flush_watchdog, park, rate_limit_delay, batch_bytes, batch_count, Gathered, gather, budget_of,
  charge, decimal,
}
use skrepka.Domain.{OutboxItem, trunc_ob}
use skrepka.App.Batching.{gather_size}

-- The endpoint of a body on the relay of the model.
abbrev pub IsAt : Model → Text → Text → Type 0
IsAt m url path = url ≡ m.settings.server_url ++ path

abbrev pub carried_count : Option InFlight → ℕ
carried_count none = 0
carried_count (some b) = b.count

-- A request goes to the relay of the model, is answered under the generation of the model, and
-- stands under its guard; a poll or a batch carries the token, and the legs of a sign-in none.
abbrev pub IsCurrent : Model → Cmd → Type 0
IsCurrent m (http_post url token (challenge_req key) f) =
    IsAt m url (codes "/auth/challenge")
    × (token ≡ none)
    × (f ≡ challenge_result m.auth_gen)
    × (m.authenticating ≡ true)
IsCurrent m (http_post url token (verify_req key challenge signature register) f) =
    IsAt m url (codes "/auth/verify")
    × (token ≡ none)
    × (f ≡ verify_result m.auth_gen)
    × (m.authenticating ≡ true)
IsCurrent m (http_post url token (poll_req cursor) f) =
    IsAt m url (codes "/poll")
    × (token ≡ m.token)
    × (cursor ≡ m.cursor)
    × (f ≡ poll_result m.poll_gen)
    × (m.polling ≡ true)
IsCurrent m (http_post url token (send_batch envelopes) f) =
    IsAt m url (codes "/messages")
    × (token ≡ m.token)
    × (f ≡ send_result m.flush_gen)
    × (m.flushing ≡ true)
    × (carried_count m.in_flight ≡ length envelopes)
IsCurrent m _ = Unit

abbrev pub AllCurrent : Model → List Cmd → Type 0
AllCurrent m [] = Unit
AllCurrent m (c ∷ cs) = IsCurrent m c × AllCurrent m cs

AllCurrent-append :
    (m : Model) (cs ds : List Cmd) → AllCurrent m cs → AllCurrent m ds → AllCurrent m (cs ++ ds)
AllCurrent-append m [] ds h k = k
AllCurrent-append m (c ∷ cs) ds h k = (h.0, AllCurrent-append m cs ds h.1 k)

-- The commands of a step are current in the model that it leaves.
abbrev pub Posts : Step → Type 0
Posts s = AllCurrent s.0 s.1

-- A call behind one that posts nothing.
and_then-Posts :
    (s : Step) (f : Model → Step)
    → ((n : Model) → AllCurrent n s.1)
    → Posts (f s.0)
    → Posts (and_then s f)
and_then-Posts s f quiet h = AllCurrent-append (f s.0).0 s.1 (f s.0).1 (quiet (f s.0).0) h

and_render-Posts : (s : Step) → Posts s → Posts (and_render s)
and_render-Posts s h = AllCurrent-append s.0 s.1 (render ∷ []) h (tt, tt)

module _ (env : Env) where
  persist_outbox_quiet : (m n : Model) → AllCurrent n (persist_outbox env m).1
  unfolding persist_outbox
  persist_outbox_quiet m n = ground arith

module _ (env : Env) (w : World) where
  launch-Posts :
      (token : Text) (m : Model) (g : Gathered) (taken : List OutboxItem)
      → g.taken ≡ taken
      → m.token ≡ some token
      → length g.messages ≡ length taken
      → Posts (launch env w token m g)
  unfolding launch persist_outbox
  launch-Posts token m g [] e t n = ground arith
  launch-Posts token m g (item ∷ items) e t n = ground arith

  pub flush_next-Posts : (m : Model) → Posts (flush_next env w m)
  unfolding flush_next flush_from
  flush_next-Posts m = elim (Option-cases (identity env m)) [
    | inl nobody ↦ ground (arith, nobody)
    | inr (id, mine) ↦ elim (Option-cases m.token) [
      | inl signed_out ↦ ground (arith, mine, signed_out)
      | inr (token, known) ↦
          let g =
            gather env w id (budget_of m.send_batch_budget) 0 0 0 none false m.error m.outbox in
          let size =
            gather_size env w id (budget_of m.send_batch_budget) m.outbox 0 0 0 none false m.error
              (omega arith) in
          let sent =
            launch-Posts token (record m { outbox = g.taken ++ g.rest; error = g.error }) g g.taken
              refl known size.1 in
          let either : (flush_next env w m ≡ (m, []))
              ⊎ (flush_next env w m ≡ flush_from env w id token m) =
            ground (arith, mine, known) in
          elim either [ inl idle ↦ rw idle tt | inr runs ↦ rw runs sent ]
    ]
  ]

  retry_batch-Posts : (m : Model) (b : Option InFlight) → Posts (retry_batch env w m b)
  unfolding retry_batch
  retry_batch-Posts m none = (tt, tt)
  retry_batch-Posts m (some b) =
      let (kept, expired) = charge b.count (w.now retry_at) m.outbox in
      let charged = record m { outbox = kept } in
      let wrote = persist_outbox env charged in
      let told =
        fail
          (codes "gave up sending "
            ++ (decimal expired ++ (codes " message(s) to " ++ trunc_ob env.prims b.recipient)))
          charged in
      elim (Bool-cases (expired == 0)) [
        | inl all ↦ rw all (and_render-Posts wrote (persist_outbox_quiet env charged wrote.0))
        | inr some_left ↦ rw some_left (
            and_render-Posts (and_then (persist_outbox env told) (flush_next env w)) (
              and_then-Posts (persist_outbox env told) (flush_next env w)
                (persist_outbox_quiet env told) (flush_next-Posts (persist_outbox env told).0)))
      ]

  send_answered-Posts :
      (m : Model) (b : Option InFlight) (resp : Response) → Posts (send_answered env w m b resp)
  unfolding send_answered park rate_limit_delay
  send_answered-Posts m b resp =
      let after = send_answered env w m b resp in
      let split = record m { send_batch_budget = some (batch_bytes b / 2) } in
      let popped =
        (if m.kv_load_failed
          then record m { send_retries = 0 }
          else record m { send_retries = 0; outbox = drop (batch_count b) m.outbox }) in
      let cases : AllCurrent after.0 after.1
          ⊎ ((after ≡ flush_next env w split)
              ⊎ ((after ≡ and_then (persist_outbox env popped) (flush_next env w))
                  ⊎ (after ≡ retry_batch env w m b))) =
        ground arith in
      elim cases [
        | inl quiet ↦ quiet
        | inr (inl splits) ↦ rw splits (flush_next-Posts split)
        | inr (inr (inl final)) ↦ rw final (
            and_then-Posts (persist_outbox env popped) (flush_next env w)
              (persist_outbox_quiet env popped) (flush_next-Posts (persist_outbox env popped).0))
        | inr (inr (inr failed)) ↦ rw failed (retry_batch-Posts m b)
      ]

  pub on_send_result-Posts :
      (gen : ℕ) (res : HttpResult) (m : Model) → Posts (on_send_result env w gen res m)
  unfolding on_send_result
  on_send_result-Posts gen (ok resp) m = grind (arith, send_answered-Posts)
  on_send_result-Posts gen (err e) m = grind (arith, retry_batch-Posts)

  pub on_flush_watchdog-Posts : (gen : ℕ) (m : Model) → Posts (on_flush_watchdog env w gen m)
  unfolding on_flush_watchdog
  on_flush_watchdog-Posts gen m = grind (arith, flush_next-Posts)
