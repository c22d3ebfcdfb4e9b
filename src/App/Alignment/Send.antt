-- ===== src/App/Alignment/Send.antt =====
-- The send loop keeps the batch in flight at the head of the outbox.
use skrepka.Base.{
  ℕ, ◌≤◌, ◌≡◌, refl, false, Option, none, some, List, [], ◌∷◌, arith, Text, length, ok, err,
}
use skrepka.Crypto.{Identity}
use skrepka.Domain.{OutboxItem}
use skrepka.App.State.{Model, Env, World, InFlight, Response, HttpResult, flush_start}
use skrepka.App.Guards.{persist_outbox, abandon_flush}
use skrepka.App.Outbox.{
  launch, flush_from, flush_next, Gathered, retry_batch, send_answered, on_send_result,
  on_flush_watchdog, rate_limit_delay, park, max_send_batch, budget_of,
}
use skrepka.App.Batching.{OneRecipient, gather_size, gather-OneRecipient}
use skrepka.App.Alignment.Queue.{IsAligned, Leads-stamp}

module _ (env : Env) (w : World) where
  launch-IsAligned :
      (token : Text) (m : Model) (g : Gathered) (taken : List OutboxItem)
      → g.taken ≡ taken
      → m.flushing ≡ false
      → m.in_flight ≡ none
      → length taken ≤ max_send_batch
      → OneRecipient taken g.messages
      → IsAligned (launch env w token m g).0
  unfolding launch persist_outbox
  launch-IsAligned token m g [] e off idle size one = ground arith
  launch-IsAligned token m g (item ∷ items) e off idle size one =
      ground (arith, Leads-stamp item.recipient (w.now flush_start) (item ∷ items) g.rest)

  flush_from-IsAligned :
      (id : Identity) (token : Text) (m : Model)
      → m.flushing ≡ false
      → m.in_flight ≡ none
      → IsAligned (flush_from env w id token m).0
  unfolding flush_from
  flush_from-IsAligned id token m off idle =
      let size =
        gather_size env w id (budget_of m.send_batch_budget) m.outbox 0 0 0 none false m.error
          (omega arith) in
      launch-IsAligned token _ _ _ refl off idle (omega (arith, size.0))
        (gather-OneRecipient env w id (budget_of m.send_batch_budget) m.outbox 0 false m.error)

  pub flush_next-IsAligned : (m : Model) → IsAligned m → IsAligned (flush_next env w m).0
  unfolding flush_next
  flush_next-IsAligned m h = grind (arith, flush_from-IsAligned)

  retry_batch-IsAligned :
      (m : Model) (b : Option InFlight)
      → m.flushing ≡ false
      → m.in_flight ≡ none
      → IsAligned (retry_batch env w m b).0
  unfolding retry_batch persist_outbox
  retry_batch-IsAligned m none off idle = ground arith
  retry_batch-IsAligned m (some b) off idle = grind (arith, flush_next-IsAligned)

  send_answered-IsAligned :
      (m : Model) (b : Option InFlight) (resp : Response)
      → m.flushing ≡ false
      → m.in_flight ≡ none
      → IsAligned (send_answered env w m b resp).0
  unfolding send_answered park persist_outbox rate_limit_delay
  send_answered-IsAligned m b resp off idle =
      grind (arith, flush_next-IsAligned, retry_batch-IsAligned m b)

  pub on_send_result-IsAligned :
      (gen : ℕ) (res : HttpResult) (m : Model)
      → IsAligned m
      → IsAligned (on_send_result env w gen res m).0
  unfolding on_send_result
  on_send_result-IsAligned gen (ok resp) m h = grind (arith, send_answered-IsAligned)
  on_send_result-IsAligned gen (err e) m h = grind (arith, retry_batch-IsAligned)

  pub on_flush_watchdog-IsAligned :
      (gen : ℕ) (m : Model) → IsAligned m → IsAligned (on_flush_watchdog env w gen m).0
  unfolding on_flush_watchdog abandon_flush
  on_flush_watchdog-IsAligned gen m h = grind (arith, flush_next-IsAligned)
