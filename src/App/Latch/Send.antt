-- ===== src/App/Latch/Send.antt =====
-- The send, poll and auth loops under the latch.
use skrepka.Base.{drop, if◌then◌else◌, ℕ, ◌≡◌, true, Option, none, some, arith, ok, err}
use skrepka.App.State.{Model, Env, World, HttpResult, Response, InFlight}
use skrepka.App.Guards.{schedule_reconnect, backoff_poll, persist_outbox}
use skrepka.App.Outbox.{
  flush_next, retry_batch, send_answered, on_send_result, on_flush_watchdog, rate_limit_delay, park,
  batch_count,
}
use skrepka.App.Auth.{
  on_authenticate, begin_auth, unbuilt_auth, on_challenge_result, challenge_answered,
  answer_challenge, on_verify_result, verify_answered,
}
use skrepka.App.Polling.{on_poll, issue_poll, on_poll_result, poll_answered, take_page}
use skrepka.App.Frames.{rate_limit_delay-Frame}
use skrepka.App.Latch.{
  Latched, if-Latched, and_then-Latched, and_render-Latched, persist_outbox-Latched,
}

module _ (env : Env) (w : World) where
  pub flush_next-Latched : (m : Model) → m.kv_load_failed ≡ true → Latched (flush_next env w m)
  unfolding flush_next
  flush_next-Latched m h = ground arith

  retry_batch-Latched :
      (m : Model) (b : Option InFlight) → m.kv_load_failed ≡ true → Latched (retry_batch env w m b)
  unfolding retry_batch
  retry_batch-Latched m none h = ground arith
  retry_batch-Latched m (some b) h =
      if-Latched _ _ _ (and_render-Latched _ (persist_outbox-Latched env _ h)) (
        and_render-Latched _
          (and_then-Latched _ _ (persist_outbox-Latched env _ h) flush_next-Latched))

  park-Latched :
      (m : Model) (resp : Response)
      → m.kv_load_failed ≡ true
      → Latched (park env w (rate_limit_delay env w m resp))
  unfolding park
  park-Latched m resp h = ground (arith, rate_limit_delay-Frame env w m resp)

  -- The model after a batch was accepted, as `send_answered` writes it.
  abbrev accepted : Model → Option InFlight → Model
  accepted m b =
      if m.kv_load_failed
      then record m { send_retries = 0 }
      else record m { send_retries = 0; outbox = drop (batch_count b) m.outbox }

  accepted_failed :
      (m : Model) (b : Option InFlight)
      → m.kv_load_failed ≡ true
      → (accepted m b).kv_load_failed ≡ true
  accepted_failed m b h = ground arith

  send_answered-Latched :
      (m : Model) (b : Option InFlight) (resp : Response)
      → m.kv_load_failed ≡ true
      → Latched (send_answered env w m b resp)
  unfolding send_answered
  send_answered-Latched m b resp h = grind (
    arith,
    park-Latched,
    flush_next-Latched,
    retry_batch-Latched,
    and_then-Latched (persist_outbox env (accepted m b)) (flush_next env w)
        (persist_outbox-Latched env (accepted m b) (accepted_failed m b h)) flush_next-Latched,
  )

  pub on_send_result-Latched :
      (gen : ℕ) (res : HttpResult) (m : Model)
      → m.kv_load_failed ≡ true
      → Latched (on_send_result env w gen res m)
  unfolding on_send_result
  on_send_result-Latched gen (ok resp) m h = grind (arith, send_answered-Latched)
  on_send_result-Latched gen (err e) m h = grind (arith, retry_batch-Latched)

  pub on_flush_watchdog-Latched :
      (gen : ℕ) (m : Model) → m.kv_load_failed ≡ true → Latched (on_flush_watchdog env w gen m)
  unfolding on_flush_watchdog
  on_flush_watchdog-Latched gen m h = grind (arith, flush_next-Latched)

  poll_answered-Latched :
      (res : HttpResult) (m : Model) → m.kv_load_failed ≡ true → Latched (poll_answered env w res m)
  unfolding poll_answered backoff_poll take_page
  poll_answered-Latched (ok resp) m h = ground arith
  poll_answered-Latched (err e) m h = ground arith

  pub on_poll_result-Latched :
      (gen : ℕ) (res : HttpResult) (m : Model)
      → m.kv_load_failed ≡ true
      → Latched (on_poll_result env w gen res m)
  unfolding on_poll_result
  on_poll_result-Latched gen res m h = grind (arith, poll_answered-Latched)

module _ (env : Env) where
  pub on_poll-Latched : (m : Model) → m.kv_load_failed ≡ true → Latched (on_poll env m)
  unfolding on_poll issue_poll backoff_poll
  on_poll-Latched m h = ground arith

  pub on_authenticate-Latched :
      (m : Model) → m.kv_load_failed ≡ true → Latched (on_authenticate env m)
  unfolding on_authenticate begin_auth unbuilt_auth schedule_reconnect
  on_authenticate-Latched m h = ground arith

  pub on_challenge_result-Latched :
      (gen : ℕ) (res : HttpResult) (m : Model)
      → m.kv_load_failed ≡ true
      → Latched (on_challenge_result env gen res m)
  unfolding on_challenge_result challenge_answered answer_challenge unbuilt_auth schedule_reconnect
  on_challenge_result-Latched gen (ok resp) m h = ground arith
  on_challenge_result-Latched gen (err e) m h = ground arith

  pub on_verify_result-Latched :
      (gen : ℕ) (res : HttpResult) (m : Model)
      → m.kv_load_failed ≡ true
      → Latched (on_verify_result env gen res m)
  unfolding on_verify_result verify_answered schedule_reconnect
  on_verify_result-Latched gen (ok resp) m h = ground arith
  on_verify_result-Latched gen (err e) m h = ground arith
