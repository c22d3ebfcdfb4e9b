-- ===== src/App/Frames.antt =====
-- What the handlers of the network loops leave alone.
use skrepka.Base.{ℕ, ◌≡◌, Option, none, some, arith, ok, err}
use skrepka.App.State.{Model, Step, Env, World, Response, HttpResult, InFlight}
use skrepka.App.Guards.{persist_outbox}
use skrepka.App.Outbox.{
  flush_next, flush_from, launch, retry_batch, send_answered, on_send_result, on_flush_watchdog,
  rate_limit_delay, park, and_then,
}

-- The parts of the model that the send, poll and auth loops do not touch.
pub record Frame (a b : Model) : Type 0 where
  pub contacts : b.contacts ≡ a.contacts
  pub messages : b.messages ≡ a.messages
  pub seen_ids : b.seen_ids ≡ a.seen_ids
  pub secret_key : b.secret_key ≡ a.secret_key
  pub my_pubkey : b.my_pubkey ≡ a.my_pubkey
  pub profile : b.profile ≡ a.profile
  pub kv_load_failed : b.kv_load_failed ≡ a.kv_load_failed
  pub loads_pending : b.loads_pending ≡ a.loads_pending

Frame-trans : {a b c : Model} → Frame a b → Frame b c → Frame a c
Frame-trans f g = ground arith

-- A call after a call.
and_then-Frame :
    (m : Model) (s : Step) (f : Model → Step)
    → Frame m s.0
    → ((n : Model) → Frame n (f n).0)
    → Frame m (and_then s f).0
and_then-Frame m s f h k = Frame-trans h (k s.0)

module _ (env : Env) (w : World) where
  pub persist_outbox-Frame : (m : Model) → Frame m (persist_outbox env m).0
  unfolding persist_outbox
  persist_outbox-Frame m = ground arith

  pub flush_next-Frame : (m : Model) → Frame m (flush_next env w m).0
  unfolding flush_next flush_from launch
  flush_next-Frame m = ground arith

  pub retry_batch-Frame : (m : Model) (b : Option InFlight) → Frame m (retry_batch env w m b).0
  unfolding retry_batch
  retry_batch-Frame m none = ground arith
  retry_batch-Frame m (some b) = grind (arith, flush_next-Frame)

  pub rate_limit_delay-Frame :
      (m : Model) (resp : Response) → Frame m (rate_limit_delay env w m resp).0
  unfolding rate_limit_delay
  rate_limit_delay-Frame m resp = ground arith

  pub send_answered-Frame :
      (m : Model) (b : Option InFlight) (resp : Response) → Frame m (send_answered env w m b resp).0
  unfolding send_answered park
  send_answered-Frame m b resp =
      grind (arith, flush_next-Frame, retry_batch-Frame m b, rate_limit_delay-Frame m resp)

  pub on_send_result-Frame :
      (gen : ℕ) (res : HttpResult) (m : Model) → Frame m (on_send_result env w gen res m).0
  unfolding on_send_result
  on_send_result-Frame gen (ok resp) m = grind (arith, send_answered-Frame)
  on_send_result-Frame gen (err e) m = grind (arith, retry_batch-Frame)

  pub on_flush_watchdog-Frame : (gen : ℕ) (m : Model) → Frame m (on_flush_watchdog env w gen m).0
  unfolding on_flush_watchdog
  on_flush_watchdog-Frame gen m = grind (arith, flush_next-Frame)
