-- ===== src/App/Outbox.antt =====
-- The outbox: `encrypt_for`, `flush_next`, `retry_batch` and the send results.
mod Numbers
mod Batch
use skrepka.Base.{
  ℕ, zero, suc, ◌+◌, ◌-◌, ◌*◌, ◌/◌, ◌%◌, ◌^◌, Bool, true, false, ◌&&◌, ◌||◌, not, Option, none,
  some, List, [], ◌∷◌, ◌++◌, Bytes, Text, codes, utf8, text_len, same_text, length, drop, ltb, leb,
  ◌==◌, min, map, if◌then◌else◌, Result, ok, err, ℤ, pos, negsuc, leb_ℤ, ltb_ℤ, saturating_add,
}
use skrepka.Crypto.{Identity, encrypt}
use skrepka.Domain.{OutboxItem, is_expired, saturating_inc, trunc_ob}
use skrepka.Phonemic.{trim}
use skrepka.Protocol.{Envelope}
use skrepka.App.State.{
  Model, Step, Env, World, Cmd, render, http_post, notify_after, emit, Event, send_result,
  flush_watchdog, start_flush, authenticate, InFlight, send_batch, Response, flush_gate,
  flush_start, retry_at, rate_limit_at, watchdog_ms,
}
use skrepka.App.Guards.{identity, next_flush_gen, abandon_flush, persist_outbox, backoff_ms, fail}
unfoldable pub use Numbers.*
unfoldable pub use Batch.*

abbrev pub and_then : Step → (Model → Step) → Step
and_then (m, cs) f = let (m', ds) = f m in (m', cs ++ ds)

-- `.and(render())`
abbrev pub and_render : Step → Step
and_render (m, cs) = (m, cs ++ (render ∷ []))

abbrev pub splittable : Option InFlight → Bool
splittable none = false
splittable (some b) = ltb 1 b.count

abbrev pub batch_bytes : Option InFlight → ℕ
batch_bytes none = 0
batch_bytes (some b) = b.bytes

abbrev pub batch_count : Option InFlight → ℕ
batch_count none = 0
batch_count (some b) = b.count

abbrev pub budget_of : Option ℕ → ℕ
budget_of none = max_send_batch_bytes
budget_of (some b) = b

module _ (env : Env) (w : World) where
  -- From the stamping of the items to the end of `flush_next`.
  unfoldable pub launch : Text → Model → Gathered → Step
  unfolding stamp any_unsent next_flush_gen persist_outbox
  launch token m g = elim g.taken [
    | [] ↦ if g.dirty then and_render (persist_outbox env m) else (m, [])
    | item ∷ items ↦
        let stamped = record m {
          outbox = map (stamp (w.now flush_start)) (item ∷ items) ++ g.rest;
        } in
        let (m', writes) =
          (if g.dirty || any_unsent (item ∷ items)
            then persist_outbox env stamped
            else (stamped, [])) in
        let m'' = next_flush_gen m' in
        let url = m.settings.server_url ++ codes "/messages" in
        if env.buildable (send_batch g.messages)
        then (
          record m'' {
            flushing = true;
            in_flight = some (record {
              recipient = item.recipient;
              count = length (item ∷ items);
              bytes = g.bytes;
            });
          },
          writes
              ++ (http_post url (some token) (send_batch g.messages) (send_result m''.flush_gen)
                  ∷ notify_after watchdog_ms (flush_watchdog m''.flush_gen)
                  ∷ []),
        )
        else (
          record m'' {
            flushing = false;
            in_flight = none;
            error = some (codes "could not build send request");
          },
          writes ++ (render ∷ []),
        )
  ]

  -- The loop, and the model with what it dropped.
  unfoldable pub flush_from : Identity → Text → Model → Step
  flush_from id token m =
      let g = gather env w id (budget_of m.send_batch_budget) 0 0 0 none false m.error m.outbox in
      launch token (record m { outbox = g.taken ++ g.rest; error = g.error }) g

  unfoldable pub flush_next : Model → Step
  flush_next m =
      if m.flushing
      then (m, [])
      else if m.kv_load_failed
      then (m, [])
      else if ltb_ℤ (w.now flush_gate) m.flush_paused_until
      then (m, [])
      else elim (identity env m) [
        | none ↦ (m, [])
        | some id ↦ elim m.token [ none ↦ (m, []) | some token ↦ flush_from id token m ]
      ]

  unfoldable pub retry_batch : Model → Option InFlight → Step
  unfolding persist_outbox
  retry_batch m none = (m, render ∷ [])
  retry_batch m (some batch) =
      let (kept, expired) = charge batch.count (w.now retry_at) m.outbox in
      let charged = record m { outbox = kept } in
      if expired == 0
      then and_render (persist_outbox env charged)
      else and_render (
          and_then
            (persist_outbox env (
              fail
                (codes "gave up sending "
                  ++ (decimal expired
                      ++ (codes " message(s) to " ++ trunc_ob env.prims batch.recipient)))
                charged))
            flush_next)

  -- The delay of a 429, and the model that it leaves.
  unfoldable pub rate_limit_delay : Model → Response → Model × ℕ
  rate_limit_delay m resp = elim (parsed resp.retry_after) [
    | none ↦ (record m { send_retries = saturating_inc m.send_retries }, backoff_ms m.send_retries)
    | some secs ↦ (m, min (min (secs * 1000) (2 ^ 64 - 1)) max_retry_after_ms)
  ]
    where
      parsed : Option Text → Option ℕ
      parsed none = none
      parsed (some v) = parse_u64 (trim v)

  -- The pause, on the model and as a timer.
  unfoldable pub park : Model × ℕ → Step
  park (m, delay) = (
    record m { flush_paused_until = saturating_add (w.now rate_limit_at) (pos delay) },
    notify_after delay start_flush ∷ render ∷ [],
  )

  -- `SendResult(gen, Ok(resp))` after the generation check, the guard down and the batch taken.
  unfoldable pub send_answered : Model → Option InFlight → Response → Step
  unfolding persist_outbox
  send_answered m batch resp =
      if resp.status == 401
      then (record m { token = none }, emit authenticate ∷ [])
      else if resp.status == 429
      then park (rate_limit_delay m resp)
      else if resp.status == 413 && splittable batch
      then flush_next (record m { send_batch_budget = some (batch_bytes batch / 2) })
      else if (leb 200 resp.status && ltb resp.status 300) || resp.status == 400
      then and_then
          (persist_outbox env (
            if m.kv_load_failed
            then record m { send_retries = 0 }
            else record m { send_retries = 0; outbox = drop (batch_count batch) m.outbox }))
          flush_next
      else retry_batch m batch

  unfoldable pub on_send_result : ℕ → Result Text Response → Model → Step
  on_send_result gen res m =
      if not (gen == m.flush_gen)
      then (m, [])
      else let landed = record m { flushing = false; in_flight = none } in
        elim res [
          | ok resp ↦ send_answered landed m.in_flight resp
          | err e ↦ retry_batch landed m.in_flight
        ]

  unfoldable pub on_flush_watchdog : ℕ → Model → Step
  unfolding abandon_flush
  on_flush_watchdog gen m =
      if not (gen == m.flush_gen) || not m.flushing then (m, []) else flush_next (abandon_flush m)
