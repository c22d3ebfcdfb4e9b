-- ===== src/App/Storage/Sends.antt =====
-- The answers to a send leave the outbox written.
use skrepka.Base.{
  ℕ, ◌/◌, ◌≡◌, refl, ◌⊎◌, inl, inr, true, false, ◌||◌, ◌==◌, Option, none, some, List, [], ◌∷◌,
  ◌++◌, arith, Text, drop, Bool-cases, not, codes, ok, err,
}
use skrepka.Domain.{OutboxItem, trunc_ob}
use skrepka.App.State.{Model, Step, Env, World, InFlight, Response, HttpResult, retry_at, render}
use skrepka.App.Guards.{persist_outbox, abandon_flush, fail}
use skrepka.App.Outbox.{
  batch_bytes, decimal, park, rate_limit_delay, charge, flush_next, retry_batch, send_answered,
  on_send_result, on_flush_watchdog, batch_count, and_then, and_render,
}
use skrepka.App.Latch.{NoWrites}
use skrepka.App.Storage.{
  Disk, clean, Saved, KeepsData, SameParts, performed, SameParts-Saved, and_then-Saved, after-Saved,
  quiet-Saved,
}
use skrepka.App.Storage.Writes.{persist_outbox-Saved}
use skrepka.App.Storage.Launch.{behind, flush_next-Saved}

module _ (env : Env) (w : World) (codec : KeepsData env) where
  -- A write of the outbox with any change to it.
  outbox-Saved :
      (d : Disk) (m : Model) (items : List OutboxItem) (note : Option Text)
      → Saved env d m clean
      → let n = record m { outbox = items; error = note } in
        Saved env (performed (persist_outbox env n).1 d) (persist_outbox env n).0 clean
  outbox-Saved d m items note h =
      persist_outbox-Saved env d (record m { outbox = items; error = note }) (behind true)
        (record {
          readable = h.readable;
          settings = h.settings;
          profile = h.profile;
          contacts = h.contacts;
          cursor = h.cursor;
          outbox = tt;
          talks = h.talks;
        })
        codec.outbox

  render-Saved :
      (d : Disk) (s : Step)
      → Saved env (performed s.1 d) s.0 clean
      → Saved env (performed (and_render s).1 d) (and_render s).0 clean
  render-Saved d s h =
      after-Saved env d s (and_render s) (render ∷ []) clean refl (refl, tt) (ground arith) h

  retry_batch-Saved :
      (d : Disk) (m : Model) (b : Option InFlight)
      → Saved env d m clean
      → Saved env (performed (retry_batch env w m b).1 d) (retry_batch env w m b).0 clean
  unfolding retry_batch
  retry_batch-Saved d m none h = h
  retry_batch-Saved d m (some b) h =
      let (kept, expired) = charge b.count (w.now retry_at) m.outbox in
      let wrote = persist_outbox env (record m { outbox = kept }) in
      let told =
        fail
          (codes "gave up sending "
            ++ (decimal expired ++ (codes " message(s) to " ++ trunc_ob env.prims b.recipient)))
          (record m { outbox = kept }) in
      elim (Bool-cases (expired == 0)) [
        | inl all ↦ rw all (render-Saved d wrote (outbox-Saved d m kept m.error h))
        | inr some_left ↦ rw some_left (
            render-Saved d (and_then (persist_outbox env told) (flush_next env w)) (
              and_then-Saved env d (persist_outbox env told) (flush_next env w) clean clean
                (outbox-Saved d m kept told.error h) (flush_next-Saved env w codec)))
      ]

  send_answered-Saved :
      (d : Disk) (m : Model) (b : Option InFlight) (resp : Response)
      → Saved env d m clean
      → Saved env
          (performed (send_answered env w m b resp).1 d)
          (send_answered env w m b resp).0
          clean
  unfolding send_answered park rate_limit_delay
  send_answered-Saved d m b resp h =
      let whole = record m { send_batch_budget = some (batch_bytes b / 2) } in
      let popped = record m { send_retries = 0; outbox = drop (batch_count b) m.outbox } in
      let after = send_answered env w m b resp in
      let readable = h.readable in
      let cases : (NoWrites after.1 × SameParts m after.0)
          ⊎ ((after ≡ flush_next env w whole)
              ⊎ ((after ≡ and_then (persist_outbox env popped) (flush_next env w))
                  ⊎ (after ≡ retry_batch env w m b))) =
        ground arith in
      elim cases [
        | inl (quiet, same) ↦ quiet-Saved env d m after clean quiet same h
        | inr (inl splits) ↦ rw splits (
            (flush_next-Saved env w codec) d whole
              (SameParts-Saved env d m whole clean (ground arith) h))
        | inr (inr (inl final)) ↦ rw final (
            and_then-Saved env d (persist_outbox env popped) (flush_next env w) clean clean
              (outbox-Saved d (record m { send_retries = 0 }) (drop (batch_count b) m.outbox)
                m.error (SameParts-Saved env d m _ clean (ground arith) h))
              (flush_next-Saved env w codec))
        | inr (inr (inr failed)) ↦ rw failed (retry_batch-Saved d m b h)
      ]

  pub on_send_result-Saved :
      (d : Disk) (gen : ℕ) (res : HttpResult) (m : Model)
      → Saved env d m clean
      → Saved env
          (performed (on_send_result env w gen res m).1 d)
          (on_send_result env w gen res m).0
          clean
  unfolding on_send_result
  on_send_result-Saved d gen (ok resp) m h =
      let landed = record m { flushing = false; in_flight = none } in
      let start = SameParts-Saved env d m landed clean (ground arith) h in
      elim (Bool-cases (gen == m.flush_gen)) [
        | inr late ↦ rw late h
        | inl due ↦ rw due (send_answered-Saved d landed m.in_flight resp start)
      ]
  on_send_result-Saved d gen (err e) m h =
      let landed = record m { flushing = false; in_flight = none } in
      let start = SameParts-Saved env d m landed clean (ground arith) h in
      elim (Bool-cases (gen == m.flush_gen)) [
        | inr late ↦ rw late h
        | inl due ↦ rw due (retry_batch-Saved d landed m.in_flight start)
      ]

  pub on_flush_watchdog-Saved :
      (d : Disk) (gen : ℕ) (m : Model)
      → Saved env d m clean
      → Saved env
          (performed (on_flush_watchdog env w gen m).1 d)
          (on_flush_watchdog env w gen m).0
          clean
  unfolding on_flush_watchdog abandon_flush
  on_flush_watchdog-Saved d gen m h =
      let given_up = abandon_flush m in
      elim (Bool-cases (not (gen == m.flush_gen) || not m.flushing)) [
        | inl idle ↦ rw idle h
        | inr due ↦ rw due (
            (flush_next-Saved env w codec) d given_up
              (SameParts-Saved env d m given_up clean (ground arith) h))
      ]
