-- ===== src/App/Latch.antt =====
-- A failed read latches the model: from then on nothing is written.
mod Send
pub mod Actions
pub mod Updates
use skrepka.Base.{
  if◌then◌else◌, ℕ, ◌≡◌, refl, Bool, true, false, Option, none, some, List, [], ◌∷◌, ◌++◌, arith,
  Text, Bytes, Result, ok, err, ℤ,
}
use skrepka.Base.Map.{Map}
use skrepka.Domain.{OutboxItem}
use skrepka.App.State.{
  Model, Step, Env, World, Codec, Cmd, render, kv_get, kv_set, kv_delete, http_post, notify_after,
  emit, IdSet, KvData, HttpResult, Response, InFlight,
}
use skrepka.App.Guards.{
  persist, persist_contacts, persist_profile, persist_outbox, persist_messages, persist_seen_ids,
  schedule_reconnect, backoff_poll, startup_done,
}
use skrepka.App.Outbox.{
  and_then, and_render, flush_next, retry_batch, send_answered, on_send_result, on_flush_watchdog,
  rate_limit_delay, park,
}

abbrev pub is_write : Cmd → Bool
is_write (kv_set k v f) = true
is_write (kv_delete k f) = true
is_write _ = false

abbrev pub NoWrites : List Cmd → Type 0
NoWrites [] = Unit
NoWrites (c ∷ cs) = (is_write c ≡ false) × NoWrites cs

pub NoWrites-append : (cs ds : List Cmd) → NoWrites cs → NoWrites ds → NoWrites (cs ++ ds)
NoWrites-append [] ds h k = k
NoWrites-append (c ∷ cs) ds h k = (h.0, NoWrites-append cs ds h.1 k)

-- The step keeps the latch and writes nothing.
pub record Latched (s : Step) : Type 0 where
  pub failed : s.0.kv_load_failed ≡ true
  pub quiet : NoWrites s.1

pub and_then-Latched :
    (s : Step) (f : Model → Step)
    → Latched s
    → ((n : Model) → n.kv_load_failed ≡ true → Latched (f n))
    → Latched (and_then s f)
and_then-Latched s f h k =
    let r = k s.0 h.failed in
    record { failed = r.failed; quiet = NoWrites-append s.1 (f s.0).1 h.quiet r.quiet }

pub and_render-Latched : (s : Step) → Latched s → Latched (and_render s)
and_render-Latched s h = record {
  failed = h.failed;
  quiet = NoWrites-append s.1 (render ∷ []) h.quiet (refl, tt);
}

-- A branch of the code: both sides.
pub if-Latched : (b : Bool) (s t : Step) → Latched s → Latched t → Latched (if b then s else t)
if-Latched true s t h k = h
if-Latched false s t h k = k

pub persist-Latched :
    {A : Type 0} (key : Text) (codec : Codec A) (value : A) (m : Model)
    → m.kv_load_failed ≡ true
    → Latched (persist key codec value m)
unfolding persist
persist-Latched key codec value m h = ground arith

pub startup_done-Latched : (m : Model) → m.kv_load_failed ≡ true → Latched (startup_done m)
unfolding startup_done
startup_done-Latched m h = ground arith

module _ (env : Env) where
  pub persist_contacts-Latched :
      (m : Model) → m.kv_load_failed ≡ true → Latched (persist_contacts env m)
  unfolding persist_contacts
  persist_contacts-Latched m h = ground arith

  pub persist_outbox-Latched :
      (m : Model) → m.kv_load_failed ≡ true → Latched (persist_outbox env m)
  unfolding persist_outbox
  persist_outbox-Latched m h = ground arith

  pub persist_profile-Latched :
      (m : Model) → m.kv_load_failed ≡ true → Latched (persist_profile env m)
  unfolding persist_profile
  persist_profile-Latched m h = ground arith

  pub persist_messages-Latched :
      (peer : Text) (m : Model) → m.kv_load_failed ≡ true → Latched (persist_messages env peer m)
  unfolding persist_messages
  persist_messages-Latched peer m h = ground arith
