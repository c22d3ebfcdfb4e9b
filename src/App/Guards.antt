-- ===== src/App/Guards.antt =====
-- The small methods of `Model`, `backoff_ms`, and the writes with their one rule.
use skrepka.Base.{
  ℕ, ◌-◌, ◌*◌, ◌^◌, Bool, true, false, Option, none, some, List, [], ◌∷◌, ◌++◌, Text, codes,
  same_text, ◌==◌, if◌then◌else◌, min, ok, err,
}
use skrepka.Base.Map
use skrepka.Crypto.{Identity, from_secret_bytes}
use skrepka.Domain.{saturating_inc}
use skrepka.App.State.{
  Model, Step, Env, Codec, render, kv_set, notify_after, emit, saved, authenticate, poll, connect,
  InFlight, offline, wrapping_inc, k_profile, k_contacts, k_outbox, k_seen_ids,
}

unfoldable pub identity : Env → Model → Option Identity
identity env m = elim m.secret_key [
  | none ↦ none
  | some sk ↦ elim (from_secret_bytes env.prims sk) [ ok id ↦ some id | err e ↦ none ]
]

unfoldable pub startup_load_done : Model → Model × Bool
startup_load_done m =
    if m.loads_pending == 0
    then (m, false)
    else (record m { loads_pending = m.loads_pending - 1 }, m.loads_pending - 1 == 0)

unfoldable pub next_poll_gen : Model → Model
next_poll_gen m = record m { poll_gen = wrapping_inc m.poll_gen }

unfoldable pub abandon_poll : Model → Model
abandon_poll m = record m { polling = false; poll_gen = wrapping_inc m.poll_gen }

unfoldable pub next_auth_gen : Model → Model
next_auth_gen m = record m { auth_gen = wrapping_inc m.auth_gen }

unfoldable pub next_flush_gen : Model → Model
next_flush_gen m = record m { flush_gen = wrapping_inc m.flush_gen }

unfoldable pub abandon_flush : Model → Model
abandon_flush m = record m {
  flushing = false;
  in_flight = none;
  flush_gen = wrapping_inc m.flush_gen;
}

unfoldable pub abandon_auth : Model → Model
abandon_auth m = record m { authenticating = false; auth_gen = wrapping_inc m.auth_gen }

abbrev pub detached : Text → Option InFlight → Option InFlight
detached peer none = none
detached peer (some f) = if same_text f.recipient peer then none else some f

unfoldable pub detach_in_flight : Text → Model → Model
detach_in_flight peer m = record m { in_flight = detached peer m.in_flight }

unfoldable pub in_flight_count : Model → ℕ
in_flight_count m = elim m.in_flight [ none ↦ 0 | some f ↦ f.count ]

-- The shift is by at most 4, so nothing overflows.
unfoldable pub backoff_ms : ℕ → ℕ
backoff_ms retries = min (3000 * 2 ^ min retries 4) 30_000

abbrev pub fail : Text → Model → Model
fail message m = record m { error = some message }

-- `refuse_write`
unfoldable pub refuse_write : Model → Model × Bool
refuse_write m =
    if m.kv_load_failed
    then (fail (codes "storage read failed — changes will not be saved") m, true)
    else (m, false)

-- `refuse_write`, then the write of an encoded value.
unfoldable pub persist : {A : Type 0} → Text → Codec A → A → Model → Step
unfolding refuse_write
persist key codec value m =
    let (m', refused) = refuse_write m in
    if refused then (m', []) else (m', kv_set key (codec.encode value) saved ∷ [])

unfoldable pub k_messages : Text → Text
k_messages peer = codes "messages:" ++ peer

abbrev pub or_empty {ℓ} : {A : Type ℓ} → Option (List A) → List A
or_empty none = []
or_empty (some xs) = xs

module _ (env : Env) where
  unfoldable pub persist_contacts : Model → Step
  unfolding persist
  persist_contacts m = persist k_contacts env.contacts_json (Map.values m.contacts) m

  unfoldable pub persist_profile : Model → Step
  unfolding persist
  persist_profile m = persist k_profile env.profile_json m.profile m

  unfoldable pub persist_outbox : Model → Step
  unfolding persist
  persist_outbox m = persist k_outbox env.outbox_json m.outbox m

  unfoldable pub persist_messages : Text → Model → Step
  unfolding persist k_messages
  persist_messages peer m =
      persist (k_messages peer) env.messages_json (or_empty (Map.get peer m.messages)) m

  unfoldable pub persist_seen_ids : Model → Step
  unfolding persist
  persist_seen_ids m = persist k_seen_ids env.seen_ids_json m.seen_ids m

unfoldable pub schedule_reconnect : Model → Step
schedule_reconnect m = (
  record m { poll_retries = saturating_inc m.poll_retries },
  notify_after (backoff_ms m.poll_retries) authenticate ∷ render ∷ [],
)

unfoldable pub backoff_poll : Model → Step
backoff_poll m = (
  record m { conn = offline; poll_retries = saturating_inc m.poll_retries },
  notify_after (backoff_ms m.poll_retries) poll ∷ render ∷ [],
)

unfoldable pub startup_done : Model → Step
unfolding startup_load_done
startup_done m =
    let (m', last) = startup_load_done m in
    if last
    then if m'.kv_load_failed
      then (
        fail (codes "storage read failed — restart the app; changes will not be saved until you do")
            m',
        render ∷ [],
      )
      else (m', emit connect ∷ [])
    else (m', [])
