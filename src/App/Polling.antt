-- ===== src/App/Polling.antt =====
-- The poll loop: `Poll`, its watchdog and its results.
use skrepka.Base.{
  ℕ, ◌*◌, Bool, true, false, ◌&&◌, ◌||◌, not, none, some, [], ◌∷◌, ◌++◌, Text, codes, length, leb,
  ltb, ◌==◌, if◌then◌else◌, ok, err, ℤ, leb_ℤ,
}
use skrepka.App.State.{
  Model, Step, Env, World, render, http_post, notify_after, kv_set, emit, authenticate, poll,
  poll_watchdog, poll_result, saved_cursor, HttpResult, Response, poll_req, watchdog_ms, k_cursor,
}
use skrepka.App.Guards.{next_poll_gen, abandon_poll, backoff_poll, fail}
use skrepka.App.Outbox.{and_then}
use skrepka.App.Ingest.{ingest_poll}

abbrev pub max_poll_response_bytes : ℕ
max_poll_response_bytes = 64 * 1024 * 1024

abbrev pub same_cursor : ℤ → ℤ → Bool
same_cursor a b = leb_ℤ a b && leb_ℤ b a

unfoldable pub on_poll_watchdog : ℕ → Model → Step
unfolding abandon_poll
on_poll_watchdog gen m =
    if not (gen == m.poll_gen) || not m.polling then (m, []) else (abandon_poll m, emit poll ∷ [])

module _ (env : Env) where
  unfoldable pub issue_poll : Text → Model → Step
  unfolding next_poll_gen
  issue_poll token m =
      let issued = next_poll_gen (record m { polling = true }) in
      if env.buildable (poll_req m.cursor)
      then (
        issued,
        http_post (m.settings.server_url ++ codes "/poll") (some token) (poll_req m.cursor)
              (poll_result issued.poll_gen)
            ∷ notify_after watchdog_ms (poll_watchdog issued.poll_gen)
            ∷ [],
      )
      else backoff_poll (fail (codes "could not build poll request") m)

  unfoldable pub on_poll : Model → Step
  on_poll m =
      if m.polling
      then (m, [])
      else elim m.token [ none ↦ (m, emit authenticate ∷ []) | some token ↦ issue_poll token m ]

module _ (env : Env) (w : World) where
  -- The chained re-poll: behind the cursor write if the page moved the cursor.
  unfoldable pub chain_poll : ℤ → Model → Step
  chain_poll cursor_before m = (
    m,
    (if same_cursor m.cursor cursor_before
          then emit poll ∷ []
          else kv_set k_cursor (env.cursor_json.encode m.cursor) saved_cursor ∷ [])
        ++ (notify_after watchdog_ms poll ∷ render ∷ []),
  )

  -- A response with a status in the 200s.
  unfoldable pub take_page : Response → Model → Step
  take_page resp m =
      if m.kv_load_failed
      then (
        fail (codes "storage read failed — restart the app; messages are not being saved") m,
        render ∷ [],
      )
      else if ltb max_poll_response_bytes (length resp.body)
      then backoff_poll (fail (codes "relay sent an oversized poll response") m)
      else elim (env.decode_poll resp.body) [
        | none ↦ backoff_poll (fail (codes "relay sent a malformed poll response") m)
        | some page ↦ and_then (ingest_poll env w page m) (chain_poll m.cursor)
      ]

  unfoldable pub poll_answered : HttpResult → Model → Step
  poll_answered (err e) m = backoff_poll m
  poll_answered (ok resp) m =
      if resp.status == 401
      then (record m { token = none }, emit authenticate ∷ [])
      else if not (leb 200 resp.status && ltb resp.status 300)
      then backoff_poll m
      else take_page resp (record m { poll_retries = 0 })

  unfoldable pub on_poll_result : ℕ → HttpResult → Model → Step
  on_poll_result gen res m =
      if not (gen == m.poll_gen) then (m, []) else poll_answered res (record m { polling = false })
