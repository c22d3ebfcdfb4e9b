-- ===== src/App/Auth.antt =====
-- `Connect`, `Authenticate`, the two legs of the auth round trip and its watchdog.
use skrepka.Base.{
  ℕ, Bool, true, false, ◌&&◌, ◌||◌, not, Option, none, some, [], ◌∷◌, ◌++◌, Text, codes, ◌==◌,
  if◌then◌else◌, ok, err,
}
use skrepka.Crypto.{Identity, public_key_hex, sign_challenge}
use skrepka.App.State.{
  Model, Step, Env, render, http_post, notify_after, emit, authenticate, poll, start_flush,
  auth_watchdog, challenge_result, verify_result, HttpResult, challenge_req, verify_req, ConnStatus,
  offline, connecting, online, watchdog_ms,
}
use skrepka.App.Guards.{identity, next_auth_gen, abandon_auth, schedule_reconnect, fail}
use skrepka.App.Urls.{server_host}
use skrepka.App.User.{is_some}

abbrev pub is_online : ConnStatus → Bool
is_online offline = false
is_online connecting = false
is_online online = true

abbrev pub go_offline : Model → Model
go_offline m = record m { conn = offline }

unfoldable pub on_connect : Model → Step
unfolding abandon_auth
on_connect m =
    let dropped = abandon_auth m in
    if dropped.kv_load_failed
    then (dropped, render ∷ [])
    else if is_some dropped.secret_key && not (is_online dropped.conn)
    then (dropped, emit authenticate ∷ [])
    else if is_some dropped.secret_key && is_online dropped.conn && not dropped.polling
    then (dropped, emit poll ∷ [])
    else (dropped, render ∷ [])

-- The arm for a request that cannot be built.
unfoldable pub unbuilt_auth : Model → Step
unbuilt_auth m = schedule_reconnect (fail (codes "could not build auth request") (go_offline m))

abbrev pub usable_token : Option Text → Option Text
usable_token none = none
usable_token (some []) = none
usable_token (some (c ∷ s)) = some (c ∷ s)

module _ (env : Env) where
  unfoldable pub begin_auth : Identity → Model → Step
  unfolding next_auth_gen
  begin_auth id m =
      let trying = record m { conn = connecting; error = none } in
      let body = challenge_req (public_key_hex env.prims id) in
      let issued = next_auth_gen (record trying { authenticating = true }) in
      if env.buildable body
      then (
        issued,
        http_post (m.settings.server_url ++ codes "/auth/challenge") none body
              (challenge_result issued.auth_gen)
            ∷ notify_after watchdog_ms (auth_watchdog issued.auth_gen)
            ∷ render
            ∷ [],
      )
      else unbuilt_auth trying

  unfoldable pub on_authenticate : Model → Step
  on_authenticate m =
      if m.authenticating
      then (m, [])
      else elim (identity env m) [ none ↦ (m, render ∷ []) | some id ↦ begin_auth id m ]

  -- The second leg, for a challenge that came back in the relay's answer.
  unfoldable pub answer_challenge : ℕ → Identity → Text → Model → Step
  answer_challenge gen id challenge m =
      elim (sign_challenge env.prims id (server_host env m.settings.server_url) challenge) [
        | err e ↦
            schedule_reconnect (fail (codes "relay sent a malformed auth challenge") (go_offline m))
        | ok signature ↦
            let body = verify_req (public_key_hex env.prims id) challenge signature false in
            if env.buildable body
            then (
              record m { authenticating = true },
              http_post (m.settings.server_url ++ codes "/auth/verify") none body
                    (verify_result gen)
                  ∷ [],
            )
            else unbuilt_auth m
      ]

  unfoldable pub challenge_answered : ℕ → HttpResult → Model → Step
  challenge_answered gen (err e) m = schedule_reconnect (go_offline m)
  challenge_answered gen (ok resp) m = elim (identity env m) [
    | none ↦ (m, render ∷ [])
    | some id ↦ elim (env.decode_challenge resp.body) [
      | none ↦ schedule_reconnect (go_offline m)
      | some challenge ↦ answer_challenge gen id challenge m
    ]
  ]

  unfoldable pub on_challenge_result : ℕ → HttpResult → Model → Step
  on_challenge_result gen res m =
      if not (gen == m.auth_gen)
      then (m, [])
      else challenge_answered gen res (record m { authenticating = false })

  unfoldable pub verify_answered : HttpResult → Model → Step
  verify_answered (err e) m = schedule_reconnect (go_offline m)
  verify_answered (ok resp) m = elim (usable_token (env.decode_verify resp.body)) [
    | none ↦ schedule_reconnect (go_offline m)
    | some token ↦ (
      record m { token = some token; conn = online; poll_retries = 0; error = none },
      emit poll ∷ emit start_flush ∷ render ∷ [],
    )
  ]

  unfoldable pub on_verify_result : ℕ → HttpResult → Model → Step
  on_verify_result gen res m =
      if not (gen == m.auth_gen)
      then (m, [])
      else verify_answered res (record m { authenticating = false })

unfoldable pub on_auth_watchdog : ℕ → Model → Step
unfolding abandon_auth
on_auth_watchdog gen m =
    if not (gen == m.auth_gen) || not m.authenticating
    then (m, [])
    else (abandon_auth m, emit authenticate ∷ [])
