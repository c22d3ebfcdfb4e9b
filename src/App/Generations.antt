-- ===== src/App/Generations.antt =====
-- The answer to a request that was given up comes too late.
use skrepka.Base.{ℕ, ◌<◌, ◌^◌, ◌≡◌, true, none, some, [], arith, Text, ◌⊎◌, inl, inr, ◌≢◌, pos}
use skrepka.App.Startup.{Connects}
use skrepka.App.State.{Model, Env, World, HttpResult, wrapping_inc}
use skrepka.App.Urls.{normalize_server_url}
use skrepka.App.Guards.{abandon_poll, abandon_flush, abandon_auth, next_flush_gen, persist_outbox}
use skrepka.App.Outbox.{on_send_result, on_flush_watchdog, flush_next, flush_from, launch}
use skrepka.App.Polling.{on_poll_watchdog, on_poll_result}
use skrepka.App.Auth.{on_auth_watchdog, on_challenge_result, on_verify_result, on_connect}
use skrepka.App.User.{on_set_server_url}

-- The generation counter has moved by one or two.
abbrev Moved : ℕ → ℕ → Type 0
Moved a b = (b ≡ wrapping_inc a) ⊎ (b ≡ wrapping_inc (wrapping_inc a))

Moved-ne : (a b : ℕ) → a < 2 ^ 64 → Moved a b → a ≢ b
Moved-ne a b lt (inl e) = omega arith
Moved-ne a b lt (inr e) = omega arith

flush_next_gen :
    (env : Env) (w : World) (m : Model)
    → ((flush_next env w m).0.flush_gen ≡ m.flush_gen)
      ⊎ ((flush_next env w m).0.flush_gen ≡ wrapping_inc m.flush_gen)
unfolding flush_next flush_from launch next_flush_gen persist_outbox
flush_next_gen env w m = ground arith

-- Once the watchdog has given up a send under way, its answer changes nothing; the generation is a
-- `u64`.
pub late_send_ignored :
    (env : Env) (w v : World) (res : HttpResult) (m : Model)
    → m.flush_gen < 2 ^ 64
    → m.flushing ≡ true
    → let after = (on_flush_watchdog env w m.flush_gen m).0 in
      on_send_result env v m.flush_gen res after ≡ (after, [])
unfolding on_flush_watchdog on_send_result abandon_flush
late_send_ignored env w v res m lt busy = ground (
  arith,
  flush_next_gen env w (abandon_flush m),
  Moved-ne m.flush_gen (flush_next env w (abandon_flush m)).0.flush_gen lt,
)

-- Once the watchdog has given up a poll under way, its answer changes nothing; the generation is a
-- `u64`.
late_poll_ignored :
    (env : Env) (w : World) (res : HttpResult) (m : Model)
    → m.poll_gen < 2 ^ 64
    → m.polling ≡ true
    → let after = (on_poll_watchdog m.poll_gen m).0 in
      on_poll_result env w m.poll_gen res after ≡ (after, [])
unfolding on_poll_watchdog on_poll_result abandon_poll
late_poll_ignored env w res m lt busy = ground arith

-- Once the watchdog or a connect has given up a sign-in under way, neither of its answers changes
-- anything; the generation is a `u64`.
late_auth_ignored :
    (env : Env) (res : HttpResult) (m : Model)
    → m.auth_gen < 2 ^ 64
    → m.authenticating ≡ true
    → let after = (on_auth_watchdog m.auth_gen m).0 in
      let joined = (on_connect m).0 in
      (on_challenge_result env m.auth_gen res after ≡ (after, []))
      × (on_verify_result env m.auth_gen res after ≡ (after, []))
      × (on_challenge_result env m.auth_gen res joined ≡ (joined, []))
      × (on_verify_result env m.auth_gen res joined ≡ (joined, []))
unfolding on_auth_watchdog on_challenge_result on_verify_result abandon_auth on_connect
late_auth_ignored env res m lt busy = ground arith

-- Once the watchdog has given up a poll under way, its answer changes nothing; and once the watchdog
-- or a connect has given up a sign-in under way, neither of its answers changes anything. The
-- generations are `u64`s.
pub late_answers_ignored :
    (env : Env) (w : World) (res : HttpResult) (m n : Model)
    → m.poll_gen < 2 ^ 64
    → m.polling ≡ true
    → n.auth_gen < 2 ^ 64
    → n.authenticating ≡ true
    → let polled = (on_poll_watchdog m.poll_gen m).0 in
      let after = (on_auth_watchdog n.auth_gen n).0 in
      let joined = (on_connect n).0 in
      (on_poll_result env w m.poll_gen res polled ≡ (polled, []))
      × (on_challenge_result env n.auth_gen res after ≡ (after, []))
      × (on_verify_result env n.auth_gen res after ≡ (after, []))
      × (on_challenge_result env n.auth_gen res joined ≡ (joined, []))
      × (on_verify_result env n.auth_gen res joined ≡ (joined, []))
late_answers_ignored env w res m n m_lt m_busy n_lt n_busy =
    let late = late_auth_ignored env res n n_lt n_busy in
    (late_poll_ignored env w res m m_lt m_busy, late.0, late.1, late.2, late.3)

-- Once a connect has given up the sign-in of generation `gen`, neither of its answers changes
-- anything.
late_joined_ignored :
    (env : Env) (res : HttpResult) (gen : ℕ) (m : Model)
    → gen < 2 ^ 64
    → m.auth_gen ≡ gen
    → m.authenticating ≡ true
    → let joined = (on_connect m).0 in
      (on_challenge_result env gen res joined ≡ (joined, []))
      × (on_verify_result env gen res joined ≡ (joined, []))
unfolding on_challenge_result on_verify_result abandon_auth on_connect
late_joined_ignored env res gen m lt same busy = ground arith

-- After a move to another relay, whose address was accepted, the answers of the old one to the poll
-- and the send under way change nothing, and the token and the cursor are reset; and once the connect
-- that the move asks for has run, neither do its answers to a sign-in that was under way. The
-- generations are `u64`s.
pub moved_relay_ignored :
    (env : Env) (w : World) (input url : Text) (res : HttpResult) (m n : Model)
    → m.poll_gen < 2 ^ 64
    → m.flush_gen < 2 ^ 64
    → n.auth_gen < 2 ^ 64
    → n.authenticating ≡ true
    → normalize_server_url env input ≡ some url
    → let after = (on_set_server_url env w input m).0 in
      let joined = (on_connect (on_set_server_url env w input n).0).0 in
      (on_poll_result env w m.poll_gen res after ≡ (after, []))
      × (on_send_result env w m.flush_gen res after ≡ (after, []))
      × (after.token ≡ none)
      × (after.cursor ≡ pos 0)
      × Connects true (on_set_server_url env w input m)
      × (on_challenge_result env n.auth_gen res joined ≡ (joined, []))
      × (on_verify_result env n.auth_gen res joined ≡ (joined, []))
unfolding on_set_server_url on_poll_result on_send_result abandon_poll abandon_flush
moved_relay_ignored env w input url res m n lp lf la busy ok_url =
    let moved = (on_set_server_url env w input n).0 in
    let kept : (moved.auth_gen ≡ n.auth_gen) × (moved.authenticating ≡ true) =
      ground (arith, ok_url, busy) in
    let late = late_joined_ignored env res n.auth_gen moved la kept.0 kept.1 in
    (ground arith, ground arith, ground arith, ground arith, ground arith, late.0, late.1)
