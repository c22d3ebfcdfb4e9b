-- ===== src/Tests/Relay.antt =====
-- Runs of the theorems on the relay's answers, the startup and the contacts.
use skrepka.Base.{◌≡◌, refl, none, [], arith, ok, pos, codes, true}
use skrepka.Base.{text_dec}
use skrepka.Base.Map
use skrepka.Phonemic.{trim}
use skrepka.App.{normalize_server_url, trim_end_matches}
use skrepka.App.{Model}
use skrepka.App.{on_poll_watchdog, on_poll_result}
use skrepka.App.{on_send_result}
use skrepka.App.{on_auth_watchdog, on_challenge_result, on_verify_result, on_connect}
use skrepka.App.{on_set_server_url, on_delete_contact, on_set_blocked}
use skrepka.App.Generations.{late_answers_ignored, moved_relay_ignored}
use skrepka.App.Requests.{Posts}
use skrepka.App.Requests.Updates.{update-Posts}
use skrepka.App.{start_flush, update}
use skrepka.App.Blocking.{delete_contact_forgets, set_blocked_silences, NoneFor, NotInFlight}
use skrepka.App.Startup.{Connects}
use skrepka.Tests.Setup.{toy_env, noon, signed_in, sending, answer, key}

abbrev polling : Model
polling = record signed_in { polling = true; poll_gen = 3 }

abbrev signing_in : Model
signing_in = record signed_in { authenticating = true; auth_gen = 4 }

abbrev last_load : Model
last_load = record signed_in { loads_pending = 1 }

late_answers_ignored_example :
    let polled = (on_poll_watchdog 3 polling).0 in
    let after = (on_auth_watchdog 4 signing_in).0 in
    let joined = (on_connect signing_in).0 in
    (on_poll_result toy_env noon 3 (ok (answer 200)) polled ≡ (polled, []))
    × (on_challenge_result toy_env 4 (ok (answer 200)) after ≡ (after, []))
    × (on_verify_result toy_env 4 (ok (answer 200)) after ≡ (after, []))
    × (on_challenge_result toy_env 4 (ok (answer 200)) joined ≡ (joined, []))
    × (on_verify_result toy_env 4 (ok (answer 200)) joined ≡ (joined, []))
late_answers_ignored_example =
    late_answers_ignored toy_env noon (ok (answer 200)) polling signing_in (omega arith) refl
      (omega arith) refl

update-Posts_example : Posts (update toy_env noon start_flush signed_in)
update-Posts_example = update-Posts toy_env noon start_flush signed_in

moved_relay_ignored_example :
    let after = (on_set_server_url toy_env noon (codes "https://r") sending).0 in
    let joined = (on_connect (on_set_server_url toy_env noon (codes "https://r") signing_in).0).0 in
    (on_poll_result toy_env noon 0 (ok (answer 200)) after ≡ (after, []))
    × (on_send_result toy_env noon 7 (ok (answer 200)) after ≡ (after, []))
    × (after.token ≡ none)
    × (after.cursor ≡ pos 0)
    × Connects true (on_set_server_url toy_env noon (codes "https://r") sending)
    × (on_challenge_result toy_env 4 (ok (answer 200)) joined ≡ (joined, []))
    × (on_verify_result toy_env 4 (ok (answer 200)) joined ≡ (joined, []))
unfolding normalize_server_url text_dec codes trim trim_end_matches
moved_relay_ignored_example =
    moved_relay_ignored toy_env noon (codes "https://r") (codes "https://r") (ok (answer 200))
      sending signing_in (omega arith) (omega arith) (omega arith) refl refl

delete_contact_forgets_example :
    let m' = (on_delete_contact toy_env noon (key 2) sending).0 in
    (Map.get (key 2) m'.contacts ≡ none)
    × (Map.get (key 2) m'.messages ≡ none)
    × (Map.get (key 2) m'.seen_ids ≡ none)
    × NoneFor (key 2) m'.outbox
    × NotInFlight (key 2) m'.in_flight
delete_contact_forgets_example = delete_contact_forgets toy_env noon (key 2) sending

set_blocked_silences_example :
    let m' = (on_set_blocked toy_env noon (key 2) true sending).0 in
    NoneFor (key 2) m'.outbox × NotInFlight (key 2) m'.in_flight
set_blocked_silences_example = set_blocked_silences toy_env noon (key 2) sending
