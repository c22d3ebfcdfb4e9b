-- ===== src/Tests/Send.antt =====
-- Runs of the theorems on the send loop.
use skrepka.Base.{◌≤◌, ◌≡◌, refl, ◌⊎◌, none, [], ◌∷◌, ◌++◌, length, arith, ok, pos, codes, false}
use skrepka.App.{start_flush, send_result, save_profile, kv_delete, saved, render}
use skrepka.App.{k_messages, backoff_ms}
use skrepka.App.{update}
use skrepka.App.{
  gather, charge, rate_limit_delay, max_retry_after_ms, on_send_result, on_flush_watchdog,
  max_send_batch,
}
use skrepka.App.{on_delete_contact}
use skrepka.App.Batching.{gather_lem, OneRecipient, Dropped, Sealed, sent_size}
use skrepka.App.Retry.{charge_lem, Charged, backoff_ms_bounds, rate_limit_delay_bound}
use skrepka.App.Generations.{late_send_ignored}
use skrepka.App.Alignment.Queue.{IsAligned}
use skrepka.App.Alignment.Updates.{update-IsAligned}
use skrepka.Base.{text_dec}
use skrepka.Crypto.{from_secret_bytes}
use skrepka.App.{identity}
use skrepka.App.Exhaust.{outbox_exhausts, strive}
use skrepka.App.Drain.{outbox_drains, IsReady, serve}
use skrepka.App.Fate.Lists.{Fate, SameMail}
use skrepka.App.Fate.Updates.{update-Fate, Reason}
use skrepka.App.Latch.{Latched}
use skrepka.App.Latch.Updates.{update-Latched}
use skrepka.App.Latch.Actions.{on_delete_contact_commands}
use skrepka.Tests.Setup.{
  toy_env, noon, own_id, item_for, signed_in, sending, answer, unreadable, key,
}

sending-IsAligned : IsAligned sending
sending-IsAligned = record {
  idle = λ h. cc;
  carried = (omega arith, omega arith, (refl, (refl, tt)));
}

-- The relay accepts the two messages in flight.
update-IsAligned_example :
    IsAligned (update toy_env noon (send_result 7 (ok (answer 200))) sending).0
update-IsAligned_example =
    update-IsAligned toy_env noon (send_result 7 (ok (answer 200))) sending refl sending-IsAligned

-- A profile saved over storage that could not be read.
update-Latched_example :
    Latched (update toy_env noon (save_profile (codes "me") [] none) unreadable)
update-Latched_example =
    update-Latched toy_env noon (save_profile (codes "me") [] none) unreadable refl refl

-- A contact deleted over storage that could not be read.
on_delete_contact_commands_example :
    (on_delete_contact toy_env noon (key 2) unreadable).1
    ≡ kv_delete (k_messages (key 2)) saved ∷ render ∷ []
on_delete_contact_commands_example = on_delete_contact_commands toy_env noon (key 2) unreadable refl

gather_lem_example :
    let g = gather toy_env noon own_id 1000 0 0 0 none false none signed_in.outbox in
    (length g.taken ≤ max_send_batch)
    × Sealed toy_env noon own_id g.taken g.messages
    × OneRecipient g.taken g.messages
    × (g.bytes ≡ sent_size g.messages)
    × ((sent_size g.messages ≤ 1000) ⊎ (length g.taken ≡ 1))
    × Dropped toy_env noon own_id signed_in.outbox (g.taken ++ g.rest)
gather_lem_example = gather_lem toy_env noon own_id 1000 signed_in.outbox none

late_send_ignored_example :
    let after = (on_flush_watchdog toy_env noon 7 sending).0 in
    on_send_result toy_env noon 7 (ok (answer 200)) after ≡ (after, [])
late_send_ignored_example =
    late_send_ignored toy_env noon noon (ok (answer 200)) sending (omega arith) refl

charge_lem_example :
    Charged
      (pos 5)
      (item_for 2 ∷ item_for 2 ∷ [])
      (item_for 3 ∷ [])
      (charge 2 (pos 5) (item_for 2 ∷ item_for 2 ∷ item_for 3 ∷ []))
charge_lem_example = charge_lem (pos 5) (item_for 2 ∷ item_for 2 ∷ []) (item_for 3 ∷ [])

backoff_ms_bounds_example :
    (3000 ≤ backoff_ms 2) × (backoff_ms 2 ≤ 30_000) × (backoff_ms 2 ≤ backoff_ms 3)
backoff_ms_bounds_example = backoff_ms_bounds 2

rate_limit_delay_bound_example :
    (rate_limit_delay toy_env noon sending (answer 429)).1 ≤ max_retry_after_ms
rate_limit_delay_bound_example = rate_limit_delay_bound toy_env noon sending (answer 429)

-- The relay refuses the two messages in flight.
update-Fate_example :
    Fate SameMail
      (Reason toy_env noon (send_result 7 (ok (answer 500))) sending)
      0
      sending.outbox
      (update toy_env noon (send_result 7 (ok (answer 500))) sending).0.outbox
update-Fate_example =
    update-Fate toy_env noon (send_result 7 (ok (answer 500))) sending refl sending-IsAligned

signed_in-IsReady : IsReady toy_env (λ n. noon) signed_in
unfolding identity from_secret_bytes text_dec
signed_in-IsReady = record {
  mine = (_, refl);
  token = (codes "t", refl);
  writable = refl;
  unpaused = λ n. refl;
}

outbox_drains_example :
    (serve toy_env (λ n. noon) (answer 200) 3 (update toy_env noon start_flush signed_in).0).outbox
    ≡ []
outbox_drains_example =
    outbox_drains toy_env (λ n. noon) (answer 200) signed_in (λ body. refl) refl signed_in-IsReady
      refl

outbox_exhausts_example : (strive toy_env (λ n. noon) (codes "offline") 67 signed_in).outbox ≡ []
outbox_exhausts_example =
    outbox_exhausts toy_env (λ n. noon) (codes "offline") signed_in (λ body. refl) signed_in-IsReady
      refl
