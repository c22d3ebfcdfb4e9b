-- ===== src/Tests/State.antt =====
-- Runs of the theorems on the maps of the model, and on what senders mark and tell.
use skrepka.Base.{
  ◌≤◌, ◌≡◌, refl, some, none, [], ◌∷◌, ◌++◌, arith, codes, ok, pos, true, false, compare_text,
  text_dec, max, length,
}
use skrepka.Base.Map
use skrepka.Domain.{new_contact}
use skrepka.App.{
  Model, default_model, update, identity_loaded, open_chat, send_text, compose_changed, apply_ack,
  ingest_profile, open_page, on_poll_result, max_contacts, gather, or_empty, PageFold,
}
use skrepka.App.Alignment.Queue.{IsAligned}
use skrepka.App.Tidy.Page.{IsTidy}
use skrepka.App.Tidy.Updates.{update-IsTidy}
use skrepka.App.Tidy.Sizes.{size-on_poll_result}
use skrepka.App.Reach.{start, then, Reach-IsAligned}
use skrepka.App.Receipts.{apply_ack-Marked, Marked}
use skrepka.App.Profiles.{stale_profile_ignored, ingest_profile-Guarded, Guarded}
use skrepka.App.Batching.{sent_size}
use skrepka.App.Stopping.{round-Stops, Stops, recipient_of}
use skrepka.Tests.Setup.{toy_env, noon, own_id, signed_in, said, answer, key}

-- Two contacts, with one of whom there is a chat.
abbrev chatting : Model
chatting = record signed_in {
  contacts = (key 2, new_contact (key 2) [] (pos 0)) ∷ (key 3, new_contact (key 3) [] (pos 0)) ∷ [];
  messages = (key 2, record (said 3) { outgoing = true } ∷ said 4 ∷ []) ∷ [];
  active_peer = some (key 2);
  compose = codes "hey";
}

chatting-IsTidy : IsTidy chatting
unfolding new_contact compare_text
chatting-IsTidy = record {
  talks = (((((omega arith, tt), (tt, tt)), omega arith), tt), (tt, tt));
  people = ((refl, (refl, tt)), (refl, (tt, tt)));
}

update-IsTidy_example : IsTidy (update toy_env noon send_text chatting).0
update-IsTidy_example = update-IsTidy toy_env noon send_text chatting tt chatting-IsTidy

-- The identity is read, a chat is opened, and a text is written and sent.
abbrev opened : Model
opened =
    (update toy_env noon (open_chat (key 2))
      (update toy_env noon (identity_loaded (key 1 ++ key 1)) default_model).0).0

abbrev wrote : Model
wrote =
    (update toy_env noon send_text (update toy_env noon (compose_changed (codes "hey")) opened).0).0

Reach-IsAligned_example : IsAligned wrote × IsTidy wrote
Reach-IsAligned_example = Reach-IsAligned toy_env (
    then noon send_text refl tt (
      then noon (compose_changed (codes "hey")) refl tt (
        then noon (open_chat (key 2)) refl tt
          (then noon (identity_loaded (key 1 ++ key 1)) refl tt start))))

size-on_poll_result_example :
    Map.size (on_poll_result toy_env noon 0 (ok (answer 200)) chatting).0.contacts
    ≤ max (Map.size chatting.contacts) max_contacts
size-on_poll_result_example =
    size-on_poll_result toy_env noon 0 (ok (answer 200)) chatting chatting-IsTidy

apply_ack-Marked_example :
    let after =
      (apply_ack
        (pos 9)
        (key 2)
        (record { ts = pos 8; ids = (3 ∷ []) ∷ [] })
        (open_page chatting)).model.messages in
    Marked
      ((3 ∷ []) ∷ [])
      (or_empty (Map.get (key 2) chatting.messages))
      (or_empty (Map.get (key 2) after))
    × (Map.get (key 3) after ≡ Map.get (key 3) chatting.messages)
unfolding text_dec new_contact Map.get
apply_ack-Marked_example =
    apply_ack-Marked (pos 9) (key 2) (key 3) (record { ts = pos 8; ids = (3 ∷ []) ∷ [] })
      (open_page chatting) refl (λ e. cc)

abbrev told : PageFold
told =
    ingest_profile toy_env (pos 9) (key 2) (pos 7) (some (codes "Bo")) none none
      (open_page chatting)

stale_profile_ignored_example :
    Guarded (key 2) (pos 7) told
    × (ingest_profile toy_env (pos 12) (key 2) (pos 5) (some (codes "Al")) none none told ≡ told)
stale_profile_ignored_example =
    stale_profile_ignored toy_env (pos 9) (pos 12) (key 2) (pos 7) (pos 5) (some (codes "Bo")) none
      none (some (codes "Al")) none none (open_page chatting) told (omega arith) refl
      (ingest_profile-Guarded toy_env (pos 9) (key 2) (pos 7) (some (codes "Bo")) none none
        (open_page chatting) (omega arith))

round-Stops_example :
    let g = gather toy_env noon own_id 1000 0 0 0 none false none signed_in.outbox in
    Stops toy_env noon own_id 1000
      (length g.taken)
      (sent_size g.messages)
      (recipient_of none g.taken)
      g
round-Stops_example = round-Stops toy_env noon own_id 1000 signed_in.outbox none

-- A profile from a clock ahead of ours parks the watermark at our clock, and an older one that is
-- ahead of our clock as well is then taken again.
abbrev ahead : PageFold
ahead = ingest_profile toy_env (pos 9) (key 2) (pos 40_000) (some (codes "Al")) none none (
    ingest_profile toy_env (pos 9) (key 2) (pos 50_000) (some (codes "Bo")) none none
      (open_page chatting))

ahead_rolls_back :
    Map.get (key 2) ahead.model.contacts
    ≡ some (record (new_contact (key 2) [] (pos 0)) {
      display_name = codes "Al";
      last_profile_ts = pos 9;
    })
unfolding ingest_profile text_dec new_contact Map.get Map.insert compare_text codes
ahead_rolls_back = refl
