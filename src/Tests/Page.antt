-- ===== src/Tests/Page.antt =====
-- Runs of the theorems on the cursor and on the broadcast of a profile.
use skrepka.Base.{◌≡◌, refl, some, none, [], ◌∷◌, take, drop, arith, codes, ok, true, pos}
use skrepka.Base.Map
use skrepka.Domain.{OwnProfile, new_contact}
use skrepka.Protocol.{serialize_payload}
use skrepka.App.{
  Model, Env, update, save_profile, save_profile_at, in_flight_count, unblocked, own_payload,
  too_large, on_poll_result,
}
use skrepka.App.Fate.Lists.{Fate}
use skrepka.App.Broadcast.{save_profile_tells, AllTold, Renewal, Never}
use skrepka.App.Cursor.{on_poll_result-Waits, Waits}
use skrepka.App.Advance.{on_poll_result-Within, Within}
use skrepka.App.Alignment.Queue.{IsAligned}
use skrepka.Tests.Setup.{toy_env, noon, signed_in, sending, answer, key}

-- A relay whose page holds one blob and a cursor far ahead.
abbrev paging : Env
paging = record toy_env {
  decode_poll = λ bytes. some (record { events = codes "x" ∷ []; cursor = pos 99_000_000 });
}

abbrev awaiting : Model
awaiting = record signed_in { polling = true; poll_gen = 3 }

on_poll_result-Waits_example :
    Waits paging (pos 0) (on_poll_result paging noon 3 (ok (answer 200)) awaiting)
on_poll_result-Waits_example = on_poll_result-Waits paging noon 3 (ok (answer 200)) awaiting

on_poll_result-Within_example :
    Within noon (pos 0) (on_poll_result paging noon 3 (ok (answer 200)) awaiting).0.cursor
on_poll_result-Within_example = on_poll_result-Within paging noon 3 (ok (answer 200)) awaiting

-- A send is under way, and there are two contacts.
abbrev known : Model
known = record sending {
  contacts = (key 2, new_contact (key 2) [] (pos 0)) ∷ (key 3, new_contact (key 3) [] (pos 0)) ∷ [];
}

known-IsAligned : IsAligned known
known-IsAligned = record {
  idle = λ h. cc;
  carried = (omega arith, omega arith, (refl, (refl, tt)));
}

save_profile_tells_example :
    let own : OwnProfile = record { display_name = codes "me"; bio = []; photo = none } in
    let payload =
      serialize_payload toy_env.render_json (own_payload own) (noon.now save_profile_at) in
    let after = (update toy_env noon (save_profile (codes "me") [] none) known).0.outbox in
    let live = in_flight_count known in
    (take live after ≡ take live known.outbox)
    × AllTold payload (unblocked (Map.values known.contacts)) (drop live after)
    × Fate (Renewal payload) Never 0 known.outbox after
unfolding codes too_large
save_profile_tells_example =
    save_profile_tells toy_env noon (codes "me") [] none known known-IsAligned refl refl refl refl
