-- ===== src/App/Fate/Updates.antt =====
-- Why an item leaves the outbox.
use skrepka.Base.{
  ℕ, ◌≡◌, refl, Bool, true, false, ◌&&◌, not, ◌==◌, none, List, [], ◌∷◌, arith, Text, ok, err,
  same_text, inl, inr, ◌⊎◌, ap, Bool-cases, Option-cases, if◌then◌else◌,
}
use skrepka.Base.Map
use skrepka.Phonemic.{trim}
use skrepka.Protocol.{text, serialize_payload}
use skrepka.Domain.{OutboxItem, new_item, profile_item}
use skrepka.App.State.{
  Model, Env, World, Event, send_text, set_blocked, delete_contact, save_profile, loaded_outbox,
  saved, saved_cursor, start_flush, flush_watchdog, challenge_result, verify_result, poll_result,
  send_result, HttpResult,
}
use skrepka.App.Guards.{startup_done, startup_load_done, backoff_poll, abandon_poll, abandon_auth}
use skrepka.App.Loads.{
  on_identity_loaded, on_loaded_settings, on_loaded_profile, on_loaded_contacts, on_loaded_cursor,
  on_loaded_seen_ids, on_loaded_messages, on_saved, on_saved_cursor,
}
use skrepka.App.User.{
  on_show_conversations, show_page, on_open_chat, on_back, on_compose_changed, on_add_contact,
}
use skrepka.App.Auth.{
  on_connect, on_auth_watchdog, on_authenticate, begin_auth, unbuilt_auth, on_challenge_result,
  challenge_answered, answer_challenge, on_verify_result, verify_answered,
}
use skrepka.App.Polling.{on_poll_watchdog, on_poll, issue_poll}
use skrepka.App.Update.{update}
use skrepka.App.Guards.{schedule_reconnect, persist_contacts}
use skrepka.App.State.{send_text_at}
use skrepka.App.Guards.{
  abandon_flush, persist_messages, persist_contacts, persist_outbox, detach_in_flight,
  persist_seen_ids,
}
use skrepka.App.Outbox.{on_send_result, on_flush_watchdog, flush_next}
use skrepka.App.User.{
  on_set_server_url, on_set_blocked, on_delete_contact, on_send_text, send_text_to, post_text,
  retain_others, own_payload, is_some,
}
use skrepka.App.Alignment.Queue.{IsAligned}
use skrepka.App.Fate.Lists.{Fate, SameMail, Fate-same, Fate-append, Fate-retain_others, Fate-map}
use skrepka.App.Fate.Sends.{
  Unsendable, Unsendable-same_key, InBatch, Spent, is_final, flush_next-Fate, retry_batch-Fate,
  send_answered-Fate,
}
use skrepka.App.Fate.Growth.{Grows, Grows-eq, Grows-either, on_poll_result-Grows}

-- The answer to the send under way, and whether it is final.
abbrev pub is_accepted : Event → Model → Bool
is_accepted (send_result gen (ok resp)) m = gen == m.flush_gen && is_final resp
is_accepted _ m = false

abbrev pub is_refused : Event → Model → Bool
is_refused (send_result gen (ok resp)) m = gen == m.flush_gen && not (is_final resp)
is_refused (send_result gen (err e)) m = gen == m.flush_gen
is_refused _ m = false

-- The user blocks or deletes the peer.
abbrev pub is_cut : Event → Text → Bool
is_cut (set_blocked peer true) r = same_text r peer
is_cut (delete_contact peer) r = same_text r peer
is_cut _ r = false

-- The reasons for which the item at place `i` leaves.
pub data Reason (env : Env) (w : World) (e : Event) (m : Model) (i : ℕ) (x : OutboxItem)
    : Type 0 where
  accepted : is_accepted e m ≡ true → InBatch m.in_flight i x → Reason env w e m i x
  given_up : is_refused e m ≡ true → InBatch m.in_flight i x → Spent w x → Reason env w e m i x
  unsendable : Unsendable env w m x → Reason env w e m i x
  cut_off : is_cut e x.recipient ≡ true → Reason env w e m i x

-- The events that put other texts into the outbox: the stored outbox, and a new profile.
abbrev pub is_faithful : Event → Bool
is_faithful (loaded_outbox res) = false
is_faithful (save_profile name bio photo) = false
is_faithful _ = true

Fate-of_growth :
    {Reason : ℕ → OutboxItem → Type 0} (xs ys : List OutboxItem)
    → Grows xs ys
    → Fate SameMail Reason 0 xs ys
Fate-of_growth xs ys (more, e) = rw e (Fate-append xs more)

Fate-unmoved :
    {Reason : ℕ → OutboxItem → Type 0} (xs ys : List OutboxItem)
    → ys ≡ xs
    → Fate SameMail Reason 0 xs ys
Fate-unmoved xs ys e = rw e (Fate-same xs)

module _ (env : Env) (w : World) where
  post_text-Grows :
      (peer body : Text) (m : Model) → Grows m.outbox (post_text env w peer body m).0.outbox
  unfolding post_text persist_outbox persist_contacts persist_messages
  post_text-Grows peer body m =
      let ts = w.now send_text_at in
      let mail = new_item peer (serialize_payload env.render_json (text w.uuid body) ts) in
      let own = profile_item peer (serialize_payload env.render_json (own_payload m.profile) ts) in
      (mail ∷ (if not (is_some (Map.get peer m.contacts)) then own ∷ [] else []), ground arith)

  on_send_text-Grows : (m : Model) → Grows m.outbox (on_send_text env w m).0.outbox
  unfolding on_send_text send_text_to
  on_send_text-Grows m = elim (Option-cases m.active_peer) [
    | inl nobody ↦ Grows-eq _ _ (ground arith)
    | inr (peer, talking) ↦
        Grows-either m.outbox
          (post_text env w peer (trim m.compose) (record m { error = none })).0.outbox _
          (ground arith) (post_text-Grows peer (trim m.compose) (record m { error = none }))
  ]

  on_set_blocked_outbox :
      (peer : Text) (m : Model)
      → ((on_set_blocked env w peer true m).0.outbox ≡ retain_others peer m.outbox)
        × ((on_set_blocked env w peer false m).0.outbox ≡ m.outbox)
  unfolding on_set_blocked detach_in_flight persist_outbox persist_contacts
  on_set_blocked_outbox peer m = ground arith

  on_delete_contact_outbox :
      (peer : Text) (m : Model)
      → (on_delete_contact env w peer m).0.outbox ≡ retain_others peer m.outbox
  unfolding on_delete_contact detach_in_flight persist_outbox persist_contacts persist_seen_ids
  on_delete_contact_outbox peer m = ground arith

  on_flush_watchdog-Fate :
      (gen : ℕ) (m : Model)
      → Fate SameMail (λ i. Unsendable env w m) 0 m.outbox (on_flush_watchdog env w gen m).0.outbox
  unfolding on_flush_watchdog abandon_flush
  on_flush_watchdog-Fate gen m =
      let n = abandon_flush m in
      let either : ((on_flush_watchdog env w gen m).0 ≡ m)
          ⊎ ((on_flush_watchdog env w gen m).0 ≡ (flush_next env w n).0) =
        ground arith in
      elim either [
        | inl idle ↦ Fate-unmoved _ _ (ap (λ (k : Model). k.outbox) idle)
        | inr runs ↦
            rw runs
              (Fate-map (λ i x u. Unsendable-same_key env w m n x refl u) (flush_next-Fate env w n))
      ]

  on_send_result-Fate :
      (gen : ℕ) (res : HttpResult) (m : Model)
      → IsAligned m
      → Fate SameMail
          (Reason env w (send_result gen res) m)
          0
          m.outbox
          (on_send_result env w gen res m).0.outbox
  unfolding on_send_result
  on_send_result-Fate gen (ok resp) m h =
      let landed = record m { flushing = false; in_flight = none } in
      elim (Bool-cases (gen == m.flush_gen)) [
        | inr late ↦ Fate-unmoved _ _ (ground arith)
        | inl due ↦ rw due (
            send_answered-Fate env w landed
              (λ i x u. unsendable (Unsendable-same_key env w m landed x refl u)) m.in_flight resp
              h.carried (λ k x i s f. given_up (ground arith) i s)
              (λ k x i f. accepted (ground arith) i))
      ]
  on_send_result-Fate gen (err e) m h =
      let landed = record m { flushing = false; in_flight = none } in
      elim (Bool-cases (gen == m.flush_gen)) [
        | inr late ↦ Fate-unmoved _ _ (ground arith)
        | inl due ↦ rw due (
            retry_batch-Fate env w landed
              (λ i x u. unsendable (Unsendable-same_key env w m landed x refl u)) m.in_flight
              h.carried (λ k x i s. given_up (ground arith) i s))
      ]

challenge_outbox :
    (env : Env) (gen : ℕ) (res : HttpResult) (m : Model)
    → (on_challenge_result env gen res m).0.outbox ≡ m.outbox
unfolding on_challenge_result challenge_answered answer_challenge unbuilt_auth schedule_reconnect
challenge_outbox env gen (ok resp) m = ground arith
challenge_outbox env gen (err e) m = ground arith

verify_outbox :
    (env : Env) (gen : ℕ) (res : HttpResult) (m : Model)
    → (on_verify_result env gen res m).0.outbox ≡ m.outbox
unfolding on_verify_result verify_answered schedule_reconnect
verify_outbox env gen (ok resp) m = ground arith
verify_outbox env gen (err e) m = ground arith

-- In every event but the load of the stored outbox and the save of a profile, from a model whose
-- batch in flight stands at the head of the outbox, the outbox keeps its messages in their order and
-- grows at its end only; an item leaves it because it is in the batch that the relay answered for
-- good (a status in the 200s, or 400), because it is in the batch that was refused and has expired,
-- because it cannot be encrypted, or because the user blocked or deleted its recipient.
pub update-Fate :
    (env : Env) (w : World) (e : Event) (m : Model)
    → is_faithful e ≡ true
    → IsAligned m
    → Fate SameMail (Reason env w e m) 0 m.outbox (update env w e m).0.outbox
unfolding update on_show_conversations show_page on_open_chat on_back on_compose_changed on_connect
    on_saved on_saved_cursor on_poll_watchdog on_auth_watchdog backoff_poll on_loaded_profile
    on_loaded_cursor on_loaded_seen_ids on_loaded_messages startup_done startup_load_done
    on_identity_loaded on_loaded_settings on_loaded_contacts on_add_contact persist_contacts
    on_authenticate begin_auth unbuilt_auth schedule_reconnect on_poll issue_poll abandon_poll
    abandon_auth on_set_server_url abandon_flush
update-Fate env w (loaded_outbox res) m f h = cc
update-Fate env w (save_profile name bio photo) m f h = cc
update-Fate env w (send_result gen res) m f h = on_send_result-Fate env w gen res m h
update-Fate env w (flush_watchdog gen) m f h =
    Fate-map (λ i x u. unsendable u) (on_flush_watchdog-Fate env w gen m)
update-Fate env w start_flush m f h = Fate-map (λ i x u. unsendable u) (flush_next-Fate env w m)
update-Fate env w (poll_result gen res) m f h =
    Fate-of_growth _ _ (on_poll_result-Grows env w gen res m)
update-Fate env w send_text m f h = Fate-of_growth _ _ (on_send_text-Grows env w m)
update-Fate env w (set_blocked peer true) m f h =
    rw (on_set_blocked_outbox env w peer m).0
      (Fate-retain_others peer m.outbox (λ i x cut. cut_off cut))
update-Fate env w (set_blocked peer false) m f h =
    Fate-unmoved _ _ (on_set_blocked_outbox env w peer m).1
update-Fate env w (delete_contact peer) m f h =
    rw (on_delete_contact_outbox env w peer m)
      (Fate-retain_others peer m.outbox (λ i x cut. cut_off cut))
update-Fate env w (challenge_result gen (ok resp)) m f h =
    Fate-unmoved _ _ (challenge_outbox env gen (ok resp) m)
update-Fate env w (challenge_result gen (err e)) m f h =
    Fate-unmoved _ _ (challenge_outbox env gen (err e) m)
update-Fate env w (verify_result gen res) m f h = Fate-unmoved _ _ (verify_outbox env gen res m)
update-Fate env w (saved (ok r)) m f h = Fate-unmoved _ _ (ground arith)
update-Fate env w (saved (err e)) m f h = Fate-unmoved _ _ (ground arith)
update-Fate env w (saved_cursor (ok r)) m f h = Fate-unmoved _ _ (ground arith)
update-Fate env w (saved_cursor (err e)) m f h = Fate-unmoved _ _ (ground arith)
update-Fate env w _ m f h = Fate-unmoved _ _ (ground arith)
