-- ===== src/App/Alignment/Actions.antt =====
-- The user's actions keep the batch in flight at the head of the outbox.
use skrepka.Base.{Bool, Option, arith, Text}
use skrepka.App.State.{Model, Env, World}
use skrepka.App.Guards.{
  detach_in_flight, in_flight_count, abandon_poll, abandon_flush, persist_outbox, persist_contacts,
  persist_profile, persist_seen_ids, persist_messages,
}
use skrepka.App.User.{
  on_set_blocked, on_delete_contact, on_save_profile, on_set_server_url, on_send_text, send_text_to,
  post_text,
}
use skrepka.App.Alignment.Queue.{
  IsAligned, Carried-retain_others, Carried-append, Carried-broadcast,
}

module _ (env : Env) (w : World) where
  pub on_set_blocked-IsAligned :
      (peer : Text) (blocked : Bool) (m : Model)
      → IsAligned m
      → IsAligned (on_set_blocked env w peer blocked m).0
  unfolding on_set_blocked detach_in_flight persist_outbox persist_contacts
  on_set_blocked-IsAligned peer blocked m h =
      ground (arith, Carried-retain_others peer m.in_flight m.outbox h.carried)

  pub on_delete_contact-IsAligned :
      (peer : Text) (m : Model) → IsAligned m → IsAligned (on_delete_contact env w peer m).0
  unfolding on_delete_contact detach_in_flight persist_outbox persist_contacts persist_seen_ids
  on_delete_contact-IsAligned peer m h =
      ground (arith, Carried-retain_others peer m.in_flight m.outbox h.carried)

  pub on_set_server_url-IsAligned :
      (url : Text) (m : Model) → IsAligned m → IsAligned (on_set_server_url env w url m).0
  unfolding on_set_server_url abandon_poll abandon_flush
  on_set_server_url-IsAligned url m h = ground arith

  pub on_save_profile-IsAligned :
      (name bio : Text) (photo : Option Text) (m : Model)
      → IsAligned m
      → IsAligned (on_save_profile env w name bio photo m).0
  unfolding on_save_profile in_flight_count persist_outbox persist_profile
  on_save_profile-IsAligned name bio photo m h = grind (arith, Carried-broadcast m.in_flight)

  post_text-IsAligned :
      (peer body : Text) (m : Model) → IsAligned m → IsAligned (post_text env w peer body m).0
  unfolding post_text persist_outbox persist_contacts persist_messages
  post_text-IsAligned peer body m h = grind (arith, Carried-append m.in_flight m.outbox)

  pub on_send_text-IsAligned : (m : Model) → IsAligned m → IsAligned (on_send_text env w m).0
  unfolding on_send_text send_text_to
  on_send_text-IsAligned m h = grind (arith, post_text-IsAligned)
