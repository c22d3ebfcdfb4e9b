-- ===== src/App/Blocking.antt =====
-- What the core keeps of a peer who is blocked or deleted.
use skrepka.Base.{
  suc, ◌≡◌, true, false, Option, none, some, List, [], ◌∷◌, arith, Text, ℤ, same_text,
  same_text_refl,
}
use skrepka.Base.Map
use skrepka.Base.Map.{Map, get-remove, get-insert}
use skrepka.Domain.{OutboxItem}
use skrepka.Protocol.{ParsedPayload}
use skrepka.App.State.{Model, Env, World, InFlight}
use skrepka.App.Guards.{
  detached, detach_in_flight, persist_outbox, persist_contacts, persist_seen_ids,
}
use skrepka.App.User.{retain_others, is_blocked, on_set_blocked, on_delete_contact}
use skrepka.App.Ingest.{PageFold, ingest_parsed}

-- No item is for `peer`.
abbrev pub NoneFor : Text → List OutboxItem → Type 0
NoneFor peer [] = Unit
NoneFor peer (item ∷ items) = (same_text item.recipient peer ≡ false) × NoneFor peer items

-- Nothing in flight is for `peer`.
abbrev pub NotInFlight : Text → Option InFlight → Type 0
NotInFlight peer none = Unit
NotInFlight peer (some f) = same_text f.recipient peer ≡ false

retain_others-NoneFor :
    (peer : Text) (items : List OutboxItem) → NoneFor peer (retain_others peer items)
unfolding retain_others
retain_others-NoneFor peer [] = tt
retain_others-NoneFor peer (item ∷ items) = grind (arith, retain_others-NoneFor peer items)

detached-NotInFlight : (peer : Text) (f : Option InFlight) → NotInFlight peer (detached peer f)
detached-NotInFlight peer none = tt
detached-NotInFlight peer (some f) = ground arith

forgotten : {V : Type 0} (peer : Text) (m : Map V) → Map.get peer (Map.remove peer m) ≡ none
forgotten peer m = ground (arith, get-remove peer peer m, same_text_refl peer)

-- A deleted contact leaves nothing behind: no record, no conversation, no ids, nothing queued and
-- nothing in flight.
pub delete_contact_forgets :
    (env : Env) (w : World) (peer : Text) (m : Model)
    → let m' = (on_delete_contact env w peer m).0 in
      (Map.get peer m'.contacts ≡ none)
      × (Map.get peer m'.messages ≡ none)
      × (Map.get peer m'.seen_ids ≡ none)
      × NoneFor peer m'.outbox
      × NotInFlight peer m'.in_flight
unfolding on_delete_contact detach_in_flight persist_outbox persist_contacts persist_seen_ids
delete_contact_forgets env w peer m = grind (
  arith,
  forgotten peer m.contacts,
  forgotten peer m.messages,
  forgotten peer m.seen_ids,
  retain_others-NoneFor peer m.outbox,
  detached-NotInFlight peer m.in_flight,
)

-- A contact that is blocked has nothing queued and nothing in flight any more.
pub set_blocked_silences :
    (env : Env) (w : World) (peer : Text) (m : Model)
    → let m' = (on_set_blocked env w peer true m).0 in
      NoneFor peer m'.outbox × NotInFlight peer m'.in_flight
unfolding on_set_blocked detach_in_flight persist_outbox persist_contacts
set_blocked_silences env w peer m =
    ground (arith, retain_others-NoneFor peer m.outbox, detached-NotInFlight peer m.in_flight)

-- Nothing that a blocked sender sends changes the model.
pub blocked_sender_ignored :
    (env : Env) (now : ℤ) (sender : Text) (parsed : ParsedPayload) (g : PageFold)
    → is_blocked (Map.get sender g.model.contacts) ≡ true
    → ingest_parsed env now sender parsed g ≡ record g { events_stored = suc g.events_stored }
unfolding ingest_parsed
blocked_sender_ignored env now sender parsed g h = ground arith
