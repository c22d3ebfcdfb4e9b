-- ===== src/App/Senders.antt =====
-- A payload touches what the model keeps of its sender, and of nobody else.
use skrepka.Base.{◌≡◌, false, arith, Text, ℤ, same_text}
use skrepka.Base.Map
use skrepka.Base.Map.{Map, get-insert}
use skrepka.Protocol.{Payload, text, delivery_ack, profile, ParsedPayload}
use skrepka.App.State.{Env, Model}
use skrepka.App.Ingest.{
  PageFold, ingest_parsed, ingest_payload, ingest_text, ingest_ack, ingest_profile, file_text,
  welcome,
}

-- What the two models keep of `peer` is the same.
pub record SameFor (peer : Text) (a b : Model) : Type 0 where
  pub contact : Map.get peer b.contacts ≡ Map.get peer a.contacts
  pub convo : Map.get peer b.messages ≡ Map.get peer a.messages
  pub ids : Map.get peer b.seen_ids ≡ Map.get peer a.seen_ids

module _ (env : Env) (now : ℤ) (sender peer : Text) (other : same_text sender peer ≡ false) where
  file_text-SameFor :
      (ts : ℤ) (msg_id body : Text) (g : PageFold)
      → SameFor peer g.model (file_text env now sender ts msg_id body g).model
  unfolding file_text
  file_text-SameFor ts msg_id body g = grind (arith, get-insert)

  welcome-SameFor :
      (ts : ℤ) (g : PageFold) → SameFor peer g.model (welcome env now sender ts g).model
  unfolding welcome
  welcome-SameFor ts g = grind (arith, get-insert)

  ingest_text-SameFor :
      (ts : ℤ) (msg_id body : Text) (g : PageFold)
      → SameFor peer g.model (ingest_text env now sender ts msg_id body g).model
  unfolding ingest_text
  ingest_text-SameFor ts msg_id body g = grind (
    arith,
    welcome-SameFor ts g,
    file_text-SameFor ts msg_id body g,
    file_text-SameFor ts msg_id body (welcome env now sender ts g),
  )

  ingest_payload-SameFor :
      (ts : ℤ) (p : Payload) (g : PageFold)
      → SameFor peer g.model (ingest_payload env now sender ts p g).model
  unfolding ingest_payload ingest_text ingest_ack ingest_profile
  ingest_payload-SameFor ts (text msg_id body) g = ingest_text-SameFor ts msg_id body g
  ingest_payload-SameFor ts (delivery_ack ids) g = ground arith
  ingest_payload-SameFor ts (profile name bio photo) g = grind (arith, get-insert)

-- A payload changes nothing that the model keeps of anybody but its sender.
pub ingest_parsed-SameFor :
    (env : Env) (now : ℤ) (sender peer : Text) (parsed : ParsedPayload) (g : PageFold)
    → same_text sender peer ≡ false
    → SameFor peer g.model (ingest_parsed env now sender parsed g).model
unfolding ingest_parsed
ingest_parsed-SameFor env now sender peer parsed g other =
    grind (arith, ingest_payload-SameFor env now sender peer other)
