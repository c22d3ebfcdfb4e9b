-- ===== src/Tests/Ingest.antt =====
-- Runs of the theorems on the reading of a page.
use skrepka.Base.{◌≡◌, refl, List, [], ◌∷◌, pos, codes, text_dec, Text}
use skrepka.Protocol.{text}
use skrepka.App.{PageFold, open_page, file_text, ingest_parsed}
use skrepka.App.Acks.{queue_acks_lem, AllAcks}
use skrepka.Base.{◌⊎◌, ◌++◌, true}
use skrepka.Base.Map.{Map}
use skrepka.Domain.{OutboxItem}
use skrepka.App.{queue_acks}
use skrepka.App.Senders.{ingest_parsed-SameFor, SameFor}
use skrepka.Tests.Setup.{toy_env, signed_in, key}

abbrev fresh : PageFold
fresh = open_page signed_in

-- The page after a first text.
abbrev once : PageFold
once = file_text toy_env (pos 9) (key 2) (pos 5) (codes "m1") (codes "hi") fresh

ingest_parsed-SameFor_example :
    SameFor
      (key 3)
      fresh.model
      (ingest_parsed toy_env
        (pos 9)
        (key 2)
        (record { ts = pos 5; payload = text (codes "m1") (codes "hi") })
        fresh).model
unfolding text_dec
ingest_parsed-SameFor_example =
    ingest_parsed-SameFor toy_env (pos 9) (key 2) (key 3)
      (record { ts = pos 5; payload = text (codes "m1") (codes "hi") }) fresh refl

-- Three acks are owed to one sender and one to another.
abbrev owed : Map (List Text)
owed = (key 2, codes "m1" ∷ codes "m2" ∷ codes "m3" ∷ []) ∷ (key 3, codes "m4" ∷ []) ∷ []

queue_acks_lem_example :
    let after = queue_acks toy_env (pos 9) owed fresh in
    (items : List OutboxItem) × AllAcks toy_env (pos 9) owed items
    × (after.model ≡ record (fresh.model) { outbox = fresh.model.outbox ++ items })
    × ((owed ≡ []) ⊎ (after.outbox_dirty ≡ true))
queue_acks_lem_example = queue_acks_lem toy_env (pos 9) owed fresh
