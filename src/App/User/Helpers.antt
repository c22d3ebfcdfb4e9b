-- ===== src/App/User/Helpers.antt =====
-- The steps of the user's actions on contacts and on the outbox.
use skrepka.Base.{
  ℕ, zero, suc, Bool, true, false, ◌&&◌, not, Option, none, some, List, [], ◌∷◌, Text, same_text,
  text_len, ltb, if◌then◌else◌, ℤ,
}
use skrepka.Base.Map
use skrepka.Base.Map.{Map}
use skrepka.Domain.{Contact, new_contact, OutboxItem, profile_item, is_profile, OwnProfile}
use skrepka.Protocol.{Payload, profile, max_photo_len}

-- `outbox.retain(|item| item.recipient != peer)`
unfoldable pub retain_others : Text → List OutboxItem → List OutboxItem
retain_others peer [] = []
retain_others peer (item ∷ items) =
    let rest = retain_others peer items in
    if same_text item.recipient peer then rest else item ∷ rest

abbrev pub is_blocked : Option Contact → Bool
is_blocked none = false
is_blocked (some c) = c.blocked

abbrev pub is_some {ℓ} : {A : Type ℓ} → Option A → Bool
is_some none = false
is_some (some a) = true

abbrev pub is_empty : Text → Bool
is_empty [] = true
is_empty (c ∷ s) = false

-- `entry(hex).or_insert_with(…)`, and the nickname if one was given.
unfoldable pub upsert : Text → Text → ℤ → Map Contact → Map Contact
upsert hex nickname now contacts = elim (Map.get hex contacts) [
  | none ↦ Map.insert hex (new_contact hex nickname now) contacts
  | some c ↦
      if is_empty nickname
      then contacts
      else Map.insert hex (record c { nickname = nickname }) contacts
]

-- `if let Some(c) = contacts.get_mut(&peer) { c.blocked = blocked; }`
unfoldable pub set_flag : Text → Bool → Map Contact → Map Contact
set_flag peer blocked contacts = elim (Map.get peer contacts) [
  | none ↦ contacts
  | some c ↦ Map.insert peer (record c { blocked = blocked }) contacts
]

-- The recipients of a profile broadcast.
unfoldable pub unblocked : List Contact → List Text
unblocked [] = []
unblocked (c ∷ cs) = let rest = unblocked cs in if c.blocked then rest else c.pubkey ∷ rest

-- The first pending profile for `peer` behind the `live` items in flight takes the new payload; if
-- there is none, an item is queued.
unfoldable pub supersede : ℕ → Text → Text → List OutboxItem → List OutboxItem
supersede live peer payload_json [] = profile_item peer payload_json ∷ []
supersede zero peer payload_json (item ∷ items) =
    if is_profile item && same_text item.recipient peer
    then record item { envelope_json = payload_json } ∷ items
    else item ∷ supersede zero peer payload_json items
supersede (suc live) peer payload_json (item ∷ items) =
    item ∷ supersede live peer payload_json items

-- The loop over the recipients.
unfoldable pub broadcast : ℕ → Text → List Text → List OutboxItem → List OutboxItem
broadcast live payload_json [] outbox = outbox
broadcast live payload_json (peer ∷ peers) outbox =
    broadcast live payload_json peers (supersede live peer payload_json outbox)

abbrev pub own_payload : OwnProfile → Payload
own_payload own = profile (some own.display_name) (some own.bio) own.photo

unfoldable pub too_large : Option Text → Bool
too_large none = false
too_large (some p) = ltb max_photo_len (text_len p)

abbrev pub not_base64 : (Text → Bool) → Option Text → Bool
not_base64 is_base64 none = false
not_base64 is_base64 (some p) = not (is_base64 p)
