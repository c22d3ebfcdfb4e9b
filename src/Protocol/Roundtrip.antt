-- ===== src/Protocol/Roundtrip.antt =====
-- What `serialize_payload` writes, `parse_payload` reads.
use skrepka.Base.{
  ℕ, ◌≤◌, ◌≡◌, refl, Bool, true, false, Option, none, some, List, [], ◌∷◌, arith, Text, length, ℤ,
  codes, text_len, text_dec,
}
use skrepka.Protocol.Payloads.{
  Payload, text, delivery_ack, profile, payload_value, max_body_len, max_display_name_len,
  max_bio_len, max_photo_len, max_id_len, max_ack_ids, strings,
}
use skrepka.Protocol.Parse.{
  sanitize_text, parse_text, parse_ack, parse_profile, parse_value, any_over, string_items,
  items_len, map_option,
}

-- The payload as its reader sees it.
abbrev pub cleaned : Payload → Payload
cleaned (text id body) = text id (sanitize_text body)
cleaned (delivery_ack ids) = delivery_ack ids
cleaned (profile name bio photo) =
    profile (map_option sanitize_text name) (map_option sanitize_text bio) photo

abbrev pub AtMost : ℕ → (Text → ℕ) → Option Text → Type 0
AtMost n size none = Unit
AtMost n size (some s) = size s ≤ n

abbrev pub Passes : (Text → Bool) → Option Text → Type 0
Passes test none = Unit
Passes test (some s) = test s ≡ true

-- The caps on a payload.
abbrev pub Fits : (Text → Bool) → Payload → Type 0
Fits is_base64 (text id body) = (text_len id ≤ max_id_len) × (text_len body ≤ max_body_len)
Fits is_base64 (delivery_ack ids) = (length ids ≤ max_ack_ids) × (any_over ids ≡ false)
Fits is_base64 (profile name bio photo) =
    AtMost max_display_name_len length name
    × AtMost max_bio_len length bio
    × AtMost max_photo_len text_len photo
    × Passes is_base64 photo

pub text_len-sanitize_text : (s : Text) → text_len (sanitize_text s) ≤ text_len s
unfolding sanitize_text text_len
text_len-sanitize_text [] = omega arith
text_len-sanitize_text (c ∷ s) = ground (arith, text_len-sanitize_text s)

pub length-sanitize_text : (s : Text) → length (sanitize_text s) ≤ length s
unfolding sanitize_text
length-sanitize_text [] = omega arith
length-sanitize_text (c ∷ s) = ground (arith, length-sanitize_text s)

strings_lem :
    (ids : List Text) → (string_items (strings ids) ≡ ids) × (items_len (strings ids) ≡ length ids)
strings_lem [] = (refl, refl)
strings_lem (id ∷ ids) = ground (arith, strings_lem ids)

-- Reading what was written gives the payload and its time back, with its texts sanitized, if the
-- payload is within the caps.
pub parse_value-payload_value :
    (is_base64 : Text → Bool) (p : Payload) (ts : ℤ)
    → Fits is_base64 p
    → parse_value is_base64 (payload_value p ts) ≡ some (record { ts = ts; payload = cleaned p })
unfolding parse_value payload_value parse_text parse_ack parse_profile codes text_dec
parse_value-payload_value is_base64 (text id body) ts h =
    ground (arith, text_len-sanitize_text body)
parse_value-payload_value is_base64 (delivery_ack ids) ts h = ground (arith, strings_lem ids)
parse_value-payload_value is_base64 (profile none none none) ts h = ground arith
parse_value-payload_value is_base64 (profile none none (some p)) ts h = ground arith
parse_value-payload_value is_base64 (profile none (some b) none) ts h =
    ground (arith, length-sanitize_text b)
parse_value-payload_value is_base64 (profile none (some b) (some p)) ts h =
    ground (arith, length-sanitize_text b)
parse_value-payload_value is_base64 (profile (some n) none none) ts h =
    ground (arith, length-sanitize_text n)
parse_value-payload_value is_base64 (profile (some n) none (some p)) ts h =
    ground (arith, length-sanitize_text n)
parse_value-payload_value is_base64 (profile (some n) (some b) none) ts h =
    ground (arith, length-sanitize_text n, length-sanitize_text b)
parse_value-payload_value is_base64 (profile (some n) (some b) (some p)) ts h =
    ground (arith, length-sanitize_text n, length-sanitize_text b)
