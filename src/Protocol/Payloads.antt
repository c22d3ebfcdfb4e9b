-- ===== src/Protocol/Payloads.antt =====
-- JSON values as serde_json gives them, payloads, and `serialize_payload`.
use skrepka.Base.{ℕ, ◌*◌, Option, none, some, List, [], ◌∷◌, Text, codes, ℤ}

mutual
  -- A number is kept only if it is an `i64`, which is all that the program reads of one.
  pub data Value : Type 0 where
    null : Value
    bool : Value
    int : ℤ → Value
    other_number : Value
    string : Text → Value
    array : Items → Value
    object : Fields → Value

  pub data Fields : Type 0 where
    end : Fields
    field : Text → Value → Fields → Fields

  pub data Items : Type 0 where
    nil : Items
    cons : Value → Items → Items

abbrev pub max_body_len : ℕ
max_body_len = 64 * 1024

abbrev pub max_display_name_len : ℕ
max_display_name_len = 128

abbrev pub max_bio_len : ℕ
max_bio_len = 1024

abbrev pub max_photo_len : ℕ
max_photo_len = 64 * 1024

abbrev pub max_id_len : ℕ
max_id_len = 128

abbrev pub max_ack_ids : ℕ
max_ack_ids = 1024

pub data Payload : Type 0 where
  text : Text → Text → Payload
  delivery_ack : List Text → Payload
  profile : Option Text → Option Text → Option Text → Payload

pub record ParsedPayload : Type 0 where
  pub ts : ℤ
  pub payload : Payload

pub record Envelope : Type 0 where
  pub to : Text
  pub encrypted_blob : Text

abbrev pub strings : List Text → Items
strings [] = nil
strings (s ∷ ss) = cons (string s) (strings ss)

-- `if let Some(x) = o { obj[key] = x }`
abbrev with_field : Text → Option Text → Fields → Fields
with_field key none rest = rest
with_field key (some s) rest = field key (string s) rest

-- The object that `serialize_payload` prints. `json!` has one entry for each key, and the reader
-- looks keys up, so their order is not material.
unfoldable pub payload_value : Payload → ℤ → Value
payload_value (text id body) ts = object (
    field (codes "type") (string (codes "text")) (
      field (codes "id") (string id)
        (field (codes "body") (string body) (field (codes "ts") (int ts) end))))
payload_value (delivery_ack ack_ids) ts = object (
    field (codes "type") (string (codes "delivery.ack"))
      (field (codes "ack_ids") (array (strings ack_ids)) (field (codes "ts") (int ts) end)))
payload_value (profile display_name bio photo) ts = object (
    field (codes "type") (string (codes "profile")) (
      field (codes "ts") (int ts) (
        with_field (codes "display_name") display_name
          (with_field (codes "bio") bio (with_field (codes "photo") photo end)))))

-- `Value::to_string` is the parameter.
unfoldable pub serialize_payload : (Value → Text) → Payload → ℤ → Text
unfolding payload_value
serialize_payload render payload ts = render (payload_value payload ts)
