-- ===== src/Protocol/Parse.antt =====
-- `sanitize_text` and `parse_payload`.
use skrepka.Base.{
  ℕ, suc, Bool, true, false, ◌&&◌, ◌||◌, not, Option, none, some, List, [], ◌∷◌, Bytes, Text, codes,
  same_text, text_len, length, ltb, leb, ◌==◌, if◌then◌else◌, ℤ, pos,
}
use skrepka.Protocol.Payloads.{
  Value, int, string, array, object, Items, nil, cons, Fields, end, field, Payload, text,
  delivery_ack, profile, ParsedPayload, max_body_len, max_display_name_len, max_bio_len,
  max_photo_len, max_id_len, max_ack_ids,
}

-- The test of `sanitize_text`'s filter.
unfoldable pub keeps : ℕ → Bool
keeps cp =
    if leb cp 0x001F && not (cp == 0x0009) && not (cp == 0x000A) && not (cp == 0x000D)
    then false
    else if cp == 0x200E
        || cp == 0x200F
        || (leb 0x202A cp && leb cp 0x202E)
        || (leb 0x2066 cp && leb cp 0x2069)
    then false
    else if cp == 0x200B || cp == 0x200C || cp == 0x200D || cp == 0xFEFF
    then false
    else true

unfoldable pub sanitize_text : Text → Text
unfolding keeps
sanitize_text [] = []
sanitize_text (c ∷ s) = let rest = sanitize_text s in if keeps c then c ∷ rest else rest

-- `v.get(key)`
abbrev get_field : Text → Fields → Option Value
get_field key end = none
get_field key (field k v fs) = if same_text k key then some v else get_field key fs

abbrev pub get_key : Text → Value → Option Value
get_key key (object fs) = get_field key fs
get_key key _ = none

abbrev as_str : Value → Option Text
as_str (string s) = some s
as_str _ = none

abbrev as_i64 : Value → Option ℤ
as_i64 (int n) = some n
as_i64 _ = none

abbrev as_array : Value → Option Items
as_array (array items) = some items
as_array _ = none

abbrev pub items_len : Items → ℕ
items_len nil = 0
items_len (cons v vs) = suc (items_len vs)

-- `filter_map(|x| x.as_str())`
abbrev pub string_items : Items → List Text
string_items nil = []
string_items (cons (string s) vs) = s ∷ string_items vs
string_items (cons _ vs) = string_items vs

infixl 5 ◌>>=◌
abbrev ◌>>=◌ {ℓ κ} : {A : Type ℓ} {B : Type κ} → Option A → (A → Option B) → Option B
none >>= f = none
some a >>= f = f a

abbrev pub map_option : (Text → Text) → Option Text → Option Text
map_option f none = none
map_option f (some s) = some (f s)

-- `is_some_and`
abbrev pub holds : (Text → Bool) → Option Text → Bool
holds test none = false
holds test (some s) = test s

unfoldable pub any_over : List Text → Bool
unfolding text_len
any_over [] = false
any_over (id ∷ ids) = ltb max_id_len (text_len id) || any_over ids

unfoldable pub parse_text : Value → Option Payload
unfolding sanitize_text
parse_text v = do
  id_value ← get_key (codes "id") v
  id ← as_str id_value
  body_value ← get_key (codes "body") v
  raw_body ← as_str body_value
  let body = sanitize_text raw_body
  if ltb max_id_len (text_len id) || ltb max_body_len (text_len body)
      then none
      else some (text id body)

unfoldable pub parse_ack : Value → Option Payload
unfolding any_over
parse_ack v = do
  ids_value ← get_key (codes "ack_ids") v
  raw ← as_array ids_value
  let ack_ids = string_items raw
  if ltb max_ack_ids (items_len raw)
      then none
      else if ltb max_ack_ids (length ack_ids) || any_over ack_ids
      then none
      else some (delivery_ack ack_ids)

module _ (is_base64 : Text → Bool) where
  unfoldable pub parse_profile : Value → Option Payload
  unfolding sanitize_text
  parse_profile v =
      let display_name = map_option sanitize_text (get_key (codes "display_name") v >>= as_str) in
      let bio = map_option sanitize_text (get_key (codes "bio") v >>= as_str) in
      let photo = get_key (codes "photo") v >>= as_str in
      if holds (λ d. ltb max_display_name_len (length d)) display_name
        || holds (λ b. ltb max_bio_len (length b)) bio
        || holds (λ p. ltb max_photo_len (text_len p)) photo
        || holds (λ p. not (is_base64 p)) photo
      then none
      else some (profile display_name bio photo)

  -- The body of `parse_payload` on a JSON value.
  unfoldable pub parse_value : Value → Option ParsedPayload
  unfolding parse_text parse_ack parse_profile
  parse_value v = do
    ty_value ← get_key (codes "type") v
    ty ← as_str ty_value
    payload ←
        if same_text ty (codes "text")
        then parse_text v
        else if same_text ty (codes "delivery.ack")
        then parse_ack v
        else if same_text ty (codes "profile")
        then parse_profile v
        else none
    some (record { ts = timestamp (get_key (codes "ts") v >>= as_i64); payload = payload })
    where
      timestamp : Option ℤ → ℤ
      timestamp none = pos 0
      timestamp (some n) = n

  -- `serde_json::from_slice` is the parameter `from_slice`.
  unfoldable pub parse_payload : (Bytes → Option Value) → Bytes → Option ParsedPayload
  unfolding parse_value
  parse_payload from_slice bytes = from_slice bytes >>= parse_value
