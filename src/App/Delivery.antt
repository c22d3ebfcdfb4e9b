-- ===== src/App/Delivery.antt =====
-- From the outbox of one user to the reading of a page by another.
use skrepka.Base.{ℕ, ◌≡◌, refl, ◌∙◌, ◌≤◌, Bool, some, arith, Text, Bytes, ℤ, utf8, length, ok}
use skrepka.Crypto.{Identity, from_seed, public_key, encrypt, decrypt, max_blob_len}
use skrepka.Crypto.Laws.{Laws}
use skrepka.Crypto.RoundTrip.{decrypt-encrypt}
use skrepka.Domain.{OutboxItem}
use skrepka.Protocol.{
  Value, Payload, ParsedPayload, payload_value, serialize_payload, get_key, parse_value,
  parse_payload, parse_text, parse_ack, parse_profile,
}
use skrepka.Protocol.Roundtrip.{Fits, cleaned, parse_value-payload_value}
use skrepka.App.State.{Env, World}
use skrepka.App.Outbox.{encrypt_for}
use skrepka.App.Ingest.{PageFold, ingest_blob, ingest_parsed}

-- Two JSON values with the same entries, in whatever order.
abbrev pub SameKeys : Value → Value → Type 0
SameKeys u v = (key : Text) → get_key key u ≡ get_key key v

-- The JSON text of a payload is read to an object with the entries that were written.
abbrev pub IsReadable : Env → Payload → ℤ → Type 0
IsReadable env p ts =
    (v : Value) × (env.from_slice (utf8 (serialize_payload env.render_json p ts)) ≡ some v)
    × SameKeys v (payload_value p ts)

-- The reader of payloads looks at the entries only.
parse_value-SameKeys :
    (is_base64 : Text → Bool) (u v : Value)
    → SameKeys u v
    → parse_value is_base64 u ≡ parse_value is_base64 v
unfolding parse_value parse_text parse_ack parse_profile
parse_value-SameKeys is_base64 u v same = simp same refl

module _ (env : Env) (w : World) (now : ℤ) where
  -- What is sealed for an item.
  sealed :
      (i : ℕ) (sender : Identity) (item : OutboxItem) (recipient blob : Bytes)
      → env.prims.hex_decode item.recipient ≡ some recipient
      → encrypt_for env w i sender item ≡ some blob
      → encrypt env.prims (w.draws i) sender recipient (utf8 item.envelope_json) ≡ ok blob
  unfolding encrypt_for
  sealed i sender item recipient blob e h = ground arith

  read_back :
      (p : Payload) (ts : ℤ)
      → IsReadable env p ts
      → Fits env.is_base64 p
      → parse_payload env.is_base64 env.from_slice (utf8 (serialize_payload env.render_json p ts))
        ≡ some (record { ts = ts; payload = cleaned p })
  unfolding parse_payload
  read_back p ts (v, read, same) fits = rw read (
      parse_value-SameKeys env.is_base64 v (payload_value p ts) same
      ∙ parse_value-payload_value env.is_base64 p ts fits)

  opened :
      (id : Identity) (hex sender : Text) (blob plaintext : Bytes) (g : PageFold)
      → env.prims.hex_decode hex ≡ some blob
      → decrypt env.prims id blob ≡ ok (record { plaintext = plaintext; sender_hex = sender })
      → (parsed : ParsedPayload)
      → parse_payload env.is_base64 env.from_slice plaintext ≡ some parsed
      → ingest_blob env now id hex g ≡ ingest_parsed env now sender parsed g
  unfolding ingest_blob
  opened id hex sender blob plaintext g h d parsed read = ground (arith, h, d, read)

-- What one user's core seals for an item of its outbox, another's reads from a page as the payload
-- that the item was written from, with its texts sanitized, its time, and the first one's key as the
-- sender: if the item is for that other user, the libraries keep their promises, hex is read back,
-- the JSON text of the payload is read to the entries written, the payload is within the caps of its reader, both
-- identities come from seeds of 32 bytes, the nonce has 24, and the blob is within the limit.
pub ingest_blob-encrypt_for :
    (env : Env) (w : World) (now : ℤ) (i : ℕ) (from to : Bytes) (sender recipient : Identity)
    (item : OutboxItem) (p : Payload) (ts : ℤ) (blob : Bytes) (g : PageFold)
    → Laws env.prims
    → ((bytes : Bytes) → env.prims.hex_decode (env.prims.hex_encode bytes) ≡ some bytes)
    → IsReadable env p ts
    → Fits env.is_base64 p
    → length from ≡ 32
    → length to ≡ 32
    → from_seed env.prims from ≡ ok sender
    → from_seed env.prims to ≡ ok recipient
    → length (w.draws i).nonce ≡ 24
    → item.recipient ≡ env.prims.hex_encode (public_key env.prims recipient)
    → item.envelope_json ≡ serialize_payload env.render_json p ts
    → encrypt_for env w i sender item ≡ some blob
    → length blob ≤ max_blob_len
    → ingest_blob env now recipient (env.prims.hex_encode blob) g
      ≡ ingest_parsed env now
          (env.prims.hex_encode (public_key env.prims sender))
          (record { ts = ts; payload = cleaned p })
          g
ingest_blob-encrypt_for env w now i from to sender recipient item p ts blob g laws hex readable fits
      nf nt fs fr hn addressed written sealed_blob small =
    let key = public_key env.prims recipient in
    let goes : env.prims.hex_decode item.recipient ≡ some key = rw addressed (hex key) in
    let e = rw written at (sealed env w now i sender item key blob goes sealed_blob) in
    opened env w now recipient (env.prims.hex_encode blob)
      (env.prims.hex_encode (public_key env.prims sender)) blob
      (utf8 (serialize_payload env.render_json p ts)) g (hex blob)
      (decrypt-encrypt env.prims (w.draws i) from to sender recipient
        (utf8 (serialize_payload env.render_json p ts)) blob laws nf nt fs fr hn e small)
      (record { ts = ts; payload = cleaned p }) (read_back env w now p ts readable fits)
