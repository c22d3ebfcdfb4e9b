-- ===== src/Tests/Crypto.antt =====
-- Runs of the theorems on sealed messages and on spelled keys.
use skrepka.Base.{
  none, pos, utf8, text_len, ap, same_text_refl, ℕ, zero, suc, ◌≤◌, ◌≡◌, refl, true, some, [], ◌∷◌,
  ◌++◌, Bytes, Text, arith, codes, length, length-append, take, ◌-◌, same_text, ok,
}
use skrepka.Phonemic.{to_ob, from_ob}
use skrepka.Phonemic.RoundTrip.{from_ob-to_ob}
use skrepka.Crypto.{
  Primitives, Identity, Draws, encrypt, decrypt, from_seed, public_key, clamp_scalar, sealed_body,
  to_be_bytes, wire_version, signed, sign, ed25519_pk_to_x25519, x25519,
}
use skrepka.Crypto.Laws.{Laws}
use skrepka.Crypto.Layout.{take-append}
use skrepka.Crypto.RoundTrip.{decrypt-encrypt}
use skrepka.Protocol.{text, payload_value, serialize_payload}
use skrepka.Protocol.Roundtrip.{cleaned}
use skrepka.Domain.{OutboxItem}
use skrepka.App.{Env, World, encrypt_for, ingest_blob, ingest_parsed, open_page}
use skrepka.App.Delivery.{ingest_blob-encrypt_for}
use skrepka.Tests.Setup.{key, toy_env, noon, signed_in}

from_ob-to_ob_example :
    (s : Text) × (to_ob (7 ∷ 9 ∷ 255 ∷ 0 ∷ []) ≡ some s)
    × (from_ob (λ c. c ∷ []) s ≡ some (7 ∷ 9 ∷ 255 ∷ 0 ∷ []))
from_ob-to_ob_example =
    from_ob-to_ob (λ c. c ∷ []) 7 9 (255 ∷ 0 ∷ [])
      ((omega arith, omega arith, ((omega arith, omega arith, tt))))

abbrev tag : Bytes
tag = 0 ∷ 0 ∷ 0 ∷ 0 ∷ 0 ∷ 0 ∷ 0 ∷ 0 ∷ 0 ∷ 0 ∷ 0 ∷ 0 ∷ 0 ∷ 0 ∷ 0 ∷ 0 ∷ []

abbrev zeros : Bytes
zeros = tag ++ (tag ++ (tag ++ tag))

abbrev toy_sign : Bytes → Bytes → Bytes
toy_sign seed message = take 64 (seed ++ (message ++ zeros))

-- A curve of one point, a cipher that adds a tag, and a compressor that changes nothing.
abbrev lawful : Primitives
lawful = record {
  ed25519_public = λ seed. seed;
  ed25519_sign = toy_sign;
  ed25519_valid = λ public. true;
  verify_strict = λ public message signature. same_text signature (toy_sign public message);
  edwards_to_montgomery = λ public. some (key 9);
  sha512 = λ bytes. bytes;
  x25519_mul = λ scalar point. key 9;
  x25519_basepoint = key 9;
  hkdf_sha256 = λ salt secret info. secret;
  aead_encrypt = λ secret nonce extra message. some (message ++ tag);
  aead_decrypt = λ secret nonce extra cipher. some (take (length cipher - 16) cipher);
  zstd_encode = λ bytes. bytes;
  zstd_read = λ limit frame. some (take limit frame);
  hex_encode = λ bytes. bytes;
  hex_decode = λ s. some s;
}

length-take : (n : ℕ) (xs : Bytes) → n ≤ length xs → length (take n xs) ≡ n
length-take zero xs h = refl
length-take (suc n) [] h = omega arith
length-take (suc n) (x ∷ xs) h = omega (arith, length-take n xs)

take-all : (n : ℕ) (xs : Bytes) → length xs ≤ n → take n xs ≡ xs
take-all zero [] h = refl
take-all (suc n) [] h = refl
take-all zero (x ∷ xs) h = absurd (omega arith)
take-all (suc n) (x ∷ xs) h = rw (take-all n xs (omega arith))

some-inj : (xs ys : Bytes) → some xs ≡ some ys → xs ≡ ys
some-inj xs ys e = cc

opens_lem :
    (message cipher : Bytes) → message ++ tag ≡ cipher → take (length cipher - 16) cipher ≡ message
opens_lem message cipher e = rw (← e) (
    take-append message tag (length (message ++ tag) - 16)
      (omega (arith, length-append message tag)))

lawful-Laws : Laws lawful
lawful-Laws = record {
  agree = λ a b. refl;
  convert = λ seed n. refl;
  public_size = λ seed n. n;
  public_valid = λ seed n. refl;
  signature_size = λ seed message.
      length-take 64 (seed ++ (message ++ zeros))
        (omega (arith, length-append seed (message ++ zeros), length-append message zeros));
  verifies = λ seed message n. same_text_refl (toy_sign seed message);
  point_size = λ a b. refl;
  opens = λ secret nonce extra message cipher e.
      ap some (opens_lem message cipher (some-inj (message ++ tag) cipher e));
  tag_size = λ secret nonce extra message cipher e.
      rw (← some-inj (message ++ tag) cipher e) (length-append message tag);
  unpacks = λ limit bytes short. rw (take-all limit bytes (omega arith));
}

abbrev alice : Identity
alice = record {
  secret_key = key 1 ++ key 1;
  x25519_priv = clamp_scalar lawful (key 1);
  x25519_pub = key 9;
}

abbrev bob : Identity
bob = record {
  secret_key = key 2 ++ key 2;
  x25519_priv = clamp_scalar lawful (key 2);
  x25519_pub = key 9;
}

abbrev drawn : Draws
drawn = record { eph_priv = key 3; padding = λ n. 0 ∷ []; nonce = take 24 (key 4) }

abbrev toy_body : Bytes
toy_body = to_be_bytes 2 ++ (codes "hi" ++ (0 ∷ []))

abbrev toy_blob : Bytes
toy_blob =
    wire_version
    ∷ (key 9
        ++ (take 24 (key 4)
            ++ ((key 1 ++ (toy_sign (key 1) (signed lawful (key 2) toy_body) ++ toy_body)) ++ tag)))

decrypt-encrypt_example :
    decrypt lawful bob toy_blob ≡ ok (record { plaintext = codes "hi"; sender_hex = key 1 })
unfolding from_seed encrypt codes to_be_bytes sealed_body sign public_key ed25519_pk_to_x25519
    x25519
decrypt-encrypt_example =
    decrypt-encrypt lawful drawn (key 1) (key 2) alice bob (codes "hi") toy_blob lawful-Laws refl
      refl refl refl refl refl (omega arith)

-- The toy JSON text of every value is "hi", which is read to one message.
abbrev wired : Env
wired = record toy_env {
  prims = lawful;
  render_json = λ v. codes "hi";
  from_slice = λ bytes. some (payload_value (text (codes "m1") (codes "hey")) (pos 5));
}

abbrev drawing : World
drawing = record noon { draws = λ i. drawn }

abbrev for_bob : OutboxItem
for_bob = record {
  recipient = key 2;
  envelope_json = codes "hi";
  kind = none;
  retries = 0;
  first_attempt = pos 0;
}

ingest_blob-encrypt_for_example :
    let g = open_page signed_in in
    ingest_blob wired (pos 9) bob toy_blob g
    ≡ ingest_parsed wired
        (pos 9)
        (key 1)
        (record { ts = pos 5; payload = cleaned (text (codes "m1") (codes "hey")) })
        g
unfolding from_seed encrypt codes to_be_bytes sealed_body sign public_key ed25519_pk_to_x25519
    x25519 encrypt_for serialize_payload utf8 text_len
ingest_blob-encrypt_for_example =
    ingest_blob-encrypt_for wired drawing (pos 9) 0 (key 1) (key 2) alice bob for_bob
      (text (codes "m1") (codes "hey")) (pos 5) toy_blob (open_page signed_in) lawful-Laws
      (λ bytes. refl) (_, refl, λ k. refl) (omega arith, omega arith) refl refl refl refl refl refl
      refl refl (omega arith)
