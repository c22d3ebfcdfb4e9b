-- ===== src/Tests/Setup.antt =====
-- A model of the libraries for the runs, and the states that they start from.
use skrepka.Base.{ℕ, true, false, none, some, [], ◌∷◌, ◌++◌, Bytes, length, ◌==◌, codes, pos, take}
use skrepka.Crypto.{Primitives, Identity}
use skrepka.Protocol.{null}
use skrepka.Domain.{OutboxItem, StoredMessage}
use skrepka.App.{Env, World, Model, default_model, Codec, Response, online}

-- Hex, signatures and the cipher that change nothing, so that a run can be followed by eye.
abbrev pub toy_prims : Primitives
toy_prims = record {
  ed25519_public = λ seed. seed;
  ed25519_sign = λ seed message. take 64 (seed ++ (seed ++ message));
  ed25519_valid = λ key. length key == 32;
  verify_strict = λ key message signature. true;
  edwards_to_montgomery = λ key. some key;
  sha512 = λ bytes. bytes ++ bytes;
  x25519_mul = λ scalar point. scalar;
  x25519_basepoint = 9 ∷ [];
  hkdf_sha256 = λ salt key info. key;
  aead_encrypt = λ key nonce aad message. some message;
  aead_decrypt = λ key nonce aad cipher. some cipher;
  zstd_encode = λ bytes. bytes;
  zstd_read = λ limit frame. some (take limit frame);
  hex_encode = λ bytes. bytes;
  hex_decode = λ s. some s;
}

abbrev pub no_codec : {A : Type 0} → Codec A
no_codec = record { encode = λ a. []; decode = λ bytes. none }

abbrev pub toy_env : Env
toy_env = record {
  prims = toy_prims;
  wide = λ c. c ∷ [];
  parse_url = λ s. some (record {
    scheme = codes "https";
    host_str = some s;
    has_query = false;
    has_fragment = false;
    as_str = s;
  });
  buildable = λ body. true;
  is_base64 = λ s. true;
  render_json = λ v. [];
  from_slice = λ bytes. some null;
  settings_json = no_codec;
  profile_json = no_codec;
  contacts_json = no_codec;
  cursor_json = no_codec;
  outbox_json = no_codec;
  messages_json = no_codec;
  seen_ids_json = no_codec;
  decode_challenge = λ bytes. some bytes;
  decode_verify = λ bytes. some bytes;
  decode_poll = λ bytes. none;
  hash_order = λ set. set;
}

abbrev pub noon : World
noon = record {
  now = λ reading. pos 43_200_000;
  draws = λ i. record { eph_priv = 1 ∷ []; padding = λ n. []; nonce = [] };
  uuid = codes "m1";
}

-- Sixteen and thirty-two times one number: a key.
abbrev sixteen : ℕ → Bytes
sixteen n = n ∷ n ∷ n ∷ n ∷ n ∷ n ∷ n ∷ n ∷ n ∷ n ∷ n ∷ n ∷ n ∷ n ∷ n ∷ n ∷ []

abbrev pub key : ℕ → Bytes
key n = sixteen n ++ sixteen n

abbrev pub own_id : Identity
own_id = record { secret_key = key 1 ++ key 1; x25519_priv = key 1; x25519_pub = key 1 }

abbrev pub item_for : ℕ → OutboxItem
item_for n = record {
  recipient = key n;
  envelope_json = codes "{}";
  kind = none;
  retries = 0;
  first_attempt = pos 0;
}

-- Signed in, with two messages for one contact and one for another waiting.
abbrev pub signed_in : Model
signed_in = record default_model {
  secret_key = some (key 1 ++ key 1);
  my_pubkey = key 1;
  token = some (codes "t");
  conn = online;
  outbox = item_for 2 ∷ item_for 2 ∷ item_for 3 ∷ [];
}

-- The two messages for the first contact are on their way.
abbrev pub sending : Model
sending = record signed_in {
  flushing = true;
  flush_gen = 7;
  in_flight = some (record { recipient = key 2; count = 2; bytes = 300 });
}

abbrev pub answer : ℕ → Response
answer status = record { status = status; retry_after = none; body = [] }

-- A model over storage that could not be read.
abbrev pub unreadable : Model
unreadable = record signed_in { kv_load_failed = true }

abbrev pub said : ℕ → StoredMessage
said ts = record {
  id = ts ∷ [];
  body = codes "hi";
  ts = pos ts;
  outgoing = false;
  delivered = false;
}
