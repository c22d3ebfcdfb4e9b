-- ===== src/Crypto/Keys.antt =====
-- `Primitives`, `Identity` and the key derivations.
use Prim.Native.Nat.{bit_and, bit_or}
use skrepka.Base.{
  ℕ, Bool, true, ◌&&◌, Option, [], ◌∷◌, ◌++◌, Bytes, Text, codes, utf8, text_len, same_text, length,
  take, drop, set, get_or, ltb, ◌==◌, if◌then◌else◌, not, Result, ok, err, ok_or, ◌>>=◌,
}
use skrepka.Crypto.Padding.{ed25519_secret_len, max_challenge_len}

-- What the external crates compute. Keys, nonces and signatures are byte lists.
pub record Primitives : Type 0 where
  -- `SigningKey::from_bytes(seed).verifying_key()`, and `sign` under that key
  pub ed25519_public : Bytes → Bytes
  pub ed25519_sign : Bytes → Bytes → Bytes
  -- `VerifyingKey::from_bytes(pub).is_ok()`; `verify_strict(pub, message, signature).is_ok()`
  pub ed25519_valid : Bytes → Bool
  pub verify_strict : Bytes → Bytes → Bytes → Bool
  -- `CompressedEdwardsY(pub).decompress()`, then `to_montgomery`
  pub edwards_to_montgomery : Bytes → Option Bytes
  pub sha512 : Bytes → Bytes
  -- scalar and point
  pub x25519_mul : Bytes → Bytes → Bytes
  pub x25519_basepoint : Bytes
  -- salt, input key, info; 32 bytes of output
  pub hkdf_sha256 : Bytes → Bytes → Bytes → Bytes
  -- key, nonce, associated data, and the message or the ciphertext
  pub aead_encrypt : Bytes → Bytes → Bytes → Bytes → Option Bytes
  pub aead_decrypt : Bytes → Bytes → Bytes → Bytes → Option Bytes
  pub zstd_encode : Bytes → Bytes
  -- the stream of a frame up to a limit of bytes, read with `window_log_max(21)`
  pub zstd_read : ℕ → Bytes → Option Bytes
  pub hex_encode : Bytes → Text
  pub hex_decode : Text → Option Bytes

pub data CryptoError : Type 0 where
  bad_key_length blob_too_short blob_too_long invalid_public_key : CryptoError
  invalid_ephemeral_key encrypt_failed decrypt_failed bad_signature : CryptoError
  decompress_failed challenge_too_long : CryptoError

-- `Display for CryptoError`
unfoldable pub display : CryptoError → Text
display bad_key_length = codes "bad key length"
display blob_too_short = codes "blob too short"
display blob_too_long = codes "blob too long"
display invalid_public_key = codes "invalid public key"
display invalid_ephemeral_key = codes "invalid ephemeral key"
display encrypt_failed = codes "encryption failed"
display decrypt_failed = codes "decryption failed"
display bad_signature = codes "signature verification failed"
display decompress_failed = codes "decompression failed"
display challenge_too_long = codes "auth challenge too long"

pub record Identity : Type 0 where
  pub secret_key : Bytes
  pub x25519_priv : Bytes
  pub x25519_pub : Bytes

-- `iter().all(|b| *b == 0)`
abbrev pub all_zero : Bytes → Bool
all_zero [] = true
all_zero (b ∷ bs) = b == 0 && all_zero bs

-- `AUTH_TAG`
abbrev pub auth_tag : Text
auth_tag = codes "skrepka-auth-v1:"

module _ (p : Primitives) where
  open p use {
    ed25519_public, ed25519_sign, edwards_to_montgomery, sha512, x25519_mul, x25519_basepoint,
    hex_encode,
  }

  -- The clamp of the scalar's first and last bytes.
  unfoldable pub clamp_scalar : Bytes → Bytes
  clamp_scalar s =
      let low = set s 0 (bit_and (get_or s 0 0) 248) in
      set low 31 (bit_or (bit_and (get_or low 31 0) 127) 64)

  unfoldable pub ed25519_sk_to_x25519 : Bytes → Bytes
  unfolding clamp_scalar
  ed25519_sk_to_x25519 secret_key = clamp_scalar (take 32 (sha512 (take 32 secret_key)))

  unfoldable pub ed25519_pk_to_x25519 : Bytes → Result CryptoError Bytes
  ed25519_pk_to_x25519 ed_pub = do
    montgomery ← ok_or (edwards_to_montgomery ed_pub) invalid_public_key
    if all_zero montgomery then err invalid_public_key else ok montgomery

  -- `fn x25519`
  unfoldable pub x25519 : Bytes → Bytes → Result CryptoError Bytes
  x25519 scalar point =
      let shared = x25519_mul scalar point in
      if all_zero shared then err invalid_ephemeral_key else ok shared

  unfoldable pub with_x25519 : Bytes → Result CryptoError Identity
  unfolding ed25519_sk_to_x25519
  with_x25519 secret_key =
      let x25519_priv = ed25519_sk_to_x25519 secret_key in
      let x25519_pub = x25519_mul x25519_priv x25519_basepoint in
      if all_zero x25519_pub
      then err invalid_public_key
      else ok
          (record { secret_key = secret_key; x25519_priv = x25519_priv; x25519_pub = x25519_pub })

  unfoldable pub from_secret_bytes : Bytes → Result CryptoError Identity
  unfolding with_x25519
  from_secret_bytes bytes =
      if not (length bytes == ed25519_secret_len)
      then err bad_key_length
      else if not (same_text (ed25519_public (take 32 bytes)) (drop 32 bytes))
      then err bad_key_length
      else with_x25519 bytes

  unfoldable pub from_seed : Bytes → Result CryptoError Identity
  unfolding with_x25519
  from_seed seed = with_x25519 (seed ++ ed25519_public seed)

  -- `generate`, from the 32 bytes that the generator drew
  unfoldable pub generate : Bytes → Result CryptoError Identity
  unfolding from_seed
  generate drawn = from_seed drawn

  unfoldable pub public_key : Identity → Bytes
  public_key id = drop 32 id.secret_key

  unfoldable pub public_key_hex : Identity → Text
  public_key_hex id = hex_encode (public_key id)

  -- `signing_key().sign(message)`
  unfoldable pub sign : Identity → Bytes → Bytes
  sign id message = ed25519_sign (take 32 id.secret_key) message

  unfoldable pub sign_challenge : Identity → Text → Text → Result CryptoError Text
  unfolding sign
  sign_challenge id server_host challenge =
      if ltb max_challenge_len (text_len challenge)
      then err challenge_too_long
      else ok (hex_encode (sign id (utf8 (auth_tag ++ server_host ++ codes ":" ++ challenge))))
