-- ===== src/Crypto/Blob.antt =====
-- `encrypt` and `decrypt`: the layout of a blob.
use skrepka.Base.{
  ℕ, ◌+◌, ◌-◌, ◌*◌, ◌/◌, ◌%◌, ◌^◌, [], ◌∷◌, ◌++◌, Bytes, Text, codes, length, take, drop, get_or,
  ltb, ◌==◌, not, if◌then◌else◌, Result, ok, err, ok_or, ◌>>=◌,
}
use skrepka.Crypto.Padding.{nonce_len, min_blob_len, max_blob_len, max_plaintext_len, padded_len}
use skrepka.Crypto.Keys.{
  Primitives, CryptoError, blob_too_short, blob_too_long, encrypt_failed, decrypt_failed,
  bad_signature, decompress_failed, Identity, ed25519_pk_to_x25519, x25519, public_key, sign,
}

-- `HKDF_INFO`
abbrev pub hkdf_info : Bytes
hkdf_info = codes "skrepka-v2"

-- `MSG_TAG`
abbrev pub msg_tag : Bytes
msg_tag = codes "skrepka-msg-v2:"

-- `WIRE_VERSION`
abbrev pub wire_version : ℕ
wire_version = 2

unfoldable pub aad : ℕ → Bytes → Bytes → Bytes → Bytes
aad version eph_pub nonce recipient_pub = version ∷ (eph_pub ++ (nonce ++ recipient_pub))

-- What `encrypt` draws from its generator: the ephemeral scalar, the padding and the nonce.
pub record Draws : Type 0 where
  pub eph_priv : Bytes
  pub padding : ℕ → Bytes
  pub nonce : Bytes

-- `(n as u32).to_be_bytes()` and `u32::from_be_bytes`
unfoldable pub to_be_bytes : ℕ → Bytes
to_be_bytes n = (n / 2 ^ 24 % 256) ∷ (n / 2 ^ 16 % 256) ∷ (n / 2 ^ 8 % 256) ∷ (n % 256) ∷ []

unfoldable pub from_be_bytes : ℕ → ℕ → ℕ → ℕ → ℕ
from_be_bytes a b c d = a * 2 ^ 24 + b * 2 ^ 16 + c * 2 ^ 8 + d

pub record Decrypted : Type 0 where
  pub plaintext : Bytes
  pub sender_hex : Text

module _ (p : Primitives) where
  open p use {
    hkdf_sha256, aead_encrypt, aead_decrypt, zstd_encode, zstd_read, x25519_mul, x25519_basepoint,
    ed25519_valid, verify_strict, hex_encode,
  }

  unfoldable pub derive_key : Bytes → Bytes → Bytes → Bytes
  derive_key raw_secret eph_pub recip_x_pub =
      hkdf_sha256 (eph_pub ++ recip_x_pub) raw_secret hkdf_info

  unfoldable pub decompress : Bytes → Result CryptoError Bytes
  decompress frame = do
    out ← ok_or (zstd_read (max_plaintext_len + 1) frame) decompress_failed
    if ltb max_plaintext_len (length out) then err decompress_failed else ok out

  -- `signed`: what the sender signs and the recipient checks
  abbrev pub signed : Bytes → Bytes → Bytes
  signed recipient_pub rest = msg_tag ++ (recipient_pub ++ rest)

  -- `compressed_len || compressed || padding`
  unfoldable pub sealed_body : Bytes → (ℕ → Bytes) → Bytes
  unfolding padded_len
  sealed_body compressed padding =
      let unpadded_blob_len = 1 + 32 + nonce_len + 32 + 64 + 4 + length compressed + 16 in
      let pad_len = padded_len unpadded_blob_len - unpadded_blob_len in
      to_be_bytes (length compressed % 2 ^ 32) ++ (compressed ++ padding pad_len)

  unfoldable pub encrypt : Draws → Identity → Bytes → Bytes → Result CryptoError Bytes
  encrypt draws sender recipient_ed_pub plaintext =
      if ltb max_plaintext_len (length plaintext) then err encrypt_failed else do
        let eph_pub = x25519_mul draws.eph_priv x25519_basepoint
        recip_x ← ed25519_pk_to_x25519 p recipient_ed_pub
        raw_secret ← x25519 p draws.eph_priv recip_x
        let key = derive_key raw_secret eph_pub recip_x
        let body = sealed_body (zstd_encode plaintext) draws.padding
        let signature = sign p sender (signed recipient_ed_pub body)
        let inner = public_key p sender ++ (signature ++ body)
        let aad_buf = aad wire_version eph_pub draws.nonce recipient_ed_pub
        ciphertext ← ok_or (aead_encrypt key draws.nonce aad_buf inner) encrypt_failed
        ok (wire_version ∷ (eph_pub ++ (draws.nonce ++ ciphertext)))

  -- The part of `decrypt` after the AEAD.
  unfoldable pub open_inner : Bytes → Bytes → Result CryptoError Decrypted
  open_inner recipient_pub inner =
      let sender_pub = take 32 inner in
      let sig_bytes = take 64 (drop 32 inner) in
      let rest = drop 96 inner in
      let compressed_len =
        from_be_bytes (get_or inner 96 0) (get_or inner 97 0) (get_or inner 98 0)
          (get_or inner 99 0) in
      if ltb (length inner) (32 + 64 + 4)
      then err blob_too_short
      else if ltb (length inner - 100) compressed_len
      then err decrypt_failed
      else if not (ed25519_valid sender_pub)
      then err bad_signature
      else if not (verify_strict sender_pub (signed recipient_pub rest) sig_bytes)
      then err bad_signature
      else do
        plaintext ← decompress (take compressed_len (drop 100 inner))
        ok (record { plaintext = plaintext; sender_hex = hex_encode sender_pub })

  unfoldable pub decrypt : Identity → Bytes → Result CryptoError Decrypted
  decrypt recipient blob =
      let version = get_or blob 0 0 in
      let eph_pub = take 32 (drop 1 blob) in
      let nonce = take nonce_len (drop 33 blob) in
      let ciphertext = drop (33 + nonce_len) blob in
      let recip_pub = public_key p recipient in
      if ltb (length blob) min_blob_len
      then err blob_too_short
      else if ltb max_blob_len (length blob)
      then err blob_too_long
      else if not (version == wire_version)
      then err decrypt_failed
      else do
        raw_secret ← x25519 p recipient.x25519_priv eph_pub
        let key = derive_key raw_secret eph_pub recipient.x25519_pub
        let aad_buf = aad version eph_pub nonce recip_pub
        inner ← ok_or (aead_decrypt key nonce aad_buf ciphertext) decrypt_failed
        open_inner recip_pub inner
