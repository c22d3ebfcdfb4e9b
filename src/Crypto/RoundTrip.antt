-- ===== src/Crypto/RoundTrip.antt =====
-- A sealed message is opened by the one it is for.
use skrepka.Base.{
  ℕ, ◌+◌, ◌-◌, ◌%◌, ◌^◌, ◌≤◌, ◌<◌, ◌≡◌, refl, ap, ◌∙◌, true, some, ◌∷◌, ◌++◌, Bytes, arith, length,
  length-append, ok,
}
use skrepka.Crypto.Padding.{max_plaintext_len, max_blob_len, nonce_len, padded_len}
use skrepka.Crypto.Keys.{Primitives, Identity, x25519, from_seed, public_key, sign}
use skrepka.Crypto.Blob.{
  Draws, aad, wire_version, derive_key, decompress, signed, sealed_body, encrypt, decrypt,
  open_inner, to_be_bytes,
}
use skrepka.Crypto.Layout.{Inside, IsLaid, body_of, opened}
use skrepka.Crypto.Laws.{Laws, IsFrom, from_seed-IsFrom, public_key_of, sign_of, convert_of}
use skrepka.Crypto.Sealing.{inside, eph_point, encrypt-Sealed, decrypt_parts}

-- The number of bytes of padding in a blob over a compressed message.
abbrev pad_count : Bytes → ℕ
pad_count frame =
    padded_len (1 + 32 + nonce_len + 32 + 64 + 4 + length frame + 16)
    - (1 + 32 + nonce_len + 32 + 64 + 4 + length frame + 16)

-- The inside of a blob as its parts.
abbrev parts_of : Primitives → Draws → Identity → Bytes → Bytes → Inside
parts_of p draws sender key plaintext =
    let frame = p.zstd_encode plaintext in
    record {
      sender = public_key p sender;
      signature =
          sign p sender (
            signed p key
              (to_be_bytes (length frame) ++ (frame ++ draws.padding (pad_count frame))));
      frame = frame;
      padding = draws.padding (pad_count frame);
    }

body-eq :
    (p : Primitives) (draws : Draws) (frame : Bytes)
    → length frame < 2 ^ 32
    → sealed_body p frame draws.padding
      ≡ to_be_bytes (length frame) ++ (frame ++ draws.padding (pad_count frame))
unfolding sealed_body
body-eq p draws frame lt =
    let same : length frame % 2 ^ 32 ≡ length frame = omega arith in rw same refl

length-body :
    (p : Primitives) (draws : Draws) (frame : Bytes)
    → length (sealed_body p frame draws.padding)
      ≡ 4 + length frame + length (draws.padding (pad_count frame))
unfolding sealed_body to_be_bytes
length-body p draws frame = omega (arith, length-append frame (draws.padding (pad_count frame)))

-- Both sides of the exchange come to one secret.
exchange :
    (p : Primitives) (e x raw : Bytes) (recipient : Identity) (seed : Bytes)
    → Laws p
    → IsFrom p seed recipient
    → x ≡ recipient.x25519_pub
    → x25519 p e x ≡ ok raw
    → x25519 p recipient.x25519_priv (p.x25519_mul e p.x25519_basepoint) ≡ ok raw
unfolding x25519
exchange p e x raw recipient seed laws h ex er =
    ground (arith, laws.agree recipient.x25519_priv e, h.point)

module _ (p : Primitives) (draws : Draws) (from : Bytes) (sender : Identity) (laws : Laws p)
    (nf : length from ≡ 32) (hs : IsFrom p from sender) (key : Bytes) where
  sender_size : length (public_key p sender) ≡ 32
  sender_size = rw (public_key_of p laws from sender nf hs) (laws.public_size from nf)

  signature_size : (message : Bytes) → length (sign p sender message) ≡ 64
  signature_size message =
      rw (sign_of p laws from sender message nf hs) (laws.signature_size from message)

  verified :
      (message : Bytes)
      → (p.ed25519_valid (public_key p sender) ≡ true)
        × (p.verify_strict (public_key p sender) message (sign p sender message) ≡ true)
  verified message =
      rw (public_key_of p laws from sender nf hs, sign_of p laws from sender message nf hs)
        (laws.public_valid from nf, laws.verifies from message nf)

  parts-IsLaid :
      (plaintext : Bytes)
      → length (p.zstd_encode plaintext) < 2 ^ 32
      → IsLaid (parts_of p draws sender key plaintext)
  parts-IsLaid plaintext lt = record {
    sender = sender_size;
    signature = signature_size _;
    frame = lt;
  }

  whole :
      (plaintext : Bytes)
      → length plaintext ≤ max_plaintext_len
      → decompress p (p.zstd_encode plaintext) ≡ ok plaintext
  unfolding decompress
  whole plaintext short = ground (arith, laws.unpacks (max_plaintext_len + 1) plaintext)

  -- The inside of the blob is opened.
  inside_opens :
      (plaintext : Bytes)
      → length plaintext ≤ max_plaintext_len
      → length (p.zstd_encode plaintext) < 2 ^ 32
      → open_inner p key (inside p draws sender key plaintext)
        ≡ ok (record { plaintext = plaintext; sender_hex = p.hex_encode (public_key p sender) })
  inside_opens plaintext short lt =
      let parts = parts_of p draws sender key plaintext in
      let ok_key = verified (signed p key (body_of parts)) in
      rw (body-eq p draws (p.zstd_encode plaintext) lt) (
        opened parts (parts-IsLaid plaintext lt) p key plaintext ok_key.0 ok_key.1
          (whole plaintext short))

  inside_size_lem :
      (plaintext : Bytes)
      → length (inside p draws sender key plaintext)
        ≡ 100
          + length (p.zstd_encode plaintext)
          + length (draws.padding (pad_count (p.zstd_encode plaintext)))
  inside_size_lem plaintext = omega (
    arith,
    length-body p draws (p.zstd_encode plaintext),
    length-append {0} (public_key p sender),
    length-append {0}
        (sign p sender (signed p key (sealed_body p (p.zstd_encode plaintext) draws.padding))),
    sender_size,
    signature_size,
  )

-- The size of what `encrypt` lays out.
sealed_size :
    (p : Primitives) (draws : Draws) (sender : Identity) (from : Bytes)
    → Laws p
    → length from ≡ 32
    → IsFrom p from sender
    → length draws.nonce ≡ 24
    → (key plaintext raw x cipher : Bytes)
    → p.aead_encrypt
        (derive_key p raw (eph_point p draws) x)
        draws.nonce
        (aad wire_version (eph_point p draws) draws.nonce key)
        (inside p draws sender key plaintext)
      ≡ some cipher
    → length (wire_version ∷ (eph_point p draws ++ (draws.nonce ++ cipher)))
      ≡ 173
        + length (p.zstd_encode plaintext)
        + length (draws.padding (pad_count (p.zstd_encode plaintext)))
sealed_size p draws sender from laws nf hs hn key plaintext raw x cipher ec = omega (
  arith,
  laws.tag_size _ _ _ _ cipher ec,
  length-append (eph_point p draws) (draws.nonce ++ cipher),
  length-append draws.nonce cipher,
  laws.point_size draws.eph_priv p.x25519_basepoint,
  inside_size_lem p draws from sender laws nf hs key plaintext,
)

-- What `encrypt` sealed for an identity that comes from a seed, that identity's `decrypt` opens: it
-- gives the plaintext and the sender's key, under the promises of the
-- libraries, for seeds of 32 bytes, a nonce of 24, and a blob within the limit of 42 MiB.
pub decrypt-encrypt :
    (p : Primitives) (draws : Draws) (from to : Bytes) (sender recipient : Identity)
    (plaintext blob : Bytes)
    → Laws p
    → length from ≡ 32
    → length to ≡ 32
    → from_seed p from ≡ ok sender
    → from_seed p to ≡ ok recipient
    → length draws.nonce ≡ 24
    → encrypt p draws sender (public_key p recipient) plaintext ≡ ok blob
    → length blob ≤ max_blob_len
    → decrypt p recipient blob
      ≡ ok (record { plaintext = plaintext; sender_hex = p.hex_encode (public_key p sender) })
decrypt-encrypt p draws from to sender recipient plaintext blob laws nf nt fs fr hn sealed large =
    let hs = from_seed-IsFrom p laws from sender nf fs in
    let hr = from_seed-IsFrom p laws to recipient nt fr in
    let (x, raw, cipher, short, ex, er, ec, eb) =
      encrypt-Sealed p draws sender (public_key p recipient) plaintext blob sealed in
    let point = convert_of p laws to recipient x nt hr ex in
    let secret = exchange p draws.eph_priv x raw recipient to laws hr point er in
    let size =
      sealed_size p draws sender from laws nf hs hn (public_key p recipient) plaintext raw x cipher
        ec in
    let total : length blob
        ≡ 173
          + length (p.zstd_encode plaintext)
          + length (draws.padding (pad_count (p.zstd_encode plaintext))) =
      ap length eb ∙ size in
    let frame : length (p.zstd_encode plaintext) < 2 ^ 32 = omega (arith, total) in
    let laid = laws.point_size draws.eph_priv p.x25519_basepoint in
    let inner = rw point at (laws.opens _ _ _ _ cipher ec) in
    rw eb (
      decrypt_parts p recipient (eph_point p draws) draws.nonce cipher raw _ laid hn
        (omega (arith, size)) (omega (arith, size, total)) secret inner
      ∙ inside_opens p draws from sender laws nf hs (public_key p recipient) plaintext short frame)
