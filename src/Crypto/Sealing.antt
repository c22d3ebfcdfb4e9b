-- ===== src/Crypto/Sealing.antt =====
-- What `encrypt` lays out, and what `decrypt` does with it.
use mathlib.Core.List.{append_assoc}
use skrepka.Base.{
  suc, ◌≤◌, ◌≡◌, refl, false, some, ◌∷◌, ◌++◌, Bytes, arith, length, length-append, drop, ok, ok_or,
  ltb, >>=-eq-ok, ok_or-eq-ok, Bool-cases, inl, inr,
}
use skrepka.Crypto.Padding.{max_plaintext_len, max_blob_len, min_blob_len}
use skrepka.Crypto.Keys.{
  Primitives, encrypt_failed, Identity, ed25519_pk_to_x25519, x25519, public_key, sign,
}
use skrepka.Crypto.Blob.{
  Draws, aad, wire_version, derive_key, signed, sealed_body, encrypt, decrypt, open_inner,
}
use skrepka.Crypto.Layout.{take-append, drop-append}

-- What goes inside a blob.
abbrev pub inside : Primitives → Draws → Identity → Bytes → Bytes → Bytes
inside p draws sender recipient_pub plaintext =
    let body = sealed_body p (p.zstd_encode plaintext) draws.padding in
    public_key p sender ++ (sign p sender (signed p recipient_pub body) ++ body)

abbrev pub eph_point : Primitives → Draws → Bytes
eph_point p draws = p.x25519_mul draws.eph_priv p.x25519_basepoint

-- What the parts of a blob that was sealed are.
abbrev pub Sealed : Primitives → Draws → Identity → Bytes → Bytes → Bytes → Type 0
Sealed p draws sender key plaintext blob =
    (x : Bytes) × (raw : Bytes) × (cipher : Bytes) × (length plaintext ≤ max_plaintext_len)
    × (ed25519_pk_to_x25519 p key ≡ ok x)
    × (x25519 p draws.eph_priv x ≡ ok raw)
    × (p.aead_encrypt (derive_key p raw (eph_point p draws) x) draws.nonce
          (aad wire_version (eph_point p draws) draws.nonce key)
          (inside p draws sender key plaintext)
        ≡ some cipher)
    × (blob ≡ wire_version ∷ (eph_point p draws ++ (draws.nonce ++ cipher)))

pub encrypt-Sealed :
    (p : Primitives) (draws : Draws) (sender : Identity) (key plaintext blob : Bytes)
    → encrypt p draws sender key plaintext ≡ ok blob
    → Sealed p draws sender key plaintext blob
unfolding encrypt
encrypt-Sealed p draws sender key plaintext blob h =
    elim (Bool-cases (ltb max_plaintext_len (length plaintext))) [
      | inl long ↦ cc (rw long at h)
      | inr short ↦
          let h0 = rw short at h in
          let (x, ex, h1) = >>=-eq-ok (ed25519_pk_to_x25519 p key) _ h0 in
          let (raw, er, h2) = >>=-eq-ok (x25519 p draws.eph_priv x) _ h1 in
          let (cipher, ec, h3) = >>=-eq-ok (ok_or _ encrypt_failed) _ h2 in
          (x, raw, cipher, ground arith, ex, er, ok_or-eq-ok _ encrypt_failed ec, cc)
    ]

-- What `decrypt` does with a blob of the right form, up to the opening of its inside.
pub decrypt_parts :
    (p : Primitives) (recipient : Identity) (eph nonce cipher raw inner : Bytes)
    → length eph ≡ 32
    → length nonce ≡ 24
    → min_blob_len ≤ length (wire_version ∷ (eph ++ (nonce ++ cipher)))
    → length (wire_version ∷ (eph ++ (nonce ++ cipher))) ≤ max_blob_len
    → x25519 p recipient.x25519_priv eph ≡ ok raw
    → p.aead_decrypt
        (derive_key p raw eph recipient.x25519_pub)
        nonce
        (aad wire_version eph nonce (public_key p recipient))
        cipher
      ≡ some inner
    → decrypt p recipient (wire_version ∷ (eph ++ (nonce ++ cipher)))
      ≡ open_inner p (public_key p recipient) inner
unfolding decrypt
decrypt_parts p recipient eph nonce cipher raw inner he hn small large er ei =
    let long : ltb (suc (length (eph ++ (nonce ++ cipher)))) min_blob_len ≡ false = ground arith in
    let fits : ltb max_blob_len (suc (length (eph ++ (nonce ++ cipher)))) ≡ false = ground arith in
    let behind : drop 56 (eph ++ (nonce ++ cipher)) ≡ cipher =
      rw (← append_assoc eph nonce cipher)
        (drop-append (eph ++ nonce) cipher 56 (omega (arith, length-append eph nonce))) in
    rw
      (
        long,
        fits,
        behind,
        take-append eph (nonce ++ cipher) 32 he,
        drop-append eph (nonce ++ cipher) 32 he,
        take-append nonce cipher 24 hn,
        er,
        ei,
      )
      refl
