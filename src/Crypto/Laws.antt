-- ===== src/Crypto/Laws.antt =====
-- What the libraries promise, and what the keys of an identity come to under it.
use skrepka.Base.{ℕ, ◌+◌, ◌<◌, ◌≡◌, true, some, ◌++◌, Bytes, arith, length, take, ok}
use skrepka.Crypto.Keys.{
  Primitives, Identity, ed25519_sk_to_x25519, ed25519_pk_to_x25519, x25519, with_x25519, from_seed,
  public_key, sign, clamp_scalar,
}
use skrepka.Crypto.Layout.{take-append, drop-append}

-- What the libraries promise: the two sides of an exchange agree, a public key converts to the
-- Montgomery point of the converted secret key, a signature verifies, the cipher and the compressor
-- give back what they were given, and keys, signatures and tags have their sizes.
pub record Laws (p : Primitives) : Type 0 where
  pub agree :
      (a b : Bytes)
      → p.x25519_mul a (p.x25519_mul b p.x25519_basepoint)
        ≡ p.x25519_mul b (p.x25519_mul a p.x25519_basepoint)
  pub convert :
      (seed : Bytes)
      → length seed ≡ 32
      → p.edwards_to_montgomery (p.ed25519_public seed)
        ≡ some (p.x25519_mul (clamp_scalar p (take 32 (p.sha512 seed))) p.x25519_basepoint)
  pub public_size : (seed : Bytes) → length seed ≡ 32 → length (p.ed25519_public seed) ≡ 32
  pub public_valid :
      (seed : Bytes) → length seed ≡ 32 → p.ed25519_valid (p.ed25519_public seed) ≡ true
  pub signature_size : (seed message : Bytes) → length (p.ed25519_sign seed message) ≡ 64
  pub verifies :
      (seed message : Bytes)
      → length seed ≡ 32
      → p.verify_strict (p.ed25519_public seed) message (p.ed25519_sign seed message) ≡ true
  pub point_size : (a b : Bytes) → length (p.x25519_mul a b) ≡ 32
  pub opens :
      (key nonce extra message cipher : Bytes)
      → p.aead_encrypt key nonce extra message ≡ some cipher
      → p.aead_decrypt key nonce extra cipher ≡ some message
  pub tag_size :
      (key nonce extra message cipher : Bytes)
      → p.aead_encrypt key nonce extra message ≡ some cipher
      → length cipher ≡ length message + 16
  pub unpacks :
      (limit : ℕ) (bytes : Bytes)
      → length bytes < limit
      → p.zstd_read limit (p.zstd_encode bytes) ≡ some bytes

-- An identity made from a seed.
pub record IsFrom (p : Primitives) (seed : Bytes) (id : Identity) : Type 0 where
  pub secret : id.secret_key ≡ seed ++ p.ed25519_public seed
  pub scalar : id.x25519_priv ≡ clamp_scalar p (take 32 (p.sha512 seed))
  pub point : id.x25519_pub ≡ p.x25519_mul id.x25519_priv p.x25519_basepoint

module _ (p : Primitives) (laws : Laws p) where
  pub from_seed-IsFrom :
      (seed : Bytes) (id : Identity)
      → length seed ≡ 32
      → from_seed p seed ≡ ok id
      → IsFrom p seed id
  unfolding from_seed with_x25519 ed25519_sk_to_x25519
  from_seed-IsFrom seed id n e = ground (arith, take-append seed (p.ed25519_public seed) 32 n)

  pub public_key_of :
      (seed : Bytes) (id : Identity)
      → length seed ≡ 32
      → IsFrom p seed id
      → public_key p id ≡ p.ed25519_public seed
  unfolding public_key
  public_key_of seed id n h = rw h.secret (drop-append seed (p.ed25519_public seed) 32 n)

  pub sign_of :
      (seed : Bytes) (id : Identity) (message : Bytes)
      → length seed ≡ 32
      → IsFrom p seed id
      → sign p id message ≡ p.ed25519_sign seed message
  unfolding sign
  sign_of seed id message n h =
      ground (arith, take-append seed (p.ed25519_public seed) 32 n, h.secret)

  -- The recipient's point as the sender computes it.
  pub convert_of :
      (seed : Bytes) (id : Identity) (x : Bytes)
      → length seed ≡ 32
      → IsFrom p seed id
      → ed25519_pk_to_x25519 p (public_key p id) ≡ ok x
      → x ≡ id.x25519_pub
  unfolding ed25519_pk_to_x25519
  convert_of seed id x n h e =
      ground (arith, public_key_of seed id n h, laws.convert seed n, h.scalar, h.point)

  pub x25519-eq : (a b s : Bytes) → x25519 p a b ≡ ok s → s ≡ p.x25519_mul a b
  unfolding x25519
  x25519-eq a b s e = ground arith
