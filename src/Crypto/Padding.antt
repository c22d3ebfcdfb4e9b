-- ===== src/Crypto/Padding.antt =====
-- The constants of crypto.rs and `padded_len`.
use skrepka.Base.{ℕ, ◌+◌, ◌-◌, ◌*◌, ◌%◌, ◌^◌, List, [], ◌∷◌, leb, ◌==◌, if◌then◌else◌}

abbrev pub ed25519_secret_len : ℕ
ed25519_secret_len = 64

abbrev pub nonce_len : ℕ
nonce_len = 24

abbrev pub min_blob_len : ℕ
min_blob_len = 1 + 32 + nonce_len + 32 + 64 + 4 + 16

abbrev pub max_blob_len : ℕ
max_blob_len = 42 * 1024 * 1024

abbrev pub max_plaintext_len : ℕ
max_plaintext_len = 2 ^ 20

abbrev pub max_challenge_len : ℕ
max_challenge_len = 256

abbrev pub padding_buckets : List ℕ
padding_buckets = 256 ∷ 512 ∷ 1024 ∷ 2048 ∷ 4096 ∷ 8192 ∷ 16384 ∷ 32768 ∷ 65536 ∷ []

-- The code after the loop.
unfoldable pub above_buckets : ℕ → ℕ
above_buckets actual =
    if actual % 65536 == 0 then actual + 65536 else actual + 65536 - actual % 65536

-- The loop over the buckets.
unfoldable pub first_bucket : ℕ → List ℕ → ℕ
unfolding above_buckets
first_bucket actual [] = above_buckets actual
first_bucket actual (bucket ∷ rest) = if leb actual bucket then bucket else first_bucket actual rest

unfoldable pub padded_len : ℕ → ℕ
unfolding first_bucket
padded_len actual = if actual == 0 then 256 else first_bucket actual padding_buckets
