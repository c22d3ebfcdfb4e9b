-- ===== src/Crypto/Lengths.antt =====
-- What `padded_len` promises of the size of a blob.
use skrepka.Base.{ℕ, ◌+◌, ◌*◌, ◌≤◌, ◌≡◌, ◌⊎◌, ◌%◌, arith, List, [], ◌∷◌}
use skrepka.Crypto.Padding.{padded_len, first_bucket, above_buckets, padding_buckets}

-- The list holds `n`.
abbrev pub AnyOf : ℕ → List ℕ → Type 0
AnyOf n [] = ⊥
AnyOf n (x ∷ xs) = (n ≡ x) ⊎ AnyOf n xs

-- The padded length of a plaintext covers it, is one of the buckets or a multiple of the largest,
-- and is less than twice the length with 65536 more.
pub padded_len_lem :
    (n : ℕ)
    → (n ≤ padded_len n)
      × (AnyOf (padded_len n) padding_buckets ⊎ (padded_len n % 65536 ≡ 0))
      × (padded_len n ≤ 2 * n + 65536)
unfolding padded_len first_bucket above_buckets
padded_len_lem n = ground arith
