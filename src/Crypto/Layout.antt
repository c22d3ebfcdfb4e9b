-- ===== src/Crypto/Layout.antt =====
-- The parts of a blob, found again at their places.
use skrepka.Base.{
  ℕ, zero, suc, ◌+◌, ◌-◌, ◌/◌, ◌%◌, ◌^◌, ◌<◌, ◌≡◌, refl, true, false, List, [], ◌∷◌, ◌++◌, Bytes,
  arith, length, length-append, take, drop, get_or, ltb, ok,
}
use mathlib.Core.List.{append_assoc}
use skrepka.Crypto.Keys.{Primitives}
use skrepka.Crypto.Blob.{to_be_bytes, from_be_bytes, open_inner, decompress, signed}

module _ {ℓ} {A : Type ℓ} where
  pub take-append : (xs ys : List A) (n : ℕ) → length xs ≡ n → take n (xs ++ ys) ≡ xs
  take-append [] ys zero e = refl
  take-append [] ys (suc n) e = cc
  take-append (x ∷ xs) ys zero e = cc
  take-append (x ∷ xs) ys (suc n) e = rw (take-append xs ys n (omega arith))

  pub drop-append : (xs ys : List A) (n : ℕ) → length xs ≡ n → drop n (xs ++ ys) ≡ ys
  drop-append [] ys zero e = refl
  drop-append [] ys (suc n) e = cc
  drop-append (x ∷ xs) ys zero e = cc
  drop-append (x ∷ xs) ys (suc n) e = drop-append xs ys n (omega arith)

  pub get_or-append :
      (xs ys : List A) (n k : ℕ) (d : A)
      → length xs ≡ n
      → get_or (xs ++ ys) (n + k) d ≡ get_or ys k d
  get_or-append [] ys zero k d e = let e0 : 0 + k ≡ k = omega arith in rw e0 refl
  get_or-append [] ys (suc n) k d e = cc
  get_or-append (x ∷ xs) ys zero k d e = cc
  get_or-append (x ∷ xs) ys (suc n) k d e =
      let e1 : suc n + k ≡ suc (n + k) = omega arith in
      rw e1 (get_or-append xs ys n k d (omega arith))

-- The length field of a blob, as four bytes.
pub from_be-to_be :
    (n : ℕ)
    → n < 2 ^ 32
    → from_be_bytes (n / 2 ^ 24 % 256) (n / 2 ^ 16 % 256) (n / 2 ^ 8 % 256) (n % 256) ≡ n
unfolding from_be_bytes
from_be-to_be n lt = omega arith

-- What the inside of a blob is made of.
pub record Inside : Type 0 where
  pub sender : Bytes
  pub signature : Bytes
  pub frame : Bytes
  pub padding : Bytes

abbrev pub body_of : Inside → Bytes
body_of i = to_be_bytes (length i.frame) ++ (i.frame ++ i.padding)

abbrev pub bytes_of : Inside → Bytes
bytes_of i = i.sender ++ (i.signature ++ body_of i)

pub record IsLaid (i : Inside) : Type 0 where
  pub sender : length i.sender ≡ 32
  pub signature : length i.signature ≡ 64
  pub frame : length i.frame < 2 ^ 32

module _ (i : Inside) (laid : IsLaid i) where
  head_size : length (i.sender ++ i.signature) ≡ 96
  head_size = omega (arith, length-append i.sender i.signature, laid.sender, laid.signature)

  at_head : bytes_of i ≡ (i.sender ++ i.signature) ++ body_of i
  at_head = rw append_assoc refl

  -- The k-th byte of the body is found 96 bytes further on.
  body_byte : (k : ℕ) → get_or (bytes_of i) (96 + k) 0 ≡ get_or (body_of i) k 0
  body_byte k = rw at_head (get_or-append (i.sender ++ i.signature) (body_of i) 96 k 0 head_size)

  body_found : drop 96 (bytes_of i) ≡ body_of i
  body_found = rw at_head (drop-append (i.sender ++ i.signature) (body_of i) 96 head_size)

  sender_found : take 32 (bytes_of i) ≡ i.sender
  sender_found = take-append i.sender (i.signature ++ body_of i) 32 laid.sender

  signature_found : take 64 (drop 32 (bytes_of i)) ≡ i.signature
  signature_found =
      rw (drop-append i.sender (i.signature ++ body_of i) 32 laid.sender)
        (take-append i.signature (body_of i) 64 laid.signature)

  length_found :
      from_be_bytes
        (get_or (bytes_of i) 96 0)
        (get_or (bytes_of i) 97 0)
        (get_or (bytes_of i) 98 0)
        (get_or (bytes_of i) 99 0)
      ≡ length i.frame
  length_found =
      rw (body_byte 0, body_byte 1, body_byte 2, body_byte 3)
        (unfold to_be_bytes in (from_be-to_be (length i.frame) laid.frame))

  at_frame :
      bytes_of i
      ≡ ((i.sender ++ i.signature) ++ to_be_bytes (length i.frame)) ++ (i.frame ++ i.padding)
  at_frame = simp append_assoc

  before_frame : length ((i.sender ++ i.signature) ++ to_be_bytes (length i.frame)) ≡ 100
  unfolding to_be_bytes
  before_frame =
      omega
        (arith, head_size, length-append (i.sender ++ i.signature) (to_be_bytes (length i.frame)))

  frame_found : take (length i.frame) (drop 100 (bytes_of i)) ≡ i.frame
  frame_found =
      rw
        (
          at_frame,
          drop-append ((i.sender ++ i.signature) ++ to_be_bytes (length i.frame))
              (i.frame ++ i.padding) 100 before_frame,
        )
        (take-append i.frame i.padding (length i.frame) refl)

  pub inside_size : length (bytes_of i) ≡ 100 + length i.frame + length i.padding
  inside_size = rw at_frame (
      omega (
        arith,
        before_frame,
        length-append ((i.sender ++ i.signature) ++ to_be_bytes (length i.frame))
            (i.frame ++ i.padding),
        length-append i.frame i.padding,
      ))

  -- What is laid out is opened, if its sender's key and signature hold.
  pub opened :
      (p : Primitives) (key plaintext : Bytes)
      → p.ed25519_valid i.sender ≡ true
      → p.verify_strict i.sender (signed p key (body_of i)) i.signature ≡ true
      → decompress p i.frame ≡ ok plaintext
      → open_inner p key (bytes_of i)
        ≡ ok (record { plaintext = plaintext; sender_hex = p.hex_encode i.sender })
  unfolding open_inner
  opened p key plaintext valid verified whole =
      let long : ltb (length (bytes_of i)) 100 ≡ false = ground (arith, inside_size) in
      let fits : ltb (length (bytes_of i) - 100) (length i.frame) ≡ false =
        ground (arith, inside_size) in
      rw
        (
          long, length_found, fits, sender_found, valid, signature_found, body_found, verified,
          frame_found, whole,
        )
        refl
