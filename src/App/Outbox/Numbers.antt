-- ===== src/App/Outbox/Numbers.antt =====
-- Numbers printed into and read from text: `format!` and `str::parse::<u64>`.
use skrepka.Base.{
  ℕ, zero, suc, ◌+◌, ◌-◌, ◌*◌, ◌/◌, ◌%◌, ◌^◌, Bool, ◌&&◌, Option, none, some, [], ◌∷◌, Text, ltb,
  leb, ◌==◌, if◌then◌else◌,
}

-- Decimal digits of a count, as `format!` prints it.
decimal_from : ℕ → ℕ → Text → Text
decimal_from zero n digits = digits
decimal_from (suc fuel) n digits =
    let digit = b'0' + n % 10 in
    let rest = decimal_from fuel (n / 10) (digit ∷ digits) in
    if ltb n 10 then digit ∷ digits else rest

-- A `usize` has at most twenty digits.
unfoldable pub decimal : ℕ → Text
unfolding decimal_from
decimal n = decimal_from 20 n []

abbrev is_digit : ℕ → Bool
is_digit c = leb b'0' c && leb c b'9'

parse_digits : ℕ → Text → Option ℕ
parse_digits n [] = some n
parse_digits n (c ∷ s) =
    let rest = parse_digits (n * 10 + (c - b'0')) s in
    if is_digit c && ltb (n * 10 + (c - b'0')) (2 ^ 64) then rest else none

unfoldable pub digits_of : Text → Option ℕ
unfolding parse_digits
digits_of [] = none
digits_of (c ∷ s) = parse_digits 0 (c ∷ s)

-- `str::parse::<u64>`
unfoldable pub parse_u64 : Text → Option ℕ
parse_u64 [] = none
parse_u64 (c ∷ s) = if c == b'+' then digits_of s else digits_of (c ∷ s)
