-- ===== src/Phonemic/Spelling.antt =====
-- `to_ob`, `from_ob` and `try_parse_pubkey`. Lowercasing is that of `str::to_lowercase`, letter by
-- letter; Unicode's table for letters outside ASCII is the parameter `wide`.
use skrepka.Base.{
  ℕ, suc, ◌+◌, ◌%◌, Bool, true, false, ◌&&◌, ◌||◌, not, Option, none, some, List, [], ◌∷◌, ◌++◌,
  Bytes, Text, text_len, same_text, length, take, drop, get_or, ltb, leb, ◌==◌, if◌then◌else◌,
}
use mathlib.Core.List.{reverse}
use skrepka.Crypto.{Primitives}
use skrepka.Phonemic.Tables.{prefixes, suffixes}

-- `PREFIX_MAP` and `SUFFIX_MAP` keep the last index of a repeated syllable.
unfoldable pub last_index : ℕ → Text → List Text → Option ℕ
last_index i s [] = none
last_index i s (x ∷ xs) = elim (last_index (suc i) s xs) [
  | some j ↦ some j
  | none ↦ if same_text x s then some i else none
]

unfoldable pub prefix_index : Text → Option ℕ
unfolding last_index prefixes
prefix_index s = last_index 0 s prefixes

unfoldable pub suffix_index : Text → Option ℕ
unfolding last_index suffixes
suffix_index s = last_index 0 s suffixes

-- `PREFIXES[hi] ++ SUFFIXES[lo]`
unfoldable pub syllable : ℕ → ℕ → Text
unfolding prefixes suffixes
syllable hi lo = get_or prefixes hi [] ++ get_or suffixes lo []

-- `join("-")` over the pairs of bytes; the list has an even length.
unfoldable pub spell_pairs : Bytes → Text
spell_pairs [] = []
spell_pairs (hi ∷ []) = []
spell_pairs (hi ∷ lo ∷ []) = syllable hi lo
spell_pairs (hi ∷ lo ∷ rest) = syllable hi lo ++ (b'-' ∷ spell_pairs rest)

abbrev is_empty : Text → Bool
is_empty [] = true
is_empty (c ∷ s) = false

unfoldable pub to_ob : Bytes → Option Text
unfolding spell_pairs
to_ob bytes =
    if is_empty bytes
    then none
    else if not (length bytes % 2 == 0)
    then none
    else some (spell_pairs bytes)

-- `split(sep)`, the pieces between the separators
unfoldable pub split : ℕ → Text → List Text
split sep [] = [] ∷ []
split sep (c ∷ s) = let pieces = split sep s in if c == sep then [] ∷ pieces else put_first c pieces
  where
    put_first : ℕ → List Text → List Text
    put_first c [] = (c ∷ []) ∷ []
    put_first c (p ∷ ps) = (c ∷ p) ∷ ps

-- `filter(|p| !p.is_empty())`
unfoldable pub non_empty : List Text → List Text
non_empty [] = []
non_empty ([] ∷ ps) = non_empty ps
non_empty ((c ∷ p) ∷ ps) = (c ∷ p) ∷ non_empty ps

-- `is_ascii`
abbrev pub is_ascii : Text → Bool
is_ascii [] = true
is_ascii (c ∷ s) = ltb c 128 && is_ascii s

-- The loop of `from_ob`.
unfoldable pub parse_parts : List Text → Option Bytes
parse_parts [] = some []
parse_parts (part ∷ parts) =
    let rest = parse_parts parts in
    if not (text_len part == 6) || not (is_ascii part)
    then none
    else elim (prefix_index (take 3 part)) [
      | none ↦ none
      | some hi ↦ elim (suffix_index (take 3 (drop 3 part))) [
        | none ↦ none
        | some lo ↦ elim rest [ none ↦ none | some out ↦ some (hi ∷ lo ∷ out) ]
      ]
    ]

-- `char::is_whitespace`
abbrev is_whitespace : ℕ → Bool
is_whitespace c =
    (leb 9 c && leb c 13)
    || c == 32
    || c == 0x85
    || c == 0xA0
    || c == 0x1680
    || (leb 0x2000 c && leb c 0x200A)
    || c == 0x2028
    || c == 0x2029
    || c == 0x202F
    || c == 0x205F
    || c == 0x3000

unfoldable pub trim_start : Text → Text
trim_start [] = []
trim_start (c ∷ s) = let rest = trim_start s in if is_whitespace c then rest else c ∷ s

-- `str::trim`
unfoldable pub trim : Text → Text
unfolding trim_start
trim s = reverse (trim_start (reverse (trim_start s)))

module _ (wide : ℕ → Text) where
  unfoldable pub to_lowercase : Text → Text
  to_lowercase [] = []
  to_lowercase (c ∷ s) =
      (if leb b'A' c && leb c b'Z' then (c + 32) ∷ [] else if ltb c 128 then c ∷ [] else wide c)
      ++ to_lowercase s

  unfoldable pub from_ob : Text → Option Bytes
  unfolding parse_parts split non_empty to_lowercase
  from_ob s = elim (non_empty (split b'-' (to_lowercase s))) [
    | [] ↦ none
    | part ∷ parts ↦ parse_parts (part ∷ parts)
  ]

module _ (p : Primitives) where
  unfoldable pub valid_pubkey_hex : Bytes → Option Text
  valid_pubkey_hex bytes =
      if not (length bytes == 32)
      then none
      else if p.ed25519_valid bytes
      then some (p.hex_encode bytes)
      else none

  -- `hex::decode`, then the check of the key
  abbrev pubkey_of_hex : Text → Option Text
  pubkey_of_hex trimmed = elim (p.hex_decode trimmed) [
    | none ↦ none
    | some bytes ↦ valid_pubkey_hex bytes
  ]

module _ (p : Primitives) (wide : ℕ → Text) where
  -- `from_ob`, then the check of the key
  abbrev pubkey_of_ob : Text → Option Text
  pubkey_of_ob trimmed = elim (from_ob wide trimmed) [
    | none ↦ none
    | some bytes ↦ valid_pubkey_hex p bytes
  ]

  unfoldable pub try_parse_pubkey : Text → Option Text
  unfolding valid_pubkey_hex from_ob trim
  try_parse_pubkey input = elim (pubkey_of_ob (trim input)) [
    | some hex ↦ some hex
    | none ↦ pubkey_of_hex p (trim input)
  ]
