-- ===== src/Phonemic/Syllables.antt =====
-- The two tables: 256 syllables of three small letters each, and each found at its own place.
use skrepka.Base.{
  ℕ, zero, suc, ◌+◌, ◌≤◌, ◌<◌, ◌≡◌, refl, Bool, true, false, ◌&&◌, Option, none, some, List, [],
  ◌∷◌, Text, length, get_or, leb, ◌==◌, arith, text_dec,
}
use skrepka.Phonemic.Tables.{prefixes, suffixes}
use skrepka.Phonemic.Spelling.{prefix_index, suffix_index}

-- Small letters only.
abbrev pub Letters : Text → Type 0
Letters [] = Unit
Letters (c ∷ s) = (b'a' ≤ c) × (c ≤ b'z') × Letters s

abbrev is_letter : ℕ → Bool
is_letter c = leb b'a' c && leb c b'z'

abbrev is_triple : Text → Bool
is_triple (a ∷ b ∷ c ∷ []) = is_letter a && is_letter b && is_letter c
is_triple _ = false

abbrev is_found : ℕ → Option ℕ → Bool
is_found i none = false
is_found i (some j) = i == j

-- A test of every entry of a table with its index, from `i` on.
each_entry : (ℕ → Text → Bool) → ℕ → List Text → Bool
each_entry test i [] = true
each_entry test i (s ∷ table) = test i s && each_entry test (suc i) table

entry_passes :
    (test : ℕ → Text → Bool) (i k : ℕ) (table : List Text)
    → each_entry test i table ≡ true
    → k < length table
    → test (i + k) (get_or table k []) ≡ true
unfolding each_entry
entry_passes test i k [] h lt = elim lt [ ]
entry_passes test i zero (s ∷ table) h lt = let e : i + 0 ≡ i = omega arith in rw e (ground arith)
entry_passes test i (suc k) (s ∷ table) h lt =
    let e : i + suc k ≡ suc i + k = omega arith in
    rw e (entry_passes test (suc i) k table (ground arith) (omega arith))

-- What is checked of an entry.
abbrev is_entry : (Text → Option ℕ) → ℕ → Text → Bool
is_entry index i s = is_found i (index s) && is_triple s

prefix_table : each_entry (is_entry prefix_index) 0 prefixes ≡ true
unfolding each_entry prefix_index text_dec
prefix_table = refl

suffix_table : each_entry (is_entry suffix_index) 0 suffixes ≡ true
unfolding each_entry suffix_index text_dec
suffix_table = refl

Letters-of_triple : (s : Text) → is_triple s ≡ true → (length s ≡ 3) × Letters s
Letters-of_triple [] h = cc
Letters-of_triple (a ∷ []) h = cc
Letters-of_triple (a ∷ b ∷ []) h = cc
Letters-of_triple (a ∷ b ∷ c ∷ []) h = ground arith
Letters-of_triple (a ∷ b ∷ c ∷ d ∷ s) h = cc

-- An entry of a table: three letters, with the index that they are found at.
pub record IsEntry (index : Text → Option ℕ) (i : ℕ) (s : Text) : Type 0 where
  pub found : index s ≡ some i
  pub size : length s ≡ 3
  pub letters : Letters s

IsEntry-of_test :
    (index : Text → Option ℕ) (i : ℕ) (s : Text) → is_entry index i s ≡ true → IsEntry index i s
IsEntry-of_test index i s h = ground (arith, Letters-of_triple s)

prefixes_count : length prefixes ≡ 256
unfolding prefixes
prefixes_count = refl

suffixes_count : length suffixes ≡ 256
unfolding suffixes
suffixes_count = refl

IsEntry-found :
    (index : Text → Option ℕ) (table : List Text) (i : ℕ)
    → each_entry (is_entry index) 0 table ≡ true
    → length table ≡ 256
    → i < 256
    → IsEntry index i (get_or table i [])
IsEntry-found index table i h n lt =
    let e : 0 + i ≡ i = omega arith in
    IsEntry-of_test index i (get_or table i [])
      (rw e at (entry_passes (is_entry index) 0 i table h (omega arith)))

pub prefix-IsEntry : (i : ℕ) → i < 256 → IsEntry prefix_index i (get_or prefixes i [])
prefix-IsEntry i lt = IsEntry-found prefix_index prefixes i prefix_table prefixes_count lt

pub suffix-IsEntry : (i : ℕ) → i < 256 → IsEntry suffix_index i (get_or suffixes i [])
suffix-IsEntry i lt = IsEntry-found suffix_index suffixes i suffix_table suffixes_count lt
