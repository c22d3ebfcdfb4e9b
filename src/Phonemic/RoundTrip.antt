-- ===== src/Phonemic/RoundTrip.antt =====
-- A spelled key is read back.
use skrepka.Base.{
  ℕ, ◌<◌, ◌≡◌, refl, true, some, List, [], ◌∷◌, ◌++◌, Bytes, Text, length, take, drop, arith, utf8,
  text_len, length-append, ◌%◌,
}
use mathlib.Core.List.{append-nil}
use skrepka.Phonemic.Spelling.{
  prefix_index, suffix_index, syllable, spell_pairs, to_ob, split, non_empty, is_ascii, parse_parts,
  to_lowercase, from_ob,
}
use skrepka.Phonemic.Syllables.{Letters, IsEntry, prefix-IsEntry, suffix-IsEntry}

-- Bytes in pairs, which is what has a spelling.
abbrev pub IsPaired : Bytes → Type 0
IsPaired [] = Unit
IsPaired (hi ∷ []) = ⊥
IsPaired (hi ∷ lo ∷ rest) = (hi < 256) × (lo < 256) × IsPaired rest

-- The syllables of the pairs.
words : Bytes → List Text
words [] = []
words (hi ∷ []) = []
words (hi ∷ lo ∷ rest) = syllable hi lo ∷ words rest

take-append : (xs ys : Text) → take (length xs) (xs ++ ys) ≡ xs
take-append [] ys = refl
take-append (x ∷ xs) ys = rw (take-append xs ys)

drop-append : (xs ys : Text) → drop (length xs) (xs ++ ys) ≡ ys
drop-append [] ys = refl
drop-append (x ∷ xs) ys = drop-append xs ys

take-length : (xs : Text) → take (length xs) xs ≡ xs
take-length [] = refl
take-length (x ∷ xs) = rw (take-length xs)

Letters-append : (xs ys : Text) → Letters xs → Letters ys → Letters (xs ++ ys)
Letters-append [] ys h k = k
Letters-append (x ∷ xs) ys h k = (h.0, h.1, Letters-append xs ys h.2 k)

-- What the reader asks of a part, and finds in it.
record IsWord (hi lo : ℕ) (w : Text) : Type 0 where
  size : length w ≡ 6
  letters : Letters w
  first : prefix_index (take 3 w) ≡ some hi
  second : suffix_index (take 3 (drop 3 w)) ≡ some lo

IsWord-of_entries :
    (hi lo : ℕ) (p s : Text)
    → IsEntry prefix_index hi p
    → IsEntry suffix_index lo s
    → IsWord hi lo (p ++ s)
IsWord-of_entries hi lo p s hp hs =
    let behind : drop 3 (p ++ s) ≡ s = rw (← hp.size) (drop-append p s) in
    let whole : take 3 s ≡ s = rw (← hs.size) (take-length s) in
    record {
      size = omega (arith, length-append p s, hp.size, hs.size);
      letters = Letters-append p s hp.letters hs.letters;
      first = rw (← hp.size) (rw (take-append p s) hp.found);
      second = rw (behind, whole) hs.found;
    }

syllable-IsWord : (hi lo : ℕ) → hi < 256 → lo < 256 → IsWord hi lo (syllable hi lo)
unfolding syllable
syllable-IsWord hi lo h k = IsWord-of_entries hi lo _ _ (prefix-IsEntry hi h) (suffix-IsEntry lo k)

ascii-Letters : (w : Text) → Letters w → (is_ascii w ≡ true) × (text_len w ≡ length w)
unfolding text_len utf8
ascii-Letters [] h = (refl, refl)
ascii-Letters (c ∷ w) h = ground (arith, ascii-Letters w h.2)

parse_word :
    (hi lo : ℕ) (w : Text) (parts : List Text) (out : Bytes)
    → IsWord hi lo w
    → parse_parts parts ≡ some out
    → parse_parts (w ∷ parts) ≡ some (hi ∷ lo ∷ out)
unfolding parse_parts
parse_word hi lo w parts out h e =
    ground (arith, ascii-Letters w h.letters, h.size, h.first, h.second)

parse_words : (bytes : Bytes) → IsPaired bytes → parse_parts (words bytes) ≡ some bytes
unfolding words
parse_words [] h = unfold parse_parts in refl
parse_words (hi ∷ []) h = elim h [ ]
parse_words (hi ∷ lo ∷ rest) h =
    parse_word hi lo _ (words rest) rest (syllable-IsWord hi lo h.0 h.1) (parse_words rest h.2)

-- Letters before the rest of a text go to its first piece.
split-Letters :
    (w s p : Text) (ps : List Text)
    → Letters w
    → split b'-' s ≡ p ∷ ps
    → split b'-' (w ++ s) ≡ (w ++ p) ∷ ps
unfolding split
split-Letters [] s p ps h e = e
split-Letters (c ∷ w) s p ps h e = ground (arith, split-Letters w s p ps h.2 e)

split_dash : (s : Text) → split b'-' (b'-' ∷ s) ≡ [] ∷ split b'-' s
unfolding split
split_dash s = refl

split-words :
    (hi lo : ℕ) (rest : Bytes)
    → IsPaired (hi ∷ lo ∷ rest)
    → split b'-' (spell_pairs (hi ∷ lo ∷ rest)) ≡ words (hi ∷ lo ∷ rest)
unfolding spell_pairs words
split-words hi lo [] h =
    let w = syllable-IsWord hi lo h.0 h.1 in
    rw append-nil at (split-Letters (syllable hi lo) [] [] [] w.letters (unfold split in refl))
split-words hi lo (h2 ∷ []) h = elim h.2 [ ]
split-words hi lo (h2 ∷ l2 ∷ rest) h =
    let w = syllable-IsWord hi lo h.0 h.1 in
    rw append-nil at (
      split-Letters (syllable hi lo) (b'-' ∷ spell_pairs (h2 ∷ l2 ∷ rest)) []
        (words (h2 ∷ l2 ∷ rest)) w.letters
        (rw (split_dash (spell_pairs (h2 ∷ l2 ∷ rest)), split-words h2 l2 rest h.2) refl))

non_empty_word : (w : Text) (ps : List Text) → length w ≡ 6 → non_empty (w ∷ ps) ≡ w ∷ non_empty ps
unfolding non_empty
non_empty_word [] ps h = absurd (omega arith)
non_empty_word (c ∷ w) ps h = refl

non_empty-words : (bytes : Bytes) → IsPaired bytes → non_empty (words bytes) ≡ words bytes
unfolding words
non_empty-words [] h = unfold non_empty in refl
non_empty-words (hi ∷ []) h = elim h [ ]
non_empty-words (hi ∷ lo ∷ rest) h = ground (
  arith,
  non_empty_word (syllable hi lo) (words rest) (syllable-IsWord hi lo h.0 h.1).size,
  non_empty-words rest h.2,
)

lower-Letters :
    (wide : ℕ → Text) (w s : Text)
    → Letters w
    → to_lowercase wide (w ++ s) ≡ w ++ to_lowercase wide s
unfolding to_lowercase
lower-Letters wide [] s h = refl
lower-Letters wide (c ∷ w) s h = ground (arith, lower-Letters wide w s h.2)

lower_word : (wide : ℕ → Text) (w : Text) → Letters w → to_lowercase wide w ≡ w
unfolding to_lowercase
lower_word wide [] h = refl
lower_word wide (c ∷ w) h = ground (arith, lower_word wide w h.2)

lower_dash :
    (wide : ℕ → Text) (s : Text) → to_lowercase wide (b'-' ∷ s) ≡ b'-' ∷ to_lowercase wide s
unfolding to_lowercase
lower_dash wide s = refl

lower_spelling :
    (wide : ℕ → Text) (hi lo : ℕ) (rest : Bytes)
    → IsPaired (hi ∷ lo ∷ rest)
    → to_lowercase wide (spell_pairs (hi ∷ lo ∷ rest)) ≡ spell_pairs (hi ∷ lo ∷ rest)
unfolding spell_pairs
lower_spelling wide hi lo [] h =
    lower_word wide (syllable hi lo) (syllable-IsWord hi lo h.0 h.1).letters
lower_spelling wide hi lo (h2 ∷ []) h = elim h.2 [ ]
lower_spelling wide hi lo (h2 ∷ l2 ∷ rest) h =
    let w = syllable-IsWord hi lo h.0 h.1 in
    rw
      (
        lower-Letters wide (syllable hi lo) (b'-' ∷ spell_pairs (h2 ∷ l2 ∷ rest)) w.letters,
        lower_dash wide (spell_pairs (h2 ∷ l2 ∷ rest)),
        lower_spelling wide h2 l2 rest h.2,
      )
      refl

IsPaired-even : (bytes : Bytes) → IsPaired bytes → length bytes % 2 ≡ 0
IsPaired-even [] h = omega arith
IsPaired-even (hi ∷ []) h = elim h [ ]
IsPaired-even (hi ∷ lo ∷ rest) h = omega (arith, IsPaired-even rest h.2)

-- The parts that `from_ob` finds in a spelling.
spelling_parts :
    (wide : ℕ → Text) (hi lo : ℕ) (rest : Bytes)
    → IsPaired (hi ∷ lo ∷ rest)
    → non_empty (split b'-' (to_lowercase wide (spell_pairs (hi ∷ lo ∷ rest))))
      ≡ syllable hi lo ∷ words rest
spelling_parts wide hi lo rest h =
    rw (lower_spelling wide hi lo rest h, split-words hi lo rest h)
      (unfold words in non_empty-words (hi ∷ lo ∷ rest) h)

read_spelling :
    (wide : ℕ → Text) (hi lo : ℕ) (rest : Bytes)
    → IsPaired (hi ∷ lo ∷ rest)
    → from_ob wide (spell_pairs (hi ∷ lo ∷ rest)) ≡ some (hi ∷ lo ∷ rest)
unfolding from_ob words
read_spelling wide hi lo rest h =
    ground (arith, spelling_parts wide hi lo rest h, parse_words (hi ∷ lo ∷ rest) h)

-- Every list of pairs of bytes that is not empty has a spelling, and the spelling is read back to
-- the list, whatever Unicode's table of letters is.
pub from_ob-to_ob :
    (wide : ℕ → Text) (hi lo : ℕ) (rest : Bytes)
    → IsPaired (hi ∷ lo ∷ rest)
    → (s : Text) × (to_ob (hi ∷ lo ∷ rest) ≡ some s) × (from_ob wide s ≡ some (hi ∷ lo ∷ rest))
unfolding to_ob
from_ob-to_ob wide hi lo rest h = (
  spell_pairs (hi ∷ lo ∷ rest),
  ground (arith, IsPaired-even (hi ∷ lo ∷ rest) h),
  read_spelling wide hi lo rest h,
)
