-- ===== src/Base/Strings.antt =====
-- Rust's `String` and `&str` as lists of code points, and byte slices as lists of numbers.
-- UTF-8 keeps the order of code points, so the derived order of `str` is the lexicographic one.
use Prim.Native.Char.{code}
use Prim.Native.String.{String}
use Prim.Native.Nat.{ℕ, ◌+◌, ◌/◌, ◌%◌, compare, Ordering}
use Prim.Native.Nat.Ordering.{lt, eq, gt}
use mathlib.Core.Path.{◌≡◌, refl}
use mathlib.Core.Logic.{◌≢◌, ite}
use mathlib.Core.Bool.{Bool, true, false}
use mathlib.Core.List.{List, [], ◌∷◌, ◌++◌}
use native.Mathlib.Omega.{arith}
use native.Mathlib.Decide.{ℕ_discrete}
use skrepka.Base.Tests.{ltb, if◌then◌else◌}
use skrepka.Base.Lists.{length}

abbrev pub Bytes : Type 0
Bytes = List ℕ

abbrev pub Text : Type 0
Text = List ℕ

unfoldable pub codes : String → Text
codes String.[] = []
codes (String.◌∷◌ c s) = code c ∷ codes s

pub head_eq : {x y : ℕ} {xs ys : Text} → ◌≡◌ {A = Text} (x ∷ xs) (y ∷ ys) → x ≡ y
head_eq h = ground arith

pub tail_eq : {x y : ℕ} {xs ys : Text} → ◌≡◌ {A = Text} (x ∷ xs) (y ∷ ys) → xs ≡ ys
tail_eq h = cc

-- Shut in proofs, where a split on a test of two texts gives the equation or its negation.
unfoldable pub text_dec : Discrete Text
unfolding ℕ_discrete
text_dec [] [] = yes refl
text_dec [] (y ∷ ys) = no (λ h. cc)
text_dec (x ∷ xs) [] = no (λ h. cc)
text_dec (x ∷ xs) (y ∷ ys) = both (ℕ_discrete x y) (text_dec xs ys)
  where
    both : Dec (x ≡ y) → Dec (xs ≡ ys) → Dec (◌≡◌ {A = Text} (x ∷ xs) (y ∷ ys))
    both (yes p) (yes q) = yes (cc)
    both (yes p) (no n) = no (λ h. n (tail_eq h))
    both (no n) d = no (λ h. n (head_eq h))

abbrev pub same_text : Text → Text → Bool
same_text a b = ite (text_dec a b) true false

pub same_text_refl : (a : Text) → same_text a a ≡ true
same_text_refl a = ground arith

pub same_text_ne : {a b : Text} → a ≢ b → same_text a b ≡ false
same_text_ne h = ground arith

-- `Ord for str`
unfoldable pub compare_text : Text → Text → Ordering
compare_text [] [] = eq
compare_text [] (y ∷ ys) = lt
compare_text (x ∷ xs) [] = gt
compare_text (x ∷ xs) (y ∷ ys) = elim (compare x y) [ lt ↦ lt | gt ↦ gt | eq ↦ compare_text xs ys ]

pub compare_text-eq : (a b : Text) → compare_text a b ≡ eq → a ≡ b
unfolding compare_text
compare_text-eq [] [] h = refl
compare_text-eq [] (y ∷ ys) h = cc
compare_text-eq (x ∷ xs) [] h = cc
compare_text-eq (x ∷ xs) (y ∷ ys) h = ground (arith, compare_text-eq xs ys)

pub compare_text_refl : (a : Text) → compare_text a a ≡ eq
unfolding compare_text
compare_text_refl [] = refl
compare_text_refl (x ∷ xs) = ground (arith, compare_text_refl xs)

pub compare_text_swap : (a b : Text) → compare_text a b ≡ gt → compare_text b a ≡ lt
unfolding compare_text
compare_text_swap [] [] h = cc
compare_text_swap [] (y ∷ ys) h = cc
compare_text_swap (x ∷ xs) [] h = refl
compare_text_swap (x ∷ xs) (y ∷ ys) h = ground (arith, compare_text_swap xs ys)

pub compare_text_trans :
    (a b c : Text) → compare_text a b ≡ lt → compare_text b c ≡ lt → compare_text a c ≡ lt
unfolding compare_text
compare_text_trans [] [] c h k = cc
compare_text_trans [] (y ∷ ys) [] h k = cc
compare_text_trans [] (y ∷ ys) (z ∷ zs) h k = refl
compare_text_trans (x ∷ xs) [] c h k = cc
compare_text_trans (x ∷ xs) (y ∷ ys) [] h k = cc
compare_text_trans (x ∷ xs) (y ∷ ys) (z ∷ zs) h k = ground (arith, compare_text_trans xs ys zs)

-- The UTF-8 bytes of a code point, and of a text: `str::as_bytes`.
abbrev utf8_char : ℕ → Bytes
utf8_char c =
    if ltb c 0x80
    then c ∷ []
    else if ltb c 0x800
    then (0xC0 + c / 0x40) ∷ (0x80 + c % 0x40) ∷ []
    else if ltb c 0x10000
    then (0xE0 + c / 0x1000) ∷ (0x80 + c / 0x40 % 0x40) ∷ (0x80 + c % 0x40) ∷ []
    else (0xF0 + c / 0x40000)
      ∷ (0x80 + c / 0x1000 % 0x40)
      ∷ (0x80 + c / 0x40 % 0x40)
      ∷ (0x80 + c % 0x40)
      ∷ []

unfoldable pub utf8 : Text → Bytes
utf8 [] = []
utf8 (c ∷ s) = utf8_char c ++ utf8 s

-- `str::len`, in bytes
unfoldable pub text_len : Text → ℕ
unfolding utf8
text_len s = length (utf8 s)
