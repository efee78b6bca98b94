-- ===== src/Base/Text.antt =====
-- Texts as the lists of their code points, and the functions of Go's `strings` that the agent calls.
use Prim.Native.Nat.{ℕ, ◌+◌}
use Prim.Native.Char.{code}
use Prim.Native.String.{String}
use mathlib.Core.Bool.{Bool, true, false, ◌&&◌, ◌||◌}
use mathlib.Core.List.{List, [], ◌∷◌, reverse, map}
use infrafence_agent.Base.Tests.{ltb, leb, ◌==◌, if◌then◌else◌}
use mathlib.Core.Path.{◌≡◌, refl}
use native.Mathlib.Omega.{arith}

abbrev pub codes : String → List ℕ
codes String.[] = []
codes (String.◌∷◌ c s) = code c ∷ codes s

abbrev pub same : List ℕ → List ℕ → Bool
same [] [] = true
same (x ∷ xs) (y ∷ ys) = x == y && same xs ys
same _ _ = false

pub same_refl : (s : List ℕ) → same s s ≡ true
same_refl [] = refl
same_refl (x ∷ xs) = ground (arith, same_refl xs)

pub same-eq : (s t : List ℕ) → same s t ≡ true → s ≡ t
same-eq [] [] h = refl
same-eq [] (y ∷ ys) h = cc
same-eq (x ∷ xs) [] h = cc
same-eq (x ∷ xs) (y ∷ ys) h = ground (arith, same-eq xs ys)

-- Unicode's simple case folding, as far as a code point folds to an ASCII letter: the upper case
-- letters, the long s and the Kelvin sign.
unfoldable pub fold_case : ℕ → ℕ
fold_case c =
    if leb 0x41 c && leb c 0x5A
    then c + 32
    else if c == 0x17F
    then 0x73
    else if c == 0x212A
    then 0x6B
    else c

-- `strings.EqualFold(s, t)` for a text `t` of lower case ASCII letters.
unfoldable pub equal_fold : List ℕ → List ℕ → Bool
unfolding fold_case
equal_fold s t = same (map fold_case s) t

-- `unicode.IsSpace`.
unfoldable pub is_space : ℕ → Bool
is_space c =
    (leb 9 c && leb c 13)
    || c == 0x20
    || c == 0x85
    || c == 0xA0
    || c == 0x1680
    || (leb 0x2000 c && leb c 0x200A)
    || c == 0x2028
    || c == 0x2029
    || c == 0x202F
    || c == 0x205F
    || c == 0x3000

unfoldable pub trim_left : List ℕ → List ℕ
unfolding is_space
trim_left [] = []
trim_left (c ∷ s) = if is_space c then trim_left s else c ∷ s

-- `strings.TrimSpace`.
unfoldable pub trim_space : List ℕ → List ℕ
unfolding trim_left
trim_space s = reverse (trim_left (reverse (trim_left s)))

-- `s < t` on texts, by code points.
unfoldable pub lex_lt : List ℕ → List ℕ → Bool
lex_lt [] [] = false
lex_lt [] (y ∷ ys) = true
lex_lt (x ∷ xs) [] = false
lex_lt (x ∷ xs) (y ∷ ys) = ltb x y || (x == y && lex_lt xs ys)

pub lex_lt_asym : (s t : List ℕ) → lex_lt s t ≡ true → lex_lt t s ≡ false
unfolding lex_lt
lex_lt_asym [] [] h = refl
lex_lt_asym [] (y ∷ ys) h = refl
lex_lt_asym (x ∷ xs) [] h = ground arith
lex_lt_asym (x ∷ xs) (y ∷ ys) h = ground (arith, lex_lt_asym xs ys)

pub lex_lt_ordered : (s t u : List ℕ) → lex_lt t s ≡ false → lex_lt u t ≡ false → lex_lt u s ≡ false
unfolding lex_lt
lex_lt_ordered [] [] [] h k = refl
lex_lt_ordered [] [] (z ∷ zs) h k = k
lex_lt_ordered [] (y ∷ ys) u h k = refl_case u
  where
    refl_case : (u : List ℕ) → lex_lt u [] ≡ false
    refl_case [] = refl
    refl_case (z ∷ zs) = refl
lex_lt_ordered (x ∷ xs) [] [] h k = h
lex_lt_ordered (x ∷ xs) [] (z ∷ zs) h k = ground arith
lex_lt_ordered (x ∷ xs) (y ∷ ys) [] h k = ground arith
lex_lt_ordered (x ∷ xs) (y ∷ ys) (z ∷ zs) h k = ground (arith, lex_lt_ordered xs ys zs)
