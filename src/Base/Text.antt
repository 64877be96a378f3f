-- ===== src/Base/Text.antt =====
-- The text functions of the language: `length` in UTF-16 units, `trim`, and a number's digits.
use native.Mathlib.Omega.{arith}
use Prim.Native.Nat.{◌≤◌, ℕ, suc, zero, ◌+◌, ◌/◌, ◌%◌}
use Prim.Native.Char.{Char, code}
use text.Mathlib.TextEquality.{Char-path}
use Prim.Native.String.{String, ◌++◌}
use mathlib.Core.Bool.{Bool, true, false, ◌&&◌, ◌||◌}
use mathlib.Core.Logic.{inl, inr}
use mathlib.Core.Path.{◌≡◌, refl}
use work_copilot.Base.Tests.{Bool-cases, if◌then◌else◌, ltb, leb, eqb}

-- Texts joined by `+` or in a template.
abbrev pub append : String → String → String
append a b = a ++ b

unfoldable pub starts_with : String → String → Bool
starts_with String.[] s = true
starts_with (String.◌∷◌ c p) String.[] = false
starts_with (String.◌∷◌ c p) (String.◌∷◌ d s) = eqb (code c) (code d) && starts_with p s

-- The order of the identifiers in the database, which is that of their digits.
unfoldable pub text_lt : String → String → Bool
text_lt s String.[] = false
text_lt String.[] (String.◌∷◌ d t) = true
text_lt (String.◌∷◌ c s) (String.◌∷◌ d t) =
    ltb (code c) (code d) || (eqb (code c) (code d) && text_lt s t)

-- A character outside the basic plane takes two units.
abbrev pub units : ℕ → ℕ
units c = if ltb c 65536 then 1 else 2

unfoldable pub text_length : String → ℕ
text_length String.[] = 0
text_length (String.◌∷◌ c s) = units (code c) + text_length s

-- The white space and the line ends that `trim` removes.
abbrev pub is_space : ℕ → Bool
is_space c =
    (leb 9 c && leb c 13)
    || eqb c 32
    || eqb c 160
    || eqb c 0x1680
    || (leb 0x2000 c && leb c 0x200a)
    || eqb c 0x2028
    || eqb c 0x2029
    || eqb c 0x202f
    || eqb c 0x205f
    || eqb c 0x3000
    || eqb c 0xfeff

unfoldable pub trim_start : String → String
trim_start String.[] = String.[]
trim_start (String.◌∷◌ c s) = if is_space (code c) then trim_start s else String.◌∷◌ c s

-- A character stands at the end if only white space follows.
abbrev pub put_unless_space : Char → String → String
put_unless_space c String.[] = if is_space (code c) then String.[] else String.◌∷◌ c String.[]
put_unless_space c (String.◌∷◌ d s) = String.◌∷◌ c (String.◌∷◌ d s)

unfoldable pub trim_end : String → String
trim_end String.[] = String.[]
trim_end (String.◌∷◌ c s) = put_unless_space c (trim_end s)

unfoldable pub trim : String → String
unfolding trim_start trim_end
trim s = trim_end (trim_start s)

abbrev digit : ℕ → String
digit d =
    if eqb d 0
    then "0"
    else if eqb d 1
    then "1"
    else if eqb d 2
    then "2"
    else if eqb d 3
    then "3"
    else if eqb d 4
    then "4"
    else if eqb d 5
    then "5"
    else if eqb d 6
    then "6"
    else if eqb d 7
    then "7"
    else if eqb d 8
    then "8"
    else "9"

digits_from : ℕ → ℕ → String
digits_from zero n = ""
digits_from (suc fuel) n =
    let rest = digits_from fuel (n / 10) in if ltb n 10 then digit n else rest ++ digit (n % 10)

-- `n + 1` rounds are more than the digits of `n`.
unfoldable pub decimal : ℕ → String
unfolding digits_from
decimal n = digits_from (suc n) n

trim_start-shorter : (s : String) → text_length (trim_start s) ≤ text_length s
unfolding trim_start text_length
trim_start-shorter String.[] = omega arith
trim_start-shorter (String.◌∷◌ c s) = ground (arith, trim_start-shorter s)

put_unless_space-shorter :
    (c : Char) (s : String) → text_length (put_unless_space c s) ≤ units (code c) + text_length s
unfolding text_length
put_unless_space-shorter c String.[] = elim (Bool-cases (is_space (code c))) [
  | inl e ↦ rw e (omega arith)
  | inr e ↦ rw e (omega arith)
]
put_unless_space-shorter c (String.◌∷◌ d s) = omega arith

trim_end-shorter : (s : String) → text_length (trim_end s) ≤ text_length s
unfolding trim_end text_length
trim_end-shorter String.[] = omega arith
trim_end-shorter (String.◌∷◌ c s) =
    omega (arith, put_unless_space-shorter c (trim_end s), trim_end-shorter s)

-- A trimmed text is no longer than the text.
pub trim-shorter : (s : String) → text_length (trim s) ≤ text_length s
unfolding trim
trim-shorter s = omega (arith, trim_start-shorter s, trim_end-shorter (trim_start s))

pub text_lt_irrefl : (s : String) → text_lt s s ≡ false
unfolding text_lt
text_lt_irrefl String.[] = refl
text_lt_irrefl (String.◌∷◌ c s) = ground (arith, text_lt_irrefl s)

pub text_lt_trans : (s t u : String) → text_lt s t ≡ true → text_lt t u ≡ true → text_lt s u ≡ true
unfolding text_lt
text_lt_trans s t String.[] h k = cc
text_lt_trans s String.[] (String.◌∷◌ e u) h k = cc
text_lt_trans String.[] (String.◌∷◌ d t) (String.◌∷◌ e u) h k = refl
text_lt_trans (String.◌∷◌ c s) (String.◌∷◌ d t) (String.◌∷◌ e u) h k =
    ground (arith, text_lt_trans s t u)

-- Of two texts that differ one comes first.
pub text_lt-total : (s t : String) → text_lt s t ≡ false → text_lt t s ≡ false → s ≡ t
unfolding text_lt
text_lt-total String.[] String.[] h k = refl
text_lt-total String.[] (String.◌∷◌ d t) h k = cc
text_lt-total (String.◌∷◌ c s) String.[] h k = cc
text_lt-total (String.◌∷◌ c s) (String.◌∷◌ d t) h k =
    let same : code c ≡ code d = ground arith in
    let rest : s ≡ t = text_lt-total s t (ground arith) (ground arith) in
    let char : c ≡ d = Char-path c d same in cc (char, rest)
