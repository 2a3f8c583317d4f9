-- ===== src/Prelude/Text.antt =====
-- The operations of Python's `str` that the program uses. Only ASCII letters have a lower case and
-- only ASCII digits are digits here; Python knows more of both, such as the Kelvin sign, whose lower
-- case is the letter k.
use Prim.Native.Nat.{ℕ, zero, suc, ◌+◌, ◌*◌, ◌-◌}
use Prim.Native.Char.{Char, code}
use Prim.Native.String.{String}
use mathlib.Core.Bool.{Bool, true, false, ◌&&◌, ◌||◌, not}
use mathlib.Core.Option.{Option, none, some}
use mathlib.Core.List.{List, [], ◌∷◌}
use agentic_netops.Prelude.Tests.{leb, ◌==◌, if◌then◌else◌, has_text}

-- A Python integer: `negsuc n` is -(n + 1).
pub data ℤ : Type 0 where
  pos : ℕ → ℤ
  negsuc : ℕ → ℤ

-- Whether an integer lies between 0 and a bound, both included.
abbrev pub in_range : ℕ → ℤ → Bool
in_range m (pos n) = leb n m
in_range m (negsuc n) = false

char_or : Char → String → ℕ → Char
char_or d String.[] n = d
char_or d (String.◌∷◌ c s) zero = c
char_or d (String.◌∷◌ c s) (suc n) = char_or d s n

unfoldable pub lower_char : Char → Char
unfolding char_or
lower_char c =
    if leb 65 (code c) && leb (code c) 90
    then char_or c "abcdefghijklmnopqrstuvwxyz" (code c - 65)
    else c

-- `s.lower()`
unfoldable pub lower : String → String
unfolding lower_char
lower String.[] = ""
lower (String.◌∷◌ c s) = String.◌∷◌ (lower_char c) (lower s)

-- `c.isspace()`
is_space : ℕ → Bool
is_space n =
    (leb 9 n && leb n 13)
    || (leb 28 n && leb n 32)
    || (n == 133)
    || (n == 160)
    || (n == 5760)
    || (leb 8192 n && leb n 8202)
    || (n == 8232)
    || (n == 8233)
    || (n == 8239)
    || (n == 8287)
    || (n == 12288)

lstrip : String → String
unfolding is_space
lstrip String.[] = ""
lstrip (String.◌∷◌ c s) = let rest = lstrip s in if is_space (code c) then rest else String.◌∷◌ c s

rstrip : String → String
unfolding is_space
rstrip String.[] = ""
rstrip (String.◌∷◌ c s) =
    let rest = rstrip s in
    if has_text rest || not (is_space (code c)) then String.◌∷◌ c rest else ""

-- `s.strip()`
unfoldable pub strip : String → String
unfolding lstrip rstrip
strip s = rstrip (lstrip s)

prepend : Char → List String → List String
prepend c [] = String.◌∷◌ c "" ∷ []
prepend c (s ∷ ss) = String.◌∷◌ c s ∷ ss

-- `s.split(d)` at a separator of one character
unfoldable pub split : ℕ → String → List String
unfolding prepend
split d String.[] = "" ∷ []
split d (String.◌∷◌ c s) = let rest = split d s in if code c == d then "" ∷ rest else prepend c rest

-- `s.split(d, 1)` where the separator occurs
unfoldable pub split_once : ℕ → String → Option (String × String)
split_once d String.[] = none
split_once d (String.◌∷◌ c s) =
    let rest = split_once d s in
    if code c == d
    then some ("", s)
    else elim rest [ none ↦ none | some (a, b) ↦ some (String.◌∷◌ c a, b) ]

-- One character of a numeral: digits, with single underscores between them. The flag says whether
-- the character before was a digit.
digit_step : ℕ → Bool → ℕ → Option (ℕ × Bool)
digit_step acc last n =
    if leb 48 n && leb n 57
    then some (acc * 10 + (n - 48), true)
    else if (n == 95) && last
    then some (acc, false)
    else none

digits_from : ℕ → Bool → String → Option ℕ
unfolding digit_step
digits_from acc last String.[] = if last then some acc else none
digits_from acc last (String.◌∷◌ c s) = elim (digit_step acc last (code c)) [
  | none ↦ none
  | some (acc', last') ↦ digits_from acc' last' s
]

negated : Option ℕ → Option ℤ
negated none = none
negated (some zero) = some (pos 0)
negated (some (suc n)) = some (negsuc n)

plain : Option ℕ → Option ℤ
plain none = none
plain (some n) = some (pos n)

signed : String → Option ℤ
unfolding digits_from negated plain
signed String.[] = none
signed (String.◌∷◌ c s) =
    if code c == 45
    then negated (digits_from 0 false s)
    else if code c == 43
    then plain (digits_from 0 false s)
    else plain (digits_from 0 false (String.◌∷◌ c s))

-- `int(s)`; `none` is a `ValueError`
unfoldable pub parse_int : String → Option ℤ
unfolding signed strip
parse_int s = signed (strip s)
