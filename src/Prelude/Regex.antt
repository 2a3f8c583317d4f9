-- ===== src/Prelude/Regex.antt =====
-- What the program uses of the regular expressions of Python's `re`, and texts put together.
use Prim.Native.Char.{Char, code}
use Prim.Native.String.{String, ◌++◌ as append}
use mathlib.Core.Bool.{Bool}
use mathlib.Core.Option.{Option}
use mathlib.Core.List.{List, [], ◌∷◌}
use agentic_netops.Prelude.{
  contains_number, false, has_text, if◌then◌else◌, ltb, not, true, ℕ, ◌&&◌, ◌==◌, ◌||◌,
}

-- `finds p s` is `re.search(p, s) is not None`, and `finds_any_case p s` the same with `re.I`.
-- `found p s` lists the texts that `re.findall(p, s, re.I)` returns, `group p s` is the named group of
-- the first match, and `whole p s` says that `re.fullmatch(p, s)` succeeds.
pub record Regex : Type 0 where
  pub finds : String → String → Bool
  pub finds_any_case : String → String → Bool
  pub found : String → String → List String
  pub group : String → String → Option String
  pub whole : String → String → Bool

-- The parts of an f-string, one after another.
unfoldable pub format : List String → String
format [] = ""
format (s ∷ ss) = append s (format ss)

-- `sep.join(parts)`
unfoldable pub join : String → List String → String
join sep [] = ""
join sep (s ∷ []) = s
join sep (s ∷ t ∷ ss) = append s (append sep (join sep (t ∷ ss)))

unfoldable pub starts_with : String → String → Bool
starts_with String.[] s = true
starts_with (String.◌∷◌ c p) String.[] = false
starts_with (String.◌∷◌ c p) (String.◌∷◌ d s) = (code c == code d) && starts_with p s

-- `p in s`
unfoldable pub is_part : String → String → Bool
unfolding starts_with
is_part p String.[] = starts_with p ""
is_part p (String.◌∷◌ c s) = starts_with p (String.◌∷◌ c s) || is_part p s

-- `any(w in s for w in words)`
unfoldable pub has_any : List String → String → Bool
unfolding is_part
has_any [] s = false
has_any (w ∷ ws) s = is_part w s || has_any ws s

-- `s.replace(a, b)` at characters
unfoldable pub replace : ℕ → Char → String → String
replace a b String.[] = ""
replace a b (String.◌∷◌ c s) = String.◌∷◌ (if code c == a then b else c) (replace a b s)

strip_left : List ℕ → String → String
strip_left cs String.[] = ""
strip_left cs (String.◌∷◌ c s) =
    let rest = strip_left cs s in if contains_number cs (code c) then rest else String.◌∷◌ c s

strip_right : List ℕ → String → String
strip_right cs String.[] = ""
strip_right cs (String.◌∷◌ c s) =
    let rest = strip_right cs s in
    if has_text rest || not (contains_number cs (code c)) then String.◌∷◌ c rest else ""

-- `s.strip(characters)`
unfoldable pub strip_of : List ℕ → String → String
unfolding strip_left strip_right
strip_of cs s = strip_right cs (strip_left cs s)

-- `a <= b` of texts, by their characters
unfoldable pub text_leb : String → String → Bool
text_leb String.[] t = true
text_leb (String.◌∷◌ c s) String.[] = false
text_leb (String.◌∷◌ c s) (String.◌∷◌ d t) =
    ltb (code c) (code d) || ((code c == code d) && text_leb s t)
