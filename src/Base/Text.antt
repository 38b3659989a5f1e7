-- ===== src/Base/Text.antt =====
-- Texts as lists of code points, and the character classes of Python's `re` and `str` that the
-- sources use. `\s` and `isspace` are Python's whole set; `\d`, `\w` and `[A-Za-z]` are the ASCII
-- part of theirs.
use Prim.Native.Char.{code}
use Prim.Native.String.{String}
use Prim.Native.Nat.{ℕ, ◌+◌, ◌-◌, ◌*◌}
use mathlib.Core.Bool.{Bool, true, false, not, ◌&&◌, ◌||◌}
use mathlib.Core.List.{List, [], ◌∷◌, ◌++◌}
use streaming_tts_serving.Base.Tests.{leb, ◌==◌, if◌then◌else◌}

abbrev pub Text : Type 0
Text = List ℕ

abbrev pub codes : String → Text
codes String.[] = []
codes (String.◌∷◌ c s) = code c ∷ codes s

abbrev pub in_range : ℕ → ℕ → ℕ → Bool
in_range lo hi c = leb lo c && leb c hi

unfoldable pub is_digit : ℕ → Bool
is_digit c = in_range b'0' b'9' c

unfoldable pub is_alpha : ℕ → Bool
is_alpha c = in_range b'a' b'z' c || in_range b'A' b'Z' c

unfoldable pub is_word : ℕ → Bool
is_word c = is_digit c || is_alpha c || c == b'_'

unfoldable pub is_space : ℕ → Bool
is_space c =
    in_range 9 13 c
    || in_range 28 32 c
    || c == 133
    || c == 160
    || c == 5760
    || in_range 8192 8202 c
    || c == 8232
    || c == 8233
    || c == 8239
    || c == 8287
    || c == 12288

-- the numeral that a run of digits spells, as `int` reads it
unfoldable pub to_int : ℕ → Text → ℕ
to_int acc [] = acc
to_int acc (c ∷ s) = to_int (acc * 10 + (c - b'0')) s

unfoldable pub take_while : (ℕ → Bool) → Text → Text
take_while p [] = []
take_while p (c ∷ s) = elim (p c) [ true ↦ c ∷ take_while p s | false ↦ [] ]

unfoldable pub drop_while : (ℕ → Bool) → Text → Text
drop_while p [] = []
drop_while p (c ∷ s) = elim (p c) [ true ↦ drop_while p s | false ↦ c ∷ s ]

unfoldable pub keep : (ℕ → Bool) → Text → Text
keep p [] = []
keep p (c ∷ s) = if p c then c ∷ keep p s else keep p s

unfoldable pub rstrip : Text → Text
rstrip [] = []
rstrip (c ∷ s) = elim (rstrip s) [ [] ↦ if is_space c then [] else c ∷ [] | d ∷ r ↦ c ∷ d ∷ r ]

-- `str.strip`
unfoldable pub strip : Text → Text
strip s = rstrip (drop_while is_space s)

-- a text without its white space: what a listener hears of it, whatever the spacing
unfoldable pub solid : Text → Text
solid = keep (λ c. not (is_space c))

unfoldable pub starts_with : Text → Text → Bool
starts_with [] s = true
starts_with (p ∷ ps) [] = false
starts_with (p ∷ ps) (c ∷ s) = p == c && starts_with ps s

unfoldable pub text_eq : Text → Text → Bool
text_eq [] [] = true
text_eq [] (c ∷ s) = false
text_eq (p ∷ ps) [] = false
text_eq (p ∷ ps) (c ∷ s) = p == c && text_eq ps s

-- `sep.join(parts)`
unfoldable pub join : Text → List Text → Text
join sep [] = []
join sep (p ∷ []) = p
join sep (p ∷ q ∷ ps) = p ++ (sep ++ join sep (q ∷ ps))
