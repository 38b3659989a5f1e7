-- ===== src/TextNorm/Scan.antt =====
-- `re.sub` of streaming/text_norm.py: a pattern is a matcher, and the scan is Python's, from left to
-- right, at each position outside the last match.
pub mod Laws
use streaming_tts_serving.Base.{
  ℕ, zero, suc, ◌-◌, ◌<◌, ◌≤◌, Bool, true, false, not, Option, none, some, List, [], ◌∷◌, ◌++◌, ltb,
  ◌==◌, if◌then◌else◌, length, drop,
}
use streaming_tts_serving.Base.Text.{
  Text, is_word, is_space, is_digit, take_while, drop_while, starts_with,
}

-- The character before the position, and the text from the position on, give the replacement and
-- the number of characters that the match takes, or no match.
abbrev pub Matcher : Type 0
Matcher = Option ℕ → Text → Option (Text × ℕ)

-- The scan at a position behind `prev`, with `skip` characters of a match still to pass.
unfoldable pub scan : Matcher → Option ℕ → ℕ → Text → Text
scan m prev skip [] = []
scan m prev (suc k) (c ∷ s) = scan m (some c) k s
scan m prev zero (c ∷ s) = elim (m prev (c ∷ s)) [
  | none ↦ c ∷ scan m (some c) zero s
  | some (r, zero) ↦ r ++ (c ∷ scan m (some c) zero s)
  | some (r, suc k) ↦ r ++ scan m (some c) k s
]

-- `re.sub(pattern, repl, text)`
unfoldable pub sub : Matcher → Text → Text
sub m s = scan m none zero s

unfoldable pub opt_word : Option ℕ → Bool
opt_word none = false
opt_word (some c) = is_word c

unfoldable pub opt_is : (ℕ → Bool) → Option ℕ → Bool
opt_is p none = false
opt_is p (some c) = p c

unfoldable pub head_is : (ℕ → Bool) → Text → Bool
head_is p [] = false
head_is p (c ∷ s) = p c

-- `\b` between a character and the text behind it
unfoldable pub boundary : Option ℕ → Text → Bool
boundary prev s = elim (opt_word prev) [
  | true ↦ not (head_is is_word s)
  | false ↦ head_is is_word s
]

-- `\s?`: one space character is taken where there is one
unfoldable pub skip_space : Text → Text
skip_space [] = []
skip_space (c ∷ s) = if is_space c then s else c ∷ s

-- how much of `s` was taken where `rest` is left
unfoldable pub taken : Text → Text → ℕ
taken s rest = length s - length rest
