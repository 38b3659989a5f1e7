-- ===== src/TextNorm/Symbols.antt =====
-- The symbol and letter-digit rules of streaming/text_norm.py.
use Prim.Native.String.{String}
use streaming_tts_serving.Base.{
  ℕ, Bool, ◌&&◌, none, some, [], ◌∷◌, ◌==◌, if◌then◌else◌, length, drop,
}
use streaming_tts_serving.Base.Text.{Text, codes, is_digit, is_alpha, is_space, take_while}
use streaming_tts_serving.TextNorm.Scan.{Matcher, sub, opt_is, head_is, skip_space, taken}
use streaming_tts_serving.TextNorm.Rules.{sub_all}

-- `\s?SYMBOL\s?`
unfoldable pub symbol : ℕ → String → Matcher
symbol sign spoken prev s =
    let from = skip_space s in
    if head_is (λ c. c == sign) from
    then some (codes spoken, taken s (skip_space (drop 1 from)))
    else none

-- `(?<=\d)\s?-\s?(?=\d)`
unfoldable pub digit_range : Matcher
digit_range prev s =
    let from = skip_space s in
    let rest = skip_space (drop 1 from) in
    if opt_is is_digit prev && (head_is (λ c. c == b'-') from && head_is is_digit rest)
    then some (codes " to ", taken s rest)
    else none

unfoldable pub expand_symbols_pre : Text → Text
expand_symbols_pre = sub_all (
    symbol b'&' " and "
    ∷ symbol b'+' " plus "
    ∷ symbol b'=' " equals "
    ∷ symbol b'@' " at "
    ∷ digit_range
    ∷ [])

-- `(?<=A)(?=B)`, replaced by a space: an empty match
unfoldable pub between : (ℕ → Bool) → (ℕ → Bool) → Matcher
between p q prev s = if opt_is p prev && head_is q s then some (b' ' ∷ [], 0) else none

unfoldable pub split_alphanumeric : Text → Text
split_alphanumeric s = sub (between is_alpha is_digit) (sub (between is_digit is_alpha) s)

-- `(?<=[a-zA-Z])-(?=[a-zA-Z])`
unfoldable pub hyphen : Matcher
hyphen prev [] = none
hyphen prev (c ∷ s) =
    if opt_is is_alpha prev && (c == b'-' && head_is is_alpha s) then some (b' ' ∷ [], 1) else none

unfoldable pub expand_symbols_post : Text → Text
expand_symbols_post = sub hyphen

-- `_WHITESPACE`
unfoldable pub spaces : Matcher
spaces prev s =
    if head_is is_space s then some (b' ' ∷ [], length (take_while is_space s)) else none

unfoldable pub collapse : Text → Text
collapse = sub spaces
