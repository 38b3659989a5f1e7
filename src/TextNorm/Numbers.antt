-- ===== src/TextNorm/Numbers.antt =====
-- `_expand_numbers` and `_expand_ordinals` of streaming/text_norm.py.
use streaming_tts_serving.Base.{
  ℕ, ◌+◌, Bool, true, false, ◌&&◌, none, some, [], ◌∷◌, ◌++◌, map, leb, ltb, ◌==◌, if◌then◌else◌,
  length, take, drop,
}
use streaming_tts_serving.Base.Text.{
  Text, codes, is_digit, take_while, drop_while, to_int, join, starts_with,
}
use streaming_tts_serving.TextNorm.Scan.{Matcher, sub, boundary, head_is, taken}
use streaming_tts_serving.TextNorm.Words.{Engine, num_to_words, ordinal_words, expand_year}
use streaming_tts_serving.TextNorm.Money.{drop_commas, is_digit_or_comma}

-- `" ".join(_num_to_words(int(d)) for d in s)`
unfoldable pub digit_by_digit : Engine → Text → Text
digit_by_digit e s = join (b' ' ∷ []) (map (λ d. num_to_words e (to_int 0 (d ∷ []))) s)

-- A numeral with a point: `whole` is `raw` up to it, `frac` is behind it.
unfoldable pub spoken_decimal : Engine → Text → Text → Text
spoken_decimal e whole frac =
    (elim whole [ [] ↦ codes "zero" | c ∷ s ↦ num_to_words e (to_int 0 (c ∷ s)) ])
    ++ (codes " point " ++ digit_by_digit e frac)

-- A numeral with no point.
unfoldable pub spoken_whole : Engine → Text → Text
spoken_whole e raw =
    let n = to_int 0 raw in
    if ltb 1 (length raw) && head_is (λ c. c == b'0') raw
    then digit_by_digit e raw
    else if (leb 1100 n && leb n 2099) && length raw == 4
    then expand_year e n
    else num_to_words e n

unfoldable pub not_point : ℕ → Bool
not_point c = elim (c == b'.') [ true ↦ false | false ↦ true ]

-- `repl`, of `m.group(0)`
unfoldable pub spoken_number : Engine → Text → Text
spoken_number e group =
    let raw = drop_commas group in
    let whole = take_while not_point raw in
    elim (drop_while not_point raw) [
      | [] ↦ spoken_whole e raw
      | c ∷ frac ↦ spoken_decimal e whole frac
    ]

-- `(?:\.\d+)?`: what is left behind it
unfoldable pub skip_fraction : Text → Text
skip_fraction [] = []
skip_fraction (c ∷ s) = if c == b'.' && head_is is_digit s then drop_while is_digit s else c ∷ s

-- `\d[\d,]*(?:\.\d+)?`
unfoldable pub number_match : Engine → Matcher
number_match e prev s =
    if head_is is_digit s
    then (let n = taken s (skip_fraction (drop_while is_digit_or_comma s)) in
        some (spoken_number e (take n s), n))
    else none

unfoldable pub expand_numbers : Engine → Text → Text
expand_numbers e = sub (number_match e)

unfoldable pub ordinal_suffix : Text → Bool
ordinal_suffix s = elim (starts_with (codes "st") s) [
  | true ↦ true
  | false ↦ elim (starts_with (codes "nd") s) [
    | true ↦ true
    | false ↦ elim (starts_with (codes "rd") s) [ true ↦ true | false ↦ starts_with (codes "th") s ]
  ]
]

-- `\b(\d+)(st|nd|rd|th)\b`
unfoldable pub ordinal_match : Engine → Matcher
ordinal_match e prev s =
    let rest = drop_while is_digit s in
    if (boundary prev s && head_is is_digit s)
      && (ordinal_suffix rest && boundary (some b't') (drop 2 rest))
    then some
        (ordinal_words e (to_int 0 (take_while is_digit s)), length (take_while is_digit s) + 2)
    else none

unfoldable pub expand_ordinals : Engine → Text → Text
expand_ordinals e = sub (ordinal_match e)
