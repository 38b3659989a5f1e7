-- ===== src/TextNorm/Money.antt =====
-- `_expand_currency` of streaming/text_norm.py.
use streaming_tts_serving.Base.{
  ℕ, ◌-◌, Bool, not, ◌||◌, Option, none, some, List, [], ◌∷◌, ◌++◌, ◌==◌, if◌then◌else◌, length,
  take, replicate,
}
use streaming_tts_serving.Base.Text.{
  Text, codes, is_digit, take_while, drop_while, keep, to_int, join,
}
use streaming_tts_serving.TextNorm.Scan.{Matcher, sub, head_is, skip_space, taken}
use streaming_tts_serving.TextNorm.Words.{Engine, num_to_words, ◌␣◌}

pub record Names : Type 0 where
  pub one : Text
  pub many : Text
  pub sub_one : Text
  pub sub_many : Text

-- `_CURRENCY`, by the code points of `$`, `£` and `€`
unfoldable pub currency : ℕ → Option Names
currency c =
    if c == b'$'
    then some (record {
      one = codes "dollar";
      many = codes "dollars";
      sub_one = codes "cent";
      sub_many = codes "cents";
    })
    else if c == 163
    then some (record {
      one = codes "pound";
      many = codes "pounds";
      sub_one = codes "penny";
      sub_many = codes "pence";
    })
    else if c == 8364
    then some (record {
      one = codes "euro";
      many = codes "euros";
      sub_one = codes "cent";
      sub_many = codes "cents";
    })
    else none

-- `x.replace(",", "")`
unfoldable pub drop_commas : Text → Text
drop_commas = keep (λ c. not (c == b','))

-- `int(frac.ljust(2, "0")[:2])`
unfoldable pub cents : Text → ℕ
cents frac = to_int 0 (take 2 (frac ++ replicate (2 - length frac) b'0'))

-- The second part of the replacement; a missing fraction is the empty text.
unfoldable pub cents_part : Engine → Names → Text → List Text
cents_part e names [] = []
cents_part e names (d ∷ ds) =
    let c = cents (d ∷ ds) in
    if c == 0
    then []
    else (codes "and" ␣ num_to_words e c ␣ (if c == 1 then names.sub_one else names.sub_many)) ∷ []

-- `repl`, of the groups
unfoldable pub spoken_amount : Engine → Names → Text → Text → Text
spoken_amount e names whole frac =
    let w = to_int 0 (drop_commas whole) in
    join (b' ' ∷ [])
      ((num_to_words e w ␣ (if w == 1 then names.one else names.many)) ∷ cents_part e names frac)

unfoldable pub is_digit_or_comma : ℕ → Bool
is_digit_or_comma c = is_digit c || c == b','

-- `(?:\.(\d{1,2}))?`: the digits of the fraction, and the text behind it
unfoldable pub fraction : Text → Text × Text
fraction [] = ([], [])
fraction (c ∷ []) = ([], c ∷ [])
fraction (c ∷ d ∷ []) =
    if c == b'.' then (if is_digit d then (d ∷ [], []) else ([], c ∷ d ∷ [])) else ([], c ∷ d ∷ [])
fraction (c ∷ d ∷ d' ∷ s) =
    if c == b'.'
    then (if is_digit d
        then (if is_digit d' then (d ∷ d' ∷ [], s) else (d ∷ [], d' ∷ s))
        else ([], c ∷ d ∷ d' ∷ s))
    else ([], c ∷ d ∷ d' ∷ s)

unfoldable pub amount_match : Engine → Names → Text → Option (Text × Text)
amount_match e names s =
    if head_is is_digit s
    then (let (frac, rest) = fraction (drop_while is_digit_or_comma s) in
        some (spoken_amount e names (take_while is_digit_or_comma s) frac, rest))
    else none

-- `([$£€])\s?(\d[\d,]*)(?:\.(\d{1,2}))?`
unfoldable pub currency_match : Engine → Matcher
currency_match e prev [] = none
currency_match e prev (c ∷ s) = elim (currency c) [
  | none ↦ none
  | some names ↦ elim (amount_match e names (skip_space s)) [
    | none ↦ none
    | some (r, rest) ↦ some (r, taken (c ∷ s) rest)
  ]
]

unfoldable pub expand_currency : Engine → Text → Text
expand_currency e = sub (currency_match e)
