-- ===== src/TextNorm/Words.antt =====
-- The word engine `inflect`, and the number words of streaming/text_norm.py.
use streaming_tts_serving.Base.{
  ℕ, zero, suc, ◌+◌, ◌/◌, ◌%◌, Bool, ◌&&◌, ◌||◌, Option, none, some, [], ◌∷◌, ◌++◌, map, leb, ◌==◌,
  if◌then◌else◌,
}
use streaming_tts_serving.Base.Text.{Text, codes}

-- What the module calls of the third-party package: `number_to_words` of a number with an empty
-- `andword`, `ordinal`, and `number_to_words` of an ordinal's text.
pub record Inflect : Type 0 where
  pub number_to_words : ℕ → Text
  pub ordinal : ℕ → Text
  pub text_to_words : Text → Text

-- `_INFLECT`: the engine, or nothing where the package is missing
abbrev pub Engine : Type 0
Engine = Option Inflect

-- `str(n)`, with fuel for its digits
unfoldable pub digits : ℕ → ℕ → Text → Text
digits zero n out = out
digits (suc f) n out =
    let out' = (b'0' + n % 10) ∷ out in
    let rest = digits f (n / 10) out' in if n / 10 == 0 then out' else rest

unfoldable pub decimal : ℕ → Text
decimal n = digits (suc n) n []

unfoldable pub despan : Text → Text
despan = map (λ c. if c == b'-' then b' ' else c)

unfoldable pub num_to_words : Engine → ℕ → Text
num_to_words none n = decimal n
num_to_words (some e) n = despan (e.number_to_words n)

unfoldable pub ordinal_words : Engine → ℕ → Text
ordinal_words none n = decimal n
ordinal_words (some e) n = despan (e.text_to_words (e.ordinal n))

-- Two words with a space between them.
infixr 66 ◌␣◌
abbrev pub ◌␣◌ : Text → Text → Text
a ␣ b = a ++ (b' ' ∷ b)

unfoldable pub read_in_pairs : ℕ → Bool
read_in_pairs y = (leb 1100 y && leb y 1999) || (leb 2010 y && leb y 2099)

unfoldable pub expand_year : Engine → ℕ → Text
expand_year e y =
    if read_in_pairs y
    then (if y % 100 == 0
        then num_to_words e (y / 100) ␣ codes "hundred"
        else num_to_words e (y / 100) ␣ num_to_words e (y % 100))
    else num_to_words e y
