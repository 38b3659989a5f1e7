-- ===== src/TextNorm/Tests.antt =====
-- The cases of tests/test_text_norm.py that the model evaluates, with a small word engine.
use streaming_tts_serving.Base.{ℕ, ◌∷◌, [], none, some, ◌≡◌, refl, ◌==◌, if◌then◌else◌}
use streaming_tts_serving.Base.Text.{
  Text, codes, is_digit, is_alpha, is_word, is_space, to_int, take_while, drop_while, keep, rstrip,
  strip, solid, starts_with, text_eq, join,
}
use streaming_tts_serving.TextNorm.Scan.{
  scan, sub, opt_word, opt_is, head_is, boundary, skip_space, taken,
}
use streaming_tts_serving.TextNorm.Words.{
  Engine, digits, decimal, despan, num_to_words, ordinal_words, read_in_pairs, expand_year,
}
use streaming_tts_serving.TextNorm.Money.{
  currency, drop_commas, cents, cents_part, spoken_amount, is_digit_or_comma, fraction,
  amount_match, currency_match, expand_currency,
}
use streaming_tts_serving.TextNorm.Clock.{
  digits_upto, spoken_time, minutes_match, time_match, expand_time, month, spoken_year, spoken_date,
  year_match, day_match, date_match, expand_dates,
}
use streaming_tts_serving.TextNorm.Numbers.{
  digit_by_digit, spoken_decimal, spoken_whole, not_point, spoken_number, skip_fraction,
  number_match, expand_numbers, ordinal_suffix, ordinal_match, expand_ordinals,
}
use streaming_tts_serving.TextNorm.Rules.{
  sub_all, literal, versus, abbreviations, expand_abbreviations, measures, skip_plural,
  measure_match, unit_match, expand_units,
}
use streaming_tts_serving.TextNorm.Symbols.{
  symbol, digit_range, expand_symbols_pre, between, split_alphanumeric, hyphen, expand_symbols_post,
  spaces, collapse,
}
use streaming_tts_serving.TextNorm.Split.{
  ends_clause, separates, pieces, stripped, merge, merge_short, split_for_streaming,
}
use streaming_tts_serving.TextNorm.{specific_rules, normalize}

abbrev small_words : ℕ → Text
small_words n =
    if n == 0
    then codes "zero"
    else if n == 1
    then codes "one"
    else if n == 3
    then codes "three"
    else if n == 5
    then codes "five"
    else if n == 14
    then codes "fourteen"
    else if n == 20
    then codes "twenty"
    else if n == 26
    then codes "twenty-six"
    else if n == 45
    then codes "forty-five"
    else if n == 50
    then codes "fifty"
    else if n == 11
    then codes "eleven"
    else codes "many"

abbrev engine : Engine
engine = some (record {
  number_to_words = small_words;
  ordinal = λ n. (b'0' ∷ []);
  text_to_words = λ t. codes "fourteenth";
})

-- What the cases compute with.
unfoldable pub program : Unit {0}
unfolding is_digit is_alpha is_word is_space to_int take_while drop_while keep rstrip strip solid
    starts_with text_eq join scan sub opt_word opt_is head_is boundary skip_space taken digits
    decimal despan num_to_words ordinal_words read_in_pairs expand_year currency drop_commas cents
    cents_part spoken_amount is_digit_or_comma fraction amount_match currency_match expand_currency
    digits_upto spoken_time minutes_match time_match expand_time month spoken_year spoken_date
    year_match day_match date_match expand_dates digit_by_digit spoken_decimal spoken_whole
    not_point spoken_number skip_fraction number_match expand_numbers ordinal_suffix ordinal_match
    expand_ordinals sub_all literal versus abbreviations expand_abbreviations measures skip_plural
    measure_match unit_match expand_units symbol digit_range expand_symbols_pre between
    split_alphanumeric hyphen expand_symbols_post spaces collapse ends_clause separates pieces
    stripped merge merge_short split_for_streaming specific_rules normalize
program = tt

money : normalize engine (codes "$3.5") ≡ codes "three dollars and fifty cents"
unfolding program
money = refl

clock : normalize engine (codes "at 11:45") ≡ codes "at eleven forty five"
unfolding program
clock = refl

date : normalize engine (codes "3/14/2026") ≡ codes "March fourteenth twenty twenty six"
unfolding program
date = refl

names : normalize engine (codes "Mr. and Mrs. Smith") ≡ codes "Mister and Missus Smith"
unfolding program
names = refl

unit : normalize engine (codes "5.5 km") ≡ codes "five point five kilometers"
unfolding program
unit = refl

glued : normalize engine (codes "apt. 3B") ≡ codes "apartment three B"
unfolding program
glued = refl

range : normalize engine (codes "R&D 5-11") ≡ codes "R and D five to eleven"
unfolding program
range = refl

-- Without the engine the digits of the amount are read once more, as a year.
fallback : normalize none (codes "$1,247.50") ≡ codes "12 47 dollars and 50 cents"
unfolding program
fallback = refl
