-- ===== src/TextNorm.antt =====
-- streaming/text_norm.py: `normalize`, over the rules of the child modules.
pub mod Scan
pub mod Words
pub mod Money
pub mod Clock
pub mod Numbers
pub mod Rules
pub mod Symbols
pub mod Split
pub mod NoDigits
pub mod Tests
use streaming_tts_serving.Base.{ℕ, [], ◌∷◌}
use streaming_tts_serving.Base.Text.{Text, codes, strip}
use streaming_tts_serving.TextNorm.Words.{Engine}
use streaming_tts_serving.TextNorm.Money.{expand_currency}
use streaming_tts_serving.TextNorm.Clock.{expand_dates, expand_time}
use streaming_tts_serving.TextNorm.Numbers.{expand_numbers, expand_ordinals}
use streaming_tts_serving.TextNorm.Rules.{expand_abbreviations, expand_units}
use streaming_tts_serving.TextNorm.Symbols.{
  expand_symbols_pre, expand_symbols_post, split_alphanumeric, collapse,
}

-- The rules that run before `_expand_numbers`, in the order of `normalize`.
unfoldable pub specific_rules : Engine → Text → Text
specific_rules e s =
    let t = expand_abbreviations s in
    let t = expand_currency e t in
    let t = expand_dates e t in
    let t = expand_time e t in
    let t = expand_units t in
    let t = expand_ordinals e t in let t = expand_symbols_pre t in split_alphanumeric t

-- The cache of `normalize` is left out: the function is pure.
unfoldable pub normalize : Engine → Text → Text
normalize e [] = []
normalize e (c ∷ s) =
    let t = specific_rules e (strip (c ∷ s)) in
    let t = expand_numbers e t in let t = expand_symbols_post t in strip (collapse t)
