-- ===== src/TextNorm/NoDigits.antt =====
-- No digit is left in a normalized text.
use streaming_tts_serving.Base.{
  ℕ, ◌<◌, ◌≤◌, ◌≡◌, refl, false, Option, some, [], ◌∷◌, ◌++◌, All, All-append, length, take, arith,
  Bool-cases, if_both, inl, inr,
}
use streaming_tts_serving.Base.Text.{Text, codes, is_digit, take_while, drop_while, join, strip}
use streaming_tts_serving.Base.TextLaws.{length-drop_while-le, strip-All}
use streaming_tts_serving.TextNorm.Scan.{head_is, taken}
use streaming_tts_serving.TextNorm.Scan.Laws.{Writes, sub-All, sub_kept-All}
use streaming_tts_serving.TextNorm.Words.{Inflect, Engine, num_to_words, despan, expand_year, ◌␣◌}
use streaming_tts_serving.TextNorm.Money.{is_digit_or_comma, drop_commas}
use streaming_tts_serving.TextNorm.Numbers.{
  digit_by_digit, spoken_decimal, spoken_whole, spoken_number, skip_fraction, not_point,
  number_match, expand_numbers,
}
use streaming_tts_serving.TextNorm.Symbols.{hyphen, expand_symbols_post, spaces, collapse}
use streaming_tts_serving.TextNorm.{normalize, specific_rules}

pub record NoDigits (s : Text) : Type 0 where
  pub free : All (λ c. is_digit c ≡ false) s

-- The word engine writes numbers in words.
pub record Wordy (i : Inflect) : Type 0 where
  pub words : (n : ℕ) → NoDigits (i.number_to_words n)

append-NoDigits : (a b : Text) → NoDigits a → NoDigits b → NoDigits (a ++ b)
append-NoDigits a b ha hb = record { free = All-append _ a b ha.free hb.free }

cons-NoDigits : (c : ℕ) (s : Text) → is_digit c ≡ false → NoDigits s → NoDigits (c ∷ s)
cons-NoDigits c s hc h = record { free = (hc, h.free) }

nil-NoDigits : NoDigits []
nil-NoDigits = record { free = tt }

literal-NoDigits : NoDigits (codes "hundred") × NoDigits (codes "zero") × NoDigits (codes " point ")
unfolding is_digit
literal-NoDigits = (
  record { free = (refl, (refl, (refl, (refl, (refl, (refl, (refl, tt))))))) },
  record { free = (refl, (refl, (refl, (refl, tt)))) },
  record { free = (refl, (refl, (refl, (refl, (refl, (refl, (refl, tt))))))) },
)

despan-NoDigits : (s : Text) → NoDigits s → NoDigits (despan s)
unfolding despan is_digit
despan-NoDigits [] h = h
despan-NoDigits (c ∷ s) h =
    cons-NoDigits _ _ (ground (arith, h.free.0)) (despan-NoDigits s (record { free = h.free.1 }))

space-NoDigits : (a b : Text) → NoDigits a → NoDigits b → NoDigits (a ␣ b)
unfolding is_digit
space-NoDigits a b ha hb = append-NoDigits a (b' ' ∷ b) ha (cons-NoDigits b' ' b refl hb)

module _ (i : Inflect) (wordy : Wordy i) where
  abbrev e : Engine
  e = some i

  num_to_words-NoDigits : (n : ℕ) → NoDigits (num_to_words e n)
  unfolding num_to_words
  num_to_words-NoDigits n = despan-NoDigits _ (wordy.words n)

  expand_year-NoDigits : (y : ℕ) → NoDigits (expand_year e y)
  unfolding expand_year
  expand_year-NoDigits y =
      if_both NoDigits _ _ _
        (if_both NoDigits _ _ _
          (space-NoDigits _ (codes "hundred") (num_to_words-NoDigits _) literal-NoDigits.0)
          (space-NoDigits _ _ (num_to_words-NoDigits _) (num_to_words-NoDigits _)))
        (num_to_words-NoDigits y)

  digit_by_digit-NoDigits : (s : Text) → NoDigits (digit_by_digit e s)
  unfolding digit_by_digit join is_digit
  digit_by_digit-NoDigits [] = nil-NoDigits
  digit_by_digit-NoDigits (c ∷ []) = num_to_words-NoDigits _
  digit_by_digit-NoDigits (c ∷ d ∷ s) =
      append-NoDigits _ _ (num_to_words-NoDigits _)
        (cons-NoDigits b' ' _ refl (digit_by_digit-NoDigits (d ∷ s)))

  spoken_decimal-NoDigits : (whole frac : Text) → NoDigits (spoken_decimal e whole frac)
  unfolding spoken_decimal
  spoken_decimal-NoDigits [] frac =
      append-NoDigits (codes "zero") _ literal-NoDigits.1
        (append-NoDigits (codes " point ") _ literal-NoDigits.2 (digit_by_digit-NoDigits frac))
  spoken_decimal-NoDigits (c ∷ s) frac =
      append-NoDigits _ _ (num_to_words-NoDigits _)
        (append-NoDigits (codes " point ") _ literal-NoDigits.2 (digit_by_digit-NoDigits frac))

  spoken_whole-NoDigits : (raw : Text) → NoDigits (spoken_whole e raw)
  unfolding spoken_whole
  spoken_whole-NoDigits raw =
      if_both NoDigits _ _ _ (digit_by_digit-NoDigits raw)
        (if_both NoDigits _ _ _ (expand_year-NoDigits _) (num_to_words-NoDigits _))

  spoken_number-NoDigits : (group : Text) → NoDigits (spoken_number e group)
  unfolding spoken_number
  spoken_number-NoDigits group =
      go (take_while not_point (drop_commas group)) (drop_while not_point (drop_commas group))
    where
      go :
          (whole rest : Text)
          → NoDigits (elim rest [
            | [] ↦ spoken_whole e (drop_commas group)
            | c ∷ frac ↦ spoken_decimal e whole frac
          ])
      go whole [] = spoken_whole-NoDigits _
      go whole (c ∷ frac) = spoken_decimal-NoDigits whole frac

  length-skip_fraction-le : (s : Text) → length (skip_fraction s) ≤ length s
  unfolding skip_fraction
  length-skip_fraction-le [] = omega arith
  length-skip_fraction-le (c ∷ s) = ground (arith, length-drop_while-le is_digit s)

  number_match-pos :
      (prev : Option ℕ) (c : ℕ) (s r : Text) {n : ℕ}
      → number_match e prev (c ∷ s) ≡ some (r, n)
      → 0 < n
  unfolding number_match head_is taken is_digit_or_comma drop_while
  number_match-pos prev c s r h = ground (
    arith,
    length-drop_while-le is_digit_or_comma s,
    length-skip_fraction-le (drop_while is_digit_or_comma s),
  )

  number_match_inv :
      (prev : Option ℕ) (s r : Text) (n : ℕ)
      → number_match e prev s ≡ some (r, n)
      → (r ≡ spoken_number e (take n s))
        × (n ≡ taken s (skip_fraction (drop_while is_digit_or_comma s)))
  unfolding number_match head_is
  number_match_inv prev [] r n h = cc
  number_match_inv prev (c ∷ s) r n h = elim (Bool-cases (is_digit c)) [
    | inl d ↦ ground arith
    | inr d ↦ ground arith
  ]

  -- A match of the number pattern takes at least the digit at its head.
  number_match-Writes : Writes (λ c. is_digit c ≡ false) (number_match e)
  unfolding number_match head_is
  number_match-Writes = record {
    hit = λ prev s r n h.
        rw (number_match_inv prev s r n h).0 (spoken_number-NoDigits (take n s)).free;
    miss = λ prev c s h. ground arith;
    empty = λ prev c s r h. absurd (omega (arith, number_match-pos prev c s r h));
  }

  pub expand_numbers-NoDigits : (s : Text) → NoDigits (expand_numbers e s)
  unfolding expand_numbers
  expand_numbers-NoDigits s = record { free = sub-All _ (number_match e) number_match-Writes s }

hyphen-NoDigits : (s : Text) → NoDigits s → NoDigits (expand_symbols_post s)
unfolding expand_symbols_post hyphen is_digit
hyphen-NoDigits s h = record { free = sub_kept-All _ hyphen hit s h.free }
  where
    hit :
        (prev : Option ℕ) (t r : Text) (n : ℕ)
        → hyphen prev t ≡ some (r, n)
        → All (λ c. is_digit c ≡ false) r
    hit prev [] r n e = cc
    hit prev (c ∷ t) r n e = ground arith

collapse-NoDigits : (s : Text) → NoDigits s → NoDigits (collapse s)
unfolding collapse spaces is_digit
collapse-NoDigits s h = record { free = sub_kept-All _ spaces hit s h.free }
  where
    hit :
        (prev : Option ℕ) (t r : Text) (n : ℕ)
        → spaces prev t ≡ some (r, n)
        → All (λ c. is_digit c ≡ false) r
    hit prev t r n e = ground arith

-- With a word engine that writes numbers in words, no text normalizes to one that holds a digit:
-- each digit that the specific rules leave is taken by the rule for bare numbers.
pub normalize-NoDigits : (i : Inflect) (s : Text) → Wordy i → NoDigits (normalize (some i) s)
unfolding normalize
normalize-NoDigits i [] w = nil-NoDigits
normalize-NoDigits i (c ∷ s) w = record {
  free =
      strip-All _ _
        (collapse-NoDigits _ (
          hyphen-NoDigits _
            (expand_numbers-NoDigits i w (specific_rules (some i) (strip (c ∷ s)))))).free;
}
