-- ===== src/TextNorm/Clock.antt =====
-- `_expand_time` and `_expand_dates` of streaming/text_norm.py.
use streaming_tts_serving.Base.{
  ℕ, zero, suc, ◌+◌, true, false, ◌&&◌, Option, none, some, [], ◌∷◌, ◌++◌, leb, ltb, ◌==◌,
  if◌then◌else◌, length, take, drop,
}
use streaming_tts_serving.Base.Text.{Text, codes, is_digit, to_int}
use streaming_tts_serving.TextNorm.Scan.{Matcher, sub, boundary, head_is}
use streaming_tts_serving.TextNorm.Words.{Engine, num_to_words, ordinal_words, expand_year, ◌␣◌}

-- `\d{1,n}`, taken greedily: the digits at the head, at most `n`
unfoldable pub digits_upto : ℕ → Text → Text
digits_upto zero s = []
digits_upto (suc n) [] = []
digits_upto (suc n) (c ∷ s) = elim (is_digit c) [ true ↦ c ∷ digits_upto n s | false ↦ [] ]

-- `repl` of the time pattern; `whole` is `m.group(0)`
unfoldable pub spoken_time : Engine → ℕ → ℕ → Text → Text
spoken_time e h mi whole =
    if leb h 23 && leb mi 59
    then (if mi == 0
        then num_to_words e h ␣ codes "o'clock"
        else if ltb mi 10
        then num_to_words e h ␣ codes "oh" ␣ num_to_words e mi
        else num_to_words e h ␣ num_to_words e mi)
    else whole

-- `:(\d{2})\b` behind the hours `h`, where `s` is the whole text at the match
unfoldable pub minutes_match : Engine → Text → Text → Text → Option (Text × ℕ)
minutes_match e s h [] = none
minutes_match e s h (c ∷ t) =
    let m = digits_upto 2 t in
    if c == b':' && length m == 2 && boundary (some b'0') (drop 2 t)
    then (let n = length h + 3 in some (spoken_time e (to_int 0 h) (to_int 0 m) (take n s), n))
    else none

-- `\b(\d{1,2}):(\d{2})\b`
unfoldable pub time_match : Engine → Matcher
time_match e prev s =
    if boundary prev s && head_is is_digit s
    then (let h = digits_upto 2 s in minutes_match e s h (drop (length h) s))
    else none

unfoldable pub expand_time : Engine → Text → Text
expand_time e = sub (time_match e)

-- `_MONTHS`, for the months that the guard lets through
unfoldable pub month : ℕ → Text
month m =
    if m == 1
    then codes "January"
    else if m == 2
    then codes "February"
    else if m == 3
    then codes "March"
    else if m == 4
    then codes "April"
    else if m == 5
    then codes "May"
    else if m == 6
    then codes "June"
    else if m == 7
    then codes "July"
    else if m == 8
    then codes "August"
    else if m == 9
    then codes "September"
    else if m == 10
    then codes "October"
    else if m == 11
    then codes "November"
    else codes "December"

-- The year of a date, where the pattern found one.
unfoldable pub spoken_year : Engine → Text → Text
spoken_year e [] = []
spoken_year e (c ∷ y) =
    b' ' ∷ expand_year e (if length (c ∷ y) == 4 then to_int 0 (c ∷ y) else 2000 + to_int 0 (c ∷ y))

-- `repl` of the date pattern
unfoldable pub spoken_date : Engine → ℕ → ℕ → Text → Text → Text
spoken_date e mo d y whole =
    if (leb 1 mo && leb mo 12) && (leb 1 d && leb d 31)
    then (month mo ␣ ordinal_words e d) ++ spoken_year e y
    else whole

-- `(?:/(\d{2,4}))?\b`: the year's digits, none or two to four of them, where the pattern matches
unfoldable pub year_match : Text → Option Text
year_match s =
    let y = digits_upto 4 (drop 1 s) in
    if head_is (λ c. c == b'/') s
      && leb 2 (length y)
      && boundary (some b'0') (drop (1 + length y) s)
    then some y
    else if boundary (some b'0') s
    then some []
    else none

-- `/(\d{1,2})(?:/(\d{2,4}))?\b` behind the month `mo`
unfoldable pub day_match : Engine → Text → Text → Text → Option (Text × ℕ)
day_match e s mo [] = none
day_match e s mo (c ∷ t) =
    let d = digits_upto 2 t in
    if c == b'/' && head_is is_digit t
    then elim (year_match (drop (length d) t)) [
      | none ↦ none
      | some y ↦
          let n = length mo + 1 + length d + (if length y == 0 then 0 else length y + 1) in
          some (spoken_date e (to_int 0 mo) (to_int 0 d) y (take n s), n)
    ]
    else none

-- `\b(\d{1,2})/(\d{1,2})(?:/(\d{2,4}))?\b`
unfoldable pub date_match : Engine → Matcher
date_match e prev s =
    if boundary prev s && head_is is_digit s
    then (let mo = digits_upto 2 s in day_match e s mo (drop (length mo) s))
    else none

unfoldable pub expand_dates : Engine → Text → Text
expand_dates e = sub (date_match e)
