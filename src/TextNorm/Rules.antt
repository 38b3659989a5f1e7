-- ===== src/TextNorm/Rules.antt =====
-- `_ABBREVIATIONS` and `_UNITS` of streaming/text_norm.py, and the functions that apply them.
use Prim.Native.String.{String}
use streaming_tts_serving.Base.{
  ℕ, Bool, true, false, not, ◌&&◌, Option, none, some, List, [], ◌∷◌, ◌++◌, map, ◌==◌,
  if◌then◌else◌, length, take, drop,
}
use streaming_tts_serving.Base.Text.{Text, codes, is_digit, drop_while, starts_with}
use streaming_tts_serving.TextNorm.Scan.{
  Matcher, sub, boundary, opt_word, head_is, skip_space, taken,
}
use streaming_tts_serving.TextNorm.Numbers.{skip_fraction}

-- `for pat, rep in …: text = re.sub(pat, rep, text)`
unfoldable pub sub_all : List Matcher → Text → Text
sub_all [] s = s
sub_all (m ∷ ms) s = sub_all ms (sub m s)

-- `\b` and a literal that begins with a letter and ends with a point
unfoldable pub literal : String → String → Matcher
literal lit spoken prev s =
    if not (opt_word prev) && starts_with (codes lit) s
    then some (codes spoken, length (codes lit))
    else none

-- `\bvs\.?\b`: the point is taken only where a word goes on behind it
unfoldable pub versus : Matcher
versus prev s =
    if not (opt_word prev) && starts_with (codes "vs") s
    then (if head_is (λ c. c == b'.') (drop 2 s) && boundary (some b'.') (drop 3 s)
        then some (codes "versus", 3)
        else if boundary (some b's') (drop 2 s)
        then some (codes "versus", 2)
        else none)
    else none

unfoldable pub abbreviations : List Matcher
abbreviations =
    literal "Mr." "Mister"
    ∷ literal "Mrs." "Missus"
    ∷ literal "Ms." "Miss"
    ∷ literal "Dr." "Doctor"
    ∷ literal "Prof." "Professor"
    ∷ literal "St." "Saint"
    ∷ literal "Jr." "Junior"
    ∷ literal "Sr." "Senior"
    ∷ versus
    ∷ literal "etc." "etcetera"
    ∷ literal "e.g." "for example"
    ∷ literal "i.e." "that is"
    ∷ literal "approx." "approximately"
    ∷ literal "apt." "apartment"
    ∷ literal "ave." "avenue"
    ∷ literal "blvd." "boulevard"
    ∷ literal "min." "minutes"
    ∷ literal "hr." "hours"
    ∷ literal "No." "number"
    ∷ []

unfoldable pub expand_abbreviations : Text → Text
expand_abbreviations = sub_all abbreviations

-- The unit of a pattern of `_UNITS`: its text, a letter that may follow it, whether `\b` stands
-- behind it, and the spoken words.
pub record Measure : Type 0 where
  pub symbol : Text
  pub plural : Option ℕ
  pub bounded : Bool
  pub spoken : Text

abbrev measure : Text → String → Measure
measure symbol spoken = record {
  symbol = symbol;
  plural = none;
  bounded = true;
  spoken = codes spoken;
}

unfoldable pub measures : List Measure
measures =
    measure (codes "km") "kilometers"
    ∷ measure (codes "cm") "centimeters"
    ∷ measure (codes "mm") "millimeters"
    ∷ measure (codes "kg") "kilograms"
    ∷ record { symbol = codes "lb"; plural = some b's'; bounded = true; spoken = codes "pounds" }
    ∷ measure (codes "ft") "feet"
    ∷ measure (codes "mph") "miles per hour"
    ∷ record { symbol = codes "%"; plural = none; bounded = false; spoken = codes "percent" }
    ∷ measure (176 ∷ codes "C") "degrees Celsius"
    ∷ measure (176 ∷ codes "F") "degrees Fahrenheit"
    ∷ []

-- the optional letter, taken greedily: without it `\b` fails, for the letter goes on
unfoldable pub skip_plural : Option ℕ → Text → Text
skip_plural none s = s
skip_plural (some p) [] = []
skip_plural (some p) (c ∷ s) = if c == p then s else c ∷ s

-- the unit and what stands behind it
unfoldable pub measure_match : Measure → Text → Option Text
measure_match u s =
    let rest = skip_plural u.plural (drop (length u.symbol) s) in
    if starts_with u.symbol s && (if u.bounded then boundary (some b'a') rest else true)
    then some rest
    else none

-- `\b(\d+(?:\.\d+)?)\s?UNIT\b`, replaced by `\1 UNITS`
unfoldable pub unit_match : Measure → Matcher
unit_match u prev s =
    if boundary prev s && head_is is_digit s
    then (let behind = skip_fraction (drop_while is_digit s) in
        elim (measure_match u (skip_space behind)) [
          | none ↦ none
          | some rest ↦ some (take (taken s behind) s ++ (b' ' ∷ u.spoken), taken s rest)
        ])
    else none

unfoldable pub expand_units : Text → Text
expand_units = sub_all (map unit_match measures)
