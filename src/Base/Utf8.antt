-- ===== src/Base/Utf8.antt =====
-- `str.encode("utf-8")` and the strict `bytes.decode("utf-8")`.
use streaming_tts_serving.Base.{
  ℕ, ◌+◌, ◌-◌, ◌*◌, ◌/◌, ◌%◌, ◌≤◌, ◌<◌, ◌≡◌, ◌⊎◌, refl, ap, ◌∙◌, ◌==◌, Bool, ◌&&◌, ◌||◌, Option,
  none, some, List, [], ◌∷◌, ◌++◌, All, ltb, leb, if◌then◌else◌, arith,
}
use streaming_tts_serving.Base.Text.{Text}

unfoldable pub encode_char : ℕ → List ℕ
encode_char c =
    if ltb c 128
    then c ∷ []
    else if ltb c 2048
    then (192 + c / 64) ∷ (128 + c % 64) ∷ []
    else if ltb c 65536
    then (224 + c / 4096) ∷ (128 + c / 64 % 64) ∷ (128 + c % 64) ∷ []
    else (240 + c / 262144) ∷ (128 + c / 4096 % 64) ∷ (128 + c / 64 % 64) ∷ (128 + c % 64) ∷ []

unfoldable pub encode : Text → List ℕ
encode [] = []
encode (c ∷ s) = encode_char c ++ encode s

-- A decoder in the midst of a character: the bytes still wanted, the bits so far and the least
-- number that a character of this length may have.
pub record State : Type 0 where
  pub wanted : ℕ
  pub bits : ℕ
  pub least : ℕ

abbrev pub ready : State
ready = record { wanted = 0; bits = 0; least = 0 }

-- Overlong forms, surrogates and numbers past the last code point are errors, as in Python.
unfoldable pub is_allowed : ℕ → ℕ → Bool
is_allowed least c = leb least c && (ltb c 55296 || leb 57344 c) && ltb c 1114112

-- the next state, and the character that the byte completes
unfoldable pub lead : ℕ → Option (State × Option ℕ)
lead b =
    if ltb b 128
    then some (ready, some b)
    else if ltb b 194
    then none
    else if ltb b 224
    then some (record { wanted = 1; bits = b - 192; least = 128 }, none)
    else if ltb b 240
    then some (record { wanted = 2; bits = b - 224; least = 2048 }, none)
    else if ltb b 245
    then some (record { wanted = 3; bits = b - 240; least = 65536 }, none)
    else none

unfoldable pub trail : State → ℕ → Option (State × Option ℕ)
trail st b =
    let c = st.bits * 64 + (b - 128) in
    if leb 128 b && leb b 191
    then (if st.wanted == 1
        then (if is_allowed st.least c then some (ready, some c) else none)
        else some (record st { wanted = st.wanted - 1; bits = c }, none))
    else none

unfoldable pub put : Option ℕ → Option Text → Option Text
put none r = r
put (some c) none = none
put (some c) (some s) = some (c ∷ s)

unfoldable pub decode_from : State → List ℕ → Option Text
decode_from st [] = if st.wanted == 0 then some [] else none
decode_from st (b ∷ s) = elim (if st.wanted == 0 then lead b else trail st b) [
  | none ↦ none
  | some (st', out) ↦ put out (decode_from st' s)
]

unfoldable pub decode : List ℕ → Option Text
decode = decode_from ready

-- a code point that is no surrogate
abbrev pub IsScalar : ℕ → Type 0
IsScalar c = (c < 1114112) × ((c < 55296) ⊎ (57344 ≤ c))

decode-encode_char :
    (c : ℕ) (s : List ℕ)
    → IsScalar c
    → decode_from ready (encode_char c ++ s) ≡ put (some c) (decode_from ready s)
unfolding decode_from encode_char lead trail is_allowed put
decode-encode_char c s h = ground arith

-- Decoding undoes encoding, for each text of code points that are no surrogates.
pub decode-encode : (s : Text) → All IsScalar s → decode (encode s) ≡ some s
unfolding decode encode put
decode-encode [] h = unfold decode_from in refl
decode-encode (c ∷ s) (hc, h) =
    decode-encode_char c (encode s) hc ∙ ap (put (some c)) (decode-encode s h)
