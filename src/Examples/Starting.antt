-- ===== src/Examples/Starting.antt =====
-- The start of the services and the probes at concrete inputs.
use streaming_tts_serving.Base.{ℕ, ◌*◌, List, [], ◌∷◌, All, arith}
use streaming_tts_serving.Probe.{receptive_field}
use streaming_tts_serving.Probe.Laws.{Within, reached, receptive_field-Within}

abbrev diffs : List (List ℕ)
diffs = (0 ∷ 0 ∷ 5 ∷ 900 ∷ 4000 ∷ 700 ∷ 6 ∷ 3 ∷ 0 ∷ []) ∷ (0 ∷ 0 ∷ 0 ∷ 0 ∷ []) ∷ []

receptive_field-Within_example :
    All (λ diff. Within (2 * 2) (receptive_field 2 2 diffs * 2) (reached diff)) diffs
receptive_field-Within_example = receptive_field-Within 2 2 diffs (omega arith)
