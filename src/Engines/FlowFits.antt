-- ===== src/Engines/FlowFits.antt =====
-- The front half of streaming/trt_frontend.py on the flow engine that export/build_trt_frontend.py builds.
use streaming_tts_serving.Base.{ℕ, List, [], ◌∷◌}
use streaming_tts_serving.Base.Text.{Text, codes}
use streaming_tts_serving.Runner.{Shape}

-- the two inputs of the flow engine, for a batch of rows with `n` frames
abbrev pub flow_feeds : ℕ → ℕ → ℕ → List (Text × Shape)
flow_feeds batch ch n =
    (codes "z_p", batch ∷ ch ∷ n ∷ []) ∷ (codes "padding_mask", batch ∷ 1 ∷ n ∷ []) ∷ []
