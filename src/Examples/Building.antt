-- ===== src/Examples/Building.antt =====
-- The engine builds and their use at concrete inputs.
use streaming_tts_serving.Base.{
  ℕ, ◌+◌, ◌*◌, ◌≡◌, ◌⊎◌, refl, none, some, List, [], ◌∷◌, All, max, length, arith,
}
use streaming_tts_serving.Base.Text.{Text, codes, text_eq}
use streaming_tts_serving.Base.Result.{ok, raise}
use streaming_tts_serving.Alignment.{Token, batch_frames, flow_input}
use streaming_tts_serving.Alignment.Alone.{own_rows, flow_input-own}
use streaming_tts_serving.Chunked.{Geometry, geometry, hop_length, round, derive, chunk_bounds}
use streaming_tts_serving.Chunked.Bounds.{IsValid}
use streaming_tts_serving.Engines.{
  Builder, Info, Job, lookup, make_plan, build_engine, ensure, build_all, trt_jobs, dec_profile,
  enc_profile, job, builder_config,
}
use streaming_tts_serving.Engines.Build.{Source, build_all-Built}
use streaming_tts_serving.Engines.Rebuild.{build_all-again}
use streaming_tts_serving.Engines.Fits.{decode_call, decoder_shape, expected, chunk_bounds-profile}
use streaming_tts_serving.Examples.Chunks.{mms, defaults}
use streaming_tts_serving.Examples.Serving.{sums, tokens, flow}

-- A plan is the number of inputs of its profile here.
abbrev builder : Builder ℕ
builder = record {
  Network = List ℕ;
  parse = λ bytes. ok bytes;
  build_serialized_network = λ network config. some (length config.profile);
  seconds = λ network. length network;
  st_size = λ plan. plan;
}

abbrev broken : Builder ℕ
broken = record {
  Network = List ℕ;
  parse = λ bytes. raise (codes "bad" ∷ []);
  build_serialized_network = λ network config. none;
  seconds = λ network. 0;
  st_size = λ plan. plan;
}

abbrev onnx_dir : List (Text × List ℕ)
onnx_dir = (codes "vits_decoder.onnx", 1 ∷ 2 ∷ []) ∷ (codes "vits_encoder.onnx", 3 ∷ []) ∷ []

abbrev jobs : List Job
jobs = trt_jobs 192

first_run : (infos : List (Text × Info)) × ((build_all builder onnx_dir [] jobs).1 ≡ ok infos)
unfolding build_all ensure build_engine make_plan lookup trt_jobs job dec_profile enc_profile
    text_eq mathlib.Core.List.flat_map
first_run = (_, refl)

-- the second run has no ONNX files, and a parser that takes none
build_all-again_example :
    let engines' = (build_all builder onnx_dir [] jobs).0 in
    (again : List (Text × Info)) × (build_all broken [] engines' jobs ≡ (engines', ok again))
    × All (λ i. i.1.build_seconds ≡ none) again
build_all-again_example =
    build_all-again builder broken onnx_dir [] [] jobs jobs (first_run.0) (first_run.1) refl

first_plan : lookup (build_all builder onnx_dir [] jobs).0 (codes "vits_encoder_fp16.plan") ≡ some 2
unfolding build_all ensure build_engine make_plan lookup trt_jobs job dec_profile enc_profile
    text_eq mathlib.Core.List.flat_map builder_config
first_plan = refl

build_all-Built_example :
    (lookup {A = ℕ} [] (codes "vits_encoder_fp16.plan") ≡ some 2)
    ⊎ Source builder onnx_dir jobs (codes "vits_encoder_fp16.plan") 2
build_all-Built_example =
    build_all-Built builder onnx_dir [] jobs (codes "vits_encoder_fp16.plan") 2 first_plan

-- the geometry of the served configuration
abbrev served : Geometry
served = record {
  sr = 16000;
  hop = 256;
  first_frames = 12;
  max_frames = 50;
  crossfade_samples = 0;
  overlap_frames = 13;
  growth = λ s. s + s;
}

served_lem : derive mms defaults ≡ ok served
unfolding derive geometry hop_length round
served_lem = refl

served-IsValid : IsValid served
served-IsValid = record {
  hop_pos = omega arith;
  first_pos = omega arith;
  ordered = omega arith;
  crossfade_fits = omega arith;
}

chunk_bounds-profile_example :
    All
      (λ ab.
        decode_call 8 192 [] served 200 ab ≡ expected [] (decoder_shape 8 192 served 200 ab) 200)
      (chunk_bounds served 200)
chunk_bounds-profile_example =
    chunk_bounds-profile served 8 192 200 [] served-IsValid (omega arith) (omega arith)
      (omega arith) (omega arith) (omega arith)

-- a batch of five frames and of one
abbrev pair : List (List (Token ℕ))
pair = tokens ∷ (record { mask = 1; frames = 1; mean = 4 } ∷ []) ∷ []

-- the noise that was drawn for a place
abbrev noisy : ℕ → ℕ → ℕ → ℕ
noisy b t x = x + (10 * b + t)

flow_input-own_example :
    flow_input sums 2000 16 noisy flow pair
    ≡ own_rows sums 2000 noisy (max (batch_frames 2000 pair) 16) 0 pair
flow_input-own_example = flow_input-own sums 2000 16 noisy flow pair
