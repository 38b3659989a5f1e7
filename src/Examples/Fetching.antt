-- ===== src/Examples/Fetching.antt =====
-- The checkpoint's directory at concrete inputs.
use streaming_tts_serving.Base.{ℕ, ◌≡◌, refl, Option, none, some, [], ◌∷◌}
use streaming_tts_serving.Base.Text.{codes, text_eq, join}
use streaming_tts_serving.Base.Result.{ok, raise}
use streaming_tts_serving.Chunked.{hop_length, round}
use streaming_tts_serving.Batching.{chunk_frames}
use streaming_tts_serving.Checkpoint.{
  get, folder, PurePath, put_char, split, names, slashes, root_of, path, child, str, Env, model_id,
  local_dir, resolve_path, derived,
}
use streaming_tts_serving.Checkpoint.Fetch.{Saved, Hub, nothing_yet, fetch}
use streaming_tts_serving.Checkpoint.Laws.{fetch-nothing_yet}

abbrev env : Env
env = record { model_dir = none; model_id = none; revision = none }

-- The tokenizer is there, and the model is not.
abbrev offline : Hub ℕ ℕ ℕ
offline = record {
  load_tok = λ id rev. ok 1;
  load_model = λ id rev. raise 404;
  config = λ model. record {
    sampling_rate = 16000;
    num_speakers = none;
    use_stochastic_duration_prediction = none;
    flow_size = some 192;
    upsample_rates = some (8 ∷ 8 ∷ 2 ∷ 2 ∷ []);
    vocab_size = 38;
  };
  numels = λ model. [];
  forward = λ model tok. ok 0;
}

abbrev no_directory : PurePath → Option (Saved ℕ ℕ)
no_directory p = none

fetch-nothing_yet_example :
    (resolve_path env no_directory ≡ model_id env)
    × (resolve_path env (fetch offline env no_directory).0 ≡ str (local_dir env))
    × ((fetch offline env no_directory).0 (local_dir env) ≡ some nothing_yet)
    × ((x : ℕ) × ((fetch offline env no_directory).1 ≡ raise x))
fetch-nothing_yet_example = fetch-nothing_yet offline env no_directory 404 refl refl

local_dir-default : str (local_dir env) ≡ codes "models/facebook__mms-tts-eng"
unfolding str local_dir path child folder model_id get split put_char names root_of slashes join
    text_eq
local_dir-default = refl

paths :
    (str (path (codes "///opt/./models//x/")) ≡ codes "/opt/models/x")
    × (str (path (codes "//srv/m")) ≡ codes "//srv/m")
    × (str (path (codes "./")) ≡ codes ".")
    × (str (child (path (codes "models")) (codes "/abs/m")) ≡ codes "/abs/m")
unfolding str path child split put_char names root_of slashes join text_eq
paths = (refl, refl, refl, refl)

derived-mms : derived 16000 (8 ∷ 8 ∷ 2 ∷ 2 ∷ []) 40960 ≡ record {
  sampling_rate = 16000;
  hop_length = 256;
  us_per_latent_frame = 16000;
  latent_frames_in_utterance = 160;
  audio_ms = 2560;
  frames_per_200ms_chunk = 12;
}
unfolding derived hop_length round chunk_frames
derived-mms = refl
