-- ===== src/Startup.antt =====
-- How the services start: `lifespan` and `healthz` of baseline/server.py, `initialize` of the two Triton
-- backends, and the two front hops of streaming/client.py.
pub mod Laws
use streaming_tts_serving.Base.{
  ℕ, ◌+◌, Option, none, some, Bool, true, false, List, [], ◌∷◌, ◌++◌, map, if◌then◌else◌, ◌==◌,
}
use streaming_tts_serving.Base.Text.{Text, codes, text_eq}
use streaming_tts_serving.Base.Result.{Result, ok, raise, ◌>>=◌}
use streaming_tts_serving.Base.Utf8.{encode, decode}
use streaming_tts_serving.Frontend.Text.{Raw, bytes, Tensors}

-- `_state`: the tokenizer and the model, which are parameters, and the sampling rate
pub record Loaded (M : Type 0) : Type 0 where
  pub model : M
  pub sr : ℕ

-- `lifespan`, before the `yield` and behind it
unfoldable pub start_up : {M : Type 0} → M → ℕ → Option (Loaded M) → Option (Loaded M)
start_up model sr state = some (record { model = model; sr = sr })

unfoldable pub shut_down : {M : Type 0} → Option (Loaded M) → Option (Loaded M)
shut_down state = none

pub record Health : Type 0 where
  pub is_ok : Bool
  pub mode : Text
  pub device : Text
  pub model_id : Text
  pub sampling_rate : Option ℕ

unfoldable pub healthz : {M : Type 0} → Text → Text → Text → Option (Loaded M) → Health
healthz mode device model_id none = record {
  is_ok = false;
  mode = mode;
  device = device;
  model_id = model_id;
  sampling_rate = none;
}
healthz mode device model_id (some l) = record {
  is_ok = true;
  mode = mode;
  device = device;
  model_id = model_id;
  sampling_rate = some l.sr;
}

-- `params.get(name, {}).get("string_value", default)`; an entry may lack its string value
unfoldable pub param : List (Text × Option Text) → Text → Text → Text
param [] name default = default
param ((n, v) ∷ params) name default =
    let rest = param params name default in
    if text_eq n name then (elim v [ none ↦ default | some s ↦ s ]) else rest

-- `initialize` of tts_frontend: the directory of the tokenizer, and `max_chars`, of which `to_int` may
-- raise
pub record TextBackend : Type 0 where
  pub model_dir : Text
  pub max_chars : ℕ

-- `os.environ.get("TTS_MODEL_DIR", "/workspace/models")`
unfoldable pub models : Option Text → Text
models none = codes "/workspace/models"
models (some dir) = dir

unfoldable pub initialize_text :
    {E : Type 0}
    → (Text → Result E ℕ)
    → Option Text
    → List (Text × Option Text)
    → Result E TextBackend
initialize_text to_int env params = do
  n ← to_int (param params (codes "max_chars") (codes "2000"))
  ok (record {
    model_dir = param params (codes "tokenizer_dir") (models env ++ codes "/facebook__mms-tts-eng");
    max_chars = n;
  })

-- `initialize` of vits_frontend: the model, and the TensorRT front half where it was asked for and could
-- be built
pub record LatentBackend (M R : Type 0) : Type 0 where
  pub model : M
  pub trt : Option R

module _ {E M R : Type 0} (lower : Text → Text) (load : Text → Result E M)
    (build : Text → M → Result E R) where
  -- an exception of the engines is logged, and the backend goes on without them
  unfoldable pub try_trt : Text → Text → M → Option R
  try_trt want engines_dir model =
      if text_eq want (codes "trt")
      then (elim (build engines_dir model) [ ok r ↦ some r | raise e ↦ none ])
      else none

  unfoldable pub initialize_latents :
      Option Text → List (Text × Option Text) → Result E (LatentBackend M R)
  initialize_latents env params = do
    model ← load (param params (codes "model_dir") (models env ++ codes "/facebook__mms-tts-eng"))
    ok (record {
      model = model;
      trt =
          try_trt (lower (param params (codes "backend") (codes "trt")))
            (param params (codes "engines_dir") (models env ++ codes "/engines")) model;
    })

-- `_latents`: the TensorRT path where there is one
unfoldable pub latents_of :
    {E M R Ids Z : Type 0}
    → (R → Ids → Result E Z)
    → (M → Ids → Result E Z)
    → LatentBackend M R
    → Ids
    → Result E Z
latents_of run_trt capture backend ids = elim backend.trt [
  | none ↦ capture backend.model ids
  | some r ↦ run_trt r ids
]

-- What the client gets of a hop: the tensors of the response, or the error of the call.
pub data HopError (E : Type 0) : Type 0 where
  call_failed : E → HopError E
  not_text : HopError E

-- `frontend`: the text as UTF-8, and the normalized text that comes back decoded
unfoldable pub frontend :
    {E : Type 0}
    → (List Raw → Result E Tensors)
    → Text
    → Result (HopError E) (List ℕ × (List ℕ × Text))
frontend infer text = elim (infer (bytes (encode text) ∷ [])) [
  | raise e ↦ raise (call_failed e)
  | ok t ↦ elim (decode t.normalized_text) [
    | none ↦ raise not_text
    | some norm ↦ ok (t.input_ids, (t.attention_mask, norm))
  ]
]
