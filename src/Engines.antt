-- ===== src/Engines.antt =====
-- The engine builds of export/build_trt.py and export/build_trt_frontend.py: `build_engine`, the loops that
-- skip a plan that is on disk, and the optimization profiles.
pub mod Build
pub mod Rebuild
pub mod Pieces
pub mod Fits
pub mod FlowFits
use streaming_tts_serving.Base.{
  ℕ, ◌+◌, ◌*◌, ◌^◌, Bool, true, false, Option, none, some, List, [], ◌∷◌, ◌++◌, map, flat_map,
  if◌then◌else◌,
}
use streaming_tts_serving.Base.Text.{Text, codes, text_eq}
use streaming_tts_serving.Base.Result.{Result, ok, raise, ◌>>=◌}
use streaming_tts_serving.Runner.{Shape, Tensor, input}

-- what a directory holds under a name
unfoldable pub lookup : {A : Type 0} → List (Text × A) → Text → Option A
lookup [] n = none
lookup ((m, a) ∷ files) n = let rest = lookup files n in if text_eq m n then some a else rest

-- The smallest, the usual and the largest shape of an input.
pub record Range : Type 0 where
  pub name : Text
  pub smallest : Shape
  pub usual : Shape
  pub largest : Shape

-- `config`: the workspace limit in bytes, the flag for half precision, and the one profile
pub record BuilderConfig : Type 0 where
  pub workspace : ℕ
  pub fp16 : Bool
  pub profile : List Range

-- What is reported of an engine; the size is in bytes, and a build that was skipped took no time.
pub record Info : Type 0 where
  pub file : Text
  pub build_seconds : Option ℕ
  pub size : ℕ
  pub fp16 : Bool

pub data BuildError : Type 0 where
  not_found : Text → BuildError
  parse_failed : List Text → BuildError
  build_failed : Text → BuildError

-- An engine that `main` wants: its name in the report, its files, its profile and its precision.
pub record Job : Type 0 where
  pub key : Text
  pub onnx_name : Text
  pub out : Text
  pub profile : List Range
  pub fp16 : Bool

unfoldable pub builder_config : List Range → Bool → BuilderConfig
builder_config profile fp16 = record { workspace = 4 * 2 ^ 30; fp16 = fp16; profile = profile }

-- TensorRT as the scripts use it: its parser, with the errors that it lists, its builder, the time that a
-- build takes, and the size of a plan.
pub record Builder (Plan : Type 0) : Type 1 where
  pub Network : Type 0
  pub parse : List ℕ → Result (List Text) Network
  pub build_serialized_network : Network → BuilderConfig → Option Plan
  pub seconds : Network → ℕ
  pub st_size : Plan → ℕ

module _ {Plan : Type 0} (B : Builder Plan) where
  -- `build_engine`, on the bytes of the ONNX file: the plan that it makes
  unfoldable pub make_plan : Option (List ℕ) → Job → Result BuildError (Plan × Info)
  make_plan none j = raise (not_found j.onnx_name)
  make_plan (some onnx) j = elim (B.parse onnx) [
    | raise errs ↦ raise (parse_failed errs)
    | ok network ↦ elim (B.build_serialized_network network (builder_config j.profile j.fp16)) [
      | none ↦ raise (build_failed j.onnx_name)
      | some plan ↦ ok (
        plan,
        record {
          file = j.out;
          build_seconds = some (B.seconds network);
          size = B.st_size plan;
          fp16 = j.fp16;
        },
      )
    ]
  ]

  -- `build_engine`: the plan is written once it is built
  unfoldable pub build_engine :
      List (Text × List ℕ) → List (Text × Plan) → Job → List (Text × Plan) × Result BuildError Info
  build_engine onnx_dir engines j = elim (make_plan (lookup onnx_dir j.onnx_name) j) [
    | raise e ↦ (engines, raise e)
    | ok (plan, info) ↦ ((j.out, plan) ∷ engines, ok info)
  ]

  -- the body of the loop: a plan that exists is kept as it is
  unfoldable pub ensure :
      List (Text × List ℕ) → List (Text × Plan) → Job → List (Text × Plan) × Result BuildError Info
  ensure onnx_dir engines j = elim (lookup engines j.out) [
    | some plan ↦ (
      engines,
      ok (record { file = j.out; build_seconds = none; size = B.st_size plan; fp16 = j.fp16 }),
    )
    | none ↦ build_engine onnx_dir engines j
  ]

  -- the loop over the engines: an error ends it, and leaves what is on disk
  unfoldable pub build_all :
      List (Text × List ℕ)
      → List (Text × Plan)
      → List Job
      → List (Text × Plan) × Result BuildError (List (Text × Info))
  build_all onnx_dir engines [] = (engines, ok [])
  build_all onnx_dir engines (j ∷ js) =
      let (engines', r) = ensure onnx_dir engines j in
      let (last, rest) = build_all onnx_dir engines' js in
      elim r [
        | raise e ↦ (engines', raise e)
        | ok info ↦ (last, (do infos ← rest; ok ((j.key, info) ∷ infos)))
      ]

abbrev pub tags : List (Text × Bool)
tags = (codes "fp32", false) ∷ (codes "fp16", true) ∷ []

-- `f"vits_{name}_{tag}.plan"`, and the key of the report
unfoldable pub job : Text → Text → List Range → Text × Bool → Job
job name onnx_name profile (tag, fp16) = record {
  key = name ++ codes "_" ++ tag;
  onnx_name = onnx_name;
  out = codes "vits_" ++ name ++ codes "_" ++ tag ++ codes ".plan";
  profile = profile;
  fp16 = fp16;
}

abbrev shape3 : ℕ → ℕ → ℕ → Shape
shape3 a b c = a ∷ b ∷ c ∷ []

abbrev shape2 : ℕ → ℕ → Shape
shape2 a b = a ∷ b ∷ []

abbrev range : Text → Shape → Shape → Shape → Range
range n mn opt mx = record { name = n; smallest = mn; usual = opt; largest = mx }

unfoldable pub dec_profile : ℕ → List Range
dec_profile ch = range (codes "latents") (shape3 1 ch 14) (shape3 8 ch 76) (shape3 32 ch 76) ∷ []

unfoldable pub enc_profile : List Range
enc_profile =
    range (codes "input_ids") (shape2 1 4) (shape2 8 64) (shape2 32 1024)
    ∷ range (codes "attention_mask") (shape2 1 4) (shape2 8 64) (shape2 32 1024)
    ∷ []

unfoldable pub duration_profile : ℕ → List Range
duration_profile ch =
    range (codes "hidden_states") (shape3 1 ch 4) (shape3 8 ch 64) (shape3 16 ch 1024)
    ∷ range (codes "padding_mask") (shape3 1 1 4) (shape3 8 1 64) (shape3 16 1 1024)
    ∷ range (codes "noise") (shape3 1 2 4) (shape3 8 2 64) (shape3 16 2 1024)
    ∷ []

unfoldable pub flow_profile : ℕ → List Range
flow_profile ch =
    range (codes "z_p") (shape3 1 ch 4) (shape3 8 ch 400) (shape3 16 ch 2048)
    ∷ range (codes "padding_mask") (shape3 1 1 4) (shape3 8 1 400) (shape3 16 1 2048)
    ∷ []

-- the loops of the two scripts, as the jobs that they go through
unfoldable pub trt_jobs : ℕ → List Job
trt_jobs ch =
    flat_map
      (λ tag.
        job (codes "decoder") (codes "vits_decoder.onnx") (dec_profile ch) tag
        ∷ job (codes "encoder") (codes "vits_encoder.onnx") enc_profile tag
        ∷ [])
      tags

unfoldable pub frontend_jobs : ℕ → List Job
frontend_jobs ch =
    map (job (codes "duration") (codes "vits_duration.onnx") (duration_profile ch)) tags
    ++ map (job (codes "flow") (codes "vits_flow.onnx") (flow_profile ch)) tags

-- The inputs of an engine that was built with a profile, as its runner sees them.
unfoldable pub engine_inputs : List Range → List Tensor
engine_inputs = map (λ r. input r.name r.smallest r.largest)
