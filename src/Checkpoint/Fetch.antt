-- ===== src/Checkpoint/Fetch.antt =====
-- `main` of export/fetch_model.py: the directory, the downloads, and the facts that are written beside them.
use streaming_tts_serving.Base.{
  ℕ, ◌+◌, Bool, true, false, ◌&&◌, Option, none, some, List, [], ◌∷◌, if◌then◌else◌,
}
use streaming_tts_serving.Base.Text.{Text, codes, text_eq}
use streaming_tts_serving.Base.Result.{Result, ok, raise}
use streaming_tts_serving.Chunked.{hop_length, round}
use streaming_tts_serving.Checkpoint.{PurePath, Env, get, model_id, local_dir}

-- What `main` reads of `model.config`; an attribute with a default may be missing.
pub record Config : Type 0 where
  pub sampling_rate : ℕ
  pub num_speakers : Option ℕ
  pub use_stochastic_duration_prediction : Option Bool
  pub flow_size : Option ℕ
  pub upsample_rates : Option (List ℕ)
  pub vocab_size : ℕ

-- `facts`, with the parameters in units of ten thousand
pub record Facts : Type 0 where
  pub model_id : Text
  pub revision : Text
  pub sampling_rate : ℕ
  pub num_speakers : ℕ
  pub stochastic_duration_prediction : Bool
  pub flow_size : ℕ
  pub upsample_rates : List ℕ
  pub hop_length : ℕ
  pub vocab_size : ℕ
  pub params : ℕ

-- `getattr(cfg, name, default)`
unfoldable pub getattr : {A : Type 0} → Option A → A → A
getattr none default = default
getattr (some a) default = a

unfoldable pub total : List ℕ → ℕ
total [] = 0
total (n ∷ ns) = n + total ns

unfoldable pub facts : Text → Text → Config → List ℕ → Facts
facts id rev cfg numels = record {
  model_id = id;
  revision = rev;
  sampling_rate = cfg.sampling_rate;
  num_speakers = getattr cfg.num_speakers 1;
  stochastic_duration_prediction = getattr cfg.use_stochastic_duration_prediction true;
  flow_size = getattr cfg.flow_size 192;
  upsample_rates = getattr cfg.upsample_rates [];
  hop_length = hop_length 1 (getattr cfg.upsample_rates []);
  vocab_size = cfg.vocab_size;
  params = round (total numels) 10000;
}

-- What a directory holds of the checkpoint.
pub record Saved (Tok Model : Type 0) : Type 0 where
  pub tok : Option Tok
  pub model : Option Model
  pub model_facts : Option Facts

unfoldable pub nothing_yet : {Tok Model : Type 0} → Saved Tok Model
nothing_yet = record { tok = none; model = none; model_facts = none }

-- The parts of a path that another one begins with.
unfoldable pub leads : List Text → List Text → Bool
leads [] qs = true
leads (p ∷ ps) [] = false
leads (p ∷ ps) (q ∷ qs) = text_eq p q && leads ps qs

unfoldable pub is_within : PurePath → PurePath → Bool
is_within dir p = text_eq dir.root p.root && leads dir.parts p.parts

unfoldable pub path_eq : PurePath → PurePath → Bool
path_eq p q = is_within p q && is_within q p

-- `transformers` and its models as the script uses them.
pub record Hub (E Tok Model : Type 0) : Type 0 where
  pub load_tok : Text → Text → Result E Tok
  pub load_model : Text → Text → Result E Model
  pub config : Model → Config
  pub numels : Model → List ℕ
  pub forward : Model → Tok → Result E ℕ

-- both `save_pretrained`, and the facts
unfoldable pub stored :
    {E Tok Model : Type 0} → Hub E Tok Model → Text → Text → Tok → Model → Saved Tok Model
stored hub id rev tok model = record {
  tok = some tok;
  model = some model;
  model_facts = some (facts id rev (hub.config model) (hub.numels model));
}

module _ {E Tok Model : Type 0} (hub : Hub E Tok Model) where
  -- `mkdir(parents=True, exist_ok=True)`: the directory and those that it is within, unless they exist
  unfoldable pub mkdir :
      PurePath → (PurePath → Option (Saved Tok Model)) → PurePath → Option (Saved Tok Model)
  mkdir out disk p = elim (disk p) [
    | some d ↦ some d
    | none ↦ if is_within p out then some nothing_yet else none
  ]

  unfoldable pub save :
      PurePath
      → Saved Tok Model
      → (PurePath → Option (Saved Tok Model))
      → PurePath
      → Option (Saved Tok Model)
  save out d disk p = if path_eq p out then some d else disk p

  -- what `main` leaves on the disk, and the samples of its smoke test, or what it raises
  unfoldable pub fetch :
      Env
      → (PurePath → Option (Saved Tok Model))
      → (PurePath → Option (Saved Tok Model)) × Result E ℕ
  fetch env disk =
      let id = model_id env in
      let rev = get env.revision (codes "main") in
      let made = mkdir (local_dir env) disk in
      elim (hub.load_tok id rev) [
        | raise e ↦ (made, raise e)
        | ok tok ↦ elim (hub.load_model id rev) [
          | raise e ↦ (made, raise e)
          | ok model ↦
              (save (local_dir env) (stored hub id rev tok model) made, hub.forward model tok)
        ]
      ]
