-- ===== src/Checkpoint.antt =====
-- The checkpoint of the model: export/fetch_model.py stores it once, and export/inspect_model.py looks it
-- up and derives the sizes of its chunks. A disk is the directories that exist and what they hold; a plain
-- file in the place of a directory, where `mkdir` raises, is left out.
pub mod Fetch
pub mod Laws
use streaming_tts_serving.Base.{
  ℕ, ◌+◌, ◌*◌, ◌/◌, max, Bool, true, false, ◌&&◌, ◌||◌, Option, none, some, List, [], ◌∷◌, ◌++◌,
  ◌==◌, if◌then◌else◌,
}
use streaming_tts_serving.Base.Text.{Text, codes, text_eq, join}
use streaming_tts_serving.Chunked.{hop_length, round}
use streaming_tts_serving.Batching.{chunk_frames}

-- `os.environ.get(name, default)`
unfoldable pub get : Option Text → Text → Text
get none default = default
get (some value) default = value

-- `MODEL_ID.replace("/", "__")`
unfoldable pub folder : Text → Text
folder [] = []
folder (c ∷ s) = let rest = folder s in if c == b'/' then b'_' ∷ b'_' ∷ rest else c ∷ rest

-- `pathlib` on POSIX: the root, which is empty, one slash or two, and the names behind it
pub record PurePath : Type 0 where
  pub root : Text
  pub parts : List Text

unfoldable pub put_char : ℕ → List Text → List Text
put_char c [] = (c ∷ []) ∷ []
put_char c (p ∷ ps) = (c ∷ p) ∷ ps

-- `s.split("/")`
unfoldable pub split : Text → List Text
split [] = [] ∷ []
split (c ∷ s) = let rest = split s in if c == b'/' then [] ∷ rest else put_char c rest

-- An empty name and a single period are dropped.
unfoldable pub names : List Text → List Text
names [] = []
names (p ∷ ps) =
    let rest = names ps in if text_eq p [] || text_eq p (codes ".") then rest else p ∷ rest

unfoldable pub slashes : Text → ℕ
slashes [] = 0
slashes (c ∷ s) = let rest = slashes s in if c == b'/' then rest + 1 else 0

-- Two slashes in front are kept, and any other number is one.
unfoldable pub root_of : Text → Text
root_of s = if slashes s == 0 then [] else if slashes s == 2 then codes "//" else codes "/"

unfoldable pub path : Text → PurePath
path s = record { root = root_of s; parts = names (split s) }

-- `dir / s`: a path with a root stands for itself
unfoldable pub child : PurePath → Text → PurePath
child dir s =
    if text_eq (root_of s) []
    then record { root = dir.root; parts = dir.parts ++ (path s).parts }
    else path s

-- `str(p)`; the current directory is a period
unfoldable pub str : PurePath → Text
str p = let s = p.root ++ join (codes "/") p.parts in if text_eq s [] then codes "." else s

-- The variables of the environment that both scripts read.
pub record Env : Type 0 where
  pub model_dir : Option Text
  pub model_id : Option Text
  pub revision : Option Text

unfoldable pub model_id : Env → Text
model_id env = get env.model_id (codes "facebook/mms-tts-eng")

-- `OUT` of fetch_model.py, and `local` of inspect_model.py
unfoldable pub local_dir : Env → PurePath
local_dir env = child (path (get env.model_dir (codes "models"))) (folder (model_id env))

-- `resolve_path`, which the other scripts of export/ and streaming/sweep.py repeat
unfoldable pub resolve_path : {D : Type 0} → Env → (PurePath → Option D) → Text
resolve_path env disk = elim (disk (local_dir env)) [
  | none ↦ model_id env
  | some d ↦ str (local_dir env)
]

-- `shapes["derived"]`: times in thousandths of a millisecond, and the length of the audio in milliseconds
pub record Derived : Type 0 where
  pub sampling_rate : ℕ
  pub hop_length : ℕ
  pub us_per_latent_frame : ℕ
  pub latent_frames_in_utterance : ℕ
  pub audio_ms : ℕ
  pub frames_per_200ms_chunk : ℕ

unfoldable pub derived : ℕ → List ℕ → ℕ → Derived
derived sr rates samples =
    let hop = hop_length 1 rates in
    record {
      sampling_rate = sr;
      hop_length = hop;
      us_per_latent_frame = round (hop * 1000000) sr;
      latent_frames_in_utterance = samples / hop;
      audio_ms = round (samples * 1000) sr;
      frames_per_200ms_chunk = chunk_frames sr hop 200000;
    }

-- the latents that the decoder is timed on
unfoldable pub timed_lengths : Derived → List (Text × ℕ)
timed_lengths d =
    (codes "chunk", d.frames_per_200ms_chunk)
    ∷ (codes "full", max d.latent_frames_in_utterance d.frames_per_200ms_chunk)
    ∷ []
