-- ===== src/Checkpoint/Laws.antt =====
-- Where the checkpoint is, and what its sizes are to the stream.
use mathlib.Core.Bool.{and-false}
use streaming_tts_serving.Base.{
  ℕ, max, true, false, Option, none, some, List, [], ◌∷◌, ◌++◌, ◌≡◌, inl, inr, refl, Bool-cases,
  Option-cases, ◌==◌,
}
use streaming_tts_serving.Base.Text.{Text, codes, text_eq}
use streaming_tts_serving.Base.TextLaws.{text_eq_iff}
use streaming_tts_serving.Base.Result.{Result-cases, ok, raise}
use streaming_tts_serving.Chunked.{ModelConfig, ChunkConfig, geometry}
use streaming_tts_serving.Batching.{chunk_frames}
use streaming_tts_serving.Checkpoint.{
  get, folder, PurePath, put_char, split, names, slashes, root_of, path, child, str, Env, model_id,
  local_dir, resolve_path, derived,
}
use streaming_tts_serving.Checkpoint.Fetch.{
  Saved, leads, is_within, path_eq, Hub, nothing_yet, stored, mkdir, save, fetch,
}

split-folder : (s : Text) → split (folder s) ≡ folder s ∷ []
unfolding split folder put_char
split-folder [] = refl
split-folder (c ∷ s) = elim (Bool-cases (c == b'/')) [
  | inl h ↦ rw (h, split-folder s) refl
  | inr h ↦ rw (h, h, split-folder s) refl
]

root_of-folder : (s : Text) → root_of (folder s) ≡ []
unfolding root_of slashes folder
root_of-folder [] = refl
root_of-folder (c ∷ s) = elim (Bool-cases (c == b'/')) [
  | inl h ↦ rw h refl
  | inr h ↦ rw (h, h) refl
]

-- A model that has a name has a folder with one.
is_a_name :
    (s : Text)
    → text_eq s [] ≡ false
    → text_eq s (codes ".") ≡ false
    → names (folder s ∷ []) ≡ folder s ∷ []
unfolding names folder text_eq
is_a_name [] h g = cc
is_a_name (c ∷ []) h g = elim (Bool-cases (c == b'/')) [
  | inl e ↦ rw e refl
  | inr e ↦ rw (e, g) refl
]
is_a_name (c ∷ d ∷ s) h g = elim (Bool-cases (c == b'/')) [
  | inl e ↦ rw e refl
  | inr e ↦ elim (Bool-cases (d == b'/')) [
    | inl f ↦ rw (e, f, and-false (c == b'.')) refl
    | inr f ↦ rw (e, f, and-false (c == b'.')) refl
  ]
]

leads_self : (ps : List Text) → leads ps ps ≡ true
unfolding leads
leads_self [] = refl
leads_self (p ∷ ps) = rw ((text_eq_iff p p).1 refl, leads_self ps) refl

is_within_self : (p : PurePath) → is_within p p ≡ true
unfolding is_within
is_within_self p = rw ((text_eq_iff p.root p.root).1 refl, leads_self p.parts) refl

path_eq_self : (p : PurePath) → path_eq p p ≡ true
unfolding path_eq
path_eq_self p = rw (is_within_self p) refl

-- A model is kept directly in the directory of the models, whatever slashes its id has.
child-folder :
    (dir : PurePath) (id : Text)
    → text_eq id [] ≡ false
    → text_eq id (codes ".") ≡ false
    → child dir (folder id) ≡ record { root = dir.root; parts = dir.parts ++ folder id ∷ [] }
unfolding child path text_eq
child-folder dir id h g = rw (root_of-folder id, split-folder id, is_a_name id h g) refl

-- With the default first chunk of 200 ms, the frames that are reported for a chunk of 200 ms are the
-- first chunk of the stream, where they are one frame or more.
derived-geometry :
    (conf : ModelConfig) (cfg : ChunkConfig) (samples : ℕ)
    → cfg.first_chunk_us ≡ 200000
    → (geometry conf cfg).first_frames
      ≡ max 1 (derived conf.sampling_rate conf.upsample_rates samples).frames_per_200ms_chunk
unfolding geometry derived chunk_frames
derived-geometry conf cfg samples h = rw h refl

module _ {E Tok Model : Type 0} (hub : Hub E Tok Model) where
  mkdir_there :
      (p : PurePath) (disk : PurePath → Option (Saved Tok Model))
      → (d : Saved Tok Model) × (mkdir hub p disk p ≡ some d)
  unfolding mkdir
  mkdir_there p disk = elim (Option-cases (disk p)) [
    | inl e ↦ (nothing_yet, rw (mkdir, e, is_within_self p) refl)
    | inr (d, e) ↦ (d, rw (mkdir, e) refl)
  ]

  mkdir_new :
      (p : PurePath) (disk : PurePath → Option (Saved Tok Model))
      → disk p ≡ none
      → mkdir hub p disk p ≡ some nothing_yet
  unfolding mkdir nothing_yet
  mkdir_new p disk h = rw (mkdir, h, is_within_self p) refl

  save_there :
      (p : PurePath) (d : Saved Tok Model) (disk : PurePath → Option (Saved Tok Model))
      → save hub p d disk p ≡ some d
  unfolding save
  save_there p d disk = rw (path_eq_self p) refl

  fetch_there :
      (env : Env) (disk : PurePath → Option (Saved Tok Model))
      → (d : Saved Tok Model) × ((fetch hub env disk).0 (local_dir env) ≡ some d)
  unfolding fetch
  fetch_there env disk =
      let made = mkdir_there (local_dir env) disk in
      elim (Result-cases (hub.load_tok (model_id env) (get env.revision (codes "main")))) [
        | inr (e, h) ↦ (made.0, rw (fetch, h) (made.1))
        | inl (tok, h) ↦
            elim (Result-cases (hub.load_model (model_id env) (get env.revision (codes "main")))) [
              | inr (e, g) ↦ (made.0, rw (fetch, h, g) (made.1))
              | inl (model, g) ↦ (
                stored hub (model_id env) (get env.revision (codes "main")) tok model,
                rw (fetch, h, g) (save_there (local_dir env) _ _),
              )
            ]
      ]

  resolve_path_there :
      (env : Env) (disk : PurePath → Option (Saved Tok Model)) (d : Saved Tok Model)
      → disk (local_dir env) ≡ some d
      → resolve_path env disk ≡ str (local_dir env)
  unfolding resolve_path
  resolve_path_there env disk d h = rw (resolve_path, h) refl

  -- After any run of `fetch`, one that raised included, `resolve_path` gives the directory.
  fetch-resolve_path :
      (env : Env) (disk : PurePath → Option (Saved Tok Model))
      → resolve_path env (fetch hub env disk).0 ≡ str (local_dir env)
  fetch-resolve_path env disk =
      let there = fetch_there env disk in
      resolve_path_there env (fetch hub env disk).0 (there.0) (there.1)

  -- A download of the model that raises leaves an empty directory where there was none, and
  -- `resolve_path` gives that directory from then on, and no longer the id of the model.
  pub fetch-nothing_yet :
      (env : Env) (disk : PurePath → Option (Saved Tok Model)) (e : E)
      → disk (local_dir env) ≡ none
      → hub.load_model (model_id env) (get env.revision (codes "main")) ≡ raise e
      → (resolve_path env disk ≡ model_id env)
        × (resolve_path env (fetch hub env disk).0 ≡ str (local_dir env))
        × ((fetch hub env disk).0 (local_dir env) ≡ some nothing_yet)
        × ((x : E) × ((fetch hub env disk).1 ≡ raise x))
  unfolding fetch resolve_path
  fetch-nothing_yet env disk e h g =
      let new = mkdir_new (local_dir env) disk h in
      let here : resolve_path env disk ≡ model_id env = rw (resolve_path, h) refl in
      let after = fetch-resolve_path env disk in
      elim (Result-cases (hub.load_tok (model_id env) (get env.revision (codes "main")))) [
        | inr (x, f) ↦ (here, after, rw (fetch, f) new, (x, rw (fetch, f) refl))
        | inl (tok, f) ↦ (here, after, rw (fetch, f, g) new, (e, rw (fetch, f, g) refl))
      ]

  -- A run that does not raise has stored the tokenizer, the model and its facts in that directory.
  fetch-ok :
      (env : Env) (disk : PurePath → Option (Saved Tok Model)) (tok : Tok) (model : Model)
      → hub.load_tok (model_id env) (get env.revision (codes "main")) ≡ ok tok
      → hub.load_model (model_id env) (get env.revision (codes "main")) ≡ ok model
      → (fetch hub env disk).0 (local_dir env)
        ≡ some (stored hub (model_id env) (get env.revision (codes "main")) tok model)
  unfolding fetch
  fetch-ok env disk tok model h g = rw (fetch, h, g) (save_there (local_dir env) _ _)
