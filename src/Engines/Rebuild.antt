-- ===== src/Engines/Rebuild.antt =====
-- A second run of the build loops.
use mathlib.Core.Path.{subst}
use mathlib.Core.Option.{none-ne-some}
use streaming_tts_serving.Base.{
  ℕ, none, some, List, [], ◌∷◌, ◌≡◌, inl, inr, ◌∙◌, refl, sym, ap, All, map,
}
use streaming_tts_serving.Base.Text.{Text}
use streaming_tts_serving.Base.Result.{Result-cases, ok, raise, ◌>>=◌}
use streaming_tts_serving.Engines.{lookup, Builder, Info, BuildError, Job, ensure, build_all}
use streaming_tts_serving.Engines.Build.{
  lookup-head, ensure-cases, build_all-go_on, build_all-Kept, go_on,
}

module _ {Plan : Type 0} (B : Builder Plan) (onnx_dir : List (Text × List ℕ)) where
  -- a plan is there for the job
  abbrev pub Present : List (Text × Plan) → Job → Type 0
  Present engines j = (p : Plan) × (lookup engines j.out ≡ some p)

  build_all-ok :
      (j : Job) (js : List Job) (engines' : List (Text × Plan)) (info : Info)
      (infos : List (Text × Info))
      → (go_on B onnx_dir j js (engines', ok info)).1 ≡ ok infos
      → (rest : List (Text × Info)) × ((build_all B onnx_dir engines' js).1 ≡ ok rest)
  build_all-ok j js engines' info infos h =
      elim (Result-cases (build_all B onnx_dir engines' js).1) [
        | inl (rest, e) ↦ (rest, e)
        | inr (x, e) ↦
            absurd (refused x (sym (ap (λ r. r >>= (λ is. ok ((j.key, info) ∷ is))) e) ∙ h))
      ]
    where
      refused : (x : BuildError) → raise x ≡ ok infos → ⊥
      refused x k = cc

  build_all-Present :
      (engines : List (Text × Plan)) (js : List Job) (infos : List (Text × Info))
      → (build_all B onnx_dir engines js).1 ≡ ok infos
      → All (Present (build_all B onnx_dir engines js).0) js
  build_all-Present engines [] infos h = tt
  build_all-Present engines (j ∷ js) infos h = elim (ensure-cases B onnx_dir engines j) [
    | inl (plan, info, e, s, t) ↦ both engines info plan s e (build_all-Present engines js)
    | inr (inl (plan, info, e, s, b)) ↦
        both ((j.out, plan) ∷ engines) info plan s (lookup-head j.out plan engines)
          (build_all-Present ((j.out, plan) ∷ engines) js)
    | inr (inr (x, e, s)) ↦
        absurd (refused x (sym (ap (λ r. r.1) (build_all-go_on B onnx_dir engines j js _ s)) ∙ h))
  ]
    where
      refused : (x : BuildError) → raise x ≡ ok infos → ⊥
      refused x k = cc

      both :
          (engines' : List (Text × Plan)) (info : Info) (plan : Plan)
          → ensure B onnx_dir engines j ≡ (engines', ok info)
          → lookup engines' j.out ≡ some plan
          → ((rest : List (Text × Info))
              → (build_all B onnx_dir engines' js).1 ≡ ok rest
              → All (Present (build_all B onnx_dir engines' js).0) js)
          → All (Present (build_all B onnx_dir engines (j ∷ js)).0) (j ∷ js)
      both engines' info plan s e others =
          let step = build_all-go_on B onnx_dir engines j js _ s in
          let (rest, k) = build_all-ok j js engines' info infos (sym (ap (λ r. r.1) step) ∙ h) in
          subst (λ r. All (Present (r.0)) (j ∷ js)) (sym step)
            ((plan, build_all-Kept B onnx_dir engines' js j.out plan e), others rest k)

  -- a run that finds every plan
  skip_all :
      (engines : List (Text × Plan)) (js : List Job)
      → All (Present engines) js
      → (infos : List (Text × Info)) × (build_all B onnx_dir engines js ≡ (engines, ok infos))
        × All (λ i. i.1.build_seconds ≡ none) infos
  unfolding build_all
  skip_all engines [] h = ([], refl, tt)
  skip_all engines (j ∷ js) ((p, h), hs) = elim (ensure-cases B onnx_dir engines j) [
    | inl (plan, info, e, s, t) ↦
        let (infos, f, u) = skip_all engines js hs in
        (
          (j.key, info) ∷ infos,
          build_all-go_on B onnx_dir engines j js _ s
              ∙ ap (λ r. (r.0, (r.1 >>= λ is. ok ((j.key, info) ∷ is)))) f,
          (t, u),
        )
    | inr (inl (plan, info, e, s, b)) ↦ absurd (none-ne-some _ (sym e ∙ h))
    | inr (inr (x, e, s)) ↦ absurd (none-ne-some _ (sym e ∙ h))
  ]

-- The plans that jobs write are there when those of others with the same names are.
present_same :
    {Plan : Type 0} (engines : List (Text × Plan)) (js js' : List Job)
    → map (λ j. j.out) js' ≡ map (λ j. j.out) js
    → All (λ j. (p : Plan) × (lookup engines j.out ≡ some p)) js
    → All (λ j. (p : Plan) × (lookup engines j.out ≡ some p)) js'
present_same engines js [] e h = tt
present_same engines [] (j' ∷ js') e h = absurd cc
present_same engines (j ∷ js) (j' ∷ js') e ((p, h), hs) =
    let same : (j'.out ≡ j.out) × (map (λ k. k.out) js' ≡ map (λ k. k.out) js) = (cc, cc) in
    ((p, ap (lookup engines) same.0 ∙ h), present_same engines js js' same.1 hs)

-- Where a run of the loop returns, the next one returns too and finds every plan: it builds nothing and
-- leaves the directory as it is, whatever ONNX files, profiles, precisions and builder it is run
-- with, as long as the names of the plans are the same.
pub build_all-again :
    {Plan : Type 0} (B B' : Builder Plan) (onnx_dir onnx_dir' : List (Text × List ℕ))
    (engines : List (Text × Plan)) (js js' : List Job) (infos : List (Text × Info))
    → (build_all B onnx_dir engines js).1 ≡ ok infos
    → map (λ j. j.out) js' ≡ map (λ j. j.out) js
    → let engines' = (build_all B onnx_dir engines js).0 in
      (again : List (Text × Info)) × (build_all B' onnx_dir' engines' js' ≡ (engines', ok again))
      × All (λ i. i.1.build_seconds ≡ none) again
build_all-again B B' onnx_dir onnx_dir' engines js js' infos h e =
    skip_all B' onnx_dir' _ js'
      (present_same _ js js' e (build_all-Present B onnx_dir engines js infos h))
