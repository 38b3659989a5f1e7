-- ===== src/Engines/Build.antt =====
-- What the build loops do to the directory of engines.
use mathlib.Core.Path.{subst}
use mathlib.Core.List.{Memᴰ}
use mathlib.Core.Option.{none-ne-some, some-injective}
use streaming_tts_serving.Base.{
  ℕ, false, Option, none, some, List, [], ◌∷◌, ◌≡◌, ◌⊎◌, inl, inr, ◌∙◌, refl, sym, ap, Option-cases,
  Bool-cases,
}
use streaming_tts_serving.Base.Text.{Text, text_eq}
use streaming_tts_serving.Base.TextLaws.{text_eq_iff}
use streaming_tts_serving.Base.Result.{Result, Result-cases, ok, raise, ◌>>=◌}
use streaming_tts_serving.Engines.{
  lookup, Builder, Info, BuildError, not_found, parse_failed, build_failed, Job, builder_config,
  make_plan, build_engine, ensure, build_all,
}

pub lookup-head :
    {A : Type 0} (n : Text) (a : A) (files : List (Text × A)) → lookup ((n, a) ∷ files) n ≡ some a
unfolding lookup
lookup-head n a files = rw ((text_eq_iff n n).1 refl) refl

lookup-tail :
    {A : Type 0} (m n : Text) (a : A) (files : List (Text × A))
    → text_eq m n ≡ false
    → lookup ((m, a) ∷ files) n ≡ lookup files n
unfolding lookup
lookup-tail m n a files h = rw h refl

module _ {Plan : Type 0} (B : Builder Plan) where
  -- A plan that was built from the job's own ONNX file, with its profile and its precision.
  abbrev pub Built : List (Text × List ℕ) → Job → Plan → Type 0
  Built onnx_dir j plan =
      (onnx : List ℕ) × (network : B.Network) × (lookup onnx_dir j.onnx_name ≡ some onnx)
      × (B.parse onnx ≡ ok network)
      × (B.build_serialized_network network (builder_config j.profile j.fp16) ≡ some plan)

  abbrev made : Plan → B.Network → Job → Info
  made plan network j = record {
    file = j.out;
    build_seconds = some (B.seconds network);
    size = B.st_size plan;
    fp16 = j.fp16;
  }

  make_plan-cases :
      (onnx_dir : List (Text × List ℕ)) (j : Job)
      → ((plan : Plan) × (info : Info) × (make_plan B (lookup onnx_dir j.onnx_name) j
            ≡ ok (plan, info))
          × Built onnx_dir j plan)
        ⊎ ((e : BuildError) × (make_plan B (lookup onnx_dir j.onnx_name) j ≡ raise e))
  unfolding make_plan
  make_plan-cases onnx_dir j = elim (Option-cases (lookup onnx_dir j.onnx_name)) [
    | inl e ↦ inr (not_found j.onnx_name, rw e refl)
    | inr (onnx, e) ↦ elim (Result-cases (B.parse onnx)) [
      | inr (errs, f) ↦ inr (parse_failed errs, rw (e, make_plan, f) refl)
      | inl (network, f) ↦
          elim (Option-cases
            (B.build_serialized_network network (builder_config j.profile j.fp16))) [
              | inl g ↦ inr (build_failed j.onnx_name, rw (e, make_plan, f, g) refl)
              | inr (plan, g) ↦ inl (
                plan,
                made plan network j,
                rw (e, make_plan, f, g) refl,
                (onnx, network, e, f, g),
              )
            ]
    ]
  ]

  module _ (onnx_dir : List (Text × List ℕ)) where
    abbrev pub Outcome : Type 0
    Outcome = List (Text × Plan) × Result BuildError Info

    -- the three ways that the body of the loop ends
    pub ensure-cases :
        (engines : List (Text × Plan)) (j : Job)
        → ((plan : Plan) × (info : Info) × (lookup engines j.out ≡ some plan)
            × (ensure B onnx_dir engines j ≡ (engines, ok info))
            × (info.build_seconds ≡ none))
          ⊎ ((plan : Plan) × (info : Info) × (lookup engines j.out ≡ none)
              × (ensure B onnx_dir engines j ≡ ((j.out, plan) ∷ engines, ok info))
              × Built onnx_dir j plan)
          ⊎ ((e : BuildError) × (lookup engines j.out ≡ none)
              × (ensure B onnx_dir engines j ≡ (engines, raise e)))
    unfolding ensure build_engine
    ensure-cases engines j = elim (Option-cases (lookup engines j.out)) [
      | inr (plan, e) ↦ inl (plan, skipped plan, e, ap branch e, refl)
      | inl e ↦ elim (make_plan-cases onnx_dir j) [
        | inl (plan, info, f, b) ↦ inr (inl (plan, info, e, ap branch e ∙ ap written f, b))
        | inr (x, f) ↦ inr (inr (x, e, ap branch e ∙ ap written f))
      ]
    ]
      where
        skipped : Plan → Info
        skipped plan = record {
          file = j.out;
          build_seconds = none;
          size = B.st_size plan;
          fp16 = j.fp16;
        }

        branch : Option Plan → Outcome
        branch none = build_engine B onnx_dir engines j
        branch (some plan) = (engines, ok (skipped plan))

        written : Result BuildError (Plan × Info) → Outcome
        written (raise e) = (engines, raise e)
        written (ok (plan, info)) = ((j.out, plan) ∷ engines, ok info)

    -- how the loop goes on behind its first round
    abbrev pub go_on :
        Job → List Job → Outcome → List (Text × Plan) × Result BuildError (List (Text × Info))
    go_on j js (engines', raise e) = (engines', raise e)
    go_on j js (engines', ok info) = (
      (build_all B onnx_dir engines' js).0,
      ((build_all B onnx_dir engines' js).1 >>= λ infos. ok ((j.key, info) ∷ infos)),
    )

    pub build_all-go_on :
        (engines : List (Text × Plan)) (j : Job) (js : List Job) (o : Outcome)
        → ensure B onnx_dir engines j ≡ o
        → build_all B onnx_dir engines (j ∷ js) ≡ go_on j js o
    unfolding build_all
    build_all-go_on engines j js o e = ap (go_on j js) e

    -- the plan comes of one of the jobs
    abbrev pub Source : List Job → Text → Plan → Type 0
    Source js n p = (j : Job) × Memᴰ j js × (j.out ≡ n) × Built onnx_dir j p

    later : (j : Job) (js : List Job) (n : Text) (p : Plan) → Source js n p → Source (j ∷ js) n p
    later j js n p (k, m, e, b) = (k, Memᴰ.tail m, e, b)

    new_or_old :
        (engines : List (Text × Plan)) (j : Job) (js : List Job) (plan : Plan) (n : Text) (p : Plan)
        → Built onnx_dir j plan
        → lookup ((j.out, plan) ∷ engines) n ≡ some p
        → (lookup engines n ≡ some p) ⊎ Source (j ∷ js) n p
    new_or_old engines j js plan n p b h = elim (Bool-cases (text_eq j.out n)) [
      | inr ne ↦ inl (sym (lookup-tail j.out n plan engines ne) ∙ h)
      | inl e ↦
          let same : j.out ≡ n = (text_eq_iff j.out n).0 e in
          let at_head : lookup ((j.out, plan) ∷ engines) n ≡ some plan =
            subst (λ m. lookup ((j.out, plan) ∷ engines) m ≡ some plan) same
              (lookup-head j.out plan engines) in
          inr (
            j,
            Memᴰ.head refl,
            same,
            subst (Built onnx_dir j) (some-injective _ _ (sym at_head ∙ h)) b,
          )
    ]

    -- Every plan that the directory holds behind the loop was there before it, or was built from the ONNX
    -- file of one of the jobs, with the profile and the precision of that job, under that job's name;
    -- this holds where the loop ends early on an error too.
    pub build_all-Built :
        (engines : List (Text × Plan)) (js : List Job) (n : Text) (p : Plan)
        → lookup (build_all B onnx_dir engines js).0 n ≡ some p
        → (lookup engines n ≡ some p) ⊎ Source js n p
    unfolding build_all
    build_all-Built engines [] n p h = inl h
    build_all-Built engines (j ∷ js) n p h = elim (ensure-cases engines j) [
      | inl (plan, info, e, s, t) ↦
          elim (build_all-Built engines js n p (behind (engines, ok info) s)) [
            | inl k ↦ inl k
            | inr k ↦ inr (later j js n p k)
          ]
      | inr (inl (plan, info, e, s, b)) ↦
          elim (build_all-Built ((j.out, plan) ∷ engines) js n p
            (behind ((j.out, plan) ∷ engines, ok info) s)) [
              | inl k ↦ new_or_old engines j js plan n p b k
              | inr k ↦ inr (later j js n p k)
            ]
      | inr (inr (x, e, s)) ↦ inl (behind (engines, raise x) s)
    ]
      where
        behind :
            (o : Outcome) → ensure B onnx_dir engines j ≡ o → lookup (go_on j js o).0 n ≡ some p
        behind o s = subst (λ r. lookup (r.0) n ≡ some p) (build_all-go_on engines j js o s) h

    -- what was there stays
    abbrev pub Kept : List (Text × Plan) → List (Text × Plan) → Type 0
    Kept before after = (n : Text) (p : Plan) → lookup before n ≡ some p → lookup after n ≡ some p

    write-Kept :
        (engines : List (Text × Plan)) (m : Text) (plan : Plan)
        → lookup engines m ≡ none
        → Kept engines ((m, plan) ∷ engines)
    write-Kept engines m plan e n p h = elim (Bool-cases (text_eq m n)) [
      | inr ne ↦ lookup-tail m n plan engines ne ∙ h
      | inl t ↦ absurd (none-ne-some _ (sym e ∙ ap (lookup engines) ((text_eq_iff m n).0 t) ∙ h))
    ]

    pub build_all-Kept :
        (engines : List (Text × Plan)) (js : List Job)
        → Kept engines (build_all B onnx_dir engines js).0
    unfolding build_all
    build_all-Kept engines [] n p h = h
    build_all-Kept engines (j ∷ js) n p h = elim (ensure-cases engines j) [
      | inl (plan, info, e, s, t) ↦ before (engines, ok info) s (build_all-Kept engines js n p h)
      | inr (inl (plan, info, e, s, b)) ↦
          before ((j.out, plan) ∷ engines, ok info) s
            (build_all-Kept ((j.out, plan) ∷ engines) js n p
              (write-Kept engines j.out plan e n p h))
      | inr (inr (x, e, s)) ↦ before (engines, raise x) s h
    ]
      where
        before :
            (o : Outcome)
            → ensure B onnx_dir engines j ≡ o
            → lookup (go_on j js o).0 n ≡ some p
            → lookup (build_all B onnx_dir engines (j ∷ js)).0 n ≡ some p
        before o s k =
            subst (λ r. lookup (r.0) n ≡ some p) (sym (build_all-go_on engines j js o s)) k
