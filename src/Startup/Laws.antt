-- ===== src/Startup/Laws.antt =====
-- A start without engines, and text over the wire.
use streaming_tts_serving.Base.{
  ℕ, Option, none, some, List, [], ◌∷◌, ◌++◌, ◌≡◌, ◌∙◌, refl, ap, All, if_both, take, length,
  replicate, inl, inr,
}
use streaming_tts_serving.Base.Text.{Text, codes, text_eq}
use streaming_tts_serving.Base.Result.{Result, Result-cases, ok, raise, ◌>>=◌}
use streaming_tts_serving.Base.Utf8.{encode, decode, IsScalar, decode-encode}
use streaming_tts_serving.Frontend.Text.{
  bytes, chars, Encoding, Tensors, FrontendError, bad_utf8, normalized_to_empty, tokenizer,
  tokenize, one_normalized, one, read_text,
}
use streaming_tts_serving.TextNorm.{normalize}
use streaming_tts_serving.TextNorm.Words.{Engine}
use streaming_tts_serving.Startup.{
  HopError, call_failed, not_text, frontend, LatentBackend, param, models, try_trt,
  initialize_latents, latents_of,
}

read_text-bytes :
    {E : Type 0} (engine : Engine) (tok : Text → Result E Encoding) (max_chars : ℕ) (text : Text)
    → All IsScalar text
    → read_text engine tok max_chars (bytes (encode text) ∷ []) ≡ ok text
unfolding read_text
read_text-bytes engine tok max_chars text s =
    ap (λ o. elim o [ none ↦ raise bad_utf8 | some t ↦ ok t ]) (decode-encode text s)

-- Text that the client encodes is read by the text front end as it was, so the request is served as
-- one with the same characters.
pub one-bytes :
    {E : Type 0} (engine : Engine) (tok : Text → Result E Encoding) (max_chars : ℕ) (text : Text)
    → All IsScalar text
    → one engine tok max_chars (bytes (encode text) ∷ [])
      ≡ one engine tok max_chars (chars text ∷ [])
unfolding one read_text
one-bytes engine tok max_chars text s =
    ap (λ r. r >>= (λ t. one_normalized engine tok max_chars (normalize engine (take max_chars t))))
      (read_text-bytes engine tok max_chars text s)

one-chars :
    {E : Type 0} (engine : Engine) (tok : Text → Result E Encoding) (max_chars : ℕ) (text : Text)
    → one engine tok max_chars (chars text ∷ [])
      ≡ one_normalized engine tok max_chars (normalize engine (take max_chars text))
unfolding one read_text
one-chars engine tok max_chars text = refl

-- What the client gets of the front hop, for the normalized text and what the tokenizer makes of it.
abbrev pub spoken :
    {E : Type 0}
    → Text
    → Result E Encoding
    → Result (HopError (FrontendError E)) (List ℕ × (List ℕ × Text))
spoken [] enc = raise (call_failed normalized_to_empty)
spoken (c ∷ norm) (raise e) = raise (call_failed (tokenizer e))
spoken (c ∷ norm) (ok enc) = ok (
  enc.input_ids,
  (
    elim enc.attention_mask [ none ↦ replicate (length enc.input_ids) 1 | some mask ↦ mask ],
    c ∷ norm,
  ),
)

-- the rest of the hop, behind the response
abbrev opened : {E : Type 0} → Result E Tensors → Result (HopError E) (List ℕ × (List ℕ × Text))
opened response = elim response [
  | raise e ↦ raise (call_failed e)
  | ok t ↦ elim (decode t.normalized_text) [
    | none ↦ raise not_text
    | some norm ↦ ok (t.input_ids, (t.attention_mask, norm))
  ]
]

opened-tensors :
    {E : Type 0} (t : Tensors) (norm : Text)
    → decode t.normalized_text ≡ some norm
    → opened {E = E} (ok t) ≡ ok (t.input_ids, (t.attention_mask, norm))
opened-tensors t norm h =
    ap
      (λ o. elim o [
        | none ↦ raise not_text
        | some norm ↦ ok (t.input_ids, (t.attention_mask, norm))
      ])
      h

opened-one_normalized :
    {E : Type 0} (engine : Engine) (tok : Text → Result E Encoding) (max_chars : ℕ) (norm : Text)
    → All IsScalar norm
    → opened (one_normalized engine tok max_chars norm) ≡ spoken norm (tok norm)
unfolding one_normalized tokenize
opened-one_normalized engine tok max_chars [] h = refl
opened-one_normalized engine tok max_chars (c ∷ norm) h = elim (Result-cases (tok (c ∷ norm))) [
  | inl (enc, e) ↦
      rw (one_normalized, tokenize, e) (opened-tensors _ (c ∷ norm) (decode-encode (c ∷ norm) h))
  | inr (x, e) ↦ rw (one_normalized, tokenize, e) refl
]

-- Text goes from the client over the wire to the text front end and back: the client gets the ids of the
-- normalized text, cut to the first `max_chars` characters before, their mask, or as many ones where the
-- tokenizer gives none, and the normalized text itself; and the error of the front end where nothing is left
-- of the text, or where the tokenizer raises. Both texts are of Unicode's scalar values.
pub frontend-spoken :
    {E : Type 0} (engine : Engine) (tok : Text → Result E Encoding) (max_chars : ℕ) (text : Text)
    → All IsScalar text
    → All IsScalar (normalize engine (take max_chars text))
    → frontend (one engine tok max_chars) text
      ≡ spoken
          (normalize engine (take max_chars text))
          (tok (normalize engine (take max_chars text)))
unfolding frontend
frontend-spoken engine tok max_chars text h n =
    ap opened (one-bytes engine tok max_chars text h ∙ one-chars engine tok max_chars text)
    ∙ opened-one_normalized engine tok max_chars (normalize engine (take max_chars text)) n

no_engines :
    {E M R : Type 0} (lower : Text → Text) (load : Text → Result E M)
    (build : Text → M → Result E R) (want dir : Text) (model : M) (e : E)
    → build dir model ≡ raise e
    → try_trt lower load build want dir model ≡ none
unfolding try_trt
no_engines lower load build want dir model e h =
    if_both (λ o. o ≡ none) (text_eq want (codes "trt")) _ _
      (ap (λ r. elim r [ ok r ↦ some r | raise e ↦ none ]) h) refl

-- A model that loads starts the latent backend even where the TensorRT front half cannot be built,
-- and every batch then goes the PyTorch way.
pub initialize_latents-fallback :
    {E M R Ids Z : Type 0} (lower : Text → Text) (load : Text → Result E M)
    (build : Text → M → Result E R) (run_trt : R → Ids → Result E Z)
    (capture : M → Ids → Result E Z) (env : Option Text) (params : List (Text × Option Text))
    (model : M) (ids : Ids) (why : Text → M → E)
    → load (param params (codes "model_dir") (models env ++ codes "/facebook__mms-tts-eng"))
      ≡ ok model
    → ((dir : Text) (m : M) → build dir m ≡ raise (why dir m))
    → (b : LatentBackend M R) × ((initialize_latents lower load build env params ≡ ok b)
        × (latents_of run_trt capture b ids ≡ capture model ids))
unfolding initialize_latents latents_of
initialize_latents-fallback lower load build run_trt capture env params model ids why h f = (
  record { model = model; trt = none },
  (
    ap
          (λ r. r >>= (λ m. ok (record {
            model = m;
            trt =
                try_trt lower load build (lower (param params (codes "backend") (codes "trt")))
                  (param params (codes "engines_dir") (models env ++ codes "/engines")) m;
          })))
          h
        ∙ ap (λ o. ok (record { model = model; trt = o }))
            (no_engines lower load build _ _ model (why _ model) (f _ model)),
    refl,
  ),
)
