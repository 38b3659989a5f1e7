-- ===== src/Frontend/Text.antt =====
-- model_repo/tts_frontend/1/model.py: text to token ids. The tokenizer is a parameter.
use mathlib.Core.List.{cons-ne-nil}
use streaming_tts_serving.Base.{
  ℕ, zero, suc, ◌≢◌, ◌≡◌, refl, Option, none, some, List, [], ◌∷◌, length, take, replicate,
  get_elem?, arith, inl, inr,
}
use streaming_tts_serving.Base.Result.{Result, ok, raise, ◌>>=◌, Result-cases}
use streaming_tts_serving.Base.Text.{Text}
use streaming_tts_serving.Base.Utf8.{encode, decode}
use streaming_tts_serving.TextNorm.{normalize}
use streaming_tts_serving.TextNorm.Words.{Engine}

-- An element of the TEXT tensor.
pub data Raw : Type 0 where
  bytes : List ℕ → Raw
  chars : Text → Raw

-- What the tokenizer returns; some checkpoints give no mask.
pub record Encoding : Type 0 where
  pub input_ids : List ℕ
  pub attention_mask : Option (List ℕ)

pub data FrontendError (E : Type 0) : Type 0 where
  no_text : FrontendError E
  bad_utf8 : FrontendError E
  normalized_to_empty : FrontendError E
  tokenizer : E → FrontendError E

pub record Tensors : Type 0 where
  pub input_ids : List ℕ
  pub attention_mask : List ℕ
  pub normalized_text : List ℕ

pub data Response (E : Type 0) : Type 0 where
  tensors : Tensors → Response E
  error : FrontendError E → Response E

module _ {E : Type 0} (engine : Engine) (tok : Text → Result E Encoding) (max_chars : ℕ) where
  -- `raw.reshape(-1)[0]`, decoded where it is bytes
  unfoldable pub read_text : List Raw → Result (FrontendError E) Text
  read_text [] = raise no_text
  read_text (chars t ∷ rest) = ok t
  read_text (bytes b ∷ rest) = elim (decode b) [ none ↦ raise bad_utf8 | some t ↦ ok t ]

  unfoldable pub tokenize : Text → Result (FrontendError E) Encoding
  tokenize norm = elim (tok norm) [ raise e ↦ raise (tokenizer e) | ok enc ↦ ok enc ]

  -- `_one`, behind the normalization
  unfoldable pub one_normalized : Text → Result (FrontendError E) Tensors
  one_normalized [] = raise normalized_to_empty
  one_normalized (c ∷ s) = do
    enc ← tokenize (c ∷ s)
    ok (record {
      input_ids = enc.input_ids;
      attention_mask = elim enc.attention_mask [
        | none ↦ replicate (length enc.input_ids) 1
        | some mask ↦ mask
      ];
      normalized_text = encode (c ∷ s);
    })

  -- `_one`
  unfoldable pub one : List Raw → Result (FrontendError E) Tensors
  one request = do text ← read_text request; one_normalized (normalize engine (take max_chars text))

  unfoldable pub respond : List Raw → Response E
  respond request = elim (one request) [ ok t ↦ tensors t | raise e ↦ error e ]

  -- `execute`
  unfoldable pub execute : List (List Raw) → List (Response E)
  execute [] = []
  execute (r ∷ rs) = respond r ∷ execute rs

  -- There is one response for each request, in order, and it depends on that request alone: an error
  -- of one reaches no other.
  pub execute-respond :
      (rs : List (List Raw)) (i : ℕ) {r : List Raw}
      → get_elem? rs i ≡ some r
      → get_elem? (execute rs) i ≡ some (respond r)
  unfolding execute
  execute-respond [] i h = cc
  execute-respond (r ∷ rs) zero h = ground arith
  execute-respond (r ∷ rs) (suc i) h = execute-respond rs i h

  -- What a served text comes with.
  pub record Served (text : Text) (t : Tensors) : Type 0 where
    pub spoken : Text
    pub spoken_lem : spoken ≡ normalize engine (take max_chars text)
    pub nonempty : spoken ≢ []
    pub encoding : Encoding
    pub tokenized : tok spoken ≡ ok encoding
    pub ids : t.input_ids ≡ encoding.input_ids
    pub mask :
        t.attention_mask
        ≡ elim encoding.attention_mask [ none ↦ replicate (length t.input_ids) 1 | some m ↦ m ]
    pub text_lem : t.normalized_text ≡ encode spoken

  one_normalized-Served :
      (text norm : Text) (t : Tensors)
      → norm ≡ normalize engine (take max_chars text)
      → one_normalized norm ≡ ok t
      → Served text t
  unfolding one_normalized tokenize
  one_normalized-Served text [] t e h = cc
  one_normalized-Served text (c ∷ s) t e h = elim (Result-cases (tok (c ∷ s))) [
    | inl (enc, q) ↦ record {
      spoken = c ∷ s;
      spoken_lem = e;
      nonempty = cons-ne-nil c s;
      encoding = enc;
      tokenized = q;
      ids = ground arith;
      mask = ground arith;
      text_lem = ground arith;
    }
    | inr (x, q) ↦ ground arith
  ]

  -- A request that is served was normalized to a text that is not empty, and answers with that text,
  -- the tokenizer's ids for it and a mask: the tokenizer's, or as many ones as there are ids.
  pub one-Served :
      (text : Text) (rest : List Raw) (t : Tensors) → one (chars text ∷ rest) ≡ ok t → Served text t
  unfolding one read_text
  one-Served text rest t h = one_normalized-Served text _ t refl h
