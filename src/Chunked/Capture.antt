-- ===== src/Chunked/Capture.antt =====
-- `_CaptureDecoder` and `capture_latents` of streaming/chunked.py: a forward pass of the model with
-- its decoder swapped for a stub.
use streaming_tts_serving.Base.{◌≡◌, refl, Option, none, some, List, [], ◌∷◌}
use streaming_tts_serving.Base.Result.{Result, ok, raise}

-- The decoder that stands in the model: its own, or the stub with the input that it recorded.
pub data Decoder (Z : Type 0) : Type 0 where
  own : Decoder Z
  stub : Option Z → Decoder Z

pub data CaptureError (E : Type 0) : Type 0 where
  forward_raised : E → CaptureError E
  never_called : CaptureError E

-- A forward pass of `VitsModel`: the inputs that it calls the decoder with, in order, and whether it
-- raises after them.
pub record Forward (Z E : Type 0) : Type 0 where
  pub calls : List Z
  pub raised : Option E

-- the field of the model that is swapped
pub record Model (Z : Type 0) : Type 0 where
  pub decoder : Decoder Z

module _ {Z : Type 0} where
  -- `_CaptureDecoder.forward`
  unfoldable pub record_call : Decoder Z → Z → Decoder Z
  record_call own z = own
  record_call (stub seen) z = stub (some z)

  unfoldable pub record_calls : Decoder Z → List Z → Decoder Z
  record_calls d [] = d
  record_calls d (z ∷ zs) = record_calls (record_call d z) zs

  unfoldable pub recorded : Decoder Z → Option Z
  recorded own = none
  recorded (stub seen) = seen

  -- A forward pass calls whatever decoder stands in the model.
  unfoldable pub run_forward : Model Z → List Z → Model Z
  run_forward m zs = record m { decoder = record_calls m.decoder zs }

  -- the last input of a decoder call
  abbrev pub last_call : Option Z → List Z → Option Z
  last_call z [] = z
  last_call z (z' ∷ zs) = last_call (some z') zs

  recorded-record_calls :
      (z : Option Z) (zs : List Z) → recorded (record_calls (stub z) zs) ≡ last_call z zs
  unfolding record_calls record_call recorded
  recorded-record_calls z [] = refl
  recorded-record_calls z (z' ∷ zs) = recorded-record_calls (some z') zs

module _ {Z E : Type 0} where
  -- The model after the call, and what the call returns or raises. The `finally` assigns the decoder
  -- that was read first, on both ways out of the `try`.
  unfoldable pub capture_latents : Model Z → Forward Z E → Model Z × Result (CaptureError E) Z
  capture_latents model forward =
      let real = model.decoder in
      let swapped : Model Z = record model { decoder = stub none } in
      let ran = run_forward swapped forward.calls in
      let restored : Model Z = record ran { decoder = real } in
      (
        restored,
        (elim forward.raised [
          | some e ↦ raise (forward_raised e)
          | none ↦ elim (recorded ran.decoder) [ none ↦ raise never_called | some z ↦ ok z ]
        ]),
      )

  -- what a forward pass leaves for the caller: its error, or the input of its last decoder call
  abbrev pub outcome : Option E → Option Z → Result (CaptureError E) Z
  outcome (some e) last = raise (forward_raised e)
  outcome none none = raise never_called
  outcome none (some z) = ok z

  outcome_lem :
      (raised : Option E) (last seen : Option Z)
      → seen ≡ last
      → (elim raised [
        | some e ↦ raise (forward_raised e)
        | none ↦ elim seen [ none ↦ raise never_called | some z ↦ ok z ]
      ])
        ≡ outcome raised last
  outcome_lem (some e) last seen h = refl
  outcome_lem none none seen h = rw h refl
  outcome_lem none (some z) seen h = rw h refl

  -- The model keeps its own decoder whatever the pass does; a pass that raises passes its error on,
  -- one that never decodes is an error, and any other gives the input of its last decoder call.
  pub capture_latents_lem :
      (model : Model Z) (forward : Forward Z E)
      → ((capture_latents model forward).0 ≡ model)
        × ((capture_latents model forward).1
            ≡ outcome forward.raised (last_call none forward.calls))
  unfolding capture_latents run_forward
  capture_latents_lem model forward = (
    refl,
    outcome_lem forward.raised (last_call none forward.calls) _
        (recorded-record_calls none forward.calls),
  )
