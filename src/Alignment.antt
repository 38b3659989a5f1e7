-- ===== src/Alignment.antt =====
-- The TensorRT front half, streaming/trt_frontend.py: token durations to an alignment, the prior
-- spread over the frames, and the lengths that the flow engine is called with.
-- The three engines and the noise are parameters; so is the real arithmetic behind a duration.
pub mod Compare
pub mod Laws
pub mod Profile
pub mod Alone
use streaming_tts_serving.Base.{
  ℕ, zero, suc, ◌+◌, ◌-◌, ◌*◌, ◌≡◌, min, max, Bool, true, false, List, [], ◌∷◌, ◌++◌, map, length,
  take, replicate, ltb, leb, ◌==◌, if◌then◌else◌,
}

-- The numbers that stand in a tensor: only the sum and the zero are used of them.
pub record Additive (F : Type 0) : Type 0 where
  pub silence : F
  pub add : F → F → F
  pub add_silence : (x : F) → add x silence ≡ x
  pub silence_add : (x : F) → add silence x ≡ x

-- A token of an utterance: its mask, its duration in frames before the mask is applied, and its prior.
pub record Token (F : Type 0) : Type 0 where
  pub mask : ℕ
  pub frames : ℕ
  pub mean : F

-- `duration`: a masked token has none
unfoldable pub duration : {F : Type 0} → Token F → ℕ
duration t = t.mask * t.frames

unfoldable pub total_duration : {F : Type 0} → List (Token F) → ℕ
total_duration [] = 0
total_duration (t ∷ ts) = duration t + total_duration ts

-- `predicted_lengths`
unfoldable pub predicted_length : {F : Type 0} → ℕ → List (Token F) → ℕ
predicted_length max_frames ts = min (max (total_duration ts) 1) max_frames

unfoldable pub longest : {F : Type 0} → ℕ → List (List (Token F)) → ℕ
longest max_frames [] = 0
longest max_frames (ts ∷ batch) = max (predicted_length max_frames ts) (longest max_frames batch)

-- `T`
unfoldable pub batch_frames : {F : Type 0} → ℕ → List (List (Token F)) → ℕ
batch_frames max_frames batch = max 1 (min (longest max_frames batch) max_frames)

-- the values for `count` numbers from `t` on, as `torch.arange` broadcasts
unfoldable pub over : {A : Type 0} → ℕ → ℕ → (ℕ → A) → List A
over t zero f = []
over t (suc count) f = f t ∷ over (suc t) count f

-- `idx < n`, as a number
unfoldable pub valid : ℕ → ℕ → ℕ
valid t n = if ltb t n then 1 else 0

unfoldable pub output_padding_mask : ℕ → ℕ → List ℕ
output_padding_mask frames n = over 0 frames (λ t. valid t n)

-- the padding up to `min_frames`
unfoldable pub pad_frames : {B : Type 0} → B → ℕ → List B → List B
pad_frames b pad_to fs = fs ++ replicate (pad_to - length fs) b

module _ {F : Type 0} (A : Additive F) where
  -- `n * x` for a number of a mask or an alignment
  unfoldable pub times : ℕ → F → F
  times zero x = A.silence
  times (suc n) x = A.add x (times n x)

  -- one row of `attn` times the priors: for each token the difference of `valid` at the end of its frames
  -- and at their beginning, under both masks. `acc` is the cumulative duration so far.
  unfoldable pub attend : ℕ → ℕ → ℕ → ℕ → List (Token F) → F
  attend t out prev acc [] = A.silence
  attend t out prev acc (k ∷ ks) =
      let cum = acc + duration k in
      A.add (times ((valid t cum - prev) * (k.mask * out)) k.mean)
        (attend t out (valid t cum) cum ks)

  -- `m_p` spread over the frames of the batch
  unfoldable pub expand : ℕ → ℕ → List (Token F) → List F
  expand frames n ts = over 0 frames (λ t. attend t (valid t n) 0 0 ts)

  -- a tensor times `output_padding_mask`
  unfoldable pub masked : List ℕ → List F → List F
  masked [] fs = []
  masked (m ∷ ms) [] = []
  masked (m ∷ ms) (f ∷ fs) = times m f ∷ masked ms fs

  -- the frames from the `t`-th on, each with the noise that was drawn for its place
  unfoldable pub sampled : (ℕ → F → F) → ℕ → List F → List F
  sampled sample t [] = []
  sampled sample t (f ∷ fs) = sample t f ∷ sampled sample (suc t) fs

  -- `z_p`, with the tail behind the item's own frames zeroed
  unfoldable pub prior : ℕ → (ℕ → F → F) → ℕ → List (Token F) → List F
  prior max_frames sample frames ts =
      let n = predicted_length max_frames ts in
      masked (output_padding_mask frames n) (sampled sample 0 (expand frames n ts))

  -- the output of the flow, trimmed and masked again
  unfoldable pub trimmed : ℕ → ℕ → List (List (Token F)) → List (List F) → List (List F)
  trimmed max_frames frames [] out = []
  trimmed max_frames frames (ts ∷ batch) [] = []
  trimmed max_frames frames (ts ∷ batch) (row ∷ out) =
      masked (output_padding_mask frames (predicted_length max_frames ts)) (take frames row)
      ∷ trimmed max_frames frames batch out

  -- `sample b t` turns the prior of the frame `t` of the item `b` into its value in `z_p`: `torch.randn_like`
  -- draws a number for each element of the batch, and one call of it is one such function.
  module _ (max_frames min_frames : ℕ) (sample : ℕ → ℕ → F → F)
      (flow : List (List F) → List (List ℕ) → List (List F)) where
    -- the rows of the items from the `b`-th on
    unfoldable pub flow_rows : ℕ → ℕ → List (List (Token F)) → List (List F)
    flow_rows frames b [] = []
    flow_rows frames b (ts ∷ batch) =
        pad_frames A.silence (max frames min_frames) (prior max_frames (sample b) frames ts)
        ∷ flow_rows frames (suc b) batch

    -- what the flow engine is called with
    unfoldable pub flow_input : List (List (Token F)) → List (List F)
    flow_input batch = flow_rows (batch_frames max_frames batch) 0 batch

    unfoldable pub flow_mask : List (List (Token F)) → List (List ℕ)
    flow_mask batch =
        let frames = batch_frames max_frames batch in
        map
          (λ ts.
            pad_frames 0 (max frames min_frames)
              (output_padding_mask frames (predicted_length max_frames ts)))
          batch

    -- `__call__`
    unfoldable pub call : List (List (Token F)) → List (List F)
    call batch =
        trimmed max_frames (batch_frames max_frames batch) batch
          (flow (flow_input batch) (flow_mask batch))
