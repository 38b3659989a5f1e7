-- ===== src/Alignment/Profile.antt =====
-- The lengths that the flow engine is called with.
use streaming_tts_serving.Base.{
  ℕ, zero, suc, ◌-◌, ◌≤◌, ◌≡◌, ◌∙◌, refl, sym, ap, min, max, List, [], ◌∷◌, map, length, replicate,
  All, arith, length-append, length-replicate,
}
use streaming_tts_serving.Alignment.{
  Additive, Token, predicted_length, longest, batch_frames, over, valid, output_padding_mask,
  attend, expand, masked, pad_frames, sampled, prior, flow_rows, flow_input, flow_mask,
}

pub length-over : {B : Type 0} (t n : ℕ) (f : ℕ → B) → length (over t n f) ≡ n
unfolding over
length-over t zero f = refl
length-over t (suc n) f = ap suc (length-over (suc t) n f)

module _ {F : Type 0} (A : Additive F) where
  length-masked :
      (ms : List ℕ) (fs : List F) → length ms ≡ length fs → length (masked A ms fs) ≡ length fs
  unfolding masked
  length-masked [] fs h = h
  length-masked (m ∷ ms) [] h = refl
  length-masked (m ∷ ms) (f ∷ fs) h = ap suc (length-masked ms fs (omega arith))

  length-pad_frames :
      {B : Type 0} (b : B) (n : ℕ) (fs : List B) → length fs ≤ n → length (pad_frames b n fs) ≡ n
  unfolding pad_frames
  length-pad_frames b n fs h =
      omega
        (arith, length-append fs (replicate (n - length fs) b), length-replicate (n - length fs) b)

  length-mask : (frames n : ℕ) → length (output_padding_mask frames n) ≡ frames
  unfolding output_padding_mask
  length-mask frames n = length-over 0 frames (λ t. valid t n)

  pub length-sampled :
      (sample : ℕ → F → F) (t : ℕ) (fs : List F) → length (sampled A sample t fs) ≡ length fs
  unfolding sampled
  length-sampled sample t [] = refl
  length-sampled sample t (f ∷ fs) = ap suc (length-sampled sample (suc t) fs)

  length-expand :
      (sample : ℕ → F → F) (frames n : ℕ) (ts : List (Token F))
      → length (sampled A sample 0 (expand A frames n ts)) ≡ frames
  unfolding expand
  length-expand sample frames n ts =
      length-sampled sample 0 _ ∙ length-over 0 frames (λ t. attend A t (valid t n) 0 0 ts)

  module _ (max_frames min_frames : ℕ) (sample : ℕ → ℕ → F → F)
      (flow : List (List F) → List (List ℕ) → List (List F)) where
    length-prior :
        (b frames : ℕ) (ts : List (Token F))
        → length (prior A max_frames (sample b) frames ts) ≡ frames
    unfolding prior
    length-prior b frames ts =
        let n = predicted_length max_frames ts in
        length-masked (output_padding_mask frames n) (sampled A (sample b) 0 (expand A frames n ts))
          (length-mask frames n ∙ sym (length-expand (sample b) frames n ts))
        ∙ length-expand (sample b) frames n ts

    -- The flow engine is called within its profile: every row of its input and of its mask has the same
    -- number of frames, at least `min_frames` and at most the larger of the two bounds, whatever
    -- the durations.
    pub flow_input-bounds :
        (batch : List (List (Token F)))
        → 1 ≤ max_frames
        → (n : ℕ) × ((min_frames ≤ n)
            × ((n ≤ max max_frames min_frames)
                × (All
                      (λ row. length row ≡ n)
                      (flow_input A max_frames min_frames sample flow batch)
                    × All
                        (λ row. length row ≡ n)
                        (flow_mask A max_frames min_frames sample flow batch))))
    unfolding flow_input flow_rows flow_mask batch_frames
    flow_input-bounds batch h =
        let frames = max 1 (min (longest max_frames batch) max_frames) in
        (max frames min_frames, (omega arith, (omega arith, (rows 0 batch, masks batch))))
      where
        rows :
            (b : ℕ) (bs : List (List (Token F)))
            → All
                (λ row. length row ≡ max (batch_frames max_frames batch) min_frames)
                (flow_rows A max_frames min_frames sample flow (batch_frames max_frames batch) b bs)
        rows b [] = tt
        rows b (ts ∷ bs) = (
          length-pad_frames A.silence (max (batch_frames max_frames batch) min_frames) _
              (omega (arith, length-prior b (batch_frames max_frames batch) ts)),
          rows (suc b) bs,
        )

        masks :
            (bs : List (List (Token F)))
            → All
                (λ row. length row ≡ max (batch_frames max_frames batch) min_frames)
                (map
                  (λ ts. pad_frames 0 (max (batch_frames max_frames batch) min_frames) (
                    output_padding_mask
                      (batch_frames max_frames batch)
                      (predicted_length max_frames ts)))
                  bs)
        masks [] = tt
        masks (b ∷ bs) = (
          length-pad_frames 0 (max (batch_frames max_frames batch) min_frames) _ (
              omega (
                arith,
                length-mask (batch_frames max_frames batch) (predicted_length max_frames b),
              )),
          masks bs,
        )
