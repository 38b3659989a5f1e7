-- ===== src/Alignment/Alone.antt =====
-- What the flow engine is given for an utterance, whatever its batch.
use streaming_tts_serving.Base.{
  ℕ, zero, suc, ◌+◌, ◌-◌, ◌≤◌, ◌<◌, ◌≡◌, ◌∙◌, refl, sym, ap, ap₂, min, max, true, false, List, [],
  ◌∷◌, ◌++◌, length, replicate, append_assoc, length-append, length-replicate, ltb, arith,
}
use streaming_tts_serving.Alignment.Profile.{length-over, length-sampled}
use streaming_tts_serving.Alignment.{
  Additive, Token, predicted_length, longest, batch_frames, over, valid, output_padding_mask, times,
  attend, expand, masked, pad_frames, sampled, prior, flow_rows, flow_input,
}

over-add : {A : Type 0} (t a b : ℕ) (f : ℕ → A) → over t (a + b) f ≡ over t a f ++ over (t + a) b f
unfolding over
over-add t zero b f =
    let e : t + 0 ≡ t = omega arith in let z : 0 + b ≡ b = omega arith in rw (e, z) refl
over-add t (suc a) b f =
    let e : suc t + a ≡ t + suc a = omega arith in
    let z : suc a + b ≡ suc (a + b) = omega arith in
    rw z (ap (◌∷◌ (f t)) (over-add (suc t) a b f ∙ ap (λ k. over (suc t) a f ++ over k b f) e))

over-same :
    {A : Type 0} (t n : ℕ) (f g : ℕ → A)
    → ((i : ℕ) → t ≤ i → i < t + n → f i ≡ g i)
    → over t n f ≡ over t n g
unfolding over
over-same t zero f g h = refl
over-same t (suc n) f g h =
    ap₂ (◌∷◌) (h t (omega arith) (omega arith))
      (over-same (suc t) n f g (λ i le lt. h i (omega arith) (omega arith)))

over-replicate : {A : Type 0} (t n : ℕ) (a : A) → over t n (λ i. a) ≡ replicate n a
unfolding over
over-replicate t zero a = refl
over-replicate t (suc n) a = ap (◌∷◌ a) (over-replicate (suc t) n a)

replicate-add :
    {A : Type 0} (n m : ℕ) (a : A) → replicate n a ++ replicate m a ≡ replicate (n + m) a
replicate-add zero m a = let e : 0 + m ≡ m = omega arith in rw e refl
replicate-add (suc n) m a =
    let e : suc n + m ≡ suc (n + m) = omega arith in rw e (ap (◌∷◌ a) (replicate-add n m a))

module _ {F : Type 0} (A : Additive F) where
  masked-over :
      (t n : ℕ) (m : ℕ → ℕ) (f : ℕ → F)
      → masked A (over t n m) (over t n f) ≡ over t n (λ i. times A (m i) (f i))
  unfolding masked over
  masked-over t zero m f = refl
  masked-over t (suc n) m f = ap (◌∷◌ (times A (m t) (f t))) (masked-over (suc t) n m f)

  times_one : (x : F) → times A 1 x ≡ x
  unfolding times
  times_one x = A.add_silence x

  times_valid : (i n : ℕ) (x : F) → i < n → times A (valid i n) x ≡ x
  unfolding valid
  times_valid i n x h = let e : ltb i n ≡ true = ground arith in rw e (times_one x)

  times_invalid : (i n : ℕ) (x : F) → n ≤ i → times A (valid i n) x ≡ A.silence
  unfolding valid times
  times_invalid i n x h = let e : ltb i n ≡ false = ground arith in rw e refl

  sampled-over :
      (sample : ℕ → F → F) (t n : ℕ) (f : ℕ → F)
      → sampled A sample t (over t n f) ≡ over t n (λ i. sample i (f i))
  unfolding sampled over
  sampled-over sample t zero f = refl
  sampled-over sample t (suc n) f = ap (◌∷◌ (sample t (f t))) (sampled-over sample (suc t) n f)

  -- The latents of an utterance on its own, with the noise that was drawn for it: its predicted frames, each
  -- with the prior of its token.
  abbrev pub own : ℕ → (ℕ → F → F) → List (Token F) → List F
  own max_frames sample ts =
      let n = predicted_length max_frames ts in sampled A sample 0 (expand A n n ts)

  prior-own :
      (max_frames : ℕ) (sample : ℕ → F → F) (frames : ℕ) (ts : List (Token F))
      → predicted_length max_frames ts ≤ frames
      → prior A max_frames sample frames ts
        ≡ own max_frames sample ts ++ replicate (frames - predicted_length max_frames ts) A.silence
  unfolding prior expand output_padding_mask
  prior-own max_frames sample frames ts h =
      let n = predicted_length max_frames ts in
      let rest = frames - n in
      let all : frames ≡ n + rest = omega arith in
      ap (masked A (over 0 frames (λ t. valid t n))) (sampled-over sample 0 frames (frame ts n))
      ∙ masked-over 0 frames (λ t. valid t n) (λ t. sample t (frame ts n t))
      ∙ ap (λ k. over 0 k (λ t. times A (valid t n) (sample t (frame ts n t)))) all
      ∙ over-add 0 n rest (λ t. times A (valid t n) (sample t (frame ts n t)))
      ∙ ap₂ (◌++◌)
          (over-same 0 n (λ t. times A (valid t n) (sample t (frame ts n t)))
              (λ t. sample t (frame ts n t))
              (λ i le lt. times_valid i n (sample i (frame ts n i)) (omega arith))
            ∙ sym (sampled-over sample 0 n (frame ts n)))
          (over-same (0 + n) rest (λ t. times A (valid t n) (sample t (frame ts n t)))
              (λ t. A.silence)
              (λ i le lt. times_invalid i n (sample i (frame ts n i)) (omega arith))
            ∙ over-replicate (0 + n) rest A.silence)
    where
      frame : List (Token F) → ℕ → ℕ → F
      frame ts n t = attend A t (valid t n) 0 0 ts

  length-own :
      (max_frames : ℕ) (sample : ℕ → F → F) (ts : List (Token F))
      → length (own max_frames sample ts) ≡ predicted_length max_frames ts
  unfolding expand
  length-own max_frames sample ts =
      length-sampled A sample 0 _ ∙ length-over 0 (predicted_length max_frames ts) _

  -- the padding of a batch, and that up to the engine's minimum
  padded-own :
      (max_frames : ℕ) (sample : ℕ → F → F) (frames to : ℕ) (ts : List (Token F))
      → predicted_length max_frames ts ≤ frames
      → frames ≤ to
      → pad_frames A.silence to (prior A max_frames sample frames ts)
        ≡ own max_frames sample ts ++ replicate (to - predicted_length max_frames ts) A.silence
  unfolding pad_frames
  padded-own max_frames sample frames to ts h h' =
      let n = predicted_length max_frames ts in
      let z = own max_frames sample ts in
      let row : prior A max_frames sample frames ts ≡ z ++ replicate (frames - n) A.silence =
        prior-own max_frames sample frames ts h in
      let wide : length (z ++ replicate (frames - n) A.silence) ≡ frames = omega (
        arith,
        length-append z (replicate (frames - n) A.silence),
        length-own max_frames sample ts,
        length-replicate (frames - n) A.silence,
      ) in
      let both : (frames - n) + (to - frames) ≡ to - n = omega arith in
      ap (λ fs. fs ++ replicate (to - length fs) A.silence) row
      ∙ ap (λ k. (z ++ replicate (frames - n) A.silence) ++ replicate (to - k) A.silence) wide
      ∙ append_assoc z (replicate (frames - n) A.silence) (replicate (to - frames) A.silence)
      ∙ ap (λ fs. z ++ fs)
          (replicate-add (frames - n) (to - frames) A.silence
            ∙ ap (λ k. replicate k A.silence) both)

  -- the items from the `b`-th on by themselves, with silence up to `to` frames
  abbrev pub own_rows : ℕ → (ℕ → ℕ → F → F) → ℕ → ℕ → List (List (Token F)) → List (List F)
  own_rows max_frames sample to b [] = []
  own_rows max_frames sample to b (ts ∷ batch) =
      (own max_frames (sample b) ts ++ replicate (to - predicted_length max_frames ts) A.silence)
      ∷ own_rows max_frames sample to (suc b) batch

  module _ (max_frames min_frames : ℕ) (sample : ℕ → ℕ → F → F)
      (flow : List (List F) → List (List ℕ) → List (List F)) where
    flow_rows-own :
        (frames b : ℕ) (batch : List (List (Token F)))
        → min (longest max_frames batch) max_frames ≤ frames
        → flow_rows A max_frames min_frames sample flow frames b batch
          ≡ own_rows max_frames sample (max frames min_frames) b batch
    unfolding flow_rows longest predicted_length
    flow_rows-own frames b [] h = refl
    flow_rows-own frames b (ts ∷ batch) h =
        ap₂ (◌∷◌)
          (padded-own max_frames (sample b) frames (max frames min_frames) ts (omega arith)
            (omega arith))
          (flow_rows-own frames (suc b) batch (omega arith))

    -- The flow engine is given each utterance as its own frames, with silence behind them: a row of the batch
    -- depends on the utterance and on the noise that was drawn for the row's own places, on nothing else in
    -- the batch, and no noise follows the frames up to the length of the batch and the engine's minimum.
    pub flow_input-own :
        (batch : List (List (Token F)))
        → flow_input A max_frames min_frames sample flow batch
          ≡ own_rows max_frames sample (max (batch_frames max_frames batch) min_frames) 0 batch
    unfolding flow_input
    flow_input-own batch =
        flow_rows-own (batch_frames max_frames batch) 0 batch (unfold batch_frames in omega arith)
