-- ===== src/Alignment/Compare.antt =====
-- `compare_against_torch` of streaming/trt_frontend.py. The latents are their frames, and the state of the
-- random generator is passed on: `manual_seed` sets it.
use streaming_tts_serving.Base.{
  ℕ, ◌*◌, ◌≡◌, refl, min, max, Bool, false, not, ◌||◌, Option, none, some, List, [], ◌∷◌, length,
  take, replicate, ◌==◌, ==_iff,
}
use streaming_tts_serving.Base.Text.{Text}
use streaming_tts_serving.Base.Result.{Result, ok, raise, ◌>>=◌}
use streaming_tts_serving.Chunked.{round}

-- a row of `per_text`; the ratio is in thousandths
record TextRow (Std : Type 0) : Type 0 where
  pub text : Text
  pub torch_frames : ℕ
  pub trt_frames : ℕ
  pub frame_ratio : ℕ
  pub torch_std : Std
  pub trt_std : Std

record Comparison (Std : Type 0) : Type 0 where
  pub per_text : List (TextRow Std)
  pub noise_varies_across_calls : Bool

-- The model, the engines and the tokenizer, and of `numpy` the deviation, rounded, and whether the mean
-- difference of two arrays is more than a millionth.
record Parts (E Seed F Std : Type 0) : Type 0 where
  pub manual_seed : ℕ → Seed
  pub tok : Text → List ℕ × Option (List ℕ)
  pub capture : List ℕ → List ℕ → Seed → Result E (List F × Seed)
  pub frontend : List ℕ → List ℕ → Seed → Result E (List F × Seed)
  pub std : List F → Std
  pub is_apart : List F → List F → Bool
  pub index_error : E

module _ {E Seed F Std : Type 0} (p : Parts E Seed F Std) where
  unfoldable mask_of : List ℕ × Option (List ℕ) → List ℕ
  mask_of (ids, none) = replicate (length ids) 1
  mask_of (ids, some mask) = mask

  unfoldable compared : Text → List F → List F → TextRow Std
  compared text a b = record {
    text = take 40 text;
    torch_frames = length a;
    trt_frames = length b;
    frame_ratio = round (length b * 1000) (max (length a) 1);
    torch_std = p.std a;
    trt_std = p.std b;
  }

  -- one round of the loop: the row, and the state of the generator behind it
  unfoldable text_row : ℕ → Text → Result E (TextRow Std × Seed)
  text_row seed text = do
    a ← p.capture (p.tok text).0 (mask_of (p.tok text)) (p.manual_seed seed)
    b ← p.frontend (p.tok text).0 (mask_of (p.tok text)) (p.manual_seed seed)
    ok (compared text (a.0) (b.0), b.1)

  unfoldable text_rows : ℕ → List Text → Seed → Result E (List (TextRow Std) × Seed)
  text_rows seed [] s = ok ([], s)
  text_rows seed (t ∷ ts) s = do
    r ← text_row seed t
    rs ← text_rows seed ts (r.1)
    ok (r.0 ∷ rs.0, rs.1)

  unfoldable varies : List F → List F → Bool
  varies l1 l2 =
      let n = min (length l1) (length l2) in
      not (length l1 == length l2) || p.is_apart (take n l1) (take n l2)

  -- the two calls with one input
  unfoldable vary_of : List ℕ → Seed → Result E Bool
  vary_of ids s = do
    l1 ← p.frontend ids (replicate (length ids) 1) s
    l2 ← p.frontend ids (replicate (length ids) 1) (l1.1)
    ok (varies (l1.0) (l2.0))

  unfoldable compare_against_torch : List Text → ℕ → Seed → Result E (Comparison Std)
  compare_against_torch [] seed s = raise p.index_error
  compare_against_torch (t ∷ ts) seed s = do
    rs ← text_rows seed (t ∷ ts) s
    v ← vary_of (p.tok t).0 (rs.1)
    ok (record { per_text = rs.0; noise_varies_across_calls = v })

  -- The report does not depend on the state that the generator was in.
  compare_against_torch_seeded :
      (texts : List Text) (seed : ℕ) (s s' : Seed)
      → compare_against_torch texts seed s ≡ compare_against_torch texts seed s'
  unfolding compare_against_torch text_rows
  compare_against_torch_seeded [] seed s s' = refl
  compare_against_torch_seeded (t ∷ ts) seed s s' = refl

  -- Where the same frames are not apart, a front end that takes no notice of the noise is seen: its two
  -- calls are found not to vary.
  vary_of-false :
      (ids : List ℕ) (s : Seed) (l : List F) (next : Seed → Seed)
      → ((x : List F) → p.is_apart x x ≡ false)
      → ((t : Seed) → p.frontend ids (replicate (length ids) 1) t ≡ ok (l, next t))
      → vary_of ids s ≡ ok false
  unfolding vary_of varies
  vary_of-false ids s l next same fixed =
      rw (fixed, fixed, same, (==_iff (length l) (length l)).1 refl) refl
